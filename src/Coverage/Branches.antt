-- ===== src/Coverage/Branches.antt =====
-- src/coverage/branch_info.c: the branches of a function, and the paths through them.
pub mod Edges
pub mod Ending
pub mod Trails
pub mod Walks
pub mod Closing
use xdebug.Prelude.{
  ℕ, zero, suc, ◌+◌, ◌-◌, ◌^◌, Bool, true, false, not, ◌&&◌, ◌||◌, Option, none, some, List, [],
  ◌∷◌, ◌++◌, Bytes, codes, if◌then◌else◌, ltb, leb, ◌==◌, length, get_or, set, take, replicate,
}
use xdebug.Prelude.Decimal.{decimal}
use xdebug.BitSet
use xdebug.BitSet.{BitSet, in_set, test_bit, set_bit}
use xdebug.Hash
use xdebug.Hash.{Hash, str}

-- XDEBUG_BRANCH_MAX_OUTS, XDEBUG_MAX_PATHS and XDEBUG_JMP_EXIT
abbrev pub max_outs : ℕ
max_outs = 64

abbrev pub max_paths : ℕ
max_paths = 4096

abbrev pub jmp_exit : ℕ
jmp_exit = 2 ^ 31 - 3

-- struct _xdebug_branch; the positions are those of opcodes, which are not negative
pub record Branch : Type 0 where
  pub start_lineno : ℕ
  pub end_lineno : ℕ
  pub end_op : ℕ
  pub outs_count : ℕ
  pub outs : List ℕ

-- struct _xdebug_branch_info, with the paths of its path_info; struct _xdebug_path is the list of
-- its elements
pub record BranchInfo : Type 0 where
  pub size : ℕ
  pub entry_points : BitSet
  pub starts : BitSet
  pub ends : BitSet
  pub branches : List Branch
  pub paths : List (List ℕ)
  pub path_hash : Hash (List ℕ)

-- a branch of calloc'ed memory; it also stands for a read outside of the block
abbrev pub no_branch : Branch
no_branch = record {
  start_lineno = 0;
  end_lineno = 0;
  end_op = 0;
  outs_count = 0;
  outs = replicate max_outs 0;
}

-- xdebug_branch_info_create
unfoldable pub branch_info_create : ℕ → BranchInfo
branch_info_create size = record {
  size = size;
  entry_points = BitSet.create size;
  starts = BitSet.create size;
  ends = BitSet.create size;
  branches = replicate size no_branch;
  paths = [];
  path_hash = Hash.alloc 128 false;
}

abbrev pub branch_at : List Branch → ℕ → Branch
branch_at branches nr = get_or branches nr no_branch

-- xdebug_branch_info_update
unfoldable pub with_out : Branch → ℕ → ℕ → Branch
with_out b outidx jump_pos =
    if ltb outidx max_outs
    then record b {
      outs = set b.outs outidx jump_pos;
      outs_count = if ltb b.outs_count (outidx + 1) then outidx + 1 else b.outs_count;
    }
    else b

unfoldable pub branch_info_update : BranchInfo → ℕ → ℕ → ℕ → ℕ → BranchInfo
branch_info_update info pos lineno outidx jump_pos =
    let b = with_out (branch_at info.branches pos) outidx jump_pos in
    record info {
      ends = BitSet.add info.ends pos;
      branches = set info.branches pos (record b { start_lineno = lineno });
    }

-- xdebug_path_exists: whether the path takes the edge
unfoldable pub path_exists : List ℕ → ℕ → ℕ → Bool
path_exists [] elem1 elem2 = false
path_exists (a ∷ []) elem1 elem2 = false
path_exists (a ∷ b ∷ path) elem1 elem2 =
    if a == elem1 && b == elem2 then true else path_exists (b ∷ path) elem1 elem2

-- xdebug_branch_find_last_element
unfoldable pub find_last_element : List ℕ → ℕ
find_last_element path = get_or path (length path - 1) 0

-- the test of an out in xdebug_branch_find_path
unfoldable pub is_followed : List ℕ → ℕ → ℕ → Bool
is_followed path last out =
    not (out == 0) && not (out == jmp_exit) && not (path_exists path last out)

-- The loop over the outs, with the recursive call as an argument: whether one was followed, and the
-- paths. `none` is a call out of fuel.
unfoldable pub follow :
    (ℕ → List (List ℕ) → Option (List (List ℕ)))
    → List ℕ
    → ℕ
    → List ℕ
    → Bool
    → List (List ℕ)
    → Option (Bool × List (List ℕ))
follow find path last [] found paths = some (found, paths)
follow find path last (out ∷ outs) found paths =
    if not (is_followed path last out)
    then follow find path last outs found paths
    else elim (find out paths) [
      | none ↦ none
      | some paths' ↦ follow find path last outs true paths'
    ]

-- a path that was not continued is added
unfoldable pub add_if_complete : List ℕ → Option (Bool × List (List ℕ)) → Option (List (List ℕ))
add_if_complete path none = none
add_if_complete path (some (found, paths)) = some (if found then paths else paths ++ (path ∷ []))

-- xdebug_branch_find_path
unfoldable pub find_path : ℕ → List Branch → ℕ → List ℕ → List (List ℕ) → Option (List (List ℕ))
find_path zero branches nr prev paths = none
find_path (suc fuel) branches nr prev paths =
    let b = branch_at branches nr in
    let path = prev ++ (nr ∷ []) in
    if leb max_paths (length paths)
    then some paths
    else add_if_complete path (
        follow (λ out ps. find_path fuel branches out path ps) path (find_last_element path)
          (take b.outs_count b.outs) false paths)

-- xdebug_create_key_for_path
unfoldable pub create_key_for_path : List ℕ → Bytes
create_key_for_path [] = []
create_key_for_path (nr ∷ path) = decimal nr ++ codes ":" ++ create_key_for_path path

-- the first loop of xdebug_branch_find_paths, over `n` opcodes from `i` on
unfoldable pub find_from : ℕ → BranchInfo → ℕ → ℕ → List (List ℕ) → Option (List (List ℕ))
find_from fuel info zero i paths = some paths
find_from fuel info (suc n) i paths =
    if not (in_set info.entry_points i)
    then find_from fuel info n (suc i) paths
    else elim (find_path fuel info.branches i [] paths) [
      | none ↦ none
      | some paths' ↦ find_from fuel info n (suc i) paths'
    ]

-- the second loop
unfoldable pub hash_paths : List (List ℕ) → Hash (List ℕ) → Hash (List ℕ)
hash_paths [] hash = hash
hash_paths (path ∷ paths) hash =
    hash_paths paths (Hash.add_or_update hash (str (create_key_for_path path)) path)

-- the outs of a branch that are set
abbrev pub outs_of : Branch → List ℕ
outs_of b = take b.outs_count b.outs

-- how many outs the branches have: a path takes no edge twice
unfoldable pub edge_count : List Branch → ℕ
edge_count [] = 0
edge_count (b ∷ bs) = length (outs_of b) + edge_count bs

-- xdebug_branch_find_paths
unfoldable pub find_paths : BranchInfo → Option BranchInfo
find_paths info =
    elim (find_from (edge_count info.branches + 1) info info.entry_points.size 0 info.paths) [
      | none ↦ none
      | some paths ↦
          some (record info { paths = paths; path_hash = hash_paths paths (Hash.alloc 128 false) })
    ]

-- what a run of the search unfolds
unfoldable pub branches_program : Unit {0}
unfolding Hash.hash_program in_set test_bit set_bit BitSet.create BitSet.resize BitSet.add
    BitSet.resize_as_needed decimal path_exists find_last_element is_followed follow add_if_complete
    find_path create_key_for_path find_from hash_paths edge_count find_paths
branches_program = tt
