-- ===== src/Tests/CoverageProofs.antt =====
-- The theorems on branches and paths at a concrete function.
use xdebug.Prelude.{◌≡◌, refl, true, none, some, [], ◌∷◌, List, is_some, replicate, ◌++◌, ℕ, Option}
use xdebug.BitSet
use xdebug.Coverage.Branches.{
  Branch, BranchInfo, branch_info_create, find_paths, jmp_exit, branches_program,
}
use xdebug.Coverage.Branches.Ending.{find_paths_ends}
use xdebug.Coverage.Branches.Trails.{AreTrails}
use xdebug.Coverage.Branches.Walks.{find_paths-AreTrails}

abbrev to_outs : List ℕ → Branch
to_outs outs = record {
  start_lineno = 1;
  end_lineno = 1;
  end_op = 0;
  outs_count = 2;
  outs = outs ++ replicate 62 0;
}

-- a loop: 0 goes to 1, 1 goes back to itself or to 2, which leaves the function
abbrev looping : BranchInfo
looping = record (branch_info_create 3) {
  entry_points = BitSet.add (BitSet.create 3) 0;
  branches = to_outs (1 ∷ 0 ∷ []) ∷ to_outs (1 ∷ 2 ∷ []) ∷ to_outs (jmp_exit ∷ 0 ∷ []) ∷ [];
  paths = [];
}

abbrev or_unchanged : Option BranchInfo → BranchInfo
or_unchanged none = looping
or_unchanged (some info) = info

abbrev searched : BranchInfo
searched = or_unchanged (find_paths looping)

-- both ways through the loop
looping_paths : searched.paths ≡ (0 ∷ 1 ∷ 1 ∷ 2 ∷ []) ∷ (0 ∷ 1 ∷ 2 ∷ []) ∷ []
unfolding branches_program
looping_paths = refl

find_paths_ends_example : is_some (find_paths looping) ≡ true
find_paths_ends_example = find_paths_ends looping

find_paths-AreTrails_example : AreTrails looping searched.paths
find_paths-AreTrails_example =
    find_paths-AreTrails looping searched refl (unfold branches_program in refl)
