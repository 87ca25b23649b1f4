-- ===== src/Maps/Parser/Copying.antt =====
-- What the copying of a file's rules does to the two maps.
use xdebug.Prelude.{
  ℕ, ◌≡◌, ◌≢◌, refl, ◌∙◌, true, false, Option, none, some, List, [], ◌∷◌, inl, inr, Bytes, All,
  Bool-cases, Option-cases, arith,
}
use xdebug.Hash
use xdebug.Hash.{Hash, Key, Element, str, key_compare, key_compare_iff, apply_chain, elements}
use xdebug.Hash.Laws.{find-add_or_update}
use xdebug.Hash.Valid.{IsValid, add_or_update-IsValid}
use xdebug.Hash.Walk.{apply-elements}
use xdebug.Maps.Types.{PathMapping}
use xdebug.Maps.Lookup.{PathMaps}
use xdebug.Maps.Parser.State.{ErrorCode, duplicate_rules, State, state_ctor}
use xdebug.Maps.Parser.Lines.{Read, done, error, out_of_fuel, state_file_read_lines}
use xdebug.Maps.Parser.Copy.{
  Copy, copy_under, copy_rule, copy_rules, remote_copy, local_copy, success, failure, finish_file,
  parse_file,
}

-- The file's rules were not looked at: the maps are as before.
finish_file-eq :
    (maps : PathMaps) (read : Read) (code : ErrorCode) (line : ℕ)
    → (finish_file maps read).1 ≡ failure code line
    → code ≢ duplicate_rules
    → (finish_file maps read).0 ≡ maps
unfolding finish_file copy_rules
finish_file-eq maps out_of_fuel code line e ne = refl
finish_file-eq maps (error c l) code line e ne = refl
finish_file-eq maps (done state) code line e ne = ground arith

-- A file that is refused with any error but PATH_MAPS_DUPLICATE_RULES leaves both maps as they
-- were.
pub parse_file_unchanged :
    (maps : PathMaps) (cwd : Bytes) (file : Option Bytes) (code : ErrorCode) (line : ℕ)
    → (parse_file maps cwd file).1 ≡ failure code line
    → code ≢ duplicate_rules
    → (parse_file maps cwd file).0 ≡ maps
unfolding parse_file
parse_file_unchanged maps cwd none code line e ne = refl
parse_file_unchanged maps cwd (some contents) code line e ne =
    finish_file-eq maps (state_file_read_lines (state_ctor cwd) contents) code line e ne

-- A later stage of a copy: the table stays valid, what was found is still found, and an error that
-- has been set stays set.
record Extends (c c' : Copy) : Type 0 where
  valid : IsValid c'.map
  kept : (k : Key) (v : PathMapping) → Hash.find c.map k ≡ some v → Hash.find c'.map k ≡ some v
  clean : c'.copy_error ≡ false → c.copy_error ≡ false

Extends-refl : (c : Copy) → IsValid c.map → Extends c c
Extends-refl c v = record { valid = v; kept = λ k w h. h; clean = λ h. h }

Extends-trans : (a b c : Copy) → Extends a b → Extends b c → Extends a c
Extends-trans a b c x y = record {
  valid = y.valid;
  kept = λ k v h. y.kept k v (x.kept k v h);
  clean = λ h. x.clean (y.clean h);
}

-- The rule is in the map that a copy ends with.
abbrev Present : Copy → Element PathMapping → Type 0
Present c e = Hash.find c.map (str e.ptr.remote_path) ≡ some e.ptr

find_added :
    (m : Hash PathMapping) (k : Key) (rule : PathMapping)
    → IsValid m
    → Hash.find (Hash.add_or_update m k rule) k ≡ some rule
find_added m k rule v =
    find-add_or_update m v.shape v.full k k rule ∙ rw ((key_compare_iff k k).1 refl)

find_kept :
    (m : Hash PathMapping) (k q : Key) (rule v : PathMapping)
    → IsValid m
    → Hash.find m k ≡ none
    → Hash.find m q ≡ some v
    → Hash.find (Hash.add_or_update m k rule) q ≡ some v
find_kept m k q rule v ok absent h = elim (Bool-cases (key_compare q k)) [
  | inl same ↦ cc (rw ((key_compare_iff q k).0 same) at h)
  | inr other ↦ find-add_or_update m ok.shape ok.full k q rule ∙ rw other h
]

module _ (c : Copy) (e : Element PathMapping) where
  copy_rule_stopped : c.copy_error ≡ true → copy_rule c e ≡ c
  unfolding copy_rule
  copy_rule_stopped bad = ground arith

  copy_rule_duplicate :
      (old : PathMapping)
      → c.copy_error ≡ false
      → Hash.find c.map (str e.ptr.remote_path) ≡ some old
      → copy_rule c e ≡ record c { copy_error = true }
  unfolding copy_rule copy_under
  copy_rule_duplicate old good there = ground arith

  copy_rule_new :
      c.copy_error ≡ false
      → Hash.find c.map (str e.ptr.remote_path) ≡ none
      → copy_rule c e ≡ record c { map = Hash.add_or_update c.map (str e.ptr.remote_path) e.ptr }
  unfolding copy_rule copy_under
  copy_rule_new good absent = ground arith

  copy_rule-Extends :
      IsValid c.map
      → Extends c (copy_rule c e) × ((copy_rule c e).copy_error ≡ false → Present (copy_rule c e) e)
  copy_rule-Extends v = elim (Bool-cases c.copy_error) [
    | inl bad ↦ rw (copy_rule_stopped bad) (Extends-refl c v, λ h. cc)
    | inr good ↦ elim (Option-cases (Hash.find c.map (str e.ptr.remote_path))) [
      | inr (old, there) ↦
          rw (copy_rule_duplicate old good there)
            (record { valid = v; kept = λ k w h. h; clean = λ h. good }, λ h. cc)
      | inl absent ↦ rw (copy_rule_new good absent) (
        record {
          valid = add_or_update-IsValid c.map v (str e.ptr.remote_path) e.ptr;
          kept = λ k w h. find_kept c.map (str e.ptr.remote_path) k e.ptr w v absent h;
          clean = λ h. good;
        },
        λ h. find_added c.map (str e.ptr.remote_path) e.ptr v,
      )
    ]
  ]

-- The whole copy: if it ends with no error, every rule is in the map.
copy-All :
    (es : List (Element PathMapping)) (c : Copy)
    → IsValid c.map
    → Extends c (apply_chain copy_rule c es)
      × ((apply_chain copy_rule c es).copy_error ≡ false
          → All (Present (apply_chain copy_rule c es)) es)
unfolding apply_chain
copy-All [] c v = (Extends-refl c v, λ h. tt)
copy-All (e ∷ es) c v =
    let one = copy_rule-Extends c e v in
    let rest = copy-All es (copy_rule c e) one.0.valid in
    (
      Extends-trans c (copy_rule c e) _ one.0 rest.0,
      λ h. (rest.0.kept _ _ (one.1 (rest.0.clean h)), rest.1 h),
    )

copy_rules-remote :
    (maps : PathMaps) (state : State)
    → (copy_rules maps state).0.remote_to_local_map ≡ (remote_copy maps state).map
unfolding copy_rules
copy_rules-remote maps state = elim (Bool-cases (remote_copy maps state).copy_error) [
  | inl bad ↦ rw bad
  | inr good ↦ rw good
]

copy_rules-success :
    (maps : PathMaps) (state : State)
    → (copy_rules maps state).1 ≡ success
    → (remote_copy maps state).copy_error ≡ false
unfolding copy_rules
copy_rules-success maps state h = ground arith

remote_copy-Extends :
    (maps : PathMaps) (state : State)
    → IsValid maps.remote_to_local_map
    → Extends
        (record { map = maps.remote_to_local_map; copy_error = false })
        (remote_copy maps state)
      × ((remote_copy maps state).copy_error ≡ false
          → All (Present (remote_copy maps state)) (elements state.file_rules.table))
unfolding remote_copy
remote_copy-Extends maps state v =
    let start : Copy = record { map = maps.remote_to_local_map; copy_error = false } in
    rw ((apply-elements copy_rule state.file_rules start (λ c. c)).1)
      (copy-All (elements state.file_rules.table) start v)

-- The rules of a file, once they are read, against a valid map from remote to local files: what was
-- found there before is still found, whatever the outcome.
pub copy_rules-keeps :
    (maps : PathMaps) (state : State)
    → IsValid maps.remote_to_local_map
    → (k : Key) (v : PathMapping) → Hash.find maps.remote_to_local_map k ≡ some v
    → Hash.find (copy_rules maps state).0.remote_to_local_map k ≡ some v
copy_rules-keeps maps state v k rule h =
    rw (copy_rules-remote maps state) ((remote_copy-Extends maps state v).0.kept k rule h)

-- If the outcome is success, each rule of the file is found under its remote path in the map from
-- remote to local files, which was valid before.
pub copy_rules-find :
    (maps : PathMaps) (state : State)
    → IsValid maps.remote_to_local_map
    → (copy_rules maps state).1 ≡ success
    → All
        (λ e.
          Hash.find (copy_rules maps state).0.remote_to_local_map (str e.ptr.remote_path)
          ≡ some e.ptr)
        (elements state.file_rules.table)
copy_rules-find maps state v h =
    rw (copy_rules-remote maps state)
      ((remote_copy-Extends maps state v).1 (copy_rules-success maps state h))

-- If only the second copy finds a duplicate, the file is refused with PATH_MAPS_DUPLICATE_RULES,
-- and yet each of its rules is found in the map from remote to local files afterwards. That map
-- must be valid.
pub copy_rules_partial :
    (maps : PathMaps) (state : State)
    → IsValid maps.remote_to_local_map
    → (remote_copy maps state).copy_error ≡ false
    → (local_copy maps state).copy_error ≡ true
    → ((copy_rules maps state).1 ≡ failure duplicate_rules state.current_line_no)
      × All
          (λ e.
            Hash.find (copy_rules maps state).0.remote_to_local_map (str e.ptr.remote_path)
            ≡ some e.ptr)
          (elements state.file_rules.table)
copy_rules_partial maps state v good bad =
    let t = remote_copy-Extends maps state v in
    (unfold copy_rules in ground arith, rw (copy_rules-remote maps state) (t.1 good))
