-- ===== src/Hash/Laws.antt =====
-- What lookups see after a write, for every pair of keys.
use xdebug.Prelude.{
  ℕ, ◌≤◌, ◌<◌, ◌≡◌, refl, ap, ◌∙◌, Bool, true, false, Option, none, some, List, [], arith, inl, inr,
  if◌then◌else◌, get_or, set, length, get_or-set_self, get_or-set_ne, Bool-cases, Option-cases,
  ◌==◌,
}
use xdebug.Hash.Keys.{Key, find_slot, key_compare, key_compare_iff}
use xdebug.Hash.Chain
use xdebug.Hash.Chain.{Element}
use xdebug.Hash.Table.{Hash, add_or_update, delete, find, chain_of}

pub find_slot-lt : (k : Key) (slots : ℕ) → 0 < slots → find_slot k slots < slots
unfolding find_slot
find_slot-lt (Key.str s) slots h = omega arith
find_slot-lt (Key.num n) slots h = omega arith

-- What `find-append` finds: an old pointer, or else the new element's.
abbrev or_new {ℓ} : {V : Type ℓ} → Option V → Option V → Option V
or_new o new = elim o [ some p ↦ some p | none ↦ new ]

or_new-if {ℓ} :
    {V : Type ℓ} (o : Option V) (b : Bool) (new : Option V)
    → (b ≡ true → o ≡ none)
    → or_new o (if b then new else none) ≡ (if b then new else o)
or_new-if none true new h = refl
or_new-if none false new h = refl
or_new-if (some p) true new h = cc (h refl)
or_new-if (some p) false new h = refl

module _ {ℓ} {V : Type ℓ} (h : Hash V) (shape : length h.table ≡ h.slots) (full : 0 < h.slots) where
  -- Writing one chain changes the lookups that go to its slot, and no other.
  pub chain_of-set :
      (k q : Key) (c : List (Element V))
      → get_or (set h.table (find_slot k h.slots) c) (find_slot q h.slots) []
        ≡ (if find_slot k h.slots == find_slot q h.slots then c else chain_of h q)
  chain_of-set k q c = elim (Bool-cases (find_slot k h.slots == find_slot q h.slots)) [
    | inl same ↦
        let e : find_slot k h.slots ≡ find_slot q h.slots = ground arith in
        rw (same, ← e) (get_or-set_self h.table _ c [] (omega (arith, find_slot-lt k h.slots full)))
    | inr apart ↦ rw apart (get_or-set_ne h.table _ _ c [] (λ e. ground arith))
  ]

  pub same_key-slot :
      (k q : Key) → (find_slot k h.slots == find_slot q h.slots) ≡ false → key_compare q k ≡ false
  same_key-slot k q apart = elim (Bool-cases (key_compare q k)) [
    | inl same ↦
        let e : find_slot q h.slots ≡ find_slot k h.slots =
          ap (λ x. find_slot x h.slots) ((key_compare_iff q k).0 same) in
        ground arith
    | inr other ↦ other
  ]

  chain_of-slot :
      (k q : Key)
      → (find_slot k h.slots == find_slot q h.slots) ≡ true
      → chain_of h q ≡ chain_of h k
  chain_of-slot k q same = let e : find_slot k h.slots ≡ find_slot q h.slots = ground arith in rw e

  -- A write of one chain that does `new` to the lookups of `k` does just that to those of the table.
  find-set :
      (k q : Key) (c : List (Element V)) (new : Option V)
      → Chain.find q c ≡ (if key_compare q k then new else Chain.find q (chain_of h k))
      → Chain.find q (get_or (set h.table (find_slot k h.slots) c) (find_slot q h.slots) [])
        ≡ (if key_compare q k then new else Chain.find q (chain_of h q))
  find-set k q c new e = elim (Bool-cases (find_slot k h.slots == find_slot q h.slots)) [
    | inl same ↦ rw (chain_of-set k q c, same, chain_of-slot k q same) e
    | inr apart ↦ rw (chain_of-set k q c, apart, same_key-slot k q apart)
  ]

  absent_key :
      (k q : Key)
      → Chain.find k (chain_of h k) ≡ none
      → Chain.find q (chain_of h q)
        ≡ (if key_compare q k then none else Chain.find q (chain_of h q))
  absent_key k q e = elim (Bool-cases (key_compare q k)) [
    | inl same ↦ rw (same, (key_compare_iff q k).0 same) e
    | inr other ↦ rw other
  ]

  found_or_new :
      (k q : Key) (new : Option V)
      → Chain.find k (chain_of h k) ≡ none
      → or_new (Chain.find q (chain_of h k)) (if key_compare q k then new else none)
        ≡ (if key_compare q k then new else Chain.find q (chain_of h k))
  found_or_new k q new e =
      or_new-if (Chain.find q (chain_of h k)) (key_compare q k) new
        (λ same. rw ((key_compare_iff q k).0 same) e)

  -- After adding a value under a key, that key finds the value and every other key finds what it
  -- found before. The table must have as many chains as slots, and at least one.
  pub find-add_or_update :
      (k q : Key) (p : V)
      → find (add_or_update h k p) q ≡ (if key_compare q k then some p else find h q)
  unfolding add_or_update find
  find-add_or_update k q p = elim (Option-cases (Chain.find k (chain_of h k))) [
    | inr (old, e) ↦
        rw (e, find, add_or_update) (find-set k q _ (some p) (Chain.find-assign k q p old _ e))
    | inl e ↦
        rw (e, find, add_or_update)
          (find-set k q _ (some p)
            (Chain.find-append q (chain_of h k) _ ∙ found_or_new k q (some p) e))
  ]

  pub find-delete_once :
      (k q : Key)
      → Chain.count q (chain_of h k) ≤ 1
      → find (delete h k).0 q ≡ (if key_compare q k then none else find h q)
  unfolding delete find
  find-delete_once k q once = elim (Option-cases (Chain.find k (chain_of h k))) [
    | inr (old, e) ↦ rw (e, find, delete) (find-set k q _ none (Chain.find-remove k q _ once))
    | inl e ↦ rw (e, find, delete) (absent_key k q e)
  ]
