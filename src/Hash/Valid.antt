-- ===== src/Hash/Valid.antt =====
-- The invariant of a table, and that every operation keeps it.
use xdebug.Prelude.{
  ℕ, zero, suc, ◌+◌, ◌-◌, ◌≤◌, ◌<◌, ◌≡◌, ◌≢◌, refl, sym, ap, ◌∙◌, Bool, false, none, some, List, [],
  ◌∷◌, arith, inl, inr, if◌then◌else◌, get_or, set, length, length-set, length-append,
  get_or-set_self, get_or-set_ne, replicate, length-replicate, Bool-cases, Option-cases, ◌==◌,
}
use xdebug.Hash.Keys.{Key, find_slot, key_compare, key_compare_iff}
use xdebug.Hash.Chain
use xdebug.Hash.Chain.{Element}
use xdebug.Hash.Table.{Hash, alloc, add_or_update, delete, find, elements, chain_of}
use xdebug.Hash.Laws.{find_slot-lt, same_key-slot, find-delete_once}

-- There is a chain for each slot and at least one slot, `size` counts the elements, and a key
-- occurs at most once, in the chain of its own slot only.
pub record IsValid {ℓ} {V : Type ℓ} (h : Hash V) : Type ℓ where
  pub shape : length h.table ≡ h.slots
  pub full : 0 < h.slots
  pub sized : h.size ≡ length (elements h.table)
  pub once : (q : Key) (i : ℕ) → Chain.count q (get_or h.table i []) ≤ 1
  pub placed : (q : Key) (i : ℕ) → i ≢ find_slot q h.slots → Chain.count q (get_or h.table i []) ≡ 0

module _ {ℓ} {V : Type ℓ} where
  length-elements-set :
      (t : List (List (Element V))) (i : ℕ) (c : List (Element V))
      → i < length t
      → length (elements (set t i c)) + length (get_or t i []) ≡ length (elements t) + length c
  unfolding elements
  length-elements-set [] i c h = absurd (omega arith)
  length-elements-set (x ∷ t) zero c h =
      omega (arith, length-append c (elements t), length-append x (elements t))
  length-elements-set (x ∷ t) (suc i) c h = omega (
    arith,
    length-elements-set t i c (omega arith),
    length-append x (elements t),
    length-append x (elements (set t i c)),
  )

  pub get_or-replicate_nil : (n i : ℕ) → get_or (replicate {A = List (Element V)} n []) i [] ≡ []
  get_or-replicate_nil zero i = refl
  get_or-replicate_nil (suc n) zero = refl
  get_or-replicate_nil (suc n) (suc i) = get_or-replicate_nil n i

  pub find-alloc : (slots : ℕ) (dtor : Bool) (k : Key) → find (alloc {V = V} slots dtor) k ≡ none
  unfolding find alloc Chain.find
  find-alloc slots dtor k = rw (get_or-replicate_nil slots (find_slot k slots))

  elements-replicate_nil : (n : ℕ) → elements (replicate {A = List (Element V)} n []) ≡ []
  unfolding elements
  elements-replicate_nil zero = refl
  elements-replicate_nil (suc n) = elements-replicate_nil n

  -- A new table of at least one slot is valid, whatever its destructor.
  pub alloc-IsValid : (slots : ℕ) (dtor : Bool) → 0 < slots → IsValid (alloc {V = V} slots dtor)
  unfolding alloc Chain.count
  alloc-IsValid slots dtor h = record {
    shape = length-replicate slots [];
    full = h;
    sized = sym (ap length (elements-replicate_nil slots));
    once = λ q i. rw (get_or-replicate_nil slots i) (omega arith);
    placed = λ q i ne. rw (get_or-replicate_nil slots i);
  }

  module _ (h : Hash V) (valid : IsValid h) (k : Key) where
    -- Replacing the chain of `k` by one with as many elements as `size` says, in which only the
    -- count of `k` may have changed, keeps the table valid.
    set-IsValid :
        (c : List (Element V)) (size : ℕ) (log : List V)
        → size + length (chain_of h k) ≡ h.size + length c
        → ((q : Key) → Chain.count q c ≤ 1)
        → ((q : Key) → key_compare q k ≡ false → Chain.count q c ≤ Chain.count q (chain_of h k))
        → IsValid
            (record h { table = set h.table (find_slot k h.slots) c; size = size; destroyed = log })
    set-IsValid c size log sum once other =
        let i : ℕ = find_slot k h.slots in
        let lt : i < length h.table =
          omega (arith, valid.shape, find_slot-lt k h.slots valid.full) in
        record {
          shape = length-set h.table i c ∙ valid.shape;
          full = valid.full;
          sized = omega (arith, length-elements-set h.table i c lt, valid.sized);
          once = λ q j. elim (Bool-cases (find_slot k h.slots == j)) [
            | inl here ↦
                let e : find_slot k h.slots ≡ j = ground arith in
                rw (← e, get_or-set_self h.table i c [] lt) (once q)
            | inr there ↦ rw (get_or-set_ne h.table i j c [] (λ e. ground arith)) (valid.once q j)
          ];
          placed = λ q j ne. elim (Bool-cases (find_slot k h.slots == j)) [
            | inl here ↦
                let e : find_slot k h.slots ≡ j = ground arith in
                rw (← e, get_or-set_self h.table i c [] lt)
                  (omega (
                    arith,
                    other q (same_key-slot h valid.shape valid.full k q (ground arith)),
                    valid.placed q i (λ x. ne (sym e ∙ x)),
                  ))
            | inr there ↦
                rw (get_or-set_ne h.table i j c [] (λ e. ground arith)) (valid.placed q j ne)
          ];
        }

    absent_once :
        (p : V) (q : Key)
        → Chain.find k (chain_of h k) ≡ none
        → Chain.count q (chain_of h k) + (if key_compare q k then 1 else 0) ≤ 1
    absent_once p q e = elim (Bool-cases (key_compare q k)) [
      | inl same ↦ rw (same, (key_compare_iff q k).0 same) (omega (arith, Chain.count-zero k _ e))
      | inr other ↦ rw other (omega (arith, valid.once q (find_slot k h.slots)))
    ]

    -- Adding or updating keeps a valid table valid.
    pub add_or_update-IsValid : (p : V) → IsValid (add_or_update h k p)
    unfolding add_or_update
    add_or_update-IsValid p = elim (Option-cases (Chain.find k (chain_of h k))) [
      | inr (old, e) ↦
          rw (e, add_or_update)
            (set-IsValid _ h.size _ (omega (arith, Chain.length-assign k p (chain_of h k)))
              (λ q. rw (Chain.count-assign k q p (chain_of h k)) (valid.once q _))
              (λ q x. omega (arith, Chain.count-assign k q p (chain_of h k))))
      | inl e ↦
          rw (e, add_or_update)
            (set-IsValid _ (h.size + 1) _
              (omega (arith, length-append (chain_of h k) (record { key = k; ptr = p } ∷ [])))
              (λ q. rw (Chain.count-append q (chain_of h k) _) (absent_once p q e))
              (λ q x.
                ground (arith, Chain.count-append q (chain_of h k) (record { key = k; ptr = p }))))
    ]

    pub removed_size :
        (old : V)
        → Chain.find k (chain_of h k) ≡ some old
        → h.size - 1 + length (chain_of h k) ≡ h.size + length (Chain.remove k (chain_of h k))
    removed_size old e = omega (
      arith,
      valid.sized,
      Chain.length-remove k (chain_of h k) old e,
      length-elements-set h.table (find_slot k h.slots) []
          (omega (arith, valid.shape, find_slot-lt k h.slots valid.full)),
    )

    -- Deleting keeps a valid table valid, whether or not the key was there.
    pub delete-IsValid : IsValid (delete h k).0
    unfolding delete
    delete-IsValid = elim (Option-cases (Chain.find k (chain_of h k))) [
      | inr (old, e) ↦
          rw (e, delete)
            (set-IsValid _ (h.size - 1) _ (removed_size old e)
              (λ q. omega (arith, Chain.count-remove-le k q (chain_of h k), valid.once q _))
              (λ q x. Chain.count-remove-le k q (chain_of h k)))
      | inl e ↦ rw (e, delete) valid
    ]

    -- After deleting a key from a valid table, it finds nothing and every other key finds what it
    -- found before.
    pub find-delete :
        (q : Key) → find (delete h k).0 q ≡ (if key_compare q k then none else find h q)
    find-delete q =
        find-delete_once h valid.shape valid.full k q (valid.once q (find_slot k h.slots))
