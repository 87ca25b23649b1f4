-- ===== src/Hash/Chain.antt =====
-- One chain of a hash table: the loops of src/lib/hash.c over the elements of a slot.
use xdebug.Prelude.{
  ℕ, ◌+◌, ◌≤◌, ◌≡◌, refl, Option, none, some, List, [], ◌∷◌, ◌++◌, arith, if◌then◌else◌, length,
}
use xdebug.Hash.Keys.{Key, key_compare, key_compare_iff}

-- struct xdebug_hash_element
pub record Element {ℓ} (V : Type ℓ) : Type ℓ where
  pub key : Key
  pub ptr : V

module _ {ℓ} {V : Type ℓ} where
  -- the loop of xdebug_hash_extended_find
  unfoldable pub find : Key → List (Element V) → Option V
  find k [] = none
  find k (e ∷ c) = if key_compare k e.key then some e.ptr else find k c

  -- `to_update->ptr = p` at the first element with the key
  unfoldable pub assign : Key → V → List (Element V) → List (Element V)
  assign k p [] = []
  assign k p (e ∷ c) = if key_compare k e.key then record e { ptr = p } ∷ c else e ∷ assign k p c

  -- `xdebug_llist_remove` of the first element with the key
  unfoldable pub remove : Key → List (Element V) → List (Element V)
  remove k [] = []
  remove k (e ∷ c) = if key_compare k e.key then c else e ∷ remove k c

  -- how many elements of the chain have the key
  unfoldable pub count : Key → List (Element V) → ℕ
  count k [] = 0
  count k (e ∷ c) = (if key_compare k e.key then 1 else 0) + count k c

  pub find-none : (k : Key) (c : List (Element V)) → count k c ≡ 0 → find k c ≡ none
  unfolding count find
  find-none k [] h = refl
  find-none k (e ∷ c) h = ground (arith, find-none k c)

  pub count-zero : (k : Key) (c : List (Element V)) → find k c ≡ none → count k c ≡ 0
  unfolding count find
  count-zero k [] h = refl
  count-zero k (e ∷ c) h = ground (arith, count-zero k c)

  pub find-append :
      (k : Key) (c : List (Element V)) (e : Element V)
      → find k (c ++ e ∷ []) ≡ elim (find k c) [
        | some p ↦ some p
        | none ↦ if key_compare k e.key then some e.ptr else none
      ]
  unfolding find
  find-append k [] e = refl
  find-append k (x ∷ c) e = ground (arith, find-append k c e)

  pub count-append :
      (k : Key) (c : List (Element V)) (e : Element V)
      → count k (c ++ e ∷ []) ≡ count k c + (if key_compare k e.key then 1 else 0)
  unfolding count
  count-append k [] e = ground arith
  count-append k (x ∷ c) e = ground (arith, count-append k c e)

  module _ (k q : Key) where
    pub find-assign :
        (p old : V) (c : List (Element V))
        → find k c ≡ some old
        → find q (assign k p c) ≡ (if key_compare q k then some p else find q c)
    unfolding assign find
    find-assign p old [] h = cc
    find-assign p old (e ∷ c) h = ground (
      arith,
      find-assign p old c,
      key_compare_iff k e.key,
      key_compare_iff q e.key,
      key_compare_iff q k,
    )

    pub count-assign : (p : V) (c : List (Element V)) → count q (assign k p c) ≡ count q c
    unfolding assign count
    count-assign p [] = refl
    count-assign p (e ∷ c) = ground (arith, count-assign p c)

    pub find-remove :
        (c : List (Element V))
        → count q c ≤ 1
        → find q (remove k c) ≡ (if key_compare q k then none else find q c)
    unfolding remove find count
    find-remove [] h = ground arith
    find-remove (e ∷ c) h = ground (
      arith,
      find-remove c,
      find-none q c,
      key_compare_iff k e.key,
      key_compare_iff q e.key,
      key_compare_iff q k,
    )

    pub count-remove-le : (c : List (Element V)) → count q (remove k c) ≤ count q c
    unfolding count remove
    count-remove-le [] = omega arith
    count-remove-le (e ∷ c) = ground (arith, count-remove-le c)

  pub length-assign : (k : Key) (p : V) (c : List (Element V)) → length (assign k p c) ≡ length c
  unfolding assign
  length-assign k p [] = refl
  length-assign k p (e ∷ c) = ground (arith, length-assign k p c)

  pub length-remove :
      (k : Key) (c : List (Element V)) (old : V)
      → find k c ≡ some old
      → length (remove k c) + 1 ≡ length c
  unfolding remove find
  length-remove k [] old h = cc
  length-remove k (e ∷ c) old h = ground (arith, length-remove k c old)
