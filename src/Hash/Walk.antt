-- ===== src/Hash/Walk.antt =====
-- Walking and emptying a table.
use xdebug.Prelude.{
  ℕ, Bool, if◌then◌else◌, ap, ◌+◌, ◌≡◌, refl, sym, ◌∙◌, true, none, some, List, [], ◌∷◌, ◌++◌,
  arith, inl, inr, length, length-append, Option-cases,
}
use xdebug.Hash.Keys.{Key}
use xdebug.Hash.Chain
use xdebug.Hash.Chain.{Element}
use xdebug.Hash.Table.{
  Hash, add_or_update, delete, find, empty, elements, chain_of, apply, apply_with_argument,
  apply_chain, apply_table, empty_chains, pointers,
}
use xdebug.Hash.Valid.{IsValid, get_or-replicate_nil, removed_size}

module _ {ℓ} {V : Type ℓ} where
  module _ {κ} {S : Type κ} (cb : S → Element V → S) where
    apply_chain-append :
        (s : S) (c d : List (Element V))
        → apply_chain cb s (c ++ d) ≡ apply_chain cb (apply_chain cb s c) d
    unfolding apply_chain
    apply_chain-append s [] d = refl
    apply_chain-append s (e ∷ c) d = apply_chain-append (cb s e) c d

    apply_table-elements :
        (s : S) (t : List (List (Element V))) → apply_table cb s t ≡ apply_chain cb s (elements t)
    unfolding apply_table apply_chain elements
    apply_table-elements s [] = refl
    apply_table-elements s (c ∷ t) =
        apply_table-elements (apply_chain cb s c) t ∙ sym (apply_chain-append s c (elements t))

    -- Without a sorter both walks call back on every element once, slot by slot; with a sorter
    -- the second one calls back on the sorted elements, in their order.
    pub apply-elements :
        (h : Hash V) (s : S) (sort : List (Element V) → List (Element V))
        → (apply h s cb ≡ apply_chain cb s (elements h.table))
          × (apply_with_argument none h s cb ≡ apply_chain cb s (elements h.table))
          × (apply_with_argument (some sort) h s cb ≡ apply_chain cb s (sort (elements h.table)))
    unfolding apply apply_with_argument
    apply-elements h s sort = (apply_table-elements s h.table, apply_table-elements s h.table, refl)

  -- how many of some values have a property
  unfoldable pub count : (V → Bool) → List V → ℕ
  count p [] = 0
  count p (v ∷ l) = (if p v then 1 else 0) + count p l

  count-append : (p : V → Bool) (l m : List V) → count p (l ++ m) ≡ count p l + count p m
  unfolding count
  count-append p [] m = omega arith
  count-append p (v ∷ l) m = omega (arith, count-append p l m)

  pointers-append : (c d : List (Element V)) → pointers (c ++ d) ≡ pointers c ++ pointers d
  unfolding pointers
  pointers-append [] d = refl
  pointers-append (e ∷ c) d = ap (λ l. e.ptr ∷ l) (pointers-append c d)

  count-empty_chains :
      (p : V → Bool) (t : List (List (Element V))) (log : List V)
      → count p (empty_chains t true log) ≡ count p (pointers (elements t)) + count p log
  unfolding empty_chains elements count pointers
  count-empty_chains p [] log = omega arith
  count-empty_chains p (c ∷ t) log = omega (
    arith,
    count-empty_chains p t (pointers c ++ log),
    count-append p (pointers c) log,
    ap (count p) (pointers-append c (elements t)),
    count-append p (pointers c) (pointers (elements t)),
  )

  length-pointers : (c : List (Element V)) → length (pointers c) ≡ length c
  unfolding pointers
  length-pointers [] = refl
  length-pointers (e ∷ c) = omega (arith, length-pointers c)

  length-empty_chains :
      (t : List (List (Element V))) (log : List V)
      → length (empty_chains t true log) ≡ length (elements t) + length log
  unfolding empty_chains elements
  length-empty_chains [] log = omega arith
  length-empty_chains (c ∷ t) log = omega (
    arith,
    length-empty_chains t (pointers c ++ log),
    length-append (pointers c) log,
    length-append c (elements t),
    length-pointers c,
  )

  -- Emptying a valid table with a destructor destroys exactly the values that the elements of the
  -- table had, each as often as they had it: for every property of values, the values destroyed
  -- that have it are counted. They are as many as `size` says. No key is found afterwards. `size`
  -- is left at its old value.
  pub empty_lem :
      (h : Hash V) (q : Key) (p : V → Bool)
      → IsValid h
      → h.dtor ≡ true
      → (count p (empty h).destroyed ≡ count p (pointers (elements h.table)) + count p h.destroyed)
        × (length (empty h).destroyed ≡ h.size + length h.destroyed)
        × (find (empty h) q ≡ none)
        × ((empty h).size ≡ h.size)
  unfolding empty find Chain.find
  empty_lem h q p valid d = (
    rw (d, count-empty_chains),
    rw (d, length-empty_chains, valid.sized),
    rw (get_or-replicate_nil h.slots),
    refl,
  )

  -- In a valid table with a destructor, a write hands one more value to the table or to the
  -- destructor, and a deletion moves one from the former to the latter or does nothing: none is
  -- lost, and none is destroyed while the table counts it.
  pub size-destroyed :
      (h : Hash V) (k : Key) (p : V)
      → IsValid h
      → h.dtor ≡ true
      → ((add_or_update h k p).size + length (add_or_update h k p).destroyed
          ≡ h.size + length h.destroyed + 1)
        × ((delete h k).0.size + length (delete h k).0.destroyed ≡ h.size + length h.destroyed)
  unfolding add_or_update delete
  size-destroyed h k p valid d = elim (Option-cases (Chain.find k (chain_of h k))) [
    | inl e ↦ rw (e, add_or_update, delete) (omega arith)
    | inr (old, e) ↦
        let shorter = Chain.length-remove k (chain_of h k) old e in
        let fewer = removed_size h valid k old e in rw (e, add_or_update, delete, d) (omega arith)
  ]
