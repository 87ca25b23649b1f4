-- ===== src/Llist/Refinement/Insertion.antt =====
-- xdebug_llist_insert_next inserts behind an element of the list.
use xdebug.Prelude.{
  if_false, ℕ, suc, ◌≡◌, refl, sym, ap, ◌∙◌, Option, none, some, List, [], ◌∷◌, ◌++◌, ◌==◌, arith,
  length-append,
}
use mathlib.Core.Path.{subst}
use xdebug.Llist.{
  Node, Llist, update, write_next, inserted, link_behind, link_next, node_at, or_else_at,
  insert_next,
}
use xdebug.Llist.Segments.{
  first_address, last_address, Segment, Below, update-hit, update-miss, Segment-update,
  Segment-append, Avoids-append, Avoids-split, Distinct-remove, Distinct-insert,
}
use xdebug.Llist.Refinement.{
  IsList, Yields, write_prev-node, write_next-node, first_address-front, last_address-append,
  Around, around, not_empty,
}

module _ {A : Type 0} where
  -- the cells behind an insertion make up the longer list
  Segment-inserted :
      (cells : ℕ → Option (Node A)) (xs : List (ℕ × A)) (a : ℕ) (x : A) (f : ℕ) (p : A)
      (ys : List (ℕ × A))
      → Segment cells none xs (some a)
      → cells a ≡ some (record { ptr = x; prev = last_address none xs; next = some f })
      → cells f ≡ some (record { ptr = p; prev = some a; next = first_address ys none })
      → Segment cells (some f) ys none
      → Segment cells none (xs ++ ((a, x) ∷ (f, p) ∷ ys)) none
  Segment-inserted cells xs a x f p ys front at_a at_f back =
      Segment-append cells none xs ((a, x) ∷ (f, p) ∷ ys) none front (at_a, (at_f, back))

  Below-inserted :
      (n : ℕ) (xs : List (ℕ × A)) (a : ℕ) (x p : A) (ys : List (ℕ × A))
      → Below n (xs ++ ((a, x) ∷ ys))
      → Below (suc n) (xs ++ ((a, x) ∷ (n, p) ∷ ys))
  Below-inserted n [] a x p ys (lt, h) = (omega arith, (omega arith, weaker ys h))
    where
      weaker : (es : List (ℕ × A)) → Below n es → Below (suc n) es
      weaker [] k = tt
      weaker (e ∷ es) (l, k) = (omega arith, weaker es k)
  Below-inserted n (e ∷ xs) a x p ys (lt, h) = (omega arith, Below-inserted n xs a x p ys h)

  -- the parts of the invariant that do not depend on the memory
  inserted-IsList :
      (l : Llist A) (xs : List (ℕ × A)) (a : ℕ) (x p : A) (ys : List (ℕ × A)) (tail : Option ℕ)
      (cells : ℕ → Option (Node A))
      → IsList l (xs ++ ((a, x) ∷ ys))
      → tail ≡ last_address (some l.fresh) ys
      → Segment cells none (xs ++ ((a, x) ∷ (l.fresh, p) ∷ ys)) none
      → IsList (inserted l l.head tail cells) (xs ++ ((a, x) ∷ (l.fresh, p) ∷ ys))
  inserted-IsList l xs a x p ys tail cells h t s =
      let w : Around l xs a x ys = around l xs a x ys h in
      let (fx, (fa, fy)) = Avoids-split l.fresh xs ((a, x) ∷ ys) w.fresh in
      record {
        segment = s;
        distinct =
            Distinct-insert xs a x ((l.fresh, p) ∷ ys)
              (Avoids-append a xs ((l.fresh, p) ∷ ys) w.not_front ((λ e. fa (sym e)), w.not_back))
              (Distinct-insert xs l.fresh p ys (Avoids-append l.fresh xs ys fx fy) w.others);
        below = Below-inserted l.fresh xs a x p ys h.below;
        head = h.head ∙ first_address-front xs a x ys ((l.fresh, p) ∷ ys);
        tail = t ∙ sym (last_address-append none xs ((a, x) ∷ (l.fresh, p) ∷ ys));
        size = omega (
          arith,
          h.size,
          length-append xs ((a, x) ∷ ys),
          length-append xs ((a, x) ∷ (l.fresh, p) ∷ ys),
        );
      }

  -- behind the last element
  link_behind-end :
      (l : Llist A) (xs : List (ℕ × A)) (a : ℕ) (x p : A)
      → IsList l (xs ++ ((a, x) ∷ []))
      → Yields
          (link_next l a p (record { ptr = x; prev = last_address none xs; next = none }))
          (xs ++ ((a, x) ∷ (l.fresh, p) ∷ []))
  unfolding link_next link_behind
  link_behind-end l xs a x p h =
      let w : Around l xs a x [] = around l xs a x [] h in
      let f : ℕ = l.fresh in
      let (fx, (fa, fy)) = Avoids-split f xs ((a, x) ∷ []) w.fresh in
      let n : Option (Node A) = some (record { ptr = p; prev = some a; next = none }) in
      let c : ℕ → Option (Node A) = update l.cells f n in
      let n' : Option (Node A) =
        some (record { ptr = x; prev = last_address none xs; next = some f }) in
      record {
        result = inserted l l.head (some f) (update c a n');
        returned =
            ap
              (λ o. elim o as (λ r. Option (Llist A)) [
                | none ↦ none
                | some cells ↦ some (inserted l l.head (some f) cells)
              ])
              (write_next-node c a (some f) _ (update-miss l.cells f a n fa ∙ w.node));
        IsList_result = inserted-IsList l xs a x p [] (some f) (update c a n') h refl (
            Segment-inserted (update c a n') xs a x f p []
              (Segment-update c none xs (some a) a n' w.not_front
                (Segment-update l.cells none xs (some a) f n fx w.front))
              (update-hit c a n') (update-miss c a f n' (λ e. fa (sym e)) ∙ update-hit l.cells f n)
              tt);
      }

  -- between two elements
  link_behind-between :
      (l : Llist A) (xs : List (ℕ × A)) (a : ℕ) (x p : A) (b : ℕ) (y : A) (zs : List (ℕ × A))
      → IsList l (xs ++ ((a, x) ∷ (b, y) ∷ zs))
      → Yields
          (link_next l a p (record { ptr = x; prev = last_address none xs; next = some b }))
          (xs ++ ((a, x) ∷ (l.fresh, p) ∷ (b, y) ∷ zs))
  unfolding link_next link_behind
  link_behind-between l xs a x p b y zs h =
      let w : Around l xs a x ((b, y) ∷ zs) = around l xs a x ((b, y) ∷ zs) h in
      let f : ℕ = l.fresh in
      let (fx, (fa, (fb, fz))) = Avoids-split f xs ((a, x) ∷ (b, y) ∷ zs) w.fresh in
      let (bx, bz, d) = Distinct-remove xs b y zs w.others in
      let (ab, az) = w.not_back in
      let (node_b, back) = w.back in
      let n : Option (Node A) = some (record { ptr = p; prev = some a; next = some b }) in
      let c : ℕ → Option (Node A) = update l.cells f n in
      let m : Option (Node A) =
        some (record { ptr = y; prev = some f; next = first_address zs none }) in
      let c' : ℕ → Option (Node A) = update c b m in
      let n' : Option (Node A) =
        some (record { ptr = x; prev = last_address none xs; next = some f }) in
      record {
        result = inserted l l.head l.tail (update c' a n');
        returned =
            ap
              (λ o. elim o as (λ r. Option (Llist A)) [
                | none ↦ none
                | some cells ↦ elim (write_next cells a (some f)) [
                  | none ↦ none
                  | some cells' ↦ some (inserted l l.head l.tail cells')
                ]
              ])
              (write_prev-node c b (some f) _ (update-miss l.cells f b n fb ∙ node_b))
            ∙ ap
                (λ o. elim o as (λ r. Option (Llist A)) [
                  | none ↦ none
                  | some cells ↦ some (inserted l l.head l.tail cells)
                ])
                (write_next-node c' a (some f) _
                  (update-miss c b a m (λ e. ab (sym e)) ∙ update-miss l.cells f a n fa ∙ w.node));
        IsList_result =
            inserted-IsList l xs a x p ((b, y) ∷ zs) l.tail (update c' a n') h
              (h.tail ∙ last_address-append none xs ((a, x) ∷ (b, y) ∷ zs))
              (Segment-inserted (update c' a n') xs a x f p ((b, y) ∷ zs)
                (Segment-update c' none xs (some a) a n' w.not_front (
                  Segment-update c none xs (some a) b m bx
                    (Segment-update l.cells none xs (some a) f n fx w.front)))
                (update-hit c' a n')
                (update-miss c' a f n' (λ e. fa (sym e))
                  ∙ update-miss c b f m (λ e. fb (sym e))
                  ∙ update-hit l.cells f n)
                (
                  update-miss c' a b n' ab ∙ update-hit c b m,
                  Segment-update c' (some b) zs none a n' az (
                      Segment-update c (some b) zs none b m bz
                        (Segment-update l.cells (some b) zs none f n fz back)),
                ));
      }

  link_next-Yields :
      (l : Llist A) (xs : List (ℕ × A)) (a : ℕ) (x p : A) (ys : List (ℕ × A))
      → IsList l (xs ++ ((a, x) ∷ ys))
      → Yields
          (link_next l a p
            (record { ptr = x; prev = last_address none xs; next = first_address ys none }))
          (xs ++ ((a, x) ∷ (l.fresh, p) ∷ ys))
  link_next-Yields l xs a x p [] h = link_behind-end l xs a x p h
  link_next-Yields l xs a x p ((b, y) ∷ zs) h = link_behind-between l xs a x p b y zs h

  pub insert_next-behind :
      (l : Llist A) (xs : List (ℕ × A)) (a : ℕ) (x p : A) (ys : List (ℕ × A)) (e : Option ℕ)
      → IsList l (xs ++ ((a, x) ∷ ys))
      → or_else_at e l.tail ≡ some a
      → Yields (insert_next l e p) (xs ++ ((a, x) ∷ (l.fresh, p) ∷ ys))
  unfolding insert_next
  insert_next-behind l xs a x p ys e h at_a =
      subst (λ o. Yields o (xs ++ ((a, x) ∷ (l.fresh, p) ∷ ys)))
        (sym (
          if_false (l.size == 0) _ _ (not_empty l xs (a, x) ys h)
          ∙ ap
              (λ o. elim (node_at l.cells o) as (λ r. Option (Llist A)) [
                | none ↦ none
                | some at ↦ link_next l at.0 p at.1
              ])
              at_a
          ∙ ap
              (λ o.
                elim (elim o as (λ r. Option (ℕ × Node A)) [
                  | none ↦ none
                  | some node ↦ some (a, node)
                ])
                  as (λ r. Option (Llist A)) [ none ↦ none | some at ↦ link_next l at.0 p at.1 ])
              (around l xs a x ys h).node))
        (link_next-Yields l xs a x p ys h)
