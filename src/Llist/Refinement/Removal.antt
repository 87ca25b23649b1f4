-- ===== src/Llist/Refinement/Removal.antt =====
-- xdebug_llist_remove takes an element out of the list.
use xdebug.Prelude.{
  if_false, ℕ, ◌-◌, ◌≡◌, refl, ap, ◌∙◌, Bool, true, false, Option, none, some, List, [], ◌∷◌, ◌++◌,
  ◌==◌, ==_refl, ==_iff, arith, Bool-cases, inl, inr,
}
use xdebug.Llist
use xdebug.Llist.{Node, Llist, update, write_prev, write_next, unlink, points_to, released}
use xdebug.Llist.Segments.{first_address, Avoids, update-hit, update-miss, Segment-update}
use xdebug.Llist.Refinement.{IsList, write_prev-node, Around, around, not_empty}

module _ {A : Type 0} where
  -- A removal succeeds, with a list that stands for these elements, and hands these values to the
  -- destructor.
  pub record Removes (o : Option (Llist A)) (es : List (ℕ × A)) (values : List A) : Type 0 where
    pub result : Llist A
    pub returned : o ≡ some result
    pub IsList_result : IsList result es
    pub destroyed : result.destroyed ≡ values

  pub points_to-first_address :
      (a : ℕ) (es : List (ℕ × A)) → Avoids a es → points_to (first_address es none) a ≡ false
  points_to-first_address a [] h = refl
  points_to-first_address a ((b, x) ∷ es) (ne, h) = elim (Bool-cases (b == a)) [
    | inl e ↦ absurd (ne ((==_iff b a).0 e))
    | inr e ↦ e
  ]

  -- the removal of a node whose contents are known
  pub remove-unlink :
      (l : Llist A) (a : ℕ) (n : Node A) (is_head : Bool)
      → (l.size == 0) ≡ false
      → l.cells a ≡ some n
      → points_to l.head a ≡ is_head
      → Llist.remove l (some a) ≡ released a n.ptr (unlink l n.prev n.next is_head)
  unfolding Llist.remove
  remove-unlink l a n is_head e at_a h =
      if_false (l.size == 0) _ _ e
      ∙ ap
          (λ o. elim o as (λ r. Option (Llist A)) [
            | none ↦ none
            | some node ↦ released a node.ptr (unlink l node.prev node.next (points_to l.head a))
          ])
          at_a
      ∙ ap (λ b. released a n.ptr (unlink l n.prev n.next b)) h

  -- the first element, alone or before another
  pub remove-only :
      (l : Llist A) (a : ℕ) (x : A)
      → IsList l ((a, x) ∷ [])
      → Removes (Llist.remove l (some a)) [] (l.destroyed ++ (x ∷ []))
  unfolding unlink
  remove-only l a x h =
      let w : Around l [] a x [] = around l [] a x [] h in
      record {
        result = record l {
          cells = update l.cells a none;
          head = none;
          tail = none;
          size = l.size - 1;
          destroyed = l.destroyed ++ (x ∷ []);
        };
        returned =
            remove-unlink l a _ true (not_empty l [] (a, x) [] h) w.node
              (ap (λ o. points_to o a) h.head ∙ ==_refl a);
        IsList_result = record {
          segment = tt;
          distinct = tt;
          below = tt;
          head = refl;
          tail = refl;
          size = omega (arith, h.size);
        };
        destroyed = refl;
      }

  pub remove-first :
      (l : Llist A) (a : ℕ) (x : A) (b : ℕ) (y : A) (zs : List (ℕ × A))
      → IsList l ((a, x) ∷ (b, y) ∷ zs)
      → Removes (Llist.remove l (some a)) ((b, y) ∷ zs) (l.destroyed ++ (x ∷ []))
  unfolding unlink
  remove-first l a x b y zs h =
      let w : Around l [] a x ((b, y) ∷ zs) = around l [] a x ((b, y) ∷ zs) h in
      let (node_b, back) = w.back in
      let (ab, az) = w.not_back in
      let (bz, d) = w.others in
      let (la, lb) = h.below in
      let m : Option (Node A) =
        some (record { ptr = y; prev = none; next = first_address zs none }) in
      let c : ℕ → Option (Node A) = update l.cells b m in
      record {
        result = record l {
          cells = update c a none;
          head = some b;
          size = l.size - 1;
          destroyed = l.destroyed ++ (x ∷ []);
        };
        returned =
            remove-unlink l a _ true (not_empty l [] (a, x) ((b, y) ∷ zs) h) w.node
              (ap (λ o. points_to o a) h.head ∙ ==_refl a)
            ∙ ap
                (λ o. released a x (elim o as (λ r. Option (Llist A)) [
                  | none ↦ none
                  | some cells ↦ some (record l { cells = cells; head = some b })
                ]))
                (write_prev-node l.cells b none _ node_b);
        IsList_result = record {
          segment = (
            update-miss c a b none ab ∙ update-hit l.cells b m,
            Segment-update c (some b) zs none a none az
                (Segment-update l.cells (some b) zs none b m bz back),
          );
          distinct = w.others;
          below = lb;
          head = refl;
          tail = h.tail;
          size = omega (arith, h.size);
        };
        destroyed = refl;
      }
