-- ===== src/Llist/Refinement.antt =====
-- The linked list as a list: what its operations do to the elements that it stands for.
pub mod Insertion
pub mod Removal
pub mod Inner
pub mod Operations
use xdebug.Prelude.{
  if_false, ℕ, suc, ◌+◌, ◌<◌, ◌≡◌, ◌≢◌, refl, sym, ap, ◌∙◌, Bool, true, false, Option, none, some,
  List, [], ◌∷◌, ◌++◌, if◌then◌else◌, ◌==◌, arith, length, length-append, append-nil,
}
use mathlib.Core.Path.{subst}
use xdebug.Llist.{
  Node, Llist, update, write_prev, write_next, insert_first, inserted, link_behind, link_next,
  node_at, or_else_at, insert_next,
}
use xdebug.Llist.Segments.{
  first_address, last_address, Segment, Avoids, Distinct, Below, update-hit, update-miss,
  Segment-update, Segment-append, Segment-split, Avoids-append, Avoids-split, Distinct-remove,
  Distinct-insert, Below-Avoids,
}

module _ {A : Type 0} where
  -- The list in memory stands for these elements: they are linked both ways from its head to its
  -- tail, at different addresses, and its size is their number.
  pub record IsList (l : Llist A) (es : List (ℕ × A)) : Type 0 where
    pub segment : Segment l.cells none es none
    pub distinct : Distinct es
    pub below : Below l.fresh es
    pub head : l.head ≡ first_address es none
    pub tail : l.tail ≡ last_address none es
    pub size : l.size ≡ length es

  -- An operation succeeds, with a list that stands for these elements.
  pub record Yields (o : Option (Llist A)) (es : List (ℕ × A)) : Type 0 where
    pub result : Llist A
    pub returned : o ≡ some result
    pub IsList_result : IsList result es

  pub write_prev-node :
      (cells : ℕ → Option (Node A)) (a : ℕ) (v : Option ℕ) (n : Node A)
      → cells a ≡ some n
      → write_prev cells a v ≡ some (update cells a (some (record n { prev = v })))
  unfolding write_prev
  write_prev-node cells a v n e = rw (write_prev, e) refl

  pub write_next-node :
      (cells : ℕ → Option (Node A)) (a : ℕ) (v : Option ℕ) (n : Node A)
      → cells a ≡ some n
      → write_next cells a v ≡ some (update cells a (some (record n { next = v })))
  unfolding write_next
  write_next-node cells a v n e = rw (write_next, e) refl

  pub first_address-front :
      (xs : List (ℕ × A)) (a : ℕ) (x : A) (ys zs : List (ℕ × A))
      → first_address (xs ++ ((a, x) ∷ ys)) none ≡ first_address (xs ++ ((a, x) ∷ zs)) none
  first_address-front [] a x ys zs = refl
  first_address-front (e ∷ xs) a x ys zs = refl

  pub last_address-append :
      (p : Option ℕ) (xs ys : List (ℕ × A))
      → last_address p (xs ++ ys) ≡ last_address (last_address p xs) ys
  last_address-append p [] ys = refl
  last_address-append p ((a, x) ∷ xs) ys = last_address-append (some a) xs ys

  -- what is known of a list with an element at `a`
  pub record Around (l : Llist A) (xs : List (ℕ × A)) (a : ℕ) (x : A) (ys : List (ℕ × A))
      : Type 0 where
    pub front : Segment l.cells none xs (some a)
    pub node :
        l.cells a
        ≡ some (record { ptr = x; prev = last_address none xs; next = first_address ys none })
    pub back : Segment l.cells (some a) ys none
    pub not_front : Avoids a xs
    pub not_back : Avoids a ys
    pub others : Distinct (xs ++ ys)
    pub fresh : Avoids l.fresh (xs ++ ((a, x) ∷ ys))

  pub around :
      (l : Llist A) (xs : List (ℕ × A)) (a : ℕ) (x : A) (ys : List (ℕ × A))
      → IsList l (xs ++ ((a, x) ∷ ys))
      → Around l xs a x ys
  around l xs a x ys h =
      let (front, (node, back)) = Segment-split l.cells none xs ((a, x) ∷ ys) none h.segment in
      let (not_front, not_back, others) = Distinct-remove xs a x ys h.distinct in
      record {
        front = front;
        node = node;
        back = back;
        not_front = not_front;
        not_back = not_back;
        others = others;
        fresh = Below-Avoids l.fresh (xs ++ ((a, x) ∷ ys)) h.below;
      }

  pub not_empty :
      (l : Llist A) (xs : List (ℕ × A)) (e : ℕ × A) (ys : List (ℕ × A))
      → IsList l (xs ++ (e ∷ ys))
      → (l.size == 0) ≡ false
  not_empty l xs e ys h = ground (arith, h.size, length-append xs (e ∷ ys))
