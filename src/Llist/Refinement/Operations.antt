-- ===== src/Llist/Refinement/Operations.antt =====
-- The operations of src/lib/llist.c on a list that stands for elements.
use xdebug.Prelude.{
  if_true, ℕ, suc, ◌≡◌, refl, sym, ap, ◌∙◌, none, some, List, [], ◌∷◌, ◌++◌, append_assoc, ◌==◌,
  arith,
}
use mathlib.Core.Path.{subst}
use xdebug.Llist
use xdebug.Llist.{Node, Llist, insert_first, insert_next, llist_init, update}
use xdebug.Llist.Segments.{update-hit}
use xdebug.Llist.Refinement.{IsList, Yields, last_address-append}
use xdebug.Llist.Refinement.Insertion.{insert_next-behind}
use xdebug.Llist.Refinement.Removal.{Removes, remove-only, remove-first}
use xdebug.Llist.Refinement.Inner.{remove-end, remove-between}

module _ {A : Type 0} where
  -- a list is empty or has a last element
  record Ends (es : List (ℕ × A)) : Type 0 where
    front : List (ℕ × A)
    address : ℕ
    value : A
    same : es ≡ front ++ ((address, value) ∷ [])

  ends : (a : ℕ) (x : A) (es : List (ℕ × A)) → Ends ((a, x) ∷ es)
  ends a x [] = record { front = []; address = a; value = x; same = refl }
  ends a x ((b, y) ∷ es) =
      let e : Ends ((b, y) ∷ es) = ends b y es in
      record {
        front = (a, x) ∷ e.front;
        address = e.address;
        value = e.value;
        same = ap (λ t. (a, x) ∷ t) e.same;
      }

  remove-front :
      (l : Llist A) (a : ℕ) (x : A) (ys : List (ℕ × A))
      → IsList l ((a, x) ∷ ys)
      → Removes (Llist.remove l (some a)) ys (l.destroyed ++ (x ∷ []))
  remove-front l a x [] h = remove-only l a x h
  remove-front l a x ((b, y) ∷ zs) h = remove-first l a x b y zs h

  remove-inner :
      (l : Llist A) (ws : List (ℕ × A)) (c : ℕ) (z : A) (a : ℕ) (x : A) (ys : List (ℕ × A))
      → IsList l (ws ++ ((c, z) ∷ (a, x) ∷ ys))
      → Removes (Llist.remove l (some a)) (ws ++ ((c, z) ∷ ys)) (l.destroyed ++ (x ∷ []))
  remove-inner l ws c z a x [] h = remove-end l ws c z a x h
  remove-inner l ws c z a x ((b, y) ∷ zs) h = remove-between l ws c z a x b y zs h

  remove-Removes :
      (l : Llist A) (xs : List (ℕ × A)) (a : ℕ) (x : A) (ys : List (ℕ × A))
      → IsList l (xs ++ ((a, x) ∷ ys))
      → Removes (Llist.remove l (some a)) (xs ++ ys) (l.destroyed ++ (x ∷ []))
  remove-Removes l [] a x ys h = remove-front l a x ys h
  remove-Removes l ((b, y) ∷ xs) a x ys h =
      let e : Ends ((b, y) ∷ xs) = ends b y xs in
      let split : (zs : List (ℕ × A))
          → ((b, y) ∷ xs) ++ zs ≡ e.front ++ ((e.address, e.value) ∷ zs) =
        λ zs. ap (λ t. t ++ zs) e.same ∙ append_assoc e.front ((e.address, e.value) ∷ []) zs in
      subst (λ t. Removes (Llist.remove l (some a)) t (l.destroyed ++ (x ∷ []))) (sym (split ys))
        (remove-inner l e.front e.address e.value a x ys (subst (IsList l) (split ((a, x) ∷ ys)) h))

  -- the first element of a list
  insert_first-Yields :
      (l : Llist A) (p : A) → IsList l [] → Yields (insert_next l none p) ((l.fresh, p) ∷ [])
  unfolding insert_next insert_first
  insert_first-Yields l p h = record {
    result = insert_first l p;
    returned = if_true (l.size == 0) _ _ (ground (arith, h.size));
    IsList_result = record {
      segment = (update-hit l.cells l.fresh _, tt);
      distinct = (tt, tt);
      below = (omega arith, tt);
      head = refl;
      tail = refl;
      size = ap suc h.size;
    };
  }

  insert_next-end :
      (l : Llist A) (es : List (ℕ × A)) (p : A)
      → IsList l es
      → Yields (insert_next l none p) (es ++ ((l.fresh, p) ∷ []))
  insert_next-end l [] p h = insert_first-Yields l p h
  insert_next-end l ((a, x) ∷ es) p h =
      let e : Ends ((a, x) ∷ es) = ends a x es in
      let whole : IsList l (e.front ++ ((e.address, e.value) ∷ [])) = subst (IsList l) e.same h in
      subst (Yields (insert_next l none p))
        (sym (
          ap (λ t. t ++ ((l.fresh, p) ∷ [])) e.same
          ∙ append_assoc e.front ((e.address, e.value) ∷ []) ((l.fresh, p) ∷ [])))
        (insert_next-behind l e.front e.address e.value p [] none whole
          (whole.tail ∙ last_address-append none e.front ((e.address, e.value) ∷ [])))

llist_init-IsList : {A : Type 0} → IsList (llist_init {A = A}) []
unfolding llist_init
llist_init-IsList = record {
  segment = tt;
  distinct = tt;
  below = tt;
  head = refl;
  tail = refl;
  size = refl;
}

-- The operations on the linked list do what they say on the list of elements that it stands for: a
-- new list has none; inserting behind NULL adds the value at the end, also to a new list; inserting behind an element
-- adds it there; removing an element takes it out and hands its value to the destructor, once. None
-- of them uses a pointer that points to no element, and all keep the links, the head, the tail and
-- the size in step with the elements.
pub llist-refines :
    {A : Type 0} (l : Llist A) (xs : List (ℕ × A)) (a : ℕ) (x : A) (ys : List (ℕ × A)) (p : A)
    → IsList l (xs ++ ((a, x) ∷ ys))
    → IsList (llist_init {A = A}) []
      × Yields (insert_next (llist_init {A = A}) none p) ((0, p) ∷ [])
      × Yields (insert_next l none p) ((xs ++ ((a, x) ∷ ys)) ++ ((l.fresh, p) ∷ []))
      × Yields (insert_next l (some a) p) (xs ++ ((a, x) ∷ (l.fresh, p) ∷ ys))
      × Removes (Llist.remove l (some a)) (xs ++ ys) (l.destroyed ++ (x ∷ []))
unfolding llist_init
llist-refines l xs a x ys p h = (
  llist_init-IsList,
  insert_first-Yields llist_init p llist_init-IsList,
  insert_next-end l (xs ++ ((a, x) ∷ ys)) p h,
  insert_next-behind l xs a x p ys (some a) h refl,
  remove-Removes l xs a x ys h,
)
