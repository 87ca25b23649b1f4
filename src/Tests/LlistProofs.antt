-- ===== src/Tests/LlistProofs.antt =====
-- The theorem on linked lists at a list of two elements.
use xdebug.Prelude.{refl, ℕ, none, some, [], ◌∷◌, arith}
use xdebug.Llist
use xdebug.Llist.{Llist, update, insert_next, llist_init}
use xdebug.Llist.Refinement.{IsList, Yields}
use xdebug.Llist.Refinement.Removal.{Removes}
use xdebug.Llist.Refinement.Operations.{llist-refines}

abbrev two : Llist ℕ
two = record {
  cells =
      update (update (λ a. none) 0 (some (record { ptr = 7; prev = none; next = some 1 }))) 1
        (some (record { ptr = 8; prev = some 0; next = none }));
  fresh = 2;
  head = some 0;
  tail = some 1;
  size = 2;
  destroyed = [];
}

two-IsList : IsList two ((0, 7) ∷ (1, 8) ∷ [])
two-IsList = record {
  segment = (refl, (refl, tt));
  distinct = (((λ e. cc), tt), (tt, tt));
  below = (omega arith, (omega arith, tt));
  head = refl;
  tail = refl;
  size = refl;
}

llist-refines_example :
    IsList (llist_init {A = ℕ}) []
    × Yields (insert_next (llist_init {A = ℕ}) none 9) ((0, 9) ∷ [])
    × Yields (insert_next two none 9) ((0, 7) ∷ (1, 8) ∷ (2, 9) ∷ [])
    × Yields (insert_next two (some 0) 9) ((0, 7) ∷ (2, 9) ∷ (1, 8) ∷ [])
    × Removes (Llist.remove two (some 0)) ((1, 8) ∷ []) (7 ∷ [])
llist-refines_example = llist-refines two [] 0 7 ((1, 8) ∷ []) 9 two-IsList
