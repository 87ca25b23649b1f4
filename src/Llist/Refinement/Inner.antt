-- ===== src/Llist/Refinement/Inner.antt =====
-- xdebug_llist_remove on an element that has another before it.
use xdebug.Prelude.{
  ℕ, ◌-◌, ◌≡◌, ◌≢◌, refl, sym, ap, ◌∙◌, false, Option, none, some, List, [], ◌∷◌, ◌++◌, arith,
  length-append,
}
use xdebug.Llist
use xdebug.Llist.{Node, Llist, update, write_prev, write_next, unlink, points_to, released}
use xdebug.Llist.Segments.{
  first_address, last_address, Segment, Avoids, Distinct, Below, update-hit, update-miss,
  Segment-update, Segment-append, Avoids-append, Distinct-remove, Distinct-insert,
}
use xdebug.Llist.Refinement.{
  IsList, write_prev-node, write_next-node, first_address-front, last_address-append, Around,
  around, not_empty,
}
use xdebug.Llist.Refinement.Removal.{Removes, points_to-first_address, remove-unlink}

module _ {A : Type 0} where
  Below-remove :
      (n : ℕ) (ws : List (ℕ × A)) (c : ℕ) (z : A) (e : ℕ × A) (ys : List (ℕ × A))
      → Below n (ws ++ ((c, z) ∷ e ∷ ys))
      → Below n (ws ++ ((c, z) ∷ ys))
  Below-remove n [] c z e ys (lc, (le, h)) = (lc, h)
  Below-remove n (w ∷ ws) c z e ys (lw, h) = (lw, Below-remove n ws c z e ys h)

  -- what is known of an element at `a` behind one at `c`
  record Behind (l : Llist A) (ws : List (ℕ × A)) (c : ℕ) (z : A) (a : ℕ) (x : A)
      (ys : List (ℕ × A)) : Type 0 where
    before : Around l ws c z ((a, x) ∷ ys)
    different : a ≢ c
    c_not_back : Avoids c ys
    a_not_front : Avoids a ws
    a_not_back : Avoids a ys
    others : Distinct (ws ++ ys)
    head : points_to l.head a ≡ false

  behind :
      (l : Llist A) (ws : List (ℕ × A)) (c : ℕ) (z : A) (a : ℕ) (x : A) (ys : List (ℕ × A))
      → IsList l (ws ++ ((c, z) ∷ (a, x) ∷ ys))
      → Behind l ws c z a x ys
  behind l ws c z a x ys h =
      let w : Around l ws c z ((a, x) ∷ ys) = around l ws c z ((a, x) ∷ ys) h in
      let (ac, cy) = w.not_back in
      let (aw, ay, d) = Distinct-remove ws a x ys w.others in
      record {
        before = w;
        different = ac;
        c_not_back = cy;
        a_not_front = aw;
        a_not_back = ay;
        others = d;
        head =
            ap (λ o. points_to o a) (h.head ∙ first_address-front ws c z ((a, x) ∷ ys) ys)
            ∙ points_to-first_address a (ws ++ ((c, z) ∷ ys))
                (Avoids-append a ws ((c, z) ∷ ys) aw ((λ e. ac (sym e)), ay));
      }

  -- the invariant of the shorter list, from its memory and its tail
  removed-IsList :
      (l l' : Llist A) (ws : List (ℕ × A)) (c : ℕ) (z : A) (a : ℕ) (x : A) (ys : List (ℕ × A))
      → IsList l (ws ++ ((c, z) ∷ (a, x) ∷ ys))
      → l'.head ≡ l.head
      → l'.fresh ≡ l.fresh
      → l'.size ≡ l.size - 1
      → l'.tail ≡ last_address (some c) ys
      → Segment l'.cells none (ws ++ ((c, z) ∷ ys)) none
      → IsList l' (ws ++ ((c, z) ∷ ys))
  removed-IsList l l' ws c z a x ys h eh ef es et s =
      let b : Behind l ws c z a x ys = behind l ws c z a x ys h in
      record {
        segment = s;
        distinct =
            Distinct-insert ws c z ys (Avoids-append c ws ys b.before.not_front b.c_not_back)
              b.others;
        below = rw ef (Below-remove l.fresh ws c z (a, x) ys h.below);
        head = eh ∙ h.head ∙ first_address-front ws c z ((a, x) ∷ ys) ys;
        tail = et ∙ sym (last_address-append none ws ((c, z) ∷ ys));
        size = omega (
          arith,
          es,
          h.size,
          length-append ws ((c, z) ∷ (a, x) ∷ ys),
          length-append ws ((c, z) ∷ ys),
        );
      }

  -- the last element
  pub remove-end :
      (l : Llist A) (ws : List (ℕ × A)) (c : ℕ) (z : A) (a : ℕ) (x : A)
      → IsList l (ws ++ ((c, z) ∷ (a, x) ∷ []))
      → Removes (Llist.remove l (some a)) (ws ++ ((c, z) ∷ [])) (l.destroyed ++ (x ∷ []))
  unfolding unlink
  remove-end l ws c z a x h =
      let b : Behind l ws c z a x [] = behind l ws c z a x [] h in
      let (node_a, back) = b.before.back in
      let n : Option (Node A) =
        some (record { ptr = z; prev = last_address none ws; next = none }) in
      let cells : ℕ → Option (Node A) = update (update l.cells c n) a none in
      let l' : Llist A = record l {
        cells = cells;
        tail = some c;
        size = l.size - 1;
        destroyed = l.destroyed ++ (x ∷ []);
      } in
      record {
        result = l';
        returned =
            remove-unlink l a _ false (not_empty l ws (c, z) ((a, x) ∷ []) h) node_a b.head
            ∙ ap
                (λ o. released a x (elim o as (λ r. Option (Llist A)) [
                  | none ↦ none
                  | some cells' ↦ some (record l { cells = cells'; tail = some c })
                ]))
                (write_next-node l.cells c none _ b.before.node);
        IsList_result = removed-IsList l l' ws c z a x [] h refl refl refl refl (
            Segment-append cells none ws ((c, z) ∷ []) none
              (Segment-update (update l.cells c n) none ws (some c) a none b.a_not_front
                (Segment-update l.cells none ws (some c) c n b.before.not_front b.before.front))
              (
                update-miss (update l.cells c n) a c none (λ e. b.different (sym e))
                    ∙ update-hit l.cells c n,
                tt,
              ));
        destroyed = refl;
      }

  -- an element between two others
  pub remove-between :
      (l : Llist A) (ws : List (ℕ × A)) (c : ℕ) (z : A) (a : ℕ) (x : A) (b : ℕ) (y : A)
      (zs : List (ℕ × A))
      → IsList l (ws ++ ((c, z) ∷ (a, x) ∷ (b, y) ∷ zs))
      → Removes (Llist.remove l (some a)) (ws ++ ((c, z) ∷ (b, y) ∷ zs)) (l.destroyed ++ (x ∷ []))
  unfolding unlink
  remove-between l ws c z a x b y zs h =
      let k : Behind l ws c z a x ((b, y) ∷ zs) = behind l ws c z a x ((b, y) ∷ zs) h in
      let (node_a, (node_b, back)) = k.before.back in
      let (bc, cz) = k.c_not_back in
      let (ba, az) = k.a_not_back in
      let (bw, bz, d) = Distinct-remove ws b y zs k.others in
      let n : Option (Node A) =
        some (record { ptr = z; prev = last_address none ws; next = some b }) in
      let c₁ : ℕ → Option (Node A) = update l.cells c n in
      let m : Option (Node A) =
        some (record { ptr = y; prev = some c; next = first_address zs none }) in
      let c₂ : ℕ → Option (Node A) = update c₁ b m in
      let l' : Llist A = record l {
        cells = update c₂ a none;
        size = l.size - 1;
        destroyed = l.destroyed ++ (x ∷ []);
      } in
      record {
        result = l';
        returned =
            remove-unlink l a _ false (not_empty l ws (c, z) ((a, x) ∷ (b, y) ∷ zs) h) node_a k.head
            ∙ ap
                (λ o. released a x (elim o as (λ r. Option (Llist A)) [
                  | none ↦ none
                  | some cells ↦ elim (write_prev cells b (some c)) [
                    | none ↦ none
                    | some cells' ↦ some (record l { cells = cells' })
                  ]
                ]))
                (write_next-node l.cells c (some b) _ k.before.node)
            ∙ ap
                (λ o. released a x (elim o as (λ r. Option (Llist A)) [
                  | none ↦ none
                  | some cells ↦ some (record l { cells = cells })
                ]))
                (write_prev-node c₁ b (some c) _ (update-miss l.cells c b n bc ∙ node_b));
        IsList_result =
            removed-IsList l l' ws c z a x ((b, y) ∷ zs) h refl refl refl
              (h.tail ∙ last_address-append none ws ((c, z) ∷ (a, x) ∷ (b, y) ∷ zs))
              (Segment-append (update c₂ a none) none ws ((c, z) ∷ (b, y) ∷ zs) none
                (Segment-update c₂ none ws (some c) a none k.a_not_front (
                  Segment-update c₁ none ws (some c) b m bw (
                    Segment-update l.cells none ws (some c) c n k.before.not_front k.before.front)))
                (
                  update-miss c₂ a c none (λ e. k.different (sym e))
                      ∙ update-miss c₁ b c m (λ e. bc (sym e))
                      ∙ update-hit l.cells c n,
                  (
                    update-miss c₂ a b none ba ∙ update-hit c₁ b m,
                    Segment-update c₂ (some b) zs none a none az (
                        Segment-update c₁ (some b) zs none b m bz
                          (Segment-update l.cells (some b) zs none c n cz back)),
                  ),
                ));
        destroyed = refl;
      }
