-- ===== src/Llist/Segments.antt =====
-- The nodes in memory that stand for a list of elements, each with its address.
use xdebug.Prelude.{
  ℕ, ◌<◌, ◌≡◌, ◌≢◌, sym, ◌∙◌, Option, some, List, [], ◌∷◌, ◌++◌, All, ◌==◌, ==_refl, ==_iff, arith,
  Bool-cases, inl, inr,
}
use xdebug.Llist.{Node, update}

module _ {A : Type 0} where
  -- the address of the first element, and of the last one, or else another
  abbrev pub first_address : List (ℕ × A) → Option ℕ → Option ℕ
  first_address [] q = q
  first_address ((a, x) ∷ es) q = some a

  abbrev pub last_address : Option ℕ → List (ℕ × A) → Option ℕ
  last_address p [] = p
  last_address p ((a, x) ∷ es) = last_address (some a) es

  -- The elements stand in memory one behind the other, between `p` and `q`.
  abbrev pub Segment : (ℕ → Option (Node A)) → Option ℕ → List (ℕ × A) → Option ℕ → Type 0
  Segment cells p [] q = Unit
  Segment cells p ((a, x) ∷ es) q =
      (cells a ≡ some (record { ptr = x; prev = p; next = first_address es q }))
      × Segment cells (some a) es q

  -- An address is none of theirs; all of them are different.
  abbrev pub Avoids : ℕ → List (ℕ × A) → Type 0
  Avoids a = All (λ e. e.0 ≢ a)

  abbrev pub Distinct : List (ℕ × A) → Type 0
  Distinct [] = Unit
  Distinct ((a, x) ∷ es) = Avoids a es × Distinct es

  pub update-hit :
      (cells : ℕ → Option (Node A)) (a : ℕ) (n : Option (Node A)) → update cells a n a ≡ n
  update-hit cells a n = rw (==_refl a)

  pub update-miss :
      (cells : ℕ → Option (Node A)) (a b : ℕ) (n : Option (Node A))
      → b ≢ a
      → update cells a n b ≡ cells b
  update-miss cells a b n ne = elim (Bool-cases (b == a)) [
    | inl e ↦ absurd (ne ((==_iff b a).0 e))
    | inr e ↦ rw e
  ]

  -- a write elsewhere leaves a segment
  pub Segment-update :
      (cells : ℕ → Option (Node A)) (p : Option ℕ) (es : List (ℕ × A)) (q : Option ℕ) (a : ℕ)
      (n : Option (Node A))
      → Avoids a es
      → Segment cells p es q
      → Segment (update cells a n) p es q
  Segment-update cells p [] q a n h s = tt
  Segment-update cells p ((b, x) ∷ es) q a n (ne, h) (c, s) =
      (update-miss cells a b n ne ∙ c, Segment-update cells (some b) es q a n h s)

  pub Segment-append :
      (cells : ℕ → Option (Node A)) (p : Option ℕ) (xs ys : List (ℕ × A)) (q : Option ℕ)
      → Segment cells p xs (first_address ys q)
      → Segment cells (last_address p xs) ys q
      → Segment cells p (xs ++ ys) q
  Segment-append cells p [] ys q s t = t
  Segment-append cells p ((a, x) ∷ []) ys q (c, s) t = (c, t)
  Segment-append cells p ((a, x) ∷ (b, y) ∷ xs) ys q (c, s) t =
      (c, Segment-append cells (some a) ((b, y) ∷ xs) ys q s t)

  pub Segment-split :
      (cells : ℕ → Option (Node A)) (p : Option ℕ) (xs ys : List (ℕ × A)) (q : Option ℕ)
      → Segment cells p (xs ++ ys) q
      → Segment cells p xs (first_address ys q) × Segment cells (last_address p xs) ys q
  Segment-split cells p [] ys q s = (tt, s)
  Segment-split cells p ((a, x) ∷ []) ys q (c, s) = ((c, tt), s)
  Segment-split cells p ((a, x) ∷ (b, y) ∷ xs) ys q (c, s) =
      let (front, back) = Segment-split cells (some a) ((b, y) ∷ xs) ys q s in ((c, front), back)

  pub Avoids-append :
      (a : ℕ) (xs ys : List (ℕ × A)) → Avoids a xs → Avoids a ys → Avoids a (xs ++ ys)
  Avoids-append a [] ys h k = k
  Avoids-append a (x ∷ xs) ys (n, h) k = (n, Avoids-append a xs ys h k)

  pub Avoids-split :
      (a : ℕ) (xs ys : List (ℕ × A)) → Avoids a (xs ++ ys) → Avoids a xs × Avoids a ys
  Avoids-split a [] ys h = (tt, h)
  Avoids-split a (x ∷ xs) ys (n, h) = let (f, b) = Avoids-split a xs ys h in ((n, f), b)

  -- taking an element out of a list of distinct addresses, and putting one in
  pub Distinct-remove :
      (xs : List (ℕ × A)) (a : ℕ) (x : A) (ys : List (ℕ × A))
      → Distinct (xs ++ ((a, x) ∷ ys))
      → Avoids a xs × Avoids a ys × Distinct (xs ++ ys)
  Distinct-remove [] a x ys (h, d) = (tt, h, d)
  Distinct-remove ((b, y) ∷ xs) a x ys (h, d) =
      let (front, behind, rest) = Distinct-remove xs a x ys d in
      let (bx, (ab, by)) = Avoids-split b xs ((a, x) ∷ ys) h in
      (((λ e. ab (sym e)), front), behind, (Avoids-append b xs ys bx by, rest))

  pub Distinct-insert :
      (xs : List (ℕ × A)) (a : ℕ) (x : A) (ys : List (ℕ × A))
      → Avoids a (xs ++ ys)
      → Distinct (xs ++ ys)
      → Distinct (xs ++ ((a, x) ∷ ys))
  Distinct-insert [] a x ys h d = (h, d)
  Distinct-insert ((b, y) ∷ xs) a x ys (n, h) (hb, d) =
      let (bx, by) = Avoids-split b xs ys hb in
      (Avoids-append b xs ((a, x) ∷ ys) bx ((λ e. n (sym e)), by), Distinct-insert xs a x ys h d)

  -- The addresses are below the next one that malloc gives.
  abbrev pub Below : ℕ → List (ℕ × A) → Type 0
  Below n = All (λ e. e.0 < n)

  pub Below-Avoids : (n : ℕ) (es : List (ℕ × A)) → Below n es → Avoids n es
  Below-Avoids n [] h = tt
  Below-Avoids n (e ∷ es) (lt, h) = ((λ same. omega arith), Below-Avoids n es h)
