-- ===== src/Coverage/Branches/Edges.antt =====
-- The edges of the branches that a path has not taken: they get fewer with each step.
use xdebug.Prelude.{
  ℕ, zero, suc, ◌+◌, ◌≤◌, ◌<◌, ◌≡◌, refl, sym, ap, ◌∙◌, Bool, true, false, ◌&&◌, List, [], ◌∷◌,
  ◌++◌, if◌then◌else◌, ◌==◌, ==_refl, length, get_or, arith, length-append, Bool-cases, inl, inr,
}
use mathlib.Core.List.{Memᴰ}
use xdebug.Coverage.Branches.{
  Branch, branch_at, outs_of, path_exists, find_last_element, edge_count,
}

abbrev one_if_not : Bool → ℕ
one_if_not true = 0
one_if_not false = 1

-- the outs of branch `a` that are no edge of the path, and those of all branches from `a` on
pub unused_outs : List ℕ → ℕ → List ℕ → ℕ
unused_outs path a [] = 0
unused_outs path a (out ∷ outs) = one_if_not (path_exists path a out) + unused_outs path a outs

pub unused : List ℕ → ℕ → List Branch → ℕ
unused path a [] = 0
unused path a (b ∷ bs) = unused_outs path a (outs_of b) + unused path (suc a) bs

one_if_not-bound : (b : Bool) → one_if_not b ≤ 1
one_if_not-bound b = ground arith

unused_outs-bound : (path : List ℕ) (a : ℕ) (outs : List ℕ) → unused_outs path a outs ≤ length outs
unfolding unused_outs
unused_outs-bound path a [] = omega arith
unused_outs-bound path a (out ∷ outs) =
    omega (arith, one_if_not-bound (path_exists path a out), unused_outs-bound path a outs)

pub unused-bound : (path : List ℕ) (a : ℕ) (bs : List Branch) → unused path a bs ≤ edge_count bs
unfolding unused edge_count
unused-bound path a [] = omega arith
unused-bound path a (b ∷ bs) =
    omega (arith, unused_outs-bound path a (outs_of b), unused-bound path (suc a) bs)

-- a path that takes the edges of another, and one more
module _ (path path' : List ℕ)
    (more : (a b : ℕ) → path_exists path a b ≡ true → path_exists path' a b ≡ true) where
  one_if_not-le : (a b : ℕ) → one_if_not (path_exists path' a b) ≤ one_if_not (path_exists path a b)
  one_if_not-le a b = elim (Bool-cases (path_exists path a b)) [
    | inl e ↦ rw (e, more a b e) (omega arith)
    | inr e ↦ rw e (one_if_not-bound (path_exists path' a b))
  ]

  unused_outs-le : (a : ℕ) (outs : List ℕ) → unused_outs path' a outs ≤ unused_outs path a outs
  unfolding unused_outs
  unused_outs-le a [] = omega arith
  unused_outs-le a (out ∷ outs) = omega (arith, one_if_not-le a out, unused_outs-le a outs)

  unused-le : (a : ℕ) (bs : List Branch) → unused path' a bs ≤ unused path a bs
  unfolding unused
  unused-le a [] = omega arith
  unused-le a (b ∷ bs) = omega (arith, unused_outs-le a (outs_of b), unused-le (suc a) bs)

  module _ (nr out : ℕ) (fresh : path_exists path nr out ≡ false)
      (taken : path_exists path' nr out ≡ true) where
    unused_outs-lt :
        (outs : List ℕ) → Memᴰ out outs → unused_outs path' nr outs < unused_outs path nr outs
    unfolding unused_outs
    unused_outs-lt [] m = elim m [ ]
    unused_outs-lt (x ∷ outs) (Memᴰ.head e) =
        let before : one_if_not (path_exists path nr x) ≡ 1 =
          ap one_if_not (ap (path_exists path nr) (sym e) ∙ fresh) in
        let behind : one_if_not (path_exists path' nr x) ≡ 0 =
          ap one_if_not (ap (path_exists path' nr) (sym e) ∙ taken) in
        omega (arith, before, behind, unused_outs-le nr outs)
    unused_outs-lt (x ∷ outs) (Memᴰ.tail m) =
        omega (arith, one_if_not-le nr x, unused_outs-lt outs m)

    pub unused-lt :
        (a k : ℕ) (bs : List Branch)
        → a + k ≡ nr
        → Memᴰ out (outs_of (branch_at bs k))
        → unused path' a bs < unused path a bs
    unfolding unused
    unused-lt a k [] e m = elim m [ ]
    unused-lt a zero (b ∷ bs) e m =
        let same : a ≡ nr = omega (arith, e) in
        let at_path : unused_outs path a (outs_of b) ≡ unused_outs path nr (outs_of b) =
          ap (λ i. unused_outs path i (outs_of b)) same in
        let at_path' : unused_outs path' a (outs_of b) ≡ unused_outs path' nr (outs_of b) =
          ap (λ i. unused_outs path' i (outs_of b)) same in
        omega (arith, at_path, at_path', unused_outs-lt (outs_of b) m, unused-le (suc a) bs)
    unused-lt a (suc k) (b ∷ bs) e m =
        omega (arith, unused_outs-le a (outs_of b), unused-lt (suc a) k bs (omega (arith, e)) m)

pub path_exists-snoc :
    (path : List ℕ) (c a b : ℕ)
    → path_exists path a b ≡ true
    → path_exists (path ++ (c ∷ [])) a b ≡ true
unfolding path_exists
path_exists-snoc [] c a b h = absurd cc
path_exists-snoc (x ∷ []) c a b h = absurd cc
path_exists-snoc (x ∷ y ∷ path) c a b h = elim (Bool-cases (x == a && y == b)) [
  | inl e ↦ rw e
  | inr e ↦ rw e (path_exists-snoc (y ∷ path) c a b (rest e h))
]
  where
    rest :
        (x == a && y == b) ≡ false
        → (if x == a && y == b then true else path_exists (y ∷ path) a b) ≡ true
        → path_exists (y ∷ path) a b ≡ true
    rest e h = sym (ap (λ t. if t then true else path_exists (y ∷ path) a b) e) ∙ h

either_true : (b c : Bool) → c ≡ true → (if b then true else c) ≡ true
either_true true c h = refl
either_true false c h = h

pub path_exists-last :
    (prev : List ℕ) (nr out : ℕ) → path_exists ((prev ++ (nr ∷ [])) ++ (out ∷ [])) nr out ≡ true
unfolding path_exists
path_exists-last [] nr out = rw (==_refl nr, ==_refl out)
path_exists-last (x ∷ []) nr out = either_true _ _ (path_exists-last [] nr out)
path_exists-last (x ∷ y ∷ prev) nr out = either_true _ _ (path_exists-last (y ∷ prev) nr out)

get_or-snoc : (prev : List ℕ) (nr : ℕ) → get_or (prev ++ (nr ∷ [])) (length prev) 0 ≡ nr
get_or-snoc [] nr = refl
get_or-snoc (x ∷ prev) nr = get_or-snoc prev nr

pub find_last_element-snoc : (prev : List ℕ) (nr : ℕ) → find_last_element (prev ++ (nr ∷ [])) ≡ nr
unfolding find_last_element
find_last_element-snoc prev nr =
    ap (λ i. get_or (prev ++ (nr ∷ [])) i 0) (omega (arith, length-append prev (nr ∷ [])))
    ∙ get_or-snoc prev nr
