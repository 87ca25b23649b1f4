-- ===== src/Coverage/Branches/Ending.antt =====
-- The search for paths ends.
use xdebug.Prelude.{
  ℕ, zero, suc, ◌+◌, ◌<◌, ◌≡◌, refl, sym, ap, ◌∙◌, Bool, true, false, Option, none, some, List, [],
  ◌∷◌, ◌++◌, leb, length, arith, Bool-cases, inl, inr, is_some,
}
use mathlib.Core.List.{Memᴰ}
use xdebug.BitSet.{in_set}
use xdebug.Coverage.Branches.{
  Branch, BranchInfo, branch_at, outs_of, path_exists, find_last_element, is_followed, follow,
  add_if_complete, find_path, find_from, find_paths, edge_count, max_paths,
}
use xdebug.Coverage.Branches.Edges.{
  unused, unused-bound, unused-lt, path_exists-snoc, path_exists-last, find_last_element-snoc,
}

next_ends {ℓ₁ ℓ₂} :
    {A : Type ℓ₁} {B : Type ℓ₂} (o : Option A) (f : A → Option B)
    → is_some o ≡ true
    → ((a : A) → is_some (f a) ≡ true)
    → is_some (elim o as (λ x. Option B) [ none ↦ none | some a ↦ f a ]) ≡ true
next_ends none f h k = absurd cc
next_ends (some a) f h k = k a

-- Each call that the loop over the outs makes ends.
follow_ends :
    (find : ℕ → List (List ℕ) → Option (List (List ℕ))) (path : List ℕ) (last : ℕ) (outs : List ℕ)
    (found : Bool) (paths : List (List ℕ))
    → ((out : ℕ) (ps : List (List ℕ))
        → Memᴰ out outs
        → is_followed path last out ≡ true
        → is_some (find out ps) ≡ true)
    → is_some (follow find path last outs found paths) ≡ true
unfolding follow
follow_ends find path last [] found paths h = refl
follow_ends find path last (out ∷ outs) found paths h =
    elim (Bool-cases (is_followed path last out)) [
      | inl e ↦ rw e (
          next_ends (find out paths) (follow find path last outs true)
            (h out paths (Memᴰ.head refl) e)
            (λ ps. follow_ends find path last outs true ps (λ o ps' m. h o ps' (Memᴰ.tail m))))
      | inr e ↦ rw e (follow_ends find path last outs found paths (λ o ps m. h o ps (Memᴰ.tail m)))
    ]

add_if_complete_ends :
    (path : List ℕ) (o : Option (Bool × List (List ℕ)))
    → is_some o ≡ true
    → is_some (add_if_complete path o) ≡ true
unfolding add_if_complete
add_if_complete_ends path none h = absurd cc
add_if_complete_ends path (some p) h = refl

not_taken :
    (path : List ℕ) (last out : ℕ)
    → is_followed path last out ≡ true
    → path_exists path last out ≡ false
unfolding is_followed
not_taken path last out h = ground arith

-- the path of the next call leaves fewer edges
fewer_unused :
    (branches : List Branch) (prev : List ℕ) (nr out : ℕ)
    → Memᴰ out (outs_of (branch_at branches nr))
    → is_followed (prev ++ (nr ∷ [])) (find_last_element (prev ++ (nr ∷ []))) out ≡ true
    → unused ((prev ++ (nr ∷ [])) ++ (out ∷ [])) 0 branches < unused (prev ++ (nr ∷ [])) 0 branches
fewer_unused branches prev nr out m f =
    let path : List ℕ = prev ++ (nr ∷ []) in
    let fresh : path_exists path nr out ≡ false =
      not_taken path nr out
        (ap (λ l. is_followed path l out) (sym (find_last_element-snoc prev nr)) ∙ f) in
    unused-lt path (path ++ (out ∷ [])) (path_exists-snoc path out) nr out fresh
      (path_exists-last prev nr out) 0 nr branches (omega arith) m

find_path_ends :
    (fuel : ℕ) (branches : List Branch) (nr : ℕ) (prev : List ℕ) (paths : List (List ℕ))
    → unused (prev ++ (nr ∷ [])) 0 branches < fuel
    → is_some (find_path fuel branches nr prev paths) ≡ true
unfolding find_path
find_path_ends zero branches nr prev paths h = elim h [ ]
find_path_ends (suc fuel) branches nr prev paths h =
    elim (Bool-cases (leb max_paths (length paths))) [
      | inl e ↦ rw e
      | inr e ↦ rw e (
          add_if_complete_ends (prev ++ (nr ∷ [])) _ (
            follow_ends _ (prev ++ (nr ∷ [])) _ (outs_of (branch_at branches nr)) false paths
              (λ out ps m f.
                find_path_ends fuel branches out (prev ++ (nr ∷ [])) ps
                  (omega (arith, fewer_unused branches prev nr out m f, h)))))
    ]

find_from_ends :
    (fuel : ℕ) (info : BranchInfo) (n i : ℕ) (paths : List (List ℕ))
    → edge_count info.branches < fuel
    → is_some (find_from fuel info n i paths) ≡ true
unfolding find_from
find_from_ends fuel info zero i paths h = refl
find_from_ends fuel info (suc n) i paths h = elim (Bool-cases (in_set info.entry_points i)) [
  | inl e ↦ rw e (
      next_ends (find_path fuel info.branches i [] paths) (find_from fuel info n (suc i))
        (find_path_ends fuel info.branches i [] paths
          (omega (arith, unused-bound (i ∷ []) 0 info.branches, h)))
        (λ ps. find_from_ends fuel info n (suc i) ps h))
  | inr e ↦ rw e (find_from_ends fuel info n (suc i) paths h)
]

-- The search for the paths of a function ends, whatever its branches, also with cycles: a recursion
-- as deep as there are outs of branches is enough.
pub find_paths_ends : (info : BranchInfo) → is_some (find_paths info) ≡ true
unfolding find_paths
find_paths_ends info =
    next_ends (find_from (edge_count info.branches + 1) info info.entry_points.size 0 info.paths) _
      (find_from_ends (edge_count info.branches + 1) info info.entry_points.size 0 info.paths
        (omega arith))
      (λ ps. refl)
