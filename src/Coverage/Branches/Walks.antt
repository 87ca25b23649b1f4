-- ===== src/Coverage/Branches/Walks.antt =====
-- What the paths are that the search finds.
use xdebug.Prelude.{
  ℕ, zero, suc, ◌+◌, ◌≡◌, refl, sym, false, Option, none, some, List, [], ◌∷◌, ◌++◌, leb, length,
  arith, Bool-cases, inl, inr,
}
use mathlib.Core.List.{Memᴰ}
use mathlib.Core.Path.{subst}
use xdebug.BitSet.{in_set}
use xdebug.Coverage.Branches.{
  BranchInfo, branch_at, outs_of, find_last_element, follow, find_path, find_from, find_paths,
  edge_count, max_paths,
}
use xdebug.Coverage.Branches.Edges.{find_last_element-snoc}
use xdebug.Coverage.Branches.Trails.{
  Trail, AreTrails, Finds, Follows, follow-Follows, add_if_complete-Finds, followed,
}

find_path-Finds :
    (info : BranchInfo) (fuel nr : ℕ) (prev : List ℕ) (paths : List (List ℕ))
    → Trail info (prev ++ (nr ∷ []))
    → AreTrails info paths
    → Finds info (find_path fuel info.branches nr prev paths)
unfolding find_path
find_path-Finds info zero nr prev paths t good = tt
find_path-Finds info (suc fuel) nr prev paths t good =
    let path : List ℕ = prev ++ (nr ∷ []) in
    let last : find_last_element path ≡ nr = find_last_element-snoc prev nr in
    elim (Bool-cases (leb max_paths (length paths))) [
      | inl e ↦ rw e good
      | inr e ↦ rw e (
          add_if_complete-Finds info path paths _ (ground (arith, e)) t (
            subst
              (λ l.
                Follows info path (find_last_element path) (outs_of (branch_at info.branches l))
                  false paths
                  (follow (λ out ps. find_path fuel info.branches out path ps) path
                    (find_last_element path) (outs_of (branch_at info.branches nr)) false paths))
              (sym last)
              (follow-Follows info _ path (find_last_element path)
                (outs_of (branch_at info.branches nr)) false paths good
                (λ out ps m f g.
                  find_path-Finds info fuel out path ps
                    (Trail.step path out t
                      (subst (λ l. Memᴰ out (outs_of (branch_at info.branches l))) (sym last) m)
                      (followed path _ out f).0 (followed path _ out f).1 (followed path _ out f).2)
                    g))))
    ]

Finds-next :
    (info : BranchInfo) (o : Option (List (List ℕ))) (f : List (List ℕ) → Option (List (List ℕ)))
    → Finds info o
    → ((ps : List (List ℕ)) → AreTrails info ps → Finds info (f ps))
    → Finds info (elim o as (λ x. Option (List (List ℕ))) [ none ↦ none | some ps ↦ f ps ])
Finds-next info none f h k = tt
Finds-next info (some ps) f h k = k ps h

find_from-Finds :
    (info : BranchInfo) (fuel n i : ℕ) (paths : List (List ℕ))
    → AreTrails info paths
    → Finds info (find_from fuel info n i paths)
unfolding find_from
find_from-Finds info fuel zero i paths good = good
find_from-Finds info fuel (suc n) i paths good = elim (Bool-cases (in_set info.entry_points i)) [
  | inl e ↦ rw e (
      Finds-next info (find_path fuel info.branches i [] paths) (find_from fuel info n (suc i))
        (find_path-Finds info fuel i [] paths (Trail.entry i e) good)
        (λ ps g. find_from-Finds info fuel n (suc i) ps g))
  | inr e ↦ rw e (find_from-Finds info fuel n (suc i) paths good)
]

finished :
    (info : BranchInfo) (o : Option (List (List ℕ))) (f : List (List ℕ) → BranchInfo)
    (info' : BranchInfo)
    → ((ps : List (List ℕ)) → (f ps).paths ≡ ps)
    → Finds info o
    → (elim o as (λ x. Option BranchInfo) [ none ↦ none | some ps ↦ some (f ps) ]) ≡ some info'
    → AreTrails info info'.paths
finished info none f info' h good e = absurd cc
finished info (some ps) f info' h good e =
    let same : f ps ≡ info' = cc in
    subst (λ i. AreTrails info i.paths) same (subst (AreTrails info) (sym (h ps)) good)

-- Each path that the search finds is a walk from an entry point along the outs of the branches,
-- without an edge twice, that no edge continues; and there are no more than 4096 of them. The search
-- starts without paths.
pub find_paths-AreTrails :
    (info info' : BranchInfo)
    → info.paths ≡ []
    → find_paths info ≡ some info'
    → AreTrails info info'.paths
unfolding find_paths
find_paths-AreTrails info info' none_yet e =
    finished info
      (find_from (edge_count info.branches + 1) info info.entry_points.size 0 info.paths) _ info'
      (λ ps. refl)
      (find_from-Finds info (edge_count info.branches + 1) info.entry_points.size 0 info.paths
        (subst (AreTrails info) (sym none_yet) (tt, omega arith)))
      e
