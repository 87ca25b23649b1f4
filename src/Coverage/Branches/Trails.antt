-- ===== src/Coverage/Branches/Trails.antt =====
-- Walks along the branches of a function, and what one call of the search promises.
use xdebug.Prelude.{
  ℕ, ◌≤◌, ◌<◌, ◌≡◌, ◌≢◌, refl, sym, ap, ◌∙◌, Bool, true, false, Option, none, some, List, [], ◌∷◌,
  ◌++◌, All, length, length-append, arith, Bool-cases, inl, inr,
}
use mathlib.Core.List.{Memᴰ}
use mathlib.Core.Path.{subst}
use xdebug.BitSet.{in_set}
use xdebug.Coverage.Branches.{
  BranchInfo, branch_at, outs_of, path_exists, find_last_element, is_followed, follow,
  add_if_complete, max_paths, jmp_exit,
}

-- The walks from an entry point along the outs of the branches, no edge twice: an out of 0 and the
-- exit are no edges.
pub data Trail (info : BranchInfo) : List ℕ → Type 0 where
  entry : (nr : ℕ) → in_set info.entry_points nr ≡ true → Trail info (nr ∷ [])
  step :
      (path : List ℕ) (out : ℕ)
      → Trail info path
      → Memᴰ out (outs_of (branch_at info.branches (find_last_element path)))
      → out ≢ 0
      → out ≢ jmp_exit
      → path_exists path (find_last_element path) out ≡ false
      → Trail info (path ++ (out ∷ []))

-- No edge continues the walk.
abbrev pub IsComplete : BranchInfo → List ℕ → Type 0
IsComplete info path =
    (out : ℕ)
    → Memᴰ out (outs_of (branch_at info.branches (find_last_element path)))
    → is_followed path (find_last_element path) out ≡ false

-- what holds of the paths found so far
abbrev pub AreTrails : BranchInfo → List (List ℕ) → Type 0
AreTrails info paths =
    All (λ path. Trail info path × IsComplete info path) paths × (length paths ≤ max_paths)

-- the same of an outcome
abbrev pub Finds : BranchInfo → Option (List (List ℕ)) → Type 0
Finds info none = Unit
Finds info (some paths) = AreTrails info paths

-- what the loop over the outs promises: paths, and when none was followed, that nothing changed
abbrev pub Follows :
    BranchInfo → List ℕ → ℕ → List ℕ → Bool → List (List ℕ) → Option (Bool × List (List ℕ)) → Type 0
Follows info path last outs found paths none = Unit
Follows info path last outs found paths (some (found', paths')) =
    AreTrails info paths'
    × (found' ≡ false
        → (found ≡ false)
          × (paths' ≡ paths)
          × ((out : ℕ) → Memᴰ out outs → is_followed path last out ≡ false))

none_followed :
    (path : List ℕ) (last out : ℕ) (outs : List ℕ)
    → is_followed path last out ≡ false
    → ((o : ℕ) → Memᴰ o outs → is_followed path last o ≡ false)
    → (o : ℕ) → Memᴰ o (out ∷ outs)
    → is_followed path last o ≡ false
none_followed path last out outs e h o (Memᴰ.head same) = ap (is_followed path last) same ∙ e
none_followed path last out outs e h o (Memᴰ.tail m) = h o m

Follows-skip :
    (info : BranchInfo) (path : List ℕ) (last out : ℕ) (outs : List ℕ) (found : Bool)
    (paths : List (List ℕ)) (o : Option (Bool × List (List ℕ)))
    → is_followed path last out ≡ false
    → Follows info path last outs found paths o
    → Follows info path last (out ∷ outs) found paths o
Follows-skip info path last out outs found paths none e h = tt
Follows-skip info path last out outs found paths (some (f, ps)) e (good, h) =
    (good, λ n. ((h n).0, (h n).1, none_followed path last out outs e (h n).2))

-- an out was followed
Follows-take :
    (info : BranchInfo) (path : List ℕ) (last out : ℕ) (outs : List ℕ) (found : Bool)
    (paths paths' : List (List ℕ)) (o : Option (Bool × List (List ℕ)))
    → Follows info path last outs true paths' o
    → Follows info path last (out ∷ outs) found paths o
Follows-take info path last out outs found paths paths' none h = tt
Follows-take info path last out outs found paths paths' (some (f, ps)) (good, h) =
    (good, λ n. let wrong : true ≡ false = (h n).0 in absurd cc)

Follows-next :
    (info : BranchInfo) (find : ℕ → List (List ℕ) → Option (List (List ℕ))) (path : List ℕ)
    (last out : ℕ) (outs : List ℕ) (found : Bool) (paths : List (List ℕ))
    (o : Option (List (List ℕ)))
    → Finds info o
    → ((ps : List (List ℕ))
        → AreTrails info ps
        → Follows info path last outs true ps (follow find path last outs true ps))
    → Follows info path last
        (out ∷ outs)
        found
        paths
        (elim o as (λ x. Option (Bool × List (List ℕ))) [
          | none ↦ none
          | some ps ↦ follow find path last outs true ps
        ])
Follows-next info find path last out outs found paths none good h = tt
Follows-next info find path last out outs found paths (some ps) good h =
    Follows-take info path last out outs found paths ps _ (h ps good)

pub follow-Follows :
    (info : BranchInfo) (find : ℕ → List (List ℕ) → Option (List (List ℕ))) (path : List ℕ)
    (last : ℕ) (outs : List ℕ) (found : Bool) (paths : List (List ℕ))
    → AreTrails info paths
    → ((out : ℕ) (ps : List (List ℕ))
        → Memᴰ out outs
        → is_followed path last out ≡ true
        → AreTrails info ps
        → Finds info (find out ps))
    → Follows info path last outs found paths (follow find path last outs found paths)
unfolding follow
follow-Follows info find path last [] found paths good h = (good, λ n. (n, refl, λ o m. elim m [ ]))
follow-Follows info find path last (out ∷ outs) found paths good h =
    elim (Bool-cases (is_followed path last out)) [
      | inl e ↦ rw e (
          Follows-next info find path last out outs found paths (find out paths)
            (h out paths (Memᴰ.head refl) e good)
            (λ ps g.
              follow-Follows info find path last outs true ps g (λ o ps' m. h o ps' (Memᴰ.tail m))))
      | inr e ↦ rw e (
          Follows-skip info path last out outs found paths _ e (
            follow-Follows info find path last outs found paths good
              (λ o ps m. h o ps (Memᴰ.tail m))))
    ]

AreTrails-snoc :
    (info : BranchInfo) (paths : List (List ℕ)) (path : List ℕ)
    → AreTrails info paths
    → length paths < max_paths
    → Trail info path
    → IsComplete info path
    → AreTrails info (paths ++ (path ∷ []))
AreTrails-snoc info paths path (good, n) lt t c =
    (extended paths good, omega (arith, length-append paths (path ∷ []), lt))
  where
    extended :
        (ps : List (List ℕ))
        → All (λ p. Trail info p × IsComplete info p) ps
        → All (λ p. Trail info p × IsComplete info p) (ps ++ (path ∷ []))
    extended [] a = ((t, c), tt)
    extended (p ∷ ps) (a, as') = (a, extended ps as')

pub add_if_complete-Finds :
    (info : BranchInfo) (path : List ℕ) (paths : List (List ℕ)) (o : Option (Bool × List (List ℕ)))
    → length paths < max_paths
    → Trail info path
    → Follows info path
        (find_last_element path)
        (outs_of (branch_at info.branches (find_last_element path)))
        false
        paths
        o
    → Finds info (add_if_complete path o)
unfolding add_if_complete
add_if_complete-Finds info path paths none lt t h = tt
add_if_complete-Finds info path paths (some (true, ps)) lt t (good, h) = good
add_if_complete-Finds info path paths (some (false, ps)) lt t (good, h) =
    AreTrails-snoc info ps path good (subst (λ ps'. length ps' < max_paths) (sym (h refl).1) lt) t
      (h refl).2

-- a followed out is an edge that was not taken
pub followed :
    (path : List ℕ) (last out : ℕ)
    → is_followed path last out ≡ true
    → (out ≢ 0) × (out ≢ jmp_exit) × (path_exists path last out ≡ false)
unfolding is_followed
followed path last out h = (ground arith, ground arith, ground arith)
