-- ===== src/Debugger/Resolve/Smallest.antt =====
-- The function that find_smallest_range answers with.
use xdebug.Prelude.{
  ℕ, ◌≤◌, ◌<◌, ◌≡◌, ◌⊎◌, inl, inr, refl, false, Option, none, some, List, [], ◌∷◌, All, ltb, arith,
  Bool-cases, ltb→lt, sym,
}
use mathlib.Core.List.{Memᴰ}
use xdebug.Prelude.Int.{ℤ}
use xdebug.Debugger.Types.{Breakpoint}
use xdebug.Debugger.Resolve.{
  FunctionLines, out_of_range, smallest_from, find_smallest_range, resolved_span_max,
}

-- Every function around the line spans at least so many lines.
abbrev pub SpansAtLeast : ℤ → ℕ → List FunctionLines → Type 0
SpansAtLeast lineno span = All (λ item. out_of_range lineno item ≡ false → span ≤ item.line_span)

-- the found function is one of the list, holds the line, and none that does is smaller
abbrev pub IsSmallest : ℤ → List FunctionLines → FunctionLines → Type 0
IsSmallest lineno items found =
    Memᴰ found items
    × (out_of_range lineno found ≡ false)
    × SpansAtLeast lineno found.line_span items

-- What the loop answers with, from what it has found so far.
abbrev Best : ℤ → Option FunctionLines → ℕ → List FunctionLines → Option FunctionLines → Type 0
Best lineno found span items none = (found ≡ none) × SpansAtLeast lineno span items
Best lineno found span items (some f) =
    ((some f ≡ found) ⊎ (Memᴰ f items × (out_of_range lineno f ≡ false)))
    × (f.line_span ≤ span)
    × SpansAtLeast lineno f.line_span items

Best-skip :
    (lineno : ℤ) (found : Option FunctionLines) (span : ℕ) (item : FunctionLines)
    (items : List FunctionLines) (o : Option FunctionLines)
    → (out_of_range lineno item ≡ false → span ≤ item.line_span)
    → Best lineno found span items o
    → Best lineno found span (item ∷ items) o
Best-skip lineno found span item items none h (e, b) = (e, (h, b))
Best-skip lineno found span item items (some f) h (inl e, le, rest) =
    (inl e, le, ((λ r. omega (arith, h r, le)), rest))
Best-skip lineno found span item items (some f) h (inr (m, i), le, rest) =
    (inr (Memᴰ.tail m, i), le, ((λ r. omega (arith, h r, le)), rest))

Best-take :
    (lineno : ℤ) (found : Option FunctionLines) (span : ℕ) (item : FunctionLines)
    (items : List FunctionLines) (o : Option FunctionLines)
    → out_of_range lineno item ≡ false
    → item.line_span < span
    → Best lineno (some item) item.line_span items o
    → Best lineno found span (item ∷ items) o
Best-take lineno found span item items none i lt (e, b) = absurd cc
Best-take lineno found span item items (some f) i lt (inl e, le, rest) =
    let same : f ≡ item = cc in
    (inr (Memᴰ.head same, rw same i), omega (arith, le), ((λ r. le), rest))
Best-take lineno found span item items (some f) i lt (inr (m, r), le, rest) =
    (inr (Memᴰ.tail m, r), omega (arith, le), ((λ r. le), rest))

same_span : (item f : FunctionLines) → some item ≡ some f → f.line_span ≡ item.line_span
same_span item f e = let same : f ≡ item = cc in rw same

smallest_from-Best :
    (lineno : ℤ) (found : Option FunctionLines) (span : ℕ) (items : List FunctionLines)
    → ((f : FunctionLines) → found ≡ some f → f.line_span ≡ span)
    → Best lineno found span items (smallest_from lineno found span items)
unfolding smallest_from
smallest_from-Best lineno none span [] h = (refl, tt)
smallest_from-Best lineno (some f) span [] h = (inl refl, omega (arith, h f refl), tt)
smallest_from-Best lineno found span (item ∷ items) h =
    elim (Bool-cases (out_of_range lineno item)) [
      | inl out ↦ rw out (
          Best-skip lineno found span item items _ (λ r. absurd cc)
            (smallest_from-Best lineno found span items h))
      | inr holds ↦ elim (Bool-cases (ltb item.line_span span)) [
        | inl lt ↦
            rw (holds, lt)
              (Best-take lineno found span item items _ holds (ltb→lt item.line_span span lt)
                (smallest_from-Best lineno (some item) item.line_span items (same_span item)))
        | inr ge ↦
            rw (holds, ge)
              (Best-skip lineno found span item items _ (λ r. ground (arith, ge))
                (smallest_from-Best lineno found span items h))
      ]
    ]

-- What find_smallest_range promises of its answer.
abbrev pub Smallest : ℤ → List FunctionLines → Option FunctionLines → Type 0
Smallest lineno items none = SpansAtLeast lineno resolved_span_max items
Smallest lineno items (some f) = IsSmallest lineno items f

Best-Smallest :
    (lineno : ℤ) (span : ℕ) (items : List FunctionLines) (o : Option FunctionLines)
    → span ≡ resolved_span_max
    → Best lineno none span items o
    → Smallest lineno items o
Best-Smallest lineno span items none h (e, b) = rw (sym h) b
Best-Smallest lineno span items (some f) h (inl e, le, rest) = absurd cc
Best-Smallest lineno span items (some f) h (inr (m, r), le, rest) = (m, r, rest)

-- find_smallest_range answers with a function of the list that holds the breakpoint's line and
-- spans no more lines than any other of the list that holds it; it answers with none only if every
-- function that holds the line spans XDEBUG_RESOLVED_SPAN_MAX lines or more.
pub find_smallest_range-Smallest :
    (functions : List FunctionLines) (brk : Breakpoint)
    → Smallest brk.original_lineno functions (find_smallest_range functions brk)
unfolding find_smallest_range
find_smallest_range-Smallest functions brk =
    Best-Smallest brk.original_lineno resolved_span_max functions _ refl
      (smallest_from-Best brk.original_lineno none resolved_span_max functions (λ f e. absurd cc))
