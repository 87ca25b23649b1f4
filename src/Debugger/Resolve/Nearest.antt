-- ===== src/Debugger/Resolve/Nearest.antt =====
-- The line that a breakpoint is resolved to, against a list of the lines in the order they are tried.
use xdebug.Prelude.{
  ℕ, zero, suc, ◌+◌, ◌-◌, ◌≤◌, ◌<◌, ◌^◌, ◌≡◌, refl, Bool, true, false, ◌&&◌, Option, none, some,
  List, [], ◌∷◌, ◌++◌, if◌then◌else◌, ltb, leb, arith, Bool-cases, inl, inr, ap, ◌∙◌,
}
use xdebug.Prelude.Int.{ℤ, pos, ◌+ℤ◌, ◌-ℤ◌, ltb_ℤ, to_size}
use xdebug.Debugger.Resolve.{
  FunctionLines, breakable, scan_following, scan_previous, scan_range, resolve_in,
}

-- `count` lines upwards from `first`, and downwards
abbrev pub upwards : ℕ → ℕ → List ℕ
upwards zero first = []
upwards (suc count) first = first ∷ upwards count (suc first)

abbrev pub downwards : ℕ → ℕ → List ℕ
downwards zero first = []
downwards (suc count) first = first ∷ downwards count (first - 1)

-- how many lines a do-while loop tries where `room` are left in the function: at least one
abbrev pub tried : ℕ → ℕ
tried room = if ltb room 1 then 1 else if ltb room scan_range then room else scan_range

-- the lines for a breakpoint on `n`, in the order they are tried
abbrev pub candidates : FunctionLines → ℕ → List ℕ
candidates item n =
    n ∷ upwards (tried (item.line_end - n)) (suc n)
    ++ downwards (tried (n - item.line_start)) (n - 1)

-- the first line of a list that can be broken on
abbrev pub first_breakable : FunctionLines → List ℕ → Option ℤ
first_breakable item [] = none
first_breakable item (l ∷ ls) =
    if breakable item (pos l) then some (pos l) else first_breakable item ls

first_breakable-append :
    (item : FunctionLines) (xs ys : List ℕ)
    → first_breakable item (xs ++ ys)
      ≡ elim (first_breakable item xs) [ none ↦ first_breakable item ys | some l ↦ some l ]
first_breakable-append item [] ys = refl
first_breakable-append item (x ∷ xs) ys = elim (Bool-cases (breakable item (pos x))) [
  | inl e ↦ rw e
  | inr e ↦ rw e (first_breakable-append item xs ys)
]

to_size_small : (n : ℕ) → n < 2 ^ 31 → to_size (pos n) ≡ n
unfolding to_size
to_size_small n h = omega arith

next_line : (n : ℕ) → pos n +ℤ pos 1 ≡ pos (suc n)
unfolding ◌+ℤ◌
next_line n = ground arith

previous_line : (n : ℕ) → 1 ≤ n → pos n -ℤ pos 1 ≡ pos (n - 1)
unfolding ◌-ℤ◌
previous_line n h = ground arith

up_bound : (n m : ℕ) → ltb_ℤ (pos m) (pos n +ℤ pos scan_range) ≡ ltb m (n + 5)
unfolding ◌+ℤ◌
up_bound n m = ground arith

down_bound : (n m : ℕ) → ltb_ℤ (pos n -ℤ pos scan_range) (pos m) ≡ ltb n (m + 5)
unfolding ◌-ℤ◌
down_bound n m = elim (Bool-cases (leb 5 (n + 0))) [
  | inl e ↦ rw e (ground arith)
  | inr e ↦ rw e (ground arith)
]

-- whether lines are left to be tried
abbrev is_more : ℕ → Bool
is_more zero = false
is_more (suc k) = true

more_following :
    (last n m k : ℕ)
    → n ≤ m
    → m + suc k ≡ n + tried (last - n)
    → (ltb (suc m) last && ltb (suc m) (n + 5)) ≡ is_more k
more_following last n m zero le e = ground arith
more_following last n m (suc k) le e = ground arith

scan_following-upwards :
    (fuel k : ℕ) (item : FunctionLines) (n m : ℕ)
    → k < fuel
    → n ≤ m
    → m + suc k ≡ n + tried (item.line_end - n)
    → m + suc k < 2 ^ 31
    → scan_following fuel item (pos n) (pos m) ≡ first_breakable item (upwards (suc k) (suc m))
unfolding scan_following
scan_following-upwards zero k item n m lt le e small = elim lt [ ]
scan_following-upwards (suc fuel) zero item n m lt le e small =
    rw
      (
        next_line m,
        to_size_small (suc m) (omega arith),
        up_bound n (suc m),
        more_following item.line_end n m zero le e,
      )
      refl
scan_following-upwards (suc fuel) (suc k) item n m lt le e small =
    rw
      (
        next_line m,
        to_size_small (suc m) (omega arith),
        up_bound n (suc m),
        more_following item.line_end n m (suc k) le e,
      )
      (elim (Bool-cases (breakable item (pos (suc m)))) [
        | inl b ↦ rw b
        | inr b ↦ rw b (
            scan_following-upwards fuel k item n (suc m) (omega arith) (omega arith) (omega arith)
              (omega arith))
      ])

more_previous :
    (start n m k : ℕ)
    → m ≤ n
    → suc k ≤ m
    → m + tried (n - start) ≡ n + suc k
    → (ltb start (m - 1) && ltb n (m - 1 + 5)) ≡ is_more k
more_previous start n m zero le room e = ground arith
more_previous start n m (suc k) le room e = ground arith

scan_previous-downwards :
    (fuel k : ℕ) (item : FunctionLines) (n m : ℕ)
    → k < fuel
    → m ≤ n
    → suc k ≤ m
    → m + tried (n - item.line_start) ≡ n + suc k
    → n < 2 ^ 31
    → scan_previous fuel item (pos n) (pos m) ≡ first_breakable item (downwards (suc k) (m - 1))
unfolding scan_previous
scan_previous-downwards zero k item n m lt le room e small = elim lt [ ]
scan_previous-downwards (suc fuel) zero item n m lt le room e small =
    rw
      (
        previous_line m (omega arith),
        to_size_small (m - 1) (omega arith),
        down_bound n (m - 1),
        more_previous item.line_start n m zero le room e,
      )
      refl
scan_previous-downwards (suc fuel) (suc k) item n m lt le room e small =
    rw
      (
        previous_line m (omega arith),
        to_size_small (m - 1) (omega arith),
        down_bound n (m - 1),
        more_previous item.line_start n m (suc k) le room e,
      )
      (elim (Bool-cases (breakable item (pos (m - 1)))) [
        | inl b ↦ rw b
        | inr b ↦ rw b (
            scan_previous-downwards fuel k item n (m - 1) (omega arith) (omega arith) (omega arith)
              (omega arith) small)
      ])

tried_positive : (room : ℕ) → suc (tried room - 1) ≡ tried room
tried_positive room = ground arith

tried_bound : (room : ℕ) → tried room ≤ 5
tried_bound room = ground arith

tried_room : (n start : ℕ) → 1 ≤ start → start ≤ n → tried (n - start) ≤ n
tried_room n start low le = ground arith

scan_following-first :
    (item : FunctionLines) (n : ℕ)
    → n < 2 ^ 30
    → scan_following scan_range item (pos n) (pos n)
      ≡ first_breakable item (upwards (tried (item.line_end - n)) (suc n))
scan_following-first item n small =
    let room : ℕ = item.line_end - n in
    let more : suc (tried room - 1) ≡ tried room = tried_positive room in
    let few : tried room ≤ 5 = tried_bound room in
    scan_following-upwards scan_range (tried room - 1) item n n (omega (arith, more, few))
      (omega arith) (omega (arith, more)) (omega (arith, more, few, small))
    ∙ ap (λ c. first_breakable item (upwards c (suc n))) more

scan_previous-first :
    (item : FunctionLines) (n : ℕ)
    → 1 ≤ item.line_start
    → item.line_start ≤ n
    → n < 2 ^ 30
    → scan_previous scan_range item (pos n) (pos n)
      ≡ first_breakable item (downwards (tried (n - item.line_start)) (n - 1))
scan_previous-first item n low ge small =
    let room : ℕ = n - item.line_start in
    let more : suc (tried room - 1) ≡ tried room = tried_positive room in
    let few : tried room ≤ 5 = tried_bound room in
    let enough : tried room ≤ n = tried_room n item.line_start low ge in
    scan_previous-downwards scan_range (tried room - 1) item n n (omega (arith, more, few))
      (omega arith) (omega (arith, more, enough)) (omega (arith, more)) (omega (arith, small))
    ∙ ap (λ c. first_breakable item (downwards c (n - 1))) more

-- In a function that holds line n, the breakpoint on n is resolved to the first of these lines that
-- can be broken on: n; the lines behind it up to the function's end and up to n + 5, but at least
-- one; the lines before it down to the function's start and down to n - 5, but at least one. None
-- of them gives no line. The function starts at line 1 or later, and the lines are below 2 ^ 30.
pub resolve_in-first_breakable :
    (item : FunctionLines) (n : ℕ)
    → 1 ≤ item.line_start
    → item.line_start ≤ n
    → n ≤ item.line_end
    → item.line_end < 2 ^ 30
    → resolve_in item (pos n) ≡ first_breakable item (candidates item n)
unfolding resolve_in
resolve_in-first_breakable item n low ge le high = elim (Bool-cases (breakable item (pos n))) [
  | inl b ↦ rw b
  | inr b ↦
      rw
        (
          b,
          first_breakable-append item (upwards (tried (item.line_end - n)) (suc n))
              (downwards (tried (n - item.line_start)) (n - 1)),
          scan_following-first item n (omega arith),
        )
        (ap
          (λ o. elim (first_breakable item (upwards (tried (item.line_end - n)) (suc n))) [
            | none ↦ o
            | some l ↦ some l
          ])
          (scan_previous-first item n low ge (omega arith)))
]
