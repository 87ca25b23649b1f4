-- ===== src/Debugger/Hits/Count.antt =====
-- How often a breakpoint stops when the program comes to its line again and again.
use xdebug.Prelude.{
  if_true, if_false, ℕ, zero, suc, ◌+◌, ◌-◌, ◌*◌, ◌/◌, ◌%◌, ◌<◌, ◌≡◌, refl, sym, ap, ◌∙◌, Bool,
  true, false, ltb, ◌==◌, if◌then◌else◌, arith, Bool-cases, inl, inr, Bytes, List, [], ◌∷◌, Option,
  none, some, is_some, ◌&&◌,
}
use native.Mathlib.Nat.{
  div-add-mod, mul-add-div, mul-add-mod_self_left, mod-lt, div-eq_of_lt, div_self, mod-eq_of_lt,
  mod_self,
}
use xdebug.Prelude.Int.{ℤ, pos, eqb_ℤ}
use xdebug.Debugger.Types.{Breakpoint, HitCondition, hit_disabled, greater_equal, equal, modulo}
use xdebug.Hash.{Hash}
use xdebug.Debugger.Location.{Engine, break_on_line, resolved_filename}
use xdebug.Debugger.Statement.{line_loop, break_ok}
use xdebug.Debugger.Hits.{hit_condition_met, divides, after_hit, hit_stops}

abbrev one_if : Bool → ℕ
one_if true = 1
one_if false = 0

-- the stops among the first `n` hits for a hit value of `v`
abbrev pub expected : HitCondition → ℕ → ℕ → ℕ
expected greater_equal v n = n + 1 - v
expected equal v n = if ltb n v then 0 else 1
expected modulo v n = n / v
expected hit_disabled v n = n

carry : (k r : ℕ) → r < suc k → suc r / suc k ≡ one_if (suc r % suc k == 0)
carry k r h = elim (Bool-cases (ltb r k)) [
  | inl lt ↦
      rw
        (
          div-eq_of_lt {n = suc r} {m = suc k} (ground arith),
          mod-eq_of_lt {n = suc r} {m = suc k} (ground arith),
        )
        (ground arith)
  | inr ge ↦
      let same : suc r ≡ suc k = ground arith in
      rw (same, div_self {n = suc k} (omega arith), mod_self (suc k)) refl
]

div-suc : (k c : ℕ) → suc c / suc k ≡ c / suc k + one_if (suc c % suc k == 0)
div-suc k c =
    let r : ℕ = c % suc k in
    let split : suc c ≡ suc k * (c / suc k) + suc r = omega (arith, div-add-mod c (suc k)) in
    let small : r < suc k = mod-lt c {m = suc k} (omega arith) in
    let quotient : suc c / suc k ≡ c / suc k + suc r / suc k =
      ap (λ n. n / suc k) split ∙ mul-add-div {m = suc k} (omega arith) (c / suc k) (suc r) in
    let remainder : suc c % suc k ≡ suc r % suc k =
      ap (λ n. n % suc k) split ∙ mul-add-mod_self_left (suc k) (c / suc k) (suc r) in
    quotient
    ∙ ap (λ q. c / suc k + q) (carry k r small)
    ∙ ap (λ m. c / suc k + one_if (m == 0)) (sym remainder)

hit_condition_met-expected :
    (condition : HitCondition) (v c : ℕ)
    → expected condition (suc v) (suc c)
      ≡ expected condition (suc v) c + one_if (hit_condition_met condition (pos (suc v)) (suc c))
unfolding hit_condition_met divides
hit_condition_met-expected greater_equal v c = ground arith
hit_condition_met-expected equal v c = ground arith
hit_condition_met-expected modulo v c = div-suc v c
hit_condition_met-expected hit_disabled v c = omega arith

expected-zero : (condition : HitCondition) (v : ℕ) → expected condition (suc v) 0 ≡ 0
expected-zero greater_equal v = omega arith
expected-zero equal v = ground arith
expected-zero modulo v = div-eq_of_lt {n = 0} {m = suc v} (omega arith)
expected-zero hit_disabled v = refl

module _ (engine : Engine) (ids : Hash ℕ) (filename : Bytes) (lineno : ℤ) where
  -- how many of `n` rounds of the loop over the line breakpoints stop
  pub visits : ℕ → List Breakpoint → ℕ
  visits zero brks = 0
  visits (suc n) brks =
      let (brks', hit) = line_loop engine ids filename lineno brks in
      one_if (is_some hit) + visits n brks'

  -- the breakpoint after `c` hits
  abbrev hits : Breakpoint → ℕ → Breakpoint
  hits brk c = record brk { hit_count = c }

  after_hit-hits :
      (brk : Breakpoint) (c : ℕ) → brk.temporary ≡ false → after_hit (hits brk c) ≡ hits brk (suc c)
  unfolding after_hit
  after_hit-hits brk c e =
      ap (λ d. record brk { disabled = d; hit_count = suc c }) (if_false brk.temporary _ _ e)

  matches :
      (brk : Breakpoint) (c : ℕ)
      → (break_on_line engine ids (hits brk c) filename lineno && break_ok engine (hits brk c))
        ≡ (break_on_line engine ids brk filename lineno && break_ok engine brk)
  unfolding break_on_line resolved_filename break_ok
  matches brk c = refl

  module _ (brk : Breakpoint) (v : ℕ) (lasting : brk.temporary ≡ false)
      (value : brk.hit_value ≡ pos (suc v))
      (here : (break_on_line engine ids brk filename lineno && break_ok engine brk) ≡ true) where
    stops :
        (c : ℕ) → hit_stops (hits brk c) ≡ hit_condition_met brk.hit_condition (pos (suc v)) (suc c)
    unfolding hit_stops
    stops c =
        ap (λ w. if eqb_ℤ w (pos 0) then true else hit_condition_met brk.hit_condition w (suc c))
          value
        ∙ if_false (eqb_ℤ (pos (suc v)) (pos 0)) _ _ (ground arith)

    round :
        (c : ℕ)
        → line_loop engine ids filename lineno (hits brk c ∷ []) ≡ (
            if hit_stops (hits brk c)
            then (after_hit (hits brk c) ∷ [], some (after_hit (hits brk c)))
            else (after_hit (hits brk c) ∷ [], none))
    unfolding line_loop
    round c = if_true _ _ _ (matches brk c ∙ here)

    told :
        (b : Bool) (x : Breakpoint) (n : ℕ)
        → let r : List Breakpoint × Option Breakpoint =
            if b then (x ∷ [], some x) else (x ∷ [], none) in
          one_if (is_some r.1) + visits n r.0 ≡ one_if b + visits n (x ∷ [])
    told true x n = refl
    told false x n = refl

    one_round :
        (n c : ℕ)
        → visits (suc n) (hits brk c ∷ [])
          ≡ one_if (hit_condition_met brk.hit_condition (pos (suc v)) (suc c))
            + visits n (hits brk (suc c) ∷ [])
    unfolding visits
    one_round n c =
        ap (λ (r : List Breakpoint × Option Breakpoint). one_if (is_some r.1) + visits n r.0)
          (round c)
        ∙ told (hit_stops (hits brk c)) (after_hit (hits brk c)) n
        ∙ ap (λ b. one_if b + visits n (after_hit (hits brk c) ∷ [])) (stops c)
        ∙ ap
            (λ b.
              one_if (hit_condition_met brk.hit_condition (pos (suc v)) (suc c))
              + visits n (b ∷ []))
            (after_hit-hits brk c lasting)

    visits-from :
        (n c m : ℕ)
        → m ≡ n + c
        → visits n (hits brk c ∷ []) + expected brk.hit_condition (suc v) c
          ≡ expected brk.hit_condition (suc v) m
    unfolding visits
    visits-from zero c m e =
        let same : expected brk.hit_condition (suc v) m ≡ expected brk.hit_condition (suc v) c =
          ap (expected brk.hit_condition (suc v)) (omega (arith, e)) in
        omega (arith, same)
    visits-from (suc n) c m e = omega (
      arith,
      one_round n c,
      hit_condition_met-expected brk.hit_condition v c,
      visits-from n (suc c) m (omega (arith, e)),
    )

-- When the program comes n times to the line of a breakpoint that is not temporary and has the hit
-- value v, above 0, the breakpoint stops n + 1 - v times with the condition >=, once or not at all
-- with ==, n / v times with %, and n times without a condition. It is the only line breakpoint, it
-- is not disabled, was not hit before, and its own condition, if it has one, holds each time.
pub visits-expected :
    (engine : Engine) (ids : Hash ℕ) (filename : Bytes) (lineno : ℤ) (brk : Breakpoint) (v n : ℕ)
    → brk.temporary ≡ false
    → brk.hit_value ≡ pos (suc v)
    → brk.hit_count ≡ 0
    → (break_on_line engine ids brk filename lineno && break_ok engine brk) ≡ true
    → visits engine ids filename lineno n (brk ∷ []) ≡ expected brk.hit_condition (suc v) n
visits-expected engine ids filename lineno brk v n lasting value fresh here =
    let counted : visits engine ids filename lineno n (record brk { hit_count = 0 } ∷ [])
        ≡ expected brk.hit_condition (suc v) n =
      omega (
        arith,
        visits-from engine ids filename lineno brk v lasting value here n 0 n (omega arith),
        expected-zero brk.hit_condition v,
      ) in
    ap (λ c. visits engine ids filename lineno n (record brk { hit_count = c } ∷ [])) fresh
    ∙ counted
