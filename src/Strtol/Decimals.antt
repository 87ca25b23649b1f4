-- ===== src/Strtol/Decimals.antt =====
-- strtol reads the numbers that printf writes.
use xdebug.Prelude.{
  ℕ, zero, suc, ◌+◌, ◌*◌, ◌/◌, ◌%◌, ◌^◌, ◌<◌, ◌≡◌, refl, ap, ◌∙◌, sym, false, some, [], ◌∷◌, ◌++◌,
  append-nil, append_assoc, Bytes, ltb, arith, inl, inr, Bool-cases,
}
use xdebug.Prelude.Int.{pos, to_int, int_of_bits}
use xdebug.Prelude.Decimal.{digits, decimal}
use xdebug.Trim.{skip_space}
use xdebug.Strtol.{digit, digit_value, read_digits, to_long, strtol_digits, strtol_sign, strtol}

digit_lem : (d : ℕ) → d < 10 → digit 10 (b'0' + d) ≡ some d
unfolding digit digit_value
digit_lem d h = ground arith

read_digits-digit :
    (acc d : ℕ) (s : Bytes)
    → d < 10
    → read_digits 10 acc ((b'0' + d) ∷ s) ≡ read_digits 10 (acc * 10 + d) s
unfolding read_digits
read_digits-digit acc d s h = rw (digit_lem d h, read_digits)

read_digits-digits :
    (fuel n : ℕ) (s : Bytes) → n < fuel → read_digits 10 0 (digits fuel n ++ s) ≡ read_digits 10 n s
unfolding digits
read_digits-digits zero n s h = elim h [ ]
read_digits-digits (suc fuel) n s h = elim (Bool-cases (ltb n 10)) [
  | inl small ↦
      let value : 0 * 10 + n ≡ n = omega arith in
      rw small (read_digits-digit 0 n s (ground arith) ∙ ap (λ k. read_digits 10 k s) value)
  | inr large ↦
      let more = read_digits-digits fuel (n / 10) ((b'0' + n % 10) ∷ s) (ground arith) in
      let whole : n / 10 * 10 + n % 10 ≡ n = omega arith in
      rw (large, append_assoc, more, read_digits-digit (n / 10) (n % 10) s (omega arith), whole)
]

-- the first digit
digits-cons :
    (fuel n : ℕ) → n < fuel → (d : ℕ) × (t : Bytes) × (d < 10) × (digits fuel n ≡ (b'0' + d) ∷ t)
unfolding digits
digits-cons zero n h = elim h [ ]
digits-cons (suc fuel) n h = elim (Bool-cases (ltb n 10)) [
  | inl small ↦ (n, [], ground arith, rw small)
  | inr large ↦
      let (d, t, lt, e) = digits-cons fuel (n / 10) (ground arith) in
      (d, t ++ ((b'0' + n % 10) ∷ []), lt, rw (large, e))
]

strtol-digit :
    (d : ℕ) (t : Bytes)
    → d < 10
    → strtol ((b'0' + d) ∷ t) 10
      ≡ (to_long false (read_digits 10 0 ((b'0' + d) ∷ t)).0, (read_digits 10 0 ((b'0' + d) ∷ t)).1)
unfolding strtol strtol_sign strtol_digits skip_space
strtol-digit d t h = ground (arith, digit_lem d h)

pub strtol-decimal : (n : ℕ) → n < 2 ^ 63 → strtol (decimal n) 10 ≡ (pos n, [])
unfolding decimal
strtol-decimal n h =
    let (d, t, lt, e) = digits-cons (suc n) n (omega arith) in
    let read : read_digits 10 0 ((b'0' + d) ∷ t) ≡ (n, []) =
      ap (read_digits 10 0) (sym e ∙ sym (append-nil (digits (suc n) n)))
      ∙ read_digits-digits (suc n) n [] (omega arith)
      ∙ unfold read_digits in refl in
    rw (e, strtol-digit d t lt, read) (unfold to_long in ground arith)

-- A number that fits an int is read as that int.
pub to_int-decimal : (n : ℕ) → n < 2 ^ 31 → to_int (strtol (decimal n) 10).0 ≡ pos n
unfolding to_int int_of_bits
to_int-decimal n h = rw (strtol-decimal n (omega arith)) (ground arith)
