-- ===== src/Strtol.antt =====
-- strtol of the C library, for the bases 8, 10 and 16, on a 64-bit `long`.
pub mod Decimals
use xdebug.Prelude.{
  ℕ, ◌+◌, ◌-◌, ◌*◌, ◌^◌, Bool, true, false, ◌&&◌, Option, none, some, [], ◌∷◌, Bytes, ltb, leb,
  ◌==◌, if◌then◌else◌,
}
use xdebug.Prelude.Int.{ℤ, pos, negsuc}
use xdebug.Trim.{skip_space}

-- the value of a digit in any base up to 36
unfoldable pub digit_value : ℕ → Option ℕ
digit_value c =
    if leb b'0' c && leb c b'9'
    then some (c - b'0')
    else if leb b'a' c && leb c b'z'
    then some (c - b'a' + 10)
    else if leb b'A' c && leb c b'Z'
    then some (c - b'A' + 10)
    else none

-- a digit of the base, if it is one
unfoldable pub digit : ℕ → ℕ → Option ℕ
unfolding digit_value
digit base c = elim (digit_value c) [ none ↦ none | some d ↦ if ltb d base then some d else none ]

-- the digits read, as a number, and the bytes behind them
unfoldable pub read_digits : ℕ → ℕ → Bytes → ℕ × Bytes
read_digits base acc [] = (acc, [])
read_digits base acc (c ∷ s) = elim (digit base c) [
  | none ↦ (acc, c ∷ s)
  | some d ↦ read_digits base (acc * base + d) s
]

abbrev pub long_max : ℕ
long_max = 2 ^ 63 - 1

-- the number with its sign, clamped to LONG_MIN and LONG_MAX
unfoldable pub to_long : Bool → ℕ → ℤ
to_long true n =
    if n == 0 then pos 0 else if leb n long_max then negsuc (n - 1) else negsuc long_max
to_long false n = if leb n long_max then pos n else pos long_max

-- behind the sign; without a digit nothing is read, and `*end_ptr` is the start `s`
unfoldable pub strtol_digits : ℕ → Bool → Bytes → Bytes → ℤ × Bytes
unfolding read_digits to_long
strtol_digits base negative s [] = (pos 0, s)
strtol_digits base negative s (c ∷ t) = elim (digit base c) [
  | none ↦ (pos 0, s)
  | some d ↦ (to_long negative (read_digits base 0 (c ∷ t)).0, (read_digits base 0 (c ∷ t)).1)
]

strtol_sign : ℕ → Bytes → Bytes → ℤ × Bytes
strtol_sign base s [] = (pos 0, s)
strtol_sign base s (c ∷ t) =
    if c == b'-'
    then strtol_digits base true s t
    else if c == b'+'
    then strtol_digits base false s t
    else strtol_digits base false s (c ∷ t)

-- the value, and the string from `*end_ptr` on
unfoldable pub strtol : Bytes → ℕ → ℤ × Bytes
unfolding strtol_sign strtol_digits digit
strtol s base = strtol_sign base s (skip_space s)
