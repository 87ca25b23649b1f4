-- ===== src/Stripcslashes.antt =====
-- src/lib/stripcslashes.c
pub mod Length
use xdebug.Prelude.{
  ℕ, zero, suc, ◌+◌, ◌-◌, ◌*◌, ◌%◌, Option, none, some, List, [], ◌∷◌, Bytes, ◌==◌, if◌then◌else◌,
  length,
}
use xdebug.Strtol.{digit}

-- One escape sequence read: the byte written, by how much `nlen` falls, and the bytes behind it.
pub record Escape : Type 0 where
  pub byte : ℕ
  pub shorter : ℕ
  pub rest : Bytes

-- the loop of the default case: at most `n` octal digits, their number and their value
pub record Octal : Type 0 where
  pub count : ℕ
  pub value : ℕ
  pub rest : Bytes

unfoldable pub read_octal : ℕ → ℕ → ℕ → Bytes → Octal
read_octal zero count acc s = record { count = count; value = acc; rest = s }
read_octal (suc n) count acc [] = record { count = count; value = acc; rest = [] }
read_octal (suc n) count acc (c ∷ s) = elim (digit 8 c) [
  | none ↦ record { count = count; value = acc; rest = c ∷ s }
  | some d ↦ read_octal n (count + 1) (acc * 8 + d) s
]

-- the default case; a value above 255 is cut by the cast to char
unfoldable pub octal_escape : ℕ → Bytes → Escape
octal_escape d t =
    let o = read_octal 3 0 0 (d ∷ t) in
    if o.count == 0
    then record { byte = d; shorter = 1; rest = t }
    else record { byte = o.value % 256; shorter = o.count; rest = o.rest }

-- the second digit of `\xHH`, if there is one
unfoldable pub hex_second : ℕ → Bytes → Escape
hex_second v [] = record { byte = v; shorter = 2; rest = [] }
hex_second v (g ∷ w) = elim (digit 16 g) [
  | none ↦ record { byte = v; shorter = 2; rest = g ∷ w }
  | some u ↦ record { byte = v * 16 + u; shorter = 3; rest = w }
]

-- case 'x', which falls through to the default case without a digit
unfoldable pub hex_escape : Bytes → Escape
hex_escape [] = octal_escape b'x' []
hex_escape (h ∷ u) = elim (digit 16 h) [
  | none ↦ octal_escape b'x' (h ∷ u)
  | some v ↦ hex_second v u
]

-- the byte of a one-letter escape
unfoldable pub letter_escape : ℕ → Option ℕ
letter_escape d =
    if d == b'n'
    then some 10
    else if d == b'r'
    then some 13
    else if d == b'a'
    then some 7
    else if d == b't'
    then some 9
    else if d == b'v'
    then some 11
    else if d == b'b'
    then some 8
    else if d == b'f'
    then some 12
    else if d == b'\\'
    then some b'\\'
    else none

-- the switch, at the byte behind the backslash
unfoldable pub read_escape : ℕ → Bytes → Escape
read_escape d t = elim (letter_escape d) [
  | some b ↦ record { byte = b; shorter = 1; rest = t }
  | none ↦ if d == b'x' then hex_escape t else octal_escape d t
]

-- what has been written, and `nlen`
pub record Stripped : Type 0 where
  pub target : Bytes
  pub nlen : ℕ

abbrev put : ℕ → Stripped → Stripped
put b r = record r { target = b ∷ r.target }

-- the loop, on the source that is left; a backslash at the very end is copied
unfoldable pub strip : ℕ → Bytes → ℕ → Stripped
strip zero s nlen = record { target = []; nlen = nlen }
strip (suc fuel) [] nlen = record { target = []; nlen = nlen }
strip (suc fuel) (c ∷ []) nlen = record { target = c ∷ []; nlen = nlen }
strip (suc fuel) (c ∷ d ∷ t) nlen =
    if c == b'\\'
    then put (read_escape d t).byte
        (strip fuel (read_escape d t).rest (nlen - (read_escape d t).shorter))
    else put c (strip fuel (d ∷ t) nlen)

-- xdebug_stripcslashes: every round reads at least one byte
unfoldable pub stripcslashes : Bytes → Stripped
stripcslashes s = strip (length s) s (length s)

-- What a run of the function computes with.
unfoldable pub strip_program : Unit {0}
unfolding read_octal octal_escape hex_second hex_escape letter_escape read_escape strip
    stripcslashes digit
strip_program = tt
