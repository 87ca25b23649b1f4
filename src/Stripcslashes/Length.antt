-- ===== src/Stripcslashes/Length.antt =====
-- The length that xdebug_stripcslashes reports.
use xdebug.Prelude.{
  ℕ, zero, suc, ◌+◌, ◌-◌, ◌*◌, ◌≤◌, ◌≡◌, refl, ap, ◌∙◌, true, false, [], ◌∷◌, Bytes, ◌==◌, ◌||◌,
  length, Bool-cases, Option-cases, inl, inr, arith, if◌then◌else◌,
}
use xdebug.Strtol.{digit}
use xdebug.Stripcslashes.{
  Escape, read_octal, octal_escape, hex_second, hex_escape, letter_escape, read_escape, strip,
  stripcslashes,
}

read_octal_count :
    (n count acc : ℕ) (s : Bytes)
    → ((read_octal n count acc s).count + length (read_octal n count acc s).rest ≡ count + length s)
      × (count ≤ (read_octal n count acc s).count)
unfolding read_octal
read_octal_count zero count acc s = omega arith
read_octal_count (suc n) count acc [] = omega arith
read_octal_count (suc n) count acc (c ∷ s) = elim (Option-cases (digit 8 c)) [
  | inl x ↦ rw (x, read_octal) (omega arith)
  | inr (d, x) ↦ rw (x, read_octal) (omega (arith, read_octal_count n (count + 1) (acc * 8 + d) s))
]

-- An escape takes one byte more than the length falls by, with the backslash before it.
abbrev Counts : Bytes → Escape → Type 0
Counts s e = (e.shorter + length e.rest ≡ length s) × (1 ≤ e.shorter)

octal_escape-Counts : (d : ℕ) (t : Bytes) → Counts (d ∷ t) (octal_escape d t)
unfolding octal_escape
octal_escape-Counts d t = ground (arith, read_octal_count 3 0 0 (d ∷ t))

hex_second-Counts : (v h d : ℕ) (u : Bytes) → Counts (d ∷ h ∷ u) (hex_second v u)
unfolding hex_second
hex_second-Counts v h d [] = omega arith
hex_second-Counts v h d (g ∷ w) = ground arith

hex_escape-Counts : (d : ℕ) (t : Bytes) → (d == b'x') ≡ true → Counts (d ∷ t) (hex_escape t)
unfolding hex_escape
hex_escape-Counts d [] e = ground (arith, octal_escape-Counts b'x' [])
hex_escape-Counts d (h ∷ u) e = elim (Option-cases (digit 16 h)) [
  | inl x ↦ rw (x, hex_escape) (octal_escape-Counts b'x' (h ∷ u))
  | inr (v, x) ↦ rw (x, hex_escape) (hex_second-Counts v h d u)
]

read_escape-Counts : (d : ℕ) (t : Bytes) → Counts (d ∷ t) (read_escape d t)
unfolding read_escape
read_escape-Counts d t = elim (Option-cases (letter_escape d)) [
  | inr (b, x) ↦ rw (x, read_escape) (omega arith)
  | inl x ↦
      rw (x, read_escape)
        (elim (Bool-cases (d == b'x')) [
          | inl is ↦ rw is (hex_escape-Counts d t is)
          | inr not_x ↦ rw not_x (octal_escape-Counts d t)
        ])
]

strip-length :
    (fuel : ℕ) (s : Bytes) (nlen : ℕ)
    → length s ≤ fuel
    → length s ≤ nlen
    → ((strip fuel s nlen).nlen + length s ≡ nlen + length (strip fuel s nlen).target)
      × (length (strip fuel s nlen).target ≤ length s)
unfolding strip
strip-length zero [] nlen h n = omega arith
strip-length zero (c ∷ s) nlen h n = elim h [ ]
strip-length (suc fuel) [] nlen h n = omega arith
strip-length (suc fuel) (c ∷ []) nlen h n = omega arith
strip-length (suc fuel) (c ∷ d ∷ t) nlen h n =
    let count = read_escape-Counts d t in
    elim (Bool-cases (c == b'\\')) [
      | inr plain ↦
          rw plain (omega (arith, strip-length fuel (d ∷ t) nlen (omega arith) (omega arith)))
      | inl escape ↦
          let later =
            strip-length fuel (read_escape d t).rest (nlen - (read_escape d t).shorter)
              (omega arith) (omega arith) in
          rw escape (omega arith)
    ]

-- The new length that xdebug_stripcslashes reports is the number of bytes that it wrote, which is
-- at most the number that it read.
pub stripcslashes-length :
    (s : Bytes)
    → ((stripcslashes s).nlen ≡ length (stripcslashes s).target)
      × (length (stripcslashes s).target ≤ length s)
unfolding stripcslashes
stripcslashes-length s =
    omega (arith, strip-length (length s) s (length s) (omega arith) (omega arith))

-- A backslash before each backslash and each double quote.
abbrev pub quote : Bytes → Bytes
quote [] = []
quote (c ∷ s) = if c == b'\\' || c == b'"' then b'\\' ∷ c ∷ quote s else c ∷ quote s

strip_plain :
    (fuel c : ℕ) (t : Bytes) (nlen : ℕ)
    → (c == b'\\') ≡ false
    → (strip (suc fuel) (c ∷ t) nlen).target ≡ c ∷ (strip fuel t nlen).target
unfolding strip
strip_plain zero c [] nlen h = refl
strip_plain (suc fuel) c [] nlen h = refl
strip_plain fuel c (d ∷ t) nlen h = rw h

-- An escaped backslash or double quote stands for itself.
read_escape_self :
    (d : ℕ) (t : Bytes)
    → (d == b'\\' || d == b'"') ≡ true
    → read_escape d t ≡ record { byte = d; shorter = 1; rest = t }
unfolding read_escape letter_escape octal_escape read_octal digit
read_escape_self d t h = elim (Bool-cases (d == b'\\')) [
  | inl slash ↦ let e : d ≡ b'\\' = ground arith in rw e
  | inr other ↦ let e : d ≡ b'"' = ground arith in rw e
]

strip_escape :
    (fuel d : ℕ) (t : Bytes) (nlen : ℕ)
    → (d == b'\\' || d == b'"') ≡ true
    → (strip (suc fuel) (b'\\' ∷ d ∷ t) nlen).target ≡ d ∷ (strip fuel t (nlen - 1)).target
unfolding strip
strip_escape fuel d t nlen h = rw (read_escape_self d t h)

strip-quote :
    (fuel : ℕ) (s : Bytes) (nlen : ℕ)
    → length (quote s) ≤ fuel
    → (strip fuel (quote s) nlen).target ≡ s
strip-quote zero [] nlen h = unfold strip in refl
strip-quote (suc fuel) [] nlen h = unfold strip in refl
strip-quote zero (c ∷ s) nlen h = absurd (ground arith)
strip-quote (suc fuel) (c ∷ s) nlen h = elim (Bool-cases (c == b'\\' || c == b'"')) [
  | inl special ↦
      rw (special, quote)
        (strip_escape fuel c (quote s) nlen special
          ∙ ap (◌∷◌ c) (strip-quote fuel s (nlen - 1) (ground arith)))
  | inr plain ↦
      rw (plain, quote)
        (strip_plain fuel c (quote s) nlen (ground arith)
          ∙ ap (◌∷◌ c) (strip-quote fuel s nlen (ground arith)))
]

-- Stripping the slashes that quoting has put in gives the string back.
pub stripcslashes-quote : (s : Bytes) → (stripcslashes (quote s)).target ≡ s
unfolding stripcslashes
stripcslashes-quote s = strip-quote (length (quote s)) s (length (quote s)) (omega arith)
