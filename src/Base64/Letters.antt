-- ===== src/Base64/Letters.antt =====
-- Bytes that the base64 code does not write.
use xdebug.Prelude.{
  ℕ, ◌<◌, ◌≡◌, refl, true, false, not, [], ◌∷◌, Bytes, ◌==◌, arith, All, all_below, all_below_at,
}
use xdebug.Base64.{base64_pad, letter, base64_encode}
use xdebug.Base64.RoundTrip.{AllBytes}

-- No letter is this byte.
abbrev NoLetter : ℕ → Type 0
NoLetter bad = all_below 64 (λ v. not (letter v == bad)) ≡ true

letter_lem : (bad v : ℕ) → NoLetter bad → v < 64 → (letter v == bad) ≡ false
letter_lem bad v k h = ground (arith, all_below_at 64 (λ v. not (letter v == bad)) v k h)

-- A byte that is neither a letter nor the pad does not occur.
base64_encode-All :
    (bad : ℕ)
    → NoLetter bad
    → (base64_pad == bad) ≡ false
    → (s : Bytes) → AllBytes s
    → All (λ c. (c == bad) ≡ false) (base64_encode s)
unfolding base64_encode
base64_encode-All bad k pad [] h = tt
base64_encode-All bad k pad (a ∷ []) h =
    (letter_lem bad _ k (omega arith), (letter_lem bad _ k (omega arith), (pad, (pad, tt))))
base64_encode-All bad k pad (a ∷ b ∷ []) h = (
  letter_lem bad _ k (omega arith),
  (letter_lem bad _ k (omega arith), (letter_lem bad _ k (omega arith), (pad, tt))),
)
base64_encode-All bad k pad (a ∷ b ∷ c ∷ s) (ha, (hb, (hc, h))) =
    let more = base64_encode-All bad k pad s h in
    (
      letter_lem bad _ k (omega arith),
      (
        letter_lem bad _ k (omega arith),
        (letter_lem bad _ k (omega arith), (letter_lem bad _ k (omega arith), more)),
      ),
    )

pub base64_encode-NoBracket :
    (s : Bytes) → AllBytes s → All (λ c. (c == b']') ≡ false) (base64_encode s)
unfolding all_below letter
base64_encode-NoBracket = base64_encode-All b']' refl refl

pub base64_encode-NoNul : (s : Bytes) → AllBytes s → All (λ c. (c == 0) ≡ false) (base64_encode s)
unfolding all_below letter
base64_encode-NoNul = base64_encode-All 0 refl refl
