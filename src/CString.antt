-- ===== src/CString.antt =====
-- The string functions of the C library that the code calls, and src/lib/strrnchr.h. A pointer
-- into a string is its offset, NULL is `none`.
use xdebug.Prelude.{
  ℕ, zero, suc, ◌+◌, ◌≤◌, ◌<◌, ◌≡◌, refl, true, Option, none, some, [], ◌∷◌, arith, ◌==◌,
  if◌then◌else◌, length, take, get_or, Bytes, inl, inr, Bool-cases,
}

-- strrnchr: the loop from byte `i` on, `n` bytes before its end, with the last match so far
strrnchr_from : ℕ → Bytes → ℕ → ℕ → Option ℕ → Option ℕ
strrnchr_from c s zero i r = r
strrnchr_from c [] (suc n) i r = r
strrnchr_from c (x ∷ s) (suc n) i r = strrnchr_from c s n (i + 1) (if x == c then some i else r)

unfoldable pub strrnchr : Bytes → ℕ → ℕ → Option ℕ
unfolding strrnchr_from
strrnchr s c n = strrnchr_from c s n 0 none

-- strrchr: the last occurrence of a byte
unfoldable pub strrchr : Bytes → ℕ → Option ℕ
unfolding strrnchr
strrchr s c = strrnchr s c (length s)

-- strchr: the first occurrence of a byte
unfoldable pub strchr : Bytes → ℕ → Option ℕ
strchr [] c = none
strchr (x ∷ s) c =
    let rest : Option ℕ = strchr s c in
    if x == c then some 0 else elim rest [ none ↦ none | some i ↦ some (suc i) ]

strrnchr_from-suc :
    (c : ℕ) (s : Bytes) (n i : ℕ) (r : Option ℕ)
    → n < length s
    → strrnchr_from c s (suc n) i r
      ≡ (if get_or s n 0 == c then some (i + n) else strrnchr_from c s n i r)
unfolding strrnchr_from
strrnchr_from-suc c [] n i r h = elim h [ ]
strrnchr_from-suc c (x ∷ []) zero i r h = ground arith
strrnchr_from-suc c (x ∷ y ∷ s) zero i r h = ground arith
strrnchr_from-suc c (x ∷ s) (suc n) i r h =
    ground (arith, strrnchr_from-suc c s n (i + 1) (if x == c then some i else r))

-- The last occurrence among one byte more.
pub strrnchr-suc :
    (s : Bytes) (c n : ℕ)
    → n < length s
    → strrnchr s c (suc n) ≡ (if get_or s n 0 == c then some n else strrnchr s c n)
unfolding strrnchr
strrnchr-suc s c n h = ground (arith, strrnchr_from-suc c s n 0 none)

strrnchr_from-take :
    (c : ℕ) (s : Bytes) (k n i : ℕ) (r : Option ℕ)
    → n ≤ k
    → strrnchr_from c (take k s) n i r ≡ strrnchr_from c s n i r
unfolding strrnchr_from
strrnchr_from-take c s k zero i r h = refl
strrnchr_from-take c s zero (suc n) i r h = elim h [ ]
strrnchr_from-take c [] (suc k) (suc n) i r h = refl
strrnchr_from-take c (x ∷ s) (suc k) (suc n) i r h =
    strrnchr_from-take c s k n (i + 1) _ (omega arith)

-- Only the bytes looked at matter.
pub strrnchr-take : (s : Bytes) (c k n : ℕ) → n ≤ k → strrnchr (take k s) c n ≡ strrnchr s c n
unfolding strrnchr
strrnchr-take s c k n h = strrnchr_from-take c s k n 0 none h

pub strrnchr-zero : (s : Bytes) (c : ℕ) → strrnchr s c 0 ≡ none
unfolding strrnchr
strrnchr-zero s c = refl

-- A match is one of the bytes looked at, and is the byte looked for.
pub strrnchr-some :
    (s : Bytes) (c n e : ℕ)
    → n ≤ length s
    → strrnchr s c n ≡ some e
    → (e < n) × ((get_or s e 0 == c) ≡ true)
strrnchr-some s c zero e h r = cc (strrnchr-zero s c)
strrnchr-some s c (suc n) e h r =
    let before = strrnchr-some s c n e (omega arith) in
    elim (Bool-cases (get_or s n 0 == c)) [
      | inl here ↦
          let same : n ≡ e = ground (arith, strrnchr-suc s c n h) in (omega arith, rw (← same) here)
      | inr apart ↦
          let earlier = before (ground (arith, strrnchr-suc s c n h)) in (omega arith, earlier.1)
    ]

-- Up to its own place, the last match is still the last match.
pub strrnchr_again :
    (s : Bytes) (c n e : ℕ) → n ≤ length s → strrnchr s c n ≡ some e → strrnchr s c (suc e) ≡ some e
strrnchr_again s c n e h r =
    let (lt, same) = strrnchr-some s c n e h r in rw (strrnchr-suc s c e (omega arith), same)

pub strrchr-strrnchr : (s : Bytes) (c : ℕ) → strrchr s c ≡ strrnchr s c (length s)
unfolding strrchr
strrchr-strrnchr s c = refl
