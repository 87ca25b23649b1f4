-- ===== src/Trim/Shape.antt =====
-- What xdebug_trim keeps and what it cuts off.
use xdebug.Prelude.{
  ℕ, zero, suc, ◌+◌, ◌≤◌, ◌<◌, ◌≡◌, refl, sym, ap, ◌∙◌, true, false, inl, inr, [], ◌∷◌, ◌++◌, Bytes,
  length, take, drop, length-take, length-drop, ◌==◌, take-append-drop, get_or, arith, Bool-cases,
}
use xdebug.Trim.{isspace, skip_space, trim_end, trim_from, trim}

-- Nothing but space.
abbrev pub IsBlank : Bytes → Type 0
IsBlank [] = Unit
IsBlank (c ∷ s) = (isspace c ≡ true) × IsBlank s

-- Empty, or neither the first nor the last byte is space.
abbrev pub IsTrimmed : Bytes → Type 0
IsTrimmed [] = Unit
IsTrimmed (c ∷ s) = (isspace c ≡ false) × (isspace (get_or (c ∷ s) (length s) 0) ≡ false)

pub record Trims (s t : Bytes) : Type 0 where
  pub before : Bytes
  pub behind : Bytes
  pub splits : s ≡ before ++ (t ++ behind)
  pub before_IsBlank : IsBlank before
  pub behind_IsBlank : IsBlank behind
  pub trimmed : IsTrimmed t

IsBlank-of_bytes :
    (s : Bytes) → ((j : ℕ) → j < length s → isspace (get_or s j 0) ≡ true) → IsBlank s
IsBlank-of_bytes [] h = tt
IsBlank-of_bytes (c ∷ s) h =
    (h 0 (omega arith), IsBlank-of_bytes s (λ j lt. h (suc j) (omega arith)))

get_or-drop : (s : Bytes) (k j : ℕ) → get_or (drop k s) j 0 ≡ get_or s (k + j) 0
get_or-drop s zero j = let e : 0 + j ≡ j = omega arith in rw e
get_or-drop [] (suc k) j = refl
get_or-drop (c ∷ s) (suc k) j =
    let e : suc k + j ≡ suc (k + j) = omega arith in rw e (get_or-drop s k j)

get_or-take : (s : Bytes) (k j : ℕ) → j < k → get_or (take k s) j 0 ≡ get_or s j 0
get_or-take s zero j h = elim h [ ]
get_or-take [] (suc k) j h = refl
get_or-take (c ∷ s) (suc k) zero h = refl
get_or-take (c ∷ s) (suc k) (suc j) h = get_or-take s k j (omega arith)

trim_end-le : (s : Bytes) (n : ℕ) → trim_end s n ≤ n
unfolding trim_end
trim_end-le s zero = omega arith
trim_end-le s (suc n) = ground (arith, trim_end-le s n)

-- Every byte behind the end that is found is space.
trim_end_behind : (s : Bytes) (n j : ℕ) → trim_end s n < j → j ≤ n → isspace (get_or s j 0) ≡ true
unfolding trim_end
trim_end_behind s zero j lt le = absurd (omega arith)
trim_end_behind s (suc n) j lt le = elim (Bool-cases (isspace (get_or s (suc n) 0))) [
  | inr other ↦ absurd (omega (arith, le, rw other at lt))
  | inl space ↦ elim (Bool-cases (j == suc n)) [
    | inl same ↦ let e : j ≡ suc n = ground arith in rw e space
    | inr less ↦ trim_end_behind s n j (rw space at lt) (ground arith)
  ]
]

-- The byte at the end that is found is no space, unless it is the first.
trim_end_at :
    (s : Bytes) (n : ℕ)
    → isspace (get_or s 0 0) ≡ false
    → isspace (get_or s (trim_end s n) 0) ≡ false
unfolding trim_end
trim_end_at s zero h = h
trim_end_at s (suc n) h = elim (Bool-cases (isspace (get_or s (suc n) 0))) [
  | inr other ↦ rw other other
  | inl space ↦ rw space (trim_end_at s n h)
]

length-take_of_le : (n : ℕ) (s : Bytes) → n ≤ length s → length (take n s) ≡ n
length-take_of_le n s h = omega (arith, length-take n s)

trim_from-Trims : (c : ℕ) (s : Bytes) → isspace c ≡ false → Trims (c ∷ s) (trim_from (c ∷ s))
unfolding trim_from
trim_from-Trims c s h =
    let e : ℕ = trim_end (c ∷ s) (length s) in
    let le = trim_end-le (c ∷ s) (length s) in
    record {
      before = [];
      behind = drop e s;
      splits = ap (◌∷◌ c) (sym (take-append-drop e s));
      before_IsBlank = tt;
      behind_IsBlank = IsBlank-of_bytes (drop e s) (λ j lt. rw (get_or-drop s e j) (
          trim_end_behind (c ∷ s) (length s) (suc (e + j)) (omega arith)
            (omega (arith, length-drop e s))));
      trimmed = (
        h,
        rw (length-take_of_le e s le) (
            ap isspace (get_or-take (c ∷ s) (suc e) e (omega arith))
            ∙ trim_end_at (c ∷ s) (length s) h),
      );
    }

skip_space-Trims : (s : Bytes) → Trims s (trim_from (skip_space s))
unfolding skip_space
skip_space-Trims [] = record {
  before = [];
  behind = [];
  splits = unfold trim_from in refl;
  before_IsBlank = tt;
  behind_IsBlank = tt;
  trimmed = unfold trim_from in tt;
}
skip_space-Trims (c ∷ s) = elim (Bool-cases (isspace c)) [
  | inr other ↦ rw other (trim_from-Trims c s other)
  | inl space ↦
      let t = skip_space-Trims s in
      rw space (record {
        before = c ∷ t.before;
        behind = t.behind;
        splits = ap (◌∷◌ c) t.splits;
        before_IsBlank = (space, t.before_IsBlank);
        behind_IsBlank = t.behind_IsBlank;
        trimmed = t.trimmed;
      })
]

-- xdebug_trim returns the string without the space before and behind it: what it cuts off is
-- space, and what it keeps is empty or has no space at either end.
pub trim-Trims : (s : Bytes) → Trims s (trim s)
unfolding trim
trim-Trims s = skip_space-Trims s
