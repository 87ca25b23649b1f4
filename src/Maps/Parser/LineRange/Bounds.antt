-- ===== src/Maps/Parser/LineRange/Bounds.antt =====
-- What extract_line_range promises of the range it returns.
use xdebug.Prelude.{
  ℕ, suc, ◌-◌, ◌<◌, ◌≡◌, refl, ◌∙◌, sym, ◌⊎◌, inl, inr, true, false, Option-cases, some, none,
  Bytes, ◌==◌, length, get_or, arith, not, if◌then◌else◌, drop,
}
use xdebug.Prelude.Int.{ℤ, pos, ltb_ℤ, leb_ℤ, to_int}
use mathlib.Core.Path.{subst}
use xdebug.CString.{strchr, strrchr, strrchr-strrnchr, strrnchr-some}
use xdebug.Strtol.{strtol}
use xdebug.Maps.Parser.State.{Holds, guard-Holds, bind-Holds, Result, ok, fail, wrong_range, ◌>>=◌}
use xdebug.Maps.Parser.LineRange.{
  LineRange, single_line, end_line, begin_end, range_behind, extract_line_range, first,
}

-- a range that does not end before it begins
abbrev pub IsUpward : LineRange → Type 0
IsUpward r = leb_ℤ r.begin r.end ≡ true

leb-not_ltb : (a b : ℤ) → ltb_ℤ b a ≡ false → leb_ℤ a b ≡ true
leb-not_ltb a b h = ground arith

leb_ℤ_refl : (a : ℤ) → leb_ℤ a a ≡ true
leb_ℤ_refl a = ground arith

-- the element's length is the colon's offset, and the range is upward
abbrev EndsAt : ℕ → LineRange → Type 0
EndsAt colon r = (r.element_length ≡ colon) × IsUpward r

single_line-EndsAt : (colon : ℕ) (text : Bytes) → Holds (EndsAt colon) (single_line colon text)
unfolding single_line
single_line-EndsAt colon text =
    let line = to_int (strtol text 10).0 in
    let r : LineRange = record { element_length = colon; begin = line; end = line } in
    let tested : Result LineRange = if ltb_ℤ line (pos 1) then fail wrong_range else ok r in
    guard-Holds (EndsAt colon) (not (first (strtol text 10).1 == 0)) wrong_range tested λ _.
      guard-Holds (EndsAt colon) (ltb_ℤ line (pos 1)) wrong_range (ok r)
        λ _. (refl, leb_ℤ_refl line)

-- the last test of the branch with a `-`
from_end : ℕ → ℤ → ℤ → Result LineRange
from_end colon begin end =
    if ltb_ℤ end begin
    then fail wrong_range
    else ok (record { element_length = colon; begin = begin; end = end })

from_end-EndsAt : (colon : ℕ) (begin end : ℤ) → Holds (EndsAt colon) (from_end colon begin end)
unfolding from_end
from_end-EndsAt colon begin end =
    guard-Holds (EndsAt colon) (ltb_ℤ end begin) wrong_range
      (ok (record { element_length = colon; begin = begin; end = end }))
      λ h. (refl, leb-not_ltb begin end h)

begin_end-EndsAt :
    (colon : ℕ) (text : Bytes) (minus : ℕ) → Holds (EndsAt colon) (begin_end colon text minus)
unfolding begin_end from_end
begin_end-EndsAt colon text minus =
    let begin = to_int (strtol text 10).0 in
    let last = end_line (drop (suc minus) text) in
    let rest = last >>= from_end colon begin in
    let dash = not (first (strtol text 10).1 == b'-') in
    guard-Holds (EndsAt colon) (minus == 0) wrong_range (if dash then fail wrong_range else rest)
      λ _.
        guard-Holds (EndsAt colon) dash wrong_range rest
          λ _. bind-Holds (EndsAt colon) last (from_end colon begin) (from_end-EndsAt colon begin)

range_behind-EndsAt : (colon : ℕ) (text : Bytes) → Holds (EndsAt colon) (range_behind colon text)
unfolding range_behind
range_behind-EndsAt colon text = elim (Option-cases (strchr text b'-')) [
  | inl e ↦ rw (e, range_behind) (single_line-EndsAt colon text)
  | inr (minus, e) ↦ rw (e, range_behind) (begin_end-EndsAt colon text minus)
]

-- the two kinds of outcome
abbrev pub Bounded : Bytes → LineRange → Type 0
Bounded element r =
    IsUpward r
    × ((r ≡ record { element_length = length element; begin = pos 0; end = pos 0 })
        ⊎ ((0 < r.element_length)
            × (r.element_length < length element)
            × ((get_or element r.element_length 0 == b':') ≡ true)
            × ((get_or element (r.element_length - 1) 0 == b'/') ≡ false)))

behind-Bounded :
    (element : Bytes) (colon : ℕ) (m : Result LineRange)
    → colon < length element
    → (get_or element colon 0 == b':') ≡ true
    → (colon == 0) ≡ false
    → (get_or element (colon - 1) 0 == b'/') ≡ false
    → Holds (EndsAt colon) m
    → Holds (Bounded element) m
behind-Bounded element colon (ok r) lt here start slash (e, up) =
    (up, inr (rw e (ground arith, lt, here, slash)))
behind-Bounded element colon (fail e) lt here start slash h = tt

some-Bounded :
    (element : Bytes) (colon : ℕ)
    → strrchr element b':' ≡ some colon
    → Holds (Bounded element) (extract_line_range element)
unfolding extract_line_range
some-Bounded element colon e =
    let (lt, here) =
      strrnchr-some element b':' (length element) colon (omega arith)
        (sym (strrchr-strrnchr element b':') ∙ e) in
    let behind = range_behind colon (drop (suc colon) element) in
    let slash = get_or element (colon - 1) 0 == b'/' in
    rw (e, extract_line_range)
      (guard-Holds (Bounded element) (colon == 0) wrong_range
        (if slash then fail wrong_range else behind)
        λ start. guard-Holds (Bounded element) slash wrong_range behind λ apart.
          behind-Bounded element colon behind lt here start apart (range_behind-EndsAt colon _))

none-Bounded :
    (element : Bytes)
    → strrchr element b':' ≡ none
    → Holds (Bounded element) (extract_line_range element)
unfolding extract_line_range
none-Bounded element e = rw (e, extract_line_range) (refl, inl refl)

extract_line_range-Holds : (element : Bytes) → Holds (Bounded element) (extract_line_range element)
extract_line_range-Holds element = elim (Option-cases (strrchr element b':')) [
  | inl e ↦ none-Bounded element e
  | inr (colon, e) ↦ some-Bounded element colon e
]

-- When extract_line_range accepts an element, the range does not end before it begins; and either
-- there is no colon, so that the element keeps its length and the range is 0 to 0, or the element
-- is cut at a colon that is neither its first byte nor behind a slash.
pub extract_line_range-Bounded :
    (element : Bytes) (r : LineRange) → extract_line_range element ≡ ok r → Bounded element r
extract_line_range-Bounded element r e =
    subst (Holds (Bounded element)) e (extract_line_range-Holds element)
