-- ===== src/Maps/Parser/LineRange.antt =====
-- extract_line_range: the `:begin`, `:begin-end` or `:begin-EOF` at the end of an element.
pub mod Bounds
use xdebug.Prelude.{
  ℕ, zero, suc, ◌+◌, ◌-◌, not, Option, none, some, List, [], ◌∷◌, Bytes, codes, equal, ◌==◌,
  if◌then◌else◌, length, drop, get_or,
}
use xdebug.Prelude.Int.{ℤ, pos, ltb_ℤ, to_int}
use xdebug.CString.{strchr, strrchr}
use xdebug.Strtol.{strtol}
use xdebug.Maps.Types.{eof}
use xdebug.Maps.Parser.State.{Result, ok, fail, wrong_range, ◌>>=◌}

-- `*element_length`, `*begin` and `*end`
pub record LineRange : Type 0 where
  pub element_length : ℕ
  pub begin : ℤ
  pub end : ℤ

-- `*end_ptr`: the first byte of what a conversion left, NUL at the end
abbrev pub first : Bytes → ℕ
first s = get_or s 0 0

-- the branch with no `-`: `text` stands behind the colon, which is at the offset `colon`
unfoldable pub single_line : ℕ → Bytes → Result LineRange
single_line colon text =
    if not (first (strtol text 10).1 == 0)
    then fail wrong_range
    else if ltb_ℤ (to_int (strtol text 10).0) (pos 1)
    then fail wrong_range
    else ok (record {
      element_length = colon;
      begin = to_int (strtol text 10).0;
      end = to_int (strtol text 10).0;
    })

-- `end_lineno`, from the text behind the `-`
unfoldable pub end_line : Bytes → Result ℤ
end_line text =
    if equal text (codes "EOF")
    then ok eof
    else if not (first (strtol text 10).1 == 0)
    then fail wrong_range
    else ok (to_int (strtol text 10).0)

-- the branch with a `-` at the offset `minus` of the text
unfoldable pub begin_end : ℕ → Bytes → ℕ → Result LineRange
begin_end colon text minus =
    if minus == 0
    then fail wrong_range
    else if not (first (strtol text 10).1 == b'-')
    then fail wrong_range
    else end_line (drop (suc minus) text) >>= λ end_lineno.
        if ltb_ℤ end_lineno (to_int (strtol text 10).0)
        then fail wrong_range
        else ok
            (record { element_length = colon; begin = to_int (strtol text 10).0; end = end_lineno })

-- behind the colon
unfoldable pub range_behind : ℕ → Bytes → Result LineRange
range_behind colon text = elim (strchr text b'-') [
  | none ↦ single_line colon text
  | some minus ↦ begin_end colon text minus
]

-- With no colon the three outputs keep what the callers set them to: the element's length, 0 and 0.
unfoldable pub extract_line_range : Bytes → Result LineRange
extract_line_range element = elim (strrchr element b':') [
  | none ↦ ok (record { element_length = length element; begin = pos 0; end = pos 0 })
  | some colon ↦
      if colon == 0
      then fail wrong_range
      else if get_or element (colon - 1) 0 == b'/'
      then fail wrong_range
      else range_behind colon (drop (suc colon) element)
]

-- What a run of the function computes with.
unfoldable pub range_program : Unit {0}
unfolding strchr strrchr strtol equal single_line end_line begin_end range_behind extract_line_range
    to_int
range_program = tt
