-- ===== src/Maps/Parser/Elements.antt =====
-- The prefixes of a map file, and the two elements of a rule: `remote = local`.
use xdebug.Prelude.{
  ℕ, ◌-◌, Bool, false, ◌&&◌, not, Option, none, some, [], ◌++◌, Bytes, codes, equal, ltb, ◌==◌,
  if◌then◌else◌, length, drop, take, get_or, last?,
}
use xdebug.Prelude.Int.{ℤ, pos, negsuc, ltb_ℤ}
use xdebug.Trim.{trim, trim_from, skip_space, trim_end}
use xdebug.Maps.Types.{Kind, directory, file, lines, MapType, plain, flags_skip}
use xdebug.Maps.Parser.State.{
  Result, ok, fail, garbage, invalid_prefix, no_separator, double_separator, ◌>>=◌, State,
}
use xdebug.Maps.Parser.LineRange.{LineRange, extract_line_range, range_program}

-- is_valid_prefix: it starts with `/`, or with `./`
unfoldable pub is_valid_prefix : Bytes → Bool
is_valid_prefix prefix =
    if get_or prefix 0 0 == b'.' then get_or prefix 1 0 == b'/' else get_or prefix 0 0 == b'/'

-- state_set_remote_prefix and state_set_local_prefix
unfoldable pub set_prefix : Bytes → Result (Option Bytes)
set_prefix prefix =
    if is_valid_prefix (trim prefix) then ok (some (trim prefix)) else fail invalid_prefix

-- `prefix && prefix_len > 0 && prefix[prefix_len - 1] == '/'`, and the same with `!=`
abbrev ends_in_slash : Option Bytes → Bool
ends_in_slash none = false
ends_in_slash (some p) = elim (last? p) [ none ↦ false | some c ↦ c == b'/' ]

abbrev ends_in_other : Option Bytes → Bool
ends_in_other none = false
ends_in_other (some p) = elim (last? p) [ none ↦ false | some c ↦ not (c == b'/') ]

unfoldable pub has_no_separator : Option Bytes → Bytes → Bool
has_no_separator prefix path = not (get_or path 0 0 == b'/') && ends_in_other prefix

unfoldable pub has_double_separator : Option Bytes → Bytes → Bool
has_double_separator prefix path = get_or path 0 0 == b'/' && ends_in_slash prefix

-- the two `*_begin` and `*_end`, which stay 0 unless a range begins above 0
pub record Element : Type 0 where
  pub path : Option Bytes
  pub type : MapType
  pub begin : ℤ
  pub end : ℤ

-- "Assemble": the prefix, with `.` for the working directory
unfoldable pub prefix_part : Option Bytes → Bytes → Bytes
prefix_part none cwd = []
prefix_part (some p) cwd = if get_or p 0 0 == b'.' then cwd ++ drop 1 p else p

-- and the element up to its range, with `./` for the working directory
unfoldable pub element_part : Bytes → Bytes → ℕ → Bytes
element_part cwd trimmed n =
    if get_or trimmed 0 0 == b'.' && get_or trimmed 1 0 == b'/'
    then cwd ++ take (n - 1) (drop 1 trimmed)
    else take n trimmed

-- `*type`, after the range has been taken off
unfoldable pub element_kind : Bytes → LineRange → Kind
element_kind trimmed r =
    if get_or trimmed (r.element_length - 1) 0 == b'/'
    then directory
    else if ltb_ℤ (pos 0) r.begin
    then lines
    else file

-- the part that prepare_remote_element and prepare_local_element have in common
unfoldable pub prepare_element : Option Bytes → Bytes → Bytes → Result Element
prepare_element prefix cwd trimmed =
    if has_no_separator prefix trimmed
    then fail no_separator
    else if has_double_separator prefix trimmed
    then fail double_separator
    else extract_line_range trimmed >>= λ r. ok (record {
      path = some (prefix_part prefix cwd ++ element_part cwd trimmed r.element_length);
      type = plain (element_kind trimmed r);
      begin = if ltb_ℤ (pos 0) r.begin then r.begin else pos 0;
      end = if ltb_ℤ (pos 0) r.begin then r.end else pos 0;
    })

-- `buffer` up to the `=`
unfoldable pub prepare_remote_element : State → Bytes → Result Element
prepare_remote_element state text =
    if ltb (length (trim text)) 1
    then fail garbage
    else prepare_element state.current_remote_prefix state.current_working_directory (trim text)

-- `buffer` behind the `=`
unfoldable pub prepare_local_element : State → Bytes → Result Element
prepare_local_element state text =
    if ltb (length (trim text)) 1
    then fail garbage
    else if equal (codes "SKIP") (trim text)
    then ok (record { path = none; type = flags_skip; begin = negsuc 0; end = negsuc 0 })
    else prepare_element state.current_local_prefix state.current_working_directory (trim text)

-- What a run of the functions computes with.
unfoldable pub elements_program : Unit {0}
unfolding range_program trim trim_from skip_space trim_end is_valid_prefix set_prefix
    has_no_separator has_double_separator prefix_part element_part element_kind prepare_element
    prepare_remote_element prepare_local_element
elements_program = tt
