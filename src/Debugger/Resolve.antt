-- ===== src/Debugger/Resolve.antt =====
-- The resolving of line breakpoints in src/debugger/handler_dbgp.c: the smallest function around
-- the line, and in it the nearest line that can be broken on.
pub mod Smallest
pub mod Nearest
use xdebug.Prelude.{
  ℕ, zero, suc, ◌^◌, ◌-◌, ◌&&◌, ◌||◌, Bool, true, false, not, Option, none, some, List, [], ◌∷◌,
  Bytes, equal, if◌then◌else◌, ltb,
}
use xdebug.Prelude.Int.{ℤ, pos, negsuc, ◌+ℤ◌, ◌-ℤ◌, ltb_ℤ, to_size}
use xdebug.BitSet.{BitSet, in_set}
use xdebug.Debugger.Types.{Breakpoint, BreakpointType, line, conditional}

-- struct _xdebug_function_lines_map_item
pub record FunctionLines : Type 0 where
  pub line_start : ℕ
  pub line_end : ℕ
  pub line_span : ℕ
  pub lines_breakable : BitSet

-- XDEBUG_RESOLVED_SPAN_MAX and XDEBUG_DBGP_SCAN_RANGE
abbrev pub resolved_span_max : ℕ
resolved_span_max = 2147483647

abbrev pub scan_range : ℕ
scan_range = 5

-- the comparison of a line with the bounds of a function, as values of size_t
unfoldable pub out_of_range : ℤ → FunctionLines → Bool
out_of_range lineno item =
    ltb (to_size lineno) item.line_start || ltb item.line_end (to_size lineno)

-- the loop of find_smallest_range, from `found_item` and `found_item_span` on
unfoldable pub smallest_from :
    ℤ → Option FunctionLines → ℕ → List FunctionLines → Option FunctionLines
smallest_from lineno found span [] = found
smallest_from lineno found span (item ∷ items) =
    if out_of_range lineno item
    then smallest_from lineno found span items
    else if ltb item.line_span span
    then smallest_from lineno (some item) item.line_span items
    else smallest_from lineno found span items

-- find_smallest_range
unfoldable pub find_smallest_range : List FunctionLines → Breakpoint → Option FunctionLines
find_smallest_range functions brk =
    smallest_from brk.original_lineno none resolved_span_max functions

-- xdebug_set_in, whose position is an unsigned int
unfoldable pub breakable : FunctionLines → ℤ → Bool
breakable item (pos n) = in_set item.lines_breakable n
breakable item (negsuc n) = in_set item.lines_breakable (2 ^ 32 - 1 - n)

-- the do-while loop over the following lines, behind `tmp`; `none` when it ends without a line, or
-- without fuel
unfoldable pub scan_following : ℕ → FunctionLines → ℤ → ℤ → Option ℤ
scan_following zero item original tmp = none
scan_following (suc fuel) item original tmp =
    let next = tmp +ℤ pos 1 in
    let rest = scan_following fuel item original next in
    if breakable item next
    then some next
    else if ltb (to_size next) item.line_end && ltb_ℤ next (original +ℤ pos scan_range)
    then rest
    else none

-- the do-while loop over the previous lines
unfoldable pub scan_previous : ℕ → FunctionLines → ℤ → ℤ → Option ℤ
scan_previous zero item original tmp = none
scan_previous (suc fuel) item original tmp =
    let next = tmp -ℤ pos 1 in
    let rest = scan_previous fuel item original next in
    if breakable item next
    then some next
    else if ltb item.line_start (to_size next) && ltb_ℤ (original -ℤ pos scan_range) next
    then rest
    else none

-- the search of line_breakpoint_resolve_helper in the function that was found
unfoldable pub resolve_in : FunctionLines → ℤ → Option ℤ
resolve_in item original =
    if breakable item original
    then some original
    else elim (scan_following scan_range item original original) [
      | some found ↦ some found
      | none ↦ scan_previous scan_range item original original
    ]

-- the two assignments to a breakpoint whose line was found
abbrev pub resolve_to : Breakpoint → ℤ → Breakpoint
resolve_to brk lineno = record brk { resolved_lineno = lineno; resolved = true }

-- line_breakpoint_resolve_helper, without the notification of the client
unfoldable pub line_breakpoint_resolve_helper : List FunctionLines → Breakpoint → Breakpoint
line_breakpoint_resolve_helper functions brk = elim (find_smallest_range functions brk) [
  | none ↦ brk
  | some item ↦ elim (resolve_in item brk.original_lineno) [
    | none ↦ brk
    | some lineno ↦ resolve_to brk lineno
  ]
]

-- breakpoint_resolve_helper on the breakpoint that the admin entry names
unfoldable pub breakpoint_resolve_helper : Bytes → List FunctionLines → Breakpoint → Breakpoint
breakpoint_resolve_helper filename functions brk =
    if brk.resolved then brk else resolve_type brk.brk_type
  where
    resolve_type : BreakpointType → Breakpoint
    resolve_type line =
        if not (equal brk.filename filename)
        then brk
        else line_breakpoint_resolve_helper functions brk
    resolve_type conditional =
        if not (equal brk.filename filename)
        then brk
        else line_breakpoint_resolve_helper functions brk
    resolve_type _ = brk
