-- ===== src/Debugger/Location.antt =====
-- Where the program is, as the client sees it: mapped paths and evaluated code, and whether a
-- breakpoint is there.
use xdebug.Prelude.{
  ℕ, ◌-◌, Bool, false, not, Option, none, some, Bytes, codes, equal, length, take, drop, ◌++◌,
  if◌then◌else◌, ltb,
}
use xdebug.Prelude.Int.{ℤ, eqb_ℤ, to_size}
use xdebug.Prelude.Decimal.{decimal}
use xdebug.Hash
use xdebug.Hash.{Hash, str}
use xdebug.Maps.Lookup.{PathMaps, remote_to_local, Mapped, no_rule, skipped, mapped, undefined}
use xdebug.Debugger.Types.{Breakpoint}

-- What PHP does for the debugger: the evaluation of a condition (`none` when it fails, else
-- whether the value is `true`), and the comparison of strings without regard to case.
pub record Engine : Type 0 where
  pub do_eval : Bytes → Option Bool
  pub equals_ci : Bytes → Bytes → Bool

-- XDEBUG_PATH_MAP_RESULT_*, with the path and the line that are set; `lost` where the lookup is
-- undefined
pub data Location : Type 0 where
  skip : Location
  at : Bytes → ℕ → Location
  lost : Location

-- xdebug_debugger_map_remote_to_local on what the lookup answered
unfoldable pub location_of : Bytes → ℤ → Mapped → Location
location_of filename lineno no_rule = at filename (to_size lineno)
location_of filename lineno skipped = skip
location_of filename lineno (mapped kind path l) = at path l
location_of filename lineno undefined = lost

-- xdebug_debugger_map_remote_to_local; no maps when path mapping is not enabled
unfoldable pub map_remote_to_local : Option PathMaps → Bytes → ℤ → Location
map_remote_to_local none filename lineno = at filename (to_size lineno)
map_remote_to_local (some maps) filename lineno =
    location_of filename lineno (remote_to_local maps filename (to_size lineno))

-- xdebug_debugger_check_evaled_code_zstr, with the ids of the evaluated code by their file name
unfoldable pub check_evaled_code : Hash ℕ → Bytes → Option Bytes
check_evaled_code ids filename =
    let marker = codes "eval()'d code" in
    if ltb (length filename) (length marker)
    then none
    else if not (equal (drop (length filename - length marker) filename) marker)
    then none
    else elim (Hash.find ids (str filename)) [
      | none ↦ none
      | some id ↦ some (codes "dbgp://" ++ decimal id)
    ]

-- is_dbgp_url
unfoldable pub is_dbgp_url : Bytes → Bool
is_dbgp_url filename = equal (take 7 filename) (codes "dbgp://")

-- the file name that xdebug_dbgp_break_on_line compares with
unfoldable pub resolved_filename : Hash ℕ → Breakpoint → Bytes → Bytes
resolved_filename ids brk filename =
    if is_dbgp_url brk.filename
    then elim (check_evaled_code ids filename) [ none ↦ filename | some url ↦ url ]
    else filename

-- xdebug_dbgp_break_on_line
unfoldable pub break_on_line : Engine → Hash ℕ → Breakpoint → Bytes → ℤ → Bool
break_on_line engine ids brk filename lineno =
    if brk.disabled
    then false
    else if not (eqb_ℤ brk.resolved_lineno lineno)
    then false
    else engine.equals_ci brk.filename (resolved_filename ids brk filename)
