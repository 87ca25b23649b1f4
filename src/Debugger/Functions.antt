-- ===== src/Debugger/Functions.antt =====
-- xdebug_debugger_handle_breakpoints of src/debugger/debugger.c: what the debugger does when a
-- function is entered and when it returns.
pub mod Returns
use xdebug.Prelude.{
  ℕ, Bool, true, false, not, ◌&&◌, ◌||◌, Option, none, some, Bytes, List, [], ◌∷◌, ◌++◌, codes,
  if◌then◌else◌, leb, get_elem?, set, equal, is_some,
}
use xdebug.Prelude.Int.{ℤ}
use xdebug.Hash
use xdebug.Hash.{Hash, str}
use xdebug.Maps.Lookup.{PathMaps}
use xdebug.Debugger.Types.{
  Breakpoint, BreakpointType, line, conditional, call, return, exception, watch,
}
use xdebug.Debugger.Hits.{after_hit, hit_stops}
use xdebug.Debugger.Location.{Location, skip, at, lost, map_remote_to_local, check_evaled_code}
use xdebug.Debugger.Context.{
  Context, Frame, Stack, Command, Stop, at_break, remote_breakpoint, mark_not_active, FunctionType,
  normal, member, eval, to_unsigned,
}
use xdebug.Debugger.Statement.{finish_condition_met}

-- What PHP says of the function: where the program is, and the value it returns, if any.
pub record Call : Type 0 where
  pub stack : Stack
  pub executed_filename : Option Bytes
  pub executed_lineno : ℤ
  pub has_return_value : Bool

-- the state behind an event: the context, the frame, the client's commands that are left, and the
-- stops that were reported; `ok` is what the function returns
pub record Handled : Type 0 where
  pub context : Context
  pub frame : Frame
  pub commands : List Command
  pub stops : List Stop
  pub ok : Bool

-- the name that a breakpoint on a line must have, where the frame's code is
unfoldable pub frame_filename : Hash ℕ → Frame → Bytes → Option Bytes
frame_filename ids fse filename = name fse.function_type
  where
    name : FunctionType → Option Bytes
    name eval = check_evaled_code ids filename
    name _ = some filename

-- one round of the loop over the line breakpoints
unfoldable pub marks : Option Bytes → Frame → Breakpoint → Bool
marks none fse brk = false
marks (some filename) fse brk =
    equal brk.filename filename
    && leb fse.line_start (to_unsigned brk.resolved_lineno)
    && leb (to_unsigned brk.resolved_lineno) fse.line_end

unfoldable pub any_marks : Option Bytes → Frame → List Breakpoint → Bool
any_marks filename fse [] = false
any_marks filename fse (brk ∷ brks) =
    if marks filename fse brk then true else any_marks filename fse brks

-- mark_fse_as_having_line_breakpoints
unfoldable pub mark_fse : Context → Option Bytes → Frame → Frame
mark_fse ctx executed fse = if not fse.user_defined then fse else elim executed [
  | none ↦ fse
  | some filename ↦
      if any_marks (frame_filename ctx.eval_id_lookup fse filename) fse ctx.line_breakpoints
      then record fse { has_line_breakpoints = true }
      else fse
]

-- the letter that a key of `function_breakpoints` starts with
unfoldable pub key_letter : BreakpointType → Bytes
key_letter call = codes "C/"
key_letter _ = codes "R/"

-- the key, which is there for functions and methods only
unfoldable pub key_of : FunctionType → BreakpointType → Bytes → Bytes → Option Bytes
key_of normal type class name = some (key_letter type ++ name)
key_of member type class name = some (key_letter type ++ class ++ codes "::" ++ name)
key_of _ type class name = none

unfoldable pub function_key : Frame → BreakpointType → Option Bytes
function_key fse type = key_of fse.function_type type fse.object_class fse.function_name

-- whether the types are the same, for the types that functions are called and left with
unfoldable pub same_type : BreakpointType → BreakpointType → Bool
same_type call call = true
same_type return return = true
same_type _ _ = false

unfoldable pub is_return : BreakpointType → Bool
is_return return = true
is_return _ = false

unfoldable pub unchanged : Frame → List Command → Context → Handled
unchanged fse commands ctx = record {
  context = ctx;
  frame = fse;
  commands = commands;
  stops = [];
  ok = true;
}

-- telling the client; it fails when the connection is lost
unfoldable pub tell : Call → Frame → List Command → Context → Stop → Handled
tell c fse commands ctx stop =
    let (ctx', commands') = remote_breakpoint c.stack commands ctx in
    record {
      context = ctx';
      frame = fse;
      commands = commands';
      stops = stop ∷ [];
      ok = ctx'.remote_connection;
    }

-- a hit of the function breakpoint at position `i`
unfoldable pub function_hit :
    Call → Frame → BreakpointType → Bytes → ℕ → ℕ → Breakpoint → List Command → Context → Handled
function_hit c fse type path lineno i brk commands ctx =
    let hit = after_hit brk in
    let ctx' = record ctx { function_store = set ctx.function_store i hit } in
    if not (hit_stops brk)
    then unchanged fse commands ctx'
    else if not fse.user_defined || is_return type
    then tell c fse commands ctx'
        (record { reason = at_break; path = path; lineno = lineno; brk_info = some hit })
    else unchanged fse commands (record ctx' { do_break = true; pending_breakpoint = some i })

-- a breakpoint that was found
unfoldable pub function_found :
    Call → Frame → BreakpointType → Bytes → ℕ → ℕ → Breakpoint → List Command → Context → Handled
function_found c fse type path lineno i brk commands ctx =
    if not brk.disabled && same_type brk.function_break_type type
    then function_hit c fse type path lineno i brk commands ctx
    else unchanged fse commands ctx

-- the part of handle_function_breakpoints behind the mapping of the path
unfoldable pub function_at :
    Call → Frame → BreakpointType → Location → List Command → Context → Handled
function_at c fse type skip commands ctx = unchanged fse commands ctx
function_at c fse type lost commands ctx = unchanged fse commands ctx
function_at c fse type (at path lineno) commands ctx = elim (function_key fse type) [
  | none ↦ unchanged fse commands ctx
  | some key ↦ elim (Hash.find ctx.function_breakpoints (str key)) [
    | none ↦ unchanged fse commands ctx
    | some i ↦ elim (get_elem? ctx.function_store i) [
      | none ↦ unchanged fse commands ctx
      | some brk ↦ function_found c fse type path lineno i brk commands ctx
    ]
  ]
]

-- handle_function_breakpoints; without function breakpoints the lookup would find none either
unfoldable pub handle_function_breakpoints :
    Option PathMaps → Call → Frame → BreakpointType → List Command → Context → Handled
handle_function_breakpoints maps c fse type commands ctx =
    function_at c fse type (map_remote_to_local maps fse.filename fse.lineno) commands ctx
