-- ===== src/Debugger/Functions/Returns.antt =====
-- The rest of handle_breakpoints of src/debugger/debugger.c: breaks on a return value.
use xdebug.Prelude.{
  Bool, true, false, not, ◌&&◌, ◌||◌, Option, none, some, List, ◌++◌, if◌then◌else◌,
}
use xdebug.Maps.Lookup.{PathMaps}
use xdebug.Debugger.Types.{BreakpointType}
use xdebug.Debugger.Location.{Location, skip, at, lost, map_remote_to_local}
use xdebug.Debugger.Context.{Context, Frame, Command, Stop, at_break, mark_not_active}
use xdebug.Debugger.Statement.{finish_condition_met}
use xdebug.Debugger.Functions.{
  Call, Handled, mark_fse, unchanged, tell, is_return, handle_function_breakpoints,
}

-- whether the current place is one that the path mapping skips
unfoldable pub is_skip : Location → Bool
is_skip skip = true
is_skip _ = false

unfoldable pub executed_skip : Option PathMaps → Call → Bool
executed_skip maps c = elim c.executed_filename [
  | none ↦ false
  | some filename ↦ is_skip (map_remote_to_local maps filename c.executed_lineno)
]

-- the breaking logic, at the place of the function
unfoldable pub break_on_return : Call → Frame → Location → List Command → Context → Handled
break_on_return c fse skip commands ctx = unchanged fse commands ctx
break_on_return c fse lost commands ctx = unchanged fse commands ctx
break_on_return c fse (at path lineno) commands ctx =
    let stop : Stop = record { reason = at_break; path = path; lineno = lineno; brk_info = none } in
    if ctx.do_step
    then tell c fse commands (record ctx { do_step = false }) stop
    else if ctx.do_finish && finish_condition_met ctx fse true
    then tell c fse commands (record ctx { do_finish = false }) stop
    else unchanged fse commands ctx

-- nothing to do about a return value
unfoldable pub no_return_value : Context → Call → BreakpointType → Bool
no_return_value ctx c type =
    not ctx.breakpoint_include_return_value
    || not (is_return type)
    || ctx.suppress_return_value_step
    || not c.has_return_value

-- the part behind the function breakpoints
unfoldable pub handle_return :
    Option PathMaps → Call → Frame → BreakpointType → List Command → Context → Handled
handle_return maps c fse type commands ctx =
    if no_return_value ctx c type
    then unchanged fse commands ctx
    else if executed_skip maps c
    then unchanged fse commands ctx
    else break_on_return c fse (map_remote_to_local maps fse.filename fse.lineno) commands ctx

-- the stops of the function breakpoints come first
unfoldable pub then_handle : Handled → Handled → Handled
then_handle first second = record second { stops = first.stops ++ second.stops }

-- handle_breakpoints
unfoldable pub handle_all :
    Option PathMaps → Call → Frame → BreakpointType → List Command → Context → Handled
handle_all maps c fse type commands ctx =
    let marked = if fse.has_line_breakpoints then fse else mark_fse ctx c.executed_filename fse in
    let first = handle_function_breakpoints maps c marked type commands ctx in
    if not first.ok
    then first
    else then_handle first (handle_return maps c first.frame type first.commands first.context)

-- xdebug_debugger_handle_breakpoints
unfoldable pub handle_breakpoints :
    Option PathMaps → Call → Frame → BreakpointType → List Command → Context → Handled
handle_breakpoints maps c fse type commands ctx =
    if not (ctx.remote_connection && ctx.breakpoints_allowed)
    then unchanged fse commands ctx
    else let handled = handle_all maps c fse type commands ctx in
      if handled.ok then handled else record handled { context = mark_not_active handled.context }
