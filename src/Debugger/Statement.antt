-- ===== src/Debugger/Statement.antt =====
-- xdebug_debugger_statement_call of src/debugger/debugger.c: what the debugger does before each
-- statement of the program.
pub mod Stepping
pub mod Over
pub mod Out
use xdebug.Prelude.{
  ℕ, ◌+◌, ◌-◌, ◌%◌, ◌^◌, Bool, true, false, not, ◌&&◌, ◌||◌, Option, none, some, Bytes, List, [],
  ◌∷◌, if◌then◌else◌, ltb, ◌==◌, get_elem?,
}
use xdebug.Prelude.Int.{ℤ, pos, negsuc, ltb_ℤ, leb_ℤ, eqb_ℤ}
use xdebug.Hash.{Hash}
use xdebug.Maps.Lookup.{PathMaps}
use xdebug.Debugger.Types.{Breakpoint}
use xdebug.Debugger.Hits.{after_hit, hit_stops}
use xdebug.Debugger.Location.{Engine, break_on_line, Location, skip, at, lost, map_remote_to_local}
use xdebug.Debugger.Context.{
  Context, Frame, Stack, Command, Stop, Reason, at_break, at_step, remote_breakpoint, eval,
  includes, FunctionType, to_unsigned,
}

-- next_condition_met
unfoldable pub next_met : Option ℕ → ℕ → Bool → Bool
next_met none identity deep_enough = deep_enough
next_met (some next_stack) identity deep_enough = next_stack == identity && deep_enough

unfoldable pub next_condition_met : Context → Stack → Frame → Bool
next_condition_met ctx stack fse =
    next_met ctx.next_stack stack.identity (leb_ℤ (pos fse.level) ctx.next_level)

-- finish_condition_met
unfoldable pub finish_met : ℤ → ℕ → Frame → Bool → Bool
finish_met finish_level finish_func_nr fse break_at_return_scope =
    if not break_at_return_scope && ltb_ℤ (pos fse.level) finish_level
    then true
    else if break_at_return_scope && leb_ℤ (pos fse.level) finish_level
    then true
    else if eqb_ℤ (pos fse.level) finish_level && ltb finish_func_nr fse.function_nr
    then true
    else false

unfoldable pub finish_condition_met : Context → Frame → Bool → Bool
finish_condition_met ctx fse break_at_return_scope =
    finish_met ctx.finish_level (to_unsigned ctx.finish_func_nr) fse break_at_return_scope

-- A statement that is about to run; `at_implicit_return` tells whether the opcode is the last but
-- one of a file that ends in a return of a constant.
pub record Statement : Type 0 where
  pub stack : Stack
  pub filename : Bytes
  pub lineno : ℤ
  pub at_implicit_return : Bool

-- the bail-out at the end of an included file
unfoldable pub is_included : FunctionType → Bool
is_included eval = true
is_included includes = true
is_included _ = false

unfoldable pub is_implicit_return : Statement → Frame → Bool
is_implicit_return s fse = fse.user_defined && is_included fse.function_type && s.at_implicit_return

-- `break_ok`: no condition, or one that evaluates to true
unfoldable pub break_ok : Engine → Breakpoint → Bool
break_ok engine brk = elim brk.condition [
  | none ↦ true
  | some condition ↦ elim (engine.do_eval condition) [ none ↦ false | some is_true ↦ is_true ]
]

-- the loop over the line breakpoints: what becomes of them, and the one that stops
unfoldable pub line_loop :
    Engine → Hash ℕ → Bytes → ℤ → List Breakpoint → List Breakpoint × Option Breakpoint
line_loop engine ids filename lineno [] = ([], none)
line_loop engine ids filename lineno (brk ∷ brks) =
    let rest = line_loop engine ids filename lineno brks in
    if break_on_line engine ids brk filename lineno && break_ok engine brk
    then (if hit_stops brk
        then (after_hit brk ∷ brks, some (after_hit brk))
        else (after_hit brk ∷ rest.0, rest.1))
    else (brk ∷ rest.0, rest.1)

-- the state after a statement: the context, the client's commands that are left, and the stop that
-- was reported, if any
pub record Outcome : Type 0 where
  pub context : Context
  pub commands : List Command
  pub stop : Option Stop

-- the end of a branch that stops: the client is told, and answers
unfoldable pub stop_at : Stack → List Command → Context → Stop → Outcome
stop_at stack commands ctx stop =
    let (ctx', commands') = remote_breakpoint stack commands ctx in
    record { context = ctx'; commands = commands'; stop = some stop }

-- nothing happens
unfoldable pub ignored : List Command → Context → Outcome
ignored commands ctx = record { context = ctx; commands = commands; stop = none }

-- the check of the line breakpoints, and what follows a hit
unfoldable pub lines_hit : Stack → Stop → List Command → Context → Option Breakpoint → Outcome
lines_hit stack stop commands ctx none = ignored commands ctx
lines_hit stack stop commands ctx (some brk) =
    stop_at stack commands ctx (record stop { brk_info = some brk })

unfoldable pub check_lines : Engine → Statement → Frame → Stop → List Command → Context → Outcome
check_lines engine s fse stop commands ctx =
    if not fse.has_line_breakpoints
    then ignored commands ctx
    else let (brks, hit) =
        line_loop engine ctx.eval_id_lookup s.filename s.lineno ctx.line_breakpoints in
      lines_hit s.stack stop commands (record ctx { line_breakpoints = brks }) hit

-- the breakpoint that a pending break is about
unfoldable pub pending_info : List Breakpoint → Option ℕ → Option Breakpoint
pending_info brks none = none
pending_info brks (some i) = get_elem? brks i

-- the checks in their order: a pending break, step_out, step_over, step_into, line breakpoints
unfoldable pub check_stops :
    Engine → Statement → Frame → Bytes → ℕ → List Command → Context → Outcome
check_stops engine s fse path lineno commands ctx =
    let breaks : Stop = record {
      reason = at_break;
      path = path;
      lineno = lineno;
      brk_info = none;
    } in
    let steps : Stop = record breaks { reason = at_step } in
    if ctx.do_break
    then stop_at s.stack commands (record ctx { do_break = false; pending_breakpoint = none })
        (record breaks { brk_info = pending_info ctx.function_store ctx.pending_breakpoint })
    else if ctx.do_finish && finish_condition_met ctx fse false
    then stop_at s.stack commands (record ctx { do_finish = false }) steps
    else if ctx.do_next && next_condition_met ctx s.stack fse
    then stop_at s.stack commands (record ctx { do_next = false }) steps
    else if ctx.do_step
    then stop_at s.stack commands (record ctx { do_step = false }) steps
    else check_lines engine s fse breaks commands ctx

-- the part behind the mapping of the path
unfoldable pub at_location :
    Engine → Statement → Frame → Location → List Command → Context → Outcome
at_location engine s fse skip commands ctx = ignored commands ctx
at_location engine s fse lost commands ctx = ignored commands ctx
at_location engine s fse (at path lineno) commands ctx =
    if is_implicit_return s fse
    then ignored commands ctx
    else check_stops engine s fse path lineno commands
        (record ctx { suppress_return_value_step = false })

-- the part behind the look for an entry of the stack
unfoldable pub with_frame :
    Engine → Option PathMaps → Statement → List Command → Context → Option Frame → Outcome
with_frame engine maps s commands ctx none = ignored commands ctx
with_frame engine maps s commands ctx (some fse) =
    at_location engine s fse (map_remote_to_local maps s.filename s.lineno) commands ctx

-- xdebug_debugger_statement_call, but for `do_connect_to_client`
unfoldable pub statement_call :
    Engine → Option PathMaps → Statement → List Command → Context → Outcome
statement_call engine maps s commands ctx =
    if not ctx.remote_connection
    then ignored commands ctx
    else with_frame engine maps s commands ctx s.stack.tail
