-- ===== src/Debugger/Context.antt =====
-- The state that stepping keeps (src/debugger/handlers.h, src/debugger/debugger_private.h) and the
-- commands of src/debugger/handler_dbgp.c that end a break.
use xdebug.Prelude.{ℕ, ◌-◌, ◌%◌, ◌^◌, Bool, true, false, Option, none, some, Bytes, List, [], ◌∷◌}
use xdebug.Prelude.Int.{ℤ, pos, negsuc, int_of_bits}
use xdebug.Hash.{Hash}
use xdebug.Debugger.Types.{Breakpoint}

-- DBGP_STATUS_*
pub data Status : Type 0 where
  starting stopping stopped running break detached : Status

-- the types of functions that breakpoints tell apart: XFUNC_NORMAL, XFUNC_MEMBER and
-- XFUNC_STATIC_MEMBER, XFUNC_EVAL, the other XFUNC_INCLUDES, and the rest
pub data FunctionType : Type 0 where
  normal member eval includes unknown_function : FunctionType

-- struct _function_stack_entry, as far as the debugger reads it; `line_start` and `line_end` are
-- those of its op_array
pub record Frame : Type 0 where
  pub level : ℕ
  pub function_nr : ℕ
  pub user_defined : Bool
  pub function_type : FunctionType
  pub function_name : Bytes
  pub object_class : Bytes
  pub filename : Bytes
  pub lineno : ℤ
  pub line_start : ℕ
  pub line_end : ℕ
  pub has_line_breakpoints : Bool

-- struct _xdebug_con and the debugger's globals that stepping depends on. `remote_connection` tells
-- whether the connection is active; a stack is a number that identifies it. A pointer to a function
-- breakpoint is its position in `function_store`.
pub record Context : Type 0 where
  pub remote_connection : Bool
  pub status : Status
  pub do_break : Bool
  pub pending_breakpoint : Option ℕ
  pub next_stack : Option ℕ
  pub do_step : Bool
  pub do_next : Bool
  pub next_level : ℤ
  pub do_finish : Bool
  pub finish_level : ℤ
  pub finish_func_nr : ℤ
  pub line_breakpoints : List Breakpoint
  pub function_breakpoints : Hash ℕ
  pub function_store : List Breakpoint
  pub eval_id_lookup : Hash ℕ
  pub breakpoint_include_return_value : Bool
  pub breakpoints_allowed : Bool
  pub suppress_return_value_step : Bool

-- the stack of the program, and its last entry if there is one
pub record Stack : Type 0 where
  pub identity : ℕ
  pub tail : Option Frame

-- xdebug_mark_debug_connection_not_active
unfoldable pub mark_not_active : Context → Context
mark_not_active ctx = record ctx { remote_connection = false }

-- the commands that end a break
pub data Command : Type 0 where
  run step_into step_out step_over stop detach : Command

-- the assignments of step_out and step_over that depend on the stack
unfoldable pub set_finish : Option Frame → Context → Context
set_finish none ctx = record ctx { finish_level = negsuc 0; finish_func_nr = negsuc 0 }
set_finish (some fse) ctx = record ctx {
  finish_level = pos fse.level;
  finish_func_nr = int_of_bits (fse.function_nr % 2 ^ 32);
}

unfoldable pub set_next : Stack → Option Frame → Context → Context
set_next stack none ctx = record ctx { next_level = pos 0; next_stack = none }
set_next stack (some fse) ctx = record ctx {
  next_level = pos fse.level;
  next_stack = some stack.identity;
}

-- the handlers of the commands
unfoldable pub handle : Stack → Command → Context → Context
handle stack run ctx = ctx
handle stack step_into ctx = record ctx { do_next = false; do_step = true; do_finish = false }
handle stack step_out ctx =
    set_finish stack.tail (record ctx { do_next = false; do_step = false; do_finish = true })
handle stack step_over ctx =
    set_next stack stack.tail (record ctx { do_next = true; do_step = false; do_finish = false })
handle stack stop ctx = record ctx { status = stopped }
handle stack detach ctx = mark_not_active (record ctx { status = detached })

-- xdebug_dbgp_parse_option on such a command: each of them has `cont` set
unfoldable pub parse_option : Stack → Command → Context → Context
parse_option stack command ctx = handle stack command (record ctx { status = running })

-- xdebug_dbgp_cmdloop, up to the command that ends it; no command means that reading failed. What
-- is left of the client's commands is kept. Behind `stop` PHP is told to bail out: the program ends.
unfoldable pub cmdloop : Stack → List Command → Context → Context × List Command
cmdloop stack [] ctx = (mark_not_active ctx, [])
cmdloop stack (command ∷ commands) ctx = (parse_option stack command ctx, commands)

-- an int that is compared with an unsigned int
unfoldable pub to_unsigned : ℤ → ℕ
to_unsigned (pos n) = n % 2 ^ 32
to_unsigned (negsuc n) = (2 ^ 32 - 1) - n % 2 ^ 32

-- XDEBUG_BREAK and XDEBUG_STEP, with the place and the breakpoint that the client is told
pub data Reason : Type 0 where
  at_break at_step : Reason

pub record Stop : Type 0 where
  pub reason : Reason
  pub path : Bytes
  pub lineno : ℕ
  pub brk_info : Option Breakpoint

-- xdebug_dbgp_breakpoint, without the message; and what its callers do when it fails, which they
-- see from the connection
unfoldable pub remote_breakpoint : Stack → List Command → Context → Context × List Command
remote_breakpoint stack commands ctx = cmdloop stack commands (record ctx { status = break })
