-- ===== src/Tests/SteppingProofs.antt =====
-- The theorems on stepping at a concrete program.
use xdebug.Prelude.{refl, ℕ, true, false, none, some, [], ◌∷◌, codes}
use xdebug.Prelude.Int.{pos}
use xdebug.Hash
use xdebug.Debugger.Types.{BreakpointType, return}
use xdebug.Debugger.Location.{Engine}
use xdebug.Debugger.Context.{Context, Frame, Stack, step_out, running, normal}
use xdebug.Debugger.Statement.{Statement, statement_call}
use xdebug.Debugger.Program.{Event, at_function}
use xdebug.Debugger.Statement.Over
use xdebug.Debugger.Statement.Out
use xdebug.Debugger.Functions.{Call}
use xdebug.Debugger.Functions.Returns.{handle_breakpoints}
use xdebug.Debugger.Exclusive.{AtMostOne}
use xdebug.Debugger.Exclusive.Reached.{Reached, Reached-AtMostOne}

abbrev plain_engine : Engine
plain_engine = record { do_eval = λ c. none; equals_ci = λ a b. true }

-- before anything is asked for
abbrev pub start : Context
start = record {
  remote_connection = true;
  status = running;
  do_break = false;
  pending_breakpoint = none;
  next_stack = none;
  do_step = false;
  do_next = false;
  next_level = pos 0;
  do_finish = false;
  finish_level = pos 0;
  finish_func_nr = pos 0;
  line_breakpoints = [];
  function_breakpoints = Hash.alloc 8 true;
  function_store = [];
  eval_id_lookup = Hash.alloc 8 true;
  breakpoint_include_return_value = true;
  breakpoints_allowed = true;
  suppress_return_value_step = false;
}

-- a function that calls another
abbrev caller : Frame
caller = record {
  level = 1;
  function_nr = 4;
  user_defined = true;
  function_type = normal;
  function_name = codes "f";
  object_class = [];
  filename = codes "a.php";
  lineno = pos 3;
  line_start = 1;
  line_end = 9;
  has_line_breakpoints = false;
}

abbrev pub callee : Frame
callee = record caller { level = 2; function_nr = 5; function_name = codes "g" }

abbrev pub stack_of : Frame → Stack
stack_of fse = record { identity = 7; tail = some fse }

abbrev statement_in : Frame → ℕ → Statement
statement_in fse lineno = record {
  stack = stack_of fse;
  filename = codes "a.php";
  lineno = pos lineno;
  at_implicit_return = false;
}

-- g is called, and returns
abbrev g_returns : Call
g_returns = record {
  stack = stack_of callee;
  executed_filename = some (codes "a.php");
  executed_lineno = pos 21;
  has_return_value = true;
}

abbrev event_of_g : BreakpointType → Event
event_of_g type = at_function g_returns callee type

-- return values are not asked for
abbrev silent : Context
silent = record start { breakpoint_include_return_value = false }

-- g returns while step_into is under way, and the client answers with step_out
abbrev stepping : Context
stepping = record start { do_step = true }

abbrev after_return : Context
after_return = (handle_breakpoints none g_returns callee return (step_out ∷ []) stepping).context

Reached-AtMostOne_example :
    AtMostOne (statement_call plain_engine none (statement_in caller 4) [] after_return).context
Reached-AtMostOne_example =
    Reached-AtMostOne plain_engine none stepping _ (refl, refl, refl)
      (Reached.statement (statement_in caller 4) [] after_return
        (Reached.function g_returns callee return (step_out ∷ []) stepping Reached.started))
