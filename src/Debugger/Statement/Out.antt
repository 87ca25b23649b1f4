-- ===== src/Debugger/Statement/Out.antt =====
-- Where step_out stops, over every sequence of statements, calls and returns.
use xdebug.Prelude.{ℕ, ◌≤◌, ◌<◌, ◌^◌, ◌%◌, ◌≡◌, ◌⊎◌, Bool, true, false, Option, some, Bytes}
use xdebug.Prelude.Int.{pos, int_of_bits}
use xdebug.Maps.Lookup.{PathMaps}
use xdebug.Debugger.Context.{Context, Frame}
use xdebug.Debugger.Statement.{Statement}
use xdebug.Hash.{Hash}
use xdebug.Debugger.Program.{Event, at_statement, at_function}
use xdebug.Debugger.Program.Quiet.{IsFree}
use xdebug.Debugger.Statement.Over.{IsPlaced}

-- The function of this frame was left: a frame above its level, or a later call at its level.
abbrev pub IsLeft : (level function_nr : ℕ) → Frame → Type 0
IsLeft l n frame = (frame.level < l) ⊎ ((frame.level ≡ l) × (n < frame.function_nr))

-- It was not: a deeper frame, or the call itself.
abbrev pub IsWithin : (level function_nr : ℕ) → Frame → Type 0
IsWithin l n frame = (l < frame.level) ⊎ ((frame.level ≡ l) × (frame.function_nr ≤ n))

-- a context in which step_out waits for the end of call `n` at level `l`
record Out (l n : ℕ) (table : Hash ℕ) (values : Bool) (ctx : Context) : Type 0 where
  connected : ctx.remote_connection ≡ true
  no_break : ctx.do_break ≡ false
  no_next : ctx.do_next ≡ false
  no_step : ctx.do_step ≡ false
  finish : ctx.do_finish ≡ true
  level : ctx.finish_level ≡ pos l
  function_nr : ctx.finish_func_nr ≡ int_of_bits (n % 2 ^ 32)
  breakpoints : ctx.function_breakpoints ≡ table
  reports : ctx.breakpoint_include_return_value ≡ values

-- A statement inside of the call, or of a function called from it, without line breakpoints.
pub record IsInside (l n : ℕ) (s : Statement) : Type 0 where
  pub frame : Frame
  pub tail : s.stack.tail ≡ some frame
  pub no_lines : frame.has_line_breakpoints ≡ false
  pub within : IsWithin l n frame

-- Such a statement, or a call or return on which no breakpoint is set: a deeper one, or any if
-- return values are not reported.
abbrev pub PassedWithin : ℕ → ℕ → Hash ℕ → Bool → Event → Type 0
PassedWithin l n table values (at_statement s) = IsInside l n s
PassedWithin l n table values (at_function c fse type) =
    IsFree table fse type × ((l < fse.level) ⊎ (values ≡ false))

record IsAfter (maps : Option PathMaps) (l n : ℕ) (path : Bytes) (lineno : ℕ) (s : Statement)
    : Type 0 where
  frame : Frame
  left : IsLeft l n frame
  placed : IsPlaced maps s frame path lineno
