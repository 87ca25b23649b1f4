-- ===== src/Debugger/Statement/Over.antt =====
-- Where step_over stops, over every sequence of statements, calls and returns.
use xdebug.Prelude.{
  if_false, ℕ, ◌≤◌, ◌<◌, ◌≡◌, ◌≢◌, ◌⊎◌, refl, ap, ◌∙◌, true, false, not, Option, none, some, Bytes,
  List,
}
use xdebug.Prelude.Int.{pos}
use xdebug.Maps.Lookup.{PathMaps}
use xdebug.Debugger.Location.{Engine, at, map_remote_to_local}
use xdebug.Debugger.Context.{Context, Frame, Stack, Command, Stop, at_step}
use xdebug.Debugger.Statement.{
  Statement, is_implicit_return, check_stops, at_location, with_frame, statement_call, stop_at,
}
use xdebug.Hash.{Hash}
use xdebug.Debugger.Program.{Event, at_statement, at_function}
use xdebug.Debugger.Program.Quiet.{IsFree}

-- a context in which step_over waits for a statement of `id`'s stack at level `l` or above
record Over (id l : ℕ) (table : Hash ℕ) (ctx : Context) : Type 0 where
  connected : ctx.remote_connection ≡ true
  no_break : ctx.do_break ≡ false
  no_finish : ctx.do_finish ≡ false
  no_step : ctx.do_step ≡ false
  next : ctx.do_next ≡ true
  level : ctx.next_level ≡ pos l
  stack : ctx.next_stack ≡ some id
  breakpoints : ctx.function_breakpoints ≡ table

-- A statement of a function called from there, or of another stack, without line breakpoints.
pub record IsInside (id l : ℕ) (s : Statement) : Type 0 where
  pub frame : Frame
  pub tail : s.stack.tail ≡ some frame
  pub no_lines : frame.has_line_breakpoints ≡ false
  pub deeper : (s.stack.identity ≢ id) ⊎ (l < frame.level)

-- Such a statement, or a call or return on which no breakpoint is set.
abbrev pub PassedOver : ℕ → ℕ → Hash ℕ → Event → Type 0
PassedOver id l table (at_statement s) = IsInside id l s
PassedOver id l table (at_function c fse type) = IsFree table fse type

-- A statement whose place is known to the client, and which is not the end of an included file.
pub record IsPlaced (maps : Option PathMaps) (s : Statement) (frame : Frame) (path : Bytes)
    (lineno : ℕ) : Type 0 where
  pub tail : s.stack.tail ≡ some frame
  pub place : map_remote_to_local maps s.filename s.lineno ≡ at path lineno
  pub not_end : is_implicit_return s frame ≡ false

-- the stop that a step reports
abbrev pub step_at : Bytes → ℕ → Stop
step_at path lineno = record { reason = at_step; path = path; lineno = lineno; brk_info = none }

pub statement_call-placed :
    (engine : Engine) (maps : Option PathMaps) (s : Statement) (frame : Frame) (path : Bytes)
    (lineno : ℕ) (commands : List Command) (ctx : Context)
    → ctx.remote_connection ≡ true
    → IsPlaced maps s frame path lineno
    → statement_call engine maps s commands ctx
      ≡ check_stops engine s frame path lineno commands
          (record ctx { suppress_return_value_step = false })
unfolding statement_call with_frame at_location
statement_call-placed engine maps s frame path lineno commands ctx connected p =
    if_false (not ctx.remote_connection) _ _ (ap not connected)
    ∙ ap (with_frame engine maps s commands ctx) p.tail
    ∙ ap (λ l. at_location engine s frame l commands ctx) p.place
    ∙ if_false (is_implicit_return s frame) _ _ p.not_end

pub stop-stop_at :
    (stack : Stack) (commands : List Command) (ctx : Context) (stop : Stop)
    → (stop_at stack commands ctx stop).stop ≡ some stop
unfolding stop_at
stop-stop_at stack commands ctx stop = refl

-- what holds of a statement, and of no call or return
abbrev pub OnStatement : (Statement → Type 0) → Event → Type 0
OnStatement P (at_statement s) = P s
OnStatement P (at_function c fse type) = ⊥

-- A statement of the stack, at the level or above it.
record IsBack (maps : Option PathMaps) (id l : ℕ) (path : Bytes) (lineno : ℕ) (s : Statement)
    : Type 0 where
  frame : Frame
  same_stack : s.stack.identity ≡ id
  level : frame.level ≤ l
  placed : IsPlaced maps s frame path lineno
