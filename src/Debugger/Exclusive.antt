-- ===== src/Debugger/Exclusive.antt =====
-- step_into, step_over and step_out exclude each other.
pub mod Reached
use xdebug.Prelude.{
  ℕ, ◌≡◌, refl, Bool, true, false, not, ◌&&◌, ◌||◌, Option, none, some, Bytes, List, [], ◌∷◌,
  Bool-cases, inl, inr, if◌then◌else◌,
}
use xdebug.Maps.Lookup.{PathMaps}
use xdebug.Debugger.Types.{Breakpoint, BreakpointType}
use xdebug.Debugger.Location.{Engine, Location, skip, at, lost, map_remote_to_local}
use xdebug.Debugger.Context.{
  Context, Frame, Stack, Command, Stop, run, step_into, step_out, step_over, stop, detach,
  set_finish, set_next, handle, mark_not_active, parse_option, cmdloop, remote_breakpoint,
}
use xdebug.Debugger.Statement.{
  Statement, Outcome, ignored, stop_at, line_loop, check_lines, check_stops, at_location,
  with_frame, statement_call, lines_hit, is_implicit_return,
}

-- At most one of the step commands is under way.
abbrev pub AtMostOne : Context → Type 0
AtMostOne ctx =
    ((ctx.do_step && ctx.do_next) ≡ false)
    × ((ctx.do_step && ctx.do_finish) ≡ false)
    × ((ctx.do_next && ctx.do_finish) ≡ false)

set_finish-AtMostOne :
    (tail : Option Frame) (ctx : Context) → AtMostOne ctx → AtMostOne (set_finish tail ctx)
unfolding set_finish
set_finish-AtMostOne none ctx h = h
set_finish-AtMostOne (some fse) ctx h = h

set_next-AtMostOne :
    (stack : Stack) (tail : Option Frame) (ctx : Context)
    → AtMostOne ctx
    → AtMostOne (set_next stack tail ctx)
unfolding set_next
set_next-AtMostOne stack none ctx h = h
set_next-AtMostOne stack (some fse) ctx h = h

-- the same of an outcome
abbrev Keeps : Outcome → Type 0
Keeps o = AtMostOne o.context

handle-AtMostOne :
    (stack : Stack) (command : Command) (ctx : Context)
    → AtMostOne ctx
    → AtMostOne (handle stack command ctx)
unfolding handle mark_not_active
handle-AtMostOne stack run ctx h = h
handle-AtMostOne stack step_into ctx h = (refl, refl, refl)
handle-AtMostOne stack step_out ctx h = set_finish-AtMostOne stack.tail _ (refl, refl, refl)
handle-AtMostOne stack step_over ctx h = set_next-AtMostOne stack stack.tail _ (refl, refl, refl)
handle-AtMostOne stack stop ctx h = h
handle-AtMostOne stack detach ctx h = h

-- what a stop leaves, with the client's answer
pub remote_breakpoint-AtMostOne :
    (stack : Stack) (commands : List Command) (ctx : Context)
    → AtMostOne ctx
    → AtMostOne (remote_breakpoint stack commands ctx).0
unfolding remote_breakpoint cmdloop parse_option mark_not_active
remote_breakpoint-AtMostOne stack [] ctx h = h
remote_breakpoint-AtMostOne stack (command ∷ commands) ctx h = handle-AtMostOne stack command _ h

stop_at-AtMostOne :
    (stack : Stack) (commands : List Command) (ctx : Context) (told : Stop)
    → AtMostOne ctx
    → AtMostOne (stop_at stack commands ctx told).context
unfolding stop_at
stop_at-AtMostOne stack commands ctx told h = remote_breakpoint-AtMostOne stack commands ctx h

-- of both branches, the one that is taken
pub if-holds {ℓ κ} :
    {A : Type ℓ} (P : A → Type κ) (b : Bool) (x y : A) → P x → P y → P (if b then x else y)
if-holds Keeps true x y p q = p
if-holds Keeps false x y p q = q

pub and_false : (a : Bool) → (a && false) ≡ false
and_false true = refl
and_false false = refl

lines_hit-AtMostOne :
    (stack : Stack) (told : Stop) (commands : List Command) (ctx : Context)
    (hit : Option Breakpoint)
    → AtMostOne ctx
    → AtMostOne (lines_hit stack told commands ctx hit).context
unfolding lines_hit ignored
lines_hit-AtMostOne stack told commands ctx none h = h
lines_hit-AtMostOne stack told commands ctx (some brk) h = stop_at-AtMostOne stack commands ctx _ h

check_lines-AtMostOne :
    (engine : Engine) (s : Statement) (fse : Frame) (told : Stop) (commands : List Command)
    (ctx : Context)
    → AtMostOne ctx
    → AtMostOne (check_lines engine s fse told commands ctx).context
unfolding check_lines ignored
check_lines-AtMostOne engine s fse told commands ctx h =
    if-holds Keeps (not fse.has_line_breakpoints) _ _ h
      (lines_hit-AtMostOne s.stack told commands _ _ h)

check_stops-AtMostOne :
    (engine : Engine) (s : Statement) (fse : Frame) (path : Bytes) (lineno : ℕ)
    (commands : List Command) (ctx : Context)
    → AtMostOne ctx
    → AtMostOne (check_stops engine s fse path lineno commands ctx).context
unfolding check_stops
check_stops-AtMostOne engine s fse path lineno commands ctx (sn, sf, nf) =
    if-holds Keeps ctx.do_break _ _ (stop_at-AtMostOne s.stack commands _ _ (sn, sf, nf)) (
      if-holds Keeps (ctx.do_finish && _) _ _
        (stop_at-AtMostOne s.stack commands _ _ (sn, and_false ctx.do_step, and_false ctx.do_next))
        (if-holds Keeps (ctx.do_next && _) _ _
          (stop_at-AtMostOne s.stack commands _ _ (and_false ctx.do_step, sf, refl))
          (if-holds Keeps ctx.do_step _ _ (stop_at-AtMostOne s.stack commands _ _ (refl, refl, nf))
            (check_lines-AtMostOne engine s fse _ commands ctx (sn, sf, nf)))))

at_location-AtMostOne :
    (engine : Engine) (s : Statement) (fse : Frame) (l : Location) (commands : List Command)
    (ctx : Context)
    → AtMostOne ctx
    → AtMostOne (at_location engine s fse l commands ctx).context
unfolding at_location ignored
at_location-AtMostOne engine s fse skip commands ctx h = h
at_location-AtMostOne engine s fse lost commands ctx h = h
at_location-AtMostOne engine s fse (at path lineno) commands ctx h =
    if-holds Keeps (is_implicit_return s fse) _ _ h
      (check_stops-AtMostOne engine s fse path lineno commands _ h)

with_frame-AtMostOne :
    (engine : Engine) (maps : Option PathMaps) (s : Statement) (commands : List Command)
    (ctx : Context) (tail : Option Frame)
    → AtMostOne ctx
    → AtMostOne (with_frame engine maps s commands ctx tail).context
unfolding with_frame ignored
with_frame-AtMostOne engine maps s commands ctx none h = h
with_frame-AtMostOne engine maps s commands ctx (some fse) h =
    at_location-AtMostOne engine s fse _ commands ctx h

pub statement_call-AtMostOne :
    (engine : Engine) (maps : Option PathMaps) (s : Statement) (commands : List Command)
    (ctx : Context)
    → AtMostOne ctx
    → AtMostOne (statement_call engine maps s commands ctx).context
unfolding statement_call ignored
statement_call-AtMostOne engine maps s commands ctx h =
    if-holds Keeps (not ctx.remote_connection) _ _ h
      (with_frame-AtMostOne engine maps s commands ctx s.stack.tail h)
