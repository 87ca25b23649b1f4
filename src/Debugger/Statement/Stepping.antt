-- ===== src/Debugger/Statement/Stepping.antt =====
-- Where step_over and step_out stop, over every sequence of statements, calls and returns.
use xdebug.Prelude.{
  if_true, if_false, ℕ, ◌≡◌, ◌⊎◌, inl, inr, refl, sym, ap, ◌∙◌, true, false, not, ◌&&◌, Option,
  none, some, Bytes, List, [], ◌∷◌, ◌++◌, All, Bool-cases,
}
use mathlib.Core.Path.{subst}
use xdebug.Maps.Lookup.{PathMaps}
use xdebug.Debugger.Location.{Engine, Location, at, skip, lost, map_remote_to_local}
use xdebug.Debugger.Context.{Context, Frame, Command, Stop}
use xdebug.Debugger.Statement.{
  Statement, Outcome, next_condition_met, finish_condition_met, is_implicit_return, check_lines,
  check_stops, at_location, with_frame, statement_call, ignored,
}
use xdebug.Debugger.Program.{
  Event, at_statement, at_function, first_stop, event_call, or_later, run_to_stop,
}
use xdebug.Debugger.Program.Quiet.{PassesFunction, handle_breakpoints-IsUntouched}

-- A statement at which neither step_out nor step_over nor step_into ends, in a function without
-- line breakpoints.
pub record Passes (ctx : Context) (s : Statement) : Type 0 where
  pub frame : Frame
  pub tail : s.stack.tail ≡ some frame
  pub no_lines : frame.has_line_breakpoints ≡ false
  pub no_break : ctx.do_break ≡ false
  pub no_finish : (ctx.do_finish && finish_condition_met ctx frame false) ≡ false
  pub no_next : (ctx.do_next && next_condition_met ctx s.stack frame) ≡ false
  pub no_step : ctx.do_step ≡ false

-- the context behind it: as it was, but for one flag
record IsQuiet (ctx : Context) (o : Outcome) : Type 0 where
  no_stop : o.stop ≡ none
  same : (o.context ≡ ctx) ⊎ (o.context ≡ record ctx { suppress_return_value_step = false })

ignored-IsQuiet : (ctx : Context) (commands : List Command) → IsQuiet ctx (ignored commands ctx)
unfolding ignored
ignored-IsQuiet ctx commands = record { no_stop = refl; same = inl refl }

check_stops-quiet :
    (engine : Engine) (s : Statement) (path : Bytes) (lineno : ℕ) (commands : List Command)
    (ctx : Context) (p : Passes ctx s)
    → check_stops engine s p.frame path lineno commands ctx ≡ ignored commands ctx
unfolding check_stops check_lines ignored
check_stops-quiet engine s path lineno commands ctx p =
    if_false ctx.do_break _ _ p.no_break
    ∙ if_false (ctx.do_finish && finish_condition_met ctx p.frame false) _ _ p.no_finish
    ∙ if_false (ctx.do_next && next_condition_met ctx s.stack p.frame) _ _ p.no_next
    ∙ if_false ctx.do_step _ _ p.no_step
    ∙ if_true (not p.frame.has_line_breakpoints) _ _ (rw p.no_lines)

-- `suppress_return_value_step` is not looked at by any of the conditions.
unsuppressed :
    (ctx : Context) (s : Statement)
    → Passes ctx s
    → Passes (record ctx { suppress_return_value_step = false }) s
unfolding next_condition_met finish_condition_met
unsuppressed ctx s p = record {
  frame = p.frame;
  tail = p.tail;
  no_lines = p.no_lines;
  no_break = p.no_break;
  no_finish = p.no_finish;
  no_next = p.no_next;
  no_step = p.no_step;
}

unsuppressed_ignored :
    (ctx : Context) (commands : List Command)
    → IsQuiet ctx (ignored commands (record ctx { suppress_return_value_step = false }))
unfolding ignored
unsuppressed_ignored ctx commands = record { no_stop = refl; same = inr refl }

at_location-IsQuiet :
    (engine : Engine) (s : Statement) (l : Location) (commands : List Command) (ctx : Context)
    (p : Passes ctx s)
    → IsQuiet ctx (at_location engine s p.frame l commands ctx)
unfolding at_location unsuppressed
at_location-IsQuiet engine s skip commands ctx p = ignored-IsQuiet ctx commands
at_location-IsQuiet engine s lost commands ctx p = ignored-IsQuiet ctx commands
at_location-IsQuiet engine s (at path lineno) commands ctx p =
    elim (Bool-cases (is_implicit_return s p.frame)) [
      | inl e ↦ subst (IsQuiet ctx) (sym (if_true _ _ _ e)) (ignored-IsQuiet ctx commands)
      | inr e ↦
          subst (IsQuiet ctx)
            (sym (
              if_false _ _ _ e
              ∙ check_stops-quiet engine s path lineno commands _ (unsuppressed ctx s p)))
            (unsuppressed_ignored ctx commands)
    ]

statement_call-IsQuiet :
    (engine : Engine) (maps : Option PathMaps) (s : Statement) (commands : List Command)
    (ctx : Context)
    → ctx.remote_connection ≡ true
    → Passes ctx s
    → IsQuiet ctx (statement_call engine maps s commands ctx)
unfolding statement_call with_frame
statement_call-IsQuiet engine maps s commands ctx connected p =
    subst (IsQuiet ctx)
      (sym (
        if_false (not ctx.remote_connection) _ _ (ap not connected)
        ∙ ap (with_frame engine maps s commands ctx) p.tail))
      (at_location-IsQuiet engine s (map_remote_to_local maps s.filename s.lineno) commands ctx p)

-- An event at which nothing stops.
abbrev pub PassesEvent : Context → Event → Type 0
PassesEvent ctx (at_statement s) = Passes ctx s
PassesEvent ctx (at_function c fse type) = PassesFunction ctx c fse type

event_call-IsQuiet :
    (engine : Engine) (maps : Option PathMaps) (e : Event) (commands : List Command) (ctx : Context)
    → ctx.remote_connection ≡ true
    → PassesEvent ctx e
    → IsQuiet ctx (event_call engine maps e commands ctx)
unfolding event_call
event_call-IsQuiet engine maps (at_statement s) commands ctx connected p =
    statement_call-IsQuiet engine maps s commands ctx connected p
event_call-IsQuiet engine maps (at_function c fse type) commands ctx connected p =
    let quiet = handle_breakpoints-IsUntouched maps c fse type commands ctx p in
    record { no_stop = ap first_stop quiet.stops; same = inl quiet.context }

-- A context that waits for an event: what holds of it while other events pass, and where the wait
-- ends.
module _ (engine : Engine) (maps : Option PathMaps) (W : Context → Type 0)
    (Inner Back : Event → Type 0) (stop : Stop)
    (connected : (ctx : Context) → W ctx → ctx.remote_connection ≡ true)
    (unsuppress : (ctx : Context) → W ctx → W (record ctx { suppress_return_value_step = false }))
    (inner : (ctx : Context) (e : Event) → W ctx → Inner e → PassesEvent ctx e)
    (back : (ctx : Context) (e : Event) (commands : List Command)
      → W ctx
      → Back e
      → (event_call engine maps e commands ctx).stop ≡ some stop) where
  still : (ctx : Context) (o : Outcome) → W ctx → IsQuiet ctx o → W o.context
  still ctx o w quiet = elim quiet.same [
    | inl e ↦ subst W (sym e) w
    | inr e ↦ subst W (sym e) (unsuppress ctx w)
  ]

  pub waits :
      (passed : List Event) (s : Event) (rest : List Event) (commands : List Command)
      (ctx : Context)
      → W ctx
      → All Inner passed
      → Back s
      → (run_to_stop engine maps (passed ++ s ∷ rest) commands ctx).stop ≡ some stop
  unfolding run_to_stop
  waits [] s rest commands ctx w h b =
      let now = event_call engine maps s commands ctx in
      let stops : now.stop ≡ some stop = back ctx s commands w b in
      ap (λ o. (or_later now (run_to_stop engine maps rest now.commands now.context) o).stop) stops
      ∙ stops
  waits (p ∷ passed) s rest commands ctx w (h, hs) b =
      let now = event_call engine maps p commands ctx in
      let quiet : IsQuiet ctx now =
        event_call-IsQuiet engine maps p commands ctx (connected ctx w) (inner ctx p w h) in
      ap
        (λ o.
          (or_later now (run_to_stop engine maps (passed ++ s ∷ rest) now.commands now.context)
            o).stop)
        quiet.no_stop
      ∙ waits passed s rest now.commands now.context (still ctx now w quiet) hs b
