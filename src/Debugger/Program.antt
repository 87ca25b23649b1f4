-- ===== src/Debugger/Program.antt =====
-- The hooks of src/debugger/debugger.c in the order in which a program meets them: one before each
-- statement, one at each call and at each return.
pub mod Quiet
use xdebug.Prelude.{Option, none, some, List, [], ◌∷◌}
use xdebug.Maps.Lookup.{PathMaps}
use xdebug.Debugger.Types.{BreakpointType}
use xdebug.Debugger.Location.{Engine}
use xdebug.Debugger.Context.{Context, Frame, Command, Stop}
use xdebug.Debugger.Statement.{Statement, Outcome, statement_call, ignored}
use xdebug.Debugger.Functions.{Call, Handled}
use xdebug.Debugger.Functions.Returns.{handle_breakpoints}

-- a statement, or a call of or a return from the function of a frame
pub data Event : Type 0 where
  at_statement : Statement → Event
  at_function : Call → Frame → BreakpointType → Event

-- the first of the stops that a hook reported
abbrev pub first_stop : List Stop → Option Stop
first_stop [] = none
first_stop (stop ∷ stops) = some stop

abbrev pub outcome_of : Handled → Outcome
outcome_of h = record { context = h.context; commands = h.commands; stop = first_stop h.stops }

-- the hook of an event
unfoldable pub event_call : Engine → Option PathMaps → Event → List Command → Context → Outcome
event_call engine maps (at_statement s) commands ctx = statement_call engine maps s commands ctx
event_call engine maps (at_function c fse type) commands ctx =
    outcome_of (handle_breakpoints maps c fse type commands ctx)

-- the outcome of the first event that stops
abbrev pub or_later : Outcome → Outcome → Option Stop → Outcome
or_later now later none = later
or_later now later (some stop) = now

-- the events of a program, up to the next stop
unfoldable pub run_to_stop :
    Engine → Option PathMaps → List Event → List Command → Context → Outcome
run_to_stop engine maps [] commands ctx = ignored commands ctx
run_to_stop engine maps (e ∷ es) commands ctx =
    let now = event_call engine maps e commands ctx in
    let later = run_to_stop engine maps es now.commands now.context in or_later now later now.stop
