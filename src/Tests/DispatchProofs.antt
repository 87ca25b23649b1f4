-- ===== src/Tests/DispatchProofs.antt =====
-- The theorems on the dispatcher at concrete inputs, and a run.
use xdebug.Prelude.{Option, ◌≡◌, refl, true, none, some, List, [], ◌∷◌, Bytes, codes, set}
use xdebug.Prelude.Int.{pos}
use xdebug.CmdParser.{Args, no_args, ok, cmd_parse, cmd_program}
use xdebug.Xml.Build.{Node, node_init, add_child, xml_program}
use xdebug.Debugger.Session.{Session, option}
use xdebug.Debugger.Context.{stopping}
use xdebug.Debugger.Dispatch.{
  Handlers, parse_option, cmdloop, add_command, add_transaction, dispatch_program,
}
use xdebug.Debugger.Dispatch.Answers.{tags, Answers}
use xdebug.Debugger.Dispatch.Known.{World, known}
use xdebug.Debugger.Dispatch.Offered.{Settled, parse_option-is_offered}
use xdebug.Tests.ReplyProofs.{a_session}
use xdebug.Tests.BreakpointProofs.{a_host, a_registry}
use xdebug.Tests.SteppingProofs.{start, callee, stack_of}

-- other handlers than the known ones, which add a child to the reply
abbrev others : Handlers World
others = record {
  handler = λ name args s w n. (s, w, add_child n (node_init name));
  mark_not_active = λ w. w;
  is_active = λ w. true;
}

abbrev some_handlers : Handlers World
some_handlers = known a_host (codes "3.5") others

abbrev a_world : World
a_world = record {
  registry = a_registry;
  frames = callee ∷ [];
  stack = stack_of callee;
  context = start;
}

-- a command, one without a transaction id, one that lets the program go on, and one behind it
abbrev packets : List Bytes
packets =
    codes "breakpoint_set -i 1 -t call -m f"
    ∷ codes "status"
    ∷ codes "step_into -i 2"
    ∷ codes "stack_get -i 3"
    ∷ []

abbrev short_packets : List Bytes
short_packets =
    codes "source -i 1" ∷ codes "status" ∷ codes "run -i 2" ∷ codes "stack_get -i 3" ∷ []

run_ret : (cmdloop others short_packets a_session a_world).ret ≡ pos 1
unfolding dispatch_program cmd_program
run_ret = refl

abbrev all_tags : List Node → List (Option Bytes × Option Bytes)
all_tags [] = []
all_tags (n ∷ nodes) = tags n ∷ all_tags nodes

run_sent :
    all_tags (cmdloop others short_packets a_session a_world).sent
    ≡ (some (codes "source"), some (codes "1")) ∷ (some (codes "status"), none) ∷ []
unfolding dispatch_program cmd_program xml_program
run_sent = refl

abbrev stopping_session : Session
stopping_session = record a_session { status = stopping }

-- `-i 2`
abbrev run_args : Args
run_args = set no_args 8 (some (codes "2"))

abbrev empty_reply : Node
empty_reply = node_init (codes "response")

run_parsed : cmd_parse (codes "run -i 2") ≡ (some (codes "run"), ok run_args)
unfolding cmd_program
run_parsed = refl

parse_option-is_offered_example :
    Settled some_handlers
      (codes "run")
      (codes "2")
      run_args
      stopping_session
      a_world
      (add_transaction (some (codes "2")) (add_command (some (codes "run")) empty_reply))
      (parse_option some_handlers (codes "run -i 2") stopping_session a_world empty_reply)
parse_option-is_offered_example =
    parse_option-is_offered some_handlers (codes "run -i 2") (codes "run") (codes "2") run_args
      stopping_session a_world empty_reply run_parsed (unfold option in refl)
