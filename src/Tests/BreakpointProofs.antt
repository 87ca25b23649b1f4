-- ===== src/Tests/BreakpointProofs.antt =====
-- The theorems on the registry of breakpoints at concrete inputs, and runs.
use xdebug.Prelude.{
  ◌≡◌, ◌⊎◌, refl, true, Option, none, some, [], Bytes, codes, equal, if◌then◌else◌, set, arith,
}
use xdebug.CmdParser.{Args, no_args}
use xdebug.Prelude.Decimal.{decimal, digits}
use xdebug.Hash
use xdebug.Xml.Build.{Node, node_init}
use xdebug.Debugger.Types.{call}
use xdebug.Debugger.Registry.{
  Registry, breakpoint_admin_add, breakpoint_admin_fetch, breakpoint_brk_info_fetch, fetch_hash,
}
use xdebug.Debugger.Session.{option}
use xdebug.Debugger.Breakpoints.{
  Host, type_of_name, brk_info_ctor, set_state, set_hits, set_temporary, add_resolved,
}
use xdebug.Debugger.Breakpoints.Set.{
  breakpoint_set, set_typed, set_of_type, set_function, insert_function, new_function_key,
  call_letter, reply_set, reply_state,
}
use xdebug.Debugger.Breakpoints.Describe.{breakpoint_brk_info_add, add_location}
use xdebug.Debugger.Breakpoints.Action.{
  remove, assign_info, assign_hash, change_info, act_on, breakpoint_do_action,
}
use xdebug.Debugger.Breakpoints.Consistent.{IsConsistent, Bounded}
use xdebug.Debugger.Breakpoints.Handlers.{IsError, IsPlaced, breakpoint_set-Adds}
use xdebug.Debugger.Breakpoints.Given.{HasGivenIds}
use xdebug.Debugger.Breakpoints.Reached.{initial, after_set, Reached-IsConsistent, do_action-fetch}
use xdebug.Tests.ReplyProofs.{a_session}

abbrev pub a_host : Host
a_host = record {
  pid = 1;
  realpath = λ path. none;
  maps = none;
  breakable_lines = λ filename. none;
  absolute = λ path. none;
  sort = λ elements. elements;
}

abbrev pub a_registry : Registry
a_registry = record {
  breakpoint_count = 0;
  breakpoint_list = Hash.alloc 4 true;
  line_breakpoints = [];
  function_breakpoints = Hash.alloc 4 true;
  exception_breakpoints = Hash.alloc 4 true;
  store = [];
}

-- `-t call -m f`
abbrev call_args : Args
call_args = set (set no_args 19 (some (codes "call"))) 12 (some (codes "f"))

abbrev a_reply : Node
a_reply = node_init (codes "response")

a_registry-IsConsistent : IsConsistent 1 a_registry
a_registry-IsConsistent =
    (Reached-IsConsistent (initial {r = a_registry} 4 (omega arith) refl refl refl)).0

a_registry-Bounded : Bounded 1 a_registry
a_registry-Bounded = omega arith

breakpoint_set-Adds_example :
    IsError a_host a_registry a_session
      (breakpoint_set a_host call_args a_session a_registry [] a_reply)
    ⊎ IsPlaced a_host a_registry call_args a_session a_reply
        (breakpoint_set a_host call_args a_session a_registry [] a_reply)
breakpoint_set-Adds_example =
    breakpoint_set-Adds a_host a_registry a_registry-IsConsistent a_registry-Bounded call_args
      a_session [] a_reply

-- the registry with a breakpoint on `f`
abbrev with_call : Registry
with_call = (breakpoint_set a_host call_args a_session a_registry [] a_reply).registry

Reached-IsConsistent_example : IsConsistent 1 with_call × HasGivenIds 1 with_call
Reached-IsConsistent_example = Reached-IsConsistent (
    after_set (initial {r = a_registry} 4 (omega arith) refl refl refl) (omega arith) a_host
      call_args a_session [] a_reply)

set_program : Unit {0}
unfolding breakpoint_set set_typed set_of_type set_function insert_function new_function_key
    call_letter reply_set reply_state set_state set_hits set_temporary brk_info_ctor type_of_name
    option equal breakpoint_admin_add breakpoint_admin_fetch Hash.hash_program decimal digits
set_program = tt

run_set :
    breakpoint_admin_fetch with_call (codes "10001")
    ≡ some (record { id = 10001; type = call; key = codes "C/f" })
unfolding set_program
run_set = refl

-- `-d 10001`
abbrev remove_args : Args
remove_args = set no_args 3 (some (codes "10001"))

abbrev removal : Option (Registry × Node)
removal = breakpoint_do_action a_host remove remove_args a_session with_call a_reply

abbrev outcome : Option (Registry × Node) → Registry × Node
outcome none = (a_registry, a_reply)
outcome (some done) = done

run_removal : removal ≡ some (outcome removal)
unfolding set_program breakpoint_do_action act_on change_info assign_info assign_hash fetch_hash
    breakpoint_brk_info_fetch breakpoint_brk_info_add add_location add_resolved
run_removal = refl

do_action-fetch_example :
    IsConsistent 1 (outcome removal).0
    × ((k : Bytes)
        → breakpoint_admin_fetch (outcome removal).0 k
          ≡ (if equal k (codes "10001") then none else breakpoint_admin_fetch with_call k))
do_action-fetch_example =
    do_action-fetch a_host remove_args a_session a_reply (codes "10001") remove with_call
      (outcome removal).0 (outcome removal).1
      ((Reached-IsConsistent (
        after_set (initial {r = a_registry} 4 (omega arith) refl refl refl) (omega arith) a_host
          call_args a_session [] a_reply)).0)
      (unfold option in refl) run_removal
