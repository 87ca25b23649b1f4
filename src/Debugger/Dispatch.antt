-- ===== src/Debugger/Dispatch.antt =====
-- xdebug_dbgp_parse_option and xdebug_dbgp_cmdloop of src/debugger/handler_dbgp.c, for every command.
pub mod Answers
pub mod Offered
pub mod Known
use xdebug.Prelude.{
  ℕ, Bool, true, false, ◌&&◌, ◌||◌, not, Option, none, some, List, [], ◌∷◌, ◌++◌, Bytes, codes,
  equal, if◌then◌else◌, ◌==◌,
}
use xdebug.Prelude.Int.{ℤ, pos, negsuc, eqb_ℤ}
use xdebug.CmdParser as Parser
use xdebug.CmdParser.{Args, Step, duplicate_opts, cmd_parse}
use xdebug.Xml.Build.{Node, node_init, add_attribute, add_child}
use xdebug.Debugger.Context.{Status, starting, stopping, running}
use xdebug.Debugger.Session.{
  Session, ok, ErrorCode, parse_error, duplicate_argument, invalid_args, unimplemented,
  command_unavailable, error_node, option,
}

-- xdebug_dbgp_cmd; a command's handler goes by its name
pub record Cmd : Type 0 where
  pub name : Bytes
  pub cont : ℕ
  pub post_mortem : Bool

-- DBGP_FUNC_ENTRY with XDEBUG_DBGP_NONE and with XDEBUG_DBGP_POST_MORTEM, DBGP_CONT_FUNC_ENTRY and
-- DBGP_STOP_FUNC_ENTRY, as they are used
abbrev pub func_entry : Bytes → Cmd
func_entry name = record { name = name; cont = 0; post_mortem = false }

abbrev pub post_mortem_entry : Bytes → Cmd
post_mortem_entry name = record { name = name; cont = 0; post_mortem = true }

abbrev pub cont_entry : Bytes → Cmd
cont_entry name = record { name = name; cont = 1; post_mortem = false }

abbrev pub stop_entry : Bytes → Cmd
stop_entry name = record { name = name; cont = 2; post_mortem = true }

unfoldable pub dbgp_commands : List Cmd
dbgp_commands =
    func_entry (codes "breakpoint_get")
    ∷ post_mortem_entry (codes "breakpoint_list")
    ∷ func_entry (codes "breakpoint_remove")
    ∷ func_entry (codes "breakpoint_set")
    ∷ func_entry (codes "breakpoint_update")
    ∷ func_entry (codes "context_get")
    ∷ post_mortem_entry (codes "context_names")
    ∷ func_entry (codes "eval")
    ∷ post_mortem_entry (codes "feature_get")
    ∷ func_entry (codes "feature_set")
    ∷ post_mortem_entry (codes "typemap_get")
    ∷ func_entry (codes "property_get")
    ∷ func_entry (codes "property_set")
    ∷ func_entry (codes "property_value")
    ∷ func_entry (codes "source")
    ∷ func_entry (codes "stack_depth")
    ∷ func_entry (codes "stack_get")
    ∷ post_mortem_entry (codes "status")
    ∷ func_entry (codes "stderr")
    ∷ func_entry (codes "stdout")
    ∷ cont_entry (codes "run")
    ∷ cont_entry (codes "step_into")
    ∷ cont_entry (codes "step_out")
    ∷ cont_entry (codes "step_over")
    ∷ stop_entry (codes "stop")
    ∷ stop_entry (codes "detach")
    ∷ post_mortem_entry (codes "xcmd_profiler_name_get")
    ∷ func_entry (codes "xcmd_get_executable_lines")
    ∷ []

-- lookup_cmd
unfoldable pub lookup_cmd : List Cmd → Bytes → Option Cmd
lookup_cmd [] cmd = none
lookup_cmd (c ∷ commands) cmd = if equal c.name cmd then some c else lookup_cmd commands cmd

-- What the table of commands points to: the handlers, on the rest `W` of the debugger's state, and
-- xdebug_mark_debug_connection_not_active with xdebug_is_debug_connection_active.
pub record Handlers (W : Type 0) : Type 0 where
  pub handler : Bytes → Args → Session → W → Node → Session × W × Node
  pub mark_not_active : W → W
  pub is_active : W → Bool

-- `args` as xdebug_cmd_parse leaves it
unfoldable pub args_of : Step Args → Args
args_of (Parser.ok args) = args
args_of (Parser.parse_error args) = args
args_of (duplicate_opts args) = args

-- `res`, where it is not XDEBUG_ERROR_OK
unfoldable pub error_of : Step Args → Option ErrorCode
error_of (Parser.ok args) = none
error_of (Parser.parse_error args) = some parse_error
error_of (duplicate_opts args) = some duplicate_argument

-- the attribute `command`
unfoldable pub add_command : Option Bytes → Node → Node
add_command (some cmd) retval = add_attribute retval (codes "command") cmd
add_command none retval = retval

-- the attribute `transaction_id`
unfoldable pub add_transaction : Option Bytes → Node → Node
add_transaction (some i) retval = add_attribute retval (codes "transaction_id") i
add_transaction none retval = retval

-- `res` behind the look for a transaction id
unfoldable pub with_transaction : Option Bytes → Option ErrorCode → Option ErrorCode
with_transaction (some i) res = res
with_transaction none res = some invalid_args

pub record Answer (W : Type 0) : Type 0 where
  pub session : Session
  pub world : W
  pub retval : Node
  pub ret : ℤ

unfoldable pub is_stopping : Status → Bool
is_stopping stopping = true
is_stopping _ = false

-- what is noted of a command before it is handled
unfoldable pub note_command : Cmd → Option Bytes → Session → Session
note_command command i s =
    let noted = record s { lastcmd = some command.name; lasttransid = i } in
    if command.cont == 0 then noted else record noted { status = running; reason = ok }

-- a reply with an error
abbrev pub refuse : {W : Type 0} → Session → W → Node → ErrorCode → ℤ → Answer W
refuse s w retval e ret = record {
  session = s;
  world = w;
  retval = add_child retval (error_node e);
  ret = ret;
}

-- the end of `if (command)`
unfoldable pub execute : {W : Type 0} → Handlers W → Cmd → Args → Session → W → Node → Answer W
execute h command args s w retval =
    if not (is_stopping s.status) || (is_stopping s.status && command.post_mortem)
    then (let (s', w', retval') = h.handler command.name args s w retval in
        record { session = s'; world = w'; retval = retval'; ret = pos command.cont })
    else refuse s w retval command_unavailable (negsuc 0)

-- `if (command)`
unfoldable pub run_command :
    {W : Type 0} → Handlers W → Option Cmd → Args → Session → W → Node → Answer W
run_command h (some command) args s w retval =
    execute h command args (note_command command (option args b'i') s) w retval
run_command h none args s w retval = refuse s w retval unimplemented (negsuc 0)

-- the search for the command, which is there when the line could be parsed
unfoldable pub find_command : Option Bytes → Option Cmd
find_command (some cmd) = lookup_cmd dbgp_commands cmd
find_command none = none

-- `if (res != XDEBUG_ERROR_OK)`
unfoldable pub answer :
    {W : Type 0}
    → Handlers W
    → Option ErrorCode
    → Option Bytes
    → Args
    → Session
    → W
    → Node
    → Answer W
answer h (some e) cmd args s w retval = refuse s w retval e (pos 0)
answer h none cmd args s w retval = run_command h (find_command cmd) args s w retval

-- xdebug_dbgp_parse_option
unfoldable pub parse_option : {W : Type 0} → Handlers W → Bytes → Session → W → Node → Answer W
parse_option h line s w retval =
    let (cmd, parsed) = cmd_parse line in
    let args = args_of parsed in
    let i = option args b'i' in
    answer h (with_transaction i (error_of parsed)) cmd args s w
      (add_transaction i (add_command cmd retval))

-- the node that a reply begins with
unfoldable pub response : Node
response =
    add_attribute
      (add_attribute (node_init (codes "response")) (codes "xmlns")
        (codes "urn:debugger_protocol_v1"))
      (codes "xmlns:xdebug") (codes "https://xdebug.org/dbgp/xdebug")

-- What a command loop leaves behind: the replies it sent, the state, the packets it did not read.
pub record Loop (W : Type 0) : Type 0 where
  pub sent : List Node
  pub session : Session
  pub world : W
  pub packets : List Bytes
  pub ret : ℤ

unfoldable pub is_starting : Status → Bool
is_starting starting = true
is_starting _ = false

-- the early return of send_message_ex, which sends nothing without a connection
unfoldable pub can_send : {W : Type 0} → Handlers W → Answer W → Bool
can_send h a = is_starting a.session.status || h.is_active a.world

-- the reply to a command, unless the command makes the program go on
unfoldable pub reply_sent : {W : Type 0} → Handlers W → Answer W → List Node
reply_sent h a = if eqb_ℤ a.ret (pos 1) then [] else if can_send h a then a.retval ∷ [] else []

-- xdebug_dbgp_cmdloop, on the packets that the client sends before it closes the connection. Behind
-- `stop` PHP is told to bail out: the program ends.
unfoldable pub cmdloop : {W : Type 0} → Handlers W → List Bytes → Session → W → Loop W
cmdloop h [] s w = record {
  sent = [];
  session = s;
  world = h.mark_not_active w;
  packets = [];
  ret = pos 0;
}
cmdloop h (line ∷ lines) s w =
    let a = parse_option h line s w response in
    let rest = cmdloop h lines a.session a.world in
    if eqb_ℤ a.ret (pos 0) then record rest { sent = reply_sent h a ++ rest.sent } else record {
      sent = reply_sent h a;
      session = a.session;
      world = a.world;
      packets = lines;
      ret = a.ret;
    }

-- What a run of the command loop computes with.
unfoldable pub dispatch_program : Unit {0}
unfolding dbgp_commands lookup_cmd args_of error_of add_command add_transaction with_transaction
    is_stopping note_command execute run_command find_command answer parse_option response
    is_starting can_send reply_sent cmdloop option equal
dispatch_program = tt
