-- ===== src/Debugger/Session.antt =====
-- The state that the commands of src/debugger/handler_dbgp.c read and change, apart from stepping
-- and breakpoints, and the replies to errors.
use xdebug.Prelude.{ℕ, false, Option, none, List, Bytes, codes, get_or}
use xdebug.Prelude.Int.{ℤ}
use xdebug.Prelude.Decimal.{decimal}
use xdebug.CmdParser.{Args, opt_index}
use xdebug.Xml.Build.{Node, node_init, add_attribute, add_child, add_text_ex}
use xdebug.Debugger.Context.{Status, starting, stopping, stopped, running, break, detached}

-- DBGP_REASON_*
pub data Reason : Type 0 where
  ok error aborted exception : Reason

-- struct xdebug_var_export_options, as far as commands set it; `runtime` is a list of pages, each
-- with its number and its current element
pub record ExportOptions : Type 0 where
  pub max_children : ℤ
  pub max_data : ℤ
  pub max_depth : ℤ
  pub show_hidden : ℤ
  pub extended_properties : ℤ
  pub runtime : List (ℕ × ℕ)

-- the debugger's globals, and the features in struct _xdebug_con
pub record Session : Type 0 where
  pub status : Status
  pub reason : Reason
  pub lastcmd : Option Bytes
  pub lasttransid : Option Bytes
  pub options : ExportOptions
  pub send_notifications : ℤ
  pub resolved_breakpoints : ℤ
  pub breakpoint_details : ℤ
  pub breakpoint_include_return_value : ℤ
  pub virtual_exception_value : ℤ

-- xdebug_dbgp_status_strings
unfoldable pub status_string : Status → Bytes
status_string starting = codes "starting"
status_string stopping = codes "stopping"
status_string stopped = codes "stopped"
status_string running = codes "running"
status_string break = codes "break"
status_string detached = codes "detached"

-- xdebug_dbgp_reason_strings
unfoldable pub reason_string : Reason → Bytes
reason_string ok = codes "ok"
reason_string error = codes "error"
reason_string aborted = codes "aborted"
reason_string exception = codes "exception"

-- XDEBUG_ERROR_*
pub data ErrorCode : Type 0 where
  parse_error duplicate_argument invalid_args unimplemented command_unavailable : ErrorCode
  breakpoint_not_set breakpoint_type_not_supported no_such_breakpoint : ErrorCode
  stack_depth_invalid encoding_not_supported : ErrorCode

abbrev pub code : ErrorCode → ℕ
code parse_error = 1
code duplicate_argument = 2
code invalid_args = 3
code unimplemented = 4
code command_unavailable = 5
code breakpoint_not_set = 200
code breakpoint_type_not_supported = 201
code no_such_breakpoint = 205
code stack_depth_invalid = 301
code encoding_not_supported = 900

-- xdebug_error_codes, through error_message_from_code
unfoldable pub error_message_from_code : ErrorCode → Bytes
error_message_from_code parse_error = codes "parse error in command"
error_message_from_code duplicate_argument = codes "duplicate arguments in command"
error_message_from_code invalid_args = codes "invalid or missing options"
error_message_from_code unimplemented = codes "unimplemented command"
error_message_from_code command_unavailable = codes "command is not available"
error_message_from_code breakpoint_not_set = codes "breakpoint could not be set"
error_message_from_code breakpoint_type_not_supported = codes "breakpoint type is not supported"
error_message_from_code no_such_breakpoint = codes "no such breakpoint"
error_message_from_code stack_depth_invalid = codes "stack depth invalid"
error_message_from_code encoding_not_supported = codes "encoding not supported"

-- an `error` node with its code and, as ADD_REASON_MESSAGE and RETURN_RESULT add it, its message
unfoldable pub error_node : ErrorCode → Node
error_node e =
    let message = add_text_ex (node_init (codes "message")) (error_message_from_code e) false in
    add_child (add_attribute (node_init (codes "error")) (codes "code") (decimal (code e))) message

-- RETURN_RESULT(XG_DBG(status), XG_DBG(reason), c)
unfoldable pub return_result : Session → ErrorCode → Node → Node
return_result s e retval =
    add_child
      (add_attribute (add_attribute retval (codes "status") (status_string s.status))
        (codes "reason") (reason_string s.reason))
      (error_node e)

-- CMD_OPTION_CHAR, where CMD_OPTION_SET holds
unfoldable pub option : Args → ℕ → Option Bytes
option args opt = get_or args (opt_index opt) none
