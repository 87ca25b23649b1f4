-- ===== src/Debugger/Breakpoints/Action.antt =====
-- breakpoint_get, breakpoint_update and breakpoint_remove of src/debugger/handler_dbgp.c. `none` is a
-- read through NULL.
use xdebug.Prelude.{ℕ, Option, none, some, List, [], ◌∷◌, Bytes, codes, set, if◌then◌else◌}
use xdebug.Prelude.Int.{negsuc}
use xdebug.Arg.{explode}
use xdebug.CmdParser.{Args}
use xdebug.Hash
use xdebug.Hash.{Hash, Element, str}
use xdebug.Xml.Build.{Node, node_init, add_child}
use xdebug.Debugger.Types.{
  Breakpoint, BreakpointType, line, conditional, call, return, exception, watch,
}
use xdebug.Debugger.Registry.{
  Registry, BreakpointAdmin, breakpoint_admin_fetch, breakpoint_admin_remove, matches_key,
  breakpoint_brk_info_fetch, breakpoint_remove,
}
use xdebug.Debugger.Session.{
  Session, ErrorCode, invalid_args, no_such_breakpoint, return_result, option,
}
use xdebug.Debugger.Breakpoints.{
  Host, brk_info_ctor, Checked, accepted, refused, change_state, change_operator, set_state, number,
}
use xdebug.Debugger.Breakpoints.Describe.{breakpoint_brk_info_add}

-- The object that breakpoint_brk_info_fetch points to is changed: the first line breakpoint that
-- matches, or the last one.
unfoldable pub assign_line : List Bytes → List Breakpoint → Breakpoint → List Breakpoint
assign_line parts [] brk' = []
assign_line parts (brk ∷ []) brk' = brk' ∷ []
assign_line parts (brk ∷ next ∷ brks) brk' =
    let rest = assign_line parts (next ∷ brks) brk' in
    if matches_key parts brk then brk' ∷ next ∷ brks else brk ∷ rest

unfoldable pub assign_hash : Registry → Hash ℕ → Bytes → Breakpoint → Registry
assign_hash r hash hkey brk' = elim (Hash.find hash (str hkey)) [
  | none ↦ r
  | some i ↦ record r { store = set r.store i brk' }
]

unfoldable pub assign_info : Registry → BreakpointType → Bytes → Breakpoint → Registry
assign_info r line hkey brk' = record r {
  line_breakpoints = assign_line (explode (codes "$") hkey (negsuc 0)) r.line_breakpoints brk';
}
assign_info r conditional hkey brk' = record r {
  line_breakpoints = assign_line (explode (codes "$") hkey (negsuc 0)) r.line_breakpoints brk';
}
assign_info r call hkey brk' = assign_hash r r.function_breakpoints hkey brk'
assign_info r return hkey brk' = assign_hash r r.function_breakpoints hkey brk'
assign_info r exception hkey brk' = assign_hash r r.exception_breakpoints hkey brk'
assign_info r watch hkey brk' = r

-- BREAKPOINT_ACTION_*
pub data Action : Type 0 where
  get remove update : Action

-- `-n` and `-h` of an update
unfoldable pub update_lineno : Args → Breakpoint → Breakpoint
update_lineno args brk = elim (option args b'n') [
  | none ↦ brk
  | some n ↦ record brk { original_lineno = number n; resolved_lineno = number n }
]

unfoldable pub update_hit_value : Args → Breakpoint → Breakpoint
update_hit_value args brk = elim (option args b'h') [
  | none ↦ brk
  | some h ↦ record brk { hit_value = number h }
]

-- `-o` of an update, which needs no `-h`
unfoldable pub update_operator : Args → Breakpoint → Checked Breakpoint
update_operator args brk = elim (option args b'o') [
  | none ↦ accepted brk
  | some o ↦ change_operator o brk
]

-- BREAKPOINT_ACTION_UPDATE: the object as it is left, and the error if there is one; what was changed
-- before an error stays
unfoldable pub update_info : Args → Breakpoint → Breakpoint × Option ErrorCode
update_info args brk = elim (set_state args brk) [
  | refused e ↦ (brk, some e)
  | accepted stated ↦
      let numbered = update_hit_value args (update_lineno args stated) in
      elim (update_operator args numbered) [
        | refused e ↦ (numbered, some e)
        | accepted operated ↦ (operated, none)
      ]
]

-- the change before the reply
unfoldable pub change_info : Action → Args → Breakpoint → Breakpoint × Option ErrorCode
change_info get args brk = (brk, none)
change_info remove args brk = (brk, none)
change_info update args brk = update_info args brk

-- what is done behind the reply
unfoldable pub finish_action : Action → Registry → BreakpointAdmin → Bytes → Registry
finish_action remove r admin d =
    (breakpoint_admin_remove (breakpoint_remove r admin.type admin.key).0 d).0
finish_action get r admin d = r
finish_action update r admin d = r

-- with the object that was found
unfoldable pub act_on :
    Host
    → Action
    → Args
    → Session
    → Registry
    → Node
    → Bytes
    → BreakpointAdmin
    → Breakpoint
    → Option (Registry × Node)
act_on host action args s r retval d admin brk =
    let (brk', failed) = change_info action args brk in
    let r' = assign_info r admin.type admin.key brk' in
    elim failed [
      | some e ↦ some (r', return_result s e retval)
      | none ↦ elim (breakpoint_brk_info_add host s brk' (node_init (codes "breakpoint"))) [
        | none ↦ none
        | some xml ↦ some (finish_action action r' admin d, add_child retval xml)
      ]
    ]

-- the error of an update before the object is read: that of `-s`, or of `-o` alone
unfoldable pub of_checked : Checked Breakpoint → Option ErrorCode
of_checked (accepted _) = none
of_checked (refused e) = some e

unfoldable pub null_operator : Option Bytes → Option Bytes → Option Bytes → Option ErrorCode
null_operator none none (some o) = of_checked (change_operator o (brk_info_ctor line))
null_operator _ _ _ = none

unfoldable pub null_error : Args → Option ErrorCode
null_error args = elim (option args b's') [
  | some v ↦ of_checked (change_state v (brk_info_ctor line))
  | none ↦ null_operator (option args b'n') (option args b'h') (option args b'o')
]

-- without an object
unfoldable pub act_on_null : Action → Args → Session → Registry → Node → Option (Registry × Node)
act_on_null get args s r retval = none
act_on_null remove args s r retval = none
act_on_null update args s r retval = elim (null_error args) [
  | none ↦ none
  | some e ↦ some (r, return_result s e retval)
]

-- breakpoint_do_action
unfoldable pub breakpoint_do_action :
    Host → Action → Args → Session → Registry → Node → Option (Registry × Node)
breakpoint_do_action host action args s r retval = elim (option args b'd') [
  | none ↦ some (r, return_result s invalid_args retval)
  | some d ↦ elim (breakpoint_admin_fetch r d) [
    | none ↦ some (r, return_result s no_such_breakpoint retval)
    | some admin ↦ elim (breakpoint_brk_info_fetch r admin.type admin.key) [
      | none ↦ act_on_null action args s r retval
      | some brk ↦ act_on host action args s r retval d admin brk
    ]
  ]
]

-- breakpoint_list_helper
unfoldable pub breakpoint_list_helper :
    Host → Session → Registry → Option Node → Element BreakpointAdmin → Option Node
breakpoint_list_helper host s r none he = none
breakpoint_list_helper host s r (some xml_node) he =
    elim (breakpoint_brk_info_fetch r he.ptr.type he.ptr.key) [
      | none ↦ none
      | some brk ↦ elim (breakpoint_brk_info_add host s brk (node_init (codes "breakpoint"))) [
        | none ↦ none
        | some child ↦ some (add_child xml_node child)
      ]
    ]

-- breakpoint_list
unfoldable pub breakpoint_list : Host → Session → Registry → Node → Option Node
breakpoint_list host s r retval =
    Hash.apply_with_argument (some host.sort) r.breakpoint_list (some retval)
      (breakpoint_list_helper host s r)
