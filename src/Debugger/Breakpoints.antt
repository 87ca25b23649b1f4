-- ===== src/Debugger/Breakpoints.antt =====
-- What breakpoint_set and breakpoint_update read from their options, in
-- src/debugger/handler_dbgp.c, with xdebug_brk_info_ctor of src/debugger/handlers.c.
pub mod Set
pub mod Describe
pub mod Action
pub mod Consistent
pub mod Placement
pub mod Adding
pub mod Kept
pub mod Touched
pub mod Given
pub mod Handlers
pub mod Leaves
pub mod Reached
use xdebug.Prelude.{
  ℕ, ◌+◌, ◌%◌, ◌^◌, Bool, true, false, ◌&&◌, ◌||◌, not, Option, none, some, List, [], ◌∷◌, ◌++◌,
  Bytes, codes, equal, get_or, if◌then◌else◌, ◌==◌, length,
}
use xdebug.Prelude.Int.{ℤ, pos, negsuc, eqb_ℤ, to_int, to_size, int_of_bits}
use xdebug.Prelude.Decimal.{decimal}
use xdebug.Base64.{base64_decode}
use xdebug.Strtol.{strtol}
use xdebug.Url.{path_from_url}
use xdebug.CmdParser.{Args}
use xdebug.Hash
use xdebug.Hash.{Hash, Element, str}
use xdebug.Maps.Lookup.{PathMaps, Mapped, no_rule, skipped, mapped, undefined, local_to_remote}
use xdebug.Xml.Build.{Node, add_attribute}
use xdebug.Debugger.Types.{
  Breakpoint, BreakpointType, line, conditional, call, return, exception, watch, HitCondition,
  hit_disabled, greater_equal, modulo,
}
use xdebug.Debugger.Types as Types
use xdebug.Debugger.Context.{Frame, to_unsigned}
use xdebug.Debugger.Resolve.{FunctionLines, line_breakpoint_resolve_helper}
use xdebug.Debugger.Registry.{
  Registry, breakpoint_admin_add, line_breakpoint_exists, BreakpointAdmin,
}
use xdebug.Debugger.Session.{
  Session, ErrorCode, invalid_args, breakpoint_not_set, breakpoint_type_not_supported,
  stack_depth_invalid, return_result, option,
}

-- What the handlers ask of the system and of the rest of the debugger: the process id, realpath,
-- the path maps if path mapping is enabled, the functions of a file by its name, how a relative path
-- is made absolute, and qsort.
pub record Host : Type 0 where
  pub pid : ℕ
  pub realpath : Bytes → Option Bytes
  pub maps : Option PathMaps
  pub breakable_lines : Bytes → Option (List FunctionLines)
  pub absolute : Bytes → Option Bytes
  pub sort : List (Element BreakpointAdmin) → List (Element BreakpointAdmin)

-- the outcome of a step that can end a handler by RETURN_RESULT
pub data Checked (A : Type 0) : Type 0 where
  accepted : A → Checked A
  refused : ErrorCode → Checked A

infixl 5 ◌>>=◌
abbrev pub ◌>>=◌ : {A B : Type 0} → Checked A → (A → Checked B) → Checked B
accepted a >>= f = f a
refused e >>= f = refused e

-- the loop over xdebug_breakpoint_types
unfoldable pub type_of_name : Bytes → Option BreakpointType
type_of_name t =
    if equal t (codes "line")
    then some line
    else if equal t (codes "conditional")
    then some conditional
    else if equal t (codes "call")
    then some call
    else if equal t (codes "return")
    then some return
    else if equal t (codes "exception")
    then some exception
    else if equal t (codes "watch")
    then some watch
    else none

-- xdebug_brk_info_ctor, with the type that is set next; the function type of a breakpoint that is
-- not for functions is never read
unfoldable pub brk_info_ctor : BreakpointType → Breakpoint
brk_info_ctor type = record {
  id = negsuc 0;
  brk_type = type;
  resolved = false;
  classname = none;
  functionname = none;
  exceptionname = none;
  function_break_type = type;
  filename = [];
  original_lineno = pos 0;
  resolved_lineno = pos 0;
  condition = none;
  disabled = false;
  temporary = false;
  hit_count = 0;
  hit_value = pos 0;
  hit_condition = hit_disabled;
}

-- BREAKPOINT_CHANGE_STATE
unfoldable pub change_state : Bytes → Breakpoint → Checked Breakpoint
change_state s brk =
    if equal s (codes "enabled")
    then accepted (record brk { disabled = false })
    else if equal s (codes "disabled")
    then accepted (record brk { disabled = true })
    else refused invalid_args

-- BREAKPOINT_CHANGE_OPERATOR
unfoldable pub change_operator : Bytes → Breakpoint → Checked Breakpoint
change_operator o brk =
    if equal o (codes ">=")
    then accepted (record brk { hit_condition = greater_equal })
    else if equal o (codes "==")
    then accepted (record brk { hit_condition = Types.equal })
    else if equal o (codes "%")
    then accepted (record brk { hit_condition = modulo })
    else refused invalid_args

-- strtol(…, NULL, 10) as an int
abbrev pub number : Bytes → ℤ
number v = to_int (strtol v 10).0

-- `-s`
unfoldable pub set_state : Args → Breakpoint → Checked Breakpoint
set_state args brk = elim (option args b's') [ none ↦ accepted brk | some s ↦ change_state s brk ]

-- `-o` with `-h`
unfoldable pub set_hits : Args → Breakpoint → Checked Breakpoint
set_hits args brk = elim (option args b'o') [
  | none ↦ accepted brk
  | some o ↦ elim (option args b'h') [
    | none ↦ accepted brk
    | some h ↦ change_operator o brk >>= λ b. accepted (record b { hit_value = number h })
  ]
]

-- `-r`
unfoldable pub set_temporary : Args → Breakpoint → Breakpoint
set_temporary args brk = elim (option args b'r') [
  | none ↦ brk
  | some r ↦ record brk { temporary = not (eqb_ℤ (number r) (pos 0)) }
]

-- the file name of a line breakpoint; the last of the frames is the current one
unfoldable pub breakpoint_file : Host → Args → Option Frame → Checked Bytes
breakpoint_file host args fse = elim (option args b'f') [
  | none ↦ elim fse [
    | none ↦ refused stack_depth_invalid
    | some frame ↦ accepted (path_from_url frame.filename)
  ]
  | some f ↦ elim (host.realpath (path_from_url f)) [
    | none ↦ accepted (path_from_url f)
    | some path ↦ accepted path
  ]
]

-- map_local_to_remote_replace; where the lookup is undefined the model leaves the breakpoint alone
unfoldable pub replace_by : Mapped → Breakpoint → Breakpoint
replace_by (mapped kind path l) brk =
    let lineno = int_of_bits (l % 2 ^ 32) in
    record brk { filename = path; original_lineno = lineno; resolved_lineno = lineno }
replace_by _ brk = brk

unfoldable pub map_local_to_remote_replace : Option PathMaps → Breakpoint → Breakpoint
map_local_to_remote_replace none brk = brk
map_local_to_remote_replace (some maps) brk =
    replace_by (local_to_remote maps brk.filename (to_size brk.original_lineno)) brk

-- `-`, the condition in base64
unfoldable pub set_condition : Args → Breakpoint → Breakpoint
set_condition args brk = elim (option args b'-') [
  | none ↦ brk
  | some c ↦ record brk { condition = base64_decode c }
]

-- "%s$%lu"; an int is printed as the 64 bits of its register
unfoldable pub line_key : Breakpoint → Bytes
line_key brk = brk.filename ++ (b'$' ∷ decimal (to_unsigned brk.original_lineno))

-- the loop that calls xdebug_debugger_set_has_line_breakpoints
unfoldable pub mark_frames : List Frame → List Frame
mark_frames [] = []
mark_frames (fse ∷ frames) = record fse { has_line_breakpoints = true } ∷ mark_frames frames

-- the breakpoint and what else changed: the registry and the frames of the stack
pub record Placed : Type 0 where
  pub brk : Breakpoint
  pub registry : Registry
  pub frames : List Frame

-- breakpoint_brk_info_add_resolved
unfoldable pub add_resolved : Session → Breakpoint → Node → Node
add_resolved s brk xml =
    if eqb_ℤ s.resolved_breakpoints (pos 0)
    then xml
    else add_attribute xml (codes "resolved")
        (if brk.resolved then codes "resolved" else codes "unresolved")
