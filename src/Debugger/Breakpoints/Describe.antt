-- ===== src/Debugger/Breakpoints/Describe.antt =====
-- How a breakpoint is described in a reply: breakpoint_brk_info_add of src/debugger/handler_dbgp.c.
-- `none` is a read through NULL.
use xdebug.Prelude.{ℕ, true, ◌||◌, Option, none, some, Bytes, codes, if◌then◌else◌, length, ◌==◌}
use xdebug.Prelude.Int.{pos, eqb_ℤ, to_size}
use xdebug.Prelude.Decimal.{decimal}
use xdebug.Url.{path_to_url}
use xdebug.Maps.Lookup.{PathMaps, Mapped, no_rule, skipped, mapped, undefined, remote_to_local}
use xdebug.Xml.Build.{Node, node_init, add_attribute, add_child, add_text_ex}
use xdebug.Debugger.Types.{
  Breakpoint, BreakpointType, line, conditional, call, return, exception, watch, HitCondition,
  hit_disabled, greater_equal, modulo,
}
use xdebug.Debugger.Types as Types
use xdebug.Debugger.Context.{to_unsigned}
use xdebug.Debugger.Location.{is_dbgp_url}
use xdebug.Debugger.Registry.{}
use xdebug.Debugger.Session.{Session}
use xdebug.Debugger.Breakpoints.{Host, add_resolved}

-- XDEBUG_BREAKPOINT_TYPE_NAME
unfoldable pub type_name : BreakpointType → Bytes
type_name line = codes "line"
type_name conditional = codes "conditional"
type_name call = codes "call"
type_name return = codes "return"
type_name exception = codes "exception"
type_name watch = codes "watch"

-- what map_remote_brkinfo_to_local makes of the lookup: a range or file to be skipped has no path
unfoldable pub local_place : Breakpoint → Mapped → Option (Bytes × ℕ)
local_place brk no_rule = some (brk.filename, to_size brk.resolved_lineno)
local_place brk (mapped kind path l) = some (path, l)
local_place brk skipped = none
local_place brk undefined = none

-- map_remote_brkinfo_to_local
unfoldable pub map_remote_brkinfo_to_local : Option PathMaps → Breakpoint → Option (Bytes × ℕ)
map_remote_brkinfo_to_local none brk = some (brk.filename, to_size brk.resolved_lineno)
map_remote_brkinfo_to_local (some maps) brk =
    local_place brk (remote_to_local maps brk.filename (to_size brk.resolved_lineno))

abbrev add_place : Node → Bytes → Bytes → Node
add_place xml file lineno =
    add_attribute (add_attribute xml (codes "filename") file) (codes "lineno") lineno

-- the place of a line breakpoint
unfoldable pub add_location : Host → Breakpoint → Node → Option Node
add_location host brk xml =
    if length brk.filename == 0 || eqb_ℤ brk.resolved_lineno (pos 0)
    then some xml
    else if is_dbgp_url brk.filename
    then some (add_place xml brk.filename (decimal (to_unsigned brk.resolved_lineno)))
    else elim (map_remote_brkinfo_to_local host.maps brk) [
      | none ↦ none
      | some (path, l) ↦ elim (path_to_url host.absolute path) [
        | none ↦ none
        | some url ↦ some (add_place xml url (decimal l))
      ]
    ]

-- an attribute for a name that is there
unfoldable pub add_name : Bytes → Option Bytes → Node → Node
add_name attribute none xml = xml
add_name attribute (some name) xml = add_attribute xml attribute name

unfoldable pub state_name : Breakpoint → Bytes
state_name brk =
    if brk.disabled
    then codes "disabled"
    else if brk.temporary
    then codes "temporary"
    else codes "enabled"

-- the switch on hit_condition
unfoldable pub add_hit_condition : HitCondition → Node → Node
add_hit_condition greater_equal xml = add_attribute xml (codes "hit_condition") (codes ">=")
add_hit_condition Types.equal xml = add_attribute xml (codes "hit_condition") (codes "==")
add_hit_condition modulo xml = add_attribute xml (codes "hit_condition") (codes "%")
add_hit_condition hit_disabled xml = xml

unfoldable pub add_condition : Option Bytes → Node → Node
add_condition none xml = xml
add_condition (some condition) xml =
    add_child xml (add_text_ex (node_init (codes "expression")) condition true)

-- the attributes behind the place
unfoldable pub add_details : Breakpoint → Node → Node
add_details brk xml =
    let named =
      add_name (codes "exception") brk.exceptionname (
        add_name (codes "class") brk.classname
          (add_name (codes "function") brk.functionname xml)) in
    let stated = add_attribute named (codes "state") (state_name brk) in
    let counted = add_attribute stated (codes "hit_count") (decimal brk.hit_count) in
    let conditioned = add_condition brk.condition (add_hit_condition brk.hit_condition counted) in
    add_attribute
      (add_attribute conditioned (codes "hit_value") (decimal (to_unsigned brk.hit_value)))
      (codes "id") (decimal (to_unsigned brk.id))

-- breakpoint_brk_info_add
unfoldable pub breakpoint_brk_info_add : Host → Session → Breakpoint → Node → Option Node
breakpoint_brk_info_add host s brk xml =
    let typed = add_resolved s brk (add_attribute xml (codes "type") (type_name brk.brk_type)) in
    elim (add_location host brk typed) [ none ↦ none | some placed ↦ some (add_details brk placed) ]
