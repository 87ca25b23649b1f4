-- ===== src/Debugger/Features.antt =====
-- feature_get and feature_set of src/debugger/handler_dbgp.c.
pub mod Laws
use xdebug.Prelude.{
  ℕ, Bool, true, false, ◌||◌, not, Option, none, some, List, [], ◌∷◌, ◌++◌, Bytes, codes, equal,
  replicate, if◌then◌else◌,
}
use xdebug.Prelude.Int.{ℤ, pos, negsuc, pos_part, to_int}
use xdebug.Prelude.Decimal.{decimal}
use xdebug.Strtol.{strtol}
use xdebug.CmdParser.{Args}
use xdebug.Xml.Build.{Node, add_attribute, add_text_ex}
use xdebug.Debugger.Replies.{decimal_int}
use xdebug.Debugger.Session.{
  ExportOptions, Session, ErrorCode, invalid_args, encoding_not_supported, return_result, option,
}

-- What feature_get says of a feature: that it is not supported, its text, or the answer for a name
-- that is none of the features.
pub data Feature : Type 0 where
  unsupported : Feature
  supported : Bytes → Feature
  no_feature : Feature

-- the features with a value of the session; `xdebug_sprintf("%ld", …)`
unfoldable pub feature_value : Session → Bytes → Feature
feature_value s n =
    if equal n (codes "max_children")
    then supported (decimal_int s.options.max_children)
    else if equal n (codes "max_data")
    then supported (decimal_int s.options.max_data)
    else if equal n (codes "max_depth")
    then supported (decimal_int s.options.max_depth)
    else if equal n (codes "show_hidden")
    then supported (decimal_int s.options.show_hidden)
    else if equal n (codes "extended_properties")
    then supported (decimal_int s.options.extended_properties)
    else if equal n (codes "notify_ok")
    then supported (decimal_int s.send_notifications)
    else if equal n (codes "resolved_breakpoints")
    then supported (decimal_int s.resolved_breakpoints)
    else if equal n (codes "breakpoint_details")
    then supported (decimal_int s.breakpoint_details)
    else if equal n (codes "breakpoint_include_return_value")
    then supported (decimal_int s.breakpoint_include_return_value)
    else if equal n (codes "virtual_exception_value")
    then supported (decimal_int s.virtual_exception_value)
    else no_feature

-- the switch of feature_get; `version` is that of PHP
unfoldable pub feature : Bytes → Session → Bytes → Feature
feature version s n =
    if equal n (codes "breakpoint_languages") || equal n (codes "data_encoding")
    then unsupported
    else if equal n (codes "breakpoint_types")
    then supported (codes "line conditional call return exception")
    else if equal n (codes "encoding") || equal n (codes "supported_encodings")
    then supported (codes "iso-8859-1")
    else if equal n (codes "language_name")
    then supported (codes "PHP")
    else if equal n (codes "language_supports_threads")
        || equal n (codes "multiple_sessions")
        || equal n (codes "supports_async")
    then supported (codes "0")
    else if equal n (codes "language_version")
    then supported version
    else if equal n (codes "protocol_version")
    then supported (codes "1.0")
    else if equal n (codes "supports_postmortem")
    then supported (codes "1")
    else feature_value s n

-- the answer in the reply; `known` tells whether the name is that of a command
unfoldable pub answer_feature : Bool → Feature → Node → Node
answer_feature known unsupported retval = add_attribute retval (codes "supported") (codes "0")
answer_feature known (supported text) retval =
    add_attribute (add_text_ex retval text false) (codes "supported") (codes "1")
answer_feature known no_feature retval =
    let answer = if known then codes "1" else codes "0" in
    add_attribute (add_text_ex retval answer false) (codes "supported") answer

-- feature_get
unfoldable pub feature_get : Bytes → (Bytes → Bool) → Args → Session → Node → Node
feature_get version is_command args s retval = elim (option args b'n') [
  | none ↦ return_result s invalid_args retval
  | some n ↦
      answer_feature (is_command n) (feature version s n)
        (add_attribute retval (codes "feature_name") n)
]

-- the pages for a depth
abbrev pub fresh_pages : ℤ → List (ℕ × ℕ)
fresh_pages depth = replicate (pos_part depth) (0, 0)

-- the switch of feature_set on a feature with a number; `none` is the default
unfoldable pub set_feature : Session → Bytes → ℤ → Option Session
set_feature s n v =
    let o = s.options in
    if equal n (codes "max_children")
    then some (record s { options = record o { max_children = v } })
    else if equal n (codes "max_data")
    then some (record s { options = record o { max_data = v } })
    else if equal n (codes "max_depth")
    then some (record s { options = record o { max_depth = v; runtime = fresh_pages v } })
    else if equal n (codes "show_hidden")
    then some (record s { options = record o { show_hidden = v } })
    else if equal n (codes "extended_properties")
    then some (record s { options = record o { extended_properties = v } })
    else if equal n (codes "notify_ok")
    then some (record s { send_notifications = v })
    else if equal n (codes "resolved_breakpoints")
    then some (record s { resolved_breakpoints = v })
    else if equal n (codes "breakpoint_details")
    then some (record s { breakpoint_details = v })
    else if equal n (codes "breakpoint_include_return_value")
    then some (record s { breakpoint_include_return_value = v })
    else if equal n (codes "virtual_exception_value")
    then some (record s { virtual_exception_value = v })
    else none

-- the end of feature_set
unfoldable pub set_success : Bytes → Node → Node
set_success n retval =
    add_attribute (add_attribute retval (codes "feature") n) (codes "success") (codes "1")

-- the switch of feature_set
unfoldable pub feature_switch : Bytes → Bytes → Session → Node → Session × Node
feature_switch n v s retval =
    if equal n (codes "encoding")
    then (if equal v (codes "iso-8859-1")
        then (s, set_success n retval)
        else (s, return_result s encoding_not_supported retval))
    else elim (set_feature s n (to_int (strtol v 10).0)) [
      | some s' ↦ (s', set_success n retval)
      | none ↦ (s, return_result s invalid_args retval)
    ]

-- feature_set
unfoldable pub feature_set : Args → Session → Node → Session × Node
feature_set args s retval = elim (option args b'n') [
  | none ↦ (s, return_result s invalid_args retval)
  | some n ↦ elim (option args b'v') [
    | none ↦ (s, return_result s invalid_args retval)
    | some v ↦ feature_switch n v s retval
  ]
]
