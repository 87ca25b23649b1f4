-- ===== src/Debugger/Breakpoints/Set.antt =====
-- breakpoint_set of src/debugger/handler_dbgp.c.
use xdebug.Prelude.{
  true, Option, none, some, List, [], ◌∷◌, ◌++◌, Bytes, codes, if◌then◌else◌, length,
}
use xdebug.Prelude.Int.{pos, eqb_ℤ, int_of_bits}
use xdebug.Prelude.Decimal.{decimal}
use xdebug.CmdParser.{Args}
use xdebug.Hash
use xdebug.Hash.{str}
use xdebug.Xml.Build.{Node, add_attribute}
use xdebug.Debugger.Types.{
  Breakpoint, BreakpointType, line, conditional, call, return, exception, watch,
}
use xdebug.Debugger.Context.{Frame, to_unsigned}
use xdebug.Debugger.Resolve.{line_breakpoint_resolve_helper}
use xdebug.Debugger.Registry.{Registry, breakpoint_admin_add, line_breakpoint_exists}
use xdebug.Debugger.Session.{
  Session, invalid_args, breakpoint_not_set, breakpoint_type_not_supported, return_result, option,
}
use xdebug.Debugger.Breakpoints.{
  Host, Checked, accepted, refused, ◌>>=◌, type_of_name, brk_info_ctor, set_state, set_hits,
  set_temporary, number, breakpoint_file, map_local_to_remote_replace, set_condition, line_key,
  mark_frames, Placed, add_resolved,
}

-- the last frame of the stack; the frames are listed from the current one on
abbrev pub current : List Frame → Option Frame
current [] = none
current (fse ∷ frames) = some fse

-- the resolving of a new line breakpoint, if the client asked for it
unfoldable pub resolve_new : Host → Session → Breakpoint → Breakpoint
resolve_new host s brk =
    if eqb_ℤ s.resolved_breakpoints (pos 0) then brk else elim (host.breakable_lines brk.filename) [
      | none ↦ brk
      | some functions ↦ line_breakpoint_resolve_helper functions brk
    ]

-- the part of breakpoint_set that puts a line breakpoint into the lists
unfoldable pub insert_line : Host → Session → Registry → List Frame → Breakpoint → Placed
insert_line host s r frames brk =
    let (r', id) = breakpoint_admin_add host.pid r brk.brk_type (line_key brk) in
    let resolved = resolve_new host s (record brk { id = int_of_bits id }) in
    record {
      brk = resolved;
      registry = record r' { line_breakpoints = r'.line_breakpoints ++ (resolved ∷ []) };
      frames = mark_frames frames;
    }

-- the line breakpoint as its options describe it
unfoldable pub line_breakpoint : Host → Args → List Frame → Breakpoint → Checked Breakpoint
line_breakpoint host args frames brk = elim (option args b'n') [
  | none ↦ refused invalid_args
  | some n ↦ breakpoint_file host args (current frames) >>= λ file.
      let placed = record brk {
        filename = file;
        original_lineno = number n;
        resolved_lineno = number n;
      } in
      accepted (set_condition args (map_local_to_remote_replace host.maps placed))
]

-- the branch of breakpoint_set for `line` and `conditional`
unfoldable pub set_line :
    Host → Args → Session → Registry → List Frame → Breakpoint → Checked Placed
set_line host args s r frames brk = line_breakpoint host args frames brk >>= λ b.
    if line_breakpoint_exists host.sort r (line_key b)
    then refused breakpoint_not_set
    else accepted (insert_line host s r frames b)

-- the letter of a function breakpoint's key
unfoldable pub call_letter : BreakpointType → Bytes
call_letter call = codes "C"
call_letter _ = codes "R"

-- the key of a function breakpoint
unfoldable pub new_function_key : Args → BreakpointType → Bytes → Bytes
new_function_key args type m = elim (option args b'a') [
  | none ↦ call_letter type ++ (codes "/" ++ m)
  | some a ↦ call_letter type ++ (codes "/" ++ (a ++ (codes "::" ++ m)))
]

-- the part of breakpoint_set that puts a breakpoint into a hash table: the object, the pointer to
-- it, and its id
unfoldable pub insert_function : Host → Registry → List Frame → Bytes → Breakpoint → Placed
insert_function host r frames key brk =
    let r1 = record r {
      function_breakpoints = Hash.add_or_update r.function_breakpoints (str key) (length r.store);
    } in
    let (r2, id) = breakpoint_admin_add host.pid r1 brk.function_break_type key in
    let brk' = record brk { id = int_of_bits id; resolved = true } in
    record { brk = brk'; registry = record r2 { store = r2.store ++ (brk' ∷ []) }; frames = frames }

-- the branch of breakpoint_set for `call` and `return`
unfoldable pub set_function : Host → Args → Registry → List Frame → Breakpoint → Checked Placed
set_function host args r frames brk = elim (option args b'm') [
  | none ↦ refused invalid_args
  | some m ↦
      let key = new_function_key args brk.function_break_type m in
      let named = record brk { functionname = some m; classname = option args b'a' } in
      elim (Hash.find r.function_breakpoints (str key)) [
        | some _ ↦ refused breakpoint_not_set
        | none ↦ accepted (insert_function host r frames key named)
      ]
]

-- the branch of breakpoint_set for `exception`; xdebug_hash_add always returns 1
unfoldable pub set_exception : Host → Args → Registry → List Frame → Breakpoint → Checked Placed
set_exception host args r frames brk = elim (option args b'x') [
  | none ↦ refused invalid_args
  | some x ↦
      let r1 = record r {
        exception_breakpoints = Hash.add_or_update r.exception_breakpoints (str x) (length r.store);
      } in
      let (r2, id) = breakpoint_admin_add host.pid r1 exception x in
      let brk' = record brk { exceptionname = some x; id = int_of_bits id; resolved = true } in
      accepted (record {
        brk = brk';
        registry = record r2 { store = r2.store ++ (brk' ∷ []) };
        frames = frames;
      })
]

-- the branches on the type
unfoldable pub set_of_type :
    BreakpointType → Host → Args → Session → Registry → List Frame → Breakpoint → Checked Placed
set_of_type line host args s r frames brk = set_line host args s r frames brk
set_of_type conditional host args s r frames brk = set_line host args s r frames brk
set_of_type call host args s r frames brk = set_function host args r frames brk
set_of_type return host args s r frames brk = set_function host args r frames brk
set_of_type exception host args s r frames brk = set_exception host args r frames brk
set_of_type watch host args s r frames brk = refused breakpoint_type_not_supported

-- the registry, the frames and the reply behind the command
pub record Replied : Type 0 where
  pub registry : Registry
  pub frames : List Frame
  pub reply : Node

-- the end of the handler: the reply with the id, or the error, which leaves all else as it was
unfoldable pub reply_set : Session → Registry → List Frame → Node → Checked Placed → Replied
reply_set s r frames retval (refused e) = record {
  registry = r;
  frames = frames;
  reply = return_result s e retval;
}
reply_set s r frames retval (accepted p) = record {
  registry = p.registry;
  frames = p.frames;
  reply = add_resolved s p.brk (add_attribute retval (codes "id") (decimal (to_unsigned p.brk.id)));
}

-- the attribute of the reply for `-s`
unfoldable pub reply_state : Args → Node → Node
reply_state args retval = elim (option args b's') [
  | none ↦ retval
  | some s ↦ add_attribute retval (codes "state") s
]

-- the handler on a type that was found: the options in their order, then the branches
unfoldable pub set_typed :
    Host → Args → Session → Registry → List Frame → Node → BreakpointType → Replied
set_typed host args s r frames retval type = elim (set_state args (brk_info_ctor type)) [
  | refused e ↦ reply_set s r frames retval (refused e)
  | accepted brk ↦
      reply_set s r frames (reply_state args retval)
        (set_hits args brk >>= λ b. set_of_type type host args s r frames (set_temporary args b))
]

-- breakpoint_set
unfoldable pub breakpoint_set : Host → Args → Session → Registry → List Frame → Node → Replied
breakpoint_set host args s r frames retval = elim (option args b't') [
  | none ↦ reply_set s r frames retval (refused invalid_args)
  | some t ↦ elim (type_of_name t) [
    | none ↦ reply_set s r frames retval (refused invalid_args)
    | some type ↦ set_typed host args s r frames retval type
  ]
]
