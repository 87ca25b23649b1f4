-- ===== src/Debugger/Dispatch/Known.antt =====
-- Handlers of src/debugger/handler_dbgp.c behind the table of commands: those of features, of
-- setting breakpoints and of steps, in front of any others.
use xdebug.Prelude.{
  ◌≡◌, refl, ◌∙◌, Bool, false, List, [], ◌∷◌, ◌++◌, Bytes, codes, equal, is_some, Bool-cases, inl,
  inr, if◌then◌else◌,
}
use xdebug.CmdParser.{Args}
use xdebug.Xml.Build.{
  Attribute, Node, null, node, add_attribute, add_text_ex, get_value, get_attribute_value,
}
use xdebug.Debugger.Context.{Context, Frame, Stack, step_into, step_out, step_over, handle}
use xdebug.Debugger.Registry.{Registry}
use xdebug.Debugger.Session.{
  Session, ErrorCode, invalid_args, encoding_not_supported, return_result, option,
}
use xdebug.Debugger.Features.{
  Feature, unsupported, supported, no_feature, answer_feature, feature_get, set_success,
  set_feature, feature_switch, feature_set, feature,
}
use xdebug.Debugger.Breakpoints.{
  Host, Checked, accepted, refused, Placed, type_of_name, add_resolved, set_state, brk_info_ctor,
}
use xdebug.Debugger.Breakpoints.Set.{breakpoint_set, set_typed, reply_set, reply_state, Replied}
use xdebug.Debugger.Breakpoints.Touched.{checked-holds}
use xdebug.Debugger.Breakpoints.Placement.{Allows}
use xdebug.Debugger.Exclusive.{if-holds}
use xdebug.Debugger.Exclusive.Reached.{case-holds}
use xdebug.Debugger.Dispatch.{Handlers, lookup_cmd, dbgp_commands}
use xdebug.Debugger.Dispatch.Answers.{tags, tags-add_child, Keeps}

-- The state of the debugger that these handlers read and change. The breakpoints in `context`, as the
-- checks before statements and at calls see them, are not tied to the registry here.
pub record World : Type 0 where
  pub registry : Registry
  pub frames : List Frame
  pub stack : Stack
  pub context : Context

-- the handler of a command by its name
unfoldable pub known_handler :
    Host → Bytes → Handlers World → Bytes → Args → Session → World → Node → Session × World × Node
known_handler host version others name args s w retval =
    if equal name (codes "feature_get")
    then (s, w, feature_get version (λ n. is_some (lookup_cmd dbgp_commands n)) args s retval)
    else if equal name (codes "feature_set")
    then (let (s', reply) = feature_set args s retval in (s', w, reply))
    else if equal name (codes "breakpoint_set")
    then (let a = breakpoint_set host args s w.registry w.frames retval in
        (s, record w { registry = a.registry; frames = a.frames }, a.reply))
    else if equal name (codes "step_into")
    then (s, record w { context = handle w.stack step_into w.context }, retval)
    else if equal name (codes "step_out")
    then (s, record w { context = handle w.stack step_out w.context }, retval)
    else if equal name (codes "step_over")
    then (s, record w { context = handle w.stack step_over w.context }, retval)
    else others.handler name args s w retval

abbrev pub known : Host → Bytes → Handlers World → Handlers World
known host version others = record {
  handler = known_handler host version others;
  mark_not_active = others.mark_not_active;
  is_active = others.is_active;
}

get_value-append :
    (attributes : List Attribute) (name value q : Bytes)
    → equal name q ≡ false
    → get_value (attributes ++ (record { name = name; value = value } ∷ [])) q
      ≡ get_value attributes q
unfolding get_value
get_value-append [] name value q e = rw e refl
get_value-append (a ∷ attributes) name value q e = elim (Bool-cases (equal a.name q)) [
  | inl h ↦ rw h refl
  | inr h ↦ rw h (get_value-append attributes name value q e)
]

tags-add_attribute :
    (n : Node) (name value : Bytes)
    → equal name (codes "command") ≡ false
    → equal name (codes "transaction_id") ≡ false
    → tags (add_attribute n name value) ≡ tags n
unfolding add_attribute get_attribute_value
tags-add_attribute null name value c t = refl
tags-add_attribute (node tag text attributes child next) name value c t =
    rw
      (
        get_value-append attributes name value (codes "command") c,
        get_value-append attributes name value (codes "transaction_id") t,
      )
      refl

tags-add_text_ex :
    (n : Node) (text : Bytes) (encode : Bool) → tags (add_text_ex n text encode) ≡ tags n
unfolding add_text_ex get_attribute_value
tags-add_text_ex null text encode = refl
tags-add_text_ex (node tag old attributes child next) text encode = refl

tags-return_result : (s : Session) (e : ErrorCode) (n : Node) → tags (return_result s e n) ≡ tags n
unfolding return_result equal
tags-return_result s e n =
    tags-add_child _ _
    ∙ tags-add_attribute _ (codes "reason") _ refl refl
    ∙ tags-add_attribute n (codes "status") _ refl refl

tags-answer_feature :
    (known_name : Bool) (f : Feature) (n : Node) → tags (answer_feature known_name f n) ≡ tags n
unfolding answer_feature equal
tags-answer_feature known_name unsupported n = tags-add_attribute n (codes "supported") _ refl refl
tags-answer_feature known_name (supported text) n =
    tags-add_attribute _ (codes "supported") _ refl refl ∙ tags-add_text_ex n text false
tags-answer_feature known_name no_feature n =
    tags-add_attribute _ (codes "supported") _ refl refl ∙ tags-add_text_ex n _ false

module _ (n : Node) where
  abbrev Same : Node → Type 0
  Same reply = tags reply ≡ tags n

  feature_get-Same :
      (version : Bytes) (is_command : Bytes → Bool) (args : Args) (s : Session)
      → Same (feature_get version is_command args s n)
  unfolding feature_get equal
  feature_get-Same version is_command args s =
      case-holds Same (option args b'n') _ _ (tags-return_result s invalid_args n) (λ name.
        tags-answer_feature (is_command name) (feature version s name) _
        ∙ tags-add_attribute n (codes "feature_name") name refl refl)

  set_success-Same : (name : Bytes) → Same (set_success name n)
  unfolding set_success equal
  set_success-Same name =
      tags-add_attribute _ (codes "success") _ refl refl
      ∙ tags-add_attribute n (codes "feature") _ refl refl

  feature_set-Same : (args : Args) (s : Session) → Same (feature_set args s n).1
  unfolding feature_set feature_switch
  feature_set-Same args s =
      let Q : Session × Node → Type 0 = λ x. Same x.1 in
      let refused_args = tags-return_result s invalid_args n in
      case-holds Q (option args b'n') _ _ refused_args (λ name.
        case-holds Q (option args b'v') _ _ refused_args (λ v.
          if-holds Q (equal name (codes "encoding")) _ _
            (if-holds Q (equal v (codes "iso-8859-1")) _ _ (set_success-Same name)
              (tags-return_result s encoding_not_supported n))
            (case-holds Q (set_feature s name _) _ _ refused_args (λ s'. set_success-Same name))))

reply_state-Same : (args : Args) (n : Node) → Same n (reply_state args n)
unfolding reply_state equal
reply_state-Same args n =
    case-holds (Same n) (option args b's') _ _ refl
      (λ v. tags-add_attribute n (codes "state") v refl refl)

reply_set-Same :
    (s : Session) (r : Registry) (frames : List Frame) (n : Node) (x : Checked Placed)
    → Same n (reply_set s r frames n x).reply
unfolding reply_set add_resolved equal
reply_set-Same s r frames n (refused e) = tags-return_result s e n
reply_set-Same s r frames n (accepted p) =
    let id = tags-add_attribute n (codes "id") _ refl refl in
    if-holds (Same n) _ _ _ id (tags-add_attribute _ (codes "resolved") _ refl refl ∙ id)

any : {A : Type 0} (x : Checked A) → Allows (λ (a : A). Unit {0}) x
any (accepted a) = tt
any (refused e) = tt

breakpoint_set-Same :
    (host : Host) (args : Args) (s : Session) (r : Registry) (frames : List Frame) (n : Node)
    → Same n (breakpoint_set host args s r frames n).reply
unfolding breakpoint_set set_typed
breakpoint_set-Same host args s r frames n =
    let Q : Replied → Type 0 = λ a. Same n a.reply in
    case-holds Q (option args b't') _ _ (reply_set-Same s r frames n _) (λ t.
      case-holds Q (type_of_name t) _ _ (reply_set-Same s r frames n _) (λ type.
        checked-holds (λ brk. Unit {0}) Q (set_state args (brk_info_ctor type)) _ _ (any _)
          (λ e. reply_set-Same s r frames n (refused e))
          (λ brk u. reply_set-Same s r frames _ _ ∙ reply_state-Same args n)))

-- These handlers leave the command and the transaction id of a reply alone, if the others do.
pub known-Keeps :
    (host : Host) (version : Bytes) (others : Handlers World)
    → Keeps others
    → Keeps (known host version others)
unfolding known_handler
known-Keeps host version others k = record {
  kept = λ name args s w n.
      let Q : Session × World × Node → Type 0 = λ x. tags x.2 ≡ tags n in
      if-holds Q (equal name _) _ _ (feature_get-Same n version _ args s) (
        if-holds Q (equal name _) _ _ (feature_set-Same n args s) (
          if-holds Q (equal name _) _ _ (breakpoint_set-Same host args s w.registry w.frames n) (
            if-holds Q (equal name _) _ _ refl (
              if-holds Q (equal name _) _ _ refl
                (if-holds Q (equal name _) _ _ refl (k.kept name args s w n))))));
}
