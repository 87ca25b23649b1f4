-- ===== src/Debugger/Breakpoints/Placement.antt =====
-- Where breakpoint_set puts a new breakpoint, and what its options leave of it.
use xdebug.Prelude.{
  ◌≡◌, refl, ap, ◌∙◌, Option, none, some, List, [], ◌∷◌, ◌++◌, append_assoc, Bytes, codes, length,
  equal,
}
use xdebug.Prelude.Int.{pos, eqb_ℤ}
use xdebug.CmdParser.{Args}
use xdebug.Hash
use xdebug.Hash.{Hash, str}
use xdebug.Maps.Lookup.{PathMaps, Mapped, no_rule, skipped, mapped, undefined}
use xdebug.Debugger.Types.{
  Breakpoint, BreakpointType, line, conditional, call, return, exception, watch,
}
use xdebug.Debugger.Context.{Frame, normal, member}
use xdebug.Debugger.Resolve.{line_breakpoint_resolve_helper, find_smallest_range, resolve_in}
use xdebug.Debugger.Functions.{key_of, key_letter}
use xdebug.Debugger.Exclusive.{if-holds}
use xdebug.Debugger.Exclusive.Reached.{case-holds}
use xdebug.Debugger.Registry.{Registry, BreakpointAdmin}
use xdebug.Debugger.Session.{Session, option}
use xdebug.Debugger.Breakpoints.{
  Host, Checked, accepted, refused, ◌>>=◌, change_state, change_operator, set_state, set_hits,
  set_temporary, breakpoint_file, replace_by, map_local_to_remote_replace, set_condition, line_key,
}
use xdebug.Debugger.Breakpoints.Set.{
  resolve_new, line_breakpoint, current, call_letter, new_function_key,
}

-- A line breakpoint at the end of the list, under the key of its file and line.
pub record InLines (r r' : Registry) (a : BreakpointAdmin) (brk : Breakpoint) : Type 0 where
  pub key : a.key ≡ line_key brk
  pub lines : r'.line_breakpoints ≡ r.line_breakpoints ++ (brk ∷ [])
  pub functions : r'.function_breakpoints ≡ r.function_breakpoints
  pub exceptions : r'.exception_breakpoints ≡ r.exception_breakpoints
  pub store : r'.store ≡ r.store

-- the key under which the debugger looks for the function at a call or return
abbrev pub looked_up : Breakpoint → Bytes → Option Bytes
looked_up brk m = elim brk.classname [
  | none ↦ key_of normal brk.function_break_type [] m
  | some a ↦ key_of member brk.function_break_type a m
]

-- A function breakpoint in the table of functions, under the key that the debugger looks for.
pub record InFunctions (r r' : Registry) (a : BreakpointAdmin) (brk : Breakpoint) : Type 0 where
  pub name : Bytes
  pub named : brk.functionname ≡ some name
  pub key : some a.key ≡ looked_up brk name
  pub lines : r'.line_breakpoints ≡ r.line_breakpoints
  pub functions :
      r'.function_breakpoints
      ≡ Hash.add_or_update r.function_breakpoints (str a.key) (length r.store)
  pub exceptions : r'.exception_breakpoints ≡ r.exception_breakpoints
  pub store : r'.store ≡ r.store ++ (brk ∷ [])

-- An exception breakpoint in the table of exceptions, under the name of the exception.
pub record InExceptions (r r' : Registry) (a : BreakpointAdmin) (brk : Breakpoint) : Type 0 where
  pub key : some a.key ≡ brk.exceptionname
  pub lines : r'.line_breakpoints ≡ r.line_breakpoints
  pub functions : r'.function_breakpoints ≡ r.function_breakpoints
  pub exceptions :
      r'.exception_breakpoints
      ≡ Hash.add_or_update r.exception_breakpoints (str a.key) (length r.store)
  pub store : r'.store ≡ r.store ++ (brk ∷ [])

-- Each type of breakpoints has its place.
abbrev pub InPlace : BreakpointType → Registry → Registry → BreakpointAdmin → Breakpoint → Type 0
InPlace line r r' a brk = InLines r r' a brk
InPlace conditional r r' a brk = InLines r r' a brk
InPlace call r r' a brk = InFunctions r r' a brk
InPlace return r r' a brk = InFunctions r r' a brk
InPlace exception r r' a brk = InExceptions r r' a brk
InPlace watch r r' a brk = ⊥

-- a breakpoint of a type
pub record IsOf (type : BreakpointType) (brk : Breakpoint) : Type 0 where
  pub brk_type : brk.brk_type ≡ type
  pub function_break_type : brk.function_break_type ≡ type

-- what holds of an outcome that is accepted
abbrev pub Allows : {A : Type 0} → (A → Type 0) → Checked A → Type 0
Allows P (accepted a) = P a
Allows P (refused e) = Unit {0}

pub Allows-bind :
    {A B : Type 0} (P : A → Type 0) (Q : B → Type 0) (x : Checked A) (f : A → Checked B)
    → Allows P x
    → ((a : A) → P a → Allows Q (f a))
    → Allows Q (x >>= f)
Allows-bind P Q (accepted a) f p g = g a p
Allows-bind P Q (refused e) f p g = tt

module _ (type : BreakpointType) where
  same :
      (brk brk' : Breakpoint)
      → brk'.brk_type ≡ brk.brk_type
      → brk'.function_break_type ≡ brk.function_break_type
      → IsOf type brk
      → IsOf type brk'
  same brk brk' e f h = record {
    brk_type = e ∙ h.brk_type;
    function_break_type = f ∙ h.function_break_type;
  }

  change_operator-IsOf :
      (o : Bytes) (brk : Breakpoint) → IsOf type brk → Allows (IsOf type) (change_operator o brk)
  unfolding change_operator
  change_operator-IsOf o brk h =
      let P : Checked Breakpoint → Type 0 = Allows (IsOf type) in
      if-holds P (equal o _) _ _ (same brk _ refl refl h) (
        if-holds P (equal o _) _ _ (same brk _ refl refl h)
          (if-holds P (equal o _) _ _ (same brk _ refl refl h) tt))

  pub set_state-IsOf :
      (args : Args) (brk : Breakpoint) → IsOf type brk → Allows (IsOf type) (set_state args brk)
  unfolding set_state change_state
  set_state-IsOf args brk h =
      let P : Checked Breakpoint → Type 0 = Allows (IsOf type) in
      case-holds P (option args b's') _ _ h (λ s.
        if-holds P (equal s _) _ _ (same brk _ refl refl h)
          (if-holds P (equal s _) _ _ (same brk _ refl refl h) tt))

  pub set_hits-IsOf :
      (args : Args) (brk : Breakpoint) → IsOf type brk → Allows (IsOf type) (set_hits args brk)
  unfolding set_hits
  set_hits-IsOf args brk h =
      let P : Checked Breakpoint → Type 0 = Allows (IsOf type) in
      case-holds P (option args b'o') _ _ h (λ o. case-holds P (option args b'h') _ _ h (λ v.
        Allows-bind (IsOf type) (IsOf type) (change_operator o brk) _ (change_operator-IsOf o brk h)
          (λ b k. same b _ refl refl k)))

  pub set_temporary-IsOf :
      (args : Args) (brk : Breakpoint) → IsOf type brk → IsOf type (set_temporary args brk)
  unfolding set_temporary
  set_temporary-IsOf args brk h =
      case-holds (IsOf type) (option args b'r') _ _ h (λ r. same brk _ refl refl h)

  replace_by-IsOf : (m : Mapped) (brk : Breakpoint) → IsOf type brk → IsOf type (replace_by m brk)
  unfolding replace_by
  replace_by-IsOf (mapped kind path l) brk h = same brk _ refl refl h
  replace_by-IsOf no_rule brk h = h
  replace_by-IsOf skipped brk h = h
  replace_by-IsOf undefined brk h = h

  replace-IsOf :
      (maps : Option PathMaps) (brk : Breakpoint)
      → IsOf type brk
      → IsOf type (map_local_to_remote_replace maps brk)
  unfolding map_local_to_remote_replace
  replace-IsOf none brk h = h
  replace-IsOf (some maps) brk h = replace_by-IsOf _ brk h

  set_condition-IsOf :
      (args : Args) (brk : Breakpoint) → IsOf type brk → IsOf type (set_condition args brk)
  unfolding set_condition
  set_condition-IsOf args brk h =
      case-holds (IsOf type) (option args b'-') _ _ h (λ c. same brk _ refl refl h)

  pub line_breakpoint-IsOf :
      (host : Host) (args : Args) (frames : List Frame) (brk : Breakpoint)
      → IsOf type brk
      → Allows (IsOf type) (line_breakpoint host args frames brk)
  unfolding line_breakpoint
  line_breakpoint-IsOf host args frames brk h =
      case-holds (Allows (IsOf type)) (option args b'n') _ _ tt (λ n.
        Allows-bind (λ file. Unit {0}) (IsOf type) (breakpoint_file host args (current frames)) _
          (anything (breakpoint_file host args (current frames)))
          (λ file u. set_condition-IsOf args _ (replace-IsOf host.maps _ (same brk _ refl refl h))))
    where
      anything : (x : Checked Bytes) → Allows (λ file. Unit {0}) x
      anything (accepted a) = tt
      anything (refused e) = tt

-- Resolving a breakpoint changes neither its id, nor its type, nor its key.
pub record IsSame (brk brk' : Breakpoint) : Type 0 where
  pub id : brk'.id ≡ brk.id
  pub brk_type : brk'.brk_type ≡ brk.brk_type
  pub key : line_key brk' ≡ line_key brk

pub resolve_new-IsSame :
    (host : Host) (s : Session) (brk : Breakpoint) → IsSame brk (resolve_new host s brk)
unfolding resolve_new line_breakpoint_resolve_helper line_key
resolve_new-IsSame host s brk =
    let P = IsSame brk in
    let kept : IsSame brk brk = record { id = refl; brk_type = refl; key = refl } in
    if-holds P (eqb_ℤ s.resolved_breakpoints (pos 0)) _ _ kept (
      case-holds P (host.breakable_lines brk.filename) _ _ kept (λ functions.
        case-holds P (find_smallest_range functions brk) _ _ kept (λ item.
          case-holds P (resolve_in item brk.original_lineno) _ _ kept
            (λ lineno. record { id = refl; brk_type = refl; key = refl }))))

letters :
    (type : BreakpointType) (s : Bytes)
    → call_letter type ++ (codes "/" ++ s) ≡ key_letter type ++ s
unfolding call_letter key_letter
letters call s = refl
letters line s = refl
letters conditional s = refl
letters return s = refl
letters exception s = refl
letters watch s = refl

-- breakpoint_set makes the key that the debugger looks for.
pub function_key-looked_up :
    (args : Args) (brk : Breakpoint) (m : Bytes)
    → some (new_function_key args brk.function_break_type m)
      ≡ looked_up (record brk { functionname = some m; classname = option args b'a' }) m
unfolding new_function_key key_of
function_key-looked_up args brk m =
    elim (option args b'a')
      as (λ o.
        some (elim o [
          | none ↦ call_letter brk.function_break_type ++ (codes "/" ++ m)
          | some a ↦ call_letter brk.function_break_type ++ (codes "/" ++ (a ++ (codes "::" ++ m)))
        ])
        ≡ looked_up (record brk { functionname = some m; classname = o }) m) [
          | none ↦ ap some (letters brk.function_break_type m)
          | some a ↦
              ap some (letters brk.function_break_type (a ++ (codes "::" ++ m)) ∙ simp append_assoc)
        ]
