-- ===== src/Debugger/Breakpoints/Touched.antt =====
-- What the commands on a breakpoint leave of its object: the id, and what depends on it alone.
use xdebug.Prelude.{ℕ, ◌≡◌, refl, Option, none, some, Bytes, equal, codes}
use xdebug.CmdParser.{Args}
use xdebug.Xml.Build.{Node, node_init}
use xdebug.Debugger.Types.{Breakpoint}
use xdebug.Debugger.Exclusive.{if-holds}
use xdebug.Debugger.Exclusive.Reached.{case-holds}
use xdebug.Debugger.Registry.{
  Registry, BreakpointAdmin, breakpoint_brk_info_fetch, breakpoint_admin_fetch,
}
use xdebug.Debugger.Session.{Session, ErrorCode, option}
use xdebug.Debugger.Breakpoints.{
  Host, Checked, accepted, refused, change_state, change_operator, set_state,
}
use xdebug.Debugger.Breakpoints.Action.{
  Action, get, remove, update, update_lineno, update_hit_value, update_operator, update_info,
  change_info, act_on, act_on_null, null_error, breakpoint_do_action,
}
use xdebug.Debugger.Breakpoints.Describe.{breakpoint_brk_info_add}
use xdebug.Debugger.Breakpoints.Placement.{Allows}
use xdebug.Debugger.Breakpoints.Kept.{
  Holds, Maybe, IfDone, fetch-Holds, assign_info-Holds, finish_action-Holds,
}

-- the same id
abbrev SameId : Breakpoint → Breakpoint → Type 0
SameId brk brk' = brk'.id ≡ brk.id

change_operator-SameId :
    (o : Bytes) (old brk : Breakpoint)
    → SameId old brk
    → Allows (SameId old) (change_operator o brk)
unfolding change_operator
change_operator-SameId o old brk h =
    let P : Checked Breakpoint → Type 0 = Allows (SameId old) in
    if-holds P (equal o _) _ _ h (if-holds P (equal o _) _ _ h (if-holds P (equal o _) _ _ h tt))

set_state-SameId : (args : Args) (brk : Breakpoint) → Allows (SameId brk) (set_state args brk)
unfolding set_state change_state
set_state-SameId args brk =
    let P : Checked Breakpoint → Type 0 = Allows (SameId brk) in
    case-holds P (option args b's') _ _ refl
      (λ s. if-holds P (equal s _) _ _ refl (if-holds P (equal s _) _ _ refl tt))

numbered-SameId :
    (args : Args) (old brk : Breakpoint)
    → SameId old brk
    → SameId old (update_hit_value args (update_lineno args brk))
unfolding update_hit_value update_lineno
numbered-SameId args old brk h =
    let P = SameId old in
    let lineno : P (update_lineno args brk) = case-holds P (option args b'n') _ _ h (λ n. h) in
    case-holds P (option args b'h') _ _ lineno (λ v. lineno)

update_operator-SameId :
    (args : Args) (old brk : Breakpoint)
    → SameId old brk
    → Allows (SameId old) (update_operator args brk)
unfolding update_operator
update_operator-SameId args old brk h =
    case-holds (Allows (SameId old)) (option args b'o') _ _ h
      (λ o. change_operator-SameId o old brk h)

-- of the outcomes of a step, the one that is there
pub checked-holds :
    {A B : Type 0} (P : A → Type 0) (Q : B → Type 0) (x : Checked A) (f : ErrorCode → B) (g : A → B)
    → Allows P x
    → ((e : ErrorCode) → Q (f e))
    → ((a : A) → P a → Q (g a))
    → Q (elim x [ refused e ↦ f e | accepted a ↦ g a ])
checked-holds P Q (refused e) f g p q h = q e
checked-holds P Q (accepted a) f g p q h = h a p

-- of the outcomes of a look for an object, the one that is there
maybe-holds :
    {B : Type 0} (P : Breakpoint → Type 0) (Q : B → Type 0) (o : Option Breakpoint) (x : B)
    (f : Breakpoint → B)
    → Maybe P o
    → Q x
    → ((brk : Breakpoint) → P brk → Q (f brk))
    → Q (elim o [ none ↦ x | some brk ↦ f brk ])
maybe-holds P Q none x f p q h = q
maybe-holds P Q (some brk) x f p q h = h brk p

change_info-SameId :
    (action : Action) (args : Args) (brk : Breakpoint) → SameId brk (change_info action args brk).0
unfolding change_info update_info
change_info-SameId get args brk = refl
change_info-SameId remove args brk = refl
change_info-SameId update args brk =
    let Q : Breakpoint × Option ErrorCode → Type 0 = λ x. SameId brk x.0 in
    checked-holds (SameId brk) Q (set_state args brk) _ _ (set_state-SameId args brk) (λ e. refl)
      (λ stated h.
        let same = numbered-SameId args brk stated h in
        checked-holds (SameId brk) Q (update_operator args _) _ _
          (update_operator-SameId args brk _ same) (λ e. same) (λ operated k. k))

-- A command on a breakpoint keeps a property of the ids.
module _ (P : Breakpoint → Type 0) (n : ℕ)
    (by_id : (brk brk' : Breakpoint) → SameId brk brk' → P brk → P brk') (host : Host)
    (action : Action) (args : Args) (s : Session) (retval : Node) where
  act_on-Holds :
      (r : Registry) (d : Bytes) (admin : BreakpointAdmin) (brk : Breakpoint)
      → Holds P n r
      → P brk
      → IfDone P n (act_on host action args s r retval d admin brk)
  unfolding act_on
  act_on-Holds r d admin brk h p =
      let brk' = (change_info action args brk).0 in
      let assigned =
        assign_info-Holds P n r admin.type admin.key brk' h
          (by_id brk brk' (change_info-SameId action args brk) p) in
      case-holds (IfDone P n) (change_info action args brk).1 _ _
        (case-holds (IfDone P n)
          (breakpoint_brk_info_add host s brk' (node_init (codes "breakpoint"))) _ _ tt
          (λ xml. finish_action-Holds P n action _ admin d assigned))
        (λ e. assigned)

  act_on_null-Holds :
      (a : Action) (r : Registry) → Holds P n r → IfDone P n (act_on_null a args s r retval)
  unfolding act_on_null
  act_on_null-Holds get r h = tt
  act_on_null-Holds remove r h = tt
  act_on_null-Holds update r h = case-holds (IfDone P n) (null_error args) _ _ tt (λ e. h)

  pub do_action-Holds :
      (r : Registry) → Holds P n r → IfDone P n (breakpoint_do_action host action args s r retval)
  unfolding breakpoint_do_action
  do_action-Holds r h = case-holds (IfDone P n) (option args b'd') _ _ h (λ d.
      case-holds (IfDone P n) (breakpoint_admin_fetch r d) _ _ h (λ admin.
        maybe-holds P (IfDone P n) (breakpoint_brk_info_fetch r admin.type admin.key) _ _
          (fetch-Holds P n r admin.type admin.key h) (act_on_null-Holds action r h)
          (λ brk p. act_on-Holds r d admin brk h p)))
