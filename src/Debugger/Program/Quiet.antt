-- ===== src/Debugger/Program/Quiet.antt =====
-- Calls and returns at which src/debugger/debugger.c does not stop.
use xdebug.Prelude.{
  ◌≡◌, ℕ, ◌⊎◌, refl, sym, if_false, if_true, Bool, true, false, not, ◌&&◌, Option, none, some,
  Option-cases, inl, inr, List, [], Bytes, if◌then◌else◌,
}
use mathlib.Core.Path.{subst}
use xdebug.Maps.Lookup.{PathMaps}
use xdebug.Hash
use xdebug.Hash.{str}
use xdebug.Debugger.Types.{BreakpointType}
use xdebug.Debugger.Location.{Location, skip, at, lost}
use xdebug.Debugger.Context.{Context, Frame, Command}
use xdebug.Debugger.Statement.{finish_condition_met, finish_met}
use xdebug.Debugger.Functions.{
  Call, Handled, unchanged, function_at, function_key, handle_function_breakpoints, mark_fse,
  any_marks,
}
use xdebug.Debugger.Functions.Returns.{
  no_return_value, executed_skip, break_on_return, handle_return, then_handle, handle_all,
  handle_breakpoints,
}
use xdebug.Debugger.Exclusive.{if-holds}
use xdebug.Debugger.Exclusive.Reached.{case-holds}

-- No breakpoint is set on the call of or the return from the frame's function.
abbrev pub IsFree : Hash.Hash ℕ → Frame → BreakpointType → Type 0
IsFree breakpoints fse type =
    (key : Bytes) → function_key fse type ≡ some key → Hash.find breakpoints (str key) ≡ none

-- A call or return at which neither a breakpoint nor a step stops.
pub record PassesFunction (ctx : Context) (c : Call) (fse : Frame) (type : BreakpointType)
    : Type 0 where
  pub free : IsFree ctx.function_breakpoints fse type
  pub no_step : ctx.do_step ≡ false
  pub no_finish :
      (no_return_value ctx c type ≡ true)
      ⊎ ((ctx.do_finish && finish_condition_met ctx fse true) ≡ false)

-- nothing happened
pub record IsUntouched (ctx : Context) (h : Handled) : Type 0 where
  pub context : h.context ≡ ctx
  pub stops : h.stops ≡ []
  pub ok : h.ok ≡ true

unchanged-IsUntouched :
    (ctx : Context) (fse : Frame) (commands : List Command)
    → IsUntouched ctx (unchanged fse commands ctx)
unfolding unchanged
unchanged-IsUntouched ctx fse commands = record { context = refl; stops = refl; ok = refl }

function_at-unchanged :
    (c : Call) (fse : Frame) (type : BreakpointType) (l : Location) (commands : List Command)
    (ctx : Context)
    → IsFree ctx.function_breakpoints fse type
    → function_at c fse type l commands ctx ≡ unchanged fse commands ctx
unfolding function_at
function_at-unchanged c fse type skip commands ctx h = refl
function_at-unchanged c fse type lost commands ctx h = refl
function_at-unchanged c fse type (at path lineno) commands ctx h =
    elim (Option-cases (function_key fse type)) [
      | inl e ↦ rw (e, function_at) refl
      | inr (key, e) ↦ rw (e, function_at) (rw (h key e) refl)
    ]

-- To mark a frame changes neither the name of its function nor its place in the stack.
marked-Passes :
    (ctx : Context) (c : Call) (fse : Frame) (type : BreakpointType)
    → PassesFunction ctx c fse type
    → PassesFunction ctx c (record fse { has_line_breakpoints = true }) type
unfolding function_key finish_condition_met finish_met
marked-Passes ctx c fse type p = record {
  free = p.free;
  no_step = p.no_step;
  no_finish = p.no_finish;
}

mark_fse-Passes :
    (ctx : Context) (c : Call) (fse : Frame) (type : BreakpointType)
    → PassesFunction ctx c fse type
    → PassesFunction ctx c
        (if fse.has_line_breakpoints then fse else mark_fse ctx c.executed_filename fse)
        type
unfolding mark_fse
mark_fse-Passes ctx c fse type p =
    let P : Frame → Type 0 = λ fse'. PassesFunction ctx c fse' type in
    if-holds P fse.has_line_breakpoints _ _ p (
      if-holds P (not fse.user_defined) _ _ p (
        case-holds P c.executed_filename _ _ p (λ filename.
          if-holds P (any_marks _ fse ctx.line_breakpoints) _ _ (marked-Passes ctx c fse type p)
            p)))

-- of two branches, the second
if-else {ℓ κ} :
    {A : Type ℓ} (P : A → Type κ) (b : Bool) (x y : A) → b ≡ false → P y → P (if b then x else y)
if-else P b x y e p = subst P (sym (if_false b x y e)) p

break_on_return-IsUntouched :
    (c : Call) (fse : Frame) (l : Location) (commands : List Command) (ctx : Context)
    → ctx.do_step ≡ false
    → (ctx.do_finish && finish_condition_met ctx fse true) ≡ false
    → IsUntouched ctx (break_on_return c fse l commands ctx)
unfolding break_on_return
break_on_return-IsUntouched c fse skip commands ctx s f = unchanged-IsUntouched ctx fse commands
break_on_return-IsUntouched c fse lost commands ctx s f = unchanged-IsUntouched ctx fse commands
break_on_return-IsUntouched c fse (at path lineno) commands ctx s f =
    if-else (IsUntouched ctx) ctx.do_step _ _ s (
      if-else (IsUntouched ctx) (ctx.do_finish && finish_condition_met ctx fse true) _ _ f
        (unchanged-IsUntouched ctx fse commands))

handle_return-IsUntouched :
    (maps : Option PathMaps) (c : Call) (fse : Frame) (type : BreakpointType)
    (commands : List Command) (ctx : Context)
    → ctx.do_step ≡ false
    → (no_return_value ctx c type ≡ true)
      ⊎ ((ctx.do_finish && finish_condition_met ctx fse true) ≡ false)
    → IsUntouched ctx (handle_return maps c fse type commands ctx)
unfolding handle_return
handle_return-IsUntouched maps c fse type commands ctx s (inl n) =
    subst (IsUntouched ctx) (sym (if_true (no_return_value ctx c type) _ _ n))
      (unchanged-IsUntouched ctx fse commands)
handle_return-IsUntouched maps c fse type commands ctx s (inr f) =
    let none_done = unchanged-IsUntouched ctx fse commands in
    if-holds (IsUntouched ctx) (no_return_value ctx c type) _ _ none_done (
      if-holds (IsUntouched ctx) (executed_skip maps c) _ _ none_done
        (break_on_return-IsUntouched c fse _ commands ctx s f))

handle_all-IsUntouched :
    (maps : Option PathMaps) (c : Call) (fse : Frame) (type : BreakpointType)
    (commands : List Command) (ctx : Context)
    → PassesFunction ctx c fse type
    → IsUntouched ctx (handle_all maps c fse type commands ctx)
unfolding handle_all handle_function_breakpoints
handle_all-IsUntouched maps c fse type commands ctx p =
    let marked = if fse.has_line_breakpoints then fse else mark_fse ctx c.executed_filename fse in
    let p' = mark_fse-Passes ctx c fse type p in
    let first = handle_function_breakpoints maps c marked type commands ctx in
    let same : first ≡ unchanged marked commands ctx =
      function_at-unchanged c marked type _ commands ctx p'.free in
    let return = handle_return maps c marked type commands ctx in
    let quiet : IsUntouched ctx return =
      handle_return-IsUntouched maps c marked type commands ctx p'.no_step p'.no_finish in
    subst
      (λ (h : Handled). IsUntouched ctx (
        if not h.ok
        then h
        else then_handle h (handle_return maps c h.frame type h.commands h.context)))
      (sym same)
      (unfold unchanged then_handle in
        record { context = quiet.context; stops = quiet.stops; ok = quiet.ok })

-- The hook leaves everything alone and stops at nothing.
pub handle_breakpoints-IsUntouched :
    (maps : Option PathMaps) (c : Call) (fse : Frame) (type : BreakpointType)
    (commands : List Command) (ctx : Context)
    → PassesFunction ctx c fse type
    → IsUntouched ctx (handle_breakpoints maps c fse type commands ctx)
unfolding handle_breakpoints
handle_breakpoints-IsUntouched maps c fse type commands ctx p =
    let all = handle_all-IsUntouched maps c fse type commands ctx p in
    if-holds (IsUntouched ctx) (not (ctx.remote_connection && ctx.breakpoints_allowed)) _ _
      (unchanged-IsUntouched ctx fse commands)
      (subst (IsUntouched ctx) (sym (if_true _ _ _ all.ok)) all)
