-- ===== src/Debugger/Exclusive/Reached.antt =====
-- The states that statements, calls and returns lead to, whatever the client answers.
use xdebug.Prelude.{
  ℕ, refl, not, ◌&&◌, ◌||◌, Option, none, some, Bytes, List, if◌then◌else◌, get_elem?,
}
use xdebug.Maps.Lookup.{PathMaps}
use xdebug.Hash
use xdebug.Hash.{str}
use xdebug.Debugger.Types.{Breakpoint, BreakpointType}
use xdebug.Debugger.Hits.{hit_stops}
use xdebug.Debugger.Location.{Engine, Location, skip, at, lost}
use xdebug.Debugger.Context.{Context, Frame, Command, Stop, mark_not_active}
use xdebug.Debugger.Statement.{Statement, statement_call}
use xdebug.Debugger.Functions.{
  Call, Handled, unchanged, tell, is_return, function_hit, function_found, function_at,
  function_key, handle_function_breakpoints, mark_fse,
}
use xdebug.Debugger.Functions.Returns.{
  no_return_value, break_on_return, executed_skip, handle_return, then_handle, handle_all,
  handle_breakpoints,
}
use xdebug.Debugger.Exclusive.{
  AtMostOne, remote_breakpoint-AtMostOne, if-holds, and_false, statement_call-AtMostOne,
}

abbrev Keeps : Handled → Type 0
Keeps h = AtMostOne h.context

tell-AtMostOne :
    (c : Call) (fse : Frame) (commands : List Command) (ctx : Context) (stop : Stop)
    → AtMostOne ctx
    → Keeps (tell c fse commands ctx stop)
unfolding tell
tell-AtMostOne c fse commands ctx stop h = remote_breakpoint-AtMostOne c.stack commands ctx h

function_found-AtMostOne :
    (c : Call) (fse : Frame) (type : BreakpointType) (path : Bytes) (lineno i : ℕ)
    (brk : Breakpoint) (commands : List Command) (ctx : Context)
    → AtMostOne ctx
    → Keeps (function_found c fse type path lineno i brk commands ctx)
unfolding function_found function_hit unchanged
function_found-AtMostOne c fse type path lineno i brk commands ctx h =
    if-holds Keeps (not brk.disabled && _) _ _
      (if-holds Keeps (not (hit_stops brk)) _ _ h (
        if-holds Keeps (not fse.user_defined || is_return type) _ _
          (tell-AtMostOne c fse commands _ _ h) h))
      h

-- of both cases, the one that is taken
pub case-holds {ℓ₁ ℓ₂ κ} :
    {A : Type ℓ₁} {B : Type ℓ₂} (P : B → Type κ) (o : Option A) (x : B) (f : A → B)
    → P x
    → ((a : A) → P (f a))
    → P (elim o [ none ↦ x | some a ↦ f a ])
case-holds P none x f p q = p
case-holds P (some a) x f p q = q a

function_at-AtMostOne :
    (c : Call) (fse : Frame) (type : BreakpointType) (l : Location) (commands : List Command)
    (ctx : Context)
    → AtMostOne ctx
    → Keeps (function_at c fse type l commands ctx)
unfolding function_at unchanged
function_at-AtMostOne c fse type skip commands ctx h = h
function_at-AtMostOne c fse type lost commands ctx h = h
function_at-AtMostOne c fse type (at path lineno) commands ctx h =
    case-holds Keeps (function_key fse type) _ _ h (λ key.
      case-holds Keeps (Hash.find ctx.function_breakpoints (str key)) _ _ h (λ i.
        case-holds Keeps (get_elem? ctx.function_store i) _ _ h
          (λ brk. function_found-AtMostOne c fse type path lineno i brk commands ctx h)))

break_on_return-AtMostOne :
    (c : Call) (fse : Frame) (l : Location) (commands : List Command) (ctx : Context)
    → AtMostOne ctx
    → Keeps (break_on_return c fse l commands ctx)
unfolding break_on_return unchanged
break_on_return-AtMostOne c fse skip commands ctx h = h
break_on_return-AtMostOne c fse lost commands ctx h = h
break_on_return-AtMostOne c fse (at path lineno) commands ctx (sn, sf, nf) =
    if-holds Keeps ctx.do_step _ _ (tell-AtMostOne c fse commands _ _ (refl, refl, nf)) (
      if-holds Keeps (ctx.do_finish && _) _ _
        (tell-AtMostOne c fse commands _ _ (sn, and_false ctx.do_step, and_false ctx.do_next))
        (sn, sf, nf))

handle_return-AtMostOne :
    (maps : Option PathMaps) (c : Call) (fse : Frame) (type : BreakpointType)
    (commands : List Command) (ctx : Context)
    → AtMostOne ctx
    → Keeps (handle_return maps c fse type commands ctx)
unfolding handle_return unchanged
handle_return-AtMostOne maps c fse type commands ctx h =
    if-holds Keeps (no_return_value ctx c type) _ _ h (
      if-holds Keeps (executed_skip maps c) _ _ h
        (break_on_return-AtMostOne c fse _ commands ctx h))

handle_all-AtMostOne :
    (maps : Option PathMaps) (c : Call) (fse : Frame) (type : BreakpointType)
    (commands : List Command) (ctx : Context)
    → AtMostOne ctx
    → Keeps (handle_all maps c fse type commands ctx)
unfolding handle_all handle_function_breakpoints then_handle
handle_all-AtMostOne maps c fse type commands ctx h =
    let marked = if fse.has_line_breakpoints then fse else mark_fse ctx c.executed_filename fse in
    let first = handle_function_breakpoints maps c marked type commands ctx in
    let kept : Keeps first = function_at-AtMostOne c marked type _ commands ctx h in
    if-holds Keeps (not first.ok) _ _ kept
      (handle_return-AtMostOne maps c first.frame type first.commands first.context kept)

handle_breakpoints-AtMostOne :
    (maps : Option PathMaps) (c : Call) (fse : Frame) (type : BreakpointType)
    (commands : List Command) (ctx : Context)
    → AtMostOne ctx
    → Keeps (handle_breakpoints maps c fse type commands ctx)
unfolding handle_breakpoints unchanged mark_not_active
handle_breakpoints-AtMostOne maps c fse type commands ctx h =
    let all = handle_all-AtMostOne maps c fse type commands ctx h in
    if-holds Keeps (not (ctx.remote_connection && ctx.breakpoints_allowed)) _ _ h
      (if-holds Keeps (handle_all maps c fse type commands ctx).ok _ _ all all)

-- The contexts that a program leads to from `start`: before each statement, and at each call and
-- return, the debugger may stop and the client answer.
pub data Reached (engine : Engine) (maps : Option PathMaps) (start : Context)
    : Context → Type 0 where
  started : Reached engine maps start start
  statement :
      (s : Statement) (commands : List Command) (ctx : Context)
      → Reached engine maps start ctx
      → Reached engine maps start (statement_call engine maps s commands ctx).context
  function :
      (c : Call) (fse : Frame) (type : BreakpointType) (commands : List Command) (ctx : Context)
      → Reached engine maps start ctx
      → Reached engine maps start (handle_breakpoints maps c fse type commands ctx).context

-- In every context that statements, calls and returns lead to, whatever steps the client asks for,
-- at most one of step_into, step_over and step_out is under way, when that is so at the start.
pub Reached-AtMostOne :
    (engine : Engine) (maps : Option PathMaps) (start ctx : Context)
    → AtMostOne start
    → Reached engine maps start ctx
    → AtMostOne ctx
Reached-AtMostOne engine maps start _ h started = h
Reached-AtMostOne engine maps start _ h (statement s commands ctx r) =
    statement_call-AtMostOne engine maps s commands ctx
      (Reached-AtMostOne engine maps start ctx h r)
Reached-AtMostOne engine maps start _ h (function c fse type commands ctx r) =
    handle_breakpoints-AtMostOne maps c fse type commands ctx
      (Reached-AtMostOne engine maps start ctx h r)
