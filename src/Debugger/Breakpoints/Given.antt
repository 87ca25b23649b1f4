-- ===== src/Debugger/Breakpoints/Given.antt =====
-- The ids that the breakpoints themselves have, through the commands on breakpoints.
use xdebug.Prelude.{
  ℕ, ◌≤◌, ◌<◌, ◌≡◌, refl, sym, ◌∙◌, some, List, [], ◌∷◌, ◌++◌, All, All-append, append-nil, ◌+◌,
  arith,
}
use mathlib.Core.Path.{subst}
use xdebug.Prelude.Int.{pos}
use xdebug.CmdParser.{Args}
use xdebug.Xml.Build.{Node}
use xdebug.Debugger.Types.{
  Breakpoint, BreakpointType, line, conditional, call, return, exception, watch,
}
use xdebug.Debugger.Registry.{Registry}
use xdebug.Debugger.Session.{Session}
use xdebug.Debugger.Breakpoints.{Host}
use xdebug.Debugger.Breakpoints.Action.{Action, breakpoint_do_action}
use xdebug.Debugger.Breakpoints.Consistent.{base}
use xdebug.Debugger.Breakpoints.Kept.{Holds, IfDone}
use xdebug.Debugger.Breakpoints.Touched.{do_action-Holds}
use xdebug.Debugger.Breakpoints.Adding.{Adds}

-- one of the ids that were given out
abbrev pub IsGiven : ℕ → ℕ → Breakpoint → Type 0
IsGiven low high brk = (m : ℕ) × (brk.id ≡ pos m) × (low < m) × (m ≤ high)

-- Every breakpoint that is listed has an id that the process has given out.
abbrev pub HasGivenIds : ℕ → Registry → Type 0
HasGivenIds pid r = Holds (IsGiven (base pid) (base pid + r.breakpoint_count)) r.breakpoint_count r

wider :
    (low m n : ℕ) (brks : List Breakpoint)
    → m ≤ n
    → All (IsGiven low m) brks
    → All (IsGiven low n) brks
wider low m n [] le h = tt
wider low m n (brk ∷ brks) le ((k, e, l, u), hs) =
    ((k, e, l, omega (arith, u, le)), wider low m n brks le hs)

-- A breakpoint that is set gets such an id.
module _ (host : Host) (r : Registry) (h : HasGivenIds host.pid r) (r' : Registry) where
  -- the lists behind the command
  grown :
      (brk : Breakpoint) (type : BreakpointType) (adds : Adds host.pid type r r' brk)
      (lines stored : List Breakpoint)
      → r'.line_breakpoints ≡ r.line_breakpoints ++ lines
      → r'.store ≡ r.store ++ stored
      → All (IsGiven (base host.pid) (base host.pid + r'.breakpoint_count)) lines
      → All (IsGiven (base host.pid) (base host.pid + r'.breakpoint_count)) stored
      → HasGivenIds host.pid r'
  grown brk type adds lines stored el es hl hs =
      let P = IsGiven (base host.pid) (base host.pid + r'.breakpoint_count) in
      let counted = adds.registers.counted in
      let le : base host.pid + r.breakpoint_count ≤ base host.pid + r'.breakpoint_count =
        omega (arith, counted) in
      record {
        counted = refl;
        lines =
            subst (All P) (sym el) (
              All-append P r.line_breakpoints lines (wider _ _ _ r.line_breakpoints le h.lines) hl);
        stored =
            subst (All P) (sym es)
              (All-append P r.store stored (wider _ _ _ r.store le h.stored) hs);
      }

  new-IsGiven :
      (brk : Breakpoint) (type : BreakpointType) (adds : Adds host.pid type r r' brk)
      → IsGiven (base host.pid) (base host.pid + r'.breakpoint_count) brk
  new-IsGiven brk type adds =
      let next = adds.registers.next_id in
      let counted = adds.registers.counted in
      (adds.entry.id, adds.id, omega (arith, next), omega (arith, next, counted))

  pub Adds-HasGivenIds :
      (type : BreakpointType) (brk : Breakpoint)
      → Adds host.pid type r r' brk
      → HasGivenIds host.pid r'
  Adds-HasGivenIds line brk adds =
      grown brk line adds (brk ∷ []) [] adds.placed.lines (adds.placed.store ∙ sym (append-nil _))
        (new-IsGiven brk line adds, tt) tt
  Adds-HasGivenIds conditional brk adds =
      grown brk conditional adds (brk ∷ []) [] adds.placed.lines
        (adds.placed.store ∙ sym (append-nil _)) (new-IsGiven brk conditional adds, tt) tt
  Adds-HasGivenIds call brk adds =
      grown brk call adds [] (brk ∷ []) (adds.placed.lines ∙ sym (append-nil _)) adds.placed.store
        tt (new-IsGiven brk call adds, tt)
  Adds-HasGivenIds return brk adds =
      grown brk return adds [] (brk ∷ []) (adds.placed.lines ∙ sym (append-nil _)) adds.placed.store
        tt (new-IsGiven brk return adds, tt)
  Adds-HasGivenIds exception brk adds =
      grown brk exception adds [] (brk ∷ []) (adds.placed.lines ∙ sym (append-nil _))
        adds.placed.store tt (new-IsGiven brk exception adds, tt)
  Adds-HasGivenIds watch brk adds = absurd adds.placed

-- A command on a breakpoint keeps such ids.
pub do_action-HasGivenIds :
    (host : Host) (action : Action) (args : Args) (s : Session) (r r' : Registry)
    (retval reply : Node)
    → HasGivenIds host.pid r
    → breakpoint_do_action host action args s r retval ≡ some (r', reply)
    → HasGivenIds host.pid r'
do_action-HasGivenIds host action args s r r' retval reply h e =
    let low = base host.pid in
    let P = IsGiven low (low + r.breakpoint_count) in
    let kept : Holds P r.breakpoint_count r' = subst (IfDone P r.breakpoint_count) e (
      do_action-Holds P r.breakpoint_count (λ brk brk' same (m, i, l, u). (m, same ∙ i, l, u)) host
        action args s retval r h) in
    subst (λ n. Holds (IsGiven low (low + n)) n r') (sym kept.counted) kept
