-- ===== src/Debugger/Breakpoints/Reached.antt =====
-- The registry through any sequence of the commands on breakpoints.
use mathlib.Core.Path.{subst}
use xdebug.Prelude.{
  ℕ, ◌<◌, ◌≡◌, refl, ap, Bool, true, false, Option, none, some, List, [], All, sym, inl, inr, Bytes,
  equal, Option-cases, if◌then◌else◌, arith,
}
use xdebug.CmdParser.{Args}
use xdebug.Hash
use xdebug.Hash.{Hash, Key, str, key_compare, key_compare_iff}
use xdebug.Hash.Valid.{find-alloc, alloc-IsValid}
use xdebug.Xml.Build.{Node, add_child}
use xdebug.Debugger.Types.{Breakpoint}
use xdebug.Debugger.Context.{Frame}
use xdebug.Debugger.Registry.{
  Registry, BreakpointAdmin, breakpoint_admin_fetch, breakpoint_remove, breakpoint_brk_info_fetch,
}
use xdebug.Debugger.Session.{Session, option}
use xdebug.Debugger.Breakpoints.{Host}
use xdebug.Debugger.Breakpoints.Set.{breakpoint_set}
use xdebug.Debugger.Breakpoints.Action.{
  Action, get, remove, update, change_info, finish_action, update_info, null_error, act_on,
  act_on_null, breakpoint_do_action,
}
use xdebug.Debugger.Breakpoints.Consistent.{IsConsistent, Bounded}
use xdebug.Debugger.Breakpoints.Leaves.{
  SameIds, IsConsistent-same, assign_info-SameIds, breakpoint_remove-SameIds, Leaves,
  admin_remove-Leaves, Leaves-same, Leaves-refl, Leaves-absent,
}
use xdebug.Debugger.Breakpoints.Handlers.{breakpoint_set-Adds}
use xdebug.Debugger.Breakpoints.Given.{HasGivenIds, Adds-HasGivenIds, do_action-HasGivenIds}

abbrev pub removes : Action → Bool
removes get = false
removes remove = true
removes update = false

-- A command that returns leaves such a registry.
abbrev Done : ℕ → Registry → Bool → Bytes → Option (Registry × Node) → Type 0
Done pid r gone d none = Unit {0}
Done pid r gone d (some (r', reply)) = Leaves pid r gone d r'

finish_action-Leaves :
    (pid : ℕ) (action : Action) (r : Registry) (admin : BreakpointAdmin) (d : Bytes)
    → IsConsistent pid r
    → Leaves pid r (removes action) d (finish_action action r admin d)
unfolding finish_action
finish_action-Leaves pid get r admin d c =
    Leaves-refl pid r r d c (record { count = refl; list = refl })
finish_action-Leaves pid update r admin d c =
    Leaves-refl pid r r d c (record { count = refl; list = refl })
finish_action-Leaves pid remove r admin d c =
    let same = breakpoint_remove-SameIds r admin.type admin.key in
    let r1 = (breakpoint_remove r admin.type admin.key).0 in
    Leaves-same pid r _ true d _ same
      (admin_remove-Leaves pid _ d (IsConsistent-same pid r _ same c))

module _ (host : Host) (args : Args) (s : Session) (retval : Node) (d : Bytes) where
  answered :
      (action : Action) (r r1 : Registry) (admin : BreakpointAdmin)
      → IsConsistent host.pid r
      → SameIds r r1
      → (shown : Option Node)
      → Done host.pid r (removes action) d (elim shown [
        | none ↦ none
        | some xml ↦ some (finish_action action r1 admin d, add_child retval xml)
      ])
  answered action r r1 admin c e none = tt
  answered action r r1 admin c e (some xml) =
      Leaves-same host.pid r r1 (removes action) d _ e
        (finish_action-Leaves host.pid action r1 admin d (IsConsistent-same host.pid r r1 e c))

  act_on-Done :
      (action : Action) (r : Registry) (admin : BreakpointAdmin) (brk : Breakpoint)
      → IsConsistent host.pid r
      → Done host.pid r (removes action) d (act_on host action args s r retval d admin brk)
  unfolding act_on change_info
  act_on-Done get r admin brk c =
      answered get r _ admin c (assign_info-SameIds r admin.type admin.key brk) _
  act_on-Done remove r admin brk c =
      answered remove r _ admin c (assign_info-SameIds r admin.type admin.key brk) _
  act_on-Done update r admin brk c =
      let same = assign_info-SameIds r admin.type admin.key (update_info args brk).0 in
      elim (Option-cases (update_info args brk).1) [
        | inr (e, h) ↦ rw (h, act_on) (Leaves-refl host.pid r _ d c same)
        | inl h ↦ rw (h, act_on) (answered update r _ admin c same _)
      ]

  act_on_null-Done :
      (action : Action) (r : Registry)
      → IsConsistent host.pid r
      → Done host.pid r (removes action) d (act_on_null action args s r retval)
  unfolding act_on_null
  act_on_null-Done get r c = tt
  act_on_null-Done remove r c = tt
  act_on_null-Done update r c = elim (Option-cases (null_error args)) [
    | inl h ↦ rw (h, act_on_null) tt
    | inr (e, h) ↦
        rw (h, act_on_null) (Leaves-refl host.pid r r d c (record { count = refl; list = refl }))
  ]

  no_such-Done :
      (action : Action) (r : Registry)
      → IsConsistent host.pid r
      → breakpoint_admin_fetch r d ≡ none
      → Leaves host.pid r (removes action) d r
  no_such-Done remove r c h = Leaves-absent host.pid r d c h
  no_such-Done get r c h = Leaves-refl host.pid r r d c (record { count = refl; list = refl })
  no_such-Done update r c h = Leaves-refl host.pid r r d c (record { count = refl; list = refl })

  do_action-Done :
      (action : Action) (r : Registry)
      → IsConsistent host.pid r
      → option args b'd' ≡ some d
      → Done host.pid r (removes action) d (breakpoint_do_action host action args s r retval)
  unfolding breakpoint_do_action
  do_action-Done action r c given = elim (Option-cases (breakpoint_admin_fetch r d)) [
    | inl h ↦ rw (given, breakpoint_do_action) (rw h (no_such-Done action r c h))
    | inr (admin, h) ↦ elim (Option-cases (breakpoint_brk_info_fetch r admin.type admin.key)) [
      | inl n ↦ rw (given, breakpoint_do_action) (rw h (rw n (act_on_null-Done action r c)))
      | inr (brk, n) ↦
          rw (given, breakpoint_do_action) (rw h (rw n (act_on-Done action r admin brk c)))
    ]
  ]

  -- After breakpoint_remove the id that was given finds nothing, and after breakpoint_get and
  -- breakpoint_update it finds what it found before; every other id finds what it found before. The
  -- registry is consistent and stays so, and the handler returns: it does not read through NULL.
  pub do_action-fetch :
      (action : Action) (r r' : Registry) (reply : Node)
      → IsConsistent host.pid r
      → option args b'd' ≡ some d
      → breakpoint_do_action host action args s r retval ≡ some (r', reply)
      → IsConsistent host.pid r'
        × ((k : Bytes)
            → breakpoint_admin_fetch r' k ≡ (
                if removes action
                then (if equal k d then none else breakpoint_admin_fetch r k)
                else breakpoint_admin_fetch r k))
  do_action-fetch action r r' reply c given h =
      let done =
        subst (λ x. Done host.pid r (removes action) d x) h (do_action-Done action r c given) in
      (done.consistent, done.fetched)

no_id :
    (host : Host) (action : Action) (args : Args) (s : Session) (r r' : Registry)
    (retval reply : Node)
    → option args b'd' ≡ none
    → breakpoint_do_action host action args s r retval ≡ some (r', reply)
    → r ≡ r'
unfolding breakpoint_do_action
no_id host action args s r r' retval reply n h = ground arith

-- The registries that any sequence of the commands on breakpoints leads to, from one in which no
-- breakpoint was set yet. The next id of a set is below 2 ^ 31.
pub data Reached (pid : ℕ) : Registry → Type 0 where
  initial :
      {r : Registry}
      → (slots : ℕ) → 0 < slots
      → r.breakpoint_list ≡ Hash.alloc slots true
      → r.line_breakpoints ≡ []
      → r.store ≡ []
      → Reached pid r
  after_set :
      {r : Registry}
      → Reached pid r
      → Bounded pid r
      → (host : Host) → (args : Args) → (s : Session) → (frames : List Frame) → (retval : Node)
      → Reached pid (breakpoint_set (record host { pid = pid }) args s r frames retval).registry
  after_action :
      {r r' : Registry}
      → Reached pid r
      → (host : Host) → (action : Action) → (args : Args) → (s : Session) → (retval reply : Node)
      → breakpoint_do_action (record host { pid = pid }) action args s r retval ≡ some (r', reply)
      → Reached pid r'

initial-IsConsistent :
    (pid slots : ℕ) (r : Registry)
    → 0 < slots
    → r.breakpoint_list ≡ Hash.alloc slots true
    → IsConsistent pid r
unfolding breakpoint_admin_fetch
initial-IsConsistent pid slots r h e =
    let nothing : (k : Bytes) (a : BreakpointAdmin) → breakpoint_admin_fetch r k ≡ some a → ⊥ =
      λ k a f. cc (
        find-alloc {V = BreakpointAdmin} slots true (str k),
        ap (λ (t : Hash BreakpointAdmin). Hash.find t (str k)) e,
        f,
      ) in
    record {
      valid = rw e (alloc-IsValid slots true h);
      own = λ k a f. absurd (nothing k a f);
      given = λ k a f. absurd (nothing k a f);
    }

initial-HasGivenIds :
    (pid : ℕ) (r : Registry) → r.line_breakpoints ≡ [] → r.store ≡ [] → HasGivenIds pid r
initial-HasGivenIds pid r l e = record {
  counted = refl;
  lines = subst (All _) (sym l) tt;
  stored = subst (All _) (sym e) tt;
}

-- However breakpoints are set, changed and removed: the table of ids stays valid, each entry stands
-- under its own id, which was given out, and each breakpoint that is listed, as an object, has an id
-- that was given out. The next id of each set is below 2 ^ 31.
pub Reached-IsConsistent :
    {pid : ℕ} {r : Registry} → Reached pid r → IsConsistent pid r × HasGivenIds pid r
Reached-IsConsistent {pid} (initial {r} slots h e l store) =
    (initial-IsConsistent pid slots r h e, initial-HasGivenIds pid r l store)
Reached-IsConsistent {pid} (after_set {r} reached b host args s frames retval) =
    let (c, g) = Reached-IsConsistent reached in
    elim (breakpoint_set-Adds (record host { pid = pid }) r c b args s frames retval) [
      | inl error ↦ rw error.same (c, g)
      | inr done ↦ (
        done.adds.consistent,
        Adds-HasGivenIds (record host { pid = pid }) r g _ done.type done.brk done.adds,
      )
    ]
Reached-IsConsistent {pid} (after_action {r} {r'} reached host action args s retval reply h) =
    let (c, g) = Reached-IsConsistent reached in
    (
      elim (Option-cases (option args b'd')) [
        | inl n ↦ rw (← no_id (record host { pid = pid }) action args s r r' retval reply n h) c
        | inr (d, given) ↦
            (do_action-fetch (record host { pid = pid }) args s retval d action r r' reply c given
              h).0
      ],
      do_action-HasGivenIds (record host { pid = pid }) action args s r r' retval reply g h,
    )
