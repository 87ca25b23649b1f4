-- ===== src/Debugger/Breakpoints/Handlers.antt =====
-- What breakpoint_set of src/debugger/handler_dbgp.c does to the registry, and what it answers.
use xdebug.Prelude.{
  ◌≡◌, refl, ap, ◌∙◌, some, List, ◌⊎◌, inl, inr, Bytes, codes, Option-cases, arith,
}
use xdebug.Prelude.Decimal.{decimal}
use xdebug.CmdParser.{Args}
use xdebug.Xml.Build.{Node, add_attribute}
use xdebug.Debugger.Types.{Breakpoint, BreakpointType}
use xdebug.Debugger.Context.{Frame, to_unsigned}
use xdebug.Debugger.Registry.{Registry}
use xdebug.Debugger.Session.{Session, ErrorCode, invalid_args, return_result, option}
use xdebug.Debugger.Breakpoints.{
  Host, Placed, Checked, accepted, refused, ◌>>=◌, type_of_name, set_state, set_hits, set_temporary,
  brk_info_ctor, add_resolved,
}
use xdebug.Debugger.Breakpoints.Set.{
  breakpoint_set, Replied, set_of_type, set_typed, reply_set, reply_state,
}
use xdebug.Debugger.Breakpoints.Consistent.{IsConsistent, Bounded}
use xdebug.Debugger.Breakpoints.Placement.{
  IsOf, Allows, Allows-bind, set_state-IsOf, set_hits-IsOf, set_temporary-IsOf,
}
use xdebug.Debugger.Breakpoints.Adding.{Adds, Sets, set_of_type-Sets}

-- The handler refused: the reply is that of an error, and the registry is as it was.
pub record IsError (host : Host) (r : Registry) (s : Session) (a : Replied) : Type 0 where
  pub same : a.registry ≡ r
  pub e : ErrorCode
  pub retval : Node
  pub reply : a.reply ≡ return_result s e retval

-- The handler set a breakpoint of the type that `-t` names, and replies with its id.
pub record IsPlaced (host : Host) (r : Registry) (args : Args) (s : Session) (retval : Node)
    (a : Replied) : Type 0 where
  pub name : Bytes
  pub asked : option args b't' ≡ some name
  pub type : BreakpointType
  pub named : type_of_name name ≡ some type
  pub brk : Breakpoint
  pub adds : Adds host.pid type r a.registry brk
  pub reply :
      a.reply
      ≡ add_resolved s brk
          (add_attribute (reply_state args retval) (codes "id") (decimal adds.entry.id))

module _ (host : Host) (r : Registry) (c : IsConsistent host.pid r) (b : Bounded host.pid r) where
  reply_set-id :
      (type : BreakpointType) (r' : Registry) (brk : Breakpoint)
      (adds : Adds host.pid type r r' brk)
      → to_unsigned brk.id ≡ adds.entry.id
  unfolding to_unsigned
  reply_set-id type r' brk adds =
      ap to_unsigned adds.id ∙ (let small = adds.registers.next_id in omega (arith, small, b))

  reply_set-IsPlaced :
      (args : Args) (s : Session) (frames : List Frame) (retval : Node) (name : Bytes)
      (type : BreakpointType)
      → option args b't' ≡ some name
      → type_of_name name ≡ some type
      → (x : Checked Placed) → Sets host.pid type r x
      → let a = reply_set s r frames (reply_state args retval) x in
        IsError host r s a ⊎ IsPlaced host r args s retval a
  unfolding reply_set
  reply_set-IsPlaced args s frames retval name type asked named (refused e) h =
      inl (record { same = refl; e = e; retval = _; reply = refl })
  reply_set-IsPlaced args s frames retval name type asked named (accepted p) h = inr (record {
    name = name;
    asked = asked;
    type = type;
    named = named;
    brk = p.brk;
    adds = h;
    reply =
        ap
          (λ id.
            add_resolved s p.brk
              (add_attribute (reply_state args retval) (codes "id") (decimal id)))
          (reply_set-id type p.registry p.brk h);
  })

  -- what the handler leaves behind
  abbrev Outcome : Args → Session → Node → Replied → Type 0
  Outcome args s retval a = IsError host r s a ⊎ IsPlaced host r args s retval a

  refused-Outcome :
      (args : Args) (s : Session) (frames : List Frame) (retval : Node) (e : ErrorCode)
      → Outcome args s retval (reply_set s r frames retval (refused e))
  unfolding reply_set
  refused-Outcome args s frames retval e =
      inl (record { same = refl; e = e; retval = retval; reply = refl })

  set_typed-Outcome :
      (args : Args) (s : Session) (frames : List Frame) (retval : Node) (name : Bytes)
      (type : BreakpointType)
      → option args b't' ≡ some name
      → type_of_name name ≡ some type
      → Outcome args s retval (set_typed host args s r frames retval type)
  unfolding set_typed brk_info_ctor
  set_typed-Outcome args s frames retval name type asked named =
      let new : IsOf type (brk_info_ctor type) = record {
        brk_type = refl;
        function_break_type = refl;
      } in
      elim (set_state args (brk_info_ctor type))
          as (λ x. Allows (IsOf type) x → Outcome args s retval (replied x)) [
            | refused e ↦ λ u. refused-Outcome args s frames retval e
            | accepted brk ↦ λ of. reply_set-IsPlaced args s frames retval name type asked named _ (
                Allows-bind (IsOf type) (λ p. Adds host.pid type r p.registry p.brk)
                  (set_hits args brk) _ (set_hits-IsOf type args brk of)
                  (λ b' of'.
                    set_of_type-Sets host r c b type args s frames (set_temporary args b')
                      (set_temporary-IsOf type args b' of')))
          ]
        (set_state-IsOf type args (brk_info_ctor type) new)
    where
      replied : Checked Breakpoint → Replied
      replied (refused e) = reply_set s r frames retval (refused e)
      replied (accepted brk) =
          reply_set s r frames (reply_state args retval) (
            set_hits args brk >>= λ b. set_of_type type host args s r frames (set_temporary args b))

  -- breakpoint_set replies with an error and leaves the registry as it was, or it sets one
  -- breakpoint of the type that `-t` names. Then the next id, under which nothing was found before,
  -- gets an entry of that type, and every other id finds what it found before; the object of the
  -- breakpoint has that id, and stands where the entry's type and key say: a line breakpoint at the
  -- end of the list, under its file and line, a function breakpoint in the table of functions,
  -- under the key that the debugger looks up at a call or return, an exception breakpoint in the
  -- table of exceptions; the other lists are as they were. The reply has the id. The registry is
  -- consistent and stays so, and the next id is below 2 ^ 31.
  pub breakpoint_set-Adds :
      (args : Args) (s : Session) (frames : List Frame) (retval : Node)
      → let a = breakpoint_set host args s r frames retval in
        IsError host r s a ⊎ IsPlaced host r args s retval a
  unfolding breakpoint_set
  breakpoint_set-Adds args s frames retval = elim (Option-cases (option args b't')) [
    | inl e ↦ rw (e, breakpoint_set) (refused-Outcome args s frames retval invalid_args)
    | inr (t, e) ↦ elim (Option-cases (type_of_name t)) [
      | inl n ↦ rw (e, breakpoint_set) (rw n (refused-Outcome args s frames retval invalid_args))
      | inr (type, n) ↦
          rw (e, breakpoint_set) (rw n (set_typed-Outcome args s frames retval t type e n))
    ]
  ]
