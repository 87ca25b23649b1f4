-- ===== src/Debugger/Breakpoints/Adding.antt =====
-- How breakpoint_set of src/debugger/handler_dbgp.c adds a breakpoint of each type.
use xdebug.Prelude.{ℕ, ◌≡◌, refl, sym, ◌∙◌, none, some, List, Bytes, arith}
use xdebug.Prelude.Int.{pos, int_of_bits}
use xdebug.CmdParser.{Args}
use xdebug.Hash
use xdebug.Hash.{Hash, str}
use xdebug.Debugger.Types.{
  Breakpoint, BreakpointType, line, conditional, call, return, exception, watch,
}
use xdebug.Debugger.Context.{Frame}
use xdebug.Debugger.Registry.{
  Registry, BreakpointAdmin, breakpoint_admin_add, line_breakpoint_exists,
}
use xdebug.Debugger.Session.{Session, breakpoint_not_set, option}
use xdebug.Debugger.Breakpoints.{Host, Placed, Checked, accepted, refused, line_key}
use xdebug.Debugger.Breakpoints.Set.{
  insert_line, set_line, line_breakpoint, insert_function, set_function, set_exception, set_of_type,
  new_function_key,
}
use xdebug.Debugger.Breakpoints.Consistent.{
  IsConsistent, Registers, Bounded, new_entry, next_id, next_id-small, admin_add-Registers,
  admin_add-IsConsistent, relist-IsConsistent, relist-Registers, relisted-Registers,
}
use xdebug.Debugger.Breakpoints.Placement.{
  InLines, InFunctions, InPlace, IsOf, Allows-bind, line_breakpoint-IsOf, resolve_new-IsSame,
  function_key-looked_up,
}
use xdebug.Debugger.Exclusive.{if-holds}
use xdebug.Debugger.Exclusive.Reached.{case-holds}

-- One breakpoint more, of a type: its entry, with the next id, its object, with the same id and in
-- the place for the type, in a registry that is consistent again.
pub record Adds (pid : ℕ) (type : BreakpointType) (r r' : Registry) (brk : Breakpoint)
    : Type 0 where
  pub entry : BreakpointAdmin
  pub registers : Registers pid r r' entry
  pub consistent : IsConsistent pid r'
  pub typed : entry.type ≡ type
  pub id : brk.id ≡ pos entry.id
  pub placed : InPlace type r r' entry brk

-- An outcome that is accepted adds a breakpoint.
abbrev pub Sets : ℕ → BreakpointType → Registry → Checked Placed → Type 0
Sets pid type r (accepted p) = Adds pid type r p.registry p.brk
Sets pid type r (refused e) = Unit {0}

module _ (host : Host) (r : Registry) (c : IsConsistent host.pid r) (b : Bounded host.pid r) where
  -- the id that the object gets
  fits : int_of_bits (next_id host.pid r) ≡ pos (next_id host.pid r)
  unfolding int_of_bits
  fits = let small = next_id-small host.pid r b in ground (arith, small, b)

  insert_line-Registers :
      (s : Session) (frames : List Frame) (brk : Breakpoint)
      → let p = insert_line host s r frames brk in
        Registers host.pid r p.registry (new_entry host.pid r brk.brk_type (line_key brk))
        × IsConsistent host.pid p.registry
  unfolding insert_line
  insert_line-Registers s frames brk =
      let r' = (breakpoint_admin_add host.pid r brk.brk_type (line_key brk)).0 in
      (
        relist-Registers host.pid _ _ _ _ r r' _
            (admin_add-Registers host.pid r brk.brk_type (line_key brk) c b),
        relist-IsConsistent host.pid _ _ _ _ r'
            (admin_add-IsConsistent host.pid r brk.brk_type (line_key brk) c),
      )

  insert_line-InLines :
      (s : Session) (frames : List Frame) (brk : Breakpoint)
      → let p = insert_line host s r frames brk in
        InLines r p.registry (new_entry host.pid r brk.brk_type (line_key brk)) p.brk
        × (p.brk.id ≡ pos (next_id host.pid r))
  unfolding insert_line breakpoint_admin_add line_key
  insert_line-InLines s frames brk =
      let same = resolve_new-IsSame host s (record brk { id = int_of_bits (next_id host.pid r) }) in
      (
        record {
          key = sym same.key;
          lines = refl;
          functions = refl;
          exceptions = refl;
          store = refl;
        },
        same.id ∙ fits,
      )

  -- the outcome of a type whose breakpoints stand in the list of lines
  set_line-Sets :
      (type : BreakpointType) (args : Args) (s : Session) (frames : List Frame) (brk : Breakpoint)
      → ((a : BreakpointAdmin) (r' : Registry) (b' : Breakpoint)
          → InLines r r' a b'
          → InPlace type r r' a b')
      → IsOf type brk
      → Sets host.pid type r (set_line host args s r frames brk)
  unfolding set_line
  set_line-Sets type args s frames brk place of =
      Allows-bind (IsOf type) (λ p. Adds host.pid type r p.registry p.brk)
        (line_breakpoint host args frames brk) _ (line_breakpoint-IsOf type host args frames brk of)
        (λ b' of'.
          if-holds (Sets host.pid type r) (line_breakpoint_exists host.sort r (line_key b')) _ _ tt
            (record {
              entry = _;
              registers = (insert_line-Registers s frames b').0;
              consistent = (insert_line-Registers s frames b').1;
              typed = of'.brk_type;
              id = (insert_line-InLines s frames b').1;
              placed = place _ _ _ (insert_line-InLines s frames b').0;
            }))

  -- an addition after the tables of pointers have changed
  table-Registers :
      (f e : Hash ℕ) (store : List Breakpoint) (type : BreakpointType) (key : Bytes)
      → let r1 = record r { function_breakpoints = f; exception_breakpoints = e } in
        let r' : Registry = record (breakpoint_admin_add host.pid r1 type key).0 {
          store = store;
        } in
        Registers host.pid r r' (new_entry host.pid r type key) × IsConsistent host.pid r'
  table-Registers f e store type key =
      let r1 = record r { function_breakpoints = f; exception_breakpoints = e } in
      let c1 = relist-IsConsistent host.pid r.line_breakpoints f e r.store r c in
      let r2 = (breakpoint_admin_add host.pid r1 type key).0 in
      (
        relisted-Registers host.pid r.line_breakpoints f e r.store r _ _ (
            relist-Registers host.pid _ _ _ store r1 r2 _
              (admin_add-Registers host.pid r1 type key c1 b)),
        relist-IsConsistent host.pid _ _ _ store r2
            (admin_add-IsConsistent host.pid r1 type key c1),
      )

  set_function-Sets :
      (type : BreakpointType) (args : Args) (frames : List Frame) (brk : Breakpoint)
      → ((a : BreakpointAdmin) (r' : Registry) (b' : Breakpoint)
          → InFunctions r r' a b'
          → InPlace type r r' a b')
      → IsOf type brk
      → Sets host.pid type r (set_function host args r frames brk)
  unfolding set_function insert_function breakpoint_admin_add
  set_function-Sets type args frames brk place of =
      case-holds (Sets host.pid type r) (option args b'm') _ _ tt (λ m.
        let key = new_function_key args brk.function_break_type m in
        elim (Hash.find r.function_breakpoints (str key))
          as (λ x. Sets host.pid type r (elim x [
            | some _ ↦ refused breakpoint_not_set
            | none ↦ accepted (
                insert_function host r frames key
                  (record brk { functionname = some m; classname = option args b'a' }))
          ])) [
            | some _ ↦ tt
            | none ↦
                let both = table-Registers _ _ _ brk.function_break_type key in
                record {
                  entry = _;
                  registers = both.0;
                  consistent = both.1;
                  typed = of.function_break_type;
                  id = fits;
                  placed = place _ _ _ (record {
                    name = m;
                    named = refl;
                    key = function_key-looked_up args brk m;
                    lines = refl;
                    functions = refl;
                    exceptions = refl;
                    store = refl;
                  });
                }
          ])

  set_exception-Sets :
      (args : Args) (frames : List Frame) (brk : Breakpoint)
      → Sets host.pid exception r (set_exception host args r frames brk)
  unfolding set_exception breakpoint_admin_add
  set_exception-Sets args frames brk =
      case-holds (Sets host.pid exception r) (option args b'x') _ _ tt (λ x.
        let both = table-Registers _ _ _ exception x in
        record {
          entry = _;
          registers = both.0;
          consistent = both.1;
          typed = refl;
          id = fits;
          placed = record {
            key = refl;
            lines = refl;
            functions = refl;
            exceptions = refl;
            store = refl;
          };
        })

  pub set_of_type-Sets :
      (type : BreakpointType) (args : Args) (s : Session) (frames : List Frame) (brk : Breakpoint)
      → IsOf type brk
      → Sets host.pid type r (set_of_type type host args s r frames brk)
  unfolding set_of_type
  set_of_type-Sets line args s frames brk of =
      set_line-Sets line args s frames brk (λ a r' b' p. p) of
  set_of_type-Sets conditional args s frames brk of =
      set_line-Sets conditional args s frames brk (λ a r' b' p. p) of
  set_of_type-Sets call args s frames brk of =
      set_function-Sets call args frames brk (λ a r' b' p. p) of
  set_of_type-Sets return args s frames brk of =
      set_function-Sets return args frames brk (λ a r' b' p. p) of
  set_of_type-Sets exception args s frames brk of = set_exception-Sets args frames brk
  set_of_type-Sets watch args s frames brk of = tt
