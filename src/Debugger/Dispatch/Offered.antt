-- ===== src/Debugger/Dispatch/Offered.antt =====
-- Which commands the dispatcher of src/debugger/handler_dbgp.c carries out, by their names.
use xdebug.Prelude.{
  ◌≡◌, refl, sym, ap, ◌∙◌, Bool, true, false, ◌||◌, ◌&&◌, not, ◌⊎◌, inl, inr, Bool-cases, Option,
  Option-cases, none, some, List, [], ◌∷◌, Bytes, codes, equal, equal_iff, if◌then◌else◌, ◌==◌,
  arith,
}
use mathlib.Core.Path.{subst}
use xdebug.Prelude.Int.{negsuc}
use xdebug.CmdParser as Parser
use xdebug.CmdParser.{Args, cmd_parse}
use xdebug.Xml.Build.{Node, add_child}
use xdebug.Debugger.Context.{Status}
use xdebug.Debugger.Session.{
  Session, option, error_node, unimplemented, command_unavailable, ErrorCode,
}
use xdebug.Debugger.Dispatch.{
  Cmd, Handlers, Answer, args_of, error_of, add_command, add_transaction, with_transaction, execute,
  is_stopping, run_command, find_command, note_command, answer, parse_option, lookup_cmd,
  dbgp_commands, dispatch_program,
}

unfoldable pub one_of : List Bytes → Bytes → Bool
one_of [] cmd = false
one_of (name ∷ names) cmd = equal name cmd || one_of names cmd

-- the commands that are carried out in every state
abbrev pub always : List Bytes
always =
    codes "breakpoint_list"
    ∷ codes "context_names"
    ∷ codes "feature_get"
    ∷ codes "typemap_get"
    ∷ codes "status"
    ∷ codes "xcmd_profiler_name_get"
    ∷ codes "stop"
    ∷ codes "detach"
    ∷ []

-- the commands that let the program go on
abbrev pub going_on : List Bytes
going_on = codes "run" ∷ codes "step_into" ∷ codes "step_out" ∷ codes "step_over" ∷ []

-- the commands about a program that is under way
abbrev pub live : List Bytes
live =
    codes "breakpoint_get"
    ∷ codes "breakpoint_remove"
    ∷ codes "breakpoint_set"
    ∷ codes "breakpoint_update"
    ∷ codes "context_get"
    ∷ codes "eval"
    ∷ codes "feature_set"
    ∷ codes "property_get"
    ∷ codes "property_set"
    ∷ codes "property_value"
    ∷ codes "source"
    ∷ codes "stack_depth"
    ∷ codes "stack_get"
    ∷ codes "stderr"
    ∷ codes "stdout"
    ∷ codes "xcmd_get_executable_lines"
    ∷ []

-- the commands that are carried out in a state
abbrev pub is_offered : Status → Bytes → Bool
is_offered status cmd =
    one_of always cmd || one_of going_on cmd || (not (is_stopping status) && one_of live cmd)

-- the commands of a table, told apart by what decides whether they are carried out
unfoldable agrees : Cmd → Bool
agrees c =
    if c.cont == 0
    then (if c.post_mortem
        then one_of always c.name
        else not (one_of always c.name) && not (one_of going_on c.name) && one_of live c.name)
    else one_of always c.name || one_of going_on c.name

unfoldable all_agree : List Cmd → Bool
all_agree [] = true
all_agree (c ∷ commands) = agrees c && all_agree commands

unfoldable all_found : List Bytes → Bool
all_found [] = true
all_found (name ∷ names) =
    elim (lookup_cmd dbgp_commands name) [ some _ ↦ true | none ↦ false ] && all_found names

table_agrees : all_agree dbgp_commands ≡ true
unfolding all_agree agrees one_of dispatch_program
table_agrees = refl

names_found : (all_found always ≡ true) × (all_found going_on ≡ true) × (all_found live ≡ true)
unfolding all_found dispatch_program
names_found = (refl, refl, refl)

lookup-agrees :
    (commands : List Cmd) (cmd : Bytes) (c : Cmd)
    → all_agree commands ≡ true
    → lookup_cmd commands cmd ≡ some c
    → (agrees c ≡ true) × (c.name ≡ cmd)
unfolding all_agree lookup_cmd
lookup-agrees [] cmd c a l = ground (arith, l)
lookup-agrees (d ∷ commands) cmd c a l = elim (Bool-cases (equal d.name cmd)) [
  | inl e ↦
      let same : d ≡ c = ground (arith, e, l) in
      (
        subst (λ x. agrees x ≡ true) same (ground (arith, a)),
        subst (λ (x : Cmd). x.name ≡ cmd) same ((equal_iff d.name cmd).0 e),
      )
  | inr e ↦ lookup-agrees commands cmd c (ground (arith, a)) (ground (arith, e, l))
]

one_of-found :
    (names : List Bytes) (cmd : Bytes)
    → all_found names ≡ true
    → one_of names cmd ≡ true
    → (c : Cmd) × (lookup_cmd dbgp_commands cmd ≡ some c)
unfolding all_found one_of
one_of-found [] cmd f o = ground (arith, o)
one_of-found (name ∷ names) cmd f o = elim (Bool-cases (equal name cmd)) [
  | inl e ↦ elim (Option-cases (lookup_cmd dbgp_commands name)) [
    | inl n ↦ ground (arith, f, n)
    | inr (c, l) ↦ (c, rw (sym ((equal_iff name cmd).0 e)) l)
  ]
  | inr e ↦ one_of-found names cmd (ground (arith, f)) (ground (arith, o, e))
]

carried-offered :
    (c : Cmd) (i : Option Bytes) (s : Session)
    → agrees c ≡ true
    → let status = (note_command c i s).status in
      (not (is_stopping status) || (is_stopping status && c.post_mortem))
      ≡ is_offered s.status c.name
unfolding agrees note_command is_stopping
carried-offered c i s a = elim (Bool-cases (c.cont == 0)) [
  | inl z ↦ elim (Bool-cases c.post_mortem) [
    | inl p ↦ rw (z, p) (ground (arith, a, z, p))
    | inr p ↦ rw (z, p) (ground (arith, a, z, p))
  ]
  | inr z ↦ rw z (ground (arith, a, z))
]

-- The handler of a command was called, for a session that has noted the transaction id.
pub record IsCarriedOut {W : Type 0} (h : Handlers W) (cmd i : Bytes) (args : Args) (w : W)
    (n : Node) (a : Answer W) : Type 0 where
  pub noted : Session
  pub transaction : noted.lasttransid ≡ some i
  pub done : (a.session, a.world, a.retval) ≡ h.handler cmd args noted w n

-- The reply has an error. Of the session at most the last command and its transaction id are noted,
-- and the rest of the state is as it was. The loop over commands ends.
pub record IsRefused {W : Type 0} (s : Session) (w : W) (n : Node) (a : Answer W) : Type 0 where
  pub e : ErrorCode
  pub session :
      a.session ≡ record s { lastcmd = a.session.lastcmd; lasttransid = a.session.lasttransid }
  pub same : a.world ≡ w
  pub told : a.retval ≡ add_child n (error_node e)
  pub ends : a.ret ≡ negsuc 0

noted_transaction :
    (c : Cmd) (i : Option Bytes) (s : Session) → (note_command c i s).lasttransid ≡ i
unfolding note_command
noted_transaction c i s = elim (Bool-cases (c.cont == 0)) [ inl z ↦ rw z refl | inr z ↦ rw z refl ]

one_of-missing :
    (names : List Bytes) (cmd : Bytes)
    → all_found names ≡ true
    → lookup_cmd dbgp_commands cmd ≡ none
    → one_of names cmd ≡ false
one_of-missing names cmd f l = elim (Bool-cases (one_of names cmd)) [
  | inl o ↦ let (c, found) = one_of-found names cmd f o in ground (arith, l, found)
  | inr o ↦ o
]

-- A command that is refused leaves the status as it is.
note_command-session :
    (c : Cmd) (i : Option Bytes) (s : Session)
    → let noted = note_command c i s in
      (not (is_stopping noted.status) || (is_stopping noted.status && c.post_mortem)) ≡ false
      → noted ≡ record s { lastcmd = noted.lastcmd; lasttransid = noted.lasttransid }
unfolding note_command is_stopping
note_command-session c i s f = elim (Bool-cases (c.cont == 0)) [
  | inl z ↦ rw z refl
  | inr z ↦ ground (arith, z, f)
]

not_offered :
    (status : Status) (cmd : Bytes)
    → lookup_cmd dbgp_commands cmd ≡ none
    → is_offered status cmd ≡ false
not_offered status cmd l =
    rw
      (
        one_of-missing always cmd names_found.0 l,
        one_of-missing going_on cmd names_found.1 l,
        one_of-missing live cmd names_found.2 l,
      )
      (ground arith)

module _ {W : Type 0} (h : Handlers W) (cmd i : Bytes) (args : Args) (s : Session) (w : W)
    (n : Node) where
  abbrev pub Settled : Answer W → Type 0
  Settled a =
      ((is_offered s.status cmd ≡ true) × IsCarriedOut h cmd i args w n a)
      ⊎ ((is_offered s.status cmd ≡ false) × IsRefused s w n a)

  execute-Settled :
      (c : Cmd)
      → c.name ≡ cmd
      → agrees c ≡ true
      → Settled (execute h c args (note_command c (some i) s) w n)
  unfolding execute
  execute-Settled c e a =
      let status = (note_command c (some i) s).status in
      let same = carried-offered c (some i) s a ∙ ap (is_offered s.status) e in
      elim (Bool-cases (not (is_stopping status) || (is_stopping status && c.post_mortem))) [
        | inl t ↦ inl (
          sym same ∙ t,
          record {
            noted = note_command c (some i) s;
            transaction = noted_transaction c (some i) s;
            done = rw (t, e) refl;
          },
        )
        | inr f ↦ inr (
          sym same ∙ f,
          record {
            e = command_unavailable;
            session = rw f (note_command-session c (some i) s f);
            same = rw f refl;
            told = rw f refl;
            ends = rw f refl;
          },
        )
      ]

  run_command-Settled :
      option args b'i' ≡ some i → Settled (run_command h (lookup_cmd dbgp_commands cmd) args s w n)
  unfolding run_command
  run_command-Settled given = elim (Option-cases (lookup_cmd dbgp_commands cmd)) [
    | inl l ↦ rw l (
        inr (
          not_offered s.status cmd l,
          record { e = unimplemented; session = refl; same = refl; told = refl; ends = refl },
        ))
    | inr (c, l) ↦
        let (a, e) = lookup-agrees dbgp_commands cmd c table_agrees l in
        rw (l, given) (execute-Settled c e a)
  ]

-- For every line that can be parsed and has a transaction id: a command whose name is offered in the
-- state at hand is carried out by its handler, for the node with the command and the transaction
-- id; any other is refused, with an error in the reply: at most the last command and its
-- transaction id are noted of it, and the status, the features and the rest of the state stay. To
-- be refused ends the loop over commands. The commands that let the program go on are offered in
-- every state, also in `stopping`.
pub parse_option-is_offered :
    {W : Type 0} (h : Handlers W) (line cmd i : Bytes) (args : Args) (s : Session) (w : W)
    (retval : Node)
    → cmd_parse line ≡ (some cmd, Parser.ok args)
    → option args b'i' ≡ some i
    → Settled h cmd i args s w
        (add_transaction (some i) (add_command (some cmd) retval))
        (parse_option h line s w retval)
unfolding parse_option answer with_transaction args_of error_of find_command
parse_option-is_offered h line cmd i args s w retval p given =
    rw (parse_option, p, given) (run_command-Settled h cmd i args s w _ given)
