-- ===== src/CmdParser.antt =====
-- src/lib/cmd_parser.c: the state machine that reads a DBGp command line.
pub mod RoundTrip
use xdebug.Prelude.{
  ℕ, zero, suc, ◌+◌, ◌-◌, Bool, true, false, ◌&&◌, ◌||◌, not, Option, none, some, List, [], ◌∷◌,
  ◌++◌, Bytes, ltb, ◌==◌, if◌then◌else◌, length, take, drop, set, replicate, get_or,
}
use xdebug.CString.{strchr}
use xdebug.Stripcslashes.{stripcslashes, strip_program}

-- STATE_*
pub data Mode : Type 0 where
  normal quoted opt_follows sep_follows value_follows_first_char value_follows : Mode
  skip_char escaped_char_follows : Mode

-- struct xdebug_dbgp_arg: 26 letters, and `-` at the end
abbrev pub Args : Type 0
Args = List (Option Bytes)

-- The local variables of xdebug_cmd_parse. `value` is the text from `value_begin` up to `ptr`;
-- `charescaped` is never set, and left out.
pub record Parser : Type 0 where
  pub mode : Mode
  pub opt : ℕ
  pub value : Bytes
  pub args : Args

-- XDEBUG_ERROR_OK, XDEBUG_ERROR_PARSE and XDEBUG_ERROR_DUP_ARG, the last two with the arguments
-- read so far
pub data Step (A : Type 0) : Type 0 where
  ok : A → Step A
  parse_error : Args → Step A
  duplicate_opts : Args → Step A

-- `opt_index`
abbrev pub opt_index : ℕ → ℕ
opt_index opt = if opt == b'-' then 26 else opt - b'a'

-- `if (!args->value[opt_index]) … else goto duplicate_opts`
unfoldable pub store : Parser → Bytes → Mode → Step Parser
store p v next = elim (get_or p.args (opt_index p.opt) none) [
  | none ↦ ok (record p { args = set p.args (opt_index p.opt) (some v); mode = next })
  | some _ ↦ duplicate_opts p.args
]

abbrev push : Parser → ℕ → Mode → Parser
push p c m = record p { value = p.value ++ c ∷ []; mode = m }

-- the string of a quoted value: `l` bytes of the buffer that was stripped in place
abbrev strip_value : Bytes → Bytes
strip_value v = take (stripcslashes v).nlen (stripcslashes v).target

-- the switch, at the byte `*ptr`, NUL at the end
unfoldable pub step_in : Mode → Parser → ℕ → Step Parser
step_in normal p c =
    if not (c == b'-') then parse_error p.args else ok (record p { mode = opt_follows })
step_in opt_follows p c =
    if (ltb c b'a' || ltb b'z' c) && not (c == b'-')
    then parse_error p.args
    else ok (record p { opt = c; mode = sep_follows })
step_in sep_follows p c =
    if not (c == b' ')
    then parse_error p.args
    else ok (record p { value = []; mode = value_follows_first_char })
step_in value_follows_first_char p c =
    if c == b'"' && not (p.opt == b'-')
    then ok (record p { value = []; mode = quoted })
    else ok (push p c value_follows)
step_in value_follows p c =
    if (c == b' ' && not (p.opt == b'-')) || c == 0
    then store p p.value normal
    else ok (push p c value_follows)
step_in quoted p c =
    if c == b'\\'
    then ok (push p c escaped_char_follows)
    else if c == b'"'
    then store p (strip_value p.value) skip_char
    else ok (push p c quoted)
step_in skip_char p c = ok (record p { mode = normal })
step_in escaped_char_follows p c = ok (push p c quoted)

-- the do-while loop: the bytes behind the first space, then the NUL
unfoldable pub run : Parser → Bytes → Step Args
run p [] = elim (step_in p.mode p 0) [
  | ok q ↦ ok q.args
  | parse_error args ↦ parse_error args
  | duplicate_opts args ↦ duplicate_opts args
]
run p (c ∷ s) = elim (step_in p.mode p c) [
  | ok q ↦ run q s
  | parse_error args ↦ parse_error args
  | duplicate_opts args ↦ duplicate_opts args
]

abbrev pub no_args : Args
no_args = replicate 27 none

abbrev pub initial : Parser
initial = record { mode = normal; opt = b' '; value = []; args = no_args }

-- xdebug_cmd_parse: `*cmd`, which stays NULL for an empty line, and the outcome
unfoldable pub cmd_parse : Bytes → Option Bytes × Step Args
cmd_parse line = elim (strchr line b' ') [
  | none ↦ if length line == 0 then (none, parse_error no_args) else (some line, ok no_args)
  | some space ↦ (some (take space line), run initial (drop (suc space) line))
]

-- What a run of the parser computes with.
unfoldable pub cmd_program : Unit {0}
unfolding strchr strip_program store step_in run cmd_parse
cmd_program = tt
