-- ===== src/Maps/Parser/Lines.antt =====
-- state_file_read_lines: the file, line by line.
use xdebug.Prelude.{
  ℕ, zero, suc, ◌+◌, ◌-◌, Bool, true, false, ◌&&◌, not, none, some, [], ◌∷◌, Bytes, codes, ◌==◌,
  if◌then◌else◌, length, take, drop, get_or,
}
use xdebug.CString.{strchr}
use xdebug.Maps.Parser.State.{
  ErrorCode, Result, ok, fail, empty_line, no_newline, garbage, ◌>>=◌, State,
}
use xdebug.Maps.Parser.Elements.{set_prefix}
use xdebug.Maps.Parser.Rule.{state_add_rule, rule_program}

-- fgets(buffer, n + 1, file): at most `n` bytes, up to a newline and with it; then the bytes left
unfoldable pub fgets : ℕ → Bytes → Bytes × Bytes
fgets zero file = ([], file)
fgets (suc n) [] = ([], [])
fgets (suc n) (c ∷ file) = elim (c == b'\n') [
  | true ↦ (c ∷ [], file)
  | false ↦ (c ∷ (fgets n file).0, (fgets n file).1)
]

-- The buffer as a C string ends at its first NUL.
unfoldable pub c_string : Bytes → Bytes
c_string [] = []
c_string (c ∷ s) = if c == 0 then [] else c ∷ c_string s

-- strncmp(s, prefix, strlen(prefix)) == 0
unfoldable pub starts_with : Bytes → Bytes → Bool
starts_with s [] = true
starts_with [] (p ∷ prefix) = false
starts_with (c ∷ s) (p ∷ prefix) = c == p && starts_with s prefix

abbrev remote_prefix_stanza : Bytes
remote_prefix_stanza = codes "remote_prefix:"

abbrev local_prefix_stanza : Bytes
local_prefix_stanza = codes "local_prefix:"

-- "assignments"
unfoldable pub read_assignment : State → Bytes → Result State
read_assignment state buffer = elim (strchr buffer b'=') [
  | none ↦ fail garbage
  | some equals ↦
      if equals == 0
      then fail garbage
      else state_add_rule state (take equals buffer) (drop (suc equals) buffer)
]

-- the body of the loop, behind the line counter
unfoldable pub read_line : State → Bytes → Result State
read_line state buffer =
    if length buffer == 0
    then fail empty_line
    else if not (get_or buffer (length buffer - 1) 0 == b'\n')
    then fail no_newline
    else if length buffer == 1
    then ok state
    else if starts_with buffer remote_prefix_stanza
    then (set_prefix (drop (length remote_prefix_stanza) buffer) >>= λ p.
        ok (record state { current_remote_prefix = p }))
    else if starts_with buffer local_prefix_stanza
    then (set_prefix (drop (length local_prefix_stanza) buffer) >>= λ p.
        ok (record state { current_local_prefix = p }))
    else if get_or buffer 0 0 == b'#'
    then ok state
    else read_assignment state buffer

-- What reading ends with: the state at the end of the file, or an error code and its line.
pub data Read : Type 0 where
  done : State → Read
  error : ErrorCode → ℕ → Read
  out_of_fuel : Read

-- the loop; `buffer` has 2048 bytes, so that 2047 are read at most
unfoldable pub read_lines : ℕ → State → Bytes → Read
read_lines zero state file = out_of_fuel
read_lines (suc fuel) state [] = done state
read_lines (suc fuel) state (c ∷ file) =
    let line = fgets 2047 (c ∷ file) in
    let next = record state { current_line_no = state.current_line_no + 1 } in
    elim (read_line next (c_string line.0)) [
      | fail code ↦ error code next.current_line_no
      | ok after ↦ read_lines fuel after line.1
    ]

-- every round reads at least one byte
unfoldable pub state_file_read_lines : State → Bytes → Read
state_file_read_lines state file =
    read_lines (length file + 1) (record state { current_line_no = 0 }) file

-- What a run of the function computes with.
unfoldable pub lines_program : Unit {0}
unfolding rule_program fgets c_string starts_with read_assignment read_line read_lines
    state_file_read_lines strchr
lines_program = tt
