-- ===== src/Maps/Parser/Copy.antt =====
-- copy_rule, copy_rule_reverse and xdebug_path_maps_parse_file: the rules of a file are added to
-- the two maps.
use xdebug.Prelude.{
  ℕ, Bool, true, false, Option, none, some, List, [], ◌∷◌, Bytes, if◌then◌else◌, ◌==◌,
}
use xdebug.Hash
use xdebug.Hash.{Hash, Element, str}
use xdebug.Maps.Types.{Kind, unknown, directory, file, lines, Range, PathMapping, path_mapping_ctor}
use xdebug.Maps.Lookup.{PathMaps}
use xdebug.Maps.Parser.State.{
  ErrorCode, cant_open_file, no_rules, duplicate_rules, State, state_ctor,
}
use xdebug.Maps.Parser.Lines.{Read, done, error, out_of_fuel, state_file_read_lines, lines_program}

-- The map that rules are copied to, and `state->copy_error`, which copy_rule and copy_rule_reverse
-- set with PATH_MAPS_DUPLICATE_RULES and the line number of the state.
pub record Copy : Type 0 where
  pub map : Hash PathMapping
  pub copy_error : Bool

-- A rule under a path, unless the path has one already.
unfoldable pub copy_under : Copy → Bytes → PathMapping → Copy
copy_under c path rule = elim (Hash.find c.map (str path)) [
  | some existing ↦ record c { copy_error = true }
  | none ↦ record c { map = Hash.add_or_update c.map (str path) rule }
]

unfoldable pub copy_rule : Copy → Element PathMapping → Copy
copy_rule c e = if c.copy_error then c else copy_under c e.ptr.remote_path e.ptr

-- one turn of the loop over the ranges: the range turned round, with the remote path for its path
unfoldable pub reverse_ranges : Bytes → List Range → List Range
reverse_ranges remote_path [] = []
reverse_ranges remote_path (r ∷ rs) =
    if r.local_skip
    then reverse_ranges remote_path rs
    else record {
      remote_begin = r.remote_begin;
      remote_end = r.remote_end;
      local_skip = r.local_skip;
      local_path = some remote_path;
      local_begin = r.local_begin;
      local_end = r.local_end;
    }
      ∷ reverse_ranges remote_path rs

-- `last_path`: the local path of the last range that is not skipped
unfoldable pub last_path : Option Bytes → List Range → Option Bytes
last_path path [] = path
last_path path (r ∷ rs) = last_path (if r.local_skip then path else r.local_path) rs

-- the case XDEBUG_PATH_MAP_TYPE_LINES, with the reversed ranges and `last_path`. The reverse map is
-- added with no look at what is there.
unfoldable pub copy_lines : Copy → List Range → Option Bytes → Copy
copy_lines c [] path = c
copy_lines c (r ∷ rs) none = c
copy_lines c (r ∷ rs) (some path) = record c {
  map =
      Hash.add_or_update c.map (str path)
        (record (path_mapping_ctor lines) { line_ranges = r ∷ rs });
}

-- the local path of a FILE or DIRECTORY rule without SKIP is there
unfoldable pub copy_local : Copy → Option Bytes → PathMapping → Copy
copy_local c none rule = c
copy_local c (some path) rule = copy_under c path rule

unfoldable pub copy_reverse_switch : Kind → Copy → PathMapping → Copy
copy_reverse_switch file c rule = copy_local c rule.local_path rule
copy_reverse_switch directory c rule = copy_local c rule.local_path rule
copy_reverse_switch lines c rule =
    copy_lines c (reverse_ranges rule.remote_path rule.line_ranges)
      (last_path none rule.line_ranges)
copy_reverse_switch unknown c rule = c

unfoldable pub copy_rule_reverse : Copy → Element PathMapping → Copy
copy_rule_reverse c e =
    if c.copy_error
    then c
    else if e.ptr.type.skip
    then c
    else copy_reverse_switch e.ptr.type.kind c e.ptr

-- What xdebug_path_maps_parse_file returns, with `*error_code` and `*error_line`.
pub data Parsed : Type 0 where
  success : Parsed
  failure : ErrorCode → ℕ → Parsed
  no_fuel : Parsed

-- "copy all rules to remote-to-local map", and "to local-to-remote map"
unfoldable pub remote_copy : PathMaps → State → Copy
remote_copy maps state =
    Hash.apply_with_argument none state.file_rules
      (record { map = maps.remote_to_local_map; copy_error = false }) copy_rule

unfoldable pub local_copy : PathMaps → State → Copy
local_copy maps state =
    Hash.apply_with_argument none state.file_rules
      (record { map = maps.local_to_remote_map; copy_error = false }) copy_rule_reverse

-- from the first "No errors" on; the second copy is made only if the first one went well
unfoldable pub copy_rules : PathMaps → State → PathMaps × Parsed
copy_rules maps state =
    if (remote_copy maps state).copy_error
    then (
      record maps { remote_to_local_map = (remote_copy maps state).map },
      failure duplicate_rules state.current_line_no,
    )
    else (
      record {
        remote_to_local_map = (remote_copy maps state).map;
        local_to_remote_map = (local_copy maps state).map;
      },
      if (local_copy maps state).copy_error
          then failure duplicate_rules state.current_line_no
          else success,
    )

-- behind the reading of the lines
unfoldable pub finish_file : PathMaps → Read → PathMaps × Parsed
finish_file maps out_of_fuel = (maps, no_fuel)
finish_file maps (error code line) = (maps, failure code line)
finish_file maps (done state) =
    if state.file_rules.size == 0
    then (maps, failure no_rules state.current_line_no)
    else copy_rules maps state

-- xdebug_path_maps_parse_file, with the contents of the file, if it can be opened
unfoldable pub parse_file : PathMaps → Bytes → Option Bytes → PathMaps × Parsed
parse_file maps cwd none = (maps, failure cant_open_file 0)
parse_file maps cwd (some contents) =
    finish_file maps (state_file_read_lines (state_ctor cwd) contents)

-- What a run of the function computes with.
unfoldable pub parse_program : Unit {0}
unfolding lines_program state_ctor path_mapping_ctor copy_under copy_rule reverse_ranges last_path
    copy_lines copy_local copy_reverse_switch copy_rule_reverse remote_copy local_copy copy_rules
    finish_file parse_file
parse_program = tt
