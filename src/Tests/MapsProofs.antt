-- ===== src/Tests/MapsProofs.antt =====
-- The theorems on the path mapping at concrete ranges, rules and files.
use xdebug.Prelude.{◌≡◌, ◌≢◌, refl, Bytes, codes, some, false, true, List, [], ◌∷◌, arith, All, ℕ}
use xdebug.Prelude.Int.{pos, to_size}
use xdebug.Trim.{skip_space}
use xdebug.Hash
use xdebug.Hash.{Hash, Key, str, elements, hash_program}
use xdebug.Hash.Valid.{IsValid, alloc-IsValid, add_or_update-IsValid}
use xdebug.Maps.Types.{plain, lines, Range, PathMapping, file, path_mapping_ctor}
use xdebug.Maps.Ranges.{forward, reverse, find_local_line, find_remote_line}
use xdebug.Maps.Ranges.Order.{first_match}
use xdebug.Maps.Ranges.Search.{find_local_line-first_match, find_remote_line-first_match}
use xdebug.Maps.Lookup.{PathMaps, path_maps_ctor, directories, remote_directory}
use xdebug.Maps.Lookup.Directories.{longest_directory, directories-longest}
use xdebug.Maps.Parser.State.{no_rules, duplicate_rules, State, state_ctor}
use xdebug.Maps.Parser.Elements.{Element}
use xdebug.Maps.Parser.Ordered.{IsSearchable, extend_rule-IsSearchable}
use xdebug.Maps.Parser.LineRange.{range_program}
use xdebug.Maps.Parser.LineRange.Bounds.{Bounded, extract_line_range-Bounded}
use xdebug.Maps.Parser.Lines.{state_file_read_lines, out_of_fuel}
use xdebug.Maps.Parser.Reading.{state_file_read_lines_ends}
use xdebug.Maps.Parser.Copy.{parse_file, parse_program, failure, copy_rules}
use xdebug.Maps.Parser.Copying.{
  copy_rules-find, copy_rules-keeps, copy_rules_partial, parse_file_unchanged,
}

abbrev range_at : ℕ → ℕ → ℕ → ℕ → Range
range_at a b c d = record {
  remote_begin = pos a;
  remote_end = pos b;
  local_skip = false;
  local_path = some (codes "/l.php");
  local_begin = pos c;
  local_end = pos d;
}

abbrev three_ranges : List Range
three_ranges = range_at 1 5 11 15 ∷ range_at 7 7 20 20 ∷ range_at 9 12 30 33 ∷ []

find_local_line-first_match_example :
    find_local_line 10 three_ranges ≡ first_match forward three_ranges 10
find_local_line-first_match_example = find_local_line-first_match three_ranges 10 (
    unfold to_size in
    (omega arith, omega arith, (omega arith, omega arith, (omega arith, omega arith, tt))))

find_remote_line-first_match_example :
    find_remote_line 31 three_ranges ≡ first_match reverse three_ranges 31
find_remote_line-first_match_example = find_remote_line-first_match three_ranges 31 (
    unfold to_size in
    (omega arith, omega arith, (omega arith, omega arith, (omega arith, omega arith, tt))))

extract_line_range-Bounded_example :
    Bounded (codes "/a.php:5-17") (record { element_length = 6; begin = pos 5; end = pos 17 })
extract_line_range-Bounded_example =
    extract_line_range-Bounded (codes "/a.php:5-17") _ (unfold range_program skip_space in refl)

state_file_read_lines_ends_example :
    state_file_read_lines (state_ctor (codes "/cwd")) (codes "/a.php = /b.php\n") ≢ out_of_fuel
state_file_read_lines_ends_example =
    state_file_read_lines_ends (state_ctor (codes "/cwd")) (codes "/a.php = /b.php\n")

parse_file_unchanged_example :
    (parse_file path_maps_ctor (codes "/cwd") (some (codes "# nothing\n"))).0 ≡ path_maps_ctor
parse_file_unchanged_example =
    parse_file_unchanged path_maps_ctor (codes "/cwd") (some (codes "# nothing\n")) no_rules 1
      (unfold parse_program in refl) (λ h. cc)

abbrev a_rule : PathMapping
a_rule = record (path_mapping_ctor file) {
  remote_path = codes "/a";
  local_path = some (codes "/b");
}

abbrev a_state : State
a_state = record (state_ctor (codes "/cwd")) {
  file_rules = Hash.add_or_update (Hash.alloc 1 true) (str (codes "/a")) a_rule;
}

-- maps of one slot: a rule for another file, in the map from remote files only, and in both
abbrev a_map : Bytes → Hash PathMapping
a_map key = Hash.add_or_update (Hash.alloc 1 true) (str key) a_rule

a_map-IsValid : (key : Bytes) → IsValid (a_map key)
a_map-IsValid key =
    add_or_update-IsValid (Hash.alloc 1 true) (alloc-IsValid 1 true (omega arith)) (str key) a_rule

abbrev some_maps : PathMaps
some_maps = record {
  remote_to_local_map = a_map (codes "/x");
  local_to_remote_map = a_map (codes "/y");
}

abbrev taken_maps : PathMaps
taken_maps = record {
  remote_to_local_map = a_map (codes "/x");
  local_to_remote_map = a_map (codes "/b");
}

copy_rules-keeps_example :
    Hash.find (copy_rules some_maps a_state).0.remote_to_local_map (str (codes "/x")) ≡ some a_rule
copy_rules-keeps_example =
    copy_rules-keeps some_maps a_state (a_map-IsValid (codes "/x")) (str (codes "/x")) a_rule
      (unfold parse_program in refl)

copy_rules-find_example :
    All
      (λ e.
        Hash.find (copy_rules some_maps a_state).0.remote_to_local_map (str e.ptr.remote_path)
        ≡ some e.ptr)
      (elements a_state.file_rules.table)
copy_rules-find_example =
    copy_rules-find some_maps a_state (a_map-IsValid (codes "/x")) (unfold parse_program in refl)

copy_rules_partial_example :
    ((copy_rules taken_maps a_state).1 ≡ failure duplicate_rules a_state.current_line_no)
    × All
        (λ e.
          Hash.find (copy_rules taken_maps a_state).0.remote_to_local_map (str e.ptr.remote_path)
          ≡ some e.ptr)
        (elements a_state.file_rules.table)
copy_rules_partial_example =
    copy_rules_partial taken_maps a_state (a_map-IsValid (codes "/x"))
      (unfold parse_program in refl) (unfold parse_program in refl)

directories-longest_example :
    directories (a_map (codes "/a/")) (remote_directory (codes "/a/b/c") 3) (codes "/a/b/c")
    ≡ longest_directory
        (a_map (codes "/a/"))
        (remote_directory (codes "/a/b/c") 3)
        (codes "/a/b/c")
        6
directories-longest_example =
    directories-longest (a_map (codes "/a/")) (remote_directory (codes "/a/b/c") 3) (codes "/a/b/c")

-- a mapping of lines 1 to 5, and the elements of `/a:7 = /l.php:20`
abbrev lines_rule : PathMapping
lines_rule = record (path_mapping_ctor lines) {
  remote_path = codes "/a";
  line_ranges = range_at 1 5 11 15 ∷ [];
}

abbrev element_at : Bytes → ℕ → Element
element_at path line = record {
  path = some path;
  type = plain lines;
  begin = pos line;
  end = pos line;
}

abbrev longer_rule : PathMapping
longer_rule = record lines_rule { line_ranges = range_at 1 5 11 15 ∷ range_at 7 7 20 20 ∷ [] }

extend_rule-IsSearchable_example : IsSearchable longer_rule
extend_rule-IsSearchable_example =
    extend_rule-IsSearchable lines_rule (element_at (codes "/a") 7) (element_at (codes "/l.php") 20)
      (unfold path_mapping_ctor to_size in
        (
          (omega arith, omega arith, tt),
          (
            record {
              first = 1;
              last = 5;
              begins = refl;
              ends = refl;
              upward = omega arith;
              small = omega arith;
            },
            tt,
          ),
        ))
      (record {
        first = 7;
        last = 7;
        begins = refl;
        ends = refl;
        upward = omega arith;
        small = omega arith;
      })
      refl longer_rule (unfold parse_program in refl)
