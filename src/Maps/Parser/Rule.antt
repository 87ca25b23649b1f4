-- ===== src/Maps/Parser/Rule.antt =====
-- state_add_rule: the rule of one line, checked and added to the rules of the file.
use xdebug.Prelude.{
  Bool, false, ◌&&◌, not, Option, none, some, [], ◌∷◌, ◌++◌, Bytes, equal, if◌then◌else◌, last?,
}
use xdebug.Prelude.Int.{ℤ, ◌+ℤ◌, ◌-ℤ◌, leb_ℤ, eqb_ℤ}
use xdebug.Hash
use xdebug.Hash.{Hash, str}
use xdebug.Maps.Types.{lines, plain, kind_eq, Range, PathMapping, eof}
use xdebug.Maps.Parser.State.{
  Result, ok, fail, mismatched_types, wrong_range, mixing_path_and_lines, ◌>>=◌, State,
}
use xdebug.Maps.Parser.Elements.{
  Element, prepare_remote_element, prepare_local_element, elements_program,
}

-- `remote_type == LINES && begin != end`, for one of the elements
abbrev is_lines : Element → Bool
is_lines e = kind_eq e.type.kind lines

-- `local_end`, after the check of a remote range that ends in EOF
unfoldable pub adjust_local_end : Element → Element → Result ℤ
adjust_local_end remote local =
    if is_lines remote
      && not (eqb_ℤ remote.begin remote.end)
      && eqb_ℤ remote.end eof
      && not (eqb_ℤ local.begin local.end)
    then (if not (eqb_ℤ local.end eof)
        then fail wrong_range
        else ok (local.end +ℤ local.begin -ℤ remote.begin))
    else ok local.end

-- `if (! (local_type & XDEBUG_PATH_MAP_FLAGS_SKIP)) { … }`: the checks of the two elements against
-- each other; the result is the local element with its end adjusted
unfoldable pub check_elements : Element → Element → Result Element
check_elements remote local =
    if local.type.skip
    then ok local
    else if not (kind_eq remote.type.kind local.type.kind)
    then fail mismatched_types
    else adjust_local_end remote local >>= λ local_end.
        if is_lines remote
          && not (eqb_ℤ local.begin local_end)
          && not (eqb_ℤ (remote.end -ℤ remote.begin) (local_end -ℤ local.begin))
        then fail wrong_range
        else ok (record local { end = local_end })

-- xdebug_path_map_range_set
abbrev pub new_range : Element → Element → Range
new_range remote local = record {
  remote_begin = remote.begin;
  remote_end = remote.end;
  local_skip = local.type.skip;
  local_path = local.path;
  local_begin = local.begin;
  local_end = local.end;
}

-- `xdebug_str_is_equal(tail_range->local_path, local_path)`; neither is NULL without SKIP
abbrev pub same_path : Option Bytes → Option Bytes → Bool
same_path (some a) (some b) = equal a b
same_path _ _ = false

-- the three checks of a range against the last one of its mapping
unfoldable pub check_tail : Range → Element → Element → Result (Unit {0})
check_tail tail remote local =
    if not local.type.skip && not tail.local_skip && not (same_path tail.local_path local.path)
    then fail wrong_range
    else if not local.type.skip && leb_ℤ remote.begin tail.remote_end
    then fail wrong_range
    else if not local.type.skip && leb_ℤ local.begin tail.local_end
    then fail wrong_range
    else ok tt

-- `if (xdebug_hash_find(…))`: a further range of a mapping that is there. A LINES mapping has at
-- least one range, so that `none` does not happen.
unfoldable pub extend_rule : PathMapping → Element → Element → Result PathMapping
extend_rule rule remote local =
    if not (kind_eq rule.type.kind lines && not rule.type.skip)
    then fail mixing_path_and_lines
    else elim (last? rule.line_ranges) [
      | none ↦ fail wrong_range
      | some tail ↦ check_tail tail remote local >>= λ _.
          ok (record rule { line_ranges = rule.line_ranges ++ new_range remote local ∷ [] })
    ]

-- `else`: a new mapping
unfoldable pub new_rule : Bytes → Element → Element → PathMapping
new_rule remote_path remote local =
    if is_lines remote
    then record {
      type = plain lines;
      remote_path = remote_path;
      local_path = none;
      line_ranges = new_range remote local ∷ [];
    }
    else record {
      type = record { kind = remote.type.kind; skip = local.type.skip };
      remote_path = remote_path;
      local_path = local.path;
      line_ranges = [];
    }

-- "assign"
unfoldable pub assign_rule :
    Hash PathMapping → Bytes → Element → Element → Result (Hash PathMapping)
assign_rule rules remote_path remote local = elim (Hash.find rules (str remote_path)) [
  | some rule ↦
      extend_rule rule remote local >>= λ longer. ok (Hash.change rules (str remote_path) longer)
  | none ↦ ok (Hash.add_or_update rules (str remote_path) (new_rule remote_path remote local))
]

-- A remote element always has a path.
abbrev pub path_of : Element → Bytes
path_of e = elim e.path [ none ↦ [] | some p ↦ p ]

-- state_add_rule, on the text before and behind the `=`
unfoldable pub state_add_rule : State → Bytes → Bytes → Result State
state_add_rule state before behind = prepare_remote_element state before >>= λ remote.
    prepare_local_element state behind >>= λ local. check_elements remote local >>= λ checked.
    assign_rule state.file_rules (path_of remote) remote checked >>= λ rules.
    ok (record state { file_rules = rules })

-- What a run of the function computes with.
unfoldable pub rule_program : Unit {0}
unfolding Hash.hash_program elements_program adjust_local_end check_elements check_tail extend_rule
    new_rule assign_rule state_add_rule ◌+ℤ◌ ◌-ℤ◌
rule_program = tt
