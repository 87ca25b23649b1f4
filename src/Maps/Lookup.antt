-- ===== src/Maps/Lookup.antt =====
-- `remote_to_local` and `local_to_remote` of src/lib/maps/maps_private.c: the mapping of a path
-- and a line by the rule of that path, or of the longest directory above it that has a rule.
pub mod Directories
use xdebug.Prelude.{
  ℕ, zero, suc, ◌+◌, ◌-◌, Bool, true, false, Option, none, some, List, [], ◌∷◌, ◌++◌, Bytes, length,
  take, drop, if◌then◌else◌, ◌&&◌, not,
}
use xdebug.Prelude.Int.{to_size}
use xdebug.CString.{strrchr, strrnchr}
use xdebug.Hash
use xdebug.Hash.{Hash, Key, str}
use xdebug.Maps.Types.{Kind, unknown, directory, file, lines, MapType, kind_eq, PathMapping, Range}
use xdebug.Maps.Ranges.{Found, hit, miss, find_local_line, find_remote_line, match_line, fault}

-- struct xdebug_path_maps
pub record PathMaps : Type 0 where
  pub remote_to_local_map : Hash PathMapping
  pub local_to_remote_map : Hash PathMapping

-- xdebug_path_maps_ctor
unfoldable pub path_maps_ctor : PathMaps
path_maps_ctor = record {
  remote_to_local_map = Hash.alloc 128 true;
  local_to_remote_map = Hash.alloc 128 true;
}

-- What the functions return, with `*local_path` and `*local_line` where they set them:
-- XDEBUG_PATH_MAP_TYPE_UNKNOWN, XDEBUG_PATH_MAP_FLAGS_SKIP (path NULL, line -1), or the type of the
-- rule. `undefined` is a NULL that is dereferenced, an assertion that fails, or a loop out of fuel.
pub data Mapped : Type 0 where
  no_rule : Mapped
  skipped : Mapped
  mapped : Kind → Bytes → ℕ → Mapped
  undefined : Mapped

abbrev slash : ℕ
slash = b'/'

-- The answer of a rule whose path must be there.
abbrev answer : Kind → Option Bytes → ℕ → Mapped
answer k none line = undefined
answer k (some path) line = mapped k path line

-- the body of the `if (xdebug_hash_find(map, directory, n, …))`, in either direction: `none` goes
-- on with the next directory
pub remote_directory : Bytes → ℕ → ℕ → PathMapping → Option Mapped
remote_directory remote_path line n rule =
    if rule.type.skip
    then some skipped
    else if kind_eq rule.type.kind directory
    then some (elim rule.local_path [
      | none ↦ undefined
      | some local ↦ mapped directory (local ++ drop n remote_path) line
    ])
    else none

pub local_directory : Bytes → ℕ → ℕ → PathMapping → Option Mapped
local_directory local_path line n rule =
    if not rule.type.skip && kind_eq rule.type.kind directory
    then some (mapped directory (rule.remote_path ++ drop n local_path) line)
    else none

-- The answer of a rule, or else what the search goes on with.
abbrev or_else : Option Mapped → Mapped → Mapped
or_else none rest = rest
or_else (some out) rest = out

-- The do-while loop over the directories, `n` bytes of `directory` at a time.
module _ (map : Hash PathMapping) (decide : ℕ → PathMapping → Option Mapped) where
  -- the lookup of the first `n` bytes, and what its rule answers
  pub rule_at : Bytes → ℕ → Option Mapped
  rule_at dir n = elim (Hash.find map (str (take n dir))) [
    | none ↦ none
    | some rule ↦ decide n rule
  ]

  directory_loop : ℕ → Bytes → ℕ → Mapped
  directory_loop zero dir n = undefined
  directory_loop (suc fuel) dir n = or_else (rule_at dir n) (elim (strrnchr dir slash (n - 1)) [
    | none ↦ no_rule
    | some end_slash ↦ directory_loop fuel dir (suc end_slash)
  ])

  -- from the failed lookup of the whole path on
  pub directories : Bytes → Mapped
  directories path = elim (strrchr path slash) [
    | none ↦ no_rule
    | some end_slash ↦ elim (strrchr (take (suc end_slash) path) slash) [
      | none ↦ undefined
      | some last ↦ directory_loop (length path + 1) (take (suc end_slash) path) (suc last)
    ]
  ]

-- the search of the line ranges in remote_to_local: no path means that the range is skipped
pub remote_lines : Found → Mapped
remote_lines miss = no_rule
remote_lines (hit none line) = skipped
remote_lines (hit (some path) line) = mapped lines path line
remote_lines fault = undefined

-- the switch of remote_to_local on the type of the path's own rule
pub remote_switch : Kind → ℕ → PathMapping → Mapped
remote_switch directory line rule = answer directory rule.local_path line
remote_switch file line rule = answer file rule.local_path line
remote_switch lines line rule = remote_lines (find_local_line line rule.line_ranges)
remote_switch unknown line rule = undefined

unfoldable pub remote_to_local : PathMaps → Bytes → ℕ → Mapped
remote_to_local maps remote_path line =
    elim (Hash.find maps.remote_to_local_map (str remote_path)) [
      | none ↦ directories maps.remote_to_local_map (remote_directory remote_path line) remote_path
      | some rule ↦ if rule.type.skip then skipped else remote_switch rule.type.kind line rule
    ]

-- in local_to_remote a range without a path is a NULL that is copied
pub local_lines : Found → Mapped
local_lines miss = no_rule
local_lines (hit path line) = answer lines path line
local_lines fault = undefined

-- the switch of local_to_remote; for an unknown type the type is returned with nothing set
pub local_switch : Kind → ℕ → PathMapping → Mapped
local_switch directory line rule = mapped directory rule.remote_path line
local_switch file line rule = mapped file rule.remote_path line
local_switch lines line rule = local_lines (find_remote_line line rule.line_ranges)
local_switch unknown line rule = no_rule

unfoldable pub local_to_remote : PathMaps → Bytes → ℕ → Mapped
local_to_remote maps local_path line = elim (Hash.find maps.local_to_remote_map (str local_path)) [
  | none ↦ directories maps.local_to_remote_map (local_directory local_path line) local_path
  | some rule ↦ if rule.type.skip then undefined else local_switch rule.type.kind line rule
]

-- What a run of the two functions computes with.
unfoldable pub lookup_program : Unit {0}
unfolding Hash.hash_program strrchr strrnchr find_local_line find_remote_line match_line to_size
    remote_directory local_directory rule_at directory_loop directories remote_lines remote_switch
    remote_to_local local_lines local_switch local_to_remote path_maps_ctor
lookup_program = tt
