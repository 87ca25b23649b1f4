-- ===== src/Maps/Types.antt =====
-- The data of src/lib/maps/maps_private.h. Reference counts and ownership are not modelled: an
-- `xdebug_str` is its bytes, and NULL is `none`.
use xdebug.Prelude.{Bytes, Bool, true, false, Option, none, List, []}
use xdebug.Prelude.Int.{ℤ, pos}

-- XDEBUG_PATH_MAP_TYPE_*, the low four bits of a mapping's type
pub data Kind : Type 0 where
  unknown directory file lines : Kind

-- The `int type`: its low bits, and XDEBUG_PATH_MAP_FLAGS_SKIP, the only flag there is.
pub record MapType : Type 0 where
  pub kind : Kind
  pub skip : Bool

abbrev pub plain : Kind → MapType
plain k = record { kind = k; skip = false }

-- XDEBUG_PATH_MAP_FLAGS_SKIP alone
abbrev pub flags_skip : MapType
flags_skip = record { kind = unknown; skip = true }

-- The last constructor pattern of `==` on types.
abbrev pub kind_eq : Kind → Kind → Bool
kind_eq unknown unknown = true
kind_eq directory directory = true
kind_eq file file = true
kind_eq lines lines = true
kind_eq _ _ = false

-- struct xdebug_path_map_range; `local_flags` holds only the SKIP bit
pub record Range : Type 0 where
  pub remote_begin : ℤ
  pub remote_end : ℤ
  pub local_skip : Bool
  pub local_path : Option Bytes
  pub local_begin : ℤ
  pub local_end : ℤ

-- struct xdebug_path_mapping; of the union's two members, `local_path` is in use for FILE and
-- DIRECTORY, `line_ranges` for LINES
pub record PathMapping : Type 0 where
  pub type : MapType
  pub remote_path : Bytes
  pub local_path : Option Bytes
  pub line_ranges : List Range

-- XDEBUG_PATH_MAP_EOF
abbrev pub eof : ℤ
eof = pos 0x4000_0000

-- xdebug_path_mapping_ctor
unfoldable pub path_mapping_ctor : Kind → PathMapping
path_mapping_ctor k = record {
  type = plain k;
  remote_path = [];
  local_path = none;
  line_ranges = [];
}
