-- ===== src/Debugger/Registry.antt =====
-- The breakpoints that the client has set, in src/debugger/handler_dbgp.c: their ids, and finding and
-- removing them by type and key.
use xdebug.Prelude.{
  ℕ, suc, ◌+◌, ◌*◌, ◌%◌, ◌^◌, Bool, true, false, ◌&&◌, Option, none, some, List, [], ◌∷◌, Bytes,
  codes, equal, if◌then◌else◌, length, take, get_or, get_elem?,
}
use xdebug.Prelude.Int.{negsuc, eqb_ℤ, to_int}
use xdebug.Prelude.Decimal.{decimal}
use xdebug.Arg.{explode}
use xdebug.Strtol.{strtol}
use xdebug.Hash
use xdebug.Hash.{Hash, Element, str}
use xdebug.Debugger.Types.{
  Breakpoint, BreakpointType, line, conditional, call, return, exception, watch,
}

-- struct _xdebug_brk_admin; the id is an int, here the 32 bits of it
pub record BreakpointAdmin : Type 0 where
  pub id : ℕ
  pub type : BreakpointType
  pub key : Bytes

-- The lists of breakpoints. A function or exception breakpoint is a position in `store`.
pub record Registry : Type 0 where
  pub breakpoint_count : ℕ
  pub breakpoint_list : Hash BreakpointAdmin
  pub line_breakpoints : List Breakpoint
  pub function_breakpoints : Hash ℕ
  pub exception_breakpoints : Hash ℕ
  pub store : List Breakpoint

-- breakpoint_admin_add, for a process id; it answers with the id
unfoldable pub breakpoint_admin_add : ℕ → Registry → BreakpointType → Bytes → Registry × ℕ
breakpoint_admin_add pid r type key =
    let count = suc r.breakpoint_count in
    let id = (pid % 2 ^ 17 * 10000 + count) % 2 ^ 32 in
    (
      record r {
        breakpoint_count = count;
        breakpoint_list =
            Hash.add_or_update r.breakpoint_list (str (decimal id))
              (record { id = id; type = type; key = key });
      },
      id,
    )

-- breakpoint_admin_fetch
unfoldable pub breakpoint_admin_fetch : Registry → Bytes → Option BreakpointAdmin
breakpoint_admin_fetch r hkey = Hash.find r.breakpoint_list (str hkey)

-- breakpoint_admin_remove, with whether there was one
unfoldable pub breakpoint_admin_remove : Registry → Bytes → Registry × Bool
breakpoint_admin_remove r hkey =
    let (list, found) = Hash.delete r.breakpoint_list (str hkey) in
    (record r { breakpoint_list = list }, found)

-- The test of a line breakpoint against the parts of a key. memcmp compares as many bytes as the
-- breakpoint's file name has.
unfoldable pub matches_key : List Bytes → Breakpoint → Bool
matches_key parts brk =
    eqb_ℤ (to_int (strtol (get_or parts 1 []) 10).0) brk.original_lineno
    && equal (take (length brk.filename) (get_or parts 0 [])) brk.filename

-- the loop over the line breakpoints; `brk_info` keeps the last one that was looked at
unfoldable pub fetch_line : List Bytes → Option Breakpoint → List Breakpoint → Option Breakpoint
fetch_line parts brk_info [] = brk_info
fetch_line parts brk_info (brk ∷ brks) =
    if matches_key parts brk then some brk else fetch_line parts (some brk) brks

-- a breakpoint of the hash tables
unfoldable pub fetch_hash : List Breakpoint → Hash ℕ → Bytes → Option Breakpoint
fetch_hash store hash hkey = elim (Hash.find hash (str hkey)) [
  | none ↦ none
  | some i ↦ get_elem? store i
]

-- breakpoint_brk_info_fetch
unfoldable pub breakpoint_brk_info_fetch : Registry → BreakpointType → Bytes → Option Breakpoint
breakpoint_brk_info_fetch r line hkey =
    fetch_line (explode (codes "$") hkey (negsuc 0)) none r.line_breakpoints
breakpoint_brk_info_fetch r conditional hkey =
    fetch_line (explode (codes "$") hkey (negsuc 0)) none r.line_breakpoints
breakpoint_brk_info_fetch r call hkey = fetch_hash r.store r.function_breakpoints hkey
breakpoint_brk_info_fetch r return hkey = fetch_hash r.store r.function_breakpoints hkey
breakpoint_brk_info_fetch r exception hkey = fetch_hash r.store r.exception_breakpoints hkey
breakpoint_brk_info_fetch r watch hkey = none

-- the first line breakpoint that matches is taken out
unfoldable pub remove_line : List Bytes → List Breakpoint → List Breakpoint × Bool
remove_line parts [] = ([], false)
remove_line parts (brk ∷ brks) =
    let (rest, found) = remove_line parts brks in
    if matches_key parts brk then (brks, true) else (brk ∷ rest, found)

unfoldable pub remove_lines : Registry → Bytes → Registry × Bool
remove_lines r hkey =
    let (brks, found) = remove_line (explode (codes "$") hkey (negsuc 0)) r.line_breakpoints in
    (record r { line_breakpoints = brks }, found)

unfoldable pub remove_function : Registry → Bytes → Registry × Bool
remove_function r hkey =
    let (hash, found) = Hash.delete r.function_breakpoints (str hkey) in
    (record r { function_breakpoints = hash }, found)

-- breakpoint_remove, with whether there was one
unfoldable pub breakpoint_remove : Registry → BreakpointType → Bytes → Registry × Bool
breakpoint_remove r line hkey = remove_lines r hkey
breakpoint_remove r conditional hkey = remove_lines r hkey
breakpoint_remove r call hkey = remove_function r hkey
breakpoint_remove r return hkey = remove_function r hkey
breakpoint_remove r exception hkey =
    let (hash, found) = Hash.delete r.exception_breakpoints (str hkey) in
    (record r { exception_breakpoints = hash }, found)
breakpoint_remove r watch hkey = (r, false)

-- breakpoint_exists_helper and line_breakpoint_exists; `sort` is qsort by id
unfoldable pub breakpoint_exists_helper : Bytes → Bool → Element BreakpointAdmin → Bool
breakpoint_exists_helper key line_found he = if equal he.ptr.key key then true else line_found

unfoldable pub line_breakpoint_exists :
    (List (Element BreakpointAdmin) → List (Element BreakpointAdmin)) → Registry → Bytes → Bool
line_breakpoint_exists sort r key =
    Hash.apply_with_argument (some sort) r.breakpoint_list false (breakpoint_exists_helper key)
