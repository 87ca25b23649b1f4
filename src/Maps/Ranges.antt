-- ===== src/Maps/Ranges.antt =====
-- The binary search over the line ranges of a mapping, in both directions
-- (src/lib/maps/maps_private.c). The C functions `do_local_binary_search` and
-- `do_remote_binary_search` are one text with the roles of the remote and the local lines
-- exchanged: here one function over a view of a range.
pub mod Order
pub mod Search
use xdebug.Prelude.{
  Bytes, ℕ, zero, suc, ◌+◌, ◌-◌, ◌/◌, ◌%◌, Bool, true, false, ◌&&◌, Option, none, some, List, ltb,
  leb, ◌==◌, if◌then◌else◌, get_elem?, length,
}
use xdebug.Prelude.Int.{ℤ, to_size, size_max, eqb_ℤ}
use xdebug.Maps.Types.{Range}

-- What one search reads of a range: the lines looked for, the lines answered, the path.
pub record Span : Type 0 where
  pub begin : ℤ
  pub end : ℤ
  pub to_begin : ℤ
  pub to_end : ℤ
  pub path : Option Bytes

-- from remote lines to local lines
abbrev pub forward : Range → Span
forward r = record {
  begin = r.remote_begin;
  end = r.remote_end;
  to_begin = r.local_begin;
  to_end = r.local_end;
  path = r.local_path;
}

-- from local lines to remote lines
abbrev pub reverse : Range → Span
reverse r = record {
  begin = r.local_begin;
  end = r.local_end;
  to_begin = r.remote_begin;
  to_end = r.remote_end;
  path = r.local_path;
}

-- The outcome of a search: `*local_path` and `*local_line`, or false. `fault` is a read outside
-- of the vector, or a loop that has run out of fuel.
pub data Found : Type 0 where
  hit : Option Bytes → ℕ → Found
  miss : Found
  fault : Found

-- The three tests of the loop's body, in their order: 1:1, n:1 and n:m. An `int` is compared with
-- the `size_t` line after conversion to `size_t`.
unfoldable pub match_line : Span → ℕ → Option (Option Bytes × ℕ)
match_line s line =
    if eqb_ℤ s.begin s.end && eqb_ℤ s.to_begin s.to_end && line == to_size s.begin
    then some (s.path, to_size s.to_begin)
    else if eqb_ℤ s.to_begin s.to_end && leb (to_size s.begin) line && leb line (to_size s.end)
    then some (s.path, to_size s.to_begin)
    else if leb (to_size s.begin) line && leb line (to_size s.end)
    then some (s.path, (line + size_max - to_size s.begin + to_size s.to_begin) % size_max)
    else none

-- `low + (high - low) / 2`, where `high` is one less than the bound kept here: the code's `high`
-- may be -1, and `past` is `high + 1`.
abbrev pub middle : ℕ → ℕ → ℕ
middle low past = low + (past - 1 - low) / 2

module _ (view : Range → Span) where
  unfoldable pub do_binary_search : ℕ → List Range → ℕ → ℕ → ℕ → Found
  do_binary_search zero ranges low past line = fault
  do_binary_search (suc fuel) ranges low past line = elim (ltb low past) [
    | false ↦ miss
    | true ↦ elim (get_elem? ranges (middle low past)) [
      | none ↦ fault
      | some r ↦ elim (match_line (view r) line) [
        | some (path, to_line) ↦ hit path to_line
        | none ↦ elim (ltb line (to_size (view r).begin)) [
          | true ↦ do_binary_search fuel ranges low (middle low past) line
          | false ↦ do_binary_search fuel ranges (middle low past + 1) past line
        ]
      ]
    ]
  ]

-- find_local_line_number_from_ranges: the bounds are 0 and count - 1
unfoldable pub find_local_line : ℕ → List Range → Found
unfolding do_binary_search
find_local_line line ranges =
    do_binary_search forward (length ranges + 1) ranges 0 (length ranges) line

-- find_remote_line_number_from_ranges
unfoldable pub find_remote_line : ℕ → List Range → Found
unfolding do_binary_search
find_remote_line line ranges =
    do_binary_search reverse (length ranges + 1) ranges 0 (length ranges) line
