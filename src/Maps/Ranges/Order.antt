-- ===== src/Maps/Ranges/Order.antt =====
-- Ranges in increasing order that do not overlap, and the reference search from front to back.
use xdebug.Prelude.{ℕ, suc, ◌≤◌, ◌<◌, ◌≡◌, none, some, List, [], ◌∷◌, ◌⊎◌, arith}
use xdebug.Prelude.Int.{to_size}
use xdebug.Maps.Types.{Range}
use xdebug.Maps.Ranges.{Span, match_line, Found, hit, miss}

-- The spans from `lo` upwards: each is a non-empty interval of lines, behind all those before it.
abbrev pub IsOrdered : (Range → Span) → ℕ → List Range → Type 0
IsOrdered view lo [] = Unit
IsOrdered view lo (r ∷ rs) =
    (lo ≤ to_size (view r).begin)
    × (to_size (view r).begin ≤ to_size (view r).end)
    × IsOrdered view (suc (to_size (view r).end)) rs

-- The reference: the first range, from the front, that the three tests accept.
abbrev pub first_match : (Range → Span) → List Range → ℕ → Found
first_match view [] line = miss
first_match view (r ∷ rs) line = elim (match_line (view r) line) [
  | some (path, to_line) ↦ hit path to_line
  | none ↦ first_match view rs line
]

-- A range is passed over exactly if the line lies outside of it.
pub match_line-none :
    (s : Span) (line : ℕ)
    → to_size s.begin ≤ to_size s.end
    → match_line s line ≡ none
    → (line < to_size s.begin) ⊎ (to_size s.end < line)
unfolding match_line
match_line-none s line h e = ground arith

pub match_line_outside :
    (s : Span) (line : ℕ)
    → to_size s.begin ≤ to_size s.end
    → (line < to_size s.begin) ⊎ (to_size s.end < line)
    → match_line s line ≡ none
unfolding match_line
match_line_outside s line h e = ground arith
