-- ===== src/Trim.antt =====
-- src/lib/trim.c
pub mod Shape
use xdebug.Prelude.{
  ℕ, zero, suc, ◌-◌, Bool, ◌||◌, ◌&&◌, List, [], ◌∷◌, Bytes, leb, ◌==◌, if◌then◌else◌, length, take,
  get_or,
}

-- isspace in the C locale
abbrev pub isspace : ℕ → Bool
isspace c = c == 32 || (leb 9 c && leb c 13)

-- the loop that trims leading space
unfoldable pub skip_space : Bytes → Bytes
skip_space [] = []
skip_space (c ∷ s) = if isspace c then skip_space s else c ∷ s

-- the loop that trims trailing space: `end - begin`, going down from the last byte
unfoldable pub trim_end : Bytes → ℕ → ℕ
trim_end s zero = zero
trim_end s (suc n) = if isspace (get_or s (suc n) 0) then trim_end s n else suc n

-- xdebug_trim, from `begin` on
unfoldable pub trim_from : Bytes → Bytes
trim_from [] = []
trim_from (c ∷ s) = take (suc (trim_end (c ∷ s) (length s))) (c ∷ s)

unfoldable pub trim : Bytes → Bytes
trim s = trim_from (skip_space s)
