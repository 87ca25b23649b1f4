-- ===== src/Crc32/Division.antt =====
-- The checksum with its table replaced by division by the polynomial, bit by bit.
use Prim.Native.Nat.{bit_xor}
use xdebug.Prelude.{
  ℕ, zero, suc, ◌-◌, ◌/◌, ◌%◌, ◌^◌, ◌<◌, ◌≡◌, refl, ◌∙◌, ap, true, [], ◌∷◌, Bytes, ◌==◌, ==_iff,
  all_below, all_below_at, if◌then◌else◌, get_or, arith,
}
use xdebug.Crc32.{crc32_table, crc32_step, crc32_from, crc32}

-- one bit of the division by the reflected polynomial EDB88320
abbrev pub divide_bit : ℕ → ℕ
divide_bit r = if r % 2 == 1 then bit_xor (r / 2) 0xedb8_8320 else r / 2

unfoldable pub divide : ℕ → ℕ → ℕ
divide zero r = r
divide (suc n) r = divide n (divide_bit r)

-- the remainder of a byte
unfoldable pub remainder : ℕ → ℕ
remainder b = divide 8 b

-- The checksum with the remainder worked out for each byte.
unfoldable pub crc32_divided : ℕ → Bytes → ℕ
crc32_divided crc [] = crc
crc32_divided crc (c ∷ s) =
    crc32_divided (bit_xor (crc / 2 ^ 8) (remainder (bit_xor crc c % 2 ^ 8))) s

table_agrees : all_below 256 (λ b. get_or crc32_table b 0 == remainder b) ≡ true
unfolding all_below remainder divide
table_agrees = refl

crc32_table-remainder : (b : ℕ) → b < 256 → get_or crc32_table b 0 ≡ remainder b
crc32_table-remainder b lt =
    (==_iff (get_or crc32_table b 0) (remainder b)).0
      (all_below_at 256 (λ b. get_or crc32_table b 0 == remainder b) b table_agrees lt)

crc32_from-divided : (s : Bytes) (crc : ℕ) → crc32_from crc s ≡ crc32_divided crc s
unfolding crc32_from crc32_divided crc32_step
crc32_from-divided [] crc = refl
crc32_from-divided (c ∷ s) crc =
    crc32_from-divided s (crc32_step crc c)
    ∙ ap (λ r. crc32_divided (bit_xor (crc / 2 ^ 8) r) s)
        (crc32_table-remainder (bit_xor crc c % 2 ^ 8) (omega arith))

-- xdebug_crc32 is the checksum whose table entries are the remainders of the bytes on division by
-- the reflected polynomial EDB88320: all 256 constants of the table are right.
pub crc32-crc32_divided : (s : Bytes) → crc32 s ≡ 2 ^ 32 - 1 - crc32_divided (2 ^ 32 - 1) s
unfolding crc32
crc32-crc32_divided s = ap (λ r. 2 ^ 32 - 1 - r) (crc32_from-divided s (2 ^ 32 - 1))
