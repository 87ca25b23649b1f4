-- ===== src/BitSet/Bits.antt =====
-- One bit of a byte, by a table of all bytes and bits.
use Prim.Native.Nat.{bit_and, bit_or}
use xdebug.Prelude.{
  all_below, all_below_at, ℕ, ◌-◌, ◌^◌, ◌<◌, ◌≡◌, refl, Bool, true, false, ◌&&◌, ◌||◌, not, ltb,
  ◌==◌, arith,
}

-- `byte & (1 << bit)`, as a truth value; `byte | 1 << bit`; `byte & ~(1 << bit)`
unfoldable pub test_bit : ℕ → ℕ → Bool
test_bit b i = not (bit_and b (2 ^ i) == 0)

unfoldable pub set_bit : ℕ → ℕ → ℕ
set_bit b i = bit_or b (2 ^ i)

unfoldable pub clear_bit : ℕ → ℕ → ℕ
clear_bit b i = bit_and b (255 - 2 ^ i)

abbrev same : Bool → Bool → Bool
same true b = b
same false b = not b

-- what the two writes do to one bit, and that the byte stays a byte
abbrev write_laws : ℕ → ℕ → ℕ → Bool
write_laws b i j =
    same (test_bit (set_bit b i) j) (i == j || test_bit b j)
    && same (test_bit (clear_bit b i) j) (not (i == j) && test_bit b j)
    && ltb (set_bit b i) 256
    && ltb (clear_bit b i) 256

laws_table : all_below 256 (λ b. all_below 8 (λ i. all_below 8 (λ j. write_laws b i j))) ≡ true
unfolding all_below test_bit set_bit clear_bit
laws_table = refl

write_laws_at : (b i j : ℕ) → b < 256 → i < 8 → j < 8 → write_laws b i j ≡ true
write_laws_at b i j hb hi hj =
    all_below_at 8 _ j (all_below_at 8 _ i (all_below_at 256 _ b laws_table hb) hi) hj

module _ (b i j : ℕ) (byte : b < 256) (hi : i < 8) (hj : j < 8) where
  pub test_bit-set_bit : test_bit (set_bit b i) j ≡ (i == j || test_bit b j)
  test_bit-set_bit = ground (arith, write_laws_at b i j byte hi hj)

  pub test_bit-clear_bit : test_bit (clear_bit b i) j ≡ (not (i == j) && test_bit b j)
  test_bit-clear_bit = ground (arith, write_laws_at b i j byte hi hj)

pub set_bit-lt : (b i : ℕ) → b < 256 → i < 8 → set_bit b i < 256
set_bit-lt b i byte hi = ground (arith, write_laws_at b i 0 byte hi (omega arith))

pub clear_bit-lt : (b i : ℕ) → b < 256 → i < 8 → clear_bit b i < 256
clear_bit-lt b i byte hi = ground (arith, write_laws_at b i 0 byte hi (omega arith))

zero_table : all_below 8 (λ j. not (test_bit 0 j)) ≡ true
unfolding all_below test_bit
zero_table = refl

pub test_bit-zero : (i : ℕ) → i < 8 → test_bit 0 i ≡ false
test_bit-zero i h = ground (arith, all_below_at 8 (λ j. not (test_bit 0 j)) i zero_table h)
