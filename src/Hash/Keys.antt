-- ===== src/Hash/Keys.antt =====
-- The keys of src/lib/hash.c: their hash values and their comparison. `unsigned long` has 64 bits.
use Prim.Native.Nat.{bit_xor}
use xdebug.Prelude.{
  Bytes, ℕ, ◌+◌, ◌-◌, ◌*◌, ◌/◌, ◌%◌, ◌^◌, ◌≡◌, ◌↔◌, Bool, true, false, ◌&&◌, [], ◌∷◌, arith, ltb,
  ◌==◌, if◌then◌else◌, length, equal, equal_iff, get_or,
}

-- struct xdebug_hash_key: XDEBUG_HASH_KEY_IS_STRING with its bytes, or XDEBUG_HASH_KEY_IS_NUM
pub data Key : Type 0 where
  str : Bytes → Key
  num : ℕ → Key

abbrev word : ℕ
word = 2 ^ 64

-- `(unsigned long) *p` of a signed char: the byte, sign-extended
abbrev sign_extend : ℕ → ℕ
sign_extend c = if ltb c 128 then c else c + (word - 256)

-- xdebug_hash_str, its loop over the bytes left
hash_str_from : ℕ → Bytes → ℕ
hash_str_from h [] = h
hash_str_from h (c ∷ cs) = hash_str_from (bit_xor ((h + h * 2 ^ 5) % word) (sign_extend c)) cs

unfoldable pub hash_str : Bytes → ℕ
unfolding hash_str_from
hash_str = hash_str_from 5381

-- `key << n`, and `~key`
abbrev shl : ℕ → ℕ → ℕ
shl k n = k * 2 ^ n % word

abbrev shr : ℕ → ℕ → ℕ
shr k n = k / 2 ^ n

abbrev complement : ℕ → ℕ
complement k = word - 1 - k

unfoldable pub hash_num : ℕ → ℕ
hash_num key =
    let a = (key + complement (shl key 15)) % word in
    let b = bit_xor a (shr a 10) in
    let c = (b + shl b 3) % word in
    let d = bit_xor c (shr c 6) in let e = (d + shl d 11) % word in bit_xor e (shr e 16)

-- FIND_SLOT; a table has at least one slot
unfoldable pub find_slot : Key → ℕ → ℕ
unfolding hash_str hash_num
find_slot (str s) slots = hash_str s % slots
find_slot (num n) slots = hash_num n % slots

-- xdebug_hash_key_compare. The first bytes are compared before the rest: of an empty key that is
-- the byte behind it, taken to be a NUL.
unfoldable pub key_compare : Key → Key → Bool
key_compare (num a) (num b) = a == b
key_compare (num a) (str b) = false
key_compare (str a) (num b) = false
key_compare (str a) (str b) = length a == length b && get_or a 0 0 == get_or b 0 0 && equal a b

pub key_compare_iff : (a b : Key) → (key_compare a b ≡ true) ↔ (a ≡ b)
unfolding key_compare
key_compare_iff (num a) (num b) = ground arith
key_compare_iff (num a) (str b) = ground arith
key_compare_iff (str a) (num b) = ground arith
key_compare_iff (str a) (str b) = ground (arith, equal_iff a b)
