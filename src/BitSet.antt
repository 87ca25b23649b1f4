-- ===== src/BitSet.antt =====
-- src/lib/set.c: a set of numbers, one bit for each, in a block of bytes that may grow.
mod Bits
pub mod Growth
pub mod Laws
pub mod Empty
unfoldable pub use Bits.{test_bit, set_bit, clear_bit}
use xdebug.Prelude.{
  ℕ, ◌+◌, ◌-◌, ◌/◌, ◌%◌, ◌^◌, Bool, true, false, ◌&&◌, not, List, [], ◌++◌, Bytes, ltb, leb, ◌==◌,
  if◌then◌else◌, get_or, set, replicate, length,
}

-- struct _xdebug_set; `setinfo` is the block of MEM_SIZE(size) bytes
pub record BitSet : Type 0 where
  pub size : ℕ
  pub setinfo : Bytes
  pub resizable : Bool

-- MEM_SIZE
abbrev pub mem_size : ℕ → ℕ
mem_size s = s / 8 + (if s % 8 == 0 then 0 else 1)

-- set_resize; it is only called to grow, so that all of the old block is copied
unfoldable pub resize : BitSet → ℕ → BitSet
resize s new_size =
    if mem_size new_size == mem_size s.size then record s { size = new_size } else record s {
      size = new_size;
      setinfo = s.setinfo ++ replicate (mem_size new_size - mem_size s.size) 0;
    }

-- xdebug_set_create and xdebug_set_create_resizable
unfoldable pub create : ℕ → BitSet
create size = resize (record { size = 0; setinfo = []; resizable = false }) size

unfoldable pub create_resizable : BitSet
create_resizable = record (create 0) { resizable = true }

-- SET_RESIZE_AS_NEEDED; `p + 1` is an unsigned int
unfoldable pub resize_as_needed : BitSet → ℕ → BitSet
resize_as_needed s p = if leb s.size p && s.resizable then resize s ((p + 1) % 2 ^ 32) else s

-- the byte of a position, changed; a write outside of the block changes nothing here
abbrev change_byte : (ℕ → ℕ → ℕ) → BitSet → ℕ → BitSet
change_byte f s p = record s {
  setinfo = set s.setinfo (p / 8) (f (get_or s.setinfo (p / 8) 0) (p % 8));
}

-- xdebug_set_add
unfoldable pub add : BitSet → ℕ → BitSet
add s p = change_byte set_bit (resize_as_needed s p) p

-- xdebug_set_remove
unfoldable pub remove : BitSet → ℕ → BitSet
remove s p = change_byte clear_bit (resize_as_needed s p) p

-- xdebug_set_in, as a truth value
unfoldable pub in_set : BitSet → ℕ → Bool
in_set s p = if leb s.size p then false else test_bit (get_or s.setinfo (p / 8) 0) (p % 8)

-- xdebug_set_clear
unfoldable pub clear : BitSet → BitSet
clear s = record s { setinfo = replicate (mem_size s.size) 0 }
