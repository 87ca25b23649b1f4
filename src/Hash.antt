-- ===== src/Hash.antt =====
-- src/lib/hash.c: a chained hash table with a fixed number of slots. A chain is an `xdebug_llist`,
-- here the list of its values from head to tail.
mod Keys
mod Chain
mod Table
pub mod Laws
pub mod Valid
pub mod Walk
pub use Keys.{Key, str, num, key_compare_iff}
pub use Chain.{Element}
unfoldable pub use Keys.{find_slot, key_compare, hash_str, hash_num}
pub use Table.{Hash}
unfoldable pub use Table.{
  alloc, add_or_update, change, delete, find, apply, apply_with_argument, apply_chain, empty,
  elements, pointers, hash_program,
}
