-- ===== src/Tests/HashProofs.antt =====
-- The theorems on the hash table at a table of two slots.
use xdebug.Prelude.{
  ℕ, Bool, ◌==◌, ◌+◌, ◌≡◌, refl, true, none, some, codes, length, if◌then◌else◌, arith,
}
use xdebug.Hash
use xdebug.Hash.{Hash, Key, Element, str, num, key_compare, hash_program, pointers, elements}
use xdebug.Hash.Laws.{find-add_or_update}
use xdebug.Hash.Valid.{IsValid, alloc-IsValid, add_or_update-IsValid, find-delete}
use xdebug.Hash.Walk.{count, empty_lem}

abbrev two_slots : Hash ℕ
two_slots = Hash.alloc 2 true

abbrev two_keys : Hash ℕ
two_keys = Hash.add_or_update (Hash.add_or_update two_slots (str (codes "a")) 1) (num 7) 2

two_slots-IsValid : IsValid two_slots
two_slots-IsValid = alloc-IsValid 2 true (omega arith)

two_keys-IsValid : IsValid two_keys
two_keys-IsValid =
    add_or_update-IsValid _ (add_or_update-IsValid two_slots two_slots-IsValid (str (codes "a")) 1)
      (num 7) 2

add_or_update-IsValid_example : IsValid (Hash.add_or_update two_keys (num 7) 3)
add_or_update-IsValid_example = add_or_update-IsValid two_keys two_keys-IsValid (num 7) 3

find-add_or_update_example : Hash.find (Hash.add_or_update two_keys (num 7) 3) (str (codes "a")) ≡ (
    if key_compare (str (codes "a")) (num 7) then some 3 else Hash.find two_keys (str (codes "a")))
find-add_or_update_example =
    find-add_or_update two_keys two_keys-IsValid.shape two_keys-IsValid.full (num 7)
      (str (codes "a")) 3

find-delete_example :
    Hash.find (Hash.delete two_keys (num 7)).0 (num 7)
    ≡ (if key_compare (num 7) (num 7) then none else Hash.find two_keys (num 7))
find-delete_example = find-delete two_keys two_keys-IsValid (num 7) (num 7)

two_keys_found :
    (Hash.find two_keys (num 7) ≡ some 2) × (Hash.find two_keys (str (codes "a")) ≡ some 1)
unfolding hash_program
two_keys_found = (refl, refl)

abbrev is_two : ℕ → Bool
is_two v = v == 2

empty_lem_example :
    (count is_two (Hash.empty two_keys).destroyed
      ≡ count is_two (pointers (elements two_keys.table)) + count is_two two_keys.destroyed)
    × (length (Hash.empty two_keys).destroyed ≡ two_keys.size + length two_keys.destroyed)
    × (Hash.find (Hash.empty two_keys) (num 7) ≡ none)
    × ((Hash.empty two_keys).size ≡ two_keys.size)
empty_lem_example = empty_lem two_keys (num 7) is_two two_keys-IsValid (unfold hash_program in refl)
