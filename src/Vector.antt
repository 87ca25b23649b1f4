-- ===== src/Vector.antt =====
-- src/lib/vector.h: a vector whose block grows as it is pushed to.
pub mod Laws
use xdebug.Prelude.{
  ℕ, ◌+◌, ◌-◌, ◌*◌, ◌/◌, Option, none, some, List, [], ◌∷◌, ◌++◌, ltb, leb, ◌==◌, if◌then◌else◌,
  length, get_or, set, take, replicate,
}

-- struct _xdebug_vector. The block has `capacity` slots; a slot that was never written is `none`.
-- The elements that were given to the destructor are recorded.
pub record Vector {ℓ} (A : Type ℓ) : Type ℓ where
  pub capacity : ℕ
  pub count : ℕ
  pub block : List (Option A)
  pub destroyed : List (Option A)

-- the capacity that a full vector grows to
abbrev pub next_capacity : ℕ → ℕ
next_capacity capacity = if capacity == 0 then 32 else capacity * 3 / 2

module _ {ℓ} {A : Type ℓ} where
  -- xdebug_vector_alloc
  unfoldable pub alloc : Vector A
  alloc = record { capacity = 0; count = 0; block = []; destroyed = [] }

  -- xdrealloc of the block: it keeps what fits
  unfoldable pub realloc : ℕ → List (Option A) → List (Option A)
  realloc n old = take n old ++ replicate (n - length old) none

  -- __xdebug_grow_vector_if_needed
  unfoldable pub grow_if_needed : Vector A → Vector A
  grow_if_needed v =
      if ltb v.capacity (v.count + 1)
      then record v {
        capacity = next_capacity v.capacity;
        block = realloc (next_capacity v.capacity) v.block;
      }
      else v

  -- xdebug_vector_push, of an element whose bytes are 0; the pointer is to slot `count`
  unfoldable pub push : A → Vector A → Vector A
  push zeros v =
      let w = grow_if_needed v in
      record w { count = w.count + 1; block = set w.block w.count (some zeros) }

  -- xdebug_vector_pop, of a vector that is not empty
  unfoldable pub pop : Vector A → Vector A
  pop v = record v {
    count = v.count - 1;
    destroyed = get_or v.block (v.count - 1) none ∷ v.destroyed;
  }

  -- xdebug_vector_element_get: NULL is `none`
  unfoldable pub element_get : Vector A → ℕ → Option A
  element_get v index = if leb v.count index then none else get_or v.block index none

  -- xdebug_vector_clone: the capacity stays that of a new vector
  unfoldable pub clone : Vector A → Vector A
  clone v = record alloc { count = v.count; block = v.block }
