-- ===== src/Vector/Laws.antt =====
-- The vector as a list of its elements, and its capacity.
use xdebug.Prelude.{
  ℕ, zero, suc, ◌+◌, ◌-◌, ◌≤◌, ◌<◌, ◌≡◌, ◌≢◌, refl, ap, ◌∙◌, Bool-cases, inl, inr, true, Option,
  none, some, List, [], ◌∷◌, ◌++◌, ltb, leb, ◌==◌, ==_iff, ltb→lt, if◌then◌else◌, length, get_or,
  set, take, replicate, arith, length-append, length-take, length-replicate, length-set,
  get_or-set_self, get_or-set_ne,
}
use xdebug.Vector.{Vector, realloc, next_capacity, grow_if_needed, push, element_get, clone, alloc}

module _ {ℓ} {A : Type ℓ} where
  -- The block has its capacity, which is 0 or at least 32, and holds the elements counted.
  pub record IsValid (v : Vector A) : Type ℓ where
    pub slots : length v.block ≡ v.capacity
    pub fits : v.count ≤ v.capacity
    pub start : v.capacity ≢ 0 → 32 ≤ v.capacity

  length-realloc : (n : ℕ) (block : List (Option A)) → length (realloc n block) ≡ n
  unfolding realloc
  length-realloc n block =
      length-append (take n block) (replicate (n - length block) none)
      ∙ omega (arith, length-take n block, length-replicate {A = Option A} (n - length block) none)

  get_or-nones : (n i : ℕ) → get_or {A = Option A} (replicate n none) i none ≡ none
  get_or-nones zero i = refl
  get_or-nones (suc n) zero = refl
  get_or-nones (suc n) (suc i) = get_or-nones n i

  -- growing keeps every slot
  get_or-grown :
      (block : List (Option A)) (n m i : ℕ)
      → length block ≤ n
      → get_or (take n block ++ replicate m none) i none ≡ get_or block i none
  get_or-grown [] zero m i h = get_or-nones m i
  get_or-grown [] (suc n) m i h = get_or-nones m i
  get_or-grown (b ∷ block) zero m i h = absurd (omega arith)
  get_or-grown (b ∷ block) (suc n) m zero h = refl
  get_or-grown (b ∷ block) (suc n) m (suc i) h = get_or-grown block n m i (omega arith)

  -- what growing makes of a vector: room for one more, and the same slots
  record Grown (v w : Vector A) : Type ℓ where
    valid : IsValid w
    room : v.count < w.capacity
    same_count : w.count ≡ v.count
    kept : (i : ℕ) → get_or w.block i none ≡ get_or v.block i none

  next_capacity-lt :
      (v : Vector A)
      → IsValid v
      → ltb v.capacity (v.count + 1) ≡ true
      → (v.count < next_capacity v.capacity) × (32 ≤ next_capacity v.capacity)
  next_capacity-lt v h full = elim (Bool-cases (v.capacity == 0)) [
    | inl z ↦ ground (arith, h.fits)
    | inr nz ↦ let big = h.start (λ e. ground arith) in ground (arith, h.fits, big)
  ]

  roomy : (v : Vector A) → IsValid v → v.count < v.capacity → Grown v v
  roomy v h room = record { valid = h; room = room; same_count = refl; kept = λ i. refl }

  full-Grown :
      (v : Vector A)
      → IsValid v
      → ltb v.capacity (v.count + 1) ≡ true
      → Grown v (record v {
        capacity = next_capacity v.capacity;
        block = realloc (next_capacity v.capacity) v.block;
      })
  unfolding realloc
  full-Grown v h full =
      let more = next_capacity-lt v h full in
      record {
        valid = record {
          slots = length-realloc (next_capacity v.capacity) v.block;
          fits = omega (arith, more.0);
          start = λ _. more.1;
        };
        room = more.0;
        same_count = refl;
        kept = λ i.
            get_or-grown v.block (next_capacity v.capacity)
              (next_capacity v.capacity - length v.block) i
              (omega (arith, h.slots, ltb→lt v.capacity (v.count + 1) full, h.fits, more.0));
      }

  grow_if_needed-Grown : (v : Vector A) → IsValid v → Grown v (grow_if_needed v)
  unfolding grow_if_needed
  grow_if_needed-Grown v h = elim (Bool-cases (ltb v.capacity (v.count + 1))) [
    | inl full ↦ rw (full, grow_if_needed) (full-Grown v h full)
    | inr room ↦ rw (room, grow_if_needed) (roomy v h (ground arith))
  ]

  get_or-pushed :
      (block : List (Option A)) (x : A) (n i : ℕ)
      → n < length block
      → get_or (set block n (some x)) i none ≡ (if i == n then some x else get_or block i none)
  get_or-pushed block x n i h = elim (Bool-cases (i == n)) [
    | inl e ↦
        let same : i ≡ n = (==_iff i n).0 e in
        rw (e, same) (get_or-set_self block n (some x) none h)
    | inr ne ↦ rw ne (get_or-set_ne block n i (some x) none (λ same. ground arith))
  ]

  get-pushed :
      (block old : List (Option A)) (x : A) (n m i : ℕ)
      → m ≡ n
      → n < length block
      → get_or block i none ≡ get_or old i none
      → (if leb (m + 1) i then none else get_or (set block m (some x)) i none)
        ≡ (if i == n then some x else (if leb n i then none else get_or old i none))
  get-pushed block old x n m i e h kept = rw e (ground (arith, get_or-pushed block x n i h, kept))

  -- Pushing to a valid vector keeps it valid and counts one element more; that one is the element
  -- pushed, and every other is what it was.
  pub element_get-push :
      (v : Vector A) (x : A) (i : ℕ)
      → IsValid v
      → IsValid (push x v)
        × ((push x v).count ≡ v.count + 1)
        × (element_get (push x v) i ≡ (if i == v.count then some x else element_get v i))
  unfolding push element_get
  element_get-push v x i h =
      let g = grow_if_needed-Grown v h in
      let w = grow_if_needed v in
      (
        record {
          slots = length-set w.block w.count (some x) ∙ g.valid.slots;
          fits = omega (arith, g.same_count, g.room);
          start = g.valid.start;
        },
        ap (λ n. n + 1) g.same_count,
        get-pushed w.block v.block x v.count w.count i g.same_count
            (omega (arith, g.valid.slots, g.room)) (g.kept i),
      )

  -- After a push to a clone of a vector the block has 32 slots, however many elements are counted.
  pub push-clone :
      (v : Vector A) (x : A)
      → ((push x (clone v)).capacity ≡ 32)
        × ((push x (clone v)).count ≡ v.count + 1)
        × (length (push x (clone v)).block ≡ 32)
  unfolding push clone grow_if_needed alloc
  push-clone v x =
      let full : ltb 0 (v.count + 1) ≡ true = ground arith in
      rw (full, grow_if_needed)
        (refl, refl, length-set (realloc 32 v.block) v.count (some x) ∙ length-realloc 32 v.block)
