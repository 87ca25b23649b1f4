-- ===== src/BitSet/Laws.antt =====
-- The set of src/lib/set.c as a set: what a lookup finds after each operation.
use xdebug.Prelude.{
  ℕ, ◌/◌, ◌%◌, ◌<◌, ◌≤◌, ◌≡◌, ◌≢◌, refl, Bool, false, ◌&&◌, ◌||◌, not, Bytes, ◌==◌, get_or, arith,
  length-set, get_or-set_self, get_or-set_ne, Bool-cases, inl, inr, sym, ap, ◌∙◌, ==_iff,
}
use xdebug.BitSet.{BitSet, resize_as_needed, change_byte, add, remove, in_set}
use xdebug.BitSet.Bits.{
  test_bit, set_bit, clear_bit, test_bit-set_bit, test_bit-clear_bit, set_bit-lt, clear_bit-lt,
}
use xdebug.BitSet.Growth.{
  raw, IsValid, Fits, in_set-raw, byte-lt-mem_size, same_bit, resize_as_needed-Ensured,
}

beyond : (p q n : ℕ) → p < n → n ≤ q → (p == q) ≡ false
beyond p q n h le = ground arith

different_position : (p q : ℕ) → p / 8 ≢ q / 8 → (p == q) ≡ false
different_position p q ne = elim (Bool-cases (p == q)) [
  | inl e ↦ absurd (ne (ap (λ n. n / 8) ((==_iff p q).0 e)))
  | inr e ↦ e
]

module _ (f : ℕ → ℕ → ℕ) (g : Bool → Bool → Bool)
    (law : (b i j : ℕ) → b < 256 → i < 8 → j < 8 → test_bit (f b i) j ≡ g (i == j) (test_bit b j))
    (small : (b i : ℕ) → b < 256 → i < 8 → f b i < 256) (other : (b : Bool) → g false b ≡ b) where
  changed : BitSet → ℕ → Bytes
  changed t p = (change_byte f t p).setinfo

  get_or-hit :
      (t : BitSet)
      → IsValid t
      → (p : ℕ) → p < t.size
      → get_or (changed t p) (p / 8) 0 ≡ f (get_or t.setinfo (p / 8) 0) (p % 8)
  unfolding changed
  get_or-hit t v p h =
      get_or-set_self t.setinfo (p / 8) _ 0 (rw v.block (byte-lt-mem_size p t.size h))

  raw-hit :
      (t : BitSet)
      → IsValid t
      → (p q : ℕ) → p < t.size
      → p / 8 ≡ q / 8
      → raw (changed t p) q ≡ g (p == q) (raw t.setinfo q)
  raw-hit t v p q h e =
      ap (λ k. test_bit (get_or (changed t p) k 0) (q % 8)) (sym e)
      ∙ ap (λ b. test_bit b (q % 8)) (get_or-hit t v p h)
      ∙ law (get_or t.setinfo (p / 8) 0) (p % 8) (q % 8) (v.bytes (p / 8)) (omega arith)
          (omega arith)
      ∙ ap (λ c. g c (test_bit (get_or t.setinfo (p / 8) 0) (q % 8))) (same_bit p q e)
      ∙ ap (λ k. g (p == q) (test_bit (get_or t.setinfo k 0) (q % 8))) e

  raw-miss :
      (t : BitSet) (p q : ℕ) → p / 8 ≢ q / 8 → raw (changed t p) q ≡ g (p == q) (raw t.setinfo q)
  unfolding changed
  raw-miss t p q ne =
      ap (λ b. test_bit b (q % 8)) (get_or-set_ne t.setinfo (p / 8) (q / 8) _ 0 ne)
      ∙ sym (ap (λ c. g c (raw t.setinfo q)) (different_position p q ne) ∙ other (raw t.setinfo q))

  raw-change :
      (t : BitSet)
      → IsValid t
      → (p q : ℕ) → p < t.size
      → raw (changed t p) q ≡ g (p == q) (raw t.setinfo q)
  raw-change t v p q h = elim (Bool-cases (p / 8 == q / 8)) [
    | inl e ↦ raw-hit t v p q h ((==_iff (p / 8) (q / 8)).0 e)
    | inr e ↦ raw-miss t p q (λ h'. ground arith)
  ]

  byte-change : (t : BitSet) → IsValid t → (p i : ℕ) → p < t.size → get_or (changed t p) i 0 < 256
  unfolding changed
  byte-change t v p i h = elim (Bool-cases (p / 8 == i)) [
    | inl e ↦
        rw (sym ((==_iff (p / 8) i).0 e), get_or-hit t v p h)
          (small (get_or t.setinfo (p / 8) 0) (p % 8) (v.bytes (p / 8)) (omega arith))
    | inr e ↦
        rw
          (get_or-set_ne t.setinfo (p / 8) i (f (get_or t.setinfo (p / 8) 0) (p % 8)) 0
            (λ h'. ground arith))
          (v.bytes i)
  ]

  change-IsValid : (t : BitSet) → IsValid t → (p : ℕ) → p < t.size → IsValid (change_byte f t p)
  unfolding changed
  change-IsValid t v p h = record {
    block = length-set t.setinfo (p / 8) _ ∙ v.block;
    bytes = λ i. byte-change t v p i h;
    behind = λ q le.
        raw-change t v p q h
        ∙ ap (λ c. g c (raw t.setinfo q)) (beyond p q t.size h le)
        ∙ other (raw t.setinfo q)
        ∙ v.behind q le;
  }

  -- the change of a set that has made room for the position
  in_set-change :
      (s : BitSet)
      → IsValid s
      → (p q : ℕ) → Fits s p
      → in_set (change_byte f (resize_as_needed s p) p) q ≡ g (p == q) (in_set s q)
  unfolding changed
  in_set-change s v p q fits =
      let e = resize_as_needed-Ensured s v p fits in
      in_set-raw _ (change-IsValid _ e.valid p e.room) q
      ∙ raw-change _ e.valid p q e.room
      ∙ ap (λ b. g (p == q) (test_bit b (q % 8))) (e.kept (q / 8))
      ∙ ap (g (p == q)) (sym (in_set-raw s v q))

-- After xdebug_set_add of a position within the set, or of one that a resizable set grows to, the
-- set has that position and the positions it had, and no other. The set must be valid, and the
-- position plus 1 an unsigned int.
pub in_set-add :
    (s : BitSet) → IsValid s → (p q : ℕ) → Fits s p → in_set (add s p) q ≡ ((p == q) || in_set s q)
unfolding add
in_set-add s v p q fits =
    in_set-change set_bit (λ hit old. hit || old) test_bit-set_bit set_bit-lt (λ b. refl) s v p q
      fits

-- After xdebug_set_remove of such a position, the set has the positions it had, less that one.
-- The set must be valid, and the position plus 1 an unsigned int.
pub in_set-remove :
    (s : BitSet)
    → IsValid s
    → (p q : ℕ) → Fits s p
    → in_set (remove s p) q ≡ (not (p == q) && in_set s q)
unfolding remove
in_set-remove s v p q fits =
    in_set-change clear_bit (λ hit old. not hit && old) test_bit-clear_bit clear_bit-lt (λ b. refl)
      s v p q fits

-- xdebug_set_add and xdebug_set_remove of such a position keep the block and its size in step, and
-- every bit behind the size clear, in a valid set. The position plus 1 must be an unsigned int.
pub add-remove-IsValid :
    (s : BitSet) → IsValid s → (p : ℕ) → Fits s p → IsValid (add s p) × IsValid (remove s p)
unfolding add remove
add-remove-IsValid s v p fits =
    let e = resize_as_needed-Ensured s v p fits in
    (
      change-IsValid set_bit (λ hit old. hit || old) test_bit-set_bit set_bit-lt (λ b. refl) _
          e.valid p e.room,
      change-IsValid clear_bit (λ hit old. not hit && old) test_bit-clear_bit clear_bit-lt
          (λ b. refl) _ e.valid p e.room,
    )
