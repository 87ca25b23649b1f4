-- ===== src/BitSet/Growth.antt =====
-- What a set of src/lib/set.c must be, and what growing makes of it.
use xdebug.Prelude.{
  ℕ, zero, suc, ◌+◌, ◌-◌, ◌/◌, ◌%◌, ◌^◌, ◌<◌, ◌≤◌, ◌≡◌, refl, Bool, false, ◌&&◌, not, [], ◌∷◌, ◌++◌,
  Bytes, leb, ◌==◌, get_or, replicate, length, arith, length-append, length-replicate, Bool-cases,
  inl, inr, sym, ap, ◌∙◌, ==_iff,
}
use xdebug.BitSet.{BitSet, mem_size, resize, resize_as_needed, in_set}
use xdebug.BitSet.Bits.{test_bit}

-- the bit of a position, whatever the size says
abbrev pub raw : Bytes → ℕ → Bool
raw bytes q = test_bit (get_or bytes (q / 8) 0) (q % 8)

-- The block has its length, its bytes are bytes, and no bit behind the size is set.
pub record IsValid (s : BitSet) : Type 0 where
  pub block : length s.setinfo ≡ mem_size s.size
  pub bytes : (i : ℕ) → get_or s.setinfo i 0 < 256
  pub behind : (q : ℕ) → s.size ≤ q → raw s.setinfo q ≡ false

-- a position that the set has, or that it may grow to
abbrev pub Fits : BitSet → ℕ → Type 0
Fits s p = (leb s.size p && not s.resizable ≡ false) × (p + 1 < 2 ^ 32)

pub get_or-zeros : (n i : ℕ) → get_or {A = ℕ} (replicate n 0) i 0 ≡ 0
get_or-zeros zero i = refl
get_or-zeros (suc n) zero = refl
get_or-zeros (suc n) (suc i) = get_or-zeros n i

get_or-grown : (bs : Bytes) (n i : ℕ) → get_or (bs ++ replicate n 0) i 0 ≡ get_or bs i 0
get_or-grown [] n i = get_or-zeros n i
get_or-grown (b ∷ bs) n zero = refl
get_or-grown (b ∷ bs) n (suc i) = get_or-grown bs n i

pub in_set-raw : (s : BitSet) → IsValid s → (q : ℕ) → in_set s q ≡ raw s.setinfo q
unfolding in_set
in_set-raw s v q = ground (arith, v.behind q)

mem_size_mono : (a b : ℕ) → a ≤ b → mem_size a ≤ mem_size b
mem_size_mono a b h = ground arith

pub byte-lt-mem_size : (p n : ℕ) → p < n → p / 8 < mem_size n
byte-lt-mem_size p n h = ground arith

pub same_bit : (p q : ℕ) → p / 8 ≡ q / 8 → (p % 8 == q % 8) ≡ (p == q)
same_bit p q h = ground arith

pub get_or-resize : (s : BitSet) (n i : ℕ) → get_or (resize s n).setinfo i 0 ≡ get_or s.setinfo i 0
unfolding resize
get_or-resize s n i = elim (Bool-cases (mem_size n == mem_size s.size)) [
  | inl e ↦ rw e
  | inr e ↦ rw (e, get_or-grown s.setinfo (mem_size n - mem_size s.size) i)
]

length-grown :
    (bs : Bytes) (a b : ℕ) → length bs ≡ a → a ≤ b → length (bs ++ replicate (b - a) 0) ≡ b
length-grown bs a b h le =
    length-append bs (replicate (b - a) 0) ∙ omega (arith, h, length-replicate {A = ℕ} (b - a) 0)

length-resize :
    (s : BitSet) (n : ℕ)
    → length s.setinfo ≡ mem_size s.size
    → s.size ≤ n
    → length (resize s n).setinfo ≡ mem_size n
unfolding resize
length-resize s n h le = elim (Bool-cases (mem_size n == mem_size s.size)) [
  | inl e ↦ rw e (h ∙ sym ((==_iff (mem_size n) (mem_size s.size)).0 e))
  | inr e ↦
      rw e (length-grown s.setinfo (mem_size s.size) (mem_size n) h (mem_size_mono s.size n le))
]

size-resize : (s : BitSet) (n : ℕ) → (resize s n).size ≡ n
unfolding resize
size-resize s n = elim (Bool-cases (mem_size n == mem_size s.size)) [ inl e ↦ rw e | inr e ↦ rw e ]

pub resize-IsValid : (s : BitSet) → IsValid s → (n : ℕ) → s.size ≤ n → IsValid (resize s n)
resize-IsValid s v n le = record {
  block = length-resize s n v.block le ∙ ap mem_size (sym (size-resize s n));
  bytes = λ i. rw (get_or-resize s n i) (v.bytes i);
  behind =
      λ q h. rw (get_or-resize s n (q / 8)) (v.behind q (omega (arith, h, size-resize s n, le)));
}

-- what SET_RESIZE_AS_NEEDED makes of a set: room for the position, and the same bits
pub record Ensured (s t : BitSet) (p : ℕ) : Type 0 where
  pub valid : IsValid t
  pub room : p < t.size
  pub kept : (i : ℕ) → get_or t.setinfo i 0 ≡ get_or s.setinfo i 0

resize-Ensured :
    (s : BitSet) → IsValid s → (p n : ℕ) → p + 1 ≡ n → s.size ≤ n → Ensured s (resize s n) p
resize-Ensured s v p n e le = record {
  valid = resize-IsValid s v n le;
  room = omega (arith, size-resize s n);
  kept = get_or-resize s n;
}

same-Ensured : (s : BitSet) → IsValid s → (p : ℕ) → p < s.size → Ensured s s p
same-Ensured s v p h = record { valid = v; room = h; kept = λ i. refl }

pub resize_as_needed-Ensured :
    (s : BitSet) → IsValid s → (p : ℕ) → Fits s p → Ensured s (resize_as_needed s p) p
unfolding resize_as_needed
resize_as_needed-Ensured s v p fits = elim (Bool-cases (leb s.size p && s.resizable)) [
  | inl e ↦
      rw e
        (resize-Ensured s v p ((p + 1) % 2 ^ 32) (omega (arith, fits.1)) (ground (arith, fits.1)))
  | inr e ↦ rw e (same-Ensured s v p (ground (arith, fits.0)))
]
