-- ===== src/BitSet/Empty.antt =====
-- src/lib/set.c: the sets that xdebug_set_create and xdebug_set_clear leave.
use xdebug.Prelude.{ℕ, ◌/◌, ◌%◌, ◌≡◌, refl, false, replicate, [], arith, length-replicate, ◌∙◌, ap}
use xdebug.BitSet.{BitSet, mem_size, resize, create, clear, in_set}
use xdebug.BitSet.Bits.{test_bit, test_bit-zero}
use xdebug.BitSet.Growth.{IsValid, raw, get_or-zeros, in_set-raw, get_or-resize, resize-IsValid}

raw-zeros : (n q : ℕ) → raw (replicate n 0) q ≡ false
raw-zeros n q =
    ap (λ b. test_bit b (q % 8)) (get_or-zeros n (q / 8)) ∙ test_bit-zero (q % 8) (omega arith)

abbrev nothing : BitSet
nothing = record { size = 0; setinfo = []; resizable = false }

nothing-IsValid : IsValid nothing
nothing-IsValid = record { block = refl; bytes = λ i. omega arith; behind = λ q h. raw-zeros 0 q }

clear-IsValid : (s : BitSet) → IsValid (clear s)
unfolding clear
clear-IsValid s = record {
  block = length-replicate (mem_size s.size) 0;
  bytes = λ i. rw (get_or-zeros (mem_size s.size) i) (omega arith);
  behind = λ q h. raw-zeros (mem_size s.size) q;
}

clear-raw : (s : BitSet) (q : ℕ) → raw (clear s).setinfo q ≡ false
unfolding clear
clear-raw s q = raw-zeros (mem_size s.size) q

create-raw : (n q : ℕ) → raw (resize nothing n).setinfo q ≡ false
create-raw n q =
    ap (λ b. test_bit b (q % 8)) (get_or-resize nothing n (q / 8))
    ∙ test_bit-zero (q % 8) (omega arith)

-- xdebug_set_create gives a set that is in step with its block, and so does xdebug_set_clear on
-- any set; in both a lookup finds no position.
pub create-clear-IsValid :
    (n q : ℕ) (s : BitSet)
    → IsValid (create n)
      × IsValid (clear s)
      × (in_set (clear s) q ≡ false)
      × (in_set (create n) q ≡ false)
unfolding create
create-clear-IsValid n q s =
    let v = clear-IsValid s in
    let c = resize-IsValid nothing nothing-IsValid n (omega arith) in
    (c, v, in_set-raw _ v q ∙ clear-raw s q, in_set-raw _ c q ∙ create-raw n q)
