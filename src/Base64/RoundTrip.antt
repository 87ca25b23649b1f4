-- ===== src/Base64/RoundTrip.antt =====
-- What base64 encodes is decoded again.
use Prim.Native.Nat.{bit_or}
use xdebug.Prelude.{
  ℕ, suc, ◌+◌, ◌*◌, ◌/◌, ◌%◌, ◌<◌, ◌≡◌, refl, ◌∙◌, ap, Bool, true, false, ◌&&◌, not, Option, none,
  some, [], ◌∷◌, ◌++◌, append-nil, append_assoc, Bytes, ◌==◌, ==_iff, arith, All, all_below,
  all_below_at,
}
use xdebug.Base64.{
  base64_pad, letter, code, Reverse, reverse_of, base64_encode, Decoder, add_code, decode_code,
  decode_byte, decode_from, check_end, base64_decode_impl, base64_decode,
}

abbrev reads_back : ℕ → Bool
reads_back v = elim (reverse_of (letter v)) [ code w ↦ v == w | _ ↦ false ]

letters_table : all_below 64 (λ v. reads_back v && not (letter v == base64_pad)) ≡ true
unfolding all_below reverse_of letter
letters_table = refl

code_of : (v : ℕ) (r : Reverse) → (elim r [ code w ↦ v == w | _ ↦ false ]) ≡ true → r ≡ code v
code_of v (code w) h = ground arith
code_of v _ h = cc

both_true : (a b : Bool) → (a && b) ≡ true → (a ≡ true) × (b ≡ true)
both_true true b h = (refl, h)
both_true false b h = cc

-- A letter is the code it was made of.
decode_letter :
    (k : ℕ) (d : Decoder) (v : ℕ) (s : Bytes)
    → d.i % 4 ≡ k
    → v < 64
    → d.padding ≡ 0
    → decode_from true d (letter v ∷ s) ≡ decode_from true (add_code k d v) s
unfolding decode_from decode_byte decode_code
decode_letter k d v s e h p =
    let facts : (reads_back v && not (letter v == base64_pad)) ≡ true =
      all_below_at 64 _ v letters_table h in
    let back : reads_back v ≡ true =
      (both_true (reads_back v) (not (letter v == base64_pad)) facts).0 in
    let no_pad : not (letter v == base64_pad) ≡ true =
      (both_true (reads_back v) (not (letter v == base64_pad)) facts).1 in
    ground (arith, code_of v (reverse_of (letter v)) back)

bits_table :
    all_below 256 (λ a.
      bit_or (a / 4 * 4) (a % 4) == a
      && (bit_or (a / 16 * 16) (a % 16) == a && bit_or (a / 64 * 64) (a % 64) == a))
    ≡ true
unfolding all_below
bits_table = refl

-- A byte is put together again from its upper and its lower bits.
joined :
    (a : ℕ)
    → a < 256
    → (bit_or (a / 4 * 4) (a % 4) ≡ a)
      × (bit_or (a / 16 * 16) (a % 16) ≡ a)
      × (bit_or (a / 64 * 64) (a % 64) ≡ a)
joined a h =
    let (two, rest) = both_true _ _ (all_below_at 256 _ a bits_table h) in
    let (four, six) = both_true _ _ rest in
    ((==_iff _ a).0 two, (==_iff _ a).0 four, (==_iff _ a).0 six)

-- the decoder at the start of a group of four letters
record IsOpen (d : Decoder) : Type 0 where
  whole : d.i % 4 ≡ 0
  unpadded : d.padding ≡ 0

abbrev after_two : Decoder → ℕ → ℕ → Decoder
after_two d a b = record d { i = suc (suc d.i); done = d.done ++ (a ∷ []); part = b }

abbrev after_three : Decoder → ℕ → ℕ → ℕ → Decoder
after_three d a b c = record d {
  i = suc (suc (suc d.i));
  done = d.done ++ (a ∷ []) ++ (b ∷ []);
  part = c;
}

abbrev after_four : Decoder → ℕ → ℕ → ℕ → Decoder
after_four d a b c = record d {
  i = suc (suc (suc (suc d.i)));
  done = d.done ++ (a ∷ []) ++ (b ∷ []) ++ (c ∷ []);
  part = c / 64 * 64;
}

module _ (d : Decoder) (o : IsOpen d) (a : ℕ) (ha : a < 256) where
  decode_two :
      (b : ℕ) (s : Bytes)
      → b < 256
      → decode_from true d (letter (a / 4) ∷ letter (a % 4 * 16 + b / 16) ∷ s)
        ≡ decode_from true (after_two d a (b / 16 * 16)) s
  unfolding add_code
  decode_two b s hb =
      decode_letter 0 d (a / 4) _ o.whole (omega arith) o.unpadded
      ∙ decode_letter 1 (record d { i = suc d.i; part = a / 4 * 4 }) (a % 4 * 16 + b / 16) s
          (omega (arith, o.whole)) (omega arith) o.unpadded
      ∙ (let upper : (a % 4 * 16 + b / 16) / 16 ≡ a % 4 = omega arith in
          let lower : (a % 4 * 16 + b / 16) % 16 ≡ b / 16 = omega arith in
          rw (upper, lower, (joined a ha).0))

  decode_three :
      (b c : ℕ) (s : Bytes)
      → b < 256
      → c < 256
      → decode_from true d
          (letter (a / 4) ∷ letter (a % 4 * 16 + b / 16) ∷ letter (b % 16 * 4 + c / 64) ∷ s)
        ≡ decode_from true (after_three d a b (c / 64 * 64)) s
  unfolding add_code
  decode_three b c s hb hc =
      decode_two b _ hb
      ∙ decode_letter 2 (after_two d a (b / 16 * 16)) (b % 16 * 4 + c / 64) s
          (omega (arith, o.whole)) (omega arith) o.unpadded
      ∙ (let upper : (b % 16 * 4 + c / 64) / 4 ≡ b % 16 = omega arith in
          let lower : (b % 16 * 4 + c / 64) % 4 ≡ c / 64 = omega arith in
          rw (upper, lower, (joined b hb).1))

  decode_four :
      (b c : ℕ) (s : Bytes)
      → b < 256
      → c < 256
      → decode_from true d (
          letter (a / 4)
          ∷ letter (a % 4 * 16 + b / 16)
          ∷ letter (b % 16 * 4 + c / 64)
          ∷ letter (c % 64)
          ∷ s)
        ≡ decode_from true (after_four d a b c) s
  unfolding add_code
  decode_four b c s hb hc =
      decode_three b c _ hb hc
      ∙ decode_letter 3 (after_three d a b (c / 64 * 64)) (c % 64) s (omega (arith, o.whole))
          (omega arith) o.unpadded
      ∙ rw ((joined c hc).2)

abbrev pub AllBytes : Bytes → Type 0
AllBytes = All (λ c. c < 256)

-- the end of xdebug_base64_decode_impl
abbrev finish : Decoder → Bytes → Option Bytes
finish d s = elim (decode_from true d s) [ none ↦ none | some e ↦ check_end true e ]

-- a stop at the end of a group, and behind two or one pads
finish_none : (d : Decoder) → IsOpen d → finish d [] ≡ some d.done
unfolding decode_from check_end
finish_none d o = ground (arith, o.whole, o.unpadded)

finish_two :
    (d : Decoder)
    → IsOpen d
    → (a b : ℕ)
    → finish (after_two d a b) (base64_pad ∷ base64_pad ∷ []) ≡ some (d.done ++ (a ∷ []))
unfolding decode_from decode_byte check_end
finish_two d o a b = ground (arith, o.whole, o.unpadded)

finish_three :
    (d : Decoder)
    → IsOpen d
    → (a b c : ℕ)
    → finish (after_three d a b c) (base64_pad ∷ []) ≡ some (d.done ++ (a ∷ []) ++ (b ∷ []))
unfolding decode_from decode_byte check_end
finish_three d o a b c = ground (arith, o.whole, o.unpadded)

abbrev at_end : Option Decoder → Option Bytes
at_end x = elim x [ none ↦ none | some e ↦ check_end true e ]

finish-encode :
    (s : Bytes) (d : Decoder)
    → IsOpen d
    → AllBytes s
    → finish d (base64_encode s) ≡ some (d.done ++ s)
unfolding base64_encode
finish-encode [] d o all = rw append-nil (finish_none d o)
finish-encode (a ∷ []) d o all =
    let tail : a % 4 * 16 ≡ a % 4 * 16 + 0 / 16 = omega arith in
    ap (λ v. finish d (letter (a / 4) ∷ letter v ∷ base64_pad ∷ base64_pad ∷ [])) tail
    ∙ ap at_end (decode_two d o a all.0 0 _ (omega arith))
    ∙ finish_two d o a _
finish-encode (a ∷ b ∷ []) d o all =
    let tail : b % 16 * 4 ≡ b % 16 * 4 + 0 / 64 = omega arith in
    ap (λ v. finish d (letter (a / 4) ∷ letter (a % 4 * 16 + b / 16) ∷ letter v ∷ base64_pad ∷ []))
      tail
    ∙ ap at_end (decode_three d o a all.0 b 0 _ all.1.0 (omega arith))
    ∙ finish_three d o a b _
    ∙ rw append_assoc
finish-encode (a ∷ b ∷ c ∷ s) d o (ha, (hb, (hc, all))) =
    let o' : IsOpen (after_four d a b c) = record {
      whole = omega (arith, o.whole);
      unpadded = o.unpadded;
    } in
    ap at_end (decode_four d o a ha b c (base64_encode s) hb hc)
    ∙ finish-encode s (after_four d a b c) o' all
    ∙ simp append_assoc

-- Every string of bytes is decoded from its code, as a whole.
pub base64_decode-encode : (s : Bytes) → AllBytes s → base64_decode (base64_encode s) ≡ some s
unfolding base64_decode base64_decode_impl
base64_decode-encode s all = finish-encode s _ (record { whole = refl; unpadded = refl }) all
