-- ===== src/Base64.antt =====
-- The base64 code of src/lib/compat.c, for the conditions of breakpoints and the texts of replies.
pub mod RoundTrip
pub mod Letters
use Prim.Native.Nat.{bit_or}
use xdebug.Prelude.{
  ℕ, zero, suc, ◌+◌, ◌*◌, ◌/◌, ◌%◌, Bool, true, false, ◌&&◌, ◌||◌, not, Option, none, some, List,
  [], ◌∷◌, ◌++◌, Bytes, codes, replicate, get_or, ltb, ◌==◌, if◌then◌else◌,
}

-- base64_table
abbrev pub base64_table : Bytes
base64_table = codes "ABCDEFGHIJKLMNOPQRSTUVWXYZabcdefghijklmnopqrstuvwxyz0123456789+/"

abbrev pub base64_pad : ℕ
base64_pad = b'='

-- base64_table[i]
unfoldable pub letter : ℕ → ℕ
letter i = get_or base64_table i 0

-- an entry of base64_reverse_table: the value of a letter, -1 or -2
pub data Reverse : Type 0 where
  code : ℕ → Reverse
  white : Reverse
  bad : Reverse

codes_from : ℕ → ℕ → List Reverse
codes_from start zero = []
codes_from start (suc n) = code start ∷ codes_from (start + 1) n

-- base64_reverse_table
unfoldable pub reverse_table : List Reverse
unfolding codes_from
reverse_table =
    replicate 9 bad
    ++ (replicate 2 white
        ++ (replicate 2 bad
            ++ (white
                ∷ (replicate 18 bad
                    ++ (white
                        ∷ (replicate 10 bad
                            ++ (code 62
                                ∷ (replicate 3 bad
                                    ++ (code 63
                                        ∷ (codes_from 52 10
                                            ++ (replicate 7 bad
                                                ++ (codes_from 0 26
                                                    ++ (replicate 6 bad
                                                        ++ (codes_from 26 26
                                                            ++ replicate 133 bad))))))))))))))

unfoldable pub reverse_of : ℕ → Reverse
unfolding reverse_table
reverse_of ch = get_or reverse_table ch bad

-- xdebug_base64_encode: three bytes at a time, then the one or two that are left
unfoldable pub base64_encode : Bytes → Bytes
base64_encode [] = []
base64_encode (a ∷ []) = letter (a / 4) ∷ letter (a % 4 * 16) ∷ base64_pad ∷ base64_pad ∷ []
base64_encode (a ∷ b ∷ []) =
    letter (a / 4) ∷ letter (a % 4 * 16 + b / 16) ∷ letter (b % 16 * 4) ∷ base64_pad ∷ []
base64_encode (a ∷ b ∷ c ∷ s) =
    letter (a / 4)
    ∷ letter (a % 4 * 16 + b / 16)
    ∷ letter (b % 16 * 4 + c / 64)
    ∷ letter (c % 64)
    ∷ base64_encode s

-- The local variables of xdebug_base64_decode_impl: `done` is `out` up to `j`, and `part` the byte
-- at `j`.
pub record Decoder : Type 0 where
  pub i : ℕ
  pub padding : ℕ
  pub done : Bytes
  pub part : ℕ

-- the switch on `i % 4`, and `i++`
unfoldable pub add_code : ℕ → Decoder → ℕ → Decoder
add_code zero d ch = record d { i = suc d.i; part = ch * 4 }
add_code (suc zero) d ch = record d {
  i = suc d.i;
  done = d.done ++ (bit_or d.part (ch / 16) ∷ []);
  part = ch % 16 * 16;
}
add_code (suc (suc zero)) d ch = record d {
  i = suc d.i;
  done = d.done ++ (bit_or d.part (ch / 4) ∷ []);
  part = ch % 4 * 64;
}
add_code (suc (suc (suc _))) d ch = record d {
  i = suc d.i;
  done = d.done ++ (bit_or d.part ch ∷ []);
}

-- a byte that is not the pad
unfoldable pub decode_code : Bool → Decoder → Reverse → Option Decoder
decode_code strict d (code ch) =
    if strict && not (d.padding == 0) then none else some (add_code (d.i % 4) d ch)
decode_code strict d white = some d
decode_code strict d bad = if strict then none else some d

-- the body of the loop; `none` is `goto fail`
unfoldable pub decode_byte : Bool → Decoder → ℕ → Option Decoder
decode_byte strict d ch =
    if ch == base64_pad
    then some (record d { padding = suc d.padding })
    else decode_code strict d (reverse_of ch)

unfoldable pub decode_from : Bool → Decoder → Bytes → Option Decoder
decode_from strict d [] = some d
decode_from strict d (ch ∷ s) = elim (decode_byte strict d ch) [
  | none ↦ none
  | some d' ↦ decode_from strict d' s
]

-- the two checks behind the loop
unfoldable pub check_end : Bool → Decoder → Option Bytes
check_end strict d =
    if strict && d.i % 4 == 1
    then none
    else if strict && not (d.padding == 0) && (ltb 2 d.padding || not ((d.i + d.padding) % 4 == 0))
    then none
    else some d.done

-- xdebug_base64_decode_impl, from the start of `out`
unfoldable pub base64_decode_impl : Bool → Bytes → Option Bytes
base64_decode_impl strict s =
    elim (decode_from strict (record { i = 0; padding = 0; done = []; part = 0 }) s) [
      | none ↦ none
      | some d ↦ check_end strict d
    ]

-- xdebug_base64_decode
unfoldable pub base64_decode : Bytes → Option Bytes
base64_decode s = base64_decode_impl true s
