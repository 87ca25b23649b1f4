-- ===== src/Xml/Reader/Attributes.antt =====
-- Escaped strings and attributes are read back.
use xdebug.Prelude.{
  equal, ℕ, zero, suc, ◌<◌, ◌≡◌, refl, sym, ◌∙◌, false, none, some, List, [], ◌∷◌, ◌++◌, append-nil,
  append_assoc, Bytes, codes, length, ◌==◌, ==_iff, arith, All, All-append, inl, inr, Bool-cases,
}
use xdebug.Xml.Encode.{encode_byte, xml_encode_count, xml_encode_map, escape, xmlize, xmlize-escape}
use xdebug.Xml.Build.{Attribute, starts_with, return_attribute}
use xdebug.Xml.Reader.{◌>>=◌, entity, unescape, cut, expect, read_attributes}

-- What is written for a byte: one of eight entities, or a byte that is neither NUL nor `&` nor a quote.
pub by_byte :
    (P : ℕ → Bytes → Type 0)
    → P 0 (codes "&#0;")
    → P 10 (codes "&#10;")
    → P 13 (codes "&#13;")
    → P b'"' (codes "&quot;")
    → P b'&' (codes "&amp;")
    → P b'\'' (codes "&#39;")
    → P b'<' (codes "&lt;")
    → P b'>' (codes "&gt;")
    → ((c : ℕ) → (c == 0) ≡ false → (c == b'&') ≡ false → (c == b'"') ≡ false → P c (c ∷ []))
    → (c : ℕ) → P c (encode_byte c)
unfolding encode_byte xml_encode_count xml_encode_map
by_byte P nul lf cr quot amp apos lt gt plain c = elim (Bool-cases (c == 0)) [
  | inl e ↦ rw ((==_iff c 0).0 e) nul
  | inr n0 ↦ elim (Bool-cases (c == 10)) [
    | inl e ↦ rw ((==_iff c 10).0 e) lf
    | inr n1 ↦ elim (Bool-cases (c == 13)) [
      | inl e ↦ rw ((==_iff c 13).0 e) cr
      | inr n2 ↦ elim (Bool-cases (c == b'"')) [
        | inl e ↦ rw ((==_iff c b'"').0 e) quot
        | inr n3 ↦ elim (Bool-cases (c == b'&')) [
          | inl e ↦ rw ((==_iff c b'&').0 e) amp
          | inr n4 ↦ elim (Bool-cases (c == b'\'')) [
            | inl e ↦ rw ((==_iff c b'\'').0 e) apos
            | inr n5 ↦ elim (Bool-cases (c == b'<')) [
              | inl e ↦ rw ((==_iff c b'<').0 e) lt
              | inr n6 ↦ elim (Bool-cases (c == b'>')) [
                | inl e ↦ rw ((==_iff c b'>').0 e) gt
                | inr n7 ↦ rw (n0, n6, n7, n1, n2, n4, n5, n3) (plain c n0 n4 n3)
              ]
            ]
          ]
        ]
      ]
    ]
  ]
]

unescape_plain :
    (c : ℕ) (s : Bytes)
    → (c == b'&') ≡ false
    → unescape none (c ∷ s) ≡ (unescape none s >>= λ t. some (c ∷ t))
unfolding unescape
unescape_plain c s h = ground arith

unescape-encode_byte :
    (c : ℕ) (s : Bytes)
    → unescape none (encode_byte c ++ s) ≡ (unescape none s >>= λ t. some (c ∷ t))
unfolding unescape entity equal
unescape-encode_byte c s =
    by_byte (λ c e. unescape none (e ++ s) ≡ (unescape none s >>= λ t. some (c ∷ t))) refl refl refl
      refl refl refl refl refl (λ c nul amp quote. unescape_plain c s amp) c

-- An escaped string stands for the string.
pub unescape-escape : (s : Bytes) → unescape none (escape s) ≡ some s
unfolding escape
unescape-escape [] = unfold unescape in refl
unescape-escape (c ∷ s) = unescape-encode_byte c (escape s) ∙ rw (unescape-escape s)

-- no quote among the bytes
abbrev pub NoQuote : Bytes → Type 0
NoQuote = All (λ c. (c == b'"') ≡ false)

NoQuote-encode_byte : (c : ℕ) → NoQuote (encode_byte c)
NoQuote-encode_byte =
    by_byte (λ c e. NoQuote e) (ground arith) (ground arith) (ground arith) (ground arith)
      (ground arith) (ground arith) (ground arith) (ground arith) (λ c nul amp quote. (quote, tt))

NoQuote-escape : (s : Bytes) → NoQuote (escape s)
unfolding escape
NoQuote-escape [] = tt
NoQuote-escape (c ∷ s) = All-append _ _ _ (NoQuote-encode_byte c) (NoQuote-escape s)

-- A string without a quote is cut off at the quote behind it.
cut_quote : (s rest : Bytes) → NoQuote s → cut (codes "\"") (s ++ (b'"' ∷ rest)) ≡ some (s, rest)
unfolding cut starts_with
cut_quote [] rest h = refl
cut_quote (c ∷ s) rest (h, hs) = ground (arith, cut_quote s rest hs)

cut_name :
    (s rest : Bytes) → NoQuote s → cut (codes "=\"") (s ++ (b'=' ∷ b'"' ∷ rest)) ≡ some (s, rest)
unfolding cut starts_with
cut_name [] rest h = refl
cut_name (c ∷ []) rest (h, hs) = ground arith
cut_name (c ∷ d ∷ s) rest (h, hs) = ground (arith, cut_name (d ∷ s) rest hs)

-- What the code prints for attributes, with nothing before it.
unfoldable pub print_attributes : List Attribute → Bytes
print_attributes [] = []
print_attributes (a ∷ attribute) =
    b' '
    ∷ (xmlize a.name ++ (b'=' ∷ b'"' ∷ (xmlize a.value ++ (b'"' ∷ print_attributes attribute))))

pub return_attribute_lem :
    (attribute : List Attribute) (output : Bytes)
    → return_attribute attribute output ≡ output ++ print_attributes attribute
unfolding return_attribute print_attributes
return_attribute_lem [] output = sym (append-nil output)
return_attribute_lem (a ∷ attribute) output = return_attribute_lem attribute _ ∙ simp append_assoc

-- Printed attributes are read back, up to the end of the tag.
pub read_attributes-print :
    (attribute : List Attribute) (fuel : ℕ) (rest : Bytes)
    → length attribute < fuel
    → read_attributes fuel (print_attributes attribute ++ (b'>' ∷ rest))
      ≡ some (attribute, b'>' ∷ rest)
unfolding read_attributes print_attributes expect starts_with
read_attributes-print attribute zero rest h = elim h [ ]
read_attributes-print [] (suc fuel) rest h = refl
read_attributes-print (a ∷ attribute) (suc fuel) rest h =
    let after = print_attributes attribute ++ (b'>' ∷ rest) in
    let name =
      cut_name (escape a.name) (escape a.value ++ (b'"' ∷ after)) (NoQuote-escape a.name) in
    let value = cut_quote (escape a.value) after (NoQuote-escape a.value) in
    let more = read_attributes-print attribute fuel rest (omega arith) in
    simp (append_assoc, xmlize-escape, name, value, unescape-escape, more)
