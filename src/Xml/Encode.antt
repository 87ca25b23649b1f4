-- ===== src/Xml/Encode.antt =====
-- xdebug_xmlize of src/lib/var.c, which makes a string fit for XML.
use xdebug.Prelude.{
  ℕ, ◌+◌, ◌≡◌, refl, sym, ◌||◌, [], ◌∷◌, ◌++◌, Bytes, codes, length, take, ◌==◌, ==_iff,
  if◌then◌else◌, if_true, if_false, arith, ◌≤◌, ◌∙◌, append-nil, append_assoc, inl, inr, Bool-cases,
}

-- xml_encode_count
unfoldable pub xml_encode_count : ℕ → ℕ
xml_encode_count c =
    if c == 0 || c == b'<' || c == b'>'
    then 4
    else if c == 10 || c == 13 || c == b'&' || c == b'\''
    then 5
    else if c == b'"'
    then 6
    else 1

-- xml_encode_map, where it is not NULL
unfoldable pub xml_encode_map : ℕ → Bytes
xml_encode_map c =
    if c == 0
    then codes "&#0;"
    else if c == 10
    then codes "&#10;"
    else if c == 13
    then codes "&#13;"
    else if c == b'"'
    then codes "&quot;"
    else if c == b'&'
    then codes "&amp;"
    else if c == b'\''
    then codes "&#39;"
    else if c == b'<'
    then codes "&lt;"
    else if c == b'>'
    then codes "&gt;"
    else []

-- the first loop, `encoded_string_length`
unfoldable pub encoded_length : Bytes → ℕ
encoded_length [] = 0
encoded_length (c ∷ s) = xml_encode_count c + encoded_length s

-- what the second loop writes for a byte
unfoldable pub encode_byte : ℕ → Bytes
encode_byte c =
    if xml_encode_count c == 1 then c ∷ [] else take (xml_encode_count c) (xml_encode_map c)

-- the second loop, behind what is written
unfoldable pub encode_loop : Bytes → Bytes → Bytes
encode_loop new_string [] = new_string
encode_loop new_string (c ∷ s) = encode_loop (new_string ++ encode_byte c) s

-- xdebug_xmlize
unfoldable pub xmlize : Bytes → Bytes
xmlize [] = []
xmlize (c ∷ s) = if encoded_length (c ∷ s) == length (c ∷ s) then c ∷ s else encode_loop [] (c ∷ s)

-- Each byte for itself, with no early return.
unfoldable pub escape : Bytes → Bytes
escape [] = []
escape (c ∷ s) = encode_byte c ++ escape s

encode_loop-escape : (new_string s : Bytes) → encode_loop new_string s ≡ new_string ++ escape s
unfolding encode_loop escape
encode_loop-escape new_string [] = sym (append-nil _)
encode_loop-escape new_string (c ∷ s) =
    encode_loop-escape (new_string ++ encode_byte c) s
    ∙ append_assoc new_string (encode_byte c) (escape s)

count-pos : (c : ℕ) → 1 ≤ xml_encode_count c
unfolding xml_encode_count
count-pos c = ground arith

length-le : (s : Bytes) → length s ≤ encoded_length s
unfolding encoded_length
length-le [] = omega arith
length-le (c ∷ s) = omega (arith, length-le s, count-pos c)

-- Where the length does not change no byte does.
escape_same : (s : Bytes) → encoded_length s ≡ length s → escape s ≡ s
unfolding encoded_length escape encode_byte
escape_same [] h = refl
escape_same (c ∷ s) h =
    let one : xml_encode_count c ≡ 1 = omega (arith, length-le s, count-pos c) in
    rw (one, escape_same s (omega (arith, length-le s, count-pos c)))

-- The early return makes no difference.
pub xmlize-escape : (s : Bytes) → xmlize s ≡ escape s
unfolding xmlize
xmlize-escape [] = unfold escape in refl
xmlize-escape (c ∷ s) = elim (Bool-cases (encoded_length (c ∷ s) == length (c ∷ s))) [
  | inl same ↦ if_true _ _ _ same ∙ sym (escape_same (c ∷ s) ((==_iff _ _).0 same))
  | inr other ↦ if_false _ _ _ other ∙ encode_loop-escape [] (c ∷ s)
]
