-- ===== src/Xml/Reader/Texts.antt =====
-- CDATA sections are read back.
use xdebug.Prelude.{
  ◌≡◌, refl, Bool, true, false, ◌||◌, not, Option, none, some, List, [], ◌∷◌, ◌++◌, append_assoc,
  Bytes, codes, equal, ◌==◌, if◌then◌else◌, arith, All,
}
use xdebug.Base64.{base64_encode}
use xdebug.Base64.Letters.{base64_encode-NoBracket}
use xdebug.Base64.RoundTrip.{AllBytes, base64_decode-encode}
use xdebug.Xml.Build.{
  Attribute, Text, c_string, starts_with, strstr, cdata_end, return_text_node, with_encoding,
}
use xdebug.Xml.Reader.{cut, expect, is_encoded, read_content, read_text}

-- A text without the end of a section is cut off at the end that is put behind it.
cut_cdata :
    (s rest : Bytes)
    → strstr s cdata_end ≡ false
    → cut cdata_end (s ++ (b']' ∷ b']' ∷ b'>' ∷ rest)) ≡ some (s, rest)
unfolding cut strstr starts_with
cut_cdata [] rest h = refl
cut_cdata (c ∷ []) rest h = ground arith
cut_cdata (c ∷ d ∷ []) rest h = ground (arith, cut_cdata (d ∷ []) rest)
cut_cdata (c ∷ d ∷ e ∷ s) rest h = ground (arith, cut_cdata (d ∷ e ∷ s) rest)

abbrev NoBracket : Bytes → Type 0
NoBracket = All (λ c. (c == b']') ≡ false)

strstr-NoBracket : (s : Bytes) → NoBracket s → strstr s cdata_end ≡ false
unfolding strstr starts_with
strstr-NoBracket [] h = refl
strstr-NoBracket (c ∷ s) (h, hs) = ground (arith, strstr-NoBracket s hs)

-- Bytes that are encoded, or that have no end of a section before their NUL.
abbrev pub IsText : Option Text → Type 0
IsText none = Unit
IsText (some t) = AllBytes t.text × ((t.encode || not (strstr (c_string t.text) cdata_end)) ≡ true)

-- the text as it is read: a text that is not encoded ends at its NUL
abbrev pub seen_text : Option Text → Option Text
seen_text none = none
seen_text (some t) = some (record t { text = if t.encode then t.text else c_string t.text })

is_encoded-append :
    (attribute more : List Attribute)
    → is_encoded (attribute ++ more) ≡ (is_encoded attribute || is_encoded more)
unfolding is_encoded
is_encoded-append [] more = refl
is_encoded-append (a ∷ attribute) more = ground (arith, is_encoded-append attribute more)

-- what stands before the closing tag
unfoldable pub print_text : Option Text → Bytes
print_text text = return_text_node text []

read_encoded :
    (attribute : List Attribute) (t rest : Bytes)
    → AllBytes t
    → is_encoded attribute ≡ true
    → read_text
        (is_encoded attribute)
        (codes "<![CDATA[" ++ (base64_encode t ++ (b']' ∷ b']' ∷ b'>' ∷ rest)))
      ≡ some (some (record { text = t; encode = true }), rest)
unfolding read_text expect starts_with read_content
read_encoded attribute t rest h e = rw (
  e,
  cut_cdata (base64_encode t) rest (strstr-NoBracket _ (base64_encode-NoBracket t h)),
  base64_decode-encode t h,
)

read_plain :
    (attribute : List Attribute) (t rest : Bytes)
    → strstr t cdata_end ≡ false
    → is_encoded attribute ≡ false
    → read_text (is_encoded attribute) (codes "<![CDATA[" ++ (t ++ (b']' ∷ b']' ∷ b'>' ∷ rest)))
      ≡ some (some (record { text = t; encode = false }), rest)
unfolding read_text expect starts_with read_content
read_plain attribute t rest h e = rw (e, cut_cdata t rest h)

with_encoding-encoded :
    (attribute : List Attribute) (t : Bytes)
    → is_encoded (with_encoding (some (record { text = t; encode = true })) attribute) ≡ true
unfolding with_encoding is_encoded equal
with_encoding-encoded [] t = refl
with_encoding-encoded (a ∷ attribute) t = ground (arith, with_encoding-encoded attribute t)

read_text_at :
    (encode : Bool) (t : Bytes) (attribute : List Attribute) (rest : Bytes)
    → IsText (some (record { text = t; encode = encode }))
    → is_encoded attribute ≡ false
    → let text : Option Text = some (record { text = t; encode = encode }) in
      read_text
        (is_encoded (with_encoding text attribute))
        (print_text text ++ (b'<' ∷ b'/' ∷ rest))
      ≡ some (seen_text text, b'<' ∷ b'/' ∷ rest)
unfolding return_text_node print_text with_encoding
read_text_at true t attribute rest (h, k) e = simp append_assoc (
    read_encoded (with_encoding (some (record { text = t; encode = true })) attribute) t _ h
      (with_encoding-encoded attribute t))
read_text_at false t attribute rest (h, k) e =
    simp append_assoc (read_plain attribute (c_string t) _ (ground arith) e)

-- What is printed for a text is read back, with the attribute that tells how.
pub read_text-print :
    (text : Option Text) (attribute : List Attribute) (rest : Bytes)
    → IsText text
    → is_encoded attribute ≡ false
    → read_text
        (is_encoded (with_encoding text attribute))
        (print_text text ++ (b'<' ∷ b'/' ∷ rest))
      ≡ some (seen_text text, b'<' ∷ b'/' ∷ rest)
read_text-print none attribute rest h e =
    unfold print_text return_text_node read_text expect starts_with in refl
read_text-print (some t) attribute rest h e = read_text_at t.encode t.text attribute rest h e
