-- ===== src/Xml/Strings.antt =====
-- What is printed for a node is one C string.
use xdebug.Prelude.{
  ℕ, ◌≡◌, refl, Bool, true, false, Option, none, some, List, [], ◌∷◌, Bytes, codes, ◌==◌,
  if◌then◌else◌, arith, All, All-append,
}
use xdebug.Base64.{base64_encode}
use xdebug.Base64.Letters.{base64_encode-NoNul}
use xdebug.Base64.RoundTrip.{AllBytes}
use xdebug.Xml.Encode.{encode_byte, escape, xmlize, xmlize-escape}
use xdebug.Xml.Build.{Attribute, Text, Node, null, node, c_string, with_encoding, return_text_node}
use xdebug.Xml.Reader.Attributes.{by_byte, print_attributes}
use xdebug.Xml.Reader.Texts.{IsText, print_text}
use xdebug.Xml.Reader.Nodes.{print_nodes, IsReadable}

abbrev pub NoNul : Bytes → Type 0
NoNul = All (λ c. (c == 0) ≡ false)

-- No element has a NUL in its name.
abbrev pub NamesNoNul : Node → Type 0
NamesNoNul null = Unit
NamesNoNul (node tag text attribute child next) = NoNul tag × NamesNoNul child × NamesNoNul next

pub c_string-NoNul : (s : Bytes) → NoNul s → c_string s ≡ s
unfolding c_string
c_string-NoNul [] h = refl
c_string-NoNul (c ∷ s) (h, hs) = rw (h, c_string-NoNul s hs)

NoNul-c_string : (s : Bytes) → NoNul (c_string s)
unfolding c_string
NoNul-c_string [] = tt
NoNul-c_string (c ∷ s) = ground (arith, NoNul-c_string s)

NoNul-encode_byte : (c : ℕ) → NoNul (encode_byte c)
NoNul-encode_byte =
    by_byte (λ c e. NoNul e) (ground arith) (ground arith) (ground arith) (ground arith)
      (ground arith) (ground arith) (ground arith) (ground arith) (λ c nul amp quote. (nul, tt))

NoNul-escape : (s : Bytes) → NoNul (escape s)
unfolding escape
NoNul-escape [] = tt
NoNul-escape (c ∷ s) = All-append _ _ _ (NoNul-encode_byte c) (NoNul-escape s)

NoNul-xmlize : (s : Bytes) → NoNul (xmlize s)
NoNul-xmlize s = rw (xmlize-escape s) (NoNul-escape s)

NoNul-print_attributes : (attribute : List Attribute) → NoNul (print_attributes attribute)
unfolding print_attributes
NoNul-print_attributes [] = tt
NoNul-print_attributes (a ∷ attribute) = (
  refl,
  All-append _ (xmlize a.name) _ (NoNul-xmlize a.name) (
    refl,
    (
      refl,
      All-append _ (xmlize a.value) _ (NoNul-xmlize a.value)
          (refl, NoNul-print_attributes attribute),
    ),
  ),
)

NoNul-print_text : (text : Option Text) → IsText text → NoNul (print_text text)
unfolding print_text return_text_node
NoNul-print_text none h = tt
NoNul-print_text (some t) h =
    let inner : NoNul (if t.encode then base64_encode t.text else c_string t.text) =
      NoNul-if t.encode t.text h.0 in
    All-append _ (codes "<![CDATA[") _ (ground arith)
      (All-append _ _ _ inner (refl, (refl, (refl, tt))))
  where
    NoNul-if :
        (encode : Bool) (s : Bytes)
        → AllBytes s
        → NoNul (if encode then base64_encode s else c_string s)
    NoNul-if true s h = base64_encode-NoNul s h
    NoNul-if false s h = NoNul-c_string s

pub NoNul-print_nodes : (n : Node) → IsReadable n → NamesNoNul n → NoNul (print_nodes n)
unfolding print_nodes
NoNul-print_nodes null r h = tt
NoNul-print_nodes (node tag text attribute child next) (t, x, e, rc, rn) (h, hc, hn) =
    let close = All-append _ tag _ h (refl, NoNul-print_nodes next rn hn) in
    let inner = All-append _ (print_text text) _ (NoNul-print_text text x) (refl, (refl, close)) in
    let body = All-append _ (print_nodes child) _ (NoNul-print_nodes child rc hc) inner in
    (
      refl,
      All-append _ tag _ h
          (All-append _ _ _ (NoNul-print_attributes (with_encoding text attribute)) (refl, body)),
    )
