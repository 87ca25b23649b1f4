-- ===== src/Xml/Reader/Nodes.antt =====
-- Printed nodes are read back.
use xdebug.Prelude.{
  ℕ, zero, suc, ◌+◌, ◌<◌, ◌≤◌, ◌≡◌, refl, sym, ap, ◌∙◌, Bool, true, false, ◌||◌, Option, none, some,
  List, [], ◌∷◌, ◌++◌, append-nil, append_assoc, Bytes, codes, ◌==◌, arith, All, length,
  length-append, get_or,
}
use xdebug.Xml.Build.{
  Attribute, Text, Node, null, node, starts_with, return_text_node, with_encoding, return_node,
}
use xdebug.Xml.Reader.{expect, read_tag, is_encoded, opens, read_nodes}
use xdebug.Xml.Reader.Attributes.{print_attributes, return_attribute_lem, read_attributes-print}
use xdebug.Xml.Reader.Texts.{IsText, seen_text, print_text, read_text-print}

-- a name of an element: no space and no `>`, and neither `/` nor `!` at the front
abbrev pub IsTag : Bytes → Type 0
IsTag tag =
    All (λ c. (c == b' ' || c == b'>') ≡ false) tag
    × ((get_or tag 0 b'/' == b'/') ≡ false)
    × ((get_or tag 0 b'/' == b'!') ≡ false)

-- A node that can be read: its names, its texts, and no attribute of its own that says base64.
abbrev pub IsReadable : Node → Type 0
IsReadable null = Unit
IsReadable (node tag text attribute child next) =
    IsTag tag × IsText text × (is_encoded attribute ≡ false) × IsReadable child × IsReadable next

-- the nodes as the client reads them
abbrev pub seen : Node → Node
seen null = null
seen (node tag text attribute child next) =
    node tag (seen_text text) (with_encoding text attribute) (seen child) (seen next)

-- What the code prints for nodes, with nothing before it.
unfoldable pub print_nodes : Node → Bytes
print_nodes null = []
print_nodes (node tag text attribute child next) =
    b'<'
    ∷ (tag
        ++ (print_attributes (with_encoding text attribute)
            ++ (b'>'
                ∷ (print_nodes child
                    ++ (print_text text ++ (b'<' ∷ b'/' ∷ (tag ++ (b'>' ∷ print_nodes next))))))))

return_text_node_lem :
    (text : Option Text) (output : Bytes) → return_text_node text output ≡ output ++ print_text text
unfolding return_text_node print_text
return_text_node_lem none output = sym (append-nil output)
return_text_node_lem (some t) output = refl

pub return_node_lem :
    (n : Node) (output : Bytes) → (return_node n output).1 ≡ output ++ print_nodes n
unfolding return_node print_nodes
return_node_lem null output = sym (append-nil output)
return_node_lem (node tag text attribute child next) output =
    return_node_lem next _
    ∙ simp (return_text_node_lem, return_node_lem child, return_attribute_lem, append_assoc)

-- the fuel that reading takes
abbrev pub size : Node → ℕ
size null = 0
size (node tag text attribute child next) = suc (suc (length attribute + size child + size next))

-- a space or `>` ends the name of an element
abbrev stops : Bytes → Bool
stops s = get_or s 0 0 == b' ' || get_or s 0 0 == b'>'

read_tag-append :
    (tag rest : Bytes)
    → All (λ c. (c == b' ' || c == b'>') ≡ false) tag
    → stops rest ≡ true
    → read_tag (tag ++ rest) ≡ (tag, rest)
unfolding read_tag
read_tag-append [] [] h e = cc
read_tag-append [] (c ∷ rest) h e = ground arith
read_tag-append (c ∷ tag) rest (h, hs) e = ground (arith, read_tag-append tag rest hs e)

stops-attributes :
    (attribute : List Attribute) (rest : Bytes)
    → stops (print_attributes attribute ++ (b'>' ∷ rest)) ≡ true
unfolding print_attributes
stops-attributes [] rest = refl
stops-attributes (a ∷ attribute) rest = refl

opens-tag : (tag rest : Bytes) → IsTag tag → opens (b'<' ∷ (tag ++ rest)) ≡ true
unfolding opens starts_with
opens-tag [] rest h = ground arith
opens-tag (c ∷ tag) rest h = ground arith

opens-text :
    (text : Option Text) (rest : Bytes) → opens (print_text text ++ (b'<' ∷ b'/' ∷ rest)) ≡ false
unfolding opens starts_with return_text_node print_text
opens-text none rest = refl
opens-text (some t) rest = refl

pub expect-append : (word rest : Bytes) → expect word (word ++ rest) ≡ some rest
unfolding expect starts_with
expect-append [] rest = refl
expect-append (c ∷ word) rest = ground (arith, expect-append word rest)

expect_close :
    (tag rest : Bytes)
    → expect (codes "</" ++ (tag ++ codes ">")) (b'<' ∷ b'/' ∷ (tag ++ (b'>' ∷ rest))) ≡ some rest
expect_close tag rest =
    ap (λ s. expect (codes "</" ++ (tag ++ codes ">")) (b'<' ∷ b'/' ∷ s))
      (sym (append_assoc tag (codes ">") rest))
    ∙ expect-append (codes "</" ++ (tag ++ codes ">")) rest

length-with_encoding :
    (text : Option Text) (attribute : List Attribute)
    → length (with_encoding text attribute) ≤ suc (length attribute)
unfolding with_encoding
length-with_encoding none attribute = omega arith
length-with_encoding (some t) attribute = ground (
  arith,
  length-append attribute (record { name = codes "encoding"; value = codes "base64" } ∷ []),
)

pub read_nodes-print :
    (n : Node) (fuel : ℕ) (rest : Bytes)
    → IsReadable n
    → size n < fuel
    → opens rest ≡ false
    → read_nodes fuel (print_nodes n ++ rest) ≡ some (seen n, rest)
unfolding read_nodes print_nodes
read_nodes-print n zero rest r h o = elim h [ ]
read_nodes-print null (suc fuel) rest r h o = rw (o, read_nodes)
read_nodes-print (node tag text attribute child next) (suc fuel) rest (t, x, e, rc, rn) h o =
    let attrs = with_encoding text attribute in
    let behind = print_nodes next ++ rest in
    let end = tag ++ (b'>' ∷ behind) in
    let inner = print_nodes child ++ (print_text text ++ (b'<' ∷ b'/' ∷ end)) in
    let tagged =
      read_tag-append tag (print_attributes attrs ++ (b'>' ∷ inner)) t.0
        (stops-attributes attrs inner) in
    let fits : length attrs < fuel = omega (arith, length-with_encoding text attribute) in
    let first = read_nodes-print child fuel _ rc (omega arith) (opens-text text end) in
    let second = read_nodes-print next fuel rest rn (omega arith) o in
    let opened = opens-tag tag (print_attributes attrs ++ (b'>' ∷ inner)) t in
    let marked = read_text-print text attribute end x e in
    let closed = expect_close tag behind in
    simp append_assoc (
      rw (opened, read_nodes)
        (simp (
          tagged,
          read_attributes-print attrs fuel inner fits,
          expect-append (codes ">") inner,
          first,
          marked,
          closed,
          second,
        )))
