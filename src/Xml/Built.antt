-- ===== src/Xml/Built.antt =====
-- The nodes that the operations of src/lib/xml.c build can be read.
use xdebug.Prelude.{
  ◌≡◌, refl, Bool, false, ◌&&◌, Option, none, some, List, [], ◌∷◌, ◌++◌, Bytes, codes, equal,
  equal_iff, inl, inr, Bool-cases, arith,
}
use xdebug.Base64.RoundTrip.{AllBytes}
use xdebug.Xml.Build.{
  Attribute, Node, null, node, node_init, add_attribute, get_value, expand_value,
  expand_attribute_value, append_sibling, add_child, add_text_ex,
}
use xdebug.Xml.Reader.{is_encoded}
use xdebug.Xml.Reader.Nodes.{IsTag, IsReadable}
use xdebug.Xml.Strings.{NoNul, NamesNoNul}

-- A node that is built by the operations: its elements have names, no attribute that is added says
-- that the text is in base64, and texts are bytes.
pub data Built : Node → Type 0 where
  initial : (tag : Bytes) → IsTag tag → NoNul tag → Built (node_init tag)
  with_attribute :
      {n : Node}
      → Built n
      → (name value : Bytes)
      → (equal name (codes "encoding") && equal value (codes "base64")) ≡ false
      → Built (add_attribute n name value)
  with_expanded :
      {n : Node}
      → Built n
      → (name v : Bytes) → equal name (codes "encoding") ≡ false
      → Built (expand_attribute_value n name v)
  with_text :
      {n : Node}
      → Built n
      → (t : Bytes) → (encode : Bool) → AllBytes t
      → Built (add_text_ex n t encode)
  with_child : {n c : Node} → Built n → Built c → Built (add_child n c)

-- what holds of such a node
pub record IsPrintable (n : Node) : Type 0 where
  pub readable : IsReadable n
  pub names : NamesNoNul n

is_encoded-append :
    (attribute : List Attribute) (a : Attribute)
    → is_encoded attribute ≡ false
    → (equal a.name (codes "encoding") && equal a.value (codes "base64")) ≡ false
    → is_encoded (attribute ++ (a ∷ [])) ≡ false
unfolding is_encoded
is_encoded-append [] a h k = rw k
is_encoded-append (b ∷ attribute) a h k = ground (arith, is_encoded-append attribute a)

add_attribute-IsPrintable :
    (n : Node) (name value : Bytes)
    → IsPrintable n
    → (equal name (codes "encoding") && equal value (codes "base64")) ≡ false
    → IsPrintable (add_attribute n name value)
unfolding add_attribute
add_attribute-IsPrintable null name value p k = p
add_attribute-IsPrintable (node tag t attribute child next) name value p k =
    let (a, b, c, d, e) = p.readable in
    record { readable = (a, b, is_encoded-append attribute _ c k, d, e); names = p.names }

is_encoded-expand :
    (attribute : List Attribute) (name v : Bytes)
    → is_encoded attribute ≡ false
    → equal name (codes "encoding") ≡ false
    → is_encoded (expand_value attribute name v) ≡ false
unfolding is_encoded expand_value
is_encoded-expand [] name v h k = refl
is_encoded-expand (a ∷ attribute) name v h k = elim (Bool-cases (equal a.name name)) [
  | inl same ↦
      let e : equal a.name (codes "encoding") ≡ false = rw ((equal_iff a.name name).0 same) k in
      ground arith
  | inr other ↦ ground (arith, is_encoded-expand attribute name v)
]

expand_attribute_value-IsPrintable :
    (n : Node) (name v : Bytes)
    → IsPrintable n
    → equal name (codes "encoding") ≡ false
    → IsPrintable (expand_attribute_value n name v)
unfolding expand_attribute_value
expand_attribute_value-IsPrintable null name v p k = p
expand_attribute_value-IsPrintable (node tag t attribute child next) name v p k =
    let (a, b, c, d, e) = p.readable in
    elim (get_value attribute name) as (λ found. IsPrintable (expanded_by found)) [
      | some _ ↦ record {
        readable = (a, b, is_encoded-expand attribute name v c k, d, e);
        names = p.names;
      }
      | none ↦ add_attribute-IsPrintable (node tag t attribute child next) name v p (rw k)
    ]
  where
    expanded_by : Option Bytes → Node
    expanded_by (some _) = node tag t (expand_value attribute name v) child next
    expanded_by none = add_attribute (node tag t attribute child next) name v

append_sibling-IsPrintable :
    (n c : Node) → IsPrintable n → IsPrintable c → IsPrintable (append_sibling n c)
unfolding append_sibling
append_sibling-IsPrintable null c p q = q
append_sibling-IsPrintable (node tag t attribute first next) c p q =
    let (a, b, e, d, r) = p.readable in
    let (x, y, z) = p.names in
    let more = append_sibling-IsPrintable next c (record { readable = r; names = z }) q in
    record { readable = (a, b, e, d, more.readable); names = (x, y, more.names) }

add_child-IsPrintable : (n c : Node) → IsPrintable n → IsPrintable c → IsPrintable (add_child n c)
unfolding add_child
add_child-IsPrintable null c p q = p
add_child-IsPrintable (node tag t attribute first next) c p q =
    let (a, b, e, d, r) = p.readable in
    let (x, y, z) = p.names in
    let more = append_sibling-IsPrintable first c (record { readable = d; names = y }) q in
    record { readable = (a, b, e, more.readable, r); names = (x, more.names, z) }

add_text_ex-IsPrintable :
    (n : Node) (t : Bytes) (encode : Bool)
    → IsPrintable n
    → AllBytes t
    → IsPrintable (add_text_ex n t encode)
unfolding add_text_ex
add_text_ex-IsPrintable null t encode p h = p
add_text_ex-IsPrintable (node tag old attribute child next) t encode p h =
    let (a, b, c, d, e) = p.readable in
    record { readable = (a, (h, ground arith), c, d, e); names = p.names }

-- Every node that is built can be printed and read.
pub Built-IsPrintable : {n : Node} → Built n → IsPrintable n
Built-IsPrintable (initial tag t h) =
    unfold node_init is_encoded in record { readable = (t, tt, refl, tt, tt); names = (h, tt, tt) }
Built-IsPrintable (with_attribute b name value k) =
    add_attribute-IsPrintable _ name value (Built-IsPrintable b) k
Built-IsPrintable (with_expanded b name v k) =
    expand_attribute_value-IsPrintable _ name v (Built-IsPrintable b) k
Built-IsPrintable (with_text b t encode h) =
    add_text_ex-IsPrintable _ t encode (Built-IsPrintable b) h
Built-IsPrintable (with_child b c) =
    add_child-IsPrintable _ _ (Built-IsPrintable b) (Built-IsPrintable c)
