-- ===== src/Xml/Build.antt =====
-- Building and printing of nodes in src/lib/xml.c.
use xdebug.Prelude.{
  Bool, true, false, ◌&&◌, ◌||◌, Option, none, some, List, [], ◌∷◌, ◌++◌, Bytes, codes, equal, ◌==◌,
  if◌then◌else◌,
}
use xdebug.Base64.{base64_encode}
use xdebug.Xml.Encode.{xmlize}

-- struct _xdebug_xml_attribute
pub record Attribute : Type 0 where
  pub name : Bytes
  pub value : Bytes

-- struct _xdebug_xml_text_node; `text` has `text_len` bytes, and a NUL behind them
pub record Text : Type 0 where
  pub text : Bytes
  pub encode : Bool

-- struct _xdebug_xml_node, or NULL
pub data Node : Type 0 where
  null : Node
  node : Bytes → Option Text → List Attribute → Node → Node → Node

-- the bytes before the first NUL
unfoldable pub c_string : Bytes → Bytes
c_string [] = []
c_string (c ∷ s) = let rest = c_string s in if c == 0 then [] else c ∷ rest

unfoldable pub starts_with : Bytes → Bytes → Bool
starts_with [] s = true
starts_with (n ∷ needle) [] = false
starts_with (n ∷ needle) (c ∷ s) = n == c && starts_with needle s

-- strstr of the C library, as a truth value
unfoldable pub strstr : Bytes → Bytes → Bool
strstr [] needle = starts_with needle []
strstr (c ∷ s) needle = starts_with needle (c ∷ s) || strstr s needle

-- xdebug_xml_node_init_ex
unfoldable pub node_init : Bytes → Node
node_init tag = node tag none [] null null

-- xdebug_xml_add_attribute_exl
unfoldable pub add_attribute : Node → Bytes → Bytes → Node
add_attribute null name value = null
add_attribute (node tag text attribute child next) name value =
    node tag text (attribute ++ (record { name = name; value = value } ∷ [])) child next

-- xdebug_xml_get_attribute_value
unfoldable pub get_value : List Attribute → Bytes → Option Bytes
get_value [] name = none
get_value (a ∷ attribute) name =
    if equal a.name name then some a.value else get_value attribute name

unfoldable pub get_attribute_value : Node → Bytes → Option Bytes
get_attribute_value null name = none
get_attribute_value (node tag text attribute child next) name = get_value attribute name

-- the value that xdebug_xml_get_attribute_value points to, with a space and `v` behind it
unfoldable pub expand_value : List Attribute → Bytes → Bytes → List Attribute
expand_value [] name v = []
expand_value (a ∷ attribute) name v =
    if equal a.name name
    then record a { value = a.value ++ (b' ' ∷ v) } ∷ attribute
    else a ∷ expand_value attribute name v

-- xdebug_xml_expand_attribute_value
unfoldable pub expand_attribute_value : Node → Bytes → Bytes → Node
expand_attribute_value null name v = null
expand_attribute_value (node tag text attribute child next) name v =
    elim (get_value attribute name) [
      | some _ ↦ node tag text (expand_value attribute name v) child next
      | none ↦ add_attribute (node tag text attribute child next) name v
    ]

-- the loop of xdebug_xml_add_child
unfoldable pub append_sibling : Node → Node → Node
append_sibling null child = child
append_sibling (node tag text attribute first next) child =
    node tag text attribute first (append_sibling next child)

-- xdebug_xml_add_child
unfoldable pub add_child : Node → Node → Node
add_child null child = null
add_child (node tag text attribute first next) child =
    node tag text attribute (append_sibling first child) next

abbrev pub cdata_end : Bytes
cdata_end = codes "]]>"

-- xdebug_xml_add_text_ex
unfoldable pub add_text_ex : Node → Bytes → Bool → Node
add_text_ex null text encode = null
add_text_ex (node tag old attribute child next) text encode =
    node tag (some (record { text = text; encode = encode || strstr (c_string text) cdata_end }))
      attribute child next

-- xdebug_xml_return_attribute
unfoldable pub return_attribute : List Attribute → Bytes → Bytes
return_attribute [] output = output
return_attribute (a ∷ attribute) output =
    return_attribute attribute
      (output ++ (b' ' ∷ (xmlize a.name ++ (codes "=\"" ++ (xmlize a.value ++ codes "\"")))))

-- xdebug_xml_return_text_node, for the text of a node if it has one
unfoldable pub return_text_node : Option Text → Bytes → Bytes
return_text_node none output = output
return_text_node (some t) output =
    output
    ++ (codes "<![CDATA["
        ++ ((if t.encode then base64_encode t.text else c_string t.text) ++ codes "]]>"))

-- the attribute that xdebug_xml_return_node adds to a node whose text is encoded
unfoldable pub with_encoding : Option Text → List Attribute → List Attribute
with_encoding none attribute = attribute
with_encoding (some t) attribute =
    if t.encode
    then attribute ++ (record { name = codes "encoding"; value = codes "base64" } ∷ [])
    else attribute

-- xdebug_xml_return_node, with the node as it is left behind
unfoldable pub return_node : Node → Bytes → Node × Bytes
return_node null output = (null, output)
return_node (node tag text attribute child next) output =
    let attribute' = with_encoding text attribute in
    let start = return_attribute attribute' (output ++ (b'<' ∷ tag)) ++ (b'>' ∷ []) in
    let (child', inner) = return_node child start in
    let end = return_text_node text inner ++ (codes "</" ++ (tag ++ (b'>' ∷ []))) in
    let (next', output') = return_node next end in (node tag text attribute' child' next', output')

-- What a run of the operations computes with.
unfoldable pub xml_program : Unit {0}
unfolding c_string starts_with strstr node_init add_attribute get_value get_attribute_value
    expand_value expand_attribute_value append_sibling add_child add_text_ex return_attribute
    return_text_node with_encoding return_node
xml_program = tt
