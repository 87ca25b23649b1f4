-- ===== src/Xml/Reader.antt =====
-- A reader of the XML that the client gets, apart from the code: entities, attributes in double
-- quotes, CDATA sections and elements.
pub mod Attributes
pub mod Texts
pub mod Nodes
use xdebug.Prelude.{
  ℕ, zero, suc, ◌+◌, ◌*◌, ◌-◌, Bool, true, false, ◌&&◌, ◌||◌, not, Option, none, some, List, [],
  ◌∷◌, ◌++◌, Bytes, codes, equal, length, drop, ◌==◌, if◌then◌else◌,
}
use xdebug.Base64.{base64_decode}
use xdebug.Xml.Build.{Attribute, Text, Node, null, node, starts_with, cdata_end}

infixl 5 ◌>>=◌
abbrev pub ◌>>=◌ : {A B : Type 0} → Option A → (A → Option B) → Option B
some a >>= f = f a
none >>= f = none

-- what an entity stands for
unfoldable pub entity : Bytes → Option ℕ
entity e =
    if equal e (codes "lt")
    then some b'<'
    else if equal e (codes "gt")
    then some b'>'
    else if equal e (codes "amp")
    then some b'&'
    else if equal e (codes "quot")
    then some b'"'
    else if equal e (codes "#39")
    then some b'\''
    else if equal e (codes "#0")
    then some 0
    else if equal e (codes "#10")
    then some 10
    else if equal e (codes "#13")
    then some 13
    else none

-- The text that an escaped string stands for; the first argument is the entity under way.
unfoldable pub unescape : Option Bytes → Bytes → Option Bytes
unescape none [] = some []
unescape (some e) [] = none
unescape none (c ∷ s) = elim (c == b'&') [
  | true ↦ unescape (some []) s
  | false ↦ unescape none s >>= λ t. some (c ∷ t)
]
unescape (some e) (c ∷ s) = elim (c == b';') [
  | true ↦ unescape none s >>= λ t. (entity e >>= λ b. some (b ∷ t))
  | false ↦ unescape (some (e ++ (c ∷ []))) s
]

-- what stands before the first occurrence of a string, and what stands behind it
unfoldable pub cut : Bytes → Bytes → Option (Bytes × Bytes)
cut needle [] = none
cut needle (c ∷ s) = elim (starts_with needle (c ∷ s)) [
  | true ↦ some ([], drop (length needle) (c ∷ s))
  | false ↦ cut needle s >>= λ p. some (c ∷ p.0, p.1)
]

-- a string that has to stand here
unfoldable pub expect : Bytes → Bytes → Option Bytes
expect word s = if starts_with word s then some (drop (length word) s) else none

-- ` name="value"`, as often as it is there
unfoldable pub read_attributes : ℕ → Bytes → Option (List Attribute × Bytes)
read_attributes zero s = none
read_attributes (suc fuel) s = elim (expect (codes " ") s) [
  | none ↦ some ([], s)
  | some s' ↦ cut (codes "=\"") s' >>= λ n.
      (cut (codes "\"") n.1 >>= λ v.
      (unescape none n.0 >>= λ name.
      (unescape none v.0 >>= λ value.
      (read_attributes fuel v.1 >>= λ more.
      some (record { name = name; value = value } ∷ more.0, more.1)))))
]

-- the name of an element, up to a space or `>`
unfoldable pub read_tag : Bytes → Bytes × Bytes
read_tag [] = ([], [])
read_tag (c ∷ s) =
    let (tag, rest) = read_tag s in if c == b' ' || c == b'>' then ([], c ∷ s) else (c ∷ tag, rest)

-- whether an attribute says that the text is in base64
unfoldable pub is_encoded : List Attribute → Bool
is_encoded [] = false
is_encoded (a ∷ attribute) =
    (equal a.name (codes "encoding") && equal a.value (codes "base64")) || is_encoded attribute

unfoldable pub read_content : Bool → Bytes → Option (Option Text)
read_content true s = base64_decode s >>= λ t. some (some (record { text = t; encode = true }))
read_content false s = some (some (record { text = s; encode = false }))

-- a CDATA section, if there is one
unfoldable pub read_text : Bool → Bytes → Option (Option Text × Bytes)
read_text encoded s = elim (expect (codes "<![CDATA[") s) [
  | none ↦ some (none, s)
  | some s' ↦ cut cdata_end s' >>= λ p. (read_content encoded p.0 >>= λ t. some (t, p.1))
]

-- whether an element begins here
unfoldable pub opens : Bytes → Bool
opens s =
    starts_with (codes "<") s && not (starts_with (codes "</") s || starts_with (codes "<!") s)

-- the elements that stand here, one behind the other
unfoldable pub read_nodes : ℕ → Bytes → Option (Node × Bytes)
read_nodes zero s = none
read_nodes (suc fuel) s = elim (opens s) [
  | false ↦ some (null, s)
  | true ↦
      let (tag, behind) = read_tag (drop 1 s) in
      read_attributes fuel behind >>= λ attrs.
      (expect (codes ">") attrs.1 >>= λ s1.
      (read_nodes fuel s1 >>= λ child.
      (read_text (is_encoded attrs.0) child.1 >>= λ text.
      (expect (codes "</" ++ (tag ++ codes ">")) text.1 >>= λ s2.
      (read_nodes fuel s2 >>= λ next. some (node tag text.0 attrs.0 child.0 next.0, next.1))))))
]
