-- ===== src/Debugger/Replies/Client.antt =====
-- A client that reads replies, apart from the code, and what it reads.
use xdebug.Prelude.{
  ℕ, suc, ◌+◌, ◌*◌, ◌-◌, true, false, ◌&&◌, Option, none, some, [], ◌∷◌, ◌++◌, Bytes, leb, ◌==◌,
  if◌then◌else◌, length, take, drop,
}
use xdebug.Xml.Build.{Node}
use xdebug.Xml.Reader.{◌>>=◌, expect, read_nodes}
use xdebug.Xml.Reader.Nodes.{print_nodes}
use xdebug.Xml.Built.{Built}
use xdebug.Debugger.Replies.{xml_header}

-- a number in decimal digits, up to a NUL
unfoldable pub read_length : ℕ → Bytes → Option (ℕ × Bytes)
read_length acc [] = none
read_length acc (c ∷ s) = elim (c == 0) [
  | true ↦ some (acc, s)
  | false ↦ elim (leb b'0' c && leb c b'9') [
    | true ↦ read_length (acc * 10 + (c - b'0')) s
    | false ↦ none
  ]
]

-- the XML of a reply: the header and the nodes, and nothing else
unfoldable pub read_xml : Bytes → Option Node
read_xml s = expect xml_header s >>= λ body.
    (read_nodes (suc (length body)) body >>= λ p. (if length p.1 == 0 then some p.0 else none))

-- a reply off the front of what was received, and what stands behind it
unfoldable pub read_reply : Bytes → Option (Node × Bytes)
read_reply s = read_length 0 s >>= λ n.
    (read_xml (take n.0 n.1) >>= λ reply.
    (expect (0 ∷ []) (drop n.0 n.1) >>= λ rest. some (reply, rest)))

-- the XML of a reply
body : Node → Bytes
body n = xml_header ++ print_nodes n
