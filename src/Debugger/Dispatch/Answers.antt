-- ===== src/Debugger/Dispatch/Answers.antt =====
-- What a client can rely on in the replies to its commands, of src/debugger/handler_dbgp.c.
use xdebug.Prelude.{
  ◌≡◌, refl, ◌⊎◌, false, Option, List, [], ◌∷◌, ◌++◌, All, true, Bytes, codes, if◌then◌else◌,
}
use xdebug.Prelude.Int.{ℤ, pos, eqb_ℤ}
use xdebug.CmdParser.{cmd_parse}
use xdebug.Xml.Build.{Node, null, node, get_attribute_value, add_child}
use xdebug.Debugger.Session.{Session, option}
use xdebug.Debugger.Dispatch.{Handlers, Answer, args_of, Loop, can_send}

-- the command and the transaction id that a reply names
abbrev pub tags : Node → Option Bytes × Option Bytes
tags n = (get_attribute_value n (codes "command"), get_attribute_value n (codes "transaction_id"))

-- the command and the transaction id of a packet, as far as it can be read
abbrev pub asked : Bytes → Option Bytes × Option Bytes
asked line = ((cmd_parse line).0, option (args_of (cmd_parse line).1) b'i')

-- The handlers do not touch the command and the transaction id of the reply.
pub record Keeps {W : Type 0} (h : Handlers W) : Type 0 where
  pub kept :
      (name : Bytes) (args : List (Option Bytes)) (s : Session) (w : W) (n : Node)
      → tags (h.handler name args s w n).2 ≡ tags n

-- the packets that were read, each with what xdebug_dbgp_parse_option made of it
abbrev pub Exchange : Type 0 → Type 0
Exchange W = List (Bytes × Answer W)

abbrev pub packets_of : {W : Type 0} → Exchange W → List Bytes
packets_of [] = []
packets_of ((line, a) ∷ read) = line ∷ packets_of read

-- one reply for each packet, in their order, as far as the connection is there; none for a packet
-- that makes the program go on
abbrev pub replies_of : {W : Type 0} → Handlers W → Exchange W → List Node
replies_of h [] = []
replies_of h ((line, a) ∷ read) =
    (if eqb_ℤ a.ret (pos 1) then [] else if can_send h a then a.retval ∷ [] else [])
    ++ replies_of h read

-- The reply to a packet names its command and its transaction id.
abbrev pub IsTagged : {W : Type 0} → Bytes × Answer W → Type 0
IsTagged (line, a) = tags a.retval ≡ asked line

-- Only the last packet can make the loop return something else than 0.
abbrev pub LastEnds : {W : Type 0} → Exchange W → ℤ → Type 0
LastEnds [] ret = ret ≡ pos 0
LastEnds ((line, a) ∷ []) ret = a.ret ≡ ret
LastEnds ((line, a) ∷ next ∷ read) ret = (eqb_ℤ a.ret (pos 0) ≡ true) × LastEnds (next ∷ read) ret

-- What a command loop did with the packets of the client.
pub record Answers {W : Type 0} (h : Handlers W) (lines : List Bytes) (r : Loop W) : Type 0 where
  pub read : Exchange W
  pub split : lines ≡ packets_of read ++ r.packets
  pub tagged : All IsTagged read
  pub sent : r.sent ≡ replies_of h read
  pub last : LastEnds read r.ret
  pub ended : (r.packets ≡ []) ⊎ (eqb_ℤ r.ret (pos 0) ≡ false)

pub tags-add_child : (n child : Node) → tags (add_child n child) ≡ tags n
unfolding add_child get_attribute_value
tags-add_child null child = refl
tags-add_child (node tag text attribute first next) child = refl
