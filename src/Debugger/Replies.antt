-- ===== src/Debugger/Replies.antt =====
-- How a reply is sent: make_message of src/debugger/handler_dbgp.c.
pub mod Client
use xdebug.Prelude.{ℕ, suc, ◌+◌, ◌%◌, ◌^◌, [], ◌∷◌, ◌++◌, Bytes, codes, length}
use xdebug.Prelude.Int.{ℤ, pos, negsuc, int_of_bits}
use xdebug.Prelude.Decimal.{decimal}
use xdebug.Xml.Build.{Node, c_string, return_node}

unfoldable pub xml_header : Bytes
xml_header = codes "<?xml version=\"1.0\" encoding=\"iso-8859-1\"?>" ++ (10 ∷ [])

-- %d
unfoldable pub decimal_int : ℤ → Bytes
decimal_int (pos n) = decimal n
decimal_int (negsuc n) = b'-' ∷ decimal (suc n)

-- make_message: the length of what follows, a NUL, the XML, and a NUL; `%d` takes the length as an
-- int
unfoldable pub make_message : Node → Bytes
make_message message =
    let xml_message = (return_node message []).1 in
    decimal_int (int_of_bits ((length xml_message + length xml_header) % 2 ^ 32))
    ++ (0 ∷ (xml_header ++ (c_string xml_message ++ (0 ∷ []))))
