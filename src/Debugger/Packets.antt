-- ===== src/Debugger/Packets.antt =====
-- xdebug_fd_read_line_delim of src/debugger/handler_dbgp.c: lines from the client's socket.
pub mod Messages
use xdebug.Prelude.{
  ℕ, zero, suc, ◌+◌, Bool, true, false, Option, none, some, List, [], ◌∷◌, ◌++◌, Bytes,
  if◌then◌else◌, ltb, ◌==◌, length, take, drop, last?,
}

-- What a read of the socket gives: bytes (none at the end of the connection), EINTR, or another
-- error.
pub data Recv : Type 0 where
  received : Bytes → Recv
  interrupted : Recv
  failed : Recv

-- DBGP_MAX_PACKET_SIZE
abbrev pub max_packet_size : ℕ
max_packet_size = 65536

-- What the function returns: a line, with what stays in the buffer, or NULL with no buffer; and the
-- reads that are left. `waiting` is a read that does not return.
pub data Packet : Type 0 where
  line : Bytes → Bytes → List Recv → Packet
  lost : List Recv → Packet
  waiting : Packet

-- the condition that ends the loop
unfoldable pub is_ended : ℕ → Option ℕ → Bool
is_ended delim none = false
is_ended delim (some last) = last == delim

-- memchr, as an offset
unfoldable pub memchr : Bytes → ℕ → Option ℕ
memchr [] delim = none
memchr (x ∷ xs) delim =
    if x == delim then some 0 else elim (memchr xs delim) [ none ↦ none | some i ↦ some (suc i) ]

-- the line up to the first delimiter, and the rest of the buffer
unfoldable pub cut_line : Bytes → List Recv → Option ℕ → Packet
cut_line buffer reads none = lost reads
cut_line buffer reads (some size) = line (take size buffer) (drop (suc size) buffer) reads

-- xdebug_fd_read_line_delim; no buffer is an empty one, and memory does not run out
unfoldable pub read_line_delim : ℕ → Bytes → List Recv → Packet
read_line_delim delim buffer [] =
    if is_ended delim (last? buffer) then cut_line buffer [] (memchr buffer delim) else waiting
read_line_delim delim buffer (failed ∷ reads) =
    if is_ended delim (last? buffer)
    then cut_line buffer (failed ∷ reads) (memchr buffer delim)
    else lost reads
read_line_delim delim buffer (interrupted ∷ reads) =
    let later = read_line_delim delim buffer reads in
    if is_ended delim (last? buffer)
    then cut_line buffer (interrupted ∷ reads) (memchr buffer delim)
    else later
read_line_delim delim buffer (received [] ∷ reads) =
    if is_ended delim (last? buffer)
    then cut_line buffer (received [] ∷ reads) (memchr buffer delim)
    else lost reads
read_line_delim delim buffer (received (x ∷ xs) ∷ reads) =
    let later = read_line_delim delim (buffer ++ (x ∷ xs)) reads in
    if is_ended delim (last? buffer)
    then cut_line buffer (received (x ∷ xs) ∷ reads) (memchr buffer delim)
    else if ltb max_packet_size (length buffer + length (x ∷ xs) + 1)
    then lost reads
    else later

-- a line, and what is made of the buffer and the reads behind it
abbrev pub lines_after : (Bytes → List Recv → List Bytes) → Packet → List Bytes
lines_after next (line l buffer reads) = l ∷ next buffer reads
lines_after next (lost reads) = []
lines_after next waiting = []

-- the lines that `n` calls give, up to one that gives none
unfoldable pub read_messages : ℕ → ℕ → Bytes → List Recv → List Bytes
read_messages zero delim buffer reads = []
read_messages (suc n) delim buffer reads =
    lines_after (read_messages n delim) (read_line_delim delim buffer reads)
