-- ===== src/Debugger/Packets/Messages.antt =====
-- The client's messages, however the network cuts them up.
use xdebug.Prelude.{
  ℕ, suc, ◌+◌, ◌<◌, ◌≡◌, ◌≢◌, refl, sym, ap, ◌∙◌, true, false, some, List, [], ◌∷◌, ◌++◌,
  append_assoc, append-nil, Bytes, All, ltb, ◌==◌, ==_refl, ==_iff, length, length-append, take,
  drop, last?, arith, Bool-cases, inl, inr,
}
use xdebug.Debugger.Packets.{
  Recv, received, interrupted, Packet, line, max_packet_size, is_ended, memchr, cut_line,
  read_line_delim, lines_after, read_messages,
}

-- messages on the wire, each with its delimiter
abbrev pub encode : ℕ → List Bytes → Bytes
encode delim [] = []
encode delim (m ∷ ms) = m ++ (delim ∷ encode delim ms)

-- the bytes that reads bring, where none of them fails
pub data Brings : List Recv → Bytes → Type 0 where
  nothing : Brings [] []
  after_eintr :
      (reads : List Recv) (bytes : Bytes) → Brings reads bytes → Brings (interrupted ∷ reads) bytes
  chunk :
      (x : ℕ) (xs : Bytes) (reads : List Recv) (bytes : Bytes)
      → Brings reads bytes
      → Brings (received (x ∷ xs) ∷ reads) ((x ∷ xs) ++ bytes)

-- a message does not contain the delimiter
abbrev pub IsMessage : ℕ → Bytes → Type 0
IsMessage delim = All (λ b. b ≢ delim)

memchr-first :
    (delim : ℕ) (m r : Bytes)
    → IsMessage delim m
    → memchr (m ++ (delim ∷ r)) delim ≡ some (length m)
unfolding memchr
memchr-first delim [] r h = rw (==_refl delim)
memchr-first delim (x ∷ m) r (ne, h) = elim (Bool-cases (x == delim)) [
  | inl e ↦ absurd (ne ((==_iff x delim).0 e))
  | inr e ↦ rw (e, memchr-first delim m r h) refl
]

take-front : (m r : Bytes) → take (length m) (m ++ r) ≡ m
take-front [] r = refl
take-front (x ∷ m) r = ap (λ t. x ∷ t) (take-front m r)

drop-front : (m : Bytes) (d : ℕ) (r : Bytes) → drop (suc (length m)) (m ++ (d ∷ r)) ≡ r
drop-front [] d r = refl
drop-front (x ∷ m) d r = drop-front m d r

-- a buffer that ends in the delimiter holds the whole first message
record Holds (delim : ℕ) (buffer later m rest : Bytes) : Type 0 where
  kept : Bytes
  whole : buffer ≡ m ++ (delim ∷ kept)
  others : kept ++ later ≡ rest

first_message :
    (delim : ℕ) (buffer later m rest : Bytes)
    → IsMessage delim m
    → buffer ++ later ≡ m ++ (delim ∷ rest)
    → is_ended delim (last? buffer) ≡ true
    → Holds delim buffer later m rest
unfolding is_ended
first_message delim [] later m rest h e l = absurd cc
first_message delim (x ∷ buffer) later [] rest h e l =
    let same : x ≡ delim = cc in
    record { kept = buffer; whole = ap (λ d. d ∷ buffer) same; others = cc }
first_message delim (x ∷ []) later (y ∷ m) rest (ne, h) e l =
    let same : x ≡ y = cc in absurd (ne (sym same ∙ (==_iff x delim).0 l))
first_message delim (x ∷ x' ∷ buffer) later (y ∷ m) rest (ne, h) e l =
    let same : x ≡ y = cc in
    let tails : (x' ∷ buffer) ++ later ≡ m ++ (delim ∷ rest) = cc in
    let inner : Holds delim (x' ∷ buffer) later m rest =
      first_message delim (x' ∷ buffer) later m rest h tails l in
    record {
      kept = inner.kept;
      whole = ap (λ d. d ∷ x' ∷ buffer) same ∙ ap (λ t. y ∷ t) inner.whole;
      others = inner.others;
    }

-- What one call leaves when the first message is `m`.
record Delivers (delim : ℕ) (m rest : Bytes) (p : Packet) : Type 0 where
  buffer : Bytes
  reads : List Recv
  later : Bytes
  delivered : p ≡ line m buffer reads
  brings : Brings reads later
  left : buffer ++ later ≡ rest

cut_line-Delivers :
    (delim : ℕ) (buffer later m rest : Bytes) (reads : List Recv)
    → IsMessage delim m
    → Brings reads later
    → Holds delim buffer later m rest
    → Delivers delim m rest (cut_line buffer reads (memchr buffer delim))
unfolding cut_line
cut_line-Delivers delim buffer later m rest reads h b w = record {
  buffer = w.kept;
  reads = reads;
  later = later;
  delivered =
      ap (λ t. cut_line t reads (memchr t delim)) w.whole
      ∙ ap (cut_line (m ++ (delim ∷ w.kept)) reads) (memchr-first delim m w.kept h)
      ∙ ap (λ t. line t (drop (suc (length m)) (m ++ (delim ∷ w.kept))) reads)
          (take-front m (delim ∷ w.kept))
      ∙ ap (λ t. line m t reads) (drop-front m delim w.kept);
  brings = b;
  left = w.others;
}

-- the rest behind a message is nothing, or ends in the delimiter
abbrev EndsWell : ℕ → Bytes → Type 0
EndsWell delim rest = is_ended delim (last? (delim ∷ rest)) ≡ true

last?-append : (m : Bytes) (d : ℕ) (rest : Bytes) → last? (m ++ (d ∷ rest)) ≡ last? (d ∷ rest)
last?-append [] d rest = refl
last?-append (x ∷ []) d rest = refl
last?-append (x ∷ y ∷ m) d rest = last?-append (y ∷ m) d rest

-- no part of a text that is small enough is refused
fits :
    (delim : ℕ) (buffer bytes later text : Bytes)
    → length text < max_packet_size
    → buffer ++ (bytes ++ later) ≡ text
    → ltb max_packet_size (length buffer + length bytes + 1) ≡ false
fits delim buffer bytes later text small e =
    ground (arith, ap length e, length-append buffer (bytes ++ later), length-append bytes later)

read_line_delim-Delivers :
    (delim : ℕ) (buffer : Bytes) (reads : List Recv) (later m rest : Bytes)
    → IsMessage delim m
    → EndsWell delim rest
    → length (m ++ (delim ∷ rest)) < max_packet_size
    → Brings reads later
    → buffer ++ later ≡ m ++ (delim ∷ rest)
    → Delivers delim m rest (read_line_delim delim buffer reads)
unfolding read_line_delim
read_line_delim-Delivers delim buffer _ _ m rest h ends small nothing e =
    let whole : buffer ≡ m ++ (delim ∷ rest) = sym (append-nil buffer) ∙ e in
    let done : is_ended delim (last? buffer) ≡ true =
      ap (λ b. is_ended delim (last? b)) whole
      ∙ ap (is_ended delim) (last?-append m delim rest)
      ∙ ends in
    rw done (
      cut_line-Delivers delim buffer [] m rest [] h nothing
        (first_message delim buffer [] m rest h e done))
read_line_delim-Delivers delim buffer _ later m rest h ends small (after_eintr reads _ b) e =
    elim (Bool-cases (is_ended delim (last? buffer))) [
      | inl done ↦ rw done (
          cut_line-Delivers delim buffer later m rest (interrupted ∷ reads) h
            (after_eintr reads later b) (first_message delim buffer later m rest h e done))
      | inr more ↦
          rw more (read_line_delim-Delivers delim buffer reads later m rest h ends small b e)
    ]
read_line_delim-Delivers delim buffer _ _ m rest h ends small (chunk x xs reads later b) e =
    elim (Bool-cases (is_ended delim (last? buffer))) [
      | inl done ↦ rw done (
          cut_line-Delivers delim buffer ((x ∷ xs) ++ later) m rest (received (x ∷ xs) ∷ reads) h
            (chunk x xs reads later b)
            (first_message delim buffer ((x ∷ xs) ++ later) m rest h e done))
      | inr more ↦
          rw (more, fits delim buffer (x ∷ xs) later (m ++ (delim ∷ rest)) small e)
            (read_line_delim-Delivers delim (buffer ++ (x ∷ xs)) reads later m rest h ends small b
              (append_assoc buffer (x ∷ xs) later ∙ e))
    ]

encode-EndsWell : (delim : ℕ) (ms : List Bytes) → EndsWell delim (encode delim ms)
unfolding is_ended
encode-EndsWell delim [] = ==_refl delim
encode-EndsWell delim (m ∷ ms) =
    ap (is_ended delim) (last?-append (delim ∷ m) delim (encode delim ms))
    ∙ encode-EndsWell delim ms

-- However the network cuts up the client's messages, and however often a read is interrupted, the
-- calls give these messages, each whole and in their order. The messages do not contain the
-- delimiter, no read fails, and together the messages with their delimiters have less than 64 KB.
-- What the buffer holds already counts as sent.
pub read_messages-encode :
    (delim : ℕ) (ms : List Bytes) (buffer : Bytes) (reads : List Recv) (later : Bytes)
    → All (IsMessage delim) ms
    → length (encode delim ms) < max_packet_size
    → Brings reads later
    → buffer ++ later ≡ encode delim ms
    → read_messages (length ms) delim buffer reads ≡ ms
unfolding read_messages
read_messages-encode delim [] buffer reads later h small b e = refl
read_messages-encode delim (m ∷ ms) buffer reads later (h, hs) small b e =
    let first : Delivers delim m (encode delim ms) (read_line_delim delim buffer reads) =
      read_line_delim-Delivers delim buffer reads later m (encode delim ms) h
        (encode-EndsWell delim ms) small b e in
    ap (lines_after (read_messages (length ms) delim)) first.delivered
    ∙ ap (λ ls. m ∷ ls)
        (read_messages-encode delim ms first.buffer first.reads first.later hs
          (omega (arith, small, length-append m (delim ∷ encode delim ms))) first.brings first.left)
