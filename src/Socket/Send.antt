-- ===== src/Socket/Send.antt =====
-- socket/socket.go: `SendPacket` and `SendStream`, on the buffered writer of the connection.
pub mod Buffer
pub mod Free
pub mod Frames
pub mod Streams
use go_libvirt.Base.{
  ℕ, ◌+◌, ◌*◌, ◌-◌, ◌%◌, ◌^◌, Bool, true, false, Option, none, some, List, [], ◌∷◌, ◌++◌, length,
  if◌then◌else◌, ltb, leb, ◌==◌, take, drop,
}
use go_libvirt.Base.Int.{ℤ}
use go_libvirt.Base.Text.{Bytes}
use go_libvirt.Socket.Packet.{
  Header, Packet, put_packet, protocol_version, sizeof_packet, sizeof_len, sizeof_header, status_ok,
  status_error, status_continue, stream,
}

-- `bufio.Writer` over the connection. `outcomes` is what the connection answers to the calls of its
-- `Write` to come: none where it takes all bytes, a number where it fails and has taken that many of
-- them at most; with none left they succeed. An error stays: `bufio` answers every later call by it.
-- `sent` is what the connection has taken.
pub record Writer : Type 0 where
  pub buffered : Bytes
  pub sent : Bytes
  pub broken : Bool
  pub outcomes : List (Option ℕ)

-- The fields of `Socket` that sending reads: whether `disconnected` is closed, and `writer`.
pub record Socket : Type 0 where
  pub is_disconnected : Bool
  pub writer : Writer

-- `syscall.EINVAL`, or the writer's error.
pub data SendError : Type 0 where
  einval write_error : SendError

-- The size of the buffer, bufio's default.
abbrev pub writer_size : ℕ
writer_size = 4096

-- A call of the connection's `Write`; what it does not take is left in the buffer.
pub hand_over : Writer → Bytes → Writer
hand_over w bs = elim w.outcomes [
  | [] ↦ record w { buffered = []; sent = w.sent ++ bs }
  | none ∷ rest ↦ record w { buffered = []; sent = w.sent ++ bs; outcomes = rest }
  | some n ∷ rest ↦ record {
    buffered = drop n bs;
    sent = w.sent ++ take n bs;
    broken = true;
    outcomes = rest;
  }
]

abbrev pub write_result : Writer → Option SendError × Writer
write_result w = (if w.broken then some write_error else none, w)

-- `Write` with nothing in the buffer: what is longer than the buffer goes to the connection at once.
-- What the connection does not take of it is not kept.
pub write_empty : Writer → Bytes → Option SendError × Writer
write_empty w bs =
    if leb (length bs) writer_size
    then (none, record w { buffered = bs })
    else write_result (record (hand_over w bs) { buffered = [] })

-- `Write` of what does not fit behind what is in the buffer: the buffer is filled and flushed, and the
-- rest is written; its loop makes no third round.
pub write_over : Writer → Bytes → Option SendError × Writer
write_over w bs =
    let free = writer_size - length w.buffered in
    let t = hand_over w (w.buffered ++ take free bs) in
    if t.broken then (some write_error, t) else write_empty t (drop free bs)

-- `binary.Write(w, binary.BigEndian, v)`, for a value `v` of the bytes `bs`: one call of `Write`.
pub write : Writer → Bytes → Option SendError × Writer
write w bs =
    if w.broken
    then (some write_error, w)
    else if leb (length w.buffered + length bs) writer_size
    then (none, record w { buffered = w.buffered ++ bs })
    else if length w.buffered == 0
    then write_empty w bs
    else write_over w bs

pub flush : Writer → Option SendError × Writer
flush w =
    if w.broken
    then (some write_error, w)
    else if length w.buffered == 0
    then (none, w)
    else write_result (hand_over w w.buffered)

-- The writes of `SendPacket`, with its two early returns. A nil payload is not written.
pub write_payload : Writer → Option Bytes → Option SendError × Writer
write_payload w none = (none, w)
write_payload w (some payload) = write w payload

pub flush_unless : Option SendError × Writer → Option SendError × Writer
flush_unless (some e, w) = (some e, w)
flush_unless (none, w) = flush w

pub payload_unless : Option SendError × Writer → Option Bytes → Option SendError × Writer
payload_unless (some e, w) payload = (some e, w)
payload_unless (none, w) payload = flush_unless (write_payload w payload)

abbrev pub payload_bytes : Option Bytes → Bytes
payload_bytes none = []
payload_bytes (some payload) = payload

-- The header that `SendPacket` writes.
abbrev pub sent_header : ℤ → ℕ → ℕ → ℕ → ℕ → Header
sent_header serial proc program typ status = record {
  program = program;
  version = protocol_version;
  procedure = proc;
  typ = typ;
  serial = serial;
  status = status;
}

-- `SendPacket`: it holds the socket's lock from the first write to the flush.
unfoldable pub send_packet : Socket → ℤ → ℕ → ℕ → Option Bytes → ℕ → ℕ → Option SendError × Socket
unfolding hand_over write_empty write_over write flush write_payload flush_unless payload_unless
send_packet s serial proc program payload typ status =
    let size = sizeof_len + sizeof_header + length (payload_bytes payload) in
    let p : Packet = record {
      len = size % 2 ^ 32;
      header = sent_header serial proc program typ status;
    } in
    if s.is_disconnected
    then (some einval, s)
    else let (e, w) = payload_unless (write s.writer (put_packet p)) payload in
      (e, record s { writer = w })

-- One round of `SendStream`: whether `abort` has a value, and what `stream.Read(buf)` returns.
pub data ReadEnd : Type 0 where
  end_of_file : ReadEnd
  read_failed : ReadEnd

pub record Round : Type 0 where
  pub aborted : Bool
  pub chunk : Bytes
  pub end : Option ReadEnd

pub data StreamError : Type 0 where
  send_error : SendError → StreamError
  source_error : StreamError

-- How `SendStream` ends; `waiting` when the rounds given are used up and it reads on.
pub data Sending : Type 0 where
  waiting : Sending
  done : Option StreamError → Sending

abbrev mi_b : ℕ
mi_b = 1024 * 1024

-- The length of `buf`.
abbrev pub buffer_size : ℕ
buffer_size = 4 * mi_b - sizeof_packet

module _ (serial : ℤ) (proc program : ℕ) where
  -- A packet of the stream, with a payload or nil.
  unfoldable pub stream_packet : Socket → Option Bytes → ℕ → Option SendError × Socket
  stream_packet s payload status = send_packet s serial proc program payload stream status

  pub send_chunk : Socket → Bytes → Option SendError × Socket
  send_chunk s chunk =
      if ltb 0 (length chunk) then stream_packet s (some chunk) status_continue else (none, s)

  -- `return s.SendPacket(…)`.
  pub last_packet : Socket → ℕ → Sending × Socket
  last_packet s status =
      let (e, s') = stream_packet s none status in
      (done (elim e [ none ↦ none | some x ↦ some (send_error x) ]), s')

  -- A failed read: the peer is told, and the error is the reader's, unless telling fails too.
  pub abort_packet : Socket → Sending × Socket
  abort_packet s =
      let (e, s') = stream_packet s none status_error in
      (done (some (elim e [ none ↦ source_error | some x ↦ send_error x ])), s')

  -- `SendStream`, over the rounds that the source and the abort channel make.
  unfoldable pub send_stream : Socket → List Round → Sending × Socket
  unfolding stream_packet send_chunk last_packet abort_packet
  send_stream s [] = (waiting, s)
  send_stream s (r ∷ rs) =
      let (e, s') = send_chunk s r.chunk in
      elim r.aborted [
        | true ↦ last_packet s status_error
        | false ↦ elim e [
          | some x ↦ (done (some (send_error x)), s')
          | none ↦ elim r.end [
            | none ↦ send_stream s' rs
            | some end_of_file ↦ last_packet s' status_ok
            | some read_failed ↦ abort_packet s'
          ]
        ]
      ]
