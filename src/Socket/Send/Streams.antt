-- ===== src/Socket/Send/Streams.antt =====
-- What `SendStream` sends on a connection that takes every packet, and what the peer's `listen`
-- makes of it.
use go_libvirt.Base.{
  ℕ, ◌≤◌, ◌≡◌, refl, sym, ap, ◌∙◌, Bool, true, false, Option, none, some, List, [], ◌∷◌, ◌++◌,
  arith, length, concat-append, map-append, All, append_assoc, append-nil, if◌then◌else◌, lt→ltb,
}
use go_libvirt.Base.Int.{ℤ}
use go_libvirt.Base.Text.{Bytes}
use go_libvirt.Socket.Packet.{stream, status_ok, status_error, status_continue}
use go_libvirt.Socket.Send.{
  Writer, Socket, ReadEnd, end_of_file, read_failed, Round, send_error, source_error, Sending,
  waiting, done, send_packet, send_stream, stream_packet, send_chunk, last_packet, abort_packet,
  buffer_size,
}
use go_libvirt.Socket.Send.Free.{IsFree, packet-Goes}
use go_libvirt.Socket.Send.Frames.{
  Request, request_frame, request_frames, send_request, send_request-Adds, Fits,
}

-- The connection is up and answers every call to come without an error.
pub record IsHealthy (s : Socket) : Type 0 where
  pub up : s.is_disconnected ≡ false
  pub unbroken : s.writer.broken ≡ false
  pub settled : s.writer.buffered ≡ []
  pub succeeds : s.writer.outcomes ≡ []

send_request-IsHealthy :
    (s : Socket) (r : Request)
    → IsHealthy s
    → Fits r
    → ((send_request s r).0 ≡ none)
      × ((send_request s r).1.writer.sent ≡ s.writer.sent ++ request_frame r)
      × IsHealthy (send_request s r).1
unfolding send_packet
send_request-IsHealthy s r h fits =
    let (succeeds, up, (unbroken, outcomes)) =
      goes s.is_disconnected s.writer h.up (h.unbroken, h.succeeds) in
    let p = send_request-Adds s r (record { settled = λ _. h.settled }) fits in
    (
      succeeds,
      p.sent
          ∙ ap (λ b. s.writer.sent ++ b)
              (sym (append-nil p.part) ∙ ap (λ b. p.part ++ b) (sym (p.whole succeeds)) ∙ p.splits),
      record {
        up = up;
        unbroken = unbroken;
        settled = p.still.settled unbroken;
        succeeds = outcomes;
      },
    )
  where
    goes :
        (b : Bool) (w : Writer)
        → b ≡ false
        → IsFree w
        → let run = send_request (record { is_disconnected = b; writer = w }) r in
          (run.0 ≡ none) × (run.1.is_disconnected ≡ false) × IsFree run.1.writer
    goes true w up free = absurd (ground (arith, up))
    goes false w up free = let (sent, still) = packet-Goes w _ r.payload free in (sent, refl, still)

-- The rounds respect the buffer, as `io.Reader` requires.
abbrev pub Within : List Round → Type 0
Within = All (λ r. length r.chunk ≤ buffer_size)

module _ (serial : ℤ) (proc program : ℕ) where
  abbrev pub stream_request : Option Bytes → ℕ → Request
  stream_request payload status = record {
    serial = serial;
    proc = proc;
    program = program;
    payload = payload;
    typ = stream;
    status = status;
  }

  -- A chunk is one packet, an empty one none.
  abbrev pub chunk_requests : Bytes → List Request
  chunk_requests [] = []
  chunk_requests (b ∷ bs) = stream_request (some (b ∷ bs)) status_continue ∷ []

  -- The packets of a stream: the chunks, and the packet that closes it.
  abbrev pub stream_requests : List Round → List Request
  stream_requests [] = []
  stream_requests (r ∷ rs) =
      if r.aborted
      then stream_request none status_error ∷ []
      else chunk_requests r.chunk ++ (elim r.end [
        | none ↦ stream_requests rs
        | some end_of_file ↦ stream_request none status_ok ∷ []
        | some read_failed ↦ stream_request none status_error ∷ []
      ])

-- What `SendStream` returns.
abbrev pub stream_result : List Round → Sending
stream_result [] = waiting
stream_result (r ∷ rs) = if r.aborted then done none else elim r.end [
  | none ↦ stream_result rs
  | some end_of_file ↦ done none
  | some read_failed ↦ done (some source_error)
]

-- `SendStream` from `s` has come to `run`, and has sent the packets of `requests`.
pub record Sends (s : Socket) (requests : List Request) (result : Sending) (run : Sending × Socket)
    : Type 0 where
  pub returns : run.0 ≡ result
  pub sends : run.1.writer.sent ≡ s.writer.sent ++ request_frames requests
  pub healthy : IsHealthy run.1

module _ (serial : ℤ) (proc program : ℕ) where
  one_packet :
      (s : Socket) (payload : Option Bytes) (status : ℕ)
      → IsHealthy s
      → Fits (stream_request serial proc program payload status)
      → let r = stream_packet serial proc program s payload status in
        (r.0 ≡ none)
        × (r.1.writer.sent
            ≡ s.writer.sent
              ++ request_frames (stream_request serial proc program payload status ∷ []))
        × IsHealthy r.1
  unfolding stream_packet
  one_packet s payload status h fits =
      let request = stream_request serial proc program payload status in
      let (succeeds, whole, still) = send_request-IsHealthy s request h fits in
      (
        succeeds,
        whole ∙ ap (λ b. s.writer.sent ++ b) (sym (append-nil (request_frame request))),
        still,
      )

  last_packet-Sends :
      (s : Socket) (status : ℕ)
      → IsHealthy s
      → Sends s
          (stream_request serial proc program none status ∷ [])
          (done none)
          (last_packet serial proc program s status)
  unfolding last_packet
  last_packet-Sends s status h =
      let (sent, whole, still) = one_packet s none status h (omega arith) in
      record { returns = rw sent; sends = whole; healthy = still }

  abort_packet-Sends :
      (s : Socket)
      → IsHealthy s
      → Sends s
          (stream_request serial proc program none status_error ∷ [])
          (done (some source_error))
          (abort_packet serial proc program s)
  unfolding abort_packet
  abort_packet-Sends s h =
      let (sent, whole, still) = one_packet s none status_error h (omega arith) in
      record { returns = rw sent; sends = whole; healthy = still }

  send_chunk_lem :
      (s : Socket) (chunk : Bytes)
      → IsHealthy s
      → length chunk ≤ buffer_size
      → let r = send_chunk serial proc program s chunk in
        (r.0 ≡ none)
        × (r.1.writer.sent
            ≡ s.writer.sent ++ request_frames (chunk_requests serial proc program chunk))
        × IsHealthy r.1
  unfolding send_chunk
  send_chunk_lem s [] h small = (refl, sym (append-nil s.writer.sent), h)
  send_chunk_lem s (b ∷ bs) h small =
      rw (lt→ltb 0 (length (b ∷ bs)) (omega arith))
        (one_packet s (some (b ∷ bs)) status_continue h (omega arith))

  Sends-append :
      (s t : Socket) (first later : List Request) (result : Sending) (run : Sending × Socket)
      → t.writer.sent ≡ s.writer.sent ++ request_frames first
      → Sends t later result run
      → Sends s (first ++ later) result run
  Sends-append s t first later result run p d = record {
    returns = d.returns;
    sends = d.sends ∙ ap (λ b. b ++ request_frames later) p ∙ same;
    healthy = d.healthy;
  }
    where
      same :
          s.writer.sent ++ request_frames first ++ request_frames later
          ≡ s.writer.sent ++ request_frames (first ++ later)
      same = simp (map-append, concat-append, append_assoc)

  -- A round that reads: the chunk, and then what follows.
  after_chunk :
      (s : Socket) (chunk : Bytes) (requests : List Request) (result : Sending)
      (next : Socket → Sending × Socket)
      → IsHealthy s
      → length chunk ≤ buffer_size
      → ((t : Socket) → IsHealthy t → Sends t requests result (next t))
      → let (e, t) = send_chunk serial proc program s chunk in
        Sends s
          (chunk_requests serial proc program chunk ++ requests)
          result
          (elim e [ some x ↦ (done (some (send_error x)), t) | none ↦ next t ])
  after_chunk s chunk requests result next h small go =
      let (sent, whole, still) = send_chunk_lem s chunk h small in
      rw sent (
        Sends-append s (send_chunk serial proc program s chunk).1
          (chunk_requests serial proc program chunk) requests result _ whole (go _ still))

  stream_round :
      (aborted : Bool) (chunk : Bytes) (end : Option ReadEnd) (rs : List Round) (s : Socket)
      → IsHealthy s
      → length chunk ≤ buffer_size
      → ((t : Socket)
          → IsHealthy t
          → Sends t
              (stream_requests serial proc program rs)
              (stream_result rs)
              (send_stream serial proc program t rs))
      → let r : Round = record { aborted = aborted; chunk = chunk; end = end } in
        Sends s
          (stream_requests serial proc program (r ∷ rs))
          (stream_result (r ∷ rs))
          (send_stream serial proc program s (r ∷ rs))
  unfolding send_stream
  stream_round true chunk end rs s h small later = last_packet-Sends s status_error h
  stream_round false chunk none rs s h small later =
      after_chunk s chunk _ _ (λ t. send_stream serial proc program t rs) h small later
  stream_round false chunk (some end_of_file) rs s h small later =
      after_chunk s chunk _ _ (λ t. last_packet serial proc program t status_ok) h small
        (λ t still. last_packet-Sends t status_ok still)
  stream_round false chunk (some read_failed) rs s h small later =
      after_chunk s chunk _ _ (λ t. abort_packet serial proc program t) h small
        (λ t still. abort_packet-Sends t still)

  -- On a connection that takes every packet, `SendStream` sends each non-empty chunk in a packet of
  -- its own with the status "continue", then one packet with no payload: "OK" at the end of the
  -- source, "error" where reading fails or the transfer is aborted. It reports a failed read.
  pub send_stream-Sends :
      (rs : List Round) (s : Socket)
      → IsHealthy s
      → Within rs
      → Sends s
          (stream_requests serial proc program rs)
          (stream_result rs)
          (send_stream serial proc program s rs)
  unfolding send_stream
  send_stream-Sends [] s h v = record {
    returns = refl;
    sends = sym (append-nil s.writer.sent);
    healthy = h;
  }
  send_stream-Sends (r ∷ rs) s h v =
      stream_round r.aborted r.chunk r.end rs s h v.0 (λ t still. send_stream-Sends rs t still v.1)
