-- ===== src/Socket/Transfer.antt =====
-- Both ends of a connection: what `SendPacket` and `SendStream` send, read by `listen`.
use go_libvirt.Base.{
  ◌⊎◌, inl, inr, drop, All-drop, map-append, ℕ, suc, ◌+◌, ◌*◌, ◌<◌, ◌≤◌, ◌^◌, ◌≡◌, refl, ap, ◌∙◌,
  Bool, true, false, Option, none, some, List, [], ◌∷◌, ◌++◌, map, arith, length, length-map, take,
  All, All-take, append-nil,
}
use go_libvirt.Base.Int.{ℤ, IsInt32}
use go_libvirt.Base.Text.{Bytes}
use go_libvirt.Socket.Packet.{Header, IsFrame, length-frame, stream, status_continue}
use go_libvirt.Socket.Reader.{arriving, pktlen, read_full, is_temporary}
use go_libvirt.Socket.Listen.Cut.{listen-front}
use go_libvirt.Socket.Listen.{Ending, returned, turn, listen}
use go_libvirt.Socket.Listen.Frames.{frames, AllFrames, listen-frames}
use go_libvirt.Socket.Send.{
  Socket, payload_bytes, Round, ReadEnd, end_of_file, read_failed, buffer_size, send_stream,
  sent_header,
}
use go_libvirt.Socket.Send.Frames.{
  Request, request_header, request_frame, request_frames, Fits, IsSettled, send_all,
  send_all-Delivers, count_sent,
}
use go_libvirt.Socket.Send.Streams.{
  IsHealthy, Within, stream_request, chunk_requests, stream_requests, send_stream-Sends,
}

-- The packet of a call, as the peer is to get it.
abbrev pub packet_of : Request → Header × Bytes
packet_of r = (request_header r, payload_bytes r.payload)

-- Every argument is a value of its type, and the packet's length fits.
abbrev pub IsRequest : Request → Type 0
IsRequest r = IsFrame (request_header r) (payload_bytes r.payload)

request_frames_lem : (rs : List Request) → request_frames rs ≡ frames (map packet_of rs)
request_frames_lem [] = refl
request_frames_lem (r ∷ rs) = rw (request_frames_lem rs)

packets-AllFrames : (rs : List Request) → All IsRequest rs → AllFrames (map packet_of rs)
packets-AllFrames [] v = tt
packets-AllFrames (r ∷ rs) v = (v.0, packets-AllFrames rs v.1)

listen_end : (fuel : ℕ) → listen (suc fuel) [] ≡ ([], returned)
unfolding listen turn pktlen read_full is_temporary
listen_end fuel = refl

-- The packets of the calls, followed by the end of the connection.
pub listen-request_frames :
    (rs : List Request)
    → All IsRequest rs
    → listen (length rs + 1) (arriving (request_frames rs)) ≡ (map packet_of rs, returned)
listen-request_frames rs v =
    rw
      (
        request_frames_lem rs,
        ← length-map packet_of rs,
        ← append-nil (arriving (frames (map packet_of rs))),
      )
      (listen-frames (map packet_of rs) 1 [] (packets-AllFrames rs v)
        ∙ rw (listen_end 0) (rw append-nil))

abbrev accepted : Socket → List Request → List Request
accepted s rs = take (count_sent (send_all s rs).0) rs

IsRequest-Fits : (rs : List Request) → All IsRequest rs → All Fits rs
IsRequest-Fits [] v = tt
IsRequest-Fits (r ∷ rs) v = (v.0.fits, IsRequest-Fits rs v.1)

-- The call that fails first, if one does.
abbrev pub refused : Socket → List Request → List Request
refused s rs = take 1 (drop (count_sent (send_all s rs).0) rs)

listen_refused :
    (rs : List Request) (part lost : Bytes)
    → All IsRequest (take 1 rs)
    → part ++ lost ≡ request_frames (take 1 rs)
    → (listen 2 (arriving part) ≡ ([], returned))
      ⊎ (listen 2 (arriving part) ≡ (map packet_of (take 1 rs), returned))
listen_refused [] [] lost v same = inl (listen_end 1)
listen_refused [] (x ∷ part) lost v same = absurd (omega (arith, ap length same))
listen_refused (r ∷ rs) part lost v same =
    listen-front (request_header r) (payload_bytes r.payload) part lost v.0
      (same ∙ append-nil (request_frame r))

-- A connection on which nothing was sent before: whatever its errors, short writes included, the
-- peer's loop routes the packets of the calls that reported success, with their headers and payloads,
-- in order, behind them at most the packet of the first call that failed, and nothing else, and returns
-- at the end of the connection.
pub listen-send_all :
    (s : Socket) (rs : List Request)
    → IsSettled s
    → s.writer.sent ≡ []
    → All IsRequest rs
    → (more : List (Header × Bytes)) × (listen
          (length (accepted s rs) + 2)
          (arriving (send_all s rs).1.writer.sent)
        ≡ (map packet_of (accepted s rs) ++ more, returned))
      × ((more ≡ []) ⊎ (more ≡ map packet_of (refused s rs)))
listen-send_all s rs h new v =
    let n = count_sent (send_all s rs).0 in
    let d = send_all-Delivers s rs h (IsRequest-Fits rs v) in
    let last =
      listen_refused (drop n rs) d.part d.lost
        (All-take IsRequest 1 (drop n rs) (All-drop IsRequest n rs v)) d.front in
    (
      (listen 2 (arriving d.part)).0,
      sent d.part d.whole
          ∙ ap (λ e. (map packet_of (accepted s rs) ++ (listen 2 (arriving d.part)).0, e))
              (ends last),
      either last,
    )
  where
    sent :
        (part : Bytes)
        → (send_all s rs).1.writer.sent ≡ s.writer.sent ++ (request_frames (accepted s rs) ++ part)
        → listen (length (accepted s rs) + 2) (arriving (send_all s rs).1.writer.sent) ≡ (
          map packet_of (accepted s rs) ++ (listen 2 (arriving part)).0,
          (listen 2 (arriving part)).1,
        )
    sent part whole = rw (whole ∙ ap (λ b. b ++ (request_frames (accepted s rs) ++ part)) new) (
        rw (request_frames_lem (accepted s rs), ← length-map packet_of (accepted s rs), map-append)
          (listen-frames (map packet_of (accepted s rs)) 2 (arriving part) (
            packets-AllFrames (accepted s rs)
              (All-take IsRequest (count_sent (send_all s rs).0) rs v))))

    ends :
        {r : List (Header × Bytes) × Ending} {q : List (Header × Bytes)}
        → (r ≡ ([], returned)) ⊎ (r ≡ (q, returned))
        → r.1 ≡ returned
    ends (inl e) = ap (λ x. x.1) e
    ends (inr e) = ap (λ x. x.1) e

    either :
        {r : List (Header × Bytes) × Ending} {q : List (Header × Bytes)}
        → (r ≡ ([], returned)) ⊎ (r ≡ (q, returned))
        → (r.0 ≡ []) ⊎ (r.0 ≡ q)
    either (inl e) = inl (ap (λ x. x.0) e)
    either (inr e) = inr (ap (λ x. x.0) e)

-- What holds of every packet that a stream may send holds of all that it sends.
module _ (serial : ℤ) (proc program : ℕ) (P : Request → Type 0)
    (on_chunk : (chunk : Bytes)
      → length chunk ≤ buffer_size
      → P (stream_request serial proc program (some chunk) status_continue))
    (on_close : (status : ℕ)
      → status < 3
      → P (stream_request serial proc program none status)) where
  All-chunk :
      (chunk : Bytes) (later : List Request)
      → length chunk ≤ buffer_size
      → All P later
      → All P (chunk_requests serial proc program chunk ++ later)
  All-chunk [] later small v = v
  All-chunk (b ∷ bs) later small v = (on_chunk (b ∷ bs) small, v)

  All-round :
      (aborted : Bool) (chunk : Bytes) (end : Option ReadEnd) (rs : List Round)
      → length chunk ≤ buffer_size
      → All P (stream_requests serial proc program rs)
      → let r : Round = record { aborted = aborted; chunk = chunk; end = end } in
        All P (stream_requests serial proc program (r ∷ rs))
  All-round true chunk end rs small v = (on_close 1 (omega arith), tt)
  All-round false chunk none rs small v = All-chunk chunk _ small v
  All-round false chunk (some end_of_file) rs small v =
      All-chunk chunk _ small (on_close 0 (omega arith), tt)
  All-round false chunk (some read_failed) rs small v =
      All-chunk chunk _ small (on_close 1 (omega arith), tt)

  All-stream_requests :
      (rs : List Round) → Within rs → All P (stream_requests serial proc program rs)
  All-stream_requests [] v = tt
  All-stream_requests (r ∷ rs) v =
      All-round r.aborted r.chunk r.end rs v.0 (All-stream_requests rs v.1)

-- No packet of a stream is longer than 4 MiB, its length field and header included.
stream_requests-Within :
    (serial : ℤ) (proc program : ℕ) (rs : List Round)
    → Within rs
    → All (λ r. length (request_frame r) ≤ 4 * 1024 * 1024) (stream_requests serial proc program rs)
stream_requests-Within serial proc program =
    All-stream_requests serial proc program (λ r. length (request_frame r) ≤ 4 * 1024 * 1024)
      (λ chunk small. omega (arith, length-frame (sent_header serial proc program stream 2) chunk))
      (λ status h. omega (arith, length-frame (sent_header serial proc program stream status) []))

module _ (serial : ℤ) (proc program : ℕ) (is_serial : IsInt32 serial) (is_proc : proc < 2 ^ 32)
    (is_program : program < 2 ^ 32) where
  stream-IsRequest :
      (payload : Option Bytes) (status : ℕ)
      → status < 3
      → length (payload_bytes payload) ≤ buffer_size
      → IsRequest (stream_request serial proc program payload status)
  stream-IsRequest payload status h small = record {
    header = record {
      program = is_program;
      version = omega arith;
      procedure = is_proc;
      typ = omega arith;
      serial = is_serial;
      status = omega arith;
    };
    fits = omega arith;
  }

  pub stream_requests-IsRequest :
      (rs : List Round) → Within rs → All IsRequest (stream_requests serial proc program rs)
  stream_requests-IsRequest =
      All-stream_requests serial proc program IsRequest
        (λ chunk small. stream-IsRequest (some chunk) 2 (omega arith) small)
        (λ status h. stream-IsRequest none status h (omega arith))

  -- A stream sent on a healthy connection on which nothing was sent before: the peer's loop routes
  -- one packet for each non-empty chunk and the packet that closes the stream.
  pub listen-send_stream :
      (rs : List Round) (s : Socket)
      → IsHealthy s
      → s.writer.sent ≡ []
      → Within rs
      → let requests = stream_requests serial proc program rs in
        listen (length requests + 1) (arriving (send_stream serial proc program s rs).1.writer.sent)
        ≡ (map packet_of requests, returned)
  listen-send_stream rs s h new v =
      rw sent (listen-request_frames requests (stream_requests-IsRequest rs v))
    where
      requests : List Request
      requests = stream_requests serial proc program rs

      sent : (send_stream serial proc program s rs).1.writer.sent ≡ request_frames requests
      sent =
          (send_stream-Sends serial proc program rs s h v).sends
          ∙ ap (λ b. b ++ request_frames requests) new
