-- ===== src/Rpc/Transfer.antt =====
-- socket/socket.go and rpc.go together: a stream that `SendStream` sends at one end, through
-- `listen`, `Route` and `processIncomingStream` at the other.
use go_libvirt.Base.{
  sym, Bool-cases, length-append, length-map, ℕ, ◌+◌, ◌<◌, ◌≤◌, ◌^◌, ◌≡◌, refl, ap, ◌∙◌, Bool,
  false, Option, none, some, List, [], ◌∷◌, ◌++◌, map, arith, length, All, Option-cases, inl, inr,
}
use go_libvirt.Base.Int.{ℤ, IsInt32, ==ℤ_iff, ◌==ℤ◌}
use go_libvirt.Base.Map.{lookup}
use go_libvirt.Base.Text.{Bytes}
use go_libvirt.Event.Stream.{Event}
use go_libvirt.Rpc.Callbacks.{Response, Calls}
use go_libvirt.Rpc.Callbacks.Registry.{IsWell}
use go_libvirt.Rpc.Callbacks.Channels.{on_channel, with_serial, Enough}
use go_libvirt.Rpc.Errors.{GoError}
use go_libvirt.Rpc.Request.{Sink, process_incoming_stream}
use go_libvirt.Rpc.Request.Incoming.{data_response, HasData, stops, incoming_stream_lem}
use go_libvirt.Rpc.Route.{EventKind, event_of, Router}
use go_libvirt.Rpc.Route.Packets.{
  event_program, event_procedure, event_of_iff, replies, route_each, packets, route_each-on_channel,
}
use go_libvirt.Socket.Packet.{Header, status_ok, status_continue}
use go_libvirt.Socket.Reader.{arriving}
use go_libvirt.Socket.Listen.{listen}
use go_libvirt.Socket.Send.{Socket, Round, end_of_file, buffer_size, send_stream}
use go_libvirt.Socket.Send.Frames.{request_header}
use go_libvirt.Socket.Send.Streams.{IsHealthy, Within, stream_request, stream_requests}
use go_libvirt.Socket.Transfer.{packet_of, listen-send_stream}

-- A source that yields these chunks and then its end.
abbrev pub rounds_of : List Bytes → List Round
rounds_of [] = record { aborted = false; chunk = []; end = some end_of_file } ∷ []
rounds_of (c ∷ cs) = record { aborted = false; chunk = c; end = none } ∷ rounds_of cs

abbrev pub ok_response : Response
ok_response = record { payload = []; status = status_ok }

-- No event goes by this program and this procedure number.
abbrev pub IsCall : ℕ → ℕ → Type 0
IsCall program proc = (k : EventKind) → ¬ ((program ≡ event_program k) × (proc ≡ event_procedure k))

event_of-IsCall : (h : Header) → IsCall h.program h.procedure → event_of h ≡ none
event_of-IsCall h call = elim (Option-cases (event_of h)) [
  | inl e ↦ e
  | inr (k, e) ↦ absurd (call k ((event_of_iff h k).0 e))
]

abbrev unforced : List (Header × Bytes) → List (Bool × Header × Bytes)
unforced [] = []
unforced ((h, buf) ∷ ps) = (false, h, buf) ∷ unforced ps

rounds_of-Within : (cs : List Bytes) → All (λ c. length c ≤ buffer_size) cs → Within (rounds_of cs)
rounds_of-Within [] v = (omega arith, tt)
rounds_of-Within (c ∷ cs) v = (v.0, rounds_of-Within cs v.1)

packets-unforced : (ps : List (Header × Bytes)) → packets (unforced ps) ≡ ps
packets-unforced [] = refl
packets-unforced ((h, buf) ∷ ps) = rw (packets-unforced ps)

module _ (id : ℤ) (proc program : ℕ) where
  -- The packets of the stream.
  sent_packets : List Bytes → List (Header × Bytes)
  sent_packets cs = map packet_of (stream_requests id proc program (rounds_of cs))

  own_serial :
      (res : Response) (l : List (ℤ × Response))
      → with_serial id ((id, res) ∷ l) ≡ res ∷ with_serial id l
  own_serial res l = rw ((==ℤ_iff id id).1 refl)

  -- The caller's share of them.
  replies-rounds_of :
      (cs : List Bytes)
      → IsCall program proc
      → All HasData cs
      → with_serial id (replies (sent_packets cs)) ≡ map data_response cs ++ (ok_response ∷ [])
  unfolding sent_packets
  replies-rounds_of [] call v =
      rw (event_of-IsCall (request_header (stream_request id proc program none status_ok)) call)
        (own_serial ok_response [])
  replies-rounds_of ([] ∷ cs) call v = absurd (omega (arith, v.0))
  replies-rounds_of ((b ∷ bs) ∷ cs) call v =
      rw
        (event_of-IsCall
          (request_header (stream_request id proc program (some (b ∷ bs)) status_continue)) call)
        (own_serial (data_response (b ∷ bs)) (replies (sent_packets cs))
          ∙ ap (λ l. data_response (b ∷ bs) ∷ l) (replies-rounds_of cs call v.1))

  -- Nobody else has a share.
  replies_others :
      (j : ℤ) (cs : List Bytes)
      → IsCall program proc
      → id ==ℤ j ≡ false
      → All HasData cs
      → with_serial j (replies (sent_packets cs)) ≡ []
  unfolding sent_packets
  replies_others j [] call other v =
      rw (event_of-IsCall (request_header (stream_request id proc program none status_ok)) call)
        (rw other refl)
  replies_others j ([] ∷ cs) call other v = absurd (omega (arith, v.0))
  replies_others j ((b ∷ bs) ∷ cs) call other v =
      rw
        (event_of-IsCall
          (request_header (stream_request id proc program (some (b ∷ bs)) status_continue)) call)
        (rw other (replies_others j cs call other v.1))

  -- A caller that receives the whole stream lets the router go on.
  replies-Enough :
      (cs : List Bytes) (s : Calls) (c : ℕ)
      → IsCall program proc
      → All HasData cs
      → lookup id s.callbacks ≡ some c
      → length cs < s.receives c
      → Enough (replies (sent_packets cs)) s
  replies-Enough cs s c call v found enough j d there = elim (Bool-cases (id ==ℤ j)) [
    | inr other ↦ rw (replies_others j cs call other v) (omega arith)
    | inl same ↦
        let e : c ≡ d =
          some_same (sym found ∙ ap (λ i. lookup i s.callbacks) ((==ℤ_iff id j).0 same) ∙ there) in
        rw (← (==ℤ_iff id j).0 same, replies-rounds_of cs call v)
          (omega (
            arith,
            length-append (map data_response cs) (ok_response ∷ []),
            length-map data_response cs,
            ap s.receives e,
            enough,
          ))
  ]
    where
      some_same : {x y : ℕ} → some x ≡ some y → x ≡ y
      some_same h = cc

-- The caller's channel, of a router.
abbrev pub channel_of : ℕ → Option Router → Option (List Response)
channel_of c none = none
channel_of c (some s) = some (on_channel c s.calls.sent)

module _ (decode : EventKind → Bytes → Option Event) (decode_error : Bytes → Option GoError)
    (id : ℤ) (proc program : ℕ) where
  -- What a caller's router has handed over after reading all that `SendStream` sent from `server`, and
  -- none if it blocks.
  abbrev pub received_stream : List Bytes → Socket → Router → ℕ → Option (List Response)
  received_stream cs server s c =
      let wire = (send_stream id proc program server (rounds_of cs)).1.writer.sent in
      let fuel = length (stream_requests id proc program (rounds_of cs)) + 1 in
      channel_of c (route_each decode (unforced (listen fuel (arriving wire)).0) s)

  received_stream_lem :
      (cs : List Bytes) (server : Socket) (s : Router) (c : ℕ)
      → IsInt32 id
      → proc < 2 ^ 32
      → program < 2 ^ 32
      → IsCall program proc
      → All HasData cs
      → All (λ chunk. length chunk ≤ buffer_size) cs
      → IsHealthy server
      → server.writer.sent ≡ []
      → IsWell s.calls
      → lookup id s.calls.callbacks ≡ some c
      → length cs < s.calls.receives c
      → on_channel c s.calls.sent ≡ []
      → received_stream cs server s c ≡ some (map data_response cs ++ (ok_response ∷ []))
  received_stream_lem cs server s c hid hproc hprogram call v fits up new well found enough
        nothing =
      let within = rounds_of-Within cs fits in
      let ps = unforced (map packet_of (stream_requests id proc program (rounds_of cs))) in
      let routed =
        listen-send_stream id proc program hid hproc hprogram (rounds_of cs) server up new within in
      let (arrives, returns, _) = route_each-on_channel decode id c ps s well found in
      let all_taken : Enough (replies (packets ps)) s.calls =
        rw (packets-unforced (map packet_of (stream_requests id proc program (rounds_of cs)))) (
          unfold sent_packets in replies-Enough id proc program cs s.calls c call v found enough) in
      let (t, done_so) = returns all_taken in
      rw routed (
        ap (channel_of c) done_so
        ∙ ap (λ l. some l)
            (arrives t done_so
              ∙ rw (nothing, packets-unforced)
                  (unfold sent_packets in replies-rounds_of id proc program cs call v)))

  -- Chunks that `SendStream` reads from its source, on a healthy connection, arrive at a caller that
  -- is registered under the stream's serial number and receives the whole stream: the router does not
  -- block, and of what it hands over `processIncomingStream` writes exactly these bytes, in order, and
  -- then returns the packet that closes the stream, with no error.
  pub stream_arrives :
      (cs : List Bytes) (server : Socket) (s : Router) (c : ℕ) (k : Sink) (closed : Bool)
      → IsInt32 id
      → proc < 2 ^ 32
      → program < 2 ^ 32
      → IsCall program proc
      → All HasData cs
      → All (λ chunk. length chunk ≤ buffer_size) cs
      → IsHealthy server
      → server.writer.sent ≡ []
      → IsWell s.calls
      → lookup id s.calls.callbacks ≡ some c
      → length cs < s.calls.receives c
      → on_channel c s.calls.sent ≡ []
      → k.fails ≡ []
      → (got : List Response) × (received_stream cs server s c ≡ some got)
        × (process_incoming_stream decode_error got closed (some k)
            ≡ stops k cs (ok_response, none) [])
  stream_arrives cs server s c k closed hid hproc hprogram call v fits up new well found enough
        nothing never =
      (
        map data_response cs ++ (ok_response ∷ []),
        received_stream_lem cs server s c hid hproc hprogram call v fits up new well found enough
            nothing,
        (incoming_stream_lem decode_error cs k [] ok_response closed v never).0 refl,
      )
