-- ===== src/Tests/Wire.antt =====
-- Packets, the connection and its two ends, at concrete inputs.
use go_libvirt.Base.{
  ℕ, Option, ◌⊎◌, ◌+◌, ◌≡◌, ◌≢◌, refl, true, false, none, some, List, [], ◌∷◌, ◌++◌, map, arith,
  length, take, All,
}
use go_libvirt.Base.Int.{pos, negsuc}
use go_libvirt.Base.Text.{Bytes}
use go_libvirt.Socket.Packet.{
  Header, IsHeader, IsFrame, frame, put_u32, put_header, put_packet, get_len, get_header,
}
use go_libvirt.Socket.Reader.{
  byte, fault, op_error, arriving, read_full, pktlen, extract_header, is_temporary,
}
use go_libvirt.Socket.Listen.{returned, panicked, out_of_fuel, turn, listen}
use go_libvirt.Socket.Listen.Errors.{listen_short_length, listen_interrupted}
use go_libvirt.Socket.Listen.Frames.{frames}
use go_libvirt.Socket.Listen.Sound.{Splits, listen_sound}
use go_libvirt.Socket.Listen.Total.{listen_total}
use go_libvirt.Socket.Send.{
  Socket, Round, read_failed, done, write_error, source_error, payload_bytes, send_packet,
  send_stream,
}
use go_libvirt.Socket.Send.Frames.{
  Request, request_header, count_sent, send_all, send_all-Delivers, Delivers,
}
use go_libvirt.Socket.Send.Streams.{stream_requests, stream_result, Sends, send_stream-Sends}
use go_libvirt.Socket.Transfer.{refused, packet_of, listen-send_all}

abbrev header : Header
header = record {
  program = 0x20008086;
  version = 1;
  procedure = 66;
  typ = 1;
  serial = pos 7;
  status = 0;
}

abbrev header-IsHeader : IsHeader header
header-IsHeader = record {
  program = omega arith;
  version = omega arith;
  procedure = omega arith;
  typ = omega arith;
  serial = omega arith;
  status = omega arith;
}

-- Two packets, one of them with a payload.
abbrev two : List (Header × Bytes)
two = (header, 1 ∷ 2 ∷ 3 ∷ []) ∷ (header, []) ∷ []

frame_run :
    frame header (9 ∷ [])
    ≡ 0 ∷ 0 ∷ 0 ∷ 29 ∷ 32 ∷ 0 ∷ 128 ∷ 134 ∷ 0 ∷ 0 ∷ 0 ∷ 1 ∷ 0 ∷ 0 ∷ 0 ∷ 66 ∷ 0 ∷ 0 ∷ 0 ∷ 1 ∷ 0 ∷ 0
      ∷ 0 ∷ 7 ∷ 0 ∷ 0 ∷ 0 ∷ 0 ∷ 9 ∷ []
unfolding put_packet put_header put_u32
frame_run = refl

listen_run : listen 3 (arriving (frames two)) ≡ (two, returned)
unfolding listen turn pktlen extract_header read_full is_temporary get_len get_header put_packet
    put_header put_u32
listen_run = refl

-- A whole packet, and a second that is cut off.
abbrev cut_off : Bytes
cut_off =
    0 ∷ 0 ∷ 0 ∷ 29 ∷ 32 ∷ 0 ∷ 128 ∷ 134 ∷ 0 ∷ 0 ∷ 0 ∷ 1 ∷ 0 ∷ 0 ∷ 0 ∷ 66 ∷ 0 ∷ 0 ∷ 0 ∷ 1 ∷ 0 ∷ 0 ∷ 0
    ∷ 7 ∷ 0 ∷ 0 ∷ 0 ∷ 0 ∷ 9 ∷ 0 ∷ 0 ∷ 1 ∷ []

listen_sound_example : Splits cut_off (listen 40 (arriving cut_off))
listen_sound_example = listen_sound 40 cut_off (omega arith)

listen_total_example : (listen 40 (arriving cut_off)).1 ≢ out_of_fuel
listen_total_example = listen_total 40 (arriving cut_off) (omega arith)

listen_short_length_example :
    listen 4 (arriving (put_u32 27) ++ (arriving (put_header header) ++ [])) ≡ ([], panicked)
unfolding put_header put_u32
listen_short_length_example = listen_short_length 27 3 (put_header header) [] (omega arith) refl

listen_interrupted_example :
    listen 9 (byte 0 ∷ byte 0 ∷ fault (op_error true) ∷ byte 28 ∷ []) ≡ listen 8 (byte 28 ∷ [])
unfolding is_temporary
listen_interrupted_example =
    listen_interrupted (0 ∷ 0 ∷ []) (op_error true) (byte 28 ∷ []) 8 (omega arith)

abbrev connected : List (Option ℕ) → Socket
connected outcomes = record {
  is_disconnected = false;
  writer = record { buffered = []; sent = []; broken = false; outcomes = outcomes };
}

abbrev ping : Request
ping = record {
  serial = negsuc 0;
  proc = 1;
  program = 0x20008086;
  payload = some (5 ∷ 6 ∷ []);
  typ = 0;
  status = 0;
}

-- The connection takes the first packet, and of the second ten bytes.
abbrev failing : Socket
failing = connected (none ∷ some 10 ∷ [])

send_all_run :
    (send_all failing (ping ∷ ping ∷ ping ∷ [])).0 ≡ none ∷ some write_error ∷ some write_error ∷ []
unfolding send_all send_packet put_packet put_u32 put_header
send_all_run = refl

send_all-Delivers_example :
    Delivers failing (ping ∷ ping ∷ ping ∷ []) (send_all failing (ping ∷ ping ∷ ping ∷ []))
send_all-Delivers_example =
    send_all-Delivers failing (ping ∷ ping ∷ ping ∷ []) (record { settled = λ e. refl })
      (omega arith)

ping-IsFrame : All (λ r. IsFrame (request_header r) (payload_bytes r.payload)) (ping ∷ ping ∷ [])
ping-IsFrame = omega arith

listen-send_all_example :
    let sent = take (count_sent (send_all failing (ping ∷ ping ∷ [])).0) (ping ∷ ping ∷ []) in
    (more : List (Header × Bytes)) × (listen
        (length sent + 2)
        (arriving (send_all failing (ping ∷ ping ∷ [])).1.writer.sent)
      ≡ (map packet_of sent ++ more, returned))
    × ((more ≡ []) ⊎ (more ≡ map packet_of (refused failing (ping ∷ ping ∷ []))))
listen-send_all_example =
    listen-send_all failing (ping ∷ ping ∷ []) (record { settled = λ e. refl }) refl ping-IsFrame

-- A source of two chunks that then fails.
abbrev broken_source : List Round
broken_source =
    record { aborted = false; chunk = 1 ∷ 2 ∷ []; end = none }
    ∷ record { aborted = false; chunk = 3 ∷ []; end = some read_failed }
    ∷ []

send_stream_run :
    (send_stream (pos 3) 5 6 (connected []) broken_source).0 ≡ done (some source_error)
unfolding send_stream send_packet put_packet put_u32 put_header
send_stream_run = refl

send_stream-Sends_example :
    Sends
      (connected [])
      (stream_requests (pos 3) 5 6 broken_source)
      (stream_result broken_source)
      (send_stream (pos 3) 5 6 (connected []) broken_source)
send_stream-Sends_example =
    send_stream-Sends (pos 3) 5 6 broken_source (connected [])
      (record { up = refl; unbroken = refl; settled = refl; succeeds = refl }) (omega arith)
