-- ===== src/Tests/Requests.antt =====
-- Errors, requests and streams of data, at concrete inputs.
use go_libvirt.Base.{
  ℕ, ◌≡◌, ◌≢◌, refl, true, false, Option, none, some, List, [], ◌∷◌, arith, Result, ok, err,
}
use go_libvirt.Base.Int.{pos}
use go_libvirt.Base.Map.{lookup, insert, lookup-nil}
use go_libvirt.Base.Text.{Bytes, text}
use go_libvirt.Event.Stream.{Event, new_stream}
use go_libvirt.Rpc.Callbacks.{Response, Calls, register}
use go_libvirt.Rpc.Callbacks.Registry
use go_libvirt.Rpc.Callbacks.Registry.{IsWell, no_calls}
use go_libvirt.Rpc.Errors.{
  GoError, libvirt_error, unsupported, interrupted, plain, ErrorBody, decode_error,
}
use go_libvirt.Rpc.Request.{no_response, Sink, Sender, process_incoming_stream, request_stream}
use go_libvirt.Rpc.Request.Incoming.{data_response, stops, incoming, incoming_stream_lem}
use go_libvirt.Rpc.Request.Streams.{request_stream_returns}
use go_libvirt.Rpc.Route.{EventKind, Router}
use go_libvirt.Rpc.Transfer.{stream_arrives, received_stream, ok_response, IsCall}
use go_libvirt.Socket.Send.{Socket}

-- A decoder of errors that takes the first byte for the code and the rest for the message.
abbrev pub decode_body : Bytes → Result GoError ErrorBody
decode_body [] = err (plain (text "EOF"))
decode_body (c ∷ m) = ok (record { code = c; domain_id = 0; padding = 0; message = m; level = 2 })

abbrev pub errors : Bytes → Option GoError
errors = decode_error decode_body

errors_run :
    (errors (42 ∷ text "no domain") ≡ some (libvirt_error 42 (text "no domain")))
    × (errors (1 ∷ text "unknown procedure: 9") ≡ some unsupported)
    × (errors (0 ∷ []) ≡ none)
unfolding decode_error
errors_run = (refl, refl, refl)

abbrev sink : Sink
sink = record { written = []; fails = [] }

abbrev chunks : List Bytes
chunks = (1 ∷ 2 ∷ []) ∷ (3 ∷ []) ∷ []

incoming_run :
    incoming errors chunks sink (ok_response ∷ []) false ≡ stops sink chunks (ok_response, none) []
unfolding process_incoming_stream decode_error
incoming_run = refl

abbrev refused : Response
refused = record { payload = 38 ∷ []; status = 1 }

incoming_stream_lem_example :
    (refused.status ≡ 0
      → incoming errors chunks sink (refused ∷ []) true ≡ stops sink chunks (refused, none) [])
    × (refused ≡ data_response []
        → incoming errors chunks sink (refused ∷ []) true ≡ stops sink chunks (refused, none) [])
    × ((e : GoError)
        → refused.status ≡ 1
        → errors refused.payload ≡ some e
        → incoming errors chunks sink (refused ∷ []) true ≡ stops sink chunks (refused, some e) [])
    × (incoming errors chunks sink [] true ≡ stops sink chunks (no_response, some interrupted) [])
    × (incoming errors chunks sink [] false ≡ none)
incoming_stream_lem_example =
    incoming_stream_lem errors chunks sink [] refused true (omega arith) refl

abbrev ok_error : Response
ok_error = record { payload = 0 ∷ text "none"; status = 1 }

abbrev sender : Sender
sender = record { at_end = none; finally = some none }

request_stream_returns_example :
    request_stream errors none
      (record { pending = data_response (1 ∷ []) ∷ []; closed = true })
      (some sender)
      (some sink)
    ≢ none
request_stream_returns_example =
    request_stream_returns errors none
      (record { pending = data_response (1 ∷ []) ∷ []; closed = true }) (some sender) (some sink)
      refl (λ e. cc)

abbrev pub waiting_caller : Calls
waiting_caller = register (pos 7) 1 no_calls

pub waiting_caller-IsWell : IsWell waiting_caller
waiting_caller-IsWell =
    Registry.register-IsWell (pos 7) 1 no_calls
      (record {
        not_closed = refl;
        unused = λ id h. absurd (ground (arith, lookup-nil {V = ℕ} id));
      })
      Registry.no_calls-IsWell

pub waiting_7 : lookup (pos 7) waiting_caller.callbacks ≡ some 1
unfolding register lookup insert
waiting_7 = refl

-- A caller that receives the three packets of a stream.
abbrev streaming_caller : Calls
streaming_caller = record waiting_caller { receives = λ c. 3 }

streaming_caller-IsWell : IsWell streaming_caller
streaming_caller-IsWell =
    let v = waiting_caller-IsWell in
    record { fine = v.fine; is_open = v.is_open; distinct = v.distinct }

streaming_7 : lookup (pos 7) streaming_caller.callbacks ≡ some 1
streaming_7 = waiting_7

abbrev server : Socket
server = record {
  is_disconnected = false;
  writer = record { buffered = []; sent = []; broken = false; outcomes = [] };
}

abbrev client : Router
client = record {
  calls = streaming_caller;
  events = record { table = []; heap = λ r. new_stream 0 (pos 0) };
}

no_events : EventKind → Bytes → Option Event
no_events k bs = none

-- StorageVolDownload, which is procedure 209 of the remote program.
download-IsCall : IsCall 0x20008086 209
download-IsCall k h = ground arith

stream_arrives_example :
    (got : List Response) × (received_stream no_events errors
        (pos 7)
        209
        0x20008086
        chunks
        server
        client
        1
      ≡ some got)
    × (process_incoming_stream errors got true (some sink)
        ≡ stops sink chunks (ok_response, none) [])
stream_arrives_example =
    stream_arrives no_events errors (pos 7) 209 0x20008086 chunks server client 1 sink true
      (omega arith) (omega arith) (omega arith) download-IsCall (omega arith) (omega arith)
      (record { up = refl; unbroken = refl; settled = refl; succeeds = refl }) refl
      streaming_caller-IsWell streaming_7 (unfold register in omega arith) (unfold register in refl)
      refl
