-- ===== src/Rpc/Request.antt =====
-- rpc.go: `getResponse`, `processIncomingStream` and `requestStream`, over what arrives on the
-- caller's channel. An answer is `none` while the caller still waits.
pub mod Incoming
pub mod Streams
use go_libvirt.Base.{
  ℕ, Bool, true, false, Option, none, some, List, [], ◌∷◌, ◌++◌, ◌||◌, length, ◌==◌, if◌then◌else◌,
}
use go_libvirt.Base.Text.{Bytes, text}
use go_libvirt.Rpc.Callbacks.{Response}
use go_libvirt.Rpc.Errors.{GoError, interrupted, plain}
use go_libvirt.Socket.Packet.{status_ok, status_error}

-- A channel as its one receiver sees it: the responses to come, and whether it is closed behind
-- them.
pub record Inbox : Type 0 where
  pub pending : List Response
  pub closed : Bool

abbrev pub no_response : Response
no_response = record { payload = []; status = 0 }

-- What a call returns: a response and an error, which is nil for `none`.
abbrev pub Reply : Type 0
Reply = Response × Option GoError

-- The writer that takes a stream's data: what was written to it, and whether the writes to come
-- fail; with none left they succeed.
pub record Sink : Type 0 where
  pub written : Bytes
  pub fails : List Bool

-- `inStream.Write`.
write_sink : Sink → Bytes → Option GoError × Sink
write_sink k bs = elim k.fails [
  | [] ↦ (none, record k { written = k.written ++ bs })
  | b ∷ rest ↦
      if b
      then (some (plain (text "write")), record k { fails = rest })
      else (none, record { written = k.written ++ bs; fails = rest })
]

write_to : Option Sink → Bytes → Option GoError × Option Sink
write_to none bs = (none, none)
write_to (some k) bs = let (e, k') = write_sink k bs in (e, some k')

-- A call's reply, the writer after it, and what is left of the channel.
pub record Processed : Type 0 where
  pub reply : Reply
  pub sink : Option Sink
  pub rest : List Response

-- The sender of an outgoing stream: what it has reported when the incoming half ends, and what it
-- reports in the end, `none` if it never does.
pub record Sender : Type 0 where
  pub at_end : Option (Option GoError)
  pub finally : Option (Option GoError)

-- The reply of `requestStream`, whether it wrote to `abort`, and the writer.
pub record Finished : Type 0 where
  pub reply : Reply
  pub aborted : Bool
  pub sink : Option Sink

-- The part of `requestStream` behind the incoming stream, where there is an outgoing one.
join_sender : Sender → Bool → Processed → Option Finished
join_sender sender duplex p = elim p.reply.1 [
  | some e ↦ some (record { reply = p.reply; aborted = true; sink = p.sink })
  | none ↦
      if duplex
      then some (record {
        reply = elim sender.at_end [ some (some e) ↦ (no_response, some e) | _ ↦ p.reply ];
        aborted = true;
        sink = p.sink;
      })
      else elim sender.finally [
        | none ↦ none
        | some (some e) ↦
            some (record { reply = (no_response, some e); aborted = false; sink = p.sink })
        | some none ↦ some (record { reply = p.reply; aborted = false; sink = p.sink })
      ]
]

abbrev is_duplex : Option Sink → Bool
is_duplex none = false
is_duplex (some k) = true

finish : Option Processed → Option Finished
finish none = none
finish (some p) = some (record { reply = p.reply; aborted = false; sink = p.sink })

module _ (decode_error : Bytes → Option GoError) where
  -- What `getResponse` makes of a response, and of a channel that is empty.
  unfoldable pub check_response : Response → Option GoError
  check_response r = if r.status == status_error then decode_error r.payload else none

  at_end : Bool → Option Reply
  at_end closed = if closed then some (no_response, some interrupted) else none

  -- `getResponse`. The second part is what is left of the channel.
  unfoldable pub get_response : Inbox → Option (Reply × Inbox)
  unfolding check_response at_end
  get_response c = elim c.pending [
    | [] ↦ elim (at_end c.closed) [ none ↦ none | some r ↦ some (r, c) ]
    | r ∷ rest ↦ some ((r, check_response r), record c { pending = rest })
  ]

  -- `processIncomingStream`, with its calls of `getResponse` on the channel `(pending, closed)`.
  unfoldable pub process_incoming_stream : List Response → Bool → Option Sink → Option Processed
  unfolding check_response at_end write_to write_sink
  process_incoming_stream [] closed sink = elim (at_end closed) [
    | none ↦ none
    | some r ↦ some (record { reply = r; sink = sink; rest = [] })
  ]
  process_incoming_stream (r ∷ rest) closed sink =
      let (write_error, sink') = write_to sink r.payload in
      elim (check_response r) [
        | some e ↦ some (record { reply = (r, some e); sink = sink; rest = rest })
        | none ↦ elim (r.status == status_ok || length r.payload == 0) [
          | true ↦ some (record { reply = (r, none); sink = sink; rest = rest })
          | false ↦ elim write_error [
            | some e ↦ some (record { reply = (no_response, some e); sink = sink'; rest = rest })
            | none ↦ process_incoming_stream rest closed sink'
          ]
        ]
      ]

  -- Behind the first response, by the presence of `out` and `in`.
  stream_part : Response → Inbox → Option Sender → Option Sink → Option Finished
  stream_part resp c none none =
      some (record { reply = (resp, none); aborted = false; sink = none })
  stream_part resp c none (some k) = finish (process_incoming_stream c.pending c.closed (some k))
  stream_part resp c (some sender) sink = elim (process_incoming_stream c.pending c.closed sink) [
    | none ↦ none
    | some p ↦ join_sender sender (is_duplex sink) p
  ]

  -- `requestStream` between `register` and the deferred `deregister`; the first argument is what
  -- `SendPacket` returns. `request` is the call with neither stream.
  unfoldable pub request_stream :
      Option GoError → Inbox → Option Sender → Option Sink → Option Finished
  unfolding join_sender finish stream_part
  request_stream (some e) c out sink =
      some (record { reply = (no_response, some e); aborted = false; sink = sink })
  request_stream none c out sink = elim (get_response c) [
    | none ↦ none
    | some ((resp, some e), c') ↦
        some (record { reply = (resp, some e); aborted = false; sink = sink })
    | some ((resp, none), c') ↦ stream_part resp c' out sink
  ]

  abbrev pub request : Option GoError → Inbox → Option Finished
  request sent c = request_stream sent c none none
