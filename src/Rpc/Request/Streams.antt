-- ===== src/Rpc/Request/Streams.antt =====
-- A request returns once its channel is closed.
use go_libvirt.Base.{
  ℕ, ◌≡◌, ◌≢◌, Bool, true, false, Option, none, some, List, [], ◌∷◌, arith, Option-cases, inl, inr,
}
use go_libvirt.Base.Int.{ℤ}
use go_libvirt.Base.Map.{lookup}
use go_libvirt.Base.Text.{Bytes}
use go_libvirt.Rpc.Callbacks.{Response, Calls, deregister_all}
use go_libvirt.Rpc.Callbacks.Registry.{IsWell, deregister_all_lem}
use go_libvirt.Rpc.Errors.{GoError, interrupted}
use go_libvirt.Rpc.Request.{
  Inbox, no_response, Reply, Sink, Processed, Sender, check_response, write_to, get_response,
  process_incoming_stream, stream_part, join_sender, finish, is_duplex, request_stream,
}

-- The goroutine of the outgoing stream ends, if there is one.
abbrev pub SenderEnds : Option Sender → Type 0
SenderEnds none = Unit {0}
SenderEnds (some sender) = sender.finally ≢ none

-- The channel of a caller, with the responses that it has not taken yet.
abbrev pub inbox_of : ℕ → List Response → Calls → Inbox
inbox_of c pending s = record { pending = pending; closed = s.closed c }

module _ (decode_error : Bytes → Option GoError) where
  process_returns :
      (pending : List Response) (sink : Option Sink)
      → process_incoming_stream decode_error pending true sink ≢ none
  unfolding process_incoming_stream
  process_returns [] sink = λ e. cc
  process_returns (r ∷ rest) sink = ground (arith, process_returns rest (write_to sink r.payload).1)

  join_returns :
      (sender : Sender) (duplex : Bool) (p : Processed)
      → sender.finally ≢ none
      → join_sender sender duplex p ≢ none
  unfolding join_sender
  join_returns sender duplex p h = ground arith

  stream_part_returns :
      (resp : Response) (c : Inbox) (out : Option Sender) (sink : Option Sink)
      → c.closed ≡ true
      → SenderEnds out
      → stream_part decode_error resp c out sink ≢ none
  unfolding stream_part finish
  stream_part_returns resp c none none shut h = λ e. cc
  stream_part_returns resp c none (some k) shut h =
      ground (arith, process_returns c.pending (some k))
  stream_part_returns resp c (some sender) sink shut h =
      elim (Option-cases (process_incoming_stream decode_error c.pending c.closed sink)) [
        | inl e ↦ absurd (ground (arith, process_returns c.pending sink))
        | inr (p, e) ↦ rw (e, stream_part) (join_returns sender (is_duplex sink) p h)
      ]

  closed_at :
      (pending : List Response) (closed : Bool)
      → closed ≡ true
      → (reply : Reply) × (c' : Inbox) × (get_response decode_error
            (record { pending = pending; closed = closed })
          ≡ some (reply, c'))
        × (c'.closed ≡ true)
  unfolding get_response
  closed_at [] closed shut = (
    (no_response, some interrupted),
    record { pending = []; closed = closed },
    ground arith,
    shut,
  )
  closed_at (r ∷ rest) closed shut = (
    (r, check_response decode_error r),
    record { pending = rest; closed = closed },
    ground arith,
    shut,
  )

  get_response_closed :
      (c : Inbox)
      → c.closed ≡ true
      → (reply : Reply) × (c' : Inbox) × (get_response decode_error c ≡ some (reply, c'))
        × (c'.closed ≡ true)
  get_response_closed c shut = closed_at c.pending c.closed shut

  after_response :
      (resp : Response) (e : Option GoError) (c c' : Inbox) (out : Option Sender)
      (sink : Option Sink)
      → get_response decode_error c ≡ some ((resp, e), c')
      → c'.closed ≡ true
      → SenderEnds out
      → request_stream decode_error none c out sink ≢ none
  unfolding request_stream
  after_response resp (some e) c c' out sink same still h = rw (same, request_stream) (λ x. cc)
  after_response resp none c c' out sink same still h =
      rw (same, request_stream) (stream_part_returns resp c' out sink still h)

  -- A request whose channel is closed returns, also with streams in either direction, whatever has
  -- arrived before, if the goroutine that sends the outgoing stream ends.
  pub request_stream_returns :
      (sent : Option GoError) (c : Inbox) (out : Option Sender) (sink : Option Sink)
      → c.closed ≡ true
      → SenderEnds out
      → request_stream decode_error sent c out sink ≢ none
  request_stream_returns (some e) c out sink shut h = unfold request_stream in λ x. cc
  request_stream_returns none c out sink shut h =
      let (r, c', same, still) = get_response_closed c shut in
      after_response r.0 r.1 c c' out sink same still h

  -- When the connection is lost, `deregisterAll` lets every caller that is registered return: a
  -- caller with nothing left on its channel is interrupted.
  pub lost_connection_returns :
      (s : Calls) (id : ℤ) (c : ℕ) (pending : List Response) (out : Option Sender)
      (sink : Option Sink)
      → IsWell s
      → lookup id s.callbacks ≡ some c
      → SenderEnds out
      → (request_stream decode_error none (inbox_of c pending (deregister_all s)) out sink ≢ none)
        × (request_stream decode_error none (inbox_of c [] (deregister_all s)) out sink
            ≡ some
                (record { reply = (no_response, some interrupted); aborted = false; sink = sink }))
  lost_connection_returns s id c pending out sink v found ends =
      let shut = (deregister_all_lem s v).2 id c found in
      (
        request_stream_returns none (inbox_of c pending (deregister_all s)) out sink shut ends,
        (unfold request_stream get_response in rw shut),
      )
