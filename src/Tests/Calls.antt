-- ===== src/Tests/Calls.antt =====
-- Events, requests and their responses, at concrete inputs.
use go_libvirt.Base.{
  ◌<◌, length, ℕ, ◌≡◌, ◌≢◌, refl, Bool, true, false, Option, none, some, List, [], ◌∷◌, ◌++◌, arith,
  All,
}
use go_libvirt.Base.Int.{ℤ, pos}
use go_libvirt.Base.Map.{lookup-nil, lookup-insert, lookup, insert}
use go_libvirt.Base.Text.{Bytes}
use go_libvirt.Event.Stream.{
  Event, message, Stream, Action, push, push_dropped, len, recv, Output, nothing, count, got,
  finished, new_stream, step, run,
}
use go_libvirt.Event.Stream.Fifo.{accepted, received, run_fifo}
use go_libvirt.Event.Stream.Progress.{run-closed}
use go_libvirt.Rpc.Callbacks.{Response, Calls, register, callback, deregister_all}
use go_libvirt.Rpc.Callbacks.Registry
use go_libvirt.Rpc.Callbacks.Channels.{on_channel, with_serial, callback_each, Enough}
use go_libvirt.Rpc.Callbacks.Registry.{no_calls, deregister_all_lem}
use go_libvirt.Rpc.Events.{Events, add_stream}
use go_libvirt.Rpc.Events.Table.{IsKeyed, add_stream-IsKeyed}
use go_libvirt.Rpc.Route.{EventKind, Router}
use go_libvirt.Rpc.Route.Packets.{route_each, packets, replies, route_each-on_channel}
use go_libvirt.Socket.Packet.{Header}

abbrev first : Event
first = message (pos 4) (1 ∷ [])

abbrev second : Event
second = message (pos 4) (2 ∷ [])

abbrev empty_stream : Stream
empty_stream = new_stream 1 (pos 4)

abbrev history : List Action
history = push first ∷ push second ∷ len ∷ recv ∷ []

abbrev after_history : Stream
after_history = record {
  program = 1;
  callback_id = pos 4;
  queue = second ∷ [];
  cancelled = false;
  closed = false;
}

abbrev outputs : List Output
outputs = nothing ∷ nothing ∷ count 2 ∷ got first ∷ []

history_runs : run empty_stream history ≡ some (after_history, outputs)
unfolding run step new_stream
history_runs = refl

run_fifo_example : received outputs ++ after_history.queue ≡ empty_stream.queue ++ accepted history
run_fifo_example = run_fifo history empty_stream history_runs

abbrev ended : Stream
ended = record after_history { cancelled = true; closed = true }

ended_runs : run ended (push_dropped first ∷ recv ∷ []) ≡ some (ended, nothing ∷ finished ∷ [])
unfolding run step
ended_runs = refl

run-closed_example :
    (ended ≡ ended)
    × (received (nothing ∷ finished ∷ []) ≡ [])
    × All (λ a. a ≢ len) (push_dropped first ∷ recv ∷ [])
run-closed_example =
    run-closed (push_dropped first ∷ recv ∷ []) ended (record { closed_cancelled = λ e. refl }) refl
      ended_runs

-- Two callers wait, with the serial numbers 8 and 7.
abbrev one_caller : Calls
one_caller = register (pos 8) 2 no_calls

abbrev two_callers : Calls
two_callers = register (pos 7) 1 one_caller

one_caller-IsWell : Registry.IsWell one_caller
one_caller-IsWell =
    Registry.register-IsWell (pos 8) 2 no_calls
      (record {
        not_closed = refl;
        unused = λ id h. absurd (ground (arith, lookup-nil {V = ℕ} id));
      })
      Registry.no_calls-IsWell

two_callers-IsWell : Registry.IsWell two_callers
two_callers-IsWell =
    Registry.register-IsWell (pos 7) 1 one_caller
      (record { not_closed = unfold register in refl; unused = free }) one_caller-IsWell
  where
    free : (id : ℤ) → lookup id one_caller.callbacks ≢ some 1
    free id h =
        unfold register in
        ground (arith, lookup-insert {V = ℕ} (pos 8) id 2 [], lookup-nil {V = ℕ} id)

abbrev answer : ℕ → Response
answer n = record { payload = n ∷ []; status = 0 }

abbrev arrivals : List (ℤ × Response)
arrivals = (pos 7, answer 1) ∷ (pos 8, answer 2) ∷ (pos 9, answer 3) ∷ (pos 7, answer 4) ∷ []

-- The caller at channel 1 receives once: the second response to it blocks.
arrivals_run : callback_each arrivals two_callers ≡ none
unfolding callback_each callback register lookup insert
arrivals_run = refl

found_7 : lookup (pos 7) two_callers.callbacks ≡ some 1
unfolding register lookup insert
found_7 = refl

deregister_all_lem_example :
    ((deregister_all two_callers).panicked ≡ false)
    × ((id : ℤ) → lookup id (deregister_all two_callers).callbacks ≡ none)
    × ((id : ℤ) (c : ℕ)
        → lookup id two_callers.callbacks ≡ some c
        → (deregister_all two_callers).closed c ≡ true)
deregister_all_lem_example = deregister_all_lem two_callers two_callers-IsWell

-- One stream in the table, under its callback.
abbrev one_stream : Events
one_stream = add_stream 0 (record { table = []; heap = λ r. empty_stream })

one_stream-IsKeyed : IsKeyed one_stream
one_stream-IsKeyed =
    add_stream-IsKeyed 0 _
      (record { keyed = λ id r h. absurd (ground (arith, lookup-nil {V = ℕ} id)) })

found_4 : lookup (pos 4) one_stream.table ≡ some 0
unfolding add_stream lookup insert new_stream
found_4 = refl

abbrev router : Router
router = record { calls = two_callers; events = one_stream }

abbrev lifecycle_header : Header
lifecycle_header = record {
  program = 0x20008086;
  version = 1;
  procedure = 318;
  typ = 2;
  serial = pos 0;
  status = 0;
}

abbrev reply_header : Header
reply_header = record {
  program = 0x20008086;
  version = 1;
  procedure = 66;
  typ = 1;
  serial = pos 7;
  status = 0;
}

-- A decoder whose messages are for callback 4, and which refuses the empty message.
abbrev decode_first : EventKind → Bytes → Option Event
decode_first k [] = none
decode_first k (b ∷ bs) = some (message (pos 4) (b ∷ bs))

abbrev mixed : List (Bool × Header × Bytes)
mixed = (false, reply_header, 5 ∷ []) ∷ (false, lifecycle_header, 1 ∷ []) ∷ []

route_each-on_channel_example :
    let rs = replies (packets mixed) in
    ((t : Router)
      → route_each decode_first mixed router ≡ some t
      → on_channel 1 t.calls.sent ≡ on_channel 1 router.calls.sent ++ with_serial (pos 7) rs)
    × (Enough rs router.calls → (t : Router) × (route_each decode_first mixed router ≡ some t))
    × (router.calls.receives 1 < length (with_serial (pos 7) rs)
        → route_each decode_first mixed router ≡ none)
route_each-on_channel_example =
    route_each-on_channel decode_first (pos 7) 1 mixed router two_callers-IsWell found_7
