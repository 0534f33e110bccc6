-- ===== src/Client/Subscriptions.antt =====
-- libvirt.go: SubscribeEvents, LifecycleEvents and SubscribeQEMUEvents, and how they end. `r` is the
-- reference of the stream that is made; the goroutine that hands its events on takes part by `recv`
-- of Event.Stream.
pub mod Ends
pub mod Life
use go_libvirt.Base.{ℕ, List, [], ◌∷◌, Result, ok, err}
use go_libvirt.Base.Int.{ℤ, pos}
use go_libvirt.Base.Text.{Bytes}
use go_libvirt.Event.Stream.{Stream, new_stream, shutdown}
use go_libvirt.Rpc.Errors.{GoError}
use go_libvirt.Rpc.Events.{Events, update, add_stream, remove_stream}
use go_libvirt.Rpc.Route.{remote_program, qemu_program}
use go_libvirt.Client.Remote.{Remote, Domain, Request, Call, Nothing, ◌>>=◌}
use go_libvirt.Client.Bindings.{
  connect_domain_event_callback_register_any, connect_domain_event_callback_deregister_any,
  qemu_connect_domain_monitor_event_register, qemu_connect_domain_monitor_event_deregister,
}
use go_libvirt.Client.Operations.{lookup}

-- What a subscription returns, the requests behind it, and the table of streams.
pub record Subscribed : Type 0 where
  pub result : Result GoError ℤ
  pub sent : List Request
  pub events : Events

abbrev pub domain_event_id_lifecycle : ℤ
domain_event_id_lifecycle = pos 0

abbrev pub set_stream : ℕ → Stream → Events → Events
set_stream r x s = record s { heap = update s.heap r x }

-- `event.NewStream` and `l.addStream`, for the callback that the server has given, if it has.
unfoldable pub open_stream : ℕ → ℕ → Events → Result GoError ℤ × List Request → Subscribed
open_stream program r s (err e, after) = record { result = err e; sent = after; events = s }
open_stream program r s (ok id, after) = record {
  result = ok id;
  sent = after;
  events = add_stream r (set_stream r (new_stream program id) s);
}

-- What is done for a stream when its subscriber has ended, behind the call that deregisters it.
abbrev without_callback :
    ℤ
    → Events
    → Result GoError Nothing × List Request
    → Result GoError Nothing × List Request × Events
without_callback id s (result, after) = (result, after, remove_stream id s)

module _ (l : Remote) where
  -- The argument `dom` is not used.
  unfoldable pub subscribe_events : ℤ → List Domain → ℕ → List Request → Events → Subscribed
  subscribe_events event_id dom r sent s =
      open_stream qemu_program r s (connect_domain_event_callback_register_any l event_id [] sent)

  unfoldable pub lifecycle_events : ℕ → List Request → Events → Subscribed
  lifecycle_events r sent s =
      open_stream remote_program r s
        (connect_domain_event_callback_register_any l domain_event_id_lifecycle [] sent)

  unfoldable pub subscribe_qemu_events : Bytes → ℕ → List Request → Events → Subscribed
  subscribe_qemu_events dom r sent s =
      open_stream qemu_program r s
        ((lookup l dom >>= λ d. qemu_connect_domain_monitor_event_register l (d ∷ []) [] 0) sent)

  unfoldable pub unsubscribe_events :
      ℕ → List Request → Events → Result GoError Nothing × List Request × Events
  unsubscribe_events r sent s =
      let id = (s.heap r).callback_id in
      without_callback id s (connect_domain_event_callback_deregister_any l id sent)

  unfoldable pub unsubscribe_qemu_events :
      ℕ → List Request → Events → Result GoError Nothing × List Request × Events
  unsubscribe_qemu_events r sent s =
      let id = (s.heap r).callback_id in
      without_callback id s (qemu_connect_domain_monitor_event_deregister l id sent)

  -- The deferred calls of the goroutine, last first: `stream.Shutdown` and `l.unsubscribeEvents`.
  unfoldable pub end_events :
      ℕ → List Request → Events → Result GoError Nothing × List Request × Events
  end_events r sent s = unsubscribe_events r sent (set_stream r (shutdown (s.heap r)) s)

  -- In SubscribeQEMUEvents, the other way round.
  unfoldable pub end_qemu_events :
      ℕ → List Request → Events → Result GoError Nothing × List Request × Events
  end_qemu_events r sent s =
      let (result, after, t) = unsubscribe_qemu_events r sent s in
      (result, after, set_stream r (shutdown (t.heap r)) t)
