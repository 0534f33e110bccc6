-- ===== src/Client/Subscriptions/Life.antt =====
-- A subscription from its first request to its last.
use mathlib.Core.Path.{subst}
use go_libvirt.Base.{
  ℕ, ◌≡◌, ◌≢◌, sym, ap, ◌∙◌, Bool, true, none, some, List, [], ◌∷◌, ◌++◌, Result, ok, err,
  ok_injective, err-ne-ok,
}
use go_libvirt.Base.Int.{ℤ}
use go_libvirt.Base.Text.{Bytes}
use go_libvirt.Base.Map.{lookup}
use go_libvirt.Event.Stream.{Event, new_stream, shutdown}
use go_libvirt.Rpc.Errors.{GoError}
use go_libvirt.Rpc.Events.{Events, remove_stream}
use go_libvirt.Rpc.Route.{remote_program, qemu_program}
use go_libvirt.Client.Remote.{Remote, Request, Domain, Nothing, ◌>>=◌}
use go_libvirt.Client.Remote.Args.{
  connect_domain_event_callback_deregister_any_args,
  qemu_connect_domain_monitor_event_deregister_args,
}
use go_libvirt.Client.Remote.Sent.{requests, command-sent}
use go_libvirt.Client.Bindings.{
  connect_domain_event_callback_register_any, connect_domain_event_callback_deregister_any,
  qemu_connect_domain_monitor_event_register, qemu_connect_domain_monitor_event_deregister,
}
use go_libvirt.Client.Operations
use go_libvirt.Client.Subscriptions.{
  Subscribed, set_stream, open_stream, subscribe_events, lifecycle_events, subscribe_qemu_events,
  unsubscribe_events, unsubscribe_qemu_events, end_events, end_qemu_events,
  domain_event_id_lifecycle,
}
use go_libvirt.Client.Subscriptions.Ends.{
  arrive, of_callback, IsFresh, arrive-queue, open_stream-IsOnly, remove_stream-Ends,
  set_stream-cancelled, update-same,
}

-- The three ways to subscribe.
pub data Subscription : Type 0 where
  any_events : ℤ → List Domain → Subscription
  lifecycle : Subscription
  qemu_events : Bytes → Subscription

-- What the table and the stream are when a subscription has ended, `before` being the table before it.
pub record IsEnded (id : ℤ) (r : ℕ) (before v : Events) : Type 0 where
  pub gone : lookup id v.table ≡ none
  pub others : (j : ℤ) → j ≢ id → lookup j v.table ≡ lookup j before.table
  pub stopped : (v.heap r).cancelled ≡ true

module _ (l : Remote) where
  abbrev pub subscribe : Subscription → ℕ → List Request → Events → Subscribed
  subscribe (any_events event_id dom) r sent s = subscribe_events l event_id dom r sent s
  subscribe lifecycle r sent s = lifecycle_events l r sent s
  subscribe (qemu_events dom) r sent s = subscribe_qemu_events l dom r sent s

  abbrev pub unsubscribe :
      Subscription → ℕ → List Request → Events → Result GoError Nothing × List Request × Events
  unsubscribe (any_events event_id dom) r sent s = end_events l r sent s
  unsubscribe lifecycle r sent s = end_events l r sent s
  unsubscribe (qemu_events dom) r sent s = end_qemu_events l r sent s

  -- The request that ends a subscription.
  abbrev pub end_requests : Subscription → ℤ → List Request → List Request
  end_requests (qemu_events dom) id sent =
      requests l 5 qemu_program (qemu_connect_domain_monitor_event_deregister_args id) sent
  end_requests _ id sent =
      requests l 317 remote_program (connect_domain_event_callback_deregister_any_args id) sent

  end_events-IsEnded :
      (id : ℤ) (r : ℕ) (sent : List Request) (s : Events)
      → lookup id s.table ≡ some r
      → (s.heap r).callback_id ≡ id
      → let (result, after, v) = end_events l r sent s in
        (after
          ≡ requests l 317 remote_program
              (connect_domain_event_callback_deregister_any_args id)
              sent)
        × IsEnded id r s v
  unfolding end_events unsubscribe_events shutdown connect_domain_event_callback_deregister_any
  end_events-IsEnded id r sent s there keyed =
      let t = set_stream r (shutdown (s.heap r)) s in
      let key : (t.heap r).callback_id ≡ id =
        ap (λ x. x.callback_id) (update-same s.heap r _) ∙ keyed in
      let (gone, others, stopped) = remove_stream-Ends id r t there in
      (
        ap (λ i. (connect_domain_event_callback_deregister_any l i sent).1) key
            ∙ command-sent l 317 remote_program
                (connect_domain_event_callback_deregister_any_args id) sent,
        subst (λ i. IsEnded id r s (remove_stream i t)) (sym key)
            (record { gone = gone; others = others; stopped = stopped }),
      )

  end_qemu_events-IsEnded :
      (id : ℤ) (r : ℕ) (sent : List Request) (s : Events)
      → lookup id s.table ≡ some r
      → (s.heap r).callback_id ≡ id
      → let (result, after, v) = end_qemu_events l r sent s in
        (after
          ≡ requests l 5 qemu_program (qemu_connect_domain_monitor_event_deregister_args id) sent)
        × IsEnded id r s v
  unfolding end_qemu_events unsubscribe_qemu_events shutdown
      qemu_connect_domain_monitor_event_deregister
  end_qemu_events-IsEnded id r sent s there keyed =
      let (gone, others, stopped) = remove_stream-Ends id r s there in
      (
        ap (λ i. (qemu_connect_domain_monitor_event_deregister l i sent).1) keyed
            ∙ command-sent l 5 qemu_program (qemu_connect_domain_monitor_event_deregister_args id)
                sent,
        subst
            (λ i.
              let t = remove_stream i s in IsEnded id r s (set_stream r (shutdown (t.heap r)) t))
            (sym keyed)
            (record {
              gone = gone;
              others = others;
              stopped = let t = remove_stream id s in set_stream-cancelled r (t.heap r) t;
            }),
      )

  unsubscribe-IsEnded :
      (k : Subscription) (id : ℤ) (r : ℕ) (sent : List Request) (s : Events)
      → lookup id s.table ≡ some r
      → (s.heap r).callback_id ≡ id
      → let (result, after, v) = unsubscribe k r sent s in
        (after ≡ end_requests k id sent) × IsEnded id r s v
  unsubscribe-IsEnded (any_events event_id dom) id r sent s there keyed =
      end_events-IsEnded id r sent s there keyed
  unsubscribe-IsEnded lifecycle id r sent s there keyed = end_events-IsEnded id r sent s there keyed
  unsubscribe-IsEnded (qemu_events dom) id r sent s there keyed =
      end_qemu_events-IsEnded id r sent s there keyed

  opens :
      (program : ℕ) (p : Result GoError ℤ × List Request) (r : ℕ) (s : Events) (id : ℤ)
      → (open_stream program r s p).result ≡ ok id
      → (used : ℕ) × (after : List Request) × (open_stream program r s p
          ≡ open_stream used r s (ok id, after))
  unfolding open_stream
  opens program (err e, after) r s id h = absurd (err-ne-ok e id h)
  opens program (ok given, after) r s id h =
      (program, after, ap (λ i. open_stream program r s (ok i, after)) (ok_injective h))

  -- A subscription that succeeds has opened a stream of the callback that the server has given.
  subscribe-opens :
      (k : Subscription) (r : ℕ) (sent : List Request) (s : Events) (id : ℤ)
      → (subscribe k r sent s).result ≡ ok id
      → (program : ℕ) × (after : List Request) × (subscribe k r sent s
          ≡ open_stream program r s (ok id, after))
  unfolding subscribe_events lifecycle_events subscribe_qemu_events
  subscribe-opens (any_events event_id dom) r sent s id h =
      opens qemu_program (connect_domain_event_callback_register_any l event_id [] sent) r s id h
  subscribe-opens lifecycle r sent s id h =
      opens remote_program
        (connect_domain_event_callback_register_any l domain_event_id_lifecycle [] sent) r s id h
  subscribe-opens (qemu_events dom) r sent s id h =
      opens qemu_program
        ((Operations.lookup l dom >>= λ d.
            qemu_connect_domain_monitor_event_register l (d ∷ []) [] 0)
          sent)
        r s id h

  -- Where a subscription of any kind succeeds, with a stream that nobody has: of the events that
  -- arrive then, whichever they are, the stream has those of its callback, in order. When the
  -- subscriber has ended, one more request has been sent at most, that which deregisters the
  -- callback; whatever the server answers, the table is as it was before the subscription for every
  -- other callback and has nobody under this one, and the stream is shut down.
  pub subscription_lem :
      (k : Subscription) (r : ℕ) (sent later : List Request) (s : Events) (id : ℤ)
      (es : List (Bool × Event))
      → IsFresh r s
      → (subscribe k r sent s).result ≡ ok id
      → let u = arrive es (subscribe k r sent s).events in
        let (result, after, v) = unsubscribe k r later u in
        ((u.heap r).queue ≡ of_callback id es)
        × (after ≡ end_requests k id later)
        × IsEnded id r s v
  unfolding new_stream
  subscription_lem k r sent later s id es fresh h =
      let (program, answered, is) = subscribe-opens k r sent s id h in
      let t = (open_stream program r s (ok id, answered)).events in
      let same : (subscribe k r sent s).events ≡ t = ap (λ x. x.events) is in
      let (only, made, others) = open_stream-IsOnly program r id s answered fresh in
      let (queue, keyed, table) = arrive-queue id r es t only (ap (λ x. x.cancelled) made) in
      let u = arrive es t in
      let (after, ended) =
        unsubscribe-IsEnded k id r later u (ap (λ m. lookup id m) table ∙ only.there)
          (keyed ∙ ap (λ x. x.callback_id) made) in
      rw same (
        queue ∙ ap (λ x. x.queue ++ of_callback id es) made,
        after,
        record {
          gone = ended.gone;
          others = λ j ne. ended.others j ne ∙ ap (λ m. lookup j m) table ∙ others j ne;
          stopped = ended.stopped;
        },
      )
