-- ===== src/Rpc/Route/Packets.antt =====
-- Which packets are events, and what `Route` does with the two sorts.
use go_libvirt.Base.{
  length, ◌<◌, ℕ, ◌≡◌, ◌↔◌, refl, sym, ap, ◌∙◌, Bool, Option, none, some, List, [], ◌∷◌, ◌++◌,
  arith, Option-cases, inl, inr,
}
use go_libvirt.Base.Int.{ℤ}
use go_libvirt.Base.Map.{lookup}
use go_libvirt.Base.Text.{Bytes}
use go_libvirt.Event.Stream.{Event}
use go_libvirt.Rpc.Callbacks.{Response, Calls, callback}
use go_libvirt.Rpc.Callbacks.Registry.{IsWell}
use go_libvirt.Rpc.Callbacks.Channels.{
  on_channel, with_serial, callback_each, callback_each-on_channel, callback_each-returns,
  callback_each-blocks, Enough,
}
use go_libvirt.Rpc.Route.{
  EventKind, domain_event, lifecycle, reboot, rtc_change, watchdog, io_error, io_error_reason,
  graphics, block_job, disk_change, tray_change, pmwakeup, pmsuspend, balloon_change,
  pmsuspend_disk, control_error, device_removed, tunable, device_added, agent_lifecycle,
  migration_iteration, job_completed, device_removal_failed, metadata_change, remote_program,
  qemu_program, qemu_proc_domain_monitor_event, event_of, Router, route, route_event,
}
use go_libvirt.Socket.Packet.{Header}

-- The program and the procedure number of each event in libvirt's protocol.
abbrev pub event_program : EventKind → ℕ
event_program domain_event = qemu_program
event_program _ = remote_program

abbrev pub event_procedure : EventKind → ℕ
event_procedure domain_event = qemu_proc_domain_monitor_event
event_procedure lifecycle = 318
event_procedure reboot = 319
event_procedure rtc_change = 320
event_procedure watchdog = 321
event_procedure io_error = 322
event_procedure io_error_reason = 324
event_procedure graphics = 323
event_procedure block_job = 326
event_procedure disk_change = 327
event_procedure tray_change = 328
event_procedure pmwakeup = 329
event_procedure pmsuspend = 330
event_procedure balloon_change = 331
event_procedure pmsuspend_disk = 332
event_procedure control_error = 325
event_procedure device_removed = 333
event_procedure tunable = 346
event_procedure device_added = 354
event_procedure agent_lifecycle = 348
event_procedure migration_iteration = 359
event_procedure job_completed = 363
event_procedure device_removal_failed = 367
event_procedure metadata_change = 379

event_of_sound :
    (h : Header) (k : EventKind)
    → event_of h ≡ some k
    → (h.program ≡ event_program k) × (h.procedure ≡ event_procedure k)
unfolding event_of
event_of_sound h k e = ground arith

event_of_complete :
    (h : Header) (k : EventKind)
    → h.program ≡ event_program k
    → h.procedure ≡ event_procedure k
    → event_of h ≡ some k
unfolding event_of
event_of_complete h domain_event p q = rw (p, q)
event_of_complete h _ p q = rw (p, q)

-- A packet is taken for an event of some kind exactly if its program and its procedure number are
-- those of that kind in libvirt's protocol.
pub event_of_iff :
    (h : Header) (k : EventKind)
    → (event_of h ≡ some k) ↔ ((h.program ≡ event_program k) × (h.procedure ≡ event_procedure k))
event_of_iff h k = ((λ e. event_of_sound h k e), (λ e. event_of_complete h k e.0 e.1))

-- The packets that are replies, as the registry of callers sees them.
abbrev reply_of : Option EventKind → Header → Bytes → List (ℤ × Response)
reply_of (some k) h buf = []
reply_of none h buf = (h.serial, record { payload = buf; status = h.status }) ∷ []

abbrev pub replies : List (Header × Bytes) → List (ℤ × Response)
replies [] = []
replies ((h, buf) ∷ ps) = reply_of (event_of h) h buf ++ replies ps

abbrev pub packets : List (Bool × Header × Bytes) → List (Header × Bytes)
packets [] = []
packets ((drops, h, buf) ∷ ps) = (h, buf) ∷ packets ps

-- The registry of callers, of a router.
abbrev pub calls_of : Option Router → Option Calls
calls_of none = none
calls_of (some s) = some s.calls

module _ (decode : EventKind → Bytes → Option Event) where
  -- The packets that `listen` routes, each with the choice of `Push`; none where a call blocks.
  pub route_each : List (Bool × Header × Bytes) → Router → Option Router
  route_each [] s = some s
  route_each ((drops, h, buf) ∷ ps) s = elim (route decode drops h buf s) [
    | none ↦ none
    | some t ↦ route_each ps t
  ]

  route_event-calls :
      (drops : Bool) (e : Option Event) (s : Router) → (route_event drops e s).calls ≡ s.calls
  unfolding route_event
  route_event-calls drops none s = refl
  route_event-calls drops (some e) s = refl

  route-calls :
      (drops : Bool) (h : Header) (buf : Bytes) (s : Router)
      → calls_of (route decode drops h buf s) ≡ callback_each (reply_of (event_of h) h buf) s.calls
  unfolding route callback_each
  route-calls drops h buf s = elim (Option-cases (event_of h)) [
    | inl reply ↦
        rw (reply, route)
          (by (callback h.serial (record { payload = buf; status = h.status }) s.calls))
    | inr (k, e) ↦ rw (e, route) (ap (λ t. some t) (route_event-calls drops (decode k buf) s))
  ]
    where
      by :
          (o : Option Calls)
          → calls_of (elim o [ none ↦ none | some t ↦ some (record s { calls = t }) ])
            ≡ elim o [ none ↦ none | some t ↦ some t ]
      by none = refl
      by (some t) = refl

  -- Further responses, and further packets, where the one before has not blocked.
  answered : List (ℤ × Response) → Option Calls → Option Calls
  answered l none = none
  answered l (some t) = callback_each l t

  after : List (Bool × Header × Bytes) → Option Router → Option Router
  after ps none = none
  after ps (some t) = route_each ps t

  callback_each-append :
      (l m : List (ℤ × Response)) (s : Calls)
      → callback_each (l ++ m) s ≡ answered m (callback_each l s)
  unfolding callback_each answered
  callback_each-append [] m s = refl
  callback_each-append ((j, res) ∷ l) m s = by (callback_each-append l m) (callback j res s)
    where
      by :
          ((t : Calls) → callback_each (l ++ m) t ≡ answered m (callback_each l t))
          → (o : Option Calls)
          → elim o [ none ↦ none | some t ↦ callback_each (l ++ m) t ]
            ≡ answered m (elim o [ none ↦ none | some t ↦ callback_each l t ])
      by ih none = refl
      by ih (some t) = ih t

  route_each-after :
      (drops : Bool) (h : Header) (buf : Bytes) (ps : List (Bool × Header × Bytes)) (s : Router)
      → route_each ((drops, h, buf) ∷ ps) s ≡ after ps (route decode drops h buf s)
  unfolding route_each after
  route_each-after drops h buf ps s = by (route decode drops h buf s)
    where
      by : (o : Option Router) → elim o [ none ↦ none | some t ↦ route_each ps t ] ≡ after ps o
      by none = refl
      by (some t) = refl

  after-calls :
      (ps : List (Bool × Header × Bytes))
      → ((t : Router) → calls_of (route_each ps t) ≡ callback_each (replies (packets ps)) t.calls)
      → (o : Option Router) → calls_of (after ps o) ≡ answered (replies (packets ps)) (calls_of o)
  unfolding after answered
  after-calls ps ih none = refl
  after-calls ps ih (some t) = ih t

  route_each-calls :
      (ps : List (Bool × Header × Bytes)) (s : Router)
      → calls_of (route_each ps s) ≡ callback_each (replies (packets ps)) s.calls
  route_each-calls [] s = unfold route_each callback_each in refl
  route_each-calls ((drops, h, buf) ∷ ps) s =
      ap calls_of (route_each-after drops h buf ps s)
      ∙ after-calls ps (route_each-calls ps) (route decode drops h buf s)
      ∙ ap (answered (replies (packets ps))) (route-calls drops h buf s)
      ∙ sym (callback_each-append (reply_of (event_of h) h buf) (replies (packets ps)) s.calls)

  calls_none : (o : Option Router) → calls_of o ≡ none → o ≡ none
  calls_none none h = refl
  calls_none (some s) h = cc

  calls_some : (o : Option Router) (t : Calls) → calls_of o ≡ some t → (s : Router) × (o ≡ some s)
  calls_some none t h = cc
  calls_some (some s) t h = (s, refl)

  -- For a registered caller, over any packets, the registry well formed. Where `Route` returns from
  -- each of them, the caller has got on its channel exactly the replies with its serial number, in the
  -- order of their arrival: events are never taken for replies, nor the other way. It returns from each
  -- if every caller receives as many replies as arrive for it; and it blocks for ever, with the lock
  -- of the registry, if more arrive for this caller than it receives.
  pub route_each-on_channel :
      (id : ℤ) (c : ℕ) (ps : List (Bool × Header × Bytes)) (s : Router)
      → IsWell s.calls
      → lookup id s.calls.callbacks ≡ some c
      → ((t : Router)
          → route_each ps s ≡ some t
          → on_channel c t.calls.sent
            ≡ on_channel c s.calls.sent ++ with_serial id (replies (packets ps)))
        × (Enough (replies (packets ps)) s.calls → (t : Router) × (route_each ps s ≡ some t))
        × (s.calls.receives c < length (with_serial id (replies (packets ps)))
            → route_each ps s ≡ none)
  route_each-on_channel id c ps s v found =
      let rs = replies (packets ps) in
      (
        (λ t h.
            callback_each-on_channel id c rs s.calls t.calls v found
              (sym (route_each-calls ps s) ∙ ap calls_of h)),
        (λ enough.
            let (t, h) = callback_each-returns rs s.calls v enough in
            calls_some (route_each ps s) t (route_each-calls ps s ∙ h)),
        λ over.
            calls_none (route_each ps s)
              (route_each-calls ps s ∙ callback_each-blocks id c rs s.calls v found over),
      )
