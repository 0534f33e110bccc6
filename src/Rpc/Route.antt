-- ===== src/Rpc/Route.antt =====
-- rpc.go: `Route` and `eventFromProcedureID`. The decoder of an event's message is a parameter.
pub mod Packets
use go_libvirt.Base.{ℕ, Bool, Option, none, some, ◌==◌, if◌then◌else◌}
use go_libvirt.Base.Text.{Bytes}
use go_libvirt.Event.Stream.{Event}
use go_libvirt.Rpc.Callbacks.{Response, Calls, callback}
use go_libvirt.Rpc.Events.{Events, stream}
use go_libvirt.Socket.Packet.{Header}

-- The type of message that an event packet carries: `DomainEvent`, or `DomainEventCallback…Msg`.
pub data EventKind : Type 0 where
  domain_event : EventKind
  lifecycle reboot rtc_change watchdog io_error io_error_reason graphics block_job : EventKind
  disk_change tray_change pmwakeup pmsuspend balloon_change pmsuspend_disk : EventKind
  control_error device_removed tunable device_added agent_lifecycle : EventKind
  migration_iteration job_completed device_removal_failed metadata_change : EventKind

-- internal/constants: the two programs.
abbrev pub remote_program : ℕ
remote_program = 0x20008086

abbrev pub qemu_program : ℕ
qemu_program = 0x20008087

abbrev pub qemu_proc_domain_monitor_event : ℕ
qemu_proc_domain_monitor_event = 6

-- `eventFromProcedureID`, with the numbers of internal/constants.
unfoldable pub event_from_procedure_id : ℕ → Option EventKind
event_from_procedure_id proc =
    if proc == 318
    then some lifecycle
    else if proc == 319
    then some reboot
    else if proc == 320
    then some rtc_change
    else if proc == 321
    then some watchdog
    else if proc == 322
    then some io_error
    else if proc == 324
    then some io_error_reason
    else if proc == 323
    then some graphics
    else if proc == 326
    then some block_job
    else if proc == 327
    then some disk_change
    else if proc == 328
    then some tray_change
    else if proc == 329
    then some pmwakeup
    else if proc == 330
    then some pmsuspend
    else if proc == 331
    then some balloon_change
    else if proc == 332
    then some pmsuspend_disk
    else if proc == 325
    then some control_error
    else if proc == 333
    then some device_removed
    else if proc == 346
    then some tunable
    else if proc == 354
    then some device_added
    else if proc == 348
    then some agent_lifecycle
    else if proc == 359
    then some migration_iteration
    else if proc == 363
    then some job_completed
    else if proc == 367
    then some device_removal_failed
    else if proc == 379
    then some metadata_change
    else none

-- The kind of event that a packet carries, `none` for a reply: the switch of `Route`.
unfoldable pub event_of : Header → Option EventKind
unfolding event_from_procedure_id
event_of h =
    if h.program == qemu_program
    then (if h.procedure == qemu_proc_domain_monitor_event then some domain_event else none)
    else if h.program == remote_program
    then event_from_procedure_id h.procedure
    else none

-- What `Route` works on: the registry of callers and the table of streams.
pub record Router : Type 0 where
  pub calls : Calls
  pub events : Events

route_event : Bool → Option Event → Router → Router
route_event drops none s = s
route_event drops (some e) s = record s { events = stream drops e s.events }

-- `Route`, `none` where it blocks. `decode` is `eventDecoder`, `none` where the message is malformed; `drops` is the choice
-- of `Push`.
unfoldable pub route :
    (EventKind → Bytes → Option Event) → Bool → Header → Bytes → Router → Option Router
unfolding route_event
route decode drops h buf s = elim (event_of h) [
  | some kind ↦ some (route_event drops (decode kind buf) s)
  | none ↦ elim (callback h.serial (record { payload = buf; status = h.status }) s.calls) [
    | none ↦ none
    | some t ↦ some (record s { calls = t })
  ]
]
