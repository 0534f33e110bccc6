-- ===== src/Tests/Clients.antt =====
-- The calls of a client with a concrete server, and the theorems on them there.
use go_libvirt.Base.{
  ◌≤◌, ◌≡◌, refl, sym, ◌⊎◌, Bool, true, false, some, List, [], ◌∷◌, length, ok, ok_injective, arith,
}
use go_libvirt.Base.Int.{pos}
use go_libvirt.Base.Map.{lookup}
use go_libvirt.Base.Text.{Bytes, text}
use go_libvirt.Event.Stream.{Event, message, new_stream, get_callback_id}
use go_libvirt.Lvgen.Numbers.{format_nat, digits}
use go_libvirt.Rpc.Events.{Events}
use go_libvirt.Rpc.Route.{remote_program}
use go_libvirt.Client.Remote.{Network, call, send, query}
use go_libvirt.Client.Remote.Args.{domain_reset_args}
use go_libvirt.Client.Remote.Sent.{requests, with_request}
use go_libvirt.Client.Bindings.{
  domain_lookup_by_name, connect_domain_event_callback_register_any, connect_get_lib_version,
}
use go_libvirt.Client.Operations
use go_libvirt.Client.Operations.{
  BlockLimit, param_of, set_block_io_tune, get_block_io_tune, version, version_string, reset,
}
use go_libvirt.Client.Operations.ByName.{after-requests, reset_it, for_domain, found, after}
use go_libvirt.Client.Login.{init_libvirt_comms}
use go_libvirt.Client.Login.Opened.{IsUnopened, IsOpened, init_libvirt_comms-IsOpened}
use go_libvirt.Client.Monitor.{run, get_qemu_error, trim_nulls}
use go_libvirt.Client.Monitor.Reply.{IsXdr, IsReply, run-IsReply}
use go_libvirt.Client.Subscriptions.{lifecycle_events, open_stream}
use go_libvirt.Client.Subscriptions.Ends.{arrive}
use go_libvirt.Client.Subscriptions.Life.{lifecycle, subscribe, subscription_lem}
use go_libvirt.Tests.Server.{server}

version_run : (version server []).0 ≡ ok (text "6.2.3")
unfolding version connect_get_lib_version send version_string format_nat digits
version_run = refl

monitor_run : (run server (text "guest") (text "{}") []).0 ≡ ok (some (text "{}"))
unfolding run get_qemu_error trim_nulls send Operations.lookup domain_lookup_by_name query call
monitor_run = refl

abbrev net : Network
net = record { name = text "default"; uuid = [] }

init_libvirt_comms-IsOpened_example :
    IsUnopened server [] (init_libvirt_comms server (text "qemu:///system") [])
    ⊎ IsOpened server []
        (text "qemu:///system")
        (init_libvirt_comms server (text "qemu:///system") [])
init_libvirt_comms-IsOpened_example = init_libvirt_comms-IsOpened server [] (text "qemu:///system")

server-IsXdr : IsXdr server
server-IsXdr = record { string_long = long; opaque_whole = λ s read h. sym (ok_injective h) }
  where
    long : (s read : Bytes) → (server.decode_string s).value ≡ ok read → 4 ≤ length s
    long s read h = ground (arith, h)

run-IsReply_example :
    (reply : Bytes) × (server.answer (run server (text "guest") (text "{}") []).1 ≡ ok reply)
    × IsReply server reply (some (text "{}"))
unfolding run get_qemu_error trim_nulls send Operations.lookup domain_lookup_by_name query call
run-IsReply_example =
    run-IsReply server (text "guest") (text "{}") [] (run server (text "guest") (text "{}") []).1
      (some (text "{}")) server-IsXdr refl

after-requests_example :
    after server reset_it (text "guest") []
    ≡ for_domain server
        (found server (text "guest") [])
        (λ d.
          requests server 245 remote_program
            (domain_reset_args d 0)
            (with_request 23 remote_program (9 ∷ []) []))
        (with_request 23 remote_program (9 ∷ []) [])
after-requests_example = after-requests server reset_it (text "guest") []

abbrev nobody : Events
nobody = record { table = []; heap = λ r. new_stream 0 (pos 0) }

abbrev arrived : List (Bool × Event)
arrived = (false, message (pos 5) (text "started")) ∷ (true, message (pos 6) (text "other")) ∷ []

subscription_lem_example :
    ((arrive arrived (subscribe server lifecycle 0 [] nobody).events).heap 0).queue
    ≡ message (pos 5) (text "started") ∷ []
unfolding lifecycle_events open_stream connect_domain_event_callback_register_any query call send
    lookup get_callback_id
subscription_lem_example =
    (subscription_lem server lifecycle 0 [] [] nobody (pos 5) arrived
      (λ j h. absurd (ground (arith, h))) refl).0
