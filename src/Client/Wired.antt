-- ===== src/Client/Wired.antt =====
-- The calls of libvirt.go over requestStream of rpc.go: the answers of a server are what requestStream
-- makes of what arrives for each request.
use go_libvirt.Base.{ℕ, ◌≡◌, Option, none, some, List, Result, ok, err}
use go_libvirt.Base.Int.{ℤ}
use go_libvirt.Base.Text.{Bytes}
use go_libvirt.Rpc.Errors.{GoError}
use go_libvirt.Rpc.Request.{Inbox, Finished, request}
use go_libvirt.Client.Remote.{Remote, Domain, Request, Call, Nothing, Network, ◌>>=◌, return}
use go_libvirt.Client.Operations.{
  BlockLimit, capabilities, domains, secrets, storage_pool, storage_pools, define_xml, version,
  domain_state, undefine, destroy, xml, shutdown, reboot, reset, set_block_io_tune,
  get_block_io_tune, network_update_compat,
}
use go_libvirt.Client.Login.{init_libvirt_comms}
use go_libvirt.Client.Monitor.{run}
use go_libvirt.Client.Subscriptions.{
  Subscribed, subscribe_events, lifecycle_events, subscribe_qemu_events,
}
use go_libvirt.Rpc.Events.{Events}
pub mod Reports
pub mod Parts
pub mod Performed
pub mod Lost
pub mod Refused

-- The error of a request that has ended, or its payload.
abbrev pub result_of : Finished → Result GoError Bytes
result_of f = elim f.reply.1 [ some e ↦ err e | none ↦ ok f.reply.0.payload ]

-- For each request, the last of these: what `SendPacket` returns, and the channel of its caller.
pub record IsWired (l : Remote) (decode_error : Bytes → Option GoError)
    (arrives : List Request → Option GoError × Inbox) : Type 0 where
  pub wired :
      (sent : List Request) (f : Finished)
      → request decode_error (arrives sent).0 (arrives sent).1 ≡ some f
      → l.answer sent ≡ result_of f

-- The calls of a client that send requests, but for Disconnect, with their arguments; a subscription
-- with the stream that it makes and the table.
pub data ClientCall : Type 0 where
  open_connection describe_host list_domains list_secrets print_version : ClientCall
  pool_by_name : Bytes → ClientCall
  list_pools : ℤ → ClientCall
  define_it : Bytes → ℤ → ClientCall
  state_of reset_it : Bytes → ClientCall
  undefine_it destroy_it describe shut_down reboot_it : Bytes → ℤ → ClientCall
  set_tune : Bytes → Bytes → List BlockLimit → ClientCall
  get_tune run_command : Bytes → Bytes → ClientCall
  update_network : Network → ℤ → ℤ → ℤ → Bytes → ℤ → ClientCall
  subscribe : ℤ → List Domain → ℕ → Events → ClientCall
  subscribe_lifecycle : ℕ → Events → ClientCall
  subscribe_qemu : Bytes → ℕ → Events → ClientCall

-- The call without its value.
abbrev pub quiet : {A : Type 0} → Call A → Call Nothing
quiet m = m >>= λ _. return tt

-- A subscription without its stream and the table.
abbrev pub subscribed : (List Request → Subscribed) → Call Nothing
subscribed f sent =
    let found = f sent in (elim found.result [ ok id ↦ ok tt | err e ↦ err e ], found.sent)

module _ (l : Remote) (uri : Bytes) where
  abbrev pub perform : ClientCall → Call Nothing
  perform open_connection = init_libvirt_comms l uri
  perform describe_host = quiet (capabilities l)
  perform list_domains = quiet (domains l)
  perform list_secrets = quiet (secrets l)
  perform print_version = quiet (version l)
  perform (pool_by_name name) = quiet (storage_pool l name)
  perform (list_pools flags) = quiet (storage_pools l flags)
  perform (define_it x flags) = define_xml l x flags
  perform (state_of name) = quiet (domain_state l name)
  perform (reset_it name) = reset l name
  perform (undefine_it name flags) = undefine l name flags
  perform (destroy_it name flags) = destroy l name flags
  perform (describe name flags) = quiet (xml l name flags)
  perform (shut_down name flags) = shutdown l name flags
  perform (reboot_it name flags) = reboot l name flags
  perform (set_tune name disk limits) = set_block_io_tune l name disk limits
  perform (get_tune name disk) = quiet (get_block_io_tune l name disk)
  perform (run_command name cmd) = quiet (run l name cmd)
  perform (update_network net cmd section parent_index xml flags) =
      network_update_compat l net cmd section parent_index xml flags
  perform (subscribe event_id dom r s) =
      subscribed (λ sent. subscribe_events l event_id dom r sent s)
  perform (subscribe_lifecycle r s) = subscribed (λ sent. lifecycle_events l r sent s)
  perform (subscribe_qemu dom r s) = subscribed (λ sent. subscribe_qemu_events l dom r sent s)
