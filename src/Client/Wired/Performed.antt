-- ===== src/Client/Wired/Performed.antt =====
-- Every call of libvirt.go but Disconnect reports an error of its last request.
use go_libvirt.Base.{map, ok}
use go_libvirt.Base.Text.{Bytes}
use go_libvirt.Rpc.Route.{remote_program, qemu_program}
use go_libvirt.Client.Remote.{Remote}
use go_libvirt.Client.Bindings.{
  connect_domain_event_callback_register_any, qemu_connect_domain_monitor_event_register,
  connect_get_capabilities, connect_get_lib_version, domain_get_xml_desc, domain_reboot,
  storage_pool_lookup_by_name, domain_get_state, domain_undefine_flags, domain_destroy_flags,
  domain_reset, domain_set_block_io_tune, domain_get_block_io_tune, domain_shutdown_flags,
  connect_list_all_domains, connect_list_all_storage_pools, connect_list_all_secrets,
  domain_define_xml_flags,
}
use go_libvirt.Client.Operations.{
  capabilities, domains, secrets, storage_pool, storage_pools, define_xml, version, domain_state,
  undefine, destroy, xml, shutdown, reboot, reset, set_block_io_tune, get_block_io_tune, limit_of,
}
use go_libvirt.Client.Monitor.{run}
use go_libvirt.Client.Subscriptions.{subscribe_events, lifecycle_events, subscribe_qemu_events}
use go_libvirt.Client.Wired.ClientCall.{
  subscribe, subscribe_lifecycle, subscribe_qemu, open_connection, describe_host, list_domains,
  list_secrets, print_version, pool_by_name, list_pools, define_it, state_of, reset_it, undefine_it,
  destroy_it, describe, shut_down, reboot_it, set_tune, get_tune, run_command, update_network,
}
use go_libvirt.Client.Wired.{ClientCall, perform}
use go_libvirt.Client.Wired.Reports.{
  Reports, give-Reports, bind-Reports, command-Reports, query-Reports, query_two-Reports,
}
use go_libvirt.Client.Wired.Parts.{
  quiet-Reports, first-Reports, plain_query-Reports, by_name-Reports, init_libvirt_comms-Reports,
  run_in-Reports, network_update_compat-Reports, subscribed-Reports,
}

module _ (l : Remote) where
  pub perform-Reports : (uri : Bytes) (c : ClientCall) → Reports l (perform l uri c)
  unfolding capabilities connect_get_capabilities domains connect_list_all_domains secrets
      connect_list_all_secrets version connect_get_lib_version storage_pool
      storage_pool_lookup_by_name storage_pools connect_list_all_storage_pools define_xml
      domain_define_xml_flags domain_state domain_get_state reset domain_reset undefine
      domain_undefine_flags destroy domain_destroy_flags xml domain_get_xml_desc shutdown
      domain_shutdown_flags reboot domain_reboot set_block_io_tune domain_set_block_io_tune
      get_block_io_tune domain_get_block_io_tune run subscribe_events
      connect_domain_event_callback_register_any lifecycle_events subscribe_qemu_events
      qemu_connect_domain_monitor_event_register
  perform-Reports uri open_connection = init_libvirt_comms-Reports l uri
  perform-Reports uri describe_host = quiet-Reports l _ (plain_query-Reports l l.decode_string 7)
  perform-Reports uri list_domains =
      quiet-Reports l _ (
        first-Reports l _ (query_two-Reports l l.decode_domains l.decode_uint 273 remote_program _))
  perform-Reports uri list_secrets =
      quiet-Reports l _ (
        first-Reports l _ (query_two-Reports l l.decode_secrets l.decode_uint 287 remote_program _))
  perform-Reports uri print_version =
      quiet-Reports l _
        (bind-Reports l _ _ (plain_query-Reports l l.decode_uhyper 157) (λ ver. give-Reports l _))
  perform-Reports uri (pool_by_name name) =
      quiet-Reports l _ (query-Reports l l.decode_pool 84 remote_program _)
  perform-Reports uri (list_pools flags) =
      quiet-Reports l _
        (first-Reports l _ (query_two-Reports l l.decode_pools l.decode_uint 281 remote_program _))
  perform-Reports uri (define_it x flags) =
      quiet-Reports l _ (query-Reports l l.decode_domain 350 remote_program _)
  perform-Reports uri (state_of name) = quiet-Reports l _ (
      by_name-Reports l name _ (λ d.
        first-Reports l _ (query_two-Reports l l.decode_int l.decode_int 212 remote_program _)))
  perform-Reports uri (reset_it name) =
      by_name-Reports l name _ (λ d. command-Reports l 245 remote_program _)
  perform-Reports uri (undefine_it name flags) =
      by_name-Reports l name _ (λ d. command-Reports l 231 remote_program _)
  perform-Reports uri (destroy_it name flags) =
      by_name-Reports l name _ (λ d. command-Reports l 234 remote_program _)
  perform-Reports uri (describe name flags) =
      quiet-Reports l _
        (by_name-Reports l name _ (λ d. query-Reports l l.decode_string 14 remote_program _))
  perform-Reports uri (shut_down name flags) =
      by_name-Reports l name _ (λ d. command-Reports l 258 remote_program _)
  perform-Reports uri (reboot_it name flags) =
      by_name-Reports l name _ (λ d. command-Reports l 27 remote_program _)
  perform-Reports uri (set_tune name disk limits) =
      by_name-Reports l name _ (λ d. command-Reports l 252 remote_program _)
  perform-Reports uri (get_tune name disk) = quiet-Reports l _ (
      by_name-Reports l name _ (λ d.
        bind-Reports l _ _ (query_two-Reports l l.decode_params l.decode_int 253 remote_program _)
          (λ (lims, _). give-Reports l (ok (map limit_of lims)))))
  perform-Reports uri (run_command name cmd) =
      quiet-Reports l _ (by_name-Reports l name _ (λ d. run_in-Reports l cmd d))
  perform-Reports uri (update_network net cmd section parent_index x flags) =
      network_update_compat-Reports l net cmd section parent_index x flags
  perform-Reports uri (subscribe event_id dom r s) =
      subscribed-Reports l qemu_program r s _ (query-Reports l l.decode_int 316 remote_program _)
  perform-Reports uri (subscribe_lifecycle r s) =
      subscribed-Reports l remote_program r s _ (query-Reports l l.decode_int 316 remote_program _)
  perform-Reports uri (subscribe_qemu dom r s) =
      subscribed-Reports l qemu_program r s _
        (by_name-Reports l dom _ (λ d. query-Reports l l.decode_int 4 qemu_program _))
