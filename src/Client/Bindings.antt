-- ===== src/Client/Bindings.antt =====
-- remote_protocol.gen.go and qemu_protocol.gen.go: the wrappers that libvirt.go calls.
use go_libvirt.Base.{ℕ, List, []}
use go_libvirt.Base.Int.{ℤ}
use go_libvirt.Base.Text.{Bytes}
use go_libvirt.Client.Remote.{
  Remote, Call, Nothing, Domain, Network, StoragePool, Secret, ◌>>=◌, give, send, command, query,
  query_two,
}
use go_libvirt.Client.Remote.Args.{
  domain_reboot_args, domain_reset_args, domain_destroy_flags_args, domain_get_xml_desc_args,
  domain_lookup_by_name_args, connect_supports_feature_args, storage_pool_lookup_by_name_args,
  domain_define_xml_flags_args, domain_undefine_flags_args, domain_get_state_args,
  domain_set_block_io_tune_args, domain_get_block_io_tune_args, domain_shutdown_flags_args,
  connect_list_all_domains_args, connect_list_all_storage_pools_args, connect_list_all_secrets_args,
  network_update_args, connect_domain_event_callback_register_any_args,
  connect_domain_event_callback_deregister_any_args,
  qemu_connect_domain_monitor_event_register_args,
  qemu_connect_domain_monitor_event_deregister_args,
}
use go_libvirt.Rpc.Route.{remote_program, qemu_program}
use go_libvirt.Rpc.TypedParam.{Decoded, TypedParam}

module _ (l : Remote) where
  -- The four that have no arguments.
  abbrev pub plain_query : {A : Type 0} → (Bytes → Decoded A) → ℕ → Call A
  plain_query decode proc = do reply ← send l proc remote_program []; give (decode reply).value

  unfoldable pub connect_get_capabilities : Call Bytes
  connect_get_capabilities = plain_query l.decode_string 7

  unfoldable pub auth_list : Call (List ℤ)
  auth_list = plain_query l.decode_ints 66

  unfoldable pub auth_polkit : Call ℤ
  auth_polkit = plain_query l.decode_int 70

  unfoldable pub connect_get_lib_version : Call ℕ
  connect_get_lib_version = plain_query l.decode_uhyper 157

  unfoldable pub domain_get_xml_desc : Domain → ℤ → Call Bytes
  domain_get_xml_desc dom flags =
      query l l.decode_string 14 remote_program (domain_get_xml_desc_args dom flags)

  unfoldable pub domain_lookup_by_name : Bytes → Call Domain
  domain_lookup_by_name name =
      query l l.decode_domain 23 remote_program (domain_lookup_by_name_args name)

  unfoldable pub domain_reboot : Domain → ℤ → Call Nothing
  domain_reboot dom flags = command l 27 remote_program (domain_reboot_args dom flags)

  unfoldable pub connect_supports_feature : ℤ → Call ℤ
  connect_supports_feature feature =
      query l l.decode_int 60 remote_program (connect_supports_feature_args feature)

  unfoldable pub storage_pool_lookup_by_name : Bytes → Call StoragePool
  storage_pool_lookup_by_name name =
      query l l.decode_pool 84 remote_program (storage_pool_lookup_by_name_args name)

  unfoldable pub domain_get_state : Domain → ℕ → Call (ℤ × ℤ)
  domain_get_state dom flags =
      query_two l l.decode_int l.decode_int 212 remote_program (domain_get_state_args dom flags)

  unfoldable pub domain_undefine_flags : Domain → ℤ → Call Nothing
  domain_undefine_flags dom flags =
      command l 231 remote_program (domain_undefine_flags_args dom flags)

  unfoldable pub domain_destroy_flags : Domain → ℤ → Call Nothing
  domain_destroy_flags dom flags =
      command l 234 remote_program (domain_destroy_flags_args dom flags)

  unfoldable pub domain_reset : Domain → ℕ → Call Nothing
  domain_reset dom flags = command l 245 remote_program (domain_reset_args dom flags)

  unfoldable pub domain_set_block_io_tune : Domain → Bytes → List TypedParam → ℕ → Call Nothing
  domain_set_block_io_tune dom disk params flags =
      command l 252 remote_program (domain_set_block_io_tune_args dom disk params flags)

  unfoldable pub domain_get_block_io_tune : Domain → List Bytes → ℤ → ℕ → Call (List TypedParam × ℤ)
  domain_get_block_io_tune dom disk nparams flags =
      query_two l l.decode_params l.decode_int 253 remote_program
        (domain_get_block_io_tune_args dom disk nparams flags)

  unfoldable pub domain_shutdown_flags : Domain → ℤ → Call Nothing
  domain_shutdown_flags dom flags =
      command l 258 remote_program (domain_shutdown_flags_args dom flags)

  unfoldable pub connect_list_all_domains : ℤ → ℤ → Call (List Domain × ℕ)
  connect_list_all_domains need flags =
      query_two l l.decode_domains l.decode_uint 273 remote_program
        (connect_list_all_domains_args need flags)

  unfoldable pub connect_list_all_storage_pools : ℤ → ℤ → Call (List StoragePool × ℕ)
  connect_list_all_storage_pools need flags =
      query_two l l.decode_pools l.decode_uint 281 remote_program
        (connect_list_all_storage_pools_args need flags)

  unfoldable pub connect_list_all_secrets : ℤ → ℤ → Call (List Secret × ℕ)
  connect_list_all_secrets need flags =
      query_two l l.decode_secrets l.decode_uint 287 remote_program
        (connect_list_all_secrets_args need flags)

  unfoldable pub network_update : Network → ℕ → ℕ → ℤ → Bytes → ℤ → Call Nothing
  network_update net cmd section parent_index xml flags =
      command l 291 remote_program (network_update_args net cmd section parent_index xml flags)

  unfoldable pub connect_domain_event_callback_register_any : ℤ → List Domain → Call ℤ
  connect_domain_event_callback_register_any event_id dom =
      query l l.decode_int 316 remote_program
        (connect_domain_event_callback_register_any_args event_id dom)

  unfoldable pub connect_domain_event_callback_deregister_any : ℤ → Call Nothing
  connect_domain_event_callback_deregister_any callback_id =
      command l 317 remote_program (connect_domain_event_callback_deregister_any_args callback_id)

  unfoldable pub domain_define_xml_flags : Bytes → ℤ → Call Domain
  domain_define_xml_flags xml flags =
      query l l.decode_domain 350 remote_program (domain_define_xml_flags_args xml flags)

  unfoldable pub qemu_connect_domain_monitor_event_register : List Domain → List Bytes → ℕ → Call ℤ
  qemu_connect_domain_monitor_event_register dom event flags =
      query l l.decode_int 4 qemu_program
        (qemu_connect_domain_monitor_event_register_args dom event flags)

  unfoldable pub qemu_connect_domain_monitor_event_deregister : ℤ → Call Nothing
  qemu_connect_domain_monitor_event_deregister callback_id =
      command l 5 qemu_program (qemu_connect_domain_monitor_event_deregister_args callback_id)
