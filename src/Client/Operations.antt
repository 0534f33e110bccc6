-- ===== src/Client/Operations.antt =====
-- libvirt.go: the calls of a client, on domains by name and others.
use go_libvirt.Base.{ℕ, ◌/◌, ◌%◌, List, [], ◌∷◌, ◌++◌, map, ok, err, if◌then◌else◌}
use go_libvirt.Base.Int.{ℤ, pos, uint32, ◌==ℤ◌}
use go_libvirt.Base.Text.{Bytes, text}
use go_libvirt.Client.Remote.{
  Remote, Call, Nothing, Domain, Network, StoragePool, Secret, ◌>>=◌, return,
}
use go_libvirt.Client.Bindings.{
  connect_get_capabilities, connect_get_lib_version, domain_get_xml_desc, domain_lookup_by_name,
  domain_reboot, connect_supports_feature, storage_pool_lookup_by_name, domain_get_state,
  domain_undefine_flags, domain_destroy_flags, domain_reset, domain_set_block_io_tune,
  domain_get_block_io_tune, domain_shutdown_flags, connect_list_all_domains,
  connect_list_all_storage_pools, connect_list_all_secrets, network_update, domain_define_xml_flags,
}
use go_libvirt.Lvgen.Numbers.{format_nat}
use go_libvirt.Rpc.Errors.{wrapped}
use go_libvirt.Rpc.TypedParam.{TypedParam, uhyper}
pub mod ByName
pub mod Order
pub mod Printed

abbrev pub domain_affect_live : ℕ
domain_affect_live = 1

abbrev pub typed_param_string_okay : ℕ
typed_param_string_okay = 4

-- `ConnectListDomainsActive | ConnectListDomainsInactive`.
abbrev pub all_domains : ℤ
all_domains = pos 3

abbrev pub has_correct_order_feature : ℤ
has_correct_order_feature = pos 16

pub record BlockLimit : Type 0 where
  pub name : Bytes
  pub value : ℕ

abbrev pub param_of : BlockLimit → TypedParam
param_of limit = record { field = limit.name; value = record { d = 4; i = uhyper limit.value } }

-- A parameter of another type gives the zero value.
abbrev pub limit_of : TypedParam → BlockLimit
limit_of param = elim param.value.i [
  | uhyper v ↦ record { name = param.field; value = v }
  | _ ↦ record { name = []; value = 0 }
]

abbrev pub with_prefix : {A : Type 0} → Bytes → Call A → Call A
with_prefix message m sent =
    let (r, after) = m sent in
    elim r [ ok a ↦ (ok a, after) | err e ↦ (err (wrapped message e), after) ]

-- What Version prints of the number.
unfoldable pub version_string : ℕ → Bytes
version_string ver =
    let major = ver / 1000000 in
    let ver = ver % 1000000 in
    let minor = ver / 1000 in
    let micro = ver % 1000 in
    format_nat major ++ (text "." ++ (format_nat minor ++ (text "." ++ format_nat micro)))

module _ (l : Remote) where
  unfoldable pub capabilities : Call Bytes
  capabilities = connect_get_capabilities l

  unfoldable pub domains : Call (List Domain)
  domains = do (found, _) ← connect_list_all_domains l (pos 1) all_domains; return found

  unfoldable pub secrets : Call (List Secret)
  secrets = do (found, _) ← connect_list_all_secrets l (pos 1) (pos 0); return found

  unfoldable pub storage_pool : Bytes → Call StoragePool
  storage_pool name = storage_pool_lookup_by_name l name

  unfoldable pub storage_pools : ℤ → Call (List StoragePool)
  storage_pools flags = do (found, _) ← connect_list_all_storage_pools l (pos 1) flags; return found

  unfoldable pub define_xml : Bytes → ℤ → Call Nothing
  define_xml x flags = do _ ← domain_define_xml_flags l x flags; return tt

  unfoldable pub version : Call Bytes
  version = do ver ← connect_get_lib_version l; return (version_string ver)

  unfoldable pub lookup : Bytes → Call Domain
  lookup name = domain_lookup_by_name l name

  unfoldable pub domain_state : Bytes → Call ℤ
  domain_state dom = do d ← lookup dom; (state, _) ← domain_get_state l d 0; return state

  unfoldable pub undefine : Bytes → ℤ → Call Nothing
  undefine dom flags = do d ← lookup dom; domain_undefine_flags l d flags

  unfoldable pub destroy : Bytes → ℤ → Call Nothing
  destroy dom flags = do d ← lookup dom; domain_destroy_flags l d flags

  unfoldable pub xml : Bytes → ℤ → Call Bytes
  xml dom flags = do d ← lookup dom; domain_get_xml_desc l d flags

  unfoldable pub shutdown : Bytes → ℤ → Call Nothing
  shutdown dom flags = do d ← lookup dom; domain_shutdown_flags l d flags

  unfoldable pub reboot : Bytes → ℤ → Call Nothing
  reboot dom flags = do d ← lookup dom; domain_reboot l d flags

  unfoldable pub reset : Bytes → Call Nothing
  reset dom = do d ← lookup dom; domain_reset l d 0

  unfoldable pub set_block_io_tune : Bytes → Bytes → List BlockLimit → Call Nothing
  set_block_io_tune dom disk limits = do
    d ← lookup dom
    domain_set_block_io_tune l d disk (map param_of limits) domain_affect_live

  unfoldable pub get_block_io_tune : Bytes → Bytes → Call (List BlockLimit)
  get_block_io_tune dom disk = do
    d ← lookup dom
    (lims, _) ← domain_get_block_io_tune l d (disk ∷ []) (pos 32) typed_param_string_okay
    return (map limit_of lims)

  unfoldable pub network_update_compat : Network → ℤ → ℤ → ℤ → Bytes → ℤ → Call Nothing
  network_update_compat net cmd section parent_index xml flags = do
    has_correct_order ←
        with_prefix (text "failed to confirm argument order for NetworkUpdate: ")
          (connect_supports_feature l has_correct_order_feature)
    if has_correct_order ==ℤ pos 0
        then network_update l net (uint32 section) (uint32 cmd) parent_index xml flags
        else network_update l net (uint32 cmd) (uint32 section) parent_index xml flags
