-- ===== src/Client/Constants.antt =====
-- internal/constants: the numbers of the procedures that the operations come down to.
use go_libvirt.Base.{ℕ}

abbrev pub proc_auth_list : ℕ
proc_auth_list = 66

abbrev pub proc_auth_polkit : ℕ
proc_auth_polkit = 70

abbrev pub proc_connect_get_lib_version : ℕ
proc_connect_get_lib_version = 157

abbrev pub proc_connect_supports_feature : ℕ
proc_connect_supports_feature = 60

abbrev pub proc_domain_get_xml_desc : ℕ
proc_domain_get_xml_desc = 14

abbrev pub proc_domain_lookup_by_name : ℕ
proc_domain_lookup_by_name = 23

abbrev pub proc_domain_reboot : ℕ
proc_domain_reboot = 27

abbrev pub proc_domain_get_state : ℕ
proc_domain_get_state = 212

abbrev pub proc_domain_undefine_flags : ℕ
proc_domain_undefine_flags = 231

abbrev pub proc_domain_destroy_flags : ℕ
proc_domain_destroy_flags = 234

abbrev pub proc_domain_reset : ℕ
proc_domain_reset = 245

abbrev pub proc_domain_set_block_io_tune : ℕ
proc_domain_set_block_io_tune = 252

abbrev pub proc_domain_get_block_io_tune : ℕ
proc_domain_get_block_io_tune = 253

abbrev pub proc_domain_shutdown_flags : ℕ
proc_domain_shutdown_flags = 258

abbrev pub proc_network_update : ℕ
proc_network_update = 291
