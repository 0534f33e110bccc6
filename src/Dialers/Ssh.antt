-- ===== src/Dialers/Ssh.antt =====
-- gossh.go: the dialer for ssh, and the defaults that it starts with.
use go_libvirt.Base.{ℕ, Bool, true, false, Option, none, some, List, [], ◌∷◌, if◌then◌else◌}
use go_libvirt.Base.Text.{Bytes, text, equal}
use go_libvirt.Client.Uri.{
  SshAuthMethod, agent, priv_key, password, keyboard_interactive, SshOption,
  with_system_ssh_defaults, use_ssh_port, use_ssh_username, use_ssh_password, with_remote_socket,
  use_key_file, use_known_hosts_file, with_accept_unknown_host_key, with_insecure_ignore_host_key,
  with_ssh_auth_methods,
}
use go_libvirt.Dialers.{System, User}
use go_libvirt.Dialers.Plain.{default_socket}
pub mod Auth
pub mod HostKey
pub mod Connect

-- `auth_methods` is what has been asked for of `SSHAuthMethods`, in order.
pub record Ssh : Type 0 where
  pub dial_timeout : ℕ
  pub hostname : Bytes
  pub port : Bytes
  pub username : Bytes
  pub ssh_password : Bytes
  pub insecure_ignore_host_key : Bool
  pub accept_unknown_host_key : Bool
  pub key_file : Bytes
  pub known_hosts_file : Bytes
  pub auth_methods : List SshAuthMethod
  pub remote_socket : Bytes

-- `if v != "" { … }`.
abbrev pub unless_empty : Bytes → Bytes → Bytes
unless_empty v old = if equal v [] then old else v

-- `join` is `filepath.Join`. The option of the system's ssh has the user's home directory.
abbrev pub apply_ssh : (List Bytes → Bytes) → SshOption → Ssh → Ssh
apply_ssh join (use_ssh_username u) s = record s { username = unless_empty u s.username }
apply_ssh join (use_ssh_password p) s = record s { ssh_password = unless_empty p s.ssh_password }
apply_ssh join (use_ssh_port p) s = record s { port = unless_empty p s.port }
apply_ssh join with_accept_unknown_host_key s = record s { accept_unknown_host_key = true }
apply_ssh join with_insecure_ignore_host_key s = record s { insecure_ignore_host_key = true }
apply_ssh join (use_known_hosts_file f) s = record s { known_hosts_file = f }
apply_ssh join (use_key_file f) s = record s { key_file = f }
apply_ssh join (with_ssh_auth_methods methods) s = record s { auth_methods = methods }
apply_ssh join (with_remote_socket socket) s = record s { remote_socket = socket }
apply_ssh join (with_system_ssh_defaults home) s = record s {
  known_hosts_file = join (home ∷ text ".ssh" ∷ text "known_hosts" ∷ []);
}

abbrev pub apply_all_ssh : (List Bytes → Bytes) → List SshOption → Ssh → Ssh
apply_all_ssh join [] s = s
apply_all_ssh join (opt ∷ opts) s = apply_all_ssh join opts (apply_ssh join opt s)

-- The first of these keys that is there, none for "".
abbrev pub first_key : System → Bytes → List Bytes → Bytes
first_key sys home [] = []
first_key sys home (key ∷ keys) =
    let path = sys.join (home ∷ text ".ssh" ∷ key ∷ []) in
    if sys.is_there path then path else first_key sys home keys

unfoldable pub default_ssh_key_file : System → Bytes
default_ssh_key_file sys = elim sys.user_home_dir [
  | none ↦ []
  | some home ↦
      first_key sys home
        (text "identity" ∷ text "id_dsa" ∷ text "id_ecdsa" ∷ text "id_ed25519" ∷ text "id_rsa" ∷ [])
]

unfoldable pub default_ssh_known_hosts_file : System → Bytes
default_ssh_known_hosts_file sys = elim sys.user_config_dir [
  | none ↦ []
  | some dir ↦
      let own = if sys.is_windows then dir else sys.join (dir ∷ text "libvirt" ∷ []) in
      sys.join (own ∷ text "known_hosts" ∷ [])
]

abbrev pub default_username : System → Bytes
default_username sys = elim sys.current_user [ none ↦ [] | some u ↦ u.user_name ]

unfoldable pub new_ssh : System → Bytes → List SshOption → Ssh
new_ssh sys host_addr opts = apply_all_ssh sys.join opts (record {
  dial_timeout = 20;
  hostname = host_addr;
  port = text "22";
  username = default_username sys;
  ssh_password = [];
  insecure_ignore_host_key = false;
  accept_unknown_host_key = false;
  key_file = default_ssh_key_file sys;
  known_hosts_file = default_ssh_known_hosts_file sys;
  auth_methods = agent ∷ priv_key ∷ password ∷ keyboard_interactive ∷ [];
  remote_socket = default_socket;
})
