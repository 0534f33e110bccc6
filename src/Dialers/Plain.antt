-- ===== src/Dialers/Plain.antt =====
-- local.go, remote.go and already_connected.go. A timeout is in seconds.
use go_libvirt.Base.{ℕ, List, [], ◌∷◌}
use go_libvirt.Base.Text.{Bytes, text}
use go_libvirt.Client.Uri.{
  LocalOption, with_socket, with_local_timeout, RemoteOption, use_port, with_remote_timeout,
}

abbrev pub default_socket : Bytes
default_socket = text "/var/run/libvirt/libvirt-sock"

pub record Local : Type 0 where
  pub timeout : ℕ
  pub socket : Bytes

abbrev pub apply_local : LocalOption → Local → Local
apply_local (with_local_timeout t) l = record l { timeout = t }
apply_local (with_socket s) l = record l { socket = s }

abbrev pub apply_all_local : List LocalOption → Local → Local
apply_all_local [] l = l
apply_all_local (opt ∷ opts) l = apply_all_local opts (apply_local opt l)

unfoldable pub new_local : List LocalOption → Local
new_local opts = apply_all_local opts (record { timeout = 15; socket = default_socket })

pub record Remote : Type 0 where
  pub remote_timeout : ℕ
  pub host : Bytes
  pub port : Bytes

abbrev pub default_remote_port : Bytes
default_remote_port = text "16509"

abbrev pub apply_remote : RemoteOption → Remote → Remote
apply_remote (with_remote_timeout t) r = record r { remote_timeout = t }
apply_remote (use_port p) r = record r { port = p }

abbrev pub apply_all_remote : List RemoteOption → Remote → Remote
apply_all_remote [] r = r
apply_all_remote (opt ∷ opts) r = apply_all_remote opts (apply_remote opt r)

unfoldable pub new_remote : Bytes → List RemoteOption → Remote
new_remote host_addr opts =
    apply_all_remote opts
      (record { remote_timeout = 20; host = host_addr; port = default_remote_port })

-- `net.DialTimeout` by network, address and timeout, and `net.JoinHostPort`.
module _ {C : Type 0} (dial_timeout : Bytes → Bytes → ℕ → C)
    (join_host_port : Bytes → Bytes → Bytes) where
  unfoldable pub dial_local : Local → C
  dial_local l = dial_timeout (text "unix") l.socket l.timeout

  unfoldable pub dial_remote : Remote → C
  dial_remote r = dial_timeout (text "tcp") (join_host_port r.host r.port) r.remote_timeout

pub record AlreadyConnected (C : Type 0) : Type 0 where
  pub c : C

abbrev pub new_already_connected : {C : Type 0} → C → AlreadyConnected C
new_already_connected c = record { c = c }

-- It gives the same connection each time.
abbrev pub dial_already_connected : {C : Type 0} → AlreadyConnected C → C
dial_already_connected a = a.c
