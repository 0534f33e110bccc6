-- ===== src/Tests/Dialing.antt =====
-- The dialers at concrete systems, and the theorems on them there.
use mathlib.Core.Option.{none-ne-some}
use go_libvirt.Base.{
  sym, ℕ, ◌==◌, ==_iff, ◌≡◌, ◌≢◌, refl, inl, inr, true, false, Option, none, some, List, [], ◌∷◌,
  ◌++◌, ok, err, arith, if◌then◌else◌, Bool-cases,
}
use go_libvirt.Base.Int.{ℤ}
use go_libvirt.Base.Text.{Bytes, text, equal}
use go_libvirt.Client.Uri.{
  common_options, Url, SshOption, priv_key, password, agent, dialer_for_uri, transport_of,
  tls_dialer, libssh_dialer, no_verify_option, process_common_ssh_options, check_mode_option,
  verify_option, auth_option, with_accept_unknown_host_key,
}
use go_libvirt.Client.Uri.Verify.{AsksNoVerify}
use go_libvirt.Dialers.{System}
use go_libvirt.Dialers.Plain.{new_local, dial_local}
use go_libvirt.Dialers.Tls.{
  Tls, Config, with_user, new_tls, config, client_cert, client_cert_in, ca_certs, ca_certs_in, dial,
  server_verified, not_verified,
}
use go_libvirt.Dialers.Tls.Connected.{IsSafe, dial-IsSafe_of_uri}
use go_libvirt.Dialers.Ssh.{Ssh, new_ssh}
use go_libvirt.Dialers.Ssh.Auth.{signers_of, auth_methods}
use go_libvirt.Dialers.Ssh.Auth.Offers.{auth_methods-offered, callbacks}
use go_libvirt.Dialers.Ssh.HostKey.{
  Disk, known, other_keys, unknown, KnownHosts, open_known_hosts, check_host_key, host_key_callback,
  append_known_host,
}
use go_libvirt.Dialers.Ssh.HostKey.Sound.{IsTrusted, host_key_callback-IsTrusted_of_uri}
use go_libvirt.Dialers.Ssh.HostKey.Trust.{IsWhole, IsFaithful, first_key_remembered}

abbrev concat_path : List Bytes → Bytes
concat_path [] = []
concat_path (p ∷ ps) = p ++ (text "/" ++ concat_path ps)

-- A system whose root user has certificates in /etc/pki only.
abbrev rooted : System
rooted = record {
  current_user = some (record { uid = text "0"; user_name = text "root"; home_dir = text "/root" });
  user_home_dir = some (text "/root");
  user_config_dir = some (text "/root/.config");
  is_windows = false;
  join = concat_path;
  is_there = λ f. equal f (text "/root/.ssh/id_rsa/");
  read_file =
      λ f. if equal f (text "/etc/pki/CA//cacert.pem/") then ok (text "CA") else ok (text "own");
}

abbrev no_number : Bytes → Option ℤ
no_number s = none

abbrev url : Bytes → Bytes → Url
url scheme verify = record {
  scheme = scheme;
  host = text "host";
  hostname = text "host";
  port = [];
  username = [];
  password = none;
  query = λ key. if equal key (text "known_hosts_verify") then verify else [];
}

abbrev as_pair : Bytes → Bytes → Option (Bytes × Bytes)
as_pair cert key = some (cert, key)

abbrev network_call : Bytes → Bytes → ℕ → Bytes × Bytes × ℕ
network_call network address timeout = (network, address, timeout)

abbrev connects : ℕ → Bytes → Bytes → Config (Bytes × Bytes) Bytes → Option ℕ
connects timeout host port c = some 7

abbrev socket_call : Bytes × Bytes × ℕ
socket_call = (text "unix", text "/var/run/libvirt/libvirt-sock", 15)

local_run : dial_local network_call (λ h p. h) (new_local []) ≡ socket_call
unfolding dial_local new_local
local_run = refl

-- A server that writes a 0 is left.
dial_run :
    (r : Tls) × (new_tls rooted (text "host") [] ≡ some r)
    × (dial rooted as_pair (λ f. f) connects (λ c. some (0 ∷ [])) r
        ≡ record { conn = err not_verified; closed = true })
unfolding new_tls with_user config client_cert client_cert_in ca_certs ca_certs_in dial
    server_verified
dial_run = (_, refl, refl)

no_flag : (scheme verify : Bytes) → ¬ AsksNoVerify no_number (url scheme verify)
no_flag scheme verify (n, given, _) = absurd (none-ne-some _ given)

-- A server that writes a 1.
abbrev accepting : ℕ → Option Bytes
accepting c = some (1 ∷ [])

dial-IsSafe_of_uri_example :
    (r : Tls) × IsSafe rooted as_pair
      (λ f. f)
      connects
      accepting
      r
      (dial rooted as_pair (λ f. f) connects accepting r)
unfolding new_tls with_user dialer_for_uri transport_of tls_dialer no_verify_option
dial-IsSafe_of_uri_example = (
  _,
  dial-IsSafe_of_uri rooted as_pair (λ f. f) connects accepting no_number none
      (url (text "qemu+tls") []) (text "host") [] _ refl (no_flag (text "qemu+tls") [])
      (λ asked. absurd (ground (arith, asked))) refl,
)

-- A file of known hosts of this form has a host's keys, one a line.
abbrev one_host : KnownHosts ℕ
one_host = record {
  valid = λ c. true;
  check = λ c host key. elim c [ [] ↦ unknown | k ∷ _ ↦ if k == key then known else other_keys ];
  line = λ host key. key ∷ [];
}

abbrev empty_disk : Disk
empty_disk = record { files = λ f. none; readable = λ f. true; writable = λ f. true }

one_host-IsFaithful : IsFaithful one_host
one_host-IsFaithful = record {
  line_valid = λ c host key whole valid. refl;
  line_known = known_then;
  line_other = λ c host key other whole h ne. inl (other_then c host key other whole h ne);
}
  where
    no_line : (c host : Bytes) (key : ℕ) → one_host.check c host key ≡ unknown → c ≡ []
    no_line [] host key h = refl
    no_line (k ∷ c) host key h = elim (Bool-cases (k == key)) [
      | inl e ↦ absurd (ground (arith, e, h))
      | inr e ↦ absurd (ground (arith, e, h))
    ]

    known_then :
        (c host : Bytes) (key : ℕ)
        → IsWhole c
        → one_host.check c host key ≡ unknown
        → one_host.check (c ++ (one_host.line host key ++ text "\n")) host key ≡ known
    known_then c host key whole h = rw (no_line c host key h) (rw ((==_iff key key).1 refl) refl)

    other_then :
        (c host : Bytes) (key other : ℕ)
        → IsWhole c
        → one_host.check c host key ≡ unknown
        → other ≢ key
        → one_host.check (c ++ (one_host.line host key ++ text "\n")) host other ≡ other_keys
    other_then c host key other whole h ne = elim (Bool-cases (key == other)) [
      | inl e ↦ absurd (ne (sym ((==_iff key other).0 e)))
      | inr e ↦ rw (no_line c host key h) (rw e refl)
    ]

abbrev careful : Ssh
careful = new_ssh rooted (text "host") (with_accept_unknown_host_key ∷ [])

first_key_remembered_example :
    check_host_key one_host careful
      (text "host")
      5
      (append_known_host one_host careful.known_hosts_file (text "host") 5 empty_disk)
    ≡ (ok tt, append_known_host one_host careful.known_hosts_file (text "host") 5 empty_disk)
unfolding check_host_key open_known_hosts append_known_host new_ssh
first_key_remembered_example =
    (first_key_remembered one_host careful (text "host") 5 empty_disk one_host-IsFaithful refl refl
      (record { readable = refl; whole = inl refl; valid = refl; new = refl })).1

abbrev checked : Url
checked = url (text "qemu+libssh") (text "auto")

abbrev checked_options : List SshOption
checked_options = common_options checked ++ (with_accept_unknown_host_key ∷ [])

host_key_callback-IsTrusted_of_uri_example :
    IsTrusted one_host (new_ssh rooted (text "host") checked_options) (text "host") 5 empty_disk
unfolding host_key_callback check_host_key open_known_hosts new_ssh dialer_for_uri transport_of
    libssh_dialer process_common_ssh_options check_mode_option verify_option auth_option
    no_verify_option
host_key_callback-IsTrusted_of_uri_example =
    host_key_callback-IsTrusted_of_uri one_host rooted no_number none checked (text "host")
      checked_options (text "host") 5 empty_disk refl (no_flag (text "qemu+libssh") (text "auto"))
      (λ asked. absurd (ground (arith, asked))) refl

auth_methods-offered_example :
    callbacks
      (auth_methods {Signer = ℕ}
        (ok 1)
        (signers_of (2 ∷ 3 ∷ []))
        (text "pw")
        (agent ∷ password ∷ priv_key ∷ [])).0
    ≡ 1
auth_methods-offered_example =
    (auth_methods-offered {Signer = ℕ} (ok 1) (signers_of (2 ∷ 3 ∷ [])) (text "pw")
      (agent ∷ password ∷ priv_key ∷ [])).1
