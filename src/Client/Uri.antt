-- ===== src/Client/Uri.antt =====
-- connect_uri.go: the dialer for a URI, with the options that it is made from.
use go_libvirt.Base.{
  ℕ, ◌+◌, ◌==◌, ltb, Bool, true, false, not, ◌&&◌, ◌||◌, Option, none, some, List, [], ◌∷◌, ◌++◌,
  map, Result, ok, err, ◌>>=◌, if◌then◌else◌,
}
use go_libvirt.Base.Int.{ℤ, pos, ◌==ℤ◌}
use go_libvirt.Base.Text.{Bytes, text, equal}
pub mod Verify
pub mod Remote

-- What `url.URL` tells: `query` is `uri.Query().Get`, empty for a key that is not there, and
-- `password`, none for a URI with no password.
pub record Url : Type 0 where
  pub scheme : Bytes
  pub host : Bytes
  pub hostname : Bytes
  pub port : Bytes
  pub username : Bytes
  pub password : Option Bytes
  pub query : Bytes → Bytes

-- The options of package dialers, by the function that makes them.
pub data LocalOption : Type 0 where
  with_local_timeout : ℕ → LocalOption
  with_socket : Bytes → LocalOption

pub data RemoteOption : Type 0 where
  with_remote_timeout : ℕ → RemoteOption
  use_port : Bytes → RemoteOption

pub data TlsOption : Type 0 where
  use_tls_port : Bytes → TlsOption
  use_pki_path : Bytes → TlsOption
  with_insecure_no_verify : TlsOption

pub data SshAuthMethod : Type 0 where
  agent priv_key password keyboard_interactive : SshAuthMethod

pub data SshOption : Type 0 where
  with_system_ssh_defaults : Bytes → SshOption
  use_ssh_port : Bytes → SshOption
  use_ssh_username : Bytes → SshOption
  use_ssh_password : Bytes → SshOption
  with_remote_socket : Bytes → SshOption
  use_key_file : Bytes → SshOption
  use_known_hosts_file : Bytes → SshOption
  with_accept_unknown_host_key : SshOption
  with_insecure_ignore_host_key : SshOption
  with_ssh_auth_methods : List SshAuthMethod → SshOption

pub data Dialer : Type 0 where
  new_local : List LocalOption → Dialer
  new_remote : Bytes → List RemoteOption → Dialer
  new_tls : Bytes → List TlsOption → Dialer
  new_ssh : Bytes → List SshOption → Dialer

pub data UriError : Type 0 where
  invalid_no_verify : UriError
  direct_mode : UriError
  invalid_mode : Bytes → UriError
  invalid_verify_method : Bytes → UriError
  invalid_auth_method : Bytes → UriError
  no_verify_with : Bytes → UriError
  invalid_options : List Bytes → UriError
  no_current_user : UriError
  unsupported_transport : Bytes → UriError

-- `strings.SplitN(scheme, "+", 2)`: what follows the first plus sign, if there is one.
abbrev pub after_plus : Bytes → Option Bytes
after_plus [] = none
after_plus (c ∷ s) = if c == 43 then some s else after_plus s

-- `strings.Split(s, ",")`.
abbrev pub split_commas : Bytes → List Bytes
split_commas [] = [] ∷ []
split_commas (c ∷ s) = elim (split_commas s) [
  | [] ↦ (c ∷ []) ∷ []
  | first ∷ others ↦ if c == 44 then [] ∷ first ∷ others else (c ∷ first) ∷ others
]

-- `strings.ToLower`, of ASCII text.
abbrev pub to_lower : Bytes → Bytes
to_lower = map (λ c. if ltb 64 c && ltb c 91 then c + 32 else c)

-- `if v != "" { options = append(options, option(v)) }`.
abbrev pub given : {O : Type 0} → Bytes → (Bytes → O) → List O
given v option = if equal v [] then [] else option v ∷ []

abbrev pub when : {O : Type 0} → Bool → O → List O
when b option = if b then option ∷ [] else []

unfoldable pub transport_of : Url → Bytes
transport_of uri = elim (after_plus uri.scheme) [
  | some t ↦ t
  | none ↦ if equal uri.host [] then text "unix" else text "tls"
]

unfoldable pub check_mode_option : Url → Result UriError (Unit {0})
check_mode_option uri =
    let mode = to_lower (uri.query (text "mode")) in
    if equal mode [] || equal mode (text "legacy") || equal mode (text "auto")
    then ok tt
    else if equal mode (text "direct")
    then err direct_mode
    else err (invalid_mode (uri.query (text "mode")))

-- The cases of `known_hosts_verify`.
unfoldable pub verify_option : Bytes → Result UriError (List SshOption)
verify_option v =
    if equal v [] || equal v (text "normal")
    then ok []
    else if equal v (text "auto")
    then ok (with_accept_unknown_host_key ∷ [])
    else if equal v (text "ignore")
    then ok (with_insecure_ignore_host_key ∷ [])
    else err (invalid_verify_method v)

unfoldable pub auth_method : Bytes → Result UriError SshAuthMethod
auth_method a =
    let m = to_lower a in
    if equal m (text "agent")
    then ok agent
    else if equal m (text "privkey")
    then ok priv_key
    else if equal m (text "password")
    then ok password
    else if equal m (text "keyboard-interactive")
    then ok keyboard_interactive
    else err (invalid_auth_method a)

abbrev pub auth_methods : List Bytes → Result UriError (List SshAuthMethod)
auth_methods [] = ok []
auth_methods (a ∷ rest) = auth_method a >>= λ m. auth_methods rest >>= λ ms. ok (m ∷ ms)

unfoldable pub auth_option : Bytes → Result UriError (List SshOption)
auth_option v =
    if equal v []
    then ok []
    else auth_methods (split_commas v) >>= λ ms. ok (with_ssh_auth_methods ms ∷ [])

-- What `processCommonSSHOptions` appends.
abbrev pub common_options : Url → List SshOption
common_options uri =
    given uri.port use_ssh_port
    ++ given uri.username use_ssh_username
    ++ elim uri.password [ none ↦ [] | some p ↦ use_ssh_password p ∷ [] ]
    ++ given (uri.query (text "socket")) with_remote_socket
    ++ given (uri.query (text "keyfile")) use_key_file

-- `processCommonSSHOptions`, behind the options it is given.
unfoldable pub process_common_ssh_options : Url → List SshOption → Result UriError (List SshOption)
process_common_ssh_options uri options =
    check_mode_option uri >>= λ _. ok (options ++ common_options uri)

-- The options that the transport "ssh" refuses and that are there.
unfoldable pub refused_fields : Url → List Bytes
refused_fields uri =
    given (uri.query (text "known_hosts")) (λ _. text "known_hosts")
    ++ given (uri.query (text "known_hosts_verify")) (λ _. text "known_hosts_verify")
    ++ given (uri.query (text "sshauth")) (λ _. text "sshauth")

unfoldable pub new_ssh_unless : List Bytes → Bytes → List SshOption → Result UriError Dialer
new_ssh_unless [] hostname options = ok (new_ssh hostname options)
new_ssh_unless fields hostname options = err (invalid_options fields)

-- The cases of `dialerForURI`.
unfoldable pub unix_dialer : Url → Result UriError Dialer
unix_dialer uri =
    check_mode_option uri >>= λ _. ok (new_local (given (uri.query (text "socket")) with_socket))

unfoldable pub tcp_dialer : Url → Result UriError Dialer
tcp_dialer uri = ok (new_remote uri.hostname (given uri.port use_port))

unfoldable pub libssh_dialer : Bytes → Url → Result UriError Dialer
libssh_dialer transport uri = process_common_ssh_options uri [] >>= λ common.
    verify_option (uri.query (text "known_hosts_verify")) >>= λ verify.
    auth_option (uri.query (text "sshauth")) >>= λ auth.
    (if equal (uri.query (text "no_verify")) []
      then ok (
          new_ssh uri.hostname (
            common
            ++ given (uri.query (text "known_hosts")) use_known_hosts_file
            ++ verify
            ++ auth))
      else err (no_verify_with transport))

-- `atoi` is `strconv.Atoi`.
module _ (atoi : Bytes → Option ℤ) where
  unfoldable pub no_verify_option : Url → Result UriError Bool
  no_verify_option uri =
      let nv = uri.query (text "no_verify") in
      if equal nv []
      then ok false
      else elim (atoi nv) [ none ↦ err invalid_no_verify | some n ↦ ok (not (n ==ℤ pos 0)) ]

  unfoldable pub tls_dialer : Url → Result UriError Dialer
  tls_dialer uri = no_verify_option uri >>= λ nv. ok (
      new_tls uri.hostname (
        given uri.port use_tls_port
        ++ given (uri.query (text "pkipath")) use_pki_path
        ++ when nv with_insecure_no_verify))

  -- The argument is what `user.Current` returns.
  unfoldable pub ssh_dialer : Option Bytes → Url → Result UriError Dialer
  ssh_dialer none uri = err no_current_user
  ssh_dialer (some user) uri =
      process_common_ssh_options uri (with_system_ssh_defaults user ∷ []) >>= λ common.
      no_verify_option uri >>= λ nv.
      new_ssh_unless (refused_fields uri) uri.hostname
        (common ++ when nv with_insecure_ignore_host_key)

  unfoldable pub dialer_for_uri : Option Bytes → Url → Result UriError Dialer
  dialer_for_uri current_user uri =
      let transport = transport_of uri in
      if equal transport (text "unix")
      then unix_dialer uri
      else if equal transport (text "tcp")
      then tcp_dialer uri
      else if equal transport (text "tls")
      then tls_dialer uri
      else if equal transport (text "libssh") || equal transport (text "libssh2")
      then libssh_dialer transport uri
      else if equal transport (text "ssh")
      then ssh_dialer current_user uri
      else err (unsupported_transport transport)
