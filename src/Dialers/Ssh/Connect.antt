-- ===== src/Dialers/Ssh/Connect.antt =====
-- gossh.go: the configuration of ssh, and the dial.
use go_libvirt.Base.{ℕ, Option, none, some, List, [], Result, ok, err, if◌then◌else◌}
use go_libvirt.Base.Text.{Bytes, text, has_prefix}
use go_libvirt.Dialers.Ssh.{Ssh}
use go_libvirt.Dialers.Ssh.Auth.{AuthError, Method, AgentAnswer, auth_methods}
use go_libvirt.Dialers.Ssh.HostKey.{Disk, HostKeyError, KnownHosts, host_key_callback}

-- `ssh.ClientConfig`. The signers are those that the callback for public keys gives.
pub record SshConfig (Key Signer : Type 0) : Type 0 where
  pub user : Bytes
  pub key_callback : Bytes → Key → Disk → Result HostKeyError (Unit {0}) × Disk
  pub auth : List Method
  pub signers : List Signer
  pub timeout : ℕ

-- An error of `ssh.Dial` by its text, with those of the methods of authentication joined to it, or
-- none at the remote socket.
pub data DialError : Type 0 where
  not_connected : Bytes → List AuthError → DialError
  no_remote_socket : Bytes → DialError

abbrev unable_to_authenticate : Bytes
unable_to_authenticate = text "ssh: handshake failed: ssh: unable to authenticate"

module _ {Key Signer : Type 0} (kh : KnownHosts Key) (key : Result AuthError Signer)
    (answer : AgentAnswer Signer) where
  unfoldable pub ssh_config : Ssh → SshConfig Key Signer
  ssh_config s =
      let (methods, gathered) = auth_methods key answer s.ssh_password s.auth_methods in
      record {
        user = s.username;
        key_callback = host_key_callback kh s;
        auth = methods;
        signers = gathered.signers;
        timeout = s.dial_timeout;
      }

  -- `ssh.Dial`, which calls the callback and so may change a file, the `Dial` of its client, and
  -- `net.JoinHostPort`.
  unfoldable pub dial_ssh :
      {Client C : Type 0}
      → (Bytes → SshConfig Key Signer → Disk → Result Bytes Client × Disk)
      → (Client → Bytes → Option C)
      → (Bytes → Bytes → Bytes)
      → Ssh
      → Disk
      → Result DialError C × Disk
  dial_ssh connect dial_unix join_host_port s d =
      let (client, e) = connect (join_host_port s.hostname s.port) (ssh_config s) d in
      let errors = (auth_methods key answer s.ssh_password s.auth_methods).1.errors in
      elim client [
        | err why ↦
            if has_prefix why unable_to_authenticate
            then (err (not_connected why errors), e)
            else (err (not_connected why []), e)
        | ok c ↦ elim (dial_unix c s.remote_socket) [
          | none ↦ (err (no_remote_socket s.remote_socket), e)
          | some conn ↦ (ok conn, e)
        ]
      ]
