-- ===== src/Dialers/Ssh/HostKey.antt =====
-- gossh.go: the check of a server's key against the file of known hosts, and what is written there.
use go_libvirt.Base.{
  ℕ, ◌==◌, ◌≡◌, ◌≢◌, refl, Bool, true, false, ◌&&◌, Option, none, some, List, [], ◌∷◌, ◌++◌, Result,
  ok, err, if◌then◌else◌,
}
use go_libvirt.Base.Text.{Bytes, text, equal}
use go_libvirt.Dialers.Ssh.{Ssh}
pub mod Trust
pub mod Sound

-- The files: what is there, what can be read, and what can be appended to, with its directories made.
pub record Disk : Type 0 where
  pub files : Bytes → Option Bytes
  pub readable : Bytes → Bool
  pub writable : Bytes → Bool

-- What a checker of package knownhosts says: nil, an error that wants other keys for the host, one
-- that wants none, as the host is unknown, or another, as for a key that is revoked.
pub data Verdict : Type 0 where
  known other_keys unknown refused : Verdict

pub data HostKeyError : Type 0 where
  no_file unread_file invalid_file : HostKeyError
  rejected : Verdict → HostKeyError

-- Package knownhosts: whether `New` takes a file with these contents, its checker by host and key,
-- and `Line`.
pub record KnownHosts (Key : Type 0) : Type 0 where
  pub valid : Bytes → Bool
  pub check : Bytes → Bytes → Key → Verdict
  pub line : Bytes → Key → Bytes

abbrev pub contents : Option Bytes → Bytes
contents none = []
contents (some c) = c

module _ {Key : Type 0} (kh : KnownHosts Key) where
  abbrev pub with_line : Option Bytes → Bytes → Key → Bytes
  with_line old host key = contents old ++ (kh.line host key ++ text "\n")

  unfoldable pub append_known_host : Bytes → Bytes → Key → Disk → Disk
  append_known_host file host key d =
      if d.writable file
      then record d {
        files = λ f. if equal f file then some (with_line (d.files file) host key) else d.files f;
      }
      else d

  -- `knownhosts.New`.
  unfoldable pub open_known_hosts : Bytes → Disk → Result HostKeyError Bytes
  open_known_hosts file d =
      if d.readable file
      then elim (d.files file) [
        | none ↦ err no_file
        | some c ↦ if kh.valid c then ok c else err invalid_file
      ]
      else err unread_file

  unfoldable pub check_host_key : Ssh → Bytes → Key → Disk → Result HostKeyError (Unit {0}) × Disk
  check_host_key s host key d = elim (open_known_hosts s.known_hosts_file d) [
    | err no_file ↦
        if s.accept_unknown_host_key
        then (ok tt, append_known_host s.known_hosts_file host key d)
        else (err no_file, d)
    | err e ↦ (err e, d)
    | ok c ↦ elim (kh.check c host key) [
      | known ↦ (ok tt, d)
      | unknown ↦
          if s.accept_unknown_host_key
          then (ok tt, append_known_host s.known_hosts_file host key d)
          else (err (rejected unknown), d)
      | other_keys ↦ (err (rejected other_keys), d)
      | refused ↦ (err (rejected refused), d)
    ]
  ]

  -- The callback that `config` gives to ssh.
  unfoldable pub host_key_callback :
      Ssh → Bytes → Key → Disk → Result HostKeyError (Unit {0}) × Disk
  host_key_callback s host key d =
      if s.insecure_ignore_host_key then (ok tt, d) else check_host_key s host key d
