-- ===== src/Dialers/Ssh/HostKey/Trust.antt =====
-- A host's first key is the only one.
use go_libvirt.Base.{
  ◌≡◌, ◌≢◌, refl, ap, ◌∙◌, ◌⊎◌, inl, inr, true, some, [], ◌++◌, arith, Option-cases, ok, err,
}
use go_libvirt.Base.Text.{Bytes, text, equal_iff}
use go_libvirt.Dialers.Ssh.{Ssh}
use go_libvirt.Dialers.Ssh.HostKey.{
  Disk, Verdict, known, other_keys, unknown, refused, rejected, KnownHosts, contents, with_line,
  open_known_hosts, check_host_key, append_known_host,
}

-- A file of whole lines.
abbrev pub IsWhole : Bytes → Type 0
IsWhole c = (c ≡ []) ⊎ ((front : Bytes) × (c ≡ front ++ text "\n"))

-- The verdict on another key of a host: other keys are wanted, or this one is revoked.
abbrev pub IsRefusing : Verdict → Type 0
IsRefusing v = (v ≡ other_keys) ⊎ (v ≡ refused)

module _ {Key : Type 0} (kh : KnownHosts Key) where
  -- What package knownhosts documents of its checker and of `Line`: behind whole lines that do not
  -- know the host, a line adds the host with its key, and any other key of the host is then refused.
  pub record IsFaithful : Type 0 where
    pub line_valid :
        (c host : Bytes) (key : Key)
        → IsWhole c
        → kh.valid c ≡ true
        → kh.valid (c ++ (kh.line host key ++ text "\n")) ≡ true
    pub line_known :
        (c host : Bytes) (key : Key)
        → IsWhole c
        → kh.check c host key ≡ unknown
        → kh.check (c ++ (kh.line host key ++ text "\n")) host key ≡ known
    pub line_other :
        (c host : Bytes) (key other : Key)
        → IsWhole c
        → kh.check c host key ≡ unknown
        → other ≢ key
        → IsRefusing (kh.check (c ++ (kh.line host key ++ text "\n")) host other)

  -- A host that the file does not know.
  pub record IsNew (s : Ssh) (host : Bytes) (key : Key) (d : Disk) : Type 0 where
    pub readable : d.readable s.known_hosts_file ≡ true
    pub whole : IsWhole (contents (d.files s.known_hosts_file))
    pub valid : kh.valid (contents (d.files s.known_hosts_file)) ≡ true
    pub new : kh.check (contents (d.files s.known_hosts_file)) host key ≡ unknown

  check_new :
      (s : Ssh) (host : Bytes) (key : Key) (d : Disk)
      → s.accept_unknown_host_key ≡ true
      → IsNew s host key d
      → check_host_key kh s host key d ≡ (ok tt, append_known_host kh s.known_hosts_file host key d)
  unfolding check_host_key open_known_hosts
  check_new s host key d flag n = elim (Option-cases (d.files s.known_hosts_file)) [
    | inl gone ↦ ground (arith, n.readable, gone, flag)
    | inr (c, there) ↦
        let v : kh.valid c ≡ true = rw there at n.valid in
        let u : kh.check c host key ≡ unknown = rw there at n.new in
        ground (arith, n.readable, there, flag, v, u)
  ]

  check_known :
      (s : Ssh) (host c : Bytes) (key : Key) (d : Disk)
      → d.readable s.known_hosts_file ≡ true
      → d.files s.known_hosts_file ≡ some c
      → kh.valid c ≡ true
      → kh.check c host key ≡ known
      → check_host_key kh s host key d ≡ (ok tt, d)
  unfolding check_host_key open_known_hosts
  check_known s host c key d r there valid is = ground (arith, r, there, valid, is)

  check_other :
      (s : Ssh) (host c : Bytes) (key : Key) (d : Disk)
      → d.readable s.known_hosts_file ≡ true
      → d.files s.known_hosts_file ≡ some c
      → kh.valid c ≡ true
      → IsRefusing (kh.check c host key)
      → (v : Verdict) × IsRefusing v × (check_host_key kh s host key d ≡ (err (rejected v), d))
  unfolding check_host_key open_known_hosts
  check_other s host c key d r there valid (inl is) =
      (other_keys, inl refl, ground (arith, r, there, valid, is))
  check_other s host c key d r there valid (inr is) =
      (refused, inr refl, ground (arith, r, there, valid, is))

  append_ok :
      (file host : Bytes) (key : Key) (d : Disk)
      → d.writable file ≡ true
      → ((append_known_host kh file host key d).files file
          ≡ some (with_line kh (d.files file) host key))
        × ((append_known_host kh file host key d).readable ≡ d.readable)
  unfolding append_known_host
  append_ok file host key d w = (
    rw (w, append_known_host) (rw ((equal_iff file file).1 refl)),
    rw (w, append_known_host) refl,
  )

  -- A dialer that takes unknown hosts, a file of known hosts, of whole lines or missing, that does not
  -- know this one and can be written: the first key is accepted and remembered. From then on the same
  -- key is accepted, any other key of the host is refused, and neither changes a file.
  pub first_key_remembered :
      (s : Ssh) (host : Bytes) (key : Key) (d : Disk)
      → IsFaithful
      → s.accept_unknown_host_key ≡ true
      → d.writable s.known_hosts_file ≡ true
      → IsNew s host key d
      → let (first, e) = check_host_key kh s host key d in
        (first ≡ ok tt)
        × (check_host_key kh s host key e ≡ (ok tt, e))
        × ((other : Key)
            → other ≢ key
            → (v : Verdict) × IsRefusing v
              × (check_host_key kh s host other e ≡ (err (rejected v), e)))
  first_key_remembered s host key d f flag w n =
      let start = check_new s host key d flag n in
      let (there, same) = append_ok s.known_hosts_file host key d w in
      let e = append_known_host kh s.known_hosts_file host key d in
      let r : e.readable s.known_hosts_file ≡ true =
        ap (λ g. g s.known_hosts_file) same ∙ n.readable in
      let old = contents (d.files s.known_hosts_file) in
      let v = f.line_valid old host key n.whole n.valid in
      rw start (
        refl,
        check_known s host _ key e r there v (f.line_known old host key n.whole n.new),
        λ other ne.
            check_other s host _ other e r there v
              (f.line_other old host key other n.whole n.new ne),
      )
