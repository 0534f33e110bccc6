-- ===== src/Dialers/Ssh/HostKey/Sound.antt =====
-- Which keys of servers are accepted.
use go_libvirt.Base.{
  ◌≡◌, refl, ◌⊎◌, inl, inr, true, false, Option, none, some, List, [], ◌∷◌, arith, Bool-cases,
  Option-cases, ok,
}
use go_libvirt.Base.Int.{ℤ}
use go_libvirt.Base.Text.{Bytes}
use go_libvirt.Client.Uri.{Url, Dialer, dialer_for_uri, SshOption, with_insecure_ignore_host_key}
use go_libvirt.Client.Uri.Verify.{ssh_insecure, insecure_asked, AsksNoVerify, AsksIgnore}
use go_libvirt.Dialers.{System}
use go_libvirt.Dialers.Ssh.{Ssh, apply_ssh, apply_all_ssh, new_ssh}
use go_libvirt.Dialers.Ssh.HostKey.{
  Disk, Verdict, known, other_keys, unknown, refused, KnownHosts, open_known_hosts, check_host_key,
  host_key_callback,
}

apply_all_ssh-secure :
    (join : List Bytes → Bytes) (opts : List SshOption) (s : Ssh)
    → ssh_insecure opts ≡ false
    → (apply_all_ssh join opts s).insecure_ignore_host_key ≡ s.insecure_ignore_host_key
apply_all_ssh-secure join [] s h = refl
apply_all_ssh-secure join (with_insecure_ignore_host_key ∷ opts) s h = cc
apply_all_ssh-secure join (opt ∷ opts) s h = apply_all_ssh-secure join opts (apply_ssh join opt s) h

module _ {Key : Type 0} (kh : KnownHosts Key) where
  -- The host has this key in the file, or the dialer takes unknown hosts and the file is not there
  -- or has no key of the host.
  abbrev pub IsTrusted : Ssh → Bytes → Key → Disk → Type 0
  IsTrusted s host key d =
      ((c : Bytes) × (d.files s.known_hosts_file ≡ some c) × (kh.check c host key ≡ known))
      ⊎ ((s.accept_unknown_host_key ≡ true)
          × ((d.files s.known_hosts_file ≡ none)
              ⊎ ((c : Bytes) × (d.files s.known_hosts_file ≡ some c)
                  × (kh.check c host key ≡ unknown))))

  check_host_key-IsTrusted :
      (s : Ssh) (host : Bytes) (key : Key) (d : Disk)
      → (check_host_key kh s host key d).0 ≡ ok tt
      → IsTrusted s host key d
  unfolding check_host_key open_known_hosts
  check_host_key-IsTrusted s host key d h = elim (Bool-cases (d.readable s.known_hosts_file)) [
    | inr e ↦ absurd (ground (arith, e, h))
    | inl e ↦ elim (Option-cases (d.files s.known_hosts_file)) [
      | inl gone ↦ elim (Bool-cases s.accept_unknown_host_key) [
        | inl flag ↦ inr (flag, inl gone)
        | inr flag ↦ absurd (ground (arith, e, gone, flag, h))
      ]
      | inr (c, there) ↦ elim (Bool-cases (kh.valid c)) [
        | inr bad ↦ absurd (ground (arith, e, there, bad, h))
        | inl good ↦ by_verdict e c there good (kh.check c host key) refl
      ]
    ]
  ]
    where
      by_verdict :
          d.readable s.known_hosts_file ≡ true
          → (c : Bytes) → d.files s.known_hosts_file ≡ some c
          → kh.valid c ≡ true
          → (v : Verdict) → kh.check c host key ≡ v
          → IsTrusted s host key d
      by_verdict e c there good known is = inl (c, there, is)
      by_verdict e c there good unknown is = elim (Bool-cases s.accept_unknown_host_key) [
        | inl flag ↦ inr (flag, inr (c, there, is))
        | inr flag ↦ absurd (ground (arith, e, there, good, is, flag, h))
      ]
      by_verdict e c there good other_keys is = absurd (ground (arith, e, there, good, is, h))
      by_verdict e c there good refused is = absurd (ground (arith, e, there, good, is, h))

  -- A server's key that a dialer for ssh accepts, where the URI that gave the dialer has no
  -- `no_verify` other than 0 and no known_hosts_verify=ignore.
  pub host_key_callback-IsTrusted_of_uri :
      (sys : System) (atoi : Bytes → Option ℤ) (user : Option Bytes) (uri : Url) (server : Bytes)
      (opts : List SshOption) (host : Bytes) (key : Key) (d : Disk)
      → dialer_for_uri atoi user uri ≡ ok (Dialer.new_ssh server opts)
      → ¬ AsksNoVerify atoi uri
      → ¬ AsksIgnore atoi uri
      → (host_key_callback kh (new_ssh sys server opts) host key d).0 ≡ ok tt
      → IsTrusted (new_ssh sys server opts) host key d
  unfolding host_key_callback new_ssh
  host_key_callback-IsTrusted_of_uri sys atoi user uri server opts host key d dialer no_flag
        no_ignore h =
      let secure : ssh_insecure opts ≡ false = elim (Bool-cases (ssh_insecure opts)) [
        | inr off ↦ off
        | inl on ↦ elim (insecure_asked atoi user uri (Dialer.new_ssh server opts) dialer on) [
          | inl flag ↦ absurd (no_flag flag)
          | inr ignore ↦ absurd (no_ignore ignore)
        ]
      ] in
      check_host_key-IsTrusted (new_ssh sys server opts) host key d
        (rw (apply_all_ssh-secure sys.join opts _ secure, host_key_callback) at h)
