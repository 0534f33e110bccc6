-- ===== src/Client/Uri/Verify.antt =====
-- When the check of the server's identity is off.
use mathlib.Core.Path.{subst}
use go_libvirt.Base.{
  Bool, true, false, ◌||◌, Option, none, some, List, [], ◌∷◌, ◌++◌, ◌≡◌, refl, ◌∙◌, arith, ok,
  ok_through, ok_injective, Bool-cases, Option-cases, inl, inr, sym, ap, ◌≢◌, ◌⊎◌,
}
use go_libvirt.Base.Int.{ℤ, pos}
use go_libvirt.Base.Text.{Bytes, text, equal}
use go_libvirt.Client.Uri.{
  Url, TlsOption, with_insecure_no_verify, SshOption, with_insecure_ignore_host_key, Dialer,
  new_local, new_remote, new_tls, new_ssh, dialer_for_uri, use_tls_port, use_pki_path, when,
  no_verify_option, tls_dialer, libssh_dialer, ssh_dialer, tcp_dialer, unix_dialer, transport_of,
  new_ssh_unless, refused_fields, with_system_ssh_defaults, use_known_hosts_file,
  process_common_ssh_options, common_options, use_ssh_port, use_ssh_username, use_ssh_password,
  with_remote_socket, use_key_file, verify_option, auth_option, given, check_mode_option,
  split_commas, auth_methods,
}

abbrev pub tls_insecure : List TlsOption → Bool
tls_insecure [] = false
tls_insecure (with_insecure_no_verify ∷ os) = true
tls_insecure (_ ∷ os) = tls_insecure os

abbrev pub ssh_insecure : List SshOption → Bool
ssh_insecure [] = false
ssh_insecure (with_insecure_ignore_host_key ∷ os) = true
ssh_insecure (_ ∷ os) = ssh_insecure os

-- Whether a dialer does not check the identity of the server.
abbrev pub insecure : Dialer → Bool
insecure (new_local os) = false
insecure (new_remote h os) = false
insecure (new_tls h os) = tls_insecure os
insecure (new_ssh h os) = ssh_insecure os

ssh_insecure-append :
    (xs ys : List SshOption) → ssh_insecure (xs ++ ys) ≡ ssh_insecure xs || ssh_insecure ys
ssh_insecure-append [] ys = refl
ssh_insecure-append (with_insecure_ignore_host_key ∷ xs) ys = refl
ssh_insecure-append (_ ∷ xs) ys = ssh_insecure-append xs ys

tls_insecure-append :
    (xs ys : List TlsOption) → tls_insecure (xs ++ ys) ≡ tls_insecure xs || tls_insecure ys
tls_insecure-append [] ys = refl
tls_insecure-append (with_insecure_no_verify ∷ xs) ys = refl
tls_insecure-append (_ ∷ xs) ys = tls_insecure-append xs ys

record IsSecure (os : List SshOption) : Type 0 where
  secure : ssh_insecure os ≡ false

append-IsSecure : {xs ys : List SshOption} → IsSecure xs → IsSecure ys → IsSecure (xs ++ ys)
append-IsSecure {xs} {ys} p q = record {
  secure = ssh_insecure-append xs ys ∙ rw (p.secure, q.secure);
}

given-IsSecure :
    (v : Bytes) (option : Bytes → SshOption)
    → ssh_insecure (option v ∷ []) ≡ false
    → IsSecure (given v option)
given-IsSecure v option h = record {
  secure = elim (Bool-cases (equal v [])) [ inl e ↦ rw e | inr e ↦ rw e h ];
}

common_options-IsSecure : (uri : Url) → IsSecure (common_options uri)
common_options-IsSecure uri =
    append-IsSecure
      (append-IsSecure
        (append-IsSecure
          (append-IsSecure (given-IsSecure uri.port use_ssh_port refl)
            (given-IsSecure uri.username use_ssh_username refl))
          (with_password uri.password))
        (given-IsSecure (uri.query (text "socket")) with_remote_socket refl))
      (given-IsSecure (uri.query (text "keyfile")) use_key_file refl)
  where
    with_password :
        (p : Option Bytes) → IsSecure (elim p [ none ↦ [] | some s ↦ use_ssh_password s ∷ [] ])
    with_password none = record { secure = refl }
    with_password (some s) = record { secure = refl }

process_common_ssh_options-IsSecure :
    (uri : Url) (options : List SshOption) {all : List SshOption}
    → process_common_ssh_options uri options ≡ ok all
    → IsSecure options
    → IsSecure all
unfolding process_common_ssh_options
process_common_ssh_options-IsSecure uri options h start =
    let (u, _, e) =
      ok_through (check_mode_option uri) (λ _. ok (options ++ common_options uri)) h in
    subst IsSecure (ok_injective e) (append-IsSecure start (common_options-IsSecure uri))

-- Only "ignore" gives an option that is not secure.
verify_option_asked :
    (v : Bytes) {os : List SshOption}
    → verify_option v ≡ ok os
    → ssh_insecure os ≡ true
    → equal v (text "ignore") ≡ true
unfolding verify_option
verify_option_asked v h bad = elim (Bool-cases (equal v (text "ignore"))) [
  | inl e ↦ e
  | inr e ↦ absurd (ground (arith, e, h, bad))
]

auth_option-IsSecure : (v : Bytes) {os : List SshOption} → auth_option v ≡ ok os → IsSecure os
unfolding auth_option
auth_option-IsSecure v h = elim (Bool-cases (equal v [])) [
  | inl e ↦ subst IsSecure (ok_injective (rw e at h)) (record { secure = refl })
  | inr e ↦
      let (ms, _, last) = ok_through (auth_methods (split_commas v)) _ (rw e at h) in
      subst IsSecure (ok_injective last) (record { secure = refl })
]

tls_options_secure :
    (port path : Bytes)
    → tls_insecure (given port use_tls_port ++ given path use_pki_path ++ []) ≡ false
tls_options_secure port path = elim (Bool-cases (equal port [])) [
  | inl e ↦ elim (Bool-cases (equal path [])) [ inl f ↦ rw e (rw f) | inr f ↦ rw e (rw f) ]
  | inr e ↦ elim (Bool-cases (equal path [])) [ inl f ↦ rw e (rw f) | inr f ↦ rw e (rw f) ]
]

new_ssh_unless-insecure :
    (fields : List Bytes) (hostname : Bytes) (os : List SshOption) (d : Dialer)
    → new_ssh_unless fields hostname os ≡ ok d
    → insecure d ≡ ssh_insecure os
unfolding new_ssh_unless
new_ssh_unless-insecure [] hostname os d h = ap insecure (sym (ok_injective h))
new_ssh_unless-insecure (f ∷ fields) hostname os d h = cc

unix_secure : (uri : Url) (d : Dialer) → unix_dialer uri ≡ ok d → insecure d ≡ false
unfolding unix_dialer
unix_secure uri d h =
    let (u, _, e) = ok_through (check_mode_option uri) _ h in ap insecure (sym (ok_injective e))

tcp_secure : (uri : Url) (d : Dialer) → tcp_dialer uri ≡ ok d → insecure d ≡ false
unfolding tcp_dialer
tcp_secure uri d h = ap insecure (sym (ok_injective h))

module _ (atoi : Bytes → Option ℤ) where
  -- That a URI has a `no_verify` with a number other than 0, or `known_hosts_verify=ignore`.
  abbrev pub AsksNoVerify : Url → Type 0
  AsksNoVerify uri = (n : ℤ) × (atoi (uri.query (text "no_verify")) ≡ some n) × (n ≢ pos 0)

  abbrev pub AsksIgnore : Url → Type 0
  AsksIgnore uri = equal (uri.query (text "known_hosts_verify")) (text "ignore") ≡ true

  no_verify_option_asked : (uri : Url) → no_verify_option atoi uri ≡ ok true → AsksNoVerify uri
  unfolding no_verify_option
  no_verify_option_asked uri h = elim (Option-cases (atoi (uri.query (text "no_verify")))) [
    | inl e ↦ absurd (ground (arith, e, h))
    | inr (n, e) ↦ (n, e, λ zero. absurd (ground (arith, e, zero, h)))
  ]

  tls_asked :
      (uri : Url) (d : Dialer) → tls_dialer atoi uri ≡ ok d → insecure d ≡ true → AsksNoVerify uri
  unfolding tls_dialer
  tls_asked uri d h bad =
      let (nv, read, e) = ok_through (no_verify_option atoi uri) _ h in
      by_flag nv read (subst (λ x. insecure x ≡ true) (sym (ok_injective e)) bad)
    where
      by_flag :
          (nv : Bool)
          → no_verify_option atoi uri ≡ ok nv
          → tls_insecure (
              given uri.port use_tls_port
              ++ given (uri.query (text "pkipath")) use_pki_path
              ++ when nv with_insecure_no_verify)
            ≡ true
          → AsksNoVerify uri
      by_flag true read on = no_verify_option_asked uri read
      by_flag false read on =
          absurd (ground (arith, tls_options_secure uri.port (uri.query (text "pkipath")), on))

  libssh_asked :
      (transport : Bytes) (uri : Url) (d : Dialer)
      → libssh_dialer transport uri ≡ ok d
      → insecure d ≡ true
      → AsksIgnore uri
  unfolding libssh_dialer
  libssh_asked transport uri d h bad =
      let (common, p, h1) = ok_through (process_common_ssh_options uri []) _ h in
      let (verify, q, h2) =
        ok_through (verify_option (uri.query (text "known_hosts_verify"))) _ h1 in
      let (auth, r, h3) = ok_through (auth_option (uri.query (text "sshauth"))) _ h2 in
      elim (Bool-cases (ssh_insecure verify)) [
        | inl on ↦ verify_option_asked (uri.query (text "known_hosts_verify")) q on
        | inr off ↦ elim (Bool-cases (equal (uri.query (text "no_verify")) [])) [
          | inr e ↦ absurd (ground (arith, e, h3))
          | inl e ↦
              let same = ok_injective (rw e at h3) in
              let verified : IsSecure verify = record { secure = off } in
              let safe =
                append-IsSecure
                  (append-IsSecure
                    (append-IsSecure
                      (process_common_ssh_options-IsSecure uri [] p (record { secure = refl }))
                      (given-IsSecure (uri.query (text "known_hosts")) use_known_hosts_file refl))
                    verified)
                  (auth_option-IsSecure (uri.query (text "sshauth")) r) in
              absurd (ground (arith, safe.secure, subst (λ x. insecure x ≡ true) (sym same) bad))
        ]
      ]

  ssh_asked :
      (user : Option Bytes) (uri : Url) (d : Dialer)
      → ssh_dialer atoi user uri ≡ ok d
      → insecure d ≡ true
      → AsksNoVerify uri
  unfolding ssh_dialer
  ssh_asked none uri d h bad = cc
  ssh_asked (some user) uri d h bad =
      let (common, p, h1) =
        ok_through (process_common_ssh_options uri (with_system_ssh_defaults user ∷ [])) _ h in
      let (nv, read, h2) = ok_through (no_verify_option atoi uri) _ h1 in
      by_flag nv common read
        (process_common_ssh_options-IsSecure uri (with_system_ssh_defaults user ∷ []) p
          (record { secure = refl }))
        (sym (new_ssh_unless-insecure (refused_fields uri) uri.hostname _ d h2) ∙ bad)
    where
      by_flag :
          (nv : Bool) (common : List SshOption)
          → no_verify_option atoi uri ≡ ok nv
          → IsSecure common
          → ssh_insecure (common ++ when nv with_insecure_ignore_host_key) ≡ true
          → AsksNoVerify uri
      by_flag true common read safe on = no_verify_option_asked uri read
      by_flag false common read safe on =
          let both : IsSecure (common ++ []) = append-IsSecure safe (record { secure = refl }) in
          absurd (ground (arith, on, both.secure))

  -- A dialer that does not check the identity of the server is made only for a URI that asks for it:
  -- one with a `no_verify` other than 0, or with `known_hosts_verify=ignore`.
  pub insecure_asked :
      (user : Option Bytes) (uri : Url) (d : Dialer)
      → dialer_for_uri atoi user uri ≡ ok d
      → insecure d ≡ true
      → AsksNoVerify uri ⊎ AsksIgnore uri
  unfolding dialer_for_uri
  insecure_asked user uri d h bad = ground (
    arith,
    unix_secure uri d,
    tcp_secure uri d,
    tls_asked uri d,
    libssh_asked (transport_of uri) uri d,
    ssh_asked user uri d,
  )
