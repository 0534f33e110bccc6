-- ===== src/Dialers/Tls/Connected.antt =====
-- A connection over TLS is to a server that has been verified, and no other is left open.
use mathlib.Core.Path.{subst}
use go_libvirt.Base.{
  ℕ, ◌≡◌, sym, ap, ◌∙◌, ◌⊎◌, inl, inr, Bool, true, false, Bool-cases, Option, none, some, List, [],
  ◌∷◌, arith, Option-cases, ok, err, Result-cases,
}
use go_libvirt.Base.Int.{ℤ}
use go_libvirt.Base.Text.{Bytes, equal, equal_iff}
use go_libvirt.Client.Uri.{Url, TlsOption, Dialer, dialer_for_uri}
use go_libvirt.Client.Uri.Verify.{AsksNoVerify, AsksIgnore}
use go_libvirt.Dialers.{System}
use go_libvirt.Dialers.Tls.{
  Tls, TlsError, Config, Dialed, new_tls, config, server_verified, dial, not_read, not_verified,
  no_connection,
}
use go_libvirt.Dialers.Tls.Verify.{IsVerified, config-IsVerified_of_uri}

module _ {Cert Pool C : Type 0} (sys : System) (pair : Bytes → Bytes → Option Cert)
    (pool_of : Bytes → Pool) (connect : ℕ → Bytes → Bytes → Config Cert Pool → Option C)
    (read : C → Option Bytes) where
  -- Whether the dialer has had a connection.
  abbrev pub is_made : Tls → Bool
  is_made r = elim (config sys pair pool_of r) [
    | err e ↦ false
    | ok conf ↦ elim (connect r.timeout r.host r.port conf) [ none ↦ false | some c ↦ true ]
  ]

  -- A connection by this configuration, on which the server has said that it accepts the client.
  abbrev pub IsAccepted : Tls → Config Cert Pool → C → Type 0
  IsAccepted r conf conn =
      (config sys pair pool_of r ≡ ok conf)
      × (connect r.timeout r.host r.port conf ≡ some conn)
      × (read conn ≡ some (1 ∷ []))

  -- A dial returns a connection that is open, or an error with nothing left open.
  abbrev pub Ends : Tls → Dialed C → Type 0
  Ends r d =
      ((conn : C) × (conf : Config Cert Pool) × (d.conn ≡ ok conn)
        × (d.closed ≡ false)
        × IsAccepted r conf conn)
      ⊎ ((e : TlsError) × (d.conn ≡ err e) × (d.closed ≡ is_made r))

  -- The same, the configuration being one that verifies the server.
  abbrev pub IsSafe : Tls → Dialed C → Type 0
  IsSafe r d =
      ((conn : C) × (conf : Config Cert Pool) × (d.conn ≡ ok conn)
        × (d.closed ≡ false)
        × IsAccepted r conf conn
        × IsVerified sys pair pool_of r conf)
      ⊎ ((e : TlsError) × (d.conn ≡ err e) × (d.closed ≡ is_made r))

  server_verified-Ends :
      (r : Tls) (conf : Config Cert Pool) (c : C)
      → config sys pair pool_of r ≡ ok conf
      → connect r.timeout r.host r.port conf ≡ some c
      → Ends r (server_verified read c)
  unfolding server_verified
  server_verified-Ends r conf c good made = elim (Option-cases (read c)) [
    | inl e ↦ inr (not_read, ground (arith, e), ground (arith, e, good, made))
    | inr (buf, e) ↦ elim (Bool-cases (equal buf (1 ∷ []))) [
      | inr other ↦
          inr (not_verified, ground (arith, e, other), ground (arith, e, other, good, made))
      | inl one ↦ inl (
        c,
        conf,
        ground (arith, e, one),
        ground (arith, e, one),
        (good, made, e ∙ ap (λ b. some b) ((equal_iff buf (1 ∷ [])).0 one)),
      )
    ]
  ]

  dial-Ends : (r : Tls) → Ends r (dial sys pair pool_of connect read r)
  unfolding dial
  dial-Ends r = elim (Result-cases (config sys pair pool_of r)) [
    | inr (e, bad) ↦ inr (e, ground (arith, bad), ground (arith, bad))
    | inl (conf, good) ↦ elim (Option-cases (connect r.timeout r.host r.port conf)) [
      | inl nobody ↦ inr (no_connection, ground (arith, good, nobody), ground (arith, good, nobody))
      | inr (c, made) ↦
          subst (Ends r) (sym (dial-made c conf good made))
            (server_verified-Ends r conf c good made)
    ]
  ]
    where
      dial-made :
          (c : C) (conf : Config Cert Pool)
          → config sys pair pool_of r ≡ ok conf
          → connect r.timeout r.host r.port conf ≡ some c
          → dial sys pair pool_of connect read r ≡ server_verified read c
      dial-made c conf good made = ground (arith, good, made)

  -- The dialer for TLS of a URI that has no `no_verify` other than 0 and no known_hosts_verify=ignore.
  -- A connection that it returns is open, is to a server that is verified against the authorities of
  -- the first of the dialer's directories that has a file of them, and the server has accepted the
  -- client's certificate. With an error, a connection that has been made is closed.
  pub dial-IsSafe_of_uri :
      (atoi : Bytes → Option ℤ) (user : Option Bytes) (uri : Url) (host : Bytes)
      (opts : List TlsOption) (r : Tls)
      → dialer_for_uri atoi user uri ≡ ok (Dialer.new_tls host opts)
      → ¬ AsksNoVerify atoi uri
      → ¬ AsksIgnore atoi uri
      → new_tls sys host opts ≡ some r
      → IsSafe r (dial sys pair pool_of connect read r)
  dial-IsSafe_of_uri atoi user uri host opts r dialer no_flag no_ignore made = elim (dial-Ends r) [
    | inr failed ↦ inr failed
    | inl (conn, conf, is, left, accepted) ↦ inl (
      conn,
      conf,
      is,
      left,
      accepted,
      config-IsVerified_of_uri sys pair pool_of atoi user uri host opts r conf dialer no_flag
          no_ignore made accepted.0,
    )
  ]
