-- ===== src/Dialers/Tls/Verify.antt =====
-- A server is verified unless the URI asks otherwise.
use mathlib.Core.Path.{subst}
use mathlib.Core.Option.{some-injective, none-ne-some}
use go_libvirt.Base.{
  ◌≡◌, ◌≢◌, refl, sym, ap, ◌∙◌, ◌⊎◌, inl, inr, false, Option, some, List, [], ◌∷◌, ◌++◌, arith,
  Bool-cases, Option-cases, Result-cases, ok, err, ok_through, ok_injective, err-ne-ok, All,
}
use go_libvirt.Base.Int.{ℤ}
use go_libvirt.Base.Text.{Bytes, text, equal}
use go_libvirt.Client.Uri.{
  Url, TlsOption, use_tls_port, use_pki_path, with_insecure_no_verify, Dialer, dialer_for_uri,
}
use go_libvirt.Client.Uri.Verify.{tls_insecure, insecure_asked, AsksNoVerify, AsksIgnore}
use go_libvirt.Dialers.{System, FileError}
use go_libvirt.Dialers.Tls.{
  Tls, Config, apply_all_tls, apply_tls, system_tls, with_user, new_tls, client_cert, ca_certs_in,
  ca_certs, config,
}

apply_all_tls-secure :
    (opts : List TlsOption) (r : Tls)
    → tls_insecure opts ≡ false
    → (apply_all_tls opts r).insecure_skip_verify ≡ r.insecure_skip_verify
apply_all_tls-secure [] r h = refl
apply_all_tls-secure (with_insecure_no_verify ∷ opts) r h = cc
apply_all_tls-secure (use_tls_port p ∷ opts) r h =
    apply_all_tls-secure opts (apply_tls (use_tls_port p) r) h
apply_all_tls-secure (use_pki_path p ∷ opts) r h =
    apply_all_tls-secure opts (apply_tls (use_pki_path p) r) h

new_tls-secure :
    (sys : System) (host : Bytes) (opts : List TlsOption) (r : Tls)
    → tls_insecure opts ≡ false
    → new_tls sys host opts ≡ some r
    → r.insecure_skip_verify ≡ false
unfolding new_tls with_user
new_tls-secure sys host opts r h made = elim (Option-cases sys.current_user) [
  | inl e ↦ absurd (none-ne-some _ (rw (e, new_tls, with_user) at made))
  | inr (u, e) ↦
      ap (λ r. r.insecure_skip_verify)
        (sym (some-injective _ _ (rw (e, new_tls, with_user) at made)))
      ∙ apply_all_tls-secure opts _ h
      ∙ ground arith
]

abbrev pub HasPaths : Tls → Type 0
HasPaths r = (dir : Bytes) × (rest : List Bytes) × (r.ca_search_paths ≡ dir ∷ rest)

apply_all_tls-HasPaths :
    (opts : List TlsOption) (r : Tls) → HasPaths r → HasPaths (apply_all_tls opts r)
apply_all_tls-HasPaths [] r h = h
apply_all_tls-HasPaths (with_insecure_no_verify ∷ opts) r h =
    apply_all_tls-HasPaths opts (apply_tls with_insecure_no_verify r) h
apply_all_tls-HasPaths (use_tls_port p ∷ opts) r h =
    apply_all_tls-HasPaths opts (apply_tls (use_tls_port p) r) h
apply_all_tls-HasPaths (use_pki_path p ∷ opts) r h =
    apply_all_tls-HasPaths opts (apply_tls (use_pki_path p) r) (p, [], refl)

with_user-HasPaths : (sys : System) (r s : Tls) → HasPaths r → with_user sys r ≡ some s → HasPaths s
unfolding with_user
with_user-HasPaths sys r s h made = elim (Option-cases sys.current_user) [
  | inl e ↦ absurd (none-ne-some _ (rw (e, with_user) at made))
  | inr (u, e) ↦
      subst HasPaths (some-injective _ _ (rw (e, with_user) at made))
        (elim (Bool-cases (equal u.uid (text "0"))) [
          | inl root ↦ rw root h
          | inr other ↦ rw other (_, _, refl)
        ])
]

new_tls-HasPaths :
    (sys : System) (host : Bytes) (opts : List TlsOption) (r : Tls)
    → new_tls sys host opts ≡ some r
    → HasPaths r
unfolding new_tls
new_tls-HasPaths sys host opts r made = elim (Option-cases (with_user sys (system_tls host))) [
  | inl e ↦ absurd (none-ne-some _ (rw (e, new_tls) at made))
  | inr (s, e) ↦
      subst HasPaths (some-injective _ _ (rw (e, new_tls) at made))
        (apply_all_tls-HasPaths opts s (with_user-HasPaths sys (system_tls host) s (_, _, refl) e))
]

cons-ne-nil : {A : Type 0} (x : A) (xs : List A) → (x ∷ xs) ≢ []
cons-ne-nil x xs h = cc

append-ne-nil : {A : Type 0} (xs : List A) (x : A) → (xs ++ (x ∷ [])) ≢ []
append-ne-nil [] x h = cc
append-ne-nil (y ∷ xs) x h = cc

module _ {Cert Pool : Type 0} (sys : System) (pair : Bytes → Bytes → Option Cert)
    (pool_of : Bytes → Pool) where
  -- The first directory with a certificate of authorities that can be read, and its pool.
  pub record IsFirstPool (dirs : List Bytes) (pool : Pool) : Type 0 where
    pub before : List Bytes
    pub dir : Bytes
    pub behind : List Bytes
    pub file : Bytes
    pub searched : dirs ≡ before ++ (dir ∷ behind)
    pub unread :
        All
          (λ d. (e : FileError) × (sys.read_file (sys.join (d ∷ text "cacert.pem" ∷ [])) ≡ err e))
          before
    pub found : sys.read_file (sys.join (dir ∷ text "cacert.pem" ∷ [])) ≡ ok file
    pub pooled : pool ≡ pool_of file

  behind-IsFirstPool :
      (dir : Bytes) (dirs : List Bytes) (pool : Pool) (why : FileError)
      → sys.read_file (sys.join (dir ∷ text "cacert.pem" ∷ [])) ≡ err why
      → IsFirstPool dirs pool
      → IsFirstPool (dir ∷ dirs) pool
  behind-IsFirstPool dir dirs pool why e first = record {
    before = dir ∷ first.before;
    dir = first.dir;
    behind = first.behind;
    file = first.file;
    searched = ap (λ t. dir ∷ t) first.searched;
    unread = ((why, e), first.unread);
    found = first.found;
    pooled = first.pooled;
  }

  ca_certs_in-IsFirstPool :
      (dirs : List Bytes) (errs : List FileError) (p : Option Pool)
      → ca_certs_in sys pair pool_of false dirs errs ≡ ok p
      → ((errs ≡ []) × (dirs ≡ [])) ⊎ ((pool : Pool) × (p ≡ some pool) × IsFirstPool dirs pool)
  unfolding ca_certs_in
  ca_certs_in-IsFirstPool [] [] p h = inl (refl, refl)
  ca_certs_in-IsFirstPool [] (e ∷ es) p h = cc
  ca_certs_in-IsFirstPool (dir ∷ dirs) errs p h =
      elim (Result-cases (sys.read_file (sys.join (dir ∷ text "cacert.pem" ∷ [])))) [
        | inl (file, e) ↦ inr (
          pool_of file,
          sym (ok_injective (rw (e, ca_certs_in) at h)),
          record {
            before = [];
            dir = dir;
            behind = dirs;
            file = file;
            searched = refl;
            unread = tt;
            found = e;
            pooled = refl;
          },
        )
        | inr (why, e) ↦
            elim (ca_certs_in-IsFirstPool dirs (errs ++ (why ∷ [])) p (rw (e, ca_certs_in) at h)) [
              | inl (empty, _) ↦ absurd (append-ne-nil errs why empty)
              | inr (pool, same, first) ↦
                  inr (pool, same, behind-IsFirstPool dir dirs pool why e first)
            ]
      ]

  -- What `config` makes of a dialer that verifies.
  pub record IsVerified (r : Tls) (c : Config Cert Pool) : Type 0 where
    pub verifies : c.skip_verify ≡ false
    pub pool : Pool
    pub trusted : c.root_cas ≡ some pool
    pub first : IsFirstPool r.ca_search_paths pool

  config-IsVerified :
      (r : Tls) (c : Config Cert Pool)
      → r.insecure_skip_verify ≡ false
      → HasPaths r
      → config sys pair pool_of r ≡ ok c
      → IsVerified r c
  unfolding config ca_certs
  config-IsVerified r c secure (dir, rest, searched) h =
      let (cert, _, h1) = ok_through (client_cert sys pair pool_of r) _ h in
      let (p, read, h2) = ok_through (ca_certs sys pair pool_of r.insecure_skip_verify r) _ h1 in
      elim (Option-cases cert) [
        | inl e ↦ absurd (err-ne-ok _ _ (rw e at h2))
        | inr (made, e) ↦
            elim (ca_certs_in-IsFirstPool r.ca_search_paths [] p (rw secure at read)) [
              | inl (_, empty) ↦ absurd (cons-ne-nil dir rest (sym searched ∙ empty))
              | inr (pool, same, first) ↦
                  let conf = ok_injective (rw e at h2) in
                  record {
                    verifies = ap (λ c. c.skip_verify) (sym conf) ∙ secure;
                    pool = pool;
                    trusted = ap (λ c. c.root_cas) (sym conf) ∙ same;
                    first = first;
                  }
            ]
      ]

  -- The dialer of a URI that does not ask for anything else verifies.
  pub config-IsVerified_of_uri :
      (atoi : Bytes → Option ℤ) (user : Option Bytes) (uri : Url) (host : Bytes)
      (opts : List TlsOption) (r : Tls) (c : Config Cert Pool)
      → dialer_for_uri atoi user uri ≡ ok (Dialer.new_tls host opts)
      → ¬ AsksNoVerify atoi uri
      → ¬ AsksIgnore atoi uri
      → new_tls sys host opts ≡ some r
      → config sys pair pool_of r ≡ ok c
      → IsVerified r c
  config-IsVerified_of_uri atoi user uri host opts r c dialer no_flag no_ignore made h =
      let secure : tls_insecure opts ≡ false = elim (Bool-cases (tls_insecure opts)) [
        | inr off ↦ off
        | inl on ↦ elim (insecure_asked atoi user uri (Dialer.new_tls host opts) dialer on) [
          | inl flag ↦ absurd (no_flag flag)
          | inr ignore ↦ absurd (no_ignore ignore)
        ]
      ] in
      config-IsVerified r c (new_tls-secure sys host opts r secure made)
        (new_tls-HasPaths sys host opts r made) h
