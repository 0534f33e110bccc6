-- ===== src/Dialers/Tls.antt =====
-- tls.go: certificates, and the dialer for TLS.
use go_libvirt.Base.{
  ℕ, ◌==◌, Bool, true, false, not, ◌&&◌, Option, none, some, List, [], ◌∷◌, ◌++◌, Result, ok, err,
  ◌>>=◌, if◌then◌else◌,
}
use go_libvirt.Base.Text.{Bytes, text, equal}
use go_libvirt.Client.Uri.{TlsOption, use_tls_port, use_pki_path, with_insecure_no_verify}
use go_libvirt.Dialers.{System, User, FileError, not_exist, failed}
pub mod Verify
pub mod Connected

pub record CertDirs : Type 0 where
  pub key_path : Bytes
  pub cert_path : Bytes

pub record Tls : Type 0 where
  pub timeout : ℕ
  pub host : Bytes
  pub port : Bytes
  pub insecure_skip_verify : Bool
  pub cert_search_paths : List CertDirs
  pub ca_search_paths : List Bytes

abbrev pub default_tls_port : Bytes
default_tls_port = text "16514"

abbrev pub apply_tls : TlsOption → Tls → Tls
apply_tls with_insecure_no_verify r = record r { insecure_skip_verify = true }
apply_tls (use_tls_port p) r = record r { port = p }
apply_tls (use_pki_path p) r = record r {
  cert_search_paths = record { key_path = p; cert_path = p } ∷ [];
  ca_search_paths = p ∷ [];
}

abbrev pub apply_all_tls : List TlsOption → Tls → Tls
apply_all_tls [] r = r
apply_all_tls (opt ∷ opts) r = apply_all_tls opts (apply_tls opt r)

abbrev pub system_tls : Bytes → Tls
system_tls host_addr = record {
  timeout = 20;
  host = host_addr;
  port = default_tls_port;
  insecure_skip_verify = false;
  cert_search_paths =
      record { key_path = text "/etc/pki/libvirt/private/"; cert_path = text "/etc/pki/libvirt/" }
      ∷ [];
  ca_search_paths = text "/etc/pki/CA/" ∷ [];
}

-- A directory that is searched before the others.
abbrev pub search_first : Bytes → Tls → Tls
search_first cd r = record r {
  cert_search_paths = record { key_path = cd; cert_path = cd } ∷ r.cert_search_paths;
  ca_search_paths = cd ∷ r.ca_search_paths;
}

-- The directories of a user. Without a current user the code reads a field of a nil pointer: none.
unfoldable pub with_user : System → Tls → Option Tls
with_user sys r = elim sys.current_user [
  | none ↦ none
  | some u ↦ some (
      if equal u.uid (text "0")
      then r
      else search_first (sys.join (u.home_dir ∷ text ".pki" ∷ text "libvirt" ∷ [])) r)
]

unfoldable pub new_tls : System → Bytes → List TlsOption → Option Tls
new_tls sys host_addr opts = elim (with_user sys (system_tls host_addr)) [
  | none ↦ none
  | some r ↦ some (apply_all_tls opts r)
]

pub data TlsError : Type 0 where
  no_files : List FileError → TlsError
  invalid_client_cert : TlsError
  nil_certificate : TlsError
  no_connection : TlsError
  not_read : TlsError
  not_verified : TlsError

-- `errors.Join(errs...)` is nil when there are none.
abbrev pub joined : {A : Type 0} → List FileError → A → Result TlsError A
joined [] a = ok a
joined (e ∷ es) a = err (no_files (e ∷ es))

-- `Cert` and `pair` are those of `tls.X509KeyPair`; `Pool` holds what `AppendCertsFromPEM` took.
module _ {Cert Pool : Type 0} (sys : System) (pair : Bytes → Bytes → Option Cert)
    (pool_of : Bytes → Pool) where
  abbrev pub cert_of : Bytes → Bytes → Result TlsError (Option Cert)
  cert_of cert_file key_file = elim (pair cert_file key_file) [
    | none ↦ err invalid_client_cert
    | some cert ↦ ok (some cert)
  ]

  -- The loop of `clientCert`, behind the errors of the directories before. None is a nil certificate.
  unfoldable pub client_cert_in : List CertDirs → List FileError → Result TlsError (Option Cert)
  client_cert_in [] errs = joined errs none
  client_cert_in (dirs ∷ rest) errs =
      elim (sys.read_file (sys.join (dirs.cert_path ∷ text "clientcert.pem" ∷ []))) [
        | err e ↦ client_cert_in rest (errs ++ (e ∷ []))
        | ok cert_file ↦
            elim (sys.read_file (sys.join (dirs.key_path ∷ text "clientkey.pem" ∷ []))) [
              | err e ↦ client_cert_in rest (errs ++ (e ∷ []))
              | ok key_file ↦ cert_of cert_file key_file
            ]
      ]

  unfoldable pub client_cert : Tls → Result TlsError (Option Cert)
  client_cert r = client_cert_in r.cert_search_paths []

  -- An optional file may be missing.
  abbrev pub counted : Bool → FileError → List FileError → List FileError
  counted true not_exist errs = errs
  counted optional e errs = errs ++ (e ∷ [])

  -- The loop of `caCerts`. None is a nil pool, for which package tls takes the system's.
  unfoldable pub ca_certs_in : Bool → List Bytes → List FileError → Result TlsError (Option Pool)
  ca_certs_in optional [] errs = joined errs none
  ca_certs_in optional (dir ∷ rest) errs =
      elim (sys.read_file (sys.join (dir ∷ text "cacert.pem" ∷ []))) [
        | ok ca_file ↦ ok (some (pool_of ca_file))
        | err e ↦ ca_certs_in optional rest (counted optional e errs)
      ]

  unfoldable pub ca_certs : Bool → Tls → Result TlsError (Option Pool)
  ca_certs optional r = ca_certs_in optional r.ca_search_paths []

-- `tls.Config`.
pub record Config (Cert Pool : Type 0) : Type 0 where
  pub certificate : Cert
  pub root_cas : Option Pool
  pub skip_verify : Bool

-- A dial: what it returns, and whether it has closed the connection that it had.
pub record Dialed (C : Type 0) : Type 0 where
  pub conn : Result TlsError C
  pub closed : Bool

-- The byte with which the server tells whether it accepts the certificate. `read` is a read of at
-- most one byte.
unfoldable pub server_verified : {C : Type 0} → (C → Option Bytes) → C → Dialed C
server_verified read c = elim (read c) [
  | none ↦ record { conn = err not_read; closed = true }
  | some buf ↦
      if equal buf (1 ∷ [])
      then record { conn = ok c; closed = false }
      else record { conn = err not_verified; closed = true }
]

module _ {Cert Pool : Type 0} (sys : System) (pair : Bytes → Bytes → Option Cert)
    (pool_of : Bytes → Pool) where
  unfoldable pub config : Tls → Result TlsError (Config Cert Pool)
  config r = client_cert sys pair pool_of r >>= λ cert.
      ca_certs sys pair pool_of r.insecure_skip_verify r >>= λ pool. elim cert [
        | none ↦ err nil_certificate
        | some c ↦
            ok (record { certificate = c; root_cas = pool; skip_verify = r.insecure_skip_verify })
      ]

  -- `connect` is `tls.DialWithDialer`, by timeout, host, port and configuration.
  unfoldable pub dial :
      {C : Type 0}
      → (ℕ → Bytes → Bytes → Config Cert Pool → Option C)
      → (C → Option Bytes)
      → Tls
      → Dialed C
  dial connect read r = elim (config r) [
    | err e ↦ record { conn = err e; closed = false }
    | ok conf ↦ elim (connect r.timeout r.host r.port conf) [
      | none ↦ record { conn = err no_connection; closed = false }
      | some c ↦ server_verified read c
    ]
  ]
