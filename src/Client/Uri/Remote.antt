-- ===== src/Client/Uri/Remote.antt =====
-- connect_uri.go: what the client asks libvirtd for, and `ConnectToURI` up to the connection.
use go_libvirt.Base.{◌==◌, Option, [], ◌∷◌, Result, ok, err, if◌then◌else◌}
use go_libvirt.Base.Int.{ℤ}
use go_libvirt.Base.Text.{Bytes, text}
use go_libvirt.Client.Uri.{Url, Dialer, UriError, dialer_for_uri}

-- `strings.Split(scheme, "+")[0]`.
abbrev pub before_plus : Bytes → Bytes
before_plus [] = []
before_plus (c ∷ s) = let rest = before_plus s in if c == b'+' then [] else c ∷ rest

-- `print scheme path` is the URL with these parts as a text, as package net/url prints it.
unfoldable pub remote_uri : (Bytes → Bytes → Bytes) → Bytes → Url → Bytes
remote_uri print path uri = elim (uri.query (text "name")) [
  | [] ↦ print (before_plus uri.scheme) path
  | r ∷ s ↦ r ∷ s
]

-- Why `ConnectToURI` fails: no dialer for the URI, or no connection with it.
pub data ConnectError (E : Type 0) : Type 0 where
  no_dialer : UriError → ConnectError E
  no_connection : E → ConnectError E

-- `connect dialer uri` is a client made with the dialer, and the method `ConnectToURI` on it.
unfoldable pub connect_to_uri :
    {E C : Type 0}
    → (Bytes → Option ℤ)
    → Option Bytes
    → (Bytes → Bytes → Bytes)
    → (Dialer → Bytes → Result E C)
    → Bytes
    → Url
    → Result (ConnectError E) C
connect_to_uri atoi current_user print connect path uri =
    elim (dialer_for_uri atoi current_user uri) [
      | err e ↦ err (no_dialer e)
      | ok dialer ↦ elim (connect dialer (remote_uri print path uri)) [
        | err e ↦ err (no_connection e)
        | ok client ↦ ok client
      ]
    ]
