-- ===== src/Tests/Uris.antt =====
-- Dialers for URIs, at concrete inputs.
use Prim.Native.String.{String}
use go_libvirt.Base.{◌≡◌, refl, Option, none, some, [], ◌++◌, ok, err, if◌then◌else◌}
use go_libvirt.Base.Int.{ℤ, pos}
use go_libvirt.Base.Text.{Bytes, text, equal}
use go_libvirt.Client.Uri.{
  Url, Dialer, new_tls, new_local, unsupported_transport, dialer_for_uri, transport_of, tls_dialer,
  no_verify_option, unix_dialer, check_mode_option,
}
use go_libvirt.Client.Uri.Remote.{remote_uri, connect_to_uri}

-- A reader of numbers that knows "1".
abbrev one_only : Bytes → Option ℤ
one_only s = if equal s (text "1") then some (pos 1) else none

abbrev url : String → Bytes → Bytes → Url
url scheme host no_verify = record {
  scheme = text scheme;
  host = host;
  hostname = host;
  port = [];
  username = [];
  password = none;
  query = λ key. if equal key (text "no_verify") then no_verify else [];
}

dialers_run :
    (dialer_for_uri one_only none (url "qemu" [] []) ≡ ok (new_local []))
    × (dialer_for_uri one_only none (url "qemu" (text "host") []) ≡ ok (new_tls (text "host") []))
    × (dialer_for_uri one_only none (url "qemu+ext" [] [])
        ≡ err (unsupported_transport (text "ext")))
unfolding dialer_for_uri transport_of tls_dialer no_verify_option unix_dialer check_mode_option
dialers_run = (refl, refl, refl)

-- The remote side is asked for a local connection.
remote_run :
    connect_to_uri {E = Bytes} {C = Dialer × Bytes} one_only none
      (λ scheme path. scheme ++ (text "://" ++ path))
      (λ dialer uri. ok (dialer, uri))
      (text "/system")
      (url "qemu+tls" (text "host") [])
    ≡ ok (new_tls (text "host") [], text "qemu:///system")
unfolding dialer_for_uri transport_of tls_dialer no_verify_option remote_uri connect_to_uri
remote_run = refl
