-- ===== src/Client/Operations/Printed.antt =====
-- What Version prints.
use go_libvirt.Base.{ℕ, ◌+◌, ◌*◌, ◌/◌, ◌%◌, ◌<◌, ◌≡◌, refl, ap, ◌∙◌, List, [], ◌++◌, arith, ok}
use go_libvirt.Base.Text.{Bytes, text}
use go_libvirt.Lvgen.Numbers.{format_nat}
use go_libvirt.Rpc.Route.{remote_program}
use go_libvirt.Client.Remote.{Remote, return, Request, send}
use go_libvirt.Client.Remote.Sent.{with_request, through_ok}
use go_libvirt.Client.Bindings.{connect_get_lib_version}
use go_libvirt.Client.Operations.{version, version_string}

version_string-parts :
    (major minor micro : ℕ)
    → minor < 1000
    → micro < 1000
    → version_string (major * 1000000 + minor * 1000 + micro)
      ≡ format_nat major ++ (text "." ++ (format_nat minor ++ (text "." ++ format_nat micro)))
unfolding version_string
version_string-parts major minor micro h1 h2 =
    let v = major * 1000000 + minor * 1000 + micro in
    let first : v / 1000000 ≡ major = omega (arith, h1, h2) in
    let second : (v % 1000000) / 1000 ≡ minor = omega (arith, h1, h2) in
    let third : (v % 1000000) % 1000 ≡ micro = omega (arith, h1, h2) in
    rw (first, second, third) refl

connect_get_lib_version-ok :
    (l : Remote) (sent : List Request) (reply : Bytes) (v : ℕ)
    → l.answer (with_request 157 remote_program [] sent) ≡ ok reply
    → (l.decode_uhyper reply).value ≡ ok v
    → connect_get_lib_version l sent ≡ (ok v, with_request 157 remote_program [] sent)
unfolding connect_get_lib_version send
connect_get_lib_version-ok l sent reply v answered decoded = ground (arith, answered, decoded)

-- A reply that holds a version, with a minor number and a micro number below 1000, gives the three
-- numbers in decimal with dots between them, and one request is sent.
version-printed :
    (l : Remote) (sent : List Request) (reply : Bytes) (major minor micro : ℕ)
    → minor < 1000
    → micro < 1000
    → l.answer (with_request 157 remote_program [] sent) ≡ ok reply
    → (l.decode_uhyper reply).value ≡ ok (major * 1000000 + minor * 1000 + micro)
    → version l sent ≡ (
      ok (format_nat major ++ (text "." ++ (format_nat minor ++ (text "." ++ format_nat micro)))),
      with_request 157 remote_program [] sent,
    )
unfolding version
version-printed l sent reply major minor micro h1 h2 answered decoded =
    through_ok (connect_get_lib_version l) (λ v. return (version_string v)) sent
      (connect_get_lib_version-ok l sent reply _ answered decoded)
    ∙ ap (λ s. (ok s, with_request 157 remote_program [] sent))
        (version_string-parts major minor micro h1 h2)
