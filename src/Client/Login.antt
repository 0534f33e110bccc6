-- ===== src/Client/Login.antt =====
-- libvirt.go: `authenticate` and `initLibvirtComms`, with which a connection begins.
use go_libvirt.Base.{ℕ, List, [], ◌∷◌, if◌then◌else◌}
use go_libvirt.Base.Int.{ℤ, pos, ◌==ℤ◌}
use go_libvirt.Base.Text.{Bytes}
use go_libvirt.Client.Remote.{Remote, Call, Nothing, ◌>>=◌, give, return, send}
use go_libvirt.Client.Remote.Args.{connect_open_payload}
use go_libvirt.Client.Bindings.{auth_list, auth_polkit}
use go_libvirt.Rpc.Route.{remote_program}
pub mod Authenticated
pub mod Opened

abbrev pub auth_none : ℤ
auth_none = pos 0

abbrev pub polkit : ℤ
polkit = pos 2

abbrev pub proc_connect_open : ℕ
proc_connect_open = 1

module _ (l : Remote) where
  -- The loop of `authenticate`.
  unfoldable pub authenticate_by : List ℤ → Call Nothing
  authenticate_by [] = return tt
  authenticate_by (auth ∷ rest) =
      let next = authenticate_by rest in
      if auth ==ℤ auth_none
      then return tt
      else if auth ==ℤ polkit
      then (do _ ← auth_polkit l; return tt)
      else next

  unfoldable pub authenticate : Call Nothing
  authenticate = do types ← auth_list l; authenticate_by types

  unfoldable pub init_libvirt_comms : Bytes → Call Nothing
  init_libvirt_comms uri = do
    buf ← give (l.encode (connect_open_payload (1 ∷ 0 ∷ 0 ∷ []) uri 0))
    _ ← authenticate
    _ ← send l proc_connect_open remote_program buf
    return tt
