-- ===== src/Client/Monitor.antt =====
-- libvirt.go: `Run`, a command for the monitor of a domain's QEMU.
use go_libvirt.Base.{length, ℕ, ◌==◌, [], ◌∷◌, Option, none, some, Result, ok, err, if◌then◌else◌}
use go_libvirt.Base.Text.{Bytes, equal}
use go_libvirt.Client.Remote.{Remote, Domain, Call, Nothing, ◌>>=◌, give, return, send}
use go_libvirt.Client.Remote.Args.{domain_monitor_command_payload}
use go_libvirt.Client.Operations.{lookup}
use go_libvirt.Rpc.Errors.{GoError, plain}
use go_libvirt.Rpc.Route.{qemu_program}
pub mod Reply

abbrev pub qemu_proc_domain_monitor_command : ℕ
qemu_proc_domain_monitor_command = 1

-- `bytes.TrimRight(s, "\x00")`.
abbrev push_front : ℕ → Bytes → Bytes
push_front c [] = if c == 0 then [] else c ∷ []
push_front c (d ∷ s) = c ∷ d ∷ s

unfoldable pub trim_nulls : Bytes → Bytes
trim_nulls [] = []
trim_nulls (c ∷ s) = push_front c (trim_nulls s)

-- `data[4:]`, which panics on less.
abbrev pub from_four : Bytes → Option Bytes
from_four (a ∷ b ∷ c ∷ d ∷ s) = some s
from_four _ = none

abbrev pub trimmed : Option Bytes → Option Bytes
trimmed none = none
trimmed (some s) = some (trim_nulls s)

module _ (l : Remote) where
  unfoldable pub get_qemu_error : Bytes → Result GoError Nothing
  get_qemu_error payload = elim (l.decode_string payload).value [
    | err e ↦ err e
    | ok s ↦ elim (l.description s) [
      | err e ↦ err e
      | ok description ↦ if equal description [] then ok tt else err (plain description)
    ]
  ]

  -- `run` behind its lookup. None is the panic of the slice.
  abbrev pub run_in : Bytes → Domain → Call (Option Bytes)
  run_in cmd d = do
    buf ← give (l.encode (domain_monitor_command_payload d cmd 0))
    res ← send l qemu_proc_domain_monitor_command qemu_program buf
    _ ← give (get_qemu_error res)
    opaque ← give (l.decode_fixed_opaque (length res) res).value
    return (trimmed (from_four opaque))

  unfoldable pub run : Bytes → Bytes → Call (Option Bytes)
  run dom cmd = do d ← lookup l dom; run_in cmd d
