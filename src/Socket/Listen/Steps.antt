-- ===== src/Socket/Listen/Steps.antt =====
-- `listen` after one round, by what the round comes to.
use go_libvirt.Base.{ℕ, suc, ◌≡◌, List, [], ◌∷◌}
use go_libvirt.Base.Text.{Bytes}
use go_libvirt.Socket.Packet.{Header}
use go_libvirt.Socket.Reader.{Feed}
use go_libvirt.Socket.Listen.{again, stop, crash, route, turn, returned, panicked, listen}

module _ (fuel : ℕ) (s : List Feed) {rest : List Feed} where
  pub listen-again : turn s ≡ (again, rest) → listen (suc fuel) s ≡ listen fuel rest
  unfolding listen
  listen-again e = rw (e, listen) (rw e)

  pub listen-stop : turn s ≡ (stop, rest) → listen (suc fuel) s ≡ ([], returned)
  unfolding listen
  listen-stop e = rw (e, listen)

  pub listen-crash : turn s ≡ (crash, rest) → listen (suc fuel) s ≡ ([], panicked)
  unfolding listen
  listen-crash e = rw (e, listen)

  pub listen-route :
      {h : Header} {p : Bytes}
      → turn s ≡ (route h p, rest)
      → listen (suc fuel) s ≡ ((h, p) ∷ (listen fuel rest).0, (listen fuel rest).1)
  unfolding listen
  listen-route e = rw (e, listen) (rw e)
