-- ===== src/Client/Lifecycle/Unnoticed.antt =====
-- A connection that is lost behind the back of ConnectToURI.
use mathlib.Core.Path.{subst}
use mathlib.Core.Option.{some-injective}
use go_libvirt.Base.{
  ℕ, ◌≡◌, ◌≢◌, refl, Bool, true, false, some, Option-cases, inl, inr, List, [], ◌∷◌, arith, All,
}
use go_libvirt.Client.Lifecycle.{
  Client, ended, Action, start, finish, lose, disconnect, listen_returns, watcher, step, run,
  is_connected, end_connect, socket_disconnect,
}

-- The socket is disconnected and every watcher has ended, but the client's channel is open.
pub record IsUnnoticed (l : Client) : Type 0 where
  pub socket_down : l.closed l.socket_disconnected ≡ true
  pub no_watcher : (w : ℕ) → l.watchers w ≡ ended
  pub says_connected : is_connected l ≡ true
  pub not_connecting : l.connecting ≡ false

-- Actions other than a new `ConnectToURI`.
abbrev pub NoStart : Action → Type 0
NoStart a = (dialled : Bool) → a ≢ start dialled

lose-IsUnnoticed : (l : Client) → IsUnnoticed l → IsUnnoticed (record l { alive = false })
unfolding is_connected
lose-IsUnnoticed l v = record {
  socket_down = v.socket_down;
  no_watcher = v.no_watcher;
  says_connected = v.says_connected;
  not_connecting = v.not_connecting;
}

step-IsUnnoticed :
    (l : Client) (a : Action) {m : Client}
    → IsUnnoticed l
    → NoStart a
    → step l a ≡ some m
    → IsUnnoticed m
unfolding step
step-IsUnnoticed l (start dialled) v other h = absurd (other dialled refl)
step-IsUnnoticed l (finish well) v other h = absurd (ground (arith, v.not_connecting))
step-IsUnnoticed l lose {m} v other h =
    subst IsUnnoticed (some-injective _ _ h) (lose-IsUnnoticed l v)
step-IsUnnoticed l disconnect {m} v other h =
    subst IsUnnoticed (some-injective _ _ (rw (v.socket_down, socket_disconnect) at h)) v
step-IsUnnoticed l listen_returns v other h = absurd (ground (arith, v.socket_down))
step-IsUnnoticed l (watcher w) v other h = absurd (ground (arith, v.no_watcher w))

run-IsUnnoticed :
    (l : Client) (actions : List Action) {m : Client}
    → IsUnnoticed l
    → All NoStart actions
    → run l actions ≡ some m
    → IsUnnoticed m
unfolding run
run-IsUnnoticed l [] v others h = subst IsUnnoticed (some-injective _ _ h) v
run-IsUnnoticed l (a ∷ rest) v others h = elim (Option-cases (step l a)) [
  | inl stuck ↦ absurd (ground (arith, stuck))
  | inr (m, e) ↦
      run-IsUnnoticed m rest (step-IsUnnoticed l a v others.0 e) others.1 (rw (e, run) at h)
]

-- If the connection is lost and its watcher ends while `ConnectToURI` is still to make the client's
-- new channel, `ConnectToURI` goes on to succeed, and then, whatever happens short of another
-- `ConnectToURI`, `IsConnected` stays true with no connection and nobody to notice.
pub early_loss-IsUnnoticed :
    (l m : Client) (actions : List Action)
    → l.closed l.socket_disconnected ≡ true
    → ((w : ℕ) → l.watchers w ≡ ended)
    → l.closed l.next ≡ false
    → All NoStart actions
    → run (end_connect true l) actions ≡ some m
    → IsUnnoticed m
early_loss-IsUnnoticed l m actions down alone fresh others h =
    run-IsUnnoticed (end_connect true l) actions connected others h
  where
    connected : IsUnnoticed (end_connect true l)
    connected =
        unfold end_connect is_connected in
        record {
          socket_down = down;
          no_watcher = alone;
          says_connected = rw fresh;
          not_connecting = refl;
        }
