-- ===== src/Client/Lifecycle.antt =====
-- The life of a connection: Connect, Disconnect and listenAndRoute of socket/socket.go with
-- ConnectToURI, Disconnect and waitAndDisconnect of libvirt.go, as the steps of their goroutines.
use go_libvirt.Base.{
  ℕ, suc, ◌+◌, Bool, true, false, not, Option, none, some, List, [], ◌∷◌, ◌==◌, ◌||◌, ◌&&◌,
  if◌then◌else◌,
}
use go_libvirt.Rpc.Callbacks.{deregister_all}
use go_libvirt.Rpc.Events.{remove_all_streams}
use go_libvirt.Rpc.Route.{Router}
pub mod Unnoticed
mod Sound
pub mod Panic

-- Where a goroutine of `waitAndDisconnect` stands: before it reads `l.socket.Disconnected()`,
-- waiting on the channel it got, behind `removeAllStreams`, behind `deregisterAll`, before the
-- `close`, and at its end.
pub data Watcher : Type 0 where
  started : Watcher
  waiting : ℕ → Watcher
  removed : Watcher
  cleaned : Watcher
  closing : Watcher
  ended : Watcher

-- Channels are numbers, those from `next` on not made yet. `socket_disconnected` and `disconnected`
-- are the fields of that name of the socket and of the client; `alive`, whether the connection is
-- still open for `listen`; `connecting`, whether `ConnectToURI` is in `initLibvirtComms`; `spawned`,
-- how many watchers there have been.
pub record Client : Type 0 where
  pub next : ℕ
  pub closed : ℕ → Bool
  pub socket_disconnected : ℕ
  pub disconnected : ℕ
  pub alive : Bool
  pub connecting : Bool
  pub spawned : ℕ
  pub watchers : ℕ → Watcher
  pub router : Router
  pub panicked : Bool

-- `close(ch)`.
unfoldable pub close_channel : ℕ → Client → Client
close_channel ch l =
    if l.closed ch
    then record l { panicked = true }
    else record l { closed = λ j. if j == ch then true else l.closed j }

unfoldable pub set_watcher : ℕ → Watcher → Client → Client
set_watcher w phase l = record l { watchers = λ j. if j == w then phase else l.watchers j }

-- `NewWithDialer`, with `New` of the socket: both fields are closed channels.
abbrev pub new_with_dialer : Router → Client
new_with_dialer router = record {
  next = 2;
  closed = λ j. j == 0 || j == 1;
  socket_disconnected = 0;
  disconnected = 1;
  alive = false;
  connecting = false;
  spawned = 0;
  watchers = λ j. ended;
  router = router;
  panicked = false;
}

-- `IsConnected`.
unfoldable pub is_connected : Client → Bool
is_connected l = not (l.closed l.disconnected)

-- `Socket.Connect`: whether it succeeds, for a `Dial` that does or does not. Then `listenAndRoute`
-- runs on a new channel.
unfoldable pub socket_connect : Bool → Client → Bool × Client
socket_connect dialled l =
    if l.closed l.socket_disconnected && dialled
    then (true, record l { next = suc l.next; socket_disconnected = l.next; alive = true })
    else (false, l)

-- `Socket.Disconnect`, up to its wait for `listenAndRoute`, for a `Close` with no error.
unfoldable pub socket_disconnect : Client → Client
socket_disconnect l = if l.closed l.socket_disconnected then l else record l { alive = false }

-- `ConnectToURI` up to `initLibvirtComms`.
unfoldable pub start_connect : Bool → Client → Client
unfolding socket_connect set_watcher
start_connect dialled l =
    let (connected, m) = socket_connect dialled l in
    if connected
    then record (set_watcher m.spawned started m) { connecting = true; spawned = suc m.spawned }
    else m

-- The rest of it, for an `initLibvirtComms` that succeeds or fails.
unfoldable pub end_connect : Bool → Client → Client
unfolding socket_disconnect
end_connect true l = record l { connecting = false; next = suc l.next; disconnected = l.next }
end_connect false l = socket_disconnect (record l { connecting = false })

-- `l.removeAllStreams()` and `l.deregisterAll()`.
abbrev pub remove_streams : Client → Client
remove_streams l = record l {
  router = record { calls = l.router.calls; events = remove_all_streams l.router.events };
}

abbrev pub deregister_calls : Client → Client
deregister_calls l = record l {
  router = record { calls = deregister_all l.router.calls; events = l.router.events };
}

-- A step of `waitAndDisconnect`, `none` while it waits.
unfoldable pub watch : ℕ → Client → Option Client
unfolding set_watcher close_channel
watch w l = elim (l.watchers w) [
  | started ↦ some (set_watcher w (waiting l.socket_disconnected) l)
  | waiting ch ↦ if l.closed ch then some (set_watcher w removed (remove_streams l)) else none
  | removed ↦ some (set_watcher w cleaned (deregister_calls l))
  | cleaned ↦ some (set_watcher w (if l.closed l.disconnected then ended else closing) l)
  | closing ↦ some (set_watcher w ended (close_channel l.disconnected l))
  | ended ↦ none
]

-- What can happen next. `lose` is the end of the connection by the peer or the network, `disconnect`
-- the call of `Disconnect` behind its request, and `listen_returns` the end of `listenAndRoute`.
pub data Action : Type 0 where
  start : Bool → Action
  finish : Bool → Action
  lose : Action
  disconnect : Action
  listen_returns : Action
  watcher : ℕ → Action

unfoldable pub step : Client → Action → Option Client
unfolding start_connect end_connect watch close_channel socket_disconnect
step l (start dialled) = if l.connecting then none else some (start_connect dialled l)
step l (finish well) = if l.connecting then some (end_connect well l) else none
step l lose = some (record l { alive = false })
step l disconnect = some (socket_disconnect l)
step l listen_returns =
    if l.alive || l.closed l.socket_disconnected
    then none
    else some (close_channel l.socket_disconnected l)
step l (watcher w) = watch w l

unfoldable pub run : Client → List Action → Option Client
unfolding step
run l [] = some l
run l (a ∷ rest) = elim (step l a) [ none ↦ none | some m ↦ run m rest ]
