-- ===== src/Tests/Life.antt =====
-- The life of a connection, at concrete inputs.
use go_libvirt.Base.{◌≡◌, refl, true, false, none, some, List, [], ◌∷◌, if◌then◌else◌, ◌==◌, ◌||◌}
use go_libvirt.Rpc.Callbacks.Registry.{no_calls}
use go_libvirt.Event.Stream.{new_stream}
use go_libvirt.Base.Int.{pos}
use go_libvirt.Rpc.Route.{Router}
use go_libvirt.Client.Lifecycle.{
  Client, waiting, ended, Action, start, finish, lose, listen_returns, watcher, run,
  new_with_dialer, end_connect, step,
}
use go_libvirt.Client.Lifecycle.Unnoticed.{IsUnnoticed, early_loss-IsUnnoticed}
use go_libvirt.Client.Lifecycle.Panic.{patient, no_double_close}

abbrev router : Router
router = record {
  calls = no_calls;
  events = record { table = []; heap = λ r. new_stream 0 (pos 0) };
}

-- A client whose connection is established, its watcher waiting.
abbrev established : Client
established = record {
  next = 4;
  closed = λ j. j == 0 || j == 1;
  socket_disconnected = 2;
  disconnected = 3;
  alive = true;
  connecting = false;
  spawned = 1;
  watchers = λ j. if j == 0 then waiting 2 else ended;
  router = router;
  panicked = false;
}

-- The state where the connection was lost and its watcher ended inside `ConnectToURI`.
abbrev lost_early : Client
lost_early = record {
  next = 3;
  closed = λ j. if j == 2 then true else (j == 0 || j == 1);
  socket_disconnected = 2;
  disconnected = 1;
  alive = false;
  connecting = true;
  spawned = 1;
  watchers = λ j. ended;
  router = router;
  panicked = false;
}

early_loss-IsUnnoticed_example :
    IsUnnoticed (record (end_connect true lost_early) { alive = false })
early_loss-IsUnnoticed_example =
    early_loss-IsUnnoticed lost_early (record (end_connect true lost_early) { alive = false })
      (lose ∷ []) refl (λ w. refl) refl ((λ b. cc), tt) (unfold run step end_connect in refl)

abbrev once : List Action
once =
    start true
    ∷ watcher 0
    ∷ finish true
    ∷ lose
    ∷ listen_returns
    ∷ watcher 0
    ∷ watcher 0
    ∷ watcher 0
    ∷ watcher 0
    ∷ start true
    ∷ []

-- The state that a run of the actions reaches, the established one if it stops.
abbrev reached : List Action → Client
reached actions = elim (run (new_with_dialer router) actions) [ none ↦ established | some m ↦ m ]

no_double_close_example : (reached once).panicked ≡ false
no_double_close_example =
    no_double_close router once {m = reached once} (unfold patient in refl) (unfold run in refl)

-- Two connections in a row, the second before the first one's watcher is done: both watchers find
-- the client's channel open, and both close it.
abbrev two_watchers : List Action
two_watchers =
    start true
    ∷ watcher 0
    ∷ lose
    ∷ listen_returns
    ∷ watcher 0
    ∷ watcher 0
    ∷ finish true
    ∷ start true
    ∷ watcher 1
    ∷ finish true
    ∷ lose
    ∷ listen_returns
    ∷ watcher 1
    ∷ watcher 1
    ∷ watcher 0
    ∷ watcher 1
    ∷ watcher 0
    ∷ watcher 1
    ∷ []

two_watchers_run : (reached two_watchers).panicked ≡ true
unfolding run
two_watchers_run = refl
