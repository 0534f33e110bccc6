-- ===== src/Client/Lifecycle/Panic.antt =====
-- No close of a closed channel, where a new connection waits for the last one's watcher.
use mathlib.Core.Path.{subst}
use mathlib.Core.Option.{some-injective}
use go_libvirt.Base.{
  ◌≡◌, refl, Bool, true, false, ◌&&◌, ◌||◌, none, some, Option-cases, Bool-cases, inl, inr, List,
  [], ◌∷◌, arith, if◌then◌else◌,
}
use go_libvirt.Client.Lifecycle.Sound.{
  all_ended, IsSound, close-IsSound, start-IsSound, lose-IsSound, disconnect-IsSound,
  finish-IsSound, watch-IsSound,
}
use go_libvirt.Rpc.Route.{Router}
use go_libvirt.Client.Lifecycle.{
  Client, Action, start, finish, lose, disconnect, listen_returns, watcher, step, run,
  new_with_dialer,
}

-- Whether `ConnectToURI` is called only when all watchers of earlier connections have ended.
unfoldable pub patient : Client → List Action → Bool
unfolding step
patient l [] = true
patient l (a ∷ rest) =
    let later : Bool = elim (step l a) [ none ↦ true | some m ↦ patient m rest ] in
    elim a [ start dialled ↦ all_ended l.spawned l.watchers && later | _ ↦ later ]

unless_some : {A : Type 0} (b : Bool) {x m : A} → (if b then none else some x) ≡ some m → x ≡ m
unless_some true h = cc
unless_some false h = some-injective _ _ h

when_some : {A : Type 0} (b : Bool) {x m : A} → (if b then some x else none) ≡ some m → x ≡ m
when_some true h = some-injective _ _ h
when_some false h = cc

-- Before a `start`, all watchers have ended.
abbrev IsCalm : Client → Action → Type 0
IsCalm l (start dialled) = all_ended l.spawned l.watchers ≡ true
IsCalm l _ = Unit

step-IsSound :
    (l : Client) (a : Action) {m : Client} → IsSound l → IsCalm l a → step l a ≡ some m → IsSound m
unfolding step
step-IsSound l (start dialled) v calm h =
    subst IsSound (unless_some l.connecting h) (start-IsSound dialled l v calm)
step-IsSound l (finish well) v calm h =
    subst IsSound (when_some l.connecting h) (finish-IsSound well l v)
step-IsSound l lose v calm h = subst IsSound (some-injective _ _ h) (lose-IsSound l v)
step-IsSound l disconnect v calm h = subst IsSound (some-injective _ _ h) (disconnect-IsSound l v)
step-IsSound l listen_returns v calm h =
    elim (Bool-cases (l.alive || l.closed l.socket_disconnected)) [
      | inl e ↦ absurd (ground (arith, e, h))
      | inr e ↦ subst IsSound (some-injective _ _ (rw e at h)) (
          close-IsSound l.socket_disconnected l v v.socket_made (ground (arith, e))
            (λ same. absurd (v.apart same)))
    ]
step-IsSound l (watcher w) v calm h = watch-IsSound w l v h

patient-cons :
    (l : Client) (a : Action) (rest : List Action) {m : Client}
    → patient l (a ∷ rest) ≡ true
    → step l a ≡ some m
    → IsCalm l a × (patient m rest ≡ true)
unfolding patient step
patient-cons l (start dialled) rest calm h =
    let both = rw (h, patient) at calm in (ground (arith, both), ground (arith, both))
patient-cons l (finish well) rest calm h = (tt, rw (h, patient) at calm)
patient-cons l lose rest {m} calm h =
    (tt, subst (λ x. patient x rest ≡ true) (some-injective _ _ h) calm)
patient-cons l disconnect rest {m} calm h =
    (tt, subst (λ x. patient x rest ≡ true) (some-injective _ _ h) calm)
patient-cons l listen_returns rest calm h = (tt, rw (h, patient) at calm)
patient-cons l (watcher w) rest calm h = (tt, rw (h, patient) at calm)

run-IsSound :
    (l : Client) (actions : List Action) {m : Client}
    → IsSound l
    → patient l actions ≡ true
    → run l actions ≡ some m
    → IsSound m
unfolding run
run-IsSound l [] v calm h = subst IsSound (some-injective _ _ h) v
run-IsSound l (a ∷ rest) v calm h = elim (Option-cases (step l a)) [
  | inl stuck ↦ absurd (ground (arith, stuck))
  | inr (n, e) ↦
      let (now, later) = patient-cons l a rest calm e in
      run-IsSound n rest (step-IsSound l a v now e) later (rw (e, run) at h)
]

new_with_dialer-IsSound : (router : Router) → IsSound (new_with_dialer router)
new_with_dialer-IsSound router = record {
  fine = refl;
  fresh = λ j less. ground (arith, less);
  socket_made = omega arith;
  made = omega arith;
  apart = λ e. omega (arith, e);
  unspawned = λ j less. refl;
  one = λ w u x y. absurd (x refl);
  opened = λ w x. cc;
}

-- From the start, in every order of the goroutines' steps: if `ConnectToURI` is called only when
-- `waitAndDisconnect` of every earlier connection has returned, no channel is closed twice.
pub no_double_close :
    (router : Router) (actions : List Action) {m : Client}
    → patient (new_with_dialer router) actions ≡ true
    → run (new_with_dialer router) actions ≡ some m
    → m.panicked ≡ false
no_double_close router actions calm h =
    (run-IsSound (new_with_dialer router) actions (new_with_dialer-IsSound router) calm h).fine
