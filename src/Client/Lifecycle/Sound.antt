-- ===== src/Client/Lifecycle/Sound.antt =====
-- An invariant of the client's channels, and that every step keeps it.
use mathlib.Core.Path.{subst}
use mathlib.Core.Option.{some-injective}
use go_libvirt.Base.{
  ℕ, zero, suc, ◌<◌, ◌≤◌, ◌≡◌, ◌≢◌, refl, sym, ◌∙◌, Bool, true, false, ◌&&◌, some, Bool-cases, inl,
  inr, arith, ◌==◌, ==_iff, ltb, ltb→lt, ltb_false→le, if◌then◌else◌,
}
use go_libvirt.Client.Lifecycle.{
  Client, Watcher, started, waiting, removed, cleaned, closing, ended, watch, start_connect,
  end_connect, socket_connect, socket_disconnect, close_channel, set_watcher, remove_streams,
  deregister_calls,
}

abbrev pub has_ended : Watcher → Bool
has_ended ended = true
has_ended _ = false

-- Whether the first `n` watchers have ended.
abbrev pub all_ended : ℕ → (ℕ → Watcher) → Bool
all_ended zero f = true
all_ended (suc n) f = has_ended (f n) && all_ended n f

pub record IsSound (l : Client) : Type 0 where
  pub fine : l.panicked ≡ false
  pub fresh : (j : ℕ) → l.next ≤ j → l.closed j ≡ false
  pub socket_made : l.socket_disconnected < l.next
  pub made : l.disconnected < l.next
  pub apart : l.socket_disconnected ≢ l.disconnected
  pub unspawned : (j : ℕ) → l.spawned ≤ j → l.watchers j ≡ ended
  pub one : (w v : ℕ) → l.watchers w ≢ ended → l.watchers v ≢ ended → w ≡ v
  pub opened : (w : ℕ) → l.watchers w ≡ closing → l.closed l.disconnected ≡ false

has_ended_lem : (p : Watcher) → has_ended p ≡ true → p ≡ ended
has_ended_lem p h = ground (arith, h)

all_ended_lem : (n : ℕ) (f : ℕ → Watcher) → all_ended n f ≡ true → (j : ℕ) → j < n → f j ≡ ended
all_ended_lem zero f h j less = absurd (omega arith)
all_ended_lem (suc n) f h j less = elim (Bool-cases (j == n)) [
  | inl e ↦ has_ended_lem (f j) (rw ((==_iff j n).0 e) (ground (arith, h)))
  | inr e ↦ all_ended_lem n f (ground (arith, h)) j (ground (arith, ==_iff j n, e, less))
]

set_watcher-IsSound :
    (w : ℕ) (phase : Watcher) (l : Client)
    → IsSound l
    → l.watchers w ≢ ended
    → (phase ≡ closing → l.closed l.disconnected ≡ false)
    → IsSound (set_watcher w phase l)
unfolding set_watcher
set_watcher-IsSound w phase l v runs h = record {
  fine = v.fine;
  fresh = v.fresh;
  socket_made = v.socket_made;
  made = v.made;
  apart = v.apart;
  unspawned = λ j less. ground (arith, ==_iff j w, v.unspawned j less);
  one = λ a b x y. v.one a b (still a x) (still b y);
  opened = λ a x. ground (arith, ==_iff a w, v.opened a);
}
  where
    still : (a : ℕ) → (set_watcher w phase l).watchers a ≢ ended → l.watchers a ≢ ended
    still a x = ground (arith, ==_iff a w)

pub close-IsSound :
    (ch : ℕ) (l : Client)
    → IsSound l
    → ch < l.next
    → l.closed ch ≡ false
    → (ch ≡ l.disconnected → (w : ℕ) → l.watchers w ≢ closing)
    → IsSound (close_channel ch l)
unfolding close_channel
close-IsSound ch l v made up nobody = rw up record {
  fine = v.fine;
  fresh = λ j less. ground (arith, ==_iff j ch, v.fresh j less);
  socket_made = v.socket_made;
  made = v.made;
  apart = v.apart;
  unspawned = v.unspawned;
  one = v.one;
  opened = λ w x. elim (Bool-cases (l.disconnected == ch)) [
    | inl e ↦ absurd (nobody (sym ((==_iff l.disconnected ch).0 e)) w x)
    | inr e ↦ rw e (v.opened w x)
  ];
}

pub start-IsSound :
    (dialled : Bool) (l : Client)
    → IsSound l
    → all_ended l.spawned l.watchers ≡ true
    → IsSound (start_connect dialled l)
unfolding start_connect socket_connect set_watcher
start-IsSound dialled l v idle = elim (Bool-cases (l.closed l.socket_disconnected && dialled)) [
  | inl e ↦ rw e record {
    fine = v.fine;
    fresh = λ j less. v.fresh j (omega arith);
    socket_made = omega arith;
    made = omega (arith, v.made);
    apart = λ same. omega (arith, v.made, same);
    unspawned = λ j less. ground (arith, ==_iff j l.spawned, v.unspawned j, less);
    one = λ w u x y. only w x ∙ sym (only u y);
    opened = λ w x. ground (arith, alone w, ==_iff w l.spawned);
  }
  | inr e ↦ rw e v
]
  where
    alone : (w : ℕ) → l.watchers w ≡ ended
    alone w = elim (Bool-cases (ltb w l.spawned)) [
      | inl e ↦ all_ended_lem l.spawned l.watchers idle w (ltb→lt _ _ e)
      | inr e ↦ v.unspawned w (ltb_false→le _ _ e)
    ]

    only : (w : ℕ) → (if w == l.spawned then started else l.watchers w) ≢ ended → w ≡ l.spawned
    only w x = ground (arith, alone w, ==_iff w l.spawned)

pub lose-IsSound : (l : Client) → IsSound l → IsSound (record l { alive = false })
lose-IsSound l v = record {
  fine = v.fine;
  fresh = v.fresh;
  socket_made = v.socket_made;
  made = v.made;
  apart = v.apart;
  unspawned = v.unspawned;
  one = v.one;
  opened = v.opened;
}

pub disconnect-IsSound : (l : Client) → IsSound l → IsSound (socket_disconnect l)
unfolding socket_disconnect
disconnect-IsSound l v = elim (Bool-cases (l.closed l.socket_disconnected)) [
  | inl e ↦ rw e v
  | inr e ↦ rw e (lose-IsSound l v)
]

pub finish-IsSound : (well : Bool) (l : Client) → IsSound l → IsSound (end_connect well l)
unfolding end_connect socket_disconnect
finish-IsSound true l v = record {
  fine = v.fine;
  fresh = λ j less. v.fresh j (omega arith);
  socket_made = omega (arith, v.socket_made);
  made = omega arith;
  apart = λ same. omega (arith, v.socket_made, same);
  unspawned = v.unspawned;
  one = v.one;
  opened = λ w x. v.fresh l.next (omega arith);
}
finish-IsSound false l v =
    disconnect-IsSound (record l { connecting = false })
      (record {
        fine = v.fine;
        fresh = v.fresh;
        socket_made = v.socket_made;
        made = v.made;
        apart = v.apart;
        unspawned = v.unspawned;
        one = v.one;
        opened = v.opened;
      })

streams-IsSound : (l : Client) → IsSound l → IsSound (remove_streams l)
streams-IsSound l v = record {
  fine = v.fine;
  fresh = v.fresh;
  socket_made = v.socket_made;
  made = v.made;
  apart = v.apart;
  unspawned = v.unspawned;
  one = v.one;
  opened = v.opened;
}

calls-IsSound : (l : Client) → IsSound l → IsSound (deregister_calls l)
calls-IsSound l v = record {
  fine = v.fine;
  fresh = v.fresh;
  socket_made = v.socket_made;
  made = v.made;
  apart = v.apart;
  unspawned = v.unspawned;
  one = v.one;
  opened = v.opened;
}

close-set_watcher :
    (ch w : ℕ) (phase : Watcher) (l : Client)
    → l.closed ch ≡ false
    → close_channel ch (set_watcher w phase l) ≡ set_watcher w phase (close_channel ch l)
unfolding close_channel set_watcher
close-set_watcher ch w phase l up = rw up

last_close-IsSound :
    (w : ℕ) (l : Client)
    → IsSound l
    → l.watchers w ≡ closing
    → IsSound (set_watcher w ended (close_channel l.disconnected l))
last_close-IsSound w l v e =
    subst IsSound (close-set_watcher l.disconnected w ended l (v.opened w e)) (
      close-IsSound l.disconnected (set_watcher w ended l)
        (set_watcher-IsSound w ended l v (λ x. cc) (λ x. cc)) (unfold set_watcher in v.made)
        (unfold set_watcher in v.opened w e) (λ same u. alone u))
  where
    alone : (u : ℕ) → (set_watcher w ended l).watchers u ≢ closing
    alone u x =
        unfold set_watcher in
        elim (Bool-cases (u == w)) [
          | inl same ↦ absurd (ground (arith, same, x))
          | inr other ↦ absurd (
              ground (
                arith,
                other,
                x,
                ==_iff u w,
                v.one u w (λ y. absurd (ground (arith, other, x, y))) (λ y. cc),
              ))
        ]

-- What `waitAndDisconnect` does keeps the invariant, wherever it stands.
pub watch-IsSound : (w : ℕ) (l : Client) {m : Client} → IsSound l → watch w l ≡ some m → IsSound m
unfolding watch
watch-IsSound w l {m} v h = at_phase (l.watchers w) refl
  where
    to : {x : Client} → IsSound x → some x ≡ some m → IsSound m
    to s e = subst IsSound (some-injective _ _ e) s

    at_phase : (p : Watcher) → l.watchers w ≡ p → IsSound m
    at_phase started e =
        to (set_watcher-IsSound w (waiting l.socket_disconnected) l v (λ x. cc) (λ x. cc))
          (rw (e, watch) at h)
    at_phase (waiting ch) e = elim (Bool-cases (l.closed ch)) [
      | inl shut ↦
          to (set_watcher-IsSound w removed _ (streams-IsSound l v) (λ x. cc) (λ x. cc))
            (rw (shut, if◌then◌else◌) at (rw (e, watch) at h))
      | inr up ↦ absurd (ground (arith, e, up, h))
    ]
    at_phase removed e =
        to (set_watcher-IsSound w cleaned _ (calls-IsSound l v) (λ x. cc) (λ x. cc))
          (rw (e, watch) at h)
    at_phase cleaned e = elim (Bool-cases (l.closed l.disconnected)) [
      | inl shut ↦
          to (set_watcher-IsSound w ended l v (λ x. cc) (λ x. cc)) (rw shut at (rw (e, watch) at h))
      | inr up ↦
          to (set_watcher-IsSound w closing l v (λ x. cc) (λ x. up)) (rw up at (rw (e, watch) at h))
    ]
    at_phase closing e = to (last_close-IsSound w l v e) (rw (e, watch) at h)
    at_phase ended e = absurd (ground (arith, e, h))
