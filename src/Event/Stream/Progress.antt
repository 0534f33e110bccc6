-- ===== src/Event/Stream/Progress.antt =====
-- Who waits, and what the end of a stream does.
use mathlib.Core.Path.{ap₂, subst}
use go_libvirt.Base.{
  ℕ, ◌≡◌, ◌≢◌, ◌⊎◌, inl, inr, ◌∙◌, All, true, false, none, some, List, [], ◌∷◌, ◌++◌, arith,
  Bool-cases,
}
use go_libvirt.Base.Int.{ℤ}
use go_libvirt.Event.Stream.{
  Event, Stream, Action, push, push_dropped, len, recv, shut, exit, Output, nothing, finished,
  new_stream, step, run, shutdown,
}
use go_libvirt.Event.Stream.Fifo.{run_nil, run_cons, received, received_cons}

-- `process` returns only after a shutdown.
pub record IsWell (s : Stream) : Type 0 where
  pub closed_cancelled : s.closed ≡ true → s.cancelled ≡ true

step-IsWell :
    (s s' : Stream) (a : Action) (o : Output) → IsWell s → step s a ≡ some (s', o) → IsWell s'
unfolding step
step-IsWell s s' (push e) o v h = ground arith
step-IsWell s s' recv o v h = ground arith
step-IsWell s s' _ o v h = ground arith

pub run-IsWell :
    (actions : List Action) (s : Stream) {t : Stream} {os : List Output}
    → IsWell s
    → run s actions ≡ some (t, os)
    → IsWell t
run-IsWell [] s v h = ground (arith, run_nil s h)
run-IsWell (a ∷ rest) s v h =
    let (s', o, os', first, later, same) = run_cons s a rest h in
    run-IsWell rest s' (step-IsWell s s' a o v first) later

new_stream-IsWell : (program : ℕ) (id : ℤ) → IsWell (new_stream program id)
unfolding new_stream
new_stream-IsWell program id = record { closed_cancelled = λ e. e }

push_ready_now :
    (s : Stream) (e : Event)
    → IsWell s
    → (step s (push e) ≢ none) ⊎ (step s (push_dropped e) ≢ none)
unfolding step
push_ready_now s e v = elim (Bool-cases s.closed) [
  | inl c ↦ inr (ground arith)
  | inr c ↦ inl (ground arith)
]

-- At any moment of any history of a new stream one of the two cases of `Push` is ready: `process`
-- takes the event, or the context is cancelled.
push_ready :
    (program : ℕ) (id : ℤ) (actions : List Action) (e : Event) {s : Stream} {os : List Output}
    → run (new_stream program id) actions ≡ some (s, os)
    → (step s (push e) ≢ none) ⊎ (step s (push_dropped e) ≢ none)
push_ready program id actions e {s} h =
    let v = run-IsWell actions (new_stream program id) (new_stream-IsWell program id) h in
    push_ready_now s e v

step-closed :
    (s s' : Stream) (a : Action) (o : Output)
    → IsWell s
    → s.closed ≡ true
    → step s a ≡ some (s', o)
    → (s' ≡ s) × (received (o ∷ []) ≡ []) × (a ≢ len)
unfolding step shutdown
step-closed s s' (push e) o v c h = absurd (ground arith)
step-closed s s' (push_dropped e) o v c h = (ground arith, ground arith, λ x. cc)
step-closed s s' len o v c h = absurd (ground arith)
step-closed s s' recv o v c h = (ground arith, ground arith, λ x. cc)
step-closed s s' shut o v c h = (ground (arith, v.closed_cancelled c), ground arith, λ x. cc)
step-closed s s' exit o v c h = absurd (ground arith)

-- Once `process` has returned, whatever happens leaves the stream as it is and delivers no event,
-- and a call of `Len` is never answered.
pub run-closed :
    (actions : List Action) (s : Stream) {t : Stream} {os : List Output}
    → IsWell s
    → s.closed ≡ true
    → run s actions ≡ some (t, os)
    → (t ≡ s) × (received os ≡ []) × All (λ a. a ≢ len) actions
run-closed [] s v c h = let (same, empty) = run_nil s h in (same, rw empty, tt)
run-closed (a ∷ rest) s {t} v c h =
    let (s', o, os', first, later, same) = run_cons s a rest h in
    let (kept, no_event, not_len) = step-closed s s' a o v c first in
    let (end, none_later, no_len) =
      run-closed rest s v c (subst (λ x. run x rest ≡ some (t, os')) kept later) in
    (
      end,
      rw same (received_cons o os' ∙ ap₂ (λ x y. x ++ y) no_event none_later),
      (not_len, no_len),
    )

-- A shutdown of a running stream can be followed by the return of `process`, and then a subscriber
-- that receives is told the end, also while events wait in the queue.
pub shutdown_ends :
    (s : Stream)
    → s.closed ≡ false
    → run s (shut ∷ exit ∷ recv ∷ [])
      ≡ some (record s { cancelled = true; closed = true }, nothing ∷ nothing ∷ finished ∷ [])
unfolding run step
shutdown_ends s c = ground arith
