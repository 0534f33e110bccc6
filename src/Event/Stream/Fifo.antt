-- ===== src/Event/Stream/Fifo.antt =====
-- Events are received in the order of the pushes, each once.
use go_libvirt.Base.{
  ◌≡◌, refl, sym, ap, ◌∙◌, some, List, [], ◌∷◌, ◌++◌, arith, Option-cases, inl, inr, append_assoc,
  append-nil,
}
use go_libvirt.Event.Stream.{
  Event, Stream, Action, push, push_dropped, len, recv, shut, exit, Output, got, step, run,
}

-- The events that `Push` handed over, and those that were received, in order.
abbrev pub accepted : List Action → List Event
accepted [] = []
accepted (push e ∷ rest) = e ∷ accepted rest
accepted (a ∷ rest) = accepted rest

abbrev pub received : List Output → List Event
received [] = []
received (got e ∷ os) = e ∷ received os
received (o ∷ os) = received os

-- One action moves events from the one list through the queue to the other.
step_fifo :
    (s s' : Stream) (a : Action) (o : Output)
    → step s a ≡ some (s', o)
    → received (o ∷ []) ++ s'.queue ≡ s.queue ++ accepted (a ∷ [])
unfolding step
step_fifo s s' (push e) o h = ground arith
step_fifo s s' (push_dropped e) o h = ground (arith, append-nil s.queue)
step_fifo s s' len o h = ground (arith, append-nil s.queue)
step_fifo s s' recv o h = ground (arith, append-nil s.queue)
step_fifo s s' shut o h = ground (arith, append-nil s.queue)
step_fifo s s' exit o h = ground (arith, append-nil s.queue)

pub run_nil :
    (s : Stream) {t : Stream} {os : List Output} → run s [] ≡ some (t, os) → (t ≡ s) × (os ≡ [])
unfolding run
run_nil s h = ground arith

pub run_cons :
    (s : Stream) (a : Action) (rest : List Action) {t : Stream} {os : List Output}
    → run s (a ∷ rest) ≡ some (t, os)
    → (s' : Stream) × (o : Output) × (os' : List Output) × (step s a ≡ some (s', o))
      × (run s' rest ≡ some (t, os'))
      × (os ≡ o ∷ os')
unfolding run
run_cons s a rest h = elim (Option-cases (step s a)) [
  | inl e ↦ absurd (ground arith)
  | inr ((s', o), e) ↦ elim (Option-cases (run s' rest)) [
    | inl f ↦ absurd (ground arith)
    | inr ((t', os'), f) ↦ (s', o, os', e, ground arith, ground arith)
  ]
]

pub received_cons :
    (o : Output) (os : List Output) → received (o ∷ os) ≡ received (o ∷ []) ++ received os
received_cons (got e) os = refl
received_cons _ os = refl

accepted_cons :
    (a : Action) (rest : List Action) → accepted (a ∷ rest) ≡ accepted (a ∷ []) ++ accepted rest
accepted_cons (push e) rest = refl
accepted_cons _ rest = refl

-- Whatever the order of the goroutines: what was received, and then what is still in the queue, is
-- what was in the queue at first and then what was pushed, in order. So no event is lost, made up,
-- repeated or overtaken, but for those still in the queue when the stream ends.
pub run_fifo :
    (actions : List Action) (s : Stream) {t : Stream} {os : List Output}
    → run s actions ≡ some (t, os)
    → received os ++ t.queue ≡ s.queue ++ accepted actions
run_fifo [] s h =
    let (same, none_yet) = run_nil s h in rw (same, none_yet) (sym (append-nil s.queue))
run_fifo (a ∷ rest) s {t} {os} h =
    let (s', o, os', first, later, same) = run_cons s a rest h in
    let one = step_fifo s s' a o first in
    let more = run_fifo rest s' later in
    rw (same, received_cons o os', accepted_cons a rest)
      (append_assoc (received (o ∷ [])) (received os') t.queue
        ∙ ap (λ l. received (o ∷ []) ++ l) more
        ∙ sym (append_assoc (received (o ∷ [])) s'.queue (accepted rest))
        ∙ ap (λ l. l ++ accepted rest) one
        ∙ append_assoc s.queue (accepted (a ∷ [])) (accepted rest))
