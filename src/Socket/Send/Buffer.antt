-- ===== src/Socket/Send/Buffer.antt =====
-- What the buffered writer does with the bytes that it is given.
use mathlib.Core.Path.{subst}
use go_libvirt.Base.{
  ℕ, ◌+◌, ◌-◌, ◌==◌, leb, ◌≡◌, ◌≢◌, refl, sym, ap, ◌∙◌, Bool, true, false, Option, none, some, List,
  [], ◌∷◌, ◌++◌, arith, length, take, drop, take-append-drop, append_assoc, append-nil, Bool-cases,
  inl, inr, if◌then◌else◌,
}
use go_libvirt.Base.Text.{Bytes}
use go_libvirt.Socket.Send.{
  Writer, SendError, write_error, writer_size, hand_over, write_result, write_empty, write_over,
  write, flush, write_payload, flush_unless, payload_unless, payload_bytes,
}

-- A call that is to add these bytes: what the connection has taken is a front of them, behind those in
-- the buffer; without an error the rest is in the buffer, and with one no call to come does anything.
pub record Writes (w : Writer) (bs : Bytes) (run : Option SendError × Writer) : Type 0 where
  pub taken : Bytes
  pub lost : Bytes
  pub sent : run.1.sent ≡ w.sent ++ taken
  pub splits : taken ++ lost ≡ w.buffered ++ bs
  pub kept : run.0 ≡ none → (run.1.broken ≡ false) × (run.1.buffered ≡ lost)
  pub failed : run.0 ≢ none → run.1.broken ≡ true

length_zero : (xs : Bytes) → length xs == 0 ≡ true → xs ≡ []
length_zero [] h = refl
length_zero (x ∷ xs) h = absurd (ground (arith, h))

-- A call of the connection's `Write`.
handed_over :
    (w : Writer) (bs : Bytes)
    → w.broken ≡ false
    → (taken : Bytes) × (lost : Bytes) × ((hand_over w bs).sent ≡ w.sent ++ taken)
      × (taken ++ lost ≡ bs)
      × ((hand_over w bs).broken ≡ false → (hand_over w bs).buffered ≡ [])
      × ((hand_over w bs).broken ≡ false → lost ≡ [])
unfolding hand_over
handed_over w bs up = by w.outcomes
  where
    by :
        (os : List (Option ℕ))
        → let t = hand_over (record w { outcomes = os }) bs in
          (taken : Bytes) × (lost : Bytes) × (t.sent ≡ w.sent ++ taken)
          × (taken ++ lost ≡ bs)
          × (t.broken ≡ false → t.buffered ≡ [])
          × (t.broken ≡ false → lost ≡ [])
    by [] = (bs, [], refl, append-nil bs, (λ h. refl), λ h. refl)
    by (none ∷ os) = (bs, [], refl, append-nil bs, (λ h. refl), λ h. refl)
    by (some n ∷ os) = (
      take n bs,
      drop n bs,
      refl,
      take-append-drop n bs,
      (λ h. absurd (ground (arith, h))),
      λ h. absurd (ground (arith, h)),
    )

-- The answer of a call that has handed over all that there was.
result-Writes :
    (w t : Writer) (bs taken lost : Bytes)
    → t.sent ≡ w.sent ++ taken
    → taken ++ lost ≡ w.buffered ++ bs
    → (t.broken ≡ false → t.buffered ≡ lost)
    → Writes w bs (write_result t)
result-Writes w t bs taken lost sent splits kept = elim (Bool-cases t.broken) [
  | inl down ↦ record {
    taken = taken;
    lost = lost;
    sent = sent;
    splits = splits;
    kept = λ h. absurd (ground (arith, h, down));
    failed = λ h. down;
  }
  | inr up ↦ record {
    taken = taken;
    lost = lost;
    sent = sent;
    splits = splits;
    kept = λ h. (up, kept up);
    failed = λ h. absurd (h (rw up refl));
  }
]

if-Writes :
    {w : Writer} {bs : Bytes} (b : Bool) (x y : Option SendError × Writer)
    → (b ≡ true → Writes w bs x)
    → (b ≡ false → Writes w bs y)
    → Writes w bs (if b then x else y)
if-Writes true x y f g = f refl
if-Writes false x y f g = g refl

broken-Writes : (w : Writer) (bs : Bytes) → w.broken ≡ true → Writes w bs (some write_error, w)
broken-Writes w bs down = record {
  taken = [];
  lost = w.buffered ++ bs;
  sent = sym (append-nil w.sent);
  splits = refl;
  kept = λ h. absurd (ground (arith, h));
  failed = λ h. down;
}

-- All that there was is in the buffer.
held-Writes :
    (w : Writer) (bs held : Bytes)
    → w.broken ≡ false
    → held ≡ w.buffered ++ bs
    → Writes w bs (none, record w { buffered = held })
held-Writes w bs held up same = record {
  taken = [];
  lost = held;
  sent = sym (append-nil w.sent);
  splits = same;
  kept = λ h. (up, refl);
  failed = λ h. absurd (h refl);
}

hand_over-empty :
    (w : Writer) (bs : Bytes)
    → w.broken ≡ false
    → (hand_over w bs).broken ≡ false
    → (hand_over w bs).buffered ≡ []
hand_over-empty w bs up = let (_, _, _, _, empty, _) = handed_over w bs up in empty

write_empty-Writes :
    (w : Writer) (bs : Bytes) → w.broken ≡ false → w.buffered ≡ [] → Writes w bs (write_empty w bs)
unfolding write_empty
write_empty-Writes w bs up empty = elim (Bool-cases (leb (length bs) writer_size)) [
  | inl small ↦ rw (small, write_empty) (held-Writes w bs bs up (ap (λ b. b ++ bs) (sym empty)))
  | inr large ↦
      let (taken, lost, sent, splits, _, none_lost) = handed_over w bs up in
      rw (large, write_empty)
        (result-Writes w (record (hand_over w bs) { buffered = [] }) bs taken lost sent
          (splits ∙ ap (λ b. b ++ bs) (sym empty)) (λ h. sym (none_lost h)))
]

-- Two calls, one behind the other.
both-Writes :
    (w t : Writer) (a b : Bytes) (run : Option SendError × Writer)
    → Writes w a (none, t)
    → Writes t b run
    → Writes w (a ++ b) run
both-Writes w t a b run p q = record {
  taken = p.taken ++ q.taken;
  lost = q.lost;
  sent = q.sent ∙ ap (λ s. s ++ q.taken) p.sent ∙ append_assoc w.sent p.taken q.taken;
  splits =
      append_assoc p.taken q.taken q.lost
      ∙ ap (λ s. p.taken ++ s) (q.splits ∙ ap (λ s. s ++ b) (p.kept refl).1)
      ∙ sym (append_assoc p.taken p.lost b)
      ∙ ap (λ s. s ++ b) p.splits
      ∙ append_assoc w.buffered a b;
  kept = q.kept;
  failed = q.failed;
}

-- A call that fails, where more was to be written.
first-Writes :
    (w t : Writer) (e : SendError) (a b : Bytes)
    → Writes w a (some e, t)
    → Writes w (a ++ b) (some e, t)
first-Writes w t e a b p = record {
  taken = p.taken;
  lost = p.lost ++ b;
  sent = p.sent;
  splits =
      sym (append_assoc p.taken p.lost b) ∙ ap (λ s. s ++ b) p.splits ∙ append_assoc w.buffered a b;
  kept = λ h. absurd (ground (arith, h));
  failed = p.failed;
}

hand_over-Writes :
    (w : Writer) (bs : Bytes)
    → w.broken ≡ false
    → Writes w bs (write_result (hand_over w (w.buffered ++ bs)))
hand_over-Writes w bs up =
    let (taken, lost, sent, splits, empty, none_lost) = handed_over w (w.buffered ++ bs) up in
    result-Writes w (hand_over w (w.buffered ++ bs)) bs taken lost sent splits
      (λ h. empty h ∙ sym (none_lost h))

-- The buffer is filled and flushed, and then the rest is written.
write_over-Writes : (w : Writer) (bs : Bytes) → w.broken ≡ false → Writes w bs (write_over w bs)
unfolding write_over
write_over-Writes w bs up =
    subst (λ b. Writes w b (write_over w bs)) (take-append-drop free bs)
      (if-Writes t.broken (some write_error, t) (write_empty t (drop free bs))
        (λ down.
          first-Writes w t write_error (take free bs) (drop free bs)
            (at_result (some write_error) (ap (λ b. if b then some write_error else none) down)))
        (λ still.
          both-Writes w t (take free bs) (drop free bs) _
            (at_result none (ap (λ b. if b then some write_error else none) still))
            (write_empty-Writes t (drop free bs) still
              (hand_over-empty w (w.buffered ++ take free bs) up still))))
  where
    free : ℕ
    free = writer_size - length w.buffered

    t : Writer
    t = hand_over w (w.buffered ++ take free bs)

    at_result :
        (e : Option SendError)
        → (if t.broken then some write_error else none) ≡ e
        → Writes w (take free bs) (e, t)
    at_result e same =
        subst (λ x. Writes w (take free bs) (x, t)) same (hand_over-Writes w (take free bs) up)

pub write-Writes : (w : Writer) (bs : Bytes) → Writes w bs (write w bs)
unfolding write
write-Writes w bs = if-Writes w.broken _ _ (broken-Writes w bs) (λ up.
    if-Writes (leb (length w.buffered + length bs) writer_size) _ _
      (λ fits. held-Writes w bs (w.buffered ++ bs) up refl)
      (λ over.
        if-Writes (length w.buffered == 0) _ _
          (λ empty. write_empty-Writes w bs up (length_zero w.buffered empty))
          (λ some_held. write_over-Writes w bs up)))

pub flush-Writes : (w : Writer) → Writes w [] (flush w)
unfolding flush
flush-Writes w = if-Writes w.broken _ _ (broken-Writes w []) (λ up.
    if-Writes (length w.buffered == 0) _ _
      (λ empty. held-Writes w [] w.buffered up (sym (append-nil w.buffered)))
      (λ some_held.
        subst (λ b. Writes w [] (write_result (hand_over w b))) (append-nil w.buffered)
          (hand_over-Writes w [] up)))

-- Behind a flush nothing is in the buffer, or the writer is broken.
pub flush-empty : (w : Writer) → (flush w).1.broken ≡ false → (flush w).1.buffered ≡ []
unfolding flush
flush-empty w = by w.broken refl (length w.buffered == 0) refl
  where
    by :
        (b : Bool)
        → w.broken ≡ b
        → (c : Bool) → length w.buffered == 0 ≡ c
        → let x : Option SendError × Writer =
            if b
            then (some write_error, w)
            else if c
            then (none, w)
            else write_result (hand_over w w.buffered) in
          x.1.broken ≡ false → x.1.buffered ≡ []
    by true down c e = λ up. absurd (ground (arith, up, down))
    by false up true e = λ h. length_zero w.buffered e
    by false up false e = λ h. hand_over-empty w w.buffered up h

-- The writes of a packet and of its payload, and the flush.
pub packet-Writes :
    (w : Writer) (pk : Bytes) (payload : Option Bytes)
    → Writes w (pk ++ payload_bytes payload) (payload_unless (write w pk) payload)
unfolding payload_unless flush_unless write_payload
packet-Writes w pk payload = by (write w pk) payload (write-Writes w pk)
  where
    flushed :
        (run : Option SendError × Writer) (bs : Bytes)
        → Writes w bs run
        → Writes w bs (flush_unless run)
    flushed (some e, t) bs p = p
    flushed (none, t) bs p =
        subst (λ b. Writes w b (flush t)) (append-nil bs)
          (both-Writes w t bs [] (flush t) p (flush-Writes t))

    by :
        (run : Option SendError × Writer) (payload : Option Bytes)
        → Writes w pk run
        → Writes w (pk ++ payload_bytes payload) (payload_unless run payload)
    by (some e, t) payload p = first-Writes w t e pk (payload_bytes payload) p
    by (none, t) none p =
        flushed (none, t) (pk ++ []) (subst (λ b. Writes w b (none, t)) (sym (append-nil pk)) p)
    by (none, t) (some bs) p =
        flushed (write t bs) (pk ++ bs) (both-Writes w t pk bs (write t bs) p (write-Writes t bs))

pub packet-settled :
    (w : Writer) (pk : Bytes) (payload : Option Bytes)
    → let run = payload_unless (write w pk) payload in run.0 ≡ none → run.1.buffered ≡ []
unfolding payload_unless flush_unless write_payload
packet-settled w pk payload = by (write w pk) payload
  where
    flushed :
        (run : Option SendError × Writer)
        → (flush_unless run).0 ≡ none
        → (flush_unless run).1.buffered ≡ []
    flushed (some e, t) h = absurd (ground (arith, h))
    flushed (none, t) h = flush-empty t ((flush-Writes t).kept h).0

    by :
        (run : Option SendError × Writer) (payload : Option Bytes)
        → (payload_unless run payload).0 ≡ none
        → (payload_unless run payload).1.buffered ≡ []
    by (some e, t) payload h = absurd (ground (arith, h))
    by (none, t) none h = flushed (none, t) h
    by (none, t) (some bs) h = flushed (write t bs) h

if_true : {A : Type 0} (b : Bool) (x y : A) → b ≡ true → (if b then x else y) ≡ x
if_true true x y h = refl
if_true false x y h = absurd (ground (arith, h))

pub packet-broken :
    (w : Writer) (pk : Bytes) (payload : Option Bytes)
    → w.broken ≡ true
    → payload_unless (write w pk) payload ≡ (some write_error, w)
unfolding write payload_unless
packet-broken w pk payload down = ap (λ run. payload_unless run payload) (if_true w.broken _ _ down)
