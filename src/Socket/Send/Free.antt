-- ===== src/Socket/Send/Free.antt =====
-- The buffered writer on a connection that takes all that it is given.
use go_libvirt.Base.{
  ◌+◌, ◌-◌, ◌==◌, leb, ◌≡◌, refl, ap, Bool, true, false, Option, none, some, [], ◌++◌, arith,
  length, take, drop, if◌then◌else◌,
}
use go_libvirt.Base.Text.{Bytes}
use go_libvirt.Socket.Send.{
  Writer, SendError, write_error, writer_size, hand_over, write_result, write_empty, write_over,
  write, flush, write_payload, flush_unless, payload_unless,
}

-- The connection takes all that it is given.
abbrev pub IsFree : Writer → Type 0
IsFree w = (w.broken ≡ false) × (w.outcomes ≡ [])

abbrev Goes : Option SendError × Writer → Type 0
Goes run = (run.0 ≡ none) × IsFree run.1

if-Goes :
    (b : Bool) (x y : Option SendError × Writer)
    → (b ≡ true → Goes x)
    → (b ≡ false → Goes y)
    → Goes (if b then x else y)
if-Goes true x y f g = f refl
if-Goes false x y f g = g refl

hand_over-IsFree : (w : Writer) (bs : Bytes) → IsFree w → IsFree (hand_over w bs)
unfolding hand_over
hand_over-IsFree w bs (up, os) = rw os (up, refl)

free-Goes : (t : Writer) → IsFree t → Goes (write_result t)
free-Goes t (up, os) = (ap (λ b. if b then some write_error else none) up, (up, os))

write_empty-Goes : (w : Writer) (bs : Bytes) → IsFree w → Goes (write_empty w bs)
unfolding write_empty
write_empty-Goes w bs free =
    if-Goes (leb (length bs) writer_size) _ _ (λ small. (refl, free))
      (λ large. free-Goes (record (hand_over w bs) { buffered = [] }) (hand_over-IsFree w bs free))

write-Goes : (w : Writer) (bs : Bytes) → IsFree w → Goes (write w bs)
unfolding write write_over
write-Goes w bs free =
    if-Goes w.broken _ _ (λ down. absurd (ground (arith, down, free.0)))
      (λ up.
        if-Goes (leb (length w.buffered + length bs) writer_size) _ _ (λ fits. (refl, free))
          (λ over.
            if-Goes (length w.buffered == 0) _ _ (λ empty. write_empty-Goes w bs free)
              (λ some_held.
                let n = writer_size - length w.buffered in
                let t = hand_over-IsFree w (w.buffered ++ take n bs) free in
                if-Goes (hand_over w (w.buffered ++ take n bs)).broken (some write_error, _) _
                  (λ down. absurd (ground (arith, down, t.0)))
                  (λ still. write_empty-Goes _ (drop n bs) t))))

flush-Goes : (w : Writer) → IsFree w → Goes (flush w)
unfolding flush
flush-Goes w free =
    if-Goes w.broken _ _ (λ down. absurd (ground (arith, down, free.0)))
      (λ up.
        if-Goes (length w.buffered == 0) _ _ (λ empty. (refl, free))
          (λ some_held. free-Goes (hand_over w w.buffered) (hand_over-IsFree w w.buffered free)))

pub packet-Goes :
    (w : Writer) (pk : Bytes) (payload : Option Bytes)
    → IsFree w
    → let run = payload_unless (write w pk) payload in (run.0 ≡ none) × IsFree run.1
unfolding payload_unless flush_unless write_payload
packet-Goes w pk payload free = by (write w pk) payload (write-Goes w pk free)
  where
    flushed : (run : Option SendError × Writer) → Goes run → Goes (flush_unless run)
    flushed (some e, t) p = absurd (ground (arith, p.0))
    flushed (none, t) p = flush-Goes t p.1

    by :
        (run : Option SendError × Writer) (payload : Option Bytes)
        → Goes run
        → Goes (payload_unless run payload)
    by (some e, t) payload p = absurd (ground (arith, p.0))
    by (none, t) none p = flushed (none, t) p
    by (none, t) (some bs) p = flushed (write t bs) (write-Goes t bs p.1)
