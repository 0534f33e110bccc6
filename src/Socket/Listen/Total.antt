-- ===== src/Socket/Listen/Total.antt =====
-- `listen` ends: every round that does not end it takes something from the connection.
use go_libvirt.Base.{
  ℕ, zero, suc, ◌-◌, ◌≤◌, ◌<◌, ◌≡◌, ◌≢◌, ◌⊎◌, inl, inr, refl, false, List, [], ◌∷◌, arith, length,
  Result, ok, err, ltb, Bool-cases,
}
use go_libvirt.Base.Text.{Bytes}
use go_libvirt.Socket.Packet.{Header}
use go_libvirt.Socket.Reader.{
  Feed, ReadError, read_full, is_temporary, pktlen, extract_header, read_full-le, read_full-lt,
}
use go_libvirt.Socket.Listen.{
  stop, turn, after_length, after_header, after_payload, out_of_fuel, listen,
}

after_payload-le :
    (h : Header) (r : Result ReadError Bytes × List Feed)
    → length (after_payload h r).1 ≤ length r.1
unfolding after_payload
after_payload-le h (err e, s) = omega arith
after_payload-le h (ok b, s) = omega arith

after_header-le :
    (n : ℕ) (r : Result ReadError Header × List Feed) → length (after_header n r).1 ≤ length r.1
unfolding after_header
after_header-le n (err e, s) = omega arith
after_header-le n (ok h, s) = elim (Bool-cases (ltb n 28)) [
  | inl short ↦ rw short (omega arith)
  | inr long ↦ rw long (
      omega (arith, after_payload-le h (read_full false (n - 28) s), read_full-le false (n - 28) s))
]

after_length-le : (r : Result ReadError ℕ × List Feed) → length (after_length r).1 ≤ length r.1
unfolding after_length extract_header
after_length-le (err e, s) = omega arith
after_length-le (ok n, s) =
    omega (arith, after_header-le n (extract_header s), read_full-le false 24 s)

pktlen-lt : (f : Feed) (s : List Feed) → length (pktlen (f ∷ s)).1 < length (f ∷ s)
unfolding pktlen
pktlen-lt f s = omega (arith, read_full-lt false 3 f s)

-- At the end of the connection the loop returns; otherwise a round takes something.
turn_progress : (s : List Feed) → ((turn s).0 ≡ stop) ⊎ (length (turn s).1 < length s)
unfolding turn
turn_progress [] = inl (unfold after_length pktlen read_full is_temporary in refl)
turn_progress (f ∷ s) = inr (omega (arith, after_length-le (pktlen (f ∷ s)), pktlen-lt f s))

-- One round more than there are bytes and errors to read is enough.
pub listen_total : (fuel : ℕ) (s : List Feed) → length s < fuel → (listen fuel s).1 ≢ out_of_fuel
unfolding listen
listen_total zero s h = elim h [ ]
listen_total (suc fuel) s h = ground (arith, turn_progress s, listen_total fuel (turn s).1)
