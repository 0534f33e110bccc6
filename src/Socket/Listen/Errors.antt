-- ===== src/Socket/Listen/Errors.antt =====
-- What `listen` does with a length that is too short, and with errors of the connection.
use go_libvirt.Base.{
  ℕ, suc, ◌<◌, ◌≡◌, refl, false, List, [], ◌∷◌, ◌++◌, arith, length, ok, err, if◌then◌else◌, lt→ltb,
  Bool-cases, inl, inr, ◌^◌,
}
use go_libvirt.Base.Text.{Bytes}
use go_libvirt.Socket.Packet.{put_u32, get_len-put_u32, get_header}
use go_libvirt.Socket.Reader.{
  Fault, Feed, fault, fault_error, read_full, is_temporary, pktlen, extract_header, arriving,
  read_full-arriving,
}
use go_libvirt.Socket.Listen.{crash, turn, after_length, after_header, returned, panicked, listen}
use go_libvirt.Socket.Listen.Steps.{listen-again, listen-stop, listen-crash}

pktlen-put_u32 :
    (n : ℕ) (s : List Feed) → n < 2 ^ 32 → pktlen (arriving (put_u32 n) ++ s) ≡ (ok n, s)
unfolding pktlen read_full put_u32
pktlen-put_u32 n s h = rw (get_len-put_u32 n h)

-- A packet that says its length is below 28 makes the loop panic, once its header has arrived,
-- whatever the header and the bytes behind it are.
pub listen_short_length :
    (n fuel : ℕ) (header : Bytes) (s : List Feed)
    → n < 28
    → length header ≡ 24
    → listen (suc fuel) (arriving (put_u32 n) ++ (arriving header ++ s)) ≡ ([], panicked)
listen_short_length n fuel header s short whole = listen-crash fuel _ crashes
  where
    whole_read : read_full false 24 (arriving header ++ s) ≡ (ok header, s)
    whole_read = rw (← whole) (read_full-arriving false header s)

    header_read : extract_header (arriving header ++ s) ≡ (ok (get_header header), s)
    header_read = unfold extract_header in rw whole_read

    crashes : turn (arriving (put_u32 n) ++ (arriving header ++ s)) ≡ (crash, s)
    crashes =
        unfold turn after_length after_header in
        rw (pktlen-put_u32 n (arriving header ++ s) (omega arith))
          (rw header_read (rw (lt→ltb n 28 short)))

-- An error inside the length.
pktlen_interrupted :
    (xs : Bytes) (e : Fault) (s : List Feed)
    → length xs < 4
    → pktlen (arriving xs ++ (fault e ∷ s)) ≡ (err (fault_error e), s)
unfolding pktlen read_full
pktlen_interrupted [] e s h = refl
pktlen_interrupted (a ∷ []) e s h = refl
pktlen_interrupted (a ∷ b ∷ []) e s h = refl
pktlen_interrupted (a ∷ b ∷ c ∷ []) e s h = refl
pktlen_interrupted (a ∷ b ∷ c ∷ d ∷ xs) e s h = absurd (omega arith)

-- A temporary error before or inside a packet's length: the loop goes on behind the error, and the
-- bytes of the length that were read before it are lost. Any other error ends the loop.
pub listen_interrupted :
    (xs : Bytes) (e : Fault) (s : List Feed) (fuel : ℕ)
    → length xs < 4
    → listen (suc fuel) (arriving xs ++ (fault e ∷ s))
      ≡ (if is_temporary (fault_error e) then listen fuel s else ([], returned))
listen_interrupted xs e s fuel h = elim (Bool-cases (is_temporary (fault_error e))) [
  | inl t ↦ rw t (
      listen-again fuel _ {rest = s}
        (unfold turn after_length in rw (pktlen_interrupted xs e s h) (rw t)))
  | inr p ↦ rw p (
      listen-stop fuel _ {rest = s}
        (unfold turn after_length in rw (pktlen_interrupted xs e s h) (rw p)))
]
