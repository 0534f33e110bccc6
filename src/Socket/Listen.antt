-- ===== src/Socket/Listen.antt =====
-- socket/socket.go: `listen`, the loop of the goroutine that reads packets and routes them.
-- The fuel bounds the rounds; `length s + 1` rounds are enough, as Listen/Total shows.
pub mod Steps
pub mod Frames
pub mod Sound
pub mod Cut
pub mod Errors
pub mod Total
use go_libvirt.Base.{
  ℕ, zero, suc, ◌+◌, ◌-◌, Bool, false, List, [], ◌∷◌, Result, ok, err, ltb, if◌then◌else◌,
}
use go_libvirt.Base.Text.{Bytes}
use go_libvirt.Socket.Packet.{Header, sizeof_packet}
use go_libvirt.Socket.Reader.{Feed, ReadError, read_full, is_temporary, pktlen, extract_header}

-- What one round of the loop comes to: `continue`, `return`, the panic of `make` with a negative
-- size, or a call of `router.Route`.
pub data Turn : Type 0 where
  again stop crash : Turn
  route : Header → Bytes → Turn

pub after_payload : Header → Result ReadError Bytes × List Feed → Turn × List Feed
after_payload h (err e, s) = (again, s)
after_payload h (ok buf, s) = (route h buf, s)

-- `size` is a signed difference, so a length below 28 is a negative size.
pub after_header : ℕ → Result ReadError Header × List Feed → Turn × List Feed
after_header length (err e, s) = (again, s)
after_header length (ok h, s) =
    if ltb length sizeof_packet
    then (crash, s)
    else after_payload h (read_full false (length - sizeof_packet) s)

pub after_length : Result ReadError ℕ × List Feed → Turn × List Feed
after_length (err e, s) = (if is_temporary e then again else stop, s)
after_length (ok length, s) = after_header length (extract_header s)

unfoldable pub turn : List Feed → Turn × List Feed
unfolding after_length after_header after_payload
turn s = after_length (pktlen s)

pub data Ending : Type 0 where
  returned panicked out_of_fuel : Ending

-- The calls of `Route` in order, and how the loop ended.
unfoldable pub listen : ℕ → List Feed → List (Header × Bytes) × Ending
listen zero s = ([], out_of_fuel)
listen (suc fuel) s =
    let (t, rest) = turn s in
    elim t [
      | again ↦ listen fuel rest
      | stop ↦ ([], returned)
      | crash ↦ ([], panicked)
      | route h buf ↦ let (routed, end) = listen fuel rest in ((h, buf) ∷ routed, end)
    ]
