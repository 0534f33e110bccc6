-- ===== src/Socket/Reader.antt =====
-- socket/socket.go: `pktlen`, `extractHeader` and `isTemporary`, over a connection as its reader
-- sees it: the bytes that arrive, the errors in between, and the end of the stream behind them.
use go_libvirt.Base.{
  ℕ, zero, suc, ◌≤◌, ◌<◌, ◌≡◌, refl, Bool, true, false, List, [], ◌∷◌, ◌++◌, map, arith, length,
  take, drop, Result, ok, err, if◌then◌else◌,
}
use go_libvirt.Base.Text.{Bytes}
use go_libvirt.Socket.Packet.{Header, get_len, get_header, sizeof_len, sizeof_header}

-- What a read of the connection reports besides its end: a `*net.OpError`, with what its
-- `Temporary` says, or an error of another type.
pub data Fault : Type 0 where
  op_error : Bool → Fault
  other_error : Fault

pub data ReadError : Type 0 where
  eof unexpected_eof : ReadError
  fault_error : Fault → ReadError

pub data Feed : Type 0 where
  byte : ℕ → Feed
  fault : Fault → Feed

abbrev pub map_ok : {A B : Type 0} → (A → B) → Result ReadError A → Result ReadError B
map_ok f (ok a) = ok (f a)
map_ok f (err e) = err e

abbrev push_byte : ℕ → Result ReadError Bytes × List Feed → Result ReadError Bytes × List Feed
push_byte b (r, rest) = (map_ok (◌∷◌ b) r, rest)

-- `io.ReadFull`; the flag says that some byte has been read. What was read before an error is lost.
unfoldable pub read_full : Bool → ℕ → List Feed → Result ReadError Bytes × List Feed
read_full some_read zero s = (ok [], s)
read_full some_read (suc n) [] = (err (if some_read then unexpected_eof else eof), [])
read_full some_read (suc n) (fault e ∷ s) = (err (fault_error e), s)
read_full some_read (suc n) (byte b ∷ s) = push_byte b (read_full true n s)

-- `isTemporary`.
unfoldable pub is_temporary : ReadError → Bool
is_temporary (fault_error (op_error temporary)) = temporary
is_temporary _ = false

-- `pktlen`.
unfoldable pub pktlen : List Feed → Result ReadError ℕ × List Feed
pktlen s = let (r, rest) = read_full false sizeof_len s in (map_ok get_len r, rest)

-- `extractHeader`.
unfoldable pub extract_header : List Feed → Result ReadError Header × List Feed
extract_header s = let (r, rest) = read_full false sizeof_header s in (map_ok get_header r, rest)

-- Bytes that arrive with no error among them.
abbrev pub arriving : Bytes → List Feed
arriving = map byte

pub read_full-arriving :
    (b : Bool) (xs : Bytes) (s : List Feed)
    → read_full b (length xs) (arriving xs ++ s) ≡ (ok xs, s)
unfolding read_full
read_full-arriving b [] s = refl
read_full-arriving b (x ∷ xs) s = rw (read_full-arriving true xs s)

-- With too few bytes the read fails at the end of the stream.
pub read_full-short :
    (b : Bool) (n : ℕ) (xs : Bytes)
    → length xs < n
    → (e : ReadError) × (read_full b n (arriving xs) ≡ (err e, [])) × (is_temporary e ≡ false)
unfolding read_full is_temporary
read_full-short b zero xs h = elim h [ ]
read_full-short true (suc n) [] h = (unexpected_eof, refl, refl)
read_full-short false (suc n) [] h = (eof, refl, refl)
read_full-short b (suc n) (x ∷ xs) h =
    let (e, same, lasting) = read_full-short true n xs (omega arith) in (e, rw same, lasting)

pub read_full-take :
    (b : Bool) (n : ℕ) (xs : Bytes)
    → n ≤ length xs
    → read_full b n (arriving xs) ≡ (ok (take n xs), arriving (drop n xs))
unfolding read_full
read_full-take b zero xs h = refl
read_full-take b (suc n) [] h = elim h [ ]
read_full-take b (suc n) (x ∷ xs) h = rw (read_full-take true n xs (omega arith))

-- A read leaves no more than there was, and takes something unless it has nothing to do.
pub read_full-le : (b : Bool) (n : ℕ) (s : List Feed) → length (read_full b n s).1 ≤ length s
unfolding read_full
read_full-le b zero s = omega arith
read_full-le b (suc n) [] = omega arith
read_full-le b (suc n) (fault e ∷ s) = omega arith
read_full-le b (suc n) (byte x ∷ s) = omega (arith, read_full-le true n s)

pub read_full-lt :
    (b : Bool) (n : ℕ) (f : Feed) (s : List Feed)
    → length (read_full b (suc n) (f ∷ s)).1 ≤ length s
unfolding read_full
read_full-lt b n (fault e) s = omega arith
read_full-lt b n (byte x) s = read_full-le true n s
