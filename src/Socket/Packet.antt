-- ===== src/Socket/Packet.antt =====
-- socket/socket.go: the layout of a packet, as `binary.Write` puts it and `extractHeader` reads it.
-- A uint32 field is a number below 2 ^ 32; the int32 serial is an integer.
use go_libvirt.Base.{
  ℕ, ◌+◌, ◌*◌, ◌/◌, ◌%◌, ◌^◌, ◌<◌, ◌≡◌, refl, sym, ap, ◌∙◌, append-nil, [], ◌∷◌, ◌++◌, arith, ◌≤◌,
  length, take, drop, take-append-drop, drop-drop, length-drop, drop_all, All, All-drop,
}
use go_libvirt.Base.Int.{
  ℤ, IsInt32, int32, uint32, int32-uint32, uint32-int32, uint32-lt, int32-IsInt32,
}
use go_libvirt.Base.Text.{Bytes}

abbrev pub status_ok : ℕ
status_ok = 0

abbrev pub status_error : ℕ
status_error = 1

abbrev pub status_continue : ℕ
status_continue = 2

-- The call types.
abbrev pub call : ℕ
call = 0

abbrev pub stream : ℕ
stream = 4

-- internal/constants: the program's version, in every packet that is sent.
abbrev pub protocol_version : ℕ
protocol_version = 1

pub record Header : Type 0 where
  pub program : ℕ
  pub version : ℕ
  pub procedure : ℕ
  pub typ : ℕ
  pub serial : ℤ
  pub status : ℕ

pub record Packet : Type 0 where
  pub len : ℕ
  pub header : Header

-- `unsafe.Sizeof` of `_p`, of `_p.Len` and of `_p.Header`.
abbrev pub sizeof_packet : ℕ
sizeof_packet = 28

abbrev pub sizeof_len : ℕ
sizeof_len = 4

abbrev pub sizeof_header : ℕ
sizeof_header = 24

-- One uint32 in `binary.BigEndian`.
unfoldable pub put_u32 : ℕ → Bytes
put_u32 n = n / 2 ^ 24 % 256 ∷ n / 2 ^ 16 % 256 ∷ n / 2 ^ 8 % 256 ∷ n % 256 ∷ []

-- `binary.BigEndian.Uint32`, at the four bytes of a slice.
pub get_u32 : ℕ → ℕ → ℕ → ℕ → ℕ
get_u32 a b c d = a * 2 ^ 24 + b * 2 ^ 16 + c * 2 ^ 8 + d

unfoldable pub put_header : Header → Bytes
put_header h =
    put_u32 h.program
    ++ (put_u32 h.version
        ++ (put_u32 h.procedure
            ++ (put_u32 h.typ ++ (put_u32 (uint32 h.serial) ++ put_u32 h.status))))

-- `binary.Write(w, binary.BigEndian, p)`.
unfoldable pub put_packet : Packet → Bytes
put_packet p = put_u32 p.len ++ put_header p.header

-- The length of a packet that `pktlen` reads from its four bytes.
unfoldable pub get_len : Bytes → ℕ
unfolding get_u32
get_len (a ∷ b ∷ c ∷ d ∷ _) = get_u32 a b c d
get_len _ = 0

-- The header in the 24 bytes that `extractHeader` has read.
unfoldable pub get_header : Bytes → Header
unfolding get_u32
get_header buf = record {
  program = get_len buf;
  version = get_len (drop 4 buf);
  procedure = get_len (drop 8 buf);
  typ = get_len (drop 12 buf);
  serial = int32 (get_len (drop 16 buf));
  status = get_len (drop 20 buf);
}

-- A value of `Header`.
pub record IsHeader (h : Header) : Type 0 where
  pub program : h.program < 2 ^ 32
  pub version : h.version < 2 ^ 32
  pub procedure : h.procedure < 2 ^ 32
  pub typ : h.typ < 2 ^ 32
  pub serial : IsInt32 h.serial
  pub status : h.status < 2 ^ 32

abbrev pub IsByte : ℕ → Type 0
IsByte b = b < 256

pub get_u32-put_u32 :
    (n : ℕ)
    → n < 2 ^ 32
    → get_u32 (n / 2 ^ 24 % 256) (n / 2 ^ 16 % 256) (n / 2 ^ 8 % 256) (n % 256) ≡ n
unfolding get_u32
get_u32-put_u32 n h = omega arith

pub get_len-put_u32 : (n : ℕ) → n < 2 ^ 32 → get_len (put_u32 n) ≡ n
unfolding get_len put_u32
get_len-put_u32 n h = omega arith

pub get_header-put_header : (h : Header) → IsHeader h → get_header (put_header h) ≡ h
unfolding get_header put_header put_u32 get_len
get_header-put_header h v = λ i. record {
  program = get_u32-put_u32 h.program v.program i;
  version = get_u32-put_u32 h.version v.version i;
  procedure = get_u32-put_u32 h.procedure v.procedure i;
  typ = get_u32-put_u32 h.typ v.typ i;
  serial = serial_same i;
  status = get_u32-put_u32 h.status v.status i;
}
  where
    serial_same : int32 (get_len (put_u32 (uint32 h.serial))) ≡ h.serial
    serial_same =
        ap int32 (get_u32-put_u32 (uint32 h.serial) (uint32-lt h.serial))
        ∙ int32-uint32 h.serial v.serial

pub put_u32-get_u32 :
    (a b c d : ℕ)
    → a < 256
    → b < 256
    → c < 256
    → d < 256
    → put_u32 (get_u32 a b c d) ≡ a ∷ b ∷ c ∷ d ∷ []
unfolding put_u32 get_u32
put_u32-get_u32 a b c d ha hb hc hd = ground arith

-- A whole packet on the wire, with its length in front.
abbrev pub frame : Header → Bytes → Bytes
frame h payload =
    put_packet (record { len = sizeof_packet + length payload; header = h }) ++ payload

-- A packet whose fields and length fit their types.
pub record IsFrame (h : Header) (payload : Bytes) : Type 0 where
  pub header : IsHeader h
  pub fits : sizeof_packet + length payload < 2 ^ 32

pub length-put_u32 : (n : ℕ) → length (put_u32 n) ≡ 4
unfolding put_u32
length-put_u32 n = refl

pub length-put_header : (h : Header) → length (put_header h) ≡ 24
unfolding put_header put_u32
length-put_header h = refl

pub length-frame : (h : Header) (payload : Bytes) → length (frame h payload) ≡ 28 + length payload
unfolding put_packet put_header put_u32
length-frame h payload = omega arith

-- Reading and then writing gives back the bytes that were read.
pub put_u32-get_len :
    (xs : Bytes) → All IsByte xs → 4 ≤ length xs → put_u32 (get_len xs) ≡ take 4 xs
unfolding get_len
put_u32-get_len [] v h = absurd (omega arith)
put_u32-get_len (a ∷ []) v h = absurd (omega arith)
put_u32-get_len (a ∷ b ∷ []) v h = absurd (omega arith)
put_u32-get_len (a ∷ b ∷ c ∷ []) v h = absurd (omega arith)
put_u32-get_len (a ∷ b ∷ c ∷ d ∷ xs) v h = put_u32-get_u32 a b c d v.0 v.1.0 v.1.1.0 v.1.1.1.0

pub get_len-lt : (xs : Bytes) → All IsByte xs → get_len xs < 2 ^ 32
unfolding get_len
get_len-lt [] v = omega arith
get_len-lt (a ∷ []) v = omega arith
get_len-lt (a ∷ b ∷ []) v = omega arith
get_len-lt (a ∷ b ∷ c ∷ []) v = omega arith
get_len-lt (a ∷ b ∷ c ∷ d ∷ xs) v = omega arith

pub get_header-IsHeader : (xs : Bytes) → All IsByte xs → IsHeader (get_header xs)
unfolding get_header
get_header-IsHeader xs v = record {
  program = get_len-lt xs v;
  version = field 4;
  procedure = field 8;
  typ = field 12;
  serial = int32-IsInt32 (get_len (drop 16 xs));
  status = field 20;
}
  where
    field : (k : ℕ) → get_len (drop k xs) < 2 ^ 32
    field k = get_len-lt (drop k xs) (All-drop IsByte k xs v)

put_u32-get_len-drop :
    (k : ℕ) (xs : Bytes)
    → All IsByte xs
    → k + 4 ≤ length xs
    → put_u32 (get_len (drop k xs)) ++ drop (k + 4) xs ≡ drop k xs
put_u32-get_len-drop k xs v h =
    rw (← drop-drop k 4 xs, put_u32-get_len (drop k xs) (All-drop IsByte k xs v) long)
      (take-append-drop 4 (drop k xs))
  where
    long : 4 ≤ length (drop k xs)
    long = omega (arith, length-drop k xs)

pub put_header-get_header :
    (xs : Bytes) → All IsByte xs → length xs ≡ 24 → put_header (get_header xs) ≡ xs
unfolding get_header put_header
put_header-get_header xs v h =
    rw (uint32-int32 (get_len (drop 16 xs)) (get_len-lt _ (All-drop IsByte 16 xs v)), last)
      (rw (word 16 (omega arith)) (
        rw (word 12 (omega arith))
          (rw (word 8 (omega arith)) (rw (word 4 (omega arith)) (word 0 (omega arith))))))
  where
    word : (k : ℕ) → k + 4 ≤ 24 → put_u32 (get_len (drop k xs)) ++ drop (k + 4) xs ≡ drop k xs
    word k small = put_u32-get_len-drop k xs v (omega arith)

    last : put_u32 (get_len (drop 20 xs)) ≡ drop 20 xs
    last = sym (append-nil _) ∙ rw (← drop_all 24 xs (omega arith)) (word 20 (omega arith))
