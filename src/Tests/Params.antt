-- ===== src/Tests/Params.antt =====
-- Serial numbers and typed parameters, at concrete inputs.
use go_libvirt.Base.{
  ◌*◌, ◌-◌, ◌^◌, ℕ, ◌+◌, ◌≡◌, ◌≢◌, refl, [], ◌∷◌, arith, ok, err, ltb, if◌then◌else◌, length, take,
  drop,
}
use go_libvirt.Base.Int.{ℤ, pos, negsuc, IsInt32, int32}
use go_libvirt.Base.Text.{Bytes, text}
use go_libvirt.Rpc.Errors.{plain}
use go_libvirt.Rpc.Serial.{serial, nth_serial, serials_differ}
use go_libvirt.Rpc.TypedParam.{Decoded, Xdr, hyper, TypedParam}
use go_libvirt.Rpc.TypedParam.Wire.{padding}
use go_libvirt.Socket.Packet.{get_len}

serial_run : (serial (pos 0) ≡ pos 1) × (serial (pos 2147483647) ≡ negsuc 2147483647)
unfolding serial
serial_run = (refl, refl)

serials_differ_example :
    (nth_serial 1 (pos 2147483647) ≢ nth_serial 2 (pos 2147483647))
    × IsInt32 (nth_serial 2 (pos 2147483647))
serials_differ_example = serials_differ (pos 2147483647) 1 2 (omega arith) (omega arith)

-- A decoder of XDR.
abbrev read_u32 : Bytes → Decoded ℕ
read_u32 s =
    if ltb (length s) 4
    then record { value = err (plain (text "EOF")); n = length s; rest = [] }
    else record { value = ok (get_len s); n = 4; rest = drop 4 s }

abbrev read_u64 : Bytes → Decoded ℕ
read_u64 s =
    if ltb (length s) 8
    then record { value = err (plain (text "EOF")); n = length s; rest = [] }
    else record { value = ok (get_len s * 2 ^ 32 + get_len (drop 4 s)); n = 8; rest = drop 8 s }

abbrev map_decoded : {A B : Type 0} → (A → B) → Decoded A → Decoded B
map_decoded f r = record {
  value = elim r.value [ ok a ↦ ok (f a) | err e ↦ err e ];
  n = r.n;
  rest = r.rest;
}

int64 : ℕ → ℤ
int64 n = if ltb n (2 ^ 63) then pos n else negsuc (2 ^ 64 - 1 - n)

-- The payload of a string behind its length.
abbrev read_payload : ℕ → Bytes → Decoded Bytes
read_payload k s =
    if ltb (length s) (k + padding k)
    then record { value = err (plain (text "EOF")); n = 4 + length s; rest = [] }
    else record { value = ok (take k s); n = 4 + (k + padding k); rest = drop (k + padding k) s }

abbrev read_string : Bytes → Decoded Bytes
read_string (a ∷ b ∷ c ∷ d ∷ s) = read_payload (get_len (a ∷ b ∷ c ∷ d ∷ [])) s
read_string s = record { value = err (plain (text "EOF")); n = length s; rest = [] }

abbrev codec : Xdr
codec = record {
  decode_string = read_string;
  decode_uint = read_u32;
  decode_int = λ s. map_decoded int32 (read_u32 s);
  decode_hyper = λ s. map_decoded int64 (read_u64 s);
  decode_uhyper = read_u64;
  decode_double = read_u64;
}

abbrev weight : TypedParam
weight = record { field = text "cpu"; value = record { d = 3; i = hyper (negsuc 6) } }
