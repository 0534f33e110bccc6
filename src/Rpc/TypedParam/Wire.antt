-- ===== src/Rpc/TypedParam/Wire.antt =====
-- Typed parameters read from the wire.
use go_libvirt.Base.{
  zero, suc, [], ◌∷◌, ◌<◌, ◌-◌, ◌/◌, ◌%◌, ◌^◌, ℕ, ◌+◌, ◌≡◌, inl, inr, ◌++◌, arith, ok, length,
  Result-cases,
}
use go_libvirt.Base.Int.{ℤ, pos, negsuc, uint32, IsInt32}
use go_libvirt.Socket.Packet.{put_u32}
use go_libvirt.Base.Text.{Bytes}
use go_libvirt.Rpc.TypedParam.{
  Decoded, Xdr, Content, int, uint, hyper, uhyper, double, string, TypedParam, decode_content,
  decode_typed_param_value, decode_typed_param,
}

-- What `xdr.Decoder` says of each method: the count is of the bytes taken off the reader.
abbrev Counts : {A : Type 0} → (Bytes → Decoded A) → Type 0
Counts f = (buf : Bytes) → (f buf).n + length (f buf).rest ≡ length buf

pub record IsCounting (x : Xdr) : Type 0 where
  pub string : Counts x.decode_string
  pub uint : Counts x.decode_uint
  pub int : Counts x.decode_int
  pub hyper : Counts x.decode_hyper
  pub uhyper : Counts x.decode_uhyper
  pub double : Counts x.decode_double

-- The encodings of RFC 4506: numbers of 32 and 64 bits, and a string behind its length, filled up to
-- four bytes.
unfoldable pub put_u64 : ℕ → Bytes
put_u64 n = put_u32 (n / 2 ^ 32) ++ put_u32 (n % 2 ^ 32)

abbrev pub uint64 : ℤ → ℕ
uint64 (pos n) = n % 2 ^ 64
uint64 (negsuc n) = 2 ^ 64 - 1 - n % 2 ^ 64

abbrev pub zeros : ℕ → Bytes
zeros zero = []
zeros (suc n) = 0 ∷ zeros n

abbrev pub padding : ℕ → ℕ
padding n = (4 - n % 4) % 4

unfoldable pub put_string : Bytes → Bytes
put_string s = put_u32 (length s) ++ (s ++ zeros (padding (length s)))

-- The values of an `int64`.
abbrev pub IsInt64 : ℤ → Type 0
IsInt64 (pos n) = n < 2 ^ 63
IsInt64 (negsuc n) = n < 2 ^ 63

-- A method reads the encodings of the values of its type, and leaves what follows.
abbrev Reads : {A : Type 0} → (A → Type 0) → (A → Bytes) → (Bytes → Decoded A) → Type 0
Reads {A} IsValue put f =
    (a : A) (s : Bytes)
    → IsValue a
    → f (put a ++ s) ≡ record { value = ok a; n = length (put a); rest = s }

pub record IsXdr (x : Xdr) : Type 0 where
  pub string : Reads (λ s. length s < 2 ^ 32) put_string x.decode_string
  pub uint : Reads (λ n. n < 2 ^ 32) put_u32 x.decode_uint
  pub int : Reads IsInt32 (λ z. put_u32 (uint32 z)) x.decode_int
  pub hyper : Reads IsInt64 (λ z. put_u64 (uint64 z)) x.decode_hyper
  pub uhyper : Reads (λ n. n < 2 ^ 64) put_u64 x.decode_uhyper
  pub double : Reads (λ n. n < 2 ^ 64) put_u64 x.decode_double

-- The arms of libvirt's union: a value of the type that each discriminant has.
pub data IsArm : ℕ → Content → Type 0 where
  arm_int : (z : ℤ) → IsInt32 z → IsArm 1 (int z)
  arm_uint : (n : ℕ) → n < 2 ^ 32 → IsArm 2 (uint n)
  arm_llong : (z : ℤ) → IsInt64 z → IsArm 3 (hyper z)
  arm_ullong : (n : ℕ) → n < 2 ^ 64 → IsArm 4 (uhyper n)
  arm_double : (n : ℕ) → n < 2 ^ 64 → IsArm 5 (double n)
  arm_boolean : (z : ℤ) → IsInt32 z → IsArm 6 (int z)
  arm_string : (s : Bytes) → length s < 2 ^ 32 → IsArm 7 (string s)

abbrev pub put_content : Content → Bytes
put_content (int z) = put_u32 (uint32 z)
put_content (uint n) = put_u32 n
put_content (hyper z) = put_u64 (uint64 z)
put_content (uhyper n) = put_u64 n
put_content (double n) = put_u64 n
put_content (string s) = put_string s

-- A parameter on the wire: its name, the discriminant and the arm's value.
abbrev pub put_typed_param : TypedParam → Bytes
put_typed_param p = put_string p.field ++ (put_u32 p.value.d ++ put_content p.value.i)

module _ (x : Xdr) (v : IsCounting x) where
  decode_content-Counts : (d : ℕ) → Counts (decode_content x d)
  unfolding decode_content
  decode_content-Counts d buf =
      ground (arith, v.string buf, v.uint buf, v.int buf, v.hyper buf, v.uhyper buf, v.double buf)

  value-Counts : Counts (decode_typed_param_value x)
  unfolding decode_typed_param_value
  value-Counts buf =
      let r = x.decode_uint buf in
      elim (Result-cases r.value) [
        | inl (d, found) ↦
            rw (found, decode_typed_param_value)
              (omega (arith, v.uint buf, decode_content-Counts d r.rest))
        | inr (e, failed) ↦ rw (failed, decode_typed_param_value) (v.uint buf)
      ]

  -- With a decoder that counts the bytes it takes, so does `Decode` of a typed parameter, whether it
  -- succeeds or fails, and wherever it fails.
  decode_typed_param-Counts : Counts (decode_typed_param x)
  unfolding decode_typed_param decode_typed_param_value
  decode_typed_param-Counts buf =
      let r = x.decode_string buf in ground (arith, v.string buf, value-Counts r.rest)
