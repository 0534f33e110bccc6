-- ===== src/Rpc/TypedParam.antt =====
-- rpc.go: typedParamDecoder, over the decoder of XDR values that it is given.
use go_libvirt.Base.{ℕ, ◌+◌, Result, ok, err, ◌==◌, if◌then◌else◌}
pub mod Wire
use go_libvirt.Base.Int.{ℤ}
use go_libvirt.Base.Text.{Bytes, text}
use go_libvirt.Rpc.Errors.{GoError, plain}

-- What a method of `xdr.Decoder` returns, and what it leaves of its reader.
pub record Decoded {ℓ} (A : Type ℓ) : Type ℓ where
  pub value : Result GoError A
  pub n : ℕ
  pub rest : Bytes

-- The methods of `xdr.Decoder` that are called, one for each type that `Decode` is given. A double
-- is its 64 bits.
pub record Xdr : Type 0 where
  pub decode_string : Bytes → Decoded Bytes
  pub decode_uint : Bytes → Decoded ℕ
  pub decode_int : Bytes → Decoded ℤ
  pub decode_hyper : Bytes → Decoded ℤ
  pub decode_uhyper : Bytes → Decoded ℕ
  pub decode_double : Bytes → Decoded ℕ

-- The dynamic value of the field `I`.
pub data Content : Type 0 where
  int : ℤ → Content
  uint : ℕ → Content
  hyper : ℤ → Content
  uhyper : ℕ → Content
  double : ℕ → Content
  string : Bytes → Content

pub record TypedParamValue : Type 0 where
  pub d : ℕ
  pub i : Content

pub record TypedParam : Type 0 where
  pub field : Bytes
  pub value : TypedParamValue

-- A value that is read, put into its union.
abbrev pub as_content : {A : Type 0} → (A → Content) → Decoded A → Decoded Content
as_content f r = record {
  value = elim r.value [ ok a ↦ ok (f a) | err e ↦ err e ];
  n = r.n;
  rest = r.rest;
}

abbrev pub invalid_type : GoError
invalid_type = plain (text "invalid parameter type")

module _ (x : Xdr) where
  -- The switch of `decodeTypedParamValue`.
  unfoldable pub decode_content : ℕ → Bytes → Decoded Content
  decode_content d buf =
      if d == 1
      then as_content int (x.decode_int buf)
      else if d == 2
      then as_content uint (x.decode_uint buf)
      else if d == 3
      then as_content hyper (x.decode_hyper buf)
      else if d == 4
      then as_content uhyper (x.decode_uhyper buf)
      else if d == 5
      then as_content double (x.decode_double buf)
      else if d == 6
      then as_content int (x.decode_int buf)
      else if d == 7
      then as_content string (x.decode_string buf)
      else record { value = err invalid_type; n = 0; rest = buf }

  unfoldable pub decode_typed_param_value : Bytes → Decoded TypedParamValue
  unfolding decode_content
  decode_typed_param_value buf =
      let r = x.decode_uint buf in
      elim r.value [
        | err e ↦ record { value = err e; n = r.n; rest = r.rest }
        | ok d ↦
            let c = decode_content d r.rest in
            record {
              value = elim c.value [ ok i ↦ ok (record { d = d; i = i }) | err e ↦ err e ];
              n = r.n + c.n;
              rest = c.rest;
            }
      ]

  -- `Decode`.
  unfoldable pub decode_typed_param : Bytes → Decoded TypedParam
  decode_typed_param buf =
      let r = x.decode_string buf in
      elim r.value [
        | err e ↦ record { value = err e; n = r.n; rest = r.rest }
        | ok name ↦
            let v = decode_typed_param_value r.rest in
            record {
              value = elim v.value [
                | ok val ↦ ok (record { field = name; value = val })
                | err e ↦ err e
              ];
              n = r.n + v.n;
              rest = v.rest;
            }
      ]
