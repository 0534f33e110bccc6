-- ===== src/Rpc/Errors.antt =====
-- rpc.go: the errors of a request. The decoder of XDR is a parameter.
use go_libvirt.Base.{
  ℕ, ◌≡◌, ◌↔◌, Bool, true, false, Option, none, some, arith, Result, ok, err, ◌==◌, ==_iff,
  if◌then◌else◌,
}
use go_libvirt.Base.Text.{Bytes, text, contains}

-- The values of `error` that the package returns: libvirt's own, the two sentinels,
-- `syscall.EINVAL`, any other that wraps none, and one that wraps another.
pub data GoError : Type 0 where
  libvirt_error : ℕ → Bytes → GoError
  unsupported interrupted einval : GoError
  plain : Bytes → GoError
  wrapped : Bytes → GoError → GoError

-- ErrOk and ErrNoDomain of const.gen.go.
abbrev pub err_ok : ℕ
err_ok = 0

abbrev pub err_no_domain : ℕ
err_no_domain = 42

-- The loop of `checkError`, on an error that is not nil.
check_chain : GoError → ℕ → Bool
check_chain (libvirt_error code message) expected = code == expected
check_chain (wrapped message e) expected = check_chain e expected
check_chain _ expected = false

-- `checkError`; nil is `none`.
unfoldable pub check_error : Option GoError → ℕ → Bool
unfolding check_chain
check_error none expected = false
check_error (some e) expected = check_chain e expected

unfoldable pub is_not_found : Option GoError → Bool
unfolding check_error
is_not_found e = check_error e err_no_domain

-- The struct that `decodeError` decodes.
pub record ErrorBody : Type 0 where
  pub code : ℕ
  pub domain_id : ℕ
  pub padding : ℕ
  pub message : Bytes
  pub level : ℕ

abbrev pub unknown_procedure : Bytes
unknown_procedure = text "unknown procedure"

-- `decodeError`, over what `dec.Decode` makes of the buffer.
unfoldable pub decode_error : (Bytes → Result GoError ErrorBody) → Bytes → Option GoError
decode_error decode buf = elim (decode buf) [
  | err e ↦ some e
  | ok e ↦
      if contains e.message unknown_procedure
      then some unsupported
      else if e.code == err_ok
      then none
      else some (libvirt_error e.code e.message)
]

-- An error is a libvirt error with this code, or wraps one, at any depth.
pub data HasCode (code : ℕ) : GoError → Type 0 where
  here : {c : ℕ} {message : Bytes} → c ≡ code → HasCode code (libvirt_error c message)
  inside : {message : Bytes} {e : GoError} → HasCode code e → HasCode code (wrapped message e)

check_chain_sound : (e : GoError) (code : ℕ) → check_chain e code ≡ true → HasCode code e
unfolding check_chain
check_chain_sound (libvirt_error c m) code h = here ((==_iff c code).0 h)
check_chain_sound (wrapped m e) code h = inside (check_chain_sound e code h)
check_chain_sound unsupported code h = cc
check_chain_sound interrupted code h = cc
check_chain_sound einval code h = cc
check_chain_sound (plain m) code h = cc

check_chain_complete : (code : ℕ) {e : GoError} → HasCode code e → check_chain e code ≡ true
unfolding check_chain
check_chain_complete code (here {c} same) = (==_iff c code).1 same
check_chain_complete code (inside h) = check_chain_complete code h

-- `checkError` answers true exactly for a libvirt error with the expected code, and for an error
-- that wraps one at any depth.
pub check_error-HasCode :
    (e : GoError) (code : ℕ) → (check_error (some e) code ≡ true) ↔ HasCode code e
unfolding check_error
check_error-HasCode e code = (check_chain_sound e code, check_chain_complete code)

-- An error reply that can be read is "not found" exactly if its code is `ErrNoDomain` and its message
-- does not contain "unknown procedure".
pub decode_error-is_not_found :
    (decode : Bytes → Result GoError ErrorBody) (buf : Bytes) (body : ErrorBody)
    → decode buf ≡ ok body
    → (is_not_found (decode_error decode buf) ≡ true)
      ↔ ((body.code ≡ err_no_domain) × (contains body.message unknown_procedure ≡ false))
unfolding is_not_found decode_error
decode_error-is_not_found decode buf body h =
    rw (h, decode_error) ((λ p. (ground arith, ground arith)), (λ p. ground arith))
