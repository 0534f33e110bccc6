-- ===== src/Client/Remote.antt =====
-- remote_protocol.gen.go, qemu_protocol.gen.go and libvirt.go: the data of the calls, and a server at
-- the other end of them. What the server answers, and package xdr, are given.
use go_libvirt.Base.{ℕ, List, [], ◌∷◌, ◌++◌, Result, ok, err}
use go_libvirt.Base.Int.{ℤ}
use go_libvirt.Base.Text.{Bytes}
use go_libvirt.Rpc.Errors.{GoError}
use go_libvirt.Rpc.TypedParam.{Decoded, TypedParam}
pub mod Sent

pub record Domain : Type 0 where
  pub name : Bytes
  pub uuid : Bytes
  pub id : ℤ

pub record Network : Type 0 where
  pub name : Bytes
  pub uuid : Bytes

pub record StoragePool : Type 0 where
  pub name : Bytes
  pub uuid : Bytes

pub record Secret : Type 0 where
  pub uuid : Bytes
  pub usage_type : ℤ
  pub usage_id : Bytes

-- What `encode` is given: a struct of arguments, its fields in order. OptDomain and OptString are
-- slices.
pub data Args : Type 0 where
  domain_reboot_args : Domain → ℤ → Args
  domain_reset_args : Domain → ℕ → Args
  domain_destroy_flags_args : Domain → ℤ → Args
  domain_get_xml_desc_args : Domain → ℤ → Args
  domain_lookup_by_name_args : Bytes → Args
  connect_supports_feature_args : ℤ → Args
  storage_pool_lookup_by_name_args : Bytes → Args
  domain_define_xml_flags_args : Bytes → ℤ → Args
  domain_undefine_flags_args : Domain → ℤ → Args
  domain_get_state_args : Domain → ℕ → Args
  domain_set_block_io_tune_args : Domain → Bytes → List TypedParam → ℕ → Args
  domain_get_block_io_tune_args : Domain → List Bytes → ℤ → ℕ → Args
  domain_shutdown_flags_args : Domain → ℤ → Args
  connect_list_all_domains_args : ℤ → ℤ → Args
  connect_list_all_storage_pools_args : ℤ → ℤ → Args
  connect_list_all_secrets_args : ℤ → ℤ → Args
  network_update_args : Network → ℕ → ℕ → ℤ → Bytes → ℤ → Args
  connect_domain_event_callback_register_any_args : ℤ → List Domain → Args
  connect_domain_event_callback_deregister_any_args : ℤ → Args
  qemu_connect_domain_monitor_event_register_args : List Domain → List Bytes → ℕ → Args
  qemu_connect_domain_monitor_event_deregister_args : ℤ → Args
  connect_open_payload : Bytes → Bytes → ℕ → Args
  domain_monitor_command_payload : Domain → Bytes → ℕ → Args

-- A call as `requestStream` sends it.
pub record Request : Type 0 where
  pub proc : ℕ
  pub program : ℕ
  pub payload : Bytes

-- The rest of the system. `answer` is what `requestStream` returns, without streams, behind these
-- requests, the last of which it has sent; `decode` has `xdr.Decoder` at the types of the results;
-- `description` is that of the error that `json.Unmarshal` finds, empty if there is none.
pub record Remote : Type 0 where
  pub answer : List Request → Result GoError Bytes
  pub encode : Args → Result GoError Bytes
  pub decode_string : Bytes → Decoded Bytes
  pub decode_fixed_opaque : ℕ → Bytes → Decoded Bytes
  pub decode_int : Bytes → Decoded ℤ
  pub decode_uint : Bytes → Decoded ℕ
  pub decode_uhyper : Bytes → Decoded ℕ
  pub decode_ints : Bytes → Decoded (List ℤ)
  pub decode_domain : Bytes → Decoded Domain
  pub decode_domains : Bytes → Decoded (List Domain)
  pub decode_pool : Bytes → Decoded StoragePool
  pub decode_pools : Bytes → Decoded (List StoragePool)
  pub decode_secrets : Bytes → Decoded (List Secret)
  pub decode_params : Bytes → Decoded (List TypedParam)
  pub description : Bytes → Result GoError Bytes

-- A call sends requests behind those before, also where it ends with an error. A value that Go
-- returns beside an error is left out.
abbrev pub Call : Type 0 → Type 0
Call A = List Request → Result GoError A × List Request

abbrev pub give : {A : Type 0} → Result GoError A → Call A
give r sent = (r, sent)

abbrev pub return : {A : Type 0} → A → Call A
return a = give (ok a)

infixl 5 ◌>>=◌ ◌>>◌
abbrev pub ◌>>=◌ : {A B : Type 0} → Call A → (A → Call B) → Call B
◌>>=◌ m f sent = let (r, then) = m sent in elim r [ ok a ↦ f a then | err e ↦ (err e, then) ]

abbrev pub ◌>>◌ : {A B : Type 0} → Call A → Call B → Call B
m >> k = m >>= λ _. k

abbrev pub Nothing : Type 0
Nothing = Unit {0}

module _ (l : Remote) where
  -- `l.requestStream(proc, program, payload, nil, nil)`, and `l.request`.
  unfoldable pub send : ℕ → ℕ → Bytes → Call Bytes
  send proc program payload sent =
      let then = sent ++ (record { proc = proc; program = program; payload = payload } ∷ []) in
      (l.answer then, then)

  -- A wrapper: `encode`, the request, and the reply.
  unfoldable pub call : ℕ → ℕ → Args → Call Bytes
  call proc program args = do buf ← give (l.encode args); send proc program buf

  -- A wrapper that has nothing to decode.
  unfoldable pub command : ℕ → ℕ → Args → Call Nothing
  command proc program args = do _ ← call proc program args; return tt

  -- One that decodes one value.
  unfoldable pub query : {A : Type 0} → (Bytes → Decoded A) → ℕ → ℕ → Args → Call A
  query decode proc program args = do reply ← call proc program args; give (decode reply).value

  -- One that decodes two, of which the callers use the first.
  unfoldable pub query_two :
      {A B : Type 0} → (Bytes → Decoded A) → (Bytes → Decoded B) → ℕ → ℕ → Args → Call (A × B)
  query_two first second proc program args = do
    reply ← call proc program args
    a ← give (first reply).value
    b ← give (second (first reply).rest).value
    return (a, b)
