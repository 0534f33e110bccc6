-- ===== src/Tests/Server.antt =====
-- A concrete server, with one domain.
use go_libvirt.Base.{
  ℕ, ◌==◌, leb, ◌≡◌, refl, ap, List, [], ◌∷◌, length, Result, ok, err, if◌then◌else◌,
}
use go_libvirt.Base.Int.{pos}
use go_libvirt.Base.Text.{Bytes, text}
use go_libvirt.Rpc.Errors.{GoError, unsupported}
use go_libvirt.Rpc.TypedParam.{Decoded, TypedParam}
use go_libvirt.Client.Remote.{Remote, Request, Args, Domain}
use go_libvirt.Client.Remote.Args.{domain_set_block_io_tune_args, domain_get_block_io_tune_args}
use go_libvirt.Client.Remote.Sent.{with_request}
use go_libvirt.Client.Operations.{BlockLimit, param_of}

abbrev pub guest : Domain
guest = record { name = text "guest"; uuid = []; id = pos 1 }

abbrev pub limit : BlockLimit
limit = record { name = text "write_bytes_sec"; value = 1000000 }

abbrev pub encode_args : Args → Result GoError Bytes
encode_args (domain_set_block_io_tune_args d disk params flags) = ok (7 ∷ [])
encode_args (domain_get_block_io_tune_args d (disk ∷ []) nparams flags) = ok (8 ∷ disk)
encode_args _ = ok (9 ∷ [])

abbrev pub last_of : List Request → Request → Request
last_of [] r = r
last_of (r ∷ rest) q = last_of rest r

abbrev pub no_request : Request
no_request = record { proc = 0; program = 0; payload = [] }

abbrev pub decoded : {A : Type 0} → A → Bytes → Decoded A
decoded a s = record { value = ok a; n = 0; rest = s }

abbrev pub params_of_reply : Bytes → List TypedParam
params_of_reply [] = []
params_of_reply (_ ∷ _) = param_of limit ∷ []

-- A reply that has a command's in it as well.
abbrev pub some_reply : Bytes
some_reply = 0 ∷ 0 ∷ 0 ∷ 2 ∷ b'{' ∷ b'}' ∷ 0 ∷ 0 ∷ []

abbrev pub reply_to : Request → List Request → Bytes
reply_to r sent = if r.proc == 253 then 1 ∷ [] else some_reply

abbrev pub server : Remote
server = record {
  answer = λ sent. ok (reply_to (last_of sent no_request) sent);
  encode = encode_args;
  decode_string = λ s.
      if leb 4 (length s)
      then decoded (text "{}") s
      else record { value = err unsupported; n = 0; rest = s };
  decode_fixed_opaque = λ n s. decoded s [];
  decode_int = decoded (pos 5);
  decode_uint = decoded 1;
  decode_uhyper = decoded 6002003;
  decode_ints = decoded (pos 1 ∷ pos 2 ∷ pos 0 ∷ []);
  decode_domain = decoded guest;
  decode_domains = decoded (guest ∷ []);
  decode_pool = decoded (record { name = text "pool"; uuid = [] });
  decode_pools = decoded [];
  decode_secrets = decoded [];
  decode_params = λ s. decoded (params_of_reply s) s;
  description = λ s. ok [];
}

pub last_of-with_request :
    (sent : List Request) (proc program : ℕ) (payload : Bytes) (q : Request)
    → last_of (with_request proc program payload sent) q
      ≡ record { proc = proc; program = program; payload = payload }
last_of-with_request [] proc program payload q = refl
last_of-with_request (r ∷ sent) proc program payload q =
    last_of-with_request sent proc program payload r

pub answered :
    (sent : List Request) (proc program : ℕ) (payload : Bytes)
    → let all = with_request proc program payload sent in
      server.answer all
      ≡ ok (reply_to (record { proc = proc; program = program; payload = payload }) all)
answered sent proc program payload =
    ap (λ r. ok (reply_to r (with_request proc program payload sent)))
      (last_of-with_request sent proc program payload no_request)

pub encode_args-ok : (args : Args) → (buf : Bytes) × (encode_args args ≡ ok buf)
encode_args-ok (domain_set_block_io_tune_args d disk params flags) = (_, refl)
encode_args-ok (domain_get_block_io_tune_args d (disk ∷ []) nparams flags) = (_, refl)
encode_args-ok _ = (_, refl)
