-- ===== src/Client/Wired/Refused.antt =====
-- A call whose last request is answered with an error.
use go_libvirt.Base.{
  ℕ, ◌≡◌, ◌≢◌, ◌↔◌, refl, Bool, true, false, Option, none, some, List, ◌∷◌, Result, ok, err, arith,
}
use go_libvirt.Base.Text.{Bytes, contains}
use go_libvirt.Rpc.Callbacks.{Response}
use go_libvirt.Rpc.Errors.{
  GoError, libvirt_error, ErrorBody, decode_error, check_error, HasCode, check_error-HasCode,
  unknown_procedure, err_ok,
}
use go_libvirt.Rpc.Errors.HasCode.{inside}
use go_libvirt.Rpc.Request.{Inbox, request, request_stream, get_response, check_response}
use go_libvirt.Socket.Packet.{status_error}
use go_libvirt.Client.Remote.{Remote, Request}
use go_libvirt.Client.Wired.{ClientCall, IsWired, perform}
use go_libvirt.Client.Wired.Lost.{error_reported}
use go_libvirt.Client.Wired.Reports.{Carries}

-- The codes of an error of libvirt, as itself or wrapped in others.
Carries-HasCode :
    {c code : ℕ} {message : Bytes} {x : GoError}
    → Carries (libvirt_error c message) x
    → HasCode code x
    → c ≡ code
Carries-HasCode Carries.here (HasCode.here same) = same
Carries-HasCode (Carries.within m carried) (inside h) = Carries-HasCode carried h

HasCode-Carries :
    (c : ℕ) (message : Bytes) {x : GoError} → Carries (libvirt_error c message) x → HasCode c x
HasCode-Carries c message Carries.here = HasCode.here refl
HasCode-Carries c message (Carries.within m carried) = inside (HasCode-Carries c message carried)

decode_error_known :
    (decode : Bytes → Result GoError ErrorBody) (buf : Bytes) (body : ErrorBody)
    → decode buf ≡ ok body
    → contains body.message unknown_procedure ≡ false
    → body.code ≢ err_ok
    → decode_error decode buf ≡ some (libvirt_error body.code body.message)
unfolding decode_error
decode_error_known decode buf body read known bad = rw (read, decode_error) (ground arith)

-- The packet of a request has been sent, and the first response on its caller's channel is an error of
-- libvirt, which it has for this body.
pub record IsRefused (decode : Bytes → Result GoError ErrorBody) (arrived : Option GoError × Inbox)
    (body : ErrorBody) : Type 0 where
  pub sent : arrived.0 ≡ none
  pub response : Response
  pub rest : List Response
  pub first : arrived.1.pending ≡ response ∷ rest
  pub error_status : response.status ≡ status_error
  pub read : decode response.payload ≡ ok body
  pub known : contains body.message unknown_procedure ≡ false
  pub bad : body.code ≢ err_ok

request_error :
    (errors : Bytes → Option GoError) (r : Response) (rest : List Response) (closed : Bool)
    (e : GoError)
    → r.status ≡ status_error
    → errors r.payload ≡ some e
    → request errors none (record { pending = r ∷ rest; closed = closed })
      ≡ some (record { reply = (r, some e); aborted = false; sink = none })
unfolding request_stream get_response check_response
request_error errors r rest closed e bad read = ground arith

request-IsRefused :
    (decode : Bytes → Result GoError ErrorBody) (arrived : Option GoError × Inbox)
    (body : ErrorBody) (refused : IsRefused decode arrived body)
    → request (decode_error decode) arrived.0 arrived.1
      ≡ some (record {
        reply = (refused.response, some (libvirt_error body.code body.message));
        aborted = false;
        sink = none;
      })
request-IsRefused decode arrived body refused =
    rw (refused.sent, refused.first)
      (request_error (decode_error decode) refused.response refused.rest arrived.1.closed
        (libvirt_error body.code body.message) refused.error_status
        (decode_error_known decode refused.response.payload body refused.read refused.known
          refused.bad))

-- Over requestStream: a call of the client, a subscription included but not Disconnect, has sent a
-- request, and its last request is answered with an error of libvirt that has a code other than ErrOk and
-- does not speak of an unknown procedure. The call returns with an error, for which checkError is true of
-- this code and of no other, also where NetworkUpdateCompat wraps it.
pub refused_call-check_error :
    (l : Remote) (decode : Bytes → Result GoError ErrorBody)
    (arrives : List Request → Option GoError × Inbox)
    → IsWired l (decode_error decode) arrives
    → (uri : Bytes) (c : ClientCall) (sent : List Request) (body : ErrorBody)
    → (perform l uri c sent).1 ≢ sent
    → IsRefused decode (arrives (perform l uri c sent).1) body
    → (x : GoError) × ((perform l uri c sent).0 ≡ err x)
      × ((code : ℕ) → (check_error (some x) code ≡ true) ↔ (body.code ≡ code))
refused_call-check_error l decode arrives wire uri c sent body asked refused =
    let (x, bad, carried) =
      error_reported l (decode_error decode) arrives wire uri c sent _
        (libvirt_error body.code body.message) asked
        (request-IsRefused decode (arrives (perform l uri c sent).1) body refused) refl in
    (
      x,
      bad,
      λ code.
          let (there, back) = check_error-HasCode x code in
          (
            (λ h. Carries-HasCode carried (there h)),
            (λ same. rw⁻¹ same (
                (check_error-HasCode x body.code).1
                  (HasCode-Carries body.code body.message carried))),
          ),
    )
