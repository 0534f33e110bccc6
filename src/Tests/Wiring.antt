-- ===== src/Tests/Wiring.antt =====
-- Calls of a client over requestStream, with a server that answers the first and no more.
use go_libvirt.Base.{
  ℕ, ◌≡◌, ◌≢◌, ◌↔◌, refl, sym, ◌∙◌, ap, true, false, Option, none, some, List, [], ◌∷◌, arith, err,
  ◌==◌, if◌then◌else◌,
}
use go_libvirt.Base.Int.{pos}
use go_libvirt.Base.Text.{text}
use go_libvirt.Rpc.Callbacks.{register, deregister, deregister_all}
use go_libvirt.Rpc.Route.{remote_program}
use go_libvirt.Base.Map
use go_libvirt.Base.Map.{insert}
use go_libvirt.Rpc.Errors.{GoError, interrupted, unsupported, check_error, decode_error}
use go_libvirt.Rpc.Request.{Inbox, request, request_stream, get_response, check_response}
use go_libvirt.Rpc.Request.Streams.{inbox_of}
use go_libvirt.Client.Remote.{Remote, Request, send, call, command, query}
use go_libvirt.Client.Bindings.{domain_lookup_by_name, domain_reset, connect_supports_feature}
use go_libvirt.Client.Operations.{lookup, reset, network_update_compat}
use go_libvirt.Client.Wired.{ClientCall, IsWired, perform, result_of}
use go_libvirt.Client.Wired.ClientCall.{reset_it, update_network}
use go_libvirt.Client.Wired.Lost.{IsLost, lost_connection_reported}
use go_libvirt.Client.Wired.Refused.{IsRefused, refused_call-check_error}
use go_libvirt.Client.Wired.Reports.{Carries}
use go_libvirt.Tests.Requests.{
  decode_body, errors, waiting_caller, waiting_caller-IsWell, waiting_7,
}
use go_libvirt.Tests.Server.{server, last_of, no_request, some_reply}

abbrev wired_server : (List Request → Option GoError × Inbox) → Remote
wired_server arrives = record server {
  answer = λ sent. elim (request errors (arrives sent).0 (arrives sent).1) [
    | none ↦ err unsupported
    | some f ↦ result_of f
  ];
}

wired_server-IsWired :
    (arrives : List Request → Option GoError × Inbox)
    → IsWired (wired_server arrives) errors arrives
wired_server-IsWired arrives = record {
  wired = λ sent f h. ap (λ x. elim x [ none ↦ err unsupported | some g ↦ result_of g ]) h;
}

-- The domain is found, and then the connection is lost.
abbrev then_lost : List Request → Option GoError × Inbox
then_lost sent =
    if (last_of sent no_request).proc == 23
    then (
      none,
      record { pending = record { payload = some_reply; status = 0 } ∷ []; closed = false },
    )
    else (none, inbox_of 1 [] (deregister_all waiting_caller))

abbrev looked_and_reset : List Request
looked_and_reset =
    record { proc = 23; program = remote_program; payload = 9 ∷ [] }
    ∷ record { proc = 245; program = remote_program; payload = 9 ∷ [] }
    ∷ []

reset_sent : (perform (wired_server then_lost) [] (reset_it (text "guest")) []).1 ≡ looked_and_reset
unfolding reset lookup domain_lookup_by_name domain_reset query command call send request_stream
    get_response check_response deregister_all register deregister insert Map.lookup
reset_sent = refl

reset_asks : (perform (wired_server then_lost) [] (reset_it (text "guest")) []).1 ≢ []
reset_asks = λ e. absurd (ground (arith, sym reset_sent ∙ e))

reset-IsLost :
    IsLost (then_lost (perform (wired_server then_lost) [] (reset_it (text "guest")) []).1)
reset-IsLost = record {
  calls = waiting_caller;
  call_id = pos 7;
  channel = 1;
  well = waiting_caller-IsWell;
  registered = waiting_7;
  lost = ap then_lost reset_sent;
}

lost_connection_reported_example :
    (x : GoError) × ((perform (wired_server then_lost) [] (reset_it (text "guest")) []).0 ≡ err x)
    × Carries interrupted x
lost_connection_reported_example =
    lost_connection_reported (wired_server then_lost) errors then_lost
      (wired_server-IsWired then_lost) [] (reset_it (text "guest")) [] reset_asks reset-IsLost

-- The question of the order of arguments is refused, with the code 42.
abbrev then_refused : List Request → Option GoError × Inbox
then_refused sent = (
  none,
  record { pending = record { payload = 42 ∷ text "no domain"; status = 1 } ∷ []; closed = false },
)

abbrev update : ClientCall
update =
    update_network (record { name = text "default"; uuid = [] }) (pos 3) (pos 4) (pos 0)
      (text "<host/>") (pos 0)

update_asks : (perform (wired_server then_refused) [] update []).1 ≢ []
unfolding network_update_compat connect_supports_feature query call send request_stream get_response
    check_response decode_error
update_asks = λ e. cc

update-IsRefused :
    IsRefused decode_body
      (then_refused (perform (wired_server then_refused) [] update []).1)
      (record { code = 42; domain_id = 0; padding = 0; message = text "no domain"; level = 2 })
update-IsRefused = record {
  sent = refl;
  response = record { payload = 42 ∷ text "no domain"; status = 1 };
  rest = [];
  first = refl;
  error_status = refl;
  read = refl;
  known = refl;
  bad = λ e. absurd (ground arith);
}

refused_call-check_error_example :
    (x : GoError) × ((perform (wired_server then_refused) [] update []).0 ≡ err x)
    × ((code : ℕ) → (check_error (some x) code ≡ true) ↔ (42 ≡ code))
refused_call-check_error_example =
    refused_call-check_error (wired_server then_refused) decode_body then_refused
      (wired_server-IsWired then_refused) [] update []
      (record { code = 42; domain_id = 0; padding = 0; message = text "no domain"; level = 2 })
      update_asks update-IsRefused
