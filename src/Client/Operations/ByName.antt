-- ===== src/Client/Operations/ByName.antt =====
-- What the operations on a domain by its name send.
use go_libvirt.Base.{
  ℕ, ◌∙◌, ◌≡◌, List, [], ◌∷◌, map, arith, Result, ok, err, Result-cases, inl, inr,
}
use go_libvirt.Base.Int.{ℤ, pos}
use go_libvirt.Base.Text.{Bytes}
use go_libvirt.Rpc.Errors.{GoError}
use go_libvirt.Rpc.Route.{remote_program, qemu_program}
use go_libvirt.Client.Remote.{Remote, Call, ◌>>=◌, return, Request, Args, Domain, send, call, query}
use go_libvirt.Client.Remote.Args.{
  domain_reboot_args, domain_reset_args, domain_destroy_flags_args, domain_get_xml_desc_args,
  domain_lookup_by_name_args, domain_undefine_flags_args, domain_get_state_args,
  domain_set_block_io_tune_args, domain_get_block_io_tune_args, domain_shutdown_flags_args,
  domain_monitor_command_payload,
}
use go_libvirt.Client.Remote.Sent.{requests, with_request, command-sent, query-sent, query_two-sent}
use go_libvirt.Client.Bindings.{
  domain_get_xml_desc, domain_lookup_by_name, domain_reboot, domain_get_state,
  domain_undefine_flags, domain_destroy_flags, domain_reset, domain_set_block_io_tune,
  domain_get_block_io_tune, domain_shutdown_flags,
}
use go_libvirt.Client.Operations.{
  BlockLimit, param_of, limit_of, lookup, domain_state, undefine, destroy, xml, shutdown, reboot,
  reset, set_block_io_tune, get_block_io_tune,
}
use go_libvirt.Client.Monitor.{run, run_in, qemu_proc_domain_monitor_command}
use go_libvirt.Client.Constants.{
  proc_domain_get_state, proc_domain_reset, proc_domain_undefine_flags, proc_domain_destroy_flags,
  proc_domain_get_xml_desc, proc_domain_shutdown_flags, proc_domain_reboot,
  proc_domain_set_block_io_tune, proc_domain_get_block_io_tune, proc_domain_lookup_by_name,
}

-- The operations, each with its arguments other than the name.
pub data Operation : Type 0 where
  state_of reset_it : Operation
  undefine_it destroy_it describe shut_down reboot_it : ℤ → Operation
  set_tune : Bytes → List BlockLimit → Operation
  get_tune : Bytes → Operation
  run_command : Bytes → Operation

-- The call that each stands for, by libvirt's numbers of its procedures.
abbrev pub number : Operation → ℕ × ℕ
number state_of = (proc_domain_get_state, remote_program)
number reset_it = (proc_domain_reset, remote_program)
number (undefine_it flags) = (proc_domain_undefine_flags, remote_program)
number (destroy_it flags) = (proc_domain_destroy_flags, remote_program)
number (describe flags) = (proc_domain_get_xml_desc, remote_program)
number (shut_down flags) = (proc_domain_shutdown_flags, remote_program)
number (reboot_it flags) = (proc_domain_reboot, remote_program)
number (set_tune disk limits) = (proc_domain_set_block_io_tune, remote_program)
number (get_tune disk) = (proc_domain_get_block_io_tune, remote_program)
number (run_command cmd) = (qemu_proc_domain_monitor_command, qemu_program)

abbrev pub args_of : Operation → Domain → Args
args_of state_of d = domain_get_state_args d 0
args_of reset_it d = domain_reset_args d 0
args_of (undefine_it flags) d = domain_undefine_flags_args d flags
args_of (destroy_it flags) d = domain_destroy_flags_args d flags
args_of (describe flags) d = domain_get_xml_desc_args d flags
args_of (shut_down flags) d = domain_shutdown_flags_args d flags
args_of (reboot_it flags) d = domain_reboot_args d flags
args_of (set_tune disk limits) d = domain_set_block_io_tune_args d disk (map param_of limits) 1
args_of (get_tune disk) d = domain_get_block_io_tune_args d (disk ∷ []) (pos 32) 4
args_of (run_command cmd) d = domain_monitor_command_payload d cmd 0

module _ (l : Remote) where
  -- The requests behind an operation, its error aside.
  abbrev pub after : Operation → Bytes → List Request → List Request
  after state_of name sent = (domain_state l name sent).1
  after reset_it name sent = (reset l name sent).1
  after (undefine_it flags) name sent = (undefine l name flags sent).1
  after (destroy_it flags) name sent = (destroy l name flags sent).1
  after (describe flags) name sent = (xml l name flags sent).1
  after (shut_down flags) name sent = (shutdown l name flags sent).1
  after (reboot_it flags) name sent = (reboot l name flags sent).1
  after (set_tune disk limits) name sent = (set_block_io_tune l name disk limits sent).1
  after (get_tune disk) name sent = (get_block_io_tune l name disk sent).1
  after (run_command cmd) name sent = (run l name cmd sent).1

  -- The domain that the server finds, and what is sent to find it.
  abbrev pub found : Bytes → List Request → Result GoError Domain
  found name sent = elim (l.encode (domain_lookup_by_name_args name)) [
    | err e ↦ err e
    | ok buf ↦ elim (l.answer (with_request proc_domain_lookup_by_name remote_program buf sent)) [
      | err e ↦ err e
      | ok reply ↦ (l.decode_domain reply).value
    ]
  ]

  -- The rest of an operation, behind the lookup.
  abbrev pub for_domain :
      Result GoError Domain → (Domain → List Request) → List Request → List Request
  for_domain (err e) rest sent = sent
  for_domain (ok d) rest sent = rest d

  by_lookup :
      {A : Type 0} (name : Bytes) (sent : List Request) (rest : Domain → Call A) (proc program : ℕ)
      (args : Domain → Args)
      → ((d : Domain) (looked : List Request)
          → (rest d looked).1 ≡ requests l proc program (args d) looked)
      → let looked =
          requests l proc_domain_lookup_by_name remote_program
            (domain_lookup_by_name_args name)
            sent in
        ((lookup l name >>= rest) sent).1
        ≡ for_domain (found name sent) (λ d. requests l proc program (args d) looked) looked
  unfolding lookup domain_lookup_by_name query call send
  by_lookup name sent rest proc program args h =
      elim (Result-cases (l.encode (domain_lookup_by_name_args name))) [
        | inr (e, bad) ↦ ground (arith, bad)
        | inl (buf, encoded) ↦
            elim (Result-cases
              (l.answer (with_request proc_domain_lookup_by_name remote_program buf sent))) [
                | inr (e, bad) ↦ ground (arith, encoded, bad)
                | inl (reply, answered) ↦ elim (Result-cases (l.decode_domain reply).value) [
                  | inr (e, bad) ↦ ground (arith, encoded, answered, bad)
                  | inl (d, decoded) ↦ ground (
                    arith,
                    encoded,
                    answered,
                    decoded,
                    h d (with_request proc_domain_lookup_by_name remote_program buf sent),
                  )
                ]
              ]
      ]

  run_in-sent :
      (d : Domain) (cmd : Bytes) (sent : List Request)
      → (run_in l cmd d sent).1
        ≡ requests l 1 qemu_program (domain_monitor_command_payload d cmd 0) sent
  unfolding send
  run_in-sent d cmd sent = ground arith

  map-sent :
      {A B : Type 0} (m : Call A) (f : A → B) (sent : List Request)
      → ((m >>= λ a. return (f a)) sent).1 ≡ (m sent).1
  map-sent m f sent = ground arith

  -- An operation on a domain by its name first looks the domain up. It ends there, with no further
  -- request, if that fails; otherwise it sends the one request of its number, for the domain found, if
  -- that can be encoded, and no more, whatever the server answers.
  pub after-requests :
      (o : Operation) (name : Bytes) (sent : List Request)
      → let looked =
          requests l proc_domain_lookup_by_name remote_program
            (domain_lookup_by_name_args name)
            sent in
        after o name sent
        ≡ for_domain
            (found name sent)
            (λ d. requests l (number o).0 (number o).1 (args_of o d) looked)
            looked
  unfolding domain_state reset undefine destroy xml shutdown reboot set_block_io_tune
      get_block_io_tune run domain_get_state domain_reset domain_undefine_flags domain_destroy_flags
      domain_get_xml_desc domain_shutdown_flags domain_reboot domain_set_block_io_tune
      domain_get_block_io_tune
  after-requests state_of name sent =
      by_lookup name sent (λ d. domain_get_state l d 0 >>= λ r. return r.0) 212 remote_program
        (args_of state_of)
        (λ d looked.
          map-sent (domain_get_state l d 0) (λ r. r.0) looked
          ∙ query_two-sent l 212 remote_program (args_of state_of d) looked l.decode_int
              l.decode_int)
  after-requests reset_it name sent =
      by_lookup name sent (λ d. domain_reset l d 0) 245 remote_program (args_of reset_it)
        (λ d looked. command-sent l 245 remote_program (args_of reset_it d) looked)
  after-requests (undefine_it flags) name sent =
      by_lookup name sent (λ d. domain_undefine_flags l d flags) 231 remote_program
        (args_of (undefine_it flags))
        (λ d looked. command-sent l 231 remote_program (args_of (undefine_it flags) d) looked)
  after-requests (destroy_it flags) name sent =
      by_lookup name sent (λ d. domain_destroy_flags l d flags) 234 remote_program
        (args_of (destroy_it flags))
        (λ d looked. command-sent l 234 remote_program (args_of (destroy_it flags) d) looked)
  after-requests (describe flags) name sent =
      by_lookup name sent (λ d. domain_get_xml_desc l d flags) 14 remote_program
        (args_of (describe flags))
        (λ d looked.
          query-sent l 14 remote_program (args_of (describe flags) d) looked l.decode_string)
  after-requests (shut_down flags) name sent =
      by_lookup name sent (λ d. domain_shutdown_flags l d flags) 258 remote_program
        (args_of (shut_down flags))
        (λ d looked. command-sent l 258 remote_program (args_of (shut_down flags) d) looked)
  after-requests (reboot_it flags) name sent =
      by_lookup name sent (λ d. domain_reboot l d flags) 27 remote_program
        (args_of (reboot_it flags))
        (λ d looked. command-sent l 27 remote_program (args_of (reboot_it flags) d) looked)
  after-requests (set_tune disk limits) name sent =
      by_lookup name sent (λ d. domain_set_block_io_tune l d disk (map param_of limits) 1) 252
        remote_program (args_of (set_tune disk limits))
        (λ d looked. command-sent l 252 remote_program (args_of (set_tune disk limits) d) looked)
  after-requests (get_tune disk) name sent =
      by_lookup name sent
        (λ d.
          domain_get_block_io_tune l d (disk ∷ []) (pos 32) 4 >>= λ r. return (map limit_of r.0))
        253 remote_program (args_of (get_tune disk))
        (λ d looked.
          map-sent (domain_get_block_io_tune l d (disk ∷ []) (pos 32) 4) (λ r. map limit_of r.0)
            looked
          ∙ query_two-sent l 253 remote_program (args_of (get_tune disk) d) looked l.decode_params
              l.decode_int)
  after-requests (run_command cmd) name sent =
      by_lookup name sent (run_in l cmd) 1 qemu_program (args_of (run_command cmd))
        (λ d looked. run_in-sent d cmd looked)
