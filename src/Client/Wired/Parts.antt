-- ===== src/Client/Wired/Parts.antt =====
-- What the calls of libvirt.go are made of, and which of them report an error of their last request.
use go_libvirt.Base.{
  sym, err-ne-ok, ℕ, Bool-cases, ap, inl, inr, List, [], ◌∷◌, length, Result, ok, err,
  if◌then◌else◌,
}
use go_libvirt.Base.Int.{ℤ, pos, uint32, ◌==ℤ◌}
use go_libvirt.Base.Text.{Bytes}
use go_libvirt.Rpc.Errors.{GoError, wrapped}
use go_libvirt.Rpc.TypedParam.{Decoded}
use go_libvirt.Rpc.Route.{remote_program, qemu_program}
use go_libvirt.Client.Remote.{Remote, Request, Domain, Network, Call, ◌>>=◌, give, return, send}
use go_libvirt.Client.Bindings.{
  plain_query, auth_list, auth_polkit, domain_lookup_by_name, connect_supports_feature,
  network_update,
}
use go_libvirt.Client.Operations.{
  lookup, network_update_compat, with_prefix, has_correct_order_feature,
}
use go_libvirt.Client.Login.{authenticate_by, authenticate, init_libvirt_comms, auth_none, polkit}
use go_libvirt.Client.Monitor.{from_four, trimmed, run_in, get_qemu_error}
use go_libvirt.Client.Subscriptions.{open_stream}
use go_libvirt.Rpc.Events.{Events}
use go_libvirt.Client.Wired.{quiet, subscribed}
use go_libvirt.Client.Wired.Reports.{
  after_err, Carries, EndsWith, Reports, err_injective, give-Reports, send-Reports, bind-Reports,
  command-Reports, query-Reports,
}

module _ (l : Remote) where
  pub quiet-Reports : {A : Type 0} (m : Call A) → Reports l m → Reports l (quiet m)
  quiet-Reports m h = bind-Reports l m (λ _. return tt) h (λ _. give-Reports l (ok tt))

  pub first-Reports :
      {A B : Type 0} (m : Call (A × B)) → Reports l m → Reports l (m >>= λ (a, b). return a)
  first-Reports m h = bind-Reports l m (λ (a, b). return a) h (λ (a, b). give-Reports l (ok a))

  pub plain_query-Reports :
      {A : Type 0} (decode : Bytes → Decoded A) (proc : ℕ) → Reports l (plain_query l decode proc)
  plain_query-Reports decode proc =
      bind-Reports l (send l proc remote_program []) (λ reply. give (decode reply).value)
        (send-Reports l proc remote_program []) (λ reply. give-Reports l (decode reply).value)

  lookup-Reports : (dom : Bytes) → Reports l (lookup l dom)
  unfolding lookup domain_lookup_by_name
  lookup-Reports dom = query-Reports l l.decode_domain 23 remote_program _

  pub by_name-Reports :
      {A : Type 0} (dom : Bytes) (f : Domain → Call A)
      → ((d : Domain) → Reports l (f d))
      → Reports l (lookup l dom >>= f)
  by_name-Reports dom f = bind-Reports l (lookup l dom) f (lookup-Reports dom)

  authenticate_by-Reports : (types : List ℤ) → Reports l (authenticate_by l types)
  unfolding authenticate_by auth_polkit
  authenticate_by-Reports [] = give-Reports l (ok tt)
  authenticate_by-Reports (auth ∷ rest) = elim (Bool-cases (auth ==ℤ auth_none)) [
    | inl e ↦ rw e (give-Reports l (ok tt))
    | inr e ↦ elim (Bool-cases (auth ==ℤ polkit)) [
      | inl p ↦ rw (e, p) (quiet-Reports (auth_polkit l) (plain_query-Reports l.decode_int 70))
      | inr p ↦ rw (e, p) (authenticate_by-Reports rest)
    ]
  ]

  authenticate-Reports : Reports l (authenticate l)
  unfolding authenticate auth_list
  authenticate-Reports =
      bind-Reports l (auth_list l) (authenticate_by l) (plain_query-Reports l.decode_ints 66)
        authenticate_by-Reports

  pub init_libvirt_comms-Reports : (uri : Bytes) → Reports l (init_libvirt_comms l uri)
  unfolding init_libvirt_comms
  init_libvirt_comms-Reports uri = bind-Reports l (give _) _ (give-Reports l _) (λ buf.
      bind-Reports l (authenticate l) _ authenticate-Reports
        (λ _. quiet-Reports _ (send-Reports l 1 remote_program buf)))

  pub run_in-Reports : (cmd : Bytes) (d : Domain) → Reports l (run_in l cmd d)
  run_in-Reports cmd d = bind-Reports l (give _) _ (give-Reports l _) (λ buf.
      bind-Reports l (send l 1 qemu_program buf) _ (send-Reports l 1 qemu_program buf) (λ res.
        bind-Reports l (give (get_qemu_error l res)) _ (give-Reports l _) (λ _.
          bind-Reports l (give (l.decode_fixed_opaque (length res) res).value) _ (give-Reports l _)
            (λ opaque. give-Reports l (ok (trimmed (from_four opaque)))))))

  -- An error under a message.
  with_prefix-Ends :
      {A : Type 0} (message : Bytes) (sent after : List Request) (r : Result GoError A)
      → EndsWith l sent (r, after)
      → EndsWith l {A = A} sent
          (elim r [ ok a ↦ (ok a, after) | err e ↦ (err (wrapped message e), after) ])
  with_prefix-Ends message sent after (ok a) told = told
  with_prefix-Ends message sent after (err x) (inl same) = inl same
  with_prefix-Ends message sent after (err x) (inr told) = inr (λ e h.
      let (y, is, carried) = told e h in
      (
        wrapped message y,
        ap (λ z. err (wrapped message z)) (err_injective is),
        Carries.within message carried,
      ))

  with_prefix-Reports :
      {A : Type 0} (message : Bytes) (m : Call A) → Reports l m → Reports l (with_prefix message m)
  with_prefix-Reports message m h = record {
    reports = λ sent. with_prefix-Ends message sent (m sent).1 (m sent).0 (h.reports sent);
  }

  network_update-Reports :
      (net : Network) (cmd section : ℕ) (parent_index : ℤ) (x : Bytes) (flags : ℤ)
      → Reports l (network_update l net cmd section parent_index x flags)
  unfolding network_update
  network_update-Reports net cmd section parent_index x flags =
      command-Reports l 291 remote_program _

  -- The update, in the order that the answer asks for.
  in_order :
      (net : Network) (cmd section parent_index : ℤ) (x : Bytes) (flags answer : ℤ)
      → Reports l (
          if answer ==ℤ pos 0
          then network_update l net (uint32 section) (uint32 cmd) parent_index x flags
          else network_update l net (uint32 cmd) (uint32 section) parent_index x flags)
  in_order net cmd section parent_index x flags answer = elim (Bool-cases (answer ==ℤ pos 0)) [
    | inl old ↦
        rw old (network_update-Reports net (uint32 section) (uint32 cmd) parent_index x flags)
    | inr new ↦
        rw new (network_update-Reports net (uint32 cmd) (uint32 section) parent_index x flags)
  ]

  pub network_update_compat-Reports :
      (net : Network) (cmd section parent_index : ℤ) (x : Bytes) (flags : ℤ)
      → Reports l (network_update_compat l net cmd section parent_index x flags)
  unfolding network_update_compat connect_supports_feature
  network_update_compat-Reports net cmd section parent_index x flags =
      bind-Reports l _ _
        (with_prefix-Reports _ (connect_supports_feature l has_correct_order_feature)
          (query-Reports l l.decode_int 60 remote_program _))
        (in_order net cmd section parent_index x flags)

  -- A subscription over the call that registers its callback.
  pub subscribed-Reports :
      (program r : ℕ) (s : Events) (m : Call ℤ)
      → Reports l m
      → Reports l (subscribed (λ sent. open_stream program r s (m sent)))
  unfolding open_stream
  subscribed-Reports program r s m h = record {
    reports = λ sent. by_result sent (m sent) (h.reports sent);
  }
    where
      by_result :
          (sent : List Request) (q : Result GoError ℤ × List Request)
          → EndsWith l sent q
          → EndsWith l sent (subscribed (λ _. open_stream program r s q) sent)
      by_result sent (err x, after) told = after_err l sent after x told
      by_result sent (ok id, after) (inl same) = inl same
      by_result sent (ok id, after) (inr told) =
          inr (λ e h. let (x, bad, _) = told e h in absurd (err-ne-ok x id (sym bad)))
