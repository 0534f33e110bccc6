-- ===== src/Client/Login/Opened.antt =====
-- What is sent before the connection is opened.
use mathlib.Core.Path.{subst}
use go_libvirt.Base.{
  ◌≡◌, ◌⊎◌, refl, sym, ap, ◌∙◌, inl, inr, List, [], ◌∷◌, arith, Result, ok, err, Result-cases,
  err-ne-ok,
}
use go_libvirt.Base.Int.{ℤ}
use go_libvirt.Base.Text.{Bytes}
use go_libvirt.Rpc.Errors.{GoError}
use go_libvirt.Rpc.Route.{remote_program}
use go_libvirt.Client.Remote.{Remote, Request, Nothing, Call, ◌>>=◌, give, return, send}
use go_libvirt.Client.Remote.Args.{connect_open_payload}
use go_libvirt.Client.Remote.Sent.{with_request, through_ok, through_err}
use go_libvirt.Client.Login.{proc_connect_open, authenticate, init_libvirt_comms}
use go_libvirt.Client.Login.Authenticated.{
  listed, with_polkit, HasTypes, IsAuthenticated, Ends, authenticate-Ends,
}

module _ (l : Remote) (sent : List Request) where
  -- How a login ends: with nothing opened, or with the request that opens the connection.
  abbrev pub IsUnopened : Result GoError Nothing × List Request → Type 0
  IsUnopened (r, after) =
      (e : GoError) × (r ≡ err e)
      × ((after ≡ sent) ⊎ (after ≡ listed l sent) ⊎ (after ≡ with_polkit l sent))

  pub record IsOpened (uri : Bytes) (done : Result GoError Nothing × List Request) : Type 0 where
    pub types : List ℤ
    pub has : HasTypes l sent types
    pub authenticated : List Request
    pub allowed : IsAuthenticated l sent types authenticated
    pub buf : Bytes
    pub encoded : l.encode (connect_open_payload (1 ∷ 0 ∷ 0 ∷ []) uri 0) ≡ ok buf
    pub last : done.1 ≡ with_request proc_connect_open remote_program buf authenticated
    pub result : done.0 ≡ (elim (l.answer done.1) [ ok reply ↦ ok tt | err e ↦ err e ])

  ask_open : Bytes → Call Nothing
  ask_open buf = do _ ← send l proc_connect_open remote_program buf; return tt

  ask_open-IsOpened :
      (uri buf : Bytes) (types : List ℤ) (authenticated : List Request)
      → HasTypes l sent types
      → IsAuthenticated l sent types authenticated
      → l.encode (connect_open_payload (1 ∷ 0 ∷ 0 ∷ []) uri 0) ≡ ok buf
      → IsOpened uri (ask_open buf authenticated)
  unfolding ask_open send
  ask_open-IsOpened uri buf types authenticated has allowed encoded =
      subst (IsOpened uri) (sym answered) (record {
        types = types;
        has = has;
        authenticated = authenticated;
        allowed = allowed;
        buf = buf;
        encoded = encoded;
        last = refl;
        result = refl;
      })
    where
      answered : ask_open buf authenticated ≡ (
        elim (l.answer (with_request proc_connect_open remote_program buf authenticated)) [
          | ok reply ↦ ok tt
          | err e ↦ err e
        ],
        with_request proc_connect_open remote_program buf authenticated,
      )
      answered = ground arith

  by_login :
      (uri buf : Bytes)
      → l.encode (connect_open_payload (1 ∷ 0 ∷ 0 ∷ []) uri 0) ≡ ok buf
      → let done = (authenticate l >>= λ _. ask_open buf) sent in
        IsUnopened done ⊎ IsOpened uri done
  by_login uri buf encoded = by_result (authenticate l sent) refl (authenticate-Ends l sent)
    where
      by_result :
          (r : Result GoError Nothing × List Request)
          → authenticate l sent ≡ r
          → Ends l sent r
          → let done = (authenticate l >>= λ _. ask_open buf) sent in
            IsUnopened done ⊎ IsOpened uri done
      by_result (ok done, after) is (inl (_, (types, has, allowed))) = inr (
          subst (IsOpened uri) (sym (through_ok (authenticate l) (λ _. ask_open buf) sent is))
            (ask_open-IsOpened uri buf types after has allowed encoded))
      by_result (err e, after) is (inl (fine, rest)) = absurd (err-ne-ok e tt fine)
      by_result (r, after) is (inr (e, bad, asking)) = inl (
          subst IsUnopened
            (sym (
              through_err (authenticate l) (λ _. ask_open buf) sent
                (is ∙ ap (λ r. (r, after)) bad)))
            (e, refl, inr asking))

  -- Whatever the server answers: either the connection is not asked for, with an error and at most
  -- the two requests of the authentication sent; or it is asked for last, of this URI, behind an
  -- authentication that has succeeded, with that of polkit where the first type that the client
  -- supports is polkit's and without it otherwise, and the result is that of this request.
  pub init_libvirt_comms-IsOpened :
      (uri : Bytes)
      → IsUnopened (init_libvirt_comms l uri sent) ⊎ IsOpened uri (init_libvirt_comms l uri sent)
  unfolding init_libvirt_comms ask_open
  init_libvirt_comms-IsOpened uri =
      elim (Result-cases (l.encode (connect_open_payload (1 ∷ 0 ∷ 0 ∷ []) uri 0))) [
        | inr (e, bad) ↦ inl (rw bad (e, refl, inl refl))
        | inl (buf, encoded) ↦
            subst (λ done. IsUnopened done ⊎ IsOpened uri done)
              (sym (
                through_ok (give (l.encode (connect_open_payload (1 ∷ 0 ∷ 0 ∷ []) uri 0)))
                  (λ buf. authenticate l >>= λ _. ask_open buf) sent (ap (λ r. (r, sent)) encoded)))
              (by_login uri buf encoded)
      ]
