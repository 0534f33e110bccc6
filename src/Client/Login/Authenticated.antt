-- ===== src/Client/Login/Authenticated.antt =====
-- What an authentication sends.
use mathlib.Core.Path.{subst}
use go_libvirt.Base.{
  ◌≡◌, ◌≢◌, ◌⊎◌, refl, sym, ap, ◌∙◌, Bool-cases, inl, inr, Option, none, some, List, [], ◌∷◌, arith,
  Result, ok, err, Result-cases, if◌then◌else◌,
}
use go_libvirt.Base.Int.{ℤ, ◌==ℤ◌, ==ℤ_iff}
use go_libvirt.Base.Text.{Bytes}
use go_libvirt.Rpc.Errors.{GoError}
use go_libvirt.Rpc.Route.{remote_program}
use go_libvirt.Client.Remote.{Remote, Request, Nothing, return, send}
use go_libvirt.Client.Remote.Sent.{with_request, through_parts, through_ok, through_err}
use go_libvirt.Client.Bindings.{auth_list, auth_polkit}
use go_libvirt.Client.Constants.{proc_auth_list, proc_auth_polkit}
use go_libvirt.Client.Login.{auth_none, polkit, authenticate_by, authenticate}

-- The first type of authentication that the client supports.
abbrev pub first_supported : List ℤ → Option ℤ
first_supported [] = none
first_supported (auth ∷ rest) =
    if auth ==ℤ auth_none
    then some auth
    else if auth ==ℤ polkit
    then some auth
    else first_supported rest

module _ (l : Remote) (sent : List Request) where
  abbrev pub listed : List Request
  listed = with_request proc_auth_list remote_program [] sent

  abbrev pub with_polkit : List Request
  with_polkit = with_request proc_auth_polkit remote_program [] listed

  -- The server has said which types of authentication it takes.
  abbrev pub HasTypes : List ℤ → Type 0
  HasTypes types =
      (reply : Bytes) × (l.answer listed ≡ ok reply) × ((l.decode_ints reply).value ≡ ok types)

  -- The requests behind an authentication that succeeds: that of polkit is one of them exactly if
  -- it is the first type that the client supports, and it has been answered.
  abbrev pub IsAuthenticated : List ℤ → List Request → Type 0
  IsAuthenticated types after =
      ((first_supported types ≢ some polkit) × (after ≡ listed))
      ⊎ ((first_supported types ≡ some polkit)
          × (after ≡ with_polkit)
          × ((reply : Bytes) × (n : ℤ) × (l.answer with_polkit ≡ ok reply)
              × ((l.decode_int reply).value ≡ ok n)))

  auth_polkit-answered :
      (n : ℤ) (looked : List Request)
      → auth_polkit l listed ≡ (ok n, looked)
      → (looked ≡ with_polkit)
        × ((reply : Bytes) × (l.answer with_polkit ≡ ok reply)
            × ((l.decode_int reply).value ≡ ok n))
  unfolding auth_polkit send
  auth_polkit-answered n looked h = elim (Result-cases (l.answer with_polkit)) [
    | inl (reply, answered) ↦
        (ground (arith, answered, h), (reply, answered, ground (arith, answered, h)))
    | inr (e, bad) ↦ absurd (ground (arith, bad, h))
  ]

  authenticate_by-IsAuthenticated :
      (types : List ℤ) (after : List Request)
      → authenticate_by l types listed ≡ (ok tt, after)
      → IsAuthenticated types after
  unfolding authenticate_by
  authenticate_by-IsAuthenticated [] after h = inl (λ e. cc, ground (arith, h))
  authenticate_by-IsAuthenticated (auth ∷ rest) after h = elim (Bool-cases (auth ==ℤ auth_none)) [
    | inl open_to_all ↦ inl (
      λ e. absurd (ground (arith, open_to_all, e, ==ℤ_iff auth auth_none)),
      ground (arith, open_to_all, h),
    )
    | inr other ↦ elim (Bool-cases (auth ==ℤ polkit)) [
      | inl by_polkit ↦
          let (n, looked, asked, h2) =
            through_parts (auth_polkit l) (λ n. return tt) listed
              (rw (other, by_polkit, authenticate_by) at h) in
          let (same, (reply, answered, decoded)) = auth_polkit-answered n looked asked in
          inr (
            ground (arith, other, by_polkit, ==ℤ_iff auth polkit),
            sym (ap (λ r. r.1) h2) ∙ same,
            (reply, n, answered, decoded),
          )
      | inr unknown ↦
          elim (authenticate_by-IsAuthenticated rest after
            (rw (other, unknown, authenticate_by) at h)) [
              | inl (not_first, same) ↦ inl (rw (other, unknown) not_first, same)
              | inr (first, same, answered) ↦ inr (rw (other, unknown) first, same, answered)
            ]
    ]
  ]

  auth_polkit-request : (auth_polkit l listed).1 ≡ with_polkit
  unfolding auth_polkit send
  auth_polkit-request = ground arith

  -- An authentication asks for the types, and for polkit at most.
  abbrev pub IsAsking : List Request → Type 0
  IsAsking after = (after ≡ listed) ⊎ (after ≡ with_polkit)

  authenticate_by-IsAsking : (types : List ℤ) → IsAsking (authenticate_by l types listed).1
  unfolding authenticate_by
  authenticate_by-IsAsking [] = inl refl
  authenticate_by-IsAsking (auth ∷ rest) = elim (Bool-cases (auth ==ℤ auth_none)) [
    | inl open_to_all ↦ rw open_to_all (inl refl)
    | inr other ↦ elim (Bool-cases (auth ==ℤ polkit)) [
      | inl by_polkit ↦ rw (other, by_polkit) (inr (ground (arith, auth_polkit-request)))
      | inr unknown ↦ rw (other, unknown) (authenticate_by-IsAsking rest)
    ]
  ]

  abbrev pub Ends : Result GoError Nothing × List Request → Type 0
  Ends (r, after) =
      ((r ≡ ok tt) × ((types : List ℤ) × HasTypes types × IsAuthenticated types after))
      ⊎ ((e : GoError) × (r ≡ err e) × IsAsking after)

  auth_list-answered :
      ((types : List ℤ) × (auth_list l sent ≡ (ok types, listed)) × HasTypes types)
      ⊎ ((e : GoError) × (auth_list l sent ≡ (err e, listed)))
  unfolding auth_list send
  auth_list-answered = elim (Result-cases (l.answer listed)) [
    | inr (e, bad) ↦ inr (e, ground (arith, bad))
    | inl (reply, answered) ↦ elim (Result-cases (l.decode_ints reply).value) [
      | inr (e, bad) ↦ inr (e, ground (arith, answered, bad))
      | inl (types, decoded) ↦
          inl (types, ground (arith, answered, decoded), (reply, answered, decoded))
    ]
  ]

  authenticate_by-Ends : (types : List ℤ) → HasTypes types → Ends (authenticate_by l types listed)
  authenticate_by-Ends types has = by_result (authenticate_by l types listed) refl
    where
      by_result :
          (r : Result GoError Nothing × List Request) → authenticate_by l types listed ≡ r → Ends r
      by_result (ok tt, after) is =
          inl (refl, (types, has, authenticate_by-IsAuthenticated types after is))
      by_result (err e, after) is =
          inr (e, refl, subst IsAsking (ap (λ r. r.1) is) (authenticate_by-IsAsking types))

  pub authenticate-Ends : Ends (authenticate l sent)
  unfolding authenticate
  authenticate-Ends = elim auth_list-answered [
    | inl (types, is, has) ↦
        subst Ends (sym (through_ok (auth_list l) (authenticate_by l) sent is))
          (authenticate_by-Ends types has)
    | inr (e, is) ↦
        subst Ends (sym (through_err (auth_list l) (authenticate_by l) sent is))
          (inr (e, refl, inl refl))
  ]
