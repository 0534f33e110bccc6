-- ===== src/Client/Remote/Sent.antt =====
-- What a wrapper has sent, and what it returns where nothing fails.
use go_libvirt.Base.{ℕ, ◌≡◌, refl, List, [], ◌∷◌, ◌++◌, arith, Result, ok, err, ap, err-ne-ok}
use go_libvirt.Base.Text.{Bytes}
use go_libvirt.Rpc.Errors.{GoError}
use go_libvirt.Rpc.TypedParam.{Decoded}
use go_libvirt.Client.Remote.{
  Remote, Request, Args, Call, ◌>>=◌, send, call, command, query, query_two,
}

abbrev pub with_request : ℕ → ℕ → Bytes → List Request → List Request
with_request proc program payload sent =
    sent ++ (record { proc = proc; program = program; payload = payload } ∷ [])

-- The rest of a call goes on from what its first part gives, and a call that succeeds has both.
module _ {A B : Type 0} (m : Call A) (f : A → Call B) (sent : List Request) where
  pub through_ok :
      {a : A} {looked : List Request} → m sent ≡ (ok a, looked) → (m >>= f) sent ≡ f a looked
  through_ok e = ap (λ r. elim r.0 [ ok a ↦ f a r.1 | err e ↦ (err e, r.1) ]) e

  pub through_err :
      {e : GoError} {looked : List Request}
      → m sent ≡ (err e, looked)
      → (m >>= f) sent ≡ (err e, looked)
  through_err h = ap (λ r. elim r.0 [ ok a ↦ f a r.1 | err e ↦ (err e, r.1) ]) h

  pub through_parts :
      {b : B} {after : List Request}
      → (m >>= f) sent ≡ (ok b, after)
      → (a : A) × (looked : List Request) × (m sent ≡ (ok a, looked)) × (f a looked ≡ (ok b, after))
  through_parts {b} {after} h = by_result (m sent) refl h
    where
      by_result :
          (r : Result GoError A × List Request)
          → m sent ≡ r
          → (elim r.0 [ ok a ↦ f a r.1 | err e ↦ (err e, r.1) ]) ≡ (ok b, after)
          → (a : A) × (looked : List Request) × (m sent ≡ (ok a, looked))
            × (f a looked ≡ (ok b, after))
      by_result (ok a, looked) is h = (a, looked, is, h)
      by_result (err e, looked) is h = absurd (err-ne-ok e b (ap (λ p. p.0) h))

module _ (l : Remote) where
  -- The requests behind a wrapper: one more, if its arguments can be encoded.
  abbrev pub requests : ℕ → ℕ → Args → List Request → List Request
  requests proc program args sent = elim (l.encode args) [
    | err e ↦ sent
    | ok buf ↦ with_request proc program buf sent
  ]

  module _ (proc program : ℕ) (args : Args) (sent : List Request) where
    pub command-sent : (command l proc program args sent).1 ≡ requests proc program args sent
    unfolding command call send
    command-sent = ground arith

    pub query-sent :
        {A : Type 0} (decode : Bytes → Decoded A)
        → (query l decode proc program args sent).1 ≡ requests proc program args sent
    unfolding query call send
    query-sent decode = ground arith

    pub query_two-sent :
        {A B : Type 0} (first : Bytes → Decoded A) (second : Bytes → Decoded B)
        → (query_two l first second proc program args sent).1 ≡ requests proc program args sent
    unfolding query_two call send
    query_two-sent first second = ground arith

    module _ (buf reply : Bytes) (encoded : l.encode args ≡ ok buf)
        (answered : l.answer (with_request proc program buf sent) ≡ ok reply) where
      pub command-ok :
          command l proc program args sent ≡ (ok tt, with_request proc program buf sent)
      unfolding command call send
      command-ok = ground (arith, encoded, answered)

      pub query-ok :
          {A : Type 0} (decode : Bytes → Decoded A) (a : A)
          → (decode reply).value ≡ ok a
          → query l decode proc program args sent ≡ (ok a, with_request proc program buf sent)
      unfolding query call send
      query-ok decode a decoded = ground (arith, encoded, answered, decoded)

      pub query_two-ok :
          {A B : Type 0} (first : Bytes → Decoded A) (second : Bytes → Decoded B) (a : A) (b : B)
          → (first reply).value ≡ ok a
          → (second (first reply).rest).value ≡ ok b
          → query_two l first second proc program args sent
            ≡ (ok (a, b), with_request proc program buf sent)
      unfolding query_two call send
      query_two-ok first second a b d1 d2 = ground (arith, encoded, answered, d1, d2)
