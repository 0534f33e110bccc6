-- ===== src/Client/Wired/Reports.antt =====
-- A call that ends with an error of its last request reports it.
use go_libvirt.Base.{ℕ, ◌≡◌, refl, sym, ap, ◌∙◌, ◌⊎◌, inl, inr, List, Result, ok, err, err-ne-ok}
use go_libvirt.Base.Text.{Bytes}
use go_libvirt.Rpc.Errors.{GoError, wrapped}
use go_libvirt.Rpc.TypedParam.{Decoded}
use go_libvirt.Client.Remote.{
  Remote, Request, Args, Call, ◌>>=◌, give, return, send, call, command, query, query_two,
}

-- An error, as itself or wrapped in others.
pub data Carries (e : GoError) : GoError → Type 0 where
  here : Carries e e
  within : (message : Bytes) {x : GoError} → Carries e x → Carries e (wrapped message x)

pub err_injective :
    {A : Type 0} {x y : GoError} → ◌≡◌ {A = Result GoError A} (err x) (err y) → x ≡ y
err_injective h = cc

module _ (l : Remote) where
  -- Nothing is sent; or if the last request that is sent is answered with an error, the result is one
  -- that carries it.
  abbrev pub EndsWith : {A : Type 0} → List Request → Result GoError A × List Request → Type 0
  EndsWith sent (r, after) =
      (after ≡ sent)
      ⊎ ((e : GoError) → l.answer after ≡ err e → (x : GoError) × (r ≡ err x) × Carries e x)

  pub record Reports {A : Type 0} (m : Call A) : Type 0 where
    pub reports : (sent : List Request) → EndsWith sent (m sent)

  pub give-Reports : {A : Type 0} (r : Result GoError A) → Reports (give r)
  give-Reports r = record { reports = λ sent. inl refl }

  pub send-Reports : (proc program : ℕ) (payload : Bytes) → Reports (send l proc program payload)
  unfolding send
  send-Reports proc program payload = record { reports = λ sent. inr (λ e h. (e, h, here)) }

  -- A first part that fails, and one that succeeds with the rest behind it.
  pub after_err :
      {A B : Type 0} (sent after : List Request) (x : GoError)
      → EndsWith {A = A} sent (err x, after)
      → EndsWith {A = B} sent (err x, after)
  after_err sent after x (inl same) = inl same
  after_err sent after x (inr told) =
      inr
        (λ e h. let (y, is, carried) = told e h in (y, ap (λ z. err z) (err_injective is), carried))

  after_ok :
      {A B : Type 0} (sent looked : List Request) (a : A) (q : Result GoError B × List Request)
      → EndsWith {A = A} sent (ok a, looked)
      → EndsWith looked q
      → EndsWith sent q
  after_ok sent looked a (r, after) (inl same) (inl again) = inl (again ∙ same)
  after_ok sent looked a (r, after) told (inr later) = inr later
  after_ok sent looked a (r, after) (inr told) (inl again) = inr (λ e h.
      let (x, bad, carried) = told e (ap l.answer (sym again) ∙ h) in
      absurd (err-ne-ok x a (sym bad)))

  pub bind-Reports :
      {A B : Type 0} (m : Call A) (f : A → Call B)
      → Reports m
      → ((a : A) → Reports (f a))
      → Reports (m >>= f)
  bind-Reports {A} {B} m f hm hf = record {
    reports = λ sent. by_result sent (m sent) (hm.reports sent);
  }
    where
      by_result :
          (sent : List Request) (r : Result GoError A × List Request)
          → EndsWith sent r
          → EndsWith {A = B} sent (elim r.0 [ ok a ↦ f a r.1 | err e ↦ (err e, r.1) ])
      by_result sent (err x, after) told = after_err sent after x told
      by_result sent (ok a, looked) told =
          after_ok sent looked a (f a looked) told ((hf a).reports looked)

  pub call-Reports : (proc program : ℕ) (args : Args) → Reports (call l proc program args)
  unfolding call
  call-Reports proc program args =
      bind-Reports (give (l.encode args)) (send l proc program) (give-Reports (l.encode args))
        (send-Reports proc program)

  pub command-Reports : (proc program : ℕ) (args : Args) → Reports (command l proc program args)
  unfolding command
  command-Reports proc program args =
      bind-Reports (call l proc program args) (λ _. return tt) (call-Reports proc program args)
        (λ _. give-Reports (ok tt))

  pub query-Reports :
      {A : Type 0} (decode : Bytes → Decoded A) (proc program : ℕ) (args : Args)
      → Reports (query l decode proc program args)
  unfolding query
  query-Reports decode proc program args =
      bind-Reports (call l proc program args) (λ reply. give (decode reply).value)
        (call-Reports proc program args) (λ reply. give-Reports (decode reply).value)

  pub query_two-Reports :
      {A B : Type 0} (first : Bytes → Decoded A) (second : Bytes → Decoded B) (proc program : ℕ)
      (args : Args)
      → Reports (query_two l first second proc program args)
  unfolding query_two
  query_two-Reports first second proc program args =
      bind-Reports (call l proc program args) _ (call-Reports proc program args) (λ reply.
        bind-Reports (give (first reply).value) _ (give-Reports (first reply).value) (λ a.
          bind-Reports (give (second (first reply).rest).value) _ (give-Reports _)
            (λ b. give-Reports (ok (a, b)))))
