-- ===== src/Dialers/Ssh/Auth/Offers.antt =====
-- What the methods offer.
use mathlib.Core.Path.{subst}
use go_libvirt.Base.{
  ℕ, suc, ◌+◌, ◌≡◌, refl, sym, ap, ◌∙◌, not, ◌&&◌, Option, none, some, List, [], ◌∷◌, ◌++◌, arith,
  if◌then◌else◌, append_assoc, append-nil, Result, ok, err, Bool-cases, inl, inr,
}
use go_libvirt.Base.Text.{Bytes, equal}
use go_libvirt.Client.Uri.{SshAuthMethod, agent, priv_key, password, keyboard_interactive}
use go_libvirt.Dialers.Ssh.Auth.{
  AgentAnswer, no_socket, no_agent, no_signers, signers_of, AuthError, Method, public_keys,
  with_password, Gathered, is_empty, add_signers, add_error, add_key, add_answer, unreachable_agent,
  silent_agent, no_password, generate, with_method, generate_all, auth_methods,
}

-- How often ssh is given the callback for public keys, and the passwords that it is given.
abbrev pub callbacks : List Method → ℕ
callbacks [] = 0
callbacks (public_keys ∷ ms) = suc (callbacks ms)
callbacks (with_password p ∷ ms) = callbacks ms

abbrev pub passwords : List Method → List Bytes
passwords [] = []
passwords (public_keys ∷ ms) = passwords ms
passwords (with_password p ∷ ms) = p ∷ passwords ms

abbrev pub signers_of_key : {Signer : Type 0} → Result AuthError Signer → List Signer
signers_of_key (err e) = []
signers_of_key (ok signer) = signer ∷ []

abbrev pub signers_of_agent : {Signer : Type 0} → AgentAnswer Signer → List Signer
signers_of_agent (signers_of more) = more
signers_of_agent _ = []

module _ {Signer : Type 0} where
  -- One callback if signers appear where there were none.
  abbrev pub once : List Signer → List Signer → ℕ
  once [] [] = 0
  once [] (x ∷ xs) = 1
  once (x ∷ xs) more = 0

  once-append : (xs ys zs : List Signer) → once xs (ys ++ zs) ≡ once xs ys + once (xs ++ ys) zs
  once-append [] [] zs = omega arith
  once-append [] (y ∷ ys) zs = refl
  once-append (x ∷ xs) ys zs = refl

  callbacks_once :
      (xs ys : List Signer)
      → callbacks (
          with_method
            (if is_empty xs && not (is_empty (xs ++ ys)) then some public_keys else none)
            [])
        ≡ once xs ys
  callbacks_once [] [] = refl
  callbacks_once [] (y ∷ ys) = refl
  callbacks_once (x ∷ xs) ys = refl

  callbacks_none : (xs : List Signer) → 0 ≡ once xs []
  callbacks_none [] = refl
  callbacks_none (x ∷ xs) = refl

  -- What a step that starts with these signers does.
  abbrev Offers : List Signer → List Signer → List Bytes → List Method × Gathered Signer → Type 0
  Offers xs more ps (ms, h) =
      (h.signers ≡ xs ++ more) × (callbacks ms ≡ once xs more) × (passwords ms ≡ ps)

  add_signers-Offers :
      (more : List Signer) (g : Gathered Signer)
      → let (m, h) = add_signers more g in Offers g.signers more [] (with_method m [], h)
  add_signers-Offers more g = (refl, callbacks_once g.signers more, passwords_once g.signers more)
    where
      passwords_once :
          (xs ys : List Signer)
          → passwords (
              with_method
                (if is_empty xs && not (is_empty (xs ++ ys)) then some public_keys else none)
                [])
            ≡ []
      passwords_once [] [] = refl
      passwords_once [] (y ∷ ys) = refl
      passwords_once (x ∷ xs) ys = refl

  nothing-Offers : (g h : Gathered Signer) → h.signers ≡ g.signers → Offers g.signers [] [] ([], h)
  nothing-Offers g h same = (same ∙ sym (append-nil g.signers), callbacks_none g.signers, refl)

  add_key-Offers :
      (key : Result AuthError Signer) (g : Gathered Signer)
      → let (m, h) = add_key key g in Offers g.signers (signers_of_key key) [] (with_method m [], h)
  add_key-Offers (err e) g = nothing-Offers g (add_error e g).1 refl
  add_key-Offers (ok signer) g = add_signers-Offers (signer ∷ []) g

  add_answer-Offers :
      (answer : AgentAnswer Signer) (g : Gathered Signer)
      → let (m, h) = add_answer answer g in
        Offers g.signers (signers_of_agent answer) [] (with_method m [], h)
  add_answer-Offers no_socket g = nothing-Offers g g refl
  add_answer-Offers no_agent g = nothing-Offers g (add_error unreachable_agent g).1 refl
  add_answer-Offers no_signers g = nothing-Offers g (add_error silent_agent g).1 refl
  add_answer-Offers (signers_of more) g = add_signers-Offers more g

  then-Offers :
      (xs more rest : List Signer) (ps qs : List Bytes) (m : Option Method) (h : Gathered Signer)
      (ms : List Method) (last : Gathered Signer)
      → Offers xs more ps (with_method m [], h)
      → Offers h.signers rest qs (ms, last)
      → Offers xs (more ++ rest) (ps ++ qs) (with_method m ms, last)
  then-Offers xs more rest ps qs m h ms last (s1, c1, p1) (s2, c2, p2) = (
    s2 ∙ ap (λ t. t ++ rest) s1 ∙ append_assoc xs more rest,
    with_callbacks m ms
        ∙ omega (arith, c1, c2 ∙ ap (λ t. once t rest) s1, once-append xs more rest),
    with_passwords m ms ∙ ap (λ t. t ++ passwords ms) p1 ∙ ap (λ t. ps ++ t) p2,
  )
    where
      with_callbacks :
          (m : Option Method) (ms : List Method)
          → callbacks (with_method m ms) ≡ callbacks (with_method m []) + callbacks ms
      with_callbacks none ms = omega arith
      with_callbacks (some public_keys) ms = omega arith
      with_callbacks (some (with_password p)) ms = omega arith

      with_passwords :
          (m : Option Method) (ms : List Method)
          → passwords (with_method m ms) ≡ passwords (with_method m []) ++ passwords ms
      with_passwords none ms = refl
      with_passwords (some public_keys) ms = refl
      with_passwords (some (with_password p)) ms = refl

module _ {Signer : Type 0} (key : Result AuthError Signer) (answer : AgentAnswer Signer)
    (pass : Bytes) where
  -- The signers of one method: the key file's, or the agent's.
  abbrev pub signers_by : SshAuthMethod → List Signer
  signers_by priv_key = signers_of_key key
  signers_by agent = signers_of_agent answer
  signers_by password = []
  signers_by keyboard_interactive = []

  abbrev pub offered : List SshAuthMethod → List Signer
  offered [] = []
  offered (a ∷ rest) = signers_by a ++ offered rest

  abbrev pub passwords_by : List SshAuthMethod → List Bytes
  passwords_by [] = []
  passwords_by (password ∷ rest) =
      if equal pass [] then passwords_by rest else pass ∷ passwords_by rest
  passwords_by (_ ∷ rest) = passwords_by rest

  generate-Offers :
      (a : SshAuthMethod) (g : Gathered Signer)
      → let (m, h) = generate key answer pass a g in
        Offers g.signers (signers_by a) (passwords_by (a ∷ [])) (with_method m [], h)
  unfolding generate
  generate-Offers priv_key g = add_key-Offers key g
  generate-Offers agent g = add_answer-Offers answer g
  generate-Offers password g = elim (Bool-cases (equal pass [])) [
    | inl e ↦ rw e (nothing-Offers g (add_error no_password g).1 refl)
    | inr e ↦ rw e (sym (append-nil g.signers), callbacks_none g.signers, refl)
  ]
  generate-Offers keyboard_interactive g = nothing-Offers g g refl

  passwords_by-cons :
      (a : SshAuthMethod) (rest : List SshAuthMethod)
      → passwords_by (a ∷ rest) ≡ passwords_by (a ∷ []) ++ passwords_by rest
  passwords_by-cons password rest = elim (Bool-cases (equal pass [])) [
    | inl e ↦ rw e refl
    | inr e ↦ rw e refl
  ]
  passwords_by-cons priv_key rest = refl
  passwords_by-cons agent rest = refl
  passwords_by-cons keyboard_interactive rest = refl

  generate_all-Offers :
      (asked : List SshAuthMethod) (g : Gathered Signer)
      → Offers g.signers (offered asked) (passwords_by asked) (generate_all key answer pass asked g)
  unfolding generate_all
  generate_all-Offers [] g = nothing-Offers g g refl
  generate_all-Offers (a ∷ rest) g =
      let (m, h) = generate key answer pass a g in
      let (ms, last) = generate_all key answer pass rest h in
      subst (λ ps. Offers g.signers (signers_by a ++ offered rest) ps (with_method m ms, last))
        (sym (passwords_by-cons a rest))
        (then-Offers g.signers (signers_by a) (offered rest) (passwords_by (a ∷ []))
          (passwords_by rest) m h ms last (generate-Offers a g) (generate_all-Offers rest h))

  -- Whatever methods are asked for, in whatever order: ssh is given one callback for public keys if
  -- the methods asked for have a signer between them, and none otherwise; the callback has the
  -- signers of all of them, in order; and for each time that a password is asked for, if there is
  -- one, ssh is given it.
  pub auth_methods-offered :
      (asked : List SshAuthMethod)
      → let (ms, g) = auth_methods key answer pass asked in
        (g.signers ≡ offered asked)
        × (callbacks ms ≡ (if is_empty (offered asked) then 0 else 1))
        × (passwords ms ≡ passwords_by asked)
  unfolding auth_methods
  auth_methods-offered asked =
      let (signers, called, given) =
        generate_all-Offers asked (record { signers = []; errors = [] }) in
      (signers, called ∙ once_nil (offered asked), given)
    where
      once_nil : (xs : List Signer) → once [] xs ≡ (if is_empty xs then 0 else 1)
      once_nil [] = refl
      once_nil (x ∷ xs) = refl
