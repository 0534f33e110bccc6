-- ===== src/Dialers/Ssh/Auth.antt =====
-- gossh.go: the methods of authentication that ssh is given.
use go_libvirt.Base.{
  ℕ, zero, suc, ◌+◌, ◌≤◌, ◌≡◌, refl, sym, ap, ◌∙◌, Bool, true, false, not, ◌&&◌, ◌||◌, Option, none,
  some, List, [], ◌∷◌, ◌++◌, arith, if◌then◌else◌, append_assoc, append-nil, Result, ok, err,
}
use go_libvirt.Base.Text.{Bytes, text, equal}
use go_libvirt.Client.Uri.{SshAuthMethod, agent, priv_key, password, keyboard_interactive}
use go_libvirt.Dialers.{FileError}
pub mod Offers

-- What the agent says: there is no socket for it in the environment, it does not answer, or it does
-- not tell its signers, or these.
pub data AgentAnswer (Signer : Type 0) : Type 0 where
  no_socket : AgentAnswer Signer
  no_agent : AgentAnswer Signer
  no_signers : AgentAnswer Signer
  signers_of : List Signer → AgentAnswer Signer

pub data AuthError : Type 0 where
  unread_key : FileError → AuthError
  invalid_key : AuthError
  unreachable_agent : AuthError
  silent_agent : AuthError
  no_password : AuthError

-- What ssh is given. The callback for public keys asks `getSigners` when ssh calls it.
pub data Method : Type 0 where
  public_keys : Method
  with_password : Bytes → Method

-- `SSHAuthMethods` but for its generators.
pub record Gathered (Signer : Type 0) : Type 0 where
  pub signers : List Signer
  pub errors : List AuthError

abbrev pub is_empty : {A : Type 0} → List A → Bool
is_empty [] = true
is_empty (x ∷ xs) = false

abbrev pub with_method : Option Method → List Method → List Method
with_method none ms = ms
with_method (some m) ms = m ∷ ms

module _ {Signer : Type 0} where
  -- New signers, and a method if there were none before and there are some now.
  abbrev pub add_signers : List Signer → Gathered Signer → Option Method × Gathered Signer
  add_signers more g =
      let all = g.signers ++ more in
      (
        if is_empty g.signers && not (is_empty all) then some public_keys else none,
        record g { signers = all },
      )

  abbrev pub add_error : AuthError → Gathered Signer → Option Method × Gathered Signer
  add_error e g = (none, record g { errors = g.errors ++ (e ∷ []) })

  -- The signer of the key file, with `ssh.ParsePrivateKey` and what `os.ReadFile` returns.
  abbrev pub key_signer : (Bytes → Option Signer) → Result FileError Bytes → Result AuthError Signer
  key_signer parse (err e) = err (unread_key e)
  key_signer parse (ok k) = elim (parse k) [ none ↦ err invalid_key | some signer ↦ ok signer ]

  abbrev pub add_key : Result AuthError Signer → Gathered Signer → Option Method × Gathered Signer
  add_key (err e) g = add_error e g
  add_key (ok signer) g = add_signers (signer ∷ []) g

  abbrev pub add_answer : AgentAnswer Signer → Gathered Signer → Option Method × Gathered Signer
  add_answer no_socket g = (none, g)
  add_answer no_agent g = add_error unreachable_agent g
  add_answer no_signers g = add_error silent_agent g
  add_answer (signers_of more) g = add_signers more g

  module _ (key : Result AuthError Signer) (answer : AgentAnswer Signer) (pass : Bytes) where
    unfoldable pub generate : SshAuthMethod → Gathered Signer → Option Method × Gathered Signer
    generate priv_key g = add_key key g
    generate agent g = add_answer answer g
    generate password g =
        if equal pass [] then add_error no_password g else (some (with_password pass), g)
    generate keyboard_interactive g = (none, g)

    -- The loop of `authMethods`.
    unfoldable pub generate_all :
        List SshAuthMethod → Gathered Signer → List Method × Gathered Signer
    generate_all [] g = ([], g)
    generate_all (a ∷ rest) g =
        let (m, h) = generate a g in
        let (ms, last) = generate_all rest h in (with_method m ms, last)

    unfoldable pub auth_methods : List SshAuthMethod → List Method × Gathered Signer
    auth_methods asked = generate_all asked (record { signers = []; errors = [] })
