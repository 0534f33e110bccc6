-- ===== src/Client/Monitor/Reply.antt =====
-- What Run returns of a reply.
use mathlib.Core.Path.{subst}
use go_libvirt.Base.{
  ℕ, ◌≤◌, ◌==◌, ==_iff, ◌≡◌, ◌≢◌, refl, sym, ap, ◌∙◌, Bool-cases, inl, inr, Option, some, List, [],
  ◌∷◌, ◌++◌, arith, ok, length, All, drop, Result-cases, ok_injective,
}
use go_libvirt.Base.Text.{Bytes, equal, equal_iff}
use go_libvirt.Rpc.Route.{qemu_program}
use go_libvirt.Client.Remote.{Remote, Request, Call, ◌>>=◌, give, return, send}
use go_libvirt.Client.Remote.Args.{domain_monitor_command_payload}
use go_libvirt.Client.Remote.Sent.{through_parts}
use go_libvirt.Client.Operations.{lookup}
use go_libvirt.Client.Monitor.{
  run_in, push_front, trim_nulls, from_four, trimmed, get_qemu_error, run,
  qemu_proc_domain_monitor_command,
}

-- A string that has no NUL at its end.
abbrev pub EndsInText : Bytes → Type 0
EndsInText [] = Unit
EndsInText (c ∷ []) = c ≢ 0
EndsInText (c ∷ d ∷ s) = EndsInText (d ∷ s)

abbrev pub IsNul : ℕ → Type 0
IsNul c = c ≡ 0

trim_nulls-split : (s : Bytes) → (nulls : Bytes) × (s ≡ trim_nulls s ++ nulls) × (All IsNul nulls)
unfolding trim_nulls
trim_nulls-split [] = ([], refl, tt)
trim_nulls-split (c ∷ s) =
    let (nulls, same, zero) = trim_nulls-split s in front_split (trim_nulls s) nulls same zero
  where
    front_split :
        (t nulls : Bytes)
        → s ≡ t ++ nulls
        → All IsNul nulls
        → (more : Bytes) × ((c ∷ s) ≡ push_front c t ++ more) × (All IsNul more)
    front_split [] nulls same zero = elim (Bool-cases (c == 0)) [
      | inl e ↦ rw e (c ∷ nulls, ap (λ t. c ∷ t) same, ((==_iff c 0).0 e, zero))
      | inr e ↦ rw e (nulls, ap (λ t. c ∷ t) same, zero)
    ]
    front_split (d ∷ t) nulls same zero = (nulls, ap (λ t. c ∷ t) same, zero)

push_front-EndsInText : (c : ℕ) (t : Bytes) → EndsInText t → EndsInText (push_front c t)
push_front-EndsInText c [] ends = elim (Bool-cases (c == 0)) [
  | inl e ↦ rw e tt
  | inr e ↦ rw e (λ zero. absurd (ground (arith, e, (==_iff c 0).1 zero)))
]
push_front-EndsInText c (d ∷ t) ends = ends

trim_nulls-EndsInText : (s : Bytes) → EndsInText (trim_nulls s)
unfolding trim_nulls
trim_nulls-EndsInText [] = tt
trim_nulls-EndsInText (c ∷ s) = push_front-EndsInText c (trim_nulls s) (trim_nulls-EndsInText s)

from_four-drop : (s : Bytes) → 4 ≤ length s → from_four s ≡ some (drop 4 s)
from_four-drop (a ∷ b ∷ c ∷ d ∷ s) h = refl
from_four-drop [] h = absurd (omega (arith, h))
from_four-drop (a ∷ []) h = absurd (omega (arith, h))
from_four-drop (a ∷ b ∷ []) h = absurd (omega (arith, h))
from_four-drop (a ∷ b ∷ c ∷ []) h = absurd (omega (arith, h))

module _ (l : Remote) where
  -- What the client relies on of `xdr.Decoder`: a string has its length in front, of four bytes, and
  -- as much as the reader has is all that it has.
  pub record IsXdr : Type 0 where
    pub string_long : (s read : Bytes) → (l.decode_string s).value ≡ ok read → 4 ≤ length s
    pub opaque_whole :
        (s read : Bytes) → (l.decode_fixed_opaque (length s) s).value ≡ ok read → read ≡ s

  -- The outcome of a command for this reply: its bytes behind the fourth, but for the NULs at the
  -- end, and there is no error of QEMU in it.
  pub record IsReply (reply : Bytes) (r : Option Bytes) : Type 0 where
    pub out : Bytes
    pub is : r ≡ some out
    pub nulls : Bytes
    pub parted : drop 4 reply ≡ out ++ nulls
    pub zero : All IsNul nulls
    pub ends : EndsInText out
    pub json : Bytes
    pub read : (l.decode_string reply).value ≡ ok json
    pub no_error : l.description json ≡ ok []

  get_qemu_error-none :
      (reply : Bytes)
      → get_qemu_error l reply ≡ ok tt
      → (json : Bytes) × ((l.decode_string reply).value ≡ ok json) × (l.description json ≡ ok [])
  unfolding get_qemu_error
  get_qemu_error-none reply h = elim (Result-cases (l.decode_string reply).value) [
    | inr (e, bad) ↦ absurd (ground (arith, bad, h))
    | inl (json, read) ↦ elim (Result-cases (l.description json)) [
      | inr (e, bad) ↦ absurd (ground (arith, read, bad, h))
      | inl (description, said) ↦ elim (Bool-cases (equal description [])) [
        | inl e ↦ (json, read, said ∙ ap (λ t. ok t) ((equal_iff description []).0 e))
        | inr e ↦ absurd (ground (arith, read, said, e, h))
      ]
    ]
  ]

  trimmed-IsReply :
      (x : IsXdr) (reply opaque : Bytes)
      → get_qemu_error l reply ≡ ok tt
      → (l.decode_fixed_opaque (length reply) reply).value ≡ ok opaque
      → IsReply reply (trimmed (from_four opaque))
  trimmed-IsReply x reply opaque fine decoded =
      let (json, read, no_error) = get_qemu_error-none reply fine in
      let (nulls, split, zero) = trim_nulls-split (drop 4 reply) in
      record {
        out = trim_nulls (drop 4 reply);
        is =
            ap (λ s. trimmed (from_four s)) (x.opaque_whole reply opaque decoded)
            ∙ ap (λ r. trimmed r) (from_four-drop reply (x.string_long reply json read));
        nulls = nulls;
        parted = split;
        zero = zero;
        ends = trim_nulls-EndsInText (drop 4 reply);
        json = json;
        read = read;
        no_error = no_error;
      }

  -- The rest of the command, from each of its steps on.
  abbrev cut_out : Bytes → Call (Option Bytes)
  cut_out opaque = return (trimmed (from_four opaque))

  abbrev read_opaque : Bytes → Call (Option Bytes)
  read_opaque reply = give (l.decode_fixed_opaque (length reply) reply).value >>= cut_out

  abbrev read_reply : Bytes → Call (Option Bytes)
  read_reply reply = give (get_qemu_error l reply) >>= λ _. read_opaque reply

  abbrev sent_command : Bytes → Call (Option Bytes)
  sent_command buf = send l qemu_proc_domain_monitor_command qemu_program buf >>= read_reply

  send-answer :
      (buf reply : Bytes) (sent after : List Request)
      → send l qemu_proc_domain_monitor_command qemu_program buf sent ≡ (ok reply, after)
      → l.answer after ≡ ok reply
  unfolding send
  send-answer buf reply sent after h = ap l.answer (sym (ap (λ p. p.1) h)) ∙ ap (λ p. p.0) h

  -- A command that is run without an error has not panicked: it returns the bytes behind the fourth
  -- of a reply of the server, which has no error of QEMU in it, less the NULs at their end.
  pub run-IsReply :
      (name cmd : Bytes) (sent after : List Request) (r : Option Bytes)
      → IsXdr
      → run l name cmd sent ≡ (ok r, after)
      → (reply : Bytes) × (l.answer after ≡ ok reply) × IsReply reply r
  unfolding run
  run-IsReply name cmd sent after r x h =
      let (d, looked, _, h1) = through_parts (lookup l name) (run_in l cmd) sent h in
      let (buf, encoded, is1, h2) =
        through_parts (give (l.encode (domain_monitor_command_payload d cmd 0))) sent_command looked
          h1 in
      let (reply, asked, is2, h3) =
        through_parts (send l qemu_proc_domain_monitor_command qemu_program buf) read_reply encoded
          h2 in
      let (done, checked, is3, h4) =
        through_parts (give (get_qemu_error l reply)) (λ _. read_opaque reply) asked h3 in
      let (opaque, decoded, is4, h5) =
        through_parts (give (l.decode_fixed_opaque (length reply) reply).value) cut_out checked
          h4 in
      let same : after ≡ asked =
        sym (ap (λ p. p.1) h5) ∙ sym (ap (λ p. p.1) is4) ∙ sym (ap (λ p. p.1) is3) in
      (
        reply,
        ap l.answer same ∙ send-answer buf reply encoded asked is2,
        subst (IsReply reply) (ok_injective (ap (λ p. p.0) h5))
            (trimmed-IsReply x reply opaque (ap (λ p. p.0) is3) (ap (λ p. p.0) is4)),
      )
