-- ===== src/Lvgen/Lexer/Numbers.antt =====
-- Numbers are read back.
use mathlib.Core.Path.{subst}
use go_libvirt.Base.{
  ℕ, suc, ◌==◌, ◌≡◌, refl, sym, ◌∙◌, Bool, true, false, [], ◌∷◌, ◌++◌, arith, All, Bool-cases, inl,
  inr,
}
use go_libvirt.Base.Text.{Bytes, text}
use go_libvirt.Lvgen.Lexer.{
  Lexer, Unicode, lex_number, constant, send, next, backup, member, decimal, hexadecimal,
  lex_text_over, turn, reverse_onto, number_turn, number_start, peek, accept, accept_run,
  accept_run_over,
}
use go_libvirt.Lvgen.Lexer.Steps.{
  IsAt, next-IsPast, backup-IsAt, peek-IsAt, accept-taken, accept-left, accept_run-IsAt,
}
use go_libvirt.Lvgen.Lexer.Text.{IsUnicode, number_class}
use go_libvirt.Lvgen.Lexer.Pieces.{number, hex, print, tokens, IsPiece}
use go_libvirt.Lvgen.Lexer.Words.{Lexes, lex_text-at, word_lexes, before_blank}

module _ (u : Unicode) (v : IsUnicode u) where
  digits-IsAt :
      (word rest digits digit_run taken : Bytes) (j : Lexer)
      → IsAt j taken (digit_run ++ b' ' ∷ rest)
      → All (λ c. member c digits ≡ true) digit_run
      → member b' ' digits ≡ false
      → reverse_onto digit_run taken ≡ reverse_onto word []
      → IsAt (accept_run digits j) (reverse_onto word []) (b' ' ∷ rest)
  unfolding accept_run
  digits-IsAt word rest digits digit_run taken j at all stop same =
      subst (λ t. IsAt (accept_run digits j) t (b' ' ∷ rest)) same
        (subst (λ s. IsAt (accept_run_over digits s j) (reverse_onto digit_run taken) (b' ' ∷ rest))
          (sym at.ahead) (accept_run-IsAt digits digit_run j b' ' taken rest at all stop))

  number_turn_word :
      (m : Lexer) (word rest : Bytes) (digits digit_run : Bytes) (taken : Bytes)
      → ((number_start u m).0 ≡ digits)
      → IsAt (number_start u m).1 taken (digit_run ++ b' ' ∷ rest)
      → All (λ c. member c digits ≡ true) digit_run
      → member b' ' digits ≡ false
      → reverse_onto digit_run taken ≡ reverse_onto word []
      → (k : Lexer) × (turn u lex_number m ≡ send constant k)
        × IsAt k (reverse_onto word []) (b' ' ∷ rest)
  number_turn_word m word rest digits digit_run taken p at all stop same =
      let n = accept_run (number_start u m).0 (number_start u m).1 in
      let there : IsAt n (reverse_onto word []) (b' ' ∷ rest) =
        subst (λ d. IsAt (accept_run d (number_start u m).1) (reverse_onto word []) (b' ' ∷ rest))
          (sym p)
          (digits-IsAt word rest digits digit_run taken (number_start u m).1 at all stop same) in
      let (read, here) = peek-IsAt n b' ' (reverse_onto word []) rest there in
      (
        (peek n).1,
        (unfold turn number_turn in rw (read, number_turn) (rw ((v.spaces b' ' v.blank).0))),
        here,
      )

  -- Where `number_start` stops, for the digits of a number and what they follow.
  StartsNumber : Lexer → Bytes → Bytes → Bytes → Type 0
  StartsNumber m word rest digits =
      (front taken : Bytes) × ((number_start u m).0 ≡ digits)
      × IsAt (number_start u m).1 taken (front ++ b' ' ∷ rest)
      × All (λ c. member c digits ≡ true) front
      × (reverse_onto front taken ≡ reverse_onto word [])

  negative_start :
      (m : Lexer) (digits rest : Bytes)
      → IsAt m [] (b'-' ∷ digits ++ b' ' ∷ rest)
      → All (λ c. member c decimal ≡ true) digits
      → StartsNumber m (b'-' ∷ digits) rest decimal
  unfolding StartsNumber number_start
  negative_start m digits rest at all =
      let (took, there) = accept-taken (text "-") m b'-' [] (digits ++ b' ' ∷ rest) at refl in
      (digits, b'-' ∷ [], rw (took, number_start), rw (took, number_start) there, all, refl)

  -- The rune behind a first digit is no "x".
  no_x :
      (ds rest : Bytes)
      → All (λ c. member c decimal ≡ true) ds
      → (c : ℕ) × (s : Bytes) × (ds ++ b' ' ∷ rest ≡ c ∷ s) × (member c (text "x") ≡ false)
  no_x [] rest all = (b' ', rest, refl, refl)
  no_x (d ∷ ds) rest all = (d, ds ++ b' ' ∷ rest, refl, ground (arith, all.0))

  decimal_start :
      (m : Lexer) (d : ℕ) (ds rest : Bytes)
      → IsAt m [] (d ∷ ds ++ b' ' ∷ rest)
      → (member d decimal ≡ true) × All (λ c. member c decimal ≡ true) ds
      → StartsNumber m (d ∷ ds) rest decimal
  unfolding StartsNumber number_start
  decimal_start m d ds rest at all =
      let (left, here) =
        accept-left (text "-") m d [] (ds ++ b' ' ∷ rest) at (ground (arith, all.0)) in
      let (saw, still) = peek-IsAt (accept (text "-") m).1 d [] (ds ++ b' ' ∷ rest) here in
      let past = (next-IsPast (peek (accept (text "-") m).1).1 d [] (ds ++ b' ' ∷ rest) still).1 in
      let (c, s, same, other) = no_x ds rest all.1 in
      let (no_hex, there) =
        accept-left (text "x") (next (peek (accept (text "-") m).1).1).1 c (d ∷ []) s
          (subst (λ t. IsAt (next (peek (accept (text "-") m).1).1).1 (d ∷ []) t) same past.at)
          other in
      elim (Bool-cases (d == b'0')) [
        | inl e ↦ (
          ds,
          d ∷ [],
          rw (left, number_start) (rw saw (rw e (rw no_hex))),
          rw (left, number_start)
              (rw saw (
                rw e (
                  subst
                    (λ t.
                      IsAt (accept (text "x") (next (peek (accept (text "-") m).1).1).1).1 (d ∷ [])
                        t)
                    (sym same) there))),
          all.1,
          refl,
        )
        | inr e ↦ (
          d ∷ ds,
          [],
          rw (left, number_start) (rw saw (rw e)),
          rw (left, number_start) (rw saw (rw e still)),
          all,
          refl,
        )
      ]

  hex_start :
      (m : Lexer) (ds rest : Bytes)
      → IsAt m [] (b'0' ∷ b'x' ∷ ds ++ b' ' ∷ rest)
      → All (λ c. member c hexadecimal ≡ true) ds
      → StartsNumber m (b'0' ∷ b'x' ∷ ds) rest hexadecimal
  unfolding StartsNumber number_start
  hex_start m ds rest at all =
      let s = b'x' ∷ ds ++ b' ' ∷ rest in
      let (left, here) = accept-left (text "-") m b'0' [] s at refl in
      let (saw, still) = peek-IsAt (accept (text "-") m).1 b'0' [] s here in
      let past = (next-IsPast (peek (accept (text "-") m).1).1 b'0' [] s still).1 in
      let (is_hex, there) =
        accept-taken (text "x") (next (peek (accept (text "-") m).1).1).1 b'x' (b'0' ∷ [])
          (ds ++ b' ' ∷ rest) past.at refl in
      (
        ds,
        b'x' ∷ b'0' ∷ [],
        rw (left, number_start) (rw saw (rw is_hex)),
        rw (left, number_start) (rw saw there),
        all,
        refl,
      )

  numeral-Lexes :
      (r : ℕ) (rs rest digits : Bytes)
      → member r (text "-0123456789") ≡ true
      → member b' ' digits ≡ false
      → ((m : Lexer) → IsAt m [] (r ∷ rs ++ b' ' ∷ rest) → StartsNumber m (r ∷ rs) rest digits)
      → Lexes u v (λ n. suc (suc (suc n))) ((constant, r ∷ rs) ∷ []) ((r ∷ rs) ++ text " ") rest
  unfolding StartsNumber
  numeral-Lexes r rs rest digits h stop starts fuel l whole =
      let at = before_blank u v l (r ∷ rs) rest whole in
      let m = backup (next l).1 in
      let here =
        backup-IsAt (next l).1 r [] (rs ++ b' ' ∷ rest)
          (next-IsPast l r [] (rs ++ b' ' ∷ rest) at).1 in
      let (front, taken, p, begins, all, same) = starts m here in
      let (k, second, there) =
        number_turn_word m (r ∷ rs) rest digits front taken p begins all stop same in
      word_lexes u v fuel lex_number constant (r ∷ rs) rest l m k
        (unfold lex_text_over in
          lex_text-at u v l [] (r ∷ rs ++ b' ' ∷ rest) at
          ∙ rw (number_class u v (next l).1.column r (rs ++ b' ' ∷ rest) h, lex_text_over))
        second there

  pub number-Lexes :
      (negative : Bool) (d : ℕ) (ds rest : Bytes)
      → IsPiece u (number negative d ds)
      → Lexes u v
          (λ n. suc (suc (suc n)))
          (tokens (number negative d ds))
          (print (number negative d ds))
          rest
  number-Lexes true d ds rest h =
      numeral-Lexes b'-' (d ∷ ds) rest decimal refl refl
        (λ m at. negative_start m (d ∷ ds) rest at h)
  number-Lexes false d ds rest h =
      numeral-Lexes d ds rest decimal (ground (arith, h.0)) refl
        (λ m at. decimal_start m d ds rest at h)

  pub hex-Lexes :
      (ds rest : Bytes)
      → IsPiece u (hex ds)
      → Lexes u v (λ n. suc (suc (suc n))) (tokens (hex ds)) (print (hex ds)) rest
  hex-Lexes ds rest h =
      numeral-Lexes b'0' (b'x' ∷ ds) rest hexadecimal refl refl (λ m at. hex_start m ds rest at h)
