-- ===== src/Lvgen/Lexer/Total.antt =====
-- The lexer comes to its end.
use mathlib.Core.Path.{subst}
use go_libvirt.Base.{
  ℕ, zero, suc, ◌+◌, ◌*◌, ◌<◌, ◌≤◌, ◌==◌, ◌≡◌, refl, sym, ap, true, Option, none, some, List, ◌∷◌,
  arith, Bool-cases, inl, inr, if◌then◌else◌, length,
}
use go_libvirt.Base.Text.{Bytes, text, has_prefix}
use go_libvirt.Lvgen.Lexer.{
  Lexer, Unicode, Item, State, lex_text, lex_ident, lex_number, lex_directive, lex_block_comment,
  next, ignore, emit, member, decimal, hexadecimal, is_letter_or_end, turn, run, resume, ident_over,
  new_lexer, number_turn, number_start, peek, accept, accept_run,
}
use go_libvirt.Lvgen.Lexer.Steps.{IsAt, accept-taken, accept-left, peek-IsAt}
use go_libvirt.Lvgen.Lexer.Left.{turn-Keeps}
use go_libvirt.Lvgen.Lexer.Progress.{
  AllDecimal, left, next-cons, peek-rest, accept-le, accept_run-le, accept_run-takes, ident_over-le,
  IsReady, measure, Shrinks, Progress, directive_over-Progress, comment_over-Progress,
  lex_text_over-Progress,
}

module _ (u : Unicode) where
  number_start-takes :
      (l : Lexer) (r : ℕ) (rest : Bytes)
      → l.rest ≡ r ∷ rest
      → member r (text "-0123456789") ≡ true
      → left (accept_run (number_start u l).0 (number_start u l).1) ≤ length rest
  unfolding number_start
  number_start-takes l r rest at h = elim (Bool-cases (r == b'-')) [
    | inl e ↦
        let (took, there) = accept-taken (text "-") l r l.taken rest here (ground (arith, e)) in
        rw (took, number_start)
          (omega (arith, accept_run-le decimal (accept (text "-") l).1, ap length there.ahead))
    | inr e ↦
        let (left_it, still) = accept-left (text "-") l r l.taken rest here (ground (arith, e)) in
        let (saw, again) = peek-IsAt (accept (text "-") l).1 r l.taken rest still in
        let k = (peek (accept (text "-") l).1).1 in
        let j = (accept (text "x") (next k).1).1 in
        elim (Bool-cases (r == b'0')) [
          | inl z ↦
              rw (left_it, number_start)
                (rw saw (
                  rw z (
                    omega (
                      arith,
                      accept_run-le
                          (if (accept (text "x") (next k).1).0 then hexadecimal else decimal) j,
                      accept-le (text "x") (next k).1,
                      ap length (next-cons k r rest again.ahead),
                    ))))
          | inr z ↦
              rw (left_it, number_start)
                (rw saw
                  (rw z (accept_run-takes decimal k r rest again.ahead (ground (arith, e, h)))))
        ]
  ]
    where
      here : IsAt l l.taken (r ∷ rest)
      here = record { behind = refl; ahead = at }

  number_turn-Progress :
      (l : Lexer) (r : ℕ) (rest : Bytes)
      → l.rest ≡ r ∷ rest
      → member r (text "-0123456789") ≡ true
      → Progress u (number_turn u l) (2 * left l)
  unfolding number_turn emit ignore
  number_turn-Progress l r rest at h =
      let n = accept_run (number_start u l).0 (number_start u l).1 in
      elim (Bool-cases (is_letter_or_end u (peek n).0)) [
        | inl e ↦ rw (e, number_turn) tt
        | inr e ↦
            rw (e, number_turn)
              (
                tt,
                omega (
                  arith,
                  number_start-takes l r rest at h,
                  ap length (peek-rest n),
                  ap length at,
                ),
              )
      ]

  ident-Progress :
      (l : Lexer) (r : ℕ) (rest : Bytes)
      → l.rest ≡ r ∷ rest
      → u.is_letter r ≡ true
      → left (ident_over u l.rest l) ≤ length rest
  unfolding ident_over
  ident-Progress l r rest at h =
      subst (λ s. left (ident_over u s l) ≤ length rest) (sym at)
        (rw (h, ident_over) (ident_over-le u rest (next l).1 (next-cons l r rest at)))

  turn-Progress :
      (s : State) (l : Lexer)
      → AllDecimal u l.rest
      → IsReady u s l
      → Progress u (turn u s l) (measure u s l)
  unfolding turn emit ignore
  turn-Progress lex_text l digits ready = lex_text_over-Progress u l.rest l digits refl
  turn-Progress lex_block_comment l digits ready =
      comment_over-Progress u (has_prefix l.rest (text "/**")) l.rest l refl
  turn-Progress lex_ident l digits (r, rest, at, h) =
      (tt, omega (arith, ident-Progress l r rest at h, ap length at))
  turn-Progress lex_number l digits (r, rest, at, h) = number_turn-Progress l r rest at h
  turn-Progress lex_directive l digits ready = directive_over-Progress u l.rest l refl

  resumed-ends :
      (fuel bound : ℕ) (sent : List Item) (m : Lexer) (o : Option State)
      → AllDecimal u m.rest
      → Shrinks u o m bound
      → ((s : State) (k : Lexer)
          → AllDecimal u k.rest
          → IsReady u s k
          → measure u s k < bound
          → (run u fuel s k).1 ≡ true)
      → (resume (run u fuel) (record { sent = sent; lexer = m; state = o })).1 ≡ true
  resumed-ends fuel bound sent m none digits p ih = refl
  resumed-ends fuel bound sent m (some s) digits p ih = ih s m digits p.0 p.1

  run-ends :
      (fuel : ℕ) (s : State) (l : Lexer)
      → AllDecimal u l.rest
      → IsReady u s l
      → measure u s l < fuel
      → (run u fuel s l).1 ≡ true
  unfolding run
  run-ends zero s l digits ready h = absurd (omega arith)
  run-ends (suc fuel) s l digits ready h =
      resumed-ends fuel (measure u s l) (turn u s l).sent (turn u s l).lexer (turn u s l).state
        (turn-Keeps u (λ r. u.is_number r ≡ true → member r decimal ≡ true) s l digits)
        (turn-Progress s l digits ready)
        (λ s' m digits' ready' less. run-ends fuel s' m digits' ready' (omega (arith, h, less)))

  -- On an input in which every rune that is a number is a decimal digit, the lexer comes to its end,
  -- given more state functions than twice the length of the input and one.
  pub lexer_ends :
      (input : Bytes) (fuel : ℕ)
      → AllDecimal u input
      → 2 * length input + 1 < fuel
      → (run u fuel lex_text (new_lexer input)).1 ≡ true
  lexer_ends input fuel digits h =
      run-ends fuel lex_text (new_lexer input) digits tt (omega (arith, h))
