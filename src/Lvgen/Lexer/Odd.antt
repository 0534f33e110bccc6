-- ===== src/Lvgen/Lexer/Odd.antt =====
-- A number that is no digit.
use mathlib.Core.Path.{subst}
use go_libvirt.Base.{ℕ, zero, suc, ◌==◌, ◌≡◌, refl, sym, ap, ◌∙◌, true, false, [], ◌∷◌, arith}
use go_libvirt.Base.Text.{Bytes, text}
use go_libvirt.Lvgen.Lexer.{
  Lexer, Unicode, lex_text, lex_number, constant, go_on, send, next, ignore, backup, emit, member,
  decimal, number, classify, lex_text_over, turn, run, resume, number_turn, number_start, peek,
  accept, accept_run, accept_run_over,
}
use go_libvirt.Lvgen.Lexer.Steps.{
  IsAt, next-IsPast, backup-IsAt, peek-IsAt, accept-left, accept_run-IsAt,
}
use go_libvirt.Lvgen.Lexer.Words.{ignore-IsAt}

module _ (u : Unicode) where
  -- A number that is no digit, such as a fraction in one rune.
  pub record IsOddNumber (r : ℕ) : Type 0 where
    pub is_number : u.is_number r ≡ true
    pub no_space : u.is_space r ≡ false
    pub no_letter : u.is_letter r ≡ false
    pub no_sign : member r (text "-0123456789/%") ≡ false

  odd_number_start :
      (m : Lexer) (r : ℕ) (rest : Bytes)
      → IsOddNumber r
      → IsAt m [] (r ∷ rest)
      → ((number_start u m).0 ≡ decimal) × IsAt (number_start u m).1 [] (r ∷ rest)
  unfolding number_start
  odd_number_start m r rest v at =
      let (left, here) = accept-left (text "-") m r [] rest at (ground (arith, v.no_sign)) in
      let (saw, still) = peek-IsAt (accept (text "-") m).1 r [] rest here in
      let no_zero : (r == b'0') ≡ false = ground (arith, v.no_sign) in
      (
        rw (left, number_start) (rw saw (rw no_zero)),
        rw (left, number_start) (rw saw (rw no_zero still)),
      )

  odd_number_turn :
      (m : Lexer) (r : ℕ) (rest : Bytes)
      → IsOddNumber r
      → IsAt m [] (r ∷ rest)
      → (k : Lexer) × (turn u lex_number m ≡ send constant k) × IsAt k [] (r ∷ rest)
  unfolding turn number_turn
  odd_number_turn m r rest v at =
      let (digits, here) = odd_number_start m r rest v at in
      let j = (number_start u m).1 in
      let there : IsAt (accept_run (number_start u m).0 j) [] (r ∷ rest) =
        unfold accept_run in
        subst (λ d. IsAt (accept_run_over d j.rest j) [] (r ∷ rest)) (sym digits)
          (subst (λ s. IsAt (accept_run_over decimal s j) [] (r ∷ rest)) (sym here.ahead)
            (accept_run-IsAt decimal [] j r [] rest here tt (ground (arith, v.no_sign)))) in
      let (read, still) = peek-IsAt (accept_run (number_start u m).0 j) r [] rest there in
      (
        (peek (accept_run (number_start u m).0 j)).1,
        rw (read, number_turn) (rw (v.no_letter)),
        still,
      )

  odd_number_text :
      (l : Lexer) (r : ℕ) (rest : Bytes)
      → IsOddNumber r
      → IsAt l [] (r ∷ rest)
      → (turn u lex_text l ≡ go_on (backup (next l).1) lex_number)
        × IsAt (backup (next l).1) [] (r ∷ rest)
  unfolding turn lex_text_over
  odd_number_text l r rest v at =
      let class : classify u (next l).1.column r rest ≡ number =
        unfold classify in ground (arith, v.no_sign, v.is_number, v.no_space, v.no_letter) in
      (
        ap (λ s. lex_text_over u s l) at.ahead ∙ rw (class, lex_text_over),
        backup-IsAt (next l).1 r [] rest (next-IsPast l r [] rest at).1,
      )

  -- With nothing taken yet, and a rune in front of it that is a number but no decimal digit, no space,
  -- no letter and no sign, slash or percent, the lexer does not end, with whatever fuel.
  pub odd_number_never_ends :
      (fuel : ℕ) (l : Lexer) (r : ℕ) (rest : Bytes)
      → IsOddNumber r
      → IsAt l [] (r ∷ rest)
      → (run u fuel lex_text l).1 ≡ false
  unfolding run emit
  odd_number_never_ends zero l r rest v at = refl
  odd_number_never_ends (suc zero) l r rest v at =
      ap (λ t. (resume (run u 0) t).1) (odd_number_text l r rest v at).0
  odd_number_never_ends (suc (suc fuel)) l r rest v at =
      let (entered, here) = odd_number_text l r rest v at in
      let (k, sent, there) = odd_number_turn (backup (next l).1) r rest v here in
      ap (λ t. (resume (run u (suc fuel)) t).1) entered
      ∙ ap (λ t. (resume (run u fuel) t).1) sent
      ∙ odd_number_never_ends fuel (ignore k) r rest v (ignore-IsAt k [] (r ∷ rest) there)
