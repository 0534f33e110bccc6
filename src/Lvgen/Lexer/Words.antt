-- ===== src/Lvgen/Lexer/Words.antt =====
-- Blanks, marks and names are read back.
use mathlib.Core.Path.{subst}
use go_libvirt.Base.{
  ℕ, suc, ◌==◌, ◌≡◌, refl, sym, ap, ◌∙◌, true, false, ◌||◌, List, [], ◌∷◌, ◌++◌, append_assoc,
  append-nil, arith,
}
use go_libvirt.Base.Text.{Bytes, text}
use go_libvirt.Lvgen.Lexer.{
  Lexer, Unicode, Typ, State, lex_text, lex_ident, rune, token_of, go_on, send, next, ignore,
  backup, emit, after_sending, member, one_rune_tokens, lex_text_over, turn, run, lexeme,
  reverse_onto, ident_over,
}
use go_libvirt.Lvgen.Lexer.Steps.{
  IsAt, next-IsPast, backup-IsAt, ident_over-IsAt, plains, after, run-go_on, run-send, run-turn,
}
use go_libvirt.Lvgen.Lexer.Text.{IsUnicode, letter_class, space_class, token_class}
use go_libvirt.Lvgen.Lexer.Pieces.{name, print, tokens, IsPiece, turns}

reverse_onto-reverse_onto :
    (xs ys zs : Bytes) → reverse_onto (reverse_onto xs ys) zs ≡ reverse_onto ys (xs ++ zs)
reverse_onto-reverse_onto [] ys zs = refl
reverse_onto-reverse_onto (x ∷ xs) ys zs = reverse_onto-reverse_onto xs (x ∷ ys) zs

pub reverse_onto-append :
    (xs ys zs : Bytes) → reverse_onto (xs ++ ys) zs ≡ reverse_onto ys (reverse_onto xs zs)
reverse_onto-append [] ys zs = refl
reverse_onto-append (x ∷ xs) ys zs = reverse_onto-append xs ys (x ∷ zs)

pub ignore-IsAt : (l : Lexer) (taken rest : Bytes) → IsAt l taken rest → IsAt (ignore l) [] rest
unfolding ignore
ignore-IsAt l taken rest v = record { behind = refl; ahead = v.ahead }

module _ (u : Unicode) (v : IsUnicode u) where
  -- The lexer gets from one place to another, sending the items.
  abbrev pub Lexes : (ℕ → ℕ) → List (Typ × Bytes) → Bytes → Bytes → Type 0
  Lexes cost items printed rest =
      (fuel : ℕ) (l : Lexer)
      → IsAt l [] (printed ++ rest)
      → (m : Lexer) × IsAt m [] rest
        × (plains u (run u (cost (suc fuel)) lex_text l)
            ≡ after u items (plains u (run u (suc fuel) lex_text m)))

  pub lex_text-at :
      (l : Lexer) (taken rest : Bytes)
      → IsAt l taken rest
      → turn u lex_text l ≡ lex_text_over u rest l
  unfolding turn
  lex_text-at l taken rest at = ap (λ s. lex_text_over u s l) at.ahead

  pub blank-Lexes : (r : ℕ) (rest : Bytes) → u.is_space r ≡ true → Lexes suc [] (r ∷ []) rest
  unfolding lex_text_over ignore
  blank-Lexes r rest h fuel l at =
      let (read, past) = next-IsPast l r [] rest at in
      (
        ignore (next l).1,
        ignore-IsAt (next l).1 (r ∷ []) rest past.at,
        ap (plains u) (
            run-go_on u (suc fuel) lex_text lex_text l (ignore (next l).1) (
              lex_text-at l [] (r ∷ rest) at
              ∙ rw (space_class u v (next l).1.column r rest h, lex_text_over))),
      )

  pub mark-Lexes :
      (r : ℕ) (rest : Bytes)
      → member r one_rune_tokens ≡ true
      → Lexes (λ n. n) ((rune r, r ∷ []) ∷ []) (r ∷ []) rest
  unfolding lex_text_over emit ignore
  mark-Lexes r rest h fuel l at =
      let (read, past) = next-IsPast l r [] rest at in
      let m = (next l).1 in
      let k = ignore m in
      let here = ignore-IsAt m (r ∷ []) rest past.at in
      (
        k,
        here,
        run-turn u fuel l k (emit (rune r) m).0 (
              lex_text-at l [] (r ∷ rest) at
              ∙ rw (token_class u v m.column r rest h, lex_text_over)
                  (ap (after_sending (emit (rune r) m).0) (sym (lex_text-at k [] rest here))))
            ∙ rw past.at.behind,
      )

  pub lexeme-IsAt :
      (k : Lexer) (word rest : Bytes) → IsAt k (reverse_onto word []) rest → lexeme k ≡ word
  lexeme-IsAt k word rest at =
      ap (λ t. reverse_onto t []) at.behind ∙ reverse_onto-reverse_onto word [] [] ∙ append-nil word

  -- A word, read by the state function `s`, and the blank behind it.
  pub word_lexes :
      (fuel : ℕ) (s : State) (typ : Typ) (word rest : Bytes) (l m k : Lexer)
      → turn u lex_text l ≡ go_on m s
      → turn u s m ≡ send typ k
      → IsAt k (reverse_onto word []) (b' ' ∷ rest)
      → (n : Lexer) × IsAt n [] rest
        × (plains u (run u (suc (suc (suc (suc fuel)))) lex_text l)
            ≡ after u ((typ, word) ∷ []) (plains u (run u (suc fuel) lex_text n)))
  word_lexes fuel s typ word rest l m k first second at =
      let behind = ignore-IsAt k (reverse_onto word []) (b' ' ∷ rest) at in
      let (n, here, last) = blank-Lexes b' ' rest v.blank fuel (ignore k) behind in
      (
        n,
        here,
        ap (plains u) (run-go_on u (suc (suc (suc fuel))) lex_text s l m first)
            ∙ run-send u (suc (suc fuel)) s m k typ second
            ∙ ap (after u ((typ, lexeme k) ∷ [])) last
            ∙ rw (lexeme-IsAt k word (b' ' ∷ rest) at),
      )

  pub before_blank :
      (l : Lexer) (word rest : Bytes)
      → IsAt l [] ((word ++ text " ") ++ rest)
      → IsAt l [] (word ++ b' ' ∷ rest)
  before_blank l word rest at = record {
    behind = at.behind;
    ahead = at.ahead ∙ append_assoc word (text " ") rest;
  }

  blank_ends_name : u.is_letter b' ' || u.is_digit b' ' || b' ' == b'_' ≡ false
  blank_ends_name = ground (arith, v.spaces b' ' v.blank)

  ident_turn :
      (m : Lexer) (r : ℕ) (rs rest : Bytes)
      → IsAt m [] (r ∷ rs ++ b' ' ∷ rest)
      → IsPiece u (name r rs)
      → (k : Lexer) × (turn u lex_ident m ≡ send (token_of (r ∷ rs)) k)
        × IsAt k (reverse_onto (r ∷ rs) []) (b' ' ∷ rest)
  ident_turn m r rs rest at h =
      let k = ident_over u m.rest m in
      let there : IsAt k (reverse_onto (r ∷ rs) []) (b' ' ∷ rest) =
        subst (λ s. IsAt (ident_over u s m) (reverse_onto (r ∷ rs) []) (b' ' ∷ rest)) (sym at.ahead)
          (ident_over-IsAt u (r ∷ rs) m b' ' [] rest at (rw (h.0), h.1) blank_ends_name) in
      (
        k,
        unfold turn in
            ap (λ word. send (token_of word) k) (lexeme-IsAt k (r ∷ rs) (b' ' ∷ rest) there),
        there,
      )

  pub name-Lexes :
      (r : ℕ) (rs rest : Bytes)
      → IsPiece u (name r rs)
      → Lexes (turns (name r rs)) (tokens (name r rs)) (print (name r rs)) rest
  name-Lexes r rs rest h fuel l whole =
      let at = before_blank l (r ∷ rs) rest whole in
      let m = backup (next l).1 in
      let here =
        backup-IsAt (next l).1 r [] (rs ++ b' ' ∷ rest)
          (next-IsPast l r [] (rs ++ b' ' ∷ rest) at).1 in
      let (k, second, there) = ident_turn m r rs rest here h in
      word_lexes fuel lex_ident (token_of (r ∷ rs)) (r ∷ rs) rest l m k
        (unfold lex_text_over in
          lex_text-at l [] (r ∷ rs ++ b' ' ∷ rest) at
          ∙ rw (letter_class u v (next l).1.column r (rs ++ b' ' ∷ rest) h.0, lex_text_over))
        second there
