-- ===== src/Lvgen/Lexer/RoundTrip.antt =====
-- What is printed is read back.
use go_libvirt.Base.{
  ℕ, zero, suc, ◌<◌, ◌==◌, ◌≡◌, refl, sym, ap, ◌∙◌, Bool, true, false, List, [], ◌∷◌, ◌++◌,
  append_assoc, append-nil, arith, All, Bool-cases, inl, inr, if◌then◌else◌,
}
use go_libvirt.Base.Text.{Bytes, text, has_prefix, contains}
use go_libvirt.Lvgen.Lexer.{
  Lexer, Unicode, lex_text, lex_directive, lex_block_comment, metadata_comment, go_on, send, next,
  ignore, backup, classify, lex_text_over, turn, run, resume, lexeme, reverse_onto, comment_over,
  directive_over, new_lexer, advance,
}
use go_libvirt.Lvgen.Lexer.Steps.{
  IsAt, next-IsPast, backup-IsAt, plains, after, run-go_on, run-send,
}
use go_libvirt.Lvgen.Lexer.Text.{IsUnicode, space_class, directive_class}
use go_libvirt.Lvgen.Lexer.Pieces.{
  Piece, name, number, hex, mark, blank, block_comment, directive_line, core, print, print_all,
  tokens, tokens_of, IsPiece, turns, fuel_of, is_metadata,
}
use go_libvirt.Lvgen.Lexer.Words.{
  Lexes, lex_text-at, blank-Lexes, mark-Lexes, lexeme-IsAt, name-Lexes, reverse_onto-append,
  ignore-IsAt,
}
use go_libvirt.Lvgen.Lexer.Numbers.{number-Lexes, hex-Lexes}

module _ (u : Unicode) (v : IsUnicode u) where
  directive_turn :
      (line rest : Bytes) (m : Lexer) (taken : Bytes)
      → IsAt m taken (line ++ b'\n' ∷ rest)
      → All (λ c. c == b'\n' ≡ false) line
      → (k : Lexer) × IsAt k [] rest
        × (directive_over u (line ++ b'\n' ∷ rest) m ≡ go_on k lex_text)
  unfolding directive_over
  directive_turn [] rest m taken at h =
      let (read, past) = next-IsPast m b'\n' taken rest at in
      (ignore (next m).1, ignore-IsAt (next m).1 (b'\n' ∷ taken) rest past.at, refl)
  directive_turn (c ∷ line) rest m taken at h =
      let (read, past) = next-IsPast m c taken (line ++ b'\n' ∷ rest) at in
      let (k, here, last) = directive_turn line rest (next m).1 (c ∷ taken) past.at h.1 in
      (k, here, rw (h.0, directive_over) last)

  not_closed :
      (c : ℕ) (body rest : Bytes)
      → contains ((c ∷ body) ++ text "*") (text "*/") ≡ false
      → (has_prefix (c ∷ (body ++ text "*/" ++ rest)) (text "*/") ≡ false)
        × (contains (body ++ text "*") (text "*/") ≡ false)
  not_closed c [] rest h = (ground arith, refl)
  not_closed c (d ∷ body) rest h = (ground (arith, h), ground (arith, h))

  comment_turn :
      (body rest : Bytes) (metadata : Bool) (m : Lexer) (taken : Bytes)
      → IsAt m taken (body ++ text "*/" ++ rest)
      → contains (body ++ text "*") (text "*/") ≡ false
      → (k : Lexer) × IsAt k (b'/' ∷ b'*' ∷ reverse_onto body taken) rest
        × (comment_over u metadata (body ++ text "*/" ++ rest) m
            ≡ (if metadata then send metadata_comment k else go_on (ignore k) lex_text))
  unfolding comment_over
  comment_turn [] rest metadata m taken at h =
      let (star, past) = next-IsPast m b'*' taken (b'/' ∷ rest) at in
      let (slash, end) = next-IsPast (next m).1 b'/' (b'*' ∷ taken) rest past.at in
      ((next (next m).1).1, end.at, refl)
  comment_turn (c ∷ body) rest metadata m taken at h =
      let (read, past) = next-IsPast m c taken (body ++ text "*/" ++ rest) at in
      let (inside, later) = not_closed c body rest h in
      let (k, here, last) = comment_turn body rest metadata (next m).1 (c ∷ taken) past.at later in
      (k, here, rw (inside, comment_over) last)

  metadata_test :
      (body rest : Bytes) → has_prefix (body ++ text "*/" ++ rest) (text "*") ≡ is_metadata body
  metadata_test [] rest = refl
  metadata_test (c ∷ body) rest = refl

  comment_lexeme :
      (k : Lexer) (body rest : Bytes)
      → IsAt k (b'/' ∷ b'*' ∷ reverse_onto (b'/' ∷ b'*' ∷ body) []) rest
      → lexeme k ≡ core (block_comment body)
  comment_lexeme k body rest at = lexeme-IsAt u v k (core (block_comment body)) rest (record {
    behind = at.behind ∙ sym (reverse_onto-append (b'/' ∷ b'*' ∷ body) (text "*/") []);
    ahead = at.ahead;
  })

  comment-Lexes :
      (body rest : Bytes)
      → IsPiece u (block_comment body)
      → Lexes u v (λ n. suc (suc n)) (tokens (block_comment body)) (print (block_comment body)) rest
  comment-Lexes body rest h fuel l whole =
      let s = body ++ text "*/" ++ rest in
      let at : IsAt l [] (b'/' ∷ b'*' ∷ s) = record {
        behind = whole.behind;
        ahead =
            whole.ahead
            ∙ ap (λ x. b'/' ∷ b'*' ∷ x) (ap (λ x. x ++ rest) (append-nil (body ++ text "*/")));
      } in
      let (k, there, second) =
        comment_turn (b'/' ∷ b'*' ∷ body) rest (is_metadata body) l [] at h in
      let entered : turn u lex_text l ≡ go_on l lex_block_comment =
        unfold lex_text_over classify in lex_text-at u v l [] (b'/' ∷ b'*' ∷ s) at in
      let went : turn u lex_block_comment l
          ≡ (if is_metadata body then send metadata_comment k else go_on (ignore k) lex_text) =
        unfold turn in
        ap (λ x. comment_over u (has_prefix x (text "/**")) x l) at.ahead
        ∙ ap (λ b. comment_over u b (b'/' ∷ b'*' ∷ s) l) (metadata_test body rest)
        ∙ second in
      (
        ignore k,
        ignore-IsAt k _ rest there,
        ap (plains u) (run-go_on u (suc (suc fuel)) lex_text lex_block_comment l l entered)
            ∙ elim (Bool-cases (is_metadata body)) [
              | inl e ↦
                  run-send u (suc fuel) lex_block_comment l k metadata_comment (went ∙ rw e)
                  ∙ rw (comment_lexeme k body rest there, e)
              | inr e ↦
                  ap (plains u)
                    (run-go_on u (suc fuel) lex_block_comment lex_text l (ignore k) (went ∙ rw e))
                  ∙ rw e
            ],
      )

  newline_column :
      (l : Lexer) (taken rest : Bytes) → IsAt l taken (b'\n' ∷ rest) → (next l).1.column ≡ 0
  unfolding next advance
  newline_column l taken rest at = rw (at.ahead, next)

  percent_column :
      (l : Lexer) (taken rest : Bytes)
      → IsAt l taken (b'%' ∷ rest)
      → (next l).1.column ≡ suc l.column
  unfolding next advance
  percent_column l taken rest at = rw (at.ahead, next)

  directive-Lexes :
      (line rest : Bytes)
      → IsPiece u (directive_line line)
      → Lexes u v (λ n. suc (suc (suc n))) [] (print (directive_line line)) rest
  directive-Lexes line rest h fuel l whole =
      let s = b'%' ∷ line ++ b'\n' ∷ rest in
      let at : IsAt l [] (b'\n' ∷ s) = record {
        behind = whole.behind;
        ahead =
            whole.ahead
            ∙ ap (λ x. b'\n' ∷ b'%' ∷ x)
                (ap (λ x. x ++ rest) (append-nil (line ++ text "\n"))
                  ∙ append_assoc line (text "\n") rest);
      } in
      let (read, past) = next-IsPast l b'\n' [] s at in
      let n = ignore (next l).1 in
      let here = ignore-IsAt (next l).1 (b'\n' ∷ []) s past.at in
      let d = backup (next n).1 in
      let begins =
        backup-IsAt (next n).1 b'%' [] (line ++ b'\n' ∷ rest)
          (next-IsPast n b'%' [] (line ++ b'\n' ∷ rest) here).1 in
      let (k, there, last) = directive_turn (b'%' ∷ line) rest d [] begins (refl, h) in
      let first : turn u lex_text l ≡ go_on n lex_text =
        unfold lex_text_over in
        lex_text-at u v l [] (b'\n' ∷ s) at
        ∙ rw (space_class u v (next l).1.column b'\n' s v.newline, lex_text_over) in
      let column : (next n).1.column ≡ 1 =
        percent_column n [] (line ++ b'\n' ∷ rest) here
        ∙ ap suc (unfold ignore in newline_column l [] s at) in
      let second : turn u lex_text n ≡ go_on d lex_directive =
        unfold lex_text_over in
        lex_text-at u v n [] s here
        ∙ rw (
          ap (λ c. classify u c b'%' (line ++ b'\n' ∷ rest)) column
              ∙ directive_class u v (line ++ b'\n' ∷ rest),
          lex_text_over,
        ) in
      let third : turn u lex_directive d ≡ go_on k lex_text =
        unfold turn in ap (λ x. directive_over u x d) begins.ahead ∙ last in
      (
        k,
        there,
        ap (plains u) (
            run-go_on u (suc (suc (suc fuel))) lex_text lex_text l n first
            ∙ run-go_on u (suc (suc fuel)) lex_text lex_directive n d second
            ∙ run-go_on u (suc fuel) lex_directive lex_text d k third),
      )

  piece-Lexes :
      (p : Piece) (rest : Bytes) → IsPiece u p → Lexes u v (turns p) (tokens p) (print p) rest
  piece-Lexes (name r rs) = name-Lexes u v r rs
  piece-Lexes (number negative d ds) = number-Lexes u v negative d ds
  piece-Lexes (hex ds) = hex-Lexes u v ds
  piece-Lexes (mark r) = mark-Lexes u v r
  piece-Lexes (blank r) = blank-Lexes u v r
  piece-Lexes (block_comment body) = comment-Lexes body
  piece-Lexes (directive_line line) = directive-Lexes line

  turns-pos : (p : Piece) (n : ℕ) → 0 < n → 0 < turns p n
  turns-pos (mark r) n h = h
  turns-pos (name r rs) n h = omega arith
  turns-pos _ n h = omega arith

  fuel_of-pos : (ps : List Piece) → 0 < fuel_of ps
  fuel_of-pos [] = omega arith
  fuel_of-pos (p ∷ ps) = turns-pos p (fuel_of ps) (fuel_of-pos ps)

  fuel_suc : (n : ℕ) → 0 < n → (f : ℕ) × (n ≡ suc f)
  fuel_suc zero h = absurd (omega arith)
  fuel_suc (suc n) h = (n, refl)

  pieces_lex :
      (ps : List Piece) (l : Lexer)
      → All (IsPiece u) ps
      → IsAt l [] (print_all ps)
      → plains u (run u (fuel_of ps) lex_text l) ≡ (tokens_of ps, true)
  unfolding run lex_text_over
  pieces_lex [] l h at = ap (λ t. plains u (resume (run u 0) t)) (lex_text-at u v l [] [] at)
  pieces_lex (p ∷ ps) l h at =
      let (f, e) = fuel_suc (fuel_of ps) (fuel_of-pos ps) in
      let (m, here, step) = piece-Lexes p (print_all ps) h.0 f l at in
      ap (λ n. plains u (run u (turns p n) lex_text l)) e
      ∙ step
      ∙ ap (after u (tokens p))
          (ap (λ n. plains u (run u n lex_text m)) (sym e) ∙ pieces_lex ps m h.1 here)

  -- A file of words, marks, spaces, comments and directives, each word with a blank behind it, gives
  -- exactly the tokens of its words, marks and metadata comments, with their texts and in order, and
  -- the lexer then ends.
  pub run-print_all :
      (ps : List Piece)
      → All (IsPiece u) ps
      → plains u (run u (fuel_of ps) lex_text (new_lexer (print_all ps))) ≡ (tokens_of ps, true)
  run-print_all ps h =
      pieces_lex ps (new_lexer (print_all ps)) h (record { behind = refl; ahead = refl })
