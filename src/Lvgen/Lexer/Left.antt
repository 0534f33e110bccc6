-- ===== src/Lvgen/Lexer/Left.antt =====
-- What a state function leaves of the input are runes of the input.
use mathlib.Core.Path.{subst}
use go_libvirt.Base.{
  ℕ, ◌==◌, ◌≡◌, refl, sym, Bool, true, false, ◌||◌, [], ◌∷◌, All, Bool-cases, List-cases, inl, inr,
  if◌then◌else◌,
}
use go_libvirt.Base.Text.{Bytes, text, has_prefix}
use go_libvirt.Lvgen.Lexer.{
  Lexer, Unicode, Turn, State, lex_text, lex_ident, lex_number, lex_directive, lex_block_comment,
  metadata_comment, go_on, send, next, ignore, backup, emit, member, Class, space, directive,
  letter, token, comment, number, other, classify, lex_text_over, ident_over, comment_over,
  directive_over, peek, accept, accept_run, accept_run_over, is_one_of, number_start, number_turn,
  is_letter_or_end, turn,
}
use go_libvirt.Lvgen.Lexer.Progress.{next-cons, peek-rest, backup-next}

module _ (u : Unicode) (P : ℕ → Type 0) where
  abbrev pub Kept : Lexer → Type 0
  Kept l = All P l.rest

  next-Kept : (l : Lexer) → Kept l → Kept (next l).1
  unfolding next
  next-Kept l v = elim (List-cases l.rest) [
    | inl e ↦ rw (e, next) v
    | inr (r, rest, e) ↦ subst (All P) (sym (next-cons l r rest e)) ((subst (All P) e v).1)
  ]

  back-Kept : (l : Lexer) → Kept l → Kept (backup (next l).1)
  back-Kept l v = subst (All P) (sym (backup-next l)) v

  peek-Kept : (l : Lexer) → Kept l → Kept (peek l).1
  peek-Kept l v = subst (All P) (sym (peek-rest l)) v

  accept-Kept : (valid : Bytes) (l : Lexer) → Kept l → Kept (accept valid l).1
  unfolding accept
  accept-Kept valid l v = elim (Bool-cases (is_one_of valid (next l).0)) [
    | inl e ↦ rw (e, accept) (next-Kept l v)
    | inr e ↦ rw (e, accept) (back-Kept l v)
  ]

  accept_run_over-Kept : (valid rs : Bytes) (l : Lexer) → Kept l → Kept (accept_run_over valid rs l)
  unfolding accept_run_over
  accept_run_over-Kept valid [] l v = back-Kept l v
  accept_run_over-Kept valid (r ∷ rs) l v = elim (Bool-cases (member r valid)) [
    | inl e ↦ rw (e, accept_run_over) (accept_run_over-Kept valid rs (next l).1 (next-Kept l v))
    | inr e ↦ rw (e, accept_run_over) (back-Kept l v)
  ]

  accept_run-Kept : (valid : Bytes) (l : Lexer) → Kept l → Kept (accept_run valid l)
  unfolding accept_run
  accept_run-Kept valid l v = accept_run_over-Kept valid l.rest l v

  ident_over-Kept : (rs : Bytes) (l : Lexer) → Kept l → Kept (ident_over u rs l)
  unfolding ident_over
  ident_over-Kept [] l v = back-Kept l v
  ident_over-Kept (r ∷ rs) l v = elim (Bool-cases (u.is_letter r || u.is_digit r || r == b'_')) [
    | inl e ↦ rw (e, ident_over) (ident_over-Kept rs (next l).1 (next-Kept l v))
    | inr e ↦ rw (e, ident_over) (back-Kept l v)
  ]

  if-Kept : (b : Bool) (x y : Bytes × Lexer) → Kept x.1 → Kept y.1 → Kept (if b then x else y).1
  if-Kept true x y v w = v
  if-Kept false x y v w = w

  number_start-Kept : (l : Lexer) → Kept l → Kept (number_start u l).1
  unfolding number_start
  number_start-Kept l v =
      let m = (accept (text "-") l).1 in
      let at_m = accept-Kept (text "-") l v in
      let k = (peek m).1 in
      let at_k = peek-Kept m at_m in
      let at_j = accept-Kept (text "x") (next k).1 (next-Kept k at_k) in
      if-Kept (accept (text "-") l).0 _ _ at_m
        (if-Kept (is_one_of (text "0") (peek m).0) _ _ at_j at_k)

  -- A turn that leaves such runes.
  abbrev pub Keeps : Turn → Type 0
  Keeps t = Kept t.lexer

  if-Keeps : (b : Bool) (x y : Turn) → Keeps x → Keeps y → Keeps (if b then x else y)
  if-Keeps true x y v w = v
  if-Keeps false x y v w = w

  number_turn-Keeps : (l : Lexer) → Kept l → Keeps (number_turn u l)
  unfolding number_turn emit ignore
  number_turn-Keeps l v =
      let n = accept_run (number_start u l).0 (number_start u l).1 in
      let at_k = peek-Kept n (accept_run-Kept (number_start u l).0 _ (number_start-Kept l v)) in
      if-Keeps (is_letter_or_end u (peek n).0) _ _ (next-Kept (peek n).1 at_k) at_k

  directive_over-Keeps : (rs : Bytes) (l : Lexer) → Kept l → Keeps (directive_over u rs l)
  unfolding directive_over ignore
  directive_over-Keeps [] l v = next-Kept l v
  directive_over-Keeps (r ∷ rs) l v = elim (Bool-cases (r == b'\n')) [
    | inl e ↦ rw (e, directive_over) (next-Kept l v)
    | inr e ↦ rw (e, directive_over) (directive_over-Keeps rs (next l).1 (next-Kept l v))
  ]

  comment_over-Keeps : (b : Bool) (rs : Bytes) (l : Lexer) → Kept l → Keeps (comment_over u b rs l)
  unfolding comment_over ignore emit
  comment_over-Keeps b [] l v = next-Kept l v
  comment_over-Keeps b (r ∷ rs) l v = elim (Bool-cases (has_prefix (r ∷ rs) (text "*/"))) [
    | inl e ↦
        let at = next-Kept (next l).1 (next-Kept l v) in
        rw (e, comment_over)
          (if-Keeps b (send metadata_comment (next (next l).1).1)
            (go_on (ignore (next (next l).1).1) lex_text) at at)
    | inr e ↦ rw (e, comment_over) (comment_over-Keeps b rs (next l).1 (next-Kept l v))
  ]

  class-Keeps :
      (r : ℕ) (rs : Bytes) (l : Lexer)
      → Kept l
      → ((m : Lexer) → Kept m → Keeps (lex_text_over u rs m))
      → (c : Class) → classify u (next l).1.column r rs ≡ c
      → Keeps (lex_text_over u (r ∷ rs) l)
  unfolding lex_text_over ignore emit
  class-Keeps r rs l v ih c e =
      elim c as (λ x. classify u (next l).1.column r rs ≡ x → Keeps (lex_text_over u (r ∷ rs) l)) [
        | comment ↦ λ f. rw (f, lex_text_over) v
        | space ↦ λ f. rw (f, lex_text_over) (next-Kept l v)
        | directive ↦ λ f. rw (f, lex_text_over) (back-Kept l v)
        | letter ↦ λ f. rw (f, lex_text_over) (back-Kept l v)
        | number ↦ λ f. rw (f, lex_text_over) (back-Kept l v)
        | token ↦ λ f. rw (f, lex_text_over) (ih (ignore (next l).1) (next-Kept l v))
        | other ↦ λ f. rw (f, lex_text_over) (ih (next l).1 (next-Kept l v))
      ]
        e

  lex_text_over-Keeps : (rs : Bytes) (l : Lexer) → Kept l → Keeps (lex_text_over u rs l)
  unfolding lex_text_over
  lex_text_over-Keeps [] l v = next-Kept l v
  lex_text_over-Keeps (r ∷ rs) l v =
      class-Keeps r rs l v (lex_text_over-Keeps rs) (classify u (next l).1.column r rs) refl

  pub turn-Keeps : (s : State) (l : Lexer) → Kept l → Keeps (turn u s l)
  unfolding turn emit ignore
  turn-Keeps lex_text l v = lex_text_over-Keeps l.rest l v
  turn-Keeps lex_block_comment l v = comment_over-Keeps (has_prefix l.rest (text "/**")) l.rest l v
  turn-Keeps lex_ident l v = ident_over-Kept l.rest l v
  turn-Keeps lex_number l v = number_turn-Keeps l v
  turn-Keeps lex_directive l v = directive_over-Keeps l.rest l v
