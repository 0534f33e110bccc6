-- ===== src/Lvgen/Lexer/Progress.antt =====
-- How each state function gets on.
use mathlib.Core.Path.{subst}
use go_libvirt.Base.{
  All, ℕ, suc, ◌*◌, ◌<◌, ◌≤◌, ◌==◌, ◌≡◌, refl, sym, ap, ◌∙◌, Bool, true, false, ◌||◌, Option, none,
  some, [], ◌∷◌, arith, Bool-cases, List-cases, inl, inr, if◌then◌else◌, length,
}
use go_libvirt.Base.Text.{Bytes, text, has_prefix}
use go_libvirt.Lvgen.Lexer.{
  Lexer, Unicode, Turn, State, lex_text, lex_ident, lex_number, metadata_comment, go_on, send, next,
  ignore, backup, emit, member, decimal, Class, space, directive, letter, token, comment, number,
  other, classify, lex_text_over, ident_over, comment_over, directive_over, peek, accept,
  accept_run, accept_run_over, advance, is_one_of,
}
use go_libvirt.Lvgen.Lexer.Steps.{next-IsPast, backup-IsAt, backup-end}

abbrev pub left : Lexer → ℕ
left l = length l.rest

pub next-cons : (l : Lexer) (r : ℕ) (rest : Bytes) → l.rest ≡ r ∷ rest → (next l).1.rest ≡ rest
unfolding next advance
next-cons l r rest at = rw (at, next)

next-left : (l : Lexer) → left (next l).1 ≤ left l
unfolding next advance
next-left l = elim (List-cases l.rest) [
  | inl e ↦ rw (e, next) (omega (arith, ap length e))
  | inr (r, rest, e) ↦ omega (arith, ap length (next-cons l r rest e), ap length e)
]

next-read : (l : Lexer) (r : ℕ) (rest : Bytes) → l.rest ≡ r ∷ rest → (next l).0 ≡ some r
unfolding next advance
next-read l r rest at = rw (at, next)

pub backup-next : (l : Lexer) → (backup (next l).1).rest ≡ l.rest
backup-next l = elim (List-cases l.rest) [
  | inl e ↦ (backup-end l l.taken (record { behind = refl; ahead = e })).1.ahead ∙ sym e
  | inr (r, rest, e) ↦
      (backup-IsAt (next l).1 r l.taken rest
        (next-IsPast l r l.taken rest (record { behind = refl; ahead = e })).1).ahead
      ∙ sym e
]

pub peek-rest : (l : Lexer) → (peek l).1.rest ≡ l.rest
unfolding peek
peek-rest l = backup-next l

pub accept-le : (valid : Bytes) (l : Lexer) → left (accept valid l).1 ≤ left l
unfolding accept
accept-le valid l = elim (Bool-cases (is_one_of valid (next l).0)) [
  | inl e ↦ rw (e, accept) (next-left l)
  | inr e ↦ rw (e, accept) (rw (backup-next l) (omega arith))
]

accept_run_over-le :
    (valid rs : Bytes) (l : Lexer) → l.rest ≡ rs → left (accept_run_over valid rs l) ≤ length rs
unfolding accept_run_over
accept_run_over-le valid [] l at = omega (arith, ap length (backup-next l), ap length at)
accept_run_over-le valid (r ∷ rs) l at = elim (Bool-cases (member r valid)) [
  | inl e ↦
      rw (e, accept_run_over)
        (omega (arith, accept_run_over-le valid rs (next l).1 (next-cons l r rs at)))
  | inr e ↦ rw (e, accept_run_over) (omega (arith, ap length (backup-next l), ap length at))
]

pub accept_run-le : (valid : Bytes) (l : Lexer) → left (accept_run valid l) ≤ left l
unfolding accept_run
accept_run-le valid l = accept_run_over-le valid l.rest l refl

pub accept_run-takes :
    (valid : Bytes) (l : Lexer) (r : ℕ) (rest : Bytes)
    → l.rest ≡ r ∷ rest
    → member r valid ≡ true
    → left (accept_run valid l) ≤ length rest
unfolding accept_run accept_run_over
accept_run-takes valid l r rest at h =
    subst (λ s. left (accept_run_over valid s l) ≤ length rest) (sym at)
      (rw (h, accept_run_over) (accept_run_over-le valid rest (next l).1 (next-cons l r rest at)))

module _ (u : Unicode) where
  pub ident_over-le : (rs : Bytes) (l : Lexer) → l.rest ≡ rs → left (ident_over u rs l) ≤ length rs
  unfolding ident_over
  ident_over-le [] l at = omega (arith, ap length (backup-next l), ap length at)
  ident_over-le (r ∷ rs) l at = elim (Bool-cases (u.is_letter r || u.is_digit r || r == b'_')) [
    | inl e ↦ rw (e, ident_over) (omega (arith, ident_over-le rs (next l).1 (next-cons l r rs at)))
    | inr e ↦ rw (e, ident_over) (omega (arith, ap length (backup-next l), ap length at))
  ]

  -- Where a state function other than `lexText` can be entered.
  abbrev pub IsReady : State → Lexer → Type 0
  IsReady lex_ident l = (r : ℕ) × (rest : Bytes) × (l.rest ≡ r ∷ rest) × (u.is_letter r ≡ true)
  IsReady lex_number l =
      (r : ℕ) × (rest : Bytes) × (l.rest ≡ r ∷ rest) × (member r (text "-0123456789") ≡ true)
  IsReady _ l = Unit

  abbrev pub measure : State → Lexer → ℕ
  measure lex_text l = suc (2 * left l)
  measure _ l = 2 * left l

  -- A turn ends the run, or leaves less to do.
  abbrev pub Shrinks : Option State → Lexer → ℕ → Type 0
  Shrinks none l bound = Unit
  Shrinks (some s) l bound = IsReady s l × (measure s l < bound)

  abbrev pub Progress : Turn → ℕ → Type 0
  Progress t bound = Shrinks t.state t.lexer bound

  Progress-weaken : (t : Turn) (a b : ℕ) → a ≤ b → Progress t a → Progress t b
  Progress-weaken t a b h = weaken t.state
    where
      weaken : (s : Option State) → Shrinks s t.lexer a → Shrinks s t.lexer b
      weaken none p = tt
      weaken (some s) p = (p.0, omega (arith, p.1))

  pub directive_over-Progress :
      (rs : Bytes) (l : Lexer) → l.rest ≡ rs → Progress (directive_over u rs l) (2 * length rs)
  unfolding directive_over ignore
  directive_over-Progress [] l at = tt
  directive_over-Progress (r ∷ rs) l at = elim (Bool-cases (r == b'\n')) [
    | inl e ↦ rw (e, directive_over) (tt, omega (arith, ap length (next-cons l r rs at)))
    | inr e ↦
        rw (e, directive_over)
          (Progress-weaken (directive_over u rs (next l).1) _ _ (omega arith)
            (directive_over-Progress rs (next l).1 (next-cons l r rs at)))
  ]

  close-Progress :
      (b : Bool) (m : Lexer) (bound : ℕ)
      → suc (2 * left m) < bound
      → Progress (if b then send metadata_comment m else go_on (ignore m) lex_text) bound
  unfolding emit ignore
  close-Progress true m bound h = (tt, h)
  close-Progress false m bound h = (tt, h)

  pub comment_over-Progress :
      (b : Bool) (rs : Bytes) (l : Lexer)
      → l.rest ≡ rs
      → Progress (comment_over u b rs l) (2 * length rs)
  unfolding comment_over ignore emit
  comment_over-Progress b [] l at = tt
  comment_over-Progress b (r ∷ rs) l at = elim (Bool-cases (has_prefix (r ∷ rs) (text "*/"))) [
    | inl e ↦
        rw (e, comment_over)
          (close-Progress b (next (next l).1).1 _
            (omega (arith, next-left (next l).1, ap length (next-cons l r rs at))))
    | inr e ↦
        rw (e, comment_over)
          (Progress-weaken (comment_over u b rs (next l).1) _ _ (omega arith)
            (comment_over-Progress b rs (next l).1 (next-cons l r rs at)))
  ]

  class_letter :
      (column r : ℕ) (rs : Bytes) → classify u column r rs ≡ letter → u.is_letter r ≡ true
  unfolding classify
  class_letter column r rs h = ground (arith, h)

  class_number :
      (column r : ℕ) (rs : Bytes)
      → classify u column r rs ≡ number
      → u.is_number r || r == b'-' ≡ true
  unfolding classify
  class_number column r rs h = ground (arith, h)

  number_rune :
      (r : ℕ)
      → (u.is_number r ≡ true → member r decimal ≡ true)
      → u.is_number r || r == b'-' ≡ true
      → member r (text "-0123456789") ≡ true
  number_rune r digits h = elim (Bool-cases (u.is_number r)) [
    | inl e ↦ ground (arith, digits e)
    | inr e ↦ ground (arith, e, h)
  ]

  class-Progress :
      (r : ℕ) (rs : Bytes) (l : Lexer)
      → (u.is_number r ≡ true → member r decimal ≡ true)
      → l.rest ≡ r ∷ rs
      → ((m : Lexer) → m.rest ≡ rs → Progress (lex_text_over u rs m) (suc (2 * length rs)))
      → (c : Class) → classify u (next l).1.column r rs ≡ c
      → Progress (lex_text_over u (r ∷ rs) l) (suc (2 * length (r ∷ rs)))
  unfolding lex_text_over ignore emit
  class-Progress r rs l digits at ih c e =
      elim c
          as (λ x.
            classify u (next l).1.column r rs ≡ x
            → Progress (lex_text_over u (r ∷ rs) l) (suc (2 * length (r ∷ rs)))) [
              | comment ↦ λ f. rw (f, lex_text_over) (tt, omega (arith, ap length at))
              | space ↦
                  λ f. rw (f, lex_text_over) (tt, omega (arith, ap length (next-cons l r rs at)))
              | directive ↦ λ f.
                  rw (f, lex_text_over) (tt, omega (arith, ap length (backup-next l), ap length at))
              | letter ↦ λ f.
                  rw (f, lex_text_over)
                    (
                      (r, rs, backup-next l ∙ at, class_letter (next l).1.column r rs f),
                      omega (arith, ap length (backup-next l), ap length at),
                    )
              | number ↦ λ f.
                  rw (f, lex_text_over)
                    (
                      (
                        r,
                        rs,
                        backup-next l ∙ at,
                        number_rune r digits (class_number (next l).1.column r rs f),
                      ),
                      omega (arith, ap length (backup-next l), ap length at),
                    )
              | token ↦ λ f.
                  rw (f, lex_text_over)
                    (Progress-weaken (lex_text_over u rs (ignore (next l).1)) _ _ (omega arith)
                      (ih (ignore (next l).1) (next-cons l r rs at)))
              | other ↦ λ f.
                  rw (f, lex_text_over)
                    (Progress-weaken (lex_text_over u rs (next l).1) _ _ (omega arith)
                      (ih (next l).1 (next-cons l r rs at)))
            ]
        e

  -- The numbers among these runes are decimal digits.
  abbrev pub AllDecimal : Bytes → Type 0
  AllDecimal = All (λ r. u.is_number r ≡ true → member r decimal ≡ true)

  pub lex_text_over-Progress :
      (rs : Bytes) (l : Lexer)
      → AllDecimal rs
      → l.rest ≡ rs
      → Progress (lex_text_over u rs l) (suc (2 * length rs))
  unfolding lex_text_over
  lex_text_over-Progress [] l digits at = tt
  lex_text_over-Progress (r ∷ rs) l digits at =
      class-Progress r rs l digits.0 at (λ m same. lex_text_over-Progress rs m digits.1 same)
        (classify u (next l).1.column r rs) refl
