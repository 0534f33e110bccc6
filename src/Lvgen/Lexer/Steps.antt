-- ===== src/Lvgen/Lexer/Steps.antt =====
-- The lexer's moves, by what stands on either side of its position.
use go_libvirt.Base.{
  ℕ, suc, ◌==◌, ◌≡◌, refl, ap, ◌∙◌, Bool, true, false, ◌||◌, none, some, List, [], ◌∷◌, ◌++◌, map,
  All,
}
use go_libvirt.Base.Text.{Bytes}
use go_libvirt.Lvgen.Lexer.{
  Lexer, Unicode, Item, Typ, Turn, State, lex_text, go_on, send, advance, next, ignore, backup,
  emit, peek, accept, ident_over, accept_run_over, member, lexeme, reverse_onto, turn, run, resume,
}

pub record IsAt (l : Lexer) (taken rest : Bytes) : Type 0 where
  pub behind : l.taken ≡ taken
  pub ahead : l.rest ≡ rest

-- The position behind a rune that `backup` can give back.
pub record IsPast (l : Lexer) (r : ℕ) (taken rest : Bytes) : Type 0 where
  pub at : IsAt l (r ∷ taken) rest
  pub wide : l.width ≡ 1

pub next-IsPast :
    (l : Lexer) (r : ℕ) (taken rest : Bytes)
    → IsAt l taken (r ∷ rest)
    → ((next l).0 ≡ some r) × IsPast (next l).1 r taken rest
unfolding next advance
next-IsPast l r taken rest v =
    rw (v.ahead, next)
      (
        refl,
        record { at = record { behind = ap (λ t. r ∷ t) v.behind; ahead = refl }; wide = refl },
      )

pub backup-IsAt :
    (l : Lexer) (r : ℕ) (taken rest : Bytes)
    → IsPast l r taken rest
    → IsAt (backup l) taken (r ∷ rest)
unfolding backup
backup-IsAt l r taken rest v = record {
  behind = rw (v.wide, v.at.behind);
  ahead = rw (v.wide, v.at.behind, v.at.ahead);
}

-- At the end `next` and `backup` leave the position.
pub backup-end :
    (l : Lexer) (taken : Bytes)
    → IsAt l taken []
    → ((next l).0 ≡ none) × IsAt (backup (next l).1) taken []
unfolding next backup
backup-end l taken v = rw (v.ahead, next) (refl, record { behind = v.behind; ahead = v.ahead })

pub peek-IsAt :
    (l : Lexer) (r : ℕ) (taken rest : Bytes)
    → IsAt l taken (r ∷ rest)
    → ((peek l).0 ≡ some r) × IsAt (peek l).1 taken (r ∷ rest)
unfolding peek
peek-IsAt l r taken rest v =
    let (read, past) = next-IsPast l r taken rest v in
    (read, backup-IsAt (next l).1 r taken rest past)

pub accept-taken :
    (valid : Bytes) (l : Lexer) (r : ℕ) (taken rest : Bytes)
    → IsAt l taken (r ∷ rest)
    → member r valid ≡ true
    → ((accept valid l).0 ≡ true) × IsAt (accept valid l).1 (r ∷ taken) rest
unfolding accept
accept-taken valid l r taken rest v h =
    let (read, past) = next-IsPast l r taken rest v in rw (read, accept) (rw h (refl, past.at))

pub accept-left :
    (valid : Bytes) (l : Lexer) (r : ℕ) (taken rest : Bytes)
    → IsAt l taken (r ∷ rest)
    → member r valid ≡ false
    → ((accept valid l).0 ≡ false) × IsAt (accept valid l).1 taken (r ∷ rest)
unfolding accept
accept-left valid l r taken rest v h =
    let (read, past) = next-IsPast l r taken rest v in
    rw (read, accept) (rw h (refl, backup-IsAt (next l).1 r taken rest past))

-- `acceptRun` takes the valid runes in front, where another rune follows them.
pub accept_run-IsAt :
    (valid front : Bytes) (l : Lexer) (r : ℕ) (taken rest : Bytes)
    → IsAt l taken (front ++ r ∷ rest)
    → All (λ c. member c valid ≡ true) front
    → member r valid ≡ false
    → IsAt (accept_run_over valid (front ++ r ∷ rest) l) (reverse_onto front taken) (r ∷ rest)
unfolding accept_run_over
accept_run-IsAt valid [] l r taken rest v digits stop =
    let (read, past) = next-IsPast l r taken rest v in
    rw (stop, accept_run_over) (backup-IsAt (next l).1 r taken rest past)
accept_run-IsAt valid (c ∷ front) l r taken rest v digits stop =
    let (read, past) = next-IsPast l c taken (front ++ r ∷ rest) v in
    rw (digits.0, accept_run_over)
      (accept_run-IsAt valid front (next l).1 r (c ∷ taken) rest past.at digits.1 stop)

module _ (u : Unicode) where
  abbrev pub IsNameRune : ℕ → Type 0
  IsNameRune r = u.is_letter r || u.is_digit r || r == b'_' ≡ true

  pub ident_over-IsAt :
      (front : Bytes) (l : Lexer) (r : ℕ) (taken rest : Bytes)
      → IsAt l taken (front ++ r ∷ rest)
      → All IsNameRune front
      → u.is_letter r || u.is_digit r || r == b'_' ≡ false
      → IsAt (ident_over u (front ++ r ∷ rest) l) (reverse_onto front taken) (r ∷ rest)
  unfolding ident_over
  ident_over-IsAt [] l r taken rest v names stop =
      let (read, past) = next-IsPast l r taken rest v in
      rw (stop, ident_over) (backup-IsAt (next l).1 r taken rest past)
  ident_over-IsAt (c ∷ front) l r taken rest v names stop =
      let (read, past) = next-IsPast l c taken (front ++ r ∷ rest) v in
      rw (names.0, ident_over)
        (ident_over-IsAt front (next l).1 r (c ∷ taken) rest past.at names.1 stop)

  -- What the parser is sent, but for the positions.
  abbrev pub plain : Item → Typ × Bytes
  plain i = (i.typ, i.val)

  abbrev pub plains : List Item × Bool → List (Typ × Bytes) × Bool
  plains out = (map plain out.0, out.1)

  abbrev pub after : List (Typ × Bytes) → List (Typ × Bytes) × Bool → List (Typ × Bytes) × Bool
  after items out = (items ++ out.0, out.1)

  pub run-go_on :
      (fuel : ℕ) (s s' : State) (l m : Lexer)
      → turn u s l ≡ go_on m s'
      → run u (suc fuel) s l ≡ run u fuel s' m
  unfolding run
  run-go_on fuel s s' l m h = ap (resume (run u fuel)) h

  pub run-send :
      (fuel : ℕ) (s : State) (l m : Lexer) (typ : Typ)
      → turn u s l ≡ send typ m
      → plains (run u (suc fuel) s l)
        ≡ after ((typ, lexeme m) ∷ []) (plains (run u fuel lex_text (ignore m)))
  unfolding run emit
  run-send fuel s l m typ h = ap (λ t. plains (resume (run u fuel) t)) h

  pub run-turn :
      (fuel : ℕ) (l m : Lexer) (i : Item)
      → (turn u lex_text l ≡ record (turn u lex_text m) { sent = i ∷ (turn u lex_text m).sent })
      → plains (run u (suc fuel) lex_text l)
        ≡ after (plain i ∷ []) (plains (run u (suc fuel) lex_text m))
  unfolding run
  run-turn fuel l m i h =
      ap (λ t. plains (resume (run u fuel) t)) h ∙ resume-after (turn u lex_text m)
    where
      resume-after :
          (t : Turn)
          → plains (resume (run u fuel) (record t { sent = i ∷ t.sent }))
            ≡ after (plain i ∷ []) (plains (resume (run u fuel) t))
      resume-after t =
          elim t.state
            as (λ s.
              plains
                (resume (run u fuel) (record { sent = i ∷ t.sent; lexer = t.lexer; state = s }))
              ≡ after (plain i ∷ []) (
                  plains
                    (resume (run u fuel) (record { sent = t.sent; lexer = t.lexer; state = s })))) [
                      | none ↦ refl
                      | some s ↦ refl
                    ]
