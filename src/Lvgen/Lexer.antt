-- ===== src/Lvgen/Lexer.antt =====
-- internal/lvgen/lvlexer.go: the state functions of the lexer of protocol files, and their run.
use go_libvirt.Base.{
  ℕ, suc, zero, ◌+◌, ◌==◌, Bool, true, false, not, ◌&&◌, ◌||◌, Option, none, some, List, [], ◌∷◌,
  ◌++◌, if◌then◌else◌,
}
use go_libvirt.Base.Int.{ℤ, pos, negsuc}
use go_libvirt.Base.Text.{Bytes, text, equal, has_prefix, contains}
pub mod Keywords
pub mod Cursor
pub mod Steps
pub mod Text
pub mod Pieces
mod Words
mod Numbers
pub mod RoundTrip
mod Progress
mod Left
pub mod Total
pub mod Odd
unfoldable pub use Cursor.*

-- The classes of package unicode.
pub record Unicode : Type 0 where
  pub is_space : ℕ → Bool
  pub is_letter : ℕ → Bool
  pub is_digit : ℕ → Bool
  pub is_number : ℕ → Bool

-- The state functions that `Run` calls.
pub data State : Type 0 where
  lex_text lex_block_comment lex_ident lex_number lex_directive : State

-- What a state function does: the items that it sends, the lexer behind it, and the state it
-- returns, none for nil.
pub record Turn : Type 0 where
  pub sent : List Item
  pub lexer : Lexer
  pub state : Option State

abbrev pub go_on : Lexer → State → Turn
go_on l s = record { sent = []; lexer = l; state = some s }

abbrev pub fail : Bytes → Lexer → Turn
fail message l = record { sent = errorf message l ∷ []; lexer = l; state = none }

abbrev pub send : Typ → Lexer → Turn
send typ l = let (i, m) = emit typ l in record { sent = i ∷ []; lexer = m; state = some lex_text }

abbrev pub after_sending : Item → Turn → Turn
after_sending i t = record t { sent = i ∷ t.sent }

-- What `lexText` makes of the next rune.
pub data Class : Type 0 where
  comment space directive letter number token other : Class

-- A state function's items, and then those of the state that it returns.
abbrev pub resume : (State → Lexer → List Item × Bool) → Turn → List Item × Bool
resume k t = elim t.state [
  | none ↦ (t.sent, true)
  | some s ↦ let (items, ended) = k s t.lexer in (t.sent ++ items, ended)
]

module _ (u : Unicode) where
  -- The tests of `lexText`, in their order; `column` is the column behind the rune.
  unfoldable pub classify : ℕ → ℕ → Bytes → Class
  classify column r rest =
      if has_prefix (r ∷ rest) (text "/*")
      then comment
      else if u.is_space r
      then space
      else if column == 1 && r == b'%'
      then directive
      else if u.is_letter r
      then letter
      else if u.is_number r || r == b'-'
      then number
      else if member r one_rune_tokens
      then token
      else other

  -- `lexText`, over what is left of the input.
  unfoldable pub lex_text_over : Bytes → Lexer → Turn
  unfolding next ignore backup emit classify
  lex_text_over [] l = record { sent = []; lexer = (next l).1; state = none }
  lex_text_over (r ∷ rest) l =
      let m = (next l).1 in
      elim (classify m.column r rest) [
        | comment ↦ go_on l lex_block_comment
        | space ↦ go_on (ignore m) lex_text
        | directive ↦ go_on (backup m) lex_directive
        | letter ↦ go_on (backup m) lex_ident
        | number ↦ go_on (backup m) lex_number
        | token ↦ let (i, k) = emit (rune r) m in after_sending i (lex_text_over rest k)
        | other ↦ lex_text_over rest m
      ]

  -- `lexBlockComment`, likewise.
  unfoldable pub comment_over : Bool → Bytes → Lexer → Turn
  unfolding next ignore emit errorf
  comment_over metadata [] l = fail (text "unterminated block comment") (next l).1
  comment_over metadata (r ∷ rest) l = elim (has_prefix (r ∷ rest) (text "*/")) [
    | true ↦
        let m = (next (next l).1).1 in
        if metadata then send metadata_comment m else go_on (ignore m) lex_text
    | false ↦ comment_over metadata rest (next l).1
  ]

  -- The loop of `lexIdent`.
  unfoldable pub ident_over : Bytes → Lexer → Lexer
  unfolding next backup
  ident_over [] l = backup (next l).1
  ident_over (r ∷ rest) l = elim (u.is_letter r || u.is_digit r || r == b'_') [
    | true ↦ ident_over rest (next l).1
    | false ↦ backup (next l).1
  ]

  -- `lexNumber` up to the digits: which digits may follow, and the lexer behind a sign or "0x".
  unfoldable pub number_start : Lexer → Bytes × Lexer
  unfolding accept peek next
  number_start l =
      let (neg, m) = accept (text "-") l in
      let (r, k) = peek m in
      let (x, j) = accept (text "x") (next k).1 in
      if neg
      then (decimal, m)
      else if is_one_of (text "0") r
      then (if x then hexadecimal else decimal, j)
      else (decimal, k)

  abbrev pub is_letter_or_end : Option ℕ → Bool
  is_letter_or_end none = false
  is_letter_or_end (some r) = u.is_letter r

  -- `lexNumber`. The message quotes the text as it stands.
  unfoldable pub number_turn : Lexer → Turn
  unfolding accept_run peek next emit errorf
  number_turn l =
      let (digits, m) = number_start l in
      let (r, k) = peek (accept_run digits m) in
      if is_letter_or_end r
      then (let j = (next k).1 in fail (text "invalid number: \"" ++ (lexeme j ++ text "\"")) j)
      else send constant k

  -- `lexDirective`.
  unfoldable pub directive_over : Bytes → Lexer → Turn
  unfolding next ignore errorf
  directive_over [] l = fail (text "unterminated directive") (next l).1
  directive_over (r ∷ rest) l = elim (r == b'\n') [
    | true ↦ go_on (ignore (next l).1) lex_text
    | false ↦ directive_over rest (next l).1
  ]

  unfoldable pub turn : State → Lexer → Turn
  unfolding lex_text_over comment_over ident_over emit number_turn directive_over token_of
  turn lex_text l = lex_text_over l.rest l
  turn lex_block_comment l = comment_over (has_prefix l.rest (text "/**")) l.rest l
  turn lex_ident l = let m = ident_over l.rest l in send (token_of (lexeme m)) m
  turn lex_number l = number_turn l
  turn lex_directive l = directive_over l.rest l

  -- `Run`, for a number of state functions: the items sent, and whether it came to its end.
  unfoldable pub run : ℕ → State → Lexer → List Item × Bool
  run zero s l = ([], false)
  run (suc fuel) s l = resume (run fuel) (turn s l)
