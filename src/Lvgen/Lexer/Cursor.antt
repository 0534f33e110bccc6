-- ===== src/Lvgen/Lexer/Cursor.antt =====
-- internal/lvgen/lvlexer.go: the lexer's place in its input, the calls that move it, and the tokens.
use go_libvirt.Base.{
  ℕ, suc, zero, ◌==◌, Bool, true, false, not, ◌&&◌, ◌||◌, Option, none, some, [], ◌∷◌,
  if◌then◌else◌,
}
use go_libvirt.Base.Int.{ℤ, pos, negsuc}
use go_libvirt.Base.Text.{Bytes, text, has_prefix}
use go_libvirt.Lvgen.Lexer.Keywords.{Keyword, keywords}

-- The token types that the parser knows: those of a single rune, and those that goyacc numbers.
pub data Typ : Type 0 where
  rune : ℕ → Typ
  keyword : Keyword → Typ
  identifier : Typ
  proc_identifier : Typ
  constant : Typ
  metadata_comment : Typ
  error : Typ

pub record Item : Type 0 where
  pub typ : Typ
  pub val : Bytes
  pub line : ℤ
  pub column : ℕ

-- The lexer between two rune boundaries: `taken` is `input[start:pos]` with its last rune first,
-- and `rest` is `input[pos:]`. `width` is counted in runes.
pub record Lexer : Type 0 where
  pub taken : Bytes
  pub rest : Bytes
  pub line : ℤ
  pub column : ℕ
  pub width : ℕ

abbrev pub pred : ℤ → ℤ
pred (pos zero) = negsuc 0
pred (pos (suc n)) = pos n
pred (negsuc n) = negsuc (suc n)

abbrev pub succ : ℤ → ℤ
succ (pos n) = pos (suc n)
succ (negsuc zero) = pos 0
succ (negsuc (suc n)) = negsuc n

abbrev pub new_lexer : Bytes → Lexer
new_lexer input = record { taken = []; rest = input; line = pos 0; column = 0; width = 0 }

abbrev pub reverse_onto : Bytes → Bytes → Bytes
reverse_onto [] acc = acc
reverse_onto (r ∷ rs) acc = reverse_onto rs (r ∷ acc)

-- `input[start:pos]`.
abbrev pub lexeme : Lexer → Bytes
lexeme l = reverse_onto l.taken []

-- `next`, where a rune is left, and at the end.
unfoldable pub advance : ℕ → Bytes → Lexer → Lexer
advance r rest l = record {
  taken = r ∷ l.taken;
  rest = rest;
  line = if r == b'\n' then succ l.line else l.line;
  column = if r == b'\n' then 0 else suc l.column;
  width = 1;
}

unfoldable pub next : Lexer → Option ℕ × Lexer
unfolding advance
next l = elim l.rest [ [] ↦ (none, record l { width = 0 }) | r ∷ rest ↦ (some r, advance r rest l) ]

unfoldable pub ignore : Lexer → Lexer
ignore l = record l { taken = [] }

-- `pos -= width`: the last rune taken stands in front of the rest again.
abbrev pub un_take : ℕ → Bytes → Bytes → Bytes × Bytes
un_take (suc n) (r ∷ taken) rest = (taken, r ∷ rest)
un_take _ taken rest = (taken, rest)

unfoldable pub backup : Lexer → Lexer
backup l =
    let (taken, rest) = un_take l.width l.taken l.rest in
    record {
      taken = taken;
      rest = rest;
      line = elim l.column [ zero ↦ pred l.line | suc c ↦ l.line ];
      column = elim l.column [ zero ↦ 0 | suc c ↦ c ];
      width = 0;
    }

unfoldable pub emit : Typ → Lexer → Item × Lexer
unfolding ignore
emit typ l = (record { typ = typ; val = lexeme l; line = l.line; column = l.column }, ignore l)

unfoldable pub errorf : Bytes → Lexer → Item
errorf message l = record { typ = error; val = message; line = l.line; column = l.column }

unfoldable pub peek : Lexer → Option ℕ × Lexer
unfolding next backup
peek l = let (r, m) = next l in (r, backup m)

-- `strings.IndexRune(valid, r) >= 0`; the rune at the end of the input is in no text.
abbrev pub member : ℕ → Bytes → Bool
member r [] = false
member r (c ∷ cs) = r == c || member r cs

abbrev pub is_one_of : Bytes → Option ℕ → Bool
is_one_of valid none = false
is_one_of valid (some r) = member r valid

unfoldable pub accept : Bytes → Lexer → Bool × Lexer
unfolding next backup
accept valid l = let (r, m) = next l in if is_one_of valid r then (true, m) else (false, backup m)

-- The loop of `acceptRun`, over what is left of the input.
unfoldable pub accept_run_over : Bytes → Bytes → Lexer → Lexer
unfolding next backup
accept_run_over valid [] l = backup (next l).1
accept_run_over valid (r ∷ rest) l = elim (member r valid) [
  | true ↦ accept_run_over valid rest (next l).1
  | false ↦ backup (next l).1
]

unfoldable pub accept_run : Bytes → Lexer → Lexer
unfolding accept_run_over
accept_run valid l = accept_run_over valid l.rest l

-- `procIdent`: the text before the first "_PROC_" has no underscore.
unfoldable pub proc_ident : Bytes → Bool
proc_ident [] = false
proc_ident (r ∷ rest) =
    has_prefix (r ∷ rest) (text "_PROC_") || (not (r == b'_') && proc_ident rest)

-- `(*Lexer).keyword`, of the current lexeme.
unfoldable pub token_of : Bytes → Typ
token_of ident = elim (keywords ident) [
  | some k ↦ keyword k
  | none ↦ if proc_ident ident then proc_identifier else identifier
]

abbrev pub one_rune_tokens : Bytes
one_rune_tokens = text "{}[]<>(),=;:*"

abbrev pub decimal : Bytes
decimal = text "0123456789"

abbrev pub hexadecimal : Bytes
hexadecimal = text "0123456789ABCDEFabcdef"
