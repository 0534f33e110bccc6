-- ===== src/Lvgen/Lexer/Pieces.antt =====
-- A protocol file as a list of words, marks, spaces, comments and directives.
use go_libvirt.Base.{
  ℕ, suc, ◌==◌, ◌≡◌, Bool, true, false, ◌||◌, List, [], ◌∷◌, ◌++◌, All, if◌then◌else◌,
}
use go_libvirt.Base.Text.{Bytes, text, has_prefix, contains}
use go_libvirt.Lvgen.Lexer.{
  Unicode, Typ, rune, constant, metadata_comment, token_of, member, decimal, hexadecimal,
  one_rune_tokens,
}

pub data Piece : Type 0 where
  name : ℕ → Bytes → Piece
  number : Bool → ℕ → Bytes → Piece
  hex : Bytes → Piece
  mark : ℕ → Piece
  blank : ℕ → Piece
  block_comment : Bytes → Piece
  directive_line : Bytes → Piece

abbrev pub sign : Bool → Bytes
sign true = text "-"
sign false = []

-- The runes of a piece, but for what ends a word.
abbrev pub core : Piece → Bytes
core (name r rs) = r ∷ rs
core (number negative d ds) = sign negative ++ (d ∷ ds)
core (hex ds) = text "0x" ++ ds
core (mark r) = r ∷ []
core (blank r) = r ∷ []
core (block_comment body) = text "/*" ++ (body ++ text "*/")
core (directive_line line) = b'\n' ∷ b'%' ∷ line ++ text "\n"

abbrev pub is_word : Piece → Bool
is_word (name r rs) = true
is_word (number negative d ds) = true
is_word (hex ds) = true
is_word _ = false

-- A piece as it is printed: a blank stands behind a name or a number.
abbrev pub print : Piece → Bytes
print p = core p ++ (if is_word p then text " " else [])

abbrev pub print_all : List Piece → Bytes
print_all [] = []
print_all (p ∷ ps) = print p ++ print_all ps

-- A comment that begins with two stars.
abbrev pub is_metadata : Bytes → Bool
is_metadata body = has_prefix (body ++ text "*") (text "*")

-- The tokens that a piece stands for.
abbrev pub tokens : Piece → List (Typ × Bytes)
tokens (name r rs) = (token_of (r ∷ rs), r ∷ rs) ∷ []
tokens (number negative d ds) = (constant, core (number negative d ds)) ∷ []
tokens (hex ds) = (constant, core (hex ds)) ∷ []
tokens (mark r) = (rune r, r ∷ []) ∷ []
tokens (blank r) = []
tokens (block_comment body) =
    if is_metadata body then (metadata_comment, core (block_comment body)) ∷ [] else []
tokens (directive_line line) = []

abbrev pub tokens_of : List Piece → List (Typ × Bytes)
tokens_of [] = []
tokens_of (p ∷ ps) = tokens p ++ tokens_of ps

module _ (u : Unicode) where
  abbrev pub IsNameRune : ℕ → Type 0
  IsNameRune r = u.is_letter r || u.is_digit r || r == b'_' ≡ true

  -- A name begins with a letter, a comment ends at its first "*/", and a directive is one line.
  abbrev pub IsPiece : Piece → Type 0
  IsPiece (name r rs) = (u.is_letter r ≡ true) × All IsNameRune rs
  IsPiece (number negative d ds) = (member d decimal ≡ true) × All (λ c. member c decimal ≡ true) ds
  IsPiece (hex ds) = All (λ c. member c hexadecimal ≡ true) ds
  IsPiece (mark r) = member r one_rune_tokens ≡ true
  IsPiece (blank r) = u.is_space r ≡ true
  IsPiece (block_comment body) = contains ((b'*' ∷ body) ++ text "*") (text "*/") ≡ false
  IsPiece (directive_line line) = All (λ c. c == b'\n' ≡ false) line

-- How many state functions run for a piece; a mark is taken within one.
abbrev pub turns : Piece → ℕ → ℕ
turns (mark r) n = n
turns (blank r) n = suc n
turns (block_comment body) n = suc (suc n)
turns _ n = suc (suc (suc n))

abbrev pub fuel_of : List Piece → ℕ
fuel_of [] = 1
fuel_of (p ∷ ps) = turns p (fuel_of ps)
