-- ===== src/Tests/Lexing.antt =====
-- The lexer of protocol files, at concrete inputs.
use go_libvirt.Base.{
  ℕ, ◌==◌, ltb, not, ◌≡◌, refl, Bool, true, false, ◌&&◌, ◌||◌, List, [], ◌∷◌, arith, map,
}
use go_libvirt.Base.Int.{negsuc}
use go_libvirt.Base.Text.{Bytes, text}
use go_libvirt.Lvgen.Lexer.{
  Unicode, Item, Typ, new_lexer, run, lex_text, number_start, turn, proc_ident,
}
use go_libvirt.Lvgen.Lexer.Keywords.{keywords}
use go_libvirt.Lvgen.Lexer.Steps.{plains}
use go_libvirt.Lvgen.Lexer.Text.{IsUnicode}
use go_libvirt.Lvgen.Lexer.Pieces.{
  Piece, name, number, mark, blank, block_comment, directive_line, print_all, tokens_of, fuel_of,
}
use go_libvirt.Lvgen.Lexer.RoundTrip.{run-print_all}
use go_libvirt.Lvgen.Lexer.Total.{lexer_ends}
use go_libvirt.Lvgen.Lexer.Odd.{odd_number_never_ends}

-- The classes of ASCII.
abbrev between : ℕ → ℕ → ℕ → Bool
between a b r = not (ltb r a) && not (ltb b r)

abbrev ascii : Unicode
ascii = record {
  is_space = λ r. r == 32 || between 9 13 r;
  is_letter = λ r. between 65 90 r || between 97 122 r;
  is_digit = between 48 57;
  is_number = between 48 57;
}

abbrev lex : ℕ → Bytes → List Item × Bool
lex fuel input = run ascii fuel lex_text (new_lexer input)

-- A rune that is no token stays in front of the next one; "/*/" is a whole comment.
junk_run :
    ((plains ascii (lex 9 (text "&int"))).0 ≡ (Typ.identifier, text "&int") ∷ [])
    × ((plains ascii (lex 9 (text "x /*/ 0x1F]"))).0
        ≡ (Typ.identifier, text "x") ∷ (Typ.constant, text "0x1F") ∷ (Typ.rune 93, text "]") ∷ [])
unfolding run keywords number_start turn proc_ident
junk_run = (refl, refl)

-- A number at the end of the input is one line above the first.
line_run : map (λ i. i.line) (lex 9 (text "5")).0 ≡ negsuc 0 ∷ []
unfolding run number_start turn
line_run = refl

ascii-IsUnicode : IsUnicode ascii
ascii-IsUnicode = record {
  blank = refl;
  newline = refl;
  spaces = λ r h. ground (arith, h);
  letters = λ r h. ground (arith, h);
  punctuation = λ r h. ground (arith, h);
  numerals = λ r h. ground (arith, h);
}

-- "const A = -1; ", a comment and a directive.
abbrev file : List Piece
file =
    name b'c' (text "onst")
    ∷ name b'A' []
    ∷ mark b'='
    ∷ number true b'1' []
    ∷ mark b';'
    ∷ blank b' '
    ∷ block_comment (text "* a *")
    ∷ directive_line (text "#include")
    ∷ []

run-print_all_example :
    plains ascii (run ascii (fuel_of file) lex_text (new_lexer (print_all file)))
    ≡ (tokens_of file, true)
run-print_all_example = run-print_all ascii ascii-IsUnicode file (
  (refl, (refl, (refl, (refl, (refl, tt))))),
  (
    (refl, tt),
    (
      refl,
      (
        (refl, tt),
        (
          refl,
          (refl, (refl, ((refl, (refl, (refl, (refl, (refl, (refl, (refl, (refl, tt)))))))), tt))),
        ),
      ),
    ),
  ),
)

-- U+00BD is a number and no digit.
abbrev with_half : Unicode
with_half = record ascii { is_number = λ r. between 48 57 r || r == 0xbd }

lexer_ends_example : (run with_half 9 lex_text (new_lexer (text "a1 "))).1 ≡ true
lexer_ends_example =
    lexer_ends with_half (text "a1 ") 9 ((λ h. h), ((λ h. refl), ((λ h. h), tt))) (omega arith)

-- ASCII, and the vulgar fractions of Latin-1.
abbrev latin : Unicode
latin = record {
  is_space = ascii.is_space;
  is_letter = ascii.is_letter;
  is_digit = ascii.is_digit;
  is_number = λ r. between 48 57 r || between 188 190 r;
}

odd_number_never_ends_example : (run latin 99 lex_text (new_lexer (189 ∷ []))).1 ≡ false
odd_number_never_ends_example =
    odd_number_never_ends latin 99 (new_lexer (189 ∷ [])) 189 []
      (record { is_number = refl; no_space = refl; no_letter = refl; no_sign = refl })
      (record { behind = refl; ahead = refl })
