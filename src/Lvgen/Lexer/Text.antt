-- ===== src/Lvgen/Lexer/Text.antt =====
-- What `lexText` does at the first rune of each kind of text.
use go_libvirt.Base.{ℕ, ◌==◌, ==_iff, ◌≡◌, refl, ap, Bool, true, false, arith, Bool-cases, inl, inr}
use go_libvirt.Base.Text.{Bytes, text}
use go_libvirt.Lvgen.Lexer.{
  Unicode, member, decimal, one_rune_tokens, space, directive, letter, number, token, classify,
}

abbrev pub marks : Bytes
marks = text "{}[]<>(),=;:*/%-_"

-- What is used of the classes of package unicode.
pub record IsUnicode (u : Unicode) : Type 0 where
  pub blank : u.is_space b' ' ≡ true
  pub newline : u.is_space b'\n' ≡ true
  pub spaces :
      (r : ℕ)
      → u.is_space r ≡ true
      → (u.is_letter r ≡ false) × (u.is_digit r ≡ false) × (u.is_number r ≡ false)
  pub letters : (r : ℕ) → u.is_letter r ≡ true → u.is_number r ≡ false
  pub punctuation :
      (r : ℕ)
      → member r marks ≡ true
      → (u.is_space r ≡ false) × (u.is_letter r ≡ false) × (u.is_number r ≡ false)
  pub numerals : (r : ℕ) → member r decimal ≡ true → u.is_number r ≡ true

-- Runes that a test tells apart are different.
pub apart : (test : ℕ → Bool) (r c : ℕ) → test r ≡ true → test c ≡ false → (r == c) ≡ false
apart test r c h k = elim (Bool-cases (r == c)) [
  | inr e ↦ e
  | inl e ↦ cc (h, k, ap test ((==_iff r c).0 e))
]

module _ (u : Unicode) (v : IsUnicode u) where
  pub letter_class :
      (column r : ℕ) (rest : Bytes) → u.is_letter r ≡ true → classify u column r rest ≡ letter
  unfolding classify
  letter_class column r rest h = ground (
    arith,
    apart u.is_letter r b'/' h (v.punctuation b'/' refl).1,
    apart u.is_letter r b'%' h (v.punctuation b'%' refl).1,
    v.spaces r,
    h,
  )

  pub number_class :
      (column r : ℕ) (rest : Bytes)
      → member r (text "-0123456789") ≡ true
      → classify u column r rest ≡ number
  unfolding classify
  number_class column r rest h = elim (Bool-cases (member r decimal)) [
    | inl digit ↦ ground (arith, v.numerals r digit, v.spaces r, v.letters r, digit)
    | inr sign ↦
        let dash : r ≡ b'-' = ground (arith, h, sign) in
        rw dash (ground (arith, v.punctuation b'-' refl))
  ]

  pub space_class :
      (column r : ℕ) (rest : Bytes) → u.is_space r ≡ true → classify u column r rest ≡ space
  unfolding classify
  space_class column r rest h =
      ground (arith, apart u.is_space r b'/' h (v.punctuation b'/' refl).0, h)

  pub token_class :
      (column r : ℕ) (rest : Bytes)
      → member r one_rune_tokens ≡ true
      → classify u column r rest ≡ token
  unfolding classify
  token_class column r rest h =
      let mark : member r marks ≡ true = ground (arith, h) in
      ground (arith, v.punctuation r mark, h)

  pub directive_class : (rest : Bytes) → classify u 1 b'%' rest ≡ directive
  unfolding classify
  directive_class rest = rw ((v.punctuation b'%' refl).0)
