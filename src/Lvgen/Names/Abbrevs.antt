-- ===== src/Lvgen/Names/Abbrevs.antt =====
-- What `fixAbbrevs` keeps of a name, and names with which it does not end.
use mathlib.Core.Path.{subst}
use mathlib.Core.Option.{some-injective, none-ne-some}
use go_libvirt.Base.{
  ℕ, zero, suc, ◌+◌, ◌≡◌, refl, sym, ap, ◌∙◌, true, none, some, List, [], ◌∷◌, ◌++◌, map, length,
  take, drop, arith, take-append-drop, drop-drop, Option-cases, inl, inr, Bool-cases,
}
use go_libvirt.Base.Text.{Bytes, has_prefix}
use go_libvirt.Lvgen.Names.{
  is_lower, to_upper, to_lower, index, replace_first, first_or_a, fix_at, fix_abbrev, fix_each,
  fix_abbrevs, abbrevs,
}

abbrev pub fold : Bytes → Bytes
fold s = map to_lower s

lower_upper : (r : ℕ) → to_lower (to_upper r) ≡ to_lower r
lower_upper r = ground arith

fold_upper : (a : Bytes) → fold (map to_upper a) ≡ fold a
fold_upper [] = refl
fold_upper (r ∷ a) = rw (lower_upper r, fold_upper a)

fold-append : (s t : Bytes) → fold (s ++ t) ≡ fold s ++ fold t
fold-append [] t = refl
fold-append (r ∷ s) t = ap (λ v. to_lower r ∷ v) (fold-append s t)

has_prefix-split : (s a : Bytes) → has_prefix s a ≡ true → a ++ drop (length a) s ≡ s
has_prefix-split s [] h = refl
has_prefix-split [] (p ∷ a) h = cc
has_prefix-split (c ∷ s) (p ∷ a) h = ground (arith, has_prefix-split s a)

index-has_prefix : (s a : Bytes) (i : ℕ) → index s a ≡ some i → has_prefix (drop i s) a ≡ true
unfolding index
index-has_prefix [] [] i h =
    subst (λ i. has_prefix (drop {A = ℕ} i []) [] ≡ true) (some-injective _ _ h) refl
index-has_prefix [] (p ∷ a) i h = absurd (none-ne-some _ h)
index-has_prefix (c ∷ s) a i h = elim (Bool-cases (has_prefix (c ∷ s) a)) [
  | inl e ↦
      subst (λ i. has_prefix (drop i (c ∷ s)) a ≡ true) (some-injective _ _ (rw (e, index) at h)) e
  | inr e ↦ elim (Option-cases (index s a)) [
    | inl gone ↦ absurd (none-ne-some _ (rw (e, gone, index) at h))
    | inr (j, at) ↦
        subst (λ i. has_prefix (drop i (c ∷ s)) a ≡ true)
          (some-injective _ _ (rw (e, at, index) at h)) (index-has_prefix s a j at)
  ]
]

index-at : (s a : Bytes) (i : ℕ) → index s a ≡ some i → a ++ drop (i + length a) s ≡ drop i s
index-at s a i at =
    ap (λ t. a ++ t) (sym (drop-drop i (length a) s))
    ∙ has_prefix-split (drop i s) a (index-has_prefix s a i at)

index-split :
    (s a : Bytes) (i : ℕ) → index s a ≡ some i → take i s ++ (a ++ drop (i + length a) s) ≡ s
index-split s a i at = ap (λ t. take i s ++ t) (index-at s a i at) ∙ take-append-drop i s

replace_first-fold : (s a b : Bytes) → fold b ≡ fold a → fold (replace_first s a b) ≡ fold s
replace_first-fold s a b same = elim (Option-cases (index s a)) [
  | inl gone ↦ rw (gone, replace_first) refl
  | inr (i, at) ↦
      rw (at, replace_first)
        (rw
          (
            fold-append (take i s) (b ++ drop (i + length a) s),
            fold-append b (drop (i + length a) s),
            same,
          )
          (rw
            (
              sym (fold-append a (drop (i + length a) s)),
              sym (fold-append (take i s) (a ++ drop (i + length a) s)),
            )
            (ap fold (index-split s a i at))))
]

fix_at-fold : (a : Bytes) (i : ℕ) (s : Bytes) → fold (fix_at a i s) ≡ fold s
unfolding fix_at
fix_at-fold a i s = elim (Bool-cases (is_lower (first_or_a (drop (i + length a) s)))) [
  | inl e ↦ rw e
  | inr e ↦
      rw
        (
          e,
          fold-append (take i s) (replace_first (drop i s) a (map to_upper a)),
          replace_first-fold (drop i s) a (map to_upper a) (fold_upper a),
        )
        (sym (fold-append (take i s) (drop i s)) ∙ ap fold (take-append-drop i s))
]

fix_abbrev-fold :
    (fuel : ℕ) (a : Bytes) (loc : ℕ) (s t : Bytes)
    → fix_abbrev fuel a loc s ≡ some t
    → fold t ≡ fold s
unfolding fix_abbrev
fix_abbrev-fold zero a loc s t h = absurd (none-ne-some _ h)
fix_abbrev-fold (suc fuel) a loc s t h = elim (Option-cases (index (drop loc s) a)) [
  | inl gone ↦ ap fold (sym (some-injective _ _ (rw (gone, fix_each, fix_abbrev) at h)))
  | inr (i, at) ↦
      fix_abbrev-fold fuel a (suc i) (fix_at a i s) t (rw (at, fix_abbrev) at h) ∙ fix_at-fold a i s
]

fix_each-fold :
    (fuel : ℕ) (every : List Bytes) (s t : Bytes) → fix_each fuel every s ≡ some t → fold t ≡ fold s
fix_each-fold fuel [] s t h = ap fold (sym (some-injective _ _ h))
fix_each-fold fuel (a ∷ every) s t h = elim (Option-cases (fix_abbrev fuel a 0 s)) [
  | inl gone ↦ absurd (none-ne-some _ (rw (gone, fix_each) at h))
  | inr (u, at) ↦
      fix_each-fold fuel every u t (rw (at, fix_each) at h) ∙ fix_abbrev-fold fuel a 0 s u at
]

-- When `fixAbbrevs` ends, it has changed nothing but the case of letters.
fix_abbrevs-fold :
    (fuel : ℕ) (s t : Bytes) → fix_abbrevs fuel s ≡ some t → map to_lower t ≡ map to_lower s
unfolding fix_abbrevs
fix_abbrevs-fold fuel s t h = fix_each-fold fuel abbrevs s t h

fix_at-lower :
    (a s : Bytes) (i : ℕ) → is_lower (first_or_a (drop (i + length a) s)) ≡ true → fix_at a i s ≡ s
unfolding fix_at
fix_at-lower a s i lower = rw (lower, fix_at) refl

fix_abbrev-stays :
    (fuel loc i : ℕ) (a s : Bytes)
    → index (drop loc s) a ≡ some i
    → is_lower (first_or_a (drop (i + length a) s)) ≡ true
    → fix_abbrev fuel a (suc i) s ≡ none
    → fix_abbrev (suc fuel) a loc s ≡ none
unfolding fix_abbrev
fix_abbrev-stays fuel loc i a s at lower rest =
    rw (at, fix_abbrev) (rw (fix_at-lower a s i lower) rest)

has_prefix-index : (s a : Bytes) → has_prefix s a ≡ true → index s a ≡ some 0
unfolding index
has_prefix-index [] a h = rw (h, index) refl
has_prefix-index (c ∷ s) a h = rw (h, index) refl

suc_plus : (i : ℕ) → suc i + 1 ≡ i + 2
suc_plus i = omega arith

second_lower :
    (i a0 a1 : ℕ) (s : Bytes)
    → has_prefix (drop (suc i) s) (a0 ∷ a1 ∷ []) ≡ true
    → is_lower a1 ≡ true
    → is_lower (first_or_a (drop (i + 2) s)) ≡ true
second_lower i a0 a1 s at la =
    subst (λ t. is_lower (first_or_a t) ≡ true)
      (ap (drop 1) (has_prefix-split (drop (suc i) s) (a0 ∷ a1 ∷ []) at)
        ∙ drop-drop (suc i) 1 s
        ∙ ap (λ n. drop n s) (suc_plus i))
      la

-- For an abbreviation of two runes, the second in lower case: a name that starts with it, goes on
-- with a lower-case letter and has the abbreviation once more keeps the loop going for ever.
pub fix_abbrev_never_ends :
    (a0 a1 c : ℕ) (t : Bytes) (i : ℕ)
    → is_lower a1 ≡ true
    → is_lower c ≡ true
    → index (a1 ∷ c ∷ t) (a0 ∷ a1 ∷ []) ≡ some i
    → (fuel : ℕ) → fix_abbrev fuel (a0 ∷ a1 ∷ []) 0 (a0 ∷ a1 ∷ c ∷ t) ≡ none
unfolding fix_abbrev
fix_abbrev_never_ends a0 a1 c t i la lc again fuel = (stuck fuel).0
  where
    a : Bytes
    a = a0 ∷ a1 ∷ []

    s : Bytes
    s = a0 ∷ a1 ∷ c ∷ t

    first : has_prefix s a ≡ true
    first = ground arith

    second : has_prefix (drop (suc i) s) a ≡ true
    second = index-has_prefix (a1 ∷ c ∷ t) a i again

    third : is_lower (first_or_a (drop (i + 2) s)) ≡ true
    third = second_lower i a0 a1 s second la

    stuck :
        (fuel : ℕ)
        → (fix_abbrev fuel a 0 s ≡ none)
          × (fix_abbrev fuel a 1 s ≡ none)
          × (fix_abbrev fuel a (suc i) s ≡ none)
    stuck zero = (refl, refl, refl)
    stuck (suc fuel) = (
      fix_abbrev-stays fuel 0 0 a s (has_prefix-index s a first) lc (stuck fuel).1,
      fix_abbrev-stays fuel 1 i a s again third (stuck fuel).2,
      fix_abbrev-stays fuel (suc i) 0 a s (has_prefix-index (drop (suc i) s) a second) lc
          (stuck fuel).1,
    )
