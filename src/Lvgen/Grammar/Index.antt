-- ===== src/Lvgen/Grammar/Index.antt =====
-- The maps of structures and unions by name, while a file is read.
use mathlib.Core.Path.{subst}
use mathlib.Core.Option.{some-injective, none-ne-some}
use go_libvirt.Base.{
  ℕ, zero, suc, ◌≡◌, refl, sym, ap, ◌∙◌, inl, inr, Option, some, List, [], ◌∷◌, ◌++◌, length,
  Bool-cases, Option-cases, List-cases, err-ne-ok, ok, ◌>>=◌, ok_through, ok_injective,
}
use go_libvirt.Base.Text.{Bytes, equal, equal_iff}
use go_libvirt.Lvgen.Names.{const_name_transform, identifier_transform, proc_name_transform}
use go_libvirt.Lvgen.Table.{find, assign, find-assign}
use go_libvirt.Lvgen.Generator.{Vars, Generator, Decl, named, nth, new_generator}
use go_libvirt.Lvgen.Generator.Actions.{
  add_enum_item, add_enum_val, add_enum_auto_val, add_proc_enum_val, start_enum, add_const,
  parse_number, meta_of, proc_program_name,
}
use go_libvirt.Lvgen.Generator.Containers.{
  start_struct, add_struct, start_typedef, start_union, add_union, start_case, add_case,
  add_declaration, add_fixed_array, add_variable_array, add_opt_value, new_decl, add_decl,
}
use go_libvirt.Lvgen.Grammar.{Definition, do_definitions}
use go_libvirt.Lvgen.Grammar.Preserve.{Keeps, KeptByActions, definitions-Keeps}

-- Every entry of the map is the place of something with the entry's name.
abbrev pub IsIndex : {A : Type 0} → (A → Bytes) → List (Bytes × ℕ) → List A → Type 0
IsIndex {A} name_of m xs =
    (k : Bytes) (ix : ℕ) → find k m ≡ some ix → (x : A) × (nth ix xs ≡ some x) × (name_of x ≡ k)

abbrev pub IsIndexed : Generator → Type 0
IsIndexed g =
    IsIndex (λ st. st.struct_name) g.struct_map g.structs
    × IsIndex (λ u. u.union_name) g.union_map g.unions

abbrev pub AllIndexed : Vars → Type 0
AllIndexed v = IsIndexed v.gen

nth-append :
    {A : Type 0} (ix : ℕ) (xs ys : List A) (x : A) → nth ix xs ≡ some x → nth ix (xs ++ ys) ≡ some x
nth-append ix [] ys x h = absurd (none-ne-some _ h)
nth-append zero (y ∷ xs) ys x h = h
nth-append (suc ix) (y ∷ xs) ys x h = nth-append ix xs ys x h

nth-length : {A : Type 0} (xs : List A) (x : A) → nth (length xs) (xs ++ (x ∷ [])) ≡ some x
nth-length [] x = refl
nth-length (y ∷ xs) x = nth-length xs x

add-IsIndex :
    {A : Type 0} (name_of : A → Bytes) (m : List (Bytes × ℕ)) (xs : List A) (x : A)
    → IsIndex name_of m xs
    → IsIndex name_of (assign (name_of x) (length xs) m) (xs ++ (x ∷ []))
add-IsIndex name_of m xs x indexed k ix h = elim (Bool-cases (equal (name_of x) k)) [
  | inl e ↦ (
    x,
    ap (λ i. nth i (xs ++ (x ∷ [])))
          (sym (some-injective _ _ (rw (find-assign (name_of x) k (length xs) m, e) at h)))
        ∙ nth-length xs x,
    (equal_iff (name_of x) k).0 e,
  )
  | inr e ↦
      let (y, at, same) = indexed k ix (rw (find-assign (name_of x) k (length xs) m, e) at h) in
      (y, nth-append ix xs (x ∷ []) y at, same)
]

-- An action whose only failure is that of a name.
named-AllIndexed :
    (P : Vars → Type 0) (o : Option Bytes) (f : Bytes → Vars) (w : Vars)
    → ((a : Bytes) → P (f a))
    → (named o >>= λ a. ok (f a)) ≡ ok w
    → P w
named-AllIndexed P o f w p h =
    let (a, _, e) = ok_through (named o) (λ a. ok (f a)) h in subst P (ok_injective e) (p a)

add_decl-AllIndexed : (d : Decl) (v : Vars) → AllIndexed v → AllIndexed (add_decl d v)
unfolding add_decl
add_decl-AllIndexed d v p = elim (List-cases v.current_struct) [
  | inr (st, rest, e) ↦ rw (e, add_decl) p
  | inl e ↦ elim (Option-cases v.current_typedef) [
    | inr (t, e2) ↦ rw (e, e2, add_decl) p
    | inl e2 ↦ elim (Option-cases v.current_case) [
      | inr (c, e3) ↦ rw (e, e2, e3, add_decl) p
      | inl e3 ↦ elim (Option-cases v.current_union) [
        | inr (u, e4) ↦ rw (e, e2, e3, e4, add_decl) p
        | inl e4 ↦ rw (e, e2, e3, e4, add_decl) p
      ]
    ]
  ]
]

declare-AllIndexed :
    (fuel : ℕ) (table : List (Bytes × Bytes)) (name type : Bytes) (f : Decl → Vars) (w : Vars)
    → ((d : Decl) → AllIndexed (f d))
    → (new_decl fuel table name type >>= λ d. ok (f d)) ≡ ok w
    → AllIndexed w
declare-AllIndexed fuel table name type f w p h =
    let (d, _, e) = ok_through (new_decl fuel table name type) (λ d. ok (f d)) h in
    subst AllIndexed (ok_injective e) (p d)

proc-Keeps :
    (fuel : ℕ) (name val meta : Bytes) → Keeps AllIndexed (add_proc_enum_val fuel name val meta)
unfolding add_proc_enum_val
proc-Keeps fuel name val meta v w p h = elim (Option-cases (parse_number val)) [
  | inl e ↦ absurd (err-ne-ok _ _ (rw (e, add_proc_enum_val) at h))
  | inr (ev, e) ↦
      let (m, _, h1) = ok_through (meta_of name meta) _ (rw (e, add_proc_enum_val) at h) in
      let (program, _, h2) = ok_through (proc_program_name fuel name) _ h1 in
      let (procname, _, h3) = ok_through (named (proc_name_transform fuel name)) _ h2 in
      named-AllIndexed AllIndexed (const_name_transform fuel name) _ w (λ _. p) h3
]

enum_val-Keeps : (fuel : ℕ) (name val : Bytes) → Keeps AllIndexed (add_enum_val fuel name val)
unfolding add_enum_val add_enum_item
enum_val-Keeps fuel name val v w p h = elim (Option-cases (parse_number val)) [
  | inl e ↦ absurd (err-ne-ok _ _ (rw (e, add_enum_val) at h))
  | inr (ev, e) ↦
      named-AllIndexed AllIndexed (const_name_transform fuel name) _ w (λ _. p)
        (rw (e, add_enum_val) at h)
]

const-Keeps : (fuel : ℕ) (name val : Bytes) → Keeps AllIndexed (add_const fuel name val)
unfolding add_const
const-Keeps fuel name val v w p h = elim (Option-cases (parse_number val)) [
  | inl e ↦ absurd (err-ne-ok _ _ (rw (e, add_const) at h))
  | inr (n, e) ↦
      named-AllIndexed AllIndexed (const_name_transform fuel name) _ w (λ _. p)
        (rw (e, add_const) at h)
]

struct-Keeps : Keeps AllIndexed add_struct
unfolding add_struct
struct-Keeps v w p h = elim (List-cases v.current_struct) [
  | inl e ↦ absurd (err-ne-ok _ _ (rw (e, add_struct) at h))
  | inr (st, rest, e) ↦
      subst AllIndexed (ok_injective (rw (e, add_struct) at h))
        (add-IsIndex (λ st. st.struct_name) v.gen.struct_map v.gen.structs st p.0, p.1)
]

union-Keeps : Keeps AllIndexed add_union
unfolding add_union
union-Keeps v w p h = elim (Option-cases v.current_union) [
  | inl e ↦ absurd (err-ne-ok _ _ (rw (e, add_union) at h))
  | inr (u, e) ↦
      subst AllIndexed (ok_injective (rw (e, add_union) at h))
        (p.0, add-IsIndex (λ u. u.union_name) v.gen.union_map v.gen.unions u p.1)
]

case-Keeps : Keeps AllIndexed add_case
unfolding add_case
case-Keeps v w p h = elim (Option-cases v.current_union) [
  | inl e ↦ absurd (err-ne-ok _ _ (rw (e, add_case) at h))
  | inr (u, e) ↦ elim (Option-cases v.current_case) [
    | inl e2 ↦ absurd (err-ne-ok _ _ (rw (e, e2, add_case) at h))
    | inr (c, e2) ↦ subst AllIndexed (ok_injective (rw (e, e2, add_case) at h)) p
  ]
]

indexed_by_actions : (fuel : ℕ) → KeptByActions fuel AllIndexed
unfolding add_enum_item add_enum_val add_enum_auto_val start_enum add_const start_struct add_struct
    start_typedef start_union add_union start_case add_case add_declaration add_fixed_array
    add_variable_array add_opt_value
indexed_by_actions fuel = record {
  enum_auto_val =
      λ name v w p h. named-AllIndexed AllIndexed (const_name_transform fuel name) _ w (λ _. p) h;
  enum_val = enum_val-Keeps fuel;
  proc_enum_val = proc-Keeps fuel;
  enum_start = λ name v w p h.
      named-AllIndexed AllIndexed (identifier_transform fuel v.go_equiv_types name) _ w (λ _. p) h;
  const_added = const-Keeps fuel;
  struct_start = λ name v w p h.
      named-AllIndexed AllIndexed (identifier_transform fuel v.go_equiv_types name) _ w (λ _. p) h;
  struct_added = struct-Keeps;
  typedef_start = λ v p. p;
  union_start = λ name v w p h.
      named-AllIndexed AllIndexed (identifier_transform fuel v.go_equiv_types name) _ w (λ _. p) h;
  union_added = union-Keeps;
  case_start = λ value v p. p;
  case_added = case-Keeps;
  declared = λ name type v w p h.
      declare-AllIndexed fuel v.go_equiv_types name type _ w (λ d. add_decl-AllIndexed d v p) h;
  fixed = λ name type len v w p h.
      declare-AllIndexed fuel v.go_equiv_types name _ _ w (λ d. add_decl-AllIndexed d v p) h;
  variable = λ name type len v w p h.
      declare-AllIndexed fuel v.go_equiv_types name _ _ w (λ d. add_decl-AllIndexed d v p) h;
  optional = λ name type v w p h.
      declare-AllIndexed fuel v.go_equiv_types name _ _ w (λ d. add_decl-AllIndexed _ _ p) h;
}

-- Whatever definitions are read, every entry of the maps by name is the place of the structure or
-- the union of that name, if that is so before.
pub do_definitions-IsIndexed :
    (fuel : ℕ) (ds : List Definition) (v w : Vars)
    → IsIndexed v.gen
    → do_definitions fuel ds v ≡ ok w
    → IsIndexed w.gen
do_definitions-IsIndexed fuel ds v w p h =
    definitions-Keeps fuel AllIndexed (indexed_by_actions fuel) ds v w p h

pub new_generator-IsIndexed : IsIndexed new_generator
unfolding find
new_generator-IsIndexed = (λ k ix h. absurd (none-ne-some _ h), λ k ix h. absurd (none-ne-some _ h))
