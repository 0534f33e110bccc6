-- ===== src/Lvgen/Grammar/Members.antt =====
-- A structure's members, while its definition is read.
use mathlib.Core.Path.{subst}
use go_libvirt.Base.{ℕ, ◌≡◌, refl, sym, ap, List, [], ◌∷◌, ◌++◌, ok, ok_through, ok_injective}
use go_libvirt.Base.Text.{Bytes, text}
use go_libvirt.Lvgen.Generator.{Structure, Vars}
use go_libvirt.Lvgen.Table.{assign}
use go_libvirt.Lvgen.Generator.Containers.{
  add_declaration, add_fixed_array, add_variable_array, add_opt_value,
}
use go_libvirt.Lvgen.Grammar.{
  TypeSpecifier, basic, enum_type, struct_type, union_type, Declaration, simple, fixed_array,
  variable_array, pointer, Declarations, declaration, declarations, do_type, do_declaration,
  do_declarations,
}
use go_libvirt.Lvgen.Grammar.Open.{
  Outline, Adds, refl-Adds, Grows, Closes, close-Closes, then-Grows, behind-Grows,
}

-- Types without a union or an enumeration in them.
unfoldable mutual
  pub IsPlain : TypeSpecifier → Type 0
  IsPlain (basic type) = Unit
  IsPlain (enum_type name values) = ⊥
  IsPlain (struct_type name ds) = AllPlain ds
  IsPlain (union_type name type discriminant cs) = ⊥

  pub IsPlainDeclaration : Declaration → Type 0
  IsPlainDeclaration (simple type name) = IsPlain type
  IsPlainDeclaration (fixed_array type name len) = IsPlain type
  IsPlainDeclaration (variable_array type name len) = IsPlain type
  IsPlainDeclaration (pointer type name) = IsPlain type

  pub AllPlain : Declarations → Type 0
  AllPlain (declaration d) = IsPlainDeclaration d
  AllPlain (declarations d ds) = IsPlainDeclaration d × AllPlain ds

abbrev pub declared_name : Declaration → Bytes
declared_name (simple type name) = name
declared_name (fixed_array type name len) = name
declared_name (variable_array type name len) = name
declared_name (pointer type name) = name

abbrev pub declared_names : Declarations → List Bytes
declared_names (declaration d) = declared_name d ∷ []
declared_names (declarations d ds) = declared_name d ∷ declared_names ds

-- The structures that a type and declarations have in them, in the order in which they end: each name
-- with those of its members.
unfoldable mutual
  pub outlines : TypeSpecifier → List Outline
  outlines (struct_type name ds) = outlines_in ds ++ ((name, declared_names ds) ∷ [])
  outlines _ = []

  pub outlines_of : Declaration → List Outline
  outlines_of (simple type name) = outlines type
  outlines_of (fixed_array type name len) = outlines type
  outlines_of (variable_array type name len) = outlines type
  outlines_of (pointer type name) = outlines type

  pub outlines_in : Declarations → List Outline
  outlines_in (declaration d) = outlines_of d
  outlines_in (declarations d ds) = outlines_of d ++ outlines_in ds

mutual
  unfolding IsPlain outlines outlines_of outlines_in do_type do_declaration do_declarations
      add_declaration add_fixed_array add_variable_array add_opt_value

  type-Adds :
      (fuel : ℕ) (type : TypeSpecifier) (v w : Vars)
      → IsPlain type
      → do_type fuel type v ≡ ok w
      → (w.current_struct ≡ v.current_struct) × Adds (outlines type) v w
  type-Adds fuel (basic type) v w plain h =
      let same = ok_injective h in
      (ap (λ u. u.current_struct) (sym same), subst (Adds [] v) same (refl-Adds v))
  type-Adds fuel (enum_type name values) v w plain h = absurd plain
  type-Adds fuel (union_type name type discriminant cs) v w plain h = absurd plain
  type-Adds fuel (struct_type name ds) v w plain h =
      let (added, back) =
        close-Closes fuel name (declared_names ds) (outlines_in ds) (do_declarations fuel ds) v w
          (λ st rest u x at read. declarations-Grows fuel ds st rest u x plain at read) h in
      (back, added)

  declarations-Grows :
      (fuel : ℕ) (ds : Declarations) (st : Structure) (rest : List Structure) (v w : Vars)
      → AllPlain ds
      → v.current_struct ≡ st ∷ rest
      → do_declarations fuel ds v ≡ ok w
      → Grows (declared_names ds) (outlines_in ds) st rest v w
  declarations-Grows fuel (declaration d) st rest v w plain at h =
      declaration-Grows fuel d st rest v w plain at h
  declarations-Grows fuel (declarations d ds) st rest v w plain at h =
      let (u, first, more) = ok_through (do_declaration fuel d v) (do_declarations fuel ds) h in
      then-Grows (declared_name d ∷ []) (declared_names ds) (outlines_of d) (outlines_in ds) st rest
        v w u (declaration-Grows fuel d st rest v u plain.0 at first)
        (λ st2 at2. declarations-Grows fuel ds st2 rest u w plain.1 at2 more)

  declaration-Grows :
      (fuel : ℕ) (d : Declaration) (st : Structure) (rest : List Structure) (v w : Vars)
      → IsPlainDeclaration d
      → v.current_struct ≡ st ∷ rest
      → do_declaration fuel d v ≡ ok w
      → Grows (declared_name d ∷ []) (outlines_of d) st rest v w
  declaration-Grows fuel (simple type name) st rest v w plain at h =
      let (u, first, last) = ok_through (do_type fuel type v) _ h in
      behind-Grows (outlines type) fuel u.go_equiv_types name _ st rest v u (λ d. d) (λ d. u) w
        (λ d. refl) (λ d. (refl, refl)) at (type-Adds fuel type v u plain first) last
  declaration-Grows fuel (fixed_array type name len) st rest v w plain at h =
      let (u, first, last) = ok_through (do_type fuel type v) _ h in
      behind-Grows (outlines type) fuel u.go_equiv_types name _ st rest v u (λ d. d) (λ d. u) w
        (λ d. refl) (λ d. (refl, refl)) at (type-Adds fuel type v u plain first) last
  declaration-Grows fuel (variable_array type name len) st rest v w plain at h =
      let (u, first, last) = ok_through (do_type fuel type v) _ h in
      behind-Grows (outlines type) fuel u.go_equiv_types name _ st rest v u (λ d. d) (λ d. u) w
        (λ d. refl) (λ d. (refl, refl)) at (type-Adds fuel type v u plain first) last
  declaration-Grows fuel (pointer type name) st rest v w plain at h =
      let (u, first, last) = ok_through (do_type fuel type v) _ h in
      behind-Grows (outlines type) fuel u.go_equiv_types name _ st rest v u
        (λ d. record d { name = text "Opt" ++ d.name })
        (λ d. record u { go_equiv_types = assign d.name (text "Opt" ++ d.name) u.go_equiv_types }) w
        (λ d. refl) (λ d. (refl, refl)) at (type-Adds fuel type v u plain first) last

-- Where the definition of a structure, without unions and enumerations in it, is read, it adds, behind
-- those there were, the structures in it and then its own, and no others: each once, in the order in
-- which they end, under its name and with a member for each of its declarations, in order and under
-- their names. The structures that are open stay as they are.
pub struct_type-Closes :
    (fuel : ℕ) (name : Bytes) (ds : Declarations) (v w : Vars)
    → AllPlain ds
    → do_type fuel (struct_type name ds) v ≡ ok w
    → Closes (outlines (struct_type name ds)) v w
unfolding IsPlain outlines do_type
struct_type-Closes fuel name ds v w plain h =
    close-Closes fuel name (declared_names ds) (outlines_in ds) (do_declarations fuel ds) v w
      (λ st rest u x at read. declarations-Grows fuel ds st rest u x plain at read) h
