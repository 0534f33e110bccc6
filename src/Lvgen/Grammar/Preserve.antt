-- ===== src/Lvgen/Grammar/Preserve.antt =====
-- What every action of the parser keeps, the parser keeps.
use mathlib.Core.Path.{subst}
use go_libvirt.Base.{ℕ, ◌≡◌, List, [], ◌∷◌, Result, ok, ◌>>=◌, ok_through, ok_injective}
use go_libvirt.Base.Text.{Bytes}
use go_libvirt.Lvgen.Generator.{Vars, Fault}
use go_libvirt.Lvgen.Generator.Actions.{
  add_enum_val, add_enum_auto_val, add_proc_enum_val, start_enum, add_const,
}
use go_libvirt.Lvgen.Generator.Containers.{
  start_struct, add_struct, start_typedef, start_union, add_union, start_case, add_case,
  add_declaration, add_fixed_array, add_variable_array, add_opt_value,
}
use go_libvirt.Lvgen.Grammar.{
  EnumValue, auto, valued, procedure, annotated, TypeSpecifier, basic, enum_type, struct_type,
  union_type, Declaration, simple, fixed_array, variable_array, pointer, Declarations, declaration,
  declarations, CaseList, case, cases, Definition, of_type, const_alias, const_value, typedef,
  do_enum_value, do_enum_values, do_enum, do_type, do_declaration, do_declarations, do_cases,
  do_definition, do_definitions, specified,
}

-- An action that keeps `P` whenever it returns.
abbrev pub Keeps : (Vars → Type 0) → (Vars → Result Fault Vars) → Type 0
Keeps P action = (v w : Vars) → P v → action v ≡ ok w → P w

pub then-Keeps :
    (P : Vars → Type 0) (first second : Vars → Result Fault Vars)
    → Keeps P first
    → Keeps P second
    → Keeps P (λ v. first v >>= second)
then-Keeps P first second k1 k2 v w p h =
    let (u, e1, e2) = ok_through (first v) second h in k2 u w (k1 v u p e1) e2

ok-Keeps : (P : Vars → Type 0) → Keeps P ok
ok-Keeps P v w p h = subst P (ok_injective h) p

from-Keeps :
    (P : Vars → Type 0) (first : Vars → Vars) (second : Vars → Result Fault Vars)
    → ((v : Vars) → P v → P (first v))
    → Keeps P second
    → Keeps P (λ v. second (first v))
from-Keeps P first second k1 k2 v w p h = k2 (first v) w (k1 v p) h

pub record KeptByActions (fuel : ℕ) (P : Vars → Type 0) : Type 0 where
  pub enum_auto_val : (name : Bytes) → Keeps P (add_enum_auto_val fuel name)
  pub enum_val : (name val : Bytes) → Keeps P (add_enum_val fuel name val)
  pub proc_enum_val : (name val meta : Bytes) → Keeps P (add_proc_enum_val fuel name val meta)
  pub enum_start : (name : Bytes) → Keeps P (start_enum fuel name)
  pub const_added : (name val : Bytes) → Keeps P (add_const fuel name val)
  pub struct_start : (name : Bytes) → Keeps P (start_struct fuel name)
  pub struct_added : Keeps P add_struct
  pub typedef_start : (v : Vars) → P v → P (start_typedef v)
  pub union_start : (name : Bytes) → Keeps P (start_union fuel name)
  pub union_added : Keeps P add_union
  pub case_start : (value : Bytes) (v : Vars) → P v → P (start_case value v)
  pub case_added : Keeps P add_case
  pub declared : (name type : Bytes) → Keeps P (add_declaration fuel name type)
  pub fixed : (name type len : Bytes) → Keeps P (add_fixed_array fuel name type len)
  pub variable : (name type len : Bytes) → Keeps P (add_variable_array fuel name type len)
  pub optional : (name type : Bytes) → Keeps P (add_opt_value fuel name type)

module _ (fuel : ℕ) (P : Vars → Type 0) (kept : KeptByActions fuel P) where
  enum_value-Keeps : (value : EnumValue) → Keeps P (do_enum_value fuel value)
  unfolding do_enum_value
  enum_value-Keeps (auto name) = kept.enum_auto_val name
  enum_value-Keeps (valued name val) = kept.enum_val name val
  enum_value-Keeps (procedure name val) = kept.proc_enum_val name val []
  enum_value-Keeps (annotated meta name val) = kept.proc_enum_val name val meta

  enum_values-Keeps : (values : List EnumValue) → Keeps P (do_enum_values fuel values)
  unfolding do_enum_values
  enum_values-Keeps [] = ok-Keeps P
  enum_values-Keeps (value ∷ values) =
      then-Keeps P (do_enum_value fuel value) (do_enum_values fuel values) (enum_value-Keeps value)
        (enum_values-Keeps values)

  enum-Keeps : (name : Bytes) (values : List EnumValue) → Keeps P (do_enum fuel name values)
  unfolding do_enum
  enum-Keeps name values =
      then-Keeps P (do_enum_values fuel values) (start_enum fuel name) (enum_values-Keeps values)
        (kept.enum_start name)

  mutual
    unfolding do_type do_declaration do_declarations do_cases

    type-Keeps : (type : TypeSpecifier) → Keeps P (do_type fuel type)
    type-Keeps (basic type) = ok-Keeps P
    type-Keeps (enum_type name values) = enum-Keeps name values
    type-Keeps (struct_type name ds) =
        then-Keeps P (start_struct fuel name) _ (kept.struct_start name) (
          then-Keeps P (do_declarations fuel ds) add_struct (declarations-Keeps ds)
            kept.struct_added)
    type-Keeps (union_type name type discriminant cs) =
        then-Keeps P (start_union fuel name) _ (kept.union_start name) (
          then-Keeps P (do_type fuel type) _ (type-Keeps type) (
            then-Keeps P (add_declaration fuel discriminant (specified type)) _
              (kept.declared discriminant (specified type))
              (then-Keeps P (do_cases fuel cs) add_union (cases-Keeps cs) kept.union_added)))

    declaration-Keeps : (d : Declaration) → Keeps P (do_declaration fuel d)
    declaration-Keeps (simple type name) =
        then-Keeps P (do_type fuel type) _ (type-Keeps type) (kept.declared name (specified type))
    declaration-Keeps (fixed_array type name len) =
        then-Keeps P (do_type fuel type) _ (type-Keeps type) (kept.fixed name (specified type) len)
    declaration-Keeps (variable_array type name len) =
        then-Keeps P (do_type fuel type) _ (type-Keeps type)
          (kept.variable name (specified type) len)
    declaration-Keeps (pointer type name) =
        then-Keeps P (do_type fuel type) _ (type-Keeps type) (kept.optional name (specified type))

    declarations-Keeps : (ds : Declarations) → Keeps P (do_declarations fuel ds)
    declarations-Keeps (declaration d) = declaration-Keeps d
    declarations-Keeps (declarations d ds) =
        then-Keeps P (do_declaration fuel d) (do_declarations fuel ds) (declaration-Keeps d)
          (declarations-Keeps ds)

    cases-Keeps : (cs : CaseList) → Keeps P (do_cases fuel cs)
    cases-Keeps (case value d) =
        from-Keeps P (start_case value) _ (kept.case_start value)
          (then-Keeps P (do_declaration fuel d) add_case (declaration-Keeps d) kept.case_added)
    cases-Keeps (cases value d cs) = from-Keeps P (start_case value) _ (kept.case_start value) (
        then-Keeps P (do_declaration fuel d) _ (declaration-Keeps d)
          (then-Keeps P add_case (do_cases fuel cs) kept.case_added (cases-Keeps cs)))

  definition-Keeps : (d : Definition) → Keeps P (do_definition fuel d)
  unfolding do_definition
  definition-Keeps (of_type type) = type-Keeps type
  definition-Keeps (const_alias name identifier) = ok-Keeps P
  definition-Keeps (const_value name val) = kept.const_added name val
  definition-Keeps (typedef d) =
      from-Keeps P start_typedef (do_declaration fuel d) kept.typedef_start (declaration-Keeps d)

  pub definitions-Keeps : (ds : List Definition) → Keeps P (do_definitions fuel ds)
  unfolding do_definitions
  definitions-Keeps [] = ok-Keeps P
  definitions-Keeps (d ∷ ds) =
      then-Keeps P (do_definition fuel d) (do_definitions fuel ds) (definition-Keeps d)
        (definitions-Keeps ds)
