-- ===== src/Lvgen/Grammar.antt =====
-- internal/lvgen/sunrpc.y: the definitions of a protocol file, and the actions of the parser on them,
-- in the order in which it reduces their rules. y.go is made from it. `program` has no actions.
use go_libvirt.Base.{ℕ, Option, none, some, List, [], ◌∷◌, Result, ok, err, ◌>>=◌}
use go_libvirt.Base.Text.{Bytes, text}
use go_libvirt.Lvgen.Generator.{Vars, Fault}
use go_libvirt.Lvgen.Generator.Actions.{
  add_enum_val, add_enum_auto_val, add_proc_enum_val, start_enum, add_const,
}
use go_libvirt.Lvgen.Generator.Containers.{
  start_struct, add_struct, start_typedef, start_union, add_union, start_case, add_case,
  add_declaration, add_fixed_array, add_variable_array, add_opt_value,
}
pub mod Enums
pub mod Open
pub mod Members
pub mod Preserve
pub mod Index

-- `enum_value`: NAME, NAME = VALUE, PROCEDURE = VALUE, and the same behind a comment.
pub data EnumValue : Type 0 where
  auto : Bytes → EnumValue
  valued : Bytes → Bytes → EnumValue
  procedure : Bytes → Bytes → EnumValue
  annotated : Bytes → Bytes → Bytes → EnumValue

-- A declaration's type and its name; a union's discriminant is a type and a name. A case without a
-- value is `default`. A list has at least one entry.
mutual
  pub data TypeSpecifier : Type 0 where
    basic : Bytes → TypeSpecifier
    enum_type : Bytes → List EnumValue → TypeSpecifier
    struct_type : Bytes → Declarations → TypeSpecifier
    union_type : Bytes → TypeSpecifier → Bytes → CaseList → TypeSpecifier

  pub data Declaration : Type 0 where
    simple : TypeSpecifier → Bytes → Declaration
    fixed_array : TypeSpecifier → Bytes → Bytes → Declaration
    variable_array : TypeSpecifier → Bytes → Bytes → Declaration
    pointer : TypeSpecifier → Bytes → Declaration

  pub data Declarations : Type 0 where
    declaration : Declaration → Declarations
    declarations : Declaration → Declarations → Declarations

  pub data CaseList : Type 0 where
    case : Bytes → Declaration → CaseList
    cases : Bytes → Declaration → CaseList → CaseList

pub data Definition : Type 0 where
  of_type : TypeSpecifier → Definition
  const_alias : Bytes → Bytes → Definition
  const_value : Bytes → Bytes → Definition
  typedef : Declaration → Definition

unfoldable pub do_enum_value : ℕ → EnumValue → Vars → Result Fault Vars
do_enum_value fuel (auto name) v = add_enum_auto_val fuel name v
do_enum_value fuel (valued name val) v = add_enum_val fuel name val v
do_enum_value fuel (procedure name val) v = add_proc_enum_val fuel name val [] v
do_enum_value fuel (annotated meta name val) v = add_proc_enum_val fuel name val meta v

unfoldable pub do_enum_values : ℕ → List EnumValue → Vars → Result Fault Vars
do_enum_values fuel [] v = ok v
do_enum_values fuel (value ∷ values) v = do_enum_value fuel value v >>= do_enum_values fuel values

-- `StartEnum` is the action at the rule's end, behind the values.
unfoldable pub do_enum : ℕ → Bytes → List EnumValue → Vars → Result Fault Vars
do_enum fuel name values v = do_enum_values fuel values v >>= start_enum fuel name

-- The text that a type specifier stands for: a rule without an action has its first symbol's.
abbrev pub specified : TypeSpecifier → Bytes
specified (basic type) = type
specified (enum_type name values) = text "enum"
specified (struct_type name ds) = text "struct"
specified (union_type name type discriminant cs) = text "union"

unfoldable mutual
  pub do_type : ℕ → TypeSpecifier → Vars → Result Fault Vars
  do_type fuel (basic type) v = ok v
  do_type fuel (enum_type name values) v = do_enum fuel name values v
  do_type fuel (struct_type name ds) v =
      start_struct fuel name v >>= λ v. do_declarations fuel ds v >>= add_struct
  do_type fuel (union_type name type discriminant cs) v = start_union fuel name v >>= λ v.
      do_type fuel type v >>= λ v.
      add_declaration fuel discriminant (specified type) v >>= λ v. do_cases fuel cs v >>= add_union

  pub do_declaration : ℕ → Declaration → Vars → Result Fault Vars
  do_declaration fuel (simple type name) v =
      do_type fuel type v >>= add_declaration fuel name (specified type)
  do_declaration fuel (fixed_array type name len) v =
      do_type fuel type v >>= add_fixed_array fuel name (specified type) len
  do_declaration fuel (variable_array type name len) v =
      do_type fuel type v >>= add_variable_array fuel name (specified type) len
  do_declaration fuel (pointer type name) v =
      do_type fuel type v >>= add_opt_value fuel name (specified type)

  pub do_declarations : ℕ → Declarations → Vars → Result Fault Vars
  do_declarations fuel (declaration d) v = do_declaration fuel d v
  do_declarations fuel (declarations d ds) v = do_declaration fuel d v >>= do_declarations fuel ds

  pub do_cases : ℕ → CaseList → Vars → Result Fault Vars
  do_cases fuel (case value d) v = do_declaration fuel d (start_case value v) >>= add_case
  do_cases fuel (cases value d cs) v =
      do_declaration fuel d (start_case value v) >>= λ v. add_case v >>= do_cases fuel cs

unfoldable pub do_definition : ℕ → Definition → Vars → Result Fault Vars
do_definition fuel (of_type type) v = do_type fuel type v
do_definition fuel (const_alias name identifier) v = ok v
do_definition fuel (const_value name val) v = add_const fuel name val v
do_definition fuel (typedef d) v = do_declaration fuel d (start_typedef v)

unfoldable pub do_definitions : ℕ → List Definition → Vars → Result Fault Vars
do_definitions fuel [] v = ok v
do_definitions fuel (d ∷ ds) v = do_definition fuel d v >>= do_definitions fuel ds
