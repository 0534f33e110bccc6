-- ===== src/Lvgen/Generator.antt =====
-- internal/lvgen/generate.go: what the generator has read of a protocol file, and its package's variables.
use go_libvirt.Base.{
  ℕ, zero, suc, Bool, true, false, Option, none, some, List, [], ◌∷◌, Result, ok, err,
}
use go_libvirt.Base.Int.{ℤ, pos}
use go_libvirt.Base.Text.{Bytes, text}
pub mod Meta
pub mod Actions
pub mod Containers
pub mod Link
pub mod Flags

pub record ConstItem : Type 0 where
  pub item_name : Bytes
  pub item_lv_name : Bytes
  pub val : Bytes

pub record Decl : Type 0 where
  pub name : Bytes
  pub lv_name : Bytes
  pub type : Bytes

pub record Structure : Type 0 where
  pub struct_name : Bytes
  pub struct_lv_name : Bytes
  pub members : List Decl

-- `Typedef` has a `Decl` and no more.
pub record Case : Type 0 where
  pub case_name : Bytes
  pub discriminant_val : Bytes
  pub decl : Decl

pub record Union : Type 0 where
  pub union_name : Bytes
  pub discriminant_type : Bytes
  pub cases : List Case

pub record Proc : Type 0 where
  pub program : Bytes
  pub num : ℤ
  pub proc_name : Bytes
  pub proc_lv_name : Bytes
  pub args : List Decl
  pub ret : List Decl
  pub args_struct : Bytes
  pub ret_struct : Bytes
  pub read_stream_idx : ℤ
  pub write_stream_idx : ℤ

pub record Generator : Type 0 where
  pub enums : List Decl
  pub enum_vals : List ConstItem
  pub consts : List ConstItem
  pub structs : List Structure
  pub struct_map : List (Bytes × ℕ)
  pub typedefs : List Decl
  pub unions : List Union
  pub union_map : List (Bytes × ℕ)
  pub procs : List Proc

abbrev pub new_generator : Generator
new_generator = record {
  enums = [];
  enum_vals = [];
  consts = [];
  structs = [];
  struct_map = [];
  typedefs = [];
  unions = [];
  union_map = [];
  procs = [];
}

-- `Gen`, `CurrentEnumVal`, `goEquivTypes`, `CurrentStruct` with its top in front, `CurrentTypedef`,
-- `CurrentUnion` and `CurrentCase`. A nil pointer is none.
pub record Vars : Type 0 where
  pub gen : Generator
  pub current_enum_val : ℤ
  pub go_equiv_types : List (Bytes × Bytes)
  pub current_struct : List Structure
  pub current_typedef : Option Decl
  pub current_union : Option Union
  pub current_case : Option Case

abbrev pub go_equiv_types_at_start : List (Bytes × Bytes)
go_equiv_types_at_start =
    (text "type", text "lvtype")
    ∷ (text "error", text "lverror")
    ∷ (text "nil", text "lvnil")
    ∷ (text "NonnullString", text "string")
    ∷ (text "Error", text "remote_error")
    ∷ (text "Int", text "int")
    ∷ (text "Uint", text "uint")
    ∷ (text "Int8", text "int8")
    ∷ (text "Uint8", text "uint8")
    ∷ (text "Int16", text "int16")
    ∷ (text "Uint16", text "uint16")
    ∷ (text "Int32", text "int32")
    ∷ (text "Uint32", text "uint32")
    ∷ (text "Int64", text "int64")
    ∷ (text "Uint64", text "uint64")
    ∷ (text "Float32", text "float32")
    ∷ (text "Float64", text "float64")
    ∷ (text "Bool", text "bool")
    ∷ (text "Byte", text "byte")
    ∷ []

-- The package's variables before the first file.
abbrev pub vars_at_start : Vars
vars_at_start = record {
  gen = new_generator;
  current_enum_val = pos 0;
  go_equiv_types = go_equiv_types_at_start;
  current_struct = [];
  current_typedef = none;
  current_union = none;
  current_case = none;
}

-- Why an action does not return: the error it gives the parser, a panic, or `fixAbbrevs` going round.
pub data Fault : Type 0 where
  invalid_enum_value : Bytes → Bytes → Fault
  invalid_metadata : Bytes → Fault → Fault
  invalid_const_value : Bytes → Bytes → Fault
  invalid_annotation : Bytes → Fault
  invalid_readstream : Bytes → Fault
  invalid_writestream : Bytes → Fault
  panics : Fault
  never_ends : Fault

-- A name that the fuel was enough for.
abbrev pub named : Option Bytes → Result Fault Bytes
named none = err never_ends
named (some nn) = ok nn

-- `xs[ix]`, whose panic is none.
abbrev pub nth : {A : Type 0} → ℕ → List A → Option A
nth ix [] = none
nth zero (x ∷ xs) = some x
nth (suc ix) (x ∷ xs) = nth ix xs
