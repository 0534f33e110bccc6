-- ===== src/Lvgen/Generator/Actions.antt =====
-- generate.go's routines that the parser calls for enumerations and constants, on the package's variables. `fuel` is that of `fix_abbrevs`.
use go_libvirt.Base.{
  ℕ, Option, none, some, [], ◌∷◌, ◌++◌, drop, take, if◌then◌else◌, Result, ok, err, ◌>>=◌,
}
use go_libvirt.Base.Int.{ℤ, negsuc}
use go_libvirt.Base.Text.{Bytes, text, has_prefix}
use go_libvirt.Lvgen.Names.{identifier_transform, const_name_transform, proc_name_transform, index}
use go_libvirt.Lvgen.Numbers.{parse_int, format_int, increment}
use go_libvirt.Lvgen.Generator.{
  ConstItem, Proc, Vars, Fault, invalid_enum_value, invalid_metadata, invalid_const_value, panics,
  named,
}
use go_libvirt.Lvgen.Generator.Meta.{ProcMeta, parse_meta}

unfoldable pub parse_number : Bytes → Option ℤ
parse_number val =
    if has_prefix val (text "0x") then parse_int 16 (drop 2 val) else parse_int 10 val

abbrev pub add_item : ConstItem → ℤ → Vars → Vars
add_item item n v = record v {
  gen = record (v.gen) { enum_vals = v.gen.enum_vals ++ (item ∷ []) };
  current_enum_val = n;
}

-- `addEnumVal`.
unfoldable pub add_enum_item : ℕ → Bytes → ℤ → Vars → Result Fault Vars
add_enum_item fuel name val v = named (const_name_transform fuel name) >>= λ goname.
    ok (add_item (record { item_name = goname; item_lv_name = name; val = format_int val }) val v)

unfoldable pub add_enum_val : ℕ → Bytes → Bytes → Vars → Result Fault Vars
add_enum_val fuel name val v = elim (parse_number val) [
  | none ↦ err (invalid_enum_value name val)
  | some ev ↦ add_enum_item fuel name ev v
]

unfoldable pub add_enum_auto_val : ℕ → Bytes → Vars → Result Fault Vars
add_enum_auto_val fuel name v =
    let n = increment v.current_enum_val in
    add_enum_item fuel name n (record v { current_enum_val = n })

unfoldable pub start_enum : ℕ → Bytes → Vars → Result Fault Vars
start_enum fuel name v = named (identifier_transform fuel v.go_equiv_types name) >>= λ goname.
    ok (record v {
      gen = record (v.gen) {
        enums = v.gen.enums ++ (record { name = goname; lv_name = name; type = text "int32" } ∷ []);
      };
      current_enum_val = negsuc 0;
    })

-- `procProgramName`: a name with no "PROC_" in it makes the slice panic.
unfoldable pub proc_program_name : ℕ → Bytes → Result Fault Bytes
proc_program_name fuel name = elim (index name (text "PROC_")) [
  | none ↦ err panics
  | some ix ↦ named (const_name_transform fuel (take ix name))
]

abbrev pub new_proc : Bytes → ℤ → Bytes → Bytes → ProcMeta → Proc
new_proc program ev procname name meta = record {
  program = program;
  num = ev;
  proc_name = procname;
  proc_lv_name = name;
  args = [];
  ret = [];
  args_struct = [];
  ret_struct = [];
  read_stream_idx = meta.read_stream;
  write_stream_idx = meta.write_stream;
}

abbrev pub add_proc : Proc → Vars → Vars
add_proc p v = record v { gen = record (v.gen) { procs = v.gen.procs ++ (p ∷ []) } }

abbrev pub meta_of : Bytes → Bytes → Result Fault ProcMeta
meta_of name meta = elim (parse_meta meta) [ ok m ↦ ok m | err e ↦ err (invalid_metadata name e) ]

unfoldable pub add_proc_enum_val : ℕ → Bytes → Bytes → Bytes → Vars → Result Fault Vars
add_proc_enum_val fuel name val meta v = elim (parse_number val) [
  | none ↦ err (invalid_enum_value name val)
  | some ev ↦ meta_of name meta >>= λ m. proc_program_name fuel name >>= λ program.
      named (proc_name_transform fuel name) >>= λ procname.
      named (const_name_transform fuel name) >>= λ enumname. ok (
        add_proc (new_proc program ev procname name m) (
          add_item (record { item_name = enumname; item_lv_name = name; val = format_int ev }) ev
            v))
]

unfoldable pub add_const : ℕ → Bytes → Bytes → Vars → Result Fault Vars
add_const fuel name val v = elim (parse_number val) [
  | none ↦ err (invalid_const_value name val)
  | some n ↦ named (const_name_transform fuel name) >>= λ goname. ok (record v {
    gen = record (v.gen) {
      consts = v.gen.consts ++ (record { item_name = goname; item_lv_name = name; val = val } ∷ []);
    };
  })
]
