-- ===== src/Lvgen/Generator/Containers.antt =====
-- generate.go's routines that the parser calls for structures, typedefs, unions and their declarations.
use go_libvirt.Base.{
  ℕ, ◌==◌, ◌||◌, Option, none, some, List, [], ◌∷◌, ◌++◌, length, if◌then◌else◌, Result, ok, err,
  ◌>>=◌,
}
use go_libvirt.Base.Int.{pos}
use go_libvirt.Base.Text.{Bytes, text, equal}
use go_libvirt.Lvgen.Names.{
  identifier_transform, type_transform, from_snake_to_camel, contains_rune,
}
use go_libvirt.Lvgen.Numbers.{format_int}
use go_libvirt.Lvgen.Table.{find, assign}
use go_libvirt.Lvgen.Generator.{Decl, Structure, Union, Generator, Vars, Fault, panics, named, nth}

unfoldable pub start_struct : ℕ → Bytes → Vars → Result Fault Vars
start_struct fuel name v = named (identifier_transform fuel v.go_equiv_types name) >>= λ goname.
    ok (record v {
      current_struct =
          record { struct_name = goname; struct_lv_name = name; members = [] } ∷ v.current_struct;
    })

unfoldable pub add_struct : Vars → Result Fault Vars
add_struct v = elim v.current_struct [
  | [] ↦ err panics
  | st ∷ rest ↦ ok (record v {
    gen = record (v.gen) {
      struct_map = assign st.struct_name (length v.gen.structs) v.gen.struct_map;
      structs = v.gen.structs ++ (st ∷ []);
    };
    current_struct = rest;
  })
]

abbrev pub empty_decl : Decl
empty_decl = record { name = []; lv_name = []; type = [] }

unfoldable pub start_typedef : Vars → Vars
start_typedef v = record v { current_typedef = some empty_decl }

unfoldable pub start_union : ℕ → Bytes → Vars → Result Fault Vars
start_union fuel name v = named (identifier_transform fuel v.go_equiv_types name) >>= λ goname.
    ok (record v {
      current_union = some (record { union_name = goname; discriminant_type = []; cases = [] });
    })

unfoldable pub add_union : Vars → Result Fault Vars
add_union v = elim v.current_union [
  | none ↦ err panics
  | some u ↦ ok (record v {
    gen = record (v.gen) {
      union_map = assign u.union_name (length v.gen.unions) v.gen.union_map;
      unions = v.gen.unions ++ (u ∷ []);
    };
    current_union = none;
  })
]

abbrev pub lv_typed_params : List (Bytes × ℕ)
lv_typed_params =
    (text "VIR_TYPED_PARAM_INT", 1)
    ∷ (text "VIR_TYPED_PARAM_UINT", 2)
    ∷ (text "VIR_TYPED_PARAM_LLONG", 3)
    ∷ (text "VIR_TYPED_PARAM_ULLONG", 4)
    ∷ (text "VIR_TYPED_PARAM_DOUBLE", 5)
    ∷ (text "VIR_TYPED_PARAM_BOOLEAN", 6)
    ∷ (text "VIR_TYPED_PARAM_STRING", 7)
    ∷ []

-- What stands behind a byte's last occurrence, all of a text without one: `LastIndexByte` and the slice.
unfoldable pub after_last : ℕ → Bytes → Bytes
after_last sep [] = []
after_last sep (r ∷ s) =
    let rest = after_last sep s in if r == sep || contains_rune s sep then rest else r ∷ s

unfoldable pub start_case : Bytes → Vars → Vars
start_case dvalue v = record v {
  current_case = some (record {
    case_name = from_snake_to_camel (after_last b'_' dvalue);
    discriminant_val = elim (find dvalue lv_typed_params) [
      | none ↦ dvalue
      | some dv ↦ format_int (pos dv)
    ];
    decl = empty_decl;
  });
}

unfoldable pub add_case : Vars → Result Fault Vars
add_case v = elim v.current_union [
  | none ↦ err panics
  | some u ↦ elim v.current_case [
    | none ↦ err panics
    | some c ↦ ok (record v {
      current_union = some (record u { cases = u.cases ++ (c ∷ []) });
      current_case = none;
    })
  ]
]

unfoldable pub new_decl : ℕ → List (Bytes × Bytes) → Bytes → Bytes → Result Fault Decl
new_decl fuel table identifier itype =
    named (identifier_transform fuel table identifier) >>= λ goname.
    named (type_transform fuel table itype) >>= λ type.
    ok (record { name = goname; lv_name = identifier; type = type })

abbrev pub add_member : Decl → Structure → Structure
add_member d st = record st { members = st.members ++ (d ∷ []) }

-- The case of an open typedef: one whose name is "string" is left out.
abbrev pub add_typedef : Decl → Vars → Vars
add_typedef d v =
    let kept =
      if equal d.name (text "string") then v.gen.typedefs else v.gen.typedefs ++ (d ∷ []) in
    record v { gen = record (v.gen) { typedefs = kept }; current_typedef = none }

-- The case of an open case, and that of an open union. A case's declaration keeps its `LVName`.
abbrev pub add_to_union : Decl → Vars → Vars
add_to_union d v = elim v.current_case [
  | some c ↦ record v {
    current_case = some (record c { decl = record (c.decl) { name = d.name; type = d.type } });
  }
  | none ↦ elim v.current_union [
    | some u ↦ record v { current_union = some (record u { discriminant_type = d.type }) }
    | none ↦ v
  ]
]

unfoldable pub add_decl : Decl → Vars → Vars
add_decl d v = elim v.current_struct [
  | st ∷ rest ↦ record v { current_struct = add_member d st ∷ rest }
  | [] ↦ elim v.current_typedef [ some t ↦ add_typedef d v | none ↦ add_to_union d v ]
]

unfoldable pub add_declaration : ℕ → Bytes → Bytes → Vars → Result Fault Vars
add_declaration fuel identifier itype v =
    new_decl fuel v.go_equiv_types identifier itype >>= λ d. ok (add_decl d v)

unfoldable pub add_fixed_array : ℕ → Bytes → Bytes → Bytes → Vars → Result Fault Vars
add_fixed_array fuel identifier itype len v =
    new_decl fuel v.go_equiv_types identifier (text "[" ++ (len ++ (text "]" ++ itype))) >>= λ d.
    ok (add_decl d v)

-- The length is not looked at.
unfoldable pub add_variable_array : ℕ → Bytes → Bytes → Bytes → Vars → Result Fault Vars
add_variable_array fuel identifier itype len v =
    let atype = if equal itype (text "string") then itype else text "[]" ++ itype in
    new_decl fuel v.go_equiv_types identifier atype >>= λ d. ok (add_decl d v)

unfoldable pub add_opt_value : ℕ → Bytes → Bytes → Vars → Result Fault Vars
add_opt_value fuel identifier itype v =
    new_decl fuel v.go_equiv_types identifier (text "[]" ++ itype) >>= λ d.
    let new_type = text "Opt" ++ d.name in
    ok (
      add_decl (record d { name = new_type })
        (record v { go_equiv_types = assign d.name new_type v.go_equiv_types }))

-- A type that is no union has the zero union. An index out of range panics: none.
unfoldable pub get_union : Decl → Generator → Option Union
get_union d g = elim (find d.type g.union_map) [
  | none ↦ some (record { union_name = []; discriminant_type = []; cases = [] })
  | some ix ↦ nth ix g.unions
]
