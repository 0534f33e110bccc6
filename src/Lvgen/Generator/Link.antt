-- ===== src/Lvgen/Generator/Link.antt =====
-- generate.go's steps behind the parser: `procLink` and `addBidirectionalProcs`.
use go_libvirt.Base.{
  ℕ, zero, suc, ◌==◌, Bool, true, false, Option, none, some, List, [], ◌∷◌, ◌++◌, map,
  if◌then◌else◌,
}
use go_libvirt.Base.Int.{ℤ, negsuc, ◌==ℤ◌}
use go_libvirt.Base.Text.{Bytes, text}
use go_libvirt.Lvgen.Table.{find}
use go_libvirt.Lvgen.Generator.{Decl, Structure, Proc, Generator, nth}
use go_libvirt.Lvgen.Generator.Flags.{change_flag_type}
pub mod Shapes
pub mod Total

-- `Gen.Structs[ix].Members = ms`: a `Structure` that is copied shares its members with the one in the list.
unfoldable pub set_members : ℕ → List Decl → List Structure → List Structure
set_members ix ms [] = []
set_members zero ms (st ∷ structs) = record st { members = ms } ∷ structs
set_members (suc ix) ms (st ∷ structs) = st ∷ set_members ix ms structs

-- A procedure's arguments. An index out of range panics: none.
unfoldable pub link_args :
    List Bytes → List (Bytes × ℕ) → Proc × List Structure → Option (Proc × List Structure)
link_args flag_types struct_map (p, structs) = elim (find (p.proc_name ++ text "Args") struct_map) [
  | none ↦ some (p, structs)
  | some ix ↦ elim (nth ix structs) [
    | none ↦ none
    | some st ↦
        let ms = change_flag_type p.proc_name flag_types st.members in
        some (record p { args_struct = st.struct_name; args = ms }, set_members ix ms structs)
  ]
]

unfoldable pub link_ret : List (Bytes × ℕ) → Proc × List Structure → Option (Proc × List Structure)
link_ret struct_map (p, structs) = elim (find (p.proc_name ++ text "Ret") struct_map) [
  | none ↦ some (p, structs)
  | some ix ↦ elim (nth ix structs) [
    | none ↦ none
    | some st ↦ some (record p { ret_struct = st.struct_name; ret = st.members }, structs)
  ]
]

-- A round of the loop of `procLink`. The members that procedures share are changed in the one
-- way, as only procedures of the same name share them: the structures end in "Args" and in "Ret".
abbrev pub link_one :
    List Bytes → List (Bytes × ℕ) → Proc → List Structure → Option (Proc × List Structure)
link_one flag_types struct_map p structs = elim (link_args flag_types struct_map (p, structs)) [
  | none ↦ none
  | some linked ↦ link_ret struct_map linked
]

unfoldable pub link_each :
    List Bytes → List (Bytes × ℕ) → List Proc → List Structure → Option (List Proc × List Structure)
link_each flag_types struct_map [] structs = some ([], structs)
link_each flag_types struct_map (p ∷ procs) structs =
    elim (link_one flag_types struct_map p structs) [
      | none ↦ none
      | some (q, changed) ↦ elim (link_each flag_types struct_map procs changed) [
        | none ↦ none
        | some (qs, last) ↦ some (q ∷ qs, last)
      ]
    ]

unfoldable pub proc_link : List Bytes → Generator → Option Generator
proc_link flag_types g = elim (link_each flag_types g.struct_map g.procs g.structs) [
  | none ↦ none
  | some (qs, changed) ↦ some (record g { procs = qs; structs = changed })
]

abbrev pub bidirectional_stream_procs : List (Bytes × Bytes)
bidirectional_stream_procs = (text "DomainOpenConsole", text "DomainOpenConsoleBidirectional") ∷ []

unfoldable pub extra_procs : List Proc → List Proc
extra_procs [] = []
extra_procs (p ∷ procs) =
    let extra = extra_procs procs in
    elim (find p.proc_name bidirectional_stream_procs) [
      | none ↦ extra
      | some new_name ↦
          if p.read_stream_idx ==ℤ negsuc 0
          then extra
          else record p { proc_name = new_name; write_stream_idx = p.read_stream_idx } ∷ extra
    ]

unfoldable pub add_bidirectional_procs : Generator → Generator
add_bidirectional_procs g = record g { procs = g.procs ++ extra_procs g.procs }
