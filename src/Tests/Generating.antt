-- ===== src/Tests/Generating.antt =====
-- The generator at concrete protocol files, and the theorems on it there.
use go_libvirt.Base.{◌≡◌, refl, List, [], ◌∷◌, ◌++◌, map, Result, ok, err, arith}
use go_libvirt.Base.Int.{pos, negsuc}
use go_libvirt.Base.Text.{Bytes, text}
use go_libvirt.Lvgen.Names.{
  index, fix_at, fix_abbrev, fix_abbrevs, camel, from_snake_to_camel, identifier_transform,
  const_name_transform, proc_name_transform, check_identifier, type_transform,
}
use go_libvirt.Lvgen.Table.{find, assign}
use go_libvirt.Lvgen.Numbers.{digits, format_nat, format_int, digits_value, parse_nat, parse_int}
use go_libvirt.Lvgen.Generator.{Vars, Fault, panics, vars_at_start, Proc}
use go_libvirt.Lvgen.Generator.Meta.{
  split_over, split, cut, trim_start, trim_end, annotate, parse_line, parse_lines, parse_meta,
}
use go_libvirt.Lvgen.Generator.Actions.{
  parse_number, start_enum, add_proc_enum_val, proc_program_name,
}
use go_libvirt.Lvgen.Generator.Containers.{
  start_struct, add_struct, start_union, add_union, after_last, start_case, add_case, new_decl,
  add_decl, add_declaration, add_opt_value,
}
use go_libvirt.Lvgen.Generator.Link.{extra_procs}
use go_libvirt.Lvgen.Generator.Link.Total.{AllLinked}
use go_libvirt.Lvgen.Grammar.{
  Declarations, pointer, auto, annotated, basic, enum_type, struct_type, union_type, simple,
  declaration, declarations, case, of_type, Definition, do_enum_value, do_enum_values, do_enum,
  do_type, do_declaration, do_declarations, do_cases, do_definition, do_definitions,
}
use go_libvirt.Lvgen.Grammar.Members.{IsPlain, outlines, struct_type-Closes}
use go_libvirt.Lvgen.Grammar.Open.{Closes}
use go_libvirt.Lvgen.Grammar.Enums.{do_enum-numbered, vals_of, names_of}
use go_libvirt.Lvgen.Grammar.Index.{IsIndexed, new_generator-IsIndexed, do_definitions-IsIndexed}
use go_libvirt.Lvgen.Generate.{parse, generate, generate-AllLinked}

-- The first enumeration of a run, whose names have no values, starts at 1.
abbrev states : List Bytes
states = text "STATE_OFF" ∷ text "STATE_ON" ∷ []

do_enum-numbered_example :
    (w : Vars) × (do_enum 9 (text "state") (map auto states) vars_at_start ≡ ok w)
    × (vals_of w ≡ text "1" ∷ text "2" ∷ [])
    × (names_of w ≡ states)
    × (w.current_enum_val ≡ negsuc 0)
unfolding index camel from_snake_to_camel fix_at fix_abbrev fix_abbrevs const_name_transform
    identifier_transform find check_identifier digits format_nat format_int
do_enum-numbered_example =
    do_enum-numbered 9 1 (text "state") (text "State") states vars_at_start refl (omega arith)
      ((_, refl), ((_, refl), tt)) refl

program_run : proc_program_name 9 (text "QEMU_PROC_DOMAIN_MONITOR_COMMAND") ≡ ok (text "QEMU")
unfolding index camel from_snake_to_camel fix_at fix_abbrev fix_abbrevs const_name_transform
    proc_program_name
program_run = refl

-- A comment's streams.
meta_run :
    parse_meta (
      text "/**"
      ++ (10
          ∷ (text " * @generate: both" ++ (10 ∷ (text " * @readstream: 1" ++ (10 ∷ text " */"))))))
    ≡ ok (record { read_stream = pos 1; write_stream = negsuc 0 })
unfolding split_over split cut trim_start trim_end annotate parse_line parse_lines parse_meta
    digits_value parse_nat parse_int
meta_run = refl

-- A union in a case of a union: the inner one's end leaves no union for the case to be added to.
abbrev nested : List Definition
nested =
    of_type (
      union_type (text "outer") (basic (text "int")) (text "kind") (
        case (text "A") (
          simple
            (union_type (text "inner") (basic (text "int")) (text "kind")
              (case (text "B") (simple (basic (text "int")) (text "b"))))
            (text "a"))))
    ∷ []

nested_run : parse 9 nested vars_at_start ≡ err panics
unfolding index camel from_snake_to_camel fix_at fix_abbrev fix_abbrevs const_name_transform
    identifier_transform find check_identifier type_transform assign start_union add_union
    after_last start_case add_case new_decl add_decl add_declaration do_type do_declaration do_cases
    do_definition do_definitions
nested_run = refl

-- A procedure with a structure for its arguments, and the structure that its result stands in.
abbrev file : List Definition
file =
    of_type (
      enum_type (text "remote_procedure") (
        annotated (text "@readstream: 1") (text "REMOTE_PROC_DOMAIN_OPEN_CONSOLE") (text "201")
        ∷ []))
    ∷ of_type (
        struct_type (text "remote_domain_open_console_args") (
          declarations (simple (basic (text "remote_nonnull_domain")) (text "dom"))
            (declaration (simple (basic (text "uint32")) (text "flags")))))
    ∷ []

abbrev read : Result Fault Vars → Vars
read (ok w) = w
read (err e) = vars_at_start

abbrev file_read : Vars
unfolding index camel from_snake_to_camel fix_at fix_abbrev fix_abbrevs const_name_transform
    proc_name_transform identifier_transform find check_identifier type_transform assign digits
    format_nat format_int digits_value parse_nat parse_int parse_number split_over split cut
    trim_start trim_end annotate parse_line parse_lines parse_meta start_enum proc_program_name
    add_proc_enum_val start_struct add_struct new_decl add_decl add_declaration do_enum_value
    do_enum_values do_enum do_type do_declaration do_declarations do_definition do_definitions
file_read = read (parse 9 file vars_at_start)

file_run : parse 9 file vars_at_start ≡ ok file_read
unfolding index camel from_snake_to_camel fix_at fix_abbrev fix_abbrevs const_name_transform
    proc_name_transform identifier_transform find check_identifier type_transform assign digits
    format_nat format_int digits_value parse_nat parse_int parse_number split_over split cut
    trim_start trim_end annotate parse_line parse_lines parse_meta start_enum proc_program_name
    add_proc_enum_val start_struct add_struct new_decl add_decl add_declaration do_enum_value
    do_enum_values do_enum do_type do_declaration do_declarations do_definition do_definitions
file_run = refl

do_definitions-IsIndexed_example : IsIndexed file_read.gen
do_definitions-IsIndexed_example =
    do_definitions-IsIndexed 9 file vars_at_start file_read new_generator-IsIndexed file_run

abbrev specs : List (Bytes × Bytes)
specs = (text "DomainFlags", text "int32") ∷ (text "ErrorNumber", text "uint32") ∷ []

generate-AllLinked_example :
    (last : Vars) × (qs : List Proc) × (generate 9 specs file vars_at_start ≡ ok last)
    × (last.gen.procs ≡ qs ++ extra_procs qs)
    × AllLinked
        (text "DomainFlags" ∷ [])
        file_read.gen.struct_map
        file_read.gen.structs
        file_read.gen.procs
        qs
generate-AllLinked_example = generate-AllLinked 9 specs file vars_at_start file_read file_run

-- A structure with a structure in it.
abbrev node : Declarations
node =
    declarations
      (simple (struct_type (text "inner") (declaration (simple (basic (text "int32")) (text "x"))))
        (text "i"))
      (declaration (pointer (basic (text "node")) (text "next")))

abbrev node_read : Vars
unfolding index camel from_snake_to_camel fix_at fix_abbrev fix_abbrevs identifier_transform find
    check_identifier type_transform assign start_struct add_struct new_decl add_decl add_declaration
    add_opt_value do_type do_declaration do_declarations
node_read = read (do_type 9 (struct_type (text "node") node) vars_at_start)

struct_type-Closes_example :
    Closes
      ((text "inner", text "x" ∷ []) ∷ (text "node", text "i" ∷ text "next" ∷ []) ∷ [])
      vars_at_start
      node_read
unfolding outlines index camel from_snake_to_camel fix_at fix_abbrev fix_abbrevs
    identifier_transform find check_identifier type_transform assign start_struct add_struct
    new_decl add_decl add_declaration add_opt_value do_type do_declaration do_declarations IsPlain
struct_type-Closes_example =
    struct_type-Closes 9 (text "node") node vars_at_start node_read (tt, tt) refl
