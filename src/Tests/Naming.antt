-- ===== src/Tests/Naming.antt =====
-- Tests of the generator's names, and the theorems on them at concrete names.
use go_libvirt.Base.{◌≡◌, refl, none, some, [], ◌∷◌}
use go_libvirt.Base.Text.{text}
use go_libvirt.Lvgen.Table.{find}
use go_libvirt.Lvgen.Names.{
  check_identifier, index, fix_at, fix_abbrev, fix_abbrevs, camel, from_snake_to_camel,
  identifier_transform, const_name_transform, proc_name_transform,
}
use go_libvirt.Lvgen.Names.Abbrevs.{fix_abbrev_never_ends}

proc_name_run :
    proc_name_transform 9 (text "REMOTE_PROC_DOMAIN_GET_XML_DESC") ≡ some (text "DomainGetXMLDesc")
unfolding index camel from_snake_to_camel fix_at fix_abbrev fix_abbrevs const_name_transform
    proc_name_transform
proc_name_run = refl

identifier_run :
    identifier_transform 9
      ((text "NonnullString", text "string") ∷ [])
      (text "remote_nonnull_string")
    ≡ some (text "string")
unfolding index camel from_snake_to_camel fix_at fix_abbrev fix_abbrevs check_identifier find
    identifier_transform
identifier_run = refl

fix_abbrev_never_ends_example : fix_abbrev 1000000 (text "Id") 0 (text "IdleIdx") ≡ none
unfolding index
fix_abbrev_never_ends_example =
    fix_abbrev_never_ends b'I' b'd' b'l' (text "eIdx") 3 refl refl refl 1000000
