-- ===== src/Lvgen/Generator/Link/Shapes.antt =====
-- Structures up to the types of their flags, which `procLink` sets.
use mathlib.Core.Option.{some-injective, none-ne-some}
use go_libvirt.Base.{
  ℕ, zero, suc, ◌≡◌, refl, sym, ap, ◌∙◌, inl, inr, some, List, [], ◌∷◌, map, Bool-cases,
  Option-cases, if◌then◌else◌,
}
use go_libvirt.Base.Text.{Bytes, text, equal}
use go_libvirt.Lvgen.Generator.{Decl, Structure, nth}
use go_libvirt.Lvgen.Generator.Flags.{find_flag_type, change_member, change_flag_type}
use go_libvirt.Lvgen.Generator.Link.{set_members}

-- A member without its type when it is the flags.
abbrev pub shape : Decl → Decl
shape d = if equal d.name (text "Flags") then record d { type = [] } else d

abbrev pub shapes : List Decl → List Decl
shapes ds = map shape ds

abbrev pub IsAlike : Structure → Structure → Type 0
IsAlike st changed =
    (changed.struct_name ≡ st.struct_name) × (shapes changed.members ≡ shapes st.members)

-- Every structure of the first list stands in the second, with its name and its members.
abbrev pub AllAlike : List Structure → List Structure → Type 0
AllAlike structs changed =
    (ix : ℕ) (st : Structure)
    → nth ix structs ≡ some st
    → (t : Structure) × (nth ix changed ≡ some t) × IsAlike st t

pub refl-AllAlike : (structs : List Structure) → AllAlike structs structs
refl-AllAlike structs ix st h = (st, h, (refl, refl))

pub trans-AllAlike : (a b c : List Structure) → AllAlike a b → AllAlike b c → AllAlike a c
trans-AllAlike a b c ab bc ix st h =
    let (t, at, (names, members)) = ab ix st h in
    let (u, at2, (names2, members2)) = bc ix t at in (u, at2, (names2 ∙ names, members2 ∙ members))

shape-change_member :
    (procname : Bytes) (flag_types : List Bytes) (d : Decl)
    → shape (change_member procname flag_types d) ≡ shape d
unfolding change_member
shape-change_member procname flag_types d = elim (Bool-cases (equal d.name (text "Flags"))) [
  | inr e ↦ rw (e, change_member) (rw e refl)
  | inl e ↦ elim (Option-cases (find_flag_type procname flag_types)) [
    | inl gone ↦ rw (e, gone, change_member) (rw e refl)
    | inr (tname, at) ↦ rw (e, at, change_member) (rw e refl)
  ]
]

pub shapes-change_flag_type :
    (procname : Bytes) (flag_types : List Bytes) (ds : List Decl)
    → shapes (change_flag_type procname flag_types ds) ≡ shapes ds
unfolding change_flag_type
shapes-change_flag_type procname flag_types [] = refl
shapes-change_flag_type procname flag_types (d ∷ ds) =
    rw (shape-change_member procname flag_types d)
      (ap (λ t. shape d ∷ t) (shapes-change_flag_type procname flag_types ds))

pub set_members-AllAlike :
    (ix : ℕ) (st : Structure) (ms : List Decl) (structs : List Structure)
    → nth ix structs ≡ some st
    → shapes ms ≡ shapes st.members
    → AllAlike structs (set_members ix ms structs)
unfolding set_members
set_members-AllAlike ix st ms [] h same j t at = absurd (none-ne-some _ h)
set_members-AllAlike zero st ms (s ∷ structs) h same zero t at =
    let now = some-injective _ _ h in
    let found = some-injective _ _ at in
    (
      record s { members = ms },
      refl,
      (ap (λ s. s.struct_name) found, same ∙ ap (λ s. shapes s.members) (sym now ∙ found)),
    )
set_members-AllAlike zero st ms (s ∷ structs) h same (suc j) t at = (t, at, (refl, refl))
set_members-AllAlike (suc ix) st ms (s ∷ structs) h same zero t at = (t, at, (refl, refl))
set_members-AllAlike (suc ix) st ms (s ∷ structs) h same (suc j) t at =
    set_members-AllAlike ix st ms structs h same j t at
