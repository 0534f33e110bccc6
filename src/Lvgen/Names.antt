-- ===== src/Lvgen/Names.antt =====
-- internal/lvgen/generate.go: Go names for the names of libvirt's protocol. Names are ASCII.
use go_libvirt.Base.{
  ℕ, zero, suc, ◌+◌, ◌-◌, ◌==◌, ltb, leb, Bool, true, false, not, ◌&&◌, ◌||◌, Option, none, some,
  List, [], ◌∷◌, ◌++◌, map, length, take, drop, if◌then◌else◌,
}
use go_libvirt.Base.Text.{Bytes, text, has_prefix}
use go_libvirt.Lvgen.Table.{find}
pub mod Camel
pub mod Abbrevs

abbrev pub is_upper : ℕ → Bool
is_upper r = leb b'A' r && leb r b'Z'

abbrev pub is_lower : ℕ → Bool
is_lower r = leb b'a' r && leb r b'z'

abbrev pub to_upper : ℕ → ℕ
to_upper r = if is_lower r then r - 32 else r

abbrev pub to_lower : ℕ → ℕ
to_lower r = if is_upper r then r + 32 else r

-- `strings.ContainsRune`, `strings.TrimPrefix`, `strings.Index`.
abbrev pub contains_rune : Bytes → ℕ → Bool
contains_rune [] r = false
contains_rune (c ∷ s) r = c == r || contains_rune s r

abbrev pub trim_prefix : Bytes → Bytes → Bytes
trim_prefix s p = if has_prefix s p then drop (length p) s else s

unfoldable pub index : Bytes → Bytes → Option ℕ
index [] a = if has_prefix [] a then some 0 else none
index (c ∷ s) a = elim (has_prefix (c ∷ s) a) [
  | true ↦ some 0
  | false ↦ elim (index s a) [ none ↦ none | some i ↦ some (suc i) ]
]

-- `strings.Replace(s, a, b, 1)`.
abbrev pub replace_first : Bytes → Bytes → Bytes → Bytes
replace_first s a b = elim (index s a) [
  | none ↦ s
  | some i ↦ take i s ++ (b ++ drop (i + length a) s)
]

-- The loop of `fromSnakeToCamel`, with `hump`.
unfoldable pub camel : Bool → Bytes → Bytes
camel hump [] = []
camel hump (r ∷ s) = elim (r == b'_') [
  | true ↦ camel true s
  | false ↦ (if hump then to_upper r else to_lower r) ∷ camel false s
]

unfoldable pub from_snake_to_camel : Bytes → Bytes
from_snake_to_camel s = camel true s

abbrev pub publicize : Bytes → Bytes
publicize [] = []
publicize (r ∷ s) = to_upper r ∷ s

abbrev pub abbrevs : List Bytes
abbrevs =
    text "Xml" ∷ text "Io" ∷ text "Uuid" ∷ text "Cpu" ∷ text "Id" ∷ text "Ip" ∷ text "Qemu" ∷ []

-- The first rune of a text, 'A' at its end.
abbrev pub first_or_a : Bytes → ℕ
first_or_a [] = b'A'
first_or_a (r ∷ s) = r

-- A round of the inner loop of `fixAbbrevs` behind its `Index`, which has found `loc`.
unfoldable pub fix_at : Bytes → ℕ → Bytes → Bytes
fix_at a loc s =
    if is_lower (first_or_a (drop (loc + length a) s))
    then s
    else take loc s ++ replace_first (drop loc s) a (map to_upper a)

-- The inner loop, on fuel. `loc` is counted from `s[loc:]` and then used in `s`, as there.
unfoldable pub fix_abbrev : ℕ → Bytes → ℕ → Bytes → Option Bytes
unfolding index fix_at
fix_abbrev zero a loc s = none
fix_abbrev (suc fuel) a loc s = elim (index (drop loc s) a) [
  | none ↦ some s
  | some i ↦ fix_abbrev fuel a (suc i) (fix_at a i s)
]

abbrev pub fix_each : ℕ → List Bytes → Bytes → Option Bytes
fix_each fuel [] s = some s
fix_each fuel (a ∷ rest) s = elim (fix_abbrev fuel a 0 s) [
  | none ↦ none
  | some t ↦ fix_each fuel rest t
]

unfoldable pub fix_abbrevs : ℕ → Bytes → Option Bytes
fix_abbrevs fuel s = fix_each fuel abbrevs s

abbrev pub if_snake : Bytes → Bytes → Bytes
if_snake name nn = if contains_rune name b'_' then from_snake_to_camel nn else nn

unfoldable pub const_name_transform : ℕ → Bytes → Option Bytes
const_name_transform fuel name =
    fix_abbrevs fuel (if_snake name (trim_prefix name (text "REMOTE_")))

unfoldable pub proc_name_transform : ℕ → Bytes → Option Bytes
proc_name_transform fuel name = const_name_transform fuel (replace_first name (text "PROC_") [])

-- `goEquivTypes[i]`, in the table as it stands.
unfoldable pub check_identifier : List (Bytes × Bytes) → Bytes → Bytes
check_identifier table i = elim (find i table) [ none ↦ i | some nn ↦ nn ]

unfoldable pub identifier_transform : ℕ → List (Bytes × Bytes) → Bytes → Option Bytes
identifier_transform fuel table name =
    let nn = trim_prefix (trim_prefix name (text "remote_")) (text "VIR_") in
    elim (fix_abbrevs fuel
      (if contains_rune name b'_' then from_snake_to_camel nn else publicize nn)) [
        | none ↦ none
        | some fixed ↦ some (trim_prefix (check_identifier table fixed) (text "Nonnull"))
      ]

-- The runes of `strings.TrimLeft(name, "*[]")` that are cut, and what is left.
abbrev pub trim_left : Bytes → Bytes × Bytes
trim_left [] = ([], [])
trim_left (r ∷ s) =
    let (cut, kept) = trim_left s in
    if r == b'*' || r == b'[' || r == b']' then (r ∷ cut, kept) else ([], r ∷ s)

unfoldable pub type_transform : ℕ → List (Bytes × Bytes) → Bytes → Option Bytes
type_transform fuel table name =
    let (cut, kept) = trim_left name in
    elim (identifier_transform fuel table kept) [ none ↦ none | some nn ↦ some (cut ++ nn) ]
