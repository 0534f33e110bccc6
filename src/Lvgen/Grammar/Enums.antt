-- ===== src/Lvgen/Grammar/Enums.antt =====
-- What an enumeration without values of its own gets.
use go_libvirt.Base.{
  ℕ, suc, ◌+◌, ◌<◌, ◌≡◌, refl, sym, ap, ◌∙◌, Option, some, List, [], ◌∷◌, ◌++◌, map, arith,
  append_assoc, All, append-nil, map-append, ok, ◌>>=◌, ok_through, ok_injective, length, ◌≤◌, ◌-◌,
  ◌^◌,
}
use go_libvirt.Base.Int.{pos, negsuc}
use go_libvirt.Base.Text.{Bytes}
use go_libvirt.Lvgen.Numbers.{format_int, increment}
use go_libvirt.Lvgen.Names.{const_name_transform, identifier_transform}
use go_libvirt.Lvgen.Generator.{Vars, named}
use go_libvirt.Lvgen.Generator.Actions.{add_enum_auto_val, add_enum_item, start_enum}
use go_libvirt.Lvgen.Grammar.{auto, do_enum_value, do_enum_values, do_enum}

-- The numbers from `n` on, one for each name, as they are written.
abbrev pub numbered : ℕ → List Bytes → List Bytes
numbered n [] = []
numbered n (name ∷ names) = format_int (pos n) ∷ numbered (suc n) names

abbrev pub vals_of : Vars → List Bytes
vals_of v = map (λ item. item.val) v.gen.enum_vals

abbrev pub names_of : Vars → List Bytes
names_of v = map (λ item. item.item_lv_name) v.gen.enum_vals

auto_val_ok :
    (fuel : ℕ) (name : Bytes) (v w : Vars)
    → add_enum_auto_val fuel name v ≡ ok w
    → (vals_of w ≡ vals_of v ++ (format_int (increment v.current_enum_val) ∷ []))
      × (names_of w ≡ names_of v ++ (name ∷ []))
      × (w.current_enum_val ≡ increment v.current_enum_val)
      × (w.go_equiv_types ≡ v.go_equiv_types)
unfolding add_enum_auto_val add_enum_item
auto_val_ok fuel name v w h =
    let (goname, _, e) = ok_through (named (const_name_transform fuel name)) _ h in
    let same = ok_injective e in
    (
      ap vals_of (sym same) ∙ map-append _ v.gen.enum_vals _,
      ap names_of (sym same) ∙ map-append _ v.gen.enum_vals _,
      ap (λ u. u.current_enum_val) (sym same),
      ap (λ u. u.go_equiv_types) (sym same),
    )

start_enum_ok :
    (fuel : ℕ) (name : Bytes) (v w : Vars)
    → start_enum fuel name v ≡ ok w
    → (w.gen.enum_vals ≡ v.gen.enum_vals) × (w.current_enum_val ≡ negsuc 0)
unfolding start_enum
start_enum_ok fuel name v w h =
    let (goname, _, e) = ok_through (named (identifier_transform fuel v.go_equiv_types name)) _ h in
    let same = ok_injective e in
    (ap (λ u. u.gen.enum_vals) (sym same), ap (λ u. u.current_enum_val) (sym same))

increment_pos : (n : ℕ) → n < 2 ^ 63 - 1 → increment (pos n) ≡ pos (suc n)
increment_pos n h = ground arith

do_enum_values-numbered :
    (fuel n : ℕ) (names : List Bytes) (v w : Vars)
    → increment v.current_enum_val ≡ pos n
    → n + length names ≤ 2 ^ 63 - 1
    → do_enum_values fuel (map auto names) v ≡ ok w
    → (vals_of w ≡ vals_of v ++ numbered n names) × (names_of w ≡ names_of v ++ names)
unfolding do_enum_values do_enum_value
do_enum_values-numbered fuel n [] v w at bound h =
    let same = ok_injective h in
    (
      ap vals_of (sym same) ∙ sym (append-nil (vals_of v)),
      ap names_of (sym same) ∙ sym (append-nil (names_of v)),
    )
do_enum_values-numbered fuel n (name ∷ names) v w at bound h =
    let (u, first, rest) = ok_through (add_enum_auto_val fuel name v) _ h in
    let (vals, lv_names, now, _) = auto_val_ok fuel name v u first in
    let (more, more_names) =
      do_enum_values-numbered fuel (suc n) names u w
        (ap increment (now ∙ at) ∙ increment_pos n (omega (arith, bound))) (omega (arith, bound))
        rest in
    (
      more
          ∙ ap (λ t. t ++ numbered (suc n) names)
              (vals ∙ ap (λ z. vals_of v ++ (format_int z ∷ [])) at)
          ∙ append_assoc (vals_of v) _ _,
      more_names ∙ ap (λ t. t ++ names) lv_names ∙ append_assoc (names_of v) _ _,
    )

-- A name that `fixAbbrevs` comes to an end with.
abbrev pub IsNamed : ℕ → Bytes → Type 0
IsNamed fuel name = (goname : Bytes) × (const_name_transform fuel name ≡ some goname)

named-runs :
    (o : Option Bytes) (a : Bytes) (f : Bytes → Vars)
    → o ≡ some a
    → (w : Vars) × ((named o >>= λ goname. ok (f goname)) ≡ ok w)
named-runs o a f at = (f a, ap (λ o. named o >>= λ goname. ok (f goname)) at)

auto_val_runs :
    (fuel : ℕ) (name : Bytes) (v : Vars)
    → IsNamed fuel name
    → (w : Vars) × (add_enum_auto_val fuel name v ≡ ok w)
unfolding add_enum_auto_val add_enum_item
auto_val_runs fuel name v (goname, at) = named-runs (const_name_transform fuel name) goname _ at

do_enum_values-runs :
    (fuel : ℕ) (names : List Bytes) (v : Vars)
    → All (IsNamed fuel) names
    → (w : Vars) × (do_enum_values fuel (map auto names) v ≡ ok w)
      × (w.go_equiv_types ≡ v.go_equiv_types)
unfolding do_enum_values do_enum_value
do_enum_values-runs fuel [] v calm = (v, refl, refl)
do_enum_values-runs fuel (name ∷ names) v calm =
    let (u, first) = auto_val_runs fuel name v calm.0 in
    let (w, rest, table) = do_enum_values-runs fuel names u calm.1 in
    (w, rw first rest, table ∙ (auto_val_ok fuel name v u first).3)

start_enum_runs :
    (fuel : ℕ) (name goname : Bytes) (v : Vars)
    → identifier_transform fuel v.go_equiv_types name ≡ some goname
    → (w : Vars) × (start_enum fuel name v ≡ ok w)
unfolding start_enum
start_enum_runs fuel name goname v at =
    named-runs (identifier_transform fuel v.go_equiv_types name) goname _ at

-- An enumeration whose names have no values, and have Go names, is read: it gets numbers one after
-- the other, from the one that follows the current value as the enumeration is found, and leaves
-- the current value at -1.
pub do_enum-numbered :
    (fuel n : ℕ) (name goname : Bytes) (names : List Bytes) (v : Vars)
    → increment v.current_enum_val ≡ pos n
    → n + length names ≤ 2 ^ 63 - 1
    → All (IsNamed fuel) names
    → identifier_transform fuel v.go_equiv_types name ≡ some goname
    → (w : Vars) × (do_enum fuel name (map auto names) v ≡ ok w)
      × (vals_of w ≡ vals_of v ++ numbered n names)
      × (names_of w ≡ names_of v ++ names)
      × (w.current_enum_val ≡ negsuc 0)
unfolding do_enum
do_enum-numbered fuel n name goname names v at bound calm named_so =
    let (u, values, table) = do_enum_values-runs fuel names v calm in
    let (w, last) =
      start_enum_runs fuel name goname u
        (ap (λ t. identifier_transform fuel t name) table ∙ named_so) in
    let (vals, lv_names) = do_enum_values-numbered fuel n names v u at bound values in
    let (kept, now) = start_enum_ok fuel name u w last in
    (
      w,
      rw values last,
      ap (map (λ item. item.val)) kept ∙ vals,
      ap (map (λ item. item.item_lv_name)) kept ∙ lv_names,
      now,
    )
