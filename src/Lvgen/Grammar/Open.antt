-- ===== src/Lvgen/Grammar/Open.antt =====
-- The structures that are open, while the definition of one is read.
use mathlib.Core.Path.{subst}
use go_libvirt.Base.{
  ℕ, ◌≡◌, refl, sym, ap, ◌∙◌, List, [], ◌∷◌, ◌++◌, map, append_assoc, append-nil, map-append,
  Result, ok, ◌>>=◌, ok_through, ok_injective,
}
use go_libvirt.Base.Text.{Bytes}
use go_libvirt.Lvgen.Names.{identifier_transform, type_transform}
use go_libvirt.Lvgen.Generator.{Decl, Structure, Vars, Fault, named}
use go_libvirt.Lvgen.Generator.Containers.{start_struct, add_struct, new_decl, add_member, add_decl}

abbrev pub lv_names : List Decl → List Bytes
lv_names = map (λ d. d.lv_name)

-- A structure's name in the file, and those of its members.
abbrev pub Outline : Type 0
Outline = Bytes × List Bytes

abbrev pub outline : Structure → Outline
outline st = (st.struct_lv_name, lv_names st.members)

-- Structures with these outlines behind those there were.
abbrev pub Adds : List Outline → Vars → Vars → Type 0
Adds os v w =
    (inner : List Structure) × (map outline inner ≡ os) × (w.gen.structs ≡ v.gen.structs ++ inner)

pub trans-Adds :
    (os ps : List Outline) (u v w : Vars) → Adds os u v → Adds ps v w → Adds (os ++ ps) u w
trans-Adds os ps u v w (a, o, e) (b, p, f) = (
  a ++ b,
  map-append outline a b ∙ ap (λ t. t ++ map outline b) o ∙ ap (λ t. os ++ t) p,
  f ∙ ap (λ t. t ++ b) e ∙ append_assoc u.gen.structs a b,
)

pub refl-Adds : (v : Vars) → Adds [] v v
refl-Adds v = ([], refl, sym (append-nil v.gen.structs))

-- The members of the open structure grow by these, no other structure that is open changes, and
-- structures with these outlines are added.
abbrev pub Grows : List Bytes → List Outline → Structure → List Structure → Vars → Vars → Type 0
Grows names os st rest v w =
    (ds : List Decl) × (lv_names ds ≡ names)
    × (w.current_struct ≡ record st { members = st.members ++ ds } ∷ rest)
    × Adds os v w

new_decl-lv_name :
    (fuel : ℕ) (table : List (Bytes × Bytes)) (name type : Bytes) (d : Decl)
    → new_decl fuel table name type ≡ ok d
    → d.lv_name ≡ name
unfolding new_decl
new_decl-lv_name fuel table name type d h =
    let (goname, _, h1) = ok_through (named (identifier_transform fuel table name)) _ h in
    let (gotype, _, h2) = ok_through (named (type_transform fuel table type)) _ h1 in
    ap (λ d. d.lv_name) (sym (ok_injective h2))

add_decl-open :
    (d : Decl) (v : Vars) (st : Structure) (rest : List Structure)
    → v.current_struct ≡ st ∷ rest
    → ((add_decl d v).current_struct ≡ add_member d st ∷ rest) × ((add_decl d v).gen ≡ v.gen)
unfolding add_decl
add_decl-open d v st rest at = (rw (at, add_decl) refl, rw (at, add_decl) refl)

declare-Grows :
    (fuel : ℕ) (table : List (Bytes × Bytes)) (name type : Bytes) (st : Structure)
    (rest : List Structure) (v : Vars) (f : Decl → Decl) (g : Decl → Vars) (w : Vars)
    → ((d : Decl) → (f d).lv_name ≡ d.lv_name)
    → ((d : Decl) → ((g d).current_struct ≡ v.current_struct) × ((g d).gen ≡ v.gen))
    → v.current_struct ≡ st ∷ rest
    → (new_decl fuel table name type >>= λ d. ok (add_decl (f d) (g d))) ≡ ok w
    → Grows (name ∷ []) [] st rest v w
declare-Grows fuel table name type st rest v f g w same other at h =
    let (d, made, e) = ok_through (new_decl fuel table name type) _ h in
    let (stack, kept) = add_decl-open (f d) (g d) st rest ((other d).0 ∙ at) in
    let done = ok_injective e in
    (
      f d ∷ [],
      ap (λ n. n ∷ []) (same d ∙ new_decl-lv_name fuel table name type d made),
      ap (λ u. u.current_struct) (sym done) ∙ stack,
      (
        [],
        refl,
        ap (λ u. u.gen.structs) (sym done)
            ∙ ap (λ g. g.structs) (kept ∙ (other d).1)
            ∙ sym (append-nil v.gen.structs),
      ),
    )

start_struct_ok :
    (fuel : ℕ) (name : Bytes) (v w : Vars)
    → start_struct fuel name v ≡ ok w
    → (st : Structure) × (st.struct_lv_name ≡ name)
      × (st.members ≡ [])
      × (w.current_struct ≡ st ∷ v.current_struct)
      × (w.gen ≡ v.gen)
unfolding start_struct
start_struct_ok fuel name v w h =
    let (goname, _, e) = ok_through (named (identifier_transform fuel v.go_equiv_types name)) _ h in
    let done = ok_injective e in
    (
      record { struct_name = goname; struct_lv_name = name; members = [] },
      refl,
      refl,
      ap (λ u. u.current_struct) (sym done),
      ap (λ u. u.gen) (sym done),
    )

add_struct_ok :
    (st : Structure) (rest : List Structure) (v w : Vars)
    → v.current_struct ≡ st ∷ rest
    → add_struct v ≡ ok w
    → (w.current_struct ≡ rest) × (w.gen.structs ≡ v.gen.structs ++ (st ∷ []))
unfolding add_struct
add_struct_ok st rest v w at h =
    let done = ok_injective (rw (at, add_struct) at h) in
    (ap (λ u. u.current_struct) (sym done), ap (λ u. u.gen.structs) (sym done))

-- A structure's definition adds structures with these outlines, and leaves the open ones as they were.
abbrev pub Closes : List Outline → Vars → Vars → Type 0
Closes os v w = Adds os v w × (w.current_struct ≡ v.current_struct)

pub close-Closes :
    (fuel : ℕ) (name : Bytes) (names : List Bytes) (os : List Outline)
    (body : Vars → Result Fault Vars) (v w : Vars)
    → ((st : Structure) (rest : List Structure) (u x : Vars)
        → u.current_struct ≡ st ∷ rest
        → body u ≡ ok x
        → Grows names os st rest u x)
    → (start_struct fuel name v >>= λ u. body u >>= add_struct) ≡ ok w
    → Closes (os ++ ((name, names) ∷ [])) v w
close-Closes fuel name names os body v w grows h =
    let (u, started, h1) = ok_through (start_struct fuel name v) (λ u. body u >>= add_struct) h in
    let (x, read, added) = ok_through (body u) add_struct h1 in
    let (st, called, empty, stack, kept) = start_struct_ok fuel name v u started in
    let (ds, ds_names, grown, (inner, outlines, structs)) =
      grows st v.current_struct u x stack read in
    let (back, last) = add_struct_ok _ _ x w grown added in
    let closed : Structure = record st { members = st.members ++ ds } in
    let its_outline : outline closed ≡ (name, names) =
      λ i. (called i, (ap (λ ms. lv_names (ms ++ ds)) empty ∙ ds_names) i) in
    (
      (
        inner ++ (closed ∷ []),
        map-append outline inner (closed ∷ [])
            ∙ ap (λ t. t ++ (outline closed ∷ [])) outlines
            ∙ ap (λ o. os ++ (o ∷ [])) its_outline,
        last
            ∙ ap (λ t. t ++ (closed ∷ [])) (structs ∙ ap (λ g. g.structs ++ inner) kept)
            ∙ append_assoc v.gen.structs inner (closed ∷ []),
      ),
      back,
    )

pub then-Grows :
    (first more : List Bytes) (os ps : List Outline) (st : Structure) (rest : List Structure)
    (v w : Vars) (u : Vars)
    → Grows first os st rest v u
    → ((st : Structure) → u.current_struct ≡ st ∷ rest → Grows more ps st rest u w)
    → Grows (first ++ more) (os ++ ps) st rest v w
then-Grows first more os ps st rest v w u (ds, ds_names, grown, added) next =
    let (es, es_names, grown2, added2) = next _ grown in
    (
      ds ++ es,
      map-append _ ds es ∙ ap (λ t. t ++ lv_names es) ds_names ∙ ap (λ t. first ++ t) es_names,
      grown2 ∙ ap (λ ms. record st { members = ms } ∷ rest) (append_assoc st.members ds es),
      trans-Adds os ps v u w added added2,
    )

-- A declaration behind its type, which leaves the open structures as they were.
pub behind-Grows :
    (os : List Outline) (fuel : ℕ) (table : List (Bytes × Bytes)) (name type : Bytes)
    (st : Structure) (rest : List Structure) (v u : Vars) (f : Decl → Decl) (g : Decl → Vars)
    (w : Vars)
    → ((d : Decl) → (f d).lv_name ≡ d.lv_name)
    → ((d : Decl) → ((g d).current_struct ≡ u.current_struct) × ((g d).gen ≡ u.gen))
    → v.current_struct ≡ st ∷ rest
    → (u.current_struct ≡ v.current_struct) × Adds os v u
    → (new_decl fuel table name type >>= λ d. ok (add_decl (f d) (g d))) ≡ ok w
    → Grows (name ∷ []) os st rest v w
behind-Grows os fuel table name type st rest v u f g w same other at (kept, added) h =
    let (ds, ds_names, grown, more) =
      declare-Grows fuel table name type st rest u f g w same other (kept ∙ at) h in
    (
      ds,
      ds_names,
      grown,
      subst (λ ps. Adds ps v w) (append-nil os) (trans-Adds os [] v u w added more),
    )
