-- ===== src/Lvgen/Generator/Link/Total.antt =====
-- What `procLink` gives each procedure.
use mathlib.Core.Option.{some-injective, none-ne-some}
use go_libvirt.Base.{ℕ, ◌≡◌, refl, sym, ap, ◌∙◌, inl, inr, some, List, [], ◌∷◌, ◌++◌, Option-cases}
use go_libvirt.Base.Text.{Bytes, text}
use go_libvirt.Lvgen.Table.{find}
use go_libvirt.Lvgen.Generator.{Decl, Structure, Proc, Generator, nth}
use go_libvirt.Lvgen.Generator.Flags.{change_flag_type}
use go_libvirt.Lvgen.Generator.Link.{
  set_members, link_args, link_ret, link_one, link_each, proc_link,
}
use go_libvirt.Lvgen.Generator.Link.Shapes.{
  shapes, AllAlike, refl-AllAlike, trans-AllAlike, shapes-change_flag_type, set_members-AllAlike,
}

-- No entry of the map is out of range.
abbrev pub IsInRange : List (Bytes × ℕ) → List Structure → Type 0
IsInRange m structs =
    (k : Bytes) (ix : ℕ) → find k m ≡ some ix → (st : Structure) × (nth ix structs ≡ some st)

same_place :
    (m : List (Bytes × ℕ)) (now : List Structure) (k : Bytes) {i j : ℕ} {s t : Structure}
    → find k m ≡ some i
    → find k m ≡ some j
    → nth i now ≡ some s
    → nth j now ≡ some t
    → s ≡ t
same_place m now k at_i at_j s_there t_there =
    some-injective _ _
      (sym s_there ∙ ap (λ n. nth n now) (some-injective _ _ (sym at_i ∙ at_j)) ∙ t_there)

module _ (flag_types : List Bytes) (m : List (Bytes × ℕ)) (structs : List Structure) where
  -- The arguments and the results of a procedure: the members of the structures of its name, the
  -- arguments with the types of their flags.
  pub record IsLinked (p q : Proc) : Type 0 where
    pub same_name : q.proc_name ≡ p.proc_name
    pub same_num : q.num ≡ p.num
    pub linked_args :
        (ix : ℕ) (st : Structure)
        → find (p.proc_name ++ text "Args") m ≡ some ix
        → nth ix structs ≡ some st
        → (ms : List Decl) × (shapes ms ≡ shapes st.members)
          × (q.args ≡ change_flag_type p.proc_name flag_types ms)
          × (q.args_struct ≡ st.struct_name)
    pub linked_ret :
        (ix : ℕ) (st : Structure)
        → find (p.proc_name ++ text "Ret") m ≡ some ix
        → nth ix structs ≡ some st
        → (shapes q.ret ≡ shapes st.members) × (q.ret_struct ≡ st.struct_name)

  abbrev pub AllLinked : List Proc → List Proc → Type 0
  AllLinked [] [] = Unit
  AllLinked (p ∷ ps) (q ∷ qs) = IsLinked p q × AllLinked ps qs
  AllLinked _ _ = ⊥

  module _ (in_range : IsInRange m structs) where
    link_args-runs :
        (p : Proc) (now : List Structure)
        → AllAlike structs now
        → (q : Proc) × (changed : List Structure) × (link_args flag_types m (p, now)
            ≡ some (q, changed))
          × AllAlike structs changed
          × (q.proc_name ≡ p.proc_name)
          × (q.num ≡ p.num)
          × ((ix : ℕ) (st : Structure)
              → find (p.proc_name ++ text "Args") m ≡ some ix
              → nth ix structs ≡ some st
              → (ms : List Decl) × (shapes ms ≡ shapes st.members)
                × (q.args ≡ change_flag_type p.proc_name flag_types ms)
                × (q.args_struct ≡ st.struct_name))
    unfolding link_args
    link_args-runs p now alike = elim (Option-cases (find (p.proc_name ++ text "Args") m)) [
      | inl e ↦ (
        p,
        now,
        rw (e, link_args) refl,
        alike,
        refl,
        refl,
        λ ix st h. absurd (none-ne-some _ (sym e ∙ h)),
      )
      | inr (ix, e) ↦
          let (st, at) = in_range (p.proc_name ++ text "Args") ix e in
          let (t, there, (names, members)) = alike ix st at in
          let ms = change_flag_type p.proc_name flag_types t.members in
          (
            record p { args_struct = t.struct_name; args = ms },
            set_members ix ms now,
            rw (e, link_args) (rw (there, link_args) refl),
            trans-AllAlike structs now _ alike (
                set_members-AllAlike ix t ms now there
                  (shapes-change_flag_type p.proc_name flag_types t.members)),
            refl,
            refl,
            λ ix2 st2 e2 at2.
                let (t2, there2, (names2, members2)) = alike ix2 st2 at2 in
                let same = same_place m now _ e e2 there there2 in
                (
                  t.members,
                  ap (λ t. shapes t.members) same ∙ members2,
                  refl,
                  ap (λ t. t.struct_name) same ∙ names2,
                ),
          )
    ]

    link_ret-runs :
        (p : Proc) (now : List Structure)
        → AllAlike structs now
        → (q : Proc) × (link_ret m (p, now) ≡ some (q, now))
          × (q.proc_name ≡ p.proc_name)
          × (q.num ≡ p.num)
          × (q.args ≡ p.args)
          × (q.args_struct ≡ p.args_struct)
          × ((ix : ℕ) (st : Structure)
              → find (p.proc_name ++ text "Ret") m ≡ some ix
              → nth ix structs ≡ some st
              → (shapes q.ret ≡ shapes st.members) × (q.ret_struct ≡ st.struct_name))
    unfolding link_ret
    link_ret-runs p now alike = elim (Option-cases (find (p.proc_name ++ text "Ret") m)) [
      | inl e ↦ (
        p,
        rw (e, link_ret) refl,
        refl,
        refl,
        refl,
        refl,
        λ ix st h. absurd (none-ne-some _ (sym e ∙ h)),
      )
      | inr (ix, e) ↦
          let (st, at) = in_range (p.proc_name ++ text "Ret") ix e in
          let (t, there, (names, members)) = alike ix st at in
          (
            record p { ret_struct = t.struct_name; ret = t.members },
            rw (e, link_ret) (rw (there, link_ret) refl),
            refl,
            refl,
            refl,
            refl,
            λ ix2 st2 e2 at2.
                let (t2, there2, (names2, members2)) = alike ix2 st2 at2 in
                let same = same_place m now _ e e2 there there2 in
                (ap (λ t. shapes t.members) same ∙ members2, ap (λ t. t.struct_name) same ∙ names2),
          )
    ]

    link_one-runs :
        (p : Proc) (now : List Structure)
        → AllAlike structs now
        → (q : Proc) × (changed : List Structure) × (link_one flag_types m p now
            ≡ some (q, changed))
          × AllAlike structs changed
          × IsLinked p q
    link_one-runs p now alike =
        let (q, changed, e, alike2, name_q, num_q, args_q) = link_args-runs p now alike in
        let (r, e2, name_r, num_r, args_r, struct_r, ret_r) = link_ret-runs q changed alike2 in
        (
          r,
          changed,
          rw (e, link_one) e2,
          alike2,
          record {
            same_name = name_r ∙ name_q;
            same_num = num_r ∙ num_q;
            linked_args = λ ix st h at.
                let (ms, like, is, struct) = args_q ix st h at in
                (ms, like, args_r ∙ is, struct_r ∙ struct);
            linked_ret =
                λ ix st h at. ret_r ix st (ap (λ n. find (n ++ text "Ret") m) name_q ∙ h) at;
          },
        )

    link_each-runs :
        (ps : List Proc) (now : List Structure)
        → AllAlike structs now
        → (qs : List Proc) × (changed : List Structure) × (link_each flag_types m ps now
            ≡ some (qs, changed))
          × AllAlike structs changed
          × AllLinked ps qs
    unfolding link_each
    link_each-runs [] now alike = ([], now, refl, alike, tt)
    link_each-runs (p ∷ ps) now alike =
        let (q, now2, e, alike2, linked) = link_one-runs p now alike in
        let (qs, last, e2, alike3, all_linked) = link_each-runs ps now2 alike2 in
        (q ∷ qs, last, rw (e, link_each) (rw (e2, link_each) refl), alike3, (linked, all_linked))

-- When no entry of the map of structures is out of range, `procLink` does not panic. Its procedures
-- are those there were, in their order and with their names and numbers. One that has a
-- structure for its arguments gets that structure's members, flags with their type, and one that
-- has a structure for its results gets that structure's members. No structure gets lost, and of
-- no structure does anything change but the types of flags.
pub proc_link-runs :
    (flag_types : List Bytes) (g : Generator)
    → IsInRange g.struct_map g.structs
    → (linked : Generator) × (proc_link flag_types g ≡ some linked)
      × AllLinked flag_types g.struct_map g.structs g.procs linked.procs
      × AllAlike g.structs linked.structs
unfolding proc_link
proc_link-runs flag_types g in_range =
    let (qs, changed, e, alike, all_linked) =
      link_each-runs flag_types g.struct_map g.structs in_range g.procs g.structs
        (refl-AllAlike g.structs) in
    (record g { procs = qs; structs = changed }, rw (e, proc_link) refl, all_linked, alike)
