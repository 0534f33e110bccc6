-- ===== src/Lvgen/Generate.antt =====
-- generate.go's `Generate` between the lexer and the templates: a clean `Gen`, the parser's actions on
-- the file's definitions, `procLink` with `mapFlagTypes` and `addBidirectionalProcs`.
use go_libvirt.Base.{ℕ, ◌≡◌, refl, none, some, List, ◌++◌, Result, ok, err, ◌>>=◌}
use go_libvirt.Base.Text.{Bytes}
use go_libvirt.Lvgen.Generator.{Vars, Fault, panics, new_generator, Proc}
use go_libvirt.Lvgen.Generator.Flags.{map_flag_types}
use go_libvirt.Lvgen.Generator.Link.{proc_link, extra_procs, add_bidirectional_procs}
use go_libvirt.Lvgen.Generator.Link.Total.{AllLinked, proc_link-runs}
use go_libvirt.Lvgen.Grammar.{Definition, do_definitions}
use go_libvirt.Lvgen.Grammar.Index.{do_definitions-IsIndexed, new_generator-IsIndexed}

abbrev pub parse : ℕ → List Definition → Vars → Result Fault Vars
parse fuel ds v = do_definitions fuel ds (record v { gen = new_generator })

abbrev pub link : List (Bytes × Bytes) → Vars → Result Fault Vars
link specs v = elim (proc_link (map_flag_types specs) v.gen) [
  | none ↦ err panics
  | some g ↦ ok (record v { gen = add_bidirectional_procs g })
]

unfoldable pub generate : ℕ → List (Bytes × Bytes) → List Definition → Vars → Result Fault Vars
generate fuel specs ds v = parse fuel ds v >>= link specs

-- When the definitions of a file are read, the generator gets on without a panic, and has each
-- procedure of the file, in their order, with the members of the structures of its name, but for the
-- types of flags, which are those that changeFlagType gives to the arguments; and behind them the
-- variants that `addBidirectionalProcs` adds.
pub generate-AllLinked :
    (fuel : ℕ) (specs : List (Bytes × Bytes)) (ds : List Definition) (v w : Vars)
    → parse fuel ds v ≡ ok w
    → (last : Vars) × (qs : List Proc) × (generate fuel specs ds v ≡ ok last)
      × (last.gen.procs ≡ qs ++ extra_procs qs)
      × AllLinked (map_flag_types specs) w.gen.struct_map w.gen.structs w.gen.procs qs
unfolding generate add_bidirectional_procs
generate-AllLinked fuel specs ds v w read =
    let indexed =
      do_definitions-IsIndexed fuel ds (record v { gen = new_generator }) w new_generator-IsIndexed
        read in
    let (linked, e, all_linked, _) =
      proc_link-runs (map_flag_types specs) w.gen
        (λ k ix h. let (st, at, _) = indexed.0 k ix h in (st, at)) in
    (
      record w { gen = add_bidirectional_procs linked },
      linked.procs,
      rw (read, generate) (rw (e, link) refl),
      refl,
      all_linked,
    )
