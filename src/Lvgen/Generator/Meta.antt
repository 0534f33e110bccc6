-- ===== src/Lvgen/Generator/Meta.antt =====
-- generate.go's `parseMeta`: the streams that the comment above a procedure names.
use go_libvirt.Base.{
  ℕ, ◌==◌, true, false, Option, none, some, List, [], ◌∷◌, if◌then◌else◌, Result, ok, err, ◌>>=◌,
}
use go_libvirt.Base.Int.{ℤ, negsuc}
use go_libvirt.Base.Text.{Bytes, text, equal}
use go_libvirt.Lvgen.Numbers.{parse_int}
use go_libvirt.Lvgen.Generator.{Fault, invalid_annotation, invalid_readstream, invalid_writestream}

pub record ProcMeta : Type 0 where
  pub read_stream : ℤ
  pub write_stream : ℤ

-- `strings.Split` at a byte: the first piece, and the others.
unfoldable pub split_over : ℕ → Bytes → Bytes × List Bytes
split_over sep [] = ([], [])
split_over sep (r ∷ s) =
    let (piece, pieces) = split_over sep s in
    if r == sep then ([], piece ∷ pieces) else (r ∷ piece, pieces)

unfoldable pub split : ℕ → Bytes → List Bytes
split sep s = let (piece, pieces) = split_over sep s in piece ∷ pieces

-- What stands behind a byte's first occurrence, and in front of it.
unfoldable pub cut : ℕ → Bytes → Option (Bytes × Bytes)
cut sep [] = none
cut sep (r ∷ s) =
    if r == sep
    then some ([], s)
    else elim (cut sep s) [ none ↦ none | some (before, behind) ↦ some (r ∷ before, behind) ]

-- `strings.Trim(s, " ")`.
unfoldable pub trim_start : Bytes → Bytes
trim_start [] = []
trim_start (r ∷ s) = let rest = trim_start s in if r == 32 then rest else r ∷ s

unfoldable pub trim_end : Bytes → Bytes
trim_end [] = []
trim_end (r ∷ s) = elim (trim_end s) [ [] ↦ if r == 32 then [] else r ∷ [] | c ∷ t ↦ r ∷ c ∷ t ]

abbrev pub trim : Bytes → Bytes
trim s = trim_end (trim_start s)

-- The switch on an annotation's name.
unfoldable pub annotate : Bytes → Bytes → ProcMeta → Result Fault ProcMeta
annotate key value m = elim (equal key (text "readstream")) [
  | true ↦ elim (parse_int 10 value) [
    | none ↦ err (invalid_readstream value)
    | some n ↦ ok (record m { read_stream = n })
  ]
  | false ↦ elim (equal key (text "writestream")) [
    | true ↦ elim (parse_int 10 value) [
      | none ↦ err (invalid_writestream value)
      | some n ↦ ok (record m { write_stream = n })
    ]
    | false ↦ ok m
  ]
]

unfoldable pub parse_line : Bytes → Bytes → ProcMeta → Result Fault ProcMeta
parse_line meta line m = elim (cut b'@' line) [
  | none ↦ ok m
  | some (before, behind) ↦ elim (cut b':' behind) [
    | none ↦ err (invalid_annotation meta)
    | some (key, value) ↦ annotate key (trim value) m
  ]
]

unfoldable pub parse_lines : Bytes → List Bytes → ProcMeta → Result Fault ProcMeta
parse_lines meta [] m = ok m
parse_lines meta (line ∷ lines) m = parse_line meta line m >>= parse_lines meta lines

abbrev pub no_streams : ProcMeta
no_streams = record { read_stream = negsuc 0; write_stream = negsuc 0 }

unfoldable pub parse_meta : Bytes → Result Fault ProcMeta
parse_meta meta = parse_lines meta (split 10 meta) no_streams
