-- ===== src/Lvgen/Lexer/Keywords.antt =====
-- The keywords of lvlexer.go.
use go_libvirt.Base.{Option, none, some, if◌then◌else◌}
use go_libvirt.Base.Text.{Bytes, text, equal}

pub data Keyword : Type 0 where
  hyper int short char bool case const default double enum float opaque string struct switch typedef
        union unsigned void program version :
      Keyword

-- The map `keywords`.
unfoldable pub keywords : Bytes → Option Keyword
keywords s =
    if equal s (text "hyper")
    then some hyper
    else if equal s (text "int")
    then some int
    else if equal s (text "short")
    then some short
    else if equal s (text "char")
    then some char
    else if equal s (text "bool")
    then some bool
    else if equal s (text "case")
    then some case
    else if equal s (text "const")
    then some const
    else if equal s (text "default")
    then some default
    else if equal s (text "double")
    then some double
    else if equal s (text "enum")
    then some enum
    else if equal s (text "float")
    then some float
    else if equal s (text "opaque")
    then some opaque
    else if equal s (text "string")
    then some string
    else if equal s (text "struct")
    then some struct
    else if equal s (text "switch")
    then some switch
    else if equal s (text "typedef")
    then some typedef
    else if equal s (text "union")
    then some union
    else if equal s (text "unsigned")
    then some unsigned
    else if equal s (text "void")
    then some void
    else if equal s (text "program")
    then some program
    else if equal s (text "version")
    then some version
    else none
