-- ===== src/Lvgen/Generator/Flags.antt =====
-- generate.go's search for the type of a procedure's flags.
use go_libvirt.Base.{Bool, false, ◌||◌, Option, none, some, List, [], ◌∷◌, ◌++◌, map, if◌then◌else◌}
use go_libvirt.Base.Text.{Bytes, text, equal}
use go_libvirt.Lvgen.Table.{find}
use go_libvirt.Lvgen.Generator.{Decl}

abbrev pub flag_map : List (Bytes × Bytes)
flag_map =
    (text "ConnectOpen", text "ConnectFlags")
    ∷ (text "DomainAddIothread", text "DomainModificationImpact")
    ∷ (text "DomainCoreDumpWithFormat", text "DomainCoreDumpFlags")
    ∷ (text "DomainCreateXML", text "DomainCreateFlags")
    ∷ (text "DomainCreateWithFiles", text "DomainCreateFlags")
    ∷ (text "DomainCreateXMLWithFiles", text "DomainCreateFlags")
    ∷ (text "DomainDefineXMLFlags", text "DomainDefineFlags")
    ∷ (text "DomainDelIothread", text "DomainModificationImpact")
    ∷ (text "DomainDestroyFlags", text "DomainDestroyFlagsValues")
    ∷ (text "DomainGetCPUStats", text "TypedParameterFlags")
    ∷ (text "DomainGetEmulatorPinInfo", text "DomainModificationImpact")
    ∷ (text "DomainGetInterfaceParameters", text "DomainModificationImpact")
    ∷ (text "DomainGetIothreadInfo", text "DomainModificationImpact")
    ∷ (text "DomainGetMetadata", text "DomainModificationImpact")
    ∷ (text "DomainGetPerfEvents", text "DomainModificationImpact")
    ∷ (text "DomainGetXMLDesc", text "DomainXMLFlags")
    ∷ (text "DomainManagedSaveDefineXML", text "DomainSaveRestoreFlags")
    ∷ (text "DomainManagedSaveGetXMLDesc", text "DomainXMLFlags")
    ∷ (text "DomainMemoryPeek", text "DomainMemoryFlags")
    ∷ (text "DomainMigratePerform3Params", text "DomainMigrateFlags")
    ∷ (text "DomainOpenChannel", text "DomainChannelFlags")
    ∷ (text "DomainOpenGraphicsFd", text "DomainOpenGraphicsFlags")
    ∷ (text "DomainPinEmulator", text "DomainModificationImpact")
    ∷ (text "DomainPinIothread", text "DomainModificationImpact")
    ∷ (text "DomainSetLifecycleAction", text "DomainModificationImpact")
    ∷ (text "DomainSetMemoryStatsPeriod", text "DomainMemoryModFlags")
    ∷ (text "DomainSetMetadata", text "DomainModificationImpact")
    ∷ (text "DomainSetPerfEvents", text "DomainModificationImpact")
    ∷ (text "DomainSetVcpu", text "DomainModificationImpact")
    ∷ (text "DomainShutdownFlags", text "DomainShutdownFlagValues")
    ∷ (text "DomainUndefineFlags", text "DomainUndefineFlagsValues")
    ∷ (text "DomainUpdateDeviceFlags", text "DomainDeviceModifyFlags")
    ∷ (text "StoragePoolCreateXML", text "StoragePoolCreateFlags")
    ∷ (text "StoragePoolGetXMLDesc", text "StorageXMLFlags")
    ∷ (text "StorageVolCreateXML", text "StorageVolCreateFlags")
    ∷ (text "StorageVolCreateXMLFrom", text "StorageVolCreateFlags")
    ∷ []

-- `mapFlagTypes` on the types that const.gen.go declares, each a name and what it stands for: of the
-- result, `flagTypes`, only the keys are used.
abbrev pub map_flag_types : List (Bytes × Bytes) → List Bytes
map_flag_types [] = []
map_flag_types ((name, type) ∷ specs) =
    let rest = map_flag_types specs in if equal type (text "int32") then name ∷ rest else rest

abbrev pub has_type : Bytes → List Bytes → Bool
has_type n [] = false
has_type n (t ∷ flag_types) = equal t n || has_type n flag_types

abbrev pub first_type : List Bytes → List Bytes → Option Bytes
first_type [] flag_types = none
first_type (n ∷ tnames) flag_types =
    if has_type n flag_types then some n else first_type tnames flag_types

unfoldable pub find_flag_type : Bytes → List Bytes → Option Bytes
find_flag_type procname flag_types = elim (find procname flag_map) [
  | some flag_name ↦ if has_type flag_name flag_types then some flag_name else none
  | none ↦
      first_type
        ((procname ++ text "Flags")
          ∷ (procname ++ text "FlagValues")
          ∷ (procname ++ text "FlagsValues")
          ∷ [])
        flag_types
]

-- A round of the loop of `changeFlagType`.
unfoldable pub change_member : Bytes → List Bytes → Decl → Decl
change_member procname flag_types d =
    if equal d.name (text "Flags")
    then elim (find_flag_type procname flag_types) [
      | none ↦ d
      | some tname ↦ record d { type = tname }
    ]
    else d

unfoldable pub change_flag_type : Bytes → List Bytes → List Decl → List Decl
change_flag_type procname flag_types members = map (change_member procname flag_types) members
