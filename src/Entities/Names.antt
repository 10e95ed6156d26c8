-- ===== src/Entities/Names.antt =====
-- What Define of backend/internal/service/dynamic_model_service.go lets into the repository.
use nexa_flow.Prelude.{◌≡◌, true, false, String, contains, string_eq, nat_eq}
use nexa_flow.Patterns.{field_name_pattern}
use nexa_flow.Entities.Model.{FieldDefinition}
use nexa_flow.Entities.Schema.{reserved_fields, supported_field_types}
use nexa_flow.Entities.Fits.{AreOptions, IsDefault}

-- A field that a schema may have.
abbrev pub IsField : FieldDefinition → Type 0
IsField f =
    (field_name_pattern f.name ≡ true)
    × (contains reserved_fields f.name ≡ false)
    × (contains supported_field_types f.type ≡ true)
    × AreOptions f.type f.options
    × IsDefault f.type f.options f.default
