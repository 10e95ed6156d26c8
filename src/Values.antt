-- ===== src/Values.antt =====
-- The dynamic values (`any`) that encoding/json decodes, and the maps of them that nodes, records
-- and forms carry. A float64 is its 64-bit pattern.
use nexa_flow.Prelude.{ℕ, Bool, List, Option, none, some, String, string_eq}
use nexa_flow.Prelude.Maps.{lookup}

mutual
  pub data Value : Type 0 where
    null : Value
    bool : Bool → Value
    number : ℕ → Value
    text : String → Value
    array : Items → Value
    object : Fields → Value

  pub data Items : Type 0 where
    nil : Items
    cons : Value → Items → Items

  pub data Fields : Type 0 where
    end : Fields
    field : String → Value → Fields → Fields

-- map[string]any
abbrev pub Dict : Type 0
Dict = List (String × Value)

abbrev or_null : Option Value → Value
or_null none = null
or_null (some v) = v

-- m[name], which is nil where the name is missing
unfoldable pub value_at : String → Dict → Value
unfolding lookup
value_at name m = or_null (lookup name m)

-- v, _ := x.(string)
abbrev pub as_text : Value → String
as_text (text s) = s
as_text _ = ""

-- What the services use of package fmt, package strconv and the comparison of float64 values.
pub record Format : Type 0 where
  pub sprint : Value → String
  pub parse_float : String → Option ℕ
  pub float_gt : ℕ → ℕ → Bool
