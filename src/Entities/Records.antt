-- ===== src/Entities/Records.antt =====
-- The methods of dynamicRecordService, validateRecordValues and validateRecordValue of
-- backend/internal/service/dynamic_record_service.go. The repositories and the meter are Go
-- interfaces there, and records here; a state `S` stands for what they store.
use nexa_flow.Prelude.{
  ℕ, Bool, true, false, not, ◌&&◌, List, [], ◌∷◌, Option, none, some, String, Result, ok, err,
  ◌>>=◌, leb, ◌==◌, contains, length, if◌then◌else◌, string_eq, nat_eq, map,
}
use nexa_flow.Prelude.Int.{ℤ, pos, negsuc, ltb_ℤ}
use nexa_flow.Prelude.Maps.{lookup, insert}
use nexa_flow.Patterns.{codes, every, is_digit}
use nexa_flow.Strings.{trim_space}
use nexa_flow.Values.{Value, Dict}
use nexa_flow.Entities.Model.{FieldDefinition, EntityDefinition, WriteRecordInput, RecordView}
use nexa_flow.Entities.Schema.{all_options}

-- ErrInvalidRecord by its causes, and the errors of the others.
pub data RecordError : Type 0 where
  version_required : RecordError
  unknown_field : String → RecordError
  field_required : String → RecordError
  invalid_value : String → String → RecordError
  quota : RecordError
  other : String → RecordError

-- What the values are read with: fmt.Sprintf("%v") of a float64, the layouts of time.Parse,
-- the address of mail.ParseAddress, the scheme and the host of url.ParseRequestURI.
pub record Readers : Type 0 where
  pub sprint_float : ℕ → String
  pub is_date : String → Bool
  pub is_datetime : String → Bool
  pub mail_address : String → Option String
  pub request_uri : String → Option (String × String)

abbrev fraction : List ℕ → Bool
fraction cs = leb 1 (length cs) && leb (length cs) 4 && every is_digit cs

-- \d*(\.\d{1,4})?
unfoldable pub digits_then_fraction : List ℕ → Bool
digits_then_fraction [] = true
digits_then_fraction (c ∷ cs) =
    if is_digit c then digits_then_fraction cs else c == b'.' && fraction cs

-- \d+(\.\d{1,4})?
abbrev pub unsigned_money : List ℕ → Bool
unsigned_money [] = false
unsigned_money (c ∷ cs) = is_digit c && digits_then_fraction cs

abbrev pub without_sign : List ℕ → List ℕ
without_sign [] = []
without_sign (c ∷ cs) = if c == b'-' then cs else c ∷ cs

-- moneyPattern, ^-?\d+(\.\d{1,4})?$
unfoldable pub money_pattern : String → Bool
unfolding digits_then_fraction
money_pattern s = unsigned_money (without_sign (codes s))

abbrev pub text_where : (String → Bool) → Value → Bool
text_where p (Value.text t) = p t
text_where p _ = false

abbrev pub number_where : (ℕ → Bool) → Value → Bool
number_where p (Value.number n) = p n
number_where p _ = false

abbrev pub is_bool : Value → Bool
is_bool (Value.bool b) = true
is_bool _ = false

abbrev pub options_where : List String → Value → Bool
options_where options (Value.array items) = all_options options items
options_where options _ = false

abbrev pub same_address : String → Option String → Bool
same_address t none = false
same_address t (some a) = a == t

abbrev pub absolute : Option (String × String) → Bool
absolute none = false
absolute (some (scheme, host)) = not (scheme == "") && not (host == "")

module _ (rd : Readers) where
  -- The cases of validateRecordValue, by whether the value is accepted.
  unfoldable pub accepts : FieldDefinition → Value → Bool
  unfolding money_pattern all_options
  accepts field v =
      if field.type == "number"
      then number_where (λ n. true) v
      else if field.type == "money"
      then number_where (λ n. money_pattern (rd.sprint_float n)) v
      else if field.type == "boolean"
      then is_bool v
      else if field.type == "date"
      then text_where rd.is_date v
      else if field.type == "datetime"
      then text_where rd.is_datetime v
      else if field.type == "select"
      then text_where (contains field.options) v
      else if field.type == "multiselect"
      then options_where field.options v
      else if field.type == "email"
      then text_where (λ t. same_address t (rd.mail_address t)) v
      else if field.type == "url"
      then text_where (λ t. absolute (rd.request_uri t)) v
      else text_where (λ t. not (trim_space t == "")) v

  -- validateRecordValue
  unfoldable pub validate_record_value : FieldDefinition → Value → Result RecordError (Unit {0})
  unfolding accepts
  validate_record_value field v =
      if accepts field v then ok tt else err (invalid_value field.name field.type)

-- The loop over the names of the input.
unfoldable pub check_names : List FieldDefinition → Dict → Result RecordError (Unit {0})
check_names fields [] = ok tt
check_names fields ((name, v) ∷ raw) =
    let rest = check_names fields raw in
    if contains (map (λ f. FieldDefinition.name f) fields) name
    then rest
    else err (unknown_field name)

-- !exists || value == nil || value == ""
abbrev pub is_blank : Option Value → Bool
is_blank (some (Value.text t)) = t == ""
is_blank (some Value.null) = true
is_blank (some _) = false
is_blank none = true

abbrev pub is_null : Value → Bool
is_null Value.null = true
is_null _ = false

abbrev pub or_null : Option Value → Value
or_null none = Value.null
or_null (some v) = v

-- values[name] = value, if there is one
abbrev pub put : String → Option Value → Dict → Dict
put name none values = values
put name (some v) values = insert name v values

module _ (rd : Readers) where
  -- What a field takes of the value given for it.
  unfoldable pub take_field : FieldDefinition → Option Value → Result RecordError (Option Value)
  unfolding validate_record_value
  take_field field given =
      if is_blank given
      then (if not (is_null field.default)
          then ok (some field.default)
          else if field.required
          then err (field_required field.name)
          else ok none)
      else (validate_record_value rd field (or_null given) >>= λ _. ok (some (or_null given)))

  -- The loop over the fields.
  unfoldable pub take_fields : Dict → List FieldDefinition → Dict → Result RecordError Dict
  unfolding take_field
  take_fields raw [] values = ok values
  take_fields raw (field ∷ fields) values = take_field field (lookup field.name raw) >>= λ v.
      take_fields raw fields (put field.name v values)

  -- validateRecordValues
  unfoldable pub validate_record_values : EntityDefinition → Dict → Result RecordError Dict
  unfolding check_names take_fields
  validate_record_values schema raw =
      check_names schema.fields raw >>= λ _. take_fields raw schema.fields []

-- DynamicRecordRepository, the Get of DynamicModelService, and UsageMeter.
pub record RecordStore (S : Type 0) : Type 0 where
  pub get_schema : S → String → String → Result RecordError EntityDefinition
  pub create : S → String → String → String → Dict → Result RecordError RecordView × S
  pub update : S → String → String → String → String → ℤ → Dict → Result RecordError RecordView × S
  pub delete : S → String → String → String → ℤ → Result RecordError (Unit {0}) × S
  pub consume : S → String → String → ℤ → Result RecordError (Unit {0}) × S

module _ (rd : Readers) {S : Type 0} (db : RecordStore S) where
  -- A created record keeps its unit of the quota; one that is not gives it back.
  abbrev pub or_refund :
      String → Result RecordError RecordView × S → Result RecordError RecordView × S
  or_refund tenant_id (ok view, s) = (ok view, s)
  or_refund tenant_id (err e, s) = (err e, (db.consume s tenant_id "records" (negsuc 0)).1)

  abbrev pub if_granted :
      Result RecordError (Unit {0}) × S
      → (S → Result RecordError RecordView × S)
      → Result RecordError RecordView × S
  if_granted (ok u, s) k = k s
  if_granted (err e, s) k = (err e, s)

  abbrev pub create_values :
      Result RecordError Dict → S → String → String → String → Result RecordError RecordView × S
  create_values (err e) s tenant_id entity_id actor_id = (err e, s)
  create_values (ok values) s tenant_id entity_id actor_id =
      if_granted (db.consume s tenant_id "records" (pos 1))
        (λ s'. or_refund tenant_id (db.create s' tenant_id entity_id actor_id values))

  -- Create, where there is a meter
  unfoldable pub create_record :
      S → String → String → String → WriteRecordInput → Result RecordError RecordView × S
  create_record s tenant_id entity_id actor_id input =
      create_values
        (db.get_schema s tenant_id entity_id >>= λ schema.
          validate_record_values rd schema input.values)
        s tenant_id entity_id actor_id

  abbrev pub update_values :
      Result RecordError Dict
      → S
      → String
      → String
      → String
      → String
      → ℤ
      → Result RecordError RecordView × S
  update_values (err e) s tenant_id entity_id record_id actor_id version = (err e, s)
  update_values (ok values) s tenant_id entity_id record_id actor_id version =
      db.update s tenant_id entity_id record_id actor_id version values

  -- Update
  unfoldable pub update_record :
      S → String → String → String → String → WriteRecordInput → Result RecordError RecordView × S
  update_record s tenant_id entity_id record_id actor_id input =
      if ltb_ℤ input.expected_version (pos 1)
      then (err version_required, s)
      else update_values
          (db.get_schema s tenant_id entity_id >>= λ schema.
            validate_record_values rd schema input.values)
          s tenant_id entity_id record_id actor_id input.expected_version

  abbrev pub release :
      String → Result RecordError (Unit {0}) × S → Result RecordError (Unit {0}) × S
  release tenant_id (ok u, s) = (ok u, (db.consume s tenant_id "records" (negsuc 0)).1)
  release tenant_id (err e, s) = (err e, s)

  abbrev pub delete_of :
      Result RecordError EntityDefinition
      → S
      → String
      → String
      → String
      → ℤ
      → Result RecordError (Unit {0}) × S
  delete_of (err e) s tenant_id entity_id record_id version = (err e, s)
  delete_of (ok schema) s tenant_id entity_id record_id version =
      release tenant_id (db.delete s tenant_id entity_id record_id version)

  -- Delete, where there is a meter
  unfoldable pub delete_record :
      S → String → String → String → ℤ → Result RecordError (Unit {0}) × S
  delete_record s tenant_id entity_id record_id version =
      if ltb_ℤ version (pos 1)
      then (err version_required, s)
      else delete_of (db.get_schema s tenant_id entity_id) s tenant_id entity_id record_id version
