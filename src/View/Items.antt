-- ===== src/View/Items.antt =====
-- tydomio/mcp_server/view.py: one item of the output, with what is said of its fields.
use tydomio.Base.{
  Bool, true, false, ◌||◌, Option, none, some, List, [], ◌∷◌, ◌==◌, nat_eq, list_eq, if◌then◌else◌,
  Result, ok, err,
}
use tydomio.Base.Int.{ℤ, pos, int_eq}
use tydomio.Base.Dict
use tydomio.Base.Dict.{Dict}
use tydomio.Base.Text.{Text, codes}
use tydomio.Error.{Error}
use tydomio.Model.{Data}
use tydomio.Usages.{UsageModel}
use tydomio.Usages.Fields.{ValueType, FieldInfo, model_fields}
use tydomio.Usages.FromData.{Reading, Typed, FieldMeta, is_alias, from_data, field_meta}
use tydomio.Cache.Entities.{Entity}
use tydomio.View.Sanitize.{Runtime, Secrets, sanitize}

-- A value of a field; `F` is the type of floats.
pub data Value (F : Type 0) : Type 0 where
  nothing : Value F
  flag : Bool → Value F
  number : F → Value F
  text : Text → Value F

-- What the view relies on: the runtime of texts, pydantic's validation, and `math.isfinite`.
pub record Platform (F : Type 0) : Type 0 where
  pub runtime : Runtime
  pub validate : ValueType → Value F → Option (Value F)
  pub is_finite : F → Bool

abbrev pub up_to_date : Text
up_to_date = codes "upToDate"

-- An item of the output. `is_invalid` stands for its `error`; a key that it does not have is `none`.
pub record Item (F : Type 0) : Type 0 where
  pub id : Text
  pub name : Text
  pub kind : Text
  pub is_invalid : Bool
  pub state : Option (Dict Text (Value F))
  pub validity : Option (Dict Text Text)
  pub tydom_error : Option ℤ

abbrev pub FieldInfos : Type 0
FieldInfos = Dict Text (Dict Text FieldMeta)

-- `_add_field_info`, over the fields of the kind.
unfoldable pub add_fields {ℓ} :
    {A : Type ℓ} → List (Text × FieldMeta) → Dict Text A → Dict Text FieldMeta → Dict Text FieldMeta
add_fields [] state fields = fields
add_fields ((name, info) ∷ meta) state fields =
    add_fields meta state (if Dict.member name state then Dict.insert name info fields else fields)

abbrev pub fields_of : Option (Dict Text FieldMeta) → Dict Text FieldMeta
fields_of none = []
fields_of (some fields) = fields

-- `_add_field_info`
unfoldable pub add_field_info {ℓ} :
    {A : Type ℓ} → FieldInfos → Text → Dict Text FieldMeta → Dict Text A → FieldInfos
unfolding add_fields
add_field_info infos kind meta state =
    Dict.insert kind (add_fields meta state (fields_of (Dict.lookup kind infos))) infos

abbrev pub or_absent : Dict Text Text → Option (Dict Text Text)
or_absent [] = none
or_absent (note ∷ notes) = some (note ∷ notes)

module _ {F : Type 0} (platform : Platform F) (secrets : Secrets) where
  -- `sanitize`, with the runtime of the platform.
  abbrev pub clean : Text → Text
  clean s = sanitize platform.runtime secrets s

  -- `_value`
  unfoldable pub value : Value F → Value F
  unfolding sanitize
  value (text s) = text (clean s)
  value v = v

  -- `_finite`
  unfoldable pub finite : Value F → Bool
  finite (number x) = platform.is_finite x
  finite v = true

  abbrev pub noted : Text → Text → Dict Text Text → Dict Text Text
  noted name validity notes =
      if validity == up_to_date then notes else Dict.insert name (clean validity) notes

  -- The loop of `_typed_state` over the readings.
  unfoldable pub typed_values :
      List (Text × Reading (Value F))
      → Dict Text (Value F)
      → Dict Text Text
      → Option (Dict Text (Value F) × Dict Text Text)
  unfolding value finite
  typed_values [] values notes = some (values, notes)
  typed_values ((name, r) ∷ more) values notes =
      let rest =
        typed_values more (Dict.insert name (value r.value) values) (noted name r.validity notes) in
      if finite r.value then rest else none

  -- The loop of `_typed_state` over the fields that the model does not know.
  unfoldable pub unknown_values :
      List FieldInfo
      → List (Text × Data (Value F))
      → Dict Text (Value F)
      → Dict Text Text
      → Option (Dict Text (Value F) × Dict Text Text)
  unfolding value finite
  unknown_values fields [] values notes = some (values, notes)
  unknown_values fields ((name, field) ∷ more) values notes =
      let key = clean name in
      let skipped = unknown_values fields more values notes in
      let rest =
        unknown_values fields more (Dict.insert key (value field.value) values)
          (noted key field.validity notes) in
      if is_alias fields key || Dict.member key values
      then skipped
      else (if finite field.value then rest else none)

  -- `_typed_state`
  unfoldable pub typed_state :
      UsageModel → Typed (Value F) (Value F) → Option (Dict Text (Value F) × Dict Text Text)
  unfolding typed_values unknown_values
  typed_state model typed = elim (typed_values typed.readings [] []) [
    | none ↦ none
    | some (values, notes) ↦ unknown_values (model_fields model) typed.unknown values notes
  ]

  -- An item without a state, or whose state is invalid.
  abbrev pub bare : Text → Text → Text → Bool → Item F
  bare id name kind is_invalid = record {
    id = id;
    name = clean name;
    kind = clean kind;
    is_invalid = is_invalid;
    state = none;
    validity = none;
    tydom_error = none;
  }

  abbrev pub with_state :
      Text
      → Text
      → Text
      → ℤ
      → UsageModel
      → FieldInfos
      → Option (Dict Text (Value F) × Dict Text Text)
      → Item F × FieldInfos
  with_state id name kind error model infos none = (bare id name kind true, infos)
  with_state id name kind error model infos (some (state, notes)) = (
    record (bare id name kind false) {
      state = some state;
      validity = or_absent notes;
      tydom_error = if error == pos 0 then none else some error;
    },
    add_field_info infos (clean kind) (field_meta model) state,
  )

  abbrev pub typed_item :
      Text
      → Text
      → Text
      → ℤ
      → UsageModel
      → FieldInfos
      → Result Error (Typed (Value F) (Value F))
      → Item F × FieldInfos
  typed_item id name kind error model infos (err e) = (bare id name kind true, infos)
  typed_item id name kind error model infos (ok typed) =
      with_state id name kind error model infos (typed_state model typed)

  -- `_item`
  unfoldable pub item :
      Text → Text → Text → Option UsageModel → Entity (Value F) → FieldInfos → Item F × FieldInfos
  unfolding typed_state from_data Dict.values sanitize add_field_info field_meta
  item id name kind none entity infos = (bare id name kind false, infos)
  item id name kind (some model) entity infos =
      if entity.invalid
      then (bare id name kind true, infos)
      else typed_item id name kind entity.error model infos
          (from_data platform.validate model (Dict.values entity.fields))
