-- ===== src/Usages/FromData.antt =====
-- tydomio/model/usages/base.py: a usage model from the data of an endpoint or area. `V` is the type of
-- a received value and `W` that of a validated one, `T | None`; pydantic's validation of a value is a
-- parameter.
pub mod Values
pub mod Tests
use tydomio.Base.{
  Bool, true, false, ◌||◌, Option, none, some, List, [], ◌∷◌, ◌==◌, nat_eq, list_eq, if◌then◌else◌,
  any, Result, ok, err,
}
use tydomio.Base.Dict
use tydomio.Base.Dict.{Dict}
use tydomio.Base.Text.{Text}
use tydomio.Error.{Error, invalid_response}
use tydomio.Model.{Data}
use tydomio.Usages.{UsageModel}
use tydomio.Usages.Fields.{FieldInfo, ValueType, model_fields}

-- `Reading`
pub record Reading (W : Type 0) : Type 0 where
  pub value : W
  pub validity : Text

-- A `UsageModel`: the readings that it has, by alias in the order of its fields, and the fields that it
-- does not know.
pub record Typed (V W : Type 0) : Type 0 where
  pub readings : Dict Text (Reading W)
  pub unknown : Dict Text (Data V)

abbrev pub is_alias : List FieldInfo → Text → Bool
is_alias fields name = any (λ (f : FieldInfo). name == f.alias) fields

-- `FieldMeta`
pub record FieldMeta : Type 0 where
  pub unit : Option Text
  pub description : Option Text

abbrev pub has_meta : Option Text → Option Text → Bool
has_meta none none = false
has_meta _ _ = true

-- The loop of `field_meta`.
unfoldable pub meta_of : List FieldInfo → Dict Text FieldMeta → Dict Text FieldMeta
meta_of [] meta = meta
meta_of (f ∷ fields) meta = meta_of fields (
    if has_meta f.unit f.description
    then Dict.insert f.alias (record { unit = f.unit; description = f.description }) meta
    else meta)

-- `field_meta`
unfoldable pub field_meta : UsageModel → Dict Text FieldMeta
unfolding meta_of
field_meta model = meta_of (model_fields model) []

module _ {V : Type 0} where
  -- The loop of `from_data` over the data.
  unfoldable pub split_data :
      List FieldInfo
      → List (Data V)
      → Dict Text (V × Text)
      → Dict Text (Data V)
      → Dict Text (V × Text) × Dict Text (Data V)
  split_data fields [] known unknown = (known, unknown)
  split_data fields (item ∷ items) known unknown =
      split_data fields items
        (if is_alias fields item.name
          then Dict.insert item.name (item.value, item.validity) known
          else known)
        (if is_alias fields item.name then unknown else Dict.insert item.name item unknown)

module _ {V W : Type 0} (validate : ValueType → V → Option W) where
  -- A field that is absent stays `None`; one whose value has the wrong type is refused.
  abbrev pub reading_of : ValueType → Option (V × Text) → Option (Reading W)
  reading_of type none = none
  reading_of type (some (v, validity)) = elim (validate type v) [
    | none ↦ none
    | some w ↦ some (record { value = w; validity = validity })
  ]

  abbrev pub is_refused : ValueType → Option (V × Text) → Bool
  is_refused type none = false
  is_refused type (some (v, validity)) = elim (validate type v) [ none ↦ true | some w ↦ false ]

  abbrev pub with_reading :
      Text → Option (Reading W) → Dict Text (Reading W) → Dict Text (Reading W)
  with_reading alias none readings = readings
  with_reading alias (some r) readings = (alias, r) ∷ readings

  -- `model_validate`, field by field.
  unfoldable pub read_fields : List FieldInfo → Dict Text (V × Text) → Dict Text (Reading W)
  read_fields [] known = []
  read_fields (f ∷ fields) known =
      with_reading f.alias (reading_of f.value_type (Dict.lookup f.alias known))
        (read_fields fields known)

  unfoldable pub has_refused : List FieldInfo → Dict Text (V × Text) → Bool
  has_refused fields known =
      any (λ (f : FieldInfo). is_refused f.value_type (Dict.lookup f.alias known)) fields

  -- `from_data`
  unfoldable pub from_data : UsageModel → List (Data V) → Result Error (Typed V W)
  unfolding split_data read_fields has_refused
  from_data model items =
      let fields = model_fields model in
      let (known, unknown) = split_data fields items [] [] in
      if has_refused fields known
      then err invalid_response
      else ok (record { readings = read_fields fields known; unknown = unknown })
