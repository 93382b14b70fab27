-- ===== src/Usages/FromData/Tests.antt =====
-- The data of a shutter read into its model.
use tydomio.Base.{
  ℕ, ◌≡◌, ◌↔◌, refl, true, Option, none, some, List, [], ◌∷◌, any, nat_eq, list_eq, if◌then◌else◌,
  ok, err,
}
use tydomio.Base.Dict
use tydomio.Base.Text.{Text, codes}
use tydomio.Error.{invalid_response}
use tydomio.Model.{Data}
use tydomio.Usages.{shutter}
use tydomio.Usages.Fields.{FieldInfo, ValueType, number, model_fields}
use tydomio.Usages.FromData.{Typed, from_data, field_meta, is_alias, is_refused}
use tydomio.Usages.FromData.Values.{
  last_datum, value_of, field_of, expected, from_data_lem, from_data-error,
}

-- A number is read where one is expected.
abbrev numbers : ValueType → ℕ → Option ℕ
numbers number n = some n
numbers type n = none

abbrev datum : Text → ℕ → Data ℕ
datum name v = record { name = name; validity = codes "upToDate"; value = v }

abbrev half_open : List (Data ℕ)
half_open =
    datum (codes "position") 40 ∷ datum (codes "recFav") 1 ∷ datum (codes "position") 50 ∷ []

abbrev at_half : Typed ℕ ℕ
at_half = record {
  readings = (codes "position", record { value = 50; validity = codes "upToDate" }) ∷ [];
  unknown = (codes "recFav", datum (codes "recFav") 1) ∷ [];
}

reads_last : from_data numbers shutter half_open ≡ ok at_half
unfolding from_data Dict.lookup list_eq nat_eq Dict.insert
reads_last = refl

shutter_meta :
    Dict.lookup (codes "position") (field_meta shutter)
    ≡ some (record { unit = some (codes "%"); description = some (codes "0 = closed, 100 = open") })
unfolding Dict.lookup field_meta Dict.insert list_eq nat_eq
shutter_meta = refl

from_data_lem_example :
    (Dict.lookup (codes "position") at_half.readings
      ≡ expected numbers
          (field_of (codes "position") (model_fields shutter))
          (value_of (last_datum (codes "position") half_open)))
    × (Dict.lookup (codes "position") at_half.unknown ≡ (
        if is_alias (model_fields shutter) (codes "position")
        then none
        else last_datum (codes "position") half_open))
from_data_lem_example =
    from_data_lem numbers shutter half_open at_half (codes "position") reads_last

from_data-error_example : (from_data numbers shutter half_open ≡ err invalid_response) ↔ (
    any
      (λ (f : FieldInfo). is_refused numbers f.value_type (value_of (last_datum f.alias half_open)))
      (model_fields shutter)
    ≡ true)
from_data-error_example = from_data-error numbers shutter half_open
