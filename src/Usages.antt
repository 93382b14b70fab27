-- ===== src/Usages.antt =====
-- tydomio/model/usages/__init__.py: the model of each usage name and the write model of each model.
-- `parse_usage` takes the validation of a model, `from_data`, as a parameter.
pub mod Fields
pub mod FromData
use tydomio.Base.{Option, none, some, List, [], ◌∷◌, Result, ok, ◌>>=◌, list_eq, nat_eq, Eq}
use tydomio.Base.Dict
use tydomio.Base.Dict.{Dict}
use tydomio.Base.Text.{Text, codes}
use tydomio.Error.{Error}
use tydomio.Model.{Data}

-- The classes derived from `UsageModel`.
pub data UsageModel : Type 0 where
  area boiler conso re2020_control_boiler sensor_sun shutter weather : UsageModel

-- The classes derived from `UsageWrite` that `WRITES` names.
pub data UsageWrite : Type 0 where
  area_write boiler_write re2020_control_boiler_write shutter_write : UsageWrite

UsageModel-discrete : Discrete UsageModel
UsageModel-discrete = hlevel

instance unfoldable pub model_eq : Eq UsageModel
unfolding UsageModel-discrete
model_eq = record { dec = UsageModel-discrete }

UsageWrite-discrete : Discrete UsageWrite
UsageWrite-discrete = hlevel

instance unfoldable pub write_eq : Eq UsageWrite
unfolding UsageWrite-discrete
write_eq = record { dec = UsageWrite-discrete }

abbrev pub usages_table : Dict Text UsageModel
usages_table =
    (codes "boiler", boiler)
    ∷ (codes "conso", conso)
    ∷ (codes "re2020ControlBoiler", re2020_control_boiler)
    ∷ (codes "sensorSun", sensor_sun)
    ∷ (codes "shutter", shutter)
    ∷ (codes "weather", weather)
    ∷ []

-- `USAGES.get(name)`
unfoldable pub usages : Text → Option UsageModel
usages name = Dict.lookup name usages_table

-- `WRITES.get(model)`
unfoldable pub writes : UsageModel → Option UsageWrite
writes area = some area_write
writes boiler = some boiler_write
writes re2020_control_boiler = some re2020_control_boiler_write
writes shutter = some shutter_write
writes _ = none

module _ {V M : Type 0} (from_data : UsageModel → List (Data V) → Result Error M) where
  unfoldable pub parse_usage : Text → List (Data V) → Result Error (Option M)
  parse_usage usage fields = elim (usages usage) [
    | none ↦ ok none
    | some model ↦ (do m ← from_data model fields; ok (some m))
  ]
