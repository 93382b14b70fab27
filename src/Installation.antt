-- ===== src/Installation.antt =====
-- tydomio/installation.py: what `/configs/file` says of the endpoints, groups and areas, and the
-- references that a write is addressed to. Ids are ints by their type here, so `_check_id` has nothing
-- left to refuse.
pub mod References
use tydomio.Base.{
  Bool, true, false, not, Option, none, some, List, [], ◌∷◌, map, ◌==◌, nat_eq, list_eq, pair_eq,
  option_eq, contains, if◌then◌else◌, Result, ok, err, ◌>>=◌, ◌>>◌, require,
}
use tydomio.Base.Int.{ℤ, int_eq}
use tydomio.Base.Dict
use tydomio.Base.Dict.{Dict}
use tydomio.Base.Text.{Text}
use tydomio.Error.{Error, invalid_target}
use tydomio.Model.{
  Config, ConfigEndpoint, Group, Area, Data, Endpoint, ModelItem, DevicesData, AreasData,
}
use tydomio.Usages.{UsageModel, usages, parse_usage, area, model_eq}

pub record Installation : Type 0 where
  pub endpoints : Dict (ℤ × ℤ) Text
  pub areas : List ℤ
  pub groups : Dict ℤ Text

abbrev pub endpoint_pair : ConfigEndpoint → (ℤ × ℤ) × Text
endpoint_pair e = ((e.id_device, e.id_endpoint), e.last_usage)

abbrev pub group_pair : Group → ℤ × Text
group_pair g = (g.id, g.usage)

unfoldable pub from_config : Config → Installation
from_config config = record {
  endpoints = Dict.insert_all (map endpoint_pair config.endpoints) [];
  areas = map (λ a. a.id) config.areas;
  groups = Dict.insert_all (map group_pair config.groups) [];
}

pub record EndpointRef : Type 0 where
  pub device_id : ℤ
  pub endpoint_id : ℤ
  pub usage : UsageModel

pub record GroupRef : Type 0 where
  pub group_id : ℤ
  pub usage : UsageModel

pub record AreaRef : Type 0 where
  pub area_id : ℤ

-- `_check_usage`
unfoldable pub check_usage : Text → UsageModel → Result Error (Unit {0})
check_usage name usage = require (usages name == some usage) invalid_target

-- `_usage`
unfoldable pub usage_of : Installation → ℤ → ℤ → Result Error Text
usage_of i device_id endpoint_id = elim (Dict.lookup (device_id, endpoint_id) i.endpoints) [
  | none ↦ err invalid_target
  | some name ↦ ok name
]

unfoldable pub endpoint : Installation → ℤ → ℤ → UsageModel → Result Error EndpointRef
unfolding usage_of check_usage
endpoint i device_id endpoint_id usage = do
  name ← usage_of i device_id endpoint_id
  check_usage name usage
  ok (record { device_id = device_id; endpoint_id = endpoint_id; usage = usage })

unfoldable pub group : Installation → ℤ → UsageModel → Result Error GroupRef
unfolding check_usage
group i group_id usage = elim (Dict.lookup group_id i.groups) [
  | none ↦ err invalid_target
  | some name ↦ (do check_usage name usage; ok (record { group_id = group_id; usage = usage }))
]

unfoldable pub area_ref : Installation → ℤ → Result Error AreaRef
area_ref i area_id =
    if contains i.areas area_id then ok (record { area_id = area_id }) else err invalid_target

module _ {V M : Type 0} (from_data : UsageModel → List (Data V) → Result Error M) where
  -- The first endpoint of a device with this id.
  unfoldable pub find_endpoint : ℤ → List (Endpoint V) → Option (Endpoint V)
  find_endpoint endpoint_id [] = none
  find_endpoint endpoint_id (e ∷ es) =
      if e.id == endpoint_id then some e else find_endpoint endpoint_id es

  -- The first endpoint with these ids; a device may be listed more than once.
  unfoldable pub find_device : ℤ → ℤ → DevicesData V → Option (Endpoint V)
  unfolding find_endpoint
  find_device device_id endpoint_id [] = none
  find_device device_id endpoint_id (d ∷ ds) =
      let rest = find_device device_id endpoint_id ds in
      if d.id == device_id
      then elim (find_endpoint endpoint_id d.endpoints) [ none ↦ rest | some e ↦ some e ]
      else rest

  unfoldable pub read_endpoint : Installation → DevicesData V → ℤ → ℤ → Result Error (Option M)
  unfolding find_device usage_of parse_usage
  read_endpoint i pushed device_id endpoint_id = do
    usage ← usage_of i device_id endpoint_id
    elim (find_device device_id endpoint_id pushed) [
      | none ↦ ok none
      | some e ↦ parse_usage from_data usage e.fields
    ]

  unfoldable pub read_area : Installation → AreasData V → ℤ → Result Error (Option M)
  unfolding find_endpoint area_ref
  read_area i pushed area_id = do
    held ← area_ref i area_id
    elim (find_endpoint area_id pushed) [
      | none ↦ ok none
      | some e ↦ (do m ← from_data area e.fields; ok (some m))
    ]
