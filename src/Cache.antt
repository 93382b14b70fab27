-- ===== src/Cache.antt =====
-- tydomio/mcp_server/cache.py: the state of the Tydom as the MCP server knows it, by id, with its
-- freshness. `V` is the type of a data value and `T` that of a moment.
pub mod Entities
pub mod Valid
pub mod Merge
pub mod Abstract
pub mod Loops
pub mod Refines
pub mod Tests
use tydomio.Base.{
  Bool, true, false, ◌&&◌, Option, none, some, List, [], ◌∷◌, map, ◌==◌, nat_eq, list_eq, pair_eq,
  option_eq, if◌then◌else◌,
}
use tydomio.Base.Int.{ℤ, pos, int_eq}
use tydomio.Base.Dict
use tydomio.Base.Dict.{Dict}
use tydomio.Base.Text.{Text}
use tydomio.Model.{Config, Data, Endpoint, ModelItem, Area, DevicesData, AreasData}
use tydomio.Cache.Entities.{
  Entity, Key, take_devices, take_areas, push_devices, push_areas, mark_invalid,
}
use tydomio.Installation.{Installation, endpoint_pair, from_config}

pub data Connection : Type 0 where
  connecting connected disconnected : Connection

abbrev pub is_connected : Connection → Bool
is_connected connected = true
is_connected _ = false

pub record Cache (V T : Type 0) : Type 0 where
  pub config : Option Config
  pub installation : Option Installation
  pub endpoints : Dict Key (Entity V)
  pub areas : Dict ℤ (Entity V)
  pub connection : Connection
  pub synced : Bool
  pub synced_at : Option T
  pub endpoint_usages : Dict Key Text
  pub area_usages : Dict ℤ Text

abbrev pub area_pair : Area → ℤ × Text
area_pair a = (a.id, a.last_usage)

-- `_usages`
unfoldable pub usages_of : Config → Dict Key Text × Dict ℤ Text
usages_of config = (
  Dict.insert_all (map endpoint_pair config.endpoints) [],
  Dict.insert_all (map area_pair config.areas) [],
)

-- The state that `apply_config` keeps: the usage of the key is known and has not changed.
abbrev pub same_usage {ℓ} :
    {K : Type ℓ} → (K → Option Text) → (K → Option Text) → (K → Bool) → K → Bool
same_usage now before known key = now key == before key && known key

module _ {V T : Type 0} where
  -- `Cache()`
  abbrev pub new_cache : Cache V T
  new_cache = record {
    config = none;
    installation = none;
    endpoints = [];
    areas = [];
    connection = connecting;
    synced = false;
    synced_at = none;
    endpoint_usages = [];
    area_usages = [];
  }

  unfoldable pub fresh : Cache V T → Bool
  fresh c = is_connected c.connection && c.synced

  unfoldable pub apply_config : Config → Cache V T → Cache V T
  unfolding usages_of from_config
  apply_config config c =
      let (endpoint_usages, area_usages) = usages_of config in
      record c {
        config = some config;
        installation = some (from_config config);
        endpoints =
            Dict.keep
              (same_usage (λ key. Dict.lookup key endpoint_usages)
                (λ key. Dict.lookup key c.endpoint_usages) (λ key. Dict.member key endpoint_usages))
              c.endpoints;
        areas =
            Dict.keep
              (same_usage (λ key. Dict.lookup key area_usages)
                (λ key. Dict.lookup key c.area_usages) (λ key. Dict.member key area_usages))
              c.areas;
        endpoint_usages = endpoint_usages;
        area_usages = area_usages;
      }

  unfoldable pub replace_devices : DevicesData V → List Key → Cache V T → Cache V T
  unfolding take_devices mark_invalid
  replace_devices items invalid c = record c {
    endpoints =
        mark_invalid (λ key. Dict.member key c.endpoint_usages) invalid
          (take_devices c.endpoint_usages items []);
  }

  unfoldable pub replace_areas : AreasData V → List ℤ → Cache V T → Cache V T
  unfolding take_areas mark_invalid
  replace_areas items invalid c = record c {
    areas =
        mark_invalid (λ key. Dict.member key c.area_usages) invalid
          (take_areas c.area_usages items []);
  }

  unfoldable pub merge_devices : DevicesData V → Cache V T → Cache V T
  unfolding push_devices
  merge_devices items c = record c { endpoints = push_devices c.endpoint_usages items c.endpoints }

  unfoldable pub merge_areas : AreasData V → Cache V T → Cache V T
  unfolding push_areas
  merge_areas items c = record c { areas = push_areas c.area_usages items c.areas }

  unfoldable pub mark_connected : Cache V T → Cache V T
  mark_connected c = record c { connection = connected }

  unfoldable pub mark_synced : T → Cache V T → Cache V T
  mark_synced now c = record c { synced = true; synced_at = some now }

  unfoldable pub mark_disconnected : Cache V T → Cache V T
  mark_disconnected c = record c { connection = disconnected; synced = false }
