-- ===== src/Cache/Tests.antt =====
-- The theorems of the cache and of the installation at a small configuration.
use tydomio.Base.{
  ℕ, ◌≡◌, ◌↔◌, refl, true, false, none, some, List, [], ◌∷◌, nat_eq, list_eq, pair_eq, option_eq,
  map, if◌then◌else◌, ok,
}
use tydomio.Base.Int.{pos, int_eq}
use tydomio.Base.Dict
use tydomio.Base.Text.{Text, codes}
use tydomio.Model.{Config, ConfigEndpoint, Group, Data, Endpoint, DevicesData}
use tydomio.Usages.{usages, shutter}
use tydomio.Installation.{EndpointRef, GroupRef, from_config, endpoint, endpoint_pair}
use tydomio.Installation.References.{endpoint-from_config}
use tydomio.Cache.{Cache, new_cache, apply_config, merge_devices, replace_devices, fresh}
use tydomio.Cache.Valid.{
  IsValid, Operation, perform, perform_all, perform_all-IsValid, applies, connects, merges_devices,
  replaces_devices, syncs, disconnects,
}
use tydomio.Cache.Merge.{lookup-merge_devices, absorb, pushed}
use tydomio.Cache.Abstract.{view, after_all}
use tydomio.Cache.Refines.{view-perform_all}

abbrev blind : Text → ConfigEndpoint
blind usage = record {
  id_endpoint = pos 1;
  first_usage = codes "shutter";
  skill = codes "TYDOM_X3D";
  id_device = pos 9;
  name = codes "Kitchen";
  anticipation_start = false;
  space_id = none;
  picto = codes "";
  last_usage = usage;
  tutorial_id = codes "";
}

abbrev blinds : Group
blinds = record {
  group_all = true;
  usage = codes "shutter";
  name = codes "All";
  id = pos 4;
  is_group_user = false;
  picto = codes "";
}

abbrev pub home : Config
home = record {
  date = pos 0;
  version_application = codes "1";
  endpoints = blind (codes "light") ∷ blind (codes "shutter") ∷ [];
  old_tycam = false;
  moments = [];
  os = codes "android";
  groups = blinds ∷ [];
  areas = [];
  scenarios = [];
  id_catalog = codes "";
  version = codes "1";
  zigbee_networks = [];
}

abbrev position : ℕ → Data ℕ
position v = record { name = codes "position"; validity = codes "upToDate"; value = v }

abbrev at_position : ℕ → Endpoint ℕ
at_position v = record { id = pos 1; error = pos 0; fields = position v ∷ [] }

abbrev pub push_of : ℕ → DevicesData ℕ
push_of v = record { id = pos 9; endpoints = at_position v ∷ [] } ∷ []

abbrev history : List (Operation ℕ ℕ)
history =
    applies home
    ∷ connects
    ∷ replaces_devices (push_of 10) []
    ∷ syncs 5
    ∷ merges_devices (push_of 20)
    ∷ []

abbrev pub synced_cache : Cache ℕ ℕ
synced_cache = perform_all history new_cache

-- The same home, with a boiler in place of the blind.
abbrev pub heated : Config
heated = record home { endpoints = blind (codes "re2020ControlBoiler") ∷ [] }

abbrev pub heated_cache : Cache ℕ ℕ
heated_cache = perform_all (applies heated ∷ connects ∷ syncs 5 ∷ []) new_cache

is_fresh : (fresh synced_cache ≡ true) × (fresh (perform disconnects synced_cache) ≡ false)
unfolding fresh merge_devices tydomio.Cache.mark_synced replace_devices tydomio.Cache.mark_connected
    tydomio.Cache.mark_disconnected
is_fresh = (refl, refl)

perform_all-IsValid_example : IsValid synced_cache
perform_all-IsValid_example = perform_all-IsValid history

lookup-merge_devices_example :
    Dict.lookup (pos 9, pos 1) (merge_devices (push_of 30) synced_cache).endpoints ≡ (
      if Dict.member (pos 9, pos 1) synced_cache.endpoint_usages
      then absorb
          (Dict.lookup (pos 9, pos 1) synced_cache.endpoints)
          (pushed (pos 9, pos 1) (push_of 30))
      else Dict.lookup (pos 9, pos 1) synced_cache.endpoints)
lookup-merge_devices_example = lookup-merge_devices (push_of 30) synced_cache (pos 9, pos 1)

abbrev blind_ref : EndpointRef
blind_ref = record { device_id = pos 9; endpoint_id = pos 1; usage = shutter }

abbrev blinds_ref : GroupRef
blinds_ref = record { group_id = pos 4; usage = shutter }

endpoint-from_config_example :
    (endpoint (from_config home) (pos 9) (pos 1) shutter ≡ ok blind_ref) ↔ (
      (name : Text) × (Dict.last_of (pos 9, pos 1) (map endpoint_pair home.endpoints) ≡ some name)
      × (usages name ≡ some shutter)
      × (blind_ref ≡ record { device_id = pos 9; endpoint_id = pos 1; usage = shutter }))
endpoint-from_config_example = endpoint-from_config home (pos 9) (pos 1) shutter blind_ref

-- The last entry of the configuration counts.
finds_blind : endpoint (from_config home) (pos 9) (pos 1) shutter ≡ ok blind_ref
unfolding endpoint Dict.lookup from_config Dict.insert_all Dict.insert pair_eq int_eq option_eq
    usages list_eq nat_eq tydomio.Usages.model_eq
finds_blind = refl

view-perform_all_example :
    view (
      perform_all
        (applies home
          ∷ replaces_devices (push_of 30) []
          ∷ merges_devices (push_of 40)
          ∷ disconnects
          ∷ [])
        (new_cache {V = ℕ} {T = ℕ}))
    ≡ after_all
        (applies home
          ∷ replaces_devices (push_of 30) []
          ∷ merges_devices (push_of 40)
          ∷ disconnects
          ∷ [])
        (view new_cache)
view-perform_all_example =
    view-perform_all
      (applies home
        ∷ replaces_devices (push_of 30) []
        ∷ merges_devices (push_of 40)
        ∷ disconnects
        ∷ [])
      new_cache
