-- ===== src/View.antt =====
-- tydomio/mcp_server/view.py: the output of `get_state`, made from the cache.
pub mod Sanitize
pub mod Clean
pub mod Items
pub mod Answers
pub mod Values
pub mod Safe
pub mod Tests
use tydomio.Base.{
  Bool, true, false, not, ◌&&◌, Option, none, some, List, [], ◌∷◌, ◌++◌, ◌==◌, nat_eq, list_eq,
  pair_eq, if◌then◌else◌, contains,
}
use tydomio.Base.Int.{ℤ, int_eq}
use tydomio.Base.Dict
use tydomio.Base.Dict.{Dict}
use tydomio.Base.Text.{Text, codes}
use tydomio.Base.Text.Number.{show_int}
use tydomio.Model.{Config, ConfigEndpoint, Group, Area}
use tydomio.Usages.{UsageModel, usages, area}
use tydomio.Usages.FromData.{FieldMeta}
use tydomio.Cache.{Cache, Connection}
use tydomio.Cache.Entities.{Key, or_blank}
use tydomio.View.Sanitize.{Secrets, sanitize}
use tydomio.View.Items.{Value, Platform, Item, FieldInfos, item, clean}

-- `f"e:{…}:{…}"`, `f"a:{…}"` and `f"g:{…}"`
unfoldable pub endpoint_id : ConfigEndpoint → Text
unfolding show_int
endpoint_id e = codes "e:" ++ (show_int e.id_device ++ (codes ":" ++ show_int e.id_endpoint))

unfoldable pub area_id : Area → Text
unfolding show_int
area_id a = codes "a:" ++ show_int a.id

unfoldable pub group_id : Group → Text
unfolding show_int
group_id g = codes "g:" ++ show_int g.id

pub record GroupItem : Type 0 where
  pub id : Text
  pub name : Text
  pub group_all : Bool

-- The result of `get_state`. `groups` is `none` where the key is missing, and so is an empty
-- `field_info`.
pub record Snapshot (F : Type 0) : Type 0 where
  pub connection : Connection
  pub synced : Bool
  pub synced_at : Option Text
  pub items : List (Item F)
  pub field_info : FieldInfos
  pub groups : Option (List GroupItem)
  pub unknown_ids : List Text

-- `wanted is None or item_id in wanted`
abbrev pub is_wanted : Option (List Text) → Text → Bool
is_wanted none id = true
is_wanted (some ids) id = contains ids id

abbrev pub endpoints_of : Option Config → List ConfigEndpoint
endpoints_of none = []
endpoints_of (some config) = config.endpoints

abbrev pub areas_of : Option Config → List Area
areas_of none = []
areas_of (some config) = config.areas

abbrev pub groups_of : Option Config → List Group
groups_of none = []
groups_of (some config) = config.groups

abbrev pub is_empty : Dict Text FieldMeta → Bool
is_empty [] = true
is_empty (f ∷ fields) = false

-- The comprehension that drops the kinds without fields.
unfoldable pub with_fields : FieldInfos → FieldInfos
with_fields [] = []
with_fields ((kind, fields) ∷ infos) =
    let rest = with_fields infos in if is_empty fields then rest else (kind, fields) ∷ rest

-- The comprehension of `unknown_ids`.
unfoldable pub missing_ids : List Text → List Text → List Text
missing_ids known [] = []
missing_ids known (id ∷ ids) =
    let rest = missing_ids known ids in if contains known id then rest else id ∷ rest

abbrev pub or_no_ids : Option (List Text) → List Text
or_no_ids none = []
or_no_ids (some ids) = ids

-- What one loop of `get_state` carries: the items, the field infos and the known ids.
abbrev pub Found : Type 0 → Type 0
Found F = List (Item F) × (FieldInfos × List Text)

-- One round of a loop, where an item is made only if it is wanted.
abbrev pub add_item :
    {F : Type 0} → Bool → Text → (FieldInfos → Item F × FieldInfos) → Found F → Found F
add_item true id make (items, (infos, known)) =
    (items ++ ((make infos).0 ∷ []), ((make infos).1, known ++ (id ∷ [])))
add_item false id make (items, (infos, known)) = (items, (infos, known ++ (id ∷ [])))

module _ {F T : Type 0} (platform : Platform F) (utc_text : T → Text) (secrets : Secrets)
    (cache : Cache (Value F) T) where
  abbrev pub endpoint_item : ConfigEndpoint → FieldInfos → Item F × FieldInfos
  endpoint_item e infos =
      item platform secrets (endpoint_id e) e.name e.last_usage (usages e.last_usage)
        (or_blank (Dict.lookup (e.id_device, e.id_endpoint) cache.endpoints)) infos

  abbrev pub area_item : Area → FieldInfos → Item F × FieldInfos
  area_item a infos =
      item platform secrets (area_id a) a.name (codes "area") (some area)
        (or_blank (Dict.lookup a.id cache.areas)) infos

  unfoldable pub add_endpoints : Option (List Text) → List ConfigEndpoint → Found F → Found F
  unfolding item endpoint_id usages Dict.lookup
  add_endpoints wanted [] found = found
  add_endpoints wanted (e ∷ es) found =
      add_endpoints wanted es
        (add_item (is_wanted wanted (endpoint_id e)) (endpoint_id e) (endpoint_item e) found)

  unfoldable pub add_areas : Option (List Text) → List Area → Found F → Found F
  unfolding item area_id Dict.lookup
  add_areas wanted [] found = found
  add_areas wanted (a ∷ areas) found =
      add_areas wanted areas
        (add_item (is_wanted wanted (area_id a)) (area_id a) (area_item a) found)

  -- The comprehension of `groups`.
  unfoldable pub shutter_groups : List Group → List GroupItem
  unfolding group_id sanitize
  shutter_groups [] = []
  shutter_groups (g ∷ groups) =
      let rest = shutter_groups groups in
      if g.usage == codes "shutter"
      then record { id = group_id g; name = clean platform secrets g.name; group_all = g.group_all }
        ∷ rest
      else rest

  abbrev pub shown_groups : Bool → Option (List Text) → Option (List GroupItem)
  shown_groups true none = some (shutter_groups (groups_of cache.config))
  shown_groups _ _ = none

  abbrev pub moment_text : Option T → Option Text
  moment_text none = none
  moment_text (some moment) = some (utc_text moment)

  -- `get_state`
  unfoldable pub get_state : Option (List Text) → Bool → Snapshot F
  unfolding add_endpoints add_areas with_fields missing_ids shutter_groups
  get_state ids with_groups =
      let (items, (infos, known)) =
        add_areas ids (areas_of cache.config)
          (add_endpoints ids (endpoints_of cache.config) ([], ([], []))) in
      record {
        connection = cache.connection;
        synced = cache.synced;
        synced_at = moment_text cache.synced_at;
        items = items;
        field_info = with_fields infos;
        groups = shown_groups with_groups ids;
        unknown_ids = missing_ids known (or_no_ids ids);
      }
