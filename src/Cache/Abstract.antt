-- ===== src/Cache/Abstract.antt =====
-- What tydomio/mcp_server/cache.py promises, without its dicts and loops: for each id what is known of
-- it, as functions.
use tydomio.Base.{
  Bool, true, false, Option, none, some, List, [], ◌∷◌, ◌++◌, map, Eq, ◌==◌, nat_eq, list_eq,
  pair_eq, if◌then◌else◌, contains,
}
use tydomio.Base.Int.{ℤ, pos, int_eq}
use tydomio.Base.Dict
use tydomio.Base.Text.{Text}
use tydomio.Model.{Config, Data, Endpoint, DevicesData, AreasData}
use tydomio.Installation.{endpoint_pair}
use tydomio.Cache.{Connection, connected, disconnected, Cache, area_pair}
use tydomio.Cache.Entities.{Key, Entity}
use tydomio.Cache.Valid.{
  Operation, applies, replaces_devices, replaces_areas, merges_devices, merges_areas, connects,
  syncs, disconnects,
}

-- What is known of an endpoint or an area. The order in which its fields came does not count.
pub record Reading (V : Type 0) : Type 0 where
  pub field : Text → Option (Data V)
  pub error : ℤ
  pub invalid : Bool

pub record State (V T : Type 0) : Type 0 where
  pub config : Option Config
  pub usage : Key → Option Text
  pub endpoint : Key → Option (Reading V)
  pub area_usage : ℤ → Option Text
  pub area : ℤ → Option (Reading V)
  pub connection : Connection
  pub synced : Bool
  pub synced_at : Option T

-- `kept now before a`: `a` if both usages are there and equal.
abbrev pub kept {ℓ} : {A : Type ℓ} → Option Text → Option Text → Option A → Option A
kept (some now) (some before) a = if now == before then a else none
kept _ _ a = none

-- Whether the configuration names an id.
abbrev pub if_named {ℓ} : {A : Type ℓ} → Option Text → A → A → A
if_named none a b = b
if_named (some usage) a b = a

module _ {V : Type 0} where
  abbrev pub field_pair : Data V → Text × Data V
  field_pair field = (field.name, field)

  abbrev pub nothing : Reading V
  nothing = record { field = λ name. none; error = pos 0; invalid = false }

  abbrev pub bad : Reading V
  bad = record { field = λ name. none; error = pos 0; invalid = true }

  -- A reading with the last value that an item gives each field that it names.
  abbrev pub updated : Reading V → Endpoint V → Reading V
  updated r item = record {
    field = λ name. Dict.or_else (Dict.last_of name (map field_pair item.fields)) (r.field name);
    error = item.error;
    invalid = false;
  }

  abbrev pub or_nothing : Option (Reading V) → Reading V
  or_nothing none = nothing
  or_nothing (some r) = r

  -- The data of a snapshot or a push, item by item, with the ids they are for.
  abbrev pub of_device : ℤ → List (Endpoint V) → List (Key × Endpoint V)
  of_device device es = map (λ (e : Endpoint V). ((device, e.id), e)) es

  abbrev pub of_devices : DevicesData V → List (Key × Endpoint V)
  of_devices [] = []
  of_devices (item ∷ items) = of_device item.id item.endpoints ++ of_devices items

  abbrev pub of_areas : AreasData V → List (ℤ × Endpoint V)
  of_areas items = map (λ (a : Endpoint V). (a.id, a)) items

  -- A push changes what is known item by item; of a snapshot the last item counts, alone.
  abbrev pub after_items : Option (Reading V) → List (Endpoint V) → Option (Reading V)
  after_items r [] = r
  after_items r (item ∷ items) = after_items (some (updated (or_nothing r) item)) items

  abbrev pub last_item : Option (Reading V) → List (Endpoint V) → Option (Reading V)
  last_item r [] = r
  last_item r (item ∷ items) = last_item (some (updated nothing item)) items

  module _ {ℓ} {K : Type ℓ} ⦃e : Eq K⦄ where
    -- The items for an id.
    abbrev pub data_of : K → List (K × Endpoint V) → List (Endpoint V)
    data_of k [] = []
    data_of k ((j, item) ∷ items) =
        let rest = data_of k items in if k == j then item ∷ rest else rest

    -- A push changes only what is known of the ids that the configuration names.
    abbrev pub pushed :
        (K → Option Text)
        → List (K × Endpoint V)
        → (K → Option (Reading V))
        → K
        → Option (Reading V)
    pushed usage items known k =
        if_named (usage k) (after_items (known k) (data_of k items)) (known k)

    -- A snapshot replaces all that is known: an id that it could not read is invalid.
    abbrev pub replaced :
        (K → Option Text) → List (K × Endpoint V) → List K → K → Option (Reading V)
    replaced usage items invalid k =
        if_named (usage k)
          (if contains invalid k then some bad else last_item none (data_of k items)) none

module _ {V T : Type 0} where
  -- A configuration: what is known of an id whose usage it names as before stays.
  abbrev pub applied : (Key → Option Text) → (ℤ → Option Text) → Config → State V T → State V T
  applied usage area_usage config s = record s {
    config = some config;
    usage = usage;
    endpoint = λ key. kept (usage key) (s.usage key) (s.endpoint key);
    area_usage = area_usage;
    area = λ id. kept (area_usage id) (s.area_usage id) (s.area id);
  }

  abbrev pub after : Operation V T → State V T → State V T
  after (applies config) s =
      applied (λ key. Dict.last_of key (map endpoint_pair config.endpoints))
        (λ id. Dict.last_of id (map area_pair config.areas)) config s
  after (replaces_devices items invalid) s = record s {
    endpoint = replaced s.usage (of_devices items) invalid;
  }
  after (replaces_areas items invalid) s = record s {
    area = replaced s.area_usage (of_areas items) invalid;
  }
  after (merges_devices items) s = record s {
    endpoint = pushed s.usage (of_devices items) s.endpoint;
  }
  after (merges_areas items) s = record s { area = pushed s.area_usage (of_areas items) s.area }
  after connects s = record s { connection = connected }
  after (syncs now) s = record s { synced = true; synced_at = some now }
  after disconnects s = record s { connection = disconnected; synced = false }

  abbrev pub after_all : List (Operation V T) → State V T → State V T
  after_all [] s = s
  after_all (o ∷ os) s = after_all os (after o s)

-- What a cache stands for.
abbrev pub reading : {V : Type 0} → Entity V → Reading V
reading entity = record {
  field = λ name. Dict.lookup name entity.fields;
  error = entity.error;
  invalid = entity.invalid;
}

abbrev pub read : {V : Type 0} → Option (Entity V) → Option (Reading V)
read none = none
read (some entity) = some (reading entity)

abbrev pub view : {V T : Type 0} → Cache V T → State V T
view c = record {
  config = c.config;
  usage = λ key. Dict.lookup key c.endpoint_usages;
  endpoint = λ key. read (Dict.lookup key c.endpoints);
  area_usage = λ id. Dict.lookup id c.area_usages;
  area = λ id. read (Dict.lookup id c.areas);
  connection = c.connection;
  synced = c.synced;
  synced_at = c.synced_at;
}
