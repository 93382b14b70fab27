-- ===== src/Capture/Catalog/Extract.antt =====
-- tydomio/capture/catalog.py: the catalog of the documents of a capture, whose shapes pydantic checks.
use tydomio.Base.{Option, none, some, List, [], ◌∷◌, ◌++◌, map, Eq, nat_eq, list_eq, pair_eq}
use tydomio.Base.Int.{ℤ, int_eq}
use tydomio.Base.Dict
use tydomio.Base.Dict.{Dict}
use tydomio.Base.Text.{Text, codes}
use tydomio.Capture.Catalog.{
  Descriptor, Command, Catalog, Conflict, sorted_enum, sorted_command, merge_entries,
}

-- `_ConfigEndpoint`, `_MetaEndpoint` and `_Device`
pub record CatalogEndpoint : Type 0 where
  pub id_device : ℤ
  pub id_endpoint : ℤ
  pub last_usage : Text

pub record MetaEndpoint (N : Type 0) : Type 0 where
  pub id : ℤ
  pub metadata : List (Descriptor N)
  pub cmetadata : List (Command N)

pub record MetaDevice (N : Type 0) : Type 0 where
  pub id : ℤ
  pub endpoints : List (MetaEndpoint N)

-- What pydantic makes of the documents, each `none` where it is missing or of another shape.
pub record Documents (N : Type 0) : Type 0 where
  pub config : Option (List CatalogEndpoint)
  pub devices_meta : Option (List (MetaDevice N))
  pub devices_cmeta : Option (List (MetaDevice N))
  pub areas_meta : Option (List (MetaEndpoint N))
  pub areas_cmeta : Option (List (MetaEndpoint N))

-- `AREA`
abbrev pub area_usage : Text
area_usage = codes "@area"

abbrev pub config_pair : CatalogEndpoint → (ℤ × ℤ) × Text
config_pair e = ((e.id_device, e.id_endpoint), e.last_usage)

module _ {N : Type 0} where
  -- `_entry`
  unfoldable pub entry : Text → MetaEndpoint N → Catalog N
  unfolding sorted_enum sorted_command
  entry name endpoint =
      (
        name,
        record {
          fields = map sorted_enum endpoint.metadata;
          commands = map sorted_command endpoint.cmetadata;
        },
      )
      ∷ []

  abbrev pub if_used : Option Text → MetaEndpoint N → List (Catalog N) → List (Catalog N)
  if_used none endpoint rest = rest
  if_used (some usage) endpoint rest = entry usage endpoint ∷ rest

  -- The loops of `_entries`.
  unfoldable pub endpoint_entries :
      Dict (ℤ × ℤ) Text → ℤ → List (MetaEndpoint N) → List (Catalog N) → List (Catalog N)
  unfolding entry Dict.lookup
  endpoint_entries usages device [] rest = rest
  endpoint_entries usages device (e ∷ es) rest =
      if_used (Dict.lookup (device, e.id) usages) e (endpoint_entries usages device es rest)

  unfoldable pub device_entries :
      Dict (ℤ × ℤ) Text → List (MetaDevice N) → List (Catalog N) → List (Catalog N)
  unfolding endpoint_entries
  device_entries usages [] rest = rest
  device_entries usages (d ∷ ds) rest =
      endpoint_entries usages d.id d.endpoints (device_entries usages ds rest)

  abbrev pub all_entries :
      Option (List CatalogEndpoint)
      → Option (List (MetaDevice N))
      → Option (List (MetaDevice N))
      → Option (List (MetaEndpoint N))
      → Option (List (MetaEndpoint N))
      → Option (List (Catalog N))
  all_entries (some config) (some dm) (some dc) (some am) (some ac) = some (
      device_entries (Dict.insert_all (map config_pair config) []) (dm ++ dc)
        (map (entry area_usage) (am ++ ac)))
  all_entries _ _ _ _ _ = none

  -- `_entries`; `none` is `InvalidInput`.
  unfoldable pub entries_of : Documents N → Option (List (Catalog N))
  unfolding device_entries
  entries_of documents =
      all_entries documents.config documents.devices_meta documents.devices_cmeta
        documents.areas_meta documents.areas_cmeta

module _ {N : Type 0} ⦃e : Eq N⦄ where
  -- `extract`
  unfoldable pub extract : Documents N → Option (Catalog N × List (Conflict N))
  unfolding entries_of merge_entries
  extract documents = elim (entries_of documents) [
    | none ↦ none
    | some found ↦ some (merge_entries found [] [])
  ]
