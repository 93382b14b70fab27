-- ===== src/Capture/Catalog/Tests.antt =====
-- A usage known from one capture, merged with what another found.
use tydomio.Base.{ℕ, ◌≡◌, refl, none, some, List, [], ◌∷◌, All, nat_eq, list_eq}
use tydomio.Base.Dict
use tydomio.Base.Text.{Text, codes}
use tydomio.Capture.Catalog.{Descriptor, Usage, merge_usage}
use tydomio.Capture.Catalog.Extract.{Documents, extract}
use tydomio.Capture.Catalog.Fields.{field_named, Keeps, HasValues}
use tydomio.Capture.Catalog.Merged.{field_named-merge_usage, merge_usage-HasValues}

abbrev mode : List Text → Descriptor ℕ
mode values = record {
  name = codes "mode";
  type = codes "string";
  permission = none;
  validity = none;
  unit = none;
  minimum = none;
  maximum = none;
  step = none;
  size = none;
  enum_values = some values;
}

abbrev known : Usage ℕ
known = record { fields = mode (codes "ON" ∷ []) ∷ []; commands = [] }

abbrev found : Usage ℕ
found = record { fields = mode (codes "OFF" ∷ []) ∷ []; commands = [] }

unites_values :
    (merge_usage (codes "boiler") known found []).0.fields
    ≡ mode (codes "OFF" ∷ codes "ON" ∷ []) ∷ []
unfolding merge_usage nat_eq tydomio.Capture.Catalog.Order.sorted_values Dict.insert Dict.insert_all
    list_eq
unites_values = refl

abbrev without_config : Documents ℕ
without_config = record {
  config = none;
  devices_meta = some [];
  devices_cmeta = some [];
  areas_meta = some [];
  areas_cmeta = some [];
}

missing_document : extract without_config ≡ none
unfolding extract
missing_document = refl

knows_mode : field_named (codes "mode") known.fields ≡ some (mode (codes "ON" ∷ []))
unfolding Dict.last_of list_eq nat_eq
knows_mode = refl

field_named-merge_usage_example :
    (g : Descriptor ℕ) × (field_named
        (codes "mode")
        (merge_usage (codes "boiler") known found []).0.fields
      ≡ some g)
    × Keeps (mode (codes "ON" ∷ [])) g
field_named-merge_usage_example =
    field_named-merge_usage (codes "boiler") known found [] (codes "mode") (mode (codes "ON" ∷ []))
      knows_mode

abbrev nothing_known : Usage ℕ
nothing_known = record { fields = []; commands = [] }

merge_usage-HasValues_example :
    All
      (λ (x : Descriptor ℕ).
        (g : Descriptor ℕ) × (field_named x.name
            (merge_usage (codes "boiler") nothing_known found []).0.fields
          ≡ some g)
        × HasValues x g)
      found.fields
merge_usage-HasValues_example = merge_usage-HasValues (codes "boiler") nothing_known found []
