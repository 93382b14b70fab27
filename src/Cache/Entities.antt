-- ===== src/Cache/Entities.antt =====
-- tydomio/mcp_server/cache.py: the cached fields of one endpoint or area, and the loops over the data
-- of a snapshot or a push.
use tydomio.Base.{
  Bool, true, false, Option, none, some, List, [], ◌∷◌, Eq, nat_eq, list_eq, pair_eq, if◌then◌else◌,
}
use tydomio.Base.Int.{ℤ, pos, int_eq}
use tydomio.Base.Dict
use tydomio.Base.Dict.{Dict}
use tydomio.Base.Text.{Text}
use tydomio.Model.{Data, Endpoint, DevicesData, AreasData}

pub record Entity (V : Type 0) : Type 0 where
  pub fields : Dict Text (Data V)
  pub error : ℤ
  pub invalid : Bool

abbrev pub Key : Type 0
Key = ℤ × ℤ

module _ {V : Type 0} where
  -- `Entity({})`
  abbrev pub blank : Entity V
  blank = record { fields = []; error = pos 0; invalid = false }

  -- `Entity({}, invalid=True)`
  abbrev pub unreadable : Entity V
  unreadable = record { fields = []; error = pos 0; invalid = true }

  -- The loop of `_merge` over the fields.
  unfoldable pub merge_fields : List (Data V) → Dict Text (Data V) → Dict Text (Data V)
  merge_fields [] fields = fields
  merge_fields (field ∷ more) fields = merge_fields more (Dict.insert field.name field fields)

  -- `_merge`
  unfoldable pub merge : Entity V → Endpoint V → Entity V
  unfolding merge_fields
  merge entity item = record {
    fields = merge_fields item.fields entity.fields;
    error = item.error;
    invalid = false;
  }

  -- The loop over the endpoints of one device of a snapshot.
  unfoldable pub take_endpoints :
      Dict Key Text → ℤ → List (Endpoint V) → Dict Key (Entity V) → Dict Key (Entity V)
  unfolding merge
  take_endpoints usages device [] d = d
  take_endpoints usages device (e ∷ es) d = take_endpoints usages device es (
      if Dict.member (device, e.id) usages then Dict.insert (device, e.id) (merge blank e) d else d)

  unfoldable pub take_devices :
      Dict Key Text → DevicesData V → Dict Key (Entity V) → Dict Key (Entity V)
  unfolding take_endpoints
  take_devices usages [] d = d
  take_devices usages (item ∷ items) d =
      take_devices usages items (take_endpoints usages item.id item.endpoints d)

  unfoldable pub take_areas : Dict ℤ Text → AreasData V → Dict ℤ (Entity V) → Dict ℤ (Entity V)
  unfolding merge
  take_areas usages [] d = d
  take_areas usages (item ∷ items) d =
      take_areas usages items
        (if Dict.member item.id usages then Dict.insert item.id (merge blank item) d else d)

  abbrev pub or_blank : Option (Entity V) → Entity V
  or_blank none = blank
  or_blank (some e) = e

  -- The loop over the endpoints of one device of a push: `setdefault`, then `_merge` in place.
  unfoldable pub push_endpoints :
      Dict Key Text → ℤ → List (Endpoint V) → Dict Key (Entity V) → Dict Key (Entity V)
  unfolding merge
  push_endpoints usages device [] d = d
  push_endpoints usages device (e ∷ es) d = push_endpoints usages device es (
      if Dict.member (device, e.id) usages
      then Dict.insert (device, e.id) (merge (or_blank (Dict.lookup (device, e.id) d)) e) d
      else d)

  unfoldable pub push_devices :
      Dict Key Text → DevicesData V → Dict Key (Entity V) → Dict Key (Entity V)
  unfolding push_endpoints
  push_devices usages [] d = d
  push_devices usages (item ∷ items) d =
      push_devices usages items (push_endpoints usages item.id item.endpoints d)

  unfoldable pub push_areas : Dict ℤ Text → AreasData V → Dict ℤ (Entity V) → Dict ℤ (Entity V)
  unfolding merge
  push_areas usages [] d = d
  push_areas usages (item ∷ items) d = push_areas usages items (
      if Dict.member item.id usages
      then Dict.insert item.id (merge (or_blank (Dict.lookup item.id d)) item) d
      else d)

  -- The loop over the ids that a snapshot could not read.
  unfoldable pub mark_invalid {κ} :
      {K : Type κ} ⦃e : Eq K⦄ → (K → Bool) → List K → Dict K (Entity V) → Dict K (Entity V)
  mark_invalid known [] d = d
  mark_invalid known (key ∷ keys) d =
      mark_invalid known keys (if known key then Dict.insert key unreadable d else d)
