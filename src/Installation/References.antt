-- ===== src/Installation/References.antt =====
-- Which references the installation of a configuration gives out.
use tydomio.Base.{
  ◌≡◌, refl, ◌↔◌, Option, none, some, [], map, nat_eq, list_eq, pair_eq, option_eq, arith, ok,
  Option-cases, inl, inr, ◌∙◌,
}
use tydomio.Base.Int.{ℤ, int_eq}
use tydomio.Base.Dict
use tydomio.Base.Text.{Text}
use tydomio.Model.{Config}
use tydomio.Usages.{UsageModel, usages, model_eq}
use tydomio.Installation.{
  Installation, EndpointRef, GroupRef, endpoint_pair, group_pair, from_config, endpoint, group,
}

or_else-none {ℓ} : {V : Type ℓ} (o : Option V) → Dict.or_else o none ≡ o
or_else-none none = refl
or_else-none (some v) = refl

endpoints-from_config :
    (config : Config) (key : ℤ × ℤ)
    → Dict.lookup key (from_config config).endpoints
      ≡ Dict.last_of key (map endpoint_pair config.endpoints)
unfolding from_config
endpoints-from_config config key =
    Dict.lookup-insert_all key (map endpoint_pair config.endpoints) []
    ∙ rw Dict.lookup-nil (or_else-none _)

groups-from_config :
    (config : Config) (key : ℤ)
    → Dict.lookup key (from_config config).groups ≡ Dict.last_of key (map group_pair config.groups)
unfolding from_config
groups-from_config config key =
    Dict.lookup-insert_all key (map group_pair config.groups) []
    ∙ rw Dict.lookup-nil (or_else-none _)

endpoint-eq_ok :
    (i : Installation) (d e : ℤ) (u : UsageModel) (ref : EndpointRef)
    → (endpoint i d e u ≡ ok ref) ↔ (
        (name : Text) × (Dict.lookup (d, e) i.endpoints ≡ some name)
        × (usages name ≡ some u)
        × (ref ≡ record { device_id = d; endpoint_id = e; usage = u }))
unfolding endpoint
endpoint-eq_ok i d e u ref = (
  λ h. elim (Option-cases (Dict.lookup (d, e) i.endpoints)) [
    | inl missing ↦ absurd (ground arith)
    | inr (name, known) ↦ (name, known, ground arith, ground arith)
  ],
  λ (name, known, model, same). ground arith,
)

group-eq_ok :
    (i : Installation) (g : ℤ) (u : UsageModel) (ref : GroupRef)
    → (group i g u ≡ ok ref) ↔ (
        (name : Text) × (Dict.lookup g i.groups ≡ some name)
        × (usages name ≡ some u)
        × (ref ≡ record { group_id = g; usage = u }))
unfolding group
group-eq_ok i g u ref = (
  λ h. elim (Option-cases (Dict.lookup g i.groups)) [
    | inl missing ↦ absurd (ground arith)
    | inr (name, known) ↦ (name, known, ground arith, ground arith)
  ],
  λ (name, known, model, same). ground arith,
)

-- A reference to an endpoint is given exactly when the last entry of the configuration with these ids
-- has a usage name of this model, and it holds these ids and this model.
pub endpoint-from_config :
    (config : Config) (d e : ℤ) (u : UsageModel) (ref : EndpointRef)
    → (endpoint (from_config config) d e u ≡ ok ref) ↔ (
        (name : Text) × (Dict.last_of (d, e) (map endpoint_pair config.endpoints) ≡ some name)
        × (usages name ≡ some u)
        × (ref ≡ record { device_id = d; endpoint_id = e; usage = u }))
endpoint-from_config config d e u ref =
    rw (← endpoints-from_config config (d, e)) (endpoint-eq_ok (from_config config) d e u ref)

-- A reference to a group is given exactly when the last group of the configuration with this id has a
-- usage name of this model, and it holds this id and this model.
pub group-from_config :
    (config : Config) (g : ℤ) (u : UsageModel) (ref : GroupRef)
    → (group (from_config config) g u ≡ ok ref) ↔ (
        (name : Text) × (Dict.last_of g (map group_pair config.groups) ≡ some name)
        × (usages name ≡ some u)
        × (ref ≡ record { group_id = g; usage = u }))
group-from_config config g u ref =
    rw (← groups-from_config config g) (group-eq_ok (from_config config) g u ref)
