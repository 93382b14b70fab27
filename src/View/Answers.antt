-- ===== src/View/Answers.antt =====
-- Which ids the output of `get_state` answers for.
use tydomio.Base.{
  ◌≡◌, refl, ◌∙◌, sym, Bool, true, false, not, ◌&&◌, Option, none, some, List, [], ◌∷◌, ◌++◌, map,
  ◌==◌, nat_eq, list_eq, pair_eq, ==→eq, if◌then◌else◌, contains, arith, Result, ok, err,
  Bool-cases, inl, inr,
}
use mathlib.Core.List.{map-append}
use mathlib.Core.List.{append-nil, append_assoc}
use tydomio.Base.Int.{ℤ, int_eq}
use tydomio.Base.Dict
use tydomio.Base.Dict.{Dict}
use tydomio.Base.Text.{Text, codes}
use tydomio.Error.{Error}
use tydomio.Model.{Config, ConfigEndpoint, Area}
use tydomio.Usages.{UsageModel, usages, area}
use tydomio.Usages.FromData.{Typed, from_data}
use tydomio.Cache.{Cache}
use tydomio.Cache.Entities.{Entity, or_blank}
use tydomio.View.Sanitize.{Secrets}
use tydomio.View.Items.{Value, Platform, Item, FieldInfos, item, with_state, typed_item}
use tydomio.View.{
  Found, endpoint_id, area_id, is_wanted, endpoints_of, areas_of, or_no_ids, missing_ids, add_item,
  add_endpoints, add_areas, endpoint_item, area_item, get_state,
}

-- The ids of a configuration, in its order.
abbrev pub config_ids : Option Config → List Text
config_ids config = map endpoint_id (endpoints_of config) ++ map area_id (areas_of config)

-- Those that are wanted.
abbrev pub wanted_ids : Option (List Text) → List Text → List Text
wanted_ids wanted [] = []
wanted_ids wanted (id ∷ ids) =
    let rest = wanted_ids wanted ids in if is_wanted wanted id then id ∷ rest else rest

wanted_ids-append :
    (wanted : Option (List Text)) (xs ys : List Text)
    → wanted_ids wanted (xs ++ ys) ≡ wanted_ids wanted xs ++ wanted_ids wanted ys
wanted_ids-append wanted [] ys = refl
wanted_ids-append wanted (x ∷ xs) ys = ground (arith, wanted_ids-append wanted xs ys)

contains-missing_ids :
    (known ids : List Text) (id : Text)
    → contains (missing_ids known ids) id ≡ (contains ids id && not (contains known id))
unfolding missing_ids
contains-missing_ids known [] id = refl
contains-missing_ids known (i ∷ ids) id = elim (Bool-cases (id == i)) [
  | inl same ↦ ground (arith, contains-missing_ids known ids id, ==→eq id i same)
  | inr other ↦ ground (arith, contains-missing_ids known ids id)
]

module _ {F : Type 0} (platform : Platform F) (secrets : Secrets) where
  id-with_state :
      (id name kind : Text) (error : ℤ) (model : UsageModel) (infos : FieldInfos)
      (state : Option (Dict Text (Value F) × Dict Text Text))
      → (with_state platform secrets id name kind error model infos state).0.id ≡ id
  id-with_state id name kind error model infos none = refl
  id-with_state id name kind error model infos (some state) = refl

  id-typed_item :
      (id name kind : Text) (error : ℤ) (model : UsageModel) (infos : FieldInfos)
      (typed : Result Error (Typed (Value F) (Value F)))
      → (typed_item platform secrets id name kind error model infos typed).0.id ≡ id
  id-typed_item id name kind error model infos (err e) = refl
  id-typed_item id name kind error model infos (ok typed) =
      id-with_state id name kind error model infos _

  id-item :
      (id name kind : Text) (model : Option UsageModel) (entity : Entity (Value F))
      (infos : FieldInfos)
      → (item platform secrets id name kind model entity infos).0.id ≡ id
  unfolding item
  id-item id name kind none entity infos = refl
  id-item id name kind (some model) entity infos = elim (Bool-cases entity.invalid) [
    | inl invalid ↦ rw invalid refl
    | inr valid ↦ rw valid (
        id-typed_item id name kind entity.error model infos
          (from_data platform.validate model (Dict.values entity.fields)))
  ]

-- What a round of a loop adds to the ids of the items and to the known ids.
abbrev ids_of : {F : Type 0} → Found F → List Text
ids_of found = map (λ i. i.id) found.0

ids-add_item :
    {F : Type 0} (wanted : Bool) (id : Text) (make : FieldInfos → Item F × FieldInfos)
    (found : Found F)
    → ((infos : FieldInfos) → (make infos).0.id ≡ id)
    → (ids_of (add_item wanted id make found)
        ≡ (if wanted then ids_of found ++ (id ∷ []) else ids_of found))
      × ((add_item wanted id make found).1.1 ≡ found.1.1 ++ (id ∷ []))
ids-add_item true id make (items, (infos, known)) h =
    (map-append (λ (i : Item _). i.id) items ((make infos).0 ∷ []) ∙ rw (h infos) refl, refl)
ids-add_item false id make (items, (infos, known)) h = (refl, refl)

-- What the rounds of a loop over some ids add.
abbrev Adds : {F : Type 0} → Option (List Text) → List Text → Found F → Found F → Type 0
Adds wanted ids found after =
    (ids_of after ≡ ids_of found ++ wanted_ids wanted ids) × (after.1.1 ≡ found.1.1 ++ ids)

Adds-cons :
    {F : Type 0} (wanted : Option (List Text)) (id : Text) (ids : List Text)
    (make : FieldInfos → Item F × FieldInfos) (found after : Found F)
    → ((infos : FieldInfos) → (make infos).0.id ≡ id)
    → Adds wanted ids (add_item (is_wanted wanted id) id make found) after
    → Adds wanted (id ∷ ids) found after
Adds-cons wanted id ids make found after h (more, known) =
    let (one, next) = ids-add_item (is_wanted wanted id) id make found h in
    (
      elim (Bool-cases (is_wanted wanted id)) [
        | inl yes_wanted ↦
            ground (arith, append_assoc (ids_of found) (id ∷ []) (wanted_ids wanted ids))
        | inr not_wanted ↦ ground arith
      ],
      known ∙ rw next (append_assoc found.1.1 (id ∷ []) ids),
    )

module _ {F T : Type 0} (platform : Platform F) (utc_text : T → Text) (secrets : Secrets)
    (cache : Cache (Value F) T) where
  add_endpoints-Adds :
      (wanted : Option (List Text)) (es : List ConfigEndpoint) (found : Found F)
      → Adds wanted
          (map endpoint_id es)
          found
          (add_endpoints platform utc_text secrets cache wanted es found)
  unfolding add_endpoints
  add_endpoints-Adds wanted [] found = (sym (append-nil _), sym (append-nil _))
  add_endpoints-Adds wanted (e ∷ es) found =
      Adds-cons wanted (endpoint_id e) (map endpoint_id es)
        (endpoint_item platform utc_text secrets cache e) found
        (add_endpoints platform utc_text secrets cache wanted (e ∷ es) found)
        (λ infos.
          id-item platform secrets (endpoint_id e) e.name e.last_usage (usages e.last_usage)
            (or_blank (Dict.lookup (e.id_device, e.id_endpoint) cache.endpoints)) infos)
        (add_endpoints-Adds wanted es (
          add_item (is_wanted wanted (endpoint_id e)) (endpoint_id e)
            (endpoint_item platform utc_text secrets cache e) found))

  add_areas-Adds :
      (wanted : Option (List Text)) (areas : List Area) (found : Found F)
      → Adds wanted
          (map area_id areas)
          found
          (add_areas platform utc_text secrets cache wanted areas found)
  unfolding add_areas
  add_areas-Adds wanted [] found = (sym (append-nil _), sym (append-nil _))
  add_areas-Adds wanted (a ∷ areas) found =
      Adds-cons wanted (area_id a) (map area_id areas) (area_item platform utc_text secrets cache a)
        found (add_areas platform utc_text secrets cache wanted (a ∷ areas) found)
        (λ infos.
          id-item platform secrets (area_id a) a.name (codes "area") (some area)
            (or_blank (Dict.lookup a.id cache.areas)) infos)
        (add_areas-Adds wanted areas (
          add_item (is_wanted wanted (area_id a)) (area_id a)
            (area_item platform utc_text secrets cache a) found))

  -- The items of the output are those of the configuration that are asked for, in its order, endpoints
  -- first; an id is reported as unknown exactly if it is asked for and the configuration lacks it.
  pub get_state_lem :
      (ids : Option (List Text)) (with_groups : Bool) (id : Text)
      → (map
            (λ (i : Item F). i.id)
            (get_state platform utc_text secrets cache ids with_groups).items
          ≡ wanted_ids ids (config_ids cache.config))
        × (contains (get_state platform utc_text secrets cache ids with_groups).unknown_ids id
            ≡ (contains (or_no_ids ids) id && not (contains (config_ids cache.config) id)))
  unfolding get_state
  get_state_lem ids with_groups id =
      let es = endpoints_of cache.config in
      let areas = areas_of cache.config in
      let found = add_endpoints platform utc_text secrets cache ids es ([], ([], [])) in
      let (items₁, known₁) = add_endpoints-Adds ids es ([], ([], [])) in
      let (items₂, known₂) = add_areas-Adds ids areas found in
      (
        items₂ ∙ rw items₁ (sym (wanted_ids-append ids (map endpoint_id es) (map area_id areas))),
        contains-missing_ids _ (or_no_ids ids) id ∙ rw known₂ (rw known₁ refl),
      )
