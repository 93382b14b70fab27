-- ===== src/Cache/Merge.antt =====
-- What a push does to the cached fields: the last value pushed for a field wins, the other fields stay.
use tydomio.Base.{
  ◌≡◌, refl, ◌∙◌, ◌≢◌, Bool, true, false, Option, none, some, List, [], ◌∷◌, ◌++◌, map, ◌==◌,
  nat_eq, list_eq, pair_eq, option_eq, if◌then◌else◌, arith, ◌↔◌, ◌&&◌, Bool-cases, inl, inr,
}
use tydomio.Base.Int.{ℤ, int_eq}
use tydomio.Base.Dict
use tydomio.Base.Dict.{Dict}
use tydomio.Base.Text.{Text}
use tydomio.Model.{Data, Endpoint, DevicesData}
use tydomio.Installation.{endpoint_pair}
use tydomio.Cache.{Cache, merge_devices, apply_config, usages_of, area_pair}
use tydomio.Model.{Config}
use tydomio.Cache.Abstract.{kept, field_pair}
use tydomio.Cache.Entities.{
  Entity, Key, merge, merge_fields, or_blank, push_endpoints, push_devices,
}

or_else-none : (o : Option Text) → Dict.or_else o none ≡ o
or_else-none none = refl
or_else-none (some u) = refl

pub usages_of-last :
    (config : Config) (key : Key)
    → Dict.lookup key (usages_of config).0 ≡ Dict.last_of key (map endpoint_pair config.endpoints)
unfolding usages_of
usages_of-last config key =
    Dict.lookup-insert_all key (map endpoint_pair config.endpoints) []
    ∙ rw Dict.lookup-nil (or_else-none (Dict.last_of key (map endpoint_pair config.endpoints)))

pub usages_of-last_area :
    (config : Config) (id : ℤ)
    → Dict.lookup id (usages_of config).1 ≡ Dict.last_of id (map area_pair config.areas)
unfolding usages_of
usages_of-last_area config id =
    Dict.lookup-insert_all id (map area_pair config.areas) []
    ∙ rw Dict.lookup-nil (or_else-none (Dict.last_of id (map area_pair config.areas)))

module _ {V : Type 0} where
  merge_fields-insert_all :
      (l : List (Data V)) (d : Dict Text (Data V))
      → merge_fields l d ≡ Dict.insert_all (map field_pair l) d
  unfolding merge_fields Dict.insert_all
  merge_fields-insert_all [] d = refl
  merge_fields-insert_all (field ∷ l) d = merge_fields-insert_all l (Dict.insert field.name field d)

  -- After a merge a field has the last value that the item gives it, and its cached value if the item
  -- does not name it; the error is the item's and the entity is readable.
  pub merge_lem :
      (entity : Entity V) (item : Endpoint V) (name : Text)
      → (Dict.lookup name (merge entity item).fields
          ≡ Dict.or_else
              (Dict.last_of name (map field_pair item.fields))
              (Dict.lookup name entity.fields))
        × ((merge entity item).error ≡ item.error)
        × ((merge entity item).invalid ≡ false)
  unfolding merge
  merge_lem entity item name = (
    rw merge_fields-insert_all
        (Dict.lookup-insert_all name (map field_pair item.fields) entity.fields),
    refl,
    refl,
  )

  -- The endpoints that a push gives a key, in their order.
  abbrev pub of_key : Key → ℤ → List (Endpoint V) → List (Endpoint V)
  of_key key device [] = []
  of_key key device (e ∷ es) =
      let rest = of_key key device es in if key == (device, e.id) then e ∷ rest else rest

  abbrev pub pushed : Key → DevicesData V → List (Endpoint V)
  pushed key [] = []
  pushed key (item ∷ items) = of_key key item.id item.endpoints ++ pushed key items

  -- What these endpoints, merged one after the other, make of what is cached for the key.
  abbrev pub absorb : Option (Entity V) → List (Endpoint V) → Option (Entity V)
  absorb o [] = o
  absorb o (e ∷ es) = absorb (some (merge (or_blank o) e)) es

  absorb-append :
      (o : Option (Entity V)) (xs ys : List (Endpoint V))
      → absorb o (xs ++ ys) ≡ absorb (absorb o xs) ys
  absorb-append o [] ys = refl
  absorb-append o (x ∷ xs) ys = absorb-append (some (merge (or_blank o) x)) xs ys

  abbrev after_push :
      Dict Key Text → Key → Option (Entity V) → List (Endpoint V) → Option (Entity V)
  after_push usages key o es = if Dict.member key usages then absorb o es else o

  lookup-push_endpoints :
      (usages : Dict Key Text) (key : Key) (device : ℤ) (es : List (Endpoint V))
      (d : Dict Key (Entity V))
      → Dict.lookup key (push_endpoints usages device es d)
        ≡ after_push usages key (Dict.lookup key d) (of_key key device es)
  unfolding push_endpoints
  lookup-push_endpoints usages key device [] d = ground arith
  lookup-push_endpoints usages key device (e ∷ es) d =
      lookup-push_endpoints usages key device es _
      ∙ ground (
        arith,
        Dict.lookup-insert key (device, e.id) (merge (or_blank (Dict.lookup (device, e.id) d)) e) d,
      )

  lookup-push_devices :
      (usages : Dict Key Text) (key : Key) (items : DevicesData V) (d : Dict Key (Entity V))
      → Dict.lookup key (push_devices usages items d)
        ≡ after_push usages key (Dict.lookup key d) (pushed key items)
  unfolding push_devices
  lookup-push_devices usages key [] d = ground arith
  lookup-push_devices usages key (item ∷ items) d =
      lookup-push_devices usages key items (push_endpoints usages item.id item.endpoints d)
      ∙ ground (
        arith,
        lookup-push_endpoints usages key item.id item.endpoints d,
        absorb-append (Dict.lookup key d) (of_key key item.id item.endpoints) (pushed key items),
      )

  -- A push of devices changes an endpoint exactly by the data that it gives that endpoint, merged in
  -- the order in which they stand in the push, however they are spread over its devices. It adds no
  -- endpoint that the configuration lacks, and leaves every other endpoint as it is.
  pub lookup-merge_devices :
      {T : Type 0} (items : DevicesData V) (c : Cache V T) (key : Key)
      → Dict.lookup key (merge_devices items c).endpoints ≡ (
          if Dict.member key c.endpoint_usages
          then absorb (Dict.lookup key c.endpoints) (pushed key items)
          else Dict.lookup key c.endpoints)
  unfolding merge_devices
  lookup-merge_devices items c key = lookup-push_devices c.endpoint_usages key items c.endpoints

  pub keeps-kept :
      (now before : Option Text) (known : Bool) (e : Option (Entity V))
      → (known ≡ true) ↔ (now ≢ none)
      → (if now == before && known then e else none) ≡ kept now before e
  unfolding option_eq
  keeps-kept none none known e h = elim (Bool-cases known) [
    | inl yes_known ↦ absurd (h.0 yes_known refl)
    | inr out ↦ rw out
  ]
  keeps-kept none (some w) known e h = refl
  keeps-kept (some u) none known e h = refl
  keeps-kept (some u) (some w) known e h = rw (h.1 (λ p. cc)) (ground arith)

  -- A new configuration keeps the cached fields of an endpoint whose usage it names as before (the last
  -- entry of the configuration with these ids counts), and drops all others: those it does not name,
  -- those that had no usage, and those whose usage has changed.
  pub lookup-apply_config :
      {T : Type 0} (config : Config) (c : Cache V T) (key : Key)
      → Dict.lookup key (apply_config config c).endpoints
        ≡ kept
            (Dict.last_of key (map endpoint_pair config.endpoints))
            (Dict.lookup key c.endpoint_usages)
            (Dict.lookup key c.endpoints)
  unfolding apply_config
  lookup-apply_config config c key =
      Dict.lookup-keep _ key c.endpoints
      ∙ keeps-kept (Dict.lookup key (usages_of config).0) (Dict.lookup key c.endpoint_usages)
          (Dict.member key (usages_of config).0) (Dict.lookup key c.endpoints)
          (Dict.member-lookup key (usages_of config).0)
      ∙ rw usages_of-last
