-- ===== src/Cache/Valid.antt =====
-- The invariant of the cache, and that every operation keeps it.
use tydomio.Base.{
  ◌≡◌, refl, false, Option, none, some, List, [], ◌∷◌, Eq, nat_eq, list_eq, pair_eq, option_eq,
  if◌then◌else◌, arith,
}
use tydomio.Base.Int.{ℤ, int_eq}
use tydomio.Base.Dict
use tydomio.Base.Dict.{Dict}
use tydomio.Base.Text.{Text}
use tydomio.Model.{Config, Endpoint, DevicesData, AreasData}
use tydomio.Installation.{from_config}
use tydomio.Cache.{
  Cache, usages_of, new_cache, apply_config, same_usage, replace_devices, replace_areas,
  merge_devices, merge_areas, mark_connected, mark_synced, mark_disconnected,
}
use tydomio.Cache.Entities.{
  Entity, Key, merge, blank, or_blank, take_endpoints, take_devices, take_areas, push_endpoints,
  push_devices, push_areas, mark_invalid, unreadable,
}

-- Every key of a dict is a key of the configuration.
abbrev pub Within {ℓ κ} :
    {K : Type ℓ} {A : Type κ} ⦃e : Eq K⦄ → Dict K Text → Dict K A → Type (ℓ ⊔ κ)
Within {K} usages d = (k : K) → Dict.member k usages ≡ false → Dict.lookup k d ≡ none

-- What holds of the cache between two operations.
pub record IsValid {V T : Type 0} (c : Cache V T) : Type 0 where
  pub known_endpoints : Within c.endpoint_usages c.endpoints
  pub known_areas : Within c.area_usages c.areas
  pub described :
      (config : Config)
      → c.config ≡ some config
      → (c.installation ≡ some (from_config config))
        × (c.endpoint_usages ≡ (usages_of config).0)
        × (c.area_usages ≡ (usages_of config).1)
  pub undescribed : c.config ≡ none → c.installation ≡ none

module _ {ℓ} {K : Type ℓ} {A : Type 0} ⦃e : Eq K⦄ where
  insert-Within :
      (usages : Dict K Text) (d : Dict K A) (k : K) (v : A)
      → Within usages d
      → Within usages (if Dict.member k usages then Dict.insert k v d else d)
  insert-Within usages d k v h j out = ground (arith, h j out, Dict.lookup-insert j k v d)

module _ {V : Type 0} where
  take_endpoints-Within :
      (usages : Dict Key Text) (device : ℤ) (es : List (Endpoint V)) (d : Dict Key (Entity V))
      → Within usages d
      → Within usages (take_endpoints usages device es d)
  unfolding take_endpoints
  take_endpoints-Within usages device [] d h = h
  take_endpoints-Within usages device (e ∷ es) d h =
      take_endpoints-Within usages device es _
        (insert-Within usages d (device, e.id) (merge blank e) h)

  take_devices-Within :
      (usages : Dict Key Text) (items : DevicesData V) (d : Dict Key (Entity V))
      → Within usages d
      → Within usages (take_devices usages items d)
  unfolding take_devices
  take_devices-Within usages [] d h = h
  take_devices-Within usages (item ∷ items) d h =
      take_devices-Within usages items _ (take_endpoints-Within usages item.id item.endpoints d h)

  take_areas-Within :
      (usages : Dict ℤ Text) (items : AreasData V) (d : Dict ℤ (Entity V))
      → Within usages d
      → Within usages (take_areas usages items d)
  unfolding take_areas
  take_areas-Within usages [] d h = h
  take_areas-Within usages (e ∷ es) d h =
      take_areas-Within usages es _ (insert-Within usages d e.id (merge blank e) h)

  push_endpoints-Within :
      (usages : Dict Key Text) (device : ℤ) (es : List (Endpoint V)) (d : Dict Key (Entity V))
      → Within usages d
      → Within usages (push_endpoints usages device es d)
  unfolding push_endpoints
  push_endpoints-Within usages device [] d h = h
  push_endpoints-Within usages device (e ∷ es) d h =
      push_endpoints-Within usages device es _ (
        insert-Within usages d (device, e.id) (merge (or_blank (Dict.lookup (device, e.id) d)) e) h)

  push_devices-Within :
      (usages : Dict Key Text) (items : DevicesData V) (d : Dict Key (Entity V))
      → Within usages d
      → Within usages (push_devices usages items d)
  unfolding push_devices
  push_devices-Within usages [] d h = h
  push_devices-Within usages (item ∷ items) d h =
      push_devices-Within usages items _ (push_endpoints-Within usages item.id item.endpoints d h)

  push_areas-Within :
      (usages : Dict ℤ Text) (items : AreasData V) (d : Dict ℤ (Entity V))
      → Within usages d
      → Within usages (push_areas usages items d)
  unfolding push_areas
  push_areas-Within usages [] d h = h
  push_areas-Within usages (e ∷ es) d h =
      push_areas-Within usages es _
        (insert-Within usages d e.id (merge (or_blank (Dict.lookup e.id d)) e) h)

  mark_invalid-Within {ℓ} :
      {K : Type ℓ} ⦃e : Eq K⦄ (usages : Dict K Text) (keys : List K) (d : Dict K (Entity V))
      → Within usages d
      → Within usages (mark_invalid (λ k. Dict.member k usages) keys d)
  unfolding mark_invalid
  mark_invalid-Within usages [] d h = h
  mark_invalid-Within usages (k ∷ keys) d h =
      mark_invalid-Within usages keys _ (insert-Within usages d k unreadable h)

  Within-nil {ℓ} : {K : Type ℓ} ⦃e : Eq K⦄ (usages : Dict K Text) → Within {A = Entity V} usages []
  Within-nil usages k out = Dict.lookup-nil k

  Within-keep {ℓ} :
      {K : Type ℓ} ⦃e : Eq K⦄ (usages : Dict K Text) (now before : K → Option Text)
      (d : Dict K (Entity V))
      → Within usages (Dict.keep (same_usage now before (λ k. Dict.member k usages)) d)
  Within-keep usages now before d k out =
      ground (arith, Dict.lookup-keep (same_usage now before (λ j. Dict.member j usages)) k d)

-- The calls that change a cache.
pub data Operation (V T : Type 0) : Type 0 where
  applies : Config → Operation V T
  replaces_devices : DevicesData V → List Key → Operation V T
  replaces_areas : AreasData V → List ℤ → Operation V T
  merges_devices : DevicesData V → Operation V T
  merges_areas : AreasData V → Operation V T
  connects : Operation V T
  syncs : T → Operation V T
  disconnects : Operation V T

module _ {V T : Type 0} where
  abbrev pub perform : Operation V T → Cache V T → Cache V T
  perform (applies config) c = apply_config config c
  perform (replaces_devices items invalid) c = replace_devices items invalid c
  perform (replaces_areas items invalid) c = replace_areas items invalid c
  perform (merges_devices items) c = merge_devices items c
  perform (merges_areas items) c = merge_areas items c
  perform connects c = mark_connected c
  perform (syncs now) c = mark_synced now c
  perform disconnects c = mark_disconnected c

  abbrev pub perform_all : List (Operation V T) → Cache V T → Cache V T
  perform_all [] c = c
  perform_all (o ∷ os) c = perform_all os (perform o c)

  pub perform-IsValid : (o : Operation V T) (c : Cache V T) → IsValid c → IsValid (perform o c)
  unfolding apply_config replace_devices replace_areas merge_devices merge_areas mark_connected
      mark_synced mark_disconnected
  perform-IsValid (applies config) c v = record {
    known_endpoints = Within-keep _ _ _ c.endpoints;
    known_areas = Within-keep _ _ _ c.areas;
    described = λ other same. ground arith;
    undescribed = λ missing. cc;
  }
  perform-IsValid (replaces_devices items invalid) c v = record {
    known_endpoints =
        mark_invalid-Within c.endpoint_usages invalid _
          (take_devices-Within c.endpoint_usages items [] (Within-nil c.endpoint_usages));
    known_areas = v.known_areas;
    described = v.described;
    undescribed = v.undescribed;
  }
  perform-IsValid (replaces_areas items invalid) c v = record {
    known_endpoints = v.known_endpoints;
    known_areas =
        mark_invalid-Within c.area_usages invalid _
          (take_areas-Within c.area_usages items [] (Within-nil c.area_usages));
    described = v.described;
    undescribed = v.undescribed;
  }
  perform-IsValid (merges_devices items) c v = record {
    known_endpoints = push_devices-Within c.endpoint_usages items c.endpoints v.known_endpoints;
    known_areas = v.known_areas;
    described = v.described;
    undescribed = v.undescribed;
  }
  perform-IsValid (merges_areas items) c v = record {
    known_endpoints = v.known_endpoints;
    known_areas = push_areas-Within c.area_usages items c.areas v.known_areas;
    described = v.described;
    undescribed = v.undescribed;
  }
  perform-IsValid connects c v = record {
    known_endpoints = v.known_endpoints;
    known_areas = v.known_areas;
    described = v.described;
    undescribed = v.undescribed;
  }
  perform-IsValid (syncs now) c v = record {
    known_endpoints = v.known_endpoints;
    known_areas = v.known_areas;
    described = v.described;
    undescribed = v.undescribed;
  }
  perform-IsValid disconnects c v = record {
    known_endpoints = v.known_endpoints;
    known_areas = v.known_areas;
    described = v.described;
    undescribed = v.undescribed;
  }

  perform_all-IsValid_of :
      (os : List (Operation V T)) (c : Cache V T) → IsValid c → IsValid (perform_all os c)
  perform_all-IsValid_of [] c v = v
  perform_all-IsValid_of (o ∷ os) c v =
      perform_all-IsValid_of os (perform o c) (perform-IsValid o c v)

  -- Whatever snapshots, pushes and changes of connection arrive, in whatever order, a cache holds no
  -- endpoint or area that its configuration lacks, and its installation and its usages are those of
  -- the configuration that it shows.
  pub perform_all-IsValid :
      (os : List (Operation V T)) → IsValid (perform_all os (new_cache {V = V} {T = T}))
  perform_all-IsValid os = perform_all-IsValid_of os new_cache (record {
    known_endpoints = λ k out. Dict.lookup-nil k;
    known_areas = λ k out. Dict.lookup-nil k;
    described = λ config same. cc;
    undescribed = λ missing. refl;
  })
