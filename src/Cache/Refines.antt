-- ===== src/Cache/Refines.antt =====
-- The cache does what its abstract description says.
use mathlib.Core.Path.{fun_ext, ap₂}
use tydomio.Base.{
  ◌≡◌, refl, ◌∙◌, ap, Option, List, [], ◌∷◌, Eq, nat_eq, list_eq, pair_eq, option_eq, arith,
  Option-cases,
}
use tydomio.Base.Int.{ℤ, int_eq}
use tydomio.Base.Dict
use tydomio.Base.Dict.{Dict}
use tydomio.Base.Text.{Text}
use tydomio.Model.{Endpoint}
use tydomio.Cache.{
  Cache, usages_of, apply_config, replace_devices, replace_areas, merge_devices, merge_areas,
  mark_connected, mark_synced, mark_disconnected,
}
use tydomio.Cache.Entities.{Key, Entity, mark_invalid}
use tydomio.Cache.Valid.{
  Operation, applies, replaces_devices, replaces_areas, merges_devices, merges_areas, connects,
  syncs, disconnects, perform, perform_all,
}
use tydomio.Cache.Merge.{usages_of-last, usages_of-last_area}
use tydomio.Cache.Abstract.{
  Reading, applied, of_devices, of_areas, replaced, after, after_all, read, view,
}
use tydomio.Cache.Loops.{
  read-keep, lookup-push_all, lookup-take_all, lookup-mark_invalid, push_devices-push_all,
  push_areas-push_all, take_devices-take_all, take_areas-take_all, take_all,
}

module _ {V K : Type 0} ⦃e : Eq K⦄ where
  -- What a snapshot makes of an id.
  read-replaced :
      (usages : Dict K Text) (items : List (K × Endpoint V)) (invalid : List K) (k : K)
      → read (
          Dict.lookup k
            (mark_invalid (λ j. Dict.member j usages) invalid (take_all usages items [])))
        ≡ replaced (λ j. Dict.lookup j usages) items invalid k
  read-replaced usages items invalid k =
      lookup-mark_invalid k usages invalid (take_all usages items [])
      ∙ rw (lookup-take_all k usages items []) (
          rw (Dict.lookup-nil {V = Entity V} k)
            (ground (arith, Option-cases (Dict.lookup k usages))))

module _ {V T : Type 0} where
  view-perform : (o : Operation V T) (c : Cache V T) → view (perform o c) ≡ after o (view c)
  unfolding apply_config replace_devices replace_areas merge_devices merge_areas mark_connected
      mark_synced mark_disconnected
  view-perform (applies config) c =
      let now = usages_of config in
      ap₂
        (λ (f : Key → Option (Reading V)) (g : ℤ → Option (Reading V)).
          record (view (apply_config config c)) { endpoint = f; area = g })
        (fun_ext (λ key. read-keep key now.0 c.endpoint_usages c.endpoints))
        (fun_ext (λ id. read-keep id now.1 c.area_usages c.areas))
      ∙ ap₂ (λ (f : Key → Option Text) (g : ℤ → Option Text). applied f g config (view c))
          (fun_ext (λ key. usages_of-last config key))
          (fun_ext (λ id. usages_of-last_area config id))
  view-perform (replaces_devices items invalid) c =
      ap (λ (f : Key → Option (Reading V)). record (view c) { endpoint = f })
        (fun_ext (λ key.
          rw (take_devices-take_all c.endpoint_usages items [])
            (read-replaced c.endpoint_usages (of_devices items) invalid key)))
  view-perform (replaces_areas items invalid) c =
      ap (λ (f : ℤ → Option (Reading V)). record (view c) { area = f })
        (fun_ext (λ id.
          rw (take_areas-take_all c.area_usages items [])
            (read-replaced c.area_usages (of_areas items) invalid id)))
  view-perform (merges_devices items) c =
      ap (λ (f : Key → Option (Reading V)). record (view c) { endpoint = f })
        (fun_ext (λ key.
          rw (push_devices-push_all c.endpoint_usages items c.endpoints)
            (lookup-push_all key c.endpoint_usages (of_devices items) c.endpoints)))
  view-perform (merges_areas items) c =
      ap (λ (f : ℤ → Option (Reading V)). record (view c) { area = f })
        (fun_ext (λ id.
          rw (push_areas-push_all c.area_usages items c.areas)
            (lookup-push_all id c.area_usages (of_areas items) c.areas)))
  view-perform connects c = refl
  view-perform (syncs now) c = refl
  view-perform disconnects c = refl

  -- Whatever snapshots, pushes, configurations and changes of connection a cache goes through, in
  -- whatever order, it stands for what the abstract description says, at each step: a push updates field
  -- by field only what the configuration names, a snapshot replaces everything, with the ids that it
  -- could not read as invalid, and a configuration keeps what it names with the usage that it had.
  pub view-perform_all :
      (os : List (Operation V T)) (c : Cache V T) → view (perform_all os c) ≡ after_all os (view c)
  view-perform_all [] c = refl
  view-perform_all (o ∷ os) c =
      view-perform_all os (perform o c) ∙ ap (after_all os) (view-perform o c)
