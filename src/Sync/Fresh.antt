-- ===== src/Sync/Fresh.antt =====
-- When the cache is fresh.
use tydomio.Base.{
  ℕ, suc, ◌≡◌, refl, inl, inr, true, false, List, [], ◌∷◌, arith, Result, ok, err, Bool-cases,
}
use tydomio.Error.{is_communication}
use tydomio.Cache.{
  Cache, fresh, connected, apply_config, replace_devices, replace_areas, merge_devices, merge_areas,
  mark_connected, mark_synced, mark_disconnected,
}
use tydomio.Cache.Valid.{}
use tydomio.Sync.{
  Sync, Push, devices_data, areas_data, Stop, raises, cancelled, Awaited, Attempt, Outcome,
  complete, incomplete, stopped, raised, on_pushes, handle_pushes, after_answer, await_then,
  sync_config, refreshed, refresh, take_areas_data, take_devices_data, take_config, bootstrap,
  after_bootstrap, routine,
}

module _ {V T : Type 0} where
  -- Pushes change neither the connection nor the mark of a complete bootstrap.
  fresh-on_pushes :
      (ps : List (Push V)) (c : Cache V T)
      → ((on_pushes ps c).connection ≡ c.connection) × ((on_pushes ps c).synced ≡ c.synced)
  unfolding merge_devices merge_areas
  fresh-on_pushes [] c = (refl, refl)
  fresh-on_pushes (devices_data items ∷ ps) c = fresh-on_pushes ps (merge_devices items c)
  fresh-on_pushes (areas_data items ∷ ps) c = fresh-on_pushes ps (merge_areas items c)

  -- The outcome agrees with the cache.
  abbrev Agrees : Sync V T × Outcome → Type 0
  Agrees (s, complete) = (s.cache.connection ≡ connected) × (s.cache.synced ≡ true)
  Agrees (s, incomplete) = s.cache.synced ≡ false
  Agrees (s, stopped) = Unit
  Agrees (s, raised e) = Unit

  abbrev Started : Sync V T → Type 0
  Started s = (s.cache.connection ≡ connected) × (s.cache.synced ≡ false)

  Started-pushes : (ps : List (Push V)) (s : Sync V T) → Started s → Started (handle_pushes ps s)
  Started-pushes ps s h = let (c, d) = fresh-on_pushes ps s.cache in (rw c h.0, rw d h.1)

  await_then-Agrees :
      {A : Type 0} (w : Awaited V A) (rest : A → Sync V T → Sync V T × Outcome) (s : Sync V T)
      → ((a : A) (t : Sync V T) → Started t → Agrees (rest a t))
      → Started s
      → Agrees (await_then w rest s)
  await_then-Agrees w rest s h st =
      by_answer w.answer (handle_pushes w.pushes s) (Started-pushes w.pushes s st)
    where
      by_answer : (r : Result Stop _) (t : Sync V T) → Started t → Agrees (after_answer r rest t)
      by_answer (ok a) t u = h a t u
      by_answer (err (raises e)) t u = elim (Bool-cases (is_communication e)) [
        | inl soft ↦ rw soft u.1
        | inr hard ↦ rw hard tt
      ]
      by_answer (err cancelled) t u = tt

  refresh-Agrees :
      (w : Awaited V _) (s : Sync V T)
      → s.cache.connection ≡ connected
      → s.cache.synced ≡ true
      → Agrees (refresh w s)
  unfolding refresh
  refresh-Agrees w s c d =
      by_answer w.answer (handle_pushes w.pushes s)
        (let (same, also) = fresh-on_pushes w.pushes s.cache in rw same c)
        (let (same, also) = fresh-on_pushes w.pushes s.cache in rw also d)
    where
      by_answer :
          (r : Result Stop _) (t : Sync V T)
          → t.cache.connection ≡ connected
          → t.cache.synced ≡ true
          → Agrees (t, refreshed r)
      by_answer (ok a) t x y = (x, y)
      by_answer (err (raises e)) t x y = elim (Bool-cases (is_communication e)) [
        | inl soft ↦ rw soft (x, y)
        | inr hard ↦ rw hard tt
      ]
      by_answer (err cancelled) t x y = tt

  bootstrap-Agrees :
      (a : Attempt V T) (s : Sync V T) → s.cache.synced ≡ false → Agrees (bootstrap a s)
  unfolding bootstrap take_config take_devices_data take_areas_data sync_config apply_config
      replace_devices replace_areas mark_connected mark_synced
  bootstrap-Agrees a s unsynced =
      await_then-Agrees a.config (take_config a) (record s { cache = mark_connected s.cache })
        (λ config t st.
          await_then-Agrees a.devices (take_devices_data a) (sync_config config t)
            (λ (items, invalid) t st.
              await_then-Agrees a.areas (take_areas_data a)
                (record t { cache = replace_devices items invalid t.cache })
                (λ (items, invalid) t st.
                  refresh-Agrees a.refresh
                    (record t { cache = mark_synced a.now (replace_areas items invalid t.cache) })
                    st.0 refl)
                st)
            st)
        (refl, unsynced)

  -- After a complete bootstrap of a cache that was not synced, the cache is fresh, whatever was pushed
  -- meanwhile and whether or not the refresh was answered.
  pub bootstrap-complete :
      (a : Attempt V T) (s : Sync V T)
      → s.cache.synced ≡ false
      → (bootstrap a s).1 ≡ complete
      → fresh (bootstrap a s).0.cache ≡ true
  unfolding fresh
  bootstrap-complete a s unsynced e = agreed (bootstrap a s) (bootstrap-Agrees a s unsynced) e
    where
      agreed : (x : Sync V T × Outcome) → Agrees x → x.1 ≡ complete → fresh x.0.cache ≡ true
      agreed (s, complete) h e = ground (arith, h.0, h.1)
      agreed (s, incomplete) h e = cc
      agreed (s, stopped) h e = cc
      agreed (s, raised x) h e = cc

  -- A bootstrap of a cache that was not synced, if it fails by a `CommunicationError`, leaves the cache
  -- not fresh, however far it came.
  pub bootstrap-incomplete :
      (a : Attempt V T) (s : Sync V T)
      → s.cache.synced ≡ false
      → (bootstrap a s).1 ≡ incomplete
      → fresh (bootstrap a s).0.cache ≡ false
  unfolding fresh
  bootstrap-incomplete a s unsynced e = agreed (bootstrap a s) (bootstrap-Agrees a s unsynced) e
    where
      agreed : (x : Sync V T × Outcome) → Agrees x → x.1 ≡ incomplete → fresh x.0.cache ≡ false
      agreed (s, complete) h e = cc
      agreed (s, incomplete) h e = ground (arith, h)
      agreed (s, stopped) h e = cc
      agreed (s, raised x) h e = cc

  -- However the routine of a connection ends, it leaves the cache not fresh.
  pub fresh-routine :
      (attempts : List (Attempt V T)) (failures : ℕ) (s : Sync V T)
      → fresh (routine attempts failures s).0.cache ≡ false
  unfolding routine fresh mark_disconnected
  fresh-routine [] failures s = refl
  fresh-routine (a ∷ more) failures s =
      left (λ t. fresh-routine more (suc failures) t) (bootstrap a s)
    where
      left :
          ((t : Sync V T) → fresh (routine more (suc failures) t).0.cache ≡ false)
          → (x : Sync V T × Outcome)
          → fresh (after_bootstrap (routine more (suc failures)) a failures x).0.cache ≡ false
      left again (t, complete) = refl
      left again (t, incomplete) = again (handle_pushes a.later t)
      left again (t, stopped) = refl
      left again (t, raised e) = refl
