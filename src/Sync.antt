-- ===== src/Sync.antt =====
-- tydomio/mcp_server/sync.py: the bootstrap of the cache on each connection, its backoff, and the
-- pushes that arrive while it waits. What the client gives for each request is an argument.
pub mod Fresh
pub mod Waits
pub mod Tests
use tydomio.Base.{
  ℕ, zero, suc, Bool, true, false, Option, none, some, List, [], ◌∷◌, min, if◌then◌else◌, Result,
  ok, err,
}
use tydomio.Base.Int.{ℤ}
use tydomio.Error.{Error, is_communication}
use tydomio.Model.{Config, DevicesData, AreasData}
use tydomio.Response.{Response}
use tydomio.Cache.{
  Cache, apply_config, replace_devices, replace_areas, merge_devices, merge_areas, mark_connected,
  mark_synced, mark_disconnected,
}
use tydomio.Cache.Entities.{Key}

pub record Sync (V T : Type 0) : Type 0 where
  pub cache : Cache V T
  pub config_date : Option ℤ

pub data Push (V : Type 0) : Type 0 where
  devices_data : DevicesData V → Push V
  areas_data : AreasData V → Push V

-- Why an awaited request gives no answer: it raises, or the routine is cancelled.
pub data Stop : Type 0 where
  raises : Error → Stop
  cancelled : Stop

-- An await of the routine: the pushes handled meanwhile, then the answer.
pub record Awaited (V A : Type 0) : Type 0 where
  pub pushes : List (Push V)
  pub answer : Result Stop A

-- The awaits of one bootstrap, its time, and the pushes handled in the wait that follows it.
pub record Attempt (V T : Type 0) : Type 0 where
  pub config : Awaited V Config
  pub devices : Awaited V (DevicesData V × List Key)
  pub areas : Awaited V (AreasData V × List ℤ)
  pub refresh : Awaited V Response
  pub now : T
  pub later : List (Push V)

-- How a bootstrap ends: `True`, `False`, another exception, or the cancellation of the routine.
pub data Outcome : Type 0 where
  complete incomplete stopped : Outcome
  raised : Error → Outcome

-- `BACKOFF[min(failures, len(BACKOFF) - 1)]`
unfoldable pub backoff : ℕ → ℕ
backoff zero = 10
backoff (suc zero) = 20
backoff (suc (suc zero)) = 40
backoff (suc (suc (suc zero))) = 80
backoff (suc (suc (suc (suc zero)))) = 160
backoff (suc (suc (suc (suc (suc n))))) = 300

-- `_refresh`: its `CommunicationError` does not undo the bootstrap.
abbrev pub refreshed : Result Stop Response → Outcome
refreshed (ok r) = complete
refreshed (err (raises e)) = if is_communication e then complete else raised e
refreshed (err cancelled) = stopped

module _ {V T : Type 0} where
  -- `on_devices_push` and `on_areas_push`
  abbrev pub on_push : Push V → Cache V T → Cache V T
  on_push (devices_data items) c = merge_devices items c
  on_push (areas_data items) c = merge_areas items c

  abbrev pub on_pushes : List (Push V) → Cache V T → Cache V T
  on_pushes [] c = c
  on_pushes (p ∷ ps) c = on_pushes ps (on_push p c)

  abbrev pub handle_pushes : List (Push V) → Sync V T → Sync V T
  handle_pushes ps s = record s { cache = on_pushes ps s.cache }

  -- What follows an await: on an answer the rest, on a `CommunicationError` the end of the bootstrap.
  abbrev pub after_answer :
      {A : Type 0}
      → Result Stop A
      → (A → Sync V T → Sync V T × Outcome)
      → Sync V T
      → Sync V T × Outcome
  after_answer (ok a) rest s = rest a s
  after_answer (err (raises e)) rest s = (s, if is_communication e then incomplete else raised e)
  after_answer (err cancelled) rest s = (s, stopped)

  abbrev pub await_then :
      {A : Type 0}
      → Awaited V A
      → (A → Sync V T → Sync V T × Outcome)
      → Sync V T
      → Sync V T × Outcome
  await_then w rest s = after_answer w.answer rest (handle_pushes w.pushes s)

  -- `_apply_config`
  unfoldable pub sync_config : Config → Sync V T → Sync V T
  sync_config config s = record {
    cache = apply_config config s.cache;
    config_date = some config.date;
  }

  unfoldable pub refresh : Awaited V Response → Sync V T → Sync V T × Outcome
  refresh w s = (handle_pushes w.pushes s, refreshed w.answer)

  -- The bootstrap from the answer for the areas, from the one for the devices, and from the start.
  unfoldable pub take_areas_data :
      Attempt V T → AreasData V × List ℤ → Sync V T → Sync V T × Outcome
  unfolding refresh
  take_areas_data a (items, invalid) s =
      refresh a.refresh
        (record s { cache = mark_synced a.now (replace_areas items invalid s.cache) })

  unfoldable pub take_devices_data :
      Attempt V T → DevicesData V × List Key → Sync V T → Sync V T × Outcome
  unfolding take_areas_data
  take_devices_data a (items, invalid) s =
      await_then a.areas (take_areas_data a)
        (record s { cache = replace_devices items invalid s.cache })

  unfoldable pub take_config : Attempt V T → Config → Sync V T → Sync V T × Outcome
  unfolding take_devices_data sync_config
  take_config a config s = await_then a.devices (take_devices_data a) (sync_config config s)

  -- `_bootstrap`
  unfoldable pub bootstrap : Attempt V T → Sync V T → Sync V T × Outcome
  unfolding take_config
  bootstrap a s = await_then a.config (take_config a) (record s { cache = mark_connected s.cache })

  -- The `finally` block of `routine`.
  abbrev pub leave : Sync V T → Sync V T
  leave s = record s { cache = mark_disconnected s.cache }

  -- What the routine does after a bootstrap, `again` being the next round: the state that it leaves
  -- and its waits.
  abbrev pub after_bootstrap :
      (Sync V T → Sync V T × List ℕ) → Attempt V T → ℕ → Sync V T × Outcome → Sync V T × List ℕ
  after_bootstrap again a failures (s, incomplete) =
      let (left, waits) = again (handle_pushes a.later s) in (left, backoff failures ∷ waits)
  after_bootstrap again a failures (s, complete) = (leave (handle_pushes a.later s), [])
  after_bootstrap again a failures (s, stopped) = (leave s, [])
  after_bootstrap again a failures (s, raised e) = (leave s, [])

  -- `routine`, up to its cancellation; without attempts it is cancelled in a wait.
  unfoldable pub routine : List (Attempt V T) → ℕ → Sync V T → Sync V T × List ℕ
  unfolding bootstrap
  routine [] failures s = (leave s, [])
  routine (a ∷ more) failures s =
      after_bootstrap (routine more (suc failures)) a failures (bootstrap a s)
