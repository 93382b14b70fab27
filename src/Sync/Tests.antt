-- ===== src/Sync/Tests.antt =====
-- A connection on which the first bootstrap fails, and the theorems at it.
use tydomio.Base.{ℕ, ◌≡◌, refl, true, false, none, [], ◌∷◌, ok, err, nat_eq, list_eq}
use tydomio.Base.Int.{int_eq}
use tydomio.Error.{communication}
use tydomio.Cache.{new_cache, fresh}
use tydomio.Cache.Tests.{home, push_of}
use tydomio.Sync.{
  Sync, devices_data, raises, Awaited, Attempt, complete, incomplete, bootstrap, backoff, routine,
}
use tydomio.Sync.Fresh.{bootstrap-complete, bootstrap-incomplete, fresh-routine}
use tydomio.Sync.Waits.{doubling, failed_bootstraps, routine_waits}

abbrev fresh_sync : Sync ℕ ℕ
fresh_sync = record { cache = new_cache; config_date = none }

abbrev gives : {A : Type 0} → A → Awaited ℕ A
gives a = record { pushes = devices_data (push_of 20) ∷ []; answer = ok a }

abbrev loses : {A : Type 0} → Awaited ℕ A
loses = record { pushes = []; answer = err (raises communication) }

abbrev cut_short : Attempt ℕ ℕ
cut_short = record {
  config = gives home;
  devices = loses;
  areas = loses;
  refresh = loses;
  now = 7;
  later = [];
}

-- Only the refresh fails.
abbrev whole : Attempt ℕ ℕ
whole = record {
  config = gives home;
  devices = gives (push_of 10, []);
  areas = gives ([], []);
  refresh = loses;
  now = 8;
  later = [];
}

fails : (bootstrap cut_short fresh_sync).1 ≡ incomplete
unfolding bootstrap
fails = refl

succeeds : (bootstrap whole fresh_sync).1 ≡ complete
unfolding bootstrap
succeeds = refl

waits_once : (routine (cut_short ∷ whole ∷ []) 0 fresh_sync).1 ≡ 10 ∷ []
unfolding routine backoff
waits_once = refl

bootstrap-complete_example : fresh (bootstrap whole fresh_sync).0.cache ≡ true
bootstrap-complete_example = bootstrap-complete whole fresh_sync refl succeeds

bootstrap-incomplete_example : fresh (bootstrap cut_short fresh_sync).0.cache ≡ false
bootstrap-incomplete_example = bootstrap-incomplete cut_short fresh_sync refl fails

fresh-routine_example : fresh (routine (cut_short ∷ whole ∷ []) 0 fresh_sync).0.cache ≡ false
fresh-routine_example = fresh-routine (cut_short ∷ whole ∷ []) 0 fresh_sync

routine_waits_example :
    (routine (cut_short ∷ whole ∷ []) 0 fresh_sync).1
    ≡ doubling 10 (failed_bootstraps (cut_short ∷ whole ∷ []) fresh_sync)
routine_waits_example = routine_waits (cut_short ∷ whole ∷ []) fresh_sync
