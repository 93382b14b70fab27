-- ===== src/Sync/Waits.antt =====
-- How long the routine waits between bootstraps.
use tydomio.Base.{ℕ, zero, suc, ◌*◌, ◌≤◌, ◌≡◌, refl, List, [], ◌∷◌, min, arith}
use tydomio.Sync.{
  Sync, Attempt, Outcome, complete, incomplete, stopped, raised, backoff, handle_pushes, bootstrap,
  after_bootstrap, routine,
}

-- So many times that double from a first one, none of them above 300.
abbrev pub doubling : ℕ → ℕ → List ℕ
doubling first zero = []
doubling first (suc k) = min first 300 ∷ doubling (2 * first) k

abbrev uncut : ℕ → ℕ
uncut zero = 10
uncut (suc n) = 2 * uncut n

uncut-large : (n : ℕ) → 320 ≤ uncut (suc (suc (suc (suc (suc n)))))
uncut-large zero = omega arith
uncut-large (suc n) = let large = uncut-large n in omega arith

backoff-uncut : (n : ℕ) → backoff n ≡ min (uncut n) 300
unfolding backoff
backoff-uncut zero = refl
backoff-uncut (suc zero) = refl
backoff-uncut (suc (suc zero)) = refl
backoff-uncut (suc (suc (suc zero))) = refl
backoff-uncut (suc (suc (suc (suc zero)))) = refl
backoff-uncut (suc (suc (suc (suc (suc n))))) = let large = uncut-large n in omega arith

module _ {V T : Type 0} where
  -- One more than what follows, after a bootstrap that failed; none after another one.
  abbrev one_more : Attempt V T → (Sync V T → ℕ) → Sync V T × Outcome → ℕ
  one_more a rest (t, incomplete) = suc (rest (handle_pushes a.later t))
  one_more a rest _ = 0

  -- How many bootstraps fail before one completes or the routine ends.
  unfoldable pub failed_bootstraps : List (Attempt V T) → Sync V T → ℕ
  failed_bootstraps [] s = 0
  failed_bootstraps (a ∷ more) s = one_more a (failed_bootstraps more) (bootstrap a s)

  after_bootstrap-waits :
      (a : Attempt V T) (again : Sync V T → Sync V T × List ℕ) (rest : Sync V T → ℕ) (failures : ℕ)
      → ((t : Sync V T) → (again t).1 ≡ doubling (uncut (suc failures)) (rest t))
      → (x : Sync V T × Outcome)
      → (after_bootstrap again a failures x).1 ≡ doubling (uncut failures) (one_more a rest x)
  after_bootstrap-waits a again rest failures h (t, complete) = refl
  after_bootstrap-waits a again rest failures h (t, incomplete) =
      rw (h (handle_pushes a.later t), backoff-uncut failures) refl
  after_bootstrap-waits a again rest failures h (t, stopped) = refl
  after_bootstrap-waits a again rest failures h (t, raised e) = refl

  routine-waits :
      (attempts : List (Attempt V T)) (failures : ℕ) (s : Sync V T)
      → (routine attempts failures s).1 ≡ doubling (uncut failures) (failed_bootstraps attempts s)
  unfolding routine failed_bootstraps
  routine-waits [] failures s = refl
  routine-waits (a ∷ more) failures s =
      after_bootstrap-waits a (routine more (suc failures)) (failed_bootstraps more) failures
        (λ t. routine-waits more (suc failures) t) (bootstrap a s)

  -- The routine of a connection waits once after each bootstrap that fails, and at no other time
  -- between bootstraps: ten seconds first, then each time twice as long as before, but never more than
  -- five minutes.
  pub routine_waits :
      (attempts : List (Attempt V T)) (s : Sync V T)
      → (routine attempts 0 s).1 ≡ doubling 10 (failed_bootstraps attempts s)
  routine_waits attempts s = routine-waits attempts 0 s
