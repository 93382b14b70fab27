-- ===== src/Pending/Reachable.antt =====
-- Every order in which requests, responses, cancellations and disconnections can use
-- `PendingRequests`, as a step relation, and what holds in every state that it reaches.
use tydomio.Base.{ℕ, ◌<◌, ◌≡◌, refl, true, false, Option, none, some, List}
use tydomio.Base.{nat_eq, option_eq, arith}
use tydomio.Base.Int.{ℤ, int_eq}
use tydomio.Base.Dict
use tydomio.Pending.{
  Cell, PendingRequests, done, register, resolve, abandon, fail_all, flush, cancel, is_pending,
}
use tydomio.Pending.Outcomes.{fail_all_lem}

module _ {R E : Type 0} where
  -- One use of the object. `send` registers an id only if it is not pending.
  pub data Step (s t : PendingRequests R E) : Type 0 where
    registers : (tid : ℤ) → is_pending tid s ≡ false → t ≡ (register tid s).0 → Step s t
    resolves : (key : Option ℤ) (r : R) → t ≡ (resolve key r s).0 → Step s t
    abandons : (tid : ℤ) (f : ℕ) → t ≡ abandon tid f s → Step s t
    flushes : (e : E) → t ≡ flush e s → Step s t
    cancels : (f : ℕ) → t ≡ cancel f s → Step s t

  pub data Reach (s : PendingRequests R E) : PendingRequests R E → Type 0 where
    here : Reach s s
    next : {t u : PendingRequests R E} → Reach s t → Step t u → Reach s u

  -- A future that holds its outcome keeps it, and no future number is given out again.
  pub record Keeps (s t : PendingRequests R E) : Type 0 where
    pub outcomes : (f : ℕ) → f < s.next → done (s.cells f) ≡ true → t.cells f ≡ s.cells f
    pub numbers : (f : ℕ) → f < s.next → f < t.next

  resolve-Keeps : (key : Option ℤ) (r : R) (s : PendingRequests R E) → Keeps s (resolve key r s).0
  unfolding resolve
  resolve-Keeps none r s = record { outcomes = λ f lt d. refl; numbers = λ f lt. lt }
  resolve-Keeps (some tid) r s = record {
    outcomes = λ f lt d. ground arith;
    numbers = λ f lt. ground arith;
  }

  fail_all-keeps :
      (e : E) (fs : List ℕ) (cells : ℕ → Cell R E) (g : ℕ)
      → done (cells g) ≡ true
      → fail_all e fs cells g ≡ cells g
  fail_all-keeps e fs cells g d = ground (arith, fail_all_lem e fs cells g)

  pub Step-Keeps : {s t : PendingRequests R E} → Step s t → Keeps s t
  unfolding register abandon flush cancel
  Step-Keeps {s} {t} (registers tid free p) =
      rw p (record { outcomes = λ f lt d. ground arith; numbers = λ f lt. ground arith })
  Step-Keeps {s} {t} (resolves key r p) = rw p (resolve-Keeps key r s)
  Step-Keeps {s} {t} (abandons tid f p) =
      rw p (record { outcomes = λ g lt d. ground arith; numbers = λ g lt. ground arith })
  Step-Keeps {s} {t} (flushes e p) = rw p (record {
    outcomes = λ g lt d. fail_all-keeps e (Dict.values s.futures) s.cells g d;
    numbers = λ g lt. lt;
  })
  Step-Keeps {s} {t} (cancels f p) =
      rw p (record { outcomes = λ g lt d. ground arith; numbers = λ g lt. ground arith })

  pub Keeps-trans : {s t u : PendingRequests R E} → Keeps s t → Keeps t u → Keeps s u
  Keeps-trans k l = record {
    outcomes = λ f lt d. ground (arith, k.outcomes f lt d, l.outcomes f (k.numbers f lt));
    numbers = λ f lt. l.numbers f (k.numbers f lt);
  }

  Reach-Keeps : {s t : PendingRequests R E} → Reach s t → Keeps s t
  Reach-Keeps here = record { outcomes = λ f lt d. refl; numbers = λ f lt. lt }
  Reach-Keeps (next r st) = Keeps-trans (Reach-Keeps r) (Step-Keeps st)

  -- Whatever happens afterwards, a future that was made and holds a response, an error or a cancellation
  -- holds it for good: no later registration, response, disconnection or cancellation overwrites it.
  pub outcome_final :
      (s t : PendingRequests R E) (f : ℕ)
      → Reach s t
      → f < s.next
      → done (s.cells f) ≡ true
      → t.cells f ≡ s.cells f
  outcome_final s t f r made settled = (Reach-Keeps r).outcomes f made settled
