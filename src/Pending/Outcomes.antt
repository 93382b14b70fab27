-- ===== src/Pending/Outcomes.antt =====
-- What each operation of `PendingRequests` does to every future and every id.
use tydomio.Base.{ℕ, ◌≡◌, refl, ◌≢◌, true, false, Option, none, some, List, [], ◌∷◌}
use tydomio.Base.{nat_eq, option_eq, contains, if◌then◌else◌, arith}
use tydomio.Base.Int.{ℤ, int_eq}
use tydomio.Base.Dict
use tydomio.Pending.{
  Cell, PendingRequests, exception, done, update, register, settle, resolve, abandon, fail_all,
  flush,
}

module _ {R E : Type 0} where
  -- A response that no request waits for (no id, an unknown id, or a future that is done) changes no
  -- future, and `resolve` says so by `false`.
  pub resolve_unexpected :
      (key : Option ℤ) (r : R) (s : PendingRequests R E)
      → ((tid : ℤ) (f : ℕ)
          → key ≡ some tid
          → Dict.lookup tid s.futures ≡ some f
          → done (s.cells f) ≡ true)
      → ((resolve key r s).1 ≡ false) × ((resolve key r s).0.cells ≡ s.cells)
  unfolding resolve
  resolve_unexpected none r s h = (refl, refl)
  resolve_unexpected (some tid) r s h =
      unexpected (Dict.lookup tid s.futures) (λ f e. h tid f refl e)
    where
      unexpected :
          (o : Option ℕ)
          → ((f : ℕ) → o ≡ some f → done (s.cells f) ≡ true)
          → ((settle o r (record s { futures = Dict.erase tid s.futures })).1 ≡ false)
            × ((settle o r (record s { futures = Dict.erase tid s.futures })).0.cells ≡ s.cells)
      unexpected none g = (refl, refl)
      unexpected (some f) g = ground (arith, g f refl)

  -- `abandon` by a request whose id was registered again meanwhile leaves the newer request pending.
  pub abandon-register :
      (tid : ℤ) (f : ℕ) (s : PendingRequests R E)
      → f ≢ s.next
      → abandon tid f (register tid s).0 ≡ (register tid s).0
  unfolding abandon register
  abandon-register tid f s other = ground (arith, Dict.lookup-insert tid tid s.next s.futures)

  pub fail_all_lem :
      (e : E) (fs : List ℕ) (cells : ℕ → Cell R E) (g : ℕ)
      → fail_all e fs cells g
        ≡ (if contains fs g then (if done (cells g) then cells g else exception e) else cells g)
  unfolding fail_all
  fail_all_lem e [] cells g = refl
  fail_all_lem e (f ∷ fs) cells g =
      ground (
        arith,
        fail_all_lem e fs (if done (cells f) then cells else update cells f (exception e)) g,
      )

  -- `flush` forgets every request and fails each registered future that still waits, with the given
  -- error. A registered future that is done, and every other future, is left as it is.
  pub flush_lem :
      (e : E) (s : PendingRequests R E) (g : ℕ)
      → ((flush e s).futures ≡ [])
        × ((flush e s).cells g ≡ (
            if contains (Dict.values s.futures) g
            then (if done (s.cells g) then s.cells g else exception e)
            else s.cells g))
  unfolding flush
  flush_lem e s g = (refl, fail_all_lem e (Dict.values s.futures) s.cells g)
