-- ===== src/Pending.antt =====
-- tydomio/pending_requests.py: the futures of the requests sent and not answered yet.
-- A future is a number, and `cells` says what each one holds: `register` makes a new object, and
-- `is` compares the numbers. `cancel` is what asyncio does to the future of a cancelled task.
pub mod Reachable
pub mod Outcomes
pub mod Tests
use tydomio.Base.{ℕ, suc, Bool, true, false, not, Option, none, some, List, [], ◌∷◌}
use tydomio.Base.{◌==◌, nat_eq, option_eq, if◌then◌else◌, length}
use tydomio.Base.Int.{ℤ, int_eq}
use tydomio.Base.Dict
use tydomio.Base.Dict.{Dict}

-- What a future holds: a response, an error, or the mark of its cancelled task.
pub data Cell (R E : Type 0) : Type 0 where
  waiting : Cell R E
  result : R → Cell R E
  exception : E → Cell R E
  cancelled : Cell R E

pub record PendingRequests (R E : Type 0) : Type 0 where
  pub futures : Dict ℤ ℕ
  pub cells : ℕ → Cell R E
  pub next : ℕ

module _ {R E : Type 0} where
  abbrev pub done : Cell R E → Bool
  done waiting = false
  done (result r) = true
  done (exception e) = true
  done cancelled = true

  abbrev pub update : (ℕ → Cell R E) → ℕ → Cell R E → ℕ → Cell R E
  update cells f c g = if g == f then c else cells g

  -- `PendingRequests()`
  abbrev pub start : PendingRequests R E
  start = record { futures = []; cells = λ f. waiting; next = 0 }

  -- `transaction_id in pending`
  unfoldable pub is_pending : ℤ → PendingRequests R E → Bool
  is_pending tid s = Dict.member tid s.futures

  -- `len(pending)`
  unfoldable pub size : PendingRequests R E → ℕ
  size s = length s.futures

  unfoldable pub register : ℤ → PendingRequests R E → PendingRequests R E × ℕ
  register tid s = (
    record {
      futures = Dict.insert tid s.next s.futures;
      cells = update s.cells s.next waiting;
      next = suc s.next;
    },
    s.next,
  )

  -- The future popped by `resolve`, if any.
  unfoldable pub settle : Option ℕ → R → PendingRequests R E → PendingRequests R E × Bool
  settle none r s = (s, false)
  settle (some f) r s =
      if done (s.cells f)
      then (s, false)
      else (record s { cells = update s.cells f (result r) }, true)

  -- `None`, the key of a response without an id, is never registered.
  unfoldable pub resolve : Option ℤ → R → PendingRequests R E → PendingRequests R E × Bool
  unfolding settle
  resolve none r s = (s, false)
  resolve (some tid) r s =
      settle (Dict.lookup tid s.futures) r (record s { futures = Dict.erase tid s.futures })

  unfoldable pub abandon : ℤ → ℕ → PendingRequests R E → PendingRequests R E
  abandon tid f s =
      if Dict.lookup tid s.futures == some f
      then record s { futures = Dict.erase tid s.futures }
      else s

  -- The loop of `flush` over the futures.
  unfoldable pub fail_all : E → List ℕ → (ℕ → Cell R E) → ℕ → Cell R E
  fail_all e [] cells = cells
  fail_all e (f ∷ fs) cells =
      fail_all e fs (if done (cells f) then cells else update cells f (exception e))

  unfoldable pub flush : E → PendingRequests R E → PendingRequests R E
  unfolding fail_all
  flush e s = record s { futures = []; cells = fail_all e (Dict.values s.futures) s.cells }

  unfoldable pub cancel : ℕ → PendingRequests R E → PendingRequests R E
  cancel f s = if done (s.cells f) then s else record s { cells = update s.cells f cancelled }
