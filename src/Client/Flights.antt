-- ===== src/Client/Flights.antt =====
-- The sends in flight, over everything that can happen to a client meanwhile.
use tydomio.Base.{
  ℕ, ◌<◌, ◌≡◌, ◌⊎◌, inl, inr, true, false, Option, none, some, List, [], ◌∷◌, ◌==◌, nat_eq,
  option_eq, pair_eq, contains, if◌then◌else◌, arith,
}
use tydomio.Base.Int.{ℤ, int_eq}
use tydomio.Base.Dict
use tydomio.Base.Dict.{Dict}
use tydomio.Error.{Error}
use tydomio.Response.{Response}
use tydomio.Pending.{
  done, PendingRequests, is_pending, register, resolve, abandon, fail_all, flush, cancel,
}
use tydomio.Pending.Outcomes.{fail_all_lem}

abbrev pub State : Type 0
State = PendingRequests Response Error

abbrev pub Flight : Type 0
Flight = ℤ × ℕ

-- The sends in flight without the one that ended.
abbrev pub without : Flight → List Flight → List Flight
without x [] = []
without x (y ∷ ys) = let rest = without x ys in if y == x then rest else y ∷ rest

contains-without :
    (x y : Flight) (ys : List Flight)
    → contains (without x ys) y ≡ (if y == x then false else contains ys y)
contains-without x y [] = ground arith
contains-without x y (z ∷ ys) = ground (arith, contains-without x y ys)

values-lookup :
    (k : ℤ) (f : ℕ) (d : Dict ℤ ℕ) → Dict.lookup k d ≡ some f → contains (Dict.values d) f ≡ true
unfolding Dict.lookup Dict.values
values-lookup k f [] h = cc
values-lookup k f ((j, g) ∷ d) h = ground (arith, values-lookup k f d)

-- Each send in flight waits under its id, or its future is done; each registered id has its send.
pub record Flies (s : State) (flights : List Flight) : Type 0 where
  pub made : (k : ℤ) (f : ℕ) → contains flights (k, f) ≡ true → f < s.next
  pub waits :
      (k : ℤ) (f : ℕ)
      → contains flights (k, f) ≡ true
      → (Dict.lookup k s.futures ≡ some f) ⊎ (done (s.cells f) ≡ true)
  pub sent : (k : ℤ) (f : ℕ) → Dict.lookup k s.futures ≡ some f → contains flights (k, f) ≡ true

pub register-Flies :
    (tid : ℤ) (s : State) (flights : List Flight)
    → is_pending tid s ≡ false
    → Flies s flights
    → Flies (register tid s).0 ((tid, s.next) ∷ flights)
unfolding register is_pending
register-Flies tid s flights free v = record {
  made = λ k f h. ground (arith, v.made k f);
  waits = λ k f h. ground (
    arith,
    Dict.lookup-insert k tid s.next s.futures,
    Dict.member-lookup tid s.futures,
    v.made k f,
    v.waits k f,
  );
  sent = λ k f h. ground (arith, Dict.lookup-insert k tid s.next s.futures, v.sent k f);
}

pub resolve-Flies :
    (key : Option ℤ) (r : Response) (s : State) (flights : List Flight)
    → Flies s flights
    → Flies (resolve key r s).0 flights
unfolding resolve
resolve-Flies none r s flights v = v
resolve-Flies (some tid) r s flights v = record {
  made = λ k f h. ground (arith, v.made k f);
  waits = λ k f h. ground (arith, Dict.lookup-erase k tid s.futures, v.waits k f);
  sent = λ k f h. ground (arith, Dict.lookup-erase k tid s.futures, v.sent k f);
}

pub abandon-Flies :
    (tid : ℤ) (f : ℕ) (s : State) (flights : List Flight)
    → Flies s flights
    → Flies (abandon tid f s) (without (tid, f) flights)
unfolding abandon
abandon-Flies tid f s flights v = record {
  made = λ k g h. ground (arith, contains-without (tid, f) (k, g) flights, v.made k g);
  waits = λ k g h. ground (
    arith,
    contains-without (tid, f) (k, g) flights,
    Dict.lookup-erase k tid s.futures,
    v.waits k g,
  );
  sent = λ k g h. ground (
    arith,
    contains-without (tid, f) (k, g) flights,
    Dict.lookup-erase k tid s.futures,
    v.sent k g,
  );
}

pub flush-Flies :
    (e : Error) (s : State) (flights : List Flight) → Flies s flights → Flies (flush e s) flights
unfolding flush
flush-Flies e s flights v = record {
  made = v.made;
  waits = λ k f h. inr (fails k f (v.waits k f h));
  sent = λ k f h. cc (Dict.lookup-nil {V = ℕ} k);
}
  where
    fails :
        (k : ℤ) (f : ℕ)
        → (Dict.lookup k s.futures ≡ some f) ⊎ (done (s.cells f) ≡ true)
        → done (fail_all e (Dict.values s.futures) s.cells f) ≡ true
    fails k f (inl known) =
        ground
          (arith, fail_all_lem e (Dict.values s.futures) s.cells f, values-lookup k f s.futures)
    fails k f (inr settled) = ground (arith, fail_all_lem e (Dict.values s.futures) s.cells f)

pub cancel-Flies :
    (f : ℕ) (s : State) (flights : List Flight) → Flies s flights → Flies (cancel f s) flights
unfolding cancel
cancel-Flies f s flights v = record {
  made = λ k g h. ground (arith, v.made k g);
  waits = λ k g h. ground (arith, v.waits k g);
  sent = λ k g h. ground (arith, v.sent k g);
}
