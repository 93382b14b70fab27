-- ===== src/Pending/Tests.antt =====
-- Runs of `PendingRequests`, and its theorems at concrete states.
use tydomio.Base.{ℕ, ◌≡◌, refl, false, some, [], nat_eq, option_eq, contains, if◌then◌else◌, arith}
use tydomio.Base.Int.{pos, int_eq}
use tydomio.Base.Dict
use tydomio.Pending.{
  PendingRequests, result, exception, done, start, register, settle, resolve, fail_all, flush,
  cancel, size,
}
use tydomio.Pending.Outcomes.{flush_lem}
use tydomio.Pending.Reachable.{Reach, here, next, resolves, flushes, outcome_final}

abbrev State : Type 0
State = PendingRequests ℕ ℕ

-- Requests 5 and 6 are sent.
abbrev two_sent : State
two_sent = (register (pos 6) (register (pos 5) start).0).0

-- The response to request 5 arrives.
abbrev one_answered : State
one_answered = (resolve (some (pos 5)) 41 two_sent).0

-- A second response to request 5 arrives, then the connection is lost.
abbrev late : State
late = (resolve (some (pos 5)) 42 one_answered).0

abbrev lost : State
lost = flush 9 late

answered : one_answered.cells 0 ≡ result 41
unfolding register resolve settle Dict.insert Dict.lookup Dict.erase int_eq nat_eq
answered = refl

failed : lost.cells 1 ≡ exception 9
unfolding register resolve settle flush fail_all Dict.insert Dict.lookup Dict.erase Dict.values
    int_eq nat_eq
failed = refl

late_answer : (resolve (some (pos 6)) 1 (cancel 1 two_sent)).1 ≡ false
unfolding cancel register resolve settle Dict.insert Dict.lookup Dict.erase int_eq nat_eq
late_answer = refl

sizes : (size two_sent ≡ 2) × (size one_answered ≡ 1)
unfolding size register resolve settle Dict.insert Dict.lookup Dict.erase int_eq nat_eq
sizes = (refl, refl)

run : Reach one_answered lost
run = next (next here (resolves (some (pos 5)) 42 refl)) (flushes 9 refl)

flush_lem_example :
    (lost.futures ≡ [])
    × (lost.cells 1 ≡ (
        if contains (Dict.values late.futures) 1
        then (if done (late.cells 1) then late.cells 1 else exception 9)
        else late.cells 1))
flush_lem_example = flush_lem 9 late 1

outcome_final_example : lost.cells 0 ≡ one_answered.cells 0
unfolding register resolve settle Dict.insert Dict.lookup Dict.erase int_eq nat_eq
outcome_final_example = outcome_final one_answered lost 0 run (omega arith) refl
