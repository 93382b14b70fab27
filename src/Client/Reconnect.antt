-- ===== src/Client/Reconnect.antt =====
-- tydomio/client.py: the loop of `run_websocket`, one round for each try to connect.
use tydomio.Base.{ℕ, ◌+◌, Bool, true, false, Option, none, some, List, [], ◌∷◌, any, if◌then◌else◌}
use tydomio.Error.{Error}
use tydomio.Client.{Client, connect, lose, close}

-- An exception: the cancellation of the task, a `CommunicationError`, or another one.
pub data Cause : Type 0 where
  task_cancelled connection_lost : Cause
  crashed : Error → Cause

abbrev pub is_crash : Cause → Bool
is_crash (crashed e) = true
is_crash _ = false

abbrev pub is_cancellation : Cause → Bool
is_cancellation task_cancelled = true
is_cancellation _ = false

-- The disconnection routines: what happens to the client while they run and until the websocket is
-- closed, and the exception that leaves them, `RuntimeError` apart.
pub record Routines (V : Type 0) : Type 0 where
  pub meanwhile : Client V → Client V
  pub raises : Option Cause

-- How one round goes; `during` is what happens to the client while the connection lasts.
--   refused: there is no authorization, an `AuthorizationError`.
--   interrupted: another exception, while the authorization is awaited or while the loop sleeps.
--   unreachable: the websocket could not be opened, and `_open_websocket` gave `None`.
--   stopped: the opening raised exceptions.
--   established: the websocket was opened, and the tasks of the connection ended with exceptions.
pub data Try (V : Type 0) : Type 0 where
  refused : Try V
  interrupted : Cause → Try V
  unreachable : Routines V → Try V
  stopped : List Cause → Routines V → Try V
  established : (Client V → Client V) → List Cause → Routines V → Try V

-- What the loop does after a round: it sleeps and goes on, returns, or raises.
pub data Next : Type 0 where
  again : ℕ → Next
  returned : Next
  raised : Cause → Next

abbrev pub wait_between_retry : ℕ
wait_between_retry = 5

-- The first exception that neither `except*` takes: it leaves the loop without `_disconnect`.
abbrev pub first_crash : List Cause → Option Cause
first_crash [] = none
first_crash (c ∷ causes) = if is_crash c then some c else first_crash causes

-- What the loop does after the exceptions that `except*` takes.
abbrev pub after_causes : List Cause → Next
after_causes causes = if any is_cancellation causes then returned else again 0

module _ {V : Type 0} where
  -- The end of `_disconnect`, after its routines, then what the loop does next.
  abbrev pub after_routines : Option Cause → Next → Client V → Client V × Next
  after_routines none next c = (close c, next)
  after_routines (some e) next c = (c, raised e)

  -- `_disconnect`: the websocket is still there while the routines run.
  unfoldable pub disconnect : Routines V → Next → Client V → Client V × Next
  unfolding lose close
  disconnect routines next c = after_routines routines.raises next (routines.meanwhile (lose c))

  abbrev pub unless_crashed : Option Cause → Next → Routines V → Client V → Client V × Next
  unless_crashed (some e) next routines c = (c, raised e)
  unless_crashed none next routines c = disconnect routines next c

  -- One round of the loop.
  unfoldable pub run_round : Try V → Client V → Client V × Next
  unfolding disconnect connect
  run_round refused c = (c, again wait_between_retry)
  run_round (interrupted e) c = (c, raised e)
  run_round (unreachable routines) c =
      disconnect routines (again wait_between_retry) (record c { opened = false })
  run_round (stopped causes routines) c =
      unless_crashed (first_crash causes) (after_causes causes) routines c
  run_round (established during causes routines) c =
      unless_crashed (first_crash causes) (after_causes causes) routines (during (connect c))

  -- The loop goes on only from a round that ends with `again`; the seconds that it sleeps add up.
  abbrev pub then_rounds :
      (Client V → ℕ → Client V × (Next × ℕ)) → ℕ → Client V × Next → Client V × (Next × ℕ)
  then_rounds more slept (c, again n) = more c (slept + n)
  then_rounds more slept (c, returned) = (c, (returned, slept))
  then_rounds more slept (c, raised e) = (c, (raised e, slept))

  -- `run_websocket` over the rounds that it has done so far, with the seconds slept.
  unfoldable pub run_websocket : List (Try V) → Client V → ℕ → Client V × (Next × ℕ)
  unfolding run_round
  run_websocket [] c slept = (c, (again 0, slept))
  run_websocket (round ∷ rounds) c slept =
      then_rounds (run_websocket rounds) slept (run_round round c)
