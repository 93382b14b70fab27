-- ===== src/Writes/Tool.antt =====
-- tydomio/mcp_server/writes.py: a call of a write tool, from its arguments to its outcome.
use tydomio.Base.{Option, none, some, if◌then◌else◌, Result, ok, err, ◌>>=◌}
use tydomio.Base.Int.{ℤ}
use tydomio.Error.{Error, is_communication}
use tydomio.Model.{Config}
use tydomio.Installation.{Installation}
use tydomio.Cache.{Cache}
use tydomio.Requests.{Request}
use tydomio.Writes.{
  Reason, Seconds, Failure, refused, raised, Validation, Prepared, ShutterInput, HeatingInput,
  prepare_shutter, prepare_heating, synced_parts, count,
}

-- How the `send` of the client ends.
pub data Ending : Type 0 where
  answered : Ending
  failed : Error → Ending
  cancelled : Ending

-- What the client of the server sees: a report, or an exception that goes through the tool.
pub data Report (S : Type 0) : Type 0 where
  invalid_input : Report S
  not_sent : Reason → Option S → Report S
  acknowledged unknown : Report S
  escaped : Error → Report S
  interrupted : Report S

-- A call: its report, the request that it handed to `send`, and the time of the last send.
pub record Call (S : Type 0) : Type 0 where
  pub report : Report S
  pub sent : Option Request
  pub last_send : Option S

-- `_send_once`
unfoldable pub send_once : {S : Type 0} → Ending → Report S
send_once answered = acknowledged
send_once (failed e) = if is_communication e then unknown else escaped e
send_once cancelled = interrupted

-- The end of `_write`, from what steps 1 to 5 gave.
abbrev pub finish :
    {W S : Type 0} → Ending → Option S → Result (Failure S) (Prepared W × Option S) → Call S
finish ending last (err (refused reason retry)) = record {
  report = not_sent reason retry;
  sent = none;
  last_send = last;
}
finish ending last (err (raised e)) = record { report = escaped e; sent = none; last_send = last }
finish ending last (ok (prepared, counted)) = record {
  report = send_once ending;
  sent = some prepared.request;
  last_send = counted;
}

module _ {V T W S : Type 0} (seconds : Seconds S) (interval : S) where
  -- Steps 1 to 5: the freshness, the target and the fields, then the rate, with no await in between.
  unfoldable pub check :
      S
      → Option S
      → Cache V T
      → (Installation → Config → Result (Failure S) (Prepared W))
      → Result (Failure S) (Prepared W × Option S)
  unfolding synced_parts count
  check now last cache prepare = do
    (i, config) ← synced_parts cache
    prepared ← prepare i config
    counted ← count seconds interval now last
    ok (prepared, counted)

  -- `_write`, after the arguments were validated; `none` are arguments that pydantic refused.
  unfoldable pub write_call {ℓ} :
      {I : Type ℓ}
      → (I → Installation → Config → Result (Failure S) (Prepared W))
      → S
      → Ending
      → Cache V T
      → Option I
      → Option S
      → Call S
  unfolding check send_once
  write_call prepare now ending cache none last = record {
    report = invalid_input;
    sent = none;
    last_send = last;
  }
  write_call prepare now ending cache (some input) last =
      finish ending last (check now last cache (prepare input))

module _ {V T J W B S : Type 0} (v : Validation J W B) (seconds : Seconds S) (interval : S) where
  unfoldable pub set_shutter :
      ℤ → S → Ending → Cache V T → Option (ShutterInput J) → Option S → Call S
  unfolding write_call prepare_shutter
  set_shutter tid =
      write_call {V = V} {T = T} seconds interval
        (λ input i config. prepare_shutter v tid i config input)

  unfoldable pub set_heating :
      ℤ → S → Ending → Cache V T → Option (HeatingInput J) → Option S → Call S
  unfolding write_call prepare_heating
  set_heating tid =
      write_call {V = V} {T = T} seconds interval
        (λ input i config. prepare_heating v tid i config input)
