-- ===== src/Capture/Fetch.antt =====
-- tydomio/capture/fetch.py: fetching the captured endpoints, over as many connections as it takes.
-- `J` is the type of JSON values and `parse_json` the strict parser of jsonvalue.py, which gives a value,
-- raises `NotJson`, or raises the `ValueError` that it does not catch.
pub mod Passes
pub mod Tests
use tydomio.Base.{
  ℕ, Bool, true, false, not, Option, none, some, List, [], ◌∷◌, map, ◌==◌, Eq, nat_eq, list_eq,
  if◌then◌else◌, length, all, any, Result, ok as gives, err as raises,
}
use tydomio.Base.Dict
use tydomio.Base.Dict.{Dict}
use tydomio.Base.Text.{Text, codes}
use tydomio.Response.{Response}
use tydomio.Requests.{or_empty}
use tydomio.Capture.Json.{ParseFailure, not_json as refused, conversion_error}

pub record CapturedEndpoint : Type 0 where
  pub url : Text
  pub file_name : Text

abbrev captured : Text → Text → CapturedEndpoint
captured url file_name = record { url = url; file_name = file_name }

-- `ENDPOINTS`
abbrev pub all_endpoints : List CapturedEndpoint
all_endpoints =
    captured (codes "/configs/file") (codes "configs_file.json")
    ∷ captured (codes "/devices/meta") (codes "devices_meta.json")
    ∷ captured (codes "/devices/cmeta") (codes "devices_cmeta.json")
    ∷ captured (codes "/devices/data") (codes "devices_data.json")
    ∷ captured (codes "/areas/meta") (codes "areas_meta.json")
    ∷ captured (codes "/areas/cmeta") (codes "areas_cmeta.json")
    ∷ captured (codes "/areas/data") (codes "areas_data.json")
    ∷ captured (codes "/groups/file") (codes "groups_file.json")
    ∷ captured (codes "/scenarios/file") (codes "scenarios_file.json")
    ∷ captured (codes "/moments/file") (codes "moments_file.json")
    ∷ captured (codes "/protocols") (codes "protocols.json")
    ∷ captured (codes "/info") (codes "info.json")
    ∷ []

pub data Outcome : Type 0 where
  ok http_error not_json timeout communication_error not_fetched : Outcome

Outcome-discrete : Discrete Outcome
Outcome-discrete = hlevel

instance unfoldable pub outcome_eq : Eq Outcome
unfolding Outcome-discrete
outcome_eq = record { dec = Outcome-discrete }

pub record EndpointResult (J : Type 0) : Type 0 where
  pub endpoint : CapturedEndpoint
  pub outcome : Outcome
  pub status : Option ℕ
  pub body : Option J
  pub body_length : Option ℕ

-- How the `send` of the client ends: a response, a `CommunicationError` raised from a `TimeoutError` or
-- not, or another exception, such as the cancellation of the pass.
pub data Answer : Type 0 where
  reply : Response → Answer
  timed_out lost stopped : Answer

module _ {J : Type 0} (parse_json : Text → Result ParseFailure J) where
  abbrev pub failure : CapturedEndpoint → Outcome → EndpointResult J
  failure e outcome = record {
    endpoint = e;
    outcome = outcome;
    status = none;
    body = none;
    body_length = none;
  }

  -- The result of a response, from its body and the outcome of reading it.
  abbrev pub response_result : CapturedEndpoint → Response → Option J → Outcome → EndpointResult J
  response_result e r body outcome = record {
    endpoint = e;
    outcome = if r.status == 200 then outcome else http_error;
    status = some r.status;
    body = body;
    body_length = some (length (or_empty r.content));
  }

  -- A `NotJson` is an outcome; the `ValueError` goes through.
  abbrev pub received :
      CapturedEndpoint → Response → Result ParseFailure J → Option (EndpointResult J)
  received e r (gives body) = some (response_result e r (some body) ok)
  received e r (raises (refused reason)) = some (response_result e r none not_json)
  received e r (raises conversion_error) = none

  -- `_fetch`; `none` is an exception that goes through.
  unfoldable pub fetch : CapturedEndpoint → Answer → Option (EndpointResult J)
  fetch e (reply r) = received e r (parse_json (or_empty r.content))
  fetch e timed_out = some (failure e timeout)
  fetch e lost = some (failure e communication_error)
  fetch e stopped = none

abbrev pub is_lost : {J : Type 0} → EndpointResult J → Bool
is_lost r = r.outcome == communication_error

pub record Fetcher (J : Type 0) : Type 0 where
  pub results : Dict Text (EndpointResult J)
  pub connected : Bool
  pub done : Bool

-- `Fetcher()`
abbrev pub new_fetcher : {J : Type 0} → Fetcher J
new_fetcher = record { results = []; connected = false; done = false }

-- Whether a pass skips an endpoint.
abbrev pub is_recorded : {J : Type 0} → Option (EndpointResult J) → Bool
is_recorded none = false
is_recorded (some r) = not (is_lost r)

module _ {J : Type 0} (parse_json : Text → Result ParseFailure J) where
  -- After a result: it is recorded, and a lost connection ends the pass.
  abbrev pub record_result :
      (Dict Text (EndpointResult J) → Dict Text (EndpointResult J) × Bool)
      → CapturedEndpoint
      → Dict Text (EndpointResult J)
      → Option (EndpointResult J)
      → Dict Text (EndpointResult J) × Bool
  record_result again e results none = (results, false)
  record_result again e results (some r) =
      let more = Dict.insert e.url r results in if is_lost r then (more, false) else again more

  -- The loop of `__call__` over the endpoints, `answer` being what the client gives for each; whether
  -- it came to its end.
  unfoldable pub pass :
      (Text → Answer)
      → List CapturedEndpoint
      → Dict Text (EndpointResult J)
      → Dict Text (EndpointResult J) × Bool
  unfolding fetch
  pass answer [] results = (results, true)
  pass answer (e ∷ es) results =
      if is_recorded (Dict.lookup e.url results)
      then pass answer es results
      else record_result (pass answer es) e results (fetch parse_json e (answer e.url))

  -- `__call__`
  unfoldable pub call : (Text → Answer) → Fetcher J → Fetcher J
  unfolding pass
  call answer f =
      let (results, complete) = pass answer all_endpoints f.results in
      record { results = results; connected = true; done = if complete then true else f.done }

  -- The calls of a run, one for each connection.
  abbrev pub calls : List (Text → Answer) → Fetcher J → Fetcher J
  calls [] f = f
  calls (answer ∷ more) f = calls more (call answer f)

abbrev or_not_fetched :
    {J : Type 0} → CapturedEndpoint → Option (EndpointResult J) → EndpointResult J
or_not_fetched e none = record {
  endpoint = e;
  outcome = not_fetched;
  status = none;
  body = none;
  body_length = none;
}
or_not_fetched e (some r) = r

-- The results that `run_capture` returns.
unfoldable pub capture_results : {J : Type 0} → Fetcher J → Dict Text (EndpointResult J)
capture_results f =
    Dict.insert_all
      (map (λ (e : CapturedEndpoint). (e.url, or_not_fetched e (Dict.lookup e.url f.results)))
        all_endpoints)
      []

-- How the waiting of `run_capture` ended: `run_websocket` returned or raised, the pass ended, or the
-- deadline passed.
pub data Finished : Type 0 where
  run_ended pass_ended deadline_passed : Finished

pub data Capture (J : Type 0) : Type 0 where
  client_stopped never_connected : Capture J
  captured_all : Dict Text (EndpointResult J) → Capture J

-- `run_capture`
unfoldable pub run_capture : {J : Type 0} → Finished → Fetcher J → Capture J
unfolding capture_results
run_capture run_ended f = client_stopped
run_capture _ f = if f.connected then captured_all (capture_results f) else never_connected
