-- ===== src/Capture/Fetch/Tests.antt =====
-- A capture over two connections, and the theorems of the passes at it.
use tydomio.Base.{
  ℕ, ◌≡◌, refl, true, false, some, [], ◌∷◌, ◌==◌, nat_eq, list_eq, if◌then◌else◌, All, Result, ok,
  err, Bool-cases, inl, inr,
}
use tydomio.Base.Dict
use tydomio.Base.Dict.{Dict}
use tydomio.Base.Text.{Text, codes}
use tydomio.Response.{Response}
use tydomio.Capture.Json.{ParseFailure, not_json, invalid}
use tydomio.Capture.Fetch.{
  CapturedEndpoint, all_endpoints, Answer, reply, timed_out, lost, Fetcher, new_fetcher, call,
  calls, outcome_eq, EndpointResult, Outcome, response_result, is_lost,
}
use tydomio.Capture.Fetch.Passes.{Recorded, Answers, calls_complete, calls-final, call-completes}

-- A parser that knows one text only.
abbrev parse_any : Text → Result ParseFailure ℕ
parse_any content = if content == codes "[]" then ok 0 else err (not_json invalid)

abbrev fine : Response
fine = record { status = 200; headers = []; content = some (codes "[]") }

-- The connection is lost at the third endpoint.
abbrev breaks : Text → Answer
breaks url = if url == codes "/devices/cmeta" then lost else reply fine

-- All endpoints answer, one of them too late.
abbrev holds : Text → Answer
holds url = if url == codes "/info" then timed_out else reply fine

abbrev capture : Fetcher ℕ
capture = calls parse_any (breaks ∷ holds ∷ []) new_fetcher

abbrev first : CapturedEndpoint
first = record { url = codes "/configs/file"; file_name = codes "configs_file.json" }

abbrev first_result : EndpointResult ℕ
first_result = response_result parse_any first fine (some 0) Outcome.ok

broken : (call parse_any breaks new_fetcher).done ≡ false
unfolding call Dict.lookup list_eq nat_eq outcome_eq Dict.insert
broken = refl

complete : capture.done ≡ true
unfolding call Dict.lookup list_eq nat_eq outcome_eq Dict.insert
complete = refl

calls_complete_example : All (Recorded capture.results) all_endpoints
calls_complete_example = calls_complete parse_any (breaks ∷ holds ∷ []) complete

known :
    Dict.lookup (codes "/configs/file") (call parse_any breaks new_fetcher).results
    ≡ some first_result
unfolding call Dict.lookup list_eq nat_eq outcome_eq Dict.insert
known = refl

not_lost : is_lost first_result ≡ false
unfolding nat_eq outcome_eq
not_lost = refl

calls-final_example :
    Dict.lookup
      (codes "/configs/file")
      (calls parse_any (holds ∷ []) (call parse_any breaks new_fetcher)).results
    ≡ some first_result
calls-final_example =
    calls-final parse_any (holds ∷ []) (call parse_any breaks new_fetcher) (codes "/configs/file")
      first_result known not_lost

-- The last endpoint answers with what is no JSON.
abbrev odd : Response
odd = record { status = 200; headers = []; content = some (codes "?") }

abbrev answers_all : Text → Answer
answers_all url = if url == codes "/info" then reply odd else reply fine

all_answer : (url : Text) → Answers parse_any (answers_all url)
unfolding list_eq nat_eq
all_answer url = elim (Bool-cases (url == codes "/info")) [
  | inl last ↦ rw last (λ h. cc)
  | inr other ↦ rw other (λ h. cc)
]

call-completes_example :
    ((call parse_any answers_all (call parse_any breaks new_fetcher)).done ≡ true)
    × All
        (Recorded (call parse_any answers_all (call parse_any breaks new_fetcher)).results)
        all_endpoints
call-completes_example =
    call-completes parse_any answers_all (call parse_any breaks new_fetcher) all_answer
