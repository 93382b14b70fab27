-- ===== src/Capture/Fetch/Passes.antt =====
-- What the passes of a capture record, and when the capture is complete.
use tydomio.Base.{
  ◌≡◌, ◌≢◌, refl, Bool, true, false, Option, none, some, List, [], ◌∷◌, ◌==◌, list_eq, nat_eq,
  if◌then◌else◌, All, arith, Bool-cases, Option-cases, Result-cases, Result, err, inl, inr,
}
use mathlib.Core.Path.{subst, sym}
use tydomio.Base.Dict
use tydomio.Base.Dict.{Dict}
use tydomio.Base.Text.{Text}
use tydomio.Response.{Response}
use tydomio.Requests.{or_empty}
use tydomio.Capture.Json.{ParseFailure, not_json, conversion_error}
use tydomio.Capture.Fetch.{
  CapturedEndpoint, all_endpoints, EndpointResult, Answer, Fetcher, new_fetcher, is_lost,
  is_recorded, fetch, record_result, pass, call, calls, outcome_eq, response_result, Outcome,
  communication_error, failure, timeout, reply, timed_out, lost, stopped,
}

abbrev pub Recorded : {J : Type 0} → Dict Text (EndpointResult J) → CapturedEndpoint → Type 0
Recorded results e = is_recorded (Dict.lookup e.url results) ≡ true

-- An answer that keeps the pass going: a timeout, or a response of any status and content, except a
-- content on which `parse_json` raises the `ValueError`.
abbrev pub Answers : {J : Type 0} → (Text → Result ParseFailure J) → Answer → Type 0
Answers parse_json (reply r) = parse_json (or_empty r.content) ≢ err conversion_error
Answers parse_json timed_out = Unit
Answers parse_json lost = ⊥
Answers parse_json stopped = ⊥

module _ {J : Type 0} (parse_json : Text → Result ParseFailure J) (answer : Text → Answer) where
  -- A result other than a lost connection is final.
  pub pass-final :
      (es : List CapturedEndpoint) (results : Dict Text (EndpointResult J)) (url : Text)
      (r : EndpointResult J)
      → Dict.lookup url results ≡ some r
      → is_lost r ≡ false
      → Dict.lookup url (pass parse_json answer es results).0 ≡ some r
  unfolding pass
  pass-final [] results url r known final = known
  pass-final (e ∷ es) results url r known final =
      elim (Bool-cases (is_recorded (Dict.lookup e.url results))) [
        | inl skips ↦ rw skips (pass-final es results url r known final)
        | inr asks ↦ elim (Option-cases (fetch parse_json e (answer e.url))) [
          | inl nothing ↦ ground arith
          | inr (found, given) ↦ ground (
            arith,
            Dict.lookup-insert url e.url found results,
            pass-final es (Dict.insert e.url found results) url r,
          )
        ]
      ]

  pass-Recorded :
      (es : List CapturedEndpoint) (results : Dict Text (EndpointResult J)) (e : CapturedEndpoint)
      → Recorded results e
      → Recorded (pass parse_json answer es results).0 e
  pass-Recorded es results e h = elim (Option-cases (Dict.lookup e.url results)) [
    | inl missing ↦ absurd (ground arith)
    | inr (r, known) ↦ ground (arith, pass-final es results e.url r)
  ]

  pass-skips :
      (e : CapturedEndpoint) (es : List CapturedEndpoint) (results : Dict Text (EndpointResult J))
      → Recorded results e
      → pass parse_json answer (e ∷ es) results ≡ pass parse_json answer es results
  unfolding pass
  pass-skips e es results h = rw h

  pass-asks :
      (e : CapturedEndpoint) (es : List CapturedEndpoint) (results : Dict Text (EndpointResult J))
      → is_recorded (Dict.lookup e.url results) ≡ false
      → pass parse_json answer (e ∷ es) results
        ≡ record_result parse_json
            (pass parse_json answer es)
            e
            results
            (fetch parse_json e (answer e.url))
  unfolding pass
  pass-asks e es results h = rw h

  record_result-goes_on :
      (e : CapturedEndpoint) (es : List CapturedEndpoint) (results : Dict Text (EndpointResult J))
      (r : EndpointResult J)
      → is_lost r ≡ false
      → record_result parse_json (pass parse_json answer es) e results (some r)
        ≡ pass parse_json answer es (Dict.insert e.url r results)
  record_result-goes_on e es results r h = rw h

  -- All the endpoints are recorded in what a pass leaves.
  Covers : Dict Text (EndpointResult J) × Bool → List CapturedEndpoint → Type 0
  Covers x es = All (Recorded x.0) es

  -- A pass that comes to its end has recorded every endpoint.
  pass_complete :
      (es : List CapturedEndpoint) (results : Dict Text (EndpointResult J))
      → (pass parse_json answer es results).1 ≡ true
      → Covers (pass parse_json answer es results) es
  unfolding Covers
  pass_complete [] results h = tt
  pass_complete (e ∷ es) results h = elim (Bool-cases (is_recorded (Dict.lookup e.url results))) [
    | inl skips ↦
        subst (λ x. Covers x (e ∷ es)) (sym (pass-skips e es results skips))
          (
            pass-Recorded es results e skips,
            pass_complete es results (rw (pass-skips e es results skips) at h),
          )
    | inr asks ↦
        subst (λ x. Covers x (e ∷ es)) (sym (pass-asks e es results asks))
          (asked (fetch parse_json e (answer e.url)) (rw (pass-asks e es results asks) at h)
            (λ d. pass_complete es d))
  ]
    where
      asked :
          (o : Option (EndpointResult J))
          → (record_result parse_json (pass parse_json answer es) e results o).1 ≡ true
          → ((d : Dict Text (EndpointResult J))
              → (pass parse_json answer es d).1 ≡ true
              → Covers (pass parse_json answer es d) es)
          → Covers (record_result parse_json (pass parse_json answer es) e results o) (e ∷ es)
      asked none g ih = cc
      asked (some r) g ih = elim (Bool-cases (is_lost r)) [
        | inl is_gone ↦ absurd (ground arith)
        | inr kept ↦
            subst (λ x. Covers x (e ∷ es)) (sym (record_result-goes_on e es results r kept))
              (
                pass-Recorded es (Dict.insert e.url r results) e
                    (ground (arith, Dict.lookup-insert e.url e.url r results)),
                ih (Dict.insert e.url r results)
                    (rw (record_result-goes_on e es results r kept) at g),
              )
      ]

  kept_outcome :
      (e : CapturedEndpoint) (r : Response) (body : Option J) (outcome : Outcome)
      → (outcome == communication_error) ≡ false
      → is_lost (response_result parse_json e r body outcome) ≡ false
  unfolding outcome_eq
  kept_outcome e r body outcome h = elim (Bool-cases (r.status == 200)) [
    | inl fine ↦ rw fine h
    | inr other ↦ rw other refl
  ]

  fetch-Answers :
      (e : CapturedEndpoint) (a : Answer)
      → Answers parse_json a
      → (r : EndpointResult J) × (fetch parse_json e a ≡ some r) × (is_lost r ≡ false)
  unfolding fetch outcome_eq
  fetch-Answers e (reply r) h = elim (Result-cases (parse_json (or_empty r.content))) [
    | inl (not_json reason, refused) ↦ (
      response_result parse_json e r none Outcome.not_json,
      rw refused refl,
      kept_outcome e r none Outcome.not_json refl,
    )
    | inl (conversion_error, raises) ↦ absurd (h raises)
    | inr (body, right) ↦ (
      response_result parse_json e r (some body) Outcome.ok,
      rw right refl,
      kept_outcome e r (some body) Outcome.ok refl,
    )
  ]
  fetch-Answers e timed_out h = (failure parse_json e timeout, refl, ground arith)
  fetch-Answers e lost h = absurd h
  fetch-Answers e stopped h = absurd h

  pass-ends :
      (es : List CapturedEndpoint) (results : Dict Text (EndpointResult J))
      → ((url : Text) → Answers parse_json (answer url))
      → (pass parse_json answer es results).1 ≡ true
  unfolding pass
  pass-ends [] results h = refl
  pass-ends (e ∷ es) results h =
      let (r, found, kept) = fetch-Answers e (answer e.url) (h e.url) in
      ground (arith, pass-ends es results h, pass-ends es (Dict.insert e.url r results) h)

module _ {J : Type 0} (parse_json : Text → Result ParseFailure J) where
  -- What is recorded stays recorded through a pass.
  pass-All :
      (answer : Text → Answer) (es fs : List CapturedEndpoint)
      (results : Dict Text (EndpointResult J))
      → All (Recorded results) fs
      → All (Recorded (pass parse_json answer es results).0) fs
  pass-All answer es [] results h = tt
  pass-All answer es (e ∷ fs) results h =
      (pass-Recorded parse_json answer es results e h.0, pass-All answer es fs results h.1)

  -- A pass leaves every endpoint recorded if it came to its end, or if they were already.
  pass-done :
      (answer : Text → Answer) (es : List CapturedEndpoint) (results : Dict Text (EndpointResult J))
      (before : Bool)
      → (before ≡ true → All (Recorded results) es)
      → (if (pass parse_json answer es results).1 then true else before) ≡ true
      → All (Recorded (pass parse_json answer es results).0) es
  unfolding Covers
  pass-done answer es results before h d = elim (Bool-cases (pass parse_json answer es results).1) [
    | inl ended ↦ pass_complete parse_json answer es results ended
    | inr broken ↦ pass-All answer es es results (h (ground arith))
  ]

  call-done :
      (answer : Text → Answer) (f : Fetcher J)
      → (f.done ≡ true → All (Recorded f.results) all_endpoints)
      → (call parse_json answer f).done ≡ true
      → All (Recorded (call parse_json answer f).results) all_endpoints
  unfolding call
  call-done answer f h d = pass-done answer all_endpoints f.results f.done h d

  -- Whatever the connections of a capture go through, `done` is set only when every endpoint of the
  -- table has a result that is not a lost connection.
  pub calls_complete :
      (answers : List (Text → Answer))
      → (calls parse_json answers new_fetcher).done ≡ true
      → All (Recorded (calls parse_json answers new_fetcher).results) all_endpoints
  calls_complete answers d = from_any answers new_fetcher (λ e. absurd (ground arith)) d
    where
      from_any :
          (answers : List (Text → Answer)) (f : Fetcher J)
          → (f.done ≡ true → All (Recorded f.results) all_endpoints)
          → (calls parse_json answers f).done ≡ true
          → All (Recorded (calls parse_json answers f).results) all_endpoints
      from_any [] f h d = h d
      from_any (answer ∷ more) f h d =
          from_any more (call parse_json answer f) (call-done answer f h) d

  -- A result other than a lost connection is never asked for again: it is what every later connection
  -- of the capture leaves for that url.
  pub calls-final :
      (answers : List (Text → Answer)) (f : Fetcher J) (url : Text) (r : EndpointResult J)
      → Dict.lookup url f.results ≡ some r
      → is_lost r ≡ false
      → Dict.lookup url (calls parse_json answers f).results ≡ some r
  unfolding call
  calls-final [] f url r known final = known
  calls-final (answer ∷ more) f url r known final =
      calls-final more (call parse_json answer f) url r
        (pass-final parse_json answer all_endpoints f.results url r known final) final

  -- One connection on which every endpoint is answered, by a timeout or by a response of any status and
  -- content, except a content on which the parser raises the `ValueError` of an int with too many
  -- digits, completes the capture, whatever earlier connections have left.
  pub call-completes :
      (answer : Text → Answer) (f : Fetcher J)
      → ((url : Text) → Answers parse_json (answer url))
      → ((call parse_json answer f).done ≡ true)
        × All (Recorded (call parse_json answer f).results) all_endpoints
  unfolding call Covers
  call-completes answer f h =
      let ends = pass-ends parse_json answer all_endpoints f.results h in
      (rw ends refl, pass_complete parse_json answer all_endpoints f.results ends)
