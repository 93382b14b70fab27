-- ===== src/Protocol.antt =====
-- tydomio/protocol.py: from the bytes of the websocket to a response or a request. `loads` is
-- `json.loads`, `devices` and `areas` are pydantic's `model_validate_json` of the pushed data.
pub mod Chunked
pub mod Total
pub mod Tests
pub mod Received
pub mod Sent
pub mod RoundTrip
use tydomio.Base.{
  ℕ, zero, suc, ◌+◌, ◌≤◌, Bool, true, false, not, ◌&&◌, ◌||◌, Option, none, some, List, [], ◌∷◌,
  ◌++◌, ◌==◌, nat_eq, list_eq, option_eq, if◌then◌else◌, contains, length, take, drop, all, Result,
  ok, err, ◌>>=◌,
}
use tydomio.Base.Int.{ℤ}
use tydomio.Base.Dict
use tydomio.Base.Dict.{Dict}
use tydomio.Base.Text.{
  Text, codes, crlf, lower, strip, partition, remove_prefix, starts_with, split_on, split_lines,
  is_ascii, is_str_space, is_byte_space,
}
use tydomio.Base.Text.Number.{read_nat, read_hex, is_digit}
use tydomio.Error.{Error, invalid_request, invalid_response, unexpected}
use tydomio.Model.{DevicesData, AreasData}
use tydomio.Response.{Headers, Response, before_first, has_json_content, is_none}
use tydomio.Requests.{Request, or_empty}

-- `body.find(b"\r\n")` from the position that is read next: the size line and what follows it.
abbrev pub next_line : Text → Option (Text × Text)
next_line body = partition body crlf

-- The size of a chunk: extensions and white space dropped, then hexadecimal digits.
unfoldable pub chunk_size : Text → Option ℕ
chunk_size line = read_hex (strip is_byte_space (before_first (split_on b';' line)))

-- The outcome of a round of the loop of `_decode_chunked`.
pub data Round : Type 0 where
  failed : Round
  last : Text → Round
  chunk : Text → Text → Round

-- One round, from the bytes not read yet. A chunk gives its bytes and what is left.
abbrev pub sized : ℕ → Text → Round
sized zero after = last after
sized (suc n) after =
    if take 2 (drop (suc n) after) == crlf
    then chunk (take (suc n) after) (drop 2 (drop (suc n) after))
    else failed

unfoldable pub round : Text → Round
unfolding chunk_size
round body = elim (next_line body) [
  | none ↦ failed
  | some (line, after) ↦ elim (chunk_size line) [ none ↦ failed | some n ↦ sized n after ]
]

-- The rest of the loop after a round, where `again` is the next round.
abbrev pub after_round :
    Error → (Text → Text → Result Error Text) → Round → Text → Result Error Text
after_round error again failed content = err error
after_round error again (last after) content = if after == crlf then ok content else err error
after_round error again (chunk bytes rest) content = again rest (content ++ bytes)

-- The loop, with fuel: every round reads bytes, so the length of the body is enough.
unfoldable pub decode_loop : Error → ℕ → Text → Text → Result Error Text
decode_loop error zero body content = err unexpected
decode_loop error (suc fuel) body content =
    after_round error (decode_loop error fuel) (round body) content

unfoldable pub decode_chunked : Text → Error → Result Error Text
unfolding decode_loop
decode_chunked body error = decode_loop error (suc (length body)) body []

unfoldable pub decode_content : Text → Headers → Error → Result Error Text
unfolding decode_chunked
decode_content body headers error = elim (Dict.lookup (codes "transfer-encoding") headers) [
  | none ↦ ok body
  | some coding ↦ if lower coding == codes "chunked" then decode_chunked body error else err error
]

-- `headers[name.strip().lower()] = value.strip()` for a line with a colon.
unfoldable pub with_header : Text → Headers → Option Headers
with_header line headers = elim (partition line (codes ":")) [
  | none ↦ none
  | some (name, value) ↦
      some (Dict.insert (lower (strip is_str_space name)) (strip is_str_space value) headers)
]

-- The loop over the header lines.
unfoldable pub read_headers : Error → List Text → Headers → Result Error Headers
unfolding with_header
read_headers error [] headers = ok headers
read_headers error (line ∷ lines) headers = elim (with_header line headers) [
  | none ↦ err error
  | some more ↦ read_headers error lines more
]

-- `content or None`
abbrev pub or_none : Text → Option Text
or_none [] = none
or_none (c ∷ s) = some (c ∷ s)

pub record Split : Type 0 where
  pub start_line : Text
  pub headers : Headers
  pub content : Option Text

unfoldable pub split_head : Error → Text → Text → List Text → Result Error Split
unfolding read_headers decode_content
split_head error body start_line lines = do
  headers ← read_headers error lines []
  content ← decode_content body headers error
  ok (record { start_line = start_line; headers = headers; content = or_none content })

abbrev pub with_lines : Error → Text → List Text → Result Error Split
with_lines error body [] = err error
with_lines error body (start_line ∷ lines) = split_head error body start_line lines

-- `_split_message`
unfoldable pub split_message : Text → Error → Result Error Split
unfolding split_head
split_message message error = elim (partition message (crlf ++ crlf)) [
  | none ↦ err error
  | some (top, body) ↦ if is_ascii top then with_lines error body (split_lines top) else err error
]

-- `HTTP/1\.1 (\d{3})(?: .*)?`, matched whole: the three digits.
abbrev pub rest_of_status : Text → Bool
rest_of_status [] = true
rest_of_status (c ∷ s) = c == 32 && all (λ d. not (d == 10)) s

abbrev pub three_digits : Text → Option ℕ
three_digits (a ∷ b ∷ c ∷ s) =
    if is_digit a && is_digit b && is_digit c && rest_of_status s
    then read_nat (a ∷ b ∷ c ∷ [])
    else none
three_digits _ = none

unfoldable pub read_status : Text → Option ℕ
unfolding read_nat
read_status line = if starts_with line (codes "HTTP/1.1 ") then three_digits (drop 9 line) else none

unfoldable pub parse_response : Text → Result Error Response
unfolding split_message read_status
parse_response message = do
  s ← split_message message invalid_response
  elim (read_status s.start_line) [
    | none ↦ err invalid_response
    | some status ↦ ok (record { status = status; headers = s.headers; content = s.content })
  ]

-- What `json.loads` does: it returns, raises a `JSONDecodeError`, or raises another error (a
-- `UnicodeDecodeError` of bytes that are no text, a `RecursionError`).
pub data Loaded : Type 0 where
  loaded not_json escapes : Loaded

pub data Message (V : Type 0) : Type 0 where
  response : Response → Message V
  devices_push : Request → DevicesData V → Message V
  areas_push : Request → AreasData V → Message V
  json_request : Request → Message V

abbrev pub request_line : List Text → Option (Text × Text)
request_line (method ∷ url ∷ version ∷ []) =
    if version == codes "HTTP/1.1" then some (method, url) else none
request_line _ = none

abbrev pub request_of : Split → Text × Text → Request
request_of s (method, url) = record {
  method = method;
  url = url;
  headers = s.headers;
  content = s.content;
  transaction_id = none;
}

module _ {V : Type 0} (loads : Text → Loaded) (devices : Text → Option (DevicesData V))
    (areas : Text → Option (AreasData V)) where
  -- `JsonRequest.__init__`
  unfoldable pub parse_json_request : Request → Result Error (Message V)
  parse_json_request r =
      if has_json_content r.headers
      then elim r.content [
        | none ↦ ok (json_request r)
        | some content ↦ elim (loads content) [
          | loaded ↦ ok (json_request r)
          | not_json ↦ err invalid_request
          | escapes ↦ err unexpected
        ]
      ]
      else err invalid_request

  -- `TydomRequest.__init__`: the data of a pushed request, validated by `model`.
  abbrev pub tydom_request {ℓ} :
      {A : Type ℓ}
      → (Text → Option A)
      → (Request → A → Message V)
      → Request
      → Result Error (Message V)
  tydom_request model make r = elim r.content [
    | none ↦ err invalid_request
    | some content ↦ elim (model content) [ none ↦ err invalid_request | some a ↦ ok (make r a) ]
  ]

  -- Without its data, a pushed request is read as a JSON request.
  abbrev pub pushed {ℓ} :
      {A : Type ℓ}
      → (Text → Option A)
      → (Request → A → Message V)
      → Request
      → Result Error (Message V)
  pushed model make r = elim (tydom_request model make r) [
    | ok m ↦ ok m
    | err e ↦ parse_json_request r
  ]

  -- The `match` on the method and the url.
  unfoldable pub dispatch : Request → Result Error (Message V)
  unfolding parse_json_request
  dispatch r =
      if r.method == codes "PUT"
      then if r.url == codes "/devices/data"
        then pushed devices devices_push r
        else if r.url == codes "/areas/data"
        then pushed areas areas_push r
        else parse_json_request r
      else parse_json_request r

  unfoldable pub parse_request : Text → Result Error (Message V)
  unfolding split_message dispatch
  parse_request message = do
    s ← split_message message invalid_request
    elim (request_line (split_on 32 s.start_line)) [
      | none ↦ err invalid_request
      | some line ↦ dispatch (request_of s line)
    ]

  unfoldable pub parse_message : Text → Text → Result Error (Message V)
  unfolding parse_request parse_response
  parse_message message cmd_prefix =
      let bare = remove_prefix message cmd_prefix in
      if starts_with bare (codes "HTTP/1.1 ")
      then (do r ← parse_response bare; ok (response r))
      else parse_request bare
