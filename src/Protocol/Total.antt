-- ===== src/Protocol/Total.antt =====
-- Every failure of `parse_message`: which exceptions leave it, and for which messages.
use tydomio.Base.{
  ◌≡◌, refl, ◌⊎◌, inl, inr, true, false, some, Option, List, [], ◌∷◌, ◌++◌, ◌==◌, list_eq, nat_eq,
  arith, ok, err, Option-cases, Bool-cases, Result-cases, List-cases,
}
use tydomio.Base.Text.{
  Text, codes, crlf, partition, split_lines, split_on, starts_with, remove_prefix,
}
use tydomio.Error.{Error, is_malformed, invalid_request, invalid_response}
use tydomio.Model.{DevicesData, AreasData}
use tydomio.Response.{Headers}
use tydomio.Requests.{Request}
use tydomio.Protocol.{
  Loaded, escapes, loaded, Split, not_json, Message, devices_push, areas_push, pushed, with_header,
  read_headers, decode_content, split_head, split_message, read_status, parse_response,
  parse_json_request, dispatch, request_line, request_of, parse_request, parse_message,
}
use tydomio.Protocol.Chunked.{decode_chunked-error}

read_headers-error :
    (error e : Error) (lines : List Text) (headers : Headers)
    → read_headers error lines headers ≡ err e
    → e ≡ error
unfolding read_headers
read_headers-error error e [] headers h = cc
read_headers-error error e (line ∷ lines) headers h =
    elim (Option-cases (with_header line headers)) [
      | inl wrong ↦ ground arith
      | inr (more, right) ↦ ground (arith, read_headers-error error e lines more)
    ]

decode_content-error :
    (body : Text) (headers : Headers) (error e : Error)
    → decode_content body headers error ≡ err e
    → e ≡ error
unfolding decode_content
decode_content-error body headers error e h = ground (arith, decode_chunked-error body error e)

split_head-error :
    (error e : Error) (body start_line : Text) (lines : List Text)
    → split_head error body start_line lines ≡ err e
    → e ≡ error
unfolding split_head
split_head-error error e body start_line lines h =
    elim (Result-cases (read_headers error lines [])) [
      | inl (x, wrong) ↦ ground (arith, read_headers-error error e lines [])
      | inr (headers, right) ↦ ground (arith, decode_content-error body headers error e)
    ]

split_message-error :
    (message : Text) (error e : Error) → split_message message error ≡ err e → e ≡ error
unfolding split_message
split_message-error message error e h = elim (Option-cases (partition message (crlf ++ crlf))) [
  | inl missing ↦ ground arith
  | inr ((top, body), found) ↦ elim (List-cases (split_lines top)) [
    | inl nothing ↦ ground arith
    | inr (start_line, lines, parts) ↦
        ground (arith, split_head-error error e body start_line lines)
  ]
]

parse_response-error :
    (message : Text) (e : Error) → parse_response message ≡ err e → e ≡ invalid_response
unfolding parse_response
parse_response-error message e h = elim (Result-cases (split_message message invalid_response)) [
  | inl (x, wrong) ↦ ground (arith, split_message-error message invalid_response e)
  | inr (s, right) ↦ elim (Option-cases (read_status s.start_line)) [
    | inl wrong ↦ ground arith
    | inr (status, known) ↦ ground arith
  ]
]

Loaded-cases : (l : Loaded) → (l ≡ escapes) ⊎ ((l ≡ loaded) ⊎ (l ≡ not_json))
Loaded-cases loaded = inr (inl refl)
Loaded-cases not_json = inr (inr refl)
Loaded-cases escapes = inl refl

-- The message has a content, on which `json.loads` raises something else than a `JSONDecodeError`.
abbrev pub ContentEscapes : (Text → Loaded) → Text → Type 0
ContentEscapes loads message =
    (s : Split) × (content : Text) × (split_message message invalid_request ≡ ok s)
    × (s.content ≡ some content)
    × (loads content ≡ escapes)

module _ {V : Type 0} (loads : Text → Loaded) (devices : Text → Option (DevicesData V))
    (areas : Text → Option (AreasData V)) where
  -- A JSON request is refused as malformed, or `json.loads` raised something else on its content.
  abbrev Escapes : Request → Error → Type 0
  Escapes r e =
      (is_malformed e ≡ true)
      ⊎ ((content : Text) × (r.content ≡ some content) × (loads content ≡ escapes))

  parse_json_request-error :
      (r : Request) (e : Error) → parse_json_request loads devices areas r ≡ err e → Escapes r e
  unfolding parse_json_request
  parse_json_request-error r e h = elim (Option-cases r.content) [
    | inl empty ↦ inl (ground arith)
    | inr (content, some_content) ↦ elim (Loaded-cases (loads content)) [
      | inl raises ↦ inr (content, some_content, raises)
      | inr fine ↦ inl (ground arith)
    ]
  ]

  pushed-error :
      {A : Type 0} (model : Text → Option A) (make : Request → A → Message V) (r : Request)
      (e : Error)
      → pushed loads devices areas model make r ≡ err e
      → Escapes r e
  pushed-error model make r e h = elim (Option-cases r.content) [
    | inl empty ↦ parse_json_request-error r e (ground arith)
    | inr (content, some_content) ↦ elim (Option-cases (model content)) [
      | inl invalid ↦ parse_json_request-error r e (ground arith)
      | inr (a, valid) ↦ inl (ground arith)
    ]
  ]

  dispatch-error : (r : Request) (e : Error) → dispatch loads devices areas r ≡ err e → Escapes r e
  unfolding dispatch
  dispatch-error r e h = elim (Bool-cases (r.method == codes "PUT")) [
    | inr other ↦ parse_json_request-error r e (rw other at h)
    | inl put ↦ elim (Bool-cases (r.url == codes "/devices/data")) [
      | inl found ↦ pushed-error devices devices_push r e (rw (put) at (rw found at h))
      | inr other ↦ elim (Bool-cases (r.url == codes "/areas/data")) [
        | inl found ↦ pushed-error areas areas_push r e (ground arith)
        | inr neither ↦ parse_json_request-error r e (ground arith)
      ]
    ]
  ]

  parse_request-error :
      (message : Text) (e : Error)
      → parse_request loads devices areas message ≡ err e
      → (is_malformed e ≡ true) ⊎ ContentEscapes loads message
  unfolding parse_request
  parse_request-error message e h = elim (Result-cases (split_message message invalid_request)) [
    | inl (x, wrong) ↦ inl (ground (arith, split_message-error message invalid_request e))
    | inr (s, right) ↦ elim (Option-cases (request_line (split_on 32 s.start_line))) [
      | inl wrong ↦ inl (ground arith)
      | inr (line, found) ↦ elim (dispatch-error (request_of s line) e (ground arith)) [
        | inl malformed ↦ inl malformed
        | inr (content, known, raises) ↦ inr (s, content, right, known, raises)
      ]
    ]
  ]

  -- Whatever bytes the Tydom sends, `parse_message` returns, or raises the `InvalidRequest` or
  -- `InvalidResponse` that the reading loop catches, or it is no response, it splits into its parts, and
  -- `json.loads` raises another exception on the very content of this message.
  pub parse_message-error :
      (message cmd_prefix : Text) (e : Error)
      → parse_message loads devices areas message cmd_prefix ≡ err e
      → (is_malformed e ≡ true)
        ⊎ ((starts_with (remove_prefix message cmd_prefix) (codes "HTTP/1.1 ") ≡ false)
            × ContentEscapes loads (remove_prefix message cmd_prefix))
  unfolding parse_message
  parse_message-error message cmd_prefix e h =
      elim (Bool-cases (starts_with (remove_prefix message cmd_prefix) (codes "HTTP/1.1 "))) [
        | inr other ↦
            elim (parse_request-error (remove_prefix message cmd_prefix) e (rw other at h)) [
              | inl malformed ↦ inl malformed
              | inr raises ↦ inr (other, raises)
            ]
        | inl answer ↦ elim (Result-cases (parse_response (remove_prefix message cmd_prefix))) [
          | inl (x, wrong) ↦
              inl (ground (arith, parse_response-error (remove_prefix message cmd_prefix) e))
          | inr (r, right) ↦ inl (ground arith)
        ]
      ]
