-- ===== src/Protocol/Tests.antt =====
-- Runs of the parser, and its theorems at concrete messages.
use tydomio.Base.{
  ℕ, zero, suc, ◌≡◌, refl, ap, ◌≢◌, ◌↔◌, ◌⊎◌, inl, inr, true, false, Option, none, some, List, [],
  ◌∷◌, ◌++◌, map, nat_eq, list_eq, option_eq, arith, Result, ok, err, if◌then◌else◌, length,
  length-append, take, drop, Option-cases,
}
use tydomio.Base.Int.{pos}
use tydomio.Base.Dict
use tydomio.Base.Text.{
  Text, codes, crlf, lower, strip, partition, split_on, split_lines, starts_with, remove_prefix,
  is_ascii, join,
}
use tydomio.Base.Text.Number.{read_hex}
use tydomio.Error.{invalid_request, invalid_response, is_malformed}
use tydomio.Requests.{
  ping_request, refresh_all, get_config_file, Request, to_bytes, make_headers, sized_headers,
  needs_length, needs_transac_id, head,
}
use tydomio.Protocol.{Loaded, loaded, decode_chunked, round, parse_message, dispatch}
use tydomio.Protocol.Chunked.{Encodes, decode_chunked_iff, decode_chunked-error}
use tydomio.Protocol.Total.{ContentEscapes, parse_message-error}
use tydomio.Protocol.RoundTrip.{parse_message-to_bytes}
use tydomio.Protocol.Received.{IsClean, received_headers}

abbrev body : Text
body = codes "3" ++ (crlf ++ (codes "abc" ++ (crlf ++ (codes "0" ++ (crlf ++ crlf)))))

abbrev cut : Text
cut = codes "3" ++ (crlf ++ codes "ab")

decoded : decode_chunked body invalid_response ≡ ok (codes "abc")
unfolding decode_chunked round partition nat_eq read_hex strip split_on list_eq
decoded = refl

decode_chunked_iff_example :
    (decode_chunked body invalid_response ≡ ok (codes "abc")) ↔ Encodes body (codes "abc")
decode_chunked_iff_example = decode_chunked_iff body (codes "abc") invalid_response

refuses : decode_chunked cut invalid_response ≡ err invalid_response
unfolding decode_chunked round partition nat_eq read_hex strip split_on list_eq
refuses = refl

decode_chunked-error_example : invalid_response ≡ invalid_response
decode_chunked-error_example = decode_chunked-error cut invalid_response invalid_response refuses

-- A parser of contents that takes every JSON text and no data.
abbrev takes_all : Text → Loaded
takes_all content = loaded

abbrev no_data : {A : Type 0} → Text → Option A
no_data content = none

abbrev no_colon : Text
no_colon = codes "GET / HTTP/1.1" ++ (crlf ++ (codes "Host" ++ (crlf ++ crlf)))

malformed : parse_message {V = ℕ} takes_all no_data no_data no_colon [] ≡ err invalid_request
unfolding parse_message starts_with remove_prefix nat_eq partition is_ascii split_lines
malformed = refl

parse_message-error_example :
    (is_malformed invalid_request ≡ true)
    ⊎ ((starts_with (remove_prefix no_colon []) (codes "HTTP/1.1 ") ≡ false)
        × ContentEscapes takes_all (remove_prefix no_colon []))
parse_message-error_example =
    parse_message-error {V = ℕ} takes_all no_data no_data no_colon [] invalid_request malformed

-- A push, as the program's own tests send it.
abbrev push_request : Request
push_request = record {
  method = codes "PUT";
  url = codes "/x";
  headers = (codes "Content-Type", codes "application/json") ∷ [];
  content = some (codes "[1]");
  transaction_id = some (pos 7);
}

abbrev sent_bytes : Text
sent_bytes =
    2
    ∷ (codes "PUT /x HTTP/1.1"
        ++ (crlf
            ++ (codes "Content-Type: application/json"
                ++ (crlf
                    ++ (codes "content-length: 3"
                        ++ (crlf ++ (codes "transac-id: 7" ++ (crlf ++ (crlf ++ codes "[1]")))))))))

push_IsClean : IsClean push_request
unfolding starts_with nat_eq
push_IsClean = record {
  method_space = omega arith;
  method_line = omega arith;
  method_start = refl;
  url_space = omega arith;
  url_line = omega arith;
  clean_headers = ((omega arith, omega arith, omega arith), tt);
}

sends : to_bytes (2 ∷ []) push_request ≡ some sent_bytes
unfolding to_bytes is_ascii head join make_headers needs_transac_id list_eq lower nat_eq Dict.insert
    sized_headers needs_length tydomio.Base.Text.Number.show_nat tydomio.Base.Text.Number.show_int
sends = refl

no_coding :
    Dict.lookup (codes "transfer-encoding") (received_headers (make_headers push_request)) ≡ none
unfolding make_headers Dict.lookup Dict.insert_all needs_transac_id list_eq lower nat_eq Dict.insert
    sized_headers needs_length strip
no_coding = refl

parse_message-to_bytes_example :
    parse_message {V = ℕ} takes_all no_data no_data sent_bytes (2 ∷ [])
    ≡ dispatch takes_all no_data no_data (record {
      method = codes "PUT";
      url = codes "/x";
      headers = received_headers (make_headers push_request);
      content = some (codes "[1]");
      transaction_id = none;
    })
parse_message-to_bytes_example =
    parse_message-to_bytes takes_all no_data no_data push_request (2 ∷ []) sent_bytes push_IsClean
      sends no_coding

-- What the client pings with: its head declares no content.
ping_bytes :
    to_bytes [] (ping_request (pos 7))
    ≡ some (codes "GET /ping HTTP/1.1" ++ (crlf ++ (codes "transac-id: 7" ++ (crlf ++ crlf))))
unfolding to_bytes is_ascii head join make_headers needs_transac_id Dict.insert sized_headers
    needs_length list_eq nat_eq tydomio.Base.Text.Number.show_int
ping_bytes = refl

-- A POST without content declares a content of length zero.
refresh_bytes :
    to_bytes [] (refresh_all (pos 8))
    ≡ some (
        codes "POST /refresh/all HTTP/1.1"
        ++ (crlf
            ++ (codes "content-length: 0" ++ (crlf ++ (codes "transac-id: 8" ++ (crlf ++ crlf))))))
unfolding to_bytes is_ascii head join make_headers needs_transac_id Dict.insert sized_headers
    needs_length list_eq nat_eq tydomio.Base.Text.Number.show_nat tydomio.Base.Text.Number.show_int
refresh_bytes = refl

-- A GET of the client, read back.
gets_config :
    to_bytes [] (get_config_file (pos 1))
    ≡ some (
        codes "GET /configs/file HTTP/1.1"
        ++ (crlf
            ++ (codes "Content-Type: application/json; charset=UTF-8"
                ++ (crlf ++ (codes "transac-id: 1" ++ (crlf ++ crlf))))))
unfolding to_bytes is_ascii head join make_headers needs_transac_id list_eq lower nat_eq Dict.insert
    sized_headers needs_length tydomio.Base.Text.Number.show_int
gets_config = refl
