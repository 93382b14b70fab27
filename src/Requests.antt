-- ===== src/Requests.antt =====
-- tydomio/requests.py: requests and their bytes.
use tydomio.Base.{
  Bool, not, ◌&&◌, ◌||◌, Option, none, some, List, [], ◌∷◌, ◌++◌, ◌==◌, nat_eq, list_eq,
  if◌then◌else◌, contains, length, map, Result, ok, err, option_eq,
}
use tydomio.Base.Int.{ℤ}
use tydomio.Base.Dict
use tydomio.Base.Dict.{Dict}
use tydomio.Base.Text.{Text, codes, crlf, lower, join, is_ascii}
use tydomio.Base.Text.Number.{show_nat, show_int}
use tydomio.Error.{Error, invalid_target, invalid_write}
use tydomio.Installation.{EndpointRef, GroupRef, AreaRef}
use tydomio.Usages.{UsageModel, UsageWrite, writes, write_eq, area, area_write}
use tydomio.Response.{Headers, is_none}

pub record Request : Type 0 where
  pub method : Text
  pub url : Text
  pub headers : Headers
  pub content : Option Text
  pub transaction_id : Option ℤ

-- `content or b""`
abbrev pub or_empty : Option Text → Text
or_empty none = []
or_empty (some content) = content

-- `str(transaction_id)`
abbrev pub show_id : Option ℤ → Text
show_id none = codes "None"
show_id (some n) = show_int n

abbrev pub given_headers : Headers → List Text
given_headers headers = map lower (Dict.keys headers)

abbrev pub writes_content : Text → Bool
writes_content method = contains (codes "POST" ∷ codes "PUT" ∷ codes "PATCH" ∷ []) method

-- Whether `_make_headers` adds the content length.
unfoldable pub needs_length : Request → Bool
unfolding Dict.keys
needs_length r =
    not (
      contains (given_headers r.headers) (codes "content-length")
      || contains (given_headers r.headers) (codes "transfer-encoding"))
    && (not (is_none r.content) || writes_content r.method)

unfoldable pub needs_transac_id : Request → Bool
unfolding Dict.keys
needs_transac_id r = not (contains (given_headers r.headers) (codes "transac-id"))

unfoldable pub sized_headers : Request → Headers
sized_headers r =
    if needs_length r
    then Dict.insert (codes "content-length") (show_nat (length (or_empty r.content))) r.headers
    else r.headers

-- `{**self.headers, **auto_headers}`
unfoldable pub make_headers : Request → Headers
make_headers r =
    if needs_transac_id r
    then Dict.insert (codes "transac-id") (show_id r.transaction_id) (sized_headers r)
    else sized_headers r

abbrev pub header_line : Text × Text → Text
header_line (key, value) = key ++ (codes ": " ++ value)

-- The request line and the headers, before they are encoded.
unfoldable pub head : Request → Text
head r =
    r.method
    ++ (codes " "
        ++ (r.url
            ++ (codes " HTTP/1.1"
                ++ (crlf ++ (join crlf (map header_line (make_headers r)) ++ (crlf ++ crlf))))))

-- The bytes to send; `none` is the `UnicodeEncodeError` of a head that is not ASCII.
unfoldable pub to_bytes : Text → Request → Option Text
to_bytes cmd_prefix r =
    if is_ascii (head r) then some (cmd_prefix ++ (head r ++ or_empty r.content)) else none

abbrev pub json_headers : Headers
json_headers = (codes "Content-Type", codes "application/json; charset=UTF-8") ∷ []

-- A request of the client without content; `tid` is the next transaction id.
abbrev pub client_request : Text → Text → Headers → ℤ → Request
client_request method url headers tid = record {
  method = method;
  url = url;
  headers = headers;
  content = none;
  transaction_id = some tid;
}

abbrev pub ping_request : ℤ → Request
ping_request = client_request (codes "GET") (codes "/ping") []

abbrev pub get_config_file : ℤ → Request
get_config_file = client_request (codes "GET") (codes "/configs/file") json_headers

abbrev pub get_devices_data : ℤ → Request
get_devices_data = client_request (codes "GET") (codes "/devices/data") json_headers

abbrev pub get_areas_data : ℤ → Request
get_areas_data = client_request (codes "GET") (codes "/areas/data") json_headers

abbrev pub refresh_all : ℤ → Request
refresh_all = client_request (codes "POST") (codes "/refresh/all") []

-- `_Write.__init__`: the write model must be the one of the usage; the fields are validated again,
-- which gives the body, and `dumps` is `json.dumps`. `tid` is the next transaction id.
module _ {W B : Type 0} (revalidate : UsageWrite → W → Option B) (dumps : B → Text) where
  unfoldable pub write_request : ℤ → Text → UsageModel → UsageWrite → W → Result Error Request
  write_request tid url usage kind write =
      if writes usage == some kind
      then elim (revalidate kind write) [
        | none ↦ err invalid_write
        | some body ↦ ok (record {
          method = codes "PUT";
          url = url;
          headers = json_headers;
          content = some (dumps body);
          transaction_id = some tid;
        })
      ]
      else err invalid_target

  abbrev pub endpoint_url : EndpointRef → Text
  endpoint_url ref =
      codes "/devices/"
      ++ (show_int ref.device_id
          ++ (codes "/endpoints/" ++ (show_int ref.endpoint_id ++ codes "/data")))

  -- `WriteEndpoint`, `WriteGroup` and `WriteArea`
  unfoldable pub write_endpoint : ℤ → EndpointRef → UsageWrite → W → Result Error Request
  unfolding write_request
  write_endpoint tid ref kind write = write_request tid (endpoint_url ref) ref.usage kind write

  unfoldable pub write_group : ℤ → GroupRef → UsageWrite → W → Result Error Request
  unfolding write_request
  write_group tid ref kind write =
      write_request tid (codes "/groups/" ++ (show_int ref.group_id ++ codes "/data")) ref.usage
        kind write

  unfoldable pub write_area : ℤ → AreaRef → W → Result Error Request
  unfolding write_request
  write_area tid ref write =
      write_request tid (codes "/areas/" ++ (show_int ref.area_id ++ codes "/data")) area area_write
        write
