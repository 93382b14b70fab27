-- ===== src/Response.antt =====
-- tydomio/response.py: a raw response and the types that a request expects. Validation by pydantic and
-- `from_json` is a parameter: `envelope` reads the list with its ids, `validate` one entity of it.
pub mod Invalid
pub mod Tests
use tydomio.Base.{
  ℕ, Bool, true, false, not, ◌||◌, Option, none, some, List, [], ◌∷◌, ◌++◌, ◌==◌, nat_eq, list_eq,
  option_eq, if◌then◌else◌, Result, ok, err, ◌>>=◌,
}
use tydomio.Base.Int.{ℤ}
use tydomio.Base.Dict
use tydomio.Base.Dict.{Dict}
use tydomio.Base.Text.{Text, codes, lower, strip, split_on, is_str_space}
use tydomio.Base.Text.Number.{read_int}
use tydomio.Error.{Error, invalid_response, unexpected}
use tydomio.Model.{Config, Endpoint, DevicesData, AreasData}

abbrev pub Headers : Type 0
Headers = Dict Text Text

abbrev pub status_code_ok : ℕ
status_code_ok = 200

-- `headers.get(name, "")`
abbrev pub header_or_empty : Option Text → Text
header_or_empty none = []
header_or_empty (some v) = v

-- `text.split(";", 1)[0]`
abbrev pub before_first : List Text → Text
before_first [] = []
before_first (p ∷ ps) = p

unfoldable pub has_json_content : Headers → Bool
has_json_content headers =
    let media_type =
      before_first (split_on b';' (header_or_empty (Dict.lookup (codes "content-type") headers))) in
    lower (strip is_str_space media_type) == codes "application/json"

pub record Response : Type 0 where
  pub status : ℕ
  pub headers : Headers
  pub content : Option Text

-- The transaction id; the `ValueError` of `int` is `unexpected`.
unfoldable pub transac_id : Response → Result Error (Option ℤ)
transac_id r = elim (Dict.lookup (codes "transac-id") r.headers) [
  | none ↦ ok none
  | some text ↦ elim (read_int text) [ none ↦ err unexpected | some n ↦ ok (some n) ]
]

abbrev pub is_none {ℓ} : {A : Type ℓ} → Option A → Bool
is_none none = true
is_none (some a) = false

-- `Ok.__init__`
unfoldable pub parse_ok : Response → Result Error Response
parse_ok r =
    if not (r.status == status_code_ok) || not (is_none r.content)
    then err invalid_response
    else ok r

-- The checks shared by `ConfigResponse` and `_DataResponse`, and the content that they let through.
unfoldable pub checked_content : Text → Response → Result Error Text
checked_content url r =
    if not (r.status == status_code_ok)
      || not (Dict.lookup (codes "uri-origin") r.headers == some url)
    then err invalid_response
    else elim r.content [ none ↦ err invalid_response | some content ↦ ok content ]

-- `ConfigResponse.__init__`; `validate` is `Config.model_validate_json`.
unfoldable pub parse_config : (Text → Option Config) → Response → Result Error Config
unfolding checked_content
parse_config validate r = do
  content ← checked_content (codes "/configs/file") r
  elim (validate content) [ none ↦ err invalid_response | some config ↦ ok config ]

-- An endpoint or an area of which only the id is read at the envelope; `P` is the rest.
pub record Entity (P : Type 0) : Type 0 where
  pub id : ℤ
  pub rest : P

pub record Device (P : Type 0) : Type 0 where
  pub id : ℤ
  pub endpoints : List (Entity P)

module _ {P V : Type 0} (validate : Entity P → Option (Endpoint V)) where
  -- The inner loop: the valid endpoints of a device, and the ids of the others.
  unfoldable pub split_endpoints : ℤ → List (Entity P) → List (Endpoint V) × List (ℤ × ℤ)
  split_endpoints device [] = ([], [])
  split_endpoints device (raw ∷ more) =
      let (valid, invalid) = split_endpoints device more in
      elim (validate raw) [
        | none ↦ (valid, (device, raw.id) ∷ invalid)
        | some e ↦ (e ∷ valid, invalid)
      ]

  unfoldable pub split_devices : List (Device P) → DevicesData V × List (ℤ × ℤ)
  unfolding split_endpoints
  split_devices [] = ([], [])
  split_devices (d ∷ more) =
      let (items, invalid) = split_devices more in
      let (valid, wrong) = split_endpoints d.id d.endpoints in
      (record { id = d.id; endpoints = valid } ∷ items, wrong ++ invalid)

  unfoldable pub split_areas : List (Entity P) → AreasData V × List ℤ
  split_areas [] = ([], [])
  split_areas (raw ∷ more) =
      let (valid, invalid) = split_areas more in
      elim (validate raw) [ none ↦ (valid, raw.id ∷ invalid) | some e ↦ (e ∷ valid, invalid) ]

  -- `DevicesDataResponse.__init__`
  unfoldable pub parse_devices_data :
      (Text → Option (List (Device P))) → Response → Result Error (DevicesData V × List (ℤ × ℤ))
  unfolding checked_content split_devices
  parse_devices_data envelope r = do
    content ← checked_content (codes "/devices/data") r
    elim (envelope content) [
      | none ↦ err invalid_response
      | some devices ↦ ok (split_devices devices)
    ]

  -- `AreasDataResponse.__init__`
  unfoldable pub parse_areas_data :
      (Text → Option (List (Entity P))) → Response → Result Error (AreasData V × List ℤ)
  unfolding checked_content split_areas
  parse_areas_data envelope r = do
    content ← checked_content (codes "/areas/data") r
    elim (envelope content) [ none ↦ err invalid_response | some areas ↦ ok (split_areas areas) ]
