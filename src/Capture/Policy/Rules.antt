-- ===== src/Capture/Policy/Rules.antt =====
-- tydomio/capture/policy.py: the rules of an endpoint.
use tydomio.Base.{Option, none, some, List, [], ◌∷◌}
use tydomio.Base.Text.{Text, codes}

pub data Action : Type 0 where
  keep id name redact value : Action

-- The types that a kept value may have.
pub data JsonType : Type 0 where
  string boolean integer float : JsonType

-- A constraint on a kept value; the pattern is a regular expression as it is written.
pub record Keep : Type 0 where
  pub json_type : List JsonType
  pub pattern : Option Text

pub record Rule : Type 0 where
  pub path : Text
  pub action : Action
  pub constraint : Option Keep
  pub kind : Option Text

pub record EndpointPolicy : Type 0 where
  pub rules : List Rule
  pub opaque : List Text

abbrev pub policy_of : List Rule → List Text → EndpointPolicy
policy_of rules opaque = record { rules = rules; opaque = opaque }

-- `Keep(str, pattern)`
abbrev pub matching : Text → Keep
matching pattern = record { json_type = string ∷ []; pattern = some pattern }

abbrev typed : List JsonType → Keep
typed types = record { json_type = types; pattern = none }

abbrev pub word : Keep
word = matching (codes "[A-Za-z0-9_]{1,64}")

abbrev pub short_word : Keep
short_word = matching (codes "[A-Za-z0-9_]{1,32}")

abbrev pub version : Keep
version = matching (codes "[0-9A-Za-z._-]{1,32}")

abbrev pub protocol : Keep
protocol = matching (codes "[A-Za-z0-9_-]{1,32}")

abbrev pub bool_value : Keep
bool_value = typed (boolean ∷ [])

abbrev pub int_value : Keep
int_value = typed (integer ∷ [])

abbrev pub number_value : Keep
number_value = typed (integer ∷ float ∷ [])

abbrev pub enum_value : Keep
enum_value = matching (codes "[A-Za-z0-9_.-]{1,64}")

-- `_keep`, `_id`, `_name` and `_redact`, and the rule of a data value.
abbrev pub keep_rule : Text → Keep → Rule
keep_rule path k = record { path = path; action = keep; constraint = some k; kind = none }

abbrev pub id_rule : Text → Rule
id_rule path = record { path = path; action = id; constraint = none; kind = none }

abbrev pub name_rule : Text → Text → Rule
name_rule path k = record { path = path; action = name; constraint = none; kind = some k }

abbrev pub redact_rule : Text → Rule
redact_rule path = record { path = path; action = redact; constraint = none; kind = none }

abbrev pub value_rule : Text → Rule
value_rule path = record { path = path; action = value; constraint = none; kind = none }
