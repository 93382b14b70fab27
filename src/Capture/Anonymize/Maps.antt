-- ===== src/Capture/Anonymize/Maps.antt =====
-- tydomio/capture/anonymize.py: the tables and the report of a capture.
use native.Mathlib.Decide.{ℕ_discrete}
use tydomio.Base.{
  ℕ, suc, Bool, true, false, none, some, List, [], ◌∷◌, ◌++◌, Eq, nat_eq, list_eq, if◌then◌else◌,
  contains, length,
}
use tydomio.Base.Dict
use tydomio.Base.Dict.{Dict}
use tydomio.Base.Text.{Text, codes}
use tydomio.Base.Text.Number.{show_nat}
use tydomio.Capture.Json.{Json, null, boolean, integer, float, string, array, object}
use tydomio.Capture.Policy.Rules.{JsonType, Rule}

abbrev pub redacted : Text
redacted = codes "<redacted>"

abbrev pub not_in_enum : Text
not_in_enum = codes "<not-in-enum>"

abbrev pub no_rule : Text
no_rule = codes "no-rule"

abbrev pub keep_constraint : Text
keep_constraint = codes "keep-constraint"

pub record UnknownLeaf : Type 0 where
  pub url : Text
  pub path : Text
  pub json_type : Text
  pub reason : Text

pub record RenamedKey : Type 0 where
  pub url : Text
  pub path : Text

UnknownLeaf-discrete : Discrete UnknownLeaf
UnknownLeaf-discrete = hlevel (ℕ_discrete)

instance unfoldable pub unknown_eq : Eq UnknownLeaf
unfolding UnknownLeaf-discrete
unknown_eq = record { dec = UnknownLeaf-discrete }

RenamedKey-discrete : Discrete RenamedKey
RenamedKey-discrete = hlevel (ℕ_discrete)

instance unfoldable pub renamed_eq : Eq RenamedKey
unfolding RenamedKey-discrete
renamed_eq = record { dec = RenamedKey-discrete }

-- `json_type_name`
abbrev pub json_type_name : {F : Type 0} → Json F → Text
json_type_name null = codes "null"
json_type_name (boolean b) = codes "bool"
json_type_name (integer n) = codes "int"
json_type_name (float x) = codes "float"
json_type_name (string s) = codes "str"
json_type_name (array items) = codes "list"
json_type_name (object fields) = codes "dict"

-- `d[k] = None`, for a dict that is an ordered set.
unfoldable pub add_once {ℓ} : {A : Type ℓ} → ⦃e : Eq A⦄ → A → List A → List A
add_once a xs = if contains xs a then xs else xs ++ (a ∷ [])

-- The maps of `_Anonymizer` and its report.
pub record Tables : Type 0 where
  pub ids : Dict Text ℕ
  pub keys : Dict Text Text
  pub names : Dict Text (Dict Text ℕ)
  pub unknown : List UnknownLeaf
  pub renamed : List RenamedKey

-- `_Anonymizer()`
abbrev pub no_tables : Tables
no_tables = record { ids = []; keys = []; names = []; unknown = []; renamed = [] }

-- `d.setdefault(key, len(d) + 1)`
unfoldable pub numbered : Text → Dict Text ℕ → ℕ × Dict Text ℕ
unfolding Dict.set_default
numbered key d = Dict.set_default key (suc (length d)) d

-- The kind of a name rule, `rule.kind or "name"`.
abbrev pub kind_of : Rule → Text
kind_of r = elim r.kind [ none ↦ codes "name" | some [] ↦ codes "name" | some (c ∷ k) ↦ c ∷ k ]

abbrev pub names_of : Text → Dict Text (Dict Text ℕ) → Dict Text ℕ
names_of kind names = elim (Dict.lookup kind names) [ none ↦ [] | some d ↦ d ]

-- `<name:kind:number>`
abbrev pub name_token : Text → ℕ → Text
name_token kind number = codes "<name:" ++ (kind ++ (codes ":" ++ (show_nat number ++ codes ">")))

-- `type(value) in types`
abbrev pub has_type : {F : Type 0} → Json F → JsonType → Bool
has_type (boolean b) JsonType.boolean = true
has_type (integer n) JsonType.integer = true
has_type (float x) JsonType.float = true
has_type (string s) JsonType.string = true
has_type _ _ = false
