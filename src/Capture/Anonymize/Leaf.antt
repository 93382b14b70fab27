-- ===== src/Capture/Anonymize/Leaf.antt =====
-- tydomio/capture/anonymize.py: what becomes of a leaf.
use tydomio.Base.{
  Bool, true, false, ◌&&◌, ◌||◌, Option, none, some, List, [], ◌∷◌, ◌==◌, nat_eq, list_eq,
  if◌then◌else◌, any, Result, ok, err, ◌>>=◌,
}
use tydomio.Base.Int.{pos}
use tydomio.Base.Dict
use tydomio.Base.Dict.{Dict}
use tydomio.Base.Text.{Text, codes}
use tydomio.Base.Text.Number.{show_nat, show_int}
use tydomio.Error.{Error, unexpected}
use tydomio.Capture.Json.{
  Json, null, boolean, integer, float, string, array, Items, nil, cons, Fields, end, get,
}
use tydomio.Capture.Policy.Rules.{Action, Keep, Rule, enum_value}
use tydomio.Capture.Anonymize.Positions.{Position, first_complete, generic_path}
use tydomio.Capture.Anonymize.Metadata.{Runtime, Descriptors, str_of}
use tydomio.Capture.Anonymize.Maps.{
  redacted, not_in_enum, no_rule, keep_constraint, unknown_eq, renamed_eq, json_type_name, add_once,
  Tables, numbered, kind_of, names_of, name_token, has_type,
}

module _ {F : Type 0} (runtime : Runtime F) where
  unfoldable pub placeholder : Json F → Json F
  placeholder (boolean b) = boolean false
  placeholder (integer n) = integer (pos 0)
  placeholder (float x) = float runtime.zero_float
  placeholder (string s) = string redacted
  placeholder _ = null

  abbrev pub matches : Option Text → Json F → Bool
  matches none value = true
  matches (some pattern) (string s) = runtime.fullmatch pattern s
  matches (some pattern) _ = false

  unfoldable pub passes : Json F → Keep → Bool
  passes value k = any (has_type value) k.json_type && matches k.pattern value

  -- `rule.keep is not None and passes(value, rule.keep)`
  abbrev pub is_kept : Option Keep → Json F → Bool
  is_kept none value = false
  is_kept (some k) value = passes value k

  -- `_unknown_leaf`
  unfoldable pub unknown_leaf : Text → Json F → Position F → Text → Tables → Json F × Tables
  unfolding placeholder generic_path add_once
  unknown_leaf url value p reason t = (
    placeholder value,
    record t {
      unknown =
          add_once
            (record {
              url = url;
              path = generic_path p.generic;
              json_type = json_type_name value;
              reason = reason;
            })
            t.unknown;
    },
  )

  -- `_id`; a number takes the place of the id, as an int or a text.
  unfoldable pub id_leaf : Text → Json F → Position F → Tables → Json F × Tables
  unfolding numbered unknown_leaf
  id_leaf url null p t = (null, t)
  id_leaf url (string []) p t = (string [], t)
  id_leaf url (string (c ∷ s)) p t =
      let (number, ids) = numbered (c ∷ s) t.ids in
      (string (show_nat number), record t { ids = ids })
  id_leaf url (integer n) p t =
      let (number, ids) = numbered (show_int n) t.ids in
      (integer (pos number), record t { ids = ids })
  id_leaf url value p t = unknown_leaf url value p keep_constraint t

  -- `_name`
  unfoldable pub name_leaf : Text → Rule → Json F → Position F → Tables → Json F × Tables
  unfolding numbered unknown_leaf
  name_leaf url r null p t = (null, t)
  name_leaf url r (string s) p t =
      let (number, names) = numbered s (names_of (kind_of r) t.names) in
      (
        string (name_token (kind_of r) number),
        record t { names = Dict.insert (kind_of r) names t.names },
      )
  name_leaf url r value p t = unknown_leaf url value p keep_constraint t

  -- The key of the descriptor of a data value: the ids of the dicts around it, then its name.
  unfoldable pub descriptor_key : List (Fields F) → List Text
  unfolding str_of
  descriptor_key [] = codes "None" ∷ []
  descriptor_key (item ∷ []) = str_of runtime (codes "name") item ∷ []
  descriptor_key (level ∷ next ∷ more) =
      str_of runtime (codes "id") level ∷ descriptor_key (next ∷ more)

  abbrev pub fields_or_none : Option (Fields F) → Fields F
  fields_or_none none = end
  fields_or_none (some fields) = fields

  abbrev pub descriptors_of : Option (Descriptors F) → Descriptors F
  descriptors_of none = []
  descriptors_of (some index) = index

  -- Whether a text is an item of a list, `value in enum_values`.
  abbrev pub is_item : Text → Items F → Bool
  is_item s nil = false
  is_item s (cons (string t) items) = s == t || is_item s items
  is_item s (cons _ items) = is_item s items

  -- The `min` of the descriptor, of the type of the value.
  abbrev pub minimum : Json F → Option (Json F) → Result Error (Json F)
  minimum (integer n) (some (integer m)) = ok (integer m)
  minimum (integer n) (some (float y)) = ok (integer (runtime.int_of y))
  minimum (float x) (some (integer m)) = elim (runtime.float_of m) [
    | none ↦ err unexpected
    | some y ↦ ok (float y)
  ]
  minimum (float x) (some (float y)) = ok (float y)
  minimum value _ = ok (placeholder value)

  abbrev pub enum_text : Text → Option (Json F) → Json F
  enum_text s (some (array items)) =
      if is_item s items && passes (string s) enum_value then string s else string not_in_enum
  enum_text s _ = string redacted

  -- `_value`, for the descriptor that was found.
  unfoldable pub described_value : Json F → Fields F → Result Error (Json F)
  unfolding get
  described_value null d = ok null
  described_value (boolean b) d = ok (boolean b)
  described_value (integer n) d = minimum (integer n) (get (codes "min") d)
  described_value (float x) d = minimum (float x) (get (codes "min") d)
  described_value (string s) d = ok (enum_text s (get (codes "enum_values") d))
  described_value value d = ok (placeholder value)

  -- `_value`
  unfoldable pub value_leaf :
      Dict Text (Descriptors F) → Text → Json F → Position F → Result Error (Json F)
  unfolding described_value descriptor_key
  value_leaf descriptors url value p = described_value value (
      fields_or_none
        (Dict.lookup (descriptor_key p.dicts) (descriptors_of (Dict.lookup url descriptors))))

  -- What a rule does to a leaf.
  unfoldable pub ruled_leaf :
      Dict Text (Descriptors F)
      → Text
      → Rule
      → Action
      → Json F
      → Position F
      → Tables
      → Result Error (Json F × Tables)
  unfolding id_leaf name_leaf value_leaf
  ruled_leaf descriptors url r Action.keep value p t = ok (
      if is_kept r.constraint value then (value, t) else unknown_leaf url value p keep_constraint t)
  ruled_leaf descriptors url r Action.id value p t = ok (id_leaf url value p t)
  ruled_leaf descriptors url r Action.name value p t = ok (name_leaf url r value p t)
  ruled_leaf descriptors url r Action.value value p t = do
    given ← value_leaf descriptors url value p
    ok (given, t)
  ruled_leaf descriptors url r Action.redact value p t = ok (placeholder value, t)

  -- `_leaf`, for the rule that ends at the position.
  abbrev pub leaf_by :
      Dict Text (Descriptors F)
      → Text
      → Option Rule
      → Json F
      → Position F
      → Tables
      → Result Error (Json F × Tables)
  leaf_by descriptors url none value p t = ok (unknown_leaf url value p no_rule t)
  leaf_by descriptors url (some r) value p t = ruled_leaf descriptors url r r.action value p t

  -- `_leaf`
  unfoldable pub leaf :
      Dict Text (Descriptors F)
      → Text
      → Json F
      → Position F
      → Tables
      → Result Error (Json F × Tables)
  unfolding ruled_leaf first_complete
  leaf descriptors url value p t = leaf_by descriptors url (first_complete p.rules) value p t
