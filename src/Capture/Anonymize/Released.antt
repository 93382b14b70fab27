-- ===== src/Capture/Anonymize/Released.antt =====
-- Which texts an anonymized body may hold.
pub mod Walk
use tydomio.Base.{
  ℕ, zero, suc, ◌+◌, ◌%◌, ◌/◌, ◌≡◌, refl, ◌∙◌, sym, Bool, true, false, not, ◌&&◌, ◌||◌, Option,
  none, some, List, [], ◌∷◌, ◌++◌, map, ◌==◌, nat_eq, list_eq, ==_self, ==→eq, if◌then◌else◌, any,
  all, ltb, leb, length, arith, Result, ok, err, ◌>>=◌, >>=-eq_ok, Bool-cases, Option-cases, inl,
  inr,
}
use tydomio.Base.Int.{ℤ}
use tydomio.Base.Dict
use tydomio.Base.Dict.{Dict}
use tydomio.Base.Text.{Text, codes, starts_with}
use tydomio.Base.Text.Number.{digits, show_nat, is_digit}
use tydomio.Error.{Error, unexpected}
use tydomio.Capture.Json.{
  Json, null, boolean, integer, float, string, array, object, Items, nil, cons, Fields, end, field,
  get, set_field,
}
use tydomio.Capture.Policy.{list_item}
use tydomio.Capture.Policy.Rules.{Action, Keep, Rule, EndpointPolicy, enum_value}
use tydomio.Capture.Anonymize.{
  node, node_items, node_fields, out_key, endpoint_body, anonymize_urls, policy_for, anonymize,
  result_of, Anonymized, all_descriptors, descriptor_sources, order, no_rules,
}
use tydomio.Capture.Anonymize.Positions.{
  Position, child, inside, root, next_rules, follows, first_complete,
}
use tydomio.Capture.Anonymize.Metadata.{Runtime, Descriptors}
use tydomio.Capture.Anonymize.Urls.{anonymize_urls-cons}
use tydomio.Capture.Anonymize.Maps.{
  Tables, redacted, not_in_enum, no_tables, numbered, name_token, kind_of, names_of,
}
use tydomio.Capture.Anonymize.Leaf.{
  placeholder, passes, is_kept, unknown_leaf, id_leaf, name_leaf, minimum, enum_text,
  described_value, value_leaf, ruled_leaf, leaf_by, leaf, is_item,
}

all-digits-digits :
    (fuel n : ℕ) (acc : Text) → all is_digit acc ≡ true → all is_digit (digits fuel n acc) ≡ true
unfolding digits
all-digits-digits zero n acc h = h
all-digits-digits (suc fuel) n acc h =
    ground (arith, all-digits-digits fuel (n / 10) ((48 + n % 10) ∷ acc))

all-digits-show_nat : (n : ℕ) → all is_digit (show_nat n) ≡ true
unfolding show_nat
all-digits-show_nat n = all-digits-digits (suc n) n [] refl

module _ {F : Type 0} (runtime : Runtime F) where
  -- A rule of the list keeps the value: it has a constraint that the value passes.
  abbrev pub keeps : List Rule → Json F → Bool
  keeps rules value = any (λ (r : Rule). is_kept runtime r.constraint value) rules

  -- A text that may leave: a placeholder, a number, a name token, a text that a rule keeps, or a value of
  -- an enum that has the form of one.
  abbrev pub is_released : List Rule → Text → Bool
  is_released rules s =
      s == redacted
      || s == not_in_enum
      || all is_digit s
      || starts_with s (codes "<name:")
      || passes runtime (string s) enum_value
      || keeps rules (string s)

  -- All texts of a value may leave.
  unfoldable mutual
    pub released : List Rule → Json F → Bool
    released rules (string s) = is_released rules s
    released rules (array items) = released_items rules items
    released rules (object fields) = released_fields rules fields
    released rules null = true
    released rules (boolean b) = true
    released rules (integer n) = true
    released rules (float x) = true

    pub released_items : List Rule → Items F → Bool
    released_items rules nil = true
    released_items rules (cons item items) = released rules item && released_items rules items

    pub released_fields : List Rule → Fields F → Bool
    released_fields rules end = true
    released_fields rules (field k v fields) = released rules v && released_fields rules fields

  pub released-placeholder :
      (rules : List Rule) (v : Json F) → released rules (placeholder runtime v) ≡ true
  unfolding released placeholder list_eq nat_eq
  released-placeholder rules (string s) = refl
  released-placeholder rules null = refl
  released-placeholder rules (boolean b) = refl
  released-placeholder rules (integer n) = refl
  released-placeholder rules (float x) = refl
  released-placeholder rules (array items) = refl
  released-placeholder rules (object fields) = refl

  released-number : (rules : List Rule) (n : ℕ) → released rules (string (show_nat n)) ≡ true
  unfolding released
  released-number rules n = ground (arith, all-digits-show_nat n)

  released-name :
      (rules : List Rule) (kind : Text) (n : ℕ) → released rules (string (name_token kind n)) ≡ true
  unfolding released starts_with nat_eq
  released-name rules kind n = ground arith

  released-id_leaf :
      (rules : List Rule) (url : Text) (v : Json F) (p : Position F) (t : Tables)
      → released rules (id_leaf runtime url v p t).0 ≡ true
  unfolding id_leaf unknown_leaf released
  released-id_leaf rules url null p t = refl
  released-id_leaf rules url (string []) p t = ground arith
  released-id_leaf rules url (string (c ∷ s)) p t = released-number rules _
  released-id_leaf rules url (integer n) p t = refl
  released-id_leaf rules url (boolean b) p t = released-placeholder rules (boolean b)
  released-id_leaf rules url (float x) p t = released-placeholder rules (float x)
  released-id_leaf rules url (array items) p t = released-placeholder rules (array items)
  released-id_leaf rules url (object fields) p t = released-placeholder rules (object fields)

  released-name_leaf :
      (rules : List Rule) (url : Text) (r : Rule) (v : Json F) (p : Position F) (t : Tables)
      → released rules (name_leaf runtime url r v p t).0 ≡ true
  unfolding name_leaf unknown_leaf released
  released-name_leaf rules url r null p t = refl
  released-name_leaf rules url r (string s) p t = released-name rules (kind_of r) _
  released-name_leaf rules url r (integer n) p t = released-placeholder rules (integer n)
  released-name_leaf rules url r (boolean b) p t = released-placeholder rules (boolean b)
  released-name_leaf rules url r (float x) p t = released-placeholder rules (float x)
  released-name_leaf rules url r (array items) p t = released-placeholder rules (array items)
  released-name_leaf rules url r (object fields) p t = released-placeholder rules (object fields)

  released-enum_text :
      (rules : List Rule) (s : Text) (o : Option (Json F))
      → released rules (enum_text runtime s o) ≡ true
  unfolding released list_eq nat_eq
  released-enum_text rules s (some (array items)) =
      elim (Bool-cases (is_item runtime s items && passes runtime (string s) enum_value)) [
        | inl listed ↦ rw listed (ground arith)
        | inr other ↦ rw other refl
      ]
  released-enum_text rules s none = refl
  released-enum_text rules s (some null) = refl
  released-enum_text rules s (some (boolean b)) = refl
  released-enum_text rules s (some (integer n)) = refl
  released-enum_text rules s (some (float x)) = refl
  released-enum_text rules s (some (string r)) = refl
  released-enum_text rules s (some (object fields)) = refl

  released-minimum_int :
      (rules : List Rule) (n : ℤ) (w : Json F) (o : Option (Json F))
      → minimum runtime (integer n) o ≡ ok w
      → released rules w ≡ true
  unfolding released placeholder
  released-minimum_int rules n w none h = ground arith
  released-minimum_int rules n w (some null) h = ground arith
  released-minimum_int rules n w (some (boolean b)) h = ground arith
  released-minimum_int rules n w (some (integer m)) h = ground arith
  released-minimum_int rules n w (some (float y)) h = ground arith
  released-minimum_int rules n w (some (string s)) h = ground arith
  released-minimum_int rules n w (some (array items)) h = ground arith
  released-minimum_int rules n w (some (object fields)) h = ground arith

  released-minimum_float :
      (rules : List Rule) (x : F) (w : Json F) (o : Option (Json F))
      → minimum runtime (float x) o ≡ ok w
      → released rules w ≡ true
  unfolding released placeholder
  released-minimum_float rules x w none h = ground arith
  released-minimum_float rules x w (some null) h = ground arith
  released-minimum_float rules x w (some (boolean b)) h = ground arith
  released-minimum_float rules x w (some (integer m)) h = elim (Option-cases (runtime.float_of m)) [
    | inl large ↦ absurd (ground arith)
    | inr (y, fits) ↦ ground arith
  ]
  released-minimum_float rules x w (some (float y)) h = ground arith
  released-minimum_float rules x w (some (string s)) h = ground arith
  released-minimum_float rules x w (some (array items)) h = ground arith
  released-minimum_float rules x w (some (object fields)) h = ground arith

  released-described_value :
      (rules : List Rule) (v w : Json F) (d : Fields F)
      → described_value runtime v d ≡ ok w
      → released rules w ≡ true
  unfolding described_value released
  released-described_value rules null w d h = ground arith
  released-described_value rules (boolean b) w d h = ground arith
  released-described_value rules (integer n) w d h =
      released-minimum_int rules n w (get (codes "min") d) h
  released-described_value rules (float x) w d h =
      released-minimum_float rules x w (get (codes "min") d) h
  released-described_value rules (string s) w d h =
      ground (arith, released-enum_text rules s (get (codes "enum_values") d))
  released-described_value rules (array items) w d h =
      ground (arith, released-placeholder rules (array items))
  released-described_value rules (object fields) w d h =
      ground (arith, released-placeholder rules (object fields))

  -- What a rule that is in force gives a leaf.
  pub released-ruled_leaf :
      (descriptors : Dict Text (Descriptors F)) (rules : List Rule) (url : Text) (r : Rule)
      (a : Action) (v w : Json F) (p : Position F) (t u : Tables)
      → (is_kept runtime r.constraint v ≡ true → released rules v ≡ true)
      → ruled_leaf runtime descriptors url r a v p t ≡ ok (w, u)
      → released rules w ≡ true
  unfolding ruled_leaf value_leaf unknown_leaf
  released-ruled_leaf descriptors rules url r Action.keep v w p t u k h =
      elim (Bool-cases (is_kept runtime r.constraint v)) [
        | inl kept ↦ ground (arith, k kept)
        | inr not_kept ↦ ground (arith, released-placeholder rules v)
      ]
  released-ruled_leaf descriptors rules url r Action.id v w p t u k h =
      ground (arith, released-id_leaf rules url v p t)
  released-ruled_leaf descriptors rules url r Action.name v w p t u k h =
      ground (arith, released-name_leaf rules url r v p t)
  released-ruled_leaf descriptors rules url r Action.value v w p t u k h =
      let (given, found, h₁) = >>=-eq_ok (value_leaf runtime descriptors url v p) _ h in
      ground (arith, released-described_value rules v given _ found)
  released-ruled_leaf descriptors rules url r Action.redact v w p t u k h =
      ground (arith, released-placeholder rules v)
