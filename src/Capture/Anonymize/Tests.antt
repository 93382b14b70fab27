-- ===== src/Capture/Anonymize/Tests.antt =====
-- A small capture anonymized, and the theorems of the anonymization at it.
use tydomio.Base.{ℕ, ◌≡◌, refl, Bool, true, false, Option, none, some, [], ◌∷◌, nat_eq, list_eq, ok}
use tydomio.Base.Int.{pos}
use tydomio.Base.Dict
use tydomio.Base.Dict.{Dict}
use tydomio.Base.Text.{Text, codes, starts_with}
use tydomio.Capture.Json.{Json, integer, string, array, object, nil, cons, end, field}
use tydomio.Capture.Anonymize.{Anonymized, anonymize, anonymize_urls, policy_for}
use tydomio.Capture.Anonymize.Metadata.{Runtime}
use tydomio.Capture.Anonymize.Maps.{Tables, no_tables, no_rule}
use tydomio.Capture.Anonymize.Released.{released}
use tydomio.Capture.Anonymize.Released.Walk.{released-anonymize}
use tydomio.Capture.Anonymize.Stable.{Extends, IsPseudonymous}
use tydomio.Capture.Anonymize.Consistent.{again-anonymize_urls, IsPseudonymous-no_tables}

abbrev plain : Runtime ℕ
plain = record {
  repr = λ j. [];
  fullmatch = λ pattern s. false;
  zero_float = 0;
  float_of = λ n. none;
  int_of = λ x. pos x;
}

abbrev group : Text → Json ℕ → Json ℕ
group name id = object (field (codes "id") id (field (codes "label") (string name) end))

abbrev bodies : Dict Text (Json ℕ)
bodies =
    (
      codes "/groups/file",
      object (
          field (codes "groups")
            (array (
              cons (group (codes "Kitchen") (integer (pos 1709)))
                (cons (group (codes "Hall") (integer (pos 1709))) nil)))
            end),
    )
    ∷ []

abbrev statuses : Dict Text ℕ
statuses = (codes "/groups/file", 200) ∷ []

abbrev groups_body : Json ℕ
groups_body = object (
    field (codes "groups")
      (array (
        cons (group (codes "<redacted>") (integer (pos 1)))
          (cons (group (codes "<redacted>") (integer (pos 1))) nil)))
      end)

abbrev anonymous_bodies : Dict Text (Json ℕ)
anonymous_bodies = (codes "/groups/file", groups_body) ∷ []

abbrev last_tables : Tables
last_tables = record no_tables {
  ids = (codes "1709", 1) ∷ [];
  unknown =
      record {
        url = codes "/groups/file";
        path = codes "groups[].label";
        json_type = codes "str";
        reason = no_rule;
      }
      ∷ [];
}

same_group :
    anonymize_urls plain bodies statuses [] (codes "/groups/file" ∷ []) [] no_tables
    ≡ ok (anonymous_bodies, last_tables)
unfolding anonymize_urls Dict.lookup list_eq nat_eq tydomio.Capture.Anonymize.Leaf.leaf
    tydomio.Capture.Anonymize.Positions.child tydomio.Base.option_eq
    tydomio.Capture.Policy.segment_matches starts_with tydomio.Capture.Json.set_field
    tydomio.Capture.Anonymize.out_key tydomio.Base.Text.Number.show_int
    tydomio.Capture.Anonymize.Maps.unknown_eq tydomio.Base.Text.remove_prefix
same_group = refl

abbrev anonymized : Anonymized ℕ
anonymized = record {
  bodies = anonymous_bodies;
  unclassified = last_tables.unknown;
  renamed_keys = [];
}

whole_capture : anonymize plain bodies statuses ≡ ok anonymized
unfolding anonymize Dict.member list_eq nat_eq tydomio.Capture.Anonymize.Leaf.leaf
    tydomio.Capture.Anonymize.Positions.child tydomio.Base.option_eq
    tydomio.Capture.Policy.segment_matches starts_with tydomio.Capture.Json.set_field
    tydomio.Capture.Anonymize.out_key tydomio.Base.Text.Number.show_int
    tydomio.Capture.Anonymize.Maps.unknown_eq tydomio.Base.Text.remove_prefix
whole_capture = refl

finds_groups : Dict.lookup (codes "/groups/file") anonymized.bodies ≡ some groups_body
unfolding Dict.lookup list_eq nat_eq
finds_groups = refl

released-anonymize_example :
    released plain (policy_for plain bodies statuses (codes "/groups/file")).rules groups_body
    ≡ true
released-anonymize_example =
    released-anonymize plain bodies statuses anonymized (codes "/groups/file") groups_body
      whole_capture finds_groups

again-anonymize_urls_example :
    Extends no_tables last_tables
    × IsPseudonymous last_tables
    × (anonymize_urls plain bodies statuses [] (codes "/groups/file" ∷ []) [] last_tables
        ≡ ok (anonymous_bodies, last_tables))
again-anonymize_urls_example =
    again-anonymize_urls plain bodies statuses [] (codes "/groups/file" ∷ []) [] anonymous_bodies
      no_tables last_tables IsPseudonymous-no_tables same_group
