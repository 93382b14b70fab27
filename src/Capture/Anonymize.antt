-- ===== src/Capture/Anonymize.antt =====
-- tydomio/capture/anonymize.py: the anonymization of a capture, in one walk through every body that is
-- driven by the rules of its endpoint. A `Result` is needed only for the conversion of an int that is
-- too large for a float.
pub mod Positions
pub mod Metadata
pub mod Maps
pub mod Leaf
pub mod Urls
pub mod Released
pub mod Numbering
pub mod Stable
pub mod Consistent
pub mod Tests
use tydomio.Base.{
  ℕ, suc, Bool, true, false, not, ◌&&◌, ◌||◌, Option, none, some, List, [], ◌∷◌, ◌++◌, ◌==◌, nat_eq,
  list_eq, option_eq, if◌then◌else◌, all, ltb, leb, length, get_elem?, Result, ok, err, ◌>>=◌,
}
use tydomio.Base.Dict
use tydomio.Base.Dict.{Dict}
use tydomio.Base.Text.{Text, codes}
use tydomio.Base.Text.Number.{show_nat, is_digit}
use tydomio.Error.{Error, unexpected}
use tydomio.Capture.Json.{
  Json, null, boolean, integer, float, string, array, object, Items, nil, cons, Fields, end, field,
  get, set_field,
}
use tydomio.Capture.Policy.{list_item, any_key, parse_path, segment_matches}
use tydomio.Capture.Policy.Rules.{Rule, EndpointPolicy, policy_of}
use tydomio.Capture.Policy.Table.{policy}
use tydomio.Capture.Anonymize.Positions.{Position, child, inside, root, generic_path}
use tydomio.Capture.Anonymize.Metadata.{Runtime, Descriptors, index_descriptors}
use tydomio.Capture.Anonymize.Maps.{
  UnknownLeaf, RenamedKey, Tables, no_tables, add_once, renamed_eq,
}
use tydomio.Capture.Anonymize.Leaf.{leaf}

abbrev pub is_word_start : ℕ → Bool
is_word_start c = leb 65 c && leb c 90 || leb 97 c && leb c 122 || c == 95

-- `IDENTIFIER.fullmatch(key)`: `[A-Za-z_][A-Za-z0-9_]{0,63}`
unfoldable pub is_identifier : Text → Bool
is_identifier [] = false
is_identifier (c ∷ s) =
    is_word_start c && all (λ d. is_word_start d || is_digit d) s && leb (length s) 63

-- Whether a segment of a rule declares a key.
unfoldable pub declares : Text → Option Text → Bool
unfolding segment_matches
declares key none = false
declares key (some segment) =
    not (segment == any_key) && not (segment == list_item) && segment_matches segment key

-- Whether a rule at the position declares a key.
unfoldable pub is_declared : Text → List (Rule × ℕ) → Bool
unfolding declares parse_path
is_declared key [] = false
is_declared key ((rule, position) ∷ more) =
    declares key (get_elem? (parse_path rule.path) position) || is_declared key more

-- `<key-n>`
abbrev pub key_token : ℕ → Text
key_token n = codes "<key-" ++ (show_nat n ++ codes ">")

module _ {F : Type 0} where
  -- `_key` for a key that is renamed.
  unfoldable pub renamed_key : Text → Text → Position F → Tables → Text × Tables
  unfolding Dict.set_default generic_path
  renamed_key url key p t =
      let (renamed, keys) = Dict.set_default key (key_token (suc (length t.keys))) t.keys in
      (
        renamed,
        record t {
          keys = keys;
          renamed =
              add_once (record { url = url; path = generic_path (p.generic ++ (renamed ∷ [])) })
                t.renamed;
        },
      )

  -- `_key`
  unfoldable pub out_key : Text → Text → Position F → Tables → Text × Tables
  unfolding renamed_key is_declared is_identifier
  out_key url key p t =
      if is_declared key p.rules || (not p.opaque && is_identifier key)
      then (key, t)
      else renamed_key url key p t

module _ {F : Type 0} (runtime : Runtime F) (descriptors : Dict Text (Descriptors F))
    (url : Text) where
  unfoldable mutual
    -- `_node`
    pub node : Json F → Position F → Tables → Result Error (Json F × Tables)
    node (array items) p t = do
      (given, u) ← node_items items (child list_item [] list_item p) t
      ok (array given, u)
    node (object fields) p t = do
      (given, u) ← node_fields fields (inside fields p) end t
      ok (object given, u)
    node null p t = leaf runtime descriptors url null p t
    node (boolean b) p t = leaf runtime descriptors url (boolean b) p t
    node (integer n) p t = leaf runtime descriptors url (integer n) p t
    node (float x) p t = leaf runtime descriptors url (float x) p t
    node (string s) p t = leaf runtime descriptors url (string s) p t

    pub node_items : Items F → Position F → Tables → Result Error (Items F × Tables)
    node_items nil p t = ok (nil, t)
    node_items (cons item items) p t = do
      (given, u) ← node item p t
      (more, w) ← node_items items p u
      ok (cons given more, w)

    -- The loop over the keys, where `done` is `anonymized`.
    pub node_fields : Fields F → Position F → Fields F → Tables → Result Error (Fields F × Tables)
    node_fields end p done t = ok (done, t)
    node_fields (field key value fields) p done t = do
      (given, u) ← node value (child key key (out_key url key p t).0 p) (out_key url key p t).1
      node_fields fields p (set_field (out_key url key p t).0 given done) u

  -- `endpoint`
  unfoldable pub endpoint_body : Json F → EndpointPolicy → Tables → Result Error (Json F × Tables)
  unfolding node root
  endpoint_body body p t = node body (root p) t

-- `Anonymized`
pub record Anonymized (F : Type 0) : Type 0 where
  pub bodies : Dict Text (Json F)
  pub unclassified : List UnknownLeaf
  pub renamed_keys : List RenamedKey

-- `DESCRIPTOR_SOURCES`
abbrev pub descriptor_sources : List (Text × (Text × List Text))
descriptor_sources =
    (codes "/devices/data", (codes "/devices/meta", codes "endpoints" ∷ []))
    ∷ (codes "/areas/data", (codes "/areas/meta", []))
    ∷ []

module _ {F : Type 0} (runtime : Runtime F) (bodies : Dict Text (Json F))
    (statuses : Dict Text ℕ) where
  abbrev pub is_ok : Text → Bool
  is_ok url = Dict.lookup url statuses == some 200

  -- The descriptors of one data url, if its meta body was received.
  abbrev pub add_source :
      Text
      → Option (Json F)
      → Bool
      → List Text
      → Dict Text (Descriptors F)
      → Dict Text (Descriptors F)
  add_source data_url (some meta) true levels index =
      Dict.insert data_url (index_descriptors runtime meta levels) index
  add_source data_url _ _ levels index = index

  unfoldable pub all_descriptors :
      List (Text × (Text × List Text)) → Dict Text (Descriptors F) → Dict Text (Descriptors F)
  unfolding index_descriptors
  all_descriptors [] index = index
  all_descriptors ((data_url, (meta_url, levels)) ∷ more) index =
      all_descriptors more
        (add_source data_url (Dict.lookup meta_url bodies) (is_ok meta_url) levels index)

  -- `order`
  unfoldable pub known_urls : List Text → List Text
  known_urls [] = []
  known_urls (url ∷ more) =
      let rest = known_urls more in if Dict.member url bodies then url ∷ rest else rest

  unfoldable pub other_urls : List Text → List Text
  other_urls [] = []
  other_urls (url ∷ more) =
      let rest = other_urls more in if Dict.member url policy then rest else url ∷ rest

  unfoldable pub order : List Text
  unfolding known_urls other_urls Dict.keys
  order = known_urls (Dict.keys policy) ++ other_urls (Dict.keys bodies)

  -- The policy of a body: that of its url, or without rules for another url or status.
  abbrev pub no_rules : EndpointPolicy
  no_rules = policy_of [] []

  abbrev pub chosen : Option EndpointPolicy → Bool → EndpointPolicy
  chosen (some p) true = p
  chosen _ _ = no_rules

  unfoldable pub policy_for : Text → EndpointPolicy
  policy_for url = chosen (Dict.lookup url policy) (is_ok url)

  -- The loop over the urls, where `done` is `anonymized`.
  unfoldable pub anonymize_urls :
      Dict Text (Descriptors F)
      → List Text
      → Dict Text (Json F)
      → Tables
      → Result Error (Dict Text (Json F) × Tables)
  unfolding endpoint_body policy_for
  anonymize_urls descriptors [] done t = ok (done, t)
  anonymize_urls descriptors (url ∷ urls) done t = elim (Dict.lookup url bodies) [
    | none ↦ err unexpected
    | some body ↦ (do
      (given, u) ← endpoint_body runtime descriptors url body (policy_for url) t
      anonymize_urls descriptors urls (Dict.insert url given done) u)
  ]

  abbrev pub result_of : Dict Text (Json F) × Tables → Anonymized F
  result_of (given, t) = record {
    bodies = given;
    unclassified = t.unknown;
    renamed_keys = t.renamed;
  }

  -- `anonymize`
  unfoldable pub anonymize : Result Error (Anonymized F)
  unfolding anonymize_urls all_descriptors order
  anonymize = do
    done ← anonymize_urls (all_descriptors descriptor_sources []) order [] no_tables
    ok (result_of done)
