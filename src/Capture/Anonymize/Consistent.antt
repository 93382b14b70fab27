-- ===== src/Capture/Anonymize/Consistent.antt =====
-- The walk of the anonymization, done again from the tables that a capture left.
use tydomio.Base.{ℕ, ◌≡◌, List, [], ◌∷◌, nat_eq, list_eq, ok, ◌>>=◌, Option-cases, inl, inr}
use tydomio.Base.Dict
use tydomio.Base.Dict.{Dict}
use tydomio.Base.Text.{Text}
use tydomio.Error.{unexpected}
use tydomio.Capture.Policy.{list_item}
use tydomio.Capture.Policy.Rules.{EndpointPolicy}
use tydomio.Capture.Json.{
  Json, null, boolean, integer, float, string, array, object, Items, nil, cons, Fields, end, field,
  set_field,
}
use tydomio.Capture.Anonymize.{
  node, node_items, node_fields, endpoint_body, key_token, out_key, anonymize_urls, policy_for,
}
use tydomio.Capture.Anonymize.Positions.{Position, child, inside, root}
use tydomio.Capture.Anonymize.Metadata.{Runtime, Descriptors}
use tydomio.Capture.Anonymize.Maps.{Tables, no_tables}
use tydomio.Capture.Anonymize.Numbering.{numbered_empty}
use tydomio.Capture.Anonymize.Stable.{
  Extends, Extends-refl, IsPseudonymous, IsStable, IsStable-same, IsStable-err, IsStable-bind,
}
use tydomio.Capture.Anonymize.Stable.Leaves.{leaf-IsStable, out_key-IsStable}

module _ {F : Type 0} (runtime : Runtime F) (descriptors : Dict Text (Descriptors F))
    (url : Text) where
  mutual
    unfolding node

    node-IsStable :
        (value : Json F) (p : Position F) → IsStable (λ t. node runtime descriptors url value p t)
    node-IsStable (array items) p =
        IsStable-bind
          (λ t. node_items runtime descriptors url items (child list_item [] list_item p) t)
          (λ given t. ok (array given, t))
          (node_items-IsStable items (child list_item [] list_item p))
          (λ given. IsStable-same (array given))
    node-IsStable (object fields) p =
        IsStable-bind (λ t. node_fields runtime descriptors url fields (inside fields p) end t)
          (λ given t. ok (object given, t)) (node_fields-IsStable fields (inside fields p) end)
          (λ given. IsStable-same (object given))
    node-IsStable null p = leaf-IsStable runtime url p descriptors null
    node-IsStable (boolean b) p = leaf-IsStable runtime url p descriptors (boolean b)
    node-IsStable (integer n) p = leaf-IsStable runtime url p descriptors (integer n)
    node-IsStable (float x) p = leaf-IsStable runtime url p descriptors (float x)
    node-IsStable (string s) p = leaf-IsStable runtime url p descriptors (string s)

    node_items-IsStable :
        (items : Items F) (p : Position F)
        → IsStable (λ t. node_items runtime descriptors url items p t)
    node_items-IsStable nil p = IsStable-same nil
    node_items-IsStable (cons item items) p =
        IsStable-bind (λ t. node runtime descriptors url item p t)
          (λ given t.
            node_items runtime descriptors url items p t >>= λ x. ok (cons given x.0, x.1))
          (node-IsStable item p)
          (λ given.
            IsStable-bind (λ t. node_items runtime descriptors url items p t)
              (λ more t. ok (cons given more, t)) (node_items-IsStable items p)
              (λ more. IsStable-same (cons given more)))

    node_fields-IsStable :
        (fields : Fields F) (p : Position F) (done : Fields F)
        → IsStable (λ t. node_fields runtime descriptors url fields p done t)
    node_fields-IsStable end p done = IsStable-same done
    node_fields-IsStable (field key value fields) p done =
        IsStable-bind (λ t. ok (out_key url key p t))
          (λ given t. node runtime descriptors url value (child key key given p) t >>= λ x.
            node_fields runtime descriptors url fields p (set_field given x.0 done) x.1)
          (out_key-IsStable runtime url p key)
          (λ given.
            IsStable-bind (λ t. node runtime descriptors url value (child key key given p) t)
              (λ x t. node_fields runtime descriptors url fields p (set_field given x done) t)
              (node-IsStable value (child key key given p))
              (λ x. node_fields-IsStable fields p (set_field given x done)))

  endpoint_body-IsStable :
      (body : Json F) (rules : EndpointPolicy)
      → IsStable (λ t. endpoint_body runtime descriptors url body rules t)
  unfolding endpoint_body
  endpoint_body-IsStable body rules = node-IsStable body (root rules)

module _ {F : Type 0} (runtime : Runtime F) (bodies : Dict Text (Json F)) (statuses : Dict Text ℕ)
    (descriptors : Dict Text (Descriptors F)) where
  anonymize_urls-IsStable :
      (urls : List Text) (done : Dict Text (Json F))
      → IsStable (λ t. anonymize_urls runtime bodies statuses descriptors urls done t)
  unfolding anonymize_urls
  anonymize_urls-IsStable [] done = IsStable-same done
  anonymize_urls-IsStable (url ∷ urls) done = elim (Option-cases (Dict.lookup url bodies)) [
    | inl missing ↦ rw (missing, anonymize_urls) (IsStable-err unexpected)
    | inr (body, found) ↦
        rw (found, anonymize_urls)
          (IsStable-bind
            (λ t.
              endpoint_body runtime descriptors url body (policy_for runtime bodies statuses url) t)
            (λ given t.
              anonymize_urls runtime bodies statuses descriptors urls (Dict.insert url given done)
                t)
            (endpoint_body-IsStable runtime descriptors url body
              (policy_for runtime bodies statuses url))
            (λ given. anonymize_urls-IsStable urls (Dict.insert url given done)))
  ]

  -- When a loop over the urls that starts with tables in which no token is given twice ends, its tables
  -- have all that the first had, again no token is given twice (among the ids, the keys and the names
  -- of a kind), and the same loop, started with them, gives the same bodies and leaves them as they
  -- are.
  pub again-anonymize_urls :
      (urls : List Text) (done out : Dict Text (Json F)) (s t : Tables)
      → IsPseudonymous s
      → anonymize_urls runtime bodies statuses descriptors urls done s ≡ ok (out, t)
      → Extends s t
        × IsPseudonymous t
        × (anonymize_urls runtime bodies statuses descriptors urls done t ≡ ok (out, t))
  again-anonymize_urls urls done out s t v h =
      let run = (anonymize_urls-IsStable urls done).repeats s t out h in
      (run.grows, run.apart v, run.again t (Extends-refl t))

pub IsPseudonymous-no_tables : IsPseudonymous no_tables
unfolding Dict.lookup
IsPseudonymous-no_tables = record {
  ids = numbered_empty (λ n. n);
  keys = numbered_empty key_token;
  names = λ kind. numbered_empty (λ n. n);
}
