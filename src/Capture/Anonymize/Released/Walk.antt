-- ===== src/Capture/Anonymize/Released/Walk.antt =====
-- The texts of the anonymized bodies, through the whole walk.
use tydomio.Base.{
  ℕ, ◌≡◌, refl, ◌∙◌, sym, true, some, List, [], ◌∷◌, map, ◌==◌, nat_eq, list_eq, ==→eq, any, arith,
  ok, >>=-eq_ok, Bool-cases, Option-cases, inl, inr,
}
use tydomio.Base.Dict
use tydomio.Base.Dict.{Dict}
use tydomio.Base.Text.{Text}
use tydomio.Capture.Json.{
  Json, null, boolean, integer, float, string, array, object, Items, nil, cons, Fields, end, field,
  set_field,
}
use tydomio.Capture.Policy.{list_item}
use tydomio.Capture.Policy.Rules.{Rule, EndpointPolicy}
use tydomio.Capture.Anonymize.{
  node, node_items, node_fields, out_key, endpoint_body, anonymize_urls, policy_for, anonymize,
  Anonymized, all_descriptors, descriptor_sources, order,
}
use tydomio.Capture.Anonymize.Positions.{Position, child, inside, root, next_rules, first_complete}
use tydomio.Capture.Anonymize.Metadata.{Runtime, Descriptors}
use tydomio.Capture.Anonymize.Urls.{anonymize_urls-cons}
use tydomio.Capture.Anonymize.Maps.{Tables, no_tables}
use tydomio.Capture.Anonymize.Leaf.{is_kept, unknown_leaf, leaf}
use tydomio.Capture.Anonymize.Released.{
  keeps, released, released_items, released_fields, released-placeholder, released-ruled_leaf,
}

module _ {F : Type 0} (runtime : Runtime F) where
  -- The rules at a position keep only what rules of the policy keep.
  pub Follows : List Rule → List (Rule × ℕ) → Type 0
  Follows rules active =
      (v : Json F)
      → any (λ (r : Rule × ℕ). is_kept runtime r.0.constraint v) active ≡ true
      → keeps runtime rules v ≡ true

  any-next_rules :
      (segment key : Text) (active : List (Rule × ℕ)) (v : Json F)
      → any (λ (r : Rule × ℕ). is_kept runtime r.0.constraint v) (next_rules segment key active)
        ≡ true
      → any (λ (r : Rule × ℕ). is_kept runtime r.0.constraint v) active ≡ true
  unfolding next_rules
  any-next_rules segment key [] v h = h
  any-next_rules segment key ((rule, position) ∷ more) v h =
      ground (arith, any-next_rules segment key more v)

  any-first_complete :
      (active : List (Rule × ℕ)) (r : Rule) (v : Json F)
      → first_complete active ≡ some r
      → is_kept runtime r.constraint v ≡ true
      → any (λ (r : Rule × ℕ). is_kept runtime r.0.constraint v) active ≡ true
  unfolding first_complete
  any-first_complete [] r v h k = cc
  any-first_complete ((rule, position) ∷ more) r v h k = ground (arith, any-first_complete more r v)

  Follows-child :
      (rules : List Rule) (segment key out : Text) (p : Position F)
      → Follows rules p.rules
      → Follows rules (child segment key out p).rules
  unfolding Follows child
  Follows-child rules segment key out p f v h = f v (any-next_rules segment key p.rules v h)

  any-root :
      (rules : List Rule) (v : Json F)
      → any
          (λ (r : Rule × ℕ). is_kept runtime r.0.constraint v)
          (map (λ (rule : Rule). (rule, 0)) rules)
        ≡ keeps runtime rules v
  any-root [] v = refl
  any-root (r ∷ rules) v = ground (arith, any-root rules v)

  -- A leaf holds a text that a rule of the policy keeps, or none of its own.
  abbrev KeptText : List Rule → Json F → Type 0
  KeptText rules v = keeps runtime rules v ≡ true → released runtime rules v ≡ true

  released-leaf :
      (descriptors : Dict Text (Descriptors F)) (rules : List Rule) (url : Text) (v w : Json F)
      (p : Position F) (t u : Tables)
      → KeptText rules v
      → Follows rules p.rules
      → leaf runtime descriptors url v p t ≡ ok (w, u)
      → released runtime rules w ≡ true
  unfolding leaf Follows unknown_leaf
  released-leaf descriptors rules url v w p t u k f h =
      elim (Option-cases (first_complete p.rules)) [
        | inl missing ↦ ground (arith, released-placeholder runtime rules v)
        | inr (r, found) ↦
            released-ruled_leaf runtime descriptors rules url r r.action v w p t u
              (λ kept. k (f v (any-first_complete p.rules r v found kept))) (ground arith)
      ]

  released-set_field :
      (rules : List Rule) (key : Text) (v : Json F) (fields : Fields F)
      → released runtime rules v ≡ true
      → released_fields runtime rules fields ≡ true
      → released_fields runtime rules (set_field key v fields) ≡ true
  unfolding set_field released
  released-set_field rules key v end h g = ground arith
  released-set_field rules key v (field k w fields) h g =
      ground (arith, released-set_field rules key v fields)

  released-string : (rules : List Rule) (s : Text) → KeptText rules (string s)
  unfolding released
  released-string rules s h = ground arith

  module _ (descriptors : Dict Text (Descriptors F)) (url : Text) (rules : List Rule) where
    mutual
      unfolding node released

      released-node :
          (j : Json F) (p : Position F) (t : Tables) (out : Json F) (u : Tables)
          → Follows rules p.rules
          → node runtime descriptors url j p t ≡ ok (out, u)
          → released runtime rules out ≡ true
      released-node (array items) p t out u f h =
          let ((given, w), walked, h₁) =
            >>=-eq_ok (node_items runtime descriptors url items (child list_item [] list_item p) t)
              _ h in
          let inner =
            released-node_items items (child list_item [] list_item p) t given w
              (Follows-child rules list_item [] list_item p f) walked in
          ground arith
      released-node (object fields) p t out u f h =
          let ((given, w), walked, h₁) =
            >>=-eq_ok (node_fields runtime descriptors url fields (inside fields p) end t) _ h in
          let inner = released-node_fields fields (inside fields p) end t given w f refl walked in
          ground arith
      released-node null p t out u f h =
          released-leaf descriptors rules url null out p t u (λ k. refl) f h
      released-node (boolean b) p t out u f h =
          released-leaf descriptors rules url (boolean b) out p t u (λ k. refl) f h
      released-node (integer n) p t out u f h =
          released-leaf descriptors rules url (integer n) out p t u (λ k. refl) f h
      released-node (float x) p t out u f h =
          released-leaf descriptors rules url (float x) out p t u (λ k. refl) f h
      released-node (string s) p t out u f h =
          released-leaf descriptors rules url (string s) out p t u (released-string rules s) f h

      released-node_items :
          (items : Items F) (p : Position F) (t : Tables) (out : Items F) (u : Tables)
          → Follows rules p.rules
          → node_items runtime descriptors url items p t ≡ ok (out, u)
          → released_items runtime rules out ≡ true
      released-node_items nil p t out u f h = ground arith
      released-node_items (cons item items) p t out u f h =
          let ((given, v), walked, h₁) = >>=-eq_ok (node runtime descriptors url item p t) _ h in
          let ((rest, w), others, h₂) =
            >>=-eq_ok (node_items runtime descriptors url items p v) _ h₁ in
          let first = released-node item p t given v f walked in
          let more = released-node_items items p v rest w f others in ground arith

      released-node_fields :
          (fields : Fields F) (p : Position F) (done : Fields F) (t : Tables) (out : Fields F)
          (u : Tables)
          → Follows rules p.rules
          → released_fields runtime rules done ≡ true
          → node_fields runtime descriptors url fields p done t ≡ ok (out, u)
          → released_fields runtime rules out ≡ true
      released-node_fields end p done t out u f g h = ground arith
      released-node_fields (field key value fields) p done t out u f g h =
          let (name, s) = out_key url key p t in
          let ((given, v), walked, h₁) =
            >>=-eq_ok (node runtime descriptors url value (child key key name p) s) _ h in
          let first =
            released-node value (child key key name p) s given v
              (Follows-child rules key key name p f) walked in
          released-node_fields fields p (set_field name given done) v out u f
            (released-set_field rules name given done first g) h₁

  -- The anonymized body of an endpoint, whatever the tables hold by then.
  released-endpoint_body :
      (descriptors : Dict Text (Descriptors F)) (url : Text) (body out : Json F)
      (policy : EndpointPolicy) (t u : Tables)
      → endpoint_body runtime descriptors url body policy t ≡ ok (out, u)
      → released runtime policy.rules out ≡ true
  unfolding endpoint_body root Follows
  released-endpoint_body descriptors url body out policy t u h =
      released-node descriptors url policy.rules body (root policy) t out u
        (λ v k. sym (any-root policy.rules v) ∙ k) h

  module _ (bodies : Dict Text (Json F)) (statuses : Dict Text ℕ) where
    -- Every body done so far holds texts only that the rules of its url release.
    abbrev AllReleased : Dict Text (Json F) → Type 0
    AllReleased done =
        (url : Text) (out : Json F)
        → Dict.lookup url done ≡ some out
        → released runtime (policy_for runtime bodies statuses url).rules out ≡ true

    one_more :
        (url : Text) (done : Dict Text (Json F)) (out : Json F)
        → AllReleased done
        → released runtime (policy_for runtime bodies statuses url).rules out ≡ true
        → AllReleased (Dict.insert url out done)
    one_more url done out f g other w found = elim (Bool-cases (other == url)) [
      | inl same ↦ rw (==→eq other url same) (ground (arith, Dict.lookup-insert other url out done))
      | inr different ↦ f other w (ground (arith, Dict.lookup-insert other url out done))
    ]

    released-anonymize_urls :
        (descriptors : Dict Text (Descriptors F)) (urls : List Text) (done : Dict Text (Json F))
        (t : Tables) (given : Dict Text (Json F)) (u : Tables)
        → AllReleased done
        → anonymize_urls runtime bodies statuses descriptors urls done t ≡ ok (given, u)
        → AllReleased given
    unfolding anonymize_urls
    released-anonymize_urls descriptors [] done t given u f h =
        λ url out k. f url out (ground arith)
    released-anonymize_urls descriptors (url ∷ urls) done t given u f h =
        elim (Option-cases (Dict.lookup url bodies)) [
          | inl missing ↦ absurd (ground arith)
          | inr (body, found) ↦
              let chosen = policy_for runtime bodies statuses url in
              let ((out, v), walked, h₁) =
                >>=-eq_ok (endpoint_body runtime descriptors url body chosen t) _ (
                  sym (
                    anonymize_urls-cons runtime bodies statuses descriptors url urls done body t
                      found)
                  ∙ h) in
              released-anonymize_urls descriptors urls (Dict.insert url out done) v given u
                (one_more url done out f
                  (released-endpoint_body descriptors url body out chosen t v walked))
                h₁
        ]

    -- Whatever the bodies of a capture hold, each text of a value in its anonymized bodies is a
    -- placeholder, a number, a name token, of the form of an enum value, or kept by a rule of the policy
    -- of its url. Where the status was not 200 or the url has no policy there is no such rule.
    pub released-anonymize :
        (result : Anonymized F) (url : Text) (out : Json F)
        → anonymize runtime bodies statuses ≡ ok result
        → Dict.lookup url result.bodies ≡ some out
        → released runtime (policy_for runtime bodies statuses url).rules out ≡ true
    unfolding anonymize
    released-anonymize result url out h found =
        let start = all_descriptors runtime bodies statuses descriptor_sources [] in
        let ((given, u), walked, h₁) =
          >>=-eq_ok
            (anonymize_urls runtime bodies statuses start (order runtime bodies statuses) []
              no_tables)
            _ h in
        released-anonymize_urls start (order runtime bodies statuses) [] no_tables given u
          (λ url out k. cc (Dict.lookup-nil {V = Json F} url)) walked url out (ground arith)
