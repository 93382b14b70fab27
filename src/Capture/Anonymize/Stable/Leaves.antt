-- ===== src/Capture/Anonymize/Stable/Leaves.antt =====
-- What becomes of a leaf, or of a key, can be done again.
use tydomio.Base.{
  ℕ, ◌≡◌, refl, true, ◌&&◌, ◌||◌, not, Option, none, some, List, [], ◌∷◌, ◌==◌, Eq, nat_eq, list_eq,
  ==→eq, ==_self, contains, contains-++, if◌then◌else◌, arith, ok, Bool-cases, Option-cases, inl,
  inr,
}
use mathlib.Core.Path.{subst}
use tydomio.Base.Int.{pos}
use tydomio.Base.Dict
use tydomio.Base.Dict.{Dict}
use tydomio.Base.Text.{Text}
use tydomio.Base.Text.Number.{show_nat, show_int}
use tydomio.Capture.Json.{Json, null, boolean, integer, float, string, array, object}
use tydomio.Capture.Policy.Rules.{Action, Rule}
use tydomio.Capture.Anonymize.{key_token, out_key, renamed_key, is_declared, is_identifier}
use tydomio.Capture.Anonymize.Positions.{Position, first_complete}
use tydomio.Capture.Anonymize.Metadata.{Runtime, Descriptors}
use tydomio.Capture.Anonymize.Numbering.{
  Grows, given, given-Grows, lookup-given, given_again, given-IsNumbered, key_token-injective,
}
use tydomio.Capture.Anonymize.Maps.{
  UnknownLeaf, unknown_eq, renamed_eq, Tables, add_once, names_of, kind_of, name_token,
  keep_constraint, no_rule,
}
use tydomio.Capture.Anonymize.Leaf.{
  is_kept, placeholder, unknown_leaf, id_leaf, name_leaf, value_leaf, ruled_leaf, leaf_by, leaf,
}
use tydomio.Capture.Anonymize.Stable.{Holds, IsStable, IsStable-pure, IsStable-same, IsStable-const}

module _ {ℓ} {A : Type ℓ} ⦃e : Eq A⦄ (a : A) (xs : List A) where
  add_once_known : contains xs a ≡ true → add_once a xs ≡ xs
  unfolding add_once
  add_once_known h = rw h refl

  Holds-add_once : Holds xs (add_once a xs)
  unfolding add_once
  Holds-add_once b h = ground (arith, contains-++ xs (a ∷ []) b)

  contains-add_once : contains (add_once a xs) a ≡ true
  unfolding add_once
  contains-add_once = ground (arith, contains-++ xs (a ∷ []) a, ==_self a)

-- A report of an unknown leaf.
unknown-IsStable :
    {A : Type 0} (a : A) (x : UnknownLeaf)
    → IsStable (λ t. ok (a, record t { unknown = add_once x t.unknown }))
unknown-IsStable a x =
    IsStable-pure (λ t. (a, record t { unknown = add_once x t.unknown }))
      (λ s. record {
        grows = record {
          ids = λ k n h. h;
          keys = λ k n h. h;
          names = λ kind k n h. h;
          unknown = Holds-add_once x s.unknown;
          renamed = λ b h. h;
        };
        apart = λ v. record { ids = v.ids; keys = v.keys; names = v.names };
        again = λ u e.
            rw (add_once_known x u.unknown (e.unknown x (contains-add_once x s.unknown))) refl;
      })

-- A number for an id.
id-IsStable :
    {A : Type 0} (k : Text) (g : ℕ → A)
    → IsStable
        (λ t. ok (g (given (λ n. n) k t.ids).0, record t { ids = (given (λ n. n) k t.ids).1 }))
id-IsStable k g =
    IsStable-pure
      (λ t. (g (given (λ n. n) k t.ids).0, record t { ids = (given (λ n. n) k t.ids).1 }))
      (λ s. record {
        grows = record {
          ids = given-Grows (λ n. n) k s.ids;
          keys = λ j a h. h;
          names = λ kind j a h. h;
          unknown = λ a h. h;
          renamed = λ a h. h;
        };
        apart = λ v. record {
          ids = given-IsNumbered (λ n. n) k s.ids (λ m n h. h) v.ids;
          keys = v.keys;
          names = v.names;
        };
        again = λ u e. rw (given_again (λ n. n) k s.ids u.ids e.ids) refl;
      })

-- A number for a name.
module _ (kind : Text) (k : Text) where
  name_step : Tables → ℕ × Tables
  name_step t = (
    (given (λ n. n) k (names_of kind t.names)).0,
    record t { names = Dict.insert kind (given (λ n. n) k (names_of kind t.names)).1 t.names },
  )

  names_of-insert :
      (j : Text) (d : Dict Text ℕ) (names : Dict Text (Dict Text ℕ))
      → names_of j (Dict.insert kind d names) ≡ (if j == kind then d else names_of j names)
  names_of-insert j d names = ground (arith, Dict.lookup-insert j kind d names)

  names_of_known :
      (names : Dict Text (Dict Text ℕ)) (a : ℕ)
      → Dict.lookup k (names_of kind names) ≡ some a
      → Dict.insert kind (names_of kind names) names ≡ names
  names_of_known names a h = elim (Option-cases (Dict.lookup kind names)) [
    | inl new ↦ ground (arith, Dict.lookup-nil {V = ℕ} k)
    | inr (d, known) ↦ rw (known, names_of) (Dict.insert_known kind d names known)
  ]

  grown_names :
      (d : Dict Text ℕ) (names later : Dict Text (Dict Text ℕ))
      → ((j : Text) → Grows (names_of j (Dict.insert kind d names)) (names_of j later))
      → Grows d (names_of kind later)
  grown_names d names later h i a g =
      h kind i a (ground (arith, names_of-insert kind d names, ==_self kind))

  name-IsStable : {A : Type 0} (g : ℕ → A) → IsStable (λ t. ok (g (name_step t).0, (name_step t).1))
  unfolding name_step
  name-IsStable g =
      IsStable-pure (λ t. (g (name_step t).0, (name_step t).1))
        (λ s. record {
          grows = record {
            ids = λ j a h. h;
            keys = λ j a h. h;
            names = λ j i a h.
                rw (names_of-insert j (given (λ n. n) k (names_of kind s.names)).1 s.names)
                  (elim (Bool-cases (j == kind)) [
                    | inl same ↦ rw same (
                        given-Grows (λ n. n) k (names_of kind s.names) i a
                          (subst (λ m. Dict.lookup i (names_of m s.names) ≡ some a)
                            (==→eq j kind same) h))
                    | inr other ↦ rw other h
                  ]);
            unknown = λ a h. h;
            renamed = λ a h. h;
          };
          apart = λ v. record {
            ids = v.ids;
            keys = v.keys;
            names = λ j.
                rw (names_of-insert j (given (λ n. n) k (names_of kind s.names)).1 s.names)
                  (elim (Bool-cases (j == kind)) [
                    | inl same ↦ rw same (
                        given-IsNumbered (λ n. n) k (names_of kind s.names) (λ m n h. h)
                          (v.names kind))
                    | inr other ↦ rw other (v.names j)
                  ]);
          };
          again = λ u e.
              let later =
                grown_names (given (λ n. n) k (names_of kind s.names)).1 s.names u.names e.names in
              rw
                (
                  given_again (λ n. n) k (names_of kind s.names) (names_of kind u.names) later,
                  names_of_known u.names _
                      (later k _ (lookup-given (λ n. n) k (names_of kind s.names))),
                )
                refl;
        })

module _ {F : Type 0} (runtime : Runtime F) (url : Text) (p : Position F) where
  unknown_leaf-IsStable :
      (value : Json F) (reason : Text)
      → IsStable (λ t. ok (unknown_leaf runtime url value p reason t))
  unfolding unknown_leaf
  unknown_leaf-IsStable value reason = unknown-IsStable (placeholder runtime value) _

  id_leaf-IsStable : (value : Json F) → IsStable (λ t. ok (id_leaf runtime url value p t))
  unfolding id_leaf
  id_leaf-IsStable null = IsStable-same null
  id_leaf-IsStable (string []) = IsStable-same (string [])
  id_leaf-IsStable (string (c ∷ s)) = id-IsStable (c ∷ s) (λ n. string (show_nat n))
  id_leaf-IsStable (integer n) = id-IsStable (show_int n) (λ n. integer (pos n))
  id_leaf-IsStable (boolean b) = unknown_leaf-IsStable (boolean b) keep_constraint
  id_leaf-IsStable (float x) = unknown_leaf-IsStable (float x) keep_constraint
  id_leaf-IsStable (array x) = unknown_leaf-IsStable (array x) keep_constraint
  id_leaf-IsStable (object x) = unknown_leaf-IsStable (object x) keep_constraint

  name_leaf-IsStable :
      (r : Rule) (value : Json F) → IsStable (λ t. ok (name_leaf runtime url r value p t))
  unfolding name_leaf name_step
  name_leaf-IsStable r null = IsStable-same null
  name_leaf-IsStable r (string s) =
      name-IsStable (kind_of r) s (λ n. string (name_token (kind_of r) n))
  name_leaf-IsStable r (integer n) = unknown_leaf-IsStable (integer n) keep_constraint
  name_leaf-IsStable r (boolean b) = unknown_leaf-IsStable (boolean b) keep_constraint
  name_leaf-IsStable r (float x) = unknown_leaf-IsStable (float x) keep_constraint
  name_leaf-IsStable r (array x) = unknown_leaf-IsStable (array x) keep_constraint
  name_leaf-IsStable r (object x) = unknown_leaf-IsStable (object x) keep_constraint

  module _ (descriptors : Dict Text (Descriptors F)) where
    ruled_leaf-IsStable :
        (r : Rule) (action : Action) (value : Json F)
        → IsStable (λ t. ruled_leaf runtime descriptors url r action value p t)
    unfolding ruled_leaf
    ruled_leaf-IsStable r Action.keep value =
        elim (Bool-cases (is_kept runtime r.constraint value)) [
          | inl kept ↦ rw kept (IsStable-same value)
          | inr other ↦ rw other (unknown_leaf-IsStable value keep_constraint)
        ]
    ruled_leaf-IsStable r Action.id value = id_leaf-IsStable value
    ruled_leaf-IsStable r Action.name value = name_leaf-IsStable r value
    ruled_leaf-IsStable r Action.value value =
        IsStable-const (value_leaf runtime descriptors url value p)
    ruled_leaf-IsStable r Action.redact value = IsStable-same (placeholder runtime value)

    leaf_by-IsStable :
        (r : Option Rule) (value : Json F)
        → IsStable (λ t. leaf_by runtime descriptors url r value p t)
    leaf_by-IsStable none value = unknown_leaf-IsStable value no_rule
    leaf_by-IsStable (some r) value = ruled_leaf-IsStable r r.action value

    pub leaf-IsStable : (value : Json F) → IsStable (λ t. leaf runtime descriptors url value p t)
    unfolding leaf
    leaf-IsStable value = leaf_by-IsStable (first_complete p.rules) value

  renamed_key-IsStable : (key : Text) → IsStable (λ t. ok (renamed_key url key p t))
  unfolding renamed_key
  renamed_key-IsStable key = IsStable-pure (renamed_key url key p) (λ s. record {
    grows = record {
      ids = λ j a h. h;
      keys = given-Grows key_token key s.keys;
      names = λ kind j a h. h;
      unknown = λ a h. h;
      renamed = Holds-add_once _ s.renamed;
    };
    apart = λ v. record {
      ids = v.ids;
      keys = given-IsNumbered key_token key s.keys key_token-injective v.keys;
      names = v.names;
    };
    again = λ u e.
        rw (given_again key_token key s.keys u.keys e.keys)
          (rw (add_once_known _ u.renamed (e.renamed _ (contains-add_once _ s.renamed))) refl);
  })

  pub out_key-IsStable : (key : Text) → IsStable (λ t. ok (out_key url key p t))
  unfolding out_key
  out_key-IsStable key =
      elim (Bool-cases (is_declared key p.rules || (not p.opaque && is_identifier key))) [
        | inl plain ↦ rw plain (IsStable-same key)
        | inr other ↦ rw other (renamed_key-IsStable key)
      ]
