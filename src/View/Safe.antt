-- ===== src/View/Safe.antt =====
-- What the items of the output may hold.
use tydomio.Base.{
  ◌≡◌, refl, ◌∙◌, Bool, true, false, ◌&&◌, Option, none, some, List, [], ◌∷◌, ◌++◌, nat_eq, list_eq,
  pair_eq, all, arith, Result, ok, err, Bool-cases, Option-cases, inl, inr,
}
use tydomio.Base.Int.{ℤ, int_eq}
use tydomio.Base.Dict
use tydomio.Base.Dict.{Dict}
use tydomio.Base.Text.{Text, codes}
use tydomio.Error.{Error}
use tydomio.Model.{ConfigEndpoint, Area}
use tydomio.Usages.{UsageModel, usages, area}
use tydomio.Usages.FromData.{Typed, from_data}
use tydomio.Cache.{Cache}
use tydomio.Cache.Entities.{Entity, or_blank}
use tydomio.View.Sanitize.{Secrets, redacted}
use tydomio.View.Clean.{is_clean, Substitutes}
use tydomio.View.Items.{
  Value, Platform, Item, FieldInfos, typed_state, or_absent, bare, with_state, typed_item, item,
}
use tydomio.View.{
  Found, is_wanted, endpoint_id, area_id, endpoints_of, areas_of, add_item, add_endpoints,
  add_areas, endpoint_item, area_item, get_state,
}
use tydomio.View.Values.{is_safe_text, safe_state, safe_notes, safe-clean, Safe-typed_state}

all-append :
    {A : Type 0} (p : A → Bool) (xs ys : List A) → all p (xs ++ ys) ≡ (all p xs && all p ys)
all-append p [] ys = refl
all-append p (x ∷ xs) ys = ground (arith, all-append p xs ys)

module _ {F : Type 0} (platform : Platform F) where
  abbrev pub is_safe_item : Item F → Bool
  is_safe_item i =
      is_safe_text platform i.name
      && is_safe_text platform i.kind
      && safe_state platform i.state
      && safe_notes platform i.validity

  module _ (secrets : Secrets) (substitutes : Substitutes platform.runtime secrets)
      (mark : all (is_clean platform.runtime) redacted ≡ true) where
    safe-or_absent :
        (notes : Dict Text Text)
        → safe_notes platform (some notes) ≡ true
        → safe_notes platform (or_absent notes) ≡ true
    safe-or_absent [] h = refl
    safe-or_absent (note ∷ notes) h = h

    safe-bare :
        (id name kind : Text) (b : Bool)
        → is_safe_item (bare platform secrets id name kind b) ≡ true
    safe-bare id name kind b = ground (
      arith,
      safe-clean platform secrets substitutes mark name,
      safe-clean platform secrets substitutes mark kind,
    )

    safe-with_state :
        (id name kind : Text) (error : ℤ) (model : UsageModel) (infos : FieldInfos)
        (typed : Typed (Value F) (Value F))
        → is_safe_item
            (with_state platform secrets id name kind error model infos
              (typed_state platform secrets model typed)).0
          ≡ true
    safe-with_state id name kind error model infos typed =
        elim (Option-cases (typed_state platform secrets model typed)) [
          | inl missing ↦ rw missing (safe-bare id name kind true)
          | inr ((state, notes), found) ↦
              let (v, n) =
                Safe-typed_state platform secrets substitutes mark model typed (state, notes)
                  found in
              rw found (
                ground (
                  arith,
                  safe-clean platform secrets substitutes mark name,
                  safe-clean platform secrets substitutes mark kind,
                  safe-or_absent notes n,
                ))
        ]

    safe-typed_item :
        (id name kind : Text) (error : ℤ) (model : UsageModel) (infos : FieldInfos)
        (typed : Result Error (Typed (Value F) (Value F)))
        → is_safe_item (typed_item platform secrets id name kind error model infos typed).0 ≡ true
    safe-typed_item id name kind error model infos (err e) = safe-bare id name kind true
    safe-typed_item id name kind error model infos (ok typed) =
        safe-with_state id name kind error model infos typed

    pub safe-item :
        (id name kind : Text) (model : Option UsageModel) (entity : Entity (Value F))
        (infos : FieldInfos)
        → is_safe_item (item platform secrets id name kind model entity infos).0 ≡ true
    unfolding item
    safe-item id name kind none entity infos = safe-bare id name kind false
    safe-item id name kind (some model) entity infos = elim (Bool-cases entity.invalid) [
      | inl invalid ↦ rw invalid (safe-bare id name kind true)
      | inr valid ↦ rw valid (
          safe-typed_item id name kind entity.error model infos
            (from_data platform.validate model (Dict.values entity.fields)))
    ]

    all-add_item :
        (wanted : Bool) (id : Text) (make : FieldInfos → Item F × FieldInfos) (found : Found F)
        → ((infos : FieldInfos) → is_safe_item (make infos).0 ≡ true)
        → all is_safe_item found.0 ≡ true
        → all is_safe_item (add_item wanted id make found).0 ≡ true
    all-add_item true id make (items, (infos, known)) h g =
        all-append is_safe_item items ((make infos).0 ∷ []) ∙ rw (g, h infos) refl
    all-add_item false id make (items, (infos, known)) h g = g

    module _ {T : Type 0} (utc_text : T → Text) (cache : Cache (Value F) T) where
      all-add_endpoints :
          (wanted : Option (List Text)) (es : List ConfigEndpoint) (found : Found F)
          → all is_safe_item found.0 ≡ true
          → all is_safe_item (add_endpoints platform utc_text secrets cache wanted es found).0
            ≡ true
      unfolding add_endpoints
      all-add_endpoints wanted [] found h = h
      all-add_endpoints wanted (e ∷ es) found h =
          all-add_endpoints wanted es
            (add_item (is_wanted wanted (endpoint_id e)) (endpoint_id e)
              (endpoint_item platform utc_text secrets cache e) found)
            (all-add_item (is_wanted wanted (endpoint_id e)) (endpoint_id e)
              (endpoint_item platform utc_text secrets cache e) found
              (λ infos.
                safe-item (endpoint_id e) e.name e.last_usage (usages e.last_usage)
                  (or_blank (Dict.lookup (e.id_device, e.id_endpoint) cache.endpoints)) infos)
              h)

      all-add_areas :
          (wanted : Option (List Text)) (areas : List Area) (found : Found F)
          → all is_safe_item found.0 ≡ true
          → all is_safe_item (add_areas platform utc_text secrets cache wanted areas found).0 ≡ true
      unfolding add_areas
      all-add_areas wanted [] found h = h
      all-add_areas wanted (a ∷ areas) found h =
          all-add_areas wanted areas
            (add_item (is_wanted wanted (area_id a)) (area_id a)
              (area_item platform utc_text secrets cache a) found)
            (all-add_item (is_wanted wanted (area_id a)) (area_id a)
              (area_item platform utc_text secrets cache a) found
              (λ infos.
                safe-item (area_id a) a.name (codes "area") (some area)
                  (or_blank (Dict.lookup a.id cache.areas)) infos)
              h)

      -- If the substitution of the pattern of the secrets by the replacement, in any text, makes its
      -- result of the text and the replacement, and the replacement is clean: whatever the cache holds, the name, the kind, the text values and the validities of each
      -- item have at most 64 characters, each a blank, an ellipsis, or neither white space nor a control
      -- or format character, and the numbers of its state are finite.
      pub all-get_state :
          (ids : Option (List Text)) (with_groups : Bool)
          → all is_safe_item (get_state platform utc_text secrets cache ids with_groups).items
            ≡ true
      unfolding get_state
      all-get_state ids with_groups =
          all-add_areas ids (areas_of cache.config)
            (add_endpoints platform utc_text secrets cache ids (endpoints_of cache.config)
              ([], ([], [])))
            (all-add_endpoints ids (endpoints_of cache.config) ([], ([], [])) refl)
