-- ===== src/Usages/FromData/Values.antt =====
-- Which value of the received data a usage model has for each of its fields.
use tydomio.Base.{
  ◌≡◌, ◌↔◌, refl, ◌∙◌, sym, ap, Bool, true, false, Option, none, some, List, [], ◌∷◌, map, ◌==◌,
  nat_eq, list_eq, ==→eq, ==_self, if◌then◌else◌, any, ok, err, arith, Bool-cases, Option-cases,
  inl, inr,
}
use tydomio.Base.Dict
use tydomio.Base.Dict.{Dict}
use tydomio.Base.Text.{Text}
use tydomio.Error.{invalid_response}
use tydomio.Model.{Data}
use tydomio.Usages.{UsageModel}
use tydomio.Usages.Fields.{FieldInfo, ValueType, model_fields}
use tydomio.Usages.FromData.{
  Reading, Typed, is_alias, split_data, reading_of, is_refused, read_fields, has_refused, from_data,
}

module _ {V : Type 0} where
  -- The last datum of a name.
  abbrev pub last_datum : Text → List (Data V) → Option (Data V)
  last_datum name items = Dict.last_of name (map (λ (item : Data V). (item.name, item)) items)

  abbrev pub value_of : Option (Data V) → Option (V × Text)
  value_of none = none
  value_of (some item) = some (item.value, item.validity)

  known-split_data :
      (fields : List FieldInfo) (items : List (Data V)) (known : Dict Text (V × Text))
      (unknown : Dict Text (Data V)) (name : Text)
      → Dict.lookup name (split_data fields items known unknown).0 ≡ (
          if is_alias fields name
          then Dict.or_else (value_of (last_datum name items)) (Dict.lookup name known)
          else Dict.lookup name known)
  unfolding split_data Dict.last_of
  known-split_data fields [] known unknown name = ground arith
  known-split_data fields (item ∷ items) known unknown name =
      known-split_data fields items _ _ name ∙ elim (Bool-cases (name == item.name)) [
        | inl same ↦ ground (
          arith,
          ap (is_alias fields) (==→eq name item.name same),
          Dict.lookup-insert name item.name (item.value, item.validity) known,
          Option-cases (last_datum name items),
        )
        | inr other ↦ ground (
          arith,
          Dict.lookup-insert name item.name (item.value, item.validity) known,
          Option-cases (last_datum name items),
        )
      ]

  unknown-split_data :
      (fields : List FieldInfo) (items : List (Data V)) (known : Dict Text (V × Text))
      (unknown : Dict Text (Data V)) (name : Text)
      → Dict.lookup name (split_data fields items known unknown).1 ≡ (
          if is_alias fields name
          then Dict.lookup name unknown
          else Dict.or_else (last_datum name items) (Dict.lookup name unknown))
  unfolding split_data Dict.last_of
  unknown-split_data fields [] known unknown name = ground arith
  unknown-split_data fields (item ∷ items) known unknown name =
      unknown-split_data fields items _ _ name ∙ elim (Bool-cases (name == item.name)) [
        | inl same ↦ ground (
          arith,
          ap (is_alias fields) (==→eq name item.name same),
          Dict.lookup-insert name item.name item unknown,
          Option-cases (last_datum name items),
        )
        | inr other ↦ ground (
          arith,
          Dict.lookup-insert name item.name item unknown,
          Option-cases (last_datum name items),
        )
      ]

-- The first field with an alias.
abbrev pub field_of : Text → List FieldInfo → Option FieldInfo
field_of name [] = none
field_of name (f ∷ fields) = if name == f.alias then some f else field_of name fields

is_alias-field_of :
    (name : Text) (fields : List FieldInfo) (f : FieldInfo)
    → field_of name fields ≡ some f
    → is_alias fields name ≡ true
is_alias-field_of name [] f h = cc
is_alias-field_of name (g ∷ fields) f h = ground (arith, is_alias-field_of name fields f)

err_if :
    {A : Type 0} (b : Bool) (a : A)
    → ((if b then err invalid_response else ok a) ≡ err invalid_response) ↔ (b ≡ true)
err_if true a = (λ h. refl, λ h. refl)
err_if false a = (λ h. cc, λ h. cc)

module _ {V W : Type 0} (validate : ValueType → V → Option W) where
  -- What the model reads for a name: the last datum of that name, if it is one of its fields.
  abbrev pub expected : Option FieldInfo → Option (V × Text) → Option (Reading W)
  expected none datum = none
  expected (some f) datum = reading_of validate f.value_type datum

  expected-none : (o : Option FieldInfo) → expected o none ≡ none
  expected-none none = refl
  expected-none (some f) = refl

  lookup-read_fields :
      (fields : List FieldInfo) (known : Dict Text (V × Text)) (name : Text)
      → has_refused validate fields known ≡ false
      → Dict.lookup name (read_fields validate fields known)
        ≡ expected (field_of name fields) (Dict.lookup name known)
  unfolding read_fields Dict.lookup has_refused
  lookup-read_fields [] known name h = refl
  lookup-read_fields (f ∷ fields) known name h = elim (Option-cases (Dict.lookup f.alias known)) [
    | inl missing ↦ ground (
      arith,
      lookup-read_fields fields known name,
      expected-none (field_of name fields),
      ==→eq name f.alias,
    )
    | inr ((v, validity), found) ↦ elim (Option-cases (validate f.value_type v)) [
      | inl bad ↦ absurd (ground arith)
      | inr (w, good) ↦ ground (arith, lookup-read_fields fields known name, ==→eq name f.alias)
    ]
  ]

  -- The value that is read for a field of the model.
  received :
      (all : List FieldInfo) (items : List (Data V)) (name : Text)
      → is_alias all name ≡ true
      → Dict.lookup name (split_data all items [] []).0 ≡ value_of (last_datum name items)
  received all items name h =
      known-split_data all items [] [] name
      ∙ rw (h, Dict.lookup-nil {V = V × Text} name) (or_none (value_of (last_datum name items)))
    where
      or_none : (o : Option (V × Text)) → Dict.or_else o none ≡ o
      or_none none = refl
      or_none (some v) = refl

  has_refused-last :
      (all fields : List FieldInfo) (items : List (Data V))
      → ((name : Text) → is_alias fields name ≡ true → is_alias all name ≡ true)
      → has_refused validate fields (split_data all items [] []).0
        ≡ any
            (λ (f : FieldInfo).
              is_refused validate f.value_type (value_of (last_datum f.alias items)))
            fields
  unfolding has_refused
  has_refused-last all [] items h = refl
  has_refused-last all (f ∷ fields) items h =
      rw (received all items f.alias (h f.alias (ground (arith, ==_self f.alias))))
        (ground (arith, has_refused-last all fields items (λ name k. h name (ground arith))))

  named :
      (fields : List FieldInfo) (items : List (Data V)) (name : Text)
      → expected (field_of name fields) (Dict.lookup name (split_data fields items [] []).0)
        ≡ expected (field_of name fields) (value_of (last_datum name items))
  named fields items name = elim (Option-cases (field_of name fields)) [
    | inl other ↦ rw other refl
    | inr (f, found) ↦ rw (received fields items name (is_alias-field_of name fields f found)) refl
  ]

  -- A usage model that is made from data has, for each of its fields, the last datum with that name, with
  -- its value validated and its validity as received, and none where the data do not name it; a name that
  -- is no field of the model is kept as received, the last datum of it.
  pub from_data_lem :
      (model : UsageModel) (items : List (Data V)) (typed : Typed V W) (name : Text)
      → from_data validate model items ≡ ok typed
      → (Dict.lookup name typed.readings
          ≡ expected (field_of name (model_fields model)) (value_of (last_datum name items)))
        × (Dict.lookup name typed.unknown
            ≡ (if is_alias (model_fields model) name then none else last_datum name items))
  unfolding from_data
  from_data_lem model items typed name h =
      let fields = model_fields model in
      let split = split_data fields items [] [] in
      elim (Bool-cases (has_refused validate fields split.0)) [
        | inl refused ↦ absurd (ground arith)
        | inr valid ↦
            let same : record { readings = read_fields validate fields split.0; unknown = split.1 }
                ≡ typed =
              ground arith in
            rw (sym same) (
              lookup-read_fields fields split.0 name valid ∙ named fields items name,
              unknown-split_data fields items [] [] name
                  ∙ rw (Dict.lookup-nil {V = Data V} name) (ground arith),
            )
      ]

  -- Making a usage model from data fails exactly if the last value received for some field of the model
  -- has the wrong type: earlier values and names that the model does not know never matter.
  pub from_data-error :
      (model : UsageModel) (items : List (Data V))
      → (from_data validate model items ≡ err invalid_response) ↔ (
          any
            (λ (f : FieldInfo).
              is_refused validate f.value_type (value_of (last_datum f.alias items)))
            (model_fields model)
          ≡ true)
  unfolding from_data
  from_data-error model items =
      let fields = model_fields model in
      let last = has_refused-last fields fields items (λ name k. k) in rw (sym last) (err_if _ _)
