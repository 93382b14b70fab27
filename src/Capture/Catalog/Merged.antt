-- ===== src/Capture/Catalog/Merged.antt =====
-- What a merge of two usages keeps.
use tydomio.Base.{
  ◌≡◌, refl, ◌∙◌, Option, none, some, List, [], ◌∷◌, ◌++◌, map, ◌==◌, Eq, nat_eq, list_eq, ==→eq,
  ==_self, All, arith, Bool-cases, inl, inr,
}
use tydomio.Base.Dict
use tydomio.Base.Dict.{Dict}
use tydomio.Base.Text.{Text}
use tydomio.Capture.Catalog.{
  Descriptor, Usage, Conflict, merge_field, merged_field, merge_found_fields, merge_usage,
}
use tydomio.Capture.Catalog.Order.{}
use tydomio.Capture.Catalog.Fields.{
  contains-union, field_pair, field_named, HasValues, Keeps, Keeps-refl, Keeps-trans, Named,
  insert-Named, insert_all-Named, field_named-sorted_values,
}

module _ {N : Type 0} ⦃e : Eq N⦄ where
  Keeps-merge_field :
      (usage : Text) (known found : Descriptor N) → Keeps known (merge_field usage known found).0
  unfolding merge_field
  Keeps-merge_field usage known found = record {
    attributes = refl;
    values = λ v h. ground (arith, contains-union known.enum_values found.enum_values v);
  }

  values-merged_field :
      (usage : Text) (known : Option (Descriptor N)) (found : Descriptor N)
      → HasValues found (merged_field usage known found).0
  unfolding merge_field
  values-merged_field usage none found v h = h
  values-merged_field usage (some known) found v h =
      ground (arith, contains-union known.enum_values found.enum_values v)

  name-merged_field :
      (usage : Text) (known : Option (Descriptor N)) (found : Descriptor N)
      → ((f : Descriptor N) → known ≡ some f → f.name ≡ found.name)
      → (merged_field usage known found).0.name ≡ found.name
  unfolding merge_field
  name-merged_field usage none found h = refl
  name-merged_field usage (some known) found h = h known refl

  -- A field of one dict is kept in another.
  abbrev KeptIn : Text → Descriptor N → Dict Text (Descriptor N) → Type 0
  KeptIn name f d = (g : Descriptor N) × (Dict.lookup name d ≡ some g) × Keeps f g

  merge_found_fields-Named :
      (usage : Text) (found : List (Descriptor N)) (d : Dict Text (Descriptor N))
      (cs : List (Conflict N))
      → Named d
      → Named (merge_found_fields usage found d cs).0
  unfolding merge_found_fields
  merge_found_fields-Named usage [] d cs h = h
  merge_found_fields-Named usage (f ∷ found) d cs h =
      let field = (merged_field usage (Dict.lookup f.name d) f).0 in
      merge_found_fields-Named usage found (Dict.insert f.name field d) _ (
        insert-Named field d f.name
          (name-merged_field usage (Dict.lookup f.name d) f (λ g same. h f.name g same)) h)

  -- One round keeps every field.
  insert-KeptIn :
      (usage : Text) (f : Descriptor N) (d : Dict Text (Descriptor N)) (name : Text)
      (g : Descriptor N)
      → Dict.lookup name d ≡ some g
      → KeptIn name g (Dict.insert f.name (merged_field usage (Dict.lookup f.name d) f).0 d)
  insert-KeptIn usage f d name g known = elim (Bool-cases (name == f.name)) [
    | inl same ↦
        let at : Dict.lookup f.name d ≡ some g = ground (arith, ==→eq name f.name same) in
        (
          (merge_field usage g f).0,
          Dict.lookup-insert name f.name (merged_field usage (Dict.lookup f.name d) f).0 d
              ∙ rw (same, at) refl,
          Keeps-merge_field usage g f,
        )
    | inr other ↦ (
      g,
      Dict.lookup-insert name f.name (merged_field usage (Dict.lookup f.name d) f).0 d
          ∙ rw other known,
      Keeps-refl g,
    )
  ]

  merge_found_fields-KeptIn :
      (usage : Text) (found : List (Descriptor N)) (d : Dict Text (Descriptor N))
      (cs : List (Conflict N)) (name : Text) (g : Descriptor N)
      → Dict.lookup name d ≡ some g
      → KeptIn name g (merge_found_fields usage found d cs).0
  unfolding merge_found_fields
  merge_found_fields-KeptIn usage [] d cs name g known = (g, known, Keeps-refl g)
  merge_found_fields-KeptIn usage (f ∷ found) d cs name g known =
      let (h, here, kept) = insert-KeptIn usage f d name g known in
      let (k, there, more) = merge_found_fields-KeptIn usage found _ _ name h here in
      (k, there, Keeps-trans kept more)

  -- A found field has its enum values in a dict.
  abbrev FoundIn : Dict Text (Descriptor N) → Descriptor N → Type 0
  FoundIn d f = (g : Descriptor N) × (Dict.lookup f.name d ≡ some g) × HasValues f g

  merge_found_fields-FoundIn :
      (usage : Text) (found : List (Descriptor N)) (d : Dict Text (Descriptor N))
      (cs : List (Conflict N))
      → All (FoundIn (merge_found_fields usage found d cs).0) found
  unfolding merge_found_fields
  merge_found_fields-FoundIn usage [] d cs = tt
  merge_found_fields-FoundIn usage (f ∷ found) d cs =
      let field = (merged_field usage (Dict.lookup f.name d) f).0 in
      let rest = Dict.insert f.name field d in
      let more = cs ++ (merged_field usage (Dict.lookup f.name d) f).1 in
      let here : Dict.lookup f.name rest ≡ some field =
        Dict.lookup-insert f.name f.name field d ∙ rw (==_self f.name) refl in
      let (g, there, kept) = merge_found_fields-KeptIn usage found rest more f.name field here in
      (
        (g, there, λ v h. kept.values v (values-merged_field usage (Dict.lookup f.name d) f v h)),
        merge_found_fields-FoundIn usage found rest more,
      )

  abbrev start : List (Descriptor N) → Dict Text (Descriptor N)
  start fields = Dict.insert_all (map field_pair fields) []

  lookup-start :
      (fields : List (Descriptor N)) (name : Text)
      → Dict.lookup name (start fields) ≡ field_named name fields
  lookup-start fields name =
      Dict.lookup-insert_all name (map field_pair fields) []
      ∙ rw (Dict.lookup-nil {V = Descriptor N} name) (or_else-none (field_named name fields))
    where
      or_else-none : (o : Option (Descriptor N)) → Dict.or_else o none ≡ o
      or_else-none none = refl
      or_else-none (some f) = refl

  start-Named : (fields : List (Descriptor N)) → Named (start fields)
  start-Named fields =
      insert_all-Named fields [] (λ k f h. cc (Dict.lookup-nil {V = Descriptor N} k))

  All-map :
      {P Q : Descriptor N → Type 0} (fs : List (Descriptor N))
      → ((f : Descriptor N) → P f → Q f)
      → All P fs
      → All Q fs
  All-map [] h a = tt
  All-map (f ∷ fs) h (first, rest) = (h f first, All-map fs h rest)

  -- A merge loses nothing that is known: each field that the usage is known to have is there
  -- afterwards, with all its attributes and all its enum values, whatever was found.
  pub field_named-merge_usage :
      (usage : Text) (known found : Usage N) (conflicts : List (Conflict N)) (name : Text)
      (f : Descriptor N)
      → field_named name known.fields ≡ some f
      → (g : Descriptor N) × (field_named name (merge_usage usage known found conflicts).0.fields
          ≡ some g)
        × Keeps f g
  unfolding merge_usage
  field_named-merge_usage usage known found conflicts name f there =
      let merged = (merge_found_fields usage found.fields (start known.fields) conflicts).0 in
      let named =
        merge_found_fields-Named usage found.fields (start known.fields) conflicts
          (start-Named known.fields) in
      let (g, kept, same) =
        merge_found_fields-KeptIn usage found.fields (start known.fields) conflicts name f
          (lookup-start known.fields name ∙ there) in
      (g, field_named-sorted_values merged name named ∙ kept, same)

  -- A merge loses nothing that is found: each field that was found is there afterwards, with all the
  -- enum values that were found, whatever was known, also where nothing was.
  pub merge_usage-HasValues :
      (usage : Text) (known found : Usage N) (conflicts : List (Conflict N))
      → All
          (λ (x : Descriptor N).
            (g : Descriptor N) × (field_named x.name
                (merge_usage usage known found conflicts).0.fields
              ≡ some g)
            × HasValues x g)
          found.fields
  unfolding merge_usage
  merge_usage-HasValues usage known found conflicts =
      let merged = (merge_found_fields usage found.fields (start known.fields) conflicts).0 in
      let named =
        merge_found_fields-Named usage found.fields (start known.fields) conflicts
          (start-Named known.fields) in
      All-map found.fields
        (λ x (h, at, has). (h, field_named-sorted_values merged x.name named ∙ at, has))
        (merge_found_fields-FoundIn usage found.fields (start known.fields) conflicts)
