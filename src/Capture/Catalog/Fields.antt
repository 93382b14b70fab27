-- ===== src/Capture/Catalog/Fields.antt =====
-- Fields by their names, and when a field keeps all that another has.
use tydomio.Base.{
  ◌≡◌, refl, ◌∙◌, sym, true, ◌||◌, Option, none, some, List, [], ◌∷◌, ◌++◌, map, ◌==◌, nat_eq,
  list_eq, ==→eq, contains, contains-++, if◌then◌else◌, arith, Bool-cases, Option-cases, inl, inr,
}
use tydomio.Base.Dict
use tydomio.Base.Dict.{Dict}
use tydomio.Base.Text.{Text}
use tydomio.Capture.Catalog.{Descriptor, attributes, values_or_none, union}
use tydomio.Capture.Catalog.Order.{
  sorted_set, entries, sorted_dict, sorted_values, contains-sorted_set, lookup-entries,
  lookup-sorted_dict,
}

pub contains-union :
    (a b : Option (List Text)) (v : Text)
    → contains (values_or_none (union a b)) v
      ≡ (contains (values_or_none a) v || contains (values_or_none b) v)
contains-union none none v = refl
contains-union none (some b) v = contains-sorted_set b v
contains-union (some a) none v = contains-sorted_set (a ++ []) v ∙ contains-++ a [] v
contains-union (some a) (some b) v = contains-sorted_set (a ++ b) v ∙ contains-++ a b v

module _ {N : Type 0} where
  abbrev pub field_pair : Descriptor N → Text × Descriptor N
  field_pair f = (f.name, f)

  -- The field of a usage with a name.
  abbrev pub field_named : Text → List (Descriptor N) → Option (Descriptor N)
  field_named name fields = Dict.last_of name (map field_pair fields)

  -- A field has all the enum values of another.
  abbrev pub HasValues : Descriptor N → Descriptor N → Type 0
  HasValues f g =
      (v : Text)
      → contains (values_or_none f.enum_values) v ≡ true
      → contains (values_or_none g.enum_values) v ≡ true

  -- A field with the attributes of another and all its enum values.
  pub record Keeps (f g : Descriptor N) : Type 0 where
    pub attributes : attributes f ≡ attributes g
    pub values : HasValues f g

  pub Keeps-refl : (f : Descriptor N) → Keeps f f
  Keeps-refl f = record { attributes = refl; values = λ v h. h }

  pub Keeps-trans : {f g h : Descriptor N} → Keeps f g → Keeps g h → Keeps f h
  Keeps-trans a b = record {
    attributes = a.attributes ∙ b.attributes;
    values = λ v h. b.values v (a.values v h);
  }

  -- Each field stands under its name.
  abbrev pub Named : Dict Text (Descriptor N) → Type 0
  Named d = (k : Text) (f : Descriptor N) → Dict.lookup k d ≡ some f → f.name ≡ k

  pub insert-Named :
      (f : Descriptor N) (d : Dict Text (Descriptor N)) (k : Text)
      → f.name ≡ k
      → Named d
      → Named (Dict.insert k f d)
  insert-Named f d k same h j g found = elim (Bool-cases (j == k)) [
    | inl equal ↦ ground (arith, ==→eq j k equal, Dict.lookup-insert j k f d)
    | inr other ↦ h j g (ground (arith, Dict.lookup-insert j k f d))
  ]

  pub insert_all-Named :
      (fields : List (Descriptor N)) (d : Dict Text (Descriptor N))
      → Named d
      → Named (Dict.insert_all (map field_pair fields) d)
  unfolding Dict.insert_all
  insert_all-Named [] d h = h
  insert_all-Named (f ∷ fields) d h =
      insert_all-Named fields (Dict.insert f.name f d) (insert-Named f d f.name refl h)

  -- What a field of a dict becomes in the list of its values.
  pub field_named-entries :
      (ks : List Text) (d : Dict Text (Descriptor N)) (name : Text)
      → Named d
      → field_named name (Dict.values (entries ks d))
        ≡ (if contains ks name then Dict.lookup name d else none)
  unfolding entries Dict.values Dict.last_of
  field_named-entries [] d name h = refl
  field_named-entries (k ∷ ks) d name h = elim (Option-cases (Dict.lookup k d)) [
    | inl missing ↦ rw missing (ground (arith, field_named-entries ks d name h, ==→eq name k))
    | inr (f, found) ↦ rw found (
        ground (
          arith,
          field_named-entries ks d name h,
          h k f found,
          ==→eq name k,
          Option-cases (field_named name (Dict.values (entries ks d))),
          Option-cases (Dict.lookup name d),
        ))
  ]

  pub field_named-sorted_values :
      (d : Dict Text (Descriptor N)) (name : Text)
      → Named d
      → field_named name (sorted_values d) ≡ Dict.lookup name d
  unfolding sorted_values sorted_dict
  field_named-sorted_values d name h =
      field_named-entries (sorted_set (Dict.keys d)) d name h
      ∙ sym (lookup-entries (sorted_set (Dict.keys d)) d name)
      ∙ lookup-sorted_dict d name
