-- ===== src/Capture/Catalog.antt =====
-- tydomio/capture/catalog.py: the catalog of the fields and commands of each usage, and its merge. `N`
-- is the type of numbers, int or float.
pub mod Order
pub mod Extract
pub mod Fields
pub mod Merged
pub mod Tests
use tydomio.Base.{
  Bool, true, false, not, ◌&&◌, Option, none, some, List, [], ◌∷◌, ◌++◌, map, ◌==◌, Eq, nat_eq,
  list_eq, option_eq, if◌then◌else◌,
}
use tydomio.Base.Int.{ℤ, int_eq}
use tydomio.Base.Dict
use tydomio.Base.Dict.{Dict}
use tydomio.Base.Text.{Text, codes}
use tydomio.Capture.Catalog.Order.{sorted_set, sorted_dict, sorted_values}

pub record Descriptor (N : Type 0) : Type 0 where
  pub name : Text
  pub type : Text
  pub permission : Option Text
  pub validity : Option Text
  pub unit : Option Text
  pub minimum : Option N
  pub maximum : Option N
  pub step : Option N
  pub size : Option ℤ
  pub enum_values : Option (List Text)

pub record Command (N : Type 0) : Type 0 where
  pub name : Text
  pub permission : Text
  pub parameters : List (Descriptor N)

pub record Usage (N : Type 0) : Type 0 where
  pub fields : List (Descriptor N)
  pub commands : List (Command N)

abbrev pub Catalog : Type 0 → Type 0
Catalog N = Dict Text (Usage N)

-- The value of an attribute of a conflict.
pub data Attribute (N : Type 0) : Type 0 where
  text_of : Option Text → Attribute N
  number_of : Option N → Attribute N
  size_of : Option ℤ → Attribute N
  command_of : Command N → Attribute N

pub record Conflict (N : Type 0) : Type 0 where
  pub usage : Text
  pub name : Text
  pub attribute : Text
  pub known : Attribute N
  pub found : Attribute N

-- `values or ()`
abbrev pub values_or_none : Option (List Text) → List Text
values_or_none none = []
values_or_none (some values) = values

abbrev pub sorted_values_of : Option (List Text) → Option (List Text)
sorted_values_of none = none
sorted_values_of (some values) = some (sorted_set values)

-- The enum values of a merged field: none if neither has any.
abbrev pub union : Option (List Text) → Option (List Text) → Option (List Text)
union none none = none
union known found = some (sorted_set (values_or_none known ++ values_or_none found))

module _ {N : Type 0} where
  -- The attributes of a descriptor in their order, without `enum_values`.
  abbrev pub attributes : Descriptor N → List (Text × Attribute N)
  attributes d =
      (codes "name", text_of (some d.name))
      ∷ (codes "type", text_of (some d.type))
      ∷ (codes "permission", text_of d.permission)
      ∷ (codes "validity", text_of d.validity)
      ∷ (codes "unit", text_of d.unit)
      ∷ (codes "min", number_of d.minimum)
      ∷ (codes "max", number_of d.maximum)
      ∷ (codes "step", number_of d.step)
      ∷ (codes "size", size_of d.size)
      ∷ []

  -- `_sorted_enum`
  unfoldable pub sorted_enum : Descriptor N → Descriptor N
  sorted_enum d = record d { enum_values = sorted_values_of d.enum_values }

  -- `_sorted_command`
  unfoldable pub sorted_command : Command N → Command N
  unfolding sorted_enum
  sorted_command c = record c { parameters = map sorted_enum c.parameters }

module _ {N : Type 0} ⦃e : Eq N⦄ where
  abbrev pub same_value : Attribute N → Attribute N → Bool
  same_value (text_of a) (text_of b) = a == b
  same_value (number_of a) (number_of b) = a == b
  same_value (size_of a) (size_of b) = a == b
  same_value _ _ = false

  -- `a == b` of two descriptors, of two tuples of them, and of two commands.
  unfoldable pub all_same : List (Text × Attribute N) → List (Text × Attribute N) → Bool
  all_same ((n, a) ∷ xs) ((m, b) ∷ ys) = same_value a b && all_same xs ys
  all_same _ _ = true

  unfoldable pub same_parameters : List (Descriptor N) → List (Descriptor N) → Bool
  unfolding all_same
  same_parameters [] [] = true
  same_parameters (d ∷ ds) (f ∷ fs) =
      all_same (attributes d) (attributes f)
      && d.enum_values == f.enum_values
      && same_parameters ds fs
  same_parameters _ _ = false

  abbrev pub same_command : Command N → Command N → Bool
  same_command c d =
      c.name == d.name && c.permission == d.permission && same_parameters c.parameters d.parameters

  -- The loop of `_merge_field` over the attributes.
  unfoldable pub differences :
      Text → Text → List (Text × Attribute N) → List (Text × Attribute N) → List (Conflict N)
  differences usage name ((attribute, a) ∷ xs) ((other, b) ∷ ys) =
      let rest = differences usage name xs ys in
      if same_value a b
      then rest
      else record { usage = usage; name = name; attribute = attribute; known = a; found = b } ∷ rest
  differences usage name _ _ = []

  -- `_merge_field`, with the conflicts that it adds.
  unfoldable pub merge_field : Text → Descriptor N → Descriptor N → Descriptor N × List (Conflict N)
  unfolding differences
  merge_field usage known found = (
    record known { enum_values = union known.enum_values found.enum_values },
    differences usage known.name (attributes known) (attributes found),
  )

  -- The field that a found one becomes, beside the known one of its name.
  abbrev pub merged_field :
      Text → Option (Descriptor N) → Descriptor N → Descriptor N × List (Conflict N)
  merged_field usage none found = (found, [])
  merged_field usage (some known) found = merge_field usage known found

  -- The loop of `_merge_usage` over the found fields.
  unfoldable pub merge_found_fields :
      Text
      → List (Descriptor N)
      → Dict Text (Descriptor N)
      → List (Conflict N)
      → Dict Text (Descriptor N) × List (Conflict N)
  unfolding merge_field Dict.lookup
  merge_found_fields usage [] fields conflicts = (fields, conflicts)
  merge_found_fields usage (f ∷ found) fields conflicts =
      let (field, more) = merged_field usage (Dict.lookup f.name fields) f in
      merge_found_fields usage found (Dict.insert f.name field fields) (conflicts ++ more)

  -- One round of the loop over the found commands: a command that differs stays xs it was known.
  abbrev pub merged_command :
      Text
      → Option (Command N)
      → Command N
      → Dict Text (Command N)
      → Dict Text (Command N) × List (Conflict N)
  merged_command usage none c commands = (Dict.insert c.name c commands, [])
  merged_command usage (some known) c commands =
      if same_command known c then (Dict.insert c.name c commands, []) else (
        commands,
        record {
          usage = usage;
          name = c.name;
          attribute = codes "command";
          known = command_of known;
          found = command_of c;
        }
            ∷ [],
      )

  unfoldable pub merge_commands :
      Text
      → List (Command N)
      → Dict Text (Command N)
      → List (Conflict N)
      → Dict Text (Command N) × List (Conflict N)
  unfolding same_parameters Dict.lookup
  merge_commands usage [] commands conflicts = (commands, conflicts)
  merge_commands usage (c ∷ found) commands conflicts =
      let (next, more) = merged_command usage (Dict.lookup c.name commands) c commands in
      merge_commands usage found next (conflicts ++ more)

  -- `_merge_usage`
  unfoldable pub merge_usage :
      Text → Usage N → Usage N → List (Conflict N) → Usage N × List (Conflict N)
  unfolding merge_found_fields merge_commands
  merge_usage usage known found conflicts =
      let (fields, more) =
        merge_found_fields usage found.fields
          (Dict.insert_all (map (λ (f : Descriptor N). (f.name, f)) known.fields) []) conflicts in
      let (commands, all_conflicts) =
        merge_commands usage found.commands
          (Dict.insert_all (map (λ (c : Command N). (c.name, c)) known.commands) []) more in
      (record { fields = sorted_values fields; commands = sorted_values commands }, all_conflicts)

  abbrev pub or_empty_usage : Option (Usage N) → Usage N
  or_empty_usage none = record { fields = []; commands = [] }
  or_empty_usage (some usage) = usage

  -- The loop of `merge` over the found usages.
  unfoldable pub merge_usages :
      List (Text × Usage N) → Catalog N → List (Conflict N) → Catalog N × List (Conflict N)
  unfolding merge_usage
  merge_usages [] usages conflicts = (usages, conflicts)
  merge_usages ((name, usage) ∷ found) usages conflicts =
      let (merged, more) =
        merge_usage name (or_empty_usage (Dict.lookup name usages)) usage conflicts in
      merge_usages found (Dict.insert name merged usages) more

  -- `merge`
  unfoldable pub merge_catalog : Catalog N → Catalog N → Catalog N × List (Conflict N)
  unfolding merge_usages
  merge_catalog known found =
      let (usages, conflicts) = merge_usages found known [] in (sorted_dict usages, conflicts)

  -- The loop of `extract` over the entries.
  unfoldable pub merge_entries :
      List (Catalog N) → Catalog N → List (Conflict N) → Catalog N × List (Conflict N)
  unfolding merge_catalog
  merge_entries [] catalog conflicts = (catalog, conflicts)
  merge_entries (found ∷ rest) catalog conflicts =
      let (merged, more) = merge_catalog catalog found in
      merge_entries rest merged (conflicts ++ more)
