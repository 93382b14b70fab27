-- ===== src/Capture/Anonymize/Metadata.antt =====
-- tydomio/capture/anonymize.py: the descriptors of data values, found by the raw ids and the name.
use tydomio.Base.{Bool, Option, none, some, List, [], ◌∷◌, ◌++◌, nat_eq, list_eq, if◌then◌else◌}
use tydomio.Base.Int.{ℤ}
use tydomio.Base.Dict
use tydomio.Base.Dict.{Dict}
use tydomio.Base.Text.{Text, codes}
use tydomio.Base.Text.Number.{show_int}
use tydomio.Capture.Json.{
  Json, null, boolean, integer, string, array, object, Items, nil, cons, Fields, get,
}

-- What the code relies on of Python: `repr` is `str` of a float, a list or a dict, `fullmatch` that of
-- `re`, `float_of` is `float` of an int (`none` is an `OverflowError`), `int_of` is `int` of a float.
pub record Runtime (F : Type 0) : Type 0 where
  pub repr : Json F → Text
  pub fullmatch : Text → Text → Bool
  pub zero_float : F
  pub float_of : ℤ → Option F
  pub int_of : F → ℤ

-- `_Descriptors`
abbrev pub Descriptors : Type 0 → Type 0
Descriptors F = Dict (List Text) (Fields F)

module _ {F : Type 0} (runtime : Runtime F) where
  -- `str(value)`
  unfoldable pub str : Json F → Text
  str null = codes "None"
  str (boolean b) = if b then codes "True" else codes "False"
  str (integer n) = show_int n
  str (string s) = s
  str value = runtime.repr value

  -- `str(fields.get(key))`
  unfoldable pub str_of : Text → Fields F → Text
  unfolding str get
  str_of key fields = elim (get key fields) [ none ↦ codes "None" | some value ↦ str value ]

  -- A descriptor with a name, under the key of its item.
  unfoldable pub add_descriptor : List Text → Json F → Descriptors F → Descriptors F
  unfolding Dict.set_default get
  add_descriptor key (object fields) index = elim (get (codes "name") fields) [
    | some (string name) ↦ (Dict.set_default (key ++ (name ∷ [])) fields index).1
    | _ ↦ index
  ]
  add_descriptor key _ index = index

  unfoldable pub add_descriptors : List Text → Items F → Descriptors F → Descriptors F
  unfolding add_descriptor
  add_descriptors key nil index = index
  add_descriptors key (cons d ds) index = add_descriptors key ds (add_descriptor key d index)

  -- The body of the loop of `visit` for an item; `visit_value` is the next level.
  abbrev pub add_metadata : List Text → Option (Json F) → Descriptors F → Descriptors F
  add_metadata key (some (array ds)) index = add_descriptors key ds index
  add_metadata key _ index = index

  abbrev pub visit_items :
      (List Text → Fields F → Descriptors F → Descriptors F)
      → List Text
      → Items F
      → Descriptors F
      → Descriptors F
  visit_items inner prefix nil index = index
  visit_items inner prefix (cons (object fields) more) index =
      visit_items inner prefix more
        (inner (prefix ++ (str_of (codes "id") fields ∷ [])) fields index)
  visit_items inner prefix (cons _ more) index = visit_items inner prefix more index

  abbrev pub visit_list :
      (List Text → Fields F → Descriptors F → Descriptors F)
      → List Text
      → Option (Json F)
      → Descriptors F
      → Descriptors F
  visit_list inner prefix (some (array items)) index = visit_items inner prefix items index
  visit_list inner prefix _ index = index

  -- What `visit` does for one item under its key.
  unfoldable pub visit_item : List Text → List Text → Fields F → Descriptors F → Descriptors F
  unfolding add_descriptors str_of get
  visit_item [] key fields index = add_metadata key (get (codes "metadata") fields) index
  visit_item (level ∷ remaining) key fields index =
      visit_list (visit_item remaining) key (get level fields) index

  -- `_index_descriptors`
  unfoldable pub index_descriptors : Json F → List Text → Descriptors F
  unfolding visit_item
  index_descriptors meta levels = visit_list (visit_item levels) [] (some meta) []
