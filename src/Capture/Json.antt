-- ===== src/Capture/Json.antt =====
-- tydomio/capture/jsonvalue.py: JSON values and their strict parsing. `F` is the type of finite floats;
-- decoding and `json.loads` are parameters.
pub mod Depth
pub mod Tests
use tydomio.Base.{
  ℕ, suc, Bool, Option, none, some, List, [], ◌∷◌, ◌==◌, nat_eq, list_eq, leb, if◌then◌else◌,
  Result, ok, err, ◌>>=◌,
}
use tydomio.Base.Int.{ℤ}
use tydomio.Base.Text.{Text}

mutual
  pub data Json (F : Type 0) : Type 0 where
    null : Json F
    boolean : Bool → Json F
    integer : ℤ → Json F
    float : F → Json F
    string : Text → Json F
    array : Items F → Json F
    object : Fields F → Json F

  pub data Items (F : Type 0) : Type 0 where
    nil : Items F
    cons : Json F → Items F → Items F

  -- A dict, its keys in their order.
  pub data Fields (F : Type 0) : Type 0 where
    end : Fields F
    field : Text → Json F → Fields F → Fields F

module _ {F : Type 0} where
  -- `fields.get(key)`
  unfoldable pub get : Text → Fields F → Option (Json F)
  get key end = none
  get key (field k v fields) = if key == k then some v else get key fields

  -- `fields[key] = value`
  unfoldable pub set_field : Text → Json F → Fields F → Fields F
  set_field key value end = field key value end
  set_field key value (field k v fields) =
      if key == k then field k value fields else field k v (set_field key value fields)

abbrev pub max_depth : ℕ
max_depth = 64

-- `NotJson`, by the reason that its message names.
pub data NotJson : Type 0 where
  not_utf8 non_finite invalid too_deep : NotJson

-- How `json.loads` ends: with a value, a `NotJson` of a hook, a `JSONDecodeError`, a `RecursionError`,
-- or the `ValueError` of `int` for more digits than it converts.
pub data Loads (F : Type 0) : Type 0 where
  value : Json F → Loads F
  refused_by_hook : NotJson → Loads F
  decode_error recursion_error value_error : Loads F

-- What leaves `parse_json`: a `NotJson`, or the `ValueError` that it does not catch.
pub data ParseFailure : Type 0 where
  not_json : NotJson → ParseFailure
  conversion_error : ParseFailure

module _ {F : Type 0} where
  unfoldable mutual
    -- `_checked`
    pub checked : Json F → ℕ → Result NotJson (Json F)
    checked null depth = ok null
    checked (boolean b) depth = ok (boolean b)
    checked (integer n) depth = ok (integer n)
    checked (float x) depth = ok (float x)
    checked (string s) depth = ok (string s)
    checked (array items) depth =
        let inner = checked_items items (suc depth) in
        if leb max_depth depth then err too_deep else (do xs ← inner; ok (array xs))
    checked (object fields) depth =
        let inner = checked_fields fields (suc depth) in
        if leb max_depth depth then err too_deep else (do fs ← inner; ok (object fs))

    pub checked_items : Items F → ℕ → Result NotJson (Items F)
    checked_items nil depth = ok nil
    checked_items (cons x xs) depth = do
      y ← checked x depth
      ys ← checked_items xs depth
      ok (cons y ys)

    pub checked_fields : Fields F → ℕ → Result NotJson (Fields F)
    checked_fields end depth = ok end
    checked_fields (field k v fs) depth = do
      w ← checked v depth
      more ← checked_fields fs depth
      ok (field k w more)

  -- What `parse_json` returns for what `json.loads` did.
  abbrev pub after_loads : Loads F → Result ParseFailure (Json F)
  after_loads (value j) = elim (checked j 0) [ ok k ↦ ok k | err e ↦ err (not_json e) ]
  after_loads (refused_by_hook e) = err (not_json e)
  after_loads decode_error = err (not_json invalid)
  after_loads recursion_error = err (not_json too_deep)
  after_loads value_error = err conversion_error

  -- `parse_json`: `decode` is `bytes.decode("utf-8")` and `loads` is `json.loads` with its two hooks.
  unfoldable pub parse_json :
      (Text → Option Text) → (Text → Loads F) → Text → Result ParseFailure (Json F)
  unfolding checked
  parse_json decode loads content = elim (decode content) [
    | none ↦ err (not_json not_utf8)
    | some text ↦ after_loads (loads text)
  ]
