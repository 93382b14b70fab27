-- ===== src/Capture/Json/Depth.antt =====
-- How deep the containers of a parsed value may be.
use tydomio.Base.{
  ℕ, suc, ◌+◌, ◌≤◌, ◌≡◌, refl, ◌↔◌, max, leb, if◌then◌else◌, arith, Result, ok, err, Bool-cases,
  inl, inr,
}
use mathlib.Core.Option.{some-injective}
use tydomio.Base.{Option, some, Option-cases, nat_eq, sym, ap, ◌∙◌}
use tydomio.Base.Text.{Text}
use tydomio.Capture.Json.{
  Loads, value, refused_by_hook, decode_error, recursion_error, value_error, after_loads,
  parse_json, Json, null, boolean, integer, float, string, array, object, Items, nil, cons, Fields,
  end, field, NotJson, too_deep, max_depth, checked, checked_items, checked_fields,
}

-- What is allowed at a depth.
abbrev within {ℓ} : {A : Type ℓ} → ℕ → ℕ → A → Result NotJson A
within depth n a = if leb (n + depth) max_depth then ok a else err too_deep

module _ {F : Type 0} where
  -- The number of containers inside one another.
  unfoldable mutual
    pub nesting : Json F → ℕ
    nesting (array items) = suc (nesting_items items)
    nesting (object fields) = suc (nesting_fields fields)
    nesting null = 0
    nesting (boolean b) = 0
    nesting (integer n) = 0
    nesting (float x) = 0
    nesting (string s) = 0

    pub nesting_items : Items F → ℕ
    nesting_items nil = 0
    nesting_items (cons x xs) = max (nesting x) (nesting_items xs)

    pub nesting_fields : Fields F → ℕ
    nesting_fields end = 0
    nesting_fields (field k v fs) = max (nesting v) (nesting_fields fs)

  mutual
    unfolding checked nesting

    checked-within :
        (j : Json F) (depth : ℕ) → depth ≤ max_depth → checked j depth ≡ within depth (nesting j) j
    checked-within null depth h = ground arith
    checked-within (boolean b) depth h = ground arith
    checked-within (integer n) depth h = ground arith
    checked-within (float x) depth h = ground arith
    checked-within (string s) depth h = ground arith
    checked-within (array items) depth h = elim (Bool-cases (leb max_depth depth)) [
      | inl full ↦ ground arith
      | inr room ↦ ground (arith, checked_items-within items (suc depth))
    ]
    checked-within (object fields) depth h = elim (Bool-cases (leb max_depth depth)) [
      | inl full ↦ ground arith
      | inr room ↦ ground (arith, checked_fields-within fields (suc depth))
    ]

    checked_items-within :
        (xs : Items F) (depth : ℕ)
        → depth ≤ max_depth
        → checked_items xs depth ≡ within depth (nesting_items xs) xs
    checked_items-within nil depth h = ground arith
    checked_items-within (cons x xs) depth h =
        rw (checked-within x depth h, checked_items-within xs depth h) (ground arith)

    checked_fields-within :
        (fs : Fields F) (depth : ℕ)
        → depth ≤ max_depth
        → checked_fields fs depth ≡ within depth (nesting_fields fs) fs
    checked_fields-within end depth h = ground arith
    checked_fields-within (field k v fs) depth h =
        rw (checked-within v depth h, checked_fields-within fs depth h) (ground arith)

  pub checked_lem : (j : Json F) → checked j 0 ≡ (if leb (nesting j) 64 then ok j else err too_deep)
  checked_lem j = ground (arith, checked-within j 0)

  after_loads_iff :
      (l : Loads F) (j : Json F) → (after_loads l ≡ ok j) ↔ ((l ≡ value j) × (nesting j ≤ 64))
  after_loads_iff (value k) j = (
    λ h. elim (Bool-cases (leb (nesting k) 64)) [
      | inl small ↦ ground (arith, checked_lem k)
      | inr large ↦ absurd (ground (arith, checked_lem k))
    ],
    λ (same, small). ground (arith, checked_lem k),
  )
  after_loads_iff (refused_by_hook e) j = (λ h. cc, λ h. cc)
  after_loads_iff decode_error j = (λ h. cc, λ h. cc)
  after_loads_iff recursion_error j = (λ h. cc, λ h. cc)
  after_loads_iff value_error j = (λ h. cc, λ h. cc)

  -- The parser gives a value exactly if the content decodes to a text that `json.loads` reads as that
  -- value, and at most 64 containers stand inside one another anywhere in it.
  pub parse_json_iff :
      (decode : Text → Option Text) (loads : Text → Loads F) (content : Text) (j : Json F)
      → (parse_json decode loads content ≡ ok j)
        ↔ ((text : Text) × (decode content ≡ some text) × (loads text ≡ value j) × (nesting j ≤ 64))
  unfolding parse_json
  parse_json_iff decode loads content j = elim (Option-cases (decode content)) [
    | inl bad ↦ (λ h. absurd (ground arith), λ (text, found, _, _). cc)
    | inr (text, found) ↦
        let opened : parse_json decode loads content ≡ after_loads (loads text) =
          rw (found, parse_json) refl in
        let as_loaded = after_loads_iff (loads text) j in
        (
          λ h. let (same, small) = as_loaded.0 (sym opened ∙ h) in (text, found, same, small),
          λ (other, also, same, small).
              opened
              ∙ as_loaded.1 (ap loads (some-injective text other (sym found ∙ also)) ∙ same, small),
        )
  ]
