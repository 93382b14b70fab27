-- ===== src/View/Values.antt =====
-- Which values may be put out, and that the state of an item has such values only.
use tydomio.Base.{
  ◌≡◌, refl, Bool, true, ◌&&◌, ◌||◌, Option, none, some, List, [], ◌∷◌, ◌==◌, nat_eq, list_eq,
  pair_eq, all, length, leb, arith, Bool-cases, Option-cases, inl, inr,
}
use mathlib.Core.Path.{subst}
use mathlib.Core.Option.{some-injective}
use tydomio.Base.Int.{int_eq}
use tydomio.Base.Dict
use tydomio.Base.Dict.{Dict}
use tydomio.Base.Text.{Text, codes}
use tydomio.Model.{Data}
use tydomio.Usages.{UsageModel}
use tydomio.Usages.Fields.{FieldInfo, model_fields}
use tydomio.Usages.FromData.{Reading, Typed, is_alias}
use tydomio.View.Sanitize.{Secrets, redacted}
use tydomio.View.Clean.{is_clean, Substitutes, sanitize_lem}
use tydomio.View.Items.{
  Value, nothing, flag, number, text, Platform, clean, value, finite, noted, typed_values,
  unknown_values, typed_state,
}
use tydomio.View.{}

all-insert :
    {A : Type 0} (p : A → Bool) (k : Text) (v : A) (d : Dict Text A)
    → p v ≡ true
    → all (λ (e : Text × A). p e.1) d ≡ true
    → all (λ (e : Text × A). p e.1) (Dict.insert k v d) ≡ true
unfolding Dict.insert
all-insert p k v [] h g = ground arith
all-insert p k v ((j, w) ∷ d) h g = ground (arith, all-insert p k v d)

module _ {F : Type 0} (platform : Platform F) where
  -- A text that is short and clean, and a value that can be put out as JSON.
  abbrev pub is_safe_text : Text → Bool
  is_safe_text s = all (is_clean platform.runtime) s && leb (length s) 64

  abbrev pub is_safe : Value F → Bool
  is_safe (number x) = platform.is_finite x
  is_safe (text s) = is_safe_text s
  is_safe _ = true

  abbrev pub safe_state : Option (Dict Text (Value F)) → Bool
  safe_state none = true
  safe_state (some values) = all (λ (e : Text × Value F). is_safe e.1) values

  abbrev pub safe_notes : Option (Dict Text Text) → Bool
  safe_notes none = true
  safe_notes (some notes) = all (λ (e : Text × Text). is_safe_text e.1) notes

  -- Values and notes that may be put out.
  abbrev pub Safe : Dict Text (Value F) × Dict Text Text → Type 0
  Safe (values, notes) = (safe_state (some values) ≡ true) × (safe_notes (some notes) ≡ true)

  module _ (secrets : Secrets) (substitutes : Substitutes platform.runtime secrets)
      (mark : all (is_clean platform.runtime) redacted ≡ true) where
    pub safe-clean : (s : Text) → is_safe_text (clean platform secrets s) ≡ true
    safe-clean s =
        let (clean_chars, short) = sanitize_lem platform.runtime secrets s substitutes mark in
        ground arith

    safe-value :
        (v : Value F) → finite platform secrets v ≡ true → is_safe (value platform secrets v) ≡ true
    unfolding value finite
    safe-value nothing h = refl
    safe-value (flag b) h = refl
    safe-value (number x) h = h
    safe-value (text s) h = safe-clean s

    safe-noted :
        (name validity : Text) (notes : Dict Text Text)
        → safe_notes (some notes) ≡ true
        → safe_notes (some (noted platform secrets name validity notes)) ≡ true
    safe-noted name validity notes h = elim (Bool-cases (validity == codes "upToDate")) [
      | inl fresh ↦ rw fresh h
      | inr stale ↦ rw stale (all-insert is_safe_text name _ notes (safe-clean validity) h)
    ]

    Safe-typed_values :
        (readings : List (Text × Reading (Value F))) (values : Dict Text (Value F))
        (notes : Dict Text Text) (out : Dict Text (Value F) × Dict Text Text)
        → Safe (values, notes)
        → typed_values platform secrets readings values notes ≡ some out
        → Safe out
    unfolding typed_values
    Safe-typed_values [] values notes out h e = subst Safe (some-injective (values, notes) out e) h
    Safe-typed_values ((name, r) ∷ more) values notes out (v, n) e =
        elim (Bool-cases (finite platform secrets r.value)) [
          | inl good ↦
              Safe-typed_values more (Dict.insert name (value platform secrets r.value) values)
                (noted platform secrets name r.validity notes) out
                (
                  all-insert is_safe name _ values (safe-value r.value good) v,
                  safe-noted name r.validity notes n,
                )
                (ground arith)
          | inr bad ↦ absurd (ground arith)
        ]

    Safe-unknown_values :
        (fields : List FieldInfo) (unknown : List (Text × Data (Value F)))
        (values : Dict Text (Value F)) (notes : Dict Text Text)
        (out : Dict Text (Value F) × Dict Text Text)
        → Safe (values, notes)
        → unknown_values platform secrets fields unknown values notes ≡ some out
        → Safe out
    unfolding unknown_values
    Safe-unknown_values fields [] values notes out h e =
        subst Safe (some-injective (values, notes) out e) h
    Safe-unknown_values fields ((name, field) ∷ more) values notes out (v, n) e =
        let key = clean platform secrets name in
        elim (Bool-cases (is_alias fields key || Dict.member key values)) [
          | inl skipped ↦ Safe-unknown_values fields more values notes out (v, n) (ground arith)
          | inr taken ↦ elim (Bool-cases (finite platform secrets field.value)) [
            | inl good ↦
                Safe-unknown_values fields more
                  (Dict.insert key (value platform secrets field.value) values)
                  (noted platform secrets key field.validity notes) out
                  (
                    all-insert is_safe key _ values (safe-value field.value good) v,
                    safe-noted key field.validity notes n,
                  )
                  (ground arith)
            | inr bad ↦ absurd (ground arith)
          ]
        ]

    pub Safe-typed_state :
        (model : UsageModel) (typed : Typed (Value F) (Value F))
        (out : Dict Text (Value F) × Dict Text Text)
        → typed_state platform secrets model typed ≡ some out
        → Safe out
    unfolding typed_state
    Safe-typed_state model typed out h =
        elim (Option-cases (typed_values platform secrets typed.readings [] [])) [
          | inl missing ↦ absurd (ground arith)
          | inr ((values, notes), found) ↦
              Safe-unknown_values (model_fields model) typed.unknown values notes out
                (Safe-typed_values typed.readings [] [] (values, notes) (refl, refl) found)
                (ground arith)
        ]
