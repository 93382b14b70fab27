-- ===== src/Base/Dict.antt =====
-- Python dicts, in insertion order. Proofs elsewhere go by the laws.
use mathlib.Core.Path.{◌≡◌, refl}
use mathlib.Core.Logic.{◌≢◌, ◌↔◌}
use mathlib.Core.Bool.{Bool, true, false}
use mathlib.Core.Option.{Option, none, some}
use mathlib.Core.List.{List, [], ◌∷◌, map}
use native.Mathlib.Omega.{arith}
use Prim.Native.Nat.{suc}
use tydomio.Base.Lists.{length}
use tydomio.Base.Equality.{Eq, ◌==◌, if◌then◌else◌}

abbrev pub Dict {ℓ κ} : Type ℓ → Type κ → Type (ℓ ⊔ κ)
Dict K V = List (K × V)

unfoldable pub keys {ℓ κ} : {K : Type ℓ} {V : Type κ} → Dict K V → List K
keys d = map (λ e. e.0) d

unfoldable pub values {ℓ κ} : {K : Type ℓ} {V : Type κ} → Dict K V → List V
values d = map (λ e. e.1) d

abbrev pub or_else {ℓ} : {V : Type ℓ} → Option V → Option V → Option V
or_else none o = o
or_else (some v) o = some v

module _ {ℓ κ} {K : Type ℓ} {V : Type κ} ⦃e : Eq K⦄ where
  -- `d.get(k)`
  unfoldable pub lookup : K → Dict K V → Option V
  lookup j [] = none
  lookup j ((k, v) ∷ d) = if j == k then some v else lookup j d

  -- `k in d`
  unfoldable pub member : K → Dict K V → Bool
  member j [] = false
  member j ((k, v) ∷ d) = if j == k then true else member j d

  -- `d[k] = v`: a new key goes last, a known one keeps its place
  unfoldable pub insert : K → V → Dict K V → Dict K V
  insert k v [] = (k, v) ∷ []
  insert k v ((j, w) ∷ d) = if k == j then (j, v) ∷ d else (j, w) ∷ insert k v d

  -- `d.pop(k, None)`: every entry of the key goes, where a real dict has at most one
  unfoldable pub erase : K → Dict K V → Dict K V
  erase k [] = []
  erase k ((j, w) ∷ d) = let rest = erase k d in if k == j then rest else (j, w) ∷ rest

  -- `dict(pairs)` and dict comprehensions: a later pair replaces an earlier one
  unfoldable pub insert_all : List (K × V) → Dict K V → Dict K V
  insert_all [] d = d
  insert_all ((k, v) ∷ l) d = insert_all l (insert k v d)

  -- `{k: v for k, v in d.items() if p(k)}` over a dict
  unfoldable pub keep : (K → Bool) → Dict K V → Dict K V
  keep p [] = []
  keep p ((k, v) ∷ d) = let rest = keep p d in if p k then (k, v) ∷ rest else rest

  -- `d.setdefault(k, v)`: the value that `d[k]` has then, and the dict
  unfoldable pub set_default : K → V → Dict K V → V × Dict K V
  unfolding lookup insert
  set_default k v d = elim (lookup k d) [ none ↦ (v, insert k v d) | some w ↦ (w, d) ]

  abbrev pub NodupKeys : Dict K V → Type κ
  NodupKeys [] = Unit
  NodupKeys ((k, _) ∷ d) = (lookup k d ≡ none) × NodupKeys d

  pub lookup-nil : (k : K) → lookup k [] ≡ none
  unfolding lookup
  lookup-nil k = refl

  pub lookup-cons :
      (j k : K) (v : V) (d : Dict K V)
      → lookup j ((k, v) ∷ d) ≡ (if j == k then some v else lookup j d)
  unfolding lookup
  lookup-cons j k v d = refl

  pub member-lookup : (j : K) (d : Dict K V) → (member j d ≡ true) ↔ (lookup j d ≢ none)
  unfolding member lookup
  member-lookup j [] = (λ h. cc, λ h. absurd (h refl))
  member-lookup j ((k, v) ∷ d) = ground (arith, member-lookup j d)

  pub lookup-insert :
      (j k : K) (v : V) (d : Dict K V)
      → lookup j (insert k v d) ≡ (if j == k then some v else lookup j d)
  unfolding insert lookup
  lookup-insert j k v [] = refl
  lookup-insert j k v (_ ∷ d) = ground (arith, lookup-insert j k v d)

  pub insert_known : (k : K) (v : V) (d : Dict K V) → lookup k d ≡ some v → insert k v d ≡ d
  unfolding insert lookup
  insert_known k v [] h = cc
  insert_known k v ((j, w) ∷ d) h = ground (arith, insert_known k v d)

  pub length-insert_new :
      (k : K) (v : V) (d : Dict K V) → lookup k d ≡ none → length (insert k v d) ≡ suc (length d)
  unfolding insert lookup
  length-insert_new k v [] h = refl
  length-insert_new k v ((j, w) ∷ d) h = ground (arith, length-insert_new k v d)

  pub set_default_known :
      (k : K) (v w : V) (d : Dict K V) → lookup k d ≡ some w → set_default k v d ≡ (w, d)
  unfolding set_default
  set_default_known k v w d h = rw (h, set_default) refl

  pub set_default_new :
      (k : K) (v : V) (d : Dict K V) → lookup k d ≡ none → set_default k v d ≡ (v, insert k v d)
  unfolding set_default
  set_default_new k v d h = rw (h, set_default) refl

  pub lookup-erase :
      (j k : K) (d : Dict K V) → lookup j (erase k d) ≡ (if j == k then none else lookup j d)
  unfolding erase lookup
  lookup-erase j k [] = ground arith
  lookup-erase j k (_ ∷ d) = ground (arith, lookup-erase j k d)

  pub lookup-keep :
      (p : K → Bool) (j : K) (d : Dict K V)
      → lookup j (keep p d) ≡ (if p j then lookup j d else none)
  unfolding keep lookup
  lookup-keep p j [] = ground arith
  lookup-keep p j ((k, v) ∷ d) = ground (arith, lookup-keep p j d)

  pub insert-NodupKeys : (k : K) (v : V) (d : Dict K V) → NodupKeys d → NodupKeys (insert k v d)
  unfolding insert
  insert-NodupKeys k v [] _ = (lookup-nil k, tt)
  insert-NodupKeys k v ((j, _) ∷ d) (fresh, u) =
      ground (arith, insert-NodupKeys k v d u, lookup-insert j k v d)

  pub erase-NodupKeys : (k : K) (d : Dict K V) → NodupKeys d → NodupKeys (erase k d)
  unfolding erase
  erase-NodupKeys k [] _ = tt
  erase-NodupKeys k ((j, _) ∷ d) (fresh, u) =
      ground (arith, erase-NodupKeys k d u, lookup-erase j k d)

  -- The last value that a list of pairs gives a key.
  unfoldable pub last_of : K → List (K × V) → Option V
  last_of j [] = none
  last_of j ((k, v) ∷ l) = elim (last_of j l) [
    | some w ↦ some w
    | none ↦ if j == k then some v else none
  ]

  pub lookup-insert_all :
      (j : K) (l : List (K × V)) (d : Dict K V)
      → lookup j (insert_all l d) ≡ or_else (last_of j l) (lookup j d)
  unfolding insert_all last_of
  lookup-insert_all j [] d = refl
  lookup-insert_all j ((k, v) ∷ l) d =
      rw (lookup-insert_all j l (insert k v d)) (ground (arith, lookup-insert j k v d))

  pub insert_all-NodupKeys :
      (l : List (K × V)) (d : Dict K V) → NodupKeys d → NodupKeys (insert_all l d)
  unfolding insert_all
  insert_all-NodupKeys [] d u = u
  insert_all-NodupKeys ((k, v) ∷ l) d u =
      insert_all-NodupKeys l (insert k v d) (insert-NodupKeys k v d u)

pub ruleset dict_laws = (lookup-nil, lookup-insert, lookup-erase, lookup-keep)
