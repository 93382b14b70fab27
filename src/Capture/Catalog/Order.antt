-- ===== src/Capture/Catalog/Order.antt =====
-- `sorted` of Python over texts: sets and dicts in the order of their keys.
use tydomio.Base.{
  ◌≡◌, refl, ◌∙◌, ap, Bool, true, false, ◌||◌, Option, none, some, List, [], ◌∷◌, ◌==◌, nat_eq,
  list_eq, ==→eq, contains, if◌then◌else◌, ltb, arith, Bool-cases, Option-cases, inl, inr,
}
use tydomio.Base.Dict
use tydomio.Base.Dict.{Dict}
use tydomio.Base.Text.{Text}

-- `a < b` of two texts.
unfoldable pub before : Text → Text → Bool
before s [] = false
before [] (d ∷ t) = true
before (c ∷ s) (d ∷ t) = let rest = before s t in if c == d then rest else ltb c d

-- `sorted(set(texts))`, by insertion.
unfoldable pub put : Text → List Text → List Text
unfolding before
put s [] = s ∷ []
put s (t ∷ ts) =
    let rest = put s ts in if s == t then t ∷ ts else (if before s t then s ∷ t ∷ ts else t ∷ rest)

unfoldable pub sorted_set : List Text → List Text
unfolding put
sorted_set [] = []
sorted_set (s ∷ ss) = put s (sorted_set ss)

module _ {A : Type 0} where
  -- The entries of a dict for some keys.
  abbrev pub with_entry : Text → Option A → Dict Text A → Dict Text A
  with_entry k none d = d
  with_entry k (some a) d = (k, a) ∷ d

  unfoldable pub entries : List Text → Dict Text A → Dict Text A
  unfolding Dict.lookup
  entries [] d = []
  entries (k ∷ ks) d = with_entry k (Dict.lookup k d) (entries ks d)

  -- `{key: d[key] for key in sorted(d)}`
  unfoldable pub sorted_dict : Dict Text A → Dict Text A
  unfolding entries sorted_set Dict.keys
  sorted_dict d = entries (sorted_set (Dict.keys d)) d

  -- `tuple(d[key] for key in sorted(d))`
  unfoldable pub sorted_values : Dict Text A → List A
  unfolding sorted_dict Dict.values
  sorted_values d = Dict.values (sorted_dict d)

contains-put : (s t : Text) (ts : List Text) → contains (put s ts) t ≡ (t == s || contains ts t)
unfolding put
contains-put s t [] = refl
contains-put s t (u ∷ us) = elim (Bool-cases (s == u)) [
  | inl same ↦ ground (arith, ==→eq s u same)
  | inr other ↦ ground (arith, contains-put s t us)
]

pub contains-sorted_set : (ts : List Text) (t : Text) → contains (sorted_set ts) t ≡ contains ts t
unfolding sorted_set
contains-sorted_set [] t = refl
contains-sorted_set (s ∷ ss) t =
    contains-put s t (sorted_set ss) ∙ ap (λ b. t == s || b) (contains-sorted_set ss t)

module _ {A : Type 0} where
  pub lookup-entries :
      (ks : List Text) (d : Dict Text A) (k : Text)
      → Dict.lookup k (entries ks d) ≡ (if contains ks k then Dict.lookup k d else none)
  unfolding entries Dict.lookup
  lookup-entries [] d k = refl
  lookup-entries (j ∷ ks) d k = elim (Option-cases (Dict.lookup j d)) [
    | inl missing ↦ rw missing (ground (arith, lookup-entries ks d k, ==→eq k j))
    | inr (a, found) ↦ rw found (ground (arith, lookup-entries ks d k, ==→eq k j))
  ]

  contains-keys : (d : Dict Text A) (k : Text) → contains (Dict.keys d) k ≡ Dict.member k d
  unfolding Dict.keys Dict.member
  contains-keys [] k = refl
  contains-keys ((j, a) ∷ d) k = ground (arith, contains-keys d k)

  member_only :
      (d : Dict Text A) (k : Text)
      → (if Dict.member k d then Dict.lookup k d else none) ≡ Dict.lookup k d
  unfolding Dict.member Dict.lookup
  member_only [] k = refl
  member_only ((j, a) ∷ d) k = ground (arith, member_only d k)

  -- Sorting a dict changes its order only.
  pub lookup-sorted_dict :
      (d : Dict Text A) (k : Text) → Dict.lookup k (sorted_dict d) ≡ Dict.lookup k d
  unfolding sorted_dict
  lookup-sorted_dict d k =
      lookup-entries (sorted_set (Dict.keys d)) d k
      ∙ rw (contains-sorted_set (Dict.keys d) k) (rw (contains-keys d k) (member_only d k))
