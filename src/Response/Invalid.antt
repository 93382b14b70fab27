-- ===== src/Response/Invalid.antt =====
-- Which entities a data response reports as invalid.
use tydomio.Base.{
  ◌≡◌, refl, ◌∙◌, Bool, ◌&&◌, ◌||◌, Option, List, [], ◌∷◌, ◌++◌, ◌==◌, nat_eq, pair_eq, contains,
  any, arith, Option-cases, inl, inr,
}
use tydomio.Base.Int.{ℤ, int_eq}
use tydomio.Model.{Endpoint}
use tydomio.Response.{Entity, Device, is_none, split_endpoints, split_devices, split_areas}

contains-append :
    (xs ys : List (ℤ × ℤ)) (x : ℤ × ℤ) → contains (xs ++ ys) x ≡ (contains xs x || contains ys x)
contains-append [] ys x = refl
contains-append (y ∷ xs) ys x = ground (arith, contains-append xs ys x)

module _ {P V : Type 0} (validate : Entity P → Option (Endpoint V)) where
  -- An entity with this id that cannot be read.
  abbrev pub is_unreadable : ℤ → Entity P → Bool
  is_unreadable id raw = raw.id == id && is_none (validate raw)

  -- A device with this id that has such an entity.
  abbrev pub has_unreadable : ℤ → ℤ → Device P → Bool
  has_unreadable device id d = d.id == device && any (is_unreadable id) d.endpoints

  contains-split_endpoints :
      (own device id : ℤ) (raws : List (Entity P))
      → contains (split_endpoints validate own raws).1 (device, id)
        ≡ (own == device && any (is_unreadable id) raws)
  unfolding split_endpoints
  contains-split_endpoints own device id [] = ground arith
  contains-split_endpoints own device id (raw ∷ more) = elim (Option-cases (validate raw)) [
    | inl bad ↦ ground (arith, contains-split_endpoints own device id more)
    | inr (e, good) ↦ ground (arith, contains-split_endpoints own device id more)
  ]

  -- The ids that a response with the data of devices reports as invalid are exactly those of the
  -- endpoints, in any of its devices, that could not be validated.
  pub contains-split_devices :
      (device id : ℤ) (ds : List (Device P))
      → contains (split_devices validate ds).1 (device, id) ≡ any (has_unreadable device id) ds
  unfolding split_devices
  contains-split_devices device id [] = refl
  contains-split_devices device id (d ∷ ds) =
      contains-append (split_endpoints validate d.id d.endpoints).1 (split_devices validate ds).1
        (device, id)
      ∙ ground (
        arith,
        contains-split_endpoints d.id device id d.endpoints,
        contains-split_devices device id ds,
      )

  -- The ids that a response with the data of areas reports as invalid are exactly those of the areas
  -- that could not be validated.
  pub contains-split_areas :
      (id : ℤ) (raws : List (Entity P))
      → contains (split_areas validate raws).1 id ≡ any (is_unreadable id) raws
  unfolding split_areas
  contains-split_areas id [] = refl
  contains-split_areas id (raw ∷ more) = elim (Option-cases (validate raw)) [
    | inl bad ↦ ground (arith, contains-split_areas id more)
    | inr (e, good) ↦ ground (arith, contains-split_areas id more)
  ]
