-- ===== src/Response/Tests.antt =====
-- A response with one entity that cannot be read.
use tydomio.Base.{
  ℕ, ◌≡◌, refl, Option, none, some, List, [], ◌∷◌, ◌==◌, nat_eq, pair_eq, if◌then◌else◌, contains,
  any,
}
use tydomio.Base.Int.{ℤ, pos, int_eq}
use tydomio.Model.{Endpoint}
use tydomio.Response.{Entity, Device, split_devices}
use tydomio.Response.Invalid.{has_unreadable, contains-split_devices}

-- An entity is read unless its rest is zero.
abbrev reads : Entity ℕ → Option (Endpoint ℕ)
reads raw =
    if raw.rest == 0 then none else some (record { id = raw.id; error = pos 0; fields = [] })

abbrev raws : List (Entity ℕ)
raws = record { id = pos 1; rest = 0 } ∷ record { id = pos 2; rest = 5 } ∷ []

abbrev devices : List (Device ℕ)
devices = record { id = pos 9; endpoints = raws } ∷ []

one_invalid : (split_devices reads devices).1 ≡ (pos 9, pos 1) ∷ []
unfolding split_devices nat_eq
one_invalid = refl

contains-split_devices_example :
    contains {A = ℤ × ℤ} (split_devices reads devices).1 (pos 9, pos 1)
    ≡ any (has_unreadable reads (pos 9) (pos 1)) devices
contains-split_devices_example = contains-split_devices reads (pos 9) (pos 1) devices
