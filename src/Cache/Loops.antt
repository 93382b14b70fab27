-- ===== src/Cache/Loops.antt =====
-- The loops over the data of a snapshot or a push, as what they make of each id.
use mathlib.Core.Path.{fun_ext}
use tydomio.Base.{
  ◌≡◌, refl, ◌∙◌, sym, ap, false, Option, none, some, List, [], ◌∷◌, ◌++◌, Eq, ◌==◌, nat_eq,
  list_eq, pair_eq, option_eq, if◌then◌else◌, contains, ==→eq, arith, Option-cases, Bool-cases, inl,
  inr,
}
use tydomio.Base.Int.{ℤ, int_eq}
use tydomio.Base.Dict
use tydomio.Base.Dict.{Dict}
use tydomio.Base.Text.{Text}
use tydomio.Model.{Data, Endpoint, DevicesData, AreasData}
use tydomio.Cache.{same_usage}
use tydomio.Cache.Entities.{
  Key, Entity, blank, unreadable, merge, or_blank, take_endpoints, take_devices, take_areas,
  push_endpoints, push_devices, push_areas, mark_invalid,
}
use tydomio.Cache.Merge.{merge_lem, keeps-kept}
use tydomio.Cache.Abstract.{
  updated, nothing, bad, or_nothing, of_device, of_devices, of_areas, data_of, last_item, pushed,
  if_named, kept, reading, read,
}

if_named-member :
    {K : Type 0} ⦃e : Eq K⦄ {A : Type 0} (k : K) (usages : Dict K Text) (a b : A)
    → (if Dict.member k usages then a else b) ≡ if_named (Dict.lookup k usages) a b
unfolding Dict.member Dict.lookup
if_named-member k [] a b = refl
if_named-member k ((j, u) ∷ usages) a b = ground (arith, if_named-member k usages a b)

module _ {V : Type 0} where
  reading-merge :
      (entity : Entity V) (item : Endpoint V)
      → reading (merge entity item) ≡ updated (reading entity) item
  unfolding merge
  reading-merge entity item =
      ap
        (λ (field : Text → Option (Data V)). record {
          field = field;
          error = item.error;
          invalid = false;
        })
        (fun_ext (λ name. (merge_lem entity item name).0))

  reading-blank : reading (blank {V = V}) ≡ nothing
  unfolding Dict.lookup
  reading-blank = refl

  reading-or_blank : (o : Option (Entity V)) → reading (or_blank o) ≡ or_nothing (read o)
  unfolding Dict.lookup
  reading-or_blank none = refl
  reading-or_blank (some entity) = refl

  read-kept :
      (now before : Option Text) (o : Option (Entity V))
      → read (kept now before o) ≡ kept now before (read o)
  read-kept none before o = refl
  read-kept (some u) none o = refl
  read-kept (some u) (some w) o = ground arith

  module _ {K : Type 0} ⦃e : Eq K⦄ where
    -- The loops over a push and over a snapshot, item by item.
    unfoldable pub push_all :
        Dict K Text → List (K × Endpoint V) → Dict K (Entity V) → Dict K (Entity V)
    push_all usages [] d = d
    push_all usages ((k, item) ∷ items) d = push_all usages items (
        if Dict.member k usages
        then Dict.insert k (merge (or_blank (Dict.lookup k d)) item) d
        else d)

    unfoldable pub take_all :
        Dict K Text → List (K × Endpoint V) → Dict K (Entity V) → Dict K (Entity V)
    take_all usages [] d = d
    take_all usages ((k, item) ∷ items) d =
        take_all usages items
          (if Dict.member k usages then Dict.insert k (merge blank item) d else d)

    read-insert :
        (k j : K) (usages : Dict K Text) (entity : Entity V) (d : Dict K (Entity V))
        → read (Dict.lookup k (if Dict.member j usages then Dict.insert j entity d else d)) ≡ (
            if k == j
            then if_named (Dict.lookup k usages) (some (reading entity)) (read (Dict.lookup k d))
            else read (Dict.lookup k d))
    read-insert k j usages entity d = elim (Bool-cases (k == j)) [
      | inl same ↦ ground (
        arith,
        ==→eq k j same,
        Dict.lookup-insert k j entity d,
        if_named-member k usages (some (reading entity)) (read (Dict.lookup k d)),
      )
      | inr other ↦ ground (arith, Dict.lookup-insert k j entity d)
    ]

    pub lookup-push_all :
        (k : K) (usages : Dict K Text) (items : List (K × Endpoint V)) (d : Dict K (Entity V))
        → read (Dict.lookup k (push_all usages items d))
          ≡ pushed (λ j. Dict.lookup j usages) items (λ j. read (Dict.lookup j d)) k
    unfolding push_all
    lookup-push_all k usages [] d = ground arith
    lookup-push_all k usages ((j, item) ∷ items) d =
        lookup-push_all k usages items _
        ∙ rw (read-insert k j usages (merge (or_blank (Dict.lookup j d)) item) d)
            (elim (Bool-cases (k == j)) [
              | inl same ↦ ground (
                arith,
                ==→eq k j same,
                reading-merge (or_blank (Dict.lookup j d)) item,
                reading-or_blank (Dict.lookup j d),
                Option-cases (Dict.lookup k usages),
              )
              | inr other ↦ ground arith
            ])

    pub lookup-take_all :
        (k : K) (usages : Dict K Text) (items : List (K × Endpoint V)) (d : Dict K (Entity V))
        → read (Dict.lookup k (take_all usages items d))
          ≡ if_named
              (Dict.lookup k usages)
              (last_item (read (Dict.lookup k d)) (data_of k items))
              (read (Dict.lookup k d))
    unfolding take_all
    lookup-take_all k usages [] d = ground arith
    lookup-take_all k usages ((j, item) ∷ items) d =
        lookup-take_all k usages items _
        ∙ rw (read-insert k j usages (merge blank item) d) (elim (Bool-cases (k == j)) [
          | inl same ↦ ground (
            arith,
            ==→eq k j same,
            reading-merge blank item,
            reading-blank,
            Option-cases (Dict.lookup k usages),
          )
          | inr other ↦ ground arith
        ])

    pub lookup-mark_invalid :
        (k : K) (usages : Dict K Text) (keys : List K) (d : Dict K (Entity V))
        → read (Dict.lookup k (mark_invalid (λ j. Dict.member j usages) keys d))
          ≡ if_named
              (Dict.lookup k usages)
              (if contains keys k then some bad else read (Dict.lookup k d))
              (read (Dict.lookup k d))
    unfolding mark_invalid Dict.lookup
    lookup-mark_invalid k usages [] d = ground arith
    lookup-mark_invalid k usages (j ∷ keys) d =
        lookup-mark_invalid k usages keys _
        ∙ rw (read-insert k j usages unreadable d)
            (ground (arith, Option-cases (Dict.lookup k usages)))

    pub read-keep :
        (k : K) (now before : Dict K Text) (d : Dict K (Entity V))
        → read (
            Dict.lookup k (
              Dict.keep
                (same_usage
                  (λ j. Dict.lookup j now)
                  (λ j. Dict.lookup j before)
                  (λ j. Dict.member j now))
                d))
          ≡ kept (Dict.lookup k now) (Dict.lookup k before) (read (Dict.lookup k d))
    read-keep k now before d =
        ap read (
          Dict.lookup-keep _ k d
          ∙ keeps-kept (Dict.lookup k now) (Dict.lookup k before) (Dict.member k now)
              (Dict.lookup k d) (Dict.member-lookup k now))
        ∙ read-kept (Dict.lookup k now) (Dict.lookup k before) (Dict.lookup k d)

    push_all-append :
        (usages : Dict K Text) (xs ys : List (K × Endpoint V)) (d : Dict K (Entity V))
        → push_all usages (xs ++ ys) d ≡ push_all usages ys (push_all usages xs d)
    unfolding push_all
    push_all-append usages [] ys d = refl
    push_all-append usages (x ∷ xs) ys d = push_all-append usages xs ys _

    take_all-append :
        (usages : Dict K Text) (xs ys : List (K × Endpoint V)) (d : Dict K (Entity V))
        → take_all usages (xs ++ ys) d ≡ take_all usages ys (take_all usages xs d)
    unfolding take_all
    take_all-append usages [] ys d = refl
    take_all-append usages (x ∷ xs) ys d = take_all-append usages xs ys _

  push_endpoints-push_all :
      (usages : Dict Key Text) (device : ℤ) (es : List (Endpoint V)) (d : Dict Key (Entity V))
      → push_endpoints usages device es d ≡ push_all usages (of_device device es) d
  unfolding push_all push_endpoints
  push_endpoints-push_all usages device [] d = refl
  push_endpoints-push_all usages device (e ∷ es) d = push_endpoints-push_all usages device es _

  pub push_devices-push_all :
      (usages : Dict Key Text) (items : DevicesData V) (d : Dict Key (Entity V))
      → push_devices usages items d ≡ push_all usages (of_devices items) d
  unfolding push_all push_devices
  push_devices-push_all usages [] d = refl
  push_devices-push_all usages (item ∷ items) d =
      ap (push_devices usages items) (push_endpoints-push_all usages item.id item.endpoints d)
      ∙ push_devices-push_all usages items _
      ∙ sym (push_all-append usages (of_device item.id item.endpoints) (of_devices items) d)

  pub push_areas-push_all :
      (usages : Dict ℤ Text) (items : AreasData V) (d : Dict ℤ (Entity V))
      → push_areas usages items d ≡ push_all usages (of_areas items) d
  unfolding push_all push_areas
  push_areas-push_all usages [] d = refl
  push_areas-push_all usages (item ∷ items) d = push_areas-push_all usages items _

  take_endpoints-take_all :
      (usages : Dict Key Text) (device : ℤ) (es : List (Endpoint V)) (d : Dict Key (Entity V))
      → take_endpoints usages device es d ≡ take_all usages (of_device device es) d
  unfolding take_all take_endpoints
  take_endpoints-take_all usages device [] d = refl
  take_endpoints-take_all usages device (e ∷ es) d = take_endpoints-take_all usages device es _

  pub take_devices-take_all :
      (usages : Dict Key Text) (items : DevicesData V) (d : Dict Key (Entity V))
      → take_devices usages items d ≡ take_all usages (of_devices items) d
  unfolding take_all take_devices
  take_devices-take_all usages [] d = refl
  take_devices-take_all usages (item ∷ items) d =
      ap (take_devices usages items) (take_endpoints-take_all usages item.id item.endpoints d)
      ∙ take_devices-take_all usages items _
      ∙ sym (take_all-append usages (of_device item.id item.endpoints) (of_devices items) d)

  pub take_areas-take_all :
      (usages : Dict ℤ Text) (items : AreasData V) (d : Dict ℤ (Entity V))
      → take_areas usages items d ≡ take_all usages (of_areas items) d
  unfolding take_all take_areas
  take_areas-take_all usages [] d = refl
  take_areas-take_all usages (item ∷ items) d = take_areas-take_all usages items _
