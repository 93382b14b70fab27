-- ===== src/Protocol/Sent.antt =====
-- The headers that the client adds to a clean request are clean, and there is at least one.
use tydomio.Base.{
  ◌≡◌, refl, false, Option, none, some, [], ◌∷◌, ◌==◌, nat_eq, list_eq, All, arith, Bool-cases,
  List-cases, inl, inr, ==→eq, length,
}
use tydomio.Base.Int.{ℤ}
use tydomio.Base.Dict
use tydomio.Base.Text.{Text, codes}
use tydomio.Base.Text.Parts.{Lacks}
use tydomio.Base.Text.Number.{show_nat}
use tydomio.Base.Text.Digits.{show_nat-Lacks, show_int-Lacks}
use tydomio.Response.{Headers}
use tydomio.Requests.{
  Request, or_empty, show_id, needs_length, needs_transac_id, sized_headers, make_headers,
}
use tydomio.Protocol.{}
use tydomio.Protocol.Received.{IsCleanHeader}

All-insert :
    (k v : Text) (d : Headers)
    → IsCleanHeader (k, v)
    → All IsCleanHeader d
    → All IsCleanHeader (Dict.insert k v d)
unfolding Dict.insert
All-insert k v [] c h = (c, tt)
All-insert k v ((j, w) ∷ d) c h = elim (Bool-cases (k == j)) [
  | inl same ↦ rw same ((rw (==→eq k j same) at c), h.1)
  | inr other ↦ rw other (h.0, All-insert k v d c h.1)
]

show_id-Lacks : (o : Option ℤ) → Lacks 13 (show_id o)
show_id-Lacks none = omega arith
show_id-Lacks (some n) = show_int-Lacks 13 n (omega arith)

sized_headers-clean :
    (r : Request) → All IsCleanHeader r.headers → All IsCleanHeader (sized_headers r)
unfolding sized_headers
sized_headers-clean r h = elim (Bool-cases (needs_length r)) [
  | inl adds ↦ rw adds (
      All-insert (codes "content-length") (show_nat (length (or_empty r.content))) r.headers
        (omega arith, omega arith, show_nat-Lacks 13 _ (omega arith)) h)
  | inr keeps ↦ rw keeps h
]

pub make_headers-clean :
    (r : Request) → All IsCleanHeader r.headers → All IsCleanHeader (make_headers r)
unfolding make_headers
make_headers-clean r h = elim (Bool-cases (needs_transac_id r)) [
  | inl adds ↦ rw adds (
      All-insert (codes "transac-id") (show_id r.transaction_id) (sized_headers r)
        (omega arith, omega arith, show_id-Lacks r.transaction_id) (sized_headers-clean r h))
  | inr keeps ↦ rw keeps (sized_headers-clean r h)
]

insert-cons :
    (k v : Text) (d : Headers) → (x : Text × Text) × (e : Headers) × (Dict.insert k v d ≡ x ∷ e)
unfolding Dict.insert
insert-cons k v [] = ((k, v), [], refl)
insert-cons k v ((j, w) ∷ d) = elim (Bool-cases (k == j)) [
  | inl same ↦ ((j, v), d, rw same)
  | inr other ↦ ((j, w), Dict.insert k v d, rw other)
]

gives-cons :
    (r : Request)
    → needs_transac_id r ≡ false
    → (x : Text × Text) × (e : Headers) × (r.headers ≡ x ∷ e)
unfolding needs_transac_id
gives-cons r h = elim (List-cases r.headers) [
  | inl nothing ↦ ground arith
  | inr some_headers ↦ some_headers
]

sized_headers-cons :
    (r : Request)
    → (x : Text × Text) × (e : Headers) × (r.headers ≡ x ∷ e)
    → (x : Text × Text) × (e : Headers) × (sized_headers r ≡ x ∷ e)
unfolding sized_headers
sized_headers-cons r (x, e, p) = elim (Bool-cases (needs_length r)) [
  | inl adds ↦
      rw adds
        (insert-cons (codes "content-length") (show_nat (length (or_empty r.content))) r.headers)
  | inr keeps ↦ rw keeps (x, e, p)
]

pub make_headers-cons : (r : Request) → (x : Text × Text) × (e : Headers) × (make_headers r ≡ x ∷ e)
unfolding make_headers
make_headers-cons r = elim (Bool-cases (needs_transac_id r)) [
  | inl adds ↦
      rw adds (insert-cons (codes "transac-id") (show_id r.transaction_id) (sized_headers r))
  | inr keeps ↦ rw keeps (sized_headers-cons r (gives-cons r keeps))
]
