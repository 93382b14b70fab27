-- ===== src/Capture/Anonymize/Stable.antt =====
-- A step of the anonymization that can be done again: the tables only grow, no token is given twice,
-- and from any later tables the step gives the same and changes nothing.
pub mod Leaves
use tydomio.Base.{
  ℕ, suc, ◌≡◌, refl, ◌∙◌, sym, ap, Bool, true, false, ◌&&◌, ◌||◌, not, Option, none, some, List, [],
  ◌∷◌, ◌++◌, ◌==◌, Eq, nat_eq, list_eq, ==→eq, ==_self, contains, contains-++, length,
  if◌then◌else◌, arith, Result, ok, err, ◌>>=◌, >>=-eq_ok, Bool-cases, Option-cases, inl, inr,
}
use mathlib.Core.Path.{subst}
use tydomio.Base.Int.{pos}
use tydomio.Base.Dict
use tydomio.Base.Dict.{Dict}
use tydomio.Base.Text.{Text, codes}
use tydomio.Base.Text.Number.{show_nat, show_int}
use tydomio.Error.{Error}
use tydomio.Capture.Json.{Json, null, boolean, integer, float, string, array, object}
use tydomio.Capture.Policy.Rules.{Action, Rule}
use tydomio.Capture.Anonymize.{key_token, out_key, renamed_key, is_declared, is_identifier}
use tydomio.Capture.Anonymize.Positions.{Position, first_complete, generic_path}
use tydomio.Capture.Anonymize.Metadata.{Runtime, Descriptors}
use tydomio.Capture.Anonymize.Numbering.{
  Grows, IsNumbered, given, given-Grows, lookup-given, given_again, given-IsNumbered,
  key_token-injective,
}
use tydomio.Capture.Anonymize.Maps.{
  UnknownLeaf, RenamedKey, unknown_eq, renamed_eq, Tables, add_once, numbered, names_of, kind_of,
  name_token, keep_constraint, no_rule, json_type_name,
}
use tydomio.Capture.Anonymize.Leaf.{
  is_kept, placeholder, unknown_leaf, id_leaf, name_leaf, value_leaf, ruled_leaf, leaf_by, leaf,
}

-- What one report has is in the other.
abbrev pub Holds {ℓ} : {A : Type ℓ} → ⦃e : Eq A⦄ → List A → List A → Type ℓ
Holds {A} xs ys = (a : A) → contains xs a ≡ true → contains ys a ≡ true

pub record Extends (s t : Tables) : Type 0 where
  pub ids : Grows s.ids t.ids
  pub keys : Grows s.keys t.keys
  pub names : (kind : Text) → Grows (names_of kind s.names) (names_of kind t.names)
  pub unknown : Holds s.unknown t.unknown
  pub renamed : Holds s.renamed t.renamed

-- No two ids, no two names of a kind and no two renamed keys have the same token.
pub record IsPseudonymous (t : Tables) : Type 0 where
  pub ids : IsNumbered (λ n. n) t.ids
  pub keys : IsNumbered key_token t.keys
  pub names : (kind : Text) → IsNumbered (λ n. n) (names_of kind t.names)

pub Extends-refl : (t : Tables) → Extends t t
Extends-refl t = record {
  ids = λ k a h. h;
  keys = λ k a h. h;
  names = λ kind k a h. h;
  unknown = λ a h. h;
  renamed = λ a h. h;
}

pub Extends-trans : {s t u : Tables} → Extends s t → Extends t u → Extends s u
Extends-trans a b = record {
  ids = λ k n h. b.ids k n (a.ids k n h);
  keys = λ k n h. b.keys k n (a.keys k n h);
  names = λ kind k n h. b.names kind k n (a.names kind k n h);
  unknown = λ x h. b.unknown x (a.unknown x h);
  renamed = λ x h. b.renamed x (a.renamed x h);
}

-- What holds after a step that took the tables `s` to `t` with the result `a`.
pub record Repeats {A : Type 0} (f : Tables → Result Error (A × Tables)) (s t : Tables) (a : A)
    : Type 0 where
  pub grows : Extends s t
  pub apart : IsPseudonymous s → IsPseudonymous t
  pub again : (u : Tables) → Extends t u → f u ≡ ok (a, u)

pub record IsStable {A : Type 0} (f : Tables → Result Error (A × Tables)) : Type 0 where
  pub repeats : (s t : Tables) (a : A) → f s ≡ ok (a, t) → Repeats f s t a

-- A step that cannot fail.
pub IsStable-pure :
    {A : Type 0} (f : Tables → A × Tables)
    → ((s : Tables) → Repeats (λ t. ok (f t)) s (f s).1 (f s).0)
    → IsStable (λ t. ok (f t))
IsStable-pure f h = record {
  repeats = λ s t a e.
      let same : f s ≡ (a, t) = cc in subst (λ r. Repeats (λ t. ok (f t)) s r.1 r.0) same (h s);
}

-- A step that leaves the tables.
pub IsStable-same : {A : Type 0} (a : A) → IsStable (λ t. ok (a, t))
IsStable-same a =
    IsStable-pure (λ t. (a, t))
      (λ s. record { grows = Extends-refl s; apart = λ v. v; again = λ u e. refl })

pub IsStable-err : {A : Type 0} (e : Error) → IsStable {A = A} (λ t. err e)
IsStable-err e = record { repeats = λ s t a h. cc }

-- A step that only computes.
pub IsStable-const : {A : Type 0} (r : Result Error A) → IsStable (λ t. r >>= λ a. ok (a, t))
IsStable-const (ok a) = IsStable-same a
IsStable-const (err e) = IsStable-err e

-- One step, then the next.
pub IsStable-bind :
    {A B : Type 0} (f : Tables → Result Error (A × Tables))
    (g : A → Tables → Result Error (B × Tables))
    → IsStable f
    → ((a : A) → IsStable (g a))
    → IsStable (λ t. f t >>= λ x. g x.0 x.1)
IsStable-bind f g sf sg = record {
  repeats = λ s w b h.
      let ((a, t), first, second) = >>=-eq_ok (f s) _ h in
      let one = sf.repeats s t a first in
      let two = (sg a).repeats t w b second in
      record {
        grows = Extends-trans one.grows two.grows;
        apart = λ v. two.apart (one.apart v);
        again = λ u e. rw (one.again u (Extends-trans two.grows e)) (two.again u e);
      };
}
