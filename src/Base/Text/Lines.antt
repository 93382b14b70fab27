-- ===== src/Base/Text/Lines.antt =====
-- Lines ended by a carriage return and a line feed, in `partition`.
use mathlib.Core.Path.{◌≡◌, refl}
use mathlib.Core.Bool.{true, false}
use mathlib.Core.Option
use mathlib.Core.Option.{Option, none, some}
use mathlib.Core.List.{[], ◌∷◌, ◌++◌}
use native.Mathlib.Omega.{arith}
use Prim.Native.Nat.{ℕ}
use tydomio.Base.Equality.{nat_eq, Bool-cases}
use tydomio.Base.Lists.{drop}
use mathlib.Core.Logic.{inl, inr}
use tydomio.Base.Text.{Text, crlf, partition, starts_with}

-- A text in which no line ends.
abbrev pub IsLine : Text → Type 0
IsLine s = partition s crlf ≡ none

IsLine-tail : (c : ℕ) (s : Text) → IsLine (c ∷ s) → IsLine s
unfolding partition
IsLine-tail c s h = ground arith

IsLine-head : (c : ℕ) (s : Text) → IsLine (c ∷ s) → starts_with (c ∷ s) crlf ≡ false
unfolding partition
IsLine-head c s h = ground arith

starts_with-line :
    (c : ℕ) (s rest : Text)
    → starts_with (c ∷ s) crlf ≡ false
    → starts_with (c ∷ (s ++ (crlf ++ rest))) crlf ≡ false
unfolding starts_with
starts_with-line c [] rest h = ground arith
starts_with-line c (d ∷ s) rest h = h

-- The line in front of the first end of line is found whole.
pub partition-line :
    (s rest : Text) → IsLine s → partition (s ++ (crlf ++ rest)) crlf ≡ some (s, rest)
unfolding partition nat_eq
partition-line [] rest h = refl
partition-line (c ∷ s) rest h =
    rw (starts_with-line c s rest (IsLine-head c s h), partition-line s rest (IsLine-tail c s h))

starts_with-eq : (s : Text) → starts_with s crlf ≡ true → s ≡ crlf ++ drop 2 s
unfolding starts_with
starts_with-eq [] h = cc
starts_with-eq (c ∷ []) h = ground arith
starts_with-eq (c ∷ d ∷ s) h = ground arith

starts_with-part :
    (c : ℕ) (s rest : Text)
    → starts_with (c ∷ (s ++ (crlf ++ rest))) crlf ≡ false
    → starts_with (c ∷ s) crlf ≡ false
unfolding starts_with
starts_with-part c [] rest h = ground arith
starts_with-part c (d ∷ s) rest h = h

IsLine-cons : (c : ℕ) (s : Text) → starts_with (c ∷ s) crlf ≡ false → IsLine s → IsLine (c ∷ s)
unfolding partition
IsLine-cons c s h l = rw h (rw l)

map-eq_some :
    (c : ℕ) (o : Option (Text × Text)) (a b : Text)
    → Option.map {B = Text × Text} (λ p. (c ∷ p.0, p.1)) o ≡ some (a, b)
    → (x : Text) × (o ≡ some (x, b)) × (a ≡ c ∷ x)
map-eq_some c none a b h = cc
map-eq_some c (some (x, y)) a b h = (x, ground arith, ground arith)

-- What `partition` returns is a line and what stands behind its end.
pub partition-eq_some :
    (s a b : Text) → partition s crlf ≡ some (a, b) → (s ≡ a ++ (crlf ++ b)) × IsLine a
unfolding partition
partition-eq_some [] a b h = cc
partition-eq_some (c ∷ s) a b h = elim (Bool-cases (starts_with (c ∷ s) crlf)) [
  | inl here ↦ ground (arith, starts_with-eq (c ∷ s))
  | inr later ↦
      let (x, found, same) = map-eq_some c (partition s crlf) a b (rw later at h) in
      let (parts, line) = partition-eq_some s x b found in
      (ground arith, rw same (IsLine-cons c x (starts_with-part c x b (rw (← parts) later)) line))
]
