-- ===== src/Base/Text/Parts.antt =====
-- `join`, `split` and `partition` undo one another on parts that lack the separator.
use mathlib.Core.Path.{◌≡◌, refl, ap, ◌∙◌}
use mathlib.Core.Logic.{◌≢◌}
use mathlib.Core.Bool.{true, false}
use mathlib.Core.Option
use mathlib.Core.Option.{Option, none, some}
use mathlib.Core.List.{List, [], ◌∷◌, ◌++◌, append_assoc, append-nil}
use native.Mathlib.Omega.{arith}
use Prim.Native.Nat.{ℕ}
use tydomio.Base.Equality.{nat_eq}
use tydomio.Base.Lists.{All, drop-length-append}
use tydomio.Base.Text.{
  Text, crlf, partition, starts_with, split_lines, split_on, join, remove_prefix,
}

-- The character `x` does not occur.
abbrev pub Lacks : ℕ → Text → Type 0
Lacks x = All (λ c. c ≢ x)

abbrev prepend : Text → Option (Text × Text) → Option (Text × Text)
prepend l o = Option.map {B = Text × Text} (λ p. (l ++ p.0, p.1)) o

prepend-prepend :
    (c : ℕ) (l : Text) (o : Option (Text × Text))
    → Option.map {B = Text × Text} (λ p. (c ∷ p.0, p.1)) (prepend l o) ≡ prepend (c ∷ l) o
prepend-prepend c l none = refl
prepend-prepend c l (some p) = refl

-- A separator that begins with `x` is not found in a part that lacks `x`.
partition-Lacks :
    (x : ℕ) (sep l rest : Text)
    → Lacks x l
    → partition (l ++ rest) (x ∷ sep) ≡ prepend l (partition rest (x ∷ sep))
unfolding partition
partition-Lacks x sep [] rest h = same (partition rest (x ∷ sep))
  where
    same : (o : Option (Text × Text)) → o ≡ prepend [] o
    same none = refl
    same (some p) = refl
partition-Lacks x sep (c ∷ l) rest h =
    rw (partition-Lacks x sep l rest h.1, prepend-prepend c l (partition rest (x ∷ sep)))
      (ground arith)

-- A part in front of the first separator is found whole.
pub partition-one :
    (x : ℕ) (l rest : Text) → Lacks x l → partition (l ++ (x ∷ rest)) (x ∷ []) ≡ some (l, rest)
unfolding partition starts_with
partition-one x [] rest h = ground arith
partition-one x (c ∷ l) rest h = rw (partition-one x l rest h.1) (ground arith)

starts-lacks : (c : ℕ) (s : Text) → c ≢ 13 → starts_with (13 ∷ 10 ∷ c ∷ s) (crlf ++ crlf) ≡ false
unfolding starts_with nat_eq
starts-lacks c s h = ground arith

abbrev pub Line : Text → Type 0
Line [] = ⊥
Line (c ∷ l) = Lacks 13 (c ∷ l)

starts-ten : (s : Text) → starts_with (10 ∷ s) (crlf ++ crlf) ≡ false
unfolding starts_with nat_eq
starts-ten s = refl

two-prepends :
    (o : Option (Text × Text))
    → Option.map {B = Text × Text}
        (λ p. (13 ∷ p.0, p.1))
        (Option.map {B = Text × Text} (λ p. (10 ∷ p.0, p.1)) o)
      ≡ prepend crlf o
two-prepends none = refl
two-prepends (some p) = refl

partition-skip :
    (c : ℕ) (s : Text)
    → c ≢ 13
    → partition (13 ∷ 10 ∷ c ∷ s) (crlf ++ crlf) ≡ prepend crlf (partition (c ∷ s) (crlf ++ crlf))
unfolding partition
partition-skip c s h =
    rw (starts-lacks c s h, starts-ten (c ∷ s)) (two-prepends (partition (c ∷ s) (crlf ++ crlf)))

partition-end : (body : Text) → partition (crlf ++ (crlf ++ body)) (crlf ++ crlf) ≡ some ([], body)
unfolding partition nat_eq
partition-end body = refl

join-cons :
    (c : ℕ) (l : Text) (lines : List Text) → join crlf ((c ∷ l) ∷ lines) ≡ c ∷ join crlf (l ∷ lines)
unfolding join
join-cons c l [] = refl
join-cons c l (m ∷ lines) = refl

-- The lines of a head, none empty, end where the empty line stands.
pub partition-head :
    (line : Text) (lines : List Text) (body : Text)
    → Lacks 13 line
    → All Line lines
    → partition (join crlf (line ∷ lines) ++ (crlf ++ (crlf ++ body))) (crlf ++ crlf)
      ≡ some (join crlf (line ∷ lines), body)
unfolding join
partition-head line [] body h t =
    rw
      (
        partition-Lacks 13 (10 ∷ crlf) line (crlf ++ (crlf ++ body)) h,
        partition-end body,
        append-nil line,
      )
      refl
partition-head line ([] ∷ lines) body h t = absurd t.0
partition-head line ((c ∷ l) ∷ lines) body h t =
    let rec = partition-head (c ∷ l) lines body t.0 t.1 in
    rw append_assoc (
      rw
        (
          partition-Lacks 13 (10 ∷ crlf) line
              (crlf ++ (join crlf ((c ∷ l) ∷ lines) ++ (crlf ++ (crlf ++ body)))) h,
          join-cons c l lines,
          partition-skip c (join crlf (l ∷ lines) ++ (crlf ++ (crlf ++ body))) t.0.0,
        )
        (rw (rw join-cons at rec) refl))

split_lines-line :
    (l rest : Text) → Lacks 13 l → split_lines (l ++ (crlf ++ rest)) ≡ l ∷ split_lines rest
unfolding split_lines nat_eq
split_lines-line [] rest h = refl
split_lines-line (c ∷ []) rest h = ground arith
split_lines-line (c ∷ d ∷ l) rest h = ground (arith, split_lines-line (d ∷ l) rest h.1)

split_lines-last : (l : Text) → Lacks 13 l → split_lines l ≡ l ∷ []
unfolding split_lines
split_lines-last [] h = refl
split_lines-last (c ∷ []) h = refl
split_lines-last (c ∷ d ∷ l) h = ground (arith, split_lines-last (d ∷ l) h.1)

-- Splitting the joined lines gives the lines.
pub split_lines-join :
    (line : Text) (lines : List Text)
    → All (Lacks 13) (line ∷ lines)
    → split_lines (join crlf (line ∷ lines)) ≡ line ∷ lines
unfolding join
split_lines-join line [] h = split_lines-last line h.0
split_lines-join line (m ∷ lines) h =
    split_lines-line line (join crlf (m ∷ lines)) h.0
    ∙ ap (λ (t : List Text). line ∷ t) (split_lines-join m lines h.1)

-- A first part that lacks the separator is split off whole.
pub split_on-part :
    (x : ℕ) (l rest : Text) → Lacks x l → split_on x (l ++ (x ∷ rest)) ≡ l ∷ split_on x rest
unfolding split_on
split_on-part x [] rest h = ground arith
split_on-part x (c ∷ l) rest h = ground (arith, split_on-part x l rest h.1)

starts_with_self : (p s : Text) → starts_with (p ++ s) p ≡ true
unfolding starts_with
starts_with_self [] s = refl
starts_with_self (c ∷ p) s = ground (arith, starts_with_self p s)

-- A prefix is removed.
pub remove_prefix_self : (p s : Text) → remove_prefix (p ++ s) p ≡ s
unfolding remove_prefix
remove_prefix_self p s = rw (starts_with_self p s, drop-length-append p s) refl
