-- ===== src/Base/Text/Number.antt =====
-- `str` and `int` of Python, between numbers and text.
use Prim.Native.Nat.{ℕ, zero, suc, ◌+◌, ◌-◌, ◌*◌, ◌/◌, ◌%◌}
use mathlib.Core.Bool.{Bool, true, false, ◌&&◌}
use mathlib.Core.Option
use mathlib.Core.Option.{Option, none, some}
use mathlib.Core.List.{[], ◌∷◌}
use tydomio.Base.Equality.{◌==◌, nat_eq, ltb, leb, if◌then◌else◌}
use tydomio.Base.Int.{ℤ, pos, negsuc}
use tydomio.Base.Text.{Text, is_str_space, strip}

-- The decimal digits of `n`, in front of `acc`; `fuel` above `n` is enough.
unfoldable pub digits : ℕ → ℕ → Text → Text
digits zero n acc = acc
digits (suc fuel) n acc =
    let rest = digits fuel (n / 10) ((48 + n % 10) ∷ acc) in
    if ltb n 10 then (48 + n) ∷ acc else rest

-- `str(n)`
unfoldable pub show_nat : ℕ → Text
unfolding digits
show_nat n = digits (suc n) n []

unfoldable pub show_int : ℤ → Text
unfolding show_nat
show_int (pos n) = show_nat n
show_int (negsuc n) = 45 ∷ show_nat (suc n)

abbrev pub is_digit : ℕ → Bool
is_digit c = leb 48 c && leb c 57

-- Digits, single underscores between two of them; `after` says whether the last one was a digit.
-- The value and the number of digits.
unfoldable pub read_digits : Bool → ℕ → ℕ → Text → Option (ℕ × ℕ)
read_digits after n k [] = if after then some (n, k) else none
read_digits after n k (c ∷ s) =
    if is_digit c
    then read_digits true (n * 10 + (c - 48)) (suc k) s
    else if after && c == 95
    then read_digits false n k s
    else none

-- `int` refuses more digits than this.
abbrev pub max_str_digits : ℕ
max_str_digits = 4300

unfoldable pub read_nat : Text → Option ℕ
unfolding read_digits
read_nat s = elim (read_digits false 0 0 s) [
  | none ↦ none
  | some (n, k) ↦ if leb k max_str_digits then some n else none
]

abbrev pub negate : ℕ → ℤ
negate zero = pos 0
negate (suc n) = negsuc n

unfoldable pub read_signed : Text → Option ℤ
unfolding read_nat
read_signed [] = none
read_signed (c ∷ s) =
    if c == 45
    then Option.map negate (read_nat s)
    else if c == 43
    then Option.map pos (read_nat s)
    else Option.map pos (read_nat (c ∷ s))

-- `int(s)` over ASCII; `none` is a `ValueError`.
unfoldable pub read_int : Text → Option ℤ
unfolding read_signed strip
read_int s = read_signed (strip is_str_space s)

-- A hexadecimal digit, and its value.
abbrev pub hex_digit : ℕ → Option ℕ
hex_digit c =
    if leb 48 c && leb c 57
    then some (c - 48)
    else if leb 65 c && leb c 70
    then some (c - 55)
    else if leb 97 c && leb c 102
    then some (c - 87)
    else none

unfoldable pub read_hex_digits : ℕ → Text → Option ℕ
read_hex_digits n [] = some n
read_hex_digits n (c ∷ s) = elim (hex_digit c) [
  | none ↦ none
  | some d ↦ read_hex_digits (n * 16 + d) s
]

-- `int(s, 16)` where `s` matches `[0-9a-fA-F]+`, and `none` where it does not.
unfoldable pub read_hex : Text → Option ℕ
unfolding read_hex_digits
read_hex [] = none
read_hex (c ∷ s) = read_hex_digits 0 (c ∷ s)
