-- ===== src/Base/Text.antt =====
-- Python's `bytes` and ASCII `str`, as lists of bytes, and the methods that the code calls on them.
pub mod Number
pub mod Lines
pub mod Digits
pub mod Parts
use Prim.Native.Nat.{ℕ, ◌+◌, ◌<◌}
use Prim.Native.Char.{code}
use Prim.Native.String.{String}
use mathlib.Core.Path.{◌≡◌, refl, ap}
use mathlib.Core.Bool.{Bool, true, false, ◌&&◌, ◌||◌}
use mathlib.Core.Option
use mathlib.Core.Option.{Option, none, some}
use mathlib.Core.List.{List, [], ◌∷◌, ◌++◌, reverse, map}
use native.Mathlib.Omega.{arith}
use tydomio.Base.Equality.{◌==◌, nat_eq, ltb, leb, if◌then◌else◌}
use tydomio.Base.Lists.{length, drop, all}

abbrev pub Text : Type 0
Text = List ℕ

-- A literal.
abbrev pub codes : String → Text
codes String.[] = []
codes (String.◌∷◌ c s) = code c ∷ codes s

abbrev pub crlf : Text
crlf = 13 ∷ 10 ∷ []

-- `s.startswith(prefix)`
unfoldable pub starts_with : Text → Text → Bool
starts_with s [] = true
starts_with [] (c ∷ p) = false
starts_with (d ∷ s) (c ∷ p) = d == c && starts_with s p

-- `s.removeprefix(prefix)`
unfoldable pub remove_prefix : Text → Text → Text
unfolding starts_with
remove_prefix s p = if starts_with s p then drop (length p) s else s

-- `s.partition(sep)`, `none` where `sep` does not occur
unfoldable pub partition : Text → Text → Option (Text × Text)
unfolding starts_with
partition [] sep = none
partition (c ∷ s) sep =
    let rest = partition s sep in
    if starts_with (c ∷ s) sep
    then some ([], drop (length sep) (c ∷ s))
    else Option.map (λ (p : Text × Text). (c ∷ p.0, p.1)) rest

-- `c` in front of the first part of a split.
abbrev pub push : ℕ → List Text → List Text
push c [] = (c ∷ []) ∷ []
push c (p ∷ ps) = (c ∷ p) ∷ ps

-- `s.split(sep)` at one character
unfoldable pub split_on : ℕ → Text → List Text
split_on sep [] = [] ∷ []
split_on sep (c ∷ s) = let parts = split_on sep s in if c == sep then [] ∷ parts else push c parts

-- `s.split("\r\n")`
unfoldable pub split_lines : Text → List Text
split_lines [] = [] ∷ []
split_lines (c ∷ []) = (c ∷ []) ∷ []
split_lines (c ∷ d ∷ s) = elim (c == 13 && d == 10) [
  | true ↦ [] ∷ split_lines s
  | false ↦ push c (split_lines (d ∷ s))
]

-- `sep.join(parts)`
unfoldable pub join : Text → List Text → Text
join sep [] = []
join sep (p ∷ []) = p
join sep (p ∷ q ∷ ps) = p ++ (sep ++ join sep (q ∷ ps))

-- The white space of `bytes.strip`, and of `str.strip` over ASCII.
abbrev pub is_byte_space : ℕ → Bool
is_byte_space c = leb 9 c && leb c 13 || c == 32

abbrev pub is_str_space : ℕ → Bool
is_str_space c = leb 9 c && leb c 13 || leb 28 c && leb c 32

unfoldable pub lstrip : (ℕ → Bool) → Text → Text
lstrip space [] = []
lstrip space (c ∷ s) = let rest = lstrip space s in if space c then rest else c ∷ s

unfoldable pub strip : (ℕ → Bool) → Text → Text
unfolding lstrip
strip space s = reverse (lstrip space (reverse (lstrip space s)))

-- `lower` and `upper` over ASCII.
abbrev pub lower_code : ℕ → ℕ
lower_code c = if leb 65 c && leb c 90 then c + 32 else c

unfoldable pub lower : Text → Text
lower = map lower_code

-- `s.decode("ascii")` accepts exactly these.
unfoldable pub is_ascii : Text → Bool
is_ascii = all (λ c. ltb c 128)
