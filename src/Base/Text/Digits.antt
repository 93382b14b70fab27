-- ===== src/Base/Text/Digits.antt =====
-- Printed numbers hold digits only, and different numbers are printed differently.
use Prim.Native.Nat.{ℕ, zero, suc, ◌+◌, ◌-◌, ◌*◌, ◌%◌, ◌/◌, ◌<◌}
use mathlib.Core.Path.{◌≡◌, refl, ap}
use mathlib.Core.List.{[], ◌∷◌, ◌++◌}
use native.Mathlib.Omega.{arith}
use tydomio.Base.Int.{ℤ, pos, negsuc}
use tydomio.Base.Text.{Text}
use tydomio.Base.Text.Parts.{Lacks}
use tydomio.Base.Text.Number.{digits, show_nat, show_int}

digits-lack : (x fuel n : ℕ) (acc : Text) → x < 45 → Lacks x acc → Lacks x (digits fuel n acc)
unfolding digits
digits-lack x zero n acc small h = h
digits-lack x (suc fuel) n acc small h =
    ground (arith, digits-lack x fuel (n / 10) ((48 + n % 10) ∷ acc) small ((λ e. omega arith), h))

pub show_nat-Lacks : (x n : ℕ) → x < 45 → Lacks x (show_nat n)
unfolding show_nat
show_nat-Lacks x n small = digits-lack x (suc n) n [] small tt

pub show_int-Lacks : (x : ℕ) (n : ℤ) → x < 45 → Lacks x (show_int n)
unfolding show_int
show_int-Lacks x (pos n) small = show_nat-Lacks x n small
show_int-Lacks x (negsuc n) small = ((λ e. omega arith), show_nat-Lacks x (suc n) small)

-- The number that decimal digits go on to write after `n`.
pub digits_value : ℕ → Text → ℕ
digits_value n [] = n
digits_value n (c ∷ s) = digits_value (n * 10 + (c - 48)) s

digits_value-digits :
    (fuel n : ℕ) (acc : Text) → n < fuel → digits_value 0 (digits fuel n acc) ≡ digits_value n acc
unfolding digits digits_value
digits_value-digits zero n acc h = absurd (omega arith)
digits_value-digits (suc fuel) n acc h =
    ground (arith, digits_value-digits fuel (n / 10) ((48 + n % 10) ∷ acc))

digits_value-show_nat : (n : ℕ) → digits_value 0 (show_nat n) ≡ n
unfolding show_nat digits_value
digits_value-show_nat n = digits_value-digits (suc n) n [] (omega arith)

digits_value-last :
    (n c : ℕ) (s : Text) → digits_value n (s ++ (c ∷ [])) ≡ digits_value n s * 10 + (c - 48)
unfolding digits_value
digits_value-last n c [] = refl
digits_value-last n c (d ∷ s) = digits_value-last (n * 10 + (d - 48)) c s

-- A number is found again in its digits, with one character after them.
pub show_nat_injective : (m n c : ℕ) → show_nat m ++ (c ∷ []) ≡ show_nat n ++ (c ∷ []) → m ≡ n
show_nat_injective m n c h = omega (
  arith,
  ap (digits_value 0) h,
  digits_value-last 0 c (show_nat m),
  digits_value-last 0 c (show_nat n),
  digits_value-show_nat m,
  digits_value-show_nat n,
)
