-- ===== src/Base/Int.antt =====
-- Python ints: `negsuc n` is -(n + 1).
use Prim.Native.Nat.{ℕ}
use mathlib.Core.Path.{ap}
use mathlib.Core.Logic.{dite}
use native.Mathlib.Decide.{ℕ_discrete}
use tydomio.Base.Equality.{Eq}

pub data ℤ : Type 0 where
  pos : ℕ → ℤ
  negsuc : ℕ → ℤ

dec_ℤ : Discrete ℤ
dec_ℤ (pos a) (pos b) = dite (ℕ_discrete a b) (λ p. yes (ap pos p)) (λ n. no (λ p. n (cc)))
dec_ℤ (pos a) (negsuc b) = no (λ p. cc)
dec_ℤ (negsuc a) (pos b) = no (λ p. cc)
dec_ℤ (negsuc a) (negsuc b) = dite (ℕ_discrete a b) (λ p. yes (ap negsuc p)) (λ n. no (λ p. n (cc)))

instance unfoldable pub int_eq : Eq ℤ
unfolding dec_ℤ ℕ_discrete
int_eq = record { dec = dec_ℤ }
