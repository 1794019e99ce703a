-- ===== src/Base/Numbers.antt =====
-- Orders and powers of numbers.
use Prim.Native.Nat.{ℕ, zero, suc, ◌+◌, ◌*◌, ◌^◌, ◌≤◌, ◌<◌}
use mathlib.Core.Path.{◌≡◌, sym}
use mathlib.Core.Logic.{◌⊎◌, inl, inr}
use native.Mathlib.Omega.{arith}
use native.Mathlib.Nat.{add-zero, add-suc, mul-one, mul_assoc, pow-suc, one-le-pow}

pub lt_or_le : (a b : ℕ) → (a < b) ⊎ (b ≤ a)
lt_or_le a zero = inr (omega arith)
lt_or_le zero (suc b) = inl (omega arith)
lt_or_le (suc a) (suc b) = elim (lt_or_le a b) [
  | inl h ↦ inl (omega arith)
  | inr h ↦ inr (omega arith)
]

pub two_pow_pos : (n : ℕ) → zero < 2 ^ n
two_pow_pos n = one-le-pow n 2 (omega arith)

pub pow_add : (a b : ℕ) → 2 ^ (a + b) ≡ 2 ^ a * 2 ^ b
pow_add a zero = rw (add-zero a) (sym (mul-one (2 ^ a)))
pow_add a (suc b) =
    rw (add-suc a b, pow-suc 2 (a + b), pow_add a b, pow-suc 2 b) (mul_assoc (2 ^ a) (2 ^ b) 2)
