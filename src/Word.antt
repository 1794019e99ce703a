-- ===== src/Word.antt =====
-- Arithmetic on machine words of 64 bits (macros of ps_arch_x86_common.h).
use Prim.Native.Nat.{bit_and, bit_and-bitwise, digits, min}
use ps.Base.{ap, ℕ, zero, suc, ◌+◌, ◌-◌, ◌*◌, ◌/◌, ◌%◌, ◌^◌, ◌≤◌, ◌<◌, ◌≡◌, refl, arith}

-- `-v` on an unsigned word
unfoldable pub neg : ℕ → ℕ
neg v = (2 ^ 64 - v) % 2 ^ 64

-- `PS_RNDUP`
unfoldable pub ps_rndup : (v a : ℕ) → ℕ
ps_rndup v a = neg (bit_and (neg v) (neg a))

abbrev both : (fuel a b : ℕ) → ℕ
both fuel a b = digits (λ x. zero) min fuel a b

-- More digits to go than the first number has make no difference.
both_more : (m n a b : ℕ) → a ≤ m → a ≤ n → both m a b ≡ both n a b
both_more zero zero a b h i = refl
both_more zero (suc n) zero b h i = refl
both_more zero (suc n) (suc a) b h i = absurd (omega arith)
both_more (suc m) zero zero b h i = refl
both_more (suc m) zero (suc a) b h i = absurd (omega arith)
both_more (suc m) (suc n) zero b h i = refl
both_more (suc m) (suc n) (suc a) b h i =
    omega (arith, both_more m n (suc a / 2) (b / 2) (omega arith) (omega arith))

both_fuel : (m a b : ℕ) → a ≤ m → both m a b ≡ both a a b
both_fuel m a b h = both_more m a a b h (omega arith)

-- The lowest digit, and the others
bit_and-digit : (a b : ℕ) → bit_and a b ≡ 2 * bit_and (a / 2) (b / 2) + min (a % 2) (b % 2)
bit_and-digit zero b = omega (arith, bit_and-bitwise 0 b, bit_and-bitwise 0 (b / 2))
bit_and-digit (suc a) b = omega (
  arith,
  bit_and-bitwise (suc a) b,
  bit_and-bitwise (suc a / 2) (b / 2),
  both_fuel a (suc a / 2) (b / 2) (omega arith),
)

-- `k` ones
abbrev ones : ℕ → ℕ
ones zero = 0
ones (suc k) = 1 + 2 * ones k

abbrev two_pow : ℕ → ℕ
two_pow zero = 1
two_pow (suc k) = 2 * two_pow k

bit_and-odd : (a m : ℕ) → bit_and a (1 + 2 * m) ≡ 2 * bit_and (a / 2) m + a % 2
bit_and-odd a m = omega (arith, bit_and-digit a (1 + 2 * m), ap (bit_and (a / 2)) half)
  where
    half : (1 + 2 * m) / 2 ≡ m
    half = omega arith

bit_and-ones : (k a : ℕ) → a < two_pow k → bit_and a (ones k) ≡ a
bit_and-ones zero zero h = bit_and-bitwise 0 0
bit_and-ones zero (suc a) h = absurd (omega arith)
bit_and-ones (suc k) a h =
    omega (arith, bit_and-odd a (ones k), bit_and-ones k (a / 2) (omega arith))

-- A mask of ones with three zeros behind them
bit_and-mask : (a : ℕ) → a < 2 ^ 64 → bit_and a (2 ^ 64 - 8) ≡ a / 8 * 8
bit_and-mask a h = omega (
  arith,
  bit_and-digit a (2 ^ 64 - 8),
  bit_and-digit (a / 2) (2 ^ 63 - 4),
  bit_and-digit (a / 2 / 2) (2 ^ 62 - 2),
  bit_and-ones 61 (a / 2 / 2 / 2) (omega arith),
)

-- `PS_RNDUP(v, PS_WORD)` by division
pub rndup_word : (v : ℕ) → v + 7 < 2 ^ 64 → ps_rndup v 8 ≡ (v + 7) / 8 * 8
unfolding ps_rndup neg
rndup_word v h = omega (arith, bit_and-mask ((2 ^ 64 - v) % 2 ^ 64) (omega arith))

-- If `PS_RNDUP(v, PS_WORD)` fits into a word, it is the least multiple of 8 that is not below `v`.
pub rndup_least :
    (v : ℕ) → v + 7 < 2 ^ 64 → (ps_rndup v 8 % 8 ≡ 0) × (v ≤ ps_rndup v 8) × (ps_rndup v 8 < v + 8)
rndup_least v h =
    (omega (arith, rndup_word v h), omega (arith, rndup_word v h), omega (arith, rndup_word v h))
