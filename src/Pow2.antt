-- ===== src/Pow2.antt =====
-- `ps_rndpow2` (ps_global.h), on words of 64 bits.
use Prim.Native.Nat.{bit_or, bit_or-bitwise, digits, max}
use native.Mathlib.Nat.{
  mod-eq_of_lt, sub-add_cancel, div-le_self, pow-le-pow_right, mul-le-mul_right, div-lt_iff_lt-mul,
  sub-eq-zero_of_le, mul-suc, one-mul, add-mul, mul_comm, mul_assoc, div-add-mod, mul-one, pow-suc,
  mod-lt,
}
use ps.Base.{
  ◌∙◌, two_pow_pos, lt_or_le, pow_add, subst, sym, ap, ℕ, zero, suc, ◌+◌, ◌-◌, ◌*◌, ◌/◌, ◌%◌, ◌^◌,
  ◌≤◌, ◌<◌, ◌≡◌, inl, inr, refl, arith,
}

-- `v |= v >> n`
unfoldable pub smear : (n v : ℕ) → ℕ
smear n v = bit_or v (v / 2 ^ n)

-- `PS_PLAT_SHIFTR32` of a machine with words of 64 bits
unfoldable pub shiftr32 : ℕ → ℕ
shiftr32 v = smear 32 v

unfoldable pub ps_rndpow2 : ℕ → ℕ
ps_rndpow2 v =
    (shiftr32 (smear 16 (smear 8 (smear 4 (smear 2 (smear 1 ((v + 2 ^ 64 - 1) % 2 ^ 64)))))) + 1)
    % 2 ^ 64

abbrev either : (fuel a b : ℕ) → ℕ
either fuel a b = digits (λ x. x) max fuel a b

-- More digits to go than the first number has make no difference.
either_more : (m n a b : ℕ) → a ≤ m → a ≤ n → either m a b ≡ either n a b
either_more zero zero a b h i = refl
either_more zero (suc n) zero b h i = refl
either_more zero (suc n) (suc a) b h i = absurd (omega arith)
either_more (suc m) zero zero b h i = refl
either_more (suc m) zero (suc a) b h i = absurd (omega arith)
either_more (suc m) (suc n) zero b h i = refl
either_more (suc m) (suc n) (suc a) b h i =
    omega (arith, either_more m n (suc a / 2) (b / 2) (omega arith) (omega arith))

-- The lowest digit, and the others
pub bit_or-digit : (a b : ℕ) → bit_or a b ≡ 2 * bit_or (a / 2) (b / 2) + max (a % 2) (b % 2)
bit_or-digit zero b = omega (arith, bit_or-bitwise 0 b, bit_or-bitwise 0 (b / 2))
bit_or-digit (suc a) b = omega (
  arith,
  bit_or-bitwise (suc a) b,
  bit_or-bitwise (suc a / 2) (b / 2),
  either_more a (suc a / 2) (suc a / 2) (b / 2) (omega arith) (omega arith),
)

pub twice : (h m : ℕ) → h * 2 ^ suc m ≡ 2 * (h * 2 ^ m)
twice h m = rw (pow-suc 2 m, sym (mul_assoc h (2 ^ m) 2)) (mul_comm (h * 2 ^ m) 2)

bit_or-le : (m v s : ℕ) → v ≤ m → v ≤ bit_or v s
bit_or-le zero v s h = omega arith
bit_or-le (suc m) v s h = elim (lt_or_le 0 v) [
  | inl pos ↦ omega (arith, bit_or-le m (v / 2) (s / 2) (omega arith), bit_or-digit v s)
  | inr none ↦ omega arith
]

-- A number below `2 ^ m` is added below the digits from `m` on.
bit_or-adds : (m h v s : ℕ) → h * 2 ^ m ≤ v → s < 2 ^ m → h * 2 ^ m + s ≤ bit_or v s
bit_or-adds zero h v s le lt = omega (arith, bit_or-le v v s (omega arith), mul-one h)
bit_or-adds (suc m) h v s le lt =
    let ih =
      bit_or-adds m h (v / 2) (s / 2) (omega (arith, twice h m)) (omega (arith, pow-suc 2 m)) in
    omega (arith, ih, bit_or-digit v s, twice h m)

bit_or-lt : (m a b : ℕ) → a < 2 ^ m → b < 2 ^ m → bit_or a b < 2 ^ m
bit_or-lt zero zero b h i = omega (arith, bit_or-bitwise 0 b)
bit_or-lt zero (suc a) b h i = absurd (omega arith)
bit_or-lt (suc m) a b h i = omega (
  arith,
  bit_or-digit a b,
  pow-suc 2 m,
  bit_or-lt m (a / 2) (b / 2) (omega (arith, pow-suc 2 m)) (omega (arith, pow-suc 2 m)),
)

-- The `n` highest digits of `B` digits are 1.
abbrev Top : (B n v : ℕ) → Type 0
Top B n v = (v < 2 ^ B) × (2 ^ B ≤ v + 2 ^ (B - n))

quotient_le : (N T K v q : ℕ) → T * N ≤ v + T → T ≤ K * N → v < suc q * N → T ≤ q + K
quotient_le N T K v q top fit lt = elim (lt_or_le (q + K) T) [
  | inl less ↦
      let all : (suc q + K) * N ≤ T * N = mul-le-mul_right N (omega arith) in
      absurd (omega (arith, add-mul (suc q) K N))
  | inr le ↦ le
]

pred_mul : (N T : ℕ) → 0 < N → (N - 1) * T + T ≡ T * N
pred_mul zero T pos = absurd (omega arith)
pred_mul (suc N) T pos =
    let e : suc N - 1 ≡ N = omega arith in rw e (omega (arith, mul_comm N T, mul-suc T N))

quotient_lt : (v N : ℕ) → 0 < N → v < suc (v / N) * N
quotient_lt v N pos =
    omega (arith, div-add-mod v N, mod-lt v pos, mul_comm N (v / N), add-mul 1 (v / N) N, one-mul N)

full : (B n v x : ℕ) → B ≤ n → Top B n v → x < 2 ^ B → Top B (n + n) (bit_or v x)
full B n v x le top lt =
    let no : 2 ^ (B - n) ≡ 1 = rw (sub-eq-zero_of_le le) refl in
    let no' : 2 ^ (B - (n + n)) ≡ 1 =
      let le' : B ≤ n + n = omega arith in rw (sub-eq-zero_of_le le') refl in
    (bit_or-lt B v x top.0 lt, omega (arith, bit_or-le v v x (omega arith), no, no', top.1))

gap : (B n : ℕ) → 2 ^ (B - n) ≤ 2 ^ (B - (n + n)) * 2 ^ n
gap B n =
    subst (λ x. 2 ^ (B - n) ≤ x) (pow_add (B - (n + n)) n)
      (pow-le-pow_right (omega arith) (omega arith))

whole : (B n : ℕ) → n ≤ B → 2 ^ (B - n) * 2 ^ n ≡ 2 ^ B
whole B n le = sym (pow_add (B - n) n) ∙ ap (λ k. 2 ^ k) (sub-add_cancel le)

-- Each step doubles the number of digits that are 1.
smear-Top : (B n v : ℕ) → Top B n v → Top B (n + n) (smear n v)
unfolding smear
smear-Top B n v top = elim (lt_or_le n B) [
  | inl less ↦
      let q = v / 2 ^ n in
      let all : 2 ^ (B - n) * 2 ^ n ≡ 2 ^ B = whole B n (omega arith) in
      let small : q < 2 ^ (B - n) = (div-lt_iff_lt-mul (two_pow_pos n)).1 (omega (arith, top.0)) in
      let large : 2 ^ (B - n) ≤ q + 2 ^ (B - (n + n)) =
        quotient_le (2 ^ n) (2 ^ (B - n)) (2 ^ (B - (n + n))) v q (omega (arith, top.1)) (gap B n)
          (quotient_lt v (2 ^ n) (two_pow_pos n)) in
      let split = pred_mul (2 ^ n) (2 ^ (B - n)) (two_pow_pos n) in
      let sum = bit_or-adds (B - n) (2 ^ n - 1) v q (omega (arith, top.1)) small in
      (bit_or-lt B v q top.0 (omega (arith, top.0, div-le_self v (2 ^ n))), omega arith)
  | inr le ↦ full B n v (v / 2 ^ n) le top (omega (arith, top.0, div-le_self v (2 ^ n)))
]

highest : (m x : ℕ) → 0 < x → x < 2 ^ m → (b : ℕ) × (b < m) × (2 ^ b ≤ x) × (x < 2 ^ suc b)
highest zero x pos lt = absurd (omega arith)
highest (suc m) x pos lt = elim (lt_or_le x (2 ^ m)) [
  | inl less ↦ let (b, h, l, u) = highest m x pos less in (b, omega arith, l, u)
  | inr le ↦ (m, omega arith, le, lt)
]

abbrev filled : ℕ → ℕ
filled w = shiftr32 (smear 16 (smear 8 (smear 4 (smear 2 (smear 1 w)))))

filled_lem : (b w : ℕ) → b < 64 → 2 ^ b ≤ w → w < 2 ^ suc b → filled w + 1 ≡ 2 ^ suc b
unfolding shiftr32
filled_lem b w h l u =
    let e : suc b - 1 ≡ b = omega arith in
    let first : Top (suc b) 1 w = (u, rw e (omega (arith, pow-suc 2 b))) in
    let last = smear-Top (suc b) 32 _ (
      smear-Top (suc b) 16 _ (
        smear-Top (suc b) 8 _
          (smear-Top (suc b) 4 _ (smear-Top (suc b) 2 _ (smear-Top (suc b) 1 w first))))) in
    let le : suc b ≤ 64 = omega arith in
    let no : 2 ^ (suc b - 64) ≡ 1 = rw (sub-eq-zero_of_le le) refl in
    omega (arith, last.0, last.1, no)

least : (b c v : ℕ) → 2 ^ b < 2 * v → v ≤ 2 ^ c → 2 ^ b ≤ 2 ^ c
least b c v lt le = elim (lt_or_le c b) [
  | inl less ↦
      let up : 2 ^ suc c ≤ 2 ^ b = pow-le-pow_right (omega arith) less in
      absurd (omega (arith, pow-suc 2 c))
  | inr le' ↦ pow-le-pow_right (omega arith) le'
]

-- `ps_rndpow2` of a number from 1 to 2 ^ 63 is the least power of two that is not below it.
pub ps_rndpow2-least :
    (v : ℕ)
    → 0 < v
    → v ≤ 2 ^ 63
    → (b : ℕ) × (ps_rndpow2 v ≡ 2 ^ b) × (v ≤ 2 ^ b) × ((c : ℕ) → v ≤ 2 ^ c → 2 ^ b ≤ 2 ^ c)
unfolding ps_rndpow2 shiftr32 smear
ps_rndpow2-least zero pos le = absurd (omega arith)
ps_rndpow2-least (suc zero) pos le = (0, refl, omega arith, λ c h. two_pow_pos c)
ps_rndpow2-least (suc (suc w)) pos le =
    let (b, h, l, u) = highest 63 (suc w) (omega arith) (omega arith) in
    let down : (suc (suc w) + 2 ^ 64 - 1) % 2 ^ 64 ≡ suc w = omega arith in
    let bound : 2 ^ suc b ≤ 2 ^ 63 = pow-le-pow_right (omega arith) h in
    let result = filled_lem b (suc w) (omega arith) l u in
    (
      suc b,
      rw (down, result) (mod-eq_of_lt (omega arith)),
      omega arith,
      λ c. least (suc b) c (suc (suc w)) (omega (arith, pow-suc 2 b)),
    )
