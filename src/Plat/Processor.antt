-- ===== src/Plat/Processor.antt =====
-- `ps_tsc`, `ps_tsc_locality` and `ps_coreid` (plat/os/linux/ps_os.h) give what the processor stands for.
use Prim.Native.Nat.{bit_or, bit_or-bitwise, max}
use native.Mathlib.Nat.{mod-eq_of_lt, mul-one, pow-suc}
use ps.Base.{ℕ, zero, suc, ◌+◌, ◌*◌, ◌/◌, ◌%◌, ◌^◌, ◌≤◌, ◌<◌, ◌≡◌, ◌≢◌, ◌∙◌, ap, arith, ne→==}
use ps.Plat.{Registers, ps_tsc, ps_tsc_locality, ps_coreid}
use ps.Pow2.{bit_or-digit, twice}

-- What `rdtscp` leaves at a time, on a core of a node: the halves of the counter, and both numbers in
-- one register.
abbrev pub reported : (time core node : ℕ) → Registers
reported time core node = record { a = time % 2 ^ 32; d = time / 2 ^ 32; c = node * 2 ^ 12 + core }

bit_or-zero : (m v : ℕ) → v ≤ m → bit_or v 0 ≡ v
bit_or-zero zero zero h = omega (arith, bit_or-bitwise 0 0)
bit_or-zero zero (suc v) h = absurd (omega arith)
bit_or-zero (suc m) zero h = omega (arith, bit_or-bitwise 0 0)
bit_or-zero (suc m) (suc v) h =
    omega (arith, bit_or-digit (suc v) 0, bit_or-zero m (suc v / 2) (omega arith))

-- A number below `2 ^ m` fills the digits below those of a multiple of `2 ^ m`.
bit_or-joins : (m h s : ℕ) → s < 2 ^ m → bit_or (h * 2 ^ m) s ≡ h * 2 ^ m + s
bit_or-joins zero h s lt =
    rw (mul-one h, zero_below s lt) (bit_or-zero h h (omega arith) ∙ omega arith)
  where
    zero_below : (x : ℕ) → x < 2 ^ 0 → x ≡ 0
    zero_below x l = omega arith
bit_or-joins (suc m) h s lt =
    let half = bit_or-joins m h (s / 2) (omega (arith, pow-suc 2 m)) in
    let whole : h * 2 ^ suc m / 2 ≡ h * 2 ^ m = omega (arith, twice h m) in
    omega (
      arith,
      half,
      bit_or-digit (h * 2 ^ suc m) s,
      ap (λ x. bit_or x (s / 2)) whole,
      max_even (h * 2 ^ suc m) (h * 2 ^ m) (s % 2) (twice h m),
      twice h m,
    )
  where
    max_even : (x y z : ℕ) → x ≡ 2 * y → max (x % 2) z ≡ z
    max_even x y z e = omega arith

module _ (time core node : ℕ) (short : time < 2 ^ 64) (few : core < 2 ^ 12)
    (near : node < 2 ^ 16) where
  joined : bit_or (time / 2 ^ 32 * 2 ^ 32 % 2 ^ 64) (time % 2 ^ 32) ≡ time
  joined =
      ap (λ x. bit_or x (time % 2 ^ 32))
        (mod-eq_of_lt {n = time / 2 ^ 32 * 2 ^ 32} {m = 2 ^ 64} (omega arith))
      ∙ bit_or-joins 32 (time / 2 ^ 32) (time % 2 ^ 32) (omega arith)
      ∙ omega arith

  pub ps_tsc-reported : ps_tsc (reported time core node) ≡ time
  unfolding ps_tsc
  ps_tsc-reported = joined

  -- If the counter is below 2 ^ 64, a core's number below 2 ^ 12 and a node's below 2 ^ 16, then `ps_tsc` and
  -- `ps_tsc_locality` give the time, `ps_tsc_locality` gives the core and its node, and `ps_coreid`
  -- gives the core if there are other cores than one.
  pub ps_tsc_locality-reported :
      (numcores : ℕ)
      → numcores ≢ 1
      → ((ps_tsc_locality (reported time core node)).tsc ≡ time)
        × ((ps_tsc_locality (reported time core node)).coreid ≡ core)
        × ((ps_tsc_locality (reported time core node)).numaid ≡ node)
        × (ps_tsc (reported time core node) ≡ time)
        × (ps_coreid numcores (reported time core node) ≡ core)
  unfolding ps_tsc_locality ps_coreid
  ps_tsc_locality-reported numcores ne =
      (joined, omega arith, omega arith, ps_tsc-reported, rw (ne→== numcores 1 ne) (omega arith))
