-- ===== src/Tests/LockTests.antt =====
-- A run of the spin lock.
use ps.Base.{◌≡◌, ◌≢◌, refl, arith}
use ps.Lock.{
  Lock, Reach, spinning, holding, mutual_exclusion, start, step, take, swap, spin, ps_cas,
}

-- Core 0 takes the lock, and core 1 spins.
contended : (l : Lock) × Reach l × (l.pc 0 ≡ holding) × (l.pc 1 ≡ spinning)
unfolding spin ps_cas
contended = (
  _,
  step (step (step (step start (take 0 refl)) (take 1 refl)) (swap 0 refl)) (swap 1 refl),
  refl,
  refl,
)

mutual_exclusion_example : (contended.0.o ≢ 0) × (contended.0.pc 1 ≢ holding)
mutual_exclusion_example = mutual_exclusion contended.1 0 1 (omega arith) contended.2
