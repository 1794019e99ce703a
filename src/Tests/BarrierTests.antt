-- ===== src/Tests/BarrierTests.antt =====
-- The barrier: runs of two cores, and the theorems at them.
use ps.Base.{ℕ, zero, suc, ◌≤◌, ◌≡◌, refl, arith, List, [], ◌∷◌}
use ps.Barrier.{waiting, Barrier, access, meas_barrier, started, Reach, start, step}
use ps.Barrier.Liveness.{run, run_all, Fair, each_core_passes}
use ps.Barrier.Safety.{begun, no_early_leave}

-- Core 0 scans and spins, core 1 turns its flag, core 0 leaves, and core 1 follows.
abbrev crossing : List ℕ
crossing = 0 ∷ 0 ∷ 1 ∷ 1 ∷ 1 ∷ 0 ∷ 0 ∷ 1 ∷ []

abbrev midway : Barrier
midway = run 2 started (0 ∷ 0 ∷ 1 ∷ 1 ∷ 0 ∷ 0 ∷ [])

crossing_calls : (run 2 started crossing).calls 1 ≡ 1
unfolding run meas_barrier access
crossing_calls = refl

midway_calls : midway.calls 0 ≡ 1
unfolding run meas_barrier access
midway_calls = refl

midway_waits : midway.pc 1 ≡ waiting 0
unfolding run meas_barrier access
midway_waits = refl

midway-Reach : Reach 2 midway
unfolding run
midway-Reach = step 0 (omega arith) (
    step 0 (omega arith) (
      step 1 (omega arith)
        (step 1 (omega arith) (step 0 (omega arith) (step 0 (omega arith) start)))))

no_early_leave_example : midway.calls 0 ≤ begun (midway.pc 1) (midway.calls 1)
no_early_leave_example = no_early_leave midway-Reach 0 1 (omega arith) (omega arith)

-- The same round again and again
abbrev rounds : ℕ → List (List ℕ)
rounds zero = []
rounds (suc k) = (1 ∷ 0 ∷ []) ∷ rounds k

rounds-Fair : (k : ℕ) → Fair 2 (rounds k)
rounds-Fair zero = tt
rounds-Fair (suc k) = (λ i h. ground arith, λ i h. ground arith, rounds-Fair k)

each_core_passes_example : 1 ≤ (run_all 2 midway (rounds 17)).calls 1
each_core_passes_example =
    each_core_passes 1 (rounds 17) midway-Reach (rounds-Fair 17) (omega arith) 1 (omega arith)
