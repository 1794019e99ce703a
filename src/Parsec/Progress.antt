-- ===== src/Parsec/Progress.antt =====
-- `ps_try_quiesce` is wait-free; its rounds one after the other.
use ps.Base.{ℕ, zero, suc, ◌+◌, ◌-◌, ◌*◌, ◌≤◌, ◌<◌, ◌≡◌, false, arith, if◌then◌else◌}
use ps.Parsec.{Parsec}
use ps.Parsec.Quiesce.{
  Frame, Outcome, running, returned, aborted, ps_quiesce, quiesce_finish, recheck, quiesce_step,
}

-- Rounds one after the other. `clock k` is what the counter reads and `others k` what the other
-- cores do to the shared state before the round with `k` more to come.
unfoldable pub rounds : ℕ → ℕ → (clock : ℕ → ℕ) → (others : ℕ → Parsec → Parsec) → Outcome → Outcome
rounds zero n clock others o = o
rounds (suc k) n clock others (running ps f) =
    rounds k n clock others (quiesce_step n (clock k) (others k ps) f)
rounds (suc k) n clock others (returned ps r q) = returned ps r q
rounds (suc k) n clock others aborted = aborted

-- `ps_try_quiesce`: two rounds for each core are enough.
unfoldable pub ps_try_quiesce :
    ℕ → (clock : ℕ → ℕ) → (others : ℕ → Parsec → Parsec) → Parsec → ℕ → ℕ → Outcome
ps_try_quiesce n clock others ps cpu tsc =
    rounds (2 * n) n clock others (ps_quiesce ps cpu tsc false)

-- The call has come to an end.
abbrev pub Ended : Outcome → Type 0
Ended (running ps f) = ⊥
Ended _ = Unit

-- A non-blocking call with at most `k` rounds to go
abbrev pub Within : ℕ → ℕ → Outcome → Type 0
Within n k (running ps f) =
    (f.blocking ≡ false) × (2 * (n - f.i) + (if f.first_try then 1 else 0) < k)
Within n k _ = Unit

finish-Within : (n k : ℕ) (ps : Parsec) (f : Frame) → Within n k (quiesce_finish n ps f)
unfolding quiesce_finish
finish-Within n k ps f = ground arith

pub step-Within :
    (n k now : ℕ) (ps : Parsec) (f : Frame)
    → (f.blocking ≡ false)
    → 2 * (n - f.i) + (if f.first_try then 1 else 0) < suc k
    → Within n k (quiesce_step n now ps f)
unfolding quiesce_step recheck
step-Within n k now ps f nb m = ground (arith, finish-Within n k ps f)

rounds-Ended :
    (k n : ℕ) (clock : ℕ → ℕ) (others : ℕ → Parsec → Parsec) (o : Outcome)
    → Within n k o
    → Ended (rounds k n clock others o)
unfolding rounds
rounds-Ended zero n clock others (running ps f) w = absurd (omega arith)
rounds-Ended (suc k) n clock others (running ps f) w =
    rounds-Ended k n clock others _ (step-Within n k (clock k) (others k ps) f w.0 w.1)
rounds-Ended zero n clock others _ w = tt
rounds-Ended (suc k) n clock others _ w = tt

pub start-Within :
    (n : ℕ) (ps : Parsec) (cpu tsc : ℕ) → 1 ≤ n → Within n (2 * n) (ps_quiesce ps cpu tsc false)
unfolding ps_quiesce
start-Within n ps cpu tsc h = ground arith

-- `ps_try_quiesce` is wait-free: with at least one core it stops within two rounds for each core,
-- whatever the counter reads and whatever the other cores do between its rounds.
pub try_quiesce-Ended :
    (n : ℕ) (clock : ℕ → ℕ) (others : ℕ → Parsec → Parsec) (ps : Parsec) (cpu tsc : ℕ)
    → 1 ≤ n
    → Ended (ps_try_quiesce n clock others ps cpu tsc)
unfolding ps_try_quiesce
try_quiesce-Ended n clock others ps cpu tsc h =
    rounds-Ended (2 * n) n clock others _ (start-Within n ps cpu tsc h)
