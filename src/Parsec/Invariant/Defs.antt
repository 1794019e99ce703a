-- ===== src/Parsec/Invariant/Defs.antt =====
-- What holds of the time stamps, and of a core in the middle of `ps_quiesce`.
use ps.Base.{ℕ, ◌+◌, ◌%◌, ◌≤◌, ◌<◌, ◌≡◌, ◌≢◌}
use ps.Parsec.{Timing, Parsec, timing_of, cached, ps_in_lib}
use ps.Parsec.Quiesce.{Ret, Frame, max_tsc}
use ps.Parsec.System.{quiescing, got, crashed, System}

-- The core is in a parallel section, which it entered at `time_in`.
abbrev pub InLib : Timing → Type 0
InLib t = t.time_out ≤ t.time_in

-- Every section that is still open was entered at `q` or later.
abbrev pub Quiescent : ℕ → Parsec → ℕ → Type 0
Quiescent n ps q = (j : ℕ) → j < n → InLib (timing_of ps j) → q ≤ (timing_of ps j).time_in

pub record Timely (n now : ℕ) (ps : Parsec) : Type 0 where
  pub fits : now ≤ max_tsc
  pub past : (c : ℕ) → (timing_of ps c).time_in < now
  pub out_le : (c : ℕ) → (timing_of ps c).time_out ≤ (timing_of ps c).time_in + 1
  pub known_past : (c : ℕ) → (timing_of ps c).last_known_quiescence < now
  pub safe : (c : ℕ) → Quiescent n ps (timing_of ps c).last_known_quiescence
  pub seen : (c j : ℕ) → (cached ps c j).time_in ≤ (timing_of ps j).time_in
  pub seen_in : (c j : ℕ) → (cached ps c j).time_in ≤ (cached ps c j).time_updated
  pub seen_past : (c j : ℕ) → (cached ps c j).time_updated < now
  pub seen_out :
      (c j : ℕ)
      → (cached ps c j).time_in < (cached ps c j).time_out
      → InLib (timing_of ps j)
      → (cached ps c j).time_updated ≤ (timing_of ps j).time_in

-- The core `(c + k) % n` was looked at, and bounds `m`.
abbrev pub Covers : ℕ → Parsec → ℕ → ℕ → ℕ → Type 0
Covers n ps c k m = InLib (timing_of ps ((c + k) % n)) → m ≤ (timing_of ps ((c + k) % n)).time_in

pub record FrameOk (n now : ℕ) (ps : Parsec) (f : Frame) : Type 0 where
  pub low : 1 ≤ f.i
  pub high : f.i ≤ n
  pub qsc_le : f.qsc ≤ (timing_of ps f.cpu).last_known_quiescence
  pub inlib : f.inlib_curr ≡ ps_in_lib (timing_of ps f.cpu)
  pub checked : InLib (timing_of ps f.cpu) → f.time_check ≤ (timing_of ps f.cpu).time_in
  pub min_start : f.i ≡ 1 → f.min_known_qsc ≡ max_tsc
  pub min_past : 1 < f.i → f.min_known_qsc < now
  pub min_check : 1 < f.i → f.time_check < f.min_known_qsc
  pub covers : (k : ℕ) → 1 ≤ k → k < f.i → Covers n ps f.cpu k f.min_known_qsc

pub record Inv (n : ℕ) (s : System) : Type 0 where
  pub timely : Timely n s.now s.ps
  pub frames : (c : ℕ) (f : Frame) → s.pc c ≡ quiescing f → (f.cpu ≡ c) × FrameOk n s.now s.ps f
  pub gots :
      (c : ℕ) (r : Ret) (q : ℕ) → s.pc c ≡ got r q → q ≤ (timing_of s.ps c).last_known_quiescence
  pub alive : (c : ℕ) → s.pc c ≢ crashed

-- `qs` is `ps` but for the cached stamps and a later last known quiescence of core `c`.
pub record Advances (c : ℕ) (ps qs : Parsec) : Type 0 where
  pub same_in : (j : ℕ) → (timing_of qs j).time_in ≡ (timing_of ps j).time_in
  pub same_out : (j : ℕ) → (timing_of qs j).time_out ≡ (timing_of ps j).time_out
  pub grows :
      (j : ℕ) → (timing_of ps j).last_known_quiescence ≤ (timing_of qs j).last_known_quiescence
