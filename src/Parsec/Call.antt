-- ===== src/Parsec/Call.antt =====
-- A whole call of `ps_try_quiesce`, seen from the core that makes it.
use ps.Base.{ℕ, zero, suc, ◌+◌, ◌*◌, ◌-◌, ◌≤◌, ◌<◌, ◌≡◌, refl, false, arith, subst}
use ps.Parsec.{Parsec, timing_of}
use ps.Parsec.Quiesce.{
  max_tsc, Ret, Frame, Outcome, running, returned, aborted, ps_quiesce, quiesce_step,
}
use ps.Parsec.Progress.{rounds, ps_try_quiesce, Within, step-Within, start-Within}
use ps.Parsec.Invariant.Defs.{Quiescent, Timely, FrameOk}
use ps.Parsec.Invariant.Round.{quiesce-Good, step-Good}
use ps.Parsec.Invariant.Time.{Good, Timely-mono, FrameOk-mono, Advances-refl}

-- The counter goes on between two of the last `m` rounds, and does not reach its largest value.
pub record Ticks (m : ℕ) (clock : ℕ → ℕ) : Type 0 where
  pub grows : (k : ℕ) → suc k < m → clock (suc k) < clock k
  pub fits : clock 0 < max_tsc

-- What the other cores do between two rounds keeps the invariant, that of the call included.
abbrev pub Polite : ℕ → ℕ → ℕ → (ℕ → ℕ) → (ℕ → Parsec → Parsec) → Type 0
Polite m n c clock others =
    (k t : ℕ) (p : Parsec) (f : Frame)
    → k < m
    → t ≤ clock k
    → Timely n t p
    → FrameOk n t p f
    → f.cpu ≡ c
    → Timely n (clock k) (others k p) × FrameOk n (clock k) (others k p) f

-- A return with a time of quiescence
pub record Quiesced (n c : ℕ) (o : Outcome) : Type 0 where
  pub now : ℕ
  pub ps : Parsec
  pub ret : Ret
  pub qsc : ℕ
  pub returns : o ≡ returned ps ret qsc
  pub timely : Timely n now ps
  pub known : qsc ≤ (timing_of ps c).last_known_quiescence

clock-lt : (m : ℕ) (clock : ℕ → ℕ) → Ticks m clock → (k : ℕ) → k < m → clock k < max_tsc
clock-lt m clock t zero h = t.fits
clock-lt m clock t (suc k) h = omega (arith, t.grows k h, clock-lt m clock t k (omega arith))

pred_two : (n j : ℕ) → 2 * n ≡ suc j → 2 * n - 1 ≡ j
pred_two n j e = omega arith

-- Nothing happens between two rounds.
pub alone-Polite : (m n c : ℕ) (clock : ℕ → ℕ) → Ticks m clock → Polite m n c clock (λ k p. p)
alone-Polite m n c clock ticks k t p f h le timely ok here = (
  Timely-mono (clock k) timely le (omega (arith, clock-lt m clock ticks k h)),
  FrameOk-mono (clock k) ok (Advances-refl c p) le,
)

abbrev Fine : ℕ → ℕ → ℕ → Outcome → Type 0
Fine n t c (running p f) = Timely n t p × FrameOk n t p f × (f.cpu ≡ c)
Fine n t c (returned p r q) = Timely n t p × (q ≤ (timing_of p c).last_known_quiescence)
Fine n t c aborted = ⊥

Good-Fine : (n t c : ℕ) (ps : Parsec) (o : Outcome) → Good n t c ps o → Fine n t c o
Good-Fine n t c ps (running p f) g = (g.0, g.2, g.3)
Good-Fine n t c ps (returned p r q) g = (g.0, g.2)
Good-Fine n t c ps aborted g = g

module _ {n c : ℕ} (lt : c < n) (clock : ℕ → ℕ) (others : ℕ → Parsec → Parsec) (m : ℕ)
    (ticks : Ticks m clock) (polite : Polite m n c clock others) where
  rounds-Quiesced :
      (k t : ℕ) (o : Outcome)
      → Fine n t c o
      → Within n k o
      → ((j : ℕ) → k ≡ suc j → t ≤ clock j)
      → k ≤ m
      → Quiesced n c (rounds k n clock others o)
  unfolding rounds
  rounds-Quiesced zero t (running p f) fine w ready le = absurd (omega arith)
  rounds-Quiesced (suc k) t (running p f) (timely, ok, here) w ready le =
      let (timely', ok') = polite k t p f le (ready k refl) timely ok here in
      rounds-Quiesced k (clock k + 1) (quiesce_step n (clock k) (others k p) f)
        (Good-Fine n (clock k + 1) c (others k p) _ (
          subst (λ d. Good n (clock k + 1) d (others k p) (quiesce_step n (clock k) (others k p) f))
            here (step-Good timely' ok' (rw here lt) (clock-lt m clock ticks k le))))
        (step-Within n k (clock k) (others k p) f w.0 w.1)
        (λ j e. rw e (omega (arith, ticks.grows j (rw (← e) le)))) (omega arith)
  rounds-Quiesced zero t (returned p r q) (timely, known) w ready le = record {
    now = t;
    ps = p;
    ret = r;
    qsc = q;
    returns = refl;
    timely = timely;
    known = known;
  }
  rounds-Quiesced (suc k) t (returned p r q) (timely, known) w ready le = record {
    now = t;
    ps = p;
    ret = r;
    qsc = q;
    returns = refl;
    timely = timely;
    known = known;
  }
  rounds-Quiesced k t aborted fine w ready le = absurd fine

module _ {n c : ℕ} (lt : c < n) (clock : ℕ → ℕ) (others : ℕ → Parsec → Parsec)
    (ticks : Ticks (2 * n) clock) (polite : Polite (2 * n) n c clock others) where
  -- If the counter goes on and the other cores keep the invariant between its rounds, a call of
  -- `ps_try_quiesce` returns, no `assert` fails, and `*qsc` is at most the last known quiescence,
  -- before which no section that is open on any core was entered.
  pub try_quiesce-Quiesced :
      (ps : Parsec) (now tsc : ℕ)
      → Timely n now ps
      → now ≤ clock (2 * n - 1)
      → Quiesced n c (ps_try_quiesce n clock others ps c tsc)
  unfolding ps_try_quiesce
  try_quiesce-Quiesced ps now tsc timely ready =
      rounds-Quiesced lt clock others (2 * n) ticks polite (2 * n) now (ps_quiesce ps c tsc false)
        (Good-Fine n now c ps _ (quiesce-Good timely c tsc false lt))
        (start-Within n ps c tsc (omega arith)) (λ j e. rw (pred_two n j e) at ready) (omega arith)

pub Quiesced-Quiescent : {n c : ℕ} {o : Outcome} (q : Quiesced n c o) → Quiescent n q.ps q.qsc
Quiesced-Quiescent {c} q j lt inside = omega (arith, q.known, q.timely.safe c j lt inside)
