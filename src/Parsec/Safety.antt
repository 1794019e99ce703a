-- ===== src/Parsec/Safety.antt =====
-- What holds however the cores of a `struct parsec` are interleaved.
use ps.Base.{ℕ, ◌+◌, ◌≤◌, ◌<◌, ◌≡◌, ◌≢◌, sym, ◌∙◌, subst, arith}
use native.Mathlib.Decide.{ℕ_discrete}
use ps.Parsec.{Parsec, timing_of, ps_enter, ps_exit}
use ps.Parsec.Quiesce.{
  max_tsc, Ret, Frame, Outcome, running, returned, aborted, ps_quiesce, quiesce_step,
}
use ps.Parsec.System.{
  idle, quiescing, got, crashed, System, after, Step, tick, enter, leave, call, round, resume,
  Reach, start, later,
}
use ps.Parsec.Invariant.Defs.{Quiescent, FrameOk, Advances, Inv}
use ps.Parsec.Invariant.Round.{quiesce-Good, step-Good}
use ps.Parsec.Invariant.Time.{Good, Advances-refl, Timely-mono, FrameOk-mono}
use ps.Parsec.Invariant.Section.{
  enter-Timely, enter-FrameOk, exit-Timely, exit-FrameOk, init-Timely,
}

kept-frame :
    {n t c : ℕ} {s : System} {p : Parsec}
    → Inv n s
    → Advances c s.ps p
    → s.now ≤ t
    → (d : ℕ) (g : Frame) → s.pc d ≡ quiescing g
    → (g.cpu ≡ d) × FrameOk n t p g
kept-frame {t} inv adv le d g e =
    let (here, ok) = inv.frames d g e in (here, FrameOk-mono t ok adv le)

-- A good outcome on core `c` keeps the invariant of the system.
after-Inv :
    {n : ℕ} {s : System} (t c : ℕ) (o : Outcome)
    → Inv n s
    → s.now ≤ t
    → Good n t c s.ps o
    → Inv n (after t c s o)
unfolding after
after-Inv {s} t c (running p f) inv le (timely, adv, ok, here) = record {
  timely = timely;
  frames = λ d g e. elim (ℕ_discrete d c) [
    | yes same ↦ let e' : f ≡ g = ground arith in rw (← e') (ground arith, ok)
    | no ne ↦ kept-frame inv adv le d g (ground arith)
  ];
  gots = λ d r q e. ground (arith, inv.gots d r q, adv.grows d);
  alive = λ d e. ground (arith, inv.alive d);
}
after-Inv {s} t c (returned p r q) inv le (timely, adv, small) = record {
  timely = timely;
  frames = λ d g e. kept-frame inv adv le d g (ground arith);
  gots = λ d r q e. ground (arith, inv.gots d r q, adv.grows d);
  alive = λ d e. ground (arith, inv.alive d);
}
after-Inv t c aborted inv le bad = absurd bad

-- A busy core is not the one that acts.
busy : (s : System) {c d : ℕ} {g : Frame} → s.pc c ≡ idle → s.pc d ≡ quiescing g → d ≢ c
busy s i q e = cc

pub enter_known :
    (ps : Parsec) (c now d : ℕ)
    → (timing_of (ps_enter ps c now) d).last_known_quiescence
      ≡ (timing_of ps d).last_known_quiescence
unfolding ps_enter
enter_known ps c now d = ground arith

pub exit_known :
    (ps : Parsec) (c d : ℕ)
    → (timing_of (ps_exit ps c) d).last_known_quiescence ≡ (timing_of ps d).last_known_quiescence
unfolding ps_exit
exit_known ps c d = ground arith

pub Step-Inv : {n : ℕ} {s u : System} → Inv n s → Step n s u → Inv n u
Step-Inv {s} inv (tick d le) = record {
  timely = Timely-mono (s.now + d) inv.timely (omega arith) le;
  frames = kept-frame inv (Advances-refl 0 s.ps) (omega arith);
  gots = inv.gots;
  alive = inv.alive;
}
Step-Inv {s} inv (enter c lt free out small) = record {
  timely = enter-Timely inv.timely c small;
  frames = λ d g e.
      let (here, ok) = inv.frames d g e in
      (here, enter-FrameOk inv.timely c ok (λ same. busy s free e (sym here ∙ same)));
  gots = λ d r q e. rw (enter_known s.ps c s.now d) (inv.gots d r q e);
  alive = inv.alive;
}
Step-Inv {s} inv (leave c lt free in_lib) = record {
  timely = exit-Timely inv.timely c;
  frames = λ d g e.
      let (here, ok) = inv.frames d g e in
      (here, exit-FrameOk inv.timely c ok (λ same. busy s free e (sym here ∙ same)));
  gots = λ d r q e. rw (exit_known s.ps c d) (inv.gots d r q e);
  alive = inv.alive;
}
Step-Inv {s} inv (call c tsc blocking lt free) =
    after-Inv s.now c (ps_quiesce s.ps c tsc blocking) inv (omega arith)
      (quiesce-Good inv.timely c tsc blocking lt)
Step-Inv {n} {s} inv (round c f lt e small) =
    let (here, ok) = inv.frames c f e in
    after-Inv (s.now + 1) c (quiesce_step n s.now s.ps f) inv (omega arith) (
      subst (λ d. Good n (s.now + 1) d s.ps (quiesce_step n s.now s.ps f)) here
        (step-Good inv.timely ok (rw here lt) small))
Step-Inv inv (resume c r q lt e) = record {
  timely = inv.timely;
  frames = λ d g e'. inv.frames d g (ground arith);
  gots = λ d r' q' e'. inv.gots d r' q' (ground arith);
  alive = λ d e'. inv.alive d (ground arith);
}

pub Reach-Inv : {n t : ℕ} {s : System} → t < max_tsc → Reach n t s → Inv n s
Reach-Inv {n} {t} small start = record {
  timely = init-Timely n t small;
  frames = λ d g e. cc;
  gots = λ d r q e. cc;
  alive = λ d e. cc;
}
Reach-Inv small (later r st) = Step-Inv (Reach-Inv small r) st

-- In every interleaving of the cores in which a round of the loop of `ps_quiesce`, with its loads of the
-- other core's time stamps and its read of the counter, and a `ps_enter` or `ps_exit` are each one step,
-- the `*qsc` that `ps_quiesce` hands back on core `c` is a time of quiescence from that moment on: each
-- core of the system that is in a parallel section entered it at `*qsc` or later. The counter is below
-- its largest value when `ps_init` reads it. `Parsec.Race.late_stamp` shows what can happen in between
-- the accesses of a round.
pub qsc-Quiescent :
    {n t : ℕ} {s : System} (c : ℕ) (r : Ret) (q : ℕ)
    → t < max_tsc
    → Reach n t s
    → s.pc c ≡ got r q
    → Quiescent n s.ps q
qsc-Quiescent c r q small reach e j lt inside =
    omega (
      arith,
      (Reach-Inv small reach).gots c r q e,
      (Reach-Inv small reach).timely.safe c j lt inside,
    )

-- No `assert` of `ps_quiesce` fails on any core in any interleaving: it never looks at its own
-- core as a remote one, and the minimum over all cores is below the largest time stamp.
pub no_assert_fails :
    {n t : ℕ} {s : System} → t < max_tsc → Reach n t s → (c : ℕ) → s.pc c ≢ crashed
no_assert_fails small reach = (Reach-Inv small reach).alive
