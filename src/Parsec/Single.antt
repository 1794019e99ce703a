-- ===== src/Parsec/Single.antt =====
-- A system with one core: `PS_NUMCORES` is 1.
use ps.Base.{ℕ, ◌≤◌, ◌<◌, ◌≡◌, refl, arith, ◌∙◌, Bool}
use ps.Parsec.{Parsec, timing_of, ps_init}
use ps.Parsec.Quiesce.{
  max_tsc, Frame, returned, Ret, success, ps_quiesce, quiesce_finish, quiesce_step,
}
use ps.Parsec.System.{
  System, after, Step, tick, enter, leave, call, round, resume, Reach, start, later, got,
}
use ps.Parsec.Invariant.Defs.{FrameOk, Inv}
use ps.Parsec.Safety.{Reach-Inv, enter_known, exit_known}

-- With one core the loop has no round, and nothing is learnt.
alone :
    {now : ℕ} {ps : Parsec} {f : Frame}
    → FrameOk 1 now ps f
    → quiesce_step 1 now ps f ≡ returned ps success f.qsc
unfolding quiesce_step quiesce_finish
alone ok = ground (arith, ok.low)

abbrev Unlearnt : ℕ → Parsec → Type 0
Unlearnt t ps = (c : ℕ) → (timing_of ps c).last_known_quiescence ≡ t

call-Unlearnt :
    (t now c tsc : ℕ) (s : System) (blocking : Bool)
    → Unlearnt t s.ps
    → Unlearnt t (after now c s (ps_quiesce s.ps c tsc blocking)).ps
unfolding ps_quiesce after
call-Unlearnt t now c tsc s blocking h d = ground (arith, h d)

Step-Unlearnt : {t : ℕ} {s u : System} → Inv 1 s → Unlearnt t s.ps → Step 1 s u → Unlearnt t u.ps
unfolding after
Step-Unlearnt inv h (tick d le) = h
Step-Unlearnt {s} inv h (enter c lt free out small) = λ d. enter_known s.ps c s.now d ∙ h d
Step-Unlearnt {s} inv h (leave c lt free inside) = λ d. exit_known s.ps c d ∙ h d
Step-Unlearnt {t} {s} inv h (call c tsc blocking lt free) = call-Unlearnt t s.now c tsc s blocking h
Step-Unlearnt {t} {s} inv h (round c f lt e small) =
    let (here, ok) = inv.frames c f e in rw (alone ok) h
Step-Unlearnt inv h (resume c r q lt e) = h

Reach-Unlearnt : {t : ℕ} {s : System} → t < max_tsc → Reach 1 t s → Unlearnt t s.ps
unfolding ps_init
Reach-Unlearnt small start c = refl
Reach-Unlearnt small (later r st) c =
    Step-Unlearnt (Reach-Inv small r) (Reach-Unlearnt small r) st c

-- With `PS_NUMCORES` equal to 1, quiescence never gets past the time of `ps_init`: in every
-- reachable state the `*qsc` that `ps_quiesce` hands back is at most that time.
pub single-qsc-le :
    {t : ℕ} {s : System} (c : ℕ) (r : Ret) (q : ℕ)
    → t < max_tsc
    → Reach 1 t s
    → s.pc c ≡ got r q
    → q ≤ t
single-qsc-le c r q small reach e =
    omega (arith, (Reach-Inv small reach).gots c r q e, Reach-Unlearnt small reach c)
