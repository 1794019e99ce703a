-- ===== src/Tests/ParsecTests.antt =====
-- Runs of ps_smr.c's quiescence, and its theorems at them.
use ps.Base.{Bool, ℕ, ◌-◌, ◌≤◌, ◌<◌, ◌≡◌, ◌≢◌, refl, true, false, arith, List, [], ◌∷◌}
use ps.Parsec.{timing_of, cached, ps_in_lib, ps_enter, ps_exit, ps_init}
use ps.Parsec.Quiesce.{
  max_tsc, success, Frame, ps_quiesce, quiesce_step, recheck, quiesce_finish, cap_min, core_done,
  lower_min, ps_timing_update_remote,
}
use ps.Parsec.System.{got, crashed, after}
use ps.Parsec.Invariant.Defs.{Quiescent, InLib, FrameOk}
use ps.Parsec.Progress.{Ended, ps_try_quiesce, try_quiesce-Ended}
use ps.Parsec.Race.{remote_load, remote_stamp, late_stamp}
use ps.Parsec.Results.{success-known, Later, begun, again, Returns, call-Returns}
use ps.Parsec.Safety.{Reach-Inv, qsc-Quiescent, no_assert_fails}
use ps.Parsec.Single.{single-qsc-le}
use ps.Tests.Schedule.{Action, into, out_of, quiesce, go, Run, run}

-- Opens what a run computes with.
run_all : ℕ
unfolding run after ps_quiesce quiesce_step recheck quiesce_finish cap_min core_done lower_min
    ps_timing_update_remote ps_init ps_enter ps_exit ps_in_lib
run_all = 0

-- Core 1 enters at 101 and leaves, core 2 enters at 102, core 0 asks for 101.
abbrev asked : List Action
asked = into 1 ∷ out_of 1 ∷ into 2 ∷ quiesce 0 101 ∷ go 0 ∷ go 0 ∷ go 0 ∷ go 0 ∷ []

abbrev last_round : Run 3 100
last_round = run 3 100 asked

abbrev three_cores : Run 3 100
three_cores =
    run 3 100 (into 1 ∷ out_of 1 ∷ into 2 ∷ quiesce 0 101 ∷ go 0 ∷ go 0 ∷ go 0 ∷ go 0 ∷ go 0 ∷ [])

three_cores_got : three_cores.pc 0 ≡ got success 102
unfolding run_all
three_cores_got = refl

qsc-Quiescent_example : Quiescent 3 three_cores.ps 102
qsc-Quiescent_example = qsc-Quiescent 0 success 102 (omega arith) three_cores.reach three_cores_got

no_assert_fails_example : three_cores.pc 0 ≢ crashed
no_assert_fails_example = no_assert_fails (omega arith) three_cores.reach 0

try_quiesce-Ended_example : Ended (ps_try_quiesce 3 (λ k. 200 - k) (λ k ps. ps) (ps_init 100) 0 150)
try_quiesce-Ended_example =
    try_quiesce-Ended 3 (λ k. 200 - k) (λ k ps. ps) (ps_init 100) 0 150 (omega arith)

-- The frame of core 0 in front of its last round
abbrev last_frame : Frame
last_frame = record {
  cpu = 0;
  time_check = 101;
  blocking = false;
  inlib_curr = false;
  i = 3;
  first_try = true;
  min_known_qsc = 102;
  qsc = 100;
}

last_frame-FrameOk : FrameOk 3 last_round.now last_round.ps last_frame
unfolding run_all
last_frame-FrameOk = ((Reach-Inv (omega arith) last_round.reach).frames 0 last_frame refl).1

success-known_example : 101 ≤ (timing_of three_cores.ps 0).last_known_quiescence
unfolding run_all
success-known_example = success-known three_cores.ps 102 last_frame-FrameOk (omega arith) refl

-- Core 1 has learnt of 102.
abbrev before_call : Run 3 100
before_call = run 3 100 (into 2 ∷ out_of 2 ∷ quiesce 1 101 ∷ go 1 ∷ go 1 ∷ go 1 ∷ go 1 ∷ go 1 ∷ [])

-- Core 0, which has not, asks for 101 and looks at core 1.
abbrev helped : Run 3 100
helped = run 3 100 (
    into 2
    ∷ out_of 2
    ∷ quiesce 1 101
    ∷ go 1
    ∷ go 1
    ∷ go 1
    ∷ go 1
    ∷ go 1
    ∷ quiesce 0 101
    ∷ go 0
    ∷ [])

abbrev asking_frame : (first_try : Bool) → Frame
asking_frame first_try = record {
  cpu = 0;
  time_check = 101;
  blocking = false;
  inlib_curr = false;
  i = 1;
  first_try = first_try;
  min_known_qsc = max_tsc;
  qsc = 100;
}

asked_round : Later 3 (asking_frame true) (asking_frame false)
unfolding run_all
asked_round = again before_call.now before_call.ps helped.ps begun refl

-- 101 was asked for, core 0 knows of 102, 0 is returned, and `*qsc` is 100.
call-Returns_example : Returns 3 0 101 100 1 helped.ps helped.ps success 100
unfolding run_all
call-Returns_example =
    call-Returns before_call.ps 0 101 false {p₀ = before_call.ps} helped.now helped.ps helped.ps
      success 100 refl asked_round refl

abbrev one_core : Run 1 100
one_core = run 1 100 (into 0 ∷ out_of 0 ∷ quiesce 0 101 ∷ go 0 ∷ [])

single-qsc-le_example : 100 ≤ 100
unfolding run_all
single-qsc-le_example = single-qsc-le 0 success 100 (omega arith) one_core.reach refl

late_stamp_example :
    let qs = remote_stamp (ps_enter (remote_load (ps_init 100) 0 1) 1 110) 0 1 130 in
    InLib (timing_of qs 1)
    × ((timing_of qs 1).time_in < 120)
    × (core_done 120 (cached qs 0 1) ≡ true)
    × (lower_min max_tsc (cached qs 0 1) ≡ 130)
unfolding ps_init
late_stamp_example =
    late_stamp (ps_init 100) 0 1 110 120 130 max_tsc (omega arith) (omega arith) (omega arith)
      (omega arith) (omega arith) (omega arith)
