-- ===== src/Tests/PlatTests.antt =====
-- The processor's report and the set-up of a thread, run.
use ps.Base.{if◌then◌else◌, ℕ, ◌≡◌, refl, arith, true, false}
use ps.Plat.{ps_tsc, ps_tsc_locality, ps_coreid}
use ps.Plat.Processor.{reported, ps_tsc_locality-reported}
use ps.Plat.Setup.{
  undefined, exited, returned, Calls, Constants, identity_mapping, pin, thd_set_affinity,
}

ps_tsc_locality-reported_example :
    ((ps_tsc_locality (reported 10000000007 3 1)).tsc ≡ 10000000007)
    × ((ps_tsc_locality (reported 10000000007 3 1)).coreid ≡ 3)
    × ((ps_tsc_locality (reported 10000000007 3 1)).numaid ≡ 1)
    × (ps_tsc (reported 10000000007 3 1) ≡ 10000000007)
    × (ps_coreid 4 (reported 10000000007 3 1) ≡ 3)
ps_tsc_locality-reported_example =
    ps_tsc_locality-reported 10000000007 3 1 (omega arith) (omega arith) (omega arith) 4
      (omega arith)

-- A system of 4 cores whose state is the core that runs
abbrev quad : Calls ℕ
quad = record {
  getrlimit = λ s id. false;
  setrlimit = λ s id cur max. (false, s);
  sched_getparam = λ s. (false, 99);
  sched_get_priority_max = λ policy. 99;
  sched_setscheduler = λ s policy priority. (false, s);
  pthread_setaffinity_np = λ s tid set. if set 2 then (false, 2) else (true, s);
  rdtscp = λ s. reported 5 s 0;
}

abbrev numbers : Constants
numbers = record {
  rlimit_cpu = 0;
  rlimit_rttime = 15;
  rlimit_rtprio = 14;
  rlimit_nice = 13;
  rlim_infinity = 1000;
  sched_rr = 2;
}

moves_to_core : thd_set_affinity quad numbers 0 identity_mapping 7 2 ≡ returned 2
unfolding thd_set_affinity identity_mapping pin ps_tsc_locality
moves_to_core = refl

no_such_core : thd_set_affinity quad numbers 0 identity_mapping 7 4 ≡ exited
unfolding thd_set_affinity identity_mapping pin
no_such_core = refl

no_such_number : thd_set_affinity quad numbers 0 identity_mapping 7 13 ≡ undefined
unfolding thd_set_affinity identity_mapping
no_such_number = refl
