-- ===== src/Plat/Setup.antt =====
-- `set_prio` and `thd_set_affinity` (plat/os/linux/ps_os.c). The system's calls are parameters.
use ps.Base.{ℕ, Bool, ◌==◌, ltb, if◌then◌else◌, Option, some, none}
use ps.Plat.{Registers, ps_tsc_locality}

-- How a call ends: with a read outside of an array, with `exit(-1)`, with a failed assert, or with a new
-- state of the system
pub data Outcome (S : Type 0) : Type 0 where
  undefined : Outcome S
  exited : Outcome S
  aborted : Outcome S
  returned : S → Outcome S

-- The calls of the system. The first value that a call gives is its return value, as a test for failure;
-- `get_param` also gives the priority.
pub record Calls (S : Type 0) : Type 0 where
  pub getrlimit : S → (id : ℕ) → Bool
  pub setrlimit : S → (id cur max : ℕ) → Bool × S
  pub sched_getparam : S → Bool × ℕ
  pub sched_get_priority_max : (policy : ℕ) → ℕ
  pub sched_setscheduler : S → (policy priority : ℕ) → Bool × S
  pub pthread_setaffinity_np : S → (tid : ℕ) → (set : ℕ → Bool) → Bool × S
  pub rdtscp : S → Registers

-- The constants of the system's headers; `RLIMIT_RTTIME` is one of them.
pub record Constants : Type 0 where
  pub rlimit_cpu : ℕ
  pub rlimit_rttime : ℕ
  pub rlimit_rtprio : ℕ
  pub rlimit_nice : ℕ
  pub rlim_infinity : ℕ
  pub sched_rr : ℕ

-- The array of 13 numbers, and nothing beyond it
unfoldable pub identity_mapping : (id : ℕ) → Option ℕ
identity_mapping id = if ltb id 13 then some id else none

module _ {S : Type 0} (C : Calls S) (K : Constants) where
  unfoldable pub call_getrlimit : S → (id : ℕ) → Outcome S → Outcome S
  call_getrlimit s id rest = if C.getrlimit s id then exited else rest

  unfoldable pub call_setrlimit : S → (id c m : ℕ) → (S → Outcome S) → Outcome S
  call_setrlimit s id c m rest = let r = C.setrlimit s id c m in if r.0 then exited else rest r.1

  -- The end of `set_prio`, from the second `sched_getparam` on
  unfoldable pub check_prio : S → Outcome S
  check_prio s =
      let r = C.sched_getparam s in
      if r.0
      then exited
      else if r.1 == C.sched_get_priority_max K.sched_rr
      then returned s
      else aborted

  -- `set_prio` from the first `sched_getparam` on
  unfoldable pub raise_prio : S → Outcome S
  raise_prio s =
      if (C.sched_getparam s).0
      then exited
      else (let r = C.sched_setscheduler s K.sched_rr (C.sched_get_priority_max K.sched_rr) in
          if r.0 then exited else check_prio r.1)

  unfoldable pub set_prio : S → Outcome S
  set_prio s = call_getrlimit s K.rlimit_cpu (
      call_getrlimit s K.rlimit_rttime (
        call_getrlimit s K.rlimit_rtprio (
          call_setrlimit s K.rlimit_rtprio K.rlim_infinity K.rlim_infinity (λ s.
            call_getrlimit s K.rlimit_rtprio (call_getrlimit s K.rlimit_nice (raise_prio s))))))

  abbrev pub assigned : Option ℕ → (ℕ → Outcome S) → Outcome S
  assigned none rest = undefined
  assigned (some cpuid) rest = rest cpuid

  -- `thd_set_affinity` with `cpuid` read from `cpu_assign[id]`
  unfoldable pub pin : S → (tid cpuid : ℕ) → Outcome S
  pin s tid cpuid =
      let r = C.pthread_setaffinity_np s tid (λ k. k == cpuid) in
      if r.0
      then exited
      else if cpuid == (ps_tsc_locality (C.rdtscp r.1)).coreid
      then returned r.1
      else aborted

  unfoldable pub thd_set_affinity : S → (cpu_assign : ℕ → Option ℕ) → (tid id : ℕ) → Outcome S
  thd_set_affinity s cpu_assign tid id = assigned (cpu_assign id) (pin s tid)
