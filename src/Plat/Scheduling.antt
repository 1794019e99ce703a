-- ===== src/Plat/Scheduling.antt =====
-- What `set_prio` and `thd_set_affinity` (plat/os/linux/ps_os.c) reach.
use ps.Base.{ℕ, ◌<◌, ◌≡◌, false, ◌==◌, ==_self, lt→ltb, Bool-cases, inl, inr}
use ps.Plat.{ps_tsc_locality}
use ps.Plat.Setup.{
  Outcome, undefined, exited, aborted, returned, Calls, Constants, identity_mapping, call_getrlimit,
  call_setrlimit, check_prio, raise_prio, set_prio, pin, thd_set_affinity,
}

-- What a call may do: end the program with `exit(-1)`, or return in a state that satisfies `P`. It fails no
-- assert and reads no array out of its bounds.
abbrev pub Ends : {S : Type 0} → Outcome S → (S → Type 0) → Type 0
Ends undefined P = ⊥
Ends exited P = Unit
Ends aborted P = ⊥
Ends (returned s) P = P s

module _ {S : Type 0} (C : Calls S) (K : Constants) where
  -- What the system documents: after `sched_setscheduler` has succeeded, `sched_getparam` gives the
  -- priority that was set, and the policy is the one that was set.
  pub record Scheduled (policy : S → ℕ) : Type 0 where
    pub sets_priority :
        (s : S) (p k : ℕ)
        → (C.sched_setscheduler s p k).0 ≡ false
        → (C.sched_getparam (C.sched_setscheduler s p k).1).1 ≡ k
    pub sets_policy :
        (s : S) (p k : ℕ)
        → (C.sched_setscheduler s p k).0 ≡ false
        → policy (C.sched_setscheduler s p k).1 ≡ p

  getrlimit-Ends :
      (s : S) (id : ℕ) (rest : Outcome S) (P : S → Type 0)
      → Ends rest P
      → Ends (call_getrlimit C K s id rest) P
  unfolding call_getrlimit
  getrlimit-Ends s id rest P e = elim (Bool-cases (C.getrlimit s id)) [
    | inl fails ↦ rw fails tt
    | inr works ↦ rw works e
  ]

  setrlimit-Ends :
      (s : S) (id c m : ℕ) (rest : S → Outcome S) (P : S → Type 0)
      → ((s' : S) → Ends (rest s') P)
      → Ends (call_setrlimit C K s id c m rest) P
  unfolding call_setrlimit
  setrlimit-Ends s id c m rest P e = elim (Bool-cases (C.setrlimit s id c m).0) [
    | inl fails ↦ rw fails tt
    | inr works ↦ rw works (e (C.setrlimit s id c m).1)
  ]

  -- The policy and the priority that `set_prio` is to reach
  abbrev pub RoundRobin : (policy : S → ℕ) → S → Type 0
  RoundRobin policy s =
      (policy s ≡ K.sched_rr) × ((C.sched_getparam s).1 ≡ C.sched_get_priority_max K.sched_rr)

  module _ {policy : S → ℕ} (ok : Scheduled policy) where
    raise_prio-Ends : (s : S) → Ends (raise_prio C K s) (RoundRobin policy)
    unfolding raise_prio check_prio
    raise_prio-Ends s =
        let top = C.sched_get_priority_max K.sched_rr in
        let r = C.sched_setscheduler s K.sched_rr top in
        elim (Bool-cases (C.sched_getparam s).0) [
          | inl fails ↦ rw fails tt
          | inr first ↦ elim (Bool-cases r.0) [
            | inl fails ↦ rw (first, fails) tt
            | inr works ↦ elim (Bool-cases (C.sched_getparam r.1).0) [
              | inl fails ↦ rw (first, works, fails) tt
              | inr read ↦
                  let prio = ok.sets_priority s K.sched_rr top works in
                  rw (first, works, read, prio, ==_self top)
                    (ok.sets_policy s K.sched_rr top works, prio)
            ]
          ]
        ]

    -- If the system keeps to its documentation, `set_prio` ends with `exit(-1)` or returns with the thread
    -- under `SCHED_RR` at its highest priority: the assert at its end does not fail.
    pub set_prio-Ends : (s : S) → Ends (set_prio C K s) (RoundRobin policy)
    unfolding set_prio
    set_prio-Ends s = getrlimit-Ends s K.rlimit_cpu _ _ (
        getrlimit-Ends s K.rlimit_rttime _ _ (
          getrlimit-Ends s K.rlimit_rtprio _ _ (
            setrlimit-Ends s K.rlimit_rtprio K.rlim_infinity K.rlim_infinity _ _ (λ s'.
              getrlimit-Ends s' K.rlimit_rtprio _ _
                (getrlimit-Ends s' K.rlimit_nice _ _ (raise_prio-Ends s'))))))

  -- What the system documents: after `pthread_setaffinity_np` of the calling thread has succeeded with a set
  -- of one core, the thread runs there.
  pub Pinned : (tid : ℕ) → Type 0
  Pinned tid =
      (s : S) (k : ℕ)
      → (C.pthread_setaffinity_np s tid (λ j. j == k)).0 ≡ false
      → (ps_tsc_locality (C.rdtscp (C.pthread_setaffinity_np s tid (λ j. j == k)).1)).coreid ≡ k

  pub set_affinity-Ends :
      (tid : ℕ)
      → Pinned tid
      → (s : S) (id : ℕ) → id < 13
      → Ends
          (thd_set_affinity C K s identity_mapping tid id)
          (λ s'. (ps_tsc_locality (C.rdtscp s')).coreid ≡ id)
  unfolding thd_set_affinity identity_mapping pin Pinned
  set_affinity-Ends tid ok s id lt =
      rw (lt→ltb id 13 lt) (elim (Bool-cases (C.pthread_setaffinity_np s tid (λ k. k == id)).0) [
        | inl fails ↦ rw fails tt
        | inr works ↦ rw (works, ok s id works, ==_self id) (ok s id works)
      ])
