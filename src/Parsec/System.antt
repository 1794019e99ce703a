-- ===== src/Parsec/System.antt =====
-- The cores of one `struct parsec`, interleaved in any order over one time stamp counter.
use ps.Base.{ℕ, ◌+◌, ◌≤◌, ◌<◌, ◌≡◌, Bool, true, false, update}
use ps.Parsec.{Parsec, timing_of, ps_in_lib, ps_enter, ps_exit, ps_init}
use ps.Parsec.Quiesce.{
  max_tsc, Ret, Frame, Outcome, running, returned, aborted, ps_quiesce, quiesce_step,
}

-- What a core is doing: user code, a call of `ps_quiesce`, its return, or a failed `assert`
pub data Pc : Type 0 where
  idle : Pc
  quiescing : Frame → Pc
  got : Ret → ℕ → Pc
  crashed : Pc

pub record System : Type 0 where
  pub now : ℕ
  pub ps : Parsec
  pub pc : ℕ → Pc

-- The outcome of a round on core `c`, which leaves the counter at `t`.
unfoldable pub after : ℕ → ℕ → System → Outcome → System
after t c s (running p f) = record { now = t; ps = p; pc = update s.pc c (quiescing f) }
after t c s (returned p r q) = record { now = t; ps = p; pc = update s.pc c (got r q) }
after t c s aborted = record { now = t; ps = s.ps; pc = update s.pc c crashed }

-- Every read of the counter gets a value of its own, below its largest one.
pub data Step (n : ℕ) (s : System) : System → Type 0 where
  tick : (d : ℕ) → s.now + d ≤ max_tsc → Step n s (record s { now = s.now + d })
  enter :
      (c : ℕ)
      → c < n
      → s.pc c ≡ idle
      → ps_in_lib (timing_of s.ps c) ≡ false
      → s.now < max_tsc
      → Step n s (record s { now = s.now + 1; ps = ps_enter s.ps c s.now })
  leave :
      (c : ℕ)
      → c < n
      → s.pc c ≡ idle
      → ps_in_lib (timing_of s.ps c) ≡ true
      → Step n s (record s { ps = ps_exit s.ps c })
  call :
      (c tsc : ℕ) (blocking : Bool)
      → c < n
      → s.pc c ≡ idle
      → Step n s (after s.now c s (ps_quiesce s.ps c tsc blocking))
  round :
      (c : ℕ) (f : Frame)
      → c < n
      → s.pc c ≡ quiescing f
      → s.now < max_tsc
      → Step n s (after (s.now + 1) c s (quiesce_step n s.now s.ps f))
  resume :
      (c : ℕ) (r : Ret) (q : ℕ)
      → c < n
      → s.pc c ≡ got r q
      → Step n s (record s { pc = update s.pc c idle })

-- Behind `ps_init`, which read the counter at `t`
abbrev pub initial : ℕ → System
initial t = record { now = t + 1; ps = ps_init t; pc = λ _. idle }

pub data Reach (n t : ℕ) : System → Type 0 where
  start : Reach n t (initial t)
  later : {s u : System} → Reach n t s → Step n s u → Reach n t u
