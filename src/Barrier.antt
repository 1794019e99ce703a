-- ===== src/Barrier.antt =====
-- The barrier of plat/os/linux/ps_os.c, under every interleaving of the cores.
pub mod Safety
pub mod Liveness
pub mod Progress
use ps.Base.{ℕ, suc, ◌+◌, ◌<◌, ltb, ◌==◌, if◌then◌else◌, update}

-- Where a core is in `meas_barrier`; `initval` is its local variable. `scanning k` is the loop of core 0
-- with its counter, `raising` is in front of the other cores' write, and `waiting` their loop.
pub data Pc : Type 0 where
  outside : Pc
  scanning : (k initval : ℕ) → Pc
  raising : (initval : ℕ) → Pc
  waiting : (initval : ℕ) → Pc

-- `flag i` is `thd_active[i].barrierval`; `calls i` counts the calls that core `i` has completed.
pub record Barrier : Type 0 where
  pub flag : ℕ → ℕ
  pub pc : ℕ → Pc
  pub calls : ℕ → ℕ

-- `!x`
abbrev pub lnot : ℕ → ℕ
lnot x = if x == 0 then 1 else 0

abbrev pub goto : Barrier → ℕ → Pc → Barrier
goto b i p = record b { pc = update b.pc i p }

abbrev pub write : Barrier → ℕ → ℕ → Barrier
write b i v = record b { flag = update b.flag i v }

abbrev pub leave : Barrier → ℕ → Barrier
leave b i = record (goto b i outside) { calls = update b.calls i (suc (b.calls i)) }

-- The next access of core `cpu` of `ncores` to the flags, from its place on; from outside it is the first
-- one of a call.
unfoldable pub access : (ncores : ℕ) → Barrier → (cpu : ℕ) → Pc → Barrier
access ncores b cpu outside =
    goto b cpu (if cpu == 0 then scanning 1 (b.flag cpu) else raising (b.flag cpu))
access ncores b cpu (scanning k initval) =
    if ltb k ncores
    then if b.flag k == initval then b else goto b cpu (scanning (suc k) initval)
    else leave (write b cpu (lnot initval)) cpu
access ncores b cpu (raising initval) = goto (write b cpu (lnot initval)) cpu (waiting initval)
access ncores b cpu (waiting initval) = if b.flag 0 == initval then b else leave b cpu

unfoldable pub meas_barrier : (ncores : ℕ) → Barrier → (cpu : ℕ) → Barrier
meas_barrier ncores b cpu = access ncores b cpu (b.pc cpu)

-- `thd_active` is zeroed, and every core outside.
abbrev pub started : Barrier
started = record { flag = λ i. 0; pc = λ i. outside; calls = λ i. 0 }

pub data Reach (ncores : ℕ) : Barrier → Type 0 where
  start : Reach ncores started
  step :
      {b : Barrier} (cpu : ℕ)
      → cpu < ncores
      → Reach ncores b
      → Reach ncores (meas_barrier ncores b cpu)
