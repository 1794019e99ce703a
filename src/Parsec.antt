-- ===== src/Parsec.antt =====
-- The parallel sections of ps_smr.h and ps_smr.c: their time stamps, and quiescence.
pub mod Progress
pub mod Quiesce
pub mod Race
pub mod Results
pub mod Call
pub mod Invariant
pub mod Safety
pub mod Single
pub mod System
use ps.Base.{ℕ, ◌+◌, ◌%◌, ◌^◌, Bool, leb, if◌then◌else◌, update}

-- `struct ps_quiescence_timing`
pub record Timing : Type 0 where
  pub time_in : ℕ
  pub time_out : ℕ
  pub last_known_quiescence : ℕ

-- `struct __ps_other_core`: what one core has cached of another one's time stamps
pub record OtherCore : Type 0 where
  pub time_in : ℕ
  pub time_out : ℕ
  pub time_updated : ℕ

-- `struct ps_smr_percore`
pub record SmrPercore : Type 0 where
  pub timing : Timing
  pub timing_others : ℕ → OtherCore

-- `struct parsec`; the arrays have one entry for each core
pub record Parsec : Type 0 where
  pub refcnt : ℕ
  pub timing_info : ℕ → SmrPercore

abbrev pub timing_of : Parsec → ℕ → Timing
timing_of ps c = (ps.timing_info c).timing

abbrev pub cached : Parsec → ℕ → ℕ → OtherCore
cached ps c j = (ps.timing_info c).timing_others j

abbrev pub set_timing : Parsec → ℕ → Timing → Parsec
set_timing ps c t = record ps {
  timing_info = update ps.timing_info c (record (ps.timing_info c) { timing = t });
}

-- `__ps_in_lib`
unfoldable pub ps_in_lib : Timing → Bool
ps_in_lib t = leb t.time_out t.time_in

-- `ps_enter` on core `cpu`, where the counter reads `now`
unfoldable pub ps_enter : Parsec → ℕ → ℕ → Parsec
ps_enter ps cpu now = set_timing ps cpu (record (timing_of ps cpu) { time_in = now })

-- `ps_exit` on core `cpu`; a `ps_tsc_t` has 64 bits
unfoldable pub ps_exit : Parsec → ℕ → Parsec
ps_exit ps cpu =
    set_timing ps cpu
      (record (timing_of ps cpu) { time_out = ((timing_of ps cpu).time_in + 1) % 2 ^ 64 })

abbrev pub init_core : ℕ → SmrPercore
init_core now = record {
  timing = record { time_in = now; time_out = (now + 1) % 2 ^ 64; last_known_quiescence = now };
  timing_others = λ j. record { time_in = now; time_out = (now + 1) % 2 ^ 64; time_updated = now };
}

-- `ps_init`, where the counter reads `now`. The loops write every entry of the arrays.
unfoldable pub ps_init : ℕ → Parsec
ps_init now = record { refcnt = 0; timing_info = λ i. init_core now }
