-- ===== src/Parsec/Race.antt =====
-- `__ps_timing_update_remote` reads the counter behind the stamps of the remote core. The rest of
-- the development takes the two reads as one step; here they are two.
use ps.Base.{ℕ, ◌≤◌, ◌<◌, ◌≡◌, ◌≢◌, true, arith, update}
use ps.Parsec.{OtherCore, Parsec, timing_of, cached, ps_enter}
use ps.Parsec.Quiesce.{help, ps_timing_update_remote, core_done, lower_min}
use ps.Parsec.Invariant.Defs.{InLib}

abbrev pub set_cached : Parsec → ℕ → ℕ → OtherCore → Parsec
set_cached ps c r o = record ps {
  timing_info =
      update ps.timing_info c
        (record (ps.timing_info c) { timing_others = update (ps.timing_info c).timing_others r o });
}

-- The loads of `time_in` and `time_out`
pub remote_load : Parsec → ℕ → ℕ → Parsec
remote_load ps curr remote_cpu = set_cached ps curr remote_cpu (record (cached ps curr remote_cpu) {
  time_in = (timing_of ps remote_cpu).time_in;
  time_out = (timing_of ps remote_cpu).time_out;
})

-- The read of the counter, and what follows it
pub remote_stamp : Parsec → ℕ → ℕ → ℕ → Parsec
remote_stamp ps curr remote_cpu now = record ps {
  timing_info = update ps.timing_info curr (record {
    timing = help (timing_of ps curr) (timing_of ps remote_cpu);
    timing_others =
        update (ps.timing_info curr).timing_others remote_cpu
          (record (cached ps curr remote_cpu) { time_updated = now });
  });
}

-- With nothing between them, the two steps are the one of the rest of the development.
remote_split :
    (ps : Parsec) (c r now : ℕ) (d : ℕ)
    → (timing_of (remote_stamp (remote_load ps c r) c r now) d
        ≡ timing_of (ps_timing_update_remote ps c r now) d)
      × ((j : ℕ)
          → cached (remote_stamp (remote_load ps c r) c r now) d j
            ≡ cached (ps_timing_update_remote ps c r now) d j)
unfolding remote_load remote_stamp ps_timing_update_remote
remote_split ps c r now d = (ground arith, λ j. ground arith)

-- If the remote core is outside at the loads, and enters a section at `t` before the counter reads
-- `now`, then memory that is freed at a time between `t` and `now` counts as quiescent on that core,
-- up to `now`, although the section, which began before the free, is still open.
pub late_stamp :
    (ps : Parsec) (c r t tsc now min : ℕ)
    → r ≢ c
    → (timing_of ps r).time_in < (timing_of ps r).time_out
    → (timing_of ps r).time_out ≤ t
    → t < tsc
    → tsc < now
    → now < min
    → let qs = remote_stamp (ps_enter (remote_load ps c r) r t) c r now in
      InLib (timing_of qs r)
      × ((timing_of qs r).time_in < tsc)
      × (core_done tsc (cached qs c r) ≡ true)
      × (lower_min min (cached qs c r) ≡ now)
unfolding remote_load remote_stamp ps_enter core_done lower_min
late_stamp ps c r t tsc now min ne out le lt₁ lt₂ lt₃ = ground arith
