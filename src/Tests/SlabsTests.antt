-- ===== src/Tests/SlabsTests.antt =====
-- A parallel section's memory on a slab of two objects.
use ps.Base.{ℕ}
use ps.Memory.{State}
use ps.Slab.Held.{Held}
use ps.Tests.SlabTests.{one_slab, alone}

-- The memory belongs to the parallel section at 4096; nothing is queued.
abbrev in_section : State ℕ
in_section = record (one_slab 8192 alone 8352 1) {
  percore = λ c. record {
    slab_info = record { fl = 8192; salloccnt = 0; remote_token = 0; nslabs = 1 };
    smr_info = record {
      ps = 4096;
      qsc_list = record { head = 0; tail = 0 };
      qmemcnt = 0;
      qmemtarget = 128;
    };
    slab_remote = λ j i. 0;
  };
}
