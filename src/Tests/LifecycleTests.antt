-- ===== src/Tests/LifecycleTests.antt =====
-- Runs of the creation and deletion of memory with a parallel section, and their theorems at them.
use ps.Base.{ℕ, ◌≡◌, ◌↔◌, refl, some, true, false, arith}
use ps.Memory.{State}
use ps.Parsec.{ps_init}
use ps.Smr.Lifecycle.{PlatFree, ps_memptr_init, ps_memptr_delete, ps_free}
use ps.Smr.Lifecycle.Delete.{Empty, delete_iff, init-delete-free}
use ps.Tests.SmrTests.{queued, freed_headers}

abbrev no_queue : State ℕ
no_queue = queued freed_headers (record { head = 0; tail = 0 }) 0

delete_iff_example : ((ps_memptr_delete 4 1 no_queue).0 ≡ true) ↔ Empty 4 1 no_queue
delete_iff_example = delete_iff 4 1 no_queue (omega arith)

abbrev keep : PlatFree ℕ
keep st s sz c = st

set_up : (st' : State ℕ) × (ps_memptr_init 4 no_queue 4096 ≡ some st')
unfolding ps_memptr_init
set_up = (_, refl)

init-delete-free_example : (ps_free keep 2048 0 4096 (ps_memptr_delete 4 1 set_up.0).1).0 ≡ false
unfolding ps_init
init-delete-free_example =
    init-delete-free 4 1 keep 2048 0 4096 no_queue set_up.0 (omega arith) (omega arith) refl
      set_up.1
