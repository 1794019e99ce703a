-- ===== src/Tests/SmrTests.antt =====
-- Runs of the queue and of ps_smr.c's reclamation, and their theorems at them.
use ps.Base.{ℕ, ◌+◌, ◌-◌, refl, some, [], ◌∷◌, arith, update}
use ps.Header.{Headers, ps_mhead_get}
use ps.Memory.{State, FreeFn}
use ps.Parsec.{ps_init}
use ps.Parsec.Call.{Ticks, Polite, Quiesced, alone-Polite, try_quiesce-Quiesced}
use ps.Parsec.Invariant.Section.{init-Timely}
use ps.Parsec.Progress.{ps_try_quiesce}
use ps.Queue.{QscList}
use ps.Queue.Fifo.{IsQueue}
use ps.Smr.{reclaim_loop, enqueue_freed}
use ps.Smr.Defs.{FreeSpec, QueueOk}
use ps.Smr.Free.{Owned, Queues, enqueue_freed-Queues}
use ps.Smr.Reclaim.{Reclaimed, reclaim_loop-Reclaimed}

-- Headers 1000 and 2000 are queued, freed at 110 and 120.
abbrev pub freed_headers : Headers
freed_headers = record {
  tsc_free = update (update (λ a. 0) 1000 110) 2000 120;
  slab = λ a. 8192;
  next = update (λ a. 0) 1000 2000;
}

abbrev two_freed : QscList
two_freed = record { head = 1000; tail = 2000 }

two_freed-IsQueue : IsQueue freed_headers two_freed (1000 ∷ 2000 ∷ [])
two_freed-IsQueue = record {
  path = (refl, omega arith, (refl, omega arith, refl));
  distinct = (refl, (refl, tt));
  at_end = refl;
}

-- A client that counts what it is handed
abbrev counting : FreeFn ℕ
counting st s sz curr = some (record st { env = st.env + 1 })

abbrev counting-FreeSpec : FreeSpec counting 0
counting-FreeSpec = record {
  Live = λ st h. Unit;
  edit = λ st st' x l only same h m. tt;
  frees = λ st x l e. (
    record st { env = st.env + 1 },
    refl,
    record { same_slab = refl; same_next = λ c ne. refl; same_tsc = λ c ne. refl },
    refl,
    refl,
    λ h ne m. tt,
  );
}

abbrev pub queued : Headers → QscList → ℕ → State ℕ
queued hs ql n = record {
  headers = hs;
  slabs = record {
    memory = λ a. 0;
    start = λ a. 0;
    end = λ a. 0;
    memsz = λ a. 0;
    coreid = λ a. 0;
    freelist = λ a. 0;
    nfree = λ a. 0;
  };
  links = record { n = λ a. 0; p = λ a. 0 };
  parsecs = λ a. ps_init 100;
  percore = λ c. record {
    slab_info = record { fl = 0; salloccnt = 0; remote_token = 0; nslabs = 0 };
    smr_info = record { ps = 4096; qsc_list = ql; qmemcnt = n; qmemtarget = 128 };
    slab_remote = λ j i. 0;
  };
  env = 0;
}

two_queued : QueueOk counting-FreeSpec (queued freed_headers two_freed 2) (1000 ∷ 2000 ∷ [])
two_queued = record {
  queue = two_freed-IsQueue;
  count = refl;
  fits = omega arith;
  marked = λ c i. ground arith;
  live = λ c i. tt;
}

-- At a quiescence of 115 the first object is handed over, and the second is not.
reclaim_loop-Reclaimed_example :
    Reclaimed counting-FreeSpec 2 115
      (queued freed_headers two_freed 2)
      (1000 ∷ 2000 ∷ [])
      (reclaim_loop 2 counting 0 115 (queued freed_headers two_freed 2))
reclaim_loop-Reclaimed_example =
    reclaim_loop-Reclaimed counting-FreeSpec 2 115 (1000 ∷ 2000 ∷ []) two_queued (omega arith)

owned :
    Owned counting-FreeSpec
      (queued freed_headers two_freed 2)
      (1000 ∷ 2000 ∷ [])
      (ps_mhead_get 3024)
unfolding ps_mhead_get
owned = record { live = tt; not_null = omega arith; unqueued = refl; unlinked = refl }

enqueue_freed-Queues_example :
    Queues counting-FreeSpec
      (queued freed_headers two_freed 2)
      (1000 ∷ 2000 ∷ [])
      (ps_mhead_get 3024)
      130
      (enqueue_freed 3024 0 130 (queued freed_headers two_freed 2))
enqueue_freed-Queues_example =
    enqueue_freed-Queues counting-FreeSpec (1000 ∷ 2000 ∷ []) 3024 130 two_queued owned
      (omega arith) (omega arith)

ticks : Ticks 4 (λ k. 200 - k)
ticks = record { grows = λ k h. omega arith; fits = omega arith }

alone : Polite 4 2 0 (λ k. 200 - k) (λ k p. p)
alone = alone-Polite 4 2 0 (λ k. 200 - k) ticks

try_quiesce-Quiesced_example :
    Quiesced 2 0 (ps_try_quiesce 2 (λ k. 200 - k) (λ k p. p) (ps_init 100) 0 150)
try_quiesce-Quiesced_example =
    try_quiesce-Quiesced (omega arith) (λ k. 200 - k) (λ k p. p) ticks alone (ps_init 100) 101 150
      (init-Timely 2 100 (omega arith)) (omega arith)
