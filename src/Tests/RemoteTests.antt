-- ===== src/Tests/RemoteTests.antt =====
-- A core whose remote lists hold one of the two objects of its slab.
use ps.Base.{ℕ, ◌≡◌, ◌<◌, refl, some, List, [], ◌∷◌, arith, true}
use ps.Memory.{State, slab_info_of}
use ps.Ring.Chain.{has}
use ps.Slab.Alloc.{slab_mem_remote_process, slab_mem_alloc}
use ps.Slab.Held.{HasCore, Held, Held-edit}
use ps.Slab.Remotes.{put2, RemoteOk, Swept}
use ps.Slab.Rounds.{Found, remote_process-Swept}
use ps.Slab.Serve.{Served, slab_mem_alloc-Served}
use ps.Smr.Safety.{OnlyAt-refl}
use ps.Tests.SlabTests.{params, one_slab, alone, two_objects, first_held, sizes, counts_back}

-- Object 8288 waits in the first list of the first node, and the next allocation is to look there.
abbrev waiting_one : State ℕ
waiting_one = record (one_slab 8192 alone 8352 1) {
  percore = λ c. record {
    slab_info = record { fl = 8192; salloccnt = 63; remote_token = 0; nslabs = 1 };
    smr_info = record {
      ps = 0;
      qsc_list = record { head = 0; tail = 0 };
      qmemcnt = 0;
      qmemtarget = 0;
    };
    slab_remote = put2 (λ j k. 0) 0 0 8288;
  };
}

abbrev one_list : ℕ → ℕ → List ℕ
one_list = put2 (λ j k. []) 0 0 (8288 ∷ [])

held : Held (params 224) two_objects waiting_one 8288
held =
    Held-edit (params 224) two_objects {st = one_slab 8192 alone 8352 1} 8288 first_held
      (OnlyAt-refl 8288 (one_slab 8192 alone 8352 1).headers)
      (record { same_slabs = refl; same_links = refl; same_fl = refl }) 8288 first_held

in_list : (j k c : ℕ) → has c (one_list j k) ≡ true → (c ≡ 8288) × (j ≡ 0) × (k ≡ 0)
in_list j k c i = ground arith

one_waits : RemoteOk (params 224) two_objects waiting_one one_list
one_waits = record {
  path = λ j k. ground arith;
  distinct = λ j k. ground arith;
  apart = λ j k l i c a b. let p = in_list j k c a in let q = in_list l i c b in ground arith;
  waiting = λ j k c i.
      let p = in_list j k c i in
      record { held = rw p.0 held; home = refl; unmarked = ground arith };
}

remote_process-Swept_example :
    (st' : State ℕ) × (left : ℕ → ℕ → List ℕ) × (slab_mem_remote_process 1 1
        (params 224)
        0
        0
        waiting_one
      ≡ some st')
    × Swept (params 224) two_objects waiting_one one_list st' left
    × ((slab_info_of st' 0).remote_token < 1)
    × Found (params 224) two_objects 0 0 sizes counts_back 1 1 0 one_list left
remote_process-Swept_example =
    remote_process-Swept (params 224) two_objects 0 0 sizes counts_back 1 1 (omega arith) one_waits
      (λ j k. ground arith)

waiting-HasCore : HasCore (params 224) two_objects waiting_one
waiting-HasCore = record { ss = held.ss; objs = held.objs; core = held.core }

slab_mem_alloc-Served_example :
    Served
      (params 224)
      two_objects
      0
      0
      sizes
      counts_back
      1
      1
      waiting_one
      one_list
      (slab_mem_alloc 1 1 (params 224) 0 0 waiting_one)
slab_mem_alloc-Served_example =
    slab_mem_alloc-Served (params 224) two_objects 0 0 sizes counts_back 1 1 (omega arith)
      waiting-HasCore (omega arith) one_waits (λ j k. ground arith)
