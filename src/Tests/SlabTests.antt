-- ===== src/Tests/SlabTests.antt =====
-- Runs of ps_slab.h and ps_slab.c, and their theorems at them.
use ps.Slab.Held.{Held}
use ps.Slab.Frees.{Released, Sizes, slab_mem_free-Released}
use ps.Slab.Released.{GivesBack}
use ps.Base.{
  inl, inr, ◌^◌, ◌%◌, ℕ, ◌+◌, ◌≡◌, ◌≢◌, ◌≤◌, ◌<◌, refl, some, List, [], ◌∷◌, arith, update, true,
}
use ps.Memory.{State, SmrInfo}
use ps.Header.{ps_mhead_get}
use ps.Parsec.{ps_init}
use ps.Ring.{Links, ps_list_ll_init}
use ps.Ring.Chain.{has}
use ps.Ring.Edit.{init-Ring}
use ps.Ring.Object.{node_of}
use ps.Slab.{slab_mem_free, SlabParams, list_off, slab_objmemsz, slab_max_nobjs, slab_init}
use ps.Slab.Checks.{slab_freelist_check, freelist_check-passes}
use ps.Slab.Core.{CoreOk}
use ps.Slab.Freelist.{Listed}
use ps.Slab.Init.{Fresh, slab_init-Fresh, objmemsz_lem}
use ps.Slab.Objects.{FreeObjects}
use ps.Word.{neg, ps_rndup, rndup_least}

rndup_least_example : (ps_rndup 43 8 % 8 ≡ 0) × (43 ≤ ps_rndup 43 8) × (ps_rndup 43 8 < 51)
rndup_least_example = rndup_least 43 (omega arith)

rndup_runs : ps_rndup 43 8 ≡ 48
unfolding ps_rndup neg
rndup_runs = refl

-- Slabs of `allocsz` bytes with their header in front, and slots of 64 bytes; freed slabs are counted.
abbrev pub params : ℕ → SlabParams ℕ
params allocsz = record {
  coreid = 0;
  obj_sz = 40;
  allocsz = allocsz;
  headoff = 96;
  afn = λ st sz curr. some (0, st);
  ffn = λ st s sz curr. some (record st { env = st.env + 1 });
}

abbrev no_smr : SmrInfo
no_smr = record { ps = 0; qsc_list = record { head = 0; tail = 0 }; qmemcnt = 0; qmemtarget = 0 }

-- One slab at 8192: the list `fl` of core 0, the links, the header of the first free object, the
-- number of free objects. Object 8352 is marked as free, all links are `NULL`.
abbrev pub one_slab : (fl : ℕ) → Links → (free n : ℕ) → State ℕ
one_slab fl k free n = record {
  headers = record { tsc_free = update (λ a. 0) 8352 1; slab = λ a. 8192; next = λ a. 0 };
  slabs = record {
    memory = λ a. 8192;
    start = λ a. 0;
    end = λ a. 0;
    memsz = λ a. 4096;
    coreid = λ a. 0;
    freelist = λ a. free;
    nfree = λ a. n;
  };
  links = k;
  parsecs = λ a. ps_init 100;
  percore = λ c. record {
    slab_info = record { fl = fl; salloccnt = 0; remote_token = 0; nslabs = 1 };
    smr_info = no_smr;
    slab_remote = λ j i. 0;
  };
  env = 0;
}

abbrev pub zeroed : Links
zeroed = record { n = λ a. 0; p = λ a. 0 }

abbrev pub alone : Links
alone = ps_list_ll_init zeroed (node_of 8192 list_off)

pub empty-Listed : (k : Links) → Listed k 0 []
empty-Listed k = record { head = refl; circle = tt; not_null = refl; fit = tt }

one-Listed : Listed alone 8192 (8192 ∷ [])
one-Listed = record {
  head = refl;
  circle = init-Ring zeroed (node_of 8192 list_off);
  not_null = refl;
  fit = (omega arith, tt);
}

-- A new slab of 4096 bytes
slab_init-Fresh_example :
    Fresh
      (params 4096)
      0
      8192
      (one_slab 0 zeroed 0 0)
      []
      (slab_init (params 4096) 0 8192 (one_slab 0 zeroed 0 0))
slab_init-Fresh_example =
    slab_init-Fresh (params 4096) 0 8192 (one_slab 0 zeroed 0 0) [] (omega arith)
      (omega (arith, objmemsz_lem 40 (omega arith))) (omega arith) (omega arith)
      (empty-Listed zeroed) (omega arith) (omega arith) refl (λ c i j. refl)

-- It has 62 objects.
fresh_runs : slab_max_nobjs 40 4096 96 ≡ 62
unfolding slab_max_nobjs slab_objmemsz ps_rndup neg
fresh_runs = refl

two_fit : 2 ≡ slab_max_nobjs 40 224 96 % 2 ^ 32
unfolding slab_max_nobjs slab_objmemsz ps_rndup neg
two_fit = refl

not_one : slab_max_nobjs 40 224 96 % 2 ^ 32 ≢ 1
unfolding slab_max_nobjs slab_objmemsz ps_rndup neg
not_one = omega arith

abbrev last_free : ℕ → List ℕ
last_free s = 8352 ∷ []

one_free : FreeObjects (one_slab 8192 alone 8352 1) 8192 (8352 ∷ [])
one_free = record {
  path = (refl, omega arith, refl);
  distinct = (refl, tt);
  count = refl;
  fits = omega arith;
  marked = λ c i. ground arith;
  owned = λ c i. refl;
}

one-CoreOk : CoreOk (one_slab 8192 alone 8352 1) 0 (8192 ∷ []) last_free
one-CoreOk = record {
  listed = one-Listed;
  free = λ s i. rw (the_slab s i) one_free;
  some_free = λ s i bad. cc;
}
  where
    the_slab : (s : ℕ) → has s (8192 ∷ []) ≡ true → s ≡ 8192
    the_slab s i = ground arith

-- The slab at 8192 has two objects, 8288 and 8352; a client holds the first one.
abbrev pub two_objects : ℕ → List ℕ
two_objects s = 8288 ∷ 8352 ∷ []

pub first_held : Held (params 224) two_objects (one_slab 8192 alone 8352 1) 8288
first_held = record {
  ss = 8192 ∷ [];
  objs = last_free;
  core = record {
    ok = one-CoreOk;
    own = λ t i. refl;
    stock = λ t i. record { inside = λ c j. ground arith; all = two_fit; has_memory = omega arith };
  };
  place = (
    omega arith,
    inr (record {
      home = refl;
      not_null = omega arith;
      inside = refl;
      all = two_fit;
      place = inl (record { listed = refl; in_use = refl; within = λ c i. ground arith });
    }),
  );
}

pub sizes : Sizes (params 224)
unfolding slab_objmemsz ps_rndup neg
sizes = record { size = omega arith; fits = omega arith; many = not_one }

pub counts_back : GivesBack (params 224).ffn 0
counts_back = record { gives = λ st s sz. (st.env + 1, refl) }

-- The slab is freed with its last object.
slab_mem_free-Released_example :
    Released
      (params 224)
      two_objects
      0
      0
      (one_slab 8192 alone 8352 1)
      (ps_mhead_get 8312)
      8192
      (slab_mem_free (params 224) 0 0 8312 (one_slab 8192 alone 8352 1))
unfolding ps_mhead_get
slab_mem_free-Released_example =
    slab_mem_free-Released (params 224) two_objects 0 0 sizes counts_back 8312 first_held refl

freelist_check-passes_example : slab_freelist_check 1 1 (one_slab 8192 alone 8352 1) 8192 ≡ true
unfolding first_held
freelist_check-passes_example =
    freelist_check-passes (params 224) two_objects 1 first_held.ss first_held.objs first_held.core
      (λ t i. (omega arith, omega arith))
