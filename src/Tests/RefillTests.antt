-- ===== src/Tests/RefillTests.antt =====
-- An allocation of a core without slabs, while another core's object is held.
use ps.Base.{ℕ, ◌≡◌, ◌≢◌, ◌⊎◌, refl, inl, inr, some, [], arith, ltb, ◌==◌, if◌then◌else◌, update}
use ps.Memory.{State}
use ps.Slab.{SlabParams, slab_objmemsz, slab_max_nobjs}
use ps.Slab.Alloc.{alloc_slab}
use ps.Slab.Gives.{Gives}
use ps.Slab.Held.{Held, HasCore}
use ps.Slab.Refill.{Room, NewSlab, alloc_slab-Refills}
use ps.Tests.SlabTests.{params, one_slab, zeroed, empty-Listed, two_objects}
use ps.Word.{neg, ps_rndup}

-- No slab has memory yet. The objects below 8192 are of the slab at 4096, which is another core's.
abbrev bare : State ℕ
bare =
    let st = one_slab 0 zeroed 0 0 in
    record st {
      headers = record {
        tsc_free = λ a. 0;
        slab = λ a. if ltb a 8192 then 4096 else 0;
        next = λ a. 0;
      };
      slabs = record st.slabs { memory = λ a. 0; coreid = λ a. if a == 4096 then 1 else 0 };
    }

-- The slab at 8192 gets the memory there.
abbrev new_memory : State ℕ → State ℕ
new_memory st = record st { slabs = record st.slabs { memory = update st.slabs.memory 8192 8192 } }

abbrev new_slab : ℕ
new_slab = 8192

abbrev with_memory : SlabParams ℕ
with_memory = record (params 224) { afn = λ st sz curr. some (8192, new_memory st) }

bare-HasCore : HasCore with_memory two_objects bare
bare-HasCore = record {
  ss = [];
  objs = λ s. [];
  core = record {
    ok = record { listed = empty-Listed zeroed; free = λ s i. cc; some_free = λ s i. cc };
    own = λ t i. cc;
    stock = λ t i. cc;
  };
}

away_held : Held with_memory two_objects bare 4200
unfolding bare-HasCore
away_held = record {
  ss = [];
  objs = λ s. [];
  core = bare-HasCore.core;
  place = (omega arith, inl (omega arith));
}

bare-Room : Room with_memory
unfolding slab_objmemsz slab_max_nobjs ps_rndup neg
bare-Room = record { obj_fits = omega arith; two = omega arith; few = omega arith }

bare-NewSlab : NewSlab with_memory two_objects bare (new_memory bare) 8192
unfolding slab_objmemsz slab_max_nobjs ps_rndup neg
bare-NewSlab = record {
  not_null = omega arith;
  fits = omega arith;
  has_memory = omega arith;
  memory_fits = omega arith;
  zeroed = λ c i j. refl;
  its_objects = refl;
  elsewhere = record { same_next = λ c o. refl; same_tsc = λ c o. refl; same_slab = λ c o. refl };
  same_links = refl;
  same_fl = refl;
  other_slabs = λ t ne. (refl, refl, refl, ground arith);
  unused = λ h m. let ne = m.place.0 in (ground arith, ground arith);
}

alloc_slab-Refills_example :
    ((new_slab ≡ 0) × (alloc_slab with_memory 0 bare ≡ some (0, new_memory bare)))
    ⊎ ((new_slab ≢ 0) × Gives with_memory two_objects bare (alloc_slab with_memory 0 bare))
alloc_slab-Refills_example =
    alloc_slab-Refills with_memory two_objects bare-Room new_slab bare-HasCore refl refl
      (inr bare-NewSlab)
