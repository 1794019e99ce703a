-- ===== src/Instance.antt =====
-- The functions that `__PS_SLAB_CREATE_FNS` (ps_slab.h) and `__PS_PARSLAB_CREATE_AFNS` (ps_smr.h)
-- generate, and the default allocation functions of ps_slab.c. `P` holds the constants of an instance
-- and the core that runs; the `struct ps_mem` is that of the state.
use ps.Base.{ℕ, ◌%◌, ◌^◌, ◌==◌, Bool, true, false, Option, some, if◌then◌else◌, update, ◌>>=◌}
use ps.Header.{ps_mhead_get}
use ps.Memory.{State, FreeFn, AllocFn, MemPercore}
use ps.Parsec.{Parsec}
use ps.Slab.{SlabParams, slab_objmemsz, slab_max_nobjs, slab_objsoff, slab_mem_free, set_slabs}
use ps.Slab.Alloc.{slab_mem_alloc}
use ps.Smr.{ps_smr_free}
use ps.Smr.Lifecycle.{PlatAlloc, PlatFree, ps_memptr_init, ps_memptr_delete}

-- `memset` to 0
abbrev pub zero_percore : MemPercore
zero_percore = record {
  slab_info = record { fl = 0; salloccnt = 0; remote_token = 0; nslabs = 0 };
  smr_info = record {
    ps = 0;
    qsc_list = record { head = 0; tail = 0 };
    qmemcnt = 0;
    qmemtarget = 0;
  };
  slab_remote = λ j k. 0;
}

module _ {E : Type 0} where
  -- `ps_slab_defalloc`
  unfoldable pub ps_slab_defalloc : PlatAlloc E → AllocFn E
  ps_slab_defalloc plat_alloc st sz coreid = do
    (s, st') ← plat_alloc st sz coreid
    if s == 0
        then some (0, st')
        else some (s, set_slabs st' (record st'.slabs { memory = update st'.slabs.memory s s }))

  -- `ps_slab_deffree`
  unfoldable pub ps_slab_deffree : PlatFree E → FreeFn E
  ps_slab_deffree plat_free st s sz coreid = some (plat_free st s sz coreid)

  -- `ps_slabptr_init`
  unfoldable pub ps_slabptr_init : State E → State E
  ps_slabptr_init st = record st { percore = λ c. zero_percore }

  -- `ps_slabptr_create_<name>`
  unfoldable pub ps_slabptr_create :
      PlatAlloc E → (sizeof_mem here : ℕ) → State E → Option (ℕ × State E)
  ps_slabptr_create plat_alloc sizeof_mem here st = do
    (m, st') ← plat_alloc st sizeof_mem here
    if m == 0 then some (0, st') else some (m, ps_slabptr_init st')

  -- `ps_slabptr_delete_<name>`
  unfoldable pub ps_slabptr_delete : PlatFree E → (sizeof_mem here m : ℕ) → State E → State E
  ps_slabptr_delete plat_free sizeof_mem here m st = plat_free st m sizeof_mem here

  module _ (P : SlabParams E) where
    -- `ps_slabptr_alloc_<name>` and `ps_memptr_alloc_<name>`
    unfoldable pub ps_slabptr_alloc :
        (num_localities fuel numaid : ℕ) → State E → Option (ℕ × State E)
    ps_slabptr_alloc num_localities fuel numaid st =
        slab_mem_alloc num_localities fuel P P.coreid numaid st

    -- `ps_slabptr_free_coreid_<name>`; `ps_tsc_locality` gives the core `here`
    unfoldable pub ps_slabptr_free_coreid :
        (here numaid buf coreid : ℕ) → State E → Option (State E)
    ps_slabptr_free_coreid here numaid buf coreid st =
        slab_mem_free (record P { coreid = coreid }) here numaid buf st

    -- `ps_slabptr_free_<name>`
    unfoldable pub ps_slabptr_free : (numaid buf : ℕ) → State E → Option (State E)
    ps_slabptr_free numaid buf st = ps_slabptr_free_coreid P.coreid numaid buf P.coreid st

    -- `ps_slab_objmem_<name>`
    unfoldable pub ps_slab_objmem : ℕ
    ps_slab_objmem = slab_objmemsz P.obj_sz

    -- `ps_slab_nobjs_<name>`
    unfoldable pub ps_slab_nobjs : ℕ
    ps_slab_nobjs = slab_max_nobjs P.obj_sz P.allocsz P.headoff

    -- `ps_slab_objoff_<name>`, an `unsigned int`
    unfoldable pub ps_slab_objoff : State E → (obj : ℕ) → ℕ
    ps_slab_objoff st obj =
        let h = ps_mhead_get obj in
        slab_objsoff (st.slabs.memory (st.headers.slab h)) h P.obj_sz P.headoff % 2 ^ 32

    -- `__ps_parslab_free_tramp_<name>`
    unfoldable pub ps_parslab_free_tramp : (here numaid : ℕ) → FreeFn E
    ps_parslab_free_tramp here numaid st s sz c = ps_slabptr_free_coreid here numaid s c st

    -- `ps_memptr_free_<name>`
    unfoldable pub ps_memptr_free :
        ℕ
        → (clock : ℕ → ℕ) → (others : ℕ → Parsec → Parsec) → (numaid buf tsc : ℕ) → State E
        → Option (State E)
    ps_memptr_free num_cores clock others numaid buf tsc st =
        ps_smr_free num_cores clock others (ps_parslab_free_tramp P.coreid numaid) buf P.coreid tsc
          st

  -- `ps_memptr_create_<name>`
  unfoldable pub ps_memptr_create :
      PlatAlloc E → (num_cores sizeof_mem here ps : ℕ) → State E → Option (ℕ × State E)
  ps_memptr_create plat_alloc num_cores sizeof_mem here ps st = do
    (m, st') ← ps_slabptr_create plat_alloc sizeof_mem here st
    if m == 0 then some (0, st') else (ps_memptr_init num_cores st' ps >>= λ st''. some (m, st''))

  -- `ps_memptr_delete_<name>`; the first part says whether it returned 0
  unfoldable pub ps_mem_delete :
      PlatFree E → (num_cores num_localities sizeof_mem here m : ℕ) → State E → Bool × State E
  ps_mem_delete plat_free num_cores num_localities sizeof_mem here m st =
      let r = ps_memptr_delete num_cores num_localities st in
      if r.0 then (true, ps_slabptr_delete plat_free sizeof_mem here m r.1) else (false, r.1)
