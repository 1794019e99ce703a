-- ===== src/Ns.antt =====
-- The namespaces of descriptors (ps_ns.c, and `struct ps_ns_info` of ps_global.h), one call at a time.
pub mod Descriptor
pub mod Frontier
pub mod Interned
use ps.Base.{
  ◌&&◌, ℕ, ◌+◌, ◌-◌, ◌%◌, ◌^◌, Bool, true, false, not, Option, none, some, leb, ltb, ◌==◌,
  if◌then◌else◌, ◌>>=◌, update,
}
use ps.Ert.{ExpandRet, expanded}
use ps.Lock.{ps_cas, ps_faa}
use ps.Memory.{Slabs}
use ps.Ring.{Links}
use ps.Slab.{slab_freelist_add, slab_freelist_rem}

-- `struct ps_ns_info`, without the lock, which each call takes and releases; `fl` is `fl.list`
pub record NsInfo : Type 0 where
  pub ert : ℕ
  pub ert_depth : ℕ
  pub desc_range : ℕ
  pub desc_max : ℕ
  pub fl : ℕ
  pub frontier : ℕ

-- A namespace, all slab heads, and what the functions of `NsOps` keep in `env`
pub record NsState (E : Type 0) : Type 0 where
  pub ns : NsInfo
  pub slabs : Slabs
  pub links : Links
  pub env : E

-- The functions of the trie (`lkupfn` and `expandfn`, with `accum` and `data` NULL), the allocator of
-- slab heads, the system's memory, and the accesses to words of memory
pub record NsOps (E : Type 0) : Type 0 where
  pub lkupfn : E → (ert id dlimit : ℕ) → Option ℕ
  pub expandfn : E → (ert id dlimit memctxt : ℕ) → Option (ExpandRet × E)
  pub slab_alloc_slabhead : E → ℕ × E
  pub slab_free_slabhead : E → ℕ → E
  pub plat_alloc : E → (sz coreid : ℕ) → ℕ × E
  pub plat_free : E → (mem sz coreid : ℕ) → E
  pub memset_zero : E → (mem sz : ℕ) → E
  pub get_next : E → ℕ → ℕ
  pub set_next : E → (intern v : ℕ) → E

abbrev pub is_expanded : ExpandRet → Bool
is_expanded expanded = true
is_expanded _ = false

module _ {E : Type 0} where
  abbrev pub set_env : NsState E → E → NsState E
  set_env st e = record st { env = e }

  abbrev pub set_frontier : NsState E → ℕ → NsState E
  set_frontier st id = record st { ns = record st.ns { frontier = id } }

  abbrev pub set_memory : NsState E → (s mem : ℕ) → NsState E
  set_memory st s mem = record st {
    slabs = record st.slabs { memory = update st.slabs.memory s mem };
  }

  -- The first slab head of the freelist, or 0 (the first part of `ps_slab_nsalloc`)
  unfoldable pub take_head : NsState E → Option (ℕ × NsState E)
  take_head st = do
    (fl, k) ← slab_freelist_rem st.links st.ns.fl st.ns.fl
    let taken = record st { ns = record st.ns { fl = fl }; links = k }
    some (st.ns.fl, taken)

  -- `reset_frontier`
  unfoldable pub reset_frontier : (newslab : Bool) → (id : ℕ) → NsState E → NsState E
  reset_frontier newslab id st =
      if newslab
      then set_frontier st (ps_cas st.ns.frontier ((id + st.ns.desc_range) % 2 ^ 64) id).1
      else st

  module _ (P : NsOps E) where
    -- A slab head with new descriptors: `id`, the head or 0, and the state
    unfoldable pub fresh_head : NsState E → ℕ × ℕ × NsState E
    fresh_head st =
        let r = ps_faa st.ns.frontier st.ns.desc_range in
        let st' = set_frontier st r.1 in
        let a = P.slab_alloc_slabhead st.env in
        let ss = st.slabs in
        let started = record ss {
          start = update ss.start a.0 r.0;
          end = update ss.end a.0 ((r.0 + st.ns.desc_range) % 2 ^ 64);
        } in
        if leb st.ns.desc_max r.0
        then (r.0, 0, st')
        else if a.0 == 0
        then (r.0, 0, set_env st' a.1)
        else (r.0, a.0, record st' { slabs = started; env = a.1 })

    -- `free_slab`, and then `reset_frontier`
    unfoldable pub free_slab : (s : ℕ) → (newslab : Bool) → (id : ℕ) → NsState E → ℕ × NsState E
    free_slab s newslab id st =
        (0, reset_frontier newslab id (set_env st (P.slab_free_slabhead st.env s)))

    -- The slab's descriptors go to the lookup table; `mem` is its memory.
    unfoldable pub publish :
        (sz coreid s mem : ℕ) → (newslab : Bool) → (id : ℕ) → NsState E → Option (ℕ × NsState E)
    publish sz coreid s mem newslab id st = do
      let first = st.slabs.start s
      x ← P.lkupfn st.env st.ns.ert first st.ns.ert_depth
      (ret, e) ← P.expandfn st.env st.ns.ert first st.ns.ert_depth mem
      let found : Option (ℕ × NsState E) =
          (P.lkupfn e st.ns.ert first st.ns.ert_depth >>= λ y.
          if y == mem then some (s, set_env st e) else none)
      if not (x == 0)
          then none
          else if not (is_expanded ret)
          then some (free_slab s newslab id (set_env st (P.plat_free e mem sz coreid)))
          else found

    -- From the `assert` on `s->memory` on
    unfoldable pub fill :
        (sz coreid s : ℕ) → (newslab : Bool) → (id : ℕ) → NsState E → Option (ℕ × NsState E)
    fill sz coreid s newslab id st =
        let a = P.plat_alloc st.env sz coreid in
        let filled =
          publish sz coreid s a.0 newslab id
            (set_memory (set_env st (P.memset_zero a.1 a.0 sz)) s a.0) in
        if not (st.slabs.memory s == 0)
        then none
        else if a.0 == 0
        then some (free_slab s newslab id (set_env st a.1))
        else filled

    -- `ps_slab_nsalloc`
    unfoldable pub ps_slab_nsalloc : (sz coreid : ℕ) → NsState E → Option (ℕ × NsState E)
    ps_slab_nsalloc sz coreid st =
        let r = fresh_head st in
        let new = if r.1 == 0 then some (0, r.2) else fill sz coreid r.1 true r.0 r.2 in
        if st.ns.fl == 0 then new else (take_head st >>= λ t. fill sz coreid t.0 false 0 t.1)

    -- The removal of the slab from the trie in `ps_slab_nsfree`
    unfoldable pub unlink : (s : ℕ) → NsState E → Option E
    unlink s st = do
      let ns = st.ns
      intern ← P.lkupfn st.env ns.ert (st.slabs.start s) (ns.ert_depth - 1)
      let e = P.set_next st.env intern 0
      x ← P.lkupfn e ns.ert (st.slabs.start s) ns.ert_depth
      if P.get_next st.env intern == st.slabs.memory s && x == 0 then some e else none

    -- `ps_slab_nsfree`
    unfoldable pub ps_slab_nsfree : (s sz coreid : ℕ) → NsState E → Option (NsState E)
    ps_slab_nsfree s sz coreid st = do
      let freed = set_env st (P.plat_free st.env (st.slabs.memory s) sz coreid)
      e ← if ltb 1 st.ns.ert_depth then unlink s freed else some freed.env
      let st' = set_memory (set_env st e) s 0
      (fl, k) ← slab_freelist_add st'.links st'.ns.fl s
      let listed = record st' { ns = record st'.ns { fl = fl }; links = k }
      some listed

  -- `ps_ns_init`; the allocator of slab heads is initialised
  unfoldable pub ps_ns_init : (ert depth maxid range : ℕ) → NsState E → NsState E
  ps_ns_init ert depth maxid range st = record st {
    ns = record {
      ert = ert;
      ert_depth = depth;
      desc_range = range;
      desc_max = maxid;
      fl = 0;
      frontier = 0;
    };
  }
