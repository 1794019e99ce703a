-- ===== src/Slab.antt =====
-- The slab allocator (ps_slab.h and ps_slab.c): sizes, freelists, initialisation and frees.
pub mod Alloc
pub mod Beside
pub mod Carve
pub mod Checks
pub mod Clear
pub mod Core
pub mod Free
pub mod Freelist
pub mod Frees
pub mod Gives
pub mod Held
pub mod Init
pub mod Objects
pub mod Others
pub mod Process
pub mod Released
pub mod Remote
pub mod Remotes
pub mod Rounds
pub mod Refill
pub mod Serve
pub mod Stats
pub mod Unique
pub mod Whole
use ps.Base.{
  ℕ, zero, suc, ◌+◌, ◌-◌, ◌*◌, ◌/◌, ◌%◌, ◌^◌, Bool, true, false, ◌&&◌, ◌||◌, not, Option, none,
  some, leb, ltb, ◌==◌, if◌then◌else◌, update, ◌>>=◌,
}
use ps.Header.{
  Headers, sizeof_mheader, set_next, ps_mhead_get, ps_mhead_mem, ps_mhead_isfree, ps_mhead_init,
  ps_mhead_reset, ps_mhead_setfree,
}
use ps.Memory.{
  AllocFn, FreeFn, MemPercore, SlabInfo, Slabs, State, slab_info_of, set_headers, set_slab_info,
}
use ps.Ring.{Links}
use ps.Ring.Object.{ps_list_add, ps_list_init, ps_list_next, ps_list_rem, ps_list_singleton}
use ps.Word.{ps_rndup}

-- The parameters that `PS_SLAB_PARAMS` hands on
pub record SlabParams (E : Type 0) : Type 0 where
  pub coreid : ℕ
  pub obj_sz : ℕ
  pub allocsz : ℕ
  pub headoff : ℕ
  pub afn : AllocFn E
  pub ffn : FreeFn E

-- `PS_WORD`
abbrev pub word : ℕ
word = 8

-- `NUM_REMOTE_LIST`
abbrev pub num_remote_list : ℕ
num_remote_list = 8

-- `PS_REMOTE_BATCH`
abbrev pub remote_batch : ℕ
remote_batch = 64

-- The offset of `list` in `struct ps_slab`
abbrev pub list_off : ℕ
list_off = 72

-- `__ps_slab_objmemsz`
unfoldable pub slab_objmemsz : ℕ → ℕ
slab_objmemsz obj_sz = ps_rndup ((obj_sz + sizeof_mheader) % 2 ^ 64) word

-- `__ps_slab_max_nobjs`
unfoldable pub slab_max_nobjs : (obj_sz allocsz headoff : ℕ) → ℕ
slab_max_nobjs obj_sz allocsz headoff = (allocsz + 2 ^ 64 - headoff) % 2 ^ 64 / slab_objmemsz obj_sz

-- `__ps_slab_objsoff`, where `memory` is `s->memory`
unfoldable pub slab_objsoff : (memory h obj_sz headoff : ℕ) → ℕ
slab_objsoff memory h obj_sz headoff =
    (h + 2 ^ 64 - (memory + headoff) % 2 ^ 64) % 2 ^ 64 / slab_objmemsz obj_sz

-- `__slab_freelist_rem` on `fl->list`; `none` is a failed `assert`
unfoldable pub slab_freelist_rem : Links → (fl s : ℕ) → Option (ℕ × Links)
slab_freelist_rem k fl s =
    if s == 0
    then none
    else some (
      if fl == s
          then if ps_list_singleton k s list_off then 0 else ps_list_next k s list_off
          else fl,
      ps_list_rem k s list_off,
    )

-- `__slab_freelist_add` on `fl->list`; `none` is a failed `assert`
unfoldable pub slab_freelist_add : Links → (fl s : ℕ) → Option (ℕ × Links)
slab_freelist_add k fl s =
    if s == 0 || not (ps_list_singleton k s list_off) || s == fl
    then none
    else some (s, if fl == 0 then k else ps_list_add k fl s list_off)

-- The loop of `__ps_slab_init` for `n` more objects: the headers, and `alloc` at the end
unfoldable pub carve : ℕ → (s objmemsz alloc prev : ℕ) → Headers → Headers × ℕ
carve zero s objmemsz alloc prev hs = (hs, alloc)
carve (suc n) s objmemsz alloc prev hs =
    carve n s objmemsz ((alloc + objmemsz) % 2 ^ 64) alloc
      (set_next (ps_mhead_init hs alloc s) prev alloc)

module _ {E : Type 0} where
  abbrev pub set_slabs : State E → Slabs → State E
  set_slabs st ss = record st { slabs = ss }

  -- The head of a freelist of slabs and the links, written to the state
  unfoldable pub set_fl : State E → ℕ → ℕ × Links → State E
  set_fl st c (fl, k) =
      set_slab_info (record st { links = k }) c (record (slab_info_of st c) { fl = fl })

  -- `__ps_slab_init`, where `ps_coreid` gives `here`
  unfoldable pub slab_init : SlabParams E → (here s : ℕ) → State E → Option (State E)
  slab_init P here s st =
      let objmemsz = slab_objmemsz P.obj_sz in
      let nfree = (P.allocsz + 2 ^ 64 - P.headoff) % 2 ^ 64 / objmemsz in
      let mem = st.slabs.memory s in
      let alloc = (mem + P.headoff) % 2 ^ 64 in
      let carved = carve nfree s objmemsz alloc alloc st.headers in
      let ss = st.slabs in
      let st' =
        set_headers
          (set_slabs st (record ss {
            nfree = update ss.nfree s nfree;
            memsz = update ss.memsz s P.allocsz;
            coreid = update ss.coreid s here;
            freelist = update ss.freelist s alloc;
          }))
          carved.0 in
      if leb carved.1 ((mem + P.allocsz) % 2 ^ 64)
      then (slab_freelist_add (ps_list_init st.links s list_off) (slab_info_of st P.coreid).fl s
          >>= λ fl. some (set_fl st' P.coreid fl))
      else none

  -- The header `h` goes to the front of the freelist of its slab (`__ps_slab_mem_free`).
  unfoldable pub put_back : State E → (h s : ℕ) → State E
  put_back st h s =
      let ss = st.slabs in
      set_headers
        (set_slabs st (record ss {
          freelist = update ss.freelist s h;
          nfree = update ss.nfree s ((ss.nfree s + 1) % 2 ^ 64);
        }))
        (set_next (ps_mhead_setfree st.headers h 1) h (ss.freelist s))

  -- All objects of the slab are free: it leaves the list, and goes to `ffn`.
  unfoldable pub retire : SlabParams E → ℕ → State E → Option (State E)
  retire P s st = do
    let si = slab_info_of st P.coreid
    fl ← slab_freelist_rem st.links si.fl s
    let st' = set_slab_info st P.coreid (record si { nslabs = (si.nslabs + 2 ^ 64 - 1) % 2 ^ 64 })
    P.ffn (set_fl st' P.coreid fl) s (st.slabs.memsz s) P.coreid

  -- The slab has its first free object: it is back on the list.
  unfoldable pub relist : SlabParams E → ℕ → State E → Option (State E)
  relist P s st =
      if not (ps_list_singleton st.links s list_off)
        || st.slabs.memory s == 0
        || st.slabs.freelist s == 0
      then none
      else slab_freelist_add st.links (slab_info_of st P.coreid).fl s >>= λ fl.
          some (set_fl st P.coreid fl)

  -- `__ps_slab_mem_free` on an object of the core's own
  unfoldable pub local_free : SlabParams E → (h s : ℕ) → State E → Option (State E)
  local_free P h s st =
      let st' = put_back st h s in
      if st'.slabs.nfree s == slab_max_nobjs P.obj_sz P.allocsz P.headoff % 2 ^ 32
      then retire P s st'
      else if st'.slabs.nfree s == 1
      then relist P s st'
      else some st'

  -- `__ps_slab_mem_remote_free`, where `ps_tsc_locality` gives the core `here` and the node `numaid`;
  -- the push meets no other core
  unfoldable pub slab_mem_remote_free : (here numaid h core_target : ℕ) → State E → State E
  slab_mem_remote_free here numaid h core_target st =
      let pc = st.percore core_target in
      let r = pc.slab_remote numaid in
      let i = here % num_remote_list in
      record st {
        headers = set_next st.headers h (r i);
        percore =
            update st.percore core_target
              (record pc { slab_remote = update pc.slab_remote numaid (update r i h) });
      }

  -- `__ps_slab_mem_free`
  unfoldable pub slab_mem_free : SlabParams E → (here numaid buf : ℕ) → State E → Option (State E)
  slab_mem_free P here numaid buf st =
      let h = ps_mhead_get buf in
      let s = st.headers.slab h in
      let target = st.slabs.coreid s in
      if ltb P.allocsz ((slab_objmemsz P.obj_sz + P.headoff) % 2 ^ 64)
        || ps_mhead_isfree st.headers h
        || s == 0
      then none
      else if not (target == P.coreid)
      then some (slab_mem_remote_free here numaid h target st)
      else local_free P h s st
