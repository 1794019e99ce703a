-- ===== src/Slab/Alloc.antt =====
-- Allocation from slabs, and the objects that other cores have freed (ps_slab.h and ps_slab.c).
use ps.Base.{
  ℕ, zero, suc, ◌+◌, ◌-◌, ◌%◌, ◌^◌, ◌&&◌, ◌||◌, not, Option, none, some, ltb, ◌==◌, if◌then◌else◌,
  update, ◌>>=◌,
}
use ps.Header.{set_next, ps_mhead_mem, ps_mhead_isfree, ps_mhead_reset}
use ps.Memory.{State, slab_info_of, set_headers, set_slab_info}
use ps.Ring.Object.{ps_list_singleton}
use ps.Slab.{
  SlabParams, num_remote_list, remote_batch, list_off, slab_freelist_rem, set_slabs, set_fl,
  slab_init, slab_mem_free,
}

module _ {E : Type 0} where
  -- The loop over the objects of one remote list, which ends in the number of them; `none` is a failed
  -- `assert`, or the end of the fuel.
  unfoldable pub clear_list :
      ℕ → SlabParams E → (here numaid h ret : ℕ) → State E → Option (ℕ × State E)
  clear_list zero P here numaid h ret st = if h == 0 then some (ret, st) else none
  clear_list (suc fuel) P here numaid h ret st =
      let n = st.headers.next h in
      let st' = set_headers st (set_next st.headers h 0) in
      let rest =
        slab_mem_free P here numaid (ps_mhead_mem h) st'
        >>= clear_list fuel P here numaid n (ret + 1) in
      if h == 0 then some (ret, st) else rest

  -- `__ps_rfl_stack_remove_all` on entry `i`, where no other core interferes
  unfoldable pub remove_all : State E → (c locality i : ℕ) → ℕ × State E
  remove_all st c locality i =
      let pc = st.percore c in
      let r = pc.slab_remote locality in
      (
        r i,
        record st {
          percore =
              update st.percore c
                (record pc { slab_remote = update pc.slab_remote locality (update r i 0) });
        },
      )

  -- Round `i` of the loop of `__ps_slab_mem_remote_clear`
  unfoldable pub clear_entry :
      ℕ → SlabParams E → (here numaid locality i ret : ℕ) → State E → Option (ℕ × State E)
  clear_entry fuel P here numaid locality i ret st =
      let (h, st') = remove_all st P.coreid locality i in
      if (st.percore P.coreid).slab_remote locality i == 0
      then some (ret, st)
      else clear_list fuel P here numaid h ret st'

  -- The last `k` rounds of it
  unfoldable pub clear_entries :
      ℕ → ℕ → SlabParams E → (here numaid locality ret : ℕ) → State E → Option (ℕ × State E)
  clear_entries zero fuel P here numaid locality ret st = some (ret, st)
  clear_entries (suc k) fuel P here numaid locality ret st = do
    (ret', st') ← clear_entry fuel P here numaid locality (num_remote_list - suc k) ret st
    clear_entries k fuel P here numaid locality ret' st'

  -- `__ps_slab_mem_remote_clear`
  unfoldable pub slab_mem_remote_clear :
      ℕ → SlabParams E → (here numaid locality : ℕ) → State E → Option (ℕ × State E)
  slab_mem_remote_clear fuel P here numaid locality st =
      clear_entries num_remote_list fuel P here numaid locality 0 st

  -- The loop of `__ps_slab_mem_remote_process` over at most `k` nodes of `num_localities`
  unfoldable pub process_loop :
      (k num_localities fuel : ℕ)
      → SlabParams E
      → (here numaid token locality : ℕ) → State E
      → Option (ℕ × State E)
  process_loop zero num_localities fuel P here numaid token locality st = none
  process_loop (suc k) num_localities fuel P here numaid token locality st = do
    (ret, st') ← slab_mem_remote_clear fuel P here numaid locality st
    let next = (locality + 1) % num_localities
    let rest = process_loop k num_localities fuel P here numaid token next st'
    if ret == 0 && not (next == token) then rest else some (next, st')

  -- `__ps_slab_mem_remote_process`
  unfoldable pub slab_mem_remote_process :
      (num_localities fuel : ℕ) → SlabParams E → (here numaid : ℕ) → State E → Option (State E)
  slab_mem_remote_process num_localities fuel P here numaid st = do
    let token = (slab_info_of st P.coreid).remote_token
    (locality, st') ← process_loop num_localities num_localities fuel P here numaid token token st
    some (
        set_slab_info st' P.coreid (record (slab_info_of st' P.coreid) { remote_token = locality }))

  -- The first free object of the slab `s` comes off its freelist, and loses its mark.
  unfoldable pub take_first : State E → (s : ℕ) → State E
  take_first st s =
      let h = st.slabs.freelist s in
      let ss = st.slabs in
      set_headers
        (set_slabs st (record ss {
          freelist = update ss.freelist s (st.headers.next h);
          nfree = update ss.nfree s ((ss.nfree s + 2 ^ 64 - 1) % 2 ^ 64);
        }))
        (ps_mhead_reset (set_next st.headers h 0) h)

  -- A slab without free objects leaves the list.
  unfoldable pub unlist_full : (c s : ℕ) → State E → Option (State E)
  unlist_full c s st =
      let removed = slab_freelist_rem st.links (slab_info_of st c).fl s in
      if st.slabs.nfree s == 0
      then (removed >>= λ (fl, k).
          if ps_list_singleton k s list_off then some (set_fl st c (fl, k)) else none)
      else some st

  -- `__ps_slab_mem_alloc` from the choice of the slab `s` on
  unfoldable pub alloc_from : (c s : ℕ) → State E → Option (ℕ × State E)
  alloc_from c s st =
      let h = st.slabs.freelist s in
      if s == 0 || h == 0
      then none
      else (unlist_full c s (take_first st s) >>= λ st'.
          if ps_mhead_isfree st'.headers h then none else some (ps_mhead_mem h, st'))

  -- A slab of `afn`: it is set up and counted.
  unfoldable pub add_slab : SlabParams E → (here s : ℕ) → State E → Option (State E)
  add_slab P here s st = do
    st' ← slab_init P here s st
    let si = slab_info_of st' P.coreid
    if st'.slabs.memory s == 0 || st'.slabs.freelist s == 0
        then none
        else some (set_slab_info st' P.coreid (record si { nslabs = (si.nslabs + 1) % 2 ^ 64 }))

  -- The same from the test of the freelist on
  unfoldable pub alloc_slab : SlabParams E → (here : ℕ) → State E → Option (ℕ × State E)
  alloc_slab P here st =
      let s = (slab_info_of st P.coreid).fl in
      let fresh = P.afn st P.allocsz P.coreid >>= λ (new, st').
      if new == 0 then some (0, st') else (add_slab P here new st' >>= alloc_from P.coreid new) in
      if s == 0 then fresh else alloc_from P.coreid s st

  -- `__ps_slab_mem_alloc`; the result 0 is `NULL`
  unfoldable pub slab_mem_alloc :
      (num_localities fuel : ℕ) → SlabParams E → (here numaid : ℕ) → State E → Option (ℕ × State E)
  slab_mem_alloc num_localities fuel P here numaid st =
      let si = slab_info_of st P.coreid in
      let n = (si.salloccnt + 1) % 2 ^ 64 in
      let st' = set_slab_info st P.coreid (record si { salloccnt = n }) in
      let processed = slab_mem_remote_process num_localities fuel P here numaid st' in
      if ltb P.allocsz ((P.obj_sz + P.headoff) % 2 ^ 64)
      then none
      else ((if n % remote_batch == 0 then processed else some st') >>= alloc_slab P here)
