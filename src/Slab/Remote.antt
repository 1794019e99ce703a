-- ===== src/Slab/Remote.antt =====
-- `__ps_slab_mem_free` (ps_slab.h) as a whole: its guards, and the objects of other cores.
use ps.Base.{
  ℕ, ◌+◌, ◌%◌, ◌^◌, ◌≤◌, ◌<◌, ◌≡◌, ◌≢◌, refl, false, some, List, ◌∷◌, arith, ==_self, ne→==, ltb,
  update,
}
use ps.Header.{OnlyAt, set_next-OnlyAt, ps_mhead_get, ps_mhead_isfree}
use ps.Memory.{State}
use ps.Queue.Fifo.{PathToNull, path_frame}
use ps.Ring.Chain.{has}
use ps.Slab.{
  SlabParams, num_remote_list, slab_objmemsz, slab_mem_free, slab_mem_remote_free, local_free,
}

-- What `__ps_slab_mem_free` asserts of the object with the header `h` in the slab `s`
pub record Freeable {E : Type 0} (P : SlabParams E) (st : State E) (h s : ℕ) : Type 0 where
  pub size : slab_objmemsz P.obj_sz + P.headoff ≤ P.allocsz
  pub size_fits : P.allocsz < 2 ^ 64
  pub unmarked : st.headers.tsc_free h ≡ 0
  pub owner : st.headers.slab h ≡ s
  pub slab_not_null : s ≢ 0

module _ {E : Type 0} (P : SlabParams E) {st : State E} (here numaid buf s : ℕ)
    (ok : Freeable P st (ps_mhead_get buf) s) where
  size_ok : ltb P.allocsz ((slab_objmemsz P.obj_sz + P.headoff) % 2 ^ 64) ≡ false
  size_ok = ground (arith, ok.size, ok.size_fits)

  mark_ok : ps_mhead_isfree st.headers (ps_mhead_get buf) ≡ false
  unfolding ps_mhead_isfree
  mark_ok = rw ok.unmarked refl

  -- An object of the core's own slab is put back there.
  pub slab_mem_free-own :
      st.slabs.coreid s ≡ P.coreid
      → slab_mem_free P here numaid buf st ≡ local_free P (ps_mhead_get buf) s st
  unfolding slab_mem_free
  slab_mem_free-own home =
      rw (size_ok, mark_ok, ok.owner, ne→== s 0 ok.slab_not_null, home, ==_self P.coreid) refl

  -- The entry of the remote lists that the freeing core fills
  abbrev pub entry_of : State E → ℕ
  entry_of t = (t.percore (st.slabs.coreid s)).slab_remote numaid (here % num_remote_list)

  abbrev pub freed : State E
  freed = slab_mem_remote_free here numaid (ps_mhead_get buf) (st.slabs.coreid s) st

  pub slab_mem_free-away :
      st.slabs.coreid s ≢ P.coreid → slab_mem_free P here numaid buf st ≡ some freed
  unfolding slab_mem_free
  slab_mem_free-away away =
      rw (size_ok, mark_ok, ok.owner, ne→== s 0 ok.slab_not_null, ne→== _ P.coreid away) refl

  top_is : entry_of freed ≡ ps_mhead_get buf
  unfolding slab_mem_remote_free
  top_is = ground arith

  rest :
      (xs : List ℕ)
      → has (ps_mhead_get buf) xs ≡ false
      → PathToNull st.headers.next (entry_of st) xs
      → PathToNull freed.headers.next (freed.headers.next (ps_mhead_get buf)) xs
  unfolding slab_mem_remote_free
  rest xs out path = rw (==_self (ps_mhead_get buf)) (
      path_frame st.headers.next (update st.headers.next (ps_mhead_get buf) (entry_of st))
        (entry_of st) xs (λ c i. ground arith) path)

  -- An object of another core's slab passes the asserts and goes on top of an entry of that core's
  -- remote lists. The slabs and their lists stay as they are, and so do all other headers.
  pub slab_mem_free-remote :
      (xs : List ℕ)
      → st.slabs.coreid s ≢ P.coreid
      → ps_mhead_get buf ≢ 0
      → has (ps_mhead_get buf) xs ≡ false
      → PathToNull st.headers.next (entry_of st) xs
      → (st' : State E) × (slab_mem_free P here numaid buf st ≡ some st')
        × PathToNull st'.headers.next (entry_of st') (ps_mhead_get buf ∷ xs)
        × OnlyAt (ps_mhead_get buf) st.headers st'.headers
        × (st'.slabs ≡ st.slabs)
        × (st'.links ≡ st.links)
  unfolding slab_mem_free slab_mem_remote_free
  slab_mem_free-remote xs away ne out path = (
    freed,
    rw (size_ok, mark_ok, ok.owner, ne→== s 0 ok.slab_not_null, ne→== _ P.coreid away) refl,
    (top_is, ne, rest xs out path),
    set_next-OnlyAt st.headers (ps_mhead_get buf) (entry_of st),
    refl,
    refl,
  )
