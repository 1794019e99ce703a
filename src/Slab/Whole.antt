-- ===== src/Slab/Whole.antt =====
-- `__ps_slab_mem_alloc` (ps_slab.h) as a whole, when no remote frees are due.
use ps.Base.{◌∙◌, ℕ, ◌+◌, ◌%◌, ◌^◌, ◌≤◌, ◌<◌, ◌≡◌, ◌≢◌, refl, false, List, ◌∷◌, arith, ne→==, ltb}
use ps.Memory.{State, slab_info_of, set_slab_info}
use ps.Slab.{SlabParams, remote_batch}
use ps.Slab.Alloc.{slab_mem_alloc, alloc_slab, alloc_from}
use ps.Slab.Core.{CoreOk, Allocated, alloc_from-Allocated}
use ps.Slab.Objects.{FreeObjects-same}

pub from_list :
    {E : Type 0} (P : SlabParams E) (here s : ℕ) (st : State E)
    → (slab_info_of st P.coreid).fl ≡ s
    → s ≢ 0
    → alloc_slab P here st ≡ alloc_from P.coreid s st
unfolding alloc_slab
from_list P here s st e ne = rw (e, ne→== s 0 ne) refl

module _ {E : Type 0} (P : SlabParams E) (st : State E) where
  -- The allocation counter as `__ps_slab_mem_alloc` sets it
  abbrev pub next_count : ℕ
  next_count = ((slab_info_of st P.coreid).salloccnt + 1) % 2 ^ 64

  abbrev pub counted : State E
  counted = set_slab_info st P.coreid (record (slab_info_of st P.coreid) { salloccnt = next_count })

  pub same_fl : (slab_info_of counted P.coreid).fl ≡ (slab_info_of st P.coreid).fl
  same_fl = ground arith

  counted-CoreOk :
      (ss : List ℕ) (objs : ℕ → List ℕ)
      → CoreOk st P.coreid ss objs
      → CoreOk counted P.coreid ss objs
  counted-CoreOk ss objs ok = record {
    listed = rw same_fl ok.listed;
    free = λ s i. FreeObjects-same refl refl (ok.free s i);
    some_free = ok.some_free;
  }

  -- `__ps_slab_mem_alloc` gives the first free object of the core's first slab, with its mark and link
  -- cleared, if the core has a slab with free objects and no remote frees are due. The slab loses the
  -- object, and leaves the list exactly if it was its last free one.
  pub slab_mem_alloc-Allocated :
      (num_localities fuel here numaid s x : ℕ) (ss xs : List ℕ) (objs : ℕ → List ℕ)
      → CoreOk st P.coreid (s ∷ ss) objs
      → objs s ≡ x ∷ xs
      → P.obj_sz + P.headoff ≤ P.allocsz
      → P.allocsz < 2 ^ 64
      → ((slab_info_of st P.coreid).salloccnt + 1) % 2 ^ 64 % remote_batch ≢ 0
      → Allocated P.coreid s x xs ss objs (slab_mem_alloc num_localities fuel P here numaid st)
  unfolding slab_mem_alloc
  slab_mem_alloc-Allocated num_localities fuel here numaid s x ss xs objs ok e size fits due =
      rw
        (
          small,
          ne→== _ 0 due,
          from_list P here s counted (same_fl ∙ ok.listed.head)
              (ground (arith, ok.listed.not_null)),
        )
        (alloc_from-Allocated s ss x (counted-CoreOk (s ∷ ss) objs ok) xs e)
    where
      small : ltb P.allocsz ((P.obj_sz + P.headoff) % 2 ^ 64) ≡ false
      small = ground arith
