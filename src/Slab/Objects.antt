-- ===== src/Slab/Objects.antt =====
-- The free objects of one slab: what `__ps_slab_mem_free` puts on, and `__ps_slab_mem_alloc` takes off.
use ps.Base.{ℕ, ◌+◌, ◌^◌, ◌<◌, ◌≡◌, ◌≢◌, true, false, List, ◌∷◌, arith, length, update_self, ne→==}
use ps.Header.{ps_mhead_reset, ps_mhead_setfree}
use ps.Memory.{State}
use ps.Queue.Fifo.{PathToNull, path_frame}
use ps.Ring.Chain.{has, Distinct}
use ps.Slab.{put_back}
use ps.Slab.Alloc.{take_first}

-- The freelist of the slab `s` holds `xs`, which are marked and belong to `s`, and `nfree` is right.
pub record FreeObjects {E : Type 0} (st : State E) (s : ℕ) (xs : List ℕ) : Type 0 where
  pub path : PathToNull st.headers.next (st.slabs.freelist s) xs
  pub distinct : Distinct xs
  pub count : st.slabs.nfree s ≡ length xs
  pub fits : length xs < 2 ^ 64
  pub marked : (c : ℕ) → has c xs ≡ true → st.headers.tsc_free c ≢ 0
  pub owned : (c : ℕ) → has c xs ≡ true → st.headers.slab c ≡ s

module _ {E : Type 0} {st : State E} {s : ℕ} where
  -- An object of the slab that is not on the freelist is put in front of it.
  pub put_back-FreeObjects :
      (xs : List ℕ) (h : ℕ)
      → FreeObjects st s xs
      → h ≢ 0
      → has h xs ≡ false
      → st.headers.slab h ≡ s
      → length xs + 1 < 2 ^ 64
      → FreeObjects (put_back st h s) s (h ∷ xs)
  unfolding put_back ps_mhead_setfree
  put_back-FreeObjects xs h f ne out own fits = record {
    path = (ground arith, ne, rw update_self (path_frame _ _ _ xs (λ c i. ground arith) f.path));
    distinct = (out, f.distinct);
    count = rw update_self (omega (arith, f.count));
    fits = omega arith;
    marked = λ c i. ground (arith, f.marked c);
    owned = λ c i. ground (arith, f.owned c);
  }

  -- The first free object comes off, without mark and link.
  pub take_first-FreeObjects :
      (x : ℕ) (xs : List ℕ)
      → FreeObjects st s (x ∷ xs)
      → let st' = take_first st s in
        FreeObjects st' s xs
        × (st.slabs.freelist s ≡ x)
        × (st'.headers.tsc_free x ≡ 0)
        × (st'.headers.next x ≡ 0)
  unfolding take_first ps_mhead_reset
  take_first-FreeObjects x xs f = (
    record {
      path =
          rw (update_self, f.path.0)
            (path_frame _ _ _ xs (λ c i. ground (arith, f.distinct)) f.path.2);
      distinct = f.distinct.1;
      count = rw update_self (omega (arith, f.count, f.fits));
      fits = omega (arith, f.fits);
      marked = λ c i. rw f.path.0 (ground (arith, f.distinct, f.marked c));
      owned = λ c i. f.owned c (ground arith);
    },
    f.path.0,
    rw f.path.0 (ground arith),
    rw f.path.0 (ground arith),
  )

  -- Neither changes the free objects of another slab.
  pub put_back-other :
      (t : ℕ) (ys : List ℕ) (h : ℕ)
      → FreeObjects st t ys
      → t ≢ s
      → st.headers.slab h ≡ s
      → FreeObjects (put_back st h s) t ys
  unfolding put_back ps_mhead_setfree
  put_back-other t ys h f ne own = record {
    path = rw (ne→== t s ne) (path_frame _ _ _ ys (λ c i. ground (arith, f.owned c i)) f.path);
    distinct = f.distinct;
    count = rw (ne→== t s ne) f.count;
    fits = f.fits;
    marked = λ c i. ground (arith, f.marked c i);
    owned = f.owned;
  }

  pub take_first-other :
      (t : ℕ) (ys : List ℕ)
      → FreeObjects st t ys
      → t ≢ s
      → st.headers.slab (st.slabs.freelist s) ≡ s
      → FreeObjects (take_first st s) t ys
  unfolding take_first ps_mhead_reset
  take_first-other t ys f ne own = record {
    path = rw (ne→== t s ne) (path_frame _ _ _ ys (λ c i. ground (arith, f.owned c i)) f.path);
    distinct = f.distinct;
    count = rw (ne→== t s ne) f.count;
    fits = f.fits;
    marked = λ c i. ground (arith, f.owned c i, f.marked c i);
    owned = f.owned;
  }

-- The free objects are in the headers and the slabs of a state.
pub FreeObjects-same :
    {E : Type 0} {st st' : State E} {s : ℕ} {xs : List ℕ}
    → st'.headers ≡ st.headers
    → st'.slabs ≡ st.slabs
    → FreeObjects st s xs
    → FreeObjects st' s xs
FreeObjects-same hs ss f = record {
  path = rw (hs, ss) f.path;
  distinct = f.distinct;
  count = rw ss f.count;
  fits = f.fits;
  marked = rw hs f.marked;
  owned = rw hs f.owned;
}
