-- ===== src/PgAlloc/Pages.antt =====
-- What the free list of pages (ps_pgalloc.h) holds.
use ps.Base.{
  ℕ, zero, suc, ◌+◌, ◌<◌, ◌≡◌, ◌≢◌, refl, false, some, List, [], ◌∷◌, foldl, length, arith, ne→==,
  update, update_self,
}
use ps.PgAlloc.{Freelist, destroy_loop, ps_pgalloc_destroy, ps_pgalloc, ps_pgfree}
use ps.Queue.Fifo.{PathToNull, path_frame}
use ps.Ring.Chain.{has, Distinct}

pub record Holds {E : Type 0} (fl : Freelist E) (ps : List ℕ) : Type 0 where
  pub path : PathToNull fl.nexts fl.next ps
  pub distinct : Distinct ps

-- A page that is freed comes first. The next allocation gives it back, with its
-- link cleared, and leaves the list with the same pages as before.
pub pgfree-pgalloc :
    {E : Type 0} (here : ℕ) (plat_alloc : E → (sz c : ℕ) → ℕ × E) (fl : Freelist E) (ps : List ℕ)
    (p : ℕ)
    → Holds fl ps
    → p ≢ 0
    → has p ps ≡ false
    → let fl' = ps_pgfree fl p in
      let r = ps_pgalloc here plat_alloc fl' in
      Holds fl' (p ∷ ps) × (r.0 ≡ p) × Holds r.1 ps × (r.1.nexts p ≡ 0)
unfolding ps_pgfree ps_pgalloc
pgfree-pgalloc here plat_alloc fl ps p h ne out = (
  record {
    path = (refl, ne, rw (update_self fl.nexts p fl.next) freed);
    distinct = (out, h.distinct);
  },
  rw (ne→== p 0 ne) refl,
  rw (ne→== p 0 ne) (record {
    path = rw (update_self fl.nexts p fl.next) (
        path_frame fl.nexts (update (update fl.nexts p fl.next) p 0) fl.next ps
          (λ c i. ground arith) h.path);
    distinct = h.distinct;
  }),
  rw (ne→== p 0 ne) (update_self (update fl.nexts p fl.next) p 0),
)
  where
    freed : PathToNull (update fl.nexts p fl.next) fl.next ps
    freed = path_frame fl.nexts (update fl.nexts p fl.next) fl.next ps (λ c i. ground arith) h.path

destroy_loop-foldl :
    {E : Type 0} (here : ℕ) (plat_free : E → (p sz c : ℕ) → E) (fuel l : ℕ) (ps : List ℕ)
    (fl : Freelist E)
    → PathToNull fl.nexts l ps
    → length ps < fuel
    → destroy_loop here fuel plat_free l fl
      ≡ some (record fl { env = foldl (λ (e : E) (p : ℕ). plat_free e p fl.pgsize here) fl.env ps })
unfolding destroy_loop
destroy_loop-foldl here plat_free zero l ps fl path h = absurd (omega arith)
destroy_loop-foldl here plat_free (suc fuel) l [] fl path h = rw path refl
destroy_loop-foldl here plat_free (suc fuel) l (p ∷ ps) fl path h =
    rw (path.0, ne→== p 0 path.1)
      (destroy_loop-foldl here plat_free fuel (fl.nexts p) ps
        (record fl { env = plat_free fl.env p fl.pgsize here }) path.2 (omega arith))

-- `ps_pgalloc_destroy` ends, and gives each page of the list back to the system once, in order.
pub destroy-foldl :
    {E : Type 0} (here : ℕ) (plat_free : E → (p sz c : ℕ) → E) (fl : Freelist E) (ps : List ℕ)
    → Holds fl ps
    → ps_pgalloc_destroy here (length ps + 1) plat_free fl
      ≡ some (record fl { env = foldl (λ (e : E) (p : ℕ). plat_free e p fl.pgsize here) fl.env ps })
unfolding ps_pgalloc_destroy
destroy-foldl here plat_free fl ps h =
    destroy_loop-foldl here plat_free (length ps + 1) fl.next ps fl h.path (omega arith)
