-- ===== src/PgAlloc.antt =====
-- The free list of pages (ps_pgalloc.h), where no other core interferes.
pub mod Pages
use ps.Base.{ℕ, zero, suc, Option, none, some, ◌==◌, if◌then◌else◌, update}

-- `struct ps_freelist`: `next` is the field of the list itself, `nexts` that of each page, and `env`
-- what the system keeps of the memory
pub record Freelist (E : Type 0) : Type 0 where
  pub pgsize : ℕ
  pub next : ℕ
  pub nexts : ℕ → ℕ
  pub env : E

-- `ps_pgalloc_init`
unfoldable pub ps_pgalloc_init : {E : Type 0} → Freelist E → ℕ → Freelist E
ps_pgalloc_init fl pgsize = record fl { pgsize = pgsize; next = 0 }

module _ {E : Type 0} (here : ℕ) where
  -- The loop of `ps_pgalloc_destroy` from `l` on; `none` is the end of the fuel
  unfoldable pub destroy_loop :
      ℕ → (plat_free : E → (p sz c : ℕ) → E) → (l : ℕ) → Freelist E → Option (Freelist E)
  destroy_loop zero plat_free l fl = if l == 0 then some fl else none
  destroy_loop (suc fuel) plat_free l fl =
      let n = fl.nexts l in
      let rest =
        destroy_loop fuel plat_free n (record fl { env = plat_free fl.env l fl.pgsize here }) in
      if l == 0 then some fl else rest

  -- `ps_pgalloc_destroy` on core `here`
  unfoldable pub ps_pgalloc_destroy :
      ℕ → (plat_free : E → (p sz c : ℕ) → E) → Freelist E → Option (Freelist E)
  ps_pgalloc_destroy fuel plat_free fl = destroy_loop fuel plat_free fl.next fl

  -- `ps_pgalloc`; its swap succeeds at once
  unfoldable pub ps_pgalloc : (plat_alloc : E → (sz c : ℕ) → ℕ × E) → Freelist E → ℕ × Freelist E
  ps_pgalloc plat_alloc fl =
      let n = fl.next in
      let r = plat_alloc fl.env fl.pgsize here in
      if n == 0
      then (r.0, record fl { env = r.1 })
      else (n, record fl { next = fl.nexts n; nexts = update fl.nexts n 0 })

-- `ps_pgfree`
unfoldable pub ps_pgfree : {E : Type 0} → Freelist E → ℕ → Freelist E
ps_pgfree fl p = record fl { next = p; nexts = update fl.nexts p fl.next }
