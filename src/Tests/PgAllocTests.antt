-- ===== src/Tests/PgAllocTests.antt =====
-- A run of the free list of pages, and its theorems at it.
use ps.Base.{ℕ, ◌+◌, ◌≡◌, refl, [], ◌∷◌, arith}
use ps.PgAlloc.{Freelist, ps_pgalloc, ps_pgfree}
use ps.PgAlloc.Pages.{Holds, pgfree-pgalloc}

-- Page 4096 is free. The system counts what it gets back.
abbrev one_page : Freelist ℕ
one_page = record { pgsize = 4096; next = 4096; nexts = λ a. 0; env = 0 }

one_page-Holds : Holds one_page (4096 ∷ [])
one_page-Holds = record { path = (refl, omega arith, refl); distinct = (refl, tt) }

abbrev no_memory : ℕ → (sz c : ℕ) → ℕ × ℕ
no_memory e sz c = (0, e)

abbrev count : ℕ → (p sz c : ℕ) → ℕ
count e p sz c = e + p

pgfree-pgalloc_example :
    let fl' = ps_pgfree one_page 8192 in
    let r = ps_pgalloc 0 no_memory fl' in
    Holds fl' (8192 ∷ 4096 ∷ []) × (r.0 ≡ 8192) × Holds r.1 (4096 ∷ []) × (r.1.nexts 8192 ≡ 0)
pgfree-pgalloc_example =
    pgfree-pgalloc 0 no_memory one_page (4096 ∷ []) 8192 one_page-Holds (omega arith) refl
