-- ===== src/Ns/Frontier.antt =====
-- The frontier of a namespace that has no descriptors left (`ps_slab_nsalloc` of ps_ns.c).
use ps.Base.{ℕ, zero, suc, Option, none, some, ◌==◌, if◌then◌else◌, ◌>>=◌}
use ps.Ns.{NsOps, NsState, ps_slab_nsalloc}

module _ {E : Type 0} (P : NsOps E) (sz coreid : ℕ) where
  -- The state after `k` calls of `ps_slab_nsalloc` that all return `NULL`
  unfoldable pub all_null : ℕ → NsState E → Option (NsState E)
  all_null zero st = some st
  all_null (suc k) st =
      all_null k st >>= ps_slab_nsalloc P sz coreid >>= λ r. if r.0 == 0 then some r.1 else none
