-- ===== src/Smr/Lifecycle.antt =====
-- Creation and deletion of parallel sections and of the memory they wrap (ps_smr.c and ps_slab.c).
pub mod Delete
use ps.Base.{
  inr, inl, lt→ltb, Bool-cases, eq→==, ==→eq, ne→==, ==_self, ℕ, zero, suc, ◌+◌, ◌-◌, ◌*◌, ◌%◌, ◌^◌,
  ◌≤◌, ◌<◌, ◌≡◌, ◌≢◌, ◌↔◌, refl, Bool, true, false, ◌&&◌, ◌||◌, not, Option, none, some, ltb, ◌==◌,
  if◌then◌else◌, update, ◌>>=◌, arith,
}
use native.Mathlib.Decide.{ℕ_discrete}
use ps.Memory.{State, SmrInfo, MemPercore, smr_info_of, slab_info_of, set_smr_info}
use ps.Parsec.{Parsec, ps_init}
use ps.Queue.{QscList, ps_qsc_peek}
use ps.Smr.{qlist_batch}

-- The test holds for each number below `n`.
abbrev pub all_below : ℕ → (ℕ → Bool) → Bool
all_below zero p = true
all_below (suc n) p = p n && all_below n p

-- `ps_plat_alloc(sz, coreid)` and `ps_plat_free(s, sz, coreid)`; the result 0 is `NULL`, and `none`
-- a failed `assert`
abbrev pub PlatAlloc : Type 0 → Type 0
PlatAlloc E = State E → (sz coreid : ℕ) → Option (ℕ × State E)

abbrev pub PlatFree : Type 0 → Type 0
PlatFree E = State E → (s sz coreid : ℕ) → State E

-- `x > 0` for an `int` of 32 bits
abbrev pub is_positive : ℕ → Bool
is_positive x = ltb 0 x && ltb x (2 ^ 31)

module _ {E : Type 0} where
  -- `ps_alloc` on core `here`, where the counter reads `now`
  unfoldable pub ps_alloc :
      PlatAlloc E → (sizeof_parsec here now : ℕ) → State E → Option (ℕ × State E)
  ps_alloc plat_alloc sizeof_parsec here now st = do
    (ps, st') ← plat_alloc st sizeof_parsec here
    if ps == 0
        then some (0, st')
        else some (ps, record st' { parsecs = update st'.parsecs ps (ps_init now) })

  -- `ps_free`; the first part says whether it returned 0
  unfoldable pub ps_free : PlatFree E → (sizeof_parsec here ps : ℕ) → State E → Bool × State E
  ps_free plat_free sizeof_parsec here ps st =
      if is_positive (st.parsecs ps).refcnt
      then (false, st)
      else (true, plat_free st ps sizeof_parsec here)

  abbrev pub set_refcnt : State E → ℕ → ℕ → State E
  set_refcnt st ps r = record st {
    parsecs = update st.parsecs ps (record (st.parsecs ps) { refcnt = r });
  }

  -- The body of the loop of `__ps_memptr_init` for core `i`
  unfoldable pub init_percore : State E → (ps i : ℕ) → State E
  init_percore st ps i =
      let st' =
        set_smr_info st i
          (record (smr_info_of st i) { qmemtarget = qlist_batch; qmemcnt = 0; ps = ps }) in
      set_refcnt st' ps (((st'.parsecs ps).refcnt + 1) % 2 ^ 32)

  -- The first `n` rounds of it
  unfoldable pub init_percores : ℕ → State E → (ps : ℕ) → State E
  init_percores zero st ps = st
  init_percores (suc n) st ps = init_percore (init_percores n st ps) ps n

  -- `__ps_memptr_init`
  unfoldable pub ps_memptr_init : (num_cores : ℕ) → State E → (ps : ℕ) → Option (State E)
  ps_memptr_init num_cores st ps = if ps == 0 then none else some (init_percores num_cores st ps)

  -- `ps_slabptr_isempty`
  unfoldable pub ps_slabptr_isempty : (num_cores num_localities : ℕ) → State E → Bool
  ps_slabptr_isempty num_cores num_localities st = all_below num_cores λ i.
      (slab_info_of st i).nslabs == 0
      && all_below num_localities
          λ j. all_below num_localities λ k. (st.percore i).slab_remote j k == 0

  -- `__ps_memptr_delete`; the first part says whether it returned 0
  unfoldable pub ps_memptr_delete : (num_cores num_localities : ℕ) → State E → Bool × State E
  ps_memptr_delete num_cores num_localities st =
      let ps = (smr_info_of st 0).ps in
      if ps == 0
      then (true, st)
      else if not (ps_slabptr_isempty num_cores num_localities st)
          || not (all_below num_cores λ i. ps_qsc_peek (smr_info_of st i).qsc_list == 0)
      then (false, st)
      else (true, set_refcnt st ps (((st.parsecs ps).refcnt + 2 ^ 32 - 1) % 2 ^ 32))
