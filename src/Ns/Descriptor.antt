-- ===== src/Ns/Descriptor.antt =====
-- The functions that `__PS_NS_TYPE_CREATE` (ps_ns.h) generates for the slots of a namespace, and the
-- functions for tries whose leaves are the slabs (`__ps_ns_*_intern`).
use native.Mathlib.Nat.{mod-eq_of_lt, mul-div_cancel}
use ps.Base.{
  ℕ, ◌+◌, ◌-◌, ◌*◌, ◌%◌, ◌^◌, ◌<◌, ◌≡◌, Bool, not, Option, none, some, arith, ltb, ◌==◌,
  if◌then◌else◌, ◌>>=◌,
}
use ps.Ert.Default.{ert_definit, ert_defresolve}
use ps.Header.{Headers, ps_mhead_get, ps_mhead_isfree, ps_mhead_mem, get-mem}
use ps.Instance.{ps_slab_objoff}
use ps.Memory.{State}
use ps.Slab.{SlabParams, slab_objmemsz, slab_objsoff}

-- `__ps_ns_desc_isfree`
abbrev pub desc_isfree : Headers → (slot : ℕ) → Bool
desc_isfree hs slot = ps_mhead_isfree hs (ps_mhead_get slot)

-- `__ps_ns_setleaf_intern` and `__ps_ns_getleaf_intern` always fail their `assert`.
abbrev pub setleaf_intern : (ℕ → ℕ) → (e data' : ℕ) → Option (Bool × (ℕ → ℕ))
setleaf_intern m e data' = none

abbrev pub getleaf_intern : (ℕ → ℕ) → (e accum : ℕ) → Option ℕ
getleaf_intern m e accum = none

-- `__ps_ns_alloc_intern`: the leaf is the slab that was passed in
unfoldable pub alloc_intern :
    {E : Type 0} → (E → (sz : ℕ) → ℕ × E) → E → (c sz : ℕ) → (leaf : Bool) → ℕ × E
alloc_intern plat_alloc e c sz leaf = if leaf then (c, e) else plat_alloc e sz

-- `__ps_ns_resolve_intern`; the mark of a header is its first word
unfoldable pub resolve_intern : (ℕ → ℕ) → (a accum : ℕ) → (leaf : Bool) → (order sz : ℕ) → Bool
resolve_intern m a accum leaf order sz =
    if not leaf then ert_defresolve m a accum leaf order sz else not (ltb 0 (m a))

-- `__ps_ns_init_intern`
unfoldable pub init_intern : (ℕ → ℕ) → (a : ℕ) → (leaf : Bool) → ℕ → ℕ
init_intern m a leaf = if leaf then m else ert_definit m a leaf

distance : (m x : ℕ) → m + x < 2 ^ 64 → (m + x + 2 ^ 64 - (m + 0) % 2 ^ 64) % 2 ^ 64 ≡ x
distance m x h = omega arith

module _ {E : Type 0} (P : SlabParams E) where
  -- `ps_ns_desc_<name>`
  unfoldable pub ps_ns_desc : State E → (slot : ℕ) → ℕ
  ps_ns_desc st slot =
      (st.slabs.start (st.headers.slab (ps_mhead_get slot)) + ps_slab_objoff P st slot) % 2 ^ 64

  -- `ps_nsptr_alloc_<name>`: the slot, its descriptor and the state; for NULL the descriptor is not set
  unfoldable pub ps_nsptr_alloc :
      (State E → Option (ℕ × State E)) → (d : ℕ) → State E → Option (ℕ × ℕ × State E)
  ps_nsptr_alloc alloc d st = do
    (a, st') ← alloc st
    if a == 0 then some (0, d, st') else some (a, ps_ns_desc st' a, st')

  -- The `k`-th slot of the slab `s`
  pub record Slot (st : State E) (s k : ℕ) : Type 0 where
    pub slot_fits : st.slabs.memory s + k * slab_objmemsz P.obj_sz < 2 ^ 64
    pub some_bytes : 0 < slab_objmemsz P.obj_sz
    pub few_slots : k < 2 ^ 32
    pub desc_fits : st.slabs.start s + k < 2 ^ 64
    pub header_of : st.headers.slab (st.slabs.memory s + k * slab_objmemsz P.obj_sz) ≡ s

  module _ (st : State E) (s k : ℕ) (no_offset : P.headoff ≡ 0) (slot : Slot st s k) where
    -- The header of the slot
    abbrev h : ℕ
    h = st.slabs.memory s + k * slab_objmemsz P.obj_sz

    objoff : ps_slab_objoff P st (ps_mhead_mem h) ≡ k
    unfolding ps_slab_objoff slab_objsoff
    objoff =
        rw
          (
            get-mem h,
            slot.header_of,
            no_offset,
            distance (st.slabs.memory s) (k * slab_objmemsz P.obj_sz) slot.slot_fits,
            mul-div_cancel k slot.some_bytes,
          )
          (mod-eq_of_lt slot.few_slots)

    pub ns_desc_lem : ps_ns_desc st (ps_mhead_mem h) ≡ st.slabs.start s + k
    unfolding ps_ns_desc
    ns_desc_lem = rw (get-mem h, slot.header_of, objoff) (mod-eq_of_lt slot.desc_fits)

module _ {E : Type 0} (lkup : State E → (desc : ℕ) → Option ℕ) where
  -- `ps_nsptr_lkup_<name>`; `lkup` is `<name>_lkup`
  unfoldable pub ps_nsptr_lkup : State E → (desc : ℕ) → Option ℕ
  ps_nsptr_lkup st desc = lkup st desc >>= λ h. some (if h == 0 then 0 else ps_mhead_mem h)

  -- `ps_nsptr_freedesc_<name>`
  unfoldable pub ps_nsptr_freedesc :
      (State E → (slot : ℕ) → Option (State E)) → (d : ℕ) → State E → Option (State E)
  ps_nsptr_freedesc free d st = ps_nsptr_lkup st d >>= λ m. if m == 0 then some st else free st m
