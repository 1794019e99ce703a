-- ===== src/Ert/Room.antt =====
-- What `__ert_expand` (ps_ertrie.h) relies on of the allocation function, and the initialisation of a
-- node with the default functions.
use ps.Base.{
  subst, ℕ, zero, suc, ◌+◌, ◌*◌, ◌<◌, ◌≡◌, ◌≢◌, refl, Bool-cases, ap, inl, inr, subst, sym, ◌∙◌,
  Bool, List, arith, length, update, update_ne, update_self,
}
use native.Mathlib.Nat.{zero-add, add-zero, mul_comm}
use ps.Ert.{TrieState, ErtParams, init_loop, ert_init}
use ps.Ert.Shape.{Geometry, slot_sz, slots, slot, IsTrie, is_leaf}
use ps.Ert.Default.{ert_create_def}

-- `Room e` are the words that the allocator can still hand out.
pub record AllocSpec {E : Type 0} (Room : E → ℕ → Type 0)
    (allocfn : TrieState E → (memctxt sz : ℕ) → (leaf : Bool) → ℕ × TrieState E) : Type 0 where
  pub shrinks :
      (st : TrieState E) (c sz : ℕ) (leaf : Bool) (a : ℕ)
      → Room (allocfn st c sz leaf).1.env a
      → Room st.env a
  pub keeps :
      (st : TrieState E) (c sz : ℕ) (leaf : Bool) (a : ℕ)
      → ¬ Room st.env a
      → (allocfn st c sz leaf).1.mem a ≡ st.mem a
  pub fresh :
      (st : TrieState E) (c sz : ℕ) (leaf : Bool) (j : ℕ)
      → (allocfn st c sz leaf).0 ≢ 0
      → j < sz
      → Room st.env ((allocfn st c sz leaf).0 + j)
        × ¬ Room (allocfn st c sz leaf).1.env ((allocfn st c sz leaf).0 + j)

-- The state holds the trie with the nodes `node`, which the allocator has handed out.
pub record Holds {E : Type 0} (g : Geometry) (Room : E → ℕ → Type 0) (st : TrieState E) (v : ℕ)
    (node : List ℕ → ℕ) : Type 0 where
  pub trie_held : IsTrie g st.mem v node
  pub taken :
      (p : List ℕ) (k : ℕ)
      → length p < g.depth
      → node p ≢ 0
      → k < slots g (length p)
      → ¬ Room st.env (slot g node p k)

module _ {E : Type 0} (g : Geometry)
    (allocfn : TrieState E → (memctxt sz : ℕ) → (leaf : Bool) → ℕ × TrieState E) where
  update_null : (m : ℕ → ℕ) (b a : ℕ) → m a ≡ 0 → update m b 0 a ≡ 0
  update_null m b a h = ground arith

  abbrev default : ErtParams E
  default = ert_create_def g.depth g.order g.last_order g.last_sz allocfn

  init_loop-zero :
      (n vi sz i : ℕ) (leaf : Bool) (m : ℕ → ℕ) (a : ℕ)
      → m a ≡ 0
      → init_loop default n vi sz i leaf m a ≡ 0
  unfolding init_loop
  init_loop-zero zero vi sz i leaf m a h = h
  init_loop-zero (suc n) vi sz i leaf m a h =
      init_loop-zero n vi sz (i + 1) leaf (update m (vi + sz * i) 0) a
        (update_null m (vi + sz * i) a h)

  skip : (i k : ℕ) → i + suc k ≡ i + 1 + k
  skip i k = omega arith

  pub init_loop-slot :
      (n vi sz i : ℕ) (leaf : Bool) (m : ℕ → ℕ) (k : ℕ)
      → k < n
      → init_loop default n vi sz i leaf m (vi + sz * (i + k)) ≡ 0
  unfolding init_loop
  init_loop-slot zero vi sz i leaf m k h = omega arith
  init_loop-slot (suc n) vi sz i leaf m zero h = rw (add-zero i) (
      init_loop-zero n vi sz (i + 1) leaf (update m (vi + sz * i) 0) (vi + sz * i)
        (update_self m (vi + sz * i) 0))
  init_loop-slot (suc n) vi sz i leaf m (suc k) h =
      subst
        (λ j. init_loop default n vi sz (i + 1) leaf (update m (vi + sz * i) 0) (vi + sz * j) ≡ 0)
        (sym (skip i k))
        (init_loop-slot n vi sz (i + 1) leaf (update m (vi + sz * i) 0) k (omega arith))

  pub init_loop-frame :
      (n vi sz i : ℕ) (leaf : Bool) (m : ℕ → ℕ) (a : ℕ)
      → ((k : ℕ) → k < n → vi + sz * (i + k) ≢ a)
      → init_loop default n vi sz i leaf m a ≡ m a
  unfolding init_loop
  init_loop-frame zero vi sz i leaf m a h = refl
  init_loop-frame (suc n) vi sz i leaf m a h =
      init_loop-frame n vi sz (i + 1) leaf (update m (vi + sz * i) 0) a
        (λ k lt. subst (λ j. vi + sz * j ≢ a) (skip i k) (h (suc k) (omega arith)))
      ∙ update_ne m (vi + sz * i) 0 a (λ e. h 0 (omega arith) (rw (add-zero i) (sym e)))

  ert_init-loop :
      (vi i : ℕ) (m : ℕ → ℕ)
      → ert_init default vi (is_leaf g i) m
        ≡ init_loop default (slots g i) vi (slot_sz g i) 0 (is_leaf g i) m
  unfolding ert_init
  ert_init-loop vi i m = elim (Bool-cases (is_leaf g i)) [ inl e ↦ rw e refl | inr e ↦ rw e refl ]

  address : (vi sz k : ℕ) → vi + sz * (0 + k) ≡ vi + k * sz
  address vi sz k = rw (zero-add k, mul_comm sz k) refl

  -- `__ert_init` writes 0 into each slot of the node, and nothing else.
  pub ert_init-slot :
      (vi i : ℕ) (m : ℕ → ℕ) (k : ℕ)
      → k < slots g i
      → ert_init default vi (is_leaf g i) m (vi + k * slot_sz g i) ≡ 0
  ert_init-slot vi i m k h =
      rw (ert_init-loop vi i m, ← address vi (slot_sz g i) k)
        (init_loop-slot (slots g i) vi (slot_sz g i) 0 (is_leaf g i) m k h)

  pub ert_init-frame :
      (vi i : ℕ) (m : ℕ → ℕ) (a : ℕ)
      → ((k : ℕ) → k < slots g i → vi + k * slot_sz g i ≢ a)
      → ert_init default vi (is_leaf g i) m a ≡ m a
  ert_init-frame vi i m a h =
      ap (λ f. f a) (ert_init-loop vi i m)
      ∙ init_loop-frame (slots g i) vi (slot_sz g i) 0 (is_leaf g i) m a
          (λ k lt. subst (λ b. b ≢ a) (sym (address vi (slot_sz g i) k)) (h k lt))
