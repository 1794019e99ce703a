-- ===== src/Ert/Allocate.antt =====
-- The allocation of a node in ps_ertrie.h, with an allocator that keeps to its contract.
use native.Mathlib.Nat.{mul-lt-mul_of_pos_right, mod-eq_of_lt}
use ps.Base.{
  ℕ, ◌+◌, ◌*◌, ◌^◌, ◌≤◌, ◌<◌, ◌≡◌, ◌≢◌, inl, inr, Bool, true, false, arith, if◌then◌else◌,
  Bool-cases,
}
use ps.Ert.{TrieState, ErtParams, alloc_node}
use ps.Ert.Shape.{Geometry, IsSmall, is_leaf, slot_sz, slots}
use ps.Ert.Default.{ert_create_def}
use ps.Ert.Room.{AllocSpec}

module _ {E : Type 0} {g : Geometry} (small : IsSmall g) {Room : E → ℕ → Type 0}
    {allocfn : TrieState E → (memctxt sz : ℕ) → (leaf : Bool) → ℕ × TrieState E}
    (spec : AllocSpec Room allocfn) (memctxt : ℕ) where
  abbrev pub trie : ErtParams E
  trie = ert_create_def g.depth g.order g.last_order g.last_sz allocfn

  -- An allocation failed.
  abbrev pub Refused : Type 0
  Refused = (st : TrieState E) × (leaf : Bool) × ((alloc_node trie st memctxt leaf).0 ≡ 0)

  pub alloc_node-keeps :
      (st : TrieState E) (leaf : Bool) (a : ℕ)
      → ¬ Room st.env a
      → (alloc_node trie st memctxt leaf).1.mem a ≡ st.mem a
  alloc_node-keeps st true a n = spec.keeps st memctxt _ true a n
  alloc_node-keeps st false a n = spec.keeps st memctxt _ false a n

  pub alloc_node-shrinks :
      (st : TrieState E) (leaf : Bool) (a : ℕ)
      → Room (alloc_node trie st memctxt leaf).1.env a
      → Room st.env a
  alloc_node-shrinks st true a r = spec.shrinks st memctxt _ true a r
  alloc_node-shrinks st false a r = spec.shrinks st memctxt _ false a r

  -- The bytes of a node
  abbrev pub node_sz : Bool → ℕ
  node_sz leaf = if leaf then 2 ^ g.last_order * g.last_sz else 2 ^ g.order * 8

  pub slot-in_node : (i k : ℕ) → k < slots g i → k * slot_sz g i < node_sz (is_leaf g i)
  slot-in_node i k = elim (Bool-cases (is_leaf g i)) [
    | inl e ↦
        let wide : 8 ≤ g.last_sz = small.wide_leaves in
        rw e (λ lt. mul-lt-mul_of_pos_right lt (omega arith))
    | inr e ↦ rw e (λ lt. mul-lt-mul_of_pos_right lt (omega arith))
  ]

  -- The bytes from `j` on of a new node were free, and are not any more.
  pub alloc_node-fresh :
      (st : TrieState E) (leaf : Bool) (j : ℕ)
      → (alloc_node trie st memctxt leaf).0 ≢ 0
      → j < node_sz leaf
      → Room st.env ((alloc_node trie st memctxt leaf).0 + j)
        × (¬ Room (alloc_node trie st memctxt leaf).1.env ((alloc_node trie st memctxt leaf).0 + j))
  alloc_node-fresh st true j ne lt =
      let fits : 2 ^ g.last_order * g.last_sz < 2 ^ 31 = small.leaf_fits in
      spec.fresh st memctxt _ true j ne
        (rw (mod-eq_of_lt {n = 2 ^ g.last_order * g.last_sz} {m = 2 ^ 32} (omega arith)) lt)
  alloc_node-fresh st false j ne lt =
      let fits : 2 ^ g.order * 8 < 2 ^ 31 = small.intern_fits in
      spec.fresh st memctxt _ false j ne
        (rw (mod-eq_of_lt {n = 2 ^ g.order * 8} {m = 2 ^ 32} (omega arith)) lt)
