-- ===== src/Ert/Create.antt =====
-- `ert_alloc` (ps_ertrie.h) with the default functions: a trie without values.
use ps.Base.{
  ℕ, ◌+◌, ◌-◌, ◌*◌, ◌^◌, ◌%◌, ◌≤◌, ◌<◌, ◌≡◌, ◌≢◌, ◌⊎◌, inl, inr, refl, ◌∙◌, subst, Bool, false, not,
  ◌||◌, Option, some, List, [], ◌∷◌, arith, length, ltb, ◌==◌, if◌then◌else◌, update, update_ne,
  update_self, Bool-cases, ==→eq, ==→ne,
}
use ps.Ert.{TrieState, ErtParams, alloc_node, ert_alloc, ert_init, set_mem, sub32}
use native.Mathlib.Nat.{add_left_cancel}
use ps.Base.{lt→ltb}
use ps.Ert.Digits.{offset}
use ps.Ert.Paths.{mul_cancel, value_zero}
use ps.Ert.SetLeaf.{leaf_digit-lt}
use ps.Ert.Shape.{
  slot_sz_pos, value_at, id_bits, Geometry, IsSmall, IsTrie, is_leaf, slot_sz, slots, slot, leaf_of,
  digit,
}
use ps.Ert.Room.{AllocSpec, ert_init-slot}
use ps.Ert.Allocate.{trie, Refused, alloc_node-shrinks, alloc_node-fresh, slot-in_node}
use ps.Ert.Abstract.{Represents, Spare, TakesRoom}

-- The nodes of a trie that has only its root
abbrev only_root : ℕ → List ℕ → ℕ
only_root v [] = v
only_root v (k ∷ p) = 0

module _ {E : Type 0} {g : Geometry} (small : IsSmall g) {Room : E → ℕ → Type 0}
    {allocfn : TrieState E → (memctxt sz : ℕ) → (leaf : Bool) → ℕ × TrieState E}
    (spec : AllocSpec Room allocfn) (memctxt : ℕ) where
  abbrev T : ErtParams E
  T = trie small spec memctxt

  -- What `ert_alloc` returns: `NULL`, or the root of a trie without values
  abbrev pub Creates : (e accum : ℕ) → TrieState E → Option (ℕ × TrieState E) → Type 0
  Creates e accum st o =
      (v : ℕ) × (st' : TrieState E) × (o ≡ some (v, st'))
      × (((v ≡ 0) × Refused small spec memctxt)
          ⊎ ((rep : Represents g Room v st' (λ id. 0)) × TakesRoom st rep))

  module _ (e accum : ℕ) (st : TrieState E) (ne : ¬ Room st.env e) where
    abbrev a : ℕ × TrieState E
    a = alloc_node T st memctxt (is_leaf g 0)

    abbrev m' : ℕ → ℕ
    m' = update (ert_init T a.0 (is_leaf g 0) (update a.1.mem accum 0)) e a.0

    asserted :
        (not (ltb ((g.order * sub32 g.depth 1 + g.last_order) % 2 ^ 32) 64) || ltb g.depth 1)
        ≡ false
    asserted =
        let some' : 1 ≤ g.depth = small.some_level in
        let bits : g.order * (g.depth - 1) + g.last_order < 64 = small.bits in
        let no : ltb g.depth 1 ≡ false = ground arith in
        rw (offset g small allocfn, lt→ltb (id_bits g) 64 bits, no) refl

    leaf_lem : (g.depth == 1) ≡ is_leaf g 0
    leaf_lem = ground arith

    ert_alloc-result :
        ert_alloc T e accum memctxt st
        ≡ (if a.0 == 0 then some (0, a.1) else some (a.0, set_mem a.1 m'))
    unfolding ert_alloc
    ert_alloc-result = elim (Bool-cases (a.0 == 0)) [
      | inl z ↦ rw (asserted, leaf_lem, z) refl
      | inr n ↦
          rw
            (
              asserted,
              leaf_lem,
              n,
              update_self (ert_init T a.0 (is_leaf g 0) (update a.1.mem accum 0)) e a.0,
            )
            refl
    ]

    fresh_root :
        (k : ℕ)
        → a.0 ≢ 0
        → k < slots g 0
        → Room st.env (a.0 + k * slot_sz g 0) × (¬ Room a.1.env (a.0 + k * slot_sz g 0))
    fresh_root k n lt =
        alloc_node-fresh small spec memctxt st (is_leaf g 0) (k * slot_sz g 0) n
          (slot-in_node small spec memctxt 0 k lt)

    root_zero : (k : ℕ) → a.0 ≢ 0 → k < slots g 0 → m' (a.0 + k * slot_sz g 0) ≡ 0
    root_zero k n lt =
        update_ne (ert_init T a.0 (is_leaf g 0) (update a.1.mem accum 0)) e a.0
          (a.0 + k * slot_sz g 0) (λ s. ne (subst (Room st.env) s (fresh_root k n lt).0))
        ∙ ert_init-slot g allocfn a.0 0 (update a.1.mem accum 0) k lt

    root-links :
        (p : List ℕ) (k : ℕ)
        → a.0 ≢ 0
        → only_root a.0 p ≢ 0
        → k < slots g (length p)
        → m' (slot g (only_root a.0) p k) ≡ only_root a.0 (k ∷ p)
    root-links [] k n np lt = root_zero k n lt
    root-links (j ∷ p) k n np lt = absurd (np refl)

    root-apart :
        (p q : List ℕ) (k l : ℕ)
        → only_root a.0 p ≢ 0
        → only_root a.0 q ≢ 0
        → slot g (only_root a.0) p k ≡ slot g (only_root a.0) q l
        → (p ≡ q) × (k ≡ l)
    root-apart [] [] k l np nq s =
        (refl, mul_cancel k l (slot_sz g 0) (slot_sz_pos g small 0) (add_left_cancel a.0 s))
    root-apart [] (j ∷ q) k l np nq s = absurd (nq refl)
    root-apart (j ∷ p) q k l np nq s = absurd (np refl)

    root-taken :
        (p : List ℕ) (k : ℕ)
        → a.0 ≢ 0
        → only_root a.0 p ≢ 0
        → k < slots g (length p)
        → ¬ Room a.1.env (slot g (only_root a.0) p k)
    root-taken [] k n np lt = (fresh_root k n lt).1
    root-taken (j ∷ p) k n np lt = absurd (np refl)

    root-value :
        (p : List ℕ) (k : ℕ)
        → a.0 ≢ 0
        → k < slots g (length p)
        → value_at g m' (only_root a.0) p k ≡ 0
    root-value [] k n lt = value_zero (m' (a.0 + k * slot_sz g 0)) a.0 (root_zero k n lt)
    root-value (j ∷ p) k n lt = refl

    root-IsTrie : a.0 ≢ 0 → IsTrie g m' a.0 (only_root a.0)
    root-IsTrie n = record {
      root = refl;
      root_not_null = n;
      links = λ p k h np lt. root-links p k n np lt;
      cut_off = λ p k z. refl;
      apart = λ p q k l hp hq np nq lp lq s. root-apart p q k l np nq s;
    }

    pub root-Represents : a.0 ≢ 0 → Represents g Room a.0 (set_mem a.1 m') (λ id. 0)
    root-Represents n = record {
      node = only_root a.0;
      holds = record { trie_held = root-IsTrie n; taken = λ p k h np lt. root-taken p k n np lt };
      agrees = λ id lt. root-value (leaf_of g id) (digit g id (g.depth - 1)) n (leaf_digit-lt g id);
    }

    root_outside :
        (x : ℕ) (p : List ℕ) (k : ℕ)
        → a.0 ≢ 0
        → ¬ Room st.env x
        → only_root a.0 p ≢ 0
        → k < slots g (length p)
        → slot g (only_root a.0) p k ≢ x
    root_outside x [] k n out np lt s = out (subst (Room st.env) s (fresh_root k n lt).0)
    root_outside x (j ∷ p) k n out np lt s = np refl

    pub root-Spare : (n : a.0 ≢ 0) (x : ℕ) → ¬ Room st.env x → Spare (root-Represents n) x
    unfolding root-Represents
    root-Spare n x out = (
      (λ r. out (alloc_node-shrinks small spec memctxt st (is_leaf g 0) x r)),
      (λ p k h np lt. root_outside x p k n out np lt),
    )

    -- `ert_alloc` ends without a failed assert. If the allocator keeps to its contract and `e` is none of
    -- its words, it returns `NULL` where an allocation failed, and else the root of a trie that has no
    -- value and takes only words that the allocator had.
    pub ert_alloc-Creates : Creates e accum st (ert_alloc T e accum memctxt st)
    ert_alloc-Creates = elim (Bool-cases (a.0 == 0)) [
      | inl z ↦ (0, a.1, ert_alloc-result ∙ rw z refl, inl (refl, (st, is_leaf g 0, ==→eq _ 0 z)))
      | inr n ↦ (
        a.0,
        set_mem a.1 m',
        ert_alloc-result ∙ rw n refl,
        inr (root-Represents (==→ne _ 0 n), record { others_spare = root-Spare (==→ne _ 0 n) }),
      )
    ]
