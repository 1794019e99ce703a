-- ===== src/Ert/Grow.antt =====
-- One round of the loop of `__ert_expand` (ps_ertrie.h) with the default functions.
use ps.Base.{
  ℕ, suc, ◌+◌, ◌-◌, ◌*◌, ◌≤◌, ◌<◌, ◌≡◌, ◌≢◌, ◌⊎◌, inl, inr, refl, sym, ◌∙◌, subst, Bool, true,
  false, not, List, ◌∷◌, arith, length, ltb, ◌==◌, update, update_ne, update_self, Bool-cases,
  eq→==, ne→==, ==→eq, ==→ne,
}
use ps.Ert.{TrieState, alloc_node, expand_at, ert_init, set_mem}
use ps.Ert.Shape.{
  Geometry, IsSmall, Outside, is_leaf, slot_sz, slots, slot, digit, path_of, contents, digit-lt,
  held_kept, leaf_of, length-path_of,
}
use ps.Ert.Allocate.{
  trie, Refused, alloc_node-keeps, alloc_node-shrinks, alloc_node-fresh, slot-in_node,
}
use ps.Ert.Room.{AllocSpec, Holds, ert_init-slot, ert_init-frame}
use ps.Ert.Attach.{Linked, attach-IsTrie, attach-each, attach-value}
use ps.Ert.Paths.{grown, grown_self, value_same}

-- From `st` to `st'` the trie got new nodes, but no value changed.
pub record Grown {E : Type 0} (g : Geometry) (Room : E → ℕ → Type 0) (v : ℕ) (st st' : TrieState E)
    (node node' : List ℕ → ℕ) : Type 0 where
  pub holds : Holds g Room st' v node'
  pub same : (id : ℕ) → contents g st'.mem node' id ≡ contents g st.mem node id
  pub frame :
      (a : ℕ)
      → ¬ Room st.env a
      → Outside g node a
      → (st'.mem a ≡ st.mem a) × Outside g node' a × (¬ Room st'.env a)

module _ {E : Type 0} {g : Geometry} {Room : E → ℕ → Type 0} {v : ℕ} where
  pub Grown-refl :
      {st : TrieState E} {node : List ℕ → ℕ}
      → Holds g Room st v node
      → Grown g Room v st st node node
  Grown-refl h = record { holds = h; same = λ id. refl; frame = λ a r o. (refl, o, r) }

  pub Grown-trans :
      {s t u : TrieState E} {n o p : List ℕ → ℕ}
      → Grown g Room v s t n o
      → Grown g Room v t u o p
      → Grown g Room v s u n p
  Grown-trans a b = record {
    holds = b.holds;
    same = λ id. b.same id ∙ a.same id;
    frame =
        λ x r o. let f = a.frame x r o in let f' = b.frame x f.2 f.1 in (f'.0 ∙ f.0, f'.1, f'.2);
  }

module _ {g : Geometry} (small : IsSmall g) where
  pub leaf_lt : (id : ℕ) → length (leaf_of g id) < g.depth
  leaf_lt id =
      let some' : 1 ≤ g.depth = small.some_level in
      rw (length-path_of g id (g.depth - 1)) (omega arith)

  pub leaf_end : (id : ℕ) → length (leaf_of g id) + 1 ≡ g.depth
  leaf_end id =
      let some' : 1 ≤ g.depth = small.some_level in
      rw (length-path_of g id (g.depth - 1)) (omega arith)

  -- What the allocator does to its own words does not matter.
  pub Grown-keep :
      {E : Type 0} {Room : E → ℕ → Type 0} {v : ℕ} {s t : TrieState E} (node : List ℕ → ℕ)
      → Holds g Room s v node
      → ((a : ℕ) → ¬ Room s.env a → t.mem a ≡ s.mem a)
      → ((a : ℕ) → Room t.env a → Room s.env a)
      → Grown g Room v s t node node
  Grown-keep node h mem room = record {
    holds = record {
      trie_held = held_kept g h.trie_held (λ p k lp ne lk. mem _ (h.taken p k lp ne lk));
      taken = λ p k lp ne lk r. h.taken p k lp ne lk (room _ r);
    };
    same = λ id. elim (Bool-cases (node (leaf_of g id) == 0)) [
      | inl z ↦ rw z refl
      | inr z ↦ value_same refl (
          mem _ (
            h.taken (leaf_of g id) (digit g id (g.depth - 1)) (leaf_lt id) (==→ne _ 0 z)
              (rw (length-path_of g id (g.depth - 1)) (digit-lt g id (g.depth - 1)))))
    ];
    frame = λ a r o. (mem a r, o, λ r'. r (room a r'));
  }

level : (i : ℕ) {l : ℕ} → l ≡ i → i + 1 ≡ suc l
level i e = omega arith

module _ {E : Type 0} {g : Geometry} (small : IsSmall g) {Room : E → ℕ → Type 0}
    {allocfn : TrieState E → (memctxt sz : ℕ) → (leaf : Bool) → ℕ × TrieState E}
    (spec : AllocSpec Room allocfn) (memctxt : ℕ) where
  module _ (accum i : ℕ) (st : TrieState E) (s : ℕ) (le : i + 2 ≤ g.depth) where
    abbrev leaf : Bool
    leaf = is_leaf g (i + 1)

    leaf_lem : not (ltb (i + 2) g.depth) ≡ leaf
    leaf_lem = ground arith

    expand_at-present :
        st.mem s ≢ 0 → expand_at (trie small spec memctxt) memctxt accum i s st ≡ (true, st)
    unfolding expand_at
    expand_at-present ne = rw (ne→== (st.mem s) 0 ne) refl

    expand_at-refused :
        st.mem s ≡ 0
        → (alloc_node (trie small spec memctxt) st memctxt leaf).0 ≡ 0
        → expand_at (trie small spec memctxt) memctxt accum i s st
          ≡ (false, (alloc_node (trie small spec memctxt) st memctxt leaf).1)
    unfolding expand_at
    expand_at-refused z none' = rw (leaf_lem, eq→== (st.mem s) 0 z, eq→== _ 0 none') refl

    expand_at-linked :
        st.mem s ≡ 0
        → (alloc_node (trie small spec memctxt) st memctxt leaf).0 ≢ 0
        → let a = alloc_node (trie small spec memctxt) st memctxt leaf in
          expand_at (trie small spec memctxt) memctxt accum i s st
          ≡ (true, set_mem a.1 (update (ert_init (trie small spec memctxt) a.0 leaf a.1.mem) s a.0))
    unfolding expand_at
    expand_at-linked z ne = rw (leaf_lem, eq→== (st.mem s) 0 z, ne→== _ 0 ne) refl

  module _ {v : ℕ} (id accum i : ℕ) (st : TrieState E) (node : List ℕ → ℕ)
      (h : Holds g Room st v node) (le : i + 2 ≤ g.depth) (ne : node (path_of g id i) ≢ 0) where
    abbrev s : ℕ
    s = slot g node (path_of g id i) (digit g id i)

    abbrev a : ℕ × TrieState E
    a = alloc_node (trie small spec memctxt) st memctxt (is_leaf g (i + 1))

    -- A round ends with a node behind the slot, or an allocation failed.
    abbrev pub Round : Bool × TrieState E → Type 0
    Round r =
        (node' : List ℕ → ℕ) × Grown g Room v st r.1 node node'
        × (((r.0 ≡ true)
              × (r.1.mem s ≡ node' (path_of g id (suc i)))
              × (node' (path_of g id (suc i)) ≢ 0))
            ⊎ ((r.0 ≡ false) × Refused small spec memctxt))

    path_lt : length (path_of g id i) < g.depth
    path_lt = rw (length-path_of g id i) (omega arith)

    digit_in : digit g id i < slots g (length (path_of g id i))
    digit_in = rw (length-path_of g id i) (digit-lt g id i)

    s_taken : ¬ Room st.env s
    s_taken = h.taken (path_of g id i) (digit g id i) path_lt ne digit_in

    next_link : st.mem s ≡ node (path_of g id (suc i))
    unfolding path_of
    next_link =
        h.trie_held.links (path_of g id i) (digit g id i) (rw (length-path_of g id i) (omega arith))
          ne digit_in

    present : st.mem s ≢ 0 → Round (true, st)
    present n = (node, Grown-refl h, inl (refl, next_link, λ z. n (next_link ∙ z)))

    refused : a.0 ≡ 0 → Round (false, a.1)
    refused z = (
      node,
      Grown-keep small node h (alloc_node-keeps small spec memctxt st (is_leaf g (i + 1)))
          (alloc_node-shrinks small spec memctxt st (is_leaf g (i + 1))),
      inr (refl, (st, is_leaf g (i + 1), z)),
    )

    abbrev m' : ℕ → ℕ
    m' = update (ert_init (trie small spec memctxt) a.0 (is_leaf g (i + 1)) a.1.mem) s a.0

    -- The slots of the new node are 0, were free and are taken.
    abbrev NewSlots : ℕ → Type 0
    NewSlots j =
        (k : ℕ)
        → k < slots g j
        → (m' (a.0 + k * slot_sz g j) ≡ 0)
          × Room st.env (a.0 + k * slot_sz g j)
          × (¬ Room a.1.env (a.0 + k * slot_sz g j))

    new_slots : a.0 ≢ 0 → NewSlots (suc (length (path_of g id i)))
    new_slots n = subst NewSlots (level i (length-path_of g id i)) (λ k lt.
        let x = a.0 + k * slot_sz g (i + 1) in
        let f =
          alloc_node-fresh small spec memctxt st (is_leaf g (i + 1)) (k * slot_sz g (i + 1)) n
            (slot-in_node small spec memctxt (i + 1) k lt) in
        (
          update_ne (ert_init (trie small spec memctxt) a.0 (is_leaf g (i + 1)) a.1.mem) s a.0 x
                (λ e. s_taken (subst (Room st.env) e f.0))
              ∙ ert_init-slot g allocfn a.0 (i + 1) a.1.mem k lt,
          f.0,
          f.1,
        ))

    linked_lem :
        st.mem s ≡ 0
        → a.0 ≢ 0
        → Linked g (Room st.env) st.mem m' node (path_of g id i) (digit g id i) a.0
    unfolding path_of
    linked_lem z n = record {
      inner = rw (length-path_of g id i) (omega arith);
      parent = ne;
      in_range = digit_in;
      was_null = sym next_link ∙ z;
      not_null = n;
      link = update_self (ert_init (trie small spec memctxt) a.0 (is_leaf g (i + 1)) a.1.mem) s a.0;
      zeros = λ k lt. (new_slots n k lt).0;
      fresh_slots = λ k lt. (new_slots n k lt).1;
      others = λ x r o.
          update_ne (ert_init (trie small spec memctxt) a.0 (is_leaf g (i + 1)) a.1.mem) s a.0 x o
          ∙ ert_init-frame g allocfn a.0 (i + 1) a.1.mem x (λ k lt e. r (
              subst (Room st.env) e
                (alloc_node-fresh small spec memctxt st (is_leaf g (i + 1)) (k * slot_sz g (i + 1))
                  n (slot-in_node small spec memctxt (i + 1) k lt)).0))
          ∙ alloc_node-keeps small spec memctxt st (is_leaf g (i + 1)) x r;
      old_slots = h.taken;
    }

    linked : st.mem s ≡ 0 → a.0 ≢ 0 → Round (true, set_mem a.1 m')
    unfolding path_of
    linked z n =
        let L = linked_lem z n in
        let node' = grown node (digit g id i ∷ path_of g id i) a.0 in
        let at : node' (path_of g id (suc i)) ≡ a.0 =
          grown_self node (digit g id i ∷ path_of g id i) a.0 in
        (
          node',
          record {
            holds = record {
              trie_held = attach-IsTrie small h.trie_held L;
              taken =
                  attach-each small h.trie_held L (λ x. ¬ Room a.1.env x)
                    (λ k lt. (new_slots n k lt).2)
                    (λ p k lp np lk r.
                      h.taken p k lp np lk
                        (alloc_node-shrinks small spec memctxt st (is_leaf g (i + 1)) _ r));
            };
            same = λ w.
                attach-value small h.trie_held L (leaf_of g w) (digit g w (g.depth - 1))
                  (leaf_end small w)
                  (rw (length-path_of g w (g.depth - 1)) (digit-lt g w (g.depth - 1)));
            frame = λ x r o. (
              L.others x r (λ e. o (path_of g id i) (digit g id i) path_lt ne digit_in (sym e)),
              attach-each small h.trie_held L (λ y. y ≢ x)
                  (λ k lt e. r (subst (Room st.env) e (new_slots n k lt).1)) o,
              λ r'. r (alloc_node-shrinks small spec memctxt st (is_leaf g (i + 1)) x r'),
            );
          },
          inl (refl, L.link ∙ sym at, λ e. n (sym at ∙ e)),
        )

    pub expand_at-Round : Round (expand_at (trie small spec memctxt) memctxt accum i s st)
    expand_at-Round = elim (Bool-cases (st.mem s == 0)) [
      | inl z ↦ elim (Bool-cases (a.0 == 0)) [
        | inl e ↦
            subst Round (sym (expand_at-refused accum i st s le (==→eq _ 0 z) (==→eq _ 0 e)))
              (refused (==→eq _ 0 e))
        | inr n ↦
            subst Round (sym (expand_at-linked accum i st s le (==→eq _ 0 z) (==→ne _ 0 n)))
              (linked (==→eq _ 0 z) (==→ne _ 0 n))
      ]
      | inr n ↦
          subst Round (sym (expand_at-present accum i st s le (==→ne _ 0 n)))
            (present (==→ne _ 0 n))
    ]
