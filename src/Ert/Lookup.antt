-- ===== src/Ert/Lookup.antt =====
-- `__ert_lookup` (ps_ertrie.h) with the default functions gives what the trie stands for.
use ps.Base.{
  two_pow_pos, ==_self, update_self, update_ne, le→leb, lt→ltb, ==→ne, ℕ, zero, suc, ◌+◌, ◌-◌, ◌*◌,
  ◌%◌, ◌^◌, ◌≤◌, ◌<◌, ◌≡◌, ◌≢◌, refl, subst, Bool, true, false, ◌&&◌, none, some, List, arith, ltb,
  ◌==◌, if◌then◌else◌, update, Bool-cases, inl, inr, ne→==, eq→==, ==→eq, ◌∙◌, sym,
}
use ps.Ert.{
  valid_call, limit_of, TrieState, ErtParams, sub32, walk_offset, ert_walk, lookup_loop, ert_lookup,
  lookup_end, ert_maxid,
}
use native.Mathlib.Nat.{
  sub-zero, zero-add, mul-le-mul_left, mul-le-mul_right, mod-lt, mod-eq_of_lt, add-zero,
}
use ps.Ert.Default.{ert_create_def}
use ps.Ert.Shape.{
  store-IsTrie, Geometry, IsSmall, is_leaf, slot_sz, digit, path_of, slot, IsTrie, Outside,
  contents, length-path_of, digit-lt, null_below,
}

and_false : (b : Bool) → (b && false) ≡ false
and_false true = refl
and_false false = refl

module _ {E : Type 0} (g : Geometry) (small : IsSmall g)
    (allocfn : TrieState E → (memctxt sz : ℕ) → (leaf : Bool) → ℕ × TrieState E) where
  abbrev pub trie : ErtParams E
  trie = ert_create_def g.depth g.order g.last_order g.last_sz allocfn

  shift_small : (i : ℕ) → i + 2 ≤ g.depth → g.order * (g.depth - (i + 2)) + g.last_order < 64
  shift_small i h =
      let le : g.order * (g.depth - (i + 2)) ≤ g.order * (g.depth - 1) =
        mul-le-mul_left g.order (omega arith) in
      let b : g.order * (g.depth - 1) + g.last_order < 64 = small.bits in omega arith

  sub32_depth : (i j : ℕ) → i + j ≤ g.depth → sub32 (sub32 g.depth i) j ≡ g.depth - (i + j)
  sub32_depth i j h = let few : g.depth < 2 ^ 32 = small.few_levels in omega arith

  add_one : (i : ℕ) → i + 1 ≡ suc i
  add_one i = omega arith

  skip : (i k : ℕ) → i + suc k ≡ i + 1 + k
  skip i k = omega arith

  last_step : (i : ℕ) → i < g.depth → (sub32 (sub32 g.depth i) 1 == 0) ≡ is_leaf g i
  last_step i h = rw (sub32_depth i 1 (omega arith)) (ground arith)

  two_left : (i : ℕ) → i < g.depth → is_leaf g i ≡ false → i + 2 ≤ g.depth
  two_left i h e = ground arith

  shift :
      (i : ℕ)
      → i + 2 ≤ g.depth
      → (g.order * sub32 (sub32 g.depth i) 2 + g.last_order) % 2 ^ 32
        ≡ g.order * (g.depth - (i + 2)) + g.last_order
  shift i h =
      let lt : g.order * (g.depth - (i + 2)) + g.last_order < 64 = shift_small i h in
      rw (sub32_depth i 2 h) (mod-eq_of_lt (omega arith))

  below_bits : (x : ℕ) → x % 2 ^ g.last_order ≤ 2 ^ g.last_order
  below_bits x =
      let lt : x % 2 ^ g.last_order < 2 ^ g.last_order = mod-lt x (two_pow_pos g.last_order) in
      omega arith

  -- The offset of a slot has 32 bits.
  fits_leaf : (x : ℕ) → x % 2 ^ g.last_order * g.last_sz % 2 ^ 32 ≡ x % 2 ^ g.last_order * g.last_sz
  fits_leaf x =
      let le : x % 2 ^ g.last_order * g.last_sz ≤ 2 ^ g.last_order * g.last_sz =
        mul-le-mul_right g.last_sz (below_bits x) in
      let fit : 2 ^ g.last_order * g.last_sz < 2 ^ 31 = small.leaf_fits in
      mod-eq_of_lt (omega arith)

  fits_inner : (x : ℕ) → x % 2 ^ g.order * 8 % 2 ^ 32 ≡ x % 2 ^ g.order * 8
  fits_inner x =
      let lt : x % 2 ^ g.order < 2 ^ g.order = mod-lt x (two_pow_pos g.order) in
      let fit : 2 ^ g.order * 8 < 2 ^ 31 = small.intern_fits in mod-eq_of_lt (omega arith)

  pub walk_offset-digit :
      (id i : ℕ) → i < g.depth → walk_offset trie id (sub32 g.depth i) ≡ digit g id i * slot_sz g i
  walk_offset-digit id i h = elim (Bool-cases (is_leaf g i)) [
    | inl e ↦ rw (last_step i h, e) (fits_leaf id)
    | inr e ↦ rw (last_step i h, e, shift i (two_left i h e)) (fits_inner _)
  ]

  module _ {m : ℕ → ℕ} {v : ℕ} {node : List ℕ → ℕ} (t : IsTrie g m v node) where
    -- A walk from a word that points to a node of the path leads to the slot of the next digit.
    pub walk-slot :
        (id accum i n : ℕ)
        → i < g.depth
        → m n ≡ node (path_of g id i)
        → ert_walk trie m n id accum (sub32 g.depth i) ≡ slot g node (path_of g id i) (digit g id i)
    unfolding ert_walk
    walk-slot id accum i n h e = rw (e, walk_offset-digit id i h, length-path_of g id i) refl

    pub next_node :
        (id i : ℕ)
        → i + 1 < g.depth
        → node (path_of g id i) ≢ 0
        → m (slot g node (path_of g id i) (digit g id i)) ≡ node (path_of g id (i + 1))
    unfolding path_of
    next_node id i h ne =
        subst (λ j. m (slot g node (path_of g id i) (digit g id i)) ≡ node (path_of g id j))
          (sym (add_one i))
          (t.links (path_of g id i) (digit g id i) (rw (length-path_of g id i) h) ne
            (rw (length-path_of g id i) (digit-lt g id i)))

    -- A round of the loop follows the link of a node.
    lookup_loop-step :
        (k id accum i n : ℕ)
        → i < g.depth
        → m n ≡ node (path_of g id i)
        → node (path_of g id i) ≢ 0
        → lookup_loop trie (suc k) m id accum i n
          ≡ lookup_loop trie k m id accum (i + 1) (slot g node (path_of g id i) (digit g id i))
    unfolding lookup_loop
    lookup_loop-step k id accum i n h e ne =
        rw (walk-slot id accum i n h e, ne→== (m n) 0 (λ z. ne (sym e ∙ z))) refl

    lookup_loop-null :
        (k id accum i n : ℕ) → m n ≡ 0 → lookup_loop trie (suc k) m id accum i n ≡ none
    unfolding lookup_loop
    lookup_loop-null k id accum i n e = rw (eq→== (m n) 0 e) refl

    lookup_loop-end : (id accum i n : ℕ) → lookup_loop trie zero m id accum i n ≡ some n
    unfolding lookup_loop
    lookup_loop-end id accum i n = refl

    lookup_loop-missing :
        (k id accum i n : ℕ)
        → m n ≡ node (path_of g id i)
        → node (path_of g id i) ≡ 0
        → lookup_loop trie (suc k) m id accum i n ≡ (
            if node (path_of g id (i + k)) == 0
            then none
            else some (slot g node (path_of g id (i + k)) (digit g id (i + k))))
    lookup_loop-missing k id accum i n e z =
        rw (null_below g id i k t z) (lookup_loop-null k id accum i n (e ∙ z))

    -- The rounds end at the slot of the last digit, unless a node on the way is missing.
    pub lookup_loop-slot :
        (k id accum i n : ℕ)
        → i + suc k ≤ g.depth
        → m n ≡ node (path_of g id i)
        → lookup_loop trie (suc k) m id accum i n ≡ (
            if node (path_of g id (i + k)) == 0
            then none
            else some (slot g node (path_of g id (i + k)) (digit g id (i + k))))
    lookup_loop-slot zero id accum i n h e = elim (Bool-cases (node (path_of g id i) == 0)) [
      | inl z ↦ lookup_loop-missing 0 id accum i n e (==→eq _ 0 z)
      | inr z ↦
          rw (lookup_loop-step 0 id accum i n (omega arith) e (==→ne _ 0 z), add-zero i, z)
            (lookup_loop-end id accum (i + 1) (slot g node (path_of g id i) (digit g id i)))
    ]
    lookup_loop-slot (suc k) id accum i n h e = elim (Bool-cases (node (path_of g id i) == 0)) [
      | inl z ↦ lookup_loop-missing (suc k) id accum i n e (==→eq _ 0 z)
      | inr z ↦
          let s = slot g node (path_of g id i) (digit g id i) in
          rw (lookup_loop-step (suc k) id accum i n (omega arith) e (==→ne _ 0 z), skip i k)
            (lookup_loop-slot k id accum (i + 1) s (omega arith)
              (next_node id i (omega arith) (==→ne _ 0 z)))
    ]

  lookup_end_lem :
      (m : ℕ → ℕ) (dlimit accum i n : ℕ)
      → lookup_end trie m dlimit accum i n ≡ (if dlimit == g.depth + 1 then m n else n)
  unfolding lookup_end
  lookup_end_lem m dlimit accum i n = rw (and_false (i == g.depth), and_false (ltb i g.depth)) refl

  last_lt : g.depth - 1 < g.depth
  last_lt = let some' : 1 ≤ g.depth = small.some_level in omega arith

  limit_last : limit_of trie (g.depth + 1) ≡ suc (g.depth - 1)
  limit_last = let some' : 1 ≤ g.depth = small.some_level in ground arith

  limit_inner : (d : ℕ) → d < g.depth → limit_of trie (suc d) ≡ suc d
  limit_inner d h = ground arith

  inner_ne : (d : ℕ) → d < g.depth → suc d ≢ g.depth + 1
  inner_ne d h e = omega arith

  module _ {mem : ℕ → ℕ} {v : ℕ} {node : List ℕ → ℕ} (t : IsTrie g mem v node) where
    lookup-limit :
        (r id accum dlimit d : ℕ)
        → Outside g node r
        → id < ert_maxid trie
        → dlimit ≤ g.depth + 1
        → d < g.depth
        → limit_of trie dlimit ≡ suc d
        → ert_lookup trie r v id 0 dlimit accum mem
          ≡ some (
              if node (path_of g id d) == 0
              then 0
              else if dlimit == g.depth + 1
              then mem (slot g node (path_of g id d) (digit g id d))
              else slot g node (path_of g id d) (digit g id d))
    unfolding ert_lookup path_of
    lookup-limit r id accum dlimit d out lt le h e =
        elim (Bool-cases (node (path_of g id d) == 0)) [
          | inl z ↦ rw (valid, e, sub-zero (suc d), loop, z) refl
          | inr z ↦
              let s = slot g node (path_of g id d) (digit g id d) in
              let kept : update mem r v s ≡ mem s = update_ne mem r v s (
                out (path_of g id d) (digit g id d) (rw (length-path_of g id d) h) (==→ne _ 0 z)
                  (rw (length-path_of g id d) (digit-lt g id d))) in
              rw
                (
                  valid,
                  e,
                  sub-zero (suc d),
                  loop,
                  z,
                  lookup_end_lem (update mem r v) dlimit accum
                      (if ltb 0 (limit_of trie dlimit) then limit_of trie dlimit else 0) s,
                  kept,
                )
                refl
        ]
      where
        valid : valid_call trie v id 0 dlimit ≡ true
        valid =
            rw
              (
                ne→== v 0 t.root_not_null,
                lt→ltb id (ert_maxid trie) lt,
                le→leb dlimit (g.depth + 1) le,
                le→leb 0 dlimit (omega arith),
              )
              refl

        loop : lookup_loop trie (suc d) (update mem r v) id accum 0 r ≡ (
            if node (path_of g id d) == 0
            then none
            else some (slot g node (path_of g id d) (digit g id d)))
        loop =
            subst
              (λ j. lookup_loop trie (suc d) (update mem r v) id accum 0 r ≡ (
                if node (path_of g id j) == 0
                then none
                else some (slot g node (path_of g id j) (digit g id j))))
              (zero-add d)
              (lookup_loop-slot (store-IsTrie g r v out t) d id accum 0 r (omega arith)
                (update_self mem r v ∙ sym t.root))

    -- With `dlimit = depth + 1`, the lookup gives the value of the identifier.
    pub ert_lookup-contents :
        (r id accum : ℕ)
        → Outside g node r
        → id < ert_maxid trie
        → ert_lookup trie r v id 0 (g.depth + 1) accum mem ≡ some (contents g mem node id)
    ert_lookup-contents r id accum out lt =
        lookup-limit r id accum (g.depth + 1) (g.depth - 1) out lt (omega arith) last_lt limit_last
        ∙ rw (==_self (g.depth + 1)) refl

    -- In a trie, `__ert_lookup` up to a level `d + 1` of at most `depth` for a valid identifier, with its
    -- local outside of the trie, gives the slot of the identifier at that level, and NULL if the node that
    -- would hold it is missing.
    pub ert_lookup-slot :
        (r id accum d : ℕ)
        → Outside g node r
        → id < ert_maxid trie
        → d < g.depth
        → ert_lookup trie r v id 0 (suc d) accum mem
          ≡ some (
              if node (path_of g id d) == 0 then 0 else slot g node (path_of g id d) (digit g id d))
    ert_lookup-slot r id accum d out lt h =
        lookup-limit r id accum (suc d) d out lt (omega arith) h (limit_inner d h)
        ∙ rw (ne→== (suc d) (g.depth + 1) (inner_ne d h)) refl
