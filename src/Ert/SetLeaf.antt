-- ===== src/Ert/SetLeaf.antt =====
-- The store of a value in a leaf, at the end of `__ert_expand` (ps_ertrie.h).
use ps.Base.{
  ℕ, ◌+◌, ◌-◌, ◌^◌, ◌<◌, ◌≡◌, ◌≢◌, inl, inr, refl, sym, ◌∙◌, ap, subst, List, arith, length, ◌==◌,
  if◌then◌else◌, update, update_ne, update_self, Bool-cases, ne→==, ==→eq, ==→ne,
}
use ps.Ert.Shape.{
  Geometry, IsSmall, IsTrie, slot, slots, digit, leaf_of, leaf_slot, contents, length-path_of,
  digit-lt,
}
use ps.Ert.Digits.{below, leaf_of-injective}
use ps.Ert.Paths.{value_same, value_null}
use ps.Ert.Grow.{leaf_lt, leaf_end}

pub leaf_digit-lt :
    (g : Geometry) (x : ℕ) → digit g x (g.depth - 1) < slots g (length (leaf_of g x))
leaf_digit-lt g x = rw (length-path_of g x (g.depth - 1)) (digit-lt g x (g.depth - 1))

module _ {g : Geometry} (small : IsSmall g) {m : ℕ → ℕ} {v : ℕ} {node : List ℕ → ℕ}
    (t : IsTrie g m v node) (id d : ℕ) (ne : node (leaf_of g id) ≢ 0) where
  inner_slot :
      (p : List ℕ) (k : ℕ)
      → length p + 1 < g.depth
      → node p ≢ 0
      → k < slots g (length p)
      → slot g node p k ≢ leaf_slot g node id
  inner_slot p k h np lt e =
      let same =
        t.apart p (leaf_of g id) k (digit g id (g.depth - 1)) (omega arith) (leaf_lt small id) np ne
          lt (leaf_digit-lt g id) e in
      not_inner (length p) (ap length same.0) (leaf_end small id) h
    where
      not_inner : (n : ℕ) {l : ℕ} → n ≡ l → l + 1 ≡ g.depth → n + 1 < g.depth → ⊥
      not_inner n a b c = omega arith

  pub set-IsTrie : IsTrie g (update m (leaf_slot g node id) d) v node
  set-IsTrie = record {
    root = t.root;
    root_not_null = t.root_not_null;
    cut_off = t.cut_off;
    apart = t.apart;
    links = λ p k h np lt.
        update_ne m (leaf_slot g node id) d (slot g node p k) (inner_slot p k h np lt)
        ∙ t.links p k h np lt;
  }

  -- The value of `id` is `d` then, and no other changes.
  pub set-contents :
      (x : ℕ)
      → id < 2 ^ below g small 0
      → x < 2 ^ below g small 0
      → contents g (update m (leaf_slot g node id) d) node x
        ≡ (if x == id then d else contents g m node x)
  set-contents x li lx = elim (Bool-cases (x == id)) [
    | inl e ↦ rw e (
        subst (λ y. contents g (update m (leaf_slot g node id) d) node y ≡ d) (sym (==→eq x id e))
          own)
    | inr n ↦ rw n (other (==→ne x id n))
  ]
    where
      own : contents g (update m (leaf_slot g node id) d) node id ≡ d
      own = rw (ne→== (node (leaf_of g id)) 0 ne, update_self m (leaf_slot g node id) d) refl

      other : x ≢ id → contents g (update m (leaf_slot g node id) d) node x ≡ contents g m node x
      other n = elim (Bool-cases (node (leaf_of g x) == 0)) [
        | inl z ↦
            value_null _ (node (leaf_of g x)) (==→eq _ 0 z)
            ∙ sym (value_null _ (node (leaf_of g x)) (==→eq _ 0 z))
        | inr nz ↦ value_same refl (
            update_ne m (leaf_slot g node id) d _ (λ e.
              let same =
                t.apart (leaf_of g x) (leaf_of g id) (digit g x (g.depth - 1))
                  (digit g id (g.depth - 1)) (leaf_lt small x) (leaf_lt small id) (==→ne _ 0 nz) ne
                  (leaf_digit-lt g x) (leaf_digit-lt g id) e in
              n (leaf_of-injective g small x id lx li same.0 same.1)))
      ]
