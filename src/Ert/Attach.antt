-- ===== src/Ert/Attach.antt =====
-- A new node of zeros at the end of a path that had none, as a round of `__ert_expand` (ps_ertrie.h)
-- makes it.
use native.Mathlib.Nat.{add_left_cancel}
use ps.Base.{
  subst, ℕ, suc, ◌+◌, ◌*◌, ◌<◌, ◌≡◌, ◌≢◌, sym, ◌∙◌, ap, List, [], ◌∷◌, arith, length, ◌==◌,
  Bool-cases, inl, inr, ==→eq, ==→ne,
}
use ps.Ert.Paths.{
  grown, grown_self, grown_cases, list_eq, slot_of, tail_of, zero_ne_suc, ne_suc, mul_cancel,
  value_zero, value_same, value_null,
}
use ps.Ert.Shape.{value_at, Geometry, IsSmall, slot_sz, slots, slot, slot_sz_pos, IsTrie}

-- The memory `m'` after the node `new` was made, filled with zeros, and linked at the slot `d` of the
-- node of the path `q`
pub record Linked (g : Geometry) (Fresh : ℕ → Type 0) (m m' : ℕ → ℕ) (node : List ℕ → ℕ)
    (q : List ℕ) (d new : ℕ) : Type 0 where
  pub inner : length q + 1 < g.depth
  pub parent : node q ≢ 0
  pub in_range : d < slots g (length q)
  pub was_null : node (d ∷ q) ≡ 0
  pub not_null : new ≢ 0
  pub link : m' (slot g node q d) ≡ new
  pub zeros : (k : ℕ) → k < slots g (suc (length q)) → m' (new + k * slot_sz g (suc (length q))) ≡ 0
  pub fresh_slots :
      (k : ℕ) → k < slots g (suc (length q)) → Fresh (new + k * slot_sz g (suc (length q)))
  pub others : (a : ℕ) → ¬ Fresh a → a ≢ slot g node q d → m' a ≡ m a
  pub old_slots :
      (p : List ℕ) (k : ℕ)
      → length p < g.depth
      → node p ≢ 0
      → k < slots g (length p)
      → ¬ Fresh (slot g node p k)

module _ {g : Geometry} (small : IsSmall g) {Fresh : ℕ → Type 0} {m m' : ℕ → ℕ} {v : ℕ}
    {node : List ℕ → ℕ} {q : List ℕ} {d new : ℕ} (t : IsTrie g m v node)
    (l : Linked g Fresh m m' node q d new) where
  abbrev node' : List ℕ → ℕ
  node' = grown node (d ∷ q) new

  parent_lt : length q < g.depth
  parent_lt = let i : length q + 1 < g.depth = l.inner in omega arith

  other_len : (k : ℕ) → k ∷ d ∷ q ≢ d ∷ q
  other_len k e = ne_suc (length q) (ap length e)

  node'-old : (p : List ℕ) → p ≢ d ∷ q → node' p ≡ node p
  node'-old p n = elim (grown_cases node (d ∷ q) new p) [ inl e ↦ absurd (n e) | inr (n', e) ↦ e ]

  node'-below : (k : ℕ) → node' (k ∷ d ∷ q) ≡ 0
  node'-below k = node'-old (k ∷ d ∷ q) (other_len k) ∙ t.cut_off (d ∷ q) k l.was_null

  links_new :
      (k : ℕ) → k < slots g (length (d ∷ q)) → m' (slot g node' (d ∷ q) k) ≡ node' (k ∷ d ∷ q)
  links_new k lt =
      ap (λ a. m' (a + k * slot_sz g (length (d ∷ q)))) (grown_self node (d ∷ q) new)
      ∙ l.zeros k lt
      ∙ sym (node'-below k)

  links_old :
      (p : List ℕ) (k : ℕ)
      → length p + 1 < g.depth
      → node p ≢ 0
      → k < slots g (length p)
      → m' (slot g node p k) ≡ node' (k ∷ p)
  links_old p k h ne lt = elim (Bool-cases (slot g node p k == slot g node q d)) [
    | inl e ↦
        let same =
          t.apart p q k d (omega arith) parent_lt ne l.parent lt l.in_range (==→eq _ _ e) in
        ap m' (==→eq _ _ e)
        ∙ l.link
        ∙ sym (ap node' (list_eq same.1 same.0) ∙ grown_self node (d ∷ q) new)
    | inr e ↦
        l.others (slot g node p k) (l.old_slots p k (omega arith) ne lt) (==→ne _ _ e)
        ∙ t.links p k h ne lt
        ∙ sym (node'-old (k ∷ p) (λ pq. ==→ne _ _ e (ap (slot_of g node) pq)))
  ]

  attach-links :
      (p : List ℕ) (k : ℕ)
      → length p + 1 < g.depth
      → node' p ≢ 0
      → k < slots g (length p)
      → m' (slot g node' p k) ≡ node' (k ∷ p)
  attach-links p k h ne lt = elim (grown_cases node (d ∷ q) new p) [
    | inl e ↦
        subst (λ r. k < slots g (length r) → m' (slot g node' r k) ≡ node' (k ∷ r)) (sym e)
          (links_new k) lt
    | inr (n, e) ↦
        ap (λ a. m' (a + k * slot_sz g (length p))) e ∙ links_old p k h (λ z. ne (e ∙ z)) lt
  ]

  attach-cut_off : (p : List ℕ) (k : ℕ) → node' p ≡ 0 → node' (k ∷ p) ≡ 0
  attach-cut_off p k z = elim (grown_cases node (d ∷ q) new p) [
    | inl e ↦ absurd (l.not_null (sym (grown_self node (d ∷ q) new) ∙ ap node' (sym e) ∙ z))
    | inr (n, e) ↦
        let nil : node p ≡ 0 = sym e ∙ z in
        node'-old (k ∷ p) (λ e'. l.parent (sym (ap node (ap tail_of e')) ∙ nil)) ∙ t.cut_off p k nil
  ]

  -- No slot of an old node is one of the new node.
  old_new :
      (p : List ℕ) (k j : ℕ)
      → length p < g.depth
      → node p ≢ 0
      → k < slots g (length p)
      → j < slots g (suc (length q))
      → slot g node p k ≢ new + j * slot_sz g (suc (length q))
  old_new p k j h ne lt lj e = l.old_slots p k h ne lt (subst Fresh (sym e) (l.fresh_slots j lj))

  slot_new :
      (p : List ℕ) (k : ℕ) → p ≡ d ∷ q → slot g node' p k ≡ new + k * slot_sz g (suc (length q))
  slot_new p k e =
      ap (λ r. slot g node' r k) e
      ∙ ap (λ a. a + k * slot_sz g (suc (length q))) (grown_self node (d ∷ q) new)

  slot_old : (p : List ℕ) (k : ℕ) → node' p ≡ node p → slot g node' p k ≡ slot g node p k
  slot_old p k e = ap (λ a. a + k * slot_sz g (length p)) e

  length_new :
      (p : List ℕ) (k : ℕ) → p ≡ d ∷ q → k < slots g (length p) → k < slots g (suc (length q))
  length_new p k e lt = subst (λ r. k < slots g (length r)) e lt

  attach-apart :
      (p r : List ℕ) (k j : ℕ)
      → length p < g.depth
      → length r < g.depth
      → node' p ≢ 0
      → node' r ≢ 0
      → k < slots g (length p)
      → j < slots g (length r)
      → slot g node' p k ≡ slot g node' r j
      → (p ≡ r) × (k ≡ j)
  attach-apart p r k j hp hr np nr lp lr e = elim (grown_cases node (d ∷ q) new p) [
    | inl ep ↦ elim (grown_cases node (d ∷ q) new r) [
      | inl er ↦
          let sums = sym (slot_new p k ep) ∙ e ∙ slot_new r j er in
          let wide = slot_sz_pos g small (suc (length q)) in
          (ep ∙ sym er, mul_cancel k j (slot_sz g (suc (length q))) wide (add_left_cancel new sums))
      | inr er ↦ absurd (
          old_new r j k hr (λ z. nr (er.1 ∙ z)) lr (length_new p k ep lp)
            (sym (slot_old r j er.1) ∙ sym e ∙ slot_new p k ep))
    ]
    | inr ep ↦ elim (grown_cases node (d ∷ q) new r) [
      | inl er ↦ absurd (
          old_new p k j hp (λ z. np (ep.1 ∙ z)) lp (length_new r j er lr)
            (sym (slot_old p k ep.1) ∙ e ∙ slot_new r j er))
      | inr er ↦
          t.apart p r k j hp hr (λ z. np (ep.1 ∙ z)) (λ z. nr (er.1 ∙ z)) lp lr
            (sym (slot_old p k ep.1) ∙ e ∙ slot_old r j er.1)
    ]
  ]

  inner_ne : (p : List ℕ) → length p + 1 ≡ g.depth → p ≢ q
  inner_ne p h e =
      let i : length q + 1 < g.depth = l.inner in
      let same : length p ≡ length q = ap length e in omega arith

  pub attach-IsTrie : IsTrie g m' v node'
  attach-IsTrie = record {
    root = node'-old [] (λ e. zero_ne_suc (ap length e)) ∙ t.root;
    root_not_null = t.root_not_null;
    links = attach-links;
    cut_off = attach-cut_off;
    apart = attach-apart;
  }

  -- What holds of the old slots and of those of the new node holds of each slot.
  pub attach-each :
      (P : ℕ → Type 0)
      → ((k : ℕ) → k < slots g (suc (length q)) → P (new + k * slot_sz g (suc (length q))))
      → ((p : List ℕ) (k : ℕ)
          → length p < g.depth
          → node p ≢ 0
          → k < slots g (length p)
          → P (slot g node p k))
      → (p : List ℕ) (k : ℕ) → length p < g.depth
      → node' p ≢ 0
      → k < slots g (length p)
      → P (slot g node' p k)
  attach-each P pn po p k h ne lt = elim (grown_cases node (d ∷ q) new p) [
    | inl e ↦ subst P (sym (slot_new p k e)) (pn k (length_new p k e lt))
    | inr e ↦ subst P (sym (slot_old p k e.1)) (po p k h (λ z. ne (e.1 ∙ z)) lt)
  ]

  -- The new node is empty, so that no value changes.
  pub attach-value :
      (p : List ℕ) (k : ℕ)
      → length p + 1 ≡ g.depth
      → k < slots g (length p)
      → value_at g m' node' p k ≡ value_at g m node p k
  attach-value p k h lt = elim (grown_cases node (d ∷ q) new p) [
    | inl e ↦
        value_zero (m' (slot g node' p k)) (node' p)
          (ap m' (slot_new p k e) ∙ l.zeros k (length_new p k e lt))
        ∙ sym (value_null (m (slot g node p k)) (node p) (ap node e ∙ l.was_null))
    | inr e ↦ elim (Bool-cases (node p == 0)) [
      | inl z ↦
          value_null (m' (slot g node' p k)) (node' p) (e.1 ∙ ==→eq _ 0 z)
          ∙ sym (value_null (m (slot g node p k)) (node p) (==→eq _ 0 z))
      | inr z ↦
          let ne = ==→ne _ 0 z in
          let other : slot g node p k ≢ slot g node q d = λ s.
            (inner_ne p h
              (t.apart p q k d (omega arith) parent_lt ne l.parent lt l.in_range s).0) in
          let kept =
            ap m' (slot_old p k e.1)
            ∙ l.others (slot g node p k) (l.old_slots p k (omega arith) ne lt) other in
          value_same e.1 kept
    ]
  ]
