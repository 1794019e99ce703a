-- ===== src/Ert/Shape.antt =====
-- What the memory of a radix trie with the default functions stands for: nodes by their path of
-- digits, and a value for each identifier.
use ps.Base.{
  two_pow_pos, ◌∙◌, update_ne, inl, inr, Bool-cases, ℕ, zero, suc, ◌+◌, ◌-◌, ◌*◌, ◌/◌, ◌%◌, ◌^◌,
  ◌≤◌, ◌<◌, ◌≡◌, ◌≢◌, refl, Bool, List, [], ◌∷◌, arith, length, ◌==◌, if◌then◌else◌, update,
}
use native.Mathlib.Nat.{mod-lt, add-zero, add-suc}

-- The constants of `ERT_CREATE_DEF`, within the bounds that `ert_alloc` asserts
pub record Geometry : Type 0 where
  pub depth : ℕ
  pub order : ℕ
  pub last_order : ℕ
  pub last_sz : ℕ

pub record IsSmall (g : Geometry) : Type 0 where
  pub some_level : 1 ≤ g.depth
  pub few_levels : g.depth < 2 ^ 32
  pub bits : g.order * (g.depth - 1) + g.last_order < 64
  pub wide_leaves : 8 ≤ g.last_sz
  pub intern_fits : 2 ^ g.order * 8 < 2 ^ 31
  pub leaf_fits : 2 ^ g.last_order * g.last_sz < 2 ^ 31

module _ (g : Geometry) where
  -- Level `i` is that of the leaves.
  abbrev pub is_leaf : ℕ → Bool
  is_leaf i = i + 1 == g.depth

  -- The bytes between two slots of a node of level `i`, and the number of its slots
  abbrev pub slot_sz : ℕ → ℕ
  slot_sz i = if is_leaf i then g.last_sz else 8

  abbrev pub slots : ℕ → ℕ
  slots i = if is_leaf i then 2 ^ g.last_order else 2 ^ g.order

  -- The bits of an identifier
  abbrev pub id_bits : ℕ
  id_bits = g.order * (g.depth - 1) + g.last_order

  -- The digit of `id` at level `i`
  abbrev pub digit : (id i : ℕ) → ℕ
  digit id i =
      if is_leaf i
      then id % 2 ^ g.last_order
      else id / 2 ^ (g.order * (g.depth - (i + 2)) + g.last_order) % 2 ^ g.order

  -- The digits of `id` above level `i`, the last one first
  unfoldable pub path_of : (id i : ℕ) → List ℕ
  path_of id zero = []
  path_of id (suc i) = digit id i ∷ path_of id i

  -- The address of a slot
  abbrev pub slot : (List ℕ → ℕ) → List ℕ → ℕ → ℕ
  slot node p k = node p + k * slot_sz (length p)

  -- `node p` is the address of the node at the end of the path `p`, or 0.
  pub record IsTrie (m : ℕ → ℕ) (v : ℕ) (node : List ℕ → ℕ) : Type 0 where
    pub root : node [] ≡ v
    pub root_not_null : v ≢ 0
    pub links :
        (p : List ℕ) (k : ℕ)
        → length p + 1 < g.depth
        → node p ≢ 0
        → k < slots (length p)
        → m (slot node p k) ≡ node (k ∷ p)
    pub cut_off : (p : List ℕ) (k : ℕ) → node p ≡ 0 → node (k ∷ p) ≡ 0
    -- No two slots of nodes share a word.
    pub apart :
        (p q : List ℕ) (k l : ℕ)
        → length p < g.depth
        → length q < g.depth
        → node p ≢ 0
        → node q ≢ 0
        → k < slots (length p)
        → l < slots (length q)
        → slot node p k ≡ slot node q l
        → (p ≡ q) × (k ≡ l)

  -- The word `a` is outside of the nodes.
  abbrev pub Outside : (List ℕ → ℕ) → ℕ → Type 0
  Outside node a =
      (p : List ℕ) (k : ℕ)
      → length p < g.depth
      → node p ≢ 0
      → k < slots (length p)
      → slot node p k ≢ a

  pub held_kept :
      {m m' : ℕ → ℕ} {v : ℕ} {node : List ℕ → ℕ}
      → IsTrie m v node
      → ((p : List ℕ) (k : ℕ)
          → length p < g.depth
          → node p ≢ 0
          → k < slots (length p)
          → m' (slot node p k) ≡ m (slot node p k))
      → IsTrie m' v node
  held_kept t same = record {
    root = t.root;
    root_not_null = t.root_not_null;
    cut_off = t.cut_off;
    apart = t.apart;
    links = λ p k h ne lt. same p k (omega arith) ne lt ∙ t.links p k h ne lt;
  }

  -- A store outside of the nodes keeps the trie.
  pub store-IsTrie :
      {m : ℕ → ℕ} {v : ℕ} {node : List ℕ → ℕ} (a w : ℕ)
      → Outside node a
      → IsTrie m v node
      → IsTrie (update m a w) v node
  store-IsTrie {m} {v} {node} a w out t =
      held_kept t (λ p k lp ne lk. update_ne m a w (slot node p k) (out p k lp ne lk))

  -- The leaf of `id`, and the value that the trie holds for `id`, 0 if there is none
  abbrev pub leaf_of : ℕ → List ℕ
  leaf_of id = path_of id (g.depth - 1)

  -- The word that holds the value of `id`
  abbrev pub leaf_slot : (List ℕ → ℕ) → ℕ → ℕ
  leaf_slot node id = slot node (leaf_of id) (digit id (g.depth - 1))

  -- The word at the slot `k` of the node of the path `p`, 0 if the node is missing
  abbrev pub value_at : (ℕ → ℕ) → (List ℕ → ℕ) → (p : List ℕ) → (k : ℕ) → ℕ
  value_at m node p k = if node p == 0 then 0 else m (slot node p k)

  abbrev pub contents : (ℕ → ℕ) → (List ℕ → ℕ) → ℕ → ℕ
  contents m node id = value_at m node (leaf_of id) (digit id (g.depth - 1))

  pub length-path_of : (id i : ℕ) → length (path_of id i) ≡ i
  unfolding path_of
  length-path_of id zero = refl
  length-path_of id (suc i) = rw (length-path_of id i)

  pub digit-lt : (id i : ℕ) → digit id i < slots i
  digit-lt id i = elim (Bool-cases (is_leaf i)) [
    | inl e ↦ rw e (mod-lt id (two_pow_pos g.last_order))
    | inr e ↦ rw e (mod-lt _ (two_pow_pos g.order))
  ]

  -- Below a missing node there are none.
  pub null_below :
      {m : ℕ → ℕ} {v : ℕ} {node : List ℕ → ℕ} (id i n : ℕ)
      → IsTrie m v node
      → node (path_of id i) ≡ 0
      → node (path_of id (i + n)) ≡ 0
  unfolding path_of
  null_below id i zero t e = rw (add-zero i) e
  null_below id i (suc n) t e =
      rw (add-suc i n) (t.cut_off (path_of id (i + n)) (digit id (i + n)) (null_below id i n t e))

pub slot_sz_pos : (g : Geometry) → IsSmall g → (i : ℕ) → 0 < slot_sz g i
slot_sz_pos g small i =
    let wide : 8 ≤ g.last_sz = small.wide_leaves in
    elim (Bool-cases (is_leaf g i)) [ inl e ↦ rw e (omega arith) | inr e ↦ rw e (omega arith) ]
