-- ===== src/Ert/Refine.antt =====
-- `__ert_lookup` and `__ert_expand` (ps_ertrie.h) with the default functions, against a function from
-- identifiers to values.
use native.Mathlib.Nat.{sub-zero, zero-add}
use ps.Ert.Paths.{value_same}
use ps.Base.{
  ℕ, suc, ◌+◌, ◌-◌, ◌^◌, ◌≤◌, ◌<◌, ◌≡◌, ◌≢◌, ◌⊎◌, inl, inr, refl, sym, ◌∙◌, ap, subst, Bool, true,
  false, not, ◌&&◌, Option, some, List, arith, ◌==◌, if◌then◌else◌, ltb, update, update_ne,
  update_self, Bool-cases, eq→==, ne→==, ==→eq, ==→ne, ==_self, lt→ltb, le→leb,
}
use ps.Ert.{
  ert_walk, ert_maxid, TrieState, ErtParams, ExpandRet, expanded, no_memory, occupied, set_mem,
  set_leaf, ert_expand, expand_loop, sub32, valid_call,
}
use ps.Ert.Shape.{
  Geometry, IsSmall, digit, path_of, leaf_of, leaf_slot, contents, id_bits, store-IsTrie,
}
use ps.Ert.Room.{AllocSpec, Holds}
use ps.Ert.Grow.{leaf_lt, Grown}
use ps.Ert.Allocate.{trie, Refused}
use ps.Ert.Expand.{LoopEnd, expand_loop-LoopEnd}
use ps.Ert.Lookup.{walk-slot}
use ps.Ert.Digits.{ert_maxid_lem}
use ps.Ert.Abstract.{Keeps, Represents, Spare, Puts, full, kept, put}
use ps.Ert.SetLeaf.{leaf_digit-lt, set-IsTrie, set-contents}

first_le : (g : Geometry) → IsSmall g → 0 + suc (g.depth - 1) ≤ g.depth
first_le g small = let some' : 1 ≤ g.depth = small.some_level in omega arith

and_false : (b : Bool) → (b && false) ≡ false
and_false true = refl
and_false false = refl

occupied-ne : occupied ≢ no_memory
occupied-ne z = ground arith

expanded-ne : expanded ≢ no_memory
expanded-ne z = ground arith

pub last_lt : (g : Geometry) → IsSmall g → g.depth - 1 < g.depth
last_lt g small = let some' : 1 ≤ g.depth = small.some_level in omega arith

pub value_there : (n x : ℕ) → n ≢ 0 → (if n == 0 then 0 else x) ≡ x
value_there n x h = rw (ne→== n 0 h) refl

last_index : (n : ℕ) → (if ltb 0 n then n else 0) ≡ n
last_index n = ground arith

pub last_level :
    (g : Geometry)
    → IsSmall g
    → sub32 (if ltb (g.depth + 1) g.depth then g.depth + 1 else g.depth) 1 ≡ g.depth - 1
last_level g small =
    let some' : 1 ≤ g.depth = small.some_level in
    let few : g.depth < 2 ^ 32 = small.few_levels in
    let no : ltb (g.depth + 1) g.depth ≡ false = ground arith in rw no (omega arith)

module _ {E : Type 0} {g : Geometry} (small : IsSmall g) {Room : E → ℕ → Type 0}
    {allocfn : TrieState E → (memctxt sz : ℕ) → (leaf : Bool) → ℕ × TrieState E}
    (spec : AllocSpec Room allocfn) (memctxt : ℕ) where
  abbrev T : ErtParams E
  T = trie small spec memctxt

  -- The outcome of an expansion whose local variable is at `r`
  abbrev pub Refines :
      (v r id d : ℕ) (st : TrieState E) (f : ℕ → ℕ)
      → Represents g Room v st f
      → Option (ExpandRet × TrieState E)
      → Type 0
  Refines v r id d st f rep o =
      (ret : ExpandRet) × (st' : TrieState E) × (f' : ℕ → ℕ) × (rep' : Represents g Room v st' f')
      × (o ≡ some (ret, st'))
      × Puts f id d ret f'
      × ((ret ≢ no_memory) ⊎ Refused small spec memctxt)
      × Keeps r rep rep'

  set_leaf-kept :
      (id accum d i n w : ℕ) (s : TrieState E)
      → ert_walk T s.mem n id accum (sub32 g.depth i) ≡ w
      → d ≢ 0
      → s.mem w ≢ 0
      → set_leaf T id d accum i n s ≡ (occupied, s)
  unfolding set_leaf
  set_leaf-kept id accum d i n w s e dn wn = rw (e, ne→== d 0 dn, ne→== (s.mem w) 0 wn) refl

  set_leaf-put :
      (id accum d i n w : ℕ) (s : TrieState E)
      → ert_walk T s.mem n id accum (sub32 g.depth i) ≡ w
      → (d ≡ 0) ⊎ (s.mem w ≡ 0)
      → set_leaf T id d accum i n s ≡ (expanded, set_mem s (update s.mem w d))
  unfolding set_leaf
  set_leaf-put id accum d i n w s e (inl z) = rw (e, eq→== d 0 z) refl
  set_leaf-put id accum d i n w s e (inr z) =
      rw (e, eq→== (s.mem w) 0 z, and_false (not (d == 0))) refl

  module _ (v r id accum d : ℕ) (st : TrieState E) (f : ℕ → ℕ) (rep : Represents g Room v st f)
      (spare : Spare rep r) (lt : id < 2 ^ id_bits g) where
    -- The state after `r.next = &v->vect`
    abbrev pub st₁ : TrieState E
    st₁ = set_mem st (update st.mem r v)

    started : Holds g Room st₁ v rep.node
    started = record {
      trie_held = store-IsTrie g r v spare.1 rep.holds.trie_held;
      taken = rep.holds.taken;
    }

    pub started-same : (x : ℕ) → contents g st₁.mem rep.node x ≡ contents g st.mem rep.node x
    started-same x = elim (Bool-cases (rep.node (leaf_of g x) == 0)) [
      | inl z ↦ rw z refl
      | inr z ↦ value_same refl (
          update_ne st.mem r v _ (
            spare.1 (leaf_of g x) (digit g x (g.depth - 1)) (leaf_lt small x) (==→ne _ 0 z)
              (leaf_digit-lt g x)))
    ]

    abbrev pub e : Bool × ℕ × TrieState E
    e = expand_loop T (g.depth - 1) memctxt id accum 0 r st₁

    pub loop_end : LoopEnd small spec memctxt v id (g.depth - 1) st₁ rep.node e
    unfolding path_of
    loop_end =
        subst (λ j. LoopEnd small spec memctxt v id j st₁ rep.node e) (zero-add (g.depth - 1))
          (expand_loop-LoopEnd small spec memctxt (g.depth - 1) id accum 0 r st₁ rep.node started
            (first_le g small) (update_self st.mem r v ∙ sym rep.holds.trie_held.root)
            (λ z. rep.holds.trie_held.root_not_null (sym rep.holds.trie_held.root ∙ z)))

    valid : valid_call T v id 0 (g.depth + 1) ≡ true
    valid =
        let in_range : id < ert_maxid T =
          subst (λ b. id < b) (sym (ert_maxid_lem g small allocfn)) lt in
        rw
          (
            ne→== v 0 rep.holds.trie_held.root_not_null,
            lt→ltb id (ert_maxid T) in_range,
            le→leb (g.depth + 1) (g.depth + 1) (omega arith),
            le→leb 0 (g.depth + 1) (omega arith),
          )
          refl

    ert_expand-set_leaf : ert_expand T r v id 0 (g.depth + 1) accum memctxt d st ≡ (
        if not e.0
        then some (no_memory, e.2)
        else some (set_leaf T id d accum (g.depth - 1) e.1 e.2))
    unfolding ert_expand
    ert_expand-set_leaf =
        rw
          (
            valid,
            last_level g small,
            sub-zero (g.depth - 1),
            last_index (g.depth - 1),
            ==_self (g.depth + 1),
          )
          refl

    -- The loop may have made nodes, but no value changed.
    unfoldable pub after :
        (node' : List ℕ → ℕ) → Grown g Room v st₁ e.2 rep.node node' → Represents g Room v e.2 f
    after node' gr = record {
      node = node';
      holds = gr.holds;
      agrees = λ x lx. gr.same x ∙ started-same x ∙ rep.agrees x lx;
    }

    pub kept_words :
        (node' : List ℕ → ℕ) (gr : Grown g Room v st₁ e.2 rep.node node')
        → Keeps r rep (after node' gr)
    unfolding after
    kept_words node' gr = record {
      stay_spare = λ a s. let fr = gr.frame a s.0 s.1 in (fr.2, fr.1);
      keep_words = λ a s n. (gr.frame a s.0 s.1).0 ∙ update_ne st.mem r v a n;
    }

    refused :
        (node' : List ℕ → ℕ)
        → Grown g Room v st₁ e.2 rep.node node'
        → e.0 ≡ false
        → Refused small spec memctxt
        → Refines v r id d st f rep (ert_expand T r v id 0 (g.depth + 1) accum memctxt d st)
    unfolding after
    refused node' gr h ref = (
      no_memory,
      e.2,
      f,
      after node' gr,
      ert_expand-set_leaf ∙ rw h refl,
      full,
      inr ref,
      kept_words node' gr,
    )

    module _ (node' : List ℕ → ℕ) (gr : Grown g Room v st₁ e.2 rep.node node') (h : e.0 ≡ true)
        (link : e.2.mem e.1 ≡ node' (leaf_of g id)) (ne : node' (leaf_of g id) ≢ 0) where
      abbrev w : ℕ
      w = leaf_slot g node' id

      walk : ert_walk T e.2.mem e.1 id accum (sub32 g.depth (g.depth - 1)) ≡ w
      walk =
          walk-slot g small allocfn gr.holds.trie_held id accum (g.depth - 1) e.1 (last_lt g small)
            link

      value : e.2.mem w ≡ f id
      unfolding after
      value =
          sym (value_there (node' (leaf_of g id)) (e.2.mem w) ne) ∙ (after node' gr).agrees id lt

      set_kept :
          d ≢ 0
          → f id ≢ 0
          → Refines v r id d st f rep (ert_expand T r v id 0 (g.depth + 1) accum memctxt d st)
      unfolding after
      set_kept dn fn = (
        occupied,
        e.2,
        f,
        after node' gr,
        ert_expand-set_leaf
            ∙ rw h (
                ap some (
                  set_leaf-kept id accum d (g.depth - 1) e.1 w e.2 walk dn
                    (λ z. fn (sym value ∙ z)))),
        kept dn fn,
        inl occupied-ne,
        kept_words node' gr,
      )

      after_put : Represents g Room v (set_mem e.2 (update e.2.mem w d)) (update f id d)
      unfolding after
      after_put = record {
        node = node';
        holds = record {
          trie_held = set-IsTrie small gr.holds.trie_held id d ne;
          taken = gr.holds.taken;
        };
        agrees = λ x lx.
            set-contents small gr.holds.trie_held id d ne x lt lx
            ∙ ap (λ y. if x == id then d else y) ((after node' gr).agrees x lx);
      }

      set_put :
          (d ≡ 0) ⊎ (f id ≡ 0)
          → Refines v r id d st f rep (ert_expand T r v id 0 (g.depth + 1) accum memctxt d st)
      unfolding after_put
      set_put dz = (
        expanded,
        set_mem e.2 (update e.2.mem w d),
        update f id d,
        after_put,
        ert_expand-set_leaf
            ∙ rw h (
                ap some (
                  set_leaf-put id accum d (g.depth - 1) e.1 w e.2 walk
                    (elim dz [ inl z ↦ inl z | inr z ↦ inr (value ∙ z) ]))),
        put dz,
        inl expanded-ne,
        record {
          stay_spare = λ a s. let fr = gr.frame a s.0 s.1 in (fr.2, fr.1);
          keep_words = λ a s n.
              let fr = gr.frame a s.0 s.1 in
              update_ne e.2.mem w d a (λ x.
                fr.1 (leaf_of g id) (digit g id (g.depth - 1)) (leaf_lt small id) ne
                  (leaf_digit-lt g id) (sym x))
              ∙ fr.0
              ∙ update_ne st.mem r v a n;
        },
      )

    -- From a state that represents `f`, with an allocator that keeps to its contract, `__ert_expand` up to
    -- `depth + 1` for a valid identifier ends without a failed assert, as a step of `Puts`. It sets the
    -- value and returns 0 where the identifier has none or the new one is NULL, returns 1 where it has one,
    -- and -1 only where an allocation failed. The other values stay, and so do the words that belong
    -- neither to the trie nor to the allocator, apart from the local `r`.
    pub ert_expand-Refines :
        Refines v r id d st f rep (ert_expand T r v id 0 (g.depth + 1) accum memctxt d st)
    ert_expand-Refines =
        let (node', gr, r') = loop_end in
        elim r' [
          | inl (h, link, ne) ↦ elim (Bool-cases (d == 0)) [
            | inl z ↦ set_put node' gr h link ne (inl (==→eq d 0 z))
            | inr n ↦ elim (Bool-cases (f id == 0)) [
              | inl z ↦ set_put node' gr h link ne (inr (==→eq _ 0 z))
              | inr n' ↦ set_kept node' gr h link ne (==→ne d 0 n) (==→ne _ 0 n')
            ]
          ]
          | inr (h, ref) ↦ refused node' gr h ref
        ]
