-- ===== src/Ns/Interned.antt =====
-- The trie of a namespace (ps_ns.h), whose leaves are the slabs' memory, and lookups of descriptors.
use native.Mathlib.Nat.{
  mod-eq_of_lt, div-eq_of_lt, div-add-mod', mul-add-div_right, mul-add-mod_self_right, sub-zero,
  zero-add,
}
use ps.Base.{
  ℕ, zero, suc, ◌+◌, ◌-◌, ◌*◌, ◌/◌, ◌%◌, ◌^◌, ◌≤◌, ◌<◌, ◌≡◌, ◌≢◌, refl, sym, ◌∙◌, ap, subst, Bool,
  true, false, Option, none, some, List, arith, ltb, ◌==◌, ==_self, ne→==, eq→==, ==→eq, ==→ne,
  Bool-cases, inl, inr, lt→ltb, le→leb, if◌then◌else◌, update, update_self, update_ne, two_pow_pos,
}
use ps.Ert.Api.{lkup}
use ps.Ert.{
  sub32, TrieState, ErtParams, ert_walk, lookup_loop, lookup_end, ert_lookup, ert_maxid, valid_call,
  limit_of,
}
use ps.Ert.Default.{ert_defget, ert_defisnull, ert_defset}
use ps.Ert.Digits.{leaf_digit, inner_digit, quotient}
use ps.Ert.Lookup.{trie, lookup_loop-slot}
use ps.Ert.Shape.{
  Geometry, IsSmall, IsTrie, Outside, store-IsTrie, path_of, digit, leaf_of, slot, leaf_slot,
  length-path_of, digit-lt,
}
use ps.Header.{ps_mhead_mem, ps_mhead_isfree}
use ps.Memory.{State}
use ps.Ns.Descriptor.{resolve_intern, init_intern, Slot, ps_ns_desc, ps_nsptr_lkup, ns_desc_lem}
use ps.Slab.{SlabParams, slab_objmemsz}

-- The identifier of a slot lies in the leaf of the first one of its slab.
module _ (g : Geometry) (small : IsSmall g) (id k : ℕ) (aligned : id % 2 ^ g.last_order ≡ 0)
    (lt : k < 2 ^ g.last_order) where
  split : id ≡ id / 2 ^ g.last_order * 2 ^ g.last_order
  split = sym (div-add-mod' id (2 ^ g.last_order)) ∙ omega (arith, aligned)

  same_leaf : (id + k) / 2 ^ g.last_order ≡ id / 2 ^ g.last_order
  same_leaf =
      ap (λ x. (x + k) / 2 ^ g.last_order) split
      ∙ mul-add-div_right (two_pow_pos g.last_order) (id / 2 ^ g.last_order) k
      ∙ omega (arith, div-eq_of_lt lt)

  same_upper : (o : ℕ) → (id + k) / 2 ^ (o + g.last_order) ≡ id / 2 ^ (o + g.last_order)
  same_upper o =
      let up : (x : ℕ) → x / 2 ^ g.last_order / 2 ^ o ≡ x / 2 ^ (o + g.last_order) =
        λ x. quotient x g.last_order o ∙ ap (λ b. x / 2 ^ b) (omega arith) in
      sym (up (id + k)) ∙ ap (λ x. x / 2 ^ o) same_leaf ∙ up id

  same_digit : (i : ℕ) → i + 2 ≤ g.depth → digit g (id + k) i ≡ digit g id i
  same_digit i h =
      rw
        (
          inner_digit g small (id + k) i h,
          inner_digit g small id i h,
          same_upper (g.order * (g.depth - (i + 2))),
        )
        refl

  same_path : (i : ℕ) → i < g.depth → path_of g (id + k) i ≡ path_of g id i
  unfolding path_of
  same_path zero h = refl
  same_path (suc i) h = rw (same_digit i (omega arith), same_path i (omega arith)) refl

  its_digit : digit g (id + k) (g.depth - 1) ≡ k
  its_digit = leaf_digit g small (id + k) ∙ rest
    where
      rest : (id + k) % 2 ^ g.last_order ≡ k
      rest =
          ap (λ x. (x + k) % 2 ^ g.last_order) split
          ∙ mul-add-mod_self_right (id / 2 ^ g.last_order) (2 ^ g.last_order) k
          ∙ mod-eq_of_lt lt

  pub its_slot :
      (node : List ℕ → ℕ)
      → 1 ≤ g.depth
      → leaf_slot g node (id + k) ≡ node (leaf_of g id) + k * g.last_sz
  its_slot node some_level =
      rw
        (
          same_path (g.depth - 1) (omega arith),
          its_digit,
          length-path_of g id (g.depth - 1),
          eq→== (g.depth - 1 + 1) g.depth (omega arith),
        )
        refl

-- The parameters of `PS_NS_CREATE`. A lookup of a slot calls neither `__ps_ns_getleaf_intern` nor
-- `__ps_ns_setleaf_intern`, whose asserts fail; any functions may stand for them.
unfoldable pub interned :
    {E : Type 0}
    → Geometry
    → (getleaffn : (ℕ → ℕ) → (e accum : ℕ) → ℕ)
    → (setleaffn : (ℕ → ℕ) → (e data' : ℕ) → Bool × (ℕ → ℕ))
    → (allocfn : TrieState E → (memctxt sz : ℕ) → (leaf : Bool) → ℕ × TrieState E) → ErtParams E
interned g getleaffn setleaffn allocfn = record {
  depth = g.depth;
  order = g.order;
  intern_sz = 8;
  last_order = g.last_order;
  last_sz = g.last_sz;
  initval = 0;
  initfn = λ m a leaf. init_intern m a leaf;
  getfn = ert_defget;
  isnullfn = ert_defisnull;
  setfn = ert_defset;
  allocfn = allocfn;
  setleaffn = setleaffn;
  getleaffn = getleaffn;
  resolvefn = resolve_intern;
}

module _ {E : Type 0} (g : Geometry) (small : IsSmall g) (getleaffn : (ℕ → ℕ) → (e accum : ℕ) → ℕ)
    (setleaffn : (ℕ → ℕ) → (e data' : ℕ) → Bool × (ℕ → ℕ))
    (allocfn : TrieState E → (memctxt sz : ℕ) → (leaf : Bool) → ℕ × TrieState E) where
  abbrev pub T : ErtParams E
  T = interned g getleaffn setleaffn allocfn

  same_loop :
      (k : ℕ) (m : ℕ → ℕ) (id accum i n : ℕ)
      → lookup_loop T k m id accum i n ≡ lookup_loop (trie g small allocfn) k m id accum i n
  unfolding lookup_loop ert_walk interned
  same_loop zero m id accum i n = refl
  same_loop (suc k) m id accum i n =
      ap (λ z. if ert_defisnull m n accum false then none else z)
        (same_loop k m id accum (i + 1)
          (ert_walk (trie g small allocfn) m n id accum (sub32 g.depth i)))

  same_maxid : ert_maxid T ≡ ert_maxid (trie g small allocfn)
  unfolding ert_maxid interned
  same_maxid = refl

  ltb_self : (x : ℕ) → ltb x x ≡ false
  ltb_self x = ground arith

  -- The end of a lookup gives a slot, and NULL if it is marked as free.
  end_slot :
      (m : ℕ → ℕ) (accum n : ℕ)
      → lookup_end T m g.depth accum g.depth n ≡ (if ltb 0 (m n) then 0 else n)
  unfolding lookup_end resolve_intern interned
  end_slot m accum n =
      let ne : g.depth ≢ g.depth + 1 = λ e. omega arith in
      elim (Bool-cases (ltb 0 (m n))) [
        | inl e ↦ rw (e, ==_self g.depth) refl
        | inr e ↦ rw (e, ==_self g.depth, ltb_self g.depth, ne→== g.depth (g.depth + 1) ne) refl
      ]

  -- `<name>_lkup` of an identifier whose leaf is there gives the slot, and NULL if that is
  -- marked as free.
  pub lkup-slot :
      {mem : ℕ → ℕ} {v : ℕ} {node : List ℕ → ℕ} (r id accum : ℕ)
      → IsTrie g mem v node
      → Outside g node r
      → id < ert_maxid (trie g small allocfn)
      → node (leaf_of g id) ≢ 0
      → lkup T r accum v id mem
        ≡ some (if ltb 0 (mem (leaf_slot g node id)) then 0 else leaf_slot g node id)
  unfolding ert_lookup interned path_of
  lkup-slot {mem} {v} {node} r id accum t out lt there =
      rw (valid, limit, sub-zero (suc (g.depth - 1)), loop, there_lem)
        (ap some (
          subst
            (λ i.
              lookup_end T (update mem r v) g.depth accum i (leaf_slot g node id)
              ≡ (if ltb 0 (mem (leaf_slot g node id)) then 0 else leaf_slot g node id))
            (sym walked)
            (end_slot (update mem r v) accum (leaf_slot g node id)
              ∙ ap (λ z. if ltb 0 z then 0 else leaf_slot g node id) kept)))
    where
      some' : 1 ≤ g.depth
      some' = small.some_level

      there_lem : (node (leaf_of g id) == 0) ≡ false
      there_lem = ne→== (node (leaf_of g id)) 0 there

      valid : valid_call T v id 0 g.depth ≡ true
      valid =
          rw
            (
              ne→== v 0 t.root_not_null,
              lt→ltb id (ert_maxid T) (subst (λ z. id < z) (sym same_maxid) lt),
              le→leb g.depth (g.depth + 1) (omega arith),
              le→leb 0 g.depth (omega arith),
            )
            refl

      last : g.depth - 1 < g.depth
      last = omega arith

      kept : update mem r v (leaf_slot g node id) ≡ mem (leaf_slot g node id)
      kept = update_ne mem r v (leaf_slot g node id) (
          out (leaf_of g id) (digit g id (g.depth - 1))
            (rw (length-path_of g id (g.depth - 1)) last) there
            (rw (length-path_of g id (g.depth - 1)) (digit-lt g id (g.depth - 1))))

      walked : (if ltb 0 (limit_of T g.depth) then limit_of T g.depth else 0) ≡ g.depth
      walked = ground arith

      limit : limit_of T g.depth ≡ suc (g.depth - 1)
      limit = ground arith

      loop :
          lookup_loop T (suc (g.depth - 1)) (update mem r v) id accum 0 r
          ≡ (if node (leaf_of g id) == 0 then none else some (leaf_slot g node id))
      loop =
          same_loop (suc (g.depth - 1)) (update mem r v) id accum 0 r
          ∙ subst
              (λ j.
                lookup_loop (trie g small allocfn) (suc (g.depth - 1)) (update mem r v) id accum 0 r
                ≡ (if node (path_of g id j) == 0
                    then none
                    else some (slot g node (path_of g id j) (digit g id j))))
              (zero-add (g.depth - 1))
              (lookup_loop-slot g small allocfn (store-IsTrie g r v out t) (g.depth - 1) id accum 0
                r (omega arith) (update_self mem r v ∙ sym t.root))

-- The slab `s` is a leaf of the trie, with the descriptors from `start s` on, which its slot `k` is
-- within; a slot of a leaf is one of the slab, as `PS_NS_CREATE` and `__PS_NS_TYPE_CREATE` choose the sizes,
-- and the first word of the slot's header is its mark.
pub record InTrie {E : Type 0} (P : SlabParams E) (g : Geometry) (words : State E → ℕ → ℕ)
    (node : List ℕ → ℕ) (st : State E) (s k : ℕ) : Type 0 where
  pub slab_slots : g.last_sz ≡ slab_objmemsz P.obj_sz
  pub aligned : st.slabs.start s % 2 ^ g.last_order ≡ 0
  pub in_leaf : k < 2 ^ g.last_order
  pub its_leaf : node (leaf_of g (st.slabs.start s)) ≡ st.slabs.memory s
  pub has_memory : st.slabs.memory s ≢ 0
  pub mark_word :
      words st (st.slabs.memory s + k * slab_objmemsz P.obj_sz)
      ≡ st.headers.tsc_free (st.slabs.memory s + k * slab_objmemsz P.obj_sz)

module _ {E F : Type 0} (P : SlabParams E) (g : Geometry) (small : IsSmall g)
    (getleaffn : (ℕ → ℕ) → (e accum : ℕ) → ℕ) (setleaffn : (ℕ → ℕ) → (e data' : ℕ) → Bool × (ℕ → ℕ))
    (allocfn : TrieState F → (memctxt sz : ℕ) → (leaf : Bool) → ℕ × TrieState F)
    (words : State E → ℕ → ℕ) where
  -- `<name>_lkup` of a namespace with the trie at `v`
  abbrev pub ns_lkup : (r accum v : ℕ) → State E → (desc : ℕ) → Option ℕ
  ns_lkup r accum v st desc =
      lkup (interned g getleaffn setleaffn allocfn) r accum v desc (words st)

  -- For a slot of a slab that is a leaf of the namespace's trie, without an offset of the objects and with
  -- a descriptor that the trie can hold, where the local variable of the lookup is outside of the trie:
  -- the lookup of the descriptor that the code gives for the slot gives the slot, and NULL if the slot
  -- is marked as free.
  pub lkup-desc :
      (r accum v : ℕ) (st : State E) (s k : ℕ) {node : List ℕ → ℕ}
      → IsTrie g (words st) v node
      → Outside g node r
      → P.headoff ≡ 0
      → Slot P st s k
      → InTrie P g words node st s k
      → st.slabs.start s + k < ert_maxid (interned g getleaffn setleaffn allocfn)
      → ps_nsptr_lkup
          (ns_lkup r accum v)
          st
          (ps_ns_desc P st (ps_mhead_mem (st.slabs.memory s + k * slab_objmemsz P.obj_sz)))
        ≡ some (
            if ps_mhead_isfree st.headers (st.slabs.memory s + k * slab_objmemsz P.obj_sz)
            then 0
            else ps_mhead_mem (st.slabs.memory s + k * slab_objmemsz P.obj_sz))
  unfolding ps_nsptr_lkup ps_mhead_isfree
  lkup-desc r accum v st s k {node} t out no_offset slot c lt =
      rw (ns_desc_lem P st s k no_offset slot, found)
        (elim (Bool-cases (st.headers.tsc_free h == 0)) [
          | inl e ↦ rw (==→eq _ 0 e, ne→== h 0 not_null) refl
          | inr e ↦ rw (lt→ltb 0 (st.headers.tsc_free h) (positive _ (==→ne _ 0 e)), e) refl
        ])
    where
      h : ℕ
      h = st.slabs.memory s + k * slab_objmemsz P.obj_sz

      d : ℕ
      d = st.slabs.start s + k

      not_null : h ≢ 0
      not_null e = c.has_memory (omega arith)

      positive : (x : ℕ) → x ≢ 0 → 0 < x
      positive x ne = omega arith

      first : node (leaf_of g d) ≡ st.slabs.memory s
      first =
          ap node (
            same_path g small (st.slabs.start s) k c.aligned c.in_leaf (g.depth - 1)
              (let some' : 1 ≤ g.depth = small.some_level in omega arith))
          ∙ c.its_leaf

      at_slot : leaf_slot g node d ≡ h
      at_slot =
          its_slot g small (st.slabs.start s) k c.aligned c.in_leaf node small.some_level
          ∙ rw (c.its_leaf, c.slab_slots) refl

      found : ns_lkup r accum v st d ≡ some (if ltb 0 (st.headers.tsc_free h) then 0 else h)
      found =
          lkup-slot g small getleaffn setleaffn allocfn r d accum t out
            (subst (λ z. d < z) (same_maxid g small getleaffn setleaffn allocfn) lt)
            (λ e. c.has_memory (sym first ∙ e))
          ∙ rw (at_slot, c.mark_word) refl
