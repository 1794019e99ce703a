-- ===== src/Ert/Expand.antt =====
-- The loop of `__ert_expand` (ps_ertrie.h) with the default functions.
use native.Mathlib.Nat.{add-zero}
use ps.Base.{
  ℕ, zero, suc, ◌+◌, ◌≤◌, ◌≡◌, ◌≢◌, ◌⊎◌, inl, inr, refl, sym, ◌∙◌, ap, subst, Bool, true, false,
  List, arith,
}
use ps.Ert.{ert_walk, TrieState, expand_at, expand_loop, sub32}
use ps.Ert.Shape.{Geometry, IsSmall, slot, digit, path_of}
use ps.Ert.Room.{AllocSpec, Holds}
use ps.Ert.Grow.{Grown, Grown-refl, Grown-trans, expand_at-Round}
use ps.Ert.Allocate.{trie, Refused}
use ps.Ert.Lookup.{walk-slot}

add_one : (i : ℕ) → i + 1 ≡ suc i
add_one i = omega arith

skip : (i k : ℕ) → i + 1 + k ≡ i + suc k
skip i k = omega arith

module _ {E : Type 0} {g : Geometry} (small : IsSmall g) {Room : E → ℕ → Type 0}
    {allocfn : TrieState E → (memctxt sz : ℕ) → (leaf : Bool) → ℕ × TrieState E}
    (spec : AllocSpec Room allocfn) (memctxt : ℕ) where
  -- The loop ended at a word that points to the node of level `i`, or an allocation failed.
  abbrev pub Ended : (id i : ℕ) → (List ℕ → ℕ) → Bool × ℕ × TrieState E → Type 0
  Ended id i node r =
      ((r.0 ≡ true) × (r.2.mem r.1 ≡ node (path_of g id i)) × (node (path_of g id i) ≢ 0))
      ⊎ ((r.0 ≡ false) × Refused small spec memctxt)

  abbrev pub LoopEnd : (v id i : ℕ) → TrieState E → (List ℕ → ℕ) → Bool × ℕ × TrieState E → Type 0
  LoopEnd v id i st node r =
      (node' : List ℕ → ℕ) × Grown g Room v st r.2 node node' × Ended id i node' r

  expand_loop-none :
      (id accum i n : ℕ) (st : TrieState E)
      → expand_loop (trie small spec memctxt) 0 memctxt id accum i n st ≡ (true, n, st)
  unfolding expand_loop
  expand_loop-none id accum i n st = refl

  expand_loop-go :
      (k id accum i n s : ℕ) (st : TrieState E)
      → ert_walk (trie small spec memctxt) st.mem n id accum (sub32 g.depth i) ≡ s
      → (expand_at (trie small spec memctxt) memctxt accum i s st).0 ≡ true
      → expand_loop (trie small spec memctxt) (suc k) memctxt id accum i n st
        ≡ expand_loop
            (trie small spec memctxt)
            k
            memctxt
            id
            accum
            (i + 1)
            s
            (expand_at (trie small spec memctxt) memctxt accum i s st).1
  unfolding expand_loop
  expand_loop-go k id accum i n s st w e = rw (w, e) refl

  expand_loop-stop :
      (k id accum i n s : ℕ) (st : TrieState E)
      → ert_walk (trie small spec memctxt) st.mem n id accum (sub32 g.depth i) ≡ s
      → (expand_at (trie small spec memctxt) memctxt accum i s st).0 ≡ false
      → expand_loop (trie small spec memctxt) (suc k) memctxt id accum i n st
        ≡ (false, s, (expand_at (trie small spec memctxt) memctxt accum i s st).1)
  unfolding expand_loop
  expand_loop-stop k id accum i n s st w e = rw (w, e) refl

  pub expand_loop-LoopEnd :
      {v : ℕ} (k id accum i n : ℕ) (st : TrieState E) (node : List ℕ → ℕ)
      → Holds g Room st v node
      → i + suc k ≤ g.depth
      → st.mem n ≡ node (path_of g id i)
      → node (path_of g id i) ≢ 0
      → LoopEnd v id
          (i + k)
          st
          node
          (expand_loop (trie small spec memctxt) k memctxt id accum i n st)
  expand_loop-LoopEnd {v} zero id accum i n st node h le e ne =
      subst (LoopEnd v id (i + 0) st node) (sym (expand_loop-none id accum i n st)) (
        node,
        Grown-refl h,
        inl (
          refl,
          e ∙ ap (λ j. node (path_of g id j)) (sym (add-zero i)),
          λ z. ne (ap (λ j. node (path_of g id j)) (sym (add-zero i)) ∙ z),
        ),
      )
  expand_loop-LoopEnd {v} (suc k) id accum i n st node h le e ne =
      let s = slot g node (path_of g id i) (digit g id i) in
      let w = walk-slot g small allocfn h.trie_held id accum i n (omega arith) e in
      let (node', gr, r) =
        expand_at-Round small spec memctxt id accum i st node h (omega arith) ne in
      elim r [
        | inl (t, link, ne') ↦
            let at : (node₂ : List ℕ → ℕ) (j : ℕ)
                → node₂ (path_of g id (suc j)) ≡ node₂ (path_of g id (j + 1)) =
              λ node₂ j. ap (λ l. node₂ (path_of g id l)) (sym (add_one j)) in
            let (node'', gr', r') =
              expand_loop-LoopEnd k id accum (i + 1) s
                (expand_at (trie small spec memctxt) memctxt accum i s st).1 node' gr.holds
                (omega arith) (link ∙ at node' i) (λ z. ne' (at node' i ∙ z)) in
            subst (LoopEnd v id (i + suc k) st node) (sym (expand_loop-go k id accum i n s st w t))
              (
                node'',
                Grown-trans gr gr',
                subst
                    (λ j. Ended id j node'' (
                      expand_loop (trie small spec memctxt) k memctxt id accum (i + 1) s
                        (expand_at (trie small spec memctxt) memctxt accum i s st).1))
                    (skip i k) r',
              )
        | inr (f, ref) ↦
            subst (LoopEnd v id (i + suc k) st node)
              (sym (expand_loop-stop k id accum i n s st w f)) (node', gr, inr (refl, ref))
      ]
