-- ===== src/Ert/Extend.antt =====
-- An expansion of a trie (ps_ertrie.h) with the default functions down to the leaves, and the lookup after
-- it.
use native.Mathlib.Nat.{sub-zero}
use ps.Base.{
  ℕ, suc, ◌+◌, ◌-◌, ◌^◌, ◌≤◌, ◌<◌, ◌≡◌, ◌≢◌, ◌⊎◌, inl, inr, refl, sym, ◌∙◌, subst, Bool, true,
  false, not, Option, some, List, arith, ◌==◌, if◌then◌else◌, ltb, ne→==, lt→ltb, le→leb,
}
use ps.Ert.{
  ert_lookup, TrieState, ErtParams, ExpandRet, expanded, no_memory, ert_expand, ert_maxid, sub32,
  valid_call,
}
use ps.Ert.Allocate.{trie, Refused}
use ps.Ert.Abstract.{Keeps, Represents, Spare}
use ps.Ert.Api.{expand, lkup}
use ps.Ert.Digits.{ert_maxid_lem}
use ps.Ert.Grow.{Grown}
use ps.Ert.Lookup.{ert_lookup-slot}
use ps.Ert.Refine.{value_there, st₁, e, loop_end, after, kept_words, last_lt}
use ps.Ert.Room.{AllocSpec}
use ps.Ert.Shape.{Geometry, IsSmall, id_bits, leaf_of, leaf_slot, path_of}

module _ {E : Type 0} {g : Geometry} (small : IsSmall g) {Room : E → ℕ → Type 0}
    {allocfn : TrieState E → (memctxt sz : ℕ) → (leaf : Bool) → ℕ × TrieState E}
    (spec : AllocSpec Room allocfn) (memctxt : ℕ) where
  abbrev T : ErtParams E
  T = trie small spec memctxt

  -- The outcome of an expansion down to the leaves
  abbrev pub Extends :
      (v r id accum : ℕ) (st : TrieState E) (f : ℕ → ℕ)
      → Represents g Room v st f
      → Option (ExpandRet × TrieState E)
      → Type 0
  Extends v r id accum st f rep o =
      (ret : ExpandRet) × (st' : TrieState E) × (rep' : Represents g Room v st' f) × (o
        ≡ some (ret, st'))
      × (((ret ≡ expanded)
            × (n : ℕ) × (n ≢ 0)
            × (lkup T r accum v id st'.mem ≡ some n)
            × (st'.mem n ≡ f id))
          ⊎ ((ret ≡ no_memory) × Refused small spec memctxt))
      × Keeps r rep rep'

  module _ (v r id accum d : ℕ) (st : TrieState E) (f : ℕ → ℕ) (rep : Represents g Room v st f)
      (spare : Spare rep r) (lt : id < 2 ^ id_bits g) where
    abbrev loop : Bool × ℕ × TrieState E
    loop = e small spec memctxt v r id accum d st f rep spare lt

    in_range : id < ert_maxid T
    in_range = subst (λ b. id < b) (sym (ert_maxid_lem g small allocfn)) lt

    valid : valid_call T v id 0 g.depth ≡ true
    valid =
        rw
          (
            ne→== v 0 rep.holds.trie_held.root_not_null,
            lt→ltb id (ert_maxid T) in_range,
            le→leb g.depth (g.depth + 1) (omega arith),
            le→leb 0 g.depth (omega arith),
          )
          refl

    level : sub32 (if ltb g.depth g.depth then g.depth else g.depth) 1 ≡ g.depth - 1
    level =
        let few : g.depth < 2 ^ 32 = small.few_levels in
        let some' : 1 ≤ g.depth = small.some_level in
        let no : ltb g.depth g.depth ≡ false = ground arith in rw no (omega arith)

    expand-result :
        expand T r v id accum memctxt d st
        ≡ (if not loop.0 then some (no_memory, loop.2) else some (expanded, loop.2))
    unfolding ert_expand
    expand-result =
        rw (valid, level, sub-zero (g.depth - 1), ne→== g.depth (g.depth + 1) (λ q. omega arith))
          refl

    leaf_slot-ne : (node : List ℕ → ℕ) → node (leaf_of g id) ≢ 0 → leaf_slot g node id ≢ 0
    leaf_slot-ne node ne z = ne (omega arith)

    module _ (node' : List ℕ → ℕ)
        (gr : Grown g Room v
          (st₁ small spec memctxt v r id accum d st f rep spare lt)
          loop.2
          rep.node
          node') where
      abbrev rep' : Represents g Room v loop.2 f
      rep' = after small spec memctxt v r id accum d st f rep spare lt node' gr

      keeps : Keeps r rep rep'
      keeps = kept_words small spec memctxt v r id accum d st f rep spare lt node' gr

      found :
          node' (leaf_of g id) ≢ 0 → lkup T r accum v id loop.2.mem ≡ some (leaf_slot g node' id)
      unfolding path_of
      found ne =
          let deeper : suc (g.depth - 1) ≡ g.depth =
            let some' : 1 ≤ g.depth = small.some_level in omega arith in
          subst
            (λ k.
              ert_lookup T r v id 0 k accum loop.2.mem
              ≡ some (if node' (leaf_of g id) == 0 then 0 else leaf_slot g node' id))
            deeper
            (ert_lookup-slot g small allocfn gr.holds.trie_held r id accum (g.depth - 1)
              (gr.frame r spare.0 spare.1).1 in_range (last_lt g small))
          ∙ rw (ne→== (node' (leaf_of g id)) 0 ne) refl

      value : node' (leaf_of g id) ≢ 0 → loop.2.mem (leaf_slot g node' id) ≡ f id
      unfolding after
      value ne =
          sym (value_there (node' (leaf_of g id)) (loop.2.mem (leaf_slot g node' id)) ne)
          ∙ rep'.agrees id lt

    -- From a state that represents `f`, with an allocator that keeps to its contract, `<name>_expand` for a
    -- valid identifier ends without a failed assert, and the state after it still represents `f`. Either it
    -- returns 0, and then `<name>_lkup` gives a slot for the identifier, not NULL, that holds the value of
    -- `f`; or it returns -1, and then the allocator refuses some allocation. The words that belong neither
    -- to the trie nor to the allocator stay, apart from the local `r`.
    pub expand-Extends : Extends v r id accum st f rep (expand T r v id accum memctxt d st)
    expand-Extends =
        let (node', gr, ends) = loop_end small spec memctxt v r id accum d st f rep spare lt in
        elim ends [
          | inl (h, link, ne) ↦ (
            expanded,
            loop.2,
            rep' node' gr,
            expand-result ∙ rw h refl,
            inl (
              refl,
              leaf_slot g node' id,
              leaf_slot-ne node' ne,
              found node' gr ne,
              value node' gr ne,
            ),
            keeps node' gr,
          )
          | inr (h, ref) ↦ (
            no_memory,
            loop.2,
            rep' node' gr,
            expand-result ∙ rw h refl,
            inr (refl, ref),
            keeps node' gr,
          )
        ]
