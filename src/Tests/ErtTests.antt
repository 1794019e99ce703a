-- ===== src/Tests/ErtTests.antt =====
-- The radix trie (ps_ertrie.h) with a bump allocator.
use ps.Base.{
  ◌==◌, ℕ, ◌+◌, ◌≤◌, ◌<◌, ◌≡◌, ◌≢◌, refl, Bool, true, false, Option, none, some, List, [], ◌∷◌,
  arith, ltb, if◌then◌else◌, update,
}
use ps.Ert.{
  TrieState, ErtParams, ExpandRet, expanded, occupied, ert_alloc, ert_expand, ert_lookup, ert_maxid,
}
use ps.Base.{◌==◌}
use ps.Ert.Lookup.{ert_lookup-slot}
use ps.Ert.Shape.{slot, path_of}
use ps.Ert.{ert_init, init_loop, expand_loop, expand_at, set_leaf, ert_walk}
use ps.Ert.Default.{ert_create_def}
use ps.Ert.Shape.{Geometry, IsSmall}
use ps.Ert.Room.{AllocSpec}
use ps.Ert.Abstract.{Represents, Spare, ert_lookup-Represents}
use ps.Ert.Create.{Creates, ert_alloc-Creates, root-Represents, root-Spare}
use ps.Ert.Api.{expand}
use ps.Ert.Extend.{Extends, expand-Extends}
use ps.Ert.Refine.{Refines, ert_expand-Refines}
use ps.Ert.History.{
  Expansion, Valid, none_left, one_more, ert_lookup-expand_all, expand_all, replay,
}

-- Two levels: 4 nodes below the root, with 8 values each
abbrev small_trie : Geometry
small_trie = record { depth = 2; order = 2; last_order = 3; last_sz = 16 }

small_trie-IsSmall : IsSmall small_trie
small_trie-IsSmall = record {
  some_level = omega arith;
  few_levels = omega arith;
  bits = omega arith;
  wide_leaves = omega arith;
  intern_fits = omega arith;
  leaf_fits = omega arith;
}

-- The allocator hands out the bytes from `env` on, up to 2000.
abbrev bump_if : Bool → TrieState ℕ → (sz : ℕ) → ℕ × TrieState ℕ
bump_if true st sz = (st.env, record st { env = st.env + sz })
bump_if false st sz = (0, st)

abbrev bump : TrieState ℕ → (memctxt sz : ℕ) → (leaf : Bool) → ℕ × TrieState ℕ
bump st memctxt sz leaf = bump_if (ltb (st.env + sz) 2000) st sz

abbrev AboveBump : ℕ → ℕ → Type 0
AboveBump e a = e ≤ a

bump_if-shrinks :
    (b : Bool) (st : TrieState ℕ) (sz a : ℕ) → (bump_if b st sz).1.env ≤ a → st.env ≤ a
bump_if-shrinks true st sz a h = omega arith
bump_if-shrinks false st sz a h = h

bump_if-keeps : (b : Bool) (st : TrieState ℕ) (sz a : ℕ) → (bump_if b st sz).1.mem a ≡ st.mem a
bump_if-keeps true st sz a = refl
bump_if-keeps false st sz a = refl

bump_if-fresh :
    (b : Bool) (st : TrieState ℕ) (sz j : ℕ)
    → (bump_if b st sz).0 ≢ 0
    → j < sz
    → (st.env ≤ (bump_if b st sz).0 + j) × (¬ (bump_if b st sz).1.env ≤ (bump_if b st sz).0 + j)
bump_if-fresh true st sz j h lt = (omega arith, λ le. omega arith)
bump_if-fresh false st sz j h lt = absurd (h refl)

bump-AllocSpec : AllocSpec AboveBump bump
bump-AllocSpec = record {
  shrinks = λ st c sz leaf a h. bump_if-shrinks (ltb (st.env + sz) 2000) st sz a h;
  keeps = λ st c sz leaf a h. bump_if-keeps (ltb (st.env + sz) 2000) st sz a;
  fresh = λ st c sz leaf j h lt. bump_if-fresh (ltb (st.env + sz) 2000) st sz j h lt;
}

abbrev T : ErtParams ℕ
T = ert_create_def 2 2 3 16 bump

abbrev start : TrieState ℕ
start = record { mem = λ a. 7; env = 100 }

-- After the allocation of the root
abbrev started : TrieState ℕ
started = record { mem = update (ert_init T 100 false (update start.mem 60 0)) 50 100; env = 132 }

ert_alloc_runs : ert_alloc T 50 60 0 start ≡ some (100, started)
unfolding ert_alloc ert_init init_loop
ert_alloc_runs = refl

ert_alloc-Creates_example :
    Creates small_trie-IsSmall bump-AllocSpec 0 50 60 start (ert_alloc T 50 60 0 start)
ert_alloc-Creates_example =
    ert_alloc-Creates small_trie-IsSmall bump-AllocSpec 0 50 60 start (λ h. omega arith)

started_empty : Represents small_trie AboveBump 100 started (λ id. 0)
started_empty =
    root-Represents small_trie-IsSmall bump-AllocSpec 0 50 60 start (λ h. omega arith)
      (λ e. omega arith)

started-Spare : Spare started_empty 40
unfolding started_empty
started-Spare =
    root-Spare small_trie-IsSmall bump-AllocSpec 0 50 60 start (λ h. omega arith) (λ e. omega arith)
      40 (λ h. omega arith)

ert_expand-Refines_example :
    Refines small_trie-IsSmall bump-AllocSpec 0 100 40 13 5 started
      (λ id. 0)
      started_empty
      (ert_expand T 40 100 13 0 3 60 0 5 started)
ert_expand-Refines_example =
    ert_expand-Refines small_trie-IsSmall bump-AllocSpec 0 100 40 13 60 5 started (λ id. 0)
      started_empty started-Spare (omega arith)

expand-Extends_example :
    Extends small_trie-IsSmall bump-AllocSpec 0 100 40 13 60 started
      (λ id. 0)
      started_empty
      (expand T 40 100 13 60 0 5 started)
expand-Extends_example =
    expand-Extends small_trie-IsSmall bump-AllocSpec 0 100 40 13 60 5 started (λ id. 0)
      started_empty started-Spare (omega arith)

ert_lookup-Represents_example : ert_lookup T 40 100 13 0 3 60 started.mem ≡ some 0
ert_lookup-Represents_example =
    ert_lookup-Represents small_trie-IsSmall bump 100 40 13 60 started (λ id. 0) started_empty
      started-Spare (omega arith)

ert_lookup-slot_example :
    ert_lookup T 40 100 13 0 1 60 started.mem
    ≡ some (if started_empty.node [] == 0 then 0 else slot small_trie started_empty.node [] 1)
unfolding path_of ert_maxid
ert_lookup-slot_example =
    ert_lookup-slot small_trie small_trie-IsSmall bump started_empty.holds.trie_held 40 13 60 0
      started-Spare.1 (omega arith) (omega arith)

-- Two values, and a third that is refused since there is one already
abbrev calls : List Expansion
calls =
    record { id = 13; data' = 5 }
    ∷ record { id = 14; data' = 6 }
    ∷ record { id = 13; data' = 9 }
    ∷ []

calls-Valid : Valid small_trie calls
calls-Valid = one_more (omega arith) (one_more (omega arith) (one_more (omega arith) none_left))

abbrev results : Option (List ExpandRet × TrieState ℕ) → List ExpandRet
results none = []
results (some (rets, st)) = rets

calls_run : results (expand_all T 40 100 60 0 calls started) ≡ expanded ∷ expanded ∷ occupied ∷ []
unfolding expand_all ert_expand expand_loop expand_at set_leaf ert_init init_loop ert_walk ert_maxid
calls_run = refl

ert_lookup-expand_all_example :
    (rets : List ExpandRet) × (st' : TrieState ℕ) × (expand_all T 40 100 60 0 calls started
      ≡ some (rets, st'))
    × (ert_lookup T 40 100 13 0 3 60 st'.mem ≡ some (replay (λ id. 0) calls rets 13))
ert_lookup-expand_all_example =
    ert_lookup-expand_all small_trie-IsSmall bump-AllocSpec 0 40 100 60 calls started (λ id. 0)
      started_empty 13 started-Spare calls-Valid (omega arith)
