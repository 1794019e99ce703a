-- ===== src/Tests/NsTests.antt =====
-- Runs of ps_ns.c and ps_ns.h, and their theorems at them.
use ps.Base.{
  ◌^◌, length, ◌⊎◌, ◌≢◌, inl, inr, ℕ, zero, suc, ◌+◌, ◌*◌, ◌<◌, ◌≡◌, refl, Bool, true, false,
  Option, none, some, List, [], ◌∷◌, arith, ◌==◌, if◌then◌else◌, update,
}
use ps.Ert.{ExpandRet, expanded, no_memory, ert_maxid}
use ps.Ert.Shape
use ps.Ert.Shape.{Geometry, IsSmall, IsTrie, Outside, path_of, slot}
use ps.Header.{ps_mhead_isfree, ps_mhead_mem}
use ps.Lock.{ps_cas, ps_faa}
use ps.Memory.{Slabs, State}
use ps.Ns.{NsOps, NsState, fill, fresh_head, free_slab, reset_frontier, ps_slab_nsalloc, publish}
use ps.Ns.Descriptor.{Slot, ps_ns_desc, ps_nsptr_lkup}
use ps.Ns.Interned.{InTrie, interned, lkup-desc, ns_lkup}
use ps.Slab.{SlabParams, slab_objmemsz}
use ps.Tests.SlabTests.{alone, one_slab, params}
use ps.Word.{ps_rndup, neg}

abbrev expand_if : Bool → (ℕ → ℕ) → (id mem : ℕ) → ExpandRet × (ℕ → ℕ)
expand_if true e id mem = (expanded, update e id mem)
expand_if false e id mem = (no_memory, e)

-- The lookup table is a function; the memory is at 4096, and the slab head at 500.
abbrev table_ops : Bool → NsOps (ℕ → ℕ)
table_ops works = record {
  lkupfn = λ e ert id dlimit. some (if dlimit == 3 then e id else id);
  expandfn = λ e ert id dlimit mem. some (expand_if works e id mem);
  slab_alloc_slabhead = λ e. (500, e);
  slab_free_slabhead = λ e s. e;
  plat_alloc = λ e sz c. (4096, e);
  plat_free = λ e mem sz c. e;
  memset_zero = λ e mem sz. e;
  get_next = λ e a. e a;
  set_next = λ e a v. update e a v;
}

abbrev no_slabs : Slabs
no_slabs = record {
  memory = λ s. 0;
  start = λ s. 0;
  end = λ s. 0;
  memsz = λ s. 0;
  coreid = λ s. 0;
  freelist = λ s. 0;
  nfree = λ s. 0;
}

abbrev empty_ns : NsState (ℕ → ℕ)
empty_ns = record {
  ns = record { ert = 1; ert_depth = 3; desc_range = 16; desc_max = 1024; fl = 0; frontier = 0 };
  slabs = no_slabs;
  links = record { n = λ a. a; p = λ a. a };
  env = λ id. 0;
}

abbrev slab_of : Option (ℕ × NsState (ℕ → ℕ)) → ℕ × ℕ × ℕ
slab_of none = (1, 1, 1)
slab_of (some (s, st)) = (s, st.ns.frontier, st.slabs.memory 500)

nsalloc_runs : slab_of (ps_slab_nsalloc (table_ops true) 8192 0 empty_ns) ≡ (500, 16, 4096)
unfolding ps_slab_nsalloc fresh_head ps_faa fill publish
nsalloc_runs = refl

-- The expansion fails: the frontier goes back, and the slab head keeps its pointer to the freed memory.
nsalloc_fails : slab_of (ps_slab_nsalloc (table_ops false) 8192 0 empty_ns) ≡ (0, 0, 4096)
unfolding ps_slab_nsalloc fresh_head ps_faa ps_cas fill publish free_slab reset_frontier
nsalloc_fails = refl

-- No descriptors are left: the frontier moves on all the same.
nsalloc_full :
    slab_of (
      ps_slab_nsalloc
        (table_ops true)
        8192
        0
        (record empty_ns { ns = record empty_ns.ns { frontier = 1024 } }))
    ≡ (0, 1040, 0)
unfolding ps_slab_nsalloc fresh_head ps_faa
nsalloc_full = refl

-- The last range ends at 2^64: two more calls lead back to 0.
abbrev full_ns : NsState (ℕ → ℕ)
full_ns = record empty_ns {
  ns = record empty_ns.ns { desc_range = 2 ^ 62; desc_max = 2 ^ 63; frontier = 2 ^ 63 };
}

-- The slots of one slab at 8192, without an offset, in steps of 64 bytes
abbrev slots : SlabParams ℕ
slots = record (params 4096) { headoff = 0 }

-- A root at 100 with 4 words, whose first one points to the slab, the leaf of the descriptors below 8
abbrev slab_trie : Geometry
slab_trie = record { depth = 2; order = 2; last_order = 3; last_sz = 64 }

slab_trie-IsSmall : IsSmall slab_trie
slab_trie-IsSmall = record {
  some_level = omega arith;
  few_levels = omega arith;
  bits = omega arith;
  wide_leaves = omega arith;
  intern_fits = omega arith;
  leaf_fits = omega arith;
}

slab_node : List ℕ → ℕ
slab_node [] = 100
slab_node (zero ∷ []) = 8192
slab_node (suc k ∷ []) = 0
slab_node (k ∷ j ∷ p) = 0

-- The words of memory: the marks of the headers, and the first word of the root
abbrev slab_words : State ℕ → ℕ → ℕ
slab_words st a = if a == 100 then 8192 else st.headers.tsc_free a

abbrev slab_state : State ℕ
slab_state = one_slab 0 alone 0 0

root_link : (k : ℕ) → k < 4 → slab_words slab_state (100 + k * 8) ≡ slab_node (k ∷ [])
unfolding slab_node
root_link zero lt = refl
root_link (suc k) lt = ground arith

-- The paths of the root and of the leaf
its_paths : (p : List ℕ) → slab_node p ≢ 0 → (p ≡ []) ⊎ (p ≡ 0 ∷ [])
unfolding slab_node
its_paths [] ne = inl refl
its_paths (zero ∷ []) ne = inr refl
its_paths (suc k ∷ []) ne = absurd (ne refl)
its_paths (k ∷ j ∷ p) ne = absurd (ne refl)

below_missing : (p : List ℕ) (k : ℕ) → slab_node p ≡ 0 → slab_node (k ∷ p) ≡ 0
unfolding slab_node
below_missing [] k e = omega arith
below_missing (j ∷ p) k e = refl

short : (k j : ℕ) (p : List ℕ) → ¬ length (j ∷ p) + 1 < 2
short k j p h = omega arith

linked :
    (p : List ℕ) (k : ℕ)
    → length p + 1 < 2
    → k < Shape.slots slab_trie (length p)
    → slab_words slab_state (slot slab_trie slab_node p k) ≡ slab_node (k ∷ p)
unfolding slab_node
linked [] k h lt = root_link k lt
linked (j ∷ p) k h lt = absurd (short k j p h)

apart_if :
    (p q : List ℕ) (k l : ℕ)
    → (p ≡ []) ⊎ (p ≡ 0 ∷ [])
    → (q ≡ []) ⊎ (q ≡ 0 ∷ [])
    → k < Shape.slots slab_trie (length p)
    → l < Shape.slots slab_trie (length q)
    → slot slab_trie slab_node p k ≡ slot slab_trie slab_node q l
    → (p ≡ q) × (k ≡ l)
unfolding slab_node
apart_if p q k l (inl a) (inl b) = rw (a, b) (λ lk ll e. (refl, omega arith))
apart_if p q k l (inl a) (inr b) = rw (a, b) (λ lk ll e. absurd (omega arith))
apart_if p q k l (inr a) (inl b) = rw (a, b) (λ lk ll e. absurd (omega arith))
apart_if p q k l (inr a) (inr b) = rw (a, b) (λ lk ll e. (refl, omega arith))

outside_if : (p : List ℕ) (k : ℕ) → (p ≡ []) ⊎ (p ≡ 0 ∷ []) → slot slab_trie slab_node p k ≢ 40
unfolding slab_node
outside_if p k (inl a) = rw a (λ e. omega arith)
outside_if p k (inr a) = rw a (λ e. omega arith)

slab_state-IsTrie : IsTrie slab_trie (slab_words slab_state) 100 slab_node
unfolding slab_node
slab_state-IsTrie = record {
  root = refl;
  root_not_null = λ e. omega arith;
  links = λ p k h ne lt. linked p k h lt;
  cut_off = below_missing;
  apart = λ p q k l lp lq np nq lk ll e. apart_if p q k l (its_paths p np) (its_paths q nq) lk ll e;
}

slab_state-Outside : Outside slab_trie slab_node 40
slab_state-Outside = λ p k lp ne lk e. outside_if p k (its_paths p ne) e

third-Slot : Slot slots slab_state 8192 2
unfolding slab_objmemsz ps_rndup neg
third-Slot = record {
  slot_fits = omega arith;
  some_bytes = omega arith;
  few_slots = omega arith;
  desc_fits = omega arith;
  header_of = refl;
}

third-InTrie : InTrie slots slab_trie slab_words slab_node slab_state 8192 2
unfolding slab_objmemsz ps_rndup neg path_of slab_node
third-InTrie = record {
  slab_slots = refl;
  aligned = refl;
  in_leaf = omega arith;
  its_leaf = refl;
  has_memory = λ e. omega arith;
  mark_word = refl;
}

lkup-desc_example :
    ps_nsptr_lkup
      (ns_lkup {F = ℕ} slots slab_trie slab_trie-IsSmall
        (λ m e a. 0)
        (λ m e d. (false, m))
        (λ st c sz leaf. (0, st))
        slab_words
        40
        0
        100)
      slab_state
      (ps_ns_desc slots slab_state (ps_mhead_mem (8192 + 2 * slab_objmemsz 40)))
    ≡ some (
        if ps_mhead_isfree slab_state.headers (8192 + 2 * slab_objmemsz 40)
        then 0
        else ps_mhead_mem (8192 + 2 * slab_objmemsz 40))
unfolding ert_maxid interned
lkup-desc_example =
    lkup-desc slots slab_trie slab_trie-IsSmall (λ m e a. 0) (λ m e d. (false, m))
      (λ st c sz leaf. (0, st)) slab_words 40 0 100 slab_state 8192 2 slab_state-IsTrie
      slab_state-Outside refl third-Slot third-InTrie (omega arith)
