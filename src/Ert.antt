-- ===== src/Ert.antt =====
-- The embedded radix trie (ps_ertrie.h), with the functions that customise it as parameters.
pub mod Abstract
pub mod Allocate
pub mod Api
pub mod Attach
pub mod Create
pub mod Default
pub mod Digits
pub mod Expand
pub mod Extend
pub mod Grow
pub mod History
pub mod Lookup
pub mod Paths
pub mod Refine
pub mod Room
pub mod SetLeaf
pub mod Shape
use ps.Base.{
  ℕ, zero, suc, ◌+◌, ◌-◌, ◌*◌, ◌/◌, ◌%◌, ◌^◌, Bool, true, false, ◌&&◌, ◌||◌, not, Option, none,
  some, leb, ltb, ◌==◌, if◌then◌else◌, ◌>>=◌, update,
}

-- The words of memory, which hold each `struct ert_intern`, and what the allocation functions keep
pub record TrieState (E : Type 0) : Type 0 where
  pub mem : ℕ → ℕ
  pub env : E

abbrev pub set_mem : {E : Type 0} → TrieState E → (ℕ → ℕ) → TrieState E
set_mem st m = record st { mem = m }

-- `ERT_CONST_PARAMS`. The functions that read get the memory; `accum` is an address that they may
-- read.
pub record ErtParams (E : Type 0) : Type 0 where
  pub depth : ℕ
  pub order : ℕ
  pub intern_sz : ℕ
  pub last_order : ℕ
  pub last_sz : ℕ
  pub initval : ℕ
  pub initfn : (ℕ → ℕ) → (a : ℕ) → (leaf : Bool) → ℕ → ℕ
  pub getfn : (ℕ → ℕ) → (a accum : ℕ) → (leaf : Bool) → ℕ
  pub isnullfn : (ℕ → ℕ) → (a accum : ℕ) → (leaf : Bool) → Bool
  pub setfn : (ℕ → ℕ) → (e v accum : ℕ) → (leaf : Bool) → ℕ → ℕ
  pub allocfn : TrieState E → (memctxt sz : ℕ) → (leaf : Bool) → ℕ × TrieState E
  pub setleaffn : (ℕ → ℕ) → (e data' : ℕ) → Bool × (ℕ → ℕ)
  pub getleaffn : (ℕ → ℕ) → (e accum : ℕ) → ℕ
  pub resolvefn : (ℕ → ℕ) → (a accum : ℕ) → (leaf : Bool) → (order sz : ℕ) → Bool

-- The results of `__ert_expand`: 0, -1, 1 and `-EAGAIN`
pub data ExpandRet : Type 0 where
  expanded : ExpandRet
  no_memory : ExpandRet
  occupied : ExpandRet
  again : ExpandRet

-- `ERT_M`
abbrev pub ert_mask : (id o : ℕ) → ℕ
ert_mask id o = id % 2 ^ o

-- Subtraction on a `u32_t`
abbrev pub sub32 : (a b : ℕ) → ℕ
sub32 a b = (a + 2 ^ 32 - b) % 2 ^ 32

module _ {E : Type 0} (T : ErtParams E) where
  -- `__ert_maxid`; a word has 64 bits
  unfoldable pub ert_maxid : ℕ
  ert_maxid =
      let off = (T.order * sub32 T.depth 1 + T.last_order) % 2 ^ 32 in
      if ltb 64 off then 2 ^ 64 else 2 ^ off

  -- The loop of `__ert_init` from the slot `i` on, for `n` slots
  unfoldable pub init_loop : ℕ → (vi sz i : ℕ) → (leaf : Bool) → (ℕ → ℕ) → ℕ → ℕ
  init_loop zero vi sz i leaf m = m
  init_loop (suc n) vi sz i leaf m = init_loop n vi sz (i + 1) leaf (T.initfn m (vi + sz * i) leaf)

  -- `__ert_init` on a node that is not `NULL`
  unfoldable pub ert_init : (vi : ℕ) → (leaf : Bool) → (ℕ → ℕ) → ℕ → ℕ
  ert_init vi true m = init_loop (2 ^ T.last_order) vi T.last_sz 0 true m
  ert_init vi false m = init_loop (2 ^ T.order) vi T.intern_sz 0 false m

  -- The allocation of a node, in `ert_alloc` and `__ert_expand`
  abbrev pub alloc_node : TrieState E → (memctxt : ℕ) → (leaf : Bool) → ℕ × TrieState E
  alloc_node st memctxt leaf =
      if leaf
      then T.allocfn st memctxt (2 ^ T.last_order * T.last_sz % 2 ^ 32) true
      else T.allocfn st memctxt (2 ^ T.order * T.intern_sz % 2 ^ 32) false

  -- `ert_alloc`, whose locals `e` and `accum` are at addresses of their own; the result 0 is `NULL`
  unfoldable pub ert_alloc : (e accum memctxt : ℕ) → TrieState E → Option (ℕ × TrieState E)
  ert_alloc e accum memctxt st =
      let leaf = T.depth == 1 in
      let r = alloc_node st memctxt leaf in
      let m = T.setfn (ert_init r.0 leaf (update r.1.mem accum 0)) e r.0 accum leaf in
      if not (ltb ((T.order * sub32 T.depth 1 + T.last_order) % 2 ^ 32) 64) || ltb T.depth 1
      then none
      else if r.0 == 0
      then some (0, r.1)
      else some (m e, set_mem r.1 m)

  -- The offset that `__ert_walk` adds, an unsigned number of 32 bits
  abbrev pub walk_offset : (id lvl : ℕ) → ℕ
  walk_offset id lvl =
      if sub32 lvl 1 == 0
      then ert_mask id T.last_order * T.last_sz % 2 ^ 32
      else ert_mask (id / 2 ^ ((T.order * sub32 lvl 2 + T.last_order) % 2 ^ 32)) T.order
        * T.intern_sz
        % 2 ^ 32

  -- `__ert_walk`
  unfoldable pub ert_walk : (ℕ → ℕ) → (vi id accum lvl : ℕ) → ℕ
  ert_walk m vi id accum lvl = T.getfn m vi accum false + walk_offset id lvl

  -- The loop of `__ert_lookup` for `k` more rounds; `none` is its `return NULL`
  unfoldable pub lookup_loop : ℕ → (ℕ → ℕ) → (id accum i n : ℕ) → Option ℕ
  lookup_loop zero m id accum i n = some n
  lookup_loop (suc k) m id accum i n =
      let rest = lookup_loop k m id accum (i + 1) (ert_walk m n id accum (sub32 T.depth i)) in
      if T.isnullfn m n accum false then none else rest

  -- What follows the loop, which ended with `i` and `n`
  unfoldable pub lookup_end : (ℕ → ℕ) → (dlimit accum i n : ℕ) → ℕ
  lookup_end m dlimit accum i n =
      if i == T.depth && not (T.resolvefn m n accum true T.last_order T.last_sz)
      then 0
      else if ltb i T.depth && not (T.resolvefn m n accum false T.order T.intern_sz)
      then 0
      else if dlimit == T.depth + 1
      then T.getleaffn m n accum
      else n

  -- `dlimit < depth ? dlimit : depth`
  abbrev pub limit_of : ℕ → ℕ
  limit_of dlimit = if ltb dlimit T.depth then dlimit else T.depth

  -- The asserts of `__ert_lookup` and `__ert_expand`
  abbrev pub valid_call : (v id dstart dlimit : ℕ) → Bool
  valid_call v id dstart dlimit =
      not (v == 0) && ltb id ert_maxid && leb dlimit (T.depth + 1) && leb dstart dlimit

  -- `__ert_lookup`, whose local `r` is at an address of its own; the result 0 is `NULL`
  unfoldable pub ert_lookup : (r v id dstart dlimit accum : ℕ) → (ℕ → ℕ) → Option ℕ
  ert_lookup r v id dstart dlimit accum mem =
      let m = update mem r v in
      let limit = limit_of dlimit in
      let i = if ltb dstart limit then limit else dstart in
      let found : Option ℕ = elim (lookup_loop (limit - dstart) m id accum dstart r) [
        | none ↦ some 0
        | some n ↦ some (lookup_end m dlimit accum i n)
      ] in
      if valid_call v id dstart dlimit then found else none

  -- The body of the loop of `__ert_expand` behind its walk, which led to `n`; the first part says
  -- whether there was memory
  unfoldable pub expand_at : (memctxt accum i n : ℕ) → TrieState E → Bool × TrieState E
  expand_at memctxt accum i n st =
      let leaf = not (ltb (i + 2) T.depth) in
      let r = alloc_node st memctxt leaf in
      if not (T.isnullfn st.mem n accum false)
      then (true, st)
      else if r.0 == 0
      then (false, r.1)
      else (true, set_mem r.1 (T.setfn (ert_init r.0 leaf r.1.mem) n r.0 accum false))

  -- The loop for `k` more rounds: whether there was memory, the last `n`, and the state
  unfoldable pub expand_loop : ℕ → (memctxt id accum i n : ℕ) → TrieState E → Bool × ℕ × TrieState E
  expand_loop zero memctxt id accum i n st = (true, n, st)
  expand_loop (suc k) memctxt id accum i n st =
      let n' = ert_walk st.mem n id accum (sub32 T.depth i) in
      let r = expand_at memctxt accum i n' st in
      let rest = expand_loop k memctxt id accum (i + 1) n' r.1 in
      if r.0 then rest else (false, n', r.1)

  -- What follows the loop if `dlimit` is `depth + 1`
  unfoldable pub set_leaf : (id data' accum i n : ℕ) → TrieState E → ExpandRet × TrieState E
  set_leaf id data' accum i n st =
      let n' = ert_walk st.mem n id accum (sub32 T.depth i) in
      let r = T.setleaffn st.mem n' data' in
      if not (data' == T.initval) && not (T.isnullfn st.mem n' accum false)
      then (occupied, st)
      else ((if r.0 then again else expanded), set_mem st r.1)

  -- `__ert_expand`, whose local `r` is at an address of its own; `none` is a failed `assert`
  unfoldable pub ert_expand :
      (r v id dstart dlimit accum memctxt data' : ℕ)
      → TrieState E
      → Option (ExpandRet × TrieState E)
  ert_expand r v id dstart dlimit accum memctxt data' st =
      let last_level = sub32 (limit_of dlimit) 1 in
      let e =
        expand_loop (last_level - dstart) memctxt id accum dstart r
          (set_mem st (update st.mem r v)) in
      let i = if ltb dstart last_level then last_level else dstart in
      if not (valid_call v id dstart dlimit)
      then none
      else if not e.0
      then some (no_memory, e.2)
      else if dlimit == T.depth + 1
      then some (set_leaf id data' accum i e.1 e.2)
      else some (expanded, e.2)
