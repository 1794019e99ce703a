-- ===== src/Ert/Default.antt =====
-- The default functions of ps_ertrie.h, and the parameters that `ERT_CREATE_DEF` makes of them.
use ps.Base.{ℕ, Bool, true, false, ◌==◌, update}
use ps.Ert.{TrieState, ErtParams}

-- `ert_defget`
abbrev pub ert_defget : (ℕ → ℕ) → (a accum : ℕ) → (leaf : Bool) → ℕ
ert_defget m a accum leaf = m a

-- `ert_defgetleaf`
abbrev pub ert_defgetleaf : (ℕ → ℕ) → (a accum : ℕ) → ℕ
ert_defgetleaf m a accum = m a

-- `ert_defisnull`
abbrev pub ert_defisnull : (ℕ → ℕ) → (a accum : ℕ) → (leaf : Bool) → Bool
ert_defisnull m a accum leaf = m a == 0

-- `ert_defresolve`
abbrev pub ert_defresolve : (ℕ → ℕ) → (a accum : ℕ) → (leaf : Bool) → (order sz : ℕ) → Bool
ert_defresolve m a accum leaf order sz = true

-- `ert_defset`
abbrev pub ert_defset : (ℕ → ℕ) → (a v accum : ℕ) → (leaf : Bool) → ℕ → ℕ
ert_defset m a v accum leaf = update m a v

-- `ert_defsetleaf`
abbrev pub ert_defsetleaf : (ℕ → ℕ) → (a data' : ℕ) → Bool × (ℕ → ℕ)
ert_defsetleaf m a data' = (false, update m a data')

-- `ert_definit`
abbrev pub ert_definit : (ℕ → ℕ) → (a : ℕ) → (leaf : Bool) → ℕ → ℕ
ert_definit m a leaf = update m a 0

-- `ERT_CREATE_DEF`
abbrev pub ert_create_def :
    {E : Type 0}
    → (depth order last_order last_sz : ℕ)
    → (TrieState E → (memctxt sz : ℕ) → (leaf : Bool) → ℕ × TrieState E)
    → ErtParams E
ert_create_def depth order last_order last_sz allocfn = record {
  depth = depth;
  order = order;
  intern_sz = 8;
  last_order = last_order;
  last_sz = last_sz;
  initval = 0;
  initfn = ert_definit;
  getfn = ert_defget;
  isnullfn = ert_defisnull;
  setfn = ert_defset;
  allocfn = allocfn;
  setleaffn = ert_defsetleaf;
  getleaffn = ert_defgetleaf;
  resolvefn = ert_defresolve;
}
