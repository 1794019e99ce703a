-- ===== src/RemoteStack.antt =====
-- The stacks of remotely freed objects (`__ps_rfl_stack_push` and `__ps_rfl_stack_remove_all` of
-- ps_global.h), under every interleaving of the cores.
pub mod Invariant
pub mod Safety
use ps.Base.{ℕ, ◌≡◌, ◌≢◌, Bool, List, [], ◌∷◌, ◌==◌, if◌then◌else◌, update}
use ps.Ring.Chain.{has}

-- Where a core is in the two loops: at the head, behind the load of `*h` into `t`, or behind the
-- write of `n->next`. `got` holds what the removal returned; its list is only for the proof.
pub data Pc : Type 0 where
  idle : Pc
  push_start : (n : ℕ) → Pc
  push_loaded : (n t : ℕ) → Pc
  push_linked : (n t : ℕ) → Pc
  remove_start : Pc
  remove_loaded : (t : ℕ) → Pc
  got : (t : ℕ) (ts : List ℕ) → Pc

-- Who may write to a header: the core that has it, the core that is pushing it, or nobody
pub data Place : Type 0 where
  held : (core : ℕ) → Place
  pushed_by : (core : ℕ) → Place
  in_stack : Place

-- `*h`, the links, and the cores. `spec` is the list that the stack stands for.
pub record Stack : Type 0 where
  pub top : ℕ
  pub next : ℕ → ℕ
  pub pc : ℕ → Pc
  pub place : ℕ → Place
  pub spec : List ℕ

-- `ps_cas` in `__ps_rfl_stack_push`: on success the header is on the stack
unfoldable pub push_cas : Stack → (i n t : ℕ) → Stack
push_cas s i n t =
    if s.top == t
    then record s {
      top = n;
      pc = update s.pc i idle;
      place = update s.place n in_stack;
      spec = n ∷ s.spec;
    }
    else record s { pc = update s.pc i (push_start n) }

-- `ps_cas` in `__ps_rfl_stack_remove_all`
unfoldable pub remove_cas : Stack → (i t : ℕ) → Stack
remove_cas s i t =
    if s.top == t
    then record s {
      top = 0;
      pc = update s.pc i (got t s.spec);
      place = λ c. if has c s.spec then held i else s.place c;
      spec = [];
    }
    else record s { pc = update s.pc i remove_start }

-- One access to memory, by core `i`
pub data Step : Stack → Stack → Type 0 where
  push :
      {s : Stack} (i n : ℕ)
      → s.pc i ≡ idle
      → s.place n ≡ held i
      → n ≢ 0
      → Step s
          (record s { pc = update s.pc i (push_start n); place = update s.place n (pushed_by i) })
  push_load :
      {s : Stack} (i n : ℕ)
      → s.pc i ≡ push_start n
      → Step s (record s { pc = update s.pc i (push_loaded n s.top) })
  push_link :
      {s : Stack} (i n t : ℕ)
      → s.pc i ≡ push_loaded n t
      → Step s (record s { next = update s.next n t; pc = update s.pc i (push_linked n t) })
  push_swap : {s : Stack} (i n t : ℕ) → s.pc i ≡ push_linked n t → Step s (push_cas s i n t)
  remove :
      {s : Stack} (i : ℕ) → s.pc i ≡ idle → Step s (record s { pc = update s.pc i remove_start })
  remove_load :
      {s : Stack} (i : ℕ)
      → s.pc i ≡ remove_start
      → Step s (record s { pc = update s.pc i (remove_loaded s.top) })
  remove_swap : {s : Stack} (i t : ℕ) → s.pc i ≡ remove_loaded t → Step s (remove_cas s i t)
  finish :
      {s : Stack} (i t : ℕ) (ts : List ℕ)
      → s.pc i ≡ got t ts
      → Step s (record s { pc = update s.pc i idle })

-- The stack is empty, and every core idle; the headers are with any cores.
abbrev pub initial : (ℕ → ℕ) → (ℕ → ℕ) → Stack
initial next owner = record {
  top = 0;
  next = next;
  pc = λ i. idle;
  place = λ c. held (owner c);
  spec = [];
}

pub data Reach : Stack → Type 0 where
  start : (next owner : ℕ → ℕ) → Reach (initial next owner)
  step : {s s' : Stack} → Reach s → Step s s' → Reach s'
