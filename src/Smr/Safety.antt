-- ===== src/Smr/Safety.antt =====
-- What `__ps_smr_free` gives back to the allocator is out of reach of every parallel section.
use ps.Base.{◌⊎◌, ℕ, ◌≤◌, ◌<◌, ◌≡◌, refl, true, some, Option, List, [], ◌∷◌, ◌++◌, length, update}
use ps.Header.{Headers, OnlyAt}
use ps.Memory.{State, FreeFn}
use ps.Parsec.{Parsec, timing_of}
use ps.Parsec.Invariant.Defs.{InLib}
use ps.Parsec.Quiesce.{Ret, returned}
use ps.Ring.Chain.{has}
use ps.Smr.{ps_try_quiesce, qlist_batch, raise_target}
use ps.Smr.Defs.{FreeSpec, QueueOk}
use ps.Smr.Reclaim.{Handed}

pub OnlyAt-refl : (x : ℕ) (hs : Headers) → OnlyAt x hs hs
OnlyAt-refl x hs = record { same_slab = refl; same_next = λ c ne. refl; same_tsc = λ c ne. refl }

abbrev with_parsecs : {E : Type 0} → State E → (ℕ → Parsec) → State E
with_parsecs st ps = record st { parsecs = ps }

-- The first of the queue
abbrev pub front : List ℕ → ℕ
front [] = 0
front (x ∷ xs) = x

module _ {E : Type 0} {ffn : FreeFn E} {curr : ℕ} (spec : FreeSpec ffn curr) where
  -- A run that returns. A prefix `taken` of the queue `xs` is gone, and every parallel section that is
  -- open at the end was entered at, or after, the time `freed_at` of each object taken.
  pub record Takes (n : ℕ) (freed_at : ℕ → ℕ) (ps : ℕ) (xs : List ℕ) (o : Option (State E))
      : Type 0 where
    pub taken : List ℕ
    pub kept : List ℕ
    pub last : State E
    pub splits : xs ≡ taken ++ kept
    pub returns : o ≡ some last
    pub rest : QueueOk spec last kept
    pub few : length taken ≤ qlist_batch
    pub out_of_reach :
        (c : ℕ)
        → has c taken ≡ true
        → (j : ℕ) → j < n
        → InLib (timing_of (last.parsecs ps) j)
        → freed_at c ≤ (timing_of (last.parsecs ps) j).time_in

  -- From `st` on, the objects `taken` were handed to `ffn`, one after the other: a batch of them, or all
  -- up to one that was freed after `q`. Only the target of the queue may have changed since.
  pub record Hands (st : State E) (q : ℕ) (taken kept : List ℕ) (last : State E) : Type 0 where
    pub until : State E
    pub handed : Handed ffn curr st taken until
    pub same_end : (last ≡ until) ⊎ (last ≡ raise_target until curr)
    pub stops :
        (length taken ≡ qlist_batch)
        ⊎ ((z : ℕ) × (zs : List ℕ) × (kept ≡ z ∷ zs) × (q < st.headers.tsc_free z))

  -- `ps` and `target` are the parallel section and the target of the core.
  module _ (n : ℕ) (clock : ℕ → ℕ) (others : ℕ → Parsec → Parsec) (ps target : ℕ) where
    -- What `ps_try_quiesce` gives for the first object of the queue lets the objects `taken` pass.
    pub record Course (st : State E) (xs taken kept : List ℕ) (last : State E) : Type 0 where
      pub p : Parsec
      pub ret : Ret
      pub q : ℕ
      pub called :
          ps_try_quiesce n clock others (st.parsecs ps) curr (st.headers.tsc_free (front xs))
          ≡ returned p ret q
      pub hands : Hands (with_parsecs st (update st.parsecs ps p)) q taken kept last

    -- The queue `xs` of `st` is shorter than the target, and nothing is taken, or it is reclaimed from.
    pub record Frees (freed_at : ℕ → ℕ) (st : State E) (xs : List ℕ) (o : Option (State E))
        : Type 0 where
      pub takes : Takes n freed_at ps xs o
      pub course :
          ((length xs < target) × (takes.taken ≡ []) × (takes.last ≡ st))
          ⊎ ((target ≤ length xs) × Course st xs takes.taken takes.kept takes.last)
