-- ===== src/Smr/Reclaim.antt =====
-- `__ps_smr_reclaim` and `__ps_smr_free` on the queue of one core.
use ps.Base.{
  ◌∙◌, ℕ, zero, suc, ◌≤◌, ◌<◌, ◌≡◌, ◌≢◌, refl, Bool, true, false, some, Option, List, [], ◌∷◌, ◌++◌,
  arith, length, ltb, ne→==, Bool-cases, inl, inr, ap, ltb→lt,
}
use native.Mathlib.Decide.{ℕ_discrete}
use ps.Header.{Headers, OnlyAt, ps_mhead_mem, ps_mhead_isfree}
use ps.Memory.{State, FreeFn}
use ps.Ring.Chain.{has, has-append}
use ps.Smr.{detach, release, reclaim_loop}
use ps.Smr.Defs.{FreeSpec, QueueOk}
use ps.Smr.Batch.{peek-head, unmarked_ne, release-QueueOk}

module _ {E : Type 0} (ffn : FreeFn E) (curr : ℕ) where
  -- The objects `xs` were handed to `ffn` one after the other, each off the head of the queue.
  pub data Handed : State E → List ℕ → State E → Type 0 where
    none_left : {st : State E} → Handed st [] st
    one :
        {st mid last : State E} {x : ℕ} {xs : List ℕ}
        → ffn (detach st curr) (ps_mhead_mem x) 0 curr ≡ some mid
        → Handed mid xs last
        → Handed st (x ∷ xs) last

isfree_of_marked : (hs : Headers) (x : ℕ) → hs.tsc_free x ≢ 0 → ps_mhead_isfree hs x ≡ true
unfolding ps_mhead_isfree
isfree_of_marked hs x ne = ground arith

ltb-false→le : (a b : ℕ) → ltb a b ≡ false → b ≤ a
ltb-false→le a b h = ground arith

in_kept :
    {xs : List ℕ} (taken : List ℕ) (z : ℕ) (zs kept : List ℕ)
    → xs ≡ taken ++ kept
    → kept ≡ z ∷ zs
    → has z xs ≡ true
in_kept taken z zs kept e at = rw (e, at, has-append) (ground arith)

module _ {E : Type 0} {ffn : FreeFn E} {curr : ℕ} (spec : FreeSpec ffn curr) where
  -- A prefix `taken` of the queue `xs` was handed over, and `kept` is left.
  pub record Reclaimed (k qsc : ℕ) (st : State E) (xs : List ℕ) (o : Option (State E × Bool))
      : Type 0 where
    pub taken : List ℕ
    pub kept : List ℕ
    pub last : State E
    pub broke : Bool
    pub splits : xs ≡ taken ++ kept
    pub returns : o ≡ some (last, broke)
    pub handed : Handed ffn curr st taken last
    pub quiet : (c : ℕ) → has c taken ≡ true → st.headers.tsc_free c ≤ qsc
    pub rest : QueueOk spec last kept
    pub same_ps : last.parsecs ≡ st.parsecs
    pub bound : length taken ≤ k
    pub full : broke ≡ false → length taken ≡ k
    pub stopped :
        broke ≡ true → (z : ℕ) × (zs : List ℕ) × (kept ≡ z ∷ zs) × (qsc < st.headers.tsc_free z)

  extend :
      {k qsc : ℕ} {st mid : State E} {o : Option (State E × Bool)} (x : ℕ) (xs : List ℕ)
      → QueueOk spec st (x ∷ xs)
      → st.headers.tsc_free x ≤ qsc
      → ffn (detach st curr) (ps_mhead_mem x) 0 curr ≡ some mid
      → OnlyAt x st.headers mid.headers
      → mid.parsecs ≡ st.parsecs
      → Reclaimed k qsc mid xs o
      → Reclaimed (suc k) qsc st (x ∷ xs) o
  extend {qsc} {st} x xs ok small call only same r = record {
    taken = x ∷ r.taken;
    kept = r.kept;
    last = r.last;
    broke = r.broke;
    splits = ap (λ l. x ∷ l) r.splits;
    returns = r.returns;
    handed = one call r.handed;
    quiet = λ c i. elim (ℕ_discrete c x) [
      | yes e ↦ rw e small
      | no ne ↦ rw (← only.same_tsc c ne) (r.quiet c (ground arith))
    ];
    rest = r.rest;
    bound = omega (arith, r.bound);
    same_ps = r.same_ps ∙ same;
    full = λ e. ap suc (r.full e);
    stopped = λ e.
        let (z, zs, at, late) = r.stopped e in
        (
          z,
          zs,
          at,
          rw
              (← only.same_tsc z
                (unmarked_ne spec x xs ok z (in_kept r.taken z zs r.kept r.splits at)))
              late,
        );
  }

  -- The loop never meets the end of the queue if that has an object for each round.
  pub reclaim_loop-Reclaimed :
      (k qsc : ℕ) (xs : List ℕ) {st : State E}
      → QueueOk spec st xs
      → k ≤ length xs
      → Reclaimed k qsc st xs (reclaim_loop k ffn curr qsc st)
  unfolding reclaim_loop
  reclaim_loop-Reclaimed zero qsc xs {st} ok h = record {
    taken = [];
    kept = xs;
    last = st;
    broke = false;
    splits = refl;
    returns = refl;
    handed = none_left;
    quiet = λ c i. cc;
    rest = ok;
    bound = omega arith;
    same_ps = refl;
    full = λ e. refl;
    stopped = λ e. cc;
  }
  reclaim_loop-Reclaimed (suc k) qsc [] ok h = absurd (omega arith)
  reclaim_loop-Reclaimed (suc k) qsc (x ∷ xs) {st} ok h =
      rw (peek-head spec x xs ok, ne→== x 0 ok.queue.path.1, marked_head)
        (elim (Bool-cases (ltb qsc (st.headers.tsc_free x))) [
          | inl late ↦ rw late (record {
            taken = [];
            kept = x ∷ xs;
            last = st;
            broke = true;
            splits = refl;
            returns = refl;
            handed = none_left;
            quiet = λ c i. cc;
            rest = ok;
            bound = omega arith;
            same_ps = refl;
            full = λ e. cc;
            stopped = λ e. (x, xs, refl, ltb→lt _ _ late);
          })
          | inr early ↦
              rw (early, r.1)
                (extend x xs ok (ltb-false→le _ _ early) r.2 r.4 r.5
                  (reclaim_loop-Reclaimed k qsc xs r.3 (omega arith)))
        ])
    where
      r :
          (st' : State E) × (release ffn curr st ≡ some st')
          × (ffn (detach st curr) (ps_mhead_mem x) 0 curr ≡ some st')
          × QueueOk spec st' xs
          × OnlyAt x st.headers st'.headers
          × (st'.parsecs ≡ st.parsecs)
      r = release-QueueOk spec x xs ok

      marked_head : ps_mhead_isfree st.headers x ≡ true
      marked_head = isfree_of_marked st.headers x (ok.marked x (ground arith))
