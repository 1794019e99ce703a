-- ===== src/Slab/Process.antt =====
-- `__ps_slab_mem_remote_clear` and `__ps_slab_mem_remote_process` (ps_slab.c).
use ps.Base.{
  subst, ==_self, ◌⊎◌, inl, inr, ℕ, zero, suc, ◌+◌, ◌-◌, ◌≤◌, ◌<◌, ◌≡◌, ◌≢◌, refl, sym, ◌∙◌, ap,
  Option, some, List, [], ◌∷◌, length, arith, ne→==,
}
use native.Mathlib.Nat.{add-zero}
use native.Mathlib.Decide.{ℕ_discrete}
use ps.Memory.{State}
use ps.Queue.Fifo.{PathToNull}
use ps.Slab.{SlabParams, num_remote_list}
use ps.Slab.Alloc.{remove_all, clear_entry, clear_entries}
use ps.Slab.Clear.{Waiting, Freed, clear_list-Freed}
use ps.Slab.Frees.{Sizes}
use ps.Slab.Held.{HasCore-same, Held, Held-edit}
use ps.Slab.Released.{GivesBack}
use ps.Slab.Remotes.{put2, RemoteOk, Swept, Swept-refl, Swept-trans, sweep_entry}
use ps.Smr.Safety.{OnlyAt-refl}

module _ {E : Type 0} (P : SlabParams E) (objects : ℕ → List ℕ) (here numaid : ℕ) (sizes : Sizes P)
    (given : GivesBack P.ffn P.coreid) (fuel : ℕ) where
  Held-removed :
      {st : State E} (l i h : ℕ)
      → Held P objects st h
      → Held P objects (remove_all st P.coreid l i).1 h
  unfolding remove_all
  Held-removed {st} l i h m =
      Held-edit P objects h m (OnlyAt-refl h st.headers)
        (record { same_slabs = refl; same_links = refl; same_fl = ground arith }) h m

  Waiting-removed :
      {st : State E} (l i h : ℕ)
      → Waiting P objects st h
      → Waiting P objects (remove_all st P.coreid l i).1 h
  unfolding remove_all
  Waiting-removed l i h w = record {
    held = Held-removed l i h w.held;
    home = w.home;
    unmarked = w.unmarked;
  }

  removed_entry :
      (st last : State E) (l i j k : ℕ)
      → (last.percore P.coreid).slab_remote
        ≡ ((remove_all st P.coreid l i).1.percore P.coreid).slab_remote
      → (last.percore P.coreid).slab_remote j k ≡ put2 ((st.percore P.coreid).slab_remote) l i 0 j k
  unfolding remove_all
  removed_entry st last l i j k e = ap (λ f. f j k) e ∙ ground arith

  Freed-removed :
      {st last : State E} {xs : List ℕ} (l i : ℕ)
      → Freed P objects (remove_all st P.coreid l i).1 xs last
      → Freed P objects st xs last
  unfolding remove_all
  Freed-removed {st} l i f = record {
    same_slab = f.same_slab;
    same_owner = f.same_owner;
    same_next = f.same_next;
    same_tsc = f.same_tsc;
    same_parsecs = f.same_parsecs;
    same_smr = λ c. f.same_smr c ∙ ground arith;
    core = λ a. f.core (
        HasCore-same P objects refl
          (record { same_slabs = refl; same_links = refl; same_fl = ground arith }) a);
    others = λ h o m. f.others h o (Held-removed l i h m);
    marked = f.marked;
  }

  -- A sweep that counts what it frees on top of `ret`
  pub record Counted (st : State E) (lists : ℕ → ℕ → List ℕ) (ret : ℕ) (o : Option (ℕ × State E))
      : Type 0 where
    pub last : State E
    pub left : ℕ → ℕ → List ℕ
    pub count : ℕ
    pub returns : o ≡ some (ret + count, last)
    pub swept : Swept P objects st lists last left
    pub busy : count ≢ 0 → (j : ℕ) × (k : ℕ) × (lists j k ≢ []) × (left j k ≡ [])
    pub idle : count ≡ 0 → (j k : ℕ) → left j k ≡ lists j k

  abbrev pub Fits : (ℕ → ℕ → List ℕ) → Type 0
  Fits lists = (j k : ℕ) → length (lists j k) ≤ fuel

  entry-Counted :
      {st : State E} {lists : ℕ → ℕ → List ℕ} (l i ret : ℕ) (xs : List ℕ)
      → lists l i ≡ xs
      → RemoteOk P objects st lists
      → Fits lists
      → (c : Counted st lists ret (clear_entry fuel P here numaid l i ret st)) × (c.left l i ≡ [])
  unfolding clear_entry remove_all
  entry-Counted {st} {lists} l i ret [] e r fits =
      let p : (st.percore P.coreid).slab_remote l i ≡ 0 =
        subst (PathToNull st.headers.next ((st.percore P.coreid).slab_remote l i)) e (r.path l i) in
      (
        record {
          last = st;
          left = lists;
          count = 0;
          returns = rw (p, add-zero ret) refl;
          swept = Swept-refl P objects r;
          busy = λ ne. absurd (ne refl);
          idle = λ z j k. refl;
        },
        e,
      )
  entry-Counted {st} {lists} l i ret (x ∷ xs) e r fits =
      let entry = (st.percore P.coreid).slab_remote l i in
      let p = subst (PathToNull st.headers.next entry) e (r.path l i) in
      let (last, call, f, remote) =
        clear_list-Freed P objects here numaid sizes given fuel (lists l i) entry ret
          {st = (remove_all st P.coreid l i).1} (r.path l i) (r.distinct l i)
          (λ c m. Waiting-removed l i c (r.waiting l i c m)) (fits l i) in
      (
        record {
          last = last;
          left = put2 lists l i [];
          count = length (lists l i);
          returns = rw (ne→== entry 0 (λ z. p.1 (sym p.0 ∙ z))) call;
          swept =
              sweep_entry P objects l i r (Freed-removed l i f)
                (λ j k. removed_entry st last l i j k (remote P.coreid));
          busy = λ ne. (l, i, λ z. cc, rw (==_self l, ==_self i) refl);
          idle = λ z. absurd (omega (arith, z, ap length e));
        },
        rw (==_self l, ==_self i) refl,
      )

  pub Fits-left :
      {lists left : ℕ → ℕ → List ℕ}
      → ((j k : ℕ) → (left j k ≡ lists j k) ⊎ (left j k ≡ []))
      → Fits lists
      → Fits left
  Fits-left fewer fits j k = elim (fewer j k) [
    | inl e ↦ rw e (fits j k)
    | inr e ↦ rw e (omega arith)
  ]

  pub stay_empty : {xs ys : List ℕ} → (ys ≡ xs) ⊎ (ys ≡ []) → xs ≡ [] → ys ≡ []
  stay_empty (inl e) d = e ∙ d
  stay_empty (inr e) d = e

  Counted-then :
      {st : State E} {lists : ℕ → ℕ → List ℕ} {ret : ℕ} {o o' : Option (ℕ × State E)}
      → RemoteOk P objects st lists
      → (c : Counted st lists ret o) → (d : Counted c.last c.left (ret + c.count) o')
      → (o'' : Option (ℕ × State E)) → o'' ≡ o'
      → (e : Counted st lists ret o'') × ((j k : ℕ) → e.left j k ≡ d.left j k)
  Counted-then {lists = lists} {ret = ret} r c d o'' q = (
    record {
      last = d.last;
      left = d.left;
      count = c.count + d.count;
      returns = q ∙ d.returns ∙ ap (λ (n : ℕ). some (n, d.last)) (omega arith);
      swept = Swept-trans P objects r c.swept d.swept;
      busy = λ ne. elim (ℕ_discrete (c.count) 0) [
        | yes z ↦
            let (j, k, a, b) = d.busy (λ z'. ne (omega arith)) in
            (j, k, λ e. a (c.idle z j k ∙ e), b)
        | no nz ↦ let (j, k, a, b) = c.busy nz in (j, k, a, stay_empty (d.swept.fewer j k) b)
      ];
      idle = λ z j k. d.idle (omega arith) j k ∙ c.idle (omega arith) j k;
    },
    λ j k. refl,
  )

  pub entries-Counted :
      {st : State E} {lists : ℕ → ℕ → List ℕ} (k l ret : ℕ)
      → k ≤ num_remote_list
      → RemoteOk P objects st lists
      → Fits lists
      → (c : Counted st lists ret (clear_entries k fuel P here numaid l ret st)) × ((i : ℕ)
          → num_remote_list - k ≤ i
          → i < num_remote_list
          → c.left l i ≡ [])
  unfolding clear_entries
  entries-Counted {st} {lists} zero l ret le r fits = (
    record {
      last = st;
      left = lists;
      count = 0;
      returns = ap (λ (n : ℕ). some (n, st)) (omega arith);
      swept = Swept-refl P objects r;
      busy = λ ne. absurd (ne refl);
      idle = λ z j k. refl;
    },
    λ i a b. absurd (omega arith),
  )
  entries-Counted {st} {lists} (suc k) l ret le r fits =
      let (c, e) = entry-Counted l (num_remote_list - suc k) ret _ refl r fits in
      let (d, f) =
        entries-Counted {st = c.last} {lists = c.left} k l (ret + c.count) (omega arith) c.swept.ok
          (Fits-left c.swept.fewer fits) in
      let call : clear_entries (suc k) fuel P here numaid l ret st
          ≡ clear_entries k fuel P here numaid l (ret + c.count) c.last =
        rw c.returns refl in
      let (b, same) = Counted-then r c d _ call in
      (
        b,
        λ i lo hi. same l i ∙ elim (ℕ_discrete i (num_remote_list - suc k)) [
          | yes at ↦ ap (d.left l) at ∙ stay_empty (d.swept.fewer l (num_remote_list - suc k)) e
          | no ne ↦ f i (omega arith) hi
        ],
      )
