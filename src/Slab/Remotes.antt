-- ===== src/Slab/Remotes.antt =====
-- The remote lists of a core, and what a sweep over them does (ps_slab.c).
use ps.Base.{
  ◌⊎◌, inl, inr, ℕ, ◌≡◌, ◌≢◌, refl, sym, ◌∙◌, ap, true, false, ◌&&◌, Bool-cases, List, [], arith,
  ◌==◌, ==_self, if◌then◌else◌,
}
use ps.Memory.{State, SlabInfo, slab_info_of, set_slab_info, smr_info_of}
use ps.Queue.Fifo.{PathToNull, path_frame}
use ps.Ring.Chain.{has, Distinct}
use ps.Slab.{SlabParams}
use ps.Slab.Clear.{Waiting, Freed, Waiting-Freed}
use ps.Slab.Held.{HasCore, HasCore-same, SameCore, Held-edit, Held, not_both}
use ps.Smr.Safety.{OnlyAt-refl}

-- `f[l][i] = v`
abbrev pub put2 {ℓ} : {A : Type ℓ} → (ℕ → ℕ → A) → (l i : ℕ) → A → ℕ → ℕ → A
put2 f l i v j k = if (j == l) && (k == i) then v else f j k

-- The object is in none of the lists.
abbrev pub Outside : (ℕ → ℕ → List ℕ) → ℕ → Type 0
Outside lists h = (j k : ℕ) → has h (lists j k) ≡ false

same_place : (j k l i : ℕ) → ((j == l) && (k == i)) ≡ true → (j ≡ l) × (k ≡ i)
same_place j k l i e = ground arith

place_same : (j k l i : ℕ) → (j ≡ l) × (k ≡ i) → ((j == l) && (k == i)) ≡ true
place_same j k l i p = ground arith

pub own_info :
    {E : Type 0} (st : State E) (c : ℕ) (si : SlabInfo)
    → slab_info_of (set_slab_info st c si) c ≡ si
own_info st c si = rw (==_self c, slab_info_of) refl

module _ {E : Type 0} (P : SlabParams E) (objects : ℕ → List ℕ) where
  -- Each entry of the core's remote lists leads through its objects, which wait there and nowhere else.
  pub record RemoteOk (st : State E) (lists : ℕ → ℕ → List ℕ) : Type 0 where
    pub path :
        (j k : ℕ) → PathToNull st.headers.next ((st.percore P.coreid).slab_remote j k) (lists j k)
    pub distinct : (j k : ℕ) → Distinct (lists j k)
    pub apart :
        (j k l i c : ℕ) → has c (lists j k) ≡ true → has c (lists l i) ≡ true → (j ≡ l) × (k ≡ i)
    pub waiting : (j k c : ℕ) → has c (lists j k) ≡ true → Waiting P objects st c

  -- Some lists were emptied and their objects freed. Other objects stay held.
  pub record Swept (st : State E) (lists : ℕ → ℕ → List ℕ) (st' : State E) (lists' : ℕ → ℕ → List ℕ)
      : Type 0 where
    pub ok : RemoteOk st' lists'
    pub fewer : (j k : ℕ) → (lists' j k ≡ lists j k) ⊎ (lists' j k ≡ [])
    pub core : HasCore P objects st → HasCore P objects st'
    pub others : (h : ℕ) → Outside lists h → Held P objects st h → Held P objects st' h
    pub same_tsc : (c : ℕ) → Outside lists c → st'.headers.tsc_free c ≡ st.headers.tsc_free c
    pub freed :
        (j k c : ℕ)
        → has c (lists j k) ≡ true
        → has c (lists' j k) ≡ false
        → st'.headers.tsc_free c ≢ 0
    pub same_parsecs : st'.parsecs ≡ st.parsecs
    pub same_smr : (c : ℕ) → smr_info_of st' c ≡ smr_info_of st c

  pub Swept-refl :
      {st : State E} {lists : ℕ → ℕ → List ℕ} → RemoteOk st lists → Swept st lists st lists
  Swept-refl ok = record {
    ok = ok;
    fewer = λ j k. inl refl;
    core = λ a. a;
    others = λ h o m. m;
    same_tsc = λ c o. refl;
    freed = λ j k c i o. absurd (not_both _ i o);
    same_parsecs = refl;
    same_smr = λ c. refl;
  }

  -- The core's counters may change.
  pub Swept-info :
      {st st' : State E} {lists left : ℕ → ℕ → List ℕ} (si : SlabInfo)
      → si.fl ≡ (slab_info_of st' P.coreid).fl
      → Swept st lists st' left
      → Swept st lists (set_slab_info st' P.coreid si) left
  Swept-info {st' = st'} si e s = record {
    ok = record {
      path = λ j k. rw (==_self P.coreid) (s.ok.path j k);
      distinct = s.ok.distinct;
      apart = s.ok.apart;
      waiting = λ j k c i.
          let w = s.ok.waiting j k c i in
          record { held = keep c w.held; home = w.home; unmarked = w.unmarked };
    };
    fewer = s.fewer;
    core = λ a. HasCore-same P objects refl same (s.core a);
    others = λ h o m. keep h (s.others h o m);
    same_tsc = s.same_tsc;
    freed = s.freed;
    same_parsecs = s.same_parsecs;
    same_smr = λ c. smr_kept c ∙ s.same_smr c;
  }
    where
      same : SameCore P.coreid st' (set_slab_info st' P.coreid si)
      same = record {
        same_slabs = refl;
        same_links = refl;
        same_fl = ap (λ z. z.fl) (own_info st' P.coreid si) ∙ e;
      }

      keep : (h : ℕ) → Held P objects st' h → Held P objects (set_slab_info st' P.coreid si) h
      keep h m = Held-edit P objects h m (OnlyAt-refl h st'.headers) same h m

      smr_kept : (c : ℕ) → smr_info_of (set_slab_info st' P.coreid si) c ≡ smr_info_of st' c
      smr_kept c = ground arith

  was : {xs ys : List ℕ} (c : ℕ) → (ys ≡ xs) ⊎ (ys ≡ []) → has c ys ≡ true → has c xs ≡ true
  was c (inl e) i = sym (ap (has c) e) ∙ i
  was c (inr e) i = absurd (not_both _ i (ap (has c) e))

  was_not : {xs ys : List ℕ} (c : ℕ) → (ys ≡ xs) ⊎ (ys ≡ []) → has c xs ≡ false → has c ys ≡ false
  was_not c (inl e) o = ap (has c) e ∙ o
  was_not c (inr e) o = ap (has c) e

  fewer_trans :
      {xs ys zs : List ℕ} → (ys ≡ xs) ⊎ (ys ≡ []) → (zs ≡ ys) ⊎ (zs ≡ []) → (zs ≡ xs) ⊎ (zs ≡ [])
  fewer_trans (inl e) (inl d) = inl (d ∙ e)
  fewer_trans (inr e) (inl d) = inr (d ∙ e)
  fewer_trans a (inr d) = inr d

  pub Swept-trans :
      {st mid last : State E} {lists lists' lists'' : ℕ → ℕ → List ℕ}
      → RemoteOk st lists
      → Swept st lists mid lists'
      → Swept mid lists' last lists''
      → Swept st lists last lists''
  Swept-trans {st} {mid} {last} {lists} {lists'} r a b = record {
    ok = b.ok;
    fewer = λ j k. fewer_trans (a.fewer j k) (b.fewer j k);
    core = λ x. b.core (a.core x);
    others = λ h o m. b.others h (outside h o) (a.others h o m);
    same_tsc = λ c o. b.same_tsc c (outside c o) ∙ a.same_tsc c o;
    freed = λ j k c i o. elim (Bool-cases (has c (lists' j k))) [
      | inl later ↦ b.freed j k c later o
      | inr first ↦ λ z. a.freed j k c i first (sym (b.same_tsc c (gone j k c i first)) ∙ z)
    ];
    same_parsecs = b.same_parsecs ∙ a.same_parsecs;
    same_smr = λ c. b.same_smr c ∙ a.same_smr c;
  }
    where
      outside : (h : ℕ) → Outside lists h → Outside lists' h
      outside h o j k = was_not h (a.fewer j k) (o j k)

      gone : (j k c : ℕ) → has c (lists j k) ≡ true → has c (lists' j k) ≡ false → Outside lists' c
      gone j k c i o l m = elim (Bool-cases (has c (lists' l m))) [
        | inl there ↦
            let (e, d) = r.apart j k l m c i (was c (a.fewer l m) there) in
            absurd (
              not_both _ (ap (λ z. has c (lists' z k)) e ∙ ap (λ z. has c (lists' l z)) d ∙ there)
                o)
        | inr out ↦ out
      ]

  -- One entry is emptied.
  pub sweep_entry :
      {st st' : State E} {lists : ℕ → ℕ → List ℕ} (l i : ℕ)
      → RemoteOk st lists
      → Freed P objects st (lists l i) st'
      → ((j k : ℕ)
          → (st'.percore P.coreid).slab_remote j k
            ≡ put2 ((st.percore P.coreid).slab_remote) l i 0 j k)
      → Swept st lists st' (put2 lists l i [])
  sweep_entry {st} {st'} {lists} l i r f entry = record {
    ok = record {
      path = λ j k. elim (cases j k) [
        | inl e ↦ rw (entry j k, e) refl
        | inr e ↦
            rw (entry j k, e)
              (path_frame _ _ _ (lists j k) (λ c m. f.same_next c (kept j k c e m)) (r.path j k))
      ];
      distinct = λ j k. elim (cases j k) [ inl e ↦ rw e tt | inr e ↦ rw e (r.distinct j k) ];
      apart = λ j k m n c a b. r.apart j k m n c (before j k c a) (before m n c b);
      waiting = λ j k c m. elim (cases j k) [
        | inl e ↦ absurd (not_both _ m (rw e refl))
        | inr e ↦
            Waiting-Freed P objects c f (kept j k c e (before j k c m))
              (r.waiting j k c (before j k c m))
      ];
    };
    fewer = λ j k. elim (cases j k) [ inl e ↦ inr (rw e refl) | inr e ↦ inl (rw e refl) ];
    core = f.core;
    others = λ h o m. f.others h (o l i) m;
    same_tsc = λ c o. f.same_tsc c (o l i);
    freed = λ j k c m o. elim (cases j k) [
      | inl e ↦ f.marked c (there j k c e m)
      | inr e ↦ absurd (not_both _ m (rw e at o))
    ];
    same_parsecs = f.same_parsecs;
    same_smr = f.same_smr;
  }
    where
      cases : (j k : ℕ) → (((j == l) && (k == i)) ≡ true) ⊎ (((j == l) && (k == i)) ≡ false)
      cases j k = Bool-cases ((j == l) && (k == i))

      before : (j k c : ℕ) → has c (put2 lists l i [] j k) ≡ true → has c (lists j k) ≡ true
      before j k c m = elim (cases j k) [
        | inl e ↦ absurd (not_both _ m (rw e refl))
        | inr e ↦ rw e at m
      ]

      there :
          (j k c : ℕ)
          → ((j == l) && (k == i)) ≡ true
          → has c (lists j k) ≡ true
          → has c (lists l i) ≡ true
      there j k c e m =
          let (a, b) = same_place j k l i e in
          sym (ap (λ z. has c (lists z k)) a ∙ ap (λ z. has c (lists l z)) b) ∙ m

      kept :
          (j k c : ℕ)
          → ((j == l) && (k == i)) ≡ false
          → has c (lists j k) ≡ true
          → has c (lists l i) ≡ false
      kept j k c e m = elim (Bool-cases (has c (lists l i))) [
        | inl both ↦ absurd (not_both _ (place_same j k l i (r.apart j k l i c m both)) e)
        | inr out ↦ out
      ]
