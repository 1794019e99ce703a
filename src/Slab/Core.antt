-- ===== src/Slab/Core.antt =====
-- Allocation and frees on a core's own slabs (`__ps_slab_mem_alloc`, `__ps_slab_mem_free`).
use ps.Base.{
  subst, ℕ, ◌≡◌, ◌≢◌, refl, true, false, some, Option, List, [], ◌∷◌, arith, ==_self, ne→==, update,
}
use native.Mathlib.Decide.{ℕ_discrete}
use ps.Header.{Headers, ps_mhead_mem, ps_mhead_isfree}
use ps.Memory.{State, slab_info_of, smr_info_of}
use ps.Ring.Chain.{has, Ring}
use ps.Ring.Object.{ps_list_rem, node_of}
use ps.Slab.{Links, list_off, set_fl}
use ps.Slab.Alloc.{take_first, unlist_full, alloc_from}
use ps.Slab.Beside.{rem_beside}
use ps.Slab.Freelist.{has-nodes, Listed, first, freelist_rem-Listed, singleton-true}
use ps.Slab.Objects.{FreeObjects, FreeObjects-same, take_first-FreeObjects, take_first-other}

-- The slabs `ss` are the core's list, and the free objects of each are those of `objs`, at least one.
pub record CoreOk {E : Type 0} (st : State E) (c : ℕ) (ss : List ℕ) (objs : ℕ → List ℕ)
    : Type 0 where
  pub listed : Listed st.links (slab_info_of st c).fl ss
  pub free : (s : ℕ) → has s ss ≡ true → FreeObjects st s (objs s)
  pub some_free : (s : ℕ) → has s ss ≡ true → objs s ≢ []

-- The slab stays on the list as long as it has free objects.
abbrev pub stay : List ℕ → ℕ → List ℕ → List ℕ
stay [] s ss = ss
stay (x ∷ xs) s ss = s ∷ ss

module _ {E : Type 0} where
  pub set_fl-headers :
      (st : State E) (c : ℕ) (fl : ℕ × Links) → (set_fl st c fl).headers ≡ st.headers
  unfolding set_fl
  set_fl-headers st c fl = refl

  pub set_fl-links : (st : State E) (c : ℕ) (fl : ℕ × Links) → (set_fl st c fl).links ≡ fl.1
  unfolding set_fl
  set_fl-links st c fl = refl

  pub set_fl-slabs : (st : State E) (c : ℕ) (fl : ℕ × Links) → (set_fl st c fl).slabs ≡ st.slabs
  unfolding set_fl
  set_fl-slabs st c fl = refl

  pub set_fl-parsecs :
      (st : State E) (c : ℕ) (fl : ℕ × Links) → (set_fl st c fl).parsecs ≡ st.parsecs
  unfolding set_fl
  set_fl-parsecs st c fl = refl

  pub set_fl-smr :
      (st : State E) (c : ℕ) (fl : ℕ × Links) (d : ℕ)
      → smr_info_of (set_fl st c fl) d ≡ smr_info_of st d
  unfolding set_fl
  set_fl-smr st c fl d = ground arith

  pub set_fl-remote :
      (st : State E) (c : ℕ) (fl : ℕ × Links) (d : ℕ)
      → ((set_fl st c fl).percore d).slab_remote ≡ (st.percore d).slab_remote
  unfolding set_fl
  set_fl-remote st c fl d = ground arith

  pub set_fl-CoreOk :
      {st : State E} {c : ℕ} {ss : List ℕ} {objs : ℕ → List ℕ} (fl : ℕ × Links)
      → Listed fl.1 fl.0 ss
      → ((s : ℕ) → has s ss ≡ true → FreeObjects st s (objs s))
      → ((s : ℕ) → has s ss ≡ true → objs s ≢ [])
      → CoreOk (set_fl st c fl) c ss objs
  unfolding set_fl
  set_fl-CoreOk {c = c} fl l free some_free = record {
    listed = rw (==_self c, slab_info_of) l;
    free = λ s i. FreeObjects-same refl refl (free s i);
    some_free = some_free;
  }

  -- The result of an allocation of the object `x`
  pub record Allocated (c s x : ℕ) (xs ss : List ℕ) (objs : ℕ → List ℕ) (o : Option (ℕ × State E))
      : Type 0 where
    pub last : State E
    pub returns : o ≡ some (ps_mhead_mem x, last)
    pub ok : CoreOk last c (stay xs s ss) (update objs s xs)
    pub unmarked : last.headers.tsc_free x ≡ 0
    pub unlinked : last.headers.next x ≡ 0

  -- The state after an allocation from the slab `s`, which may have left the list
  pub record Taken (st : State E) (c s : ℕ) (ss xs : List ℕ) (objs : ℕ → List ℕ) (last : State E)
      : Type 0 where
    pub ok : CoreOk last c (stay xs s ss) (update objs s xs)
    pub same_headers : last.headers ≡ (take_first st s).headers
    pub same_slabs : last.slabs ≡ (take_first st s).slabs
    pub alone : xs ≡ [] → Ring last.links (node_of s list_off) []
    pub beside :
        (t : ℕ)
        → has t (s ∷ ss) ≡ false
        → Ring st.links (node_of t list_off) []
        → Ring last.links (node_of t list_off) []

  take_first-links : (st : State E) (s : ℕ) → (take_first st s).links ≡ st.links
  unfolding take_first
  take_first-links st s = refl

  module _ {st : State E} {c : ℕ} {objs : ℕ → List ℕ} (s : ℕ) (ss : List ℕ) (x : ℕ)
      (ok : CoreOk st c (s ∷ ss) objs) where
    first_slab : FreeObjects st s (objs s)
    first_slab = ok.free s (ground arith)

    at_first : (xs : List ℕ) → objs s ≡ x ∷ xs → FreeObjects st s (x ∷ xs)
    at_first xs e = subst (FreeObjects st s) e first_slab

    mine :
        (xs : List ℕ)
        → objs s ≡ x ∷ xs
        → let st' = take_first st s in
          FreeObjects st' s xs
          × (st.slabs.freelist s ≡ x)
          × (st'.headers.tsc_free x ≡ 0)
          × (st'.headers.next x ≡ 0)
    mine xs e = take_first-FreeObjects x xs (at_first xs e)

    taken_free :
        (xs : List ℕ)
        → objs s ≡ x ∷ xs
        → (t : ℕ) → has t (s ∷ ss) ≡ true
        → FreeObjects (take_first st s) t (update objs s xs t)
    taken_free xs e t i = elim (ℕ_discrete t s) [
      | yes same ↦ rw (same, ==_self s) (mine xs e).0
      | no other ↦ rw (ne→== t s other) (
          take_first-other t (objs t) (ok.free t i) other
            (rw (mine xs e).1 ((at_first xs e).owned x (ground arith))))
    ]

    others : (t : ℕ) → has t ss ≡ true → t ≢ s
    others t i = ground (arith, has-nodes s ss, has-nodes t ss, ok.listed.circle.distinct.0)

    -- It has no free object left.
    emptied :
        objs s ≡ x ∷ []
        → (st' : State E) × (unlist_full c s (take_first st s) ≡ some st')
          × Taken st c s ss [] objs st'
    unfolding unlist_full take_first
    emptied e =
        let k' = ps_list_rem st.links s list_off in
        let r = freelist_rem-Listed [] s ss ok.listed in
        let fl : ℕ × Links = (first ss, k') in
        (
          set_fl (take_first st s) c fl,
          rw (none_left, r.0, singleton-true (node_of s list_off) r.2) refl,
          record {
            ok =
                set_fl-CoreOk fl r.1 (λ t i. taken_free [] e t (ground arith))
                  (λ t i. rw (ne→== t s (others t i)) (ok.some_free t (ground arith)));
            same_headers = set_fl-headers (take_first st s) c fl;
            same_slabs = set_fl-slabs (take_first st s) c fl;
            alone = λ z. rw (set_fl-links (take_first st s) c fl) r.2;
            beside = λ t out alone.
                rw (set_fl-links (take_first st s) c fl)
                  (rem_beside t alone [] s ss ok.listed (ground arith));
          },
        )
      where
        none_left : (take_first st s).slabs.nfree s ≡ 0
        none_left = (mine [] e).0.count

    -- It has more free objects.
    kept :
        (y : ℕ) (ys : List ℕ)
        → objs s ≡ x ∷ y ∷ ys
        → (unlist_full c s (take_first st s) ≡ some (take_first st s))
          × Taken st c s ss (y ∷ ys) objs (take_first st s)
    unfolding unlist_full take_first
    kept y ys e = (
      rw (ne→== _ 0 some_left) refl,
      record {
        ok = record {
          listed = ok.listed;
          free = λ t i. taken_free (y ∷ ys) e t i;
          some_free = λ t i. elim (ℕ_discrete t s) [
            | yes same ↦ rw (same, ==_self s) (λ bad. cc)
            | no other ↦ rw (ne→== t s other) (ok.some_free t i)
          ];
        };
        same_headers = refl;
        same_slabs = refl;
        alone = λ z. cc;
        beside = λ t out alone. alone;
      },
    )
      where
        some_left : (take_first st s).slabs.nfree s ≢ 0
        some_left = omega (arith, (mine (y ∷ ys) e).0.count)

    unmarked_of : (hs : Headers) → hs.tsc_free x ≡ 0 → ps_mhead_isfree hs x ≡ false
    unfolding ps_mhead_isfree
    unmarked_of hs h = rw h refl

    finish :
        (xs : List ℕ) (st' : State E)
        → objs s ≡ x ∷ xs
        → unlist_full c s (take_first st s) ≡ some st'
        → Taken st c s ss xs objs st'
        → alloc_from c s st ≡ some (ps_mhead_mem x, st')
    unfolding alloc_from
    finish xs st' e r t =
        rw
          (
            (mine xs e).1,
            ne→== s 0 (ground (arith, ok.listed.not_null)),
            ne→== x 0 (at_first xs e).path.1,
            r,
            unmarked_of st'.headers (rw t.same_headers (mine xs e).2),
          )
          refl

    pub alloc_from-Taken :
        (xs : List ℕ)
        → objs s ≡ x ∷ xs
        → (st' : State E) × (alloc_from c s st ≡ some (ps_mhead_mem x, st'))
          × Taken st c s ss xs objs st'
    alloc_from-Taken [] e = let (st', r, t) = emptied e in (st', finish [] st' e r t, t)
    alloc_from-Taken (y ∷ ys) e =
        let (r, t) = kept y ys e in (take_first st s, finish (y ∷ ys) (take_first st s) e r t, t)

    -- `__ps_slab_mem_alloc` gives the first free object of the core's first slab, with its mark and
    -- link cleared. The slab loses it, and leaves the list if it was the last one.
    pub alloc_from-Allocated :
        (xs : List ℕ) → objs s ≡ x ∷ xs → Allocated c s x xs ss objs (alloc_from c s st)
    alloc_from-Allocated xs e =
        let (st', r, t) = alloc_from-Taken xs e in
        record {
          last = st';
          returns = r;
          ok = t.ok;
          unmarked = rw t.same_headers (mine xs e).2;
          unlinked = rw t.same_headers (mine xs e).3;
        }
