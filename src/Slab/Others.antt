-- ===== src/Slab/Others.antt =====
-- What `__ps_slab_mem_free` (ps_slab.h) on one object means for the other objects in use.
use ps.Base.{true, ◌⊎◌, inl, inr, ℕ, ◌≡◌, ◌≢◌, refl, sym, ◌∙◌, ap, subst, List, []}
use native.Mathlib.Decide.{ℕ_discrete}
use ps.Header.{ps_mhead_setfree}
use ps.Memory.{State}
use ps.Ring.Chain.{has}
use ps.Slab.{SlabParams, put_back}
use ps.Slab.Core.{CoreOk}
use ps.Slab.Free.{PutBack}
use ps.Slab.Held.{Stocked, Core, Full, Home, OnList, Place, Held, Place-rebase}
use ps.Slab.Objects.{FreeObjects-same, put_back-other}

put_back-slab :
    {E : Type 0} (st : State E) (h s : ℕ) → (put_back st h s).headers.slab ≡ st.headers.slab
unfolding put_back ps_mhead_setfree
put_back-slab st h s = refl

put_back-coreid :
    {E : Type 0} (st : State E) (h s : ℕ) → (put_back st h s).slabs.coreid ≡ st.slabs.coreid
unfolding put_back ps_mhead_setfree
put_back-coreid st h s = refl

put_back-memory :
    {E : Type 0} (st : State E) (h s : ℕ) → (put_back st h s).slabs.memory ≡ st.slabs.memory
unfolding put_back ps_mhead_setfree
put_back-memory st h s = refl

module _ {E : Type 0} (P : SlabParams E) (objects : ℕ → List ℕ) (st st' : State E) (x s : ℕ)
    (ss ss' : List ℕ) (objs objs' : ℕ → List ℕ) where
  -- The core's list changes at `s` at most, and there all other objects in use have a place.
  pub record Moved : Type 0 where
    pub put : PutBack st x s ss st'
    pub ok : CoreOk st' P.coreid ss' objs'
    pub mine : st.slabs.coreid s ≡ P.coreid
    pub stock : has s ss' ≡ true → Stocked P objects st.slabs.memory (objs' s) s
    pub same_list : (t : ℕ) → t ≢ s → has t ss' ≡ has t ss
    pub same_objs : (t : ℕ) → t ≢ s → objs' t ≡ objs t
    pub there : (h : ℕ) → h ≢ x → Home P objects st ss objs s h → OnList P objects ss' objs' s h

  module _ (owner : st.headers.slab x ≡ s) (m : Moved) where
    same_slab : st'.headers.slab ≡ st.headers.slab
    same_slab = ap (λ hs. hs.slab) m.put.same_headers ∙ put_back-slab st x s

    pub same_coreid : st'.slabs.coreid ≡ st.slabs.coreid
    same_coreid = ap (λ z. z.coreid) m.put.same_slabs ∙ put_back-coreid st x s

    same_memory : st'.slabs.memory ≡ st.slabs.memory
    same_memory = ap (λ z. z.memory) m.put.same_slabs ∙ put_back-memory st x s

    pub Core-moved : Core P objects st ss objs → Core P objects st' ss' objs'
    Core-moved a = record {
      ok = m.ok;
      own = λ t i. elim (ℕ_discrete t s) [
        | yes e ↦ ap (λ f. f t) same_coreid ∙ ap st.slabs.coreid e ∙ m.mine
        | no ne ↦ ap (λ f. f t) same_coreid ∙ a.own t (sym (m.same_list t ne) ∙ i)
      ];
      stock = λ t i. rw same_memory (elim (ℕ_discrete t s) [
        | yes e ↦
            subst (λ z. Stocked P objects st.slabs.memory (objs' z) z) (sym e)
              (m.stock (ap (λ z. has z ss') (sym e) ∙ i))
        | no ne ↦ rw (m.same_objs t ne) (a.stock t (sym (m.same_list t ne) ∙ i))
      ]);
    }

    elsewhere :
        (t h : ℕ)
        → t ≢ s
        → OnList P objects ss objs t h ⊎ Full P objects st ss t
        → OnList P objects ss' objs' t h ⊎ Full P objects st' ss' t
    elsewhere t h ne (inl l) = inl (record {
      listed = m.same_list t ne ∙ l.listed;
      in_use = rw (m.same_objs t ne) l.in_use;
      within = rw (m.same_objs t ne) l.within;
    })
    elsewhere t h ne (inr f) = inr (record {
      unlisted = m.same_list t ne ∙ f.unlisted;
      none_free =
          FreeObjects-same m.put.same_headers m.put.same_slabs
            (put_back-other t [] x f.none_free ne owner);
      alone = m.put.beside t ne f.unlisted f.alone;
      has_memory = rw same_memory f.has_memory;
      fits = f.fits;
    })

    Home-moved :
        (t h : ℕ) → h ≢ x → Home P objects st ss objs t h → Home P objects st' ss' objs' t h
    Home-moved t h ne a = record {
      home = ap (λ f. f t) same_coreid ∙ a.home;
      not_null = a.not_null;
      inside = a.inside;
      all = a.all;
      place = elim (ℕ_discrete t s) [
        | yes e ↦ inl (
            subst (λ z. OnList P objects ss' objs' z h) (sym e)
              (m.there h ne (subst (λ z. Home P objects st ss objs z h) e a)))
        | no other ↦ elsewhere t h other (a.place)
      ];
    }

    Place-moved : (h : ℕ) → h ≢ x → Place P objects st ss objs h → Place P objects st' ss' objs' h
    Place-moved h ne p =
        let e : st'.headers.slab h ≡ st.headers.slab h = ap (λ f. f h) same_slab in
        (
          λ z. p.0 (sym e ∙ z),
          elim (p.1) [
            | inl away ↦ inl (λ z. away (
                sym (ap (λ f. f (st.headers.slab h)) same_coreid)
                ∙ ap st'.slabs.coreid (sym e)
                ∙ z))
            | inr a ↦ inr (
                subst (λ t. Home P objects st' ss' objs' t h) (sym e)
                  (Home-moved (st.headers.slab h) h ne a))
          ],
        )

    pub Held-moved :
        Core P objects st ss objs → (h : ℕ) → h ≢ x → Held P objects st h → Held P objects st' h
    Held-moved a h ne b = record {
      ss = ss';
      objs = objs';
      core = Core-moved a;
      place = Place-moved h ne (Place-rebase P objects h a b.core b.place);
    }
