-- ===== src/Slab/Gives.antt =====
-- `__ps_slab_mem_alloc` (ps_slab.h) and what clients hold.
use ps.Base.{
  ◌⊎◌, inl, inr, ℕ, ◌≡◌, ◌≢◌, refl, sym, ◌∙◌, ap, subst, true, false, Option, some, List, [], ◌∷◌,
  arith, ==_self, ne→==, update,
}
use native.Mathlib.Decide.{ℕ_discrete}
use ps.Header.{ps_mhead_reset, ps_mhead_mem}
use ps.Memory.{State}
use ps.Ring.Chain.{has}
use ps.Slab.{SlabParams}
use ps.Slab.Alloc.{take_first}
use ps.Slab.Core.{Taken, stay}
use ps.Slab.Freelist.{has-nodes}
use ps.Slab.Held.{not_both, Stocked, Core, Full, Home, OnList, Place, Held, Place-rebase, held_out}
use ps.Slab.Objects.{FreeObjects, FreeObjects-same, take_first-FreeObjects, take_first-other}

nil_or_cons : (xs : List ℕ) → (xs ≡ []) ⊎ ((y : ℕ) × (ys : List ℕ) × (xs ≡ y ∷ ys))
nil_or_cons [] = inl refl
nil_or_cons (y ∷ ys) = inr (y, ys, refl)

module _ {E : Type 0} where
  -- What the removal of the first free object leaves as it is
  take_first-slab : (st : State E) (s : ℕ) → (take_first st s).headers.slab ≡ st.headers.slab
  unfolding take_first ps_mhead_reset
  take_first-slab st s = ground arith

  take_first-coreid : (st : State E) (s : ℕ) → (take_first st s).slabs.coreid ≡ st.slabs.coreid
  unfolding take_first ps_mhead_reset
  take_first-coreid st s = refl

  take_first-memory : (st : State E) (s : ℕ) → (take_first st s).slabs.memory ≡ st.slabs.memory
  unfolding take_first ps_mhead_reset
  take_first-memory st s = refl

  module _ (P : SlabParams E) (objects : ℕ → List ℕ) where
    -- A new object for a client: it has no mark and no link, it was not in use, it lies in a slab of
    -- the core, and now it is held. All objects that were held stay so.
    pub record Gives (st : State E) (o : Option (ℕ × State E)) : Type 0 where
      pub last : State E
      pub x : ℕ
      pub returns : o ≡ some (ps_mhead_mem x, last)
      pub unmarked : last.headers.tsc_free x ≡ 0
      pub unlinked : last.headers.next x ≡ 0
      pub home : last.slabs.coreid (last.headers.slab x) ≡ P.coreid
      pub new : Held P objects st x → ⊥
      pub held : Held P objects last x
      pub others : (h : ℕ) → Held P objects st h → Held P objects last h

    module _ {st last : State E} (s x : ℕ) (ss xs : List ℕ) (objs : ℕ → List ℕ)
        (a : Core P objects st (s ∷ ss) objs) (e : objs s ≡ x ∷ xs)
        (t : Taken st P.coreid s ss xs objs last) where
      here : has s (s ∷ ss) ≡ true
      here = ground arith

      mine : FreeObjects st s (x ∷ xs)
      mine = subst (FreeObjects st s) e (a.ok.free s here)

      same_slab : last.headers.slab ≡ st.headers.slab
      same_slab = ap (λ hs. hs.slab) t.same_headers ∙ take_first-slab st s

      same_coreid : last.slabs.coreid ≡ st.slabs.coreid
      same_coreid = ap (λ z. z.coreid) t.same_slabs ∙ take_first-coreid st s

      same_memory : last.slabs.memory ≡ st.slabs.memory
      same_memory = ap (λ z. z.memory) t.same_slabs ∙ take_first-memory st s

      owner : st.headers.slab x ≡ s
      owner = mine.owned x (ground arith)

      all-Stocked : Stocked P objects st.slabs.memory (objs s) s
      all-Stocked = a.stock s here

      left-Stocked : Stocked P objects st.slabs.memory xs s
      left-Stocked = record {
        inside = λ c i. all-Stocked.inside c (rw e (ground arith));
        all = all-Stocked.all;
        has_memory = all-Stocked.has_memory;
      }

      stay_was : (r : ℕ) → has r (stay xs s ss) ≡ true → has r (s ∷ ss) ≡ true
      stay_was r i = was xs i
        where
          was : (ys : List ℕ) → has r (stay ys s ss) ≡ true → has r (s ∷ ss) ≡ true
          was [] j = ground arith
          was (y ∷ ys) j = j

      stay_other : (r : ℕ) → r ≢ s → has r (stay xs s ss) ≡ has r (s ∷ ss)
      stay_other r ne = other xs
        where
          other : (ys : List ℕ) → has r (stay ys s ss) ≡ has r (s ∷ ss)
          other [] = ground arith
          other (y ∷ ys) = refl

      Core-taken : Core P objects last (stay xs s ss) (update objs s xs)
      Core-taken = record {
        ok = t.ok;
        own = λ r i. ap (λ f. f r) same_coreid ∙ a.own r (stay_was r i);
        stock = λ r i. rw same_memory (elim (ℕ_discrete r s) [
          | yes q ↦ rw (q, ==_self s) left-Stocked
          | no ne ↦ rw (ne→== r s ne) (a.stock r (stay_was r i))
        ]);
      }

      once : has s ss ≡ false
      once = ground (arith, has-nodes s ss, a.ok.listed.circle.distinct.0)

      free_left : FreeObjects last s xs
      free_left = FreeObjects-same t.same_headers t.same_slabs (take_first-FreeObjects x xs mine).0

      -- The slab `s` has a place for every object that is not free.
      at_slab :
          (h : ℕ)
          → has h xs ≡ false
          → OnList P objects (stay xs s ss) (update objs s xs) s h
            ⊎ Full P objects last (stay xs s ss) s
      at_slab h out = elim (nil_or_cons xs) [
        | inl empty ↦ inr (record {
          unlisted = ap (λ z. has s (stay z s ss)) empty ∙ once;
          none_free = subst (FreeObjects last s) empty free_left;
          alone = t.alone empty;
          has_memory = rw same_memory all-Stocked.has_memory;
          fits = a.ok.listed.fit.0;
        })
        | inr (y, ys, more) ↦ inl (record {
          listed = ap (λ z. has s (stay z s ss)) more ∙ here;
          in_use = rw (==_self s) out;
          within = rw (==_self s) left-Stocked.inside;
        })
      ]

      elsewhere :
          (r h : ℕ)
          → r ≢ s
          → OnList P objects (s ∷ ss) objs r h ⊎ Full P objects st (s ∷ ss) r
          → OnList P objects (stay xs s ss) (update objs s xs) r h
            ⊎ Full P objects last (stay xs s ss) r
      elsewhere r h ne (inl l) = inl (record {
        listed = stay_other r ne ∙ l.listed;
        in_use = rw (ne→== r s ne) l.in_use;
        within = rw (ne→== r s ne) l.within;
      })
      elsewhere r h ne (inr f) = inr (record {
        unlisted = stay_other r ne ∙ f.unlisted;
        none_free =
            FreeObjects-same t.same_headers t.same_slabs
              (take_first-other r [] f.none_free ne (rw mine.path.0 owner));
        alone = t.beside r f.unlisted f.alone;
        has_memory = rw same_memory f.has_memory;
        fits = f.fits;
      })

      Home-taken :
          (r h : ℕ)
          → has h xs ≡ false
          → Home P objects st (s ∷ ss) objs r h
          → Home P objects last (stay xs s ss) (update objs s xs) r h
      Home-taken r h out p = record {
        home = ap (λ f. f r) same_coreid ∙ p.home;
        not_null = p.not_null;
        inside = p.inside;
        all = p.all;
        place = elim (ℕ_discrete r s) [
          | yes q ↦
              subst
                (λ z.
                  OnList P objects (stay xs s ss) (update objs s xs) z h
                  ⊎ Full P objects last (stay xs s ss) z)
                (sym q) (at_slab h out)
          | no ne ↦ elsewhere r h ne p.place
        ];
      }

      Place-taken :
          (h : ℕ)
          → has h xs ≡ false
          → Place P objects st (s ∷ ss) objs h
          → Place P objects last (stay xs s ss) (update objs s xs) h
      Place-taken h out p =
          let q : last.headers.slab h ≡ st.headers.slab h = ap (λ f. f h) same_slab in
          (
            λ z. p.0 (sym q ∙ z),
            elim (p.1) [
              | inl away ↦ inl (λ z. away (
                  sym (ap (λ f. f (st.headers.slab h)) same_coreid)
                  ∙ ap last.slabs.coreid (sym q)
                  ∙ z))
              | inr b ↦ inr (
                  subst (λ r. Home P objects last (stay xs s ss) (update objs s xs) r h) (sym q)
                    (Home-taken (st.headers.slab h) h out b))
            ],
          )

      x_owner : last.headers.slab x ≡ s
      x_owner = ap (λ f. f x) same_slab ∙ owner

      Place-given : Place P objects last (stay xs s ss) (update objs s xs) x
      Place-given = (
        λ z.
            (not_both (has 0 (s ∷ ss)) (ap (λ r. has r (s ∷ ss)) (sym z ∙ x_owner) ∙ here)
              a.ok.listed.not_null),
        inr (
            subst (λ r. Home P objects last (stay xs s ss) (update objs s xs) r x) (sym x_owner)
              (record {
                home = ap (λ f. f s) same_coreid ∙ a.own s here;
                not_null = mine.path.1;
                inside = all-Stocked.inside x (rw e (ground arith));
                all = all-Stocked.all;
                place = at_slab x mine.distinct.0;
              })),
      )

      Held-taken : (h : ℕ) → Held P objects st h → Held P objects last h
      Held-taken h b =
          let p : Place P objects st (s ∷ ss) objs h = Place-rebase P objects h a b.core b.place in
          let out : has h (x ∷ xs) ≡ false =
            subst (λ z. has h z ≡ false) e (held_out P objects h a p s here) in
          record { ss = _; objs = _; core = Core-taken; place = Place-taken h (ground arith) p }

      not_held : Held P objects st x → ⊥
      not_held b =
          let p : Place P objects st (s ∷ ss) objs x = Place-rebase P objects x a b.core b.place in
          not_both (has x (objs s)) (rw e (ground arith)) (held_out P objects x a p s here)

      pub taken-Gives : {o : Option (ℕ × State E)} → o ≡ some (ps_mhead_mem x, last) → Gives st o
      taken-Gives r = record {
        last = last;
        x = x;
        returns = r;
        unmarked = rw t.same_headers (take_first-FreeObjects x xs mine).2;
        unlinked = rw t.same_headers (take_first-FreeObjects x xs mine).3;
        home = ap last.slabs.coreid x_owner ∙ ap (λ f. f s) same_coreid ∙ a.own s here;
        new = not_held;
        held = record { ss = _; objs = _; core = Core-taken; place = Place-given };
        others = Held-taken;
      }
