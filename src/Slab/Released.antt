-- ===== src/Slab/Released.antt =====
-- `__ps_slab_mem_free` (ps_slab.h) on an object that a client holds, in each of its cases.
use ps.Base.{
  inl, inr, ℕ, ◌+◌, ◌≤◌, ◌≡◌, ◌≢◌, refl, sym, ◌∙◌, ap, subst, true, Option, some, List, [], ◌∷◌,
  ◌++◌, arith, length, update, ==_self, ne→==,
}
use native.Mathlib.Decide.{ℕ_discrete}
use ps.Header.{OnlyAt, OnlyAt-trans, setfree-OnlyAt, set_next-OnlyAt}
use ps.Memory.{State, FreeFn, smr_info_of}
use ps.Ring.Chain.{has, has-append}
use ps.Ring.Count.{length_mono}
use ps.Slab.{SlabParams, put_back, local_free}
use ps.Slab.Core.{CoreOk}
use ps.Slab.Free.{
  InUse, PutBack, PutBack-refl, max_nobjs, local_free-CoreOk, relist-CoreOk, retire-CoreOk,
}
use ps.Slab.Freelist.{turn}
use ps.Slab.Held.{not_both, HasCore, Stocked, Core, Full, Home, OnList, Held}
use ps.Slab.Objects.{FreeObjects, FreeObjects-same, put_back-FreeObjects}
use ps.Slab.Others.{same_coreid, Moved, Core-moved, Held-moved}

-- `ffn` takes a slab back: nothing changes but what it keeps for itself.
pub record GivesBack {E : Type 0} (ffn : FreeFn E) (c : ℕ) : Type 0 where
  pub gives : (st : State E) (s sz : ℕ) → (e : E) × (ffn st s sz c ≡ some (record st { env = e }))

put_back-OnlyAt :
    {E : Type 0} (st : State E) (h s : ℕ) → OnlyAt h st.headers (put_back st h s).headers
unfolding put_back
put_back-OnlyAt st h s =
    OnlyAt-trans (setfree-OnlyAt st.headers h 1) (set_next-OnlyAt _ h (st.slabs.freelist s))

split_at :
    (s : ℕ) (ss : List ℕ) → has s ss ≡ true → (us : List ℕ) × (ts : List ℕ) × (ss ≡ us ++ s ∷ ts)
split_at s [] i = cc
split_at s (t ∷ ss) i = elim (ℕ_discrete s t) [
  | yes e ↦ ([], ss, ap (λ z. z ∷ ss) (sym e))
  | no ne ↦ let (us, ts, e) = split_at s ss (ground arith) in (t ∷ us, ts, ap (λ z. t ∷ z) e)
]

CoreOk-env :
    {E : Type 0} {st : State E} {c : ℕ} {ss : List ℕ} {objs : ℕ → List ℕ} (e : E)
    → CoreOk st c ss objs
    → CoreOk (record st { env = e }) c ss objs
CoreOk-env e ok = record {
  listed = ok.listed;
  free = λ s i. FreeObjects-same refl refl (ok.free s i);
  some_free = ok.some_free;
}

PutBack-env :
    {E : Type 0} {st st' : State E} {h s : ℕ} {ss : List ℕ} (e : E)
    → PutBack st h s ss st'
    → PutBack st h s ss (record st' { env = e })
PutBack-env e p = record {
  same_headers = p.same_headers;
  same_slabs = p.same_slabs;
  same_parsecs = p.same_parsecs;
  same_smr = p.same_smr;
  same_remote = p.same_remote;
  beside = p.beside;
}

has_middle : (t s : ℕ) (us ts : List ℕ) → t ≢ s → has t (us ++ ts) ≡ has t (us ++ s ∷ ts)
has_middle t s us ts ne = ground (arith, has-append t us ts, has-append t us (s ∷ ts))

has-turn : (t : ℕ) (ss : List ℕ) → has t (turn ss) ≡ has t ss
has-turn t [] = refl
has-turn t (s ∷ ss) = ground (arith, has-append t ss (s ∷ []))

module _ {E : Type 0} (P : SlabParams E) (objects : ℕ → List ℕ) (given : GivesBack P.ffn P.coreid)
    (many : max_nobjs P ≢ 1) where
  -- A local free that ends: only the header of `x` changes, `x` is first on the freelist of its slab,
  -- and the other objects in use stay so.
  pub record Returned (st : State E) (x s : ℕ) (o : Option (State E)) : Type 0 where
    pub last : State E
    pub returns : o ≡ some last
    pub only : OnlyAt x st.headers last.headers
    pub same_parsecs : last.parsecs ≡ st.parsecs
    pub same_smr : (c : ℕ) → smr_info_of last c ≡ smr_info_of st c
    pub same_remote : (c : ℕ) → (last.percore c).slab_remote ≡ (st.percore c).slab_remote
    pub same_owner : last.slabs.coreid ≡ st.slabs.coreid
    pub free : (xs : List ℕ) × FreeObjects last s (x ∷ xs)
    pub core : HasCore P objects last
    pub others : (h : ℕ) → h ≢ x → Held P objects st h → Held P objects last h

  module _ {st : State E} (ss : List ℕ) (objs : ℕ → List ℕ) (s x : ℕ)
      (a : Core P objects st ss objs) (owner : st.headers.slab x ≡ s)
      (p : Home P objects st ss objs s x) (s_ne : s ≢ 0) where
    finish :
        (st' : State E) (ss' : List ℕ) (objs' : ℕ → List ℕ)
        → local_free P x s st ≡ some st'
        → Moved P objects st st' x s ss ss' objs objs'
        → (xs : List ℕ) × FreeObjects (put_back st x s) s (x ∷ xs)
        → Returned st x s (local_free P x s st)
    finish st' ss' objs' r m (xs, f) = record {
      last = st';
      returns = r;
      only = subst (OnlyAt x st.headers) (sym m.put.same_headers) (put_back-OnlyAt st x s);
      same_parsecs = m.put.same_parsecs;
      same_smr = m.put.same_smr;
      same_remote = m.put.same_remote;
      same_owner = same_coreid P objects st st' x s ss ss' objs objs' owner m;
      free = (xs, FreeObjects-same m.put.same_headers m.put.same_slabs f);
      core = record {
        ss = ss';
        objs = objs';
        core = Core-moved P objects st st' x s ss ss' objs objs' owner m a;
      };
      others = Held-moved P objects st st' x s ss ss' objs objs' owner m a;
    }

    module _ (l : OnList P objects ss objs s x) where
      mine : FreeObjects st s (objs s)
      mine = a.ok.free s l.listed

      within_put : (c : ℕ) → has c (x ∷ objs s) ≡ true → has c (objects s) ≡ true
      within_put c i = elim (ℕ_discrete c x) [
        | yes e ↦ ap (λ z. has z (objects s)) e ∙ p.inside
        | no ne ↦ l.within c (ground arith)
      ]

      room : length (objs s) + 1 ≤ max_nobjs P
      room =
          let le = length_mono (x ∷ objs s) (objects s) (l.in_use, mine.distinct) within_put in
          omega (arith, le, p.all)

      -- If one object was missing, no other is in use.
      only_one :
          length (objs s) + 1 ≡ max_nobjs P → (h : ℕ) → h ≢ x → Home P objects st ss objs s h → ⊥
      only_one all h ne b = elim (b.place) [
        | inl k ↦
            let le =
              length_mono (h ∷ x ∷ objs s) (objects s)
                (ground (arith, k.in_use), (l.in_use, mine.distinct))
                (λ c i. elim (ℕ_discrete c h) [
                  | yes e ↦ ap (λ z. has z (objects s)) e ∙ b.inside
                  | no other ↦ within_put c (ground arith)
                ]) in
            absurd (omega (arith, le, p.all))
        | inr f ↦ not_both (has s ss) l.listed f.unlisted
      ]

      used : InUse st s x (objs s)
      used = record {
        not_null = p.not_null;
        out = l.in_use;
        owner = owner;
        room = omega (arith, room);
      }

      put_free : FreeObjects (put_back st x s) s (x ∷ objs s)
      put_free = put_back-FreeObjects (objs s) x mine p.not_null l.in_use owner (used.room)

      still-Stocked : Stocked P objects st.slabs.memory (update objs s (x ∷ objs s) s) s
      still-Stocked = rw (==_self s) (record {
        inside = within_put;
        all = p.all;
        has_memory = (a.stock s l.listed).has_memory;
      })

      stays : length (objs s) + 1 ≢ max_nobjs P → Returned st x s (local_free P x s st)
      stays more =
          let (r, ok) = local_free-CoreOk P objs s x mine used ss a.ok l.listed more in
          finish (put_back st x s) ss (update objs s (x ∷ objs s)) r
            (record {
              put = PutBack-refl st x s ss;
              ok = ok;
              mine = p.home;
              stock = λ i. still-Stocked;
              same_list = λ t ne. refl;
              same_objs = λ t ne. rw (ne→== t s ne) refl;
              there = λ h ne b. elim (b.place) [
                | inl k ↦ record {
                  listed = k.listed;
                  in_use = rw (==_self s) (ground (arith, k.in_use));
                  within = rw (==_self s) within_put;
                }
                | inr f ↦ absurd (not_both (has s ss) l.listed f.unlisted)
              ];
            })
            (objs s, put_free)

      retires : length (objs s) + 1 ≡ max_nobjs P → Returned st x s (local_free P x s st)
      retires all =
          let (us, ts, e) = split_at s ss l.listed in
          let (st₁, r, ok, f, _, put) =
            retire-CoreOk P objs s x mine used us ts (subst (λ z. CoreOk st P.coreid z objs) e a.ok)
              all in
          let (env, g) = given.gives st₁ s (st.slabs.memsz s) in
          finish (record st₁ { env = env }) (us ++ ts) (update objs s (x ∷ objs s)) (r ∙ g)
            (record {
              put = PutBack-env env (subst (λ z. PutBack st x s z st₁) (sym e) put);
              ok = CoreOk-env env ok;
              mine = p.home;
              stock = λ i. still-Stocked;
              same_list = λ t ne. has_middle t s us ts ne ∙ sym (ap (has t) e);
              same_objs = λ t ne. rw (ne→== t s ne) refl;
              there = λ h ne b. absurd (only_one all h ne b);
            })
            (objs s, put_free)

    relists : Full P objects st ss s → Returned st x s (local_free P x s st)
    relists f =
        let (st', r, ok, put) =
          relist-CoreOk P none_there s x at_none
            (record {
              not_null = p.not_null;
              out = rw (==_self s) refl;
              owner = owner;
              room = rw (==_self s) (omega arith);
            })
            ss without_s (rw (==_self s) refl) f.unlisted f.alone f.has_memory s_ne f.fits many in
        finish st' (s ∷ turn ss) (update none_there s (x ∷ [])) r
          (record {
            put = put;
            ok = ok;
            mine = p.home;
            stock = λ i. record {
              inside = rw (==_self s) (λ c j. first_inside c j);
              all = p.all;
              has_memory = f.has_memory;
            };
            same_list = λ t ne. ground (arith, has-turn t ss);
            same_objs = λ t ne. rw (ne→== t s ne) refl;
            there = λ h ne b. elim (b.place) [
              | inl k ↦ absurd (not_both (has s ss) k.listed f.unlisted)
              | inr k ↦ record {
                listed = ground arith;
                in_use = rw (==_self s) (ground arith);
                within = rw (==_self s) (λ c i. first_inside c i);
              }
            ];
          })
          ([], put_back-FreeObjects [] x f.none_free p.not_null refl owner (omega arith))
      where
        none_there : ℕ → List ℕ
        none_there = update objs s []

        at_none : FreeObjects st s (none_there s)
        at_none = rw (==_self s) f.none_free

        apart : (t : ℕ) → has t ss ≡ true → t ≢ s
        apart t i e = not_both (has t ss) i (ap (λ z. has z ss) e ∙ f.unlisted)

        without_s : CoreOk st P.coreid ss none_there
        without_s = record {
          listed = a.ok.listed;
          free = λ t i. rw (ne→== t s (apart t i)) (a.ok.free t i);
          some_free = λ t i. rw (ne→== t s (apart t i)) (a.ok.some_free t i);
        }

        first_inside : (c : ℕ) → has c (x ∷ []) ≡ true → has c (objects s) ≡ true
        first_inside c i = let e : c ≡ x = ground arith in ap (λ z. has z (objects s)) e ∙ p.inside

    -- An object of the core's own
    pub local_free-Returned : Returned st x s (local_free P x s st)
    local_free-Returned = elim (p.place) [
      | inl l ↦ elim (ℕ_discrete (length (objs s) + 1) (max_nobjs P)) [
        | yes all ↦ retires l all
        | no more ↦ stays l more
      ]
      | inr f ↦ relists f
    ]
