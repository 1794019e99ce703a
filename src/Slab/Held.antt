-- ===== src/Slab/Held.antt =====
-- The objects that a client of a core holds, and the invariant of the core's slabs (ps_slab.h).
use ps.Base.{
  Bool, Bool-cases, ◌⊎◌, inl, inr, ℕ, ◌+◌, ◌^◌, ◌<◌, ◌≡◌, ◌≢◌, refl, sym, ◌∙◌, ap, subst, true,
  false, List, [], length,
}
use ps.Header.{OnlyAt}
use ps.Memory.{State, slab_info_of}
use ps.Queue.Fifo.{path_frame}
use ps.Ring.Chain.{has, Ring}
use ps.Ring.Object.{node_of}
use ps.Slab.{SlabParams, list_off}
use ps.Slab.Core.{CoreOk}
use ps.Slab.Free.{max_nobjs}
use ps.Slab.Objects.{FreeObjects, FreeObjects-same}
use ps.Slab.Unique.{Listed-unique, path_unique}

-- The states agree in the slabs and in the core's list of slabs.
pub record SameCore {E : Type 0} (c : ℕ) (st st' : State E) : Type 0 where
  pub same_slabs : st'.slabs ≡ st.slabs
  pub same_links : st'.links ≡ st.links
  pub same_fl : (slab_info_of st' c).fl ≡ (slab_info_of st c).fl

pub not_both : (b : Bool) → b ≡ true → b ≡ false → ⊥
not_both b h g = cc

FreeObjects-edit :
    {E : Type 0} {st st' : State E} {xs : List ℕ} (x t : ℕ)
    → OnlyAt x st.headers st'.headers
    → st'.slabs ≡ st.slabs
    → has x xs ≡ false
    → FreeObjects st t xs
    → FreeObjects st' t xs
FreeObjects-edit {st} {st'} {xs} x t only same out f = record {
  path = rw same (path_frame _ _ _ xs (λ c i. only.same_next c (apart c i)) f.path);
  distinct = f.distinct;
  count = rw same f.count;
  fits = f.fits;
  marked = λ c i. rw (only.same_tsc c (apart c i)) (f.marked c i);
  owned = rw only.same_slab f.owned;
}
  where
    apart : (c : ℕ) → has c xs ≡ true → c ≢ x
    apart c i e = not_both (has c xs) i (ap (λ d. has d xs) e ∙ out)

-- `objects` are all objects of each slab.
module _ {E : Type 0} (P : SlabParams E) (objects : ℕ → List ℕ) where
  -- A slab that has memory, whose free objects `xs` are some of its objects
  pub record Stocked (memory : ℕ → ℕ) (xs : List ℕ) (t : ℕ) : Type 0 where
    pub inside : (c : ℕ) → has c xs ≡ true → has c (objects t) ≡ true
    pub all : length (objects t) ≡ max_nobjs P
    pub has_memory : memory t ≢ 0

  -- The core's list of slabs and their free objects; all of them are the core's own.
  pub record Core (st : State E) (ss : List ℕ) (objs : ℕ → List ℕ) : Type 0 where
    pub ok : CoreOk st P.coreid ss objs
    pub own : (t : ℕ) → has t ss ≡ true → st.slabs.coreid t ≡ P.coreid
    pub stock : (t : ℕ) → has t ss ≡ true → Stocked st.slabs.memory (objs t) t

  pub record HasCore (st : State E) : Type 0 where
    pub ss : List ℕ
    pub objs : ℕ → List ℕ
    pub core : Core st ss objs

  -- The slab `s` is on the list, and the object `h` is not free.
  pub record OnList (ss : List ℕ) (objs : ℕ → List ℕ) (s h : ℕ) : Type 0 where
    pub listed : has s ss ≡ true
    pub in_use : has h (objs s) ≡ false
    pub within : (c : ℕ) → has c (objs s) ≡ true → has c (objects s) ≡ true

  -- The slab `s` has no free object and is on no list.
  pub record Full (st : State E) (ss : List ℕ) (s : ℕ) : Type 0 where
    pub unlisted : has s ss ≡ false
    pub none_free : FreeObjects st s []
    pub alone : Ring st.links (node_of s list_off) []
    pub has_memory : st.slabs.memory s ≢ 0
    pub fits : s + list_off < 2 ^ 64

  -- The slab `s` is the core's own, with `objects s`, and `h` is one of them.
  pub record Home (st : State E) (ss : List ℕ) (objs : ℕ → List ℕ) (s h : ℕ) : Type 0 where
    pub home : st.slabs.coreid s ≡ P.coreid
    pub not_null : h ≢ 0
    pub inside : has h (objects s) ≡ true
    pub all : length (objects s) ≡ max_nobjs P
    pub place : OnList ss objs s h ⊎ Full st ss s

  abbrev pub Place : State E → List ℕ → (ℕ → List ℕ) → ℕ → Type 0
  Place st ss objs h =
      (st.headers.slab h ≢ 0)
      × ((st.slabs.coreid (st.headers.slab h) ≢ P.coreid) ⊎ Home st ss objs (st.headers.slab h) h)

  -- A client holds the object with the header `h`.
  pub record Held (st : State E) (h : ℕ) : Type 0 where
    pub ss : List ℕ
    pub objs : ℕ → List ℕ
    pub core : Core st ss objs
    pub place : Place st ss objs h

  -- There is one way only in which a state has an invariant.
  pub Place-rebase :
      {st : State E} {ss ts : List ℕ} {objs os : ℕ → List ℕ} (h : ℕ)
      → Core st ss objs
      → Core st ts os
      → Place st ts os h
      → Place st ss objs h
  Place-rebase h a b (ne, inl away) = (ne, inl away)
  Place-rebase {st} {ss} {ts} {objs} {os} h a b (ne, inr p) = (
    ne,
    inr (record {
      home = p.home;
      not_null = p.not_null;
      inside = p.inside;
      all = p.all;
      place = elim (p.place) [
        | inl l ↦ inl (subst2 l)
        | inr f ↦ inr (record {
          unlisted = subst (λ z. has (st.headers.slab h) z ≡ false) same_list f.unlisted;
          none_free = f.none_free;
          alone = f.alone;
          has_memory = f.has_memory;
          fits = f.fits;
        })
      ];
    }),
  )
    where
      same_list : ts ≡ ss
      same_list = Listed-unique ts ss b.ok.listed a.ok.listed

      subst2 : OnList ts os (st.headers.slab h) h → OnList ss objs (st.headers.slab h) h
      subst2 l =
          let s = st.headers.slab h in
          let i : has s ss ≡ true = subst (λ z. has s z ≡ true) same_list l.listed in
          let e : os s ≡ objs s =
            path_unique st.headers.next (st.slabs.freelist s) (os s) (objs s)
              (b.ok.free s l.listed).path (a.ok.free s i).path in
          record {
            listed = i;
            in_use = subst (λ z. has h z ≡ false) e l.in_use;
            within = subst (λ z. (c : ℕ) → has c z ≡ true → has c (objects s) ≡ true) e l.within;
          }

  -- A held object is on no freelist.
  pub held_out :
      {st : State E} {ss : List ℕ} {objs : ℕ → List ℕ} (x : ℕ)
      → Core st ss objs
      → Place st ss objs x
      → (t : ℕ) → has t ss ≡ true
      → has x (objs t) ≡ false
  held_out {st} {ss} {objs} x a p t i = elim (Bool-cases (has x (objs t))) [
    | inl j ↦
        let owner : st.headers.slab x ≡ t = (a.ok.free t i).owned x j in
        absurd (elim (p.1) [
          | inl away ↦ away (ap st.slabs.coreid owner ∙ a.own t i)
          | inr h ↦ elim (h.place) [
            | inl l ↦ not_both (has x (objs t)) j (sym (ap (λ s. has x (objs s)) owner) ∙ l.in_use)
            | inr f ↦ not_both (has t ss) i (sym (ap (λ s. has s ss) owner) ∙ f.unlisted)
          ]
        ])
    | inr o ↦ o
  ]

  pub Core-edit :
      {st st' : State E} {ss : List ℕ} {objs : ℕ → List ℕ} (x : ℕ)
      → Core st ss objs
      → Place st ss objs x
      → OnlyAt x st.headers st'.headers
      → SameCore P.coreid st st'
      → Core st' ss objs
  Core-edit x a p only same = record {
    ok = record {
      listed = rw (same.same_links, same.same_fl) a.ok.listed;
      free = λ t i. FreeObjects-edit x t only same.same_slabs (held_out x a p t i) (a.ok.free t i);
      some_free = a.ok.some_free;
    };
    own = rw same.same_slabs a.own;
    stock = rw same.same_slabs a.stock;
  }

  -- Nothing that the invariant is about may change.
  pub HasCore-same :
      {st st' : State E}
      → st'.headers ≡ st.headers
      → SameCore P.coreid st st'
      → HasCore st
      → HasCore st'
  HasCore-same hs same a = record {
    ss = a.ss;
    objs = a.objs;
    core = record {
      ok = record {
        listed = rw (same.same_links, same.same_fl) a.core.ok.listed;
        free = λ t i. FreeObjects-same hs same.same_slabs (a.core.ok.free t i);
        some_free = a.core.ok.some_free;
      };
      own = rw same.same_slabs a.core.own;
      stock = rw same.same_slabs a.core.stock;
    };
  }

  Home-edit :
      {st st' : State E} {ss : List ℕ} {objs : ℕ → List ℕ} (x h s : ℕ)
      → OnlyAt x st.headers st'.headers
      → SameCore P.coreid st st'
      → Home st ss objs s h
      → Home st' ss objs s h
  Home-edit x h s only same a = record {
    home = rw same.same_slabs a.home;
    not_null = a.not_null;
    inside = a.inside;
    all = a.all;
    place = elim (a.place) [
      | inl l ↦ inl l
      | inr f ↦ inr (record {
        unlisted = f.unlisted;
        none_free = FreeObjects-edit x s only same.same_slabs refl f.none_free;
        alone = rw same.same_links f.alone;
        has_memory = rw same.same_slabs f.has_memory;
        fits = f.fits;
      })
    ];
  }

  pub Place-edit :
      {st st' : State E} {ss : List ℕ} {objs : ℕ → List ℕ} (x h : ℕ)
      → OnlyAt x st.headers st'.headers
      → SameCore P.coreid st st'
      → Place st ss objs h
      → Place st' ss objs h
  Place-edit {st} {st'} {ss} {objs} x h only same p =
      let e : st'.headers.slab h ≡ st.headers.slab h = ap (λ f. f h) only.same_slab in
      (
        λ z. p.0 (sym e ∙ z),
        elim (p.1) [
          | inl away ↦ inl (λ z. away (sym (owner_same e) ∙ z))
          | inr a ↦ inr (subst (λ s. Home st' ss objs s h) (sym e) (Home-edit x h _ only same a))
        ],
      )
    where
      owner_same :
          st'.headers.slab h ≡ st.headers.slab h
          → st'.slabs.coreid (st'.headers.slab h) ≡ st.slabs.coreid (st.headers.slab h)
      owner_same e = rw (same.same_slabs, e) refl

  -- The header of a held object may change.
  pub Held-edit :
      {st st' : State E} (x : ℕ)
      → Held st x
      → OnlyAt x st.headers st'.headers
      → SameCore P.coreid st st'
      → (h : ℕ) → Held st h
      → Held st' h
  Held-edit x a only same h b = record {
    ss = a.ss;
    objs = a.objs;
    core = Core-edit x a.core a.place only same;
    place = Place-edit x h only same (Place-rebase h a.core b.core b.place);
  }
