-- ===== src/Slab/Refill.antt =====
-- `__ps_slab_mem_alloc` (ps_slab.h) when the core has no slab with free objects.
use ps.Base.{
  ◌⊎◌, inl, inr, ℕ, ◌+◌, ◌*◌, ◌%◌, ◌^◌, ◌≤◌, ◌<◌, ◌≡◌, ◌≢◌, refl, sym, ◌∙◌, ap, subst, true, false,
  Option, some, List, [], ◌∷◌, arith, ne→==, length,
}
use native.Mathlib.Nat.{mod-eq_of_lt}
use ps.Memory.{State, slab_info_of, set_slab_info}
use ps.Ring.Chain.{has}
use ps.Queue.Fifo.{path_head}
use ps.Slab.{SlabParams, list_off, slab_objmemsz, slab_max_nobjs, slab_init}
use ps.Slab.Alloc.{alloc_slab, alloc_from, add_slab}
use ps.Slab.Carve.{objects, length-objects}
use ps.Slab.Freelist.{Listed}
use ps.Slab.Gives.{Gives}
use ps.Slab.Held.{
  not_both, SameCore, Core, HasCore, HasCore-same, Full, Home, Place, Held, Held-edit, Place-rebase,
}
use ps.Slab.Init.{Elsewhere, Fresh, two_objects, slab_init-Fresh}
use ps.Slab.Objects.{FreeObjects}
use ps.Slab.Serve.{first-Gives}
use ps.Slab.Whole.{from_list}
use ps.Smr.Safety.{OnlyAt-refl}

-- Sizes for which `__ps_slab_init` works
pub record Room {E : Type 0} (P : SlabParams E) : Type 0 where
  pub obj_fits : P.obj_sz + 31 < 2 ^ 64
  pub two : P.headoff + 2 * slab_objmemsz P.obj_sz ≤ P.allocsz
  pub few : slab_max_nobjs P.obj_sz P.allocsz P.headoff < 2 ^ 32

module _ {E : Type 0} (P : SlabParams E) (all : ℕ → List ℕ) where
  -- The objects for which a slab of the memory `mem` has room
  abbrev pub room : (mem : ℕ) → List ℕ
  room mem =
      objects (slab_max_nobjs P.obj_sz P.allocsz P.headoff) (slab_objmemsz P.obj_sz)
        (mem + P.headoff)

  -- The new slab `s` of the state `mid`: its memory is zeroed and no client has any part of it. Everything
  -- else is as in `st`.
  pub record NewSlab (st mid : State E) (s : ℕ) : Type 0 where
    pub not_null : s ≢ 0
    pub fits : s + list_off < 2 ^ 64
    pub has_memory : mid.slabs.memory s ≢ 0
    pub memory_fits : mid.slabs.memory s + P.allocsz < 2 ^ 64
    pub zeroed :
        (c : ℕ)
        → mid.slabs.memory s + P.headoff ≤ c
        → c < mid.slabs.memory s + P.allocsz
        → mid.headers.next c ≡ 0
    pub its_objects : all s ≡ room (mid.slabs.memory s)
    pub elsewhere : Elsewhere (all s) st.headers mid.headers
    pub same_links : mid.links ≡ st.links
    pub same_fl : (slab_info_of mid P.coreid).fl ≡ (slab_info_of st P.coreid).fl
    pub other_slabs :
        (t : ℕ)
        → t ≢ s
        → (mid.slabs.coreid t ≡ st.slabs.coreid t)
          × (mid.slabs.freelist t ≡ st.slabs.freelist t)
          × (mid.slabs.nfree t ≡ st.slabs.nfree t)
          × (mid.slabs.memory t ≡ st.slabs.memory t)
    pub unused : (h : ℕ) → Held P all st h → (has h (all s) ≡ false) × (st.headers.slab h ≢ s)

  module _ (sizes : Room P) {st mid : State E} {s : ℕ} (w : NewSlab st mid s)
      (core : HasCore P all st) (empty : (slab_info_of st P.coreid).fl ≡ 0) where
    no_slabs : (ss : List ℕ) → Listed st.links (slab_info_of st P.coreid).fl ss → ss ≡ []
    no_slabs [] l = refl
    no_slabs (t ∷ ss) l =
        let z : 0 ≡ t = sym empty ∙ l.head in
        absurd (
          not_both (has t (t ∷ ss)) (ground arith)
            (subst (λ x. has x (t ∷ ss) ≡ false) z l.not_null))

    nothing : Core P all st [] core.objs
    nothing =
        subst (λ z. Core P all st z core.objs) (no_slabs core.ss core.core.ok.listed) core.core

    set_up : Fresh P P.coreid s mid [] (slab_init P P.coreid s mid)
    set_up =
        slab_init-Fresh P P.coreid s mid [] sizes.obj_fits sizes.two w.memory_fits w.has_memory
          (rw (w.same_links, w.same_fl) nothing.ok.listed) w.not_null w.fits refl w.zeroed

    only_slab : (t : ℕ) → has t (s ∷ []) ≡ true → t ≡ s
    only_slab t i = ground arith

    size_all : length (all s) ≡ slab_max_nobjs P.obj_sz P.allocsz P.headoff
    size_all =
        ap length w.its_objects
        ∙ length-objects (slab_max_nobjs P.obj_sz P.allocsz P.headoff) (slab_objmemsz P.obj_sz)
            (mid.slabs.memory s + P.headoff)

    some_objects : all s ≢ []
    some_objects e = omega (
      arith,
      two_objects P P.coreid s mid [] sizes.obj_fits sizes.two w.memory_fits w.has_memory,
      size_all,
      ap length e,
    )

    module _ (f : Fresh P P.coreid s mid [] (slab_init P P.coreid s mid)) where
      free_all : FreeObjects f.last s (all s)
      free_all = rw w.its_objects f.free

      Core-made : Core P all f.last (s ∷ []) all
      Core-made = record {
        ok = record {
          listed = f.listed;
          free = λ t i. subst (λ z. FreeObjects f.last z (all z)) (sym (only_slab t i)) free_all;
          some_free = λ t i. subst (λ z. all z ≢ []) (sym (only_slab t i)) some_objects;
        };
        own = λ t i. ap f.last.slabs.coreid (only_slab t i) ∙ f.home;
        stock = λ t i. record {
          inside = λ c j. j;
          all = ap (λ z. length (all z)) (only_slab t i) ∙ size_all ∙ sym (mod-eq_of_lt sizes.few);
          has_memory = rw (f.same_memory, only_slab t i) w.has_memory;
        };
      }

      -- The slabs other than the new one, from `st` to the end of the set-up
      same_coreid : (t : ℕ) → t ≢ s → f.last.slabs.coreid t ≡ st.slabs.coreid t
      same_coreid t ne = (f.other_slabs t ne).0 ∙ (w.other_slabs t ne).0

      made-Elsewhere : Elsewhere (all s) mid.headers f.last.headers
      made-Elsewhere =
          subst (λ z. Elsewhere z mid.headers f.last.headers) (sym w.its_objects) f.elsewhere

      same_slab : (h : ℕ) → has h (all s) ≡ false → f.last.headers.slab h ≡ st.headers.slab h
      same_slab h o = made-Elsewhere.same_slab h o ∙ w.elsewhere.same_slab h o

      Full-made : (t : ℕ) → t ≢ s → Full P all st [] t → Full P all f.last (s ∷ []) t
      Full-made t ne u = record {
        unlisted = ground arith;
        none_free = record {
          path = (f.other_slabs t ne).1 ∙ (w.other_slabs t ne).1 ∙ u.none_free.path;
          distinct = tt;
          count = (f.other_slabs t ne).2 ∙ (w.other_slabs t ne).2 ∙ u.none_free.count;
          fits = u.none_free.fits;
          marked = λ c i. cc;
          owned = λ c i. cc;
        };
        alone = f.beside t ne refl (rw w.same_links u.alone);
        has_memory = rw (f.same_memory, (w.other_slabs t ne).3) u.has_memory;
        fits = u.fits;
      }

      Home-made :
          (t h : ℕ) → t ≢ s → Home P all st [] core.objs t h → Home P all f.last (s ∷ []) all t h
      Home-made t h ne p = record {
        home = same_coreid t ne ∙ p.home;
        not_null = p.not_null;
        inside = p.inside;
        all = p.all;
        place = elim (p.place) [
          | inl l ↦ absurd (not_both true refl (sym l.listed))
          | inr u ↦ inr (Full-made t ne u)
        ];
      }

      Held-made : (h : ℕ) → Held P all st h → Held P all f.last h
      Held-made h m =
          let p : Place P all st [] core.objs h = Place-rebase P all h nothing m.core m.place in
          let (out, ne) = w.unused h m in
          let same = same_slab h out in
          record {
            ss = s ∷ [];
            objs = all;
            core = Core-made;
            place = (
              λ z. p.0 (sym same ∙ z),
              elim (p.1) [
                | inl away ↦ inl (λ z. away (
                    sym (same_coreid (st.headers.slab h) ne)
                    ∙ ap f.last.slabs.coreid (sym same)
                    ∙ z))
                | inr q ↦ inr (
                    subst (λ t. Home P all f.last (s ∷ []) all t h) (sym same)
                      (Home-made (st.headers.slab h) h ne q))
              ],
            );
          }

      abbrev one_more : State E
      one_more =
          let si = slab_info_of f.last P.coreid in
          set_slab_info f.last P.coreid (record si { nslabs = (si.nslabs + 1) % 2 ^ 64 })

      same_core : SameCore P.coreid f.last one_more
      same_core = record { same_slabs = refl; same_links = refl; same_fl = ground arith }

      add_slab-made : add_slab P P.coreid s mid ≡ some one_more
      unfolding add_slab
      add_slab-made =
          rw
            (
              f.returns,
              ne→== (f.last.slabs.memory s) 0 (rw f.same_memory w.has_memory),
              ne→== (f.last.slabs.freelist s) 0 (path_head _ _ _ free_all.path some_objects),
            )
            refl

      Held-more : (h : ℕ) → Held P all st h → Held P all one_more h
      Held-more h m =
          let b = Held-made h m in Held-edit P all h b (OnlyAt-refl h f.last.headers) same_core h b

      at_head : (slab_info_of one_more P.coreid).fl ≡ s
      at_head = ground (arith, f.listed.head)

      made-Gives :
          {o : Option (ℕ × State E)} → o ≡ alloc_from P.coreid s one_more → Gives P all st o
      made-Gives e =
          let a =
            HasCore-same P all refl same_core
              (record { ss = s ∷ []; objs = all; core = Core-made }) in
          let g =
            first-Gives P all P.coreid a.ss a.objs a.core (λ z. w.not_null (sym at_head ∙ z)) in
          record {
            last = g.last;
            x = g.x;
            returns = e ∙ sym (from_list P P.coreid s one_more at_head w.not_null) ∙ g.returns;
            unmarked = g.unmarked;
            unlinked = g.unlinked;
            home = g.home;
            new = λ m. g.new (Held-more g.x m);
            held = g.held;
            others = λ h m. g.others h (Held-more h m);
          }

  -- The rest of `__ps_slab_mem_alloc` when the core has no slab with free objects: if the function that
  -- allocates slabs gives none, it returns `NULL`. If that function gives a new slab with memory that is
  -- zeroed and not in use, and a slab has room for two objects and fewer than 2 ^ 32, then the asserts
  -- pass and it gives an object of the core's own, unmarked and without link, that no client held; it is
  -- held from then on, and all held objects stay so.
  pub alloc_slab-Refills :
      Room P
      → {st mid : State E} (s : ℕ) → HasCore P all st
      → (slab_info_of st P.coreid).fl ≡ 0
      → P.afn st P.allocsz P.coreid ≡ some (s, mid)
      → (s ≡ 0) ⊎ NewSlab st mid s
      → ((s ≡ 0) × (alloc_slab P P.coreid st ≡ some (0, mid)))
        ⊎ ((s ≢ 0) × Gives P all st (alloc_slab P P.coreid st))
  unfolding alloc_slab
  alloc_slab-Refills sizes {st} {mid} s core empty r (inl z) = inl (z, rw (empty, r, z) refl)
  alloc_slab-Refills sizes {st} {mid} s core empty r (inr w) =
      let f = set_up sizes w core empty in
      inr (
        w.not_null,
        made-Gives sizes w core empty f
            (rw (empty, r, ne→== s 0 w.not_null, add_slab-made sizes w core empty f) refl),
      )
