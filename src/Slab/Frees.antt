-- ===== src/Slab/Frees.antt =====
-- `__ps_slab_mem_free` (ps_slab.h) as a whole, on any object that a client holds.
use ps.Base.{
  subst, sym, ap, inl, inr, ℕ, ◌%◌, ◌^◌, ◌<◌, ◌≤◌, ◌+◌, ◌≡◌, ◌≢◌, refl, ◌∙◌, Option, some, List,
  ◌∷◌, arith,
}
use native.Mathlib.Decide.{ℕ_discrete}
use ps.Header.{OnlyAt, set_next-OnlyAt, ps_mhead_get, ps_mhead_mem, get-mem}
use ps.Memory.{State, smr_info_of}
use ps.Slab.{SlabParams, num_remote_list, slab_objmemsz, slab_mem_free, slab_mem_remote_free}
use ps.Slab.Free.{max_nobjs}
use ps.Slab.Held.{HasCore, Held, Core-edit, Held-edit}
use ps.Slab.Objects.{FreeObjects}
use ps.Slab.Released.{GivesBack, local_free-Returned}
use ps.Slab.Remote.{Freeable, freed, slab_mem_free-own, slab_mem_free-away}

-- The constants of an allocator: an object fits into a slab, and a slab holds not just one.
pub record Sizes {E : Type 0} (P : SlabParams E) : Type 0 where
  pub size : slab_objmemsz P.obj_sz + P.headoff ≤ P.allocsz
  pub fits : P.allocsz < 2 ^ 64
  pub many : max_nobjs P ≢ 1

module _ {E : Type 0} (P : SlabParams E) (objects : ℕ → List ℕ) (here numaid : ℕ) where
  -- The end of a free of `x`, an object of the slab `s`
  pub record Released (st : State E) (x s : ℕ) (o : Option (State E)) : Type 0 where
    pub last : State E
    pub returns : o ≡ some last
    pub only : OnlyAt x st.headers last.headers
    pub same_parsecs : last.parsecs ≡ st.parsecs
    pub same_smr : (c : ℕ) → smr_info_of last c ≡ smr_info_of st c
    pub same_owner : last.slabs.coreid ≡ st.slabs.coreid
    pub core : HasCore P objects last
    pub others : (h : ℕ) → h ≢ x → Held P objects st h → Held P objects last h
    pub free :
        st.slabs.coreid s ≡ P.coreid
        → ((xs : List ℕ) × FreeObjects last s (x ∷ xs))
          × ((c : ℕ) → (last.percore c).slab_remote ≡ (st.percore c).slab_remote)
    pub sent :
        st.slabs.coreid s ≢ P.coreid
        → ((last.percore (st.slabs.coreid s)).slab_remote numaid (here % num_remote_list) ≡ x)
          × (last.headers.next x
              ≡ (st.percore (st.slabs.coreid s)).slab_remote numaid (here % num_remote_list))
          × (last.slabs ≡ st.slabs)
          × (last.links ≡ st.links)

  module _ (sizes : Sizes P) (given : GivesBack P.ffn P.coreid) {st : State E} (buf : ℕ)
      (held : Held P objects st (ps_mhead_get buf))
      (unmarked : st.headers.tsc_free (ps_mhead_get buf) ≡ 0) where
    abbrev s : ℕ
    s = st.headers.slab (ps_mhead_get buf)

    freeable : Freeable P st (ps_mhead_get buf) s
    freeable = record {
      size = sizes.size;
      size_fits = sizes.fits;
      unmarked = unmarked;
      owner = refl;
      slab_not_null = held.place.0;
    }

    own :
        st.slabs.coreid s ≡ P.coreid
        → Released st (ps_mhead_get buf) s (slab_mem_free P here numaid buf st)
    own home = elim (held.place.1) [
      | inl far ↦ absurd (far home)
      | inr p ↦
          let r =
            local_free-Returned P objects given sizes.many held.ss held.objs s (ps_mhead_get buf)
              held.core refl p held.place.0 in
          record {
            last = r.last;
            returns = slab_mem_free-own P here numaid buf s freeable home ∙ r.returns;
            only = r.only;
            same_parsecs = r.same_parsecs;
            same_smr = r.same_smr;
            same_owner = r.same_owner;
            core = r.core;
            others = r.others;
            free = λ e. (r.free, r.same_remote);
            sent = λ far. absurd (far home);
          }
    ]

    away :
        st.slabs.coreid s ≢ P.coreid
        → Released st (ps_mhead_get buf) s (slab_mem_free P here numaid buf st)
    unfolding slab_mem_remote_free
    away far = record {
      last = freed P here numaid buf s freeable;
      returns = slab_mem_free-away P here numaid buf s freeable far;
      only = set_next-OnlyAt st.headers (ps_mhead_get buf) _;
      same_parsecs = refl;
      same_smr = λ c. ground arith;
      same_owner = refl;
      core = record {
        ss = held.ss;
        objs = held.objs;
        core =
            Core-edit P objects (ps_mhead_get buf) held.core held.place
              (set_next-OnlyAt st.headers (ps_mhead_get buf) _)
              (record { same_slabs = refl; same_links = refl; same_fl = ground arith });
      };
      others = λ h ne.
          Held-edit P objects (ps_mhead_get buf) held
            (set_next-OnlyAt st.headers (ps_mhead_get buf) _)
            (record { same_slabs = refl; same_links = refl; same_fl = ground arith }) h;
      free = λ e. absurd (far e);
      sent = λ f. (ground arith, ground arith, refl, refl);
    }

    -- `__ps_slab_mem_free` on an unmarked object that a client of the core holds passes its asserts. The
    -- object comes first on the freelist of its slab, or, if that is another core's, on top of an entry of
    -- that core's remote lists, and then no slab changes. Only its header changes, and the other objects
    -- that clients hold stay held.
    pub slab_mem_free-Released :
        Released st (ps_mhead_get buf) s (slab_mem_free P here numaid buf st)
    slab_mem_free-Released = elim (ℕ_discrete (st.slabs.coreid s) P.coreid) [
      | yes home ↦ own home
      | no far ↦ away far
    ]

  -- The same on the object with the header `x`
  pub header_free-Released :
      (sizes : Sizes P) (given : GivesBack P.ffn P.coreid) (st : State E) (x : ℕ)
      → Held P objects st x
      → st.headers.tsc_free x ≡ 0
      → Released st x (st.headers.slab x) (slab_mem_free P here numaid (ps_mhead_mem x) st)
  header_free-Released sizes given st x held unmarked =
      subst
        (λ h. Released st h (st.headers.slab h) (slab_mem_free P here numaid (ps_mhead_mem x) st))
        (get-mem x)
        (slab_mem_free-Released sizes given (ps_mhead_mem x)
          (subst (Held P objects st) (sym (get-mem x)) held)
          (ap st.headers.tsc_free (get-mem x) ∙ unmarked))
