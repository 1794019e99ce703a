-- ===== src/Smr/Slabs.antt =====
-- The memory of a parallel section (ps_smr.h on top of ps_slab.h): quiescent objects go back to slabs.
use ps.Base.{◌∙◌, ℕ, ◌≡◌, refl, ap, List}
use ps.Header.{ps_mhead_mem}
use ps.Instance.{ps_parslab_free_tramp, ps_slabptr_free_coreid}
use ps.Memory.{State, FreeFn}
use ps.Parsec.{Parsec}
use ps.Slab.{SlabParams, slab_mem_free}
use ps.Slab.Frees.{Sizes, header_free-Released}
use ps.Slab.Held.{Held, Held-edit}
use ps.Slab.Released.{GivesBack}
use ps.Smr.Defs.{FreeSpec}
use ps.Smr.Safety.{Frees}

module _ {E : Type 0} (P : SlabParams E) (objects : ℕ → List ℕ) (numaid : ℕ) (sizes : Sizes P)
    (given : GivesBack P.ffn P.coreid) where
  abbrev pub tramp : FreeFn E
  tramp = ps_parslab_free_tramp P P.coreid numaid

  pub tramp_lem :
      (st : State E) (x sz : ℕ) → tramp st x sz P.coreid ≡ slab_mem_free P P.coreid numaid x st
  unfolding ps_parslab_free_tramp ps_slabptr_free_coreid
  tramp_lem st x sz = refl

  -- The slab allocator keeps to the contract of the reclamation.
  abbrev pub slabs-FreeSpec : FreeSpec tramp P.coreid
  slabs-FreeSpec = record {
    Live = Held P objects;
    edit = λ st st' x l only same h m.
        Held-edit P objects x l only
          (record {
            same_slabs = same.same_slabs;
            same_links = same.same_links;
            same_fl = ap (λ i. i.fl) (same.same_info P.coreid);
          })
          h m;
    frees = λ st x l e.
        let r = header_free-Released P objects P.coreid numaid sizes given st x l e in
        (
          r.last,
          tramp_lem st (ps_mhead_mem x) 0 ∙ r.returns,
          r.only,
          r.same_smr P.coreid,
          r.same_parsecs,
          r.others,
        );
  }
