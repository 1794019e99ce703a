-- ===== src/Slab/Clear.antt =====
-- The loop of `__ps_slab_mem_remote_clear` (ps_slab.c) over the objects of one remote list.
use ps.Base.{
  ℕ, zero, suc, ◌+◌, ◌≤◌, ◌≡◌, ◌≢◌, refl, sym, ◌∙◌, ap, true, false, some, List, [], ◌∷◌, arith,
  length, ne→==,
}
use native.Mathlib.Nat.{add-zero}
use native.Mathlib.Decide.{ℕ_discrete}
use ps.Header.{OnlyAt-trans, set_next, set_next-OnlyAt, ps_mhead_mem}
use ps.Memory.{State, smr_info_of, set_headers}
use ps.Queue.Fifo.{PathToNull, path_frame}
use ps.Ring.Chain.{has, Distinct}
use ps.Slab.{SlabParams, slab_mem_free}
use ps.Slab.Alloc.{clear_list}
use ps.Slab.Frees.{Sizes, header_free-Released}
use ps.Slab.Held.{SameCore, HasCore, Held, Held-edit, not_both}
use ps.Slab.Released.{GivesBack}

module _ {E : Type 0} (P : SlabParams E) (objects : ℕ → List ℕ) where
  -- The object `h` of the core's own waits in a remote list.
  pub record Waiting (st : State E) (h : ℕ) : Type 0 where
    pub held : Held P objects st h
    pub home : st.slabs.coreid (st.headers.slab h) ≡ P.coreid
    pub unmarked : st.headers.tsc_free h ≡ 0

  -- Between the states the objects `xs` were freed: they are marked, other headers stay as they are,
  -- and other objects stay held.
  pub record Freed (st : State E) (xs : List ℕ) (last : State E) : Type 0 where
    pub same_slab : last.headers.slab ≡ st.headers.slab
    pub same_owner : last.slabs.coreid ≡ st.slabs.coreid
    pub same_next : (c : ℕ) → has c xs ≡ false → last.headers.next c ≡ st.headers.next c
    pub same_tsc : (c : ℕ) → has c xs ≡ false → last.headers.tsc_free c ≡ st.headers.tsc_free c
    pub same_parsecs : last.parsecs ≡ st.parsecs
    pub same_smr : (c : ℕ) → smr_info_of last c ≡ smr_info_of st c
    pub core : HasCore P objects st → HasCore P objects last
    pub others : (h : ℕ) → has h xs ≡ false → Held P objects st h → Held P objects last h
    pub marked : (c : ℕ) → has c xs ≡ true → last.headers.tsc_free c ≢ 0

  pub Waiting-Freed :
      {st last : State E} {xs : List ℕ} (h : ℕ)
      → Freed st xs last
      → has h xs ≡ false
      → Waiting st h
      → Waiting last h
  Waiting-Freed h f out w = record {
    held = f.others h out w.held;
    home = rw (f.same_slab, f.same_owner) w.home;
    unmarked = f.same_tsc h out ∙ w.unmarked;
  }

  pub Freed-nil : (st : State E) → Freed st [] st
  Freed-nil st = record {
    same_slab = refl;
    same_owner = refl;
    same_next = λ c o. refl;
    same_tsc = λ c o. refl;
    same_parsecs = refl;
    same_smr = λ c. refl;
    core = λ a. a;
    others = λ h o m. m;
    marked = λ c i. cc;
  }

  Freed-cons :
      {st mid last : State E} (x : ℕ) (xs : List ℕ)
      → has x xs ≡ false
      → Freed st (x ∷ []) mid
      → Freed mid xs last
      → Freed st (x ∷ xs) last
  Freed-cons x xs out f g = record {
    same_slab = g.same_slab ∙ f.same_slab;
    same_owner = g.same_owner ∙ f.same_owner;
    same_next = λ c o. g.same_next c (ground arith) ∙ f.same_next c (ground arith);
    same_tsc = λ c o. g.same_tsc c (ground arith) ∙ f.same_tsc c (ground arith);
    same_parsecs = g.same_parsecs ∙ f.same_parsecs;
    same_smr = λ c. g.same_smr c ∙ f.same_smr c;
    core = λ a. g.core (f.core a);
    others = λ h o m. g.others h (ground arith) (f.others h (ground arith) m);
    marked = λ c i. elim (ℕ_discrete c x) [
      | yes e ↦ λ z. f.marked c (ground arith) (sym (g.same_tsc c (ap (λ d. has d xs) e ∙ out)) ∙ z)
      | no ne ↦ g.marked c (ground arith)
    ];
  }

  module _ (here numaid : ℕ) (sizes : Sizes P) (given : GivesBack P.ffn P.coreid) where
    abbrev cut : State E → ℕ → State E
    cut st x = set_headers st (set_next st.headers x 0)

    -- A round of the loop
    free_one :
        (st : State E) (x : ℕ)
        → Waiting st x
        → (mid : State E) × (slab_mem_free P here numaid (ps_mhead_mem x) (cut st x) ≡ some mid)
          × Freed st (x ∷ []) mid
          × ((c : ℕ) → (mid.percore c).slab_remote ≡ (st.percore c).slab_remote)
    free_one st x w =
        let edit = set_next-OnlyAt st.headers x 0 in
        let held = Held-edit P objects x w.held edit same in
        let r =
          header_free-Released P objects here numaid sizes given (cut st x) x (held x w.held)
            w.unmarked in
        let (f, remote) = r.free w.home in
        let only = OnlyAt-trans edit r.only in
        (
          r.last,
          r.returns,
          record {
            same_slab = only.same_slab;
            same_owner = r.same_owner;
            same_next = λ c o. only.same_next c (apart c o);
            same_tsc = λ c o. only.same_tsc c (apart c o);
            same_parsecs = r.same_parsecs;
            same_smr = r.same_smr;
            core = λ a. r.core;
            others = λ h o m. r.others h (apart h o) (held h m);
            marked = λ c i. f.1.marked c (ground arith);
          },
          remote,
        )
      where
        same : SameCore P.coreid st (cut st x)
        same = record { same_slabs = refl; same_links = refl; same_fl = refl }

        apart : (c : ℕ) → has c (x ∷ []) ≡ false → c ≢ x
        apart c o = ground arith

    pub clear_list-Freed :
        (fuel : ℕ) (xs : List ℕ) (h ret : ℕ) {st : State E}
        → PathToNull st.headers.next h xs
        → Distinct xs
        → ((c : ℕ) → has c xs ≡ true → Waiting st c)
        → length xs ≤ fuel
        → (last : State E) × (clear_list fuel P here numaid h ret st ≡ some (ret + length xs, last))
          × Freed st xs last
          × ((c : ℕ) → (last.percore c).slab_remote ≡ (st.percore c).slab_remote)
    unfolding clear_list
    clear_list-Freed zero [] h ret {st} p d w le =
        (st, rw (p, add-zero ret) refl, Freed-nil st, λ c. refl)
    clear_list-Freed zero (x ∷ xs) h ret {st} p d w le = absurd (omega arith)
    clear_list-Freed (suc fuel) [] h ret {st} p d w le =
        (st, rw (p, add-zero ret) refl, Freed-nil st, λ c. refl)
    clear_list-Freed (suc fuel) (x ∷ xs) h ret {st} p d w le =
        let (mid, call, f, rem) = free_one st x (w x (ground arith)) in
        let (last, r, g, rem') =
          clear_list-Freed fuel xs (st.headers.next x) (ret + 1) {st = mid}
            (path_frame st.headers.next mid.headers.next (st.headers.next x) xs
              (λ c i. f.same_next c (rest_apart c i)) p.2)
            d.1 (λ c i. Waiting-Freed c f (rest_apart c i) (w c (ground arith))) (omega arith) in
        (
          last,
          rw (p.0, ne→== x 0 p.1, call) (r ∙ ap (λ (n : ℕ). some (n, last)) (omega arith)),
          Freed-cons x xs d.0 f g,
          λ c. rem' c ∙ rem c,
        )
      where
        rest_apart : (c : ℕ) → has c xs ≡ true → has c (x ∷ []) ≡ false
        rest_apart c i =
            let ne : c ≢ x = λ e. not_both (has c xs) i (ap (λ z. has z xs) e ∙ d.0) in ground arith
