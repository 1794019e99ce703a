-- ===== src/Slab/Serve.antt =====
-- `__ps_slab_mem_alloc` (ps_slab.h) as a whole, remote frees included.
use ps.Base.{
  inl, ◌⊎◌, inr, ℕ, ◌+◌, ◌%◌, ◌^◌, ◌≤◌, ◌<◌, ◌≡◌, ◌≢◌, refl, sym, ◌∙◌, subst, false, Option, some,
  List, [], ◌∷◌, arith, ltb, ==_self, ne→==, eq→==, length,
}
use native.Mathlib.Decide.{ℕ_discrete}
use ps.Memory.{State, slab_info_of}
use ps.Slab.{SlabParams, remote_batch}
use ps.Slab.Alloc.{alloc_slab, slab_mem_alloc, slab_mem_remote_process}
use ps.Slab.Core.{alloc_from-Taken}
use ps.Slab.Frees.{Sizes}
use ps.Slab.Gives.{Gives, taken-Gives}
use ps.Slab.Held.{Core, HasCore}
use ps.Slab.Released.{GivesBack}
use ps.Slab.Remotes.{RemoteOk, Swept, Swept-refl, Swept-trans, Swept-info}
use ps.Slab.Rounds.{Found, remote_process-Swept}
use ps.Slab.Whole.{from_list, next_count, counted}

module _ {E : Type 0} (P : SlabParams E) (objects : ℕ → List ℕ) (here : ℕ) where
  -- With a slab at hand, the choice of the slab gives an object of it.
  pub first-Gives :
      {st : State E} (ss : List ℕ) (objs : ℕ → List ℕ)
      → Core P objects st ss objs
      → (slab_info_of st P.coreid).fl ≢ 0
      → Gives P objects st (alloc_slab P here st)
  first-Gives [] objs a ne = absurd (ne a.ok.listed.head)
  first-Gives {st = st} (s ∷ ss) objs a ne = by_free (objs s) refl
    where
      by_free : (xs : List ℕ) → objs s ≡ xs → Gives P objects st (alloc_slab P here st)
      by_free [] e = absurd (a.ok.some_free s (ground arith) e)
      by_free (x ∷ xs) e =
          let (last, r, t) = alloc_from-Taken s ss x a.ok xs e in
          let head : (slab_info_of st P.coreid).fl ≡ s = a.ok.listed.head in
          let s_ne : s ≢ 0 = λ z. ne (head ∙ z) in
          taken-Gives P objects s x ss xs objs a e t (from_list P here s st head s_ne ∙ r)

  module _ (numaid : ℕ) (sizes : Sizes P) (given : GivesBack P.ffn P.coreid) (fuel n : ℕ) where
    -- Every 64th call takes back remote frees before the rest, and `mid` is the state behind that: if
    -- some list had objects, one that had is empty. Other calls only count.
    abbrev pub TakenBack :
        (st : State E) (lists : ℕ → ℕ → List ℕ) (mid : State E) (left : ℕ → ℕ → List ℕ) → Type 0
    TakenBack st lists mid left =
        ((((slab_info_of st P.coreid).salloccnt + 1) % 2 ^ 64 % 64 ≡ 0)
          × (slab_mem_remote_process n fuel P here numaid (counted P st) ≡ some mid)
          × Found P objects here numaid sizes given fuel n (slab_info_of st P.coreid).remote_token
              lists left)
        ⊎ ((((slab_info_of st P.coreid).salloccnt + 1) % 2 ^ 64 % 64 ≢ 0)
            × (mid ≡ counted P st)
            × (left ≡ lists))

    pub record Served (st : State E) (lists : ℕ → ℕ → List ℕ) (o : Option (ℕ × State E))
        : Type 0 where
      pub mid : State E
      pub left : ℕ → ℕ → List ℕ
      pub taken_back : TakenBack st lists mid left
      pub swept : Swept P objects st lists mid left
      pub outcome :
          (((slab_info_of mid P.coreid).fl ≢ 0) × Gives P objects mid o)
          ⊎ (((slab_info_of mid P.coreid).fl ≡ 0) × (o ≡ alloc_slab P here mid))

  module _ (numaid : ℕ) (sizes : Sizes P) (given : GivesBack P.ffn P.coreid) (fuel n : ℕ)
      (small : P.obj_sz + P.headoff ≤ P.allocsz) {st : State E} {lists : ℕ → ℕ → List ℕ}
      (core : HasCore P objects st) (token : (slab_info_of st P.coreid).remote_token < n)
      (r : RemoteOk P objects st lists) (enough : (j k : ℕ) → length (lists j k) ≤ fuel) where
    fits : ltb P.allocsz ((P.obj_sz + P.headoff) % 2 ^ 64) ≡ false
    fits = ground (arith, small, sizes.fits)

    start : Swept P objects st lists (counted P st) lists
    start =
        Swept-info P objects (record (slab_info_of st P.coreid) { salloccnt = next_count P st })
          refl (Swept-refl P objects r)

    from :
        (mid : State E) (left : ℕ → ℕ → List ℕ)
        → Swept P objects st lists mid left
        → slab_mem_alloc n fuel P here numaid st ≡ alloc_slab P here mid
        → TakenBack numaid sizes given fuel n st lists mid left
        → Served numaid sizes given fuel n st lists (slab_mem_alloc n fuel P here numaid st)
    from mid left s e back =
        let a = s.core core in
        record {
          mid = mid;
          left = left;
          taken_back = back;
          swept = s;
          outcome = elim (ℕ_discrete (slab_info_of mid P.coreid).fl 0) [
            | yes z ↦ inr (z, e)
            | no ne ↦
                inl (ne, subst (Gives P objects mid) (sym e) (first-Gives a.ss a.objs a.core ne))
          ];
        }

    same_token : (slab_info_of (counted P st) P.coreid).remote_token < n
    same_token = rw (==_self P.coreid, slab_info_of) token

    not_due :
        next_count P st % remote_batch ≢ 0
        → slab_mem_alloc n fuel P here numaid st ≡ alloc_slab P here (counted P st)
    unfolding slab_mem_alloc
    not_due ne = rw (fits, ne→== (next_count P st % remote_batch) 0 ne) refl

    due :
        (mid : State E)
        → next_count P st % remote_batch ≡ 0
        → slab_mem_remote_process n fuel P here numaid (counted P st) ≡ some mid
        → slab_mem_alloc n fuel P here numaid st ≡ alloc_slab P here mid
    unfolding slab_mem_alloc
    due mid z q = rw (fits, eq→== (next_count P st % remote_batch) 0 z, q) refl

    found :
        {left : ℕ → ℕ → List ℕ}
        → Found P objects here numaid sizes given fuel n
            (slab_info_of (counted P st) P.coreid).remote_token
            lists
            left
        → Found P objects here numaid sizes given fuel n
            (slab_info_of st P.coreid).remote_token
            lists
            left
    found f = rw (==_self P.coreid, slab_info_of) at f

    -- `__ps_slab_mem_alloc` in a state with the core's invariant, whose remote lists lead through objects that
    -- wait there and are no longer than the fuel. Every 64th call first takes back remote frees: some
    -- list that had objects is empty then, or no list of any node had one; the objects of the emptied
    -- lists are marked as free. Other calls take back none. Then, with a slab on the core's list, it
    -- passes its asserts and gives an object of the core's own, unmarked and without link, that was not
    -- held; it is held from then on, and all held objects stay so. Without a slab it goes on with the
    -- function that allocates slabs.
    pub slab_mem_alloc-Served :
        Served numaid sizes given fuel n st lists (slab_mem_alloc n fuel P here numaid st)
    slab_mem_alloc-Served = elim (ℕ_discrete (next_count P st % remote_batch) 0) [
      | yes z ↦
          let (mid, left, q, s, _, f) =
            remote_process-Swept P objects here numaid sizes given fuel n {st = counted P st}
              {lists = lists} same_token start.ok enough in
          from mid left (Swept-trans P objects r start s) (due mid z q) (inl (z, q, found f))
      | no ne ↦ from (counted P st) lists start (not_due ne) (inr (ne, refl, refl))
    ]
