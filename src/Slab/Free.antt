-- ===== src/Slab/Free.antt =====
-- `__ps_slab_mem_free` (ps_slab.h) on an object of the core's own: the slab it belongs to was full, has
-- free objects already, or becomes free as a whole.
use ps.Base.{
  sym, ap, ℕ, ◌∙◌, ◌+◌, ◌-◌, ◌%◌, ◌^◌, ◌<◌, ◌≡◌, ◌≢◌, refl, subst, true, false, some, List, [], ◌∷◌,
  ◌++◌, arith, length, ==_self, ne→==, update,
}
use native.Mathlib.Decide.{ℕ_discrete}
use ps.Memory.{State, SlabInfo, smr_info_of, slab_info_of, set_slab_info}
use ps.Ring.{Links}
use ps.Ring.Chain.{has, has-append, Ring}
use ps.Ring.Object.{node_of, ps_list_rem}
use ps.Slab.{SlabParams, list_off, slab_max_nobjs, set_fl, put_back, local_free, relist, retire}
use ps.Slab.Beside.{rem_beside, freelist_add-beside}
use ps.Slab.Core.{
  set_fl-parsecs, set_fl-smr, set_fl-remote, CoreOk, set_fl-headers, set_fl-slabs, set_fl-links,
  set_fl-CoreOk,
}
use ps.Slab.Freelist.{first, turn, freelist_add-Listed, freelist_rem-Listed, singleton-true}
use ps.Slab.Objects.{FreeObjects, FreeObjects-same, put_back-FreeObjects, put_back-other}

-- `max_nobjs` of `__ps_slab_mem_free`, an `unsigned int`
abbrev pub max_nobjs : {E : Type 0} → SlabParams E → ℕ
max_nobjs P = slab_max_nobjs P.obj_sz P.allocsz P.headoff % 2 ^ 32

-- The object `h` is of the slab `s`, and is not free.
pub record InUse {E : Type 0} (st : State E) (s h : ℕ) (xs : List ℕ) : Type 0 where
  pub not_null : h ≢ 0
  pub out : has h xs ≡ false
  pub owner : st.headers.slab h ≡ s
  pub room : length xs + 1 < 2 ^ 64

-- `st'` is `st` with `h` put back, but for the list of slabs, which was `ss`.
pub record PutBack {E : Type 0} (st : State E) (h s : ℕ) (ss : List ℕ) (st' : State E)
    : Type 0 where
  pub same_headers : st'.headers ≡ (put_back st h s).headers
  pub same_slabs : st'.slabs ≡ (put_back st h s).slabs
  pub same_parsecs : st'.parsecs ≡ st.parsecs
  pub same_smr : (c : ℕ) → smr_info_of st' c ≡ smr_info_of st c
  pub same_remote : (c : ℕ) → (st'.percore c).slab_remote ≡ (st.percore c).slab_remote
  pub beside :
      (t : ℕ)
      → t ≢ s
      → has t ss ≡ false
      → Ring st.links (node_of t list_off) []
      → Ring st'.links (node_of t list_off) []

pub PutBack-refl :
    {E : Type 0} (st : State E) (h s : ℕ) (ss : List ℕ) → PutBack st h s ss (put_back st h s)
unfolding put_back
PutBack-refl st h s ss = record {
  same_headers = refl;
  same_slabs = refl;
  same_parsecs = refl;
  same_smr = λ c. refl;
  same_remote = λ c. refl;
  beside = λ t ne out r. r;
}

module _ {E : Type 0} (P : SlabParams E) {st : State E} (objs : ℕ → List ℕ) (s h : ℕ)
    (mine : FreeObjects st s (objs s)) (used : InUse st s h (objs s)) where
  after_put : FreeObjects (put_back st h s) s (h ∷ objs s)
  after_put = put_back-FreeObjects (objs s) h mine used.not_null used.out used.owner used.room

  put_free :
      (t : ℕ)
      → (t ≢ s → FreeObjects st t (objs t))
      → FreeObjects (put_back st h s) t (update objs s (h ∷ objs s) t)
  put_free t f = elim (ℕ_discrete t s) [
    | yes same ↦ rw (same, ==_self s) after_put
    | no other ↦ rw (ne→== t s other) (put_back-other t (objs t) h (f other) other used.owner)
  ]

  put_some_free : (t : ℕ) → (t ≢ s → objs t ≢ []) → update objs s (h ∷ objs s) t ≢ []
  put_some_free t f = elim (ℕ_discrete t s) [
    | yes same ↦ rw (same, ==_self s) (λ bad. cc)
    | no other ↦ rw (ne→== t s other) (f other)
  ]

  -- The slab has free objects, and another object in use: it stays where it is, the object comes first
  -- on its freelist, and the invariant of the core is kept.
  pub local_free-CoreOk :
      (ss : List ℕ)
      → CoreOk st P.coreid ss objs
      → has s ss ≡ true
      → length (objs s) + 1 ≢ max_nobjs P
      → (local_free P h s st ≡ some (put_back st h s))
        × CoreOk (put_back st h s) P.coreid ss (update objs s (h ∷ objs s))
  unfolding local_free put_back
  local_free-CoreOk ss ok i more = (
    rw (ne→== _ (max_nobjs P) not_all, ne→== _ 1 not_first) refl,
    record {
      listed = ok.listed;
      free = λ t j. put_free t (λ ne. ok.free t j);
      some_free = λ t j. put_some_free t (λ ne. ok.some_free t j);
    },
  )
    where
      not_all : (put_back st h s).slabs.nfree s ≢ max_nobjs P
      not_all = omega (arith, after_put.count)

      nonempty : (xs : List ℕ) → objs s ≡ xs → (put_back st h s).slabs.nfree s ≢ 1
      nonempty [] e = absurd (ok.some_free s i e)
      nonempty (x ∷ xs) e = omega (arith, after_put.count, ap length e)

      not_first : (put_back st h s).slabs.nfree s ≢ 1
      not_first = nonempty (objs s) refl

  -- The slab was full and on no list, and holds more than one object: it comes to the front of the
  -- list with the object on its freelist, no `assert` fails, and the invariant of the core is kept.
  pub relist-CoreOk :
      (ss : List ℕ)
      → CoreOk st P.coreid ss objs
      → objs s ≡ []
      → has s ss ≡ false
      → Ring st.links (node_of s list_off) []
      → st.slabs.memory s ≢ 0
      → s ≢ 0
      → s + list_off < 2 ^ 64
      → max_nobjs P ≢ 1
      → (st' : State E) × (local_free P h s st ≡ some st')
        × CoreOk st' P.coreid (s ∷ turn ss) (update objs s (h ∷ []))
        × PutBack st h s ss st'
  unfolding local_free relist put_back
  relist-CoreOk ss ok e out alone mem ne fits many =
      let (k, r, l) = freelist_add-Listed ss s ok.listed alone ne fits out in
      (
        set_fl (put_back st h s) P.coreid (s, k),
        rw
            (
              one,
              ne→== 1 (max_nobjs P) (λ bad. many (sym bad)),
              singleton-true (node_of s list_off) alone,
              ne→== _ 0 mem,
              ==_self s,
              ne→== h 0 used.not_null,
              r,
            )
            refl,
        set_fl-CoreOk (s, k) l
            (λ t j.
              subst (λ xs. FreeObjects (put_back st h s) t (update objs s (h ∷ xs) t)) e
                (put_free t (λ other. ok.free t (on_turn ss t other j))))
            (λ t j.
              subst (λ xs. update objs s (h ∷ xs) t ≢ []) e
                (put_some_free t (λ other. ok.some_free t (on_turn ss t other j)))),
        record {
          same_headers = set_fl-headers (put_back st h s) P.coreid (s, k);
          same_slabs = set_fl-slabs (put_back st h s) P.coreid (s, k);
          same_parsecs = set_fl-parsecs (put_back st h s) P.coreid (s, k);
          same_smr = set_fl-smr (put_back st h s) P.coreid (s, k);
          same_remote = set_fl-remote (put_back st h s) P.coreid (s, k);
          beside = λ t ne o a.
              rw (set_fl-links (put_back st h s) P.coreid (s, k))
                (freelist_add-beside t a ss s ok.listed r o ne out);
        },
      )
    where
      one : (put_back st h s).slabs.nfree s ≡ 1
      one = omega (arith, after_put.count, ap length e)

      on_turn : (ss : List ℕ) (t : ℕ) → t ≢ s → has t (s ∷ turn ss) ≡ true → has t ss ≡ true
      on_turn [] t other j = ground arith
      on_turn (x ∷ ss) t other j = ground (arith, has-append t ss (x ∷ []))

  -- All of the slab's objects are free now: it leaves the list, which keeps the invariant of the core,
  -- and goes to `ffn` with all its objects on its freelist.
  pub retire-CoreOk :
      (ss ts : List ℕ)
      → CoreOk st P.coreid (ss ++ s ∷ ts) objs
      → length (objs s) + 1 ≡ max_nobjs P
      → (st' : State E) × (local_free P h s st ≡ P.ffn st' s (st.slabs.memsz s) P.coreid)
        × CoreOk st' P.coreid (ss ++ ts) (update objs s (h ∷ objs s))
        × FreeObjects st' s (h ∷ objs s)
        × Ring st'.links (node_of s list_off) []
        × PutBack st h s (ss ++ s ∷ ts) st'
  unfolding local_free retire put_back
  retire-CoreOk ss ts ok all =
      let (r, l, alone) = freelist_rem-Listed ss s ts ok.listed in
      let fl : ℕ × Links = (first (ss ++ ts), ps_list_rem st.links s list_off) in
      (
        set_fl counted P.coreid fl,
        rw (full, ==_self (max_nobjs P), r) refl,
        set_fl-CoreOk fl l
            (λ t j. FreeObjects-same refl refl (put_free t (λ other. ok.free t (was t j))))
            (λ t j. put_some_free t (λ other. ok.some_free t (was t j))),
        FreeObjects-same (set_fl-headers counted P.coreid fl) (set_fl-slabs counted P.coreid fl)
            after_put,
        subst (λ k. Ring k (node_of s list_off) []) (sym (set_fl-links counted P.coreid fl)) alone,
        record {
          same_headers = set_fl-headers counted P.coreid fl;
          same_slabs = set_fl-slabs counted P.coreid fl;
          same_parsecs = set_fl-parsecs counted P.coreid fl;
          same_smr = λ c. set_fl-smr counted P.coreid fl c ∙ counted_smr c;
          same_remote = λ c. set_fl-remote counted P.coreid fl c ∙ counted_remote c;
          beside = λ t ne o a.
              rw (set_fl-links counted P.coreid fl) (rem_beside t a ss s ts ok.listed ne);
        },
      )
    where
      si : SlabInfo
      si = slab_info_of st P.coreid

      counted : State E
      counted =
          set_slab_info (put_back st h s) P.coreid
            (record si { nslabs = (si.nslabs + 2 ^ 64 - 1) % 2 ^ 64 })

      counted_smr : (c : ℕ) → smr_info_of counted c ≡ smr_info_of st c
      counted_smr c = ground arith

      counted_remote : (c : ℕ) → (counted.percore c).slab_remote ≡ (st.percore c).slab_remote
      counted_remote c = ground arith

      full : (put_back st h s).slabs.nfree s ≡ max_nobjs P
      full = omega (arith, after_put.count)

      was : (t : ℕ) → has t (ss ++ ts) ≡ true → has t (ss ++ s ∷ ts) ≡ true
      was t j = ground (arith, has-append t ss ts, has-append t ss (s ∷ ts))
