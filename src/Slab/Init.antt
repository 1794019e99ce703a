-- ===== src/Slab/Init.antt =====
-- `__ps_slab_init` (ps_slab.c): a new slab, its free objects, and its place in the freelist.
use ps.Base.{
  ap, ℕ, zero, suc, ◌+◌, ◌-◌, ◌*◌, ◌/◌, ◌%◌, ◌^◌, ◌≤◌, ◌<◌, ◌≡◌, ◌≢◌, refl, true, false, some,
  Option, List, [], ◌∷◌, arith, le→leb, ==_self, ne→==,
}
use native.Mathlib.Nat.{div-le_self, div-mul-le_self, le-div_iff_mul-le}
use ps.Header.{Headers, ps_mhead_init, ps_mhead_setfree}
use ps.Memory.{State, slab_info_of}
use ps.Queue.Fifo.{PathToNull}
use ps.Ring.{Links}
use ps.Ring.Chain.{has, Ring}
use ps.Ring.Edit.{init-Ring, init-frame}
use ps.Ring.Object.{node_of, ps_list_init}
use ps.Ring.Walk.{nodes}
use ps.Slab.{
  set_fl, SlabParams, list_off, slab_objmemsz, slab_max_nobjs, slab_freelist_add, carve, slab_init,
}
use ps.Slab.Beside.{freelist_add-beside}
use ps.Slab.Carve.{
  objects, span, span-mul, length-objects, in_objects, Distinct-objects, Carved, carve_one,
  start-Carved,
}
use ps.Slab.Freelist.{Circle, Listed, turn, has-nodes, freelist_add-Listed}
use ps.Slab.Objects.{FreeObjects}
use ps.Word.{rndup_word}

-- The slot of an object is a positive multiple of the word that holds the header and the object.
pub objmemsz_lem :
    (obj_sz : ℕ)
    → obj_sz + 31 < 2 ^ 64
    → (obj_sz + 24 ≤ slab_objmemsz obj_sz) × (slab_objmemsz obj_sz < obj_sz + 32)
unfolding slab_objmemsz
objmemsz_lem obj_sz h = (
  omega (arith, rndup_word ((obj_sz + 24) % 2 ^ 64) (omega arith)),
  omega (arith, rndup_word ((obj_sz + 24) % 2 ^ 64) (omega arith)),
)

init-Circle :
    (k : Links) (ss : List ℕ) (s : ℕ)
    → Circle k ss
    → has s ss ≡ false
    → Circle (ps_list_init k s list_off) ss
init-Circle k [] s c out = tt
init-Circle k (t ∷ ss) s c out =
    init-frame (nodes list_off ss) (node_of s list_off) c (rw (has-nodes s (t ∷ ss)) out)

init-Listed :
    {k : Links} {fl : ℕ} (ss : List ℕ) (s : ℕ)
    → Listed k fl ss
    → has s ss ≡ false
    → Listed (ps_list_init k s list_off) fl ss
init-Listed ss s l out = record {
  head = l.head;
  circle = init-Circle _ ss s l.circle out;
  not_null = l.not_null;
  fit = l.fit;
}

-- Outside of the objects `xs` the headers are the same.
pub record Elsewhere (xs : List ℕ) (hs gs : Headers) : Type 0 where
  pub same_next : (c : ℕ) → has c xs ≡ false → gs.next c ≡ hs.next c
  pub same_tsc : (c : ℕ) → has c xs ≡ false → gs.tsc_free c ≡ hs.tsc_free c
  pub same_slab : (c : ℕ) → has c xs ≡ false → gs.slab c ≡ hs.slab c

-- The loop of `__ps_slab_init` leads from the first object through all of them.
pub record Built (n s sz a : ℕ) (gs : Headers) (end : ℕ) : Type 0 where
  pub stops : end ≡ a + span n sz
  pub path : PathToNull gs.next a (objects n sz a)
  pub marked : (c : ℕ) → has c (objects n sz a) ≡ true → gs.tsc_free c ≢ 0
  pub owned : (c : ℕ) → has c (objects n sz a) ≡ true → gs.slab c ≡ s

Built-of :
    (n s sz a : ℕ) (hs gs : Headers) (end : ℕ)
    → 0 < sz
    → a ≢ 0
    → Carved (suc n) s sz (a + sz) a (carve_one s a a hs) gs end
    → Built (suc (suc n)) s sz a gs end × Elsewhere (objects (suc (suc n)) sz a) hs gs
unfolding ps_mhead_init ps_mhead_setfree
Built-of n s sz a hs gs end pos ne c = (
  record {
    stops = omega (arith, c.stops);
    path = (refl, ne, rw c.enters c.path);
    marked = λ d i. ground (arith, c.marked d, c.same_tsc d);
    owned = λ d i. ground (arith, c.owned d, c.same_slab d);
  },
  record {
    same_next = λ d o. ground (arith, c.same_next d);
    same_tsc = λ d o. ground (arith, c.same_tsc d);
    same_slab = λ d o. ground (arith, c.same_slab d);
  },
)

pub carve-Built :
    (n s sz a : ℕ) (hs : Headers)
    → 2 ≤ n
    → 0 < sz
    → a ≢ 0
    → a + span n sz < 2 ^ 64
    → ((c : ℕ) → has c (objects n sz a) ≡ true → hs.next c ≡ 0)
    → let r = carve n s sz a a hs in Built n s sz a r.0 r.1 × Elsewhere (objects n sz a) hs r.0
carve-Built zero s sz a hs two pos ne fits zeroed = absurd (omega arith)
carve-Built (suc zero) s sz a hs two pos ne fits zeroed = absurd (omega arith)
carve-Built (suc (suc n)) s sz a hs two pos ne fits zeroed =
    Built-of n s sz a hs _ _ pos ne (start-Carved n s sz a hs pos ne fits zeroed)

module _ {E : Type 0} where
  -- What a new slab is like: it comes first in the list of its core, and all its objects are free.
  pub record Fresh (P : SlabParams E) (here s : ℕ) (st : State E) (ss : List ℕ)
      (o : Option (State E)) : Type 0 where
    pub last : State E
    pub returns : o ≡ some last
    pub listed : Listed last.links (slab_info_of last P.coreid).fl (s ∷ turn ss)
    pub free : FreeObjects last s (
        objects
          (slab_max_nobjs P.obj_sz P.allocsz P.headoff)
          (slab_objmemsz P.obj_sz)
          (st.slabs.memory s + P.headoff))
    pub size : last.slabs.memsz s ≡ P.allocsz
    pub home : last.slabs.coreid s ≡ here
    pub elsewhere :
        Elsewhere
          (objects
            (slab_max_nobjs P.obj_sz P.allocsz P.headoff)
            (slab_objmemsz P.obj_sz)
            (st.slabs.memory s + P.headoff))
          st.headers
          last.headers
    pub same_memory : last.slabs.memory ≡ st.slabs.memory
    pub other_slabs :
        (t : ℕ)
        → t ≢ s
        → (last.slabs.coreid t ≡ st.slabs.coreid t)
          × (last.slabs.freelist t ≡ st.slabs.freelist t)
          × (last.slabs.nfree t ≡ st.slabs.nfree t)
    pub beside :
        (t : ℕ)
        → t ≢ s
        → has t ss ≡ false
        → Ring st.links (node_of t list_off) []
        → Ring last.links (node_of t list_off) []

  module _ (P : SlabParams E) (here s : ℕ) (st : State E) (ss : List ℕ)
      (obj_fits : P.obj_sz + 31 < 2 ^ 64) (two : P.headoff + 2 * slab_objmemsz P.obj_sz ≤ P.allocsz)
      (mem_fits : st.slabs.memory s + P.allocsz < 2 ^ 64)
      (mem_not_null : st.slabs.memory s ≢ 0) where
    abbrev sz : ℕ
    sz = slab_objmemsz P.obj_sz

    abbrev n : ℕ
    n = slab_max_nobjs P.obj_sz P.allocsz P.headoff

    abbrev a : ℕ
    a = st.slabs.memory s + P.headoff

    n_is : n ≡ (P.allocsz - P.headoff) / sz
    unfolding slab_max_nobjs
    n_is = ap (λ b. b / slab_objmemsz P.obj_sz) (omega arith)

    pos : 0 < sz
    pos = omega (arith, objmemsz_lem P.obj_sz obj_fits)

    span_fits : span n sz + P.headoff ≤ P.allocsz
    span_fits =
        omega
          (arith, span-mul n sz, div-mul-le_self (P.allocsz - P.headoff) sz, ap (λ m. m * sz) n_is)

    pub two_objects : 2 ≤ n
    two_objects = rw n_is ((le-div_iff_mul-le pos).1 (omega arith))

    few : n < 2 ^ 64
    few = omega (arith, n_is, div-le_self (P.allocsz - P.headoff) sz)

    addr : a % 2 ^ 64 ≡ a
    addr = omega arith

    addr_end : (st.slabs.memory s + P.allocsz) % 2 ^ 64 ≡ st.slabs.memory s + P.allocsz
    addr_end = omega arith

    n_unfolded : (P.allocsz + 2 ^ 64 - P.headoff) % 2 ^ 64 / sz ≡ n
    unfolding slab_max_nobjs
    n_unfolded = refl

    -- `__ps_slab_init` returns, if the slab has room for two objects and its memory is zeroed. Then the
    -- freelist of the slab runs through all objects that fit behind the header, from the lowest to the
    -- highest, and the slab is the first of its core's.
    pub slab_init-Fresh :
        Listed st.links (slab_info_of st P.coreid).fl ss
        → s ≢ 0
        → s + list_off < 2 ^ 64
        → has s ss ≡ false
        → ((c : ℕ)
            → st.slabs.memory s + P.headoff ≤ c
            → c < st.slabs.memory s + P.allocsz
            → st.headers.next c ≡ 0)
        → Fresh P here s st ss (slab_init P here s st)
    unfolding slab_init set_fl
    slab_init-Fresh l ne fits out zeroed =
        rw (n_unfolded, addr, addr_end, le→leb _ _ stops, added.1)
          (record {
            last = _;
            returns = refl;
            listed = rw (==_self P.coreid, slab_info_of) added.2;
            free = record {
              path = rw (==_self s) built.path;
              distinct = Distinct-objects n sz a pos;
              count = rw (==_self s, length-objects n sz a) refl;
              fits = rw (length-objects n sz a) few;
              marked = built.marked;
              owned = built.owned;
            };
            size = rw (==_self s) refl;
            home = rw (==_self s) refl;
            elsewhere = whole.1;
            same_memory = refl;
            other_slabs = λ t other. rw (ne→== t s other) (refl, refl, refl);
            beside = λ t other apart alone.
                freelist_add-beside t (init-frame [] (node_of s list_off) alone (ground arith)) ss s
                  (init-Listed ss s l out) added.1 apart other out;
          })
      where
        whole :
            let r = carve n s sz a a st.headers in
            Built n s sz a r.0 r.1 × Elsewhere (objects n sz a) st.headers r.0
        whole =
            carve-Built n s sz a st.headers two_objects pos (omega arith) (omega (arith, span_fits))
              (λ c i.
                zeroed c (omega (arith, in_objects n sz a c i))
                  (omega (arith, in_objects n sz a c i, span_fits, pos)))

        built : let r = carve n s sz a a st.headers in Built n s sz a r.0 r.1
        built = whole.0

        added :
            (k' : Links) × (slab_freelist_add
                (ps_list_init st.links s list_off)
                (slab_info_of st P.coreid).fl
                s
              ≡ some (s, k'))
            × Listed k' s (s ∷ turn ss)
        added =
            freelist_add-Listed ss s (init-Listed ss s l out)
              (init-Ring st.links (node_of s list_off)) ne fits out

        stops : (carve n s sz a a st.headers).1 ≤ st.slabs.memory s + P.allocsz
        stops = omega (arith, built.stops, span_fits)
