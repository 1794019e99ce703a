-- ===== src/Slab/Freelist.antt =====
-- The freelist of slabs (`__slab_freelist_add` and `__slab_freelist_rem` of ps_slab.h).
use ps.Base.{
  ℕ, ◌+◌, ◌^◌, ◌<◌, ◌≡◌, ◌≢◌, refl, true, false, some, List, [], ◌∷◌, ◌++◌, arith, ne→==, ==_self,
}
use ps.Ring.{Links, ps_list_ll_empty, ps_list_ll_rem}
use ps.Ring.Chain.{has, has-append, Ring, rotate}
use ps.Ring.Edit.{empty_iff, add-Ring, rem-head, rem-Ring}
use ps.Ring.Object.{node_of, ps_list_rem, ps_list_add}
use ps.Ring.Walk.{nodes, Fit, container-node}
use ps.Slab.{list_off, slab_freelist_add, slab_freelist_rem}

abbrev pub Circle : Links → List ℕ → Type 0
Circle k [] = Unit
Circle k (s ∷ ss) = Ring k (node_of s list_off) (nodes list_off ss)

abbrev pub first : List ℕ → ℕ
first [] = 0
first (s ∷ ss) = s

-- `fl->list` is the first of the slabs `ss`, which make up a circle.
pub record Listed (k : Links) (fl : ℕ) (ss : List ℕ) : Type 0 where
  pub head : fl ≡ first ss
  pub circle : Circle k ss
  pub not_null : has 0 ss ≡ false
  pub fit : Fit list_off ss

pub has-nodes : (s : ℕ) (ss : List ℕ) → has (node_of s list_off) (nodes list_off ss) ≡ has s ss
has-nodes s [] = refl
has-nodes s (t ∷ ss) = ground (arith, has-nodes s ss)

pub nodes-append :
    (ss ts : List ℕ) → nodes list_off (ss ++ ts) ≡ nodes list_off ss ++ nodes list_off ts
nodes-append [] ts = refl
nodes-append (s ∷ ss) ts = rw (nodes-append ss ts)

pub Fit-append : (ss ts : List ℕ) → Fit list_off ss → Fit list_off ts → Fit list_off (ss ++ ts)
Fit-append [] ts f g = g
Fit-append (s ∷ ss) ts f g = (f.0, Fit-append ss ts f.1 g)

pub Fit-split : (ss ts : List ℕ) → Fit list_off (ss ++ ts) → Fit list_off ss × Fit list_off ts
Fit-split [] ts f = (tt, f)
Fit-split (s ∷ ss) ts f = let (a, b) = Fit-split ss ts f.1 in ((f.0, a), b)

-- The second slab comes first, and the first one last.
abbrev pub turn : List ℕ → List ℕ
turn [] = []
turn (s ∷ ss) = ss ++ s ∷ []

has-zero-append : (ss ts : List ℕ) → has 0 ss ≡ false → has 0 ts ≡ false → has 0 (ss ++ ts) ≡ false
has-zero-append ss ts h g = rw (has-append, h, g)

pub singleton-true : {k : Links} (l : ℕ) → Ring k l [] → ps_list_ll_empty k l ≡ true
singleton-true l r = (empty_iff [] r).1 refl

singleton-false :
    {k : Links} (l x : ℕ) (xs : List ℕ) → Ring k l (x ∷ xs) → ps_list_ll_empty k l ≡ false
unfolding ps_list_ll_empty
singleton-false l x xs r = ground (arith, r.chain, r.distinct)

-- `__slab_freelist_add` on a slab of no list passes its asserts. The slab comes first, and the one
-- that was first comes last.
pub freelist_add-Listed :
    {k : Links} {fl : ℕ} (ss : List ℕ) (s : ℕ)
    → Listed k fl ss
    → Ring k (node_of s list_off) []
    → s ≢ 0
    → s + list_off < 2 ^ 64
    → has s ss ≡ false
    → (k' : Links) × (slab_freelist_add k fl s ≡ some (s, k')) × Listed k' s (s ∷ turn ss)
unfolding slab_freelist_add
freelist_add-Listed {k} {fl} [] s l alone ne fits out = (
  k,
  rw (l.head, ne→== s 0 ne, singleton-true (node_of s list_off) alone),
  record { head = refl; circle = alone; not_null = ground arith; fit = (fits, tt) },
)
freelist_add-Listed {k} {fl} (t ∷ ss) s l alone ne fits out = (
  ps_list_add k t s list_off,
  rw (
    l.head,
    ne→== s 0 ne,
    singleton-true (node_of s list_off) alone,
    ne→== s t (ground arith),
    ne→== t 0 (ground (arith, l.not_null)),
  ),
  record {
    head = refl;
    circle = rw (nodes-append ss (t ∷ [])) (
        rotate (node_of t list_off) [] (node_of s list_off) (nodes list_off ss) (
          add-Ring (nodes list_off ss) (node_of s list_off) l.circle
            (rw (has-nodes s (t ∷ ss)) out)));
    not_null = ground (arith, has-append 0 ss (t ∷ []), l.not_null);
    fit = (fits, Fit-append ss (t ∷ []) l.fit.1 (l.fit.0, tt));
  },
)

rem_alone : {k : Links} (l : ℕ) → Ring k l [] → Ring (ps_list_ll_rem k l) l []
unfolding ps_list_ll_rem
rem_alone l r = record { chain = ground arith; distinct = ground arith }

-- `__slab_freelist_rem` takes any slab out of the list and makes it a circle of its own. The others
-- keep their order.
pub freelist_rem-Listed :
    {k : Links} {fl : ℕ} (ss : List ℕ) (s : ℕ) (ts : List ℕ)
    → Listed k fl (ss ++ s ∷ ts)
    → let k' = ps_list_rem k s list_off in
      (slab_freelist_rem k fl s ≡ some (first (ss ++ ts), k'))
      × Listed k' (first (ss ++ ts)) (ss ++ ts)
      × Ring k' (node_of s list_off) []
unfolding slab_freelist_rem
freelist_rem-Listed {k} {fl} [] s [] l = (
  rw (
    l.head,
    ne→== s 0 (ground (arith, l.not_null)),
    ==_self s,
    singleton-true (node_of s list_off) l.circle,
  ),
  record { head = refl; circle = tt; not_null = refl; fit = tt },
  rem_alone (node_of s list_off) l.circle,
)
freelist_rem-Listed {k} {fl} [] s (t ∷ ts) l =
    let (a, b) = rem-head (node_of t list_off) (nodes list_off ts) l.circle in
    (
      rw (
        l.head,
        ne→== s 0 (ground (arith, l.not_null)),
        ==_self s,
        singleton-false (node_of s list_off) (node_of t list_off) (nodes list_off ts) l.circle,
        l.circle.chain.0,
        container-node t list_off l.fit.1.0,
      ),
      record { head = refl; circle = a; not_null = ground (arith, l.not_null); fit = l.fit.1 },
      b,
    )
freelist_rem-Listed {k} {fl} (r ∷ ss) s ts l =
    let (a, b) =
      rem-Ring (nodes list_off ss) (node_of s list_off) (nodes list_off ts)
        (rw (nodes-append ss (s ∷ ts)) at l.circle) in
    (
      rw (l.head, ne→== s 0 ne, ne→== r s apart),
      record {
        head = refl;
        circle = rw (nodes-append ss ts) a;
        not_null = ground (arith, has-append 0 ss (s ∷ ts), has-append 0 ss ts, l.not_null);
        fit = (l.fit.0, let (f, g) = Fit-split ss (s ∷ ts) l.fit.1 in Fit-append ss ts f g.1);
      },
      b,
    )
  where
    ne : s ≢ 0
    ne = ground (arith, has-append 0 ss (s ∷ ts), l.not_null)

    apart : r ≢ s
    apart =
        ground (arith, has-append r ss (s ∷ ts), has-nodes r (ss ++ s ∷ ts), l.circle.distinct.0)
