-- ===== src/Slab/Beside.antt =====
-- A slab that is on no list stays so when a core's list of slabs changes (ps_slab.h).
use ps.Base.{
  Option, ne→==, none, some, some, ℕ, ◌≡◌, ◌≢◌, refl, sym, ◌∙◌, true, false, List, [], ◌∷◌, ◌++◌,
  arith, subst, if◌then◌else◌, Bool,
}
use ps.Ring.{Links}
use ps.Ring.Apart.{add_apart, rem_apart}
use ps.Ring.Chain.{has, Ring, rotate}
use ps.Ring.Object.{node_of, ps_list_rem, ps_list_add}
use ps.Ring.Walk.{nodes}
use ps.Slab.{slab_freelist_add, slab_freelist_add, list_off}
use ps.Slab.Freelist.{Listed, nodes-append}

nodes_apart : (s t : ℕ) → s ≢ t → node_of s list_off ≢ node_of t list_off
nodes_apart s t ne e = ne (omega arith)

-- The list of slabs may be entered at any of them.
ring_at :
    {k : Links} {fl : ℕ} (ss : List ℕ) (s : ℕ) (ts : List ℕ)
    → Listed k fl (ss ++ s ∷ ts)
    → (xs : List ℕ) × Ring k (node_of s list_off) xs
ring_at [] s ts l = (nodes list_off ts, l.circle)
ring_at (r ∷ ss) s ts l = (
  nodes list_off ts ++ node_of r list_off ∷ nodes list_off ss,
  rotate (node_of r list_off) (nodes list_off ss) (node_of s list_off) (nodes list_off ts)
      (rw (nodes-append ss (s ∷ ts)) at l.circle),
)

result :
    (b : Bool) (s : ℕ) (k k' : Links)
    → if◌then◌else◌ {A = Option (ℕ × Links)} b none (some (s, k)) ≡ some (s, k')
    → k' ≡ k
result true s k k' e = cc
result false s k k' e = cc

module _ {k : Links} {fl : ℕ} (t : ℕ) (alone : Ring k (node_of t list_off) []) where
  pub rem_beside :
      (ss : List ℕ) (s : ℕ) (ts : List ℕ)
      → Listed k fl (ss ++ s ∷ ts)
      → t ≢ s
      → Ring (ps_list_rem k s list_off) (node_of t list_off) []
  rem_beside ss s ts l ne =
      let (xs, r) = ring_at ss s ts l in
      rem_apart (node_of t list_off) alone (node_of s list_off) xs r (nodes_apart t s ne)

  pub add_beside :
      (r : ℕ) (ss : List ℕ) (s : ℕ)
      → Listed k fl (r ∷ ss)
      → t ≢ r
      → t ≢ s
      → r ≢ s
      → Ring (ps_list_add k r s list_off) (node_of t list_off) []
  add_beside r ss s l nr ns ne =
      add_apart (node_of t list_off) alone (node_of r list_off) (node_of s list_off)
        (nodes list_off ss) l.circle (nodes_apart t r nr) (nodes_apart t s ns) (nodes_apart r s ne)

  -- `k'` is the result of `__slab_freelist_add`.
  pub freelist_add-beside :
      {k' : Links} (ss : List ℕ) (s : ℕ)
      → Listed k fl ss
      → slab_freelist_add k fl s ≡ some (s, k')
      → has t ss ≡ false
      → t ≢ s
      → has s ss ≡ false
      → Ring k' (node_of t list_off) []
  unfolding slab_freelist_add
  freelist_add-beside [] s l r o ne out =
      subst (λ m. Ring m (node_of t list_off) []) (sym (result _ s _ _ r ∙ rw l.head refl)) alone
  freelist_add-beside (q ∷ ss) s l r o ne out =
      subst (λ m. Ring m (node_of t list_off) [])
        (sym (result _ s _ _ r ∙ rw (l.head, ne→== q 0 (ground (arith, l.not_null))) refl))
        (add_beside q ss s l (ground arith) ne (ground arith))
