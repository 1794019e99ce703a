-- ===== src/Slab/Unique.antt =====
-- The links and the headers determine a core's list of slabs and the free objects of each (ps_slab.h).
use ps.Base.{ℕ, ◌+◌, ◌≡◌, refl, sym, false, List, [], ◌∷◌, arith, ◌∙◌, subst}
use ps.Queue.Fifo.{PathToNull}
use ps.Ring.{Links}
use ps.Ring.Chain.{has, Chain, Ring}
use ps.Ring.Object.{node_of}
use ps.Ring.Walk.{nodes}
use ps.Slab.{list_off}
use ps.Slab.Freelist.{Listed}

pub path_unique :
    (f : ℕ → ℕ) (a : ℕ) (xs ys : List ℕ) → PathToNull f a xs → PathToNull f a ys → xs ≡ ys
path_unique f a [] [] p q = refl
path_unique f a [] (y ∷ ys) p (e, ne, q) = absurd (ne (sym e ∙ p))
path_unique f a (x ∷ xs) [] (e, ne, p) q = absurd (ne (sym e ∙ q))
path_unique f a (x ∷ xs) (y ∷ ys) (e, _, p) (d, _, q) =
    let same : y ≡ x = sym d ∙ e in
    let rest = path_unique f (f x) xs ys p (subst (λ z. PathToNull f (f z) ys) same q) in cc

Chain-unique :
    (k : Links) (a b : ℕ) (xs ys : List ℕ)
    → Chain k a xs b
    → Chain k a ys b
    → has b xs ≡ false
    → has b ys ≡ false
    → xs ≡ ys
Chain-unique k a b [] [] c d o u = refl
Chain-unique k a b [] (y ∷ ys) c d o u = absurd (ground (arith, c.0, d.0))
Chain-unique k a b (x ∷ xs) [] c d o u = absurd (ground (arith, c.0, d.0))
Chain-unique k a b (x ∷ xs) (y ∷ ys) c d o u =
    let same : y ≡ x = sym d.0 ∙ c.0 in
    let rest =
      Chain-unique k x b xs ys c.2 (subst (λ z. Chain k z ys b) same d.2) (ground arith)
        (ground arith) in
    cc

nodes_unique : (ss ts : List ℕ) → nodes list_off ss ≡ nodes list_off ts → ss ≡ ts
nodes_unique [] [] e = refl
nodes_unique [] (t ∷ ts) e = cc
nodes_unique (s ∷ ss) [] e = cc
nodes_unique (s ∷ ss) (t ∷ ts) e =
    let first_node : s + list_off ≡ t + list_off = cc in
    let other_nodes : nodes list_off ss ≡ nodes list_off ts = cc in
    let same : s ≡ t = omega arith in let rest = nodes_unique ss ts other_nodes in cc

pub Listed-unique :
    {k : Links} {fl : ℕ} (ss ts : List ℕ) → Listed k fl ss → Listed k fl ts → ss ≡ ts
Listed-unique [] [] l m = refl
Listed-unique [] (t ∷ ts) l m = absurd (ground (arith, l.head, m.head, m.not_null))
Listed-unique (s ∷ ss) [] l m = absurd (ground (arith, l.head, m.head, l.not_null))
Listed-unique {k} (s ∷ ss) (t ∷ ts) l m =
    let same : t ≡ s = sym m.head ∙ l.head in
    let r : Ring k (node_of s list_off) (nodes list_off ts) =
      subst (λ z. Ring k (node_of z list_off) (nodes list_off ts)) same m.circle in
    let rest = nodes_unique ss ts (
      Chain-unique k (node_of s list_off) (node_of s list_off) (nodes list_off ss)
        (nodes list_off ts) l.circle.chain r.chain l.circle.distinct.0 r.distinct.0) in
    cc
