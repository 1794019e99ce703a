-- ===== src/Ring/Walk.antt =====
-- The loops of ps_list.h over the objects of a list.
use ps.Base.{
  ℕ, zero, suc, ◌+◌, ◌^◌, ◌<◌, ◌≡◌, ◌≢◌, true, false, some, List, [], ◌∷◌, foldl, arith, length,
  sym, ◌∙◌,
}
use ps.Ring.{Links}
use ps.Ring.Chain.{has, Chain, Ring}
use ps.Ring.Edit.{rem-Ring}
use ps.Ring.Object.{
  ps_container, node_of, ps_list_next, ps_list_rem, ps_list_is_head, foreach_loop, ps_list_foreach,
  foreach_del_loop, ps_list_foreach_del,
}

-- The nodes of the objects
abbrev pub nodes : ℕ → List ℕ → List ℕ
nodes off [] = []
nodes off (o ∷ os) = node_of o off ∷ nodes off os

-- The list fields of the objects lie in the address space.
abbrev pub Fit : ℕ → List ℕ → Type 0
Fit off [] = Unit
Fit off (o ∷ os) = (o + off < 2 ^ 64) × Fit off os

-- The object of a node is the object that has it.
pub container-node : (o off : ℕ) → o + off < 2 ^ 64 → ps_container (node_of o off) off ≡ o
unfolding ps_container
container-node o off h = omega arith

pub is_head_self : (lh off : ℕ) → ps_list_is_head lh (ps_container lh off) off ≡ true
is_head_self lh off = ground arith

pub is_head_other :
    (lh o off : ℕ)
    → lh < 2 ^ 64
    → o + off < 2 ^ 64
    → lh ≢ node_of o off
    → ps_list_is_head lh o off ≡ false
unfolding ps_container
is_head_other lh o off hl ho ne = ground arith

module _ {ℓ} {S : Type ℓ} (k : Links) (lh off : ℕ) (hl : lh < 2 ^ 64) (body : ℕ → S → S) where
  foreach_loop-foldl :
      (fuel : ℕ) (a : ℕ) (os : List ℕ) (s : S)
      → Chain k a (nodes off os) lh
      → Fit off os
      → has lh (nodes off os) ≡ false
      → length os < fuel
      → foreach_loop fuel k lh off body (ps_container (k.n a) off) s
        ≡ some (foldl (λ s o. body o s) s os)
  unfolding foreach_loop
  foreach_loop-foldl zero a os s c fit out h = absurd (omega arith)
  foreach_loop-foldl (suc fuel) a [] s c fit out h = rw (c.0, is_head_self lh off)
  foreach_loop-foldl (suc fuel) a (o ∷ os) s c fit out h =
      rw (c.0, container-node o off fit.0, is_head_other lh o off hl fit.0 (ground arith))
        (foreach_loop-foldl fuel (node_of o off) os (body o s) c.2 fit.1 (ground arith)
          (omega arith))

  -- `ps_list_foreach` runs its body once on each object of the list, in order.
  pub foreach-foldl :
      (os : List ℕ) (s : S)
      → Ring k lh (nodes off os)
      → Fit off os
      → ps_list_foreach (length os + 1) k lh off body s ≡ some (foldl (λ s o. body o s) s os)
  unfolding ps_list_foreach
  foreach-foldl os s r fit =
      foreach_loop-foldl (length os + 1) lh os s r.chain fit r.distinct.0 (omega arith)

same_first :
    (k m : Links) (a c b : ℕ) (xs : List ℕ) → Chain k a xs b → Chain m c xs b → k.n a ≡ m.n c
same_first k m a e b [] c d = c.0 ∙ sym d.0
same_first k m a e b (x ∷ xs) c d = c.0 ∙ sym d.0

module _ {ℓ} {S : Type ℓ} (lh off : ℕ) (hl : lh < 2 ^ 64) (act : ℕ → S → S) where
  -- A body that removes the object at hand
  abbrev pub drop_each : ℕ → Links → S → Links × S
  drop_each o k s = (ps_list_rem k o off, act o s)

  foreach_del_loop-foldl :
      (fuel : ℕ) (os : List ℕ) (k : Links) (s : S)
      → Ring k lh (nodes off os)
      → Fit off os
      → length os < fuel
      → (k' : Links) × (foreach_del_loop fuel lh off drop_each
            (ps_container (k.n lh) off)
            (ps_list_next k (ps_container (k.n lh) off) off)
            k
            s
          ≡ some (k', foldl (λ s o. act o s) s os))
        × Ring k' lh []
  unfolding foreach_del_loop
  foreach_del_loop-foldl zero os k s r fit h = absurd (omega arith)
  foreach_del_loop-foldl (suc fuel) [] k s r fit h = (k, rw (r.chain.0, is_head_self lh off), r)
  foreach_del_loop-foldl (suc fuel) (o ∷ os) k s r fit h =
      rw (r.chain.0, container-node o off fit.0, is_head_other lh o off hl fit.0 apart, follows)
        (foreach_del_loop-foldl fuel os (ps_list_rem k o off) (act o s) removed.0 fit.1
          (omega arith))
    where
      apart : lh ≢ node_of o off
      apart = ground (arith, r.distinct)

      removed :
          Ring (ps_list_rem k o off) lh (nodes off os)
          × Ring (ps_list_rem k o off) (node_of o off) []
      removed = rem-Ring [] (node_of o off) (nodes off os) r

      follows : k.n (node_of o off) ≡ (ps_list_rem k o off).n lh
      follows =
          same_first k (ps_list_rem k o off) (node_of o off) lh lh (nodes off os) r.chain.2
            removed.0.chain

  -- `ps_list_foreach_del` runs a body that removes the object at hand once on each object of the
  -- list, in order, and leaves the list empty.
  pub foreach_del-foldl :
      (os : List ℕ) (k : Links) (s : S)
      → Ring k lh (nodes off os)
      → Fit off os
      → (k' : Links) × (ps_list_foreach_del (length os + 1) lh off drop_each k s
          ≡ some (k', foldl (λ s o. act o s) s os))
        × Ring k' lh []
  unfolding ps_list_foreach_del
  foreach_del-foldl os k s r fit = foreach_del_loop-foldl (length os + 1) os k s r fit (omega arith)
