-- ===== src/Ring/Apart.antt =====
-- A node in a circle of its own stays in it when other circles change (ps_list.h).
use ps.Base.{ℕ, ◌≡◌, ◌≢◌, List, [], ◌∷◌, arith, ap, sym, ◌∙◌}
use ps.Ring.{Links, ps_list_ll_add, ps_list_ll_rem}
use ps.Ring.Chain.{Chain, Ring}

Chain-end : (k : Links) (a : ℕ) (xs : List ℕ) (b : ℕ) → Chain k a xs b → k.n (k.p b) ≡ b
Chain-end k a [] b (e, f) = ap k.n f ∙ e
Chain-end k a (x ∷ xs) b (e, f, c) = Chain-end k x xs b c

Chain-start : (k : Links) (a : ℕ) (xs : List ℕ) (b : ℕ) → Chain k a xs b → k.p (k.n a) ≡ a
Chain-start k a [] b (e, f) = ap k.p e ∙ f
Chain-start k a (x ∷ xs) b (e, f, c) = ap k.p e ∙ f

module _ {k : Links} (t : ℕ) (alone : Ring k t []) where
  pub add_apart :
      (l new : ℕ) (xs : List ℕ)
      → Ring k l xs
      → t ≢ l
      → t ≢ new
      → l ≢ new
      → Ring (ps_list_ll_add k l new) t []
  unfolding ps_list_ll_add
  add_apart l new xs r nl nn ne =
      let other : k.n l ≢ t =
        λ e. nl (sym alone.chain.1 ∙ ap k.p (sym e) ∙ Chain-start k l xs l r.chain) in
      record {
        chain = (ground (arith, alone.chain), ground (arith, alone.chain));
        distinct = alone.distinct;
      }

  pub rem_apart : (l : ℕ) (xs : List ℕ) → Ring k l xs → t ≢ l → Ring (ps_list_ll_rem k l) t []
  unfolding ps_list_ll_rem
  rem_apart l xs r nl =
      let after : k.n l ≢ t =
        λ e. nl (sym alone.chain.1 ∙ ap k.p (sym e) ∙ Chain-start k l xs l r.chain) in
      let before : k.p l ≢ t =
        λ e. nl (sym alone.chain.0 ∙ ap k.n (sym e) ∙ Chain-end k l xs l r.chain) in
      record {
        chain = (ground (arith, alone.chain), ground (arith, alone.chain));
        distinct = alone.distinct;
      }
