-- ===== src/Slab/Stats.antt =====
-- `ps_slabptr_stats` (ps_slab.c), a core at a time, and the slabs and objects that it counts.
use ps.Base.{
  ap, ◌∙◌, ℕ, zero, suc, ◌+◌, ◌<◌, ◌≡◌, refl, false, Option, none, some, List, [], ◌∷◌, arith,
  length, ◌==◌, ==_self, ne→==, if◌then◌else◌, ◌>>=◌,
}
use ps.Memory.{State, slab_info_of}
use ps.Queue.Fifo.{PathToNull}
use ps.Ring.{Links}
use ps.Ring.Chain.{has, Chain}
use ps.Ring.Object.{node_of, ps_list_next}
use ps.Ring.Walk.{nodes, Fit, container-node}
use ps.Slab.{list_off}
use ps.Slab.Freelist.{has-nodes, Listed}

-- The loop of `__ps_remote_free_cnt` from `t` on; `none` is the end of the fuel. The count stays in an
-- `int` by assumption.
unfoldable pub remote_free_loop : ℕ → (ℕ → ℕ) → (t ret : ℕ) → Option ℕ
remote_free_loop zero next t ret = if t == 0 then some ret else none
remote_free_loop (suc fuel) next t ret =
    let rest = remote_free_loop fuel next (next t) (ret + 1) in if t == 0 then some ret else rest

-- `__ps_remote_free_cnt`
unfoldable pub ps_remote_free_cnt : ℕ → (ℕ → ℕ) → (h : ℕ) → Option ℕ
ps_remote_free_cnt fuel next h = remote_free_loop fuel next h 0

-- The loop of `ps_slabptr_stats` over the slabs of a list, which starts over `fl`: `npartslabs` and
-- `nfree`
unfoldable pub count_slabs :
    ℕ → Links → (nfree_of : ℕ → ℕ) → (fl s npartslabs nfree : ℕ) → Option (ℕ × ℕ)
count_slabs zero k nfree_of fl s npartslabs nfree = none
count_slabs (suc fuel) k nfree_of fl s npartslabs nfree =
    let next = ps_list_next k s list_off in
    let n = npartslabs + 1 in
    let m = nfree + nfree_of s in
    let rest = count_slabs fuel k nfree_of fl next n m in
    if s == 0 then some (npartslabs, nfree) else if next == fl then some (n, m) else rest

-- The entries of one array `remote_frees` below `k`
unfoldable pub count_entries : (k fuel : ℕ) → (ℕ → ℕ) → (ℕ → ℕ) → (nremote : ℕ) → Option ℕ
count_entries zero fuel next entry nremote = some nremote
count_entries (suc k) fuel next entry nremote = do
  n ← count_entries k fuel next entry nremote
  c ← ps_remote_free_cnt fuel next (entry k)
  some (n + c)

-- The arrays of the localities below `j`
unfoldable pub count_remote : (j num_localities fuel : ℕ) → (ℕ → ℕ) → (ℕ → ℕ → ℕ) → Option ℕ
count_remote zero num_localities fuel next remote = some 0
count_remote (suc j) num_localities fuel next remote = do
  n ← count_remote j num_localities fuel next remote
  count_entries num_localities fuel next (remote j) n

-- `percore[i]` of `struct ps_slab_stats`
pub record Stats : Type 0 where
  pub nslabs : ℕ
  pub npartslabs : ℕ
  pub nfree : ℕ
  pub nremote : ℕ

-- The body of the loop of `ps_slabptr_stats` for core `i`
unfoldable pub core_stats :
    {E : Type 0} → (num_localities fuel : ℕ) → State E → (i : ℕ) → Option Stats
core_stats num_localities fuel st i = do
  let fl = (slab_info_of st i).fl
  (npartslabs, nfree) ← count_slabs fuel st.links st.slabs.nfree fl fl 0 0
  nremote ←
      count_remote num_localities num_localities fuel st.headers.next (st.percore i).slab_remote
  some (record {
    nslabs = (slab_info_of st i).nslabs;
    npartslabs = npartslabs;
    nfree = nfree;
    nremote = nremote;
  })

remote_free_loop-length :
    (fuel : ℕ) (next : ℕ → ℕ) (t ret : ℕ) (xs : List ℕ)
    → PathToNull next t xs
    → length xs < fuel
    → remote_free_loop fuel next t ret ≡ some (ret + length xs)
unfolding remote_free_loop
remote_free_loop-length zero next t ret xs p h = absurd (omega arith)
remote_free_loop-length (suc fuel) next t ret [] p h = rw p (ap (λ n. some n) (omega arith))
remote_free_loop-length (suc fuel) next t ret (x ∷ xs) p h =
    rw (p.0, ne→== x 0 p.1)
      (remote_free_loop-length fuel next (next x) (ret + 1) xs p.2 (omega arith)
        ∙ ap (λ n. some n) (omega arith))

-- `__ps_remote_free_cnt` ends, and counts the objects of a remote list.
pub remote_free_cnt-length :
    (next : ℕ → ℕ) (h : ℕ) (xs : List ℕ)
    → PathToNull next h xs
    → ps_remote_free_cnt (length xs + 1) next h ≡ some (length xs)
unfolding ps_remote_free_cnt
remote_free_cnt-length next h xs p =
    remote_free_loop-length (length xs + 1) next h 0 xs p (omega arith)
    ∙ ap (λ n. some n) (omega arith)

abbrev pub sum : (ℕ → ℕ) → List ℕ → ℕ
sum f [] = 0
sum f (x ∷ xs) = f x + sum f xs

abbrev counts : ℕ → ℕ → Option (ℕ × ℕ)
counts n m = some (n, m)

same_counts : {a b c d : ℕ} → a ≡ c → b ≡ d → counts a b ≡ counts c d
same_counts p q = rw (p, q) refl

-- Around the circle from `s` on, through `ss`, back to `fl`
around :
    (fuel : ℕ) (k : Links) (nfree_of : ℕ → ℕ) (fl s n m : ℕ) (ss : List ℕ)
    → Chain k (node_of s list_off) (nodes list_off ss) (node_of fl list_off)
    → Fit list_off (fl ∷ s ∷ ss)
    → has 0 (s ∷ ss) ≡ false
    → has fl ss ≡ false
    → length ss < fuel
    → count_slabs fuel k nfree_of fl s n m ≡ some (n + length (s ∷ ss), m + sum nfree_of (s ∷ ss))
unfolding count_slabs
around zero k nfree_of fl s n m ss c fit nn out h = absurd (omega arith)
around (suc fuel) k nfree_of fl s n m [] c fit nn out h =
    rw (c.0, container-node fl list_off fit.0, ne→== s 0 (ground (arith, nn)), ==_self fl)
      (same_counts (omega arith) (omega arith))
around (suc fuel) k nfree_of fl s n m (x ∷ ss) c fit nn out h =
    rw
      (
        c.0,
        container-node x list_off fit.1.1.0,
        ne→== s 0 (ground (arith, nn)),
        ne→== x fl (ground (arith, out)),
      )
      (around fuel k nfree_of fl x (n + 1) (m + nfree_of s) ss c.2 (fit.0, fit.1.1)
          (ground (arith, nn)) (ground (arith, out)) (omega arith)
        ∙ same_counts (omega arith) (omega arith))

-- `ps_slabptr_stats` finds as many slabs with free objects as the core has on its list, and as many
-- free objects as their counters say.
pub count_slabs-sum :
    {k : Links} {fl : ℕ} (s : ℕ) (ss : List ℕ) (nfree_of : ℕ → ℕ)
    → Listed k fl (s ∷ ss)
    → count_slabs (length (s ∷ ss)) k nfree_of fl fl 0 0
      ≡ some (length (s ∷ ss), sum nfree_of (s ∷ ss))
count_slabs-sum {k} s ss nfree_of l = rw l.head (
    around (length (s ∷ ss)) k nfree_of s s 0 0 ss l.circle.chain (l.fit.0, l.fit) l.not_null
      (rw (has-nodes s ss) at l.circle.distinct.0) (omega arith)
    ∙ same_counts (omega arith) (omega arith))
