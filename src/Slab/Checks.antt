-- ===== src/Slab/Checks.antt =====
-- The checks of ps_slab.h under `PS_SLAB_DEBUG`, and that the invariant passes them.
use ps.Base.{
  ◌∙◌, ℕ, zero, suc, ◌+◌, ◌%◌, ◌^◌, ◌<◌, ◌≤◌, ◌≡◌, ◌≢◌, refl, ap, Bool, true, false, not, ◌&&◌,
  List, [], ◌∷◌, arith, length, ◌==◌, ==_self, ne→==, eq→==, if◌then◌else◌,
}
use native.Mathlib.Nat.{mod-eq_of_lt}
use ps.Memory.{State, slab_info_of}
use ps.Queue.Fifo.{PathToNull, path_head}
use ps.Ring.{Links}
use ps.Ring.Chain.{has, Chain}
use ps.Ring.Object.{node_of, ps_list_next, ps_list_prev}
use ps.Ring.Walk.{nodes, Fit, container-node}
use ps.Slab.{SlabParams, list_off}
use ps.Slab.Freelist.{has-nodes}
use ps.Slab.Held.{Core, not_both}
use ps.Slab.Objects.{FreeObjects}

-- The node in front of the end of a chain
abbrev Before : Links → (s : ℕ) → Type 0
Before k s =
    (o : ℕ) × (o + list_off < 2 ^ 64)
    × (k.p (node_of s list_off) ≡ node_of o list_off)
    × (k.n (node_of o list_off) ≡ node_of s list_off)

last-Before :
    (k : Links) (a b : ℕ) (ss : List ℕ)
    → Chain k (node_of a list_off) (nodes list_off ss) (node_of b list_off)
    → Fit list_off (a ∷ ss)
    → Before k b
last-Before k a b [] c fit = (a, fit.0, c.1, c.0)
last-Before k a b (x ∷ ss) c fit = last-Before k x b ss c.2 fit.1

module _ {E : Type 0} where
  -- The loop of `__ps_slab_check_consistency` from `h` on, and its last test. `i` is an `unsigned int`;
  -- `false` is a failed `assert`, or the end of the fuel.
  unfoldable pub check_loop : ℕ → State E → (s h i : ℕ) → Bool
  check_loop zero st s h i = (h == 0) && (i == st.slabs.nfree s)
  check_loop (suc fuel) st s h i =
      let rest = check_loop fuel st s (st.headers.next h) ((i + 1) % 2 ^ 32) in
      if h == 0
      then i == st.slabs.nfree s
      else (st.headers.slab h == s) && (not (st.headers.tsc_free h == 0) && rest)

  -- `__ps_slab_check_consistency`
  unfoldable pub slab_check_consistency : ℕ → State E → (s : ℕ) → Bool
  slab_check_consistency fuel st s = not (s == 0) && check_loop fuel st s (st.slabs.freelist s) 0

  -- The asserts of `__ps_slab_freelist_check` on the slab `s`
  unfoldable pub check_slab : ℕ → State E → (s : ℕ) → Bool
  check_slab fuel st s =
      (not (st.slabs.memory s == 0) && not (st.slabs.freelist s == 0))
      && ((ps_list_prev st.links (ps_list_next st.links s list_off) list_off == s)
          && ((ps_list_next st.links (ps_list_prev st.links s list_off) list_off == s)
              && slab_check_consistency fuel st s))

  -- Its loop, which started over `fl`, with `k` rounds to go at most
  unfoldable pub freelist_check_loop : (k fuel : ℕ) → State E → (fl s : ℕ) → Bool
  freelist_check_loop zero fuel st fl s = false
  freelist_check_loop (suc k) fuel st fl s =
      let next = ps_list_next st.links s list_off in
      let rest = freelist_check_loop k fuel st fl next in
      check_slab fuel st s && (if next == fl then true else rest)

  -- `__ps_slab_freelist_check`
  unfoldable pub slab_freelist_check : (k fuel : ℕ) → State E → (fl : ℕ) → Bool
  slab_freelist_check k fuel st fl = if fl == 0 then true else freelist_check_loop k fuel st fl fl

  check_loop-passes :
      (fuel : ℕ) (st : State E) (s h i : ℕ) (xs : List ℕ)
      → PathToNull st.headers.next h xs
      → ((c : ℕ) → has c xs ≡ true → st.headers.tsc_free c ≢ 0)
      → ((c : ℕ) → has c xs ≡ true → st.headers.slab c ≡ s)
      → i + length xs ≡ st.slabs.nfree s
      → i + length xs < 2 ^ 32
      → length xs ≤ fuel
      → check_loop fuel st s h i ≡ true
  unfolding check_loop
  check_loop-passes zero st s h i [] p m o n lt le =
      rw (eq→== h 0 p) (eq→== i (st.slabs.nfree s) (omega arith))
  check_loop-passes zero st s h i (x ∷ xs) p m o n lt le = absurd (omega arith)
  check_loop-passes (suc fuel) st s h i [] p m o n lt le =
      rw (eq→== h 0 p) (eq→== i (st.slabs.nfree s) (omega arith))
  check_loop-passes (suc fuel) st s h i (x ∷ xs) p m o n lt le =
      rw
        (
          p.0,
          ne→== x 0 p.1,
          eq→== (st.headers.slab x) s (o x (ground arith)),
          ne→== (st.headers.tsc_free x) 0 (m x (ground arith)),
          mod-eq_of_lt {n = i + 1} {m = 2 ^ 32} (omega arith),
        )
        (check_loop-passes fuel st s (st.headers.next x) (i + 1) xs p.2 (λ c j. m c (ground arith))
          (λ c j. o c (ground arith)) (omega arith) (omega arith) (omega arith))

  pub consistency-passes :
      (fuel : ℕ) (st : State E) (s : ℕ) (xs : List ℕ)
      → s ≢ 0
      → FreeObjects st s xs
      → length xs < 2 ^ 32
      → length xs ≤ fuel
      → slab_check_consistency fuel st s ≡ true
  unfolding slab_check_consistency
  consistency-passes fuel st s xs ne f lt le = rw (ne→== s 0 ne) (
      check_loop-passes fuel st s (st.slabs.freelist s) 0 xs f.path f.marked f.owned
        (omega (arith, f.count)) (omega (arith, lt)) le)

  module _ (fuel : ℕ) (st : State E) where
    -- What the slabs of the list are to be like
    abbrev Good : ℕ → Type 0
    Good s =
        (st.slabs.memory s ≢ 0)
        × (st.slabs.freelist s ≢ 0)
        × (slab_check_consistency fuel st s ≡ true)

    slab-passes :
        (s next : ℕ)
        → s + list_off < 2 ^ 64
        → next + list_off < 2 ^ 64
        → Good s
        → st.links.n (node_of s list_off) ≡ node_of next list_off
        → st.links.p (node_of next list_off) ≡ node_of s list_off
        → Before st.links s
        → check_slab fuel st s ≡ true
    unfolding check_slab
    slab-passes s next fit fit' (mem, free, good) to back (o, fit_o, prev, there) =
        rw
          (
            ne→== (st.slabs.memory s) 0 mem,
            ne→== (st.slabs.freelist s) 0 free,
            to,
            container-node next list_off fit',
            back,
            container-node s list_off fit,
            ==_self s,
            prev,
            container-node o list_off fit_o,
            there,
            container-node s list_off fit,
            ==_self s,
            good,
          )
          refl

    loop-passes :
        (k fl s : ℕ) (ss : List ℕ)
        → Chain st.links (node_of s list_off) (nodes list_off ss) (node_of fl list_off)
        → Fit list_off (fl ∷ s ∷ ss)
        → has fl ss ≡ false
        → ((t : ℕ) → has t (s ∷ ss) ≡ true → Good t)
        → Before st.links s
        → length ss < k
        → freelist_check_loop k fuel st fl s ≡ true
    unfolding freelist_check_loop
    loop-passes zero fl s ss c fit out good before le = absurd (omega arith)
    loop-passes (suc k) fl s [] c fit out good before le =
        rw
          (
            slab-passes s fl fit.1.0 fit.0 (good s (ground arith)) c.0 c.1 before,
            c.0,
            container-node fl list_off fit.0,
            ==_self fl,
          )
          refl
    loop-passes (suc k) fl s (x ∷ ss) c fit out good before le =
        rw
          (
            slab-passes s x fit.1.0 fit.1.1.0 (good s (ground arith)) c.0 c.1 before,
            c.0,
            container-node x list_off fit.1.1.0,
            ne→== x fl (ground (arith, out)),
          )
          (loop-passes k fl x ss c.2 (fit.0, fit.1.1) (ground (arith, out))
            (λ t i. good t (ground arith)) (s, fit.1.0, c.1, c.0) (omega arith))

  -- With the invariant of a core and fewer than 2 ^ 32 free objects in each slab on its list,
  -- `__ps_slab_freelist_check` ends and fails no assert, those of `__ps_slab_check_consistency` included.
  -- It takes as many rounds as there are slabs on the list, and for each slab no more than the fuel,
  -- which is not below the number of the slab's free objects.
  pub freelist_check-passes :
      (P : SlabParams E) (all : ℕ → List ℕ) (fuel : ℕ) {st : State E} (ss : List ℕ)
      (objs : ℕ → List ℕ)
      → Core P all st ss objs
      → ((t : ℕ) → has t ss ≡ true → (length (objs t) < 2 ^ 32) × (length (objs t) ≤ fuel))
      → slab_freelist_check (length ss) fuel st (slab_info_of st P.coreid).fl ≡ true
  unfolding slab_freelist_check
  freelist_check-passes P all fuel [] objs a few = rw a.ok.listed.head refl
  freelist_check-passes P all fuel {st = st} (s ∷ ss) objs a few =
      let l = a.ok.listed in
      let c = l.circle.chain in
      rw (l.head, ne→== s 0 (not_zero s (ground arith)))
        (loop-passes fuel st (length (s ∷ ss)) s s ss c (l.fit.0, l.fit)
          (ground (arith, has-nodes s ss, l.circle.distinct.0)) good
          (last-Before st.links s s ss c l.fit) (omega arith))
    where
      not_zero : (t : ℕ) → has t (s ∷ ss) ≡ true → t ≢ 0
      not_zero t i z =
          not_both (has t (s ∷ ss)) i (ap (λ x. has x (s ∷ ss)) z ∙ a.ok.listed.not_null)

      good : (t : ℕ) → has t (s ∷ ss) ≡ true → Good fuel st t
      good t i =
          let f = a.ok.free t i in
          (
            (a.stock t i).has_memory,
            path_head _ _ _ f.path (a.ok.some_free t i),
            consistency-passes fuel st t (objs t) (not_zero t i) f (few t i).0 (few t i).1,
          )
