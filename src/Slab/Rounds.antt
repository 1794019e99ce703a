-- ===== src/Slab/Rounds.antt =====
-- `__ps_slab_mem_remote_process` (ps_slab.c): the nodes in turn, until one had objects to free.
use ps.Base.{
  ◌⊎◌, inl, inr, ℕ, zero, suc, ◌+◌, ◌-◌, ◌%◌, ◌≤◌, ◌<◌, ◌≡◌, ◌≢◌, refl, sym, ◌∙◌, ap, subst, Option,
  some, List, [], length, arith, ne→==, eq→==, lt_or_le, ==_self,
}
use native.Mathlib.Nat.{mod-add-mod, mod-eq_of_lt, mod-eq-sub-mod, mod-lt, add-zero, add-mod_right}
use native.Mathlib.Decide.{ℕ_discrete}
use ps.Memory.{State, slab_info_of, set_slab_info}
use ps.Slab.{SlabParams, num_remote_list}
use ps.Slab.Alloc.{slab_mem_remote_clear, process_loop, slab_mem_remote_process}
use ps.Slab.Frees.{Sizes}
use ps.Slab.Process.{Counted, Fits, Fits-left, entries-Counted}
use ps.Slab.Released.{GivesBack}
use ps.Slab.Remotes.{RemoteOk, Swept, Swept-trans, Swept-info}

next_of : (t d n : ℕ) → ((t + d) % n + 1) % n ≡ (t + suc d) % n
next_of t d n = mod-add-mod (t + d) n 1 ∙ ap (λ (x : ℕ). x % n) (omega arith)

round_ne : (t d n : ℕ) → t < n → 0 < d → d < n → (t + d) % n ≢ t
round_ne t d n lt pos less = elim (lt_or_le (t + d) n) [
  | inl low ↦ λ e. absurd (omega (arith, e, mod-eq_of_lt low))
  | inr high ↦ λ e.
      let small : t + d - n < n = omega arith in
      absurd (omega (arith, e, mod-eq-sub-mod high, mod-eq_of_lt small))
]

module _ {E : Type 0} (P : SlabParams E) (objects : ℕ → List ℕ) (here numaid : ℕ) (sizes : Sizes P)
    (given : GivesBack P.ffn P.coreid) (fuel n : ℕ) where
  -- The nodes from the token on were all empty, or some list was emptied.
  abbrev pub Found : (token : ℕ) (lists left : ℕ → ℕ → List ℕ) → Type 0
  Found token lists left =
      ((j : ℕ) × (k : ℕ) × (lists j k ≢ []) × (left j k ≡ []))
      ⊎ ((m i : ℕ) → m < n → i < num_remote_list → lists ((token + m) % n) i ≡ [])

  abbrev Allowed : (ℕ → ℕ → List ℕ) → Type 0
  Allowed lists = Fits P objects here numaid sizes given fuel lists

  remote_clear-Counted :
      {st : State E} {lists : ℕ → ℕ → List ℕ} (l : ℕ)
      → RemoteOk P objects st lists
      → Allowed lists
      → (c : Counted P objects here numaid sizes given fuel st lists 0
          (slab_mem_remote_clear fuel P here numaid l st))
        × ((i : ℕ) → i < num_remote_list → c.left l i ≡ [])
  unfolding slab_mem_remote_clear
  remote_clear-Counted l r fits =
      let (c, e) =
        entries-Counted P objects here numaid sizes given fuel num_remote_list l 0 (omega arith) r
          fits in
      (c, λ i h. e i (omega arith) h)

  -- The end of the loop
  abbrev Ends : (token : ℕ) (st : State E) (lists : ℕ → ℕ → List ℕ) → Option (ℕ × State E) → Type 0
  Ends token st lists o =
      (st' : State E) × (left : ℕ → ℕ → List ℕ) × (next : ℕ) × (o ≡ some (next, st'))
      × (next < n)
      × Swept P objects st lists st' left
      × Found token lists left

  Found-idle :
      {lists mid left : ℕ → ℕ → List ℕ} (token : ℕ)
      → ((j k : ℕ) → mid j k ≡ lists j k)
      → Found token mid left
      → Found token lists left
  Found-idle token same (inl (j, k, a, b)) = inl (j, k, λ e. a (same j k ∙ e), b)
  Found-idle token same (inr f) = inr (λ m i h g. sym (same ((token + m) % n) i) ∙ f m i h g)

  module _ {st : State E} {lists : ℕ → ℕ → List ℕ} (d token locality : ℕ) (lt : token < n)
      (at : locality ≡ (token + d) % n) (r : RemoteOk P objects st lists) (fits : Allowed lists)
      (seen : (m i : ℕ) → m < d → i < num_remote_list → lists ((token + m) % n) i ≡ []) where
    got :
        (c : Counted P objects here numaid sizes given fuel st lists 0
          (slab_mem_remote_clear fuel P here numaid locality st))
        × ((i : ℕ) → i < num_remote_list → c.left locality i ≡ [])
    got = remote_clear-Counted locality r fits

    next_at : (locality + 1) % n ≡ (token + suc d) % n
    next_at = rw at (next_of token d n)

    next_lt : (locality + 1) % n < n
    next_lt = mod-lt (locality + 1) (omega arith)

    -- Nothing was found here either.
    seen_more :
        got.0.count ≡ 0
        → (m i : ℕ) → m < suc d
        → i < num_remote_list
        → lists ((token + m) % n) i ≡ []
    seen_more z m i h g = elim (ℕ_discrete m d) [
      | yes e ↦
          ap (λ x. lists ((token + x) % n) i) e
          ∙ ap (λ x. lists x i) (sym at)
          ∙ sym (got.0.idle z locality i)
          ∙ got.1 i g
      | no ne ↦ seen m i (omega arith) g
    ]

    found :
        (k : ℕ)
        → got.0.count ≢ 0
        → Ends token st lists (process_loop (suc k) n fuel P here numaid token locality st)
    unfolding process_loop
    found k nz = (
      got.0.last,
      got.0.left,
      (locality + 1) % n,
      rw (got.0.returns, ne→== (0 + got.0.count) 0 (λ z. nz (omega arith))) refl,
      next_lt,
      got.0.swept,
      inl (got.0.busy nz),
    )

    over :
        (k : ℕ)
        → got.0.count ≡ 0
        → d + suc k ≡ n
        → (locality + 1) % n ≡ token
        → Ends token st lists (process_loop (suc k) n fuel P here numaid token locality st)
    unfolding process_loop
    over k z all e = (
      got.0.last,
      got.0.left,
      (locality + 1) % n,
      rw
          (
            got.0.returns,
            eq→== (0 + got.0.count) 0 (omega arith),
            eq→== ((locality + 1) % n) token e,
          )
          refl,
      next_lt,
      got.0.swept,
      inr (λ m i h g. seen_more z m i (omega (arith, last_one)) g),
    )
      where
        last_one : suc d ≡ n
        last_one = elim (ℕ_discrete (suc d) n) [
          | yes same ↦ same
          | no ne ↦
              absurd (round_ne token (suc d) n lt (omega arith) (omega arith) (sym next_at ∙ e))
        ]

    around : suc d ≡ n → (locality + 1) % n ≡ token
    around e = next_at ∙ ap (λ x. (token + x) % n) e ∙ add-mod_right token n ∙ mod-eq_of_lt lt

    go_on :
        (k : ℕ)
        → got.0.count ≡ 0
        → (locality + 1) % n ≢ token
        → process_loop (suc k) n fuel P here numaid token locality st
          ≡ process_loop k n fuel P here numaid token ((locality + 1) % n) got.0.last
    unfolding process_loop
    go_on k z ne =
        rw
          (
            got.0.returns,
            eq→== (0 + got.0.count) 0 (omega arith),
            ne→== ((locality + 1) % n) token ne,
          )
          refl

  process_loop-Ends :
      {st : State E} {lists : ℕ → ℕ → List ℕ} (k d token locality : ℕ)
      → token < n
      → d + suc k ≡ n
      → locality ≡ (token + d) % n
      → RemoteOk P objects st lists
      → Allowed lists
      → ((m i : ℕ) → m < d → i < num_remote_list → lists ((token + m) % n) i ≡ [])
      → Ends token st lists (process_loop (suc k) n fuel P here numaid token locality st)
  process_loop-Ends zero d token locality lt all at r fits seen =
      elim (ℕ_discrete ((got d token locality lt at r fits seen).0.count) 0) [
        | yes z ↦
            over d token locality lt at r fits seen 0 z all
              (around d token locality lt at r fits seen (omega arith))
        | no nz ↦ found d token locality lt at r fits seen 0 nz
      ]
  process_loop-Ends {st} {lists} (suc k) d token locality lt all at r fits seen =
      elim (ℕ_discrete (c.count) 0) [
        | yes z ↦ elim (ℕ_discrete ((locality + 1) % n) token) [
          | yes e ↦ over d token locality lt at r fits seen (suc k) z all e
          | no ne ↦ later z ne (
              process_loop-Ends {st = c.last} {lists = c.left} k (suc d) token ((locality + 1) % n)
                lt (omega arith) (next_at d token locality lt at r fits seen) c.swept.ok
                (Fits-left P objects here numaid sizes given fuel c.swept.fewer fits)
                (λ m i h g.
                  c.idle z ((token + m) % n) i
                  ∙ seen_more d token locality lt at r fits seen z m i h g))
        ]
        | no nz ↦ found d token locality lt at r fits seen (suc k) nz
      ]
    where
      c :
          Counted P objects here numaid sizes given fuel st lists 0
            (slab_mem_remote_clear fuel P here numaid locality st)
      c = (got d token locality lt at r fits seen).0

      later :
          c.count ≡ 0
          → (locality + 1) % n ≢ token
          → Ends token c.last c.left
              (process_loop (suc k) n fuel P here numaid token ((locality + 1) % n) c.last)
          → Ends token st lists (process_loop (suc (suc k)) n fuel P here numaid token locality st)
      later z ne (st', left, next, q, h, sw, f) = (
        st',
        left,
        next,
        go_on d token locality lt at r fits seen (suc k) z ne ∙ q,
        h,
        Swept-trans P objects r c.swept sw,
        Found-idle token (c.idle z) f,
      )

  abbrev with_token : State E → ℕ → State E
  with_token st t =
      set_slab_info st P.coreid (record (slab_info_of st P.coreid) { remote_token = t })

  -- `__ps_slab_mem_remote_process` ends without a failed `assert`, if each remote list of the core leads
  -- through objects that wait there, and no list is longer than the fuel. Some of the lists, none or all,
  -- are empty afterwards; their objects are marked as free, and all other objects that clients hold stay
  -- held. Either some list that had objects was emptied, or the lists of all nodes, from the token on, had
  -- none. The token names a node again.
  pub remote_process-Swept :
      {st : State E} {lists : ℕ → ℕ → List ℕ}
      → (slab_info_of st P.coreid).remote_token < n
      → RemoteOk P objects st lists
      → ((j k : ℕ) → length (lists j k) ≤ fuel)
      → (st' : State E) × (left : ℕ → ℕ → List ℕ) × (slab_mem_remote_process n fuel P here numaid st
          ≡ some st')
        × Swept P objects st lists st' left
        × ((slab_info_of st' P.coreid).remote_token < n)
        × Found (slab_info_of st P.coreid).remote_token lists left
  unfolding slab_mem_remote_process
  remote_process-Swept {st} {lists} lt r fits =
      let e : suc (n - 1) ≡ n = omega arith in
      let (st', left, next, q, h, s, f) =
        process_loop-Ends {st = st} {lists = lists} (n - 1) 0 token token lt (omega arith)
          (sym (mod-eq_of_lt lt) ∙ ap (λ x. x % n) (sym (add-zero token))) r fits
          (λ m i a b. absurd (omega arith)) in
      (
        with_token st' next,
        left,
        rw (subst (λ x. process_loop x n fuel P here numaid token token st ≡ some (next, st')) e q)
            refl,
        Swept-info P objects (record (slab_info_of st' P.coreid) { remote_token = next }) refl s,
        rw (==_self P.coreid, slab_info_of) h,
        f,
      )
    where
      token : ℕ
      token = (slab_info_of st P.coreid).remote_token
