-- ===== src/Smr/Lifecycle/Delete.antt =====
-- What `__ps_memptr_delete` and `ps_free` of ps_smr.c do to memory and its parallel section.
use ps.Base.{
  inr, inl, lt→ltb, Bool-cases, eq→==, ==→eq, ne→==, ==_self, ℕ, zero, suc, ◌+◌, ◌^◌, ◌≤◌, ◌<◌, ◌≡◌,
  ◌≢◌, ◌↔◌, refl, Bool, true, false, ◌&&◌, ◌||◌, not, some, ◌==◌, if◌then◌else◌, arith,
}
use native.Mathlib.Decide.{ℕ_discrete}
use ps.Memory.{State, smr_info_of, slab_info_of}
use ps.Queue.{ps_qsc_peek}
use ps.Smr.Lifecycle.{
  PlatFree, all_below, init_percore, init_percores, ps_slabptr_isempty, ps_memptr_delete,
  ps_memptr_init, ps_free,
}

and-true : (a b : Bool) → (a && b) ≡ true → (a ≡ true) × (b ≡ true)
and-true a b h = (ground arith, ground arith)

all_below_iff : (n : ℕ) (p : ℕ → Bool) → (all_below n p ≡ true) ↔ ((i : ℕ) → i < n → p i ≡ true)
all_below_iff zero p = (λ e i h. absurd (omega arith), λ f. refl)
all_below_iff (suc n) p =
    let ih = all_below_iff n p in
    (
      λ e i h. elim (ℕ_discrete i n) [
        | yes here ↦ rw here (ground arith)
        | no ne ↦ ih.0 (ground arith) i (omega arith)
      ],
      λ f. rw (f n (omega arith), ih.1 (λ i h. f i (omega arith))) refl,
    )

module _ {E : Type 0} where
  -- What `__ps_memptr_init` leaves: the cores share the parallel section, which counts each of them.
  init_percores-refcnt :
      (n : ℕ) (st : State E) (ps : ℕ)
      → (st.parsecs ps).refcnt + n < 2 ^ 32
      → ((init_percores n st ps).parsecs ps).refcnt ≡ (st.parsecs ps).refcnt + n
  unfolding init_percores init_percore
  init_percores-refcnt zero st ps fits = omega arith
  init_percores-refcnt (suc n) st ps fits =
      rw (==_self ps) (omega (arith, init_percores-refcnt n st ps (omega arith)))

  init_percores-ps :
      (n : ℕ) (st : State E) (ps i : ℕ) → i < n → (smr_info_of (init_percores n st ps) i).ps ≡ ps
  unfolding init_percores init_percore
  init_percores-ps zero st ps i h = absurd (omega arith)
  init_percores-ps (suc n) st ps i h = elim (ℕ_discrete i n) [
    | yes e ↦ rw (e, ==_self n, smr_info_of) refl
    | no ne ↦ rw (ne→== i n ne, smr_info_of) (init_percores-ps n st ps i (omega arith))
  ]

  -- All that `__ps_memptr_delete` looks at is empty.
  pub record Empty (num_cores num_localities : ℕ) (st : State E) : Type 0 where
    pub no_slabs : (i : ℕ) → i < num_cores → (slab_info_of st i).nslabs ≡ 0
    pub no_remote :
        (i j k : ℕ)
        → i < num_cores
        → j < num_localities
        → k < num_localities
        → (st.percore i).slab_remote j k ≡ 0
    pub no_queued : (i : ℕ) → i < num_cores → (smr_info_of st i).qsc_list.head ≡ 0

  isempty_iff :
      (n l : ℕ) (st : State E)
      → (ps_slabptr_isempty n l st ≡ true) ↔ (
          ((i : ℕ) → i < n → (slab_info_of st i).nslabs ≡ 0)
          × ((i j k : ℕ) → i < n → j < l → k < l → (st.percore i).slab_remote j k ≡ 0))
  unfolding ps_slabptr_isempty
  isempty_iff n l st = (
    λ e. (
      λ i h. ==→eq _ _ (and-true _ _ ((all_below_iff n _).0 e i h)).0,
      λ i j k h hj hk. ==→eq _ _ (
          (all_below_iff l _).0
            ((all_below_iff l _).0 (and-true _ _ ((all_below_iff n _).0 e i h)).1 j hj) k hk),
    ),
    λ (f, g). (all_below_iff n _).1 (λ i h. rw (eq→== _ _ (f i h)) (
        (all_below_iff l _).1
          (λ j hj. (all_below_iff l _).1 (λ k hk. eq→== _ _ (g i j k h hj hk))))),
  )

  both_true :
      (a b : Bool) (s s' : State E)
      → (if◌then◌else◌ {A = Bool × State E} (not a || not b) (false, s) (true, s')).0 ≡ true
      → (a ≡ true) × (b ≡ true)
  both_true true true s s' e = (refl, refl)
  both_true true false s s' e = absurd (cc e)
  both_true false b s s' e = absurd (cc e)

  -- `__ps_memptr_delete` on memory with a parallel section returns 0 exactly if no core has slabs or
  -- queued objects, and the entries of the remote lists that it scans are empty.
  pub delete_iff :
      (num_cores num_localities : ℕ) (st : State E)
      → (smr_info_of st 0).ps ≢ 0
      → ((ps_memptr_delete num_cores num_localities st).0 ≡ true)
        ↔ Empty num_cores num_localities st
  unfolding ps_memptr_delete ps_qsc_peek
  delete_iff n l st has_ps = (
    λ e.
        let (a, b) = tests e in
        let (f, g) = (isempty_iff n l st).0 a in
        record {
          no_slabs = f;
          no_remote = g;
          no_queued = λ i h. ==→eq _ _ ((all_below_iff n _).0 b i h);
        },
    λ m.
        rw
          (
            ne→== _ 0 has_ps,
            (isempty_iff n l st).1 (m.no_slabs, m.no_remote),
            (all_below_iff n (λ i. (smr_info_of st i).qsc_list.head == 0)).1
                (λ i h. eq→== _ _ (m.no_queued i h)),
          )
          refl,
  )
    where
      tests :
          (ps_memptr_delete n l st).0 ≡ true
          → (ps_slabptr_isempty n l st ≡ true)
            × (all_below n (λ i. (smr_info_of st i).qsc_list.head == 0) ≡ true)
      tests e = both_true _ _ st _ (rw (ne→== (smr_info_of st 0).ps 0 has_ps) at e)

  counted :
      (n l ps : ℕ) (st : State E)
      → (smr_info_of st 0).ps ≡ ps
      → ps ≢ 0
      → 2 ≤ (st.parsecs ps).refcnt
      → (st.parsecs ps).refcnt < 2 ^ 31
      → let r = ((ps_memptr_delete n l st).1.parsecs ps).refcnt in (1 ≤ r) × (r < 2 ^ 31)
  unfolding ps_memptr_delete
  counted n l ps st here_ps ne many few =
      rw (here_ps, ne→== ps 0 ne)
        (elim (Bool-cases (
          not (ps_slabptr_isempty n l st)
          || not (all_below n λ i. ps_qsc_peek (smr_info_of st i).qsc_list == 0))) [
            | inl h ↦ rw h (omega arith, omega arith)
            | inr h ↦ rw (h, ==_self ps) (omega arith, omega arith)
          ])

  free_fails :
      (plat_free : PlatFree E) (sizeof_parsec here ps : ℕ) (st : State E)
      → 1 ≤ (st.parsecs ps).refcnt
      → (st.parsecs ps).refcnt < 2 ^ 31
      → (ps_free plat_free sizeof_parsec here ps st).0 ≡ false
  unfolding ps_free
  free_fails plat_free sizeof_parsec here ps st h i =
      rw (lt→ltb 0 (st.parsecs ps).refcnt h, lt→ltb (st.parsecs ps).refcnt (2 ^ 31) i) refl

  init_of :
      (n : ℕ) (st st' : State E) (ps : ℕ)
      → ps_memptr_init n st ps ≡ some st'
      → (ps ≢ 0) × (st' ≡ init_percores n st ps)
  unfolding ps_memptr_init
  init_of n st st' ps e = elim (Bool-cases (ps == 0)) [
    | inl h ↦ absurd (cc (rw h at e))
    | inr h ↦ (λ bad. cc (eq→== ps 0 bad), cc (rw h at e))
  ]

  -- With at least two cores, `ps_free` does not return 0 on a parallel section whose only memory has
  -- been set up with `__ps_memptr_init` and deleted again.
  pub init-delete-free :
      (num_cores num_localities : ℕ) (plat_free : PlatFree E) (sizeof_parsec here ps : ℕ)
      (st st' : State E)
      → 2 ≤ num_cores
      → num_cores < 2 ^ 31
      → (st.parsecs ps).refcnt ≡ 0
      → ps_memptr_init num_cores st ps ≡ some st'
      → (ps_free plat_free sizeof_parsec here ps
          (ps_memptr_delete num_cores num_localities st').1).0
        ≡ false
  init-delete-free n l plat_free sizeof_parsec here ps st st' two few fresh e =
      let (ne, is_init) = init_of n st st' ps e in
      let r : ((init_percores n st ps).parsecs ps).refcnt ≡ (st.parsecs ps).refcnt + n =
        init_percores-refcnt n st ps (omega (arith, fresh)) in
      let (some_left, fits) =
        counted n l ps (init_percores n st ps) (init_percores-ps n st ps 0 (omega arith)) ne
          (omega (arith, r, fresh)) (omega (arith, r, fresh)) in
      rw is_init (free_fails plat_free sizeof_parsec here ps _ some_left fits)
