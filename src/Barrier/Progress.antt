-- ===== src/Barrier/Progress.antt =====
-- In a barrier (plat/os/linux/ps_os.c) some core can always go on, and still can after steps of others.
use ps.Base.{
  ◌⊎◌, inl, inr, ℕ, ◌<◌, ◌≡◌, ◌≢◌, refl, sym, ◌∙◌, ap, subst, arith, ltb, ◌==◌, ne→==, Bool,
  Bool-cases, true, not, ◌&&◌,
}
use native.Mathlib.Decide.{ℕ_discrete}
use ps.Barrier.{Pc, outside, scanning, raising, waiting, Barrier, lnot, access, meas_barrier}
use ps.Barrier.Safety.{flag_of, lnot-ne, Zero, Other, Inv}

-- The core does not only spin.
abbrev pub goes_on : (ncores : ℕ) → (flag : ℕ → ℕ) → Pc → Bool
goes_on ncores flag outside = true
goes_on ncores flag (scanning k v) = not (ltb k ncores && (flag k == v))
goes_on ncores flag (raising v) = true
goes_on ncores flag (waiting v) = not (flag 0 == v)

abbrev pub CanMove : ℕ → Barrier → ℕ → Type 0
CanMove ncores b i = goes_on ncores b.flag (b.pc i) ≡ true

-- A core whose flag has the value of the current barrier can go on.
behind :
    (n : ℕ) (flag : ℕ → ℕ) (r c f : ℕ) (p : Pc)
    → flag 0 ≡ flag_of r
    → Other r c f p
    → f ≡ flag_of r
    → goes_on n flag p ≡ true
behind n flag r c f outside z o e = refl
behind n flag r c f (scanning k v) z o e = absurd o
behind n flag r c f (raising v) z o e = refl
behind n flag r c f (waiting v) z (a, d, inl same) e =
    absurd (lnot-ne v (sym a ∙ e ∙ ap flag_of (sym same) ∙ sym d))
behind n flag r c f (waiting v) z (a, d, inr late) e =
    rw (ne→== (flag 0) v (λ q. lnot-ne v (ap lnot d ∙ ap flag_of late ∙ sym z ∙ q))) refl

-- A step of core `j` leaves the others at their places.
pub other_pc : (n : ℕ) (b : Barrier) (i j : ℕ) → i ≢ j → (p : Pc) → (access n b j p).pc i ≡ b.pc i
unfolding access
other_pc n b i j ne outside = rw (ne→== i j ne) refl
other_pc n b i j ne (scanning k v) = ground arith
other_pc n b i j ne (raising v) = rw (ne→== i j ne) refl
other_pc n b i j ne (waiting v) = ground arith

module _ {ncores : ℕ} {b : Barrier} (ok : Inv ncores b) where
  Zero-or_moves :
      (p : Pc)
      → Zero ncores (b.calls 0) b.flag p
      → (goes_on ncores b.flag p ≡ true) ⊎ ((i : ℕ) × (i < ncores) × CanMove ncores b i)
  Zero-or_moves outside z = inl refl
  Zero-or_moves (scanning k v) z = elim (Bool-cases (ltb k ncores && (b.flag k == v))) [
    | inl stuck ↦
        let lt : k < ncores = ground arith in
        let same : b.flag k ≡ v = ground arith in
        inr (
          k,
          lt,
          behind ncores b.flag (b.calls 0) (b.calls k) (b.flag k) (b.pc k) ok.zero_flag
              (ok.others k z.1 lt) (same ∙ z.0),
        )
    | inr free ↦ inl (rw free refl)
  ]
  Zero-or_moves (raising v) z = absurd z
  Zero-or_moves (waiting v) z = absurd z

  pub some_moves : 0 < ncores → (i : ℕ) × (i < ncores) × CanMove ncores b i
  some_moves pos = elim (Zero-or_moves (b.pc 0) ok.zero_at) [
    | inl go ↦ (0, pos, go)
    | inr found ↦ found
  ]

  -- A step of another core than 0 does not change the flag of a core that has turned it.
  turned_stays :
      (j k : ℕ)
      → j ≢ 0
      → (q : Pc) → Other (b.calls 0) (b.calls j) (b.flag j) q
      → b.flag k ≢ flag_of (b.calls 0)
      → (access ncores b j q).flag k ≡ b.flag k
  unfolding access
  turned_stays j k nz outside o ne = refl
  turned_stays j k nz (scanning m v) o ne = absurd o
  turned_stays j k nz (raising v) o ne = elim (ℕ_discrete k j) [
    | yes e ↦ absurd (ne (ap b.flag e ∙ o.1))
    | no other ↦ rw (ne→== k j other) refl
  ]
  turned_stays j k nz (waiting v) o ne = ground arith

  -- No step changes the flag of core 0 while another core has not turned its own.
  first_stays :
      (j i : ℕ)
      → 0 < i
      → i < ncores
      → j < ncores
      → b.flag i ≡ flag_of (b.calls 0)
      → (q : Pc) → b.pc j ≡ q
      → (access ncores b j q).flag 0 ≡ b.flag 0
  unfolding access
  first_stays j i pos hi hj e outside at = refl
  first_stays j i pos hi hj e (waiting v) at = ground arith
  first_stays j i pos hi hj e (raising v) at = elim (ℕ_discrete j 0) [
    | yes z ↦ absurd (subst (Zero ncores (b.calls 0) b.flag) (ap b.pc (sym z) ∙ at) ok.zero_at)
    | no nz ↦ rw (ne→== 0 j (λ q. nz (sym q))) refl
  ]
  first_stays j i pos hi hj e (scanning k v) at = elim (ℕ_discrete j 0) [
    | yes z ↦
        let at_zero : Zero ncores (b.calls 0) b.flag (scanning k v) =
          subst (Zero ncores (b.calls 0) b.flag) (ap b.pc (sym z) ∙ at) ok.zero_at in
        elim (Bool-cases (ltb k ncores)) [
          | inl more ↦ rw more (ground arith)
          | inr last ↦ absurd (at_zero.2 i pos (ground arith) e)
        ]
    | no nz ↦
        absurd (subst (Other (b.calls 0) (b.calls j) (b.flag j)) at (ok.others j (omega arith) hj))
  ]

  -- A core that waits, and can go on, has the flag of the current barrier.
  late_flag :
      (v c f : ℕ) → Other (b.calls 0) c f (waiting v) → b.flag 0 ≢ v → f ≡ flag_of (b.calls 0)
  late_flag v c f (a, d, inl now) ne = absurd (ne (ok.zero_flag ∙ ap flag_of (sym now) ∙ sym d))
  late_flag v c f (a, d, inr late) ne = a ∙ ap lnot d ∙ ap flag_of late

  -- The place `p` of core `i` lets it go on after a step of core `j`.
  place_moves :
      (i j : ℕ)
      → i < ncores
      → j < ncores
      → i ≢ j
      → (p : Pc) → b.pc i ≡ p
      → goes_on ncores b.flag p ≡ true
      → goes_on ncores (access ncores b j (b.pc j)).flag p ≡ true
  place_moves i j hi hj ne outside at can = refl
  place_moves i j hi hj ne (raising v) at can = refl
  place_moves i j hi hj ne (scanning k v) at can = elim (ℕ_discrete i 0) [
    | yes z ↦
        let at_zero : Zero ncores (b.calls 0) b.flag (scanning k v) =
          subst (Zero ncores (b.calls 0) b.flag) (ap b.pc (sym z) ∙ at) ok.zero_at in
        let nz : j ≢ 0 = λ q. ne (z ∙ sym q) in
        elim (Bool-cases (ltb k ncores)) [
          | inl more ↦
              let d : b.flag k ≢ v = ground arith in
              rw
                (
                  more,
                  turned_stays j k nz (b.pc j) (ok.others j (omega arith) hj)
                      (λ q. d (q ∙ sym at_zero.0)),
                  ne→== (b.flag k) v d,
                )
                refl
          | inr last ↦ rw last refl
        ]
    | no nz ↦
        absurd (subst (Other (b.calls 0) (b.calls i) (b.flag i)) at (ok.others i (omega arith) hi))
  ]
  place_moves i j hi hj ne (waiting v) at can = elim (ℕ_discrete i 0) [
    | yes z ↦ absurd (subst (Zero ncores (b.calls 0) b.flag) (ap b.pc (sym z) ∙ at) ok.zero_at)
    | no nz ↦
        let d : b.flag 0 ≢ v = ground arith in
        let o =
          subst (Other (b.calls 0) (b.calls i) (b.flag i)) at (ok.others i (omega arith) hi) in
        rw
          (
            first_stays j i (omega arith) hi hj (late_flag v (b.calls i) (b.flag i) o d) (b.pc j)
                refl,
            ne→== (b.flag 0) v d,
          )
          refl
  ]

  pub still_moves :
      (i j : ℕ)
      → i < ncores
      → j < ncores
      → i ≢ j
      → CanMove ncores b i
      → CanMove ncores (meas_barrier ncores b j) i
  unfolding meas_barrier
  still_moves i j hi hj ne can =
      rw (other_pc ncores b i j ne (b.pc j)) (place_moves i j hi hj ne (b.pc i) refl can)
