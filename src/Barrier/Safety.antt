-- ===== src/Barrier/Safety.antt =====
-- No core leaves a barrier (plat/os/linux/ps_os.c) before all have come to it.
use ps.Base.{
  ◌⊎◌, inl, inr, ℕ, zero, suc, ◌≤◌, ◌<◌, ◌≡◌, ◌≢◌, refl, sym, ◌∙◌, ap, subst, arith, ltb, ◌==◌,
  ne→==, ==_self, ==→ne, Bool-cases,
}
use native.Mathlib.Decide.{ℕ_discrete}
use ps.Barrier.{
  Pc, outside, scanning, raising, waiting, Barrier, lnot, goto, write, leave, access, meas_barrier,
  Reach, start, step,
}

-- The flag of a core that has passed `r` barriers
abbrev pub flag_of : ℕ → ℕ
flag_of zero = 0
flag_of (suc r) = lnot (flag_of r)

pub lnot-ne : (x : ℕ) → lnot x ≢ x
lnot-ne x e = ground arith

flag_of_bit : (r : ℕ) → (flag_of r ≡ 0) ⊎ (flag_of r ≡ 1)
flag_of_bit zero = inl refl
flag_of_bit (suc r) = ground (arith, flag_of_bit r)

-- What holds of core 0 at its place, if it has passed `r` barriers
abbrev pub Zero : (ncores r : ℕ) (flag : ℕ → ℕ) → Pc → Type 0
Zero ncores r flag outside = Unit
Zero ncores r flag (scanning k initval) =
    (initval ≡ flag_of r) × (0 < k) × ((j : ℕ) → 0 < j → j < k → flag j ≢ flag_of r)
Zero ncores r flag (raising initval) = ⊥
Zero ncores r flag (waiting initval) = ⊥

-- What holds of another core, which has passed `c` barriers and whose flag is `f`
abbrev pub Other : (r c f : ℕ) → Pc → Type 0
Other r c f outside = (c ≡ r) × (f ≡ flag_of r)
Other r c f (scanning k initval) = ⊥
Other r c f (raising initval) = (c ≡ r) × (f ≡ flag_of r) × (initval ≡ flag_of r)
Other r c f (waiting initval) = (f ≡ lnot initval) × (initval ≡ flag_of c) × ((c ≡ r) ⊎ (suc c ≡ r))

pub record Inv (ncores : ℕ) (b : Barrier) : Type 0 where
  pub zero_flag : b.flag 0 ≡ flag_of (b.calls 0)
  pub zero_at : Zero ncores (b.calls 0) b.flag (b.pc 0)
  pub others : (i : ℕ) → 0 < i → i < ncores → Other (b.calls 0) (b.calls i) (b.flag i) (b.pc i)

-- A core whose flag was turned waits in the current barrier.
turned : (r c f : ℕ) (p : Pc) → Other r c f p → f ≢ flag_of r → Other (suc r) c f p
turned r c f outside o ne = absurd (ne o.1)
turned r c f (scanning k v) o ne = o
turned r c f (raising v) o ne = absurd (ne o.1)
turned r c f (waiting v) (e, d, inl same) ne = (e, d, inr (ap suc same))
turned r c f (waiting v) (e, d, inr late) ne = absurd (ne (e ∙ ap lnot d ∙ ap flag_of late))

pos_ne : {i : ℕ} → 0 < i → i ≢ 0
pos_ne pos e = omega arith

Zero-mono :
    (n r : ℕ) (f g : ℕ → ℕ) (p : Pc)
    → ((j : ℕ) → 0 < j → f j ≢ flag_of r → g j ≢ flag_of r)
    → Zero n r f p
    → Zero n r g p
Zero-mono n r f g outside m z = tt
Zero-mono n r f g (scanning k v) m z = (z.0, z.1, λ j pos lt. m j pos (z.2 j pos lt))
Zero-mono n r f g (raising v) m z = z
Zero-mono n r f g (waiting v) m z = z

module _ {ncores : ℕ} {b : Barrier} (ok : Inv ncores b) where
  -- A step of core 0 that leaves its flag and its count alone
  Zero-moves : (p : Pc) → Zero ncores (b.calls 0) b.flag p → Inv ncores (goto b 0 p)
  Zero-moves p z = record {
    zero_flag = ok.zero_flag;
    zero_at = z;
    others = λ i pos lt. rw (ne→== i 0 (pos_ne pos)) (ok.others i pos lt);
  }

  zero_leaves :
      (v : ℕ)
      → v ≡ flag_of (b.calls 0)
      → ((j : ℕ) → 0 < j → j < ncores → b.flag j ≢ flag_of (b.calls 0))
      → Inv ncores (leave (write b 0 (lnot v)) 0)
  zero_leaves v e all = record {
    zero_flag = ap lnot e;
    zero_at = tt;
    others = λ i pos lt.
        rw (ne→== i 0 (pos_ne pos)) (turned _ _ _ _ (ok.others i pos lt) (all i pos lt));
  }

  Zero-step : (p : Pc) → Zero ncores (b.calls 0) b.flag p → Inv ncores (access ncores b 0 p)
  unfolding access
  Zero-step outside z =
      Zero-moves (scanning 1 (b.flag 0))
        (ok.zero_flag, omega arith, λ j pos lt. absurd (omega arith))
  Zero-step (scanning k v) z = elim (Bool-cases (ltb k ncores)) [
    | inl more ↦ rw more (elim (Bool-cases (b.flag k == v)) [
      | inl same ↦ rw same ok
      | inr differs ↦ rw differs (
          Zero-moves (scanning (suc k) v) (
            z.0,
            omega arith,
            λ j pos lt. elim (ℕ_discrete j k) [
              | yes at ↦ λ e. ==→ne (b.flag k) v differs (ap b.flag (sym at) ∙ e ∙ sym z.0)
              | no ne ↦ z.2 j pos (omega arith)
            ],
          ))
    ])
    | inr last ↦ rw last (zero_leaves v z.0 (λ j pos lt. z.2 j pos (ground arith)))
  ]
  Zero-step (raising v) z = absurd z
  Zero-step (waiting v) z = absurd z

  -- A step of another core
  other_moves :
      (i : ℕ) (b' : Barrier)
      → i ≢ 0
      → ((j : ℕ) → j ≢ i → (b'.flag j ≡ b.flag j) × (b'.pc j ≡ b.pc j) × (b'.calls j ≡ b.calls j))
      → Other (b.calls 0) (b'.calls i) (b'.flag i) (b'.pc i)
      → (b.flag i ≢ flag_of (b.calls 0) → b'.flag i ≢ flag_of (b.calls 0))
      → Inv ncores b'
  other_moves i b' ne same o keep = record {
    zero_flag = zero.0 ∙ ok.zero_flag ∙ sym (ap flag_of zero.2);
    zero_at =
        subst (λ r. Zero ncores r b'.flag (b'.pc 0)) (sym zero.2)
          (subst (Zero ncores (b.calls 0) b'.flag) (sym zero.1)
            (Zero-mono ncores (b.calls 0) b.flag b'.flag (b.pc 0) kept ok.zero_at));
    others = λ j pos lt.
        subst (λ r. Other r (b'.calls j) (b'.flag j) (b'.pc j)) (sym zero.2)
          (elim (ℕ_discrete j i) [
            | yes e ↦ subst (λ x. Other (b.calls 0) (b'.calls x) (b'.flag x) (b'.pc x)) (sym e) o
            | no other ↦
                rw ((same j other).0, (same j other).1, (same j other).2) (ok.others j pos lt)
          ]);
  }
    where
      zero : (b'.flag 0 ≡ b.flag 0) × (b'.pc 0 ≡ b.pc 0) × (b'.calls 0 ≡ b.calls 0)
      zero = same 0 (λ e. ne (sym e))

      kept : (j : ℕ) → 0 < j → b.flag j ≢ flag_of (b.calls 0) → b'.flag j ≢ flag_of (b.calls 0)
      kept j pos h = elim (ℕ_discrete j i) [
        | yes e ↦ λ g. keep (λ q. h (ap b.flag e ∙ q)) (ap b'.flag (sym e) ∙ g)
        | no other ↦ λ g. h (sym (same j other).0 ∙ g)
      ]

  other_step :
      (i : ℕ)
      → i ≢ 0
      → (p : Pc) → Other (b.calls 0) (b.calls i) (b.flag i) p
      → Inv ncores (access ncores b i p)
  unfolding access
  other_step i ne outside o = rw (ne→== i 0 ne) (
      other_moves i (goto b i (raising (b.flag i))) ne
        (λ j other. (refl, rw (ne→== j i other) refl, refl)) (rw (==_self i) (o.0, o.1, o.1))
        (λ h. h))
  other_step i ne (scanning k v) o = absurd o
  other_step i ne (raising v) o =
      other_moves i (goto (write b i (lnot v)) i (waiting v)) ne
        (λ j other. (rw (ne→== j i other) refl, rw (ne→== j i other) refl, refl))
        (rw (==_self i) (refl, o.2 ∙ ap flag_of (sym o.0), inl o.0))
        (λ h. rw (==_self i) (λ e. lnot-ne (flag_of (b.calls 0)) (ap lnot (sym o.2) ∙ e)))
  other_step i ne (waiting v) o = elim (Bool-cases (b.flag 0 == v)) [
    | inl same ↦ rw same ok
    | inr differs ↦ rw differs (
        other_moves i (leave b i) ne
          (λ j other. (refl, rw (ne→== j i other) refl, rw (ne→== j i other) refl))
          (rw (==_self i) (left (==→ne (b.flag 0) v differs) (o.2))) (λ h. h))
  ]
    where
      left :
          b.flag 0 ≢ v
          → (b.calls i ≡ b.calls 0) ⊎ (suc (b.calls i) ≡ b.calls 0)
          → (suc (b.calls i) ≡ b.calls 0) × (b.flag i ≡ flag_of (b.calls 0))
      left d (inl now) = absurd (d (ok.zero_flag ∙ ap flag_of (sym now) ∙ sym o.1))
      left d (inr late) = (late, o.0 ∙ ap lnot o.1 ∙ ap flag_of late)

  step-Inv : (i : ℕ) → i < ncores → Inv ncores (meas_barrier ncores b i)
  unfolding meas_barrier
  step-Inv i lt = elim (ℕ_discrete i 0) [
    | yes e ↦
        subst (λ x. Inv ncores (access ncores b x (b.pc x))) (sym e) (Zero-step (b.pc 0) ok.zero_at)
    | no ne ↦ other_step i ne (b.pc i) (ok.others i (omega arith) lt)
  ]

pub Reach-Inv : {ncores : ℕ} {b : Barrier} → Reach ncores b → Inv ncores b
Reach-Inv start = record { zero_flag = refl; zero_at = tt; others = λ i pos lt. (refl, refl) }
Reach-Inv (step cpu lt r) = step-Inv (Reach-Inv r) cpu lt

-- The number of calls that a core has begun
abbrev pub begun : Pc → ℕ → ℕ
begun outside c = c
begun _ c = suc c

begun-Zero : (n r : ℕ) (f : ℕ → ℕ) (p : Pc) → Zero n r f p → r ≤ begun p r
begun-Zero n r f outside z = omega arith
begun-Zero n r f (scanning k v) z = omega arith
begun-Zero n r f (raising v) z = omega arith
begun-Zero n r f (waiting v) z = omega arith

begun-Other : (r c f : ℕ) (p : Pc) → Other r c f p → (c ≤ r) × (r ≤ begun p c)
begun-Other r c f outside o = (omega (arith, o.0), omega (arith, o.0))
begun-Other r c f (scanning k v) o = absurd o
begun-Other r c f (raising v) o = (omega (arith, o.0), omega (arith, o.0))
begun-Other r c f (waiting v) (a, b, inl e) = (omega arith, omega arith)
begun-Other r c f (waiting v) (a, b, inr e) = (omega arith, omega arith)

pub bounds :
    {ncores : ℕ} {b : Barrier}
    → Inv ncores b
    → (i : ℕ) → i < ncores
    → (b.calls i ≤ b.calls 0) × (b.calls 0 ≤ begun (b.pc i) (b.calls i))
bounds {ncores} {b} ok i lt = elim (ℕ_discrete i 0) [
  | yes e ↦
      subst (λ x. (b.calls x ≤ b.calls 0) × (b.calls 0 ≤ begun (b.pc x) (b.calls x))) (sym e)
        (omega arith, begun-Zero ncores (b.calls 0) b.flag (b.pc 0) ok.zero_at)
  | no ne ↦ begun-Other _ _ _ _ (ok.others i (omega arith) lt)
]

-- In every interleaving of any number of calls, no core has completed more calls of `meas_barrier` than
-- each other core has begun.
pub no_early_leave :
    {ncores : ℕ} {b : Barrier}
    → Reach ncores b
    → (i j : ℕ) → i < ncores
    → j < ncores
    → b.calls i ≤ begun (b.pc j) (b.calls j)
no_early_leave r i j hi hj =
    let ok = Reach-Inv r in omega (arith, (bounds ok i hi).0, (bounds ok j hj).1)
