-- ===== src/Barrier/Liveness.antt =====
-- Under a fair schedule every core passes the barrier (plat/os/linux/ps_os.c) again and again.
use ps.Base.{
  ltb→lt, inl, inr, ℕ, zero, suc, ◌+◌, ◌*◌, ◌≤◌, ◌<◌, ◌≡◌, ◌≢◌, refl, subst, arith, ltb, ◌==◌,
  ==_self, if◌then◌else◌, Bool-cases, true, false, List, [], ◌∷◌, length, lt_or_le,
}
use native.Mathlib.Decide.{ℕ_discrete}
use native.Mathlib.Nat.{add-mul, one-mul, mul-le-mul_right}
use ps.Barrier.{Pc, outside, scanning, raising, waiting, Barrier, access, meas_barrier, Reach, step}
use ps.Barrier.Progress.{goes_on, CanMove, other_pc, some_moves, still_moves}
use ps.Barrier.Safety.{Inv, Reach-Inv, begun, bounds}
use ps.Ring.Chain.{has}

-- The cores take their steps in the order of the list.
unfoldable pub run : (ncores : ℕ) → Barrier → List ℕ → Barrier
run ncores b [] = b
run ncores b (i ∷ is) = run ncores (meas_barrier ncores b i) is

pub run_all : (ncores : ℕ) → Barrier → List (List ℕ) → Barrier
run_all ncores b [] = b
run_all ncores b (is ∷ rest) = run_all ncores (run ncores b is) rest

abbrev pub Cores : (ncores : ℕ) → List ℕ → Type 0
Cores ncores is = (i : ℕ) → has i is ≡ true → i < ncores

-- In each round every core takes a step, or more than one.
abbrev pub Fair : (ncores : ℕ) → List (List ℕ) → Type 0
Fair ncores [] = Unit
Fair ncores (is ∷ rest) =
    Cores ncores is × ((i : ℕ) → i < ncores → has i is ≡ true) × Fair ncores rest

place : ℕ → Pc → ℕ
place n outside = 0
place n (scanning k v) = if ltb k n then k else n
place n (raising v) = 1
place n (waiting v) = 2

-- How far a core has come
done : ℕ → (calls : ℕ) → Pc → ℕ
done n c p = c * (n + 2) + place n p

total : ℕ → (ℕ → ℕ) → ℕ
total zero f = 0
total (suc n) f = f n + total n f

total_mono : (n : ℕ) (f g : ℕ → ℕ) → ((i : ℕ) → i < n → f i ≤ g i) → total n f ≤ total n g
unfolding total
total_mono zero f g le = omega arith
total_mono (suc n) f g le =
    omega (arith, le n (omega arith), total_mono n f g (λ i h. le i (omega arith)))

total_strict :
    (n : ℕ) (f g : ℕ → ℕ) (i : ℕ)
    → i < n
    → f i < g i
    → ((j : ℕ) → j < n → f j ≤ g j)
    → total n f < total n g
unfolding total
total_strict zero f g i h lt le = absurd (omega arith)
total_strict (suc n) f g i h lt le = elim (ℕ_discrete i n) [
  | yes e ↦
      let at : f n < g n = subst (λ x. f x < g x) e lt in
      omega (arith, at, total_mono n f g (λ j g. le j (omega arith)))
  | no ne ↦
      omega (
        arith,
        le n (omega arith),
        total_strict n f g i (omega arith) lt (λ j g. le j (omega arith)),
      )
]

total_bound : (n : ℕ) (f : ℕ → ℕ) (m : ℕ) → ((i : ℕ) → i < n → f i ≤ m) → total n f ≤ n * m
unfolding total
total_bound zero f m le = omega arith
total_bound (suc n) f m le = omega (
  arith,
  le n (omega arith),
  total_bound n f m (λ i h. le i (omega arith)),
  add-mul 1 n m,
  one-mul m,
)

place-lt : (n : ℕ) (p : Pc) → 0 < n → place n p < n + 2
unfolding place
place-lt n outside pos = omega arith
place-lt n (scanning k v) pos = ground arith
place-lt n (raising v) pos = omega arith
place-lt n (waiting v) pos = omega arith

has_head : (i : ℕ) (is : List ℕ) → has i (i ∷ is) ≡ true
has_head i is = rw (==_self i) refl

has_tail : (i j : ℕ) (is : List ℕ) → has i is ≡ true → has i (j ∷ is) ≡ true
has_tail i j is h = ground arith

has_later : (i j : ℕ) (is : List ℕ) → i ≢ j → has i (j ∷ is) ≡ true → has i is ≡ true
has_later i j is ne h = ground arith

begun-le : (p : Pc) (c : ℕ) → begun p c ≤ suc c
begun-le outside c = omega arith
begun-le (scanning k v) c = omega arith
begun-le (raising v) c = omega arith
begun-le (waiting v) c = omega arith

module _ (n : ℕ) (pos : 0 < n) where
  work : Barrier → ℕ
  work b = total n (λ i. done n (b.calls i) (b.pc i))

  other_calls : (b : Barrier) (i j : ℕ) → i ≢ j → (p : Pc) → (access n b j p).calls i ≡ b.calls i
  unfolding access
  other_calls b i j ne outside = refl
  other_calls b i j ne (scanning k v) = ground arith
  other_calls b i j ne (raising v) = refl
  other_calls b i j ne (waiting v) = ground arith

  left_more : (c : ℕ) (p : Pc) → done n c p < done n (suc c) outside
  unfolding done place
  left_more c p = omega (arith, place-lt n p pos, add-mul 1 c (n + 2), one-mul (n + 2))

  done_bound : (k : ℕ) (p : Pc) (c : ℕ) → k ≤ c → done n k p ≤ suc c * (n + 2)
  unfolding done
  done_bound k p c le =
      omega
        (arith, place-lt n p pos, mul-le-mul_right (n + 2) le, add-mul 1 c (n + 2), one-mul (n + 2))

  scan_first : (c v : ℕ) → done n c outside < done n c (scanning 1 v)
  unfolding done place
  scan_first c v = ground (arith, pos)

  scan_more : (c k v : ℕ) → k < n → done n c (scanning k v) < done n c (scanning (suc k) v)
  unfolding done place
  scan_more c k v lt = ground arith

  raise_more : (c v : ℕ) → done n c outside < done n c (raising v)
  unfolding done place
  raise_more c v = omega arith

  wait_more : (c v : ℕ) → done n c (raising v) < done n c (waiting v)
  unfolding done place
  wait_more c v = omega arith

  -- A step of core `j` that does not only spin brings it forward.
  forward :
      (b : Barrier) (j : ℕ) (p : Pc)
      → b.pc j ≡ p
      → goes_on n b.flag p ≡ true
      → done n (b.calls j) p < done n ((access n b j p).calls j) ((access n b j p).pc j)
  unfolding access
  forward b j outside at can = rw (==_self j) (elim (Bool-cases (j == 0)) [
    | inl e ↦ rw e (scan_first (b.calls j) (b.flag j))
    | inr e ↦ rw e (raise_more (b.calls j) (b.flag j))
  ])
  forward b j (scanning k v) at can = elim (Bool-cases (ltb k n)) [
    | inl more ↦
        let differs : (b.flag k == v) ≡ false = ground arith in
        rw (more, differs, ==_self j) (scan_more (b.calls j) k v (ltb→lt k n more))
    | inr last ↦ rw (last, ==_self j) (left_more (b.calls j) (scanning k v))
  ]
  forward b j (raising v) at can = rw (==_self j) (wait_more (b.calls j) v)
  forward b j (waiting v) at can =
      let differs : (b.flag 0 == v) ≡ false = ground arith in
      rw (differs, ==_self j) (left_more (b.calls j) (waiting v))

  spins : (b : Barrier) (j : ℕ) (p : Pc) → goes_on n b.flag p ≡ false → access n b j p ≡ b
  unfolding access
  spins b j outside can = cc
  spins b j (scanning k v) can = ground arith
  spins b j (raising v) can = cc
  spins b j (waiting v) can = ground arith

  step_more :
      (b : Barrier) (j k : ℕ)
      → done n (b.calls k) (b.pc k)
        ≤ done n ((meas_barrier n b j).calls k) ((meas_barrier n b j).pc k)
  unfolding meas_barrier
  step_more b j k = elim (Bool-cases (goes_on n b.flag (b.pc j))) [
    | inr no' ↦ rw (spins b j (b.pc j) no') (omega arith)
    | inl go ↦ elim (ℕ_discrete k j) [
      | yes e ↦ rw e (let f = forward b j (b.pc j) refl go in omega (arith, f))
      | no ne ↦ rw (other_calls b k j ne (b.pc j), other_pc n b k j ne (b.pc j)) (omega arith)
    ]
  ]

  work_mono : (b : Barrier) (j : ℕ) → work b ≤ work (meas_barrier n b j)
  unfolding work
  work_mono b j =
      total_mono n (λ i. done n (b.calls i) (b.pc i))
        (λ i. done n ((meas_barrier n b j).calls i) ((meas_barrier n b j).pc i))
        (λ i h. step_more b j i)

  work_strict : (b : Barrier) (j : ℕ) → j < n → CanMove n b j → work b < work (meas_barrier n b j)
  unfolding work meas_barrier
  work_strict b j h can =
      total_strict n (λ i. done n (b.calls i) (b.pc i))
        (λ i. done n ((meas_barrier n b j).calls i) ((meas_barrier n b j).pc i)) j h
        (forward b j (b.pc j) refl can) (λ i g. step_more b j i)

  run_mono : (b : Barrier) (is : List ℕ) → work b ≤ work (run n b is)
  unfolding run
  run_mono b [] = omega arith
  run_mono b (i ∷ is) = omega (arith, work_mono b i, run_mono (meas_barrier n b i) is)

  run-Reach : {b : Barrier} (is : List ℕ) → Cores n is → Reach n b → Reach n (run n b is)
  unfolding run
  run-Reach [] cores r = r
  run-Reach {b = b} (i ∷ is) cores r =
      run-Reach {b = meas_barrier n b i} is (λ k h. cores k (has_tail k i is h))
        (step i (cores i (has_head i is)) r)

  -- A round in which a core that can move takes a step brings the cores forward.
  round_works :
      {b : Barrier} (is : List ℕ) (i : ℕ)
      → Reach n b
      → Cores n is
      → i < n
      → CanMove n b i
      → has i is ≡ true
      → work b < work (run n b is)
  unfolding run
  round_works [] i r cores h can there = cc
  round_works {b = b} (j ∷ is) i r cores h can there = elim (ℕ_discrete i j) [
    | yes e ↦
        let first = work_strict b j (cores j (has_head j is)) (subst (CanMove n b) e can) in
        omega (arith, first, run_mono (meas_barrier n b j) is)
    | no ne ↦
        let hj = cores j (has_head j is) in
        let rest =
          round_works {b = meas_barrier n b j} is i (step j hj r)
            (λ k g. cores k (has_tail k j is g)) h (still_moves (Reach-Inv r) i j h hj ne can)
            (has_later i j is ne there) in
        omega (arith, work_mono b j, rest)
  ]

  rounds_work :
      {b : Barrier} (ps : List (List ℕ))
      → Reach n b
      → Fair n ps
      → (Reach n (run_all n b ps)) × (work b + length ps ≤ work (run_all n b ps))
  unfolding run_all
  rounds_work [] r fair = (r, omega arith)
  rounds_work {b = b} (is ∷ ps) r (cores, all, fair) =
      let (i, h, can) = some_moves (Reach-Inv r) pos in
      let here = round_works is i r cores h can (all i h) in
      let (reached, rest) = rounds_work {b = run n b is} ps (run-Reach is cores r) fair in
      (reached, omega (arith, here, rest))

  work_bound : {b : Barrier} (c : ℕ) → Inv n b → b.calls 0 ≤ c → work b ≤ n * (suc c * (n + 2))
  unfolding work
  work_bound {b} c ok le =
      total_bound n (λ i. done n (b.calls i) (b.pc i)) (suc c * (n + 2))
        (λ i h. done_bound (b.calls i) (b.pc i) c (omega (arith, (bounds ok i h).0, le)))

-- If every one of the `n` cores takes a step in each round, in any order and any number of times, then
-- after more than `n * ((c + 1) * (n + 2))` rounds every core has completed `c` calls of `meas_barrier`
-- or more, from every state that the cores can reach.
pub each_core_passes :
    {n : ℕ} {b : Barrier} (c : ℕ) (ps : List (List ℕ))
    → Reach n b
    → Fair n ps
    → n * (suc c * (n + 2)) < length ps
    → (i : ℕ) → i < n
    → c ≤ (run_all n b ps).calls i
each_core_passes {n} {b} c ps r fair many i h =
    let pos : 0 < n = omega arith in
    let (reached, worked) = rounds_work n pos ps r fair in
    elim (lt_or_le c ((run_all n b ps).calls 0)) [
      | inl more ↦
          let bd = (bounds (Reach-Inv reached) i h).1 in
          omega (arith, more, bd, begun-le ((run_all n b ps).pc i) ((run_all n b ps).calls i))
      | inr few ↦
          let w = work_bound n pos c (Reach-Inv reached) few in
          absurd (omega (arith, w, worked, many))
    ]
