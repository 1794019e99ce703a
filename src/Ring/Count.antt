-- ===== src/Ring/Count.antt =====
-- Lists of addresses without repetitions, counted.
use ps.Base.{
  ℕ, suc, ◌≤◌, ◌≡◌, ◌≢◌, true, false, List, [], ◌∷◌, arith, length, ◌==◌, if◌then◌else◌, ap,
}
use ps.Ring.Chain.{has, Distinct}

without : ℕ → List ℕ → List ℕ
without c [] = []
without c (y ∷ ys) = if c == y then ys else y ∷ without c ys

length-without : (c : ℕ) (ys : List ℕ) → has c ys ≡ true → length ys ≡ suc (length (without c ys))
unfolding without
length-without c [] h = cc
length-without c (y ∷ ys) h = ground (arith, length-without c ys)

has-without : (c d : ℕ) (ys : List ℕ) → d ≢ c → has d ys ≡ true → has d (without c ys) ≡ true
unfolding without
has-without c d [] ne h = h
has-without c d (y ∷ ys) ne h = ground (arith, has-without c d ys)

has_ne : (a b : ℕ) (xs : List ℕ) → has a xs ≡ false → has b xs ≡ true → b ≢ a
has_ne a b xs o h e = cc (ap (λ c. has c xs) e)

-- A list without repetitions is no longer than one that has its members.
pub length_mono :
    (xs ys : List ℕ)
    → Distinct xs
    → ((c : ℕ) → has c xs ≡ true → has c ys ≡ true)
    → length xs ≤ length ys
length_mono [] ys d sub = omega arith
length_mono (x ∷ xs) ys d sub =
    let rest =
      length_mono xs (without x ys) d.1
        (λ c h. has-without x c ys (has_ne x c xs d.0 h) (sub c (ground arith))) in
    omega (arith, rest, length-without x ys (sub x (ground arith)))
