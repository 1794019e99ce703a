-- ===== src/Parsec/Results.antt =====
-- What the results of `ps_quiesce` mean.
use ps.Base.{refl, inl, inr, ltb, Bool-cases, ◌⊎◌, Bool, ◌∙◌, ℕ, ◌+◌, ◌%◌, ◌≤◌, ◌<◌, ◌≡◌, arith}
use ps.Parsec.{Parsec, timing_of, ps_in_lib}
use ps.Parsec.Quiesce.{
  failure, Ret, ps_quiesce, running, success, Frame, returned, cap_min, quiesce_finish, recheck,
  quiesce_step,
}
use ps.Parsec.Invariant.Defs.{FrameOk}

-- A `break` out of the loop leaves `*qsc` as it was.
finish-break :
    (n : ℕ) (ps : Parsec) (f : Frame) → f.i < n → quiesce_finish n ps f ≡ returned ps success f.qsc
unfolding quiesce_finish
finish-break n ps f h = ground arith

module _ {n now : ℕ} {ps : Parsec} {f : Frame} (p : Parsec) (q : ℕ) (ok : FrameOk n now ps f) where
  open ok use {low, high, inlib, checked, min_check, qsc_le}

  finish-known :
      1 < n
      → f.i ≡ n
      → quiesce_finish n ps f ≡ returned p success q
      → f.time_check ≤ (timing_of p f.cpu).last_known_quiescence
  unfolding quiesce_finish cap_min ps_in_lib
  finish-known many e r = ground (arith, min_check (omega arith))

  recheck-known :
      (j : ℕ)
      → f.i < n
      → recheck n now ps f j ≡ returned p success q
      → f.time_check ≤ (timing_of p f.cpu).last_known_quiescence
  unfolding recheck
  recheck-known j more r = ground (arith, finish-break n ps f more)

  -- A round that ends `ps_quiesce` with 0 leaves the core, if there are others, with a last known
  -- quiescence that is not before the time asked for.
  pub success-known :
      1 < n
      → quiesce_step n now ps f ≡ returned p success q
      → f.time_check ≤ (timing_of p f.cpu).last_known_quiescence
  unfolding quiesce_step
  success-known many r = ground (arith, recheck-known ((f.cpu + f.i) % n), finish-known many)

-- A call that began with the frame `first` has come to the frame `f`. Between its rounds the other cores
-- may do anything, so each round finds a state of its own.
pub data Later (n : ℕ) (first : Frame) : Frame → Type 0 where
  begun : Later n first first
  again :
      {f f' : Frame} (now : ℕ) (p p' : Parsec)
      → Later n first f
      → quiesce_step n now p f ≡ running p' f'
      → Later n first f'

-- What stays through a call
abbrev Same : Frame → Frame → Type 0
Same f g = (g.qsc ≡ f.qsc) × (g.cpu ≡ f.cpu) × (g.time_check ≡ f.time_check)

step-Same :
    (n now : ℕ) (p p' : Parsec) (f f' : Frame) → quiesce_step n now p f ≡ running p' f' → Same f f'
unfolding quiesce_step recheck quiesce_finish
step-Same n now p p' f f' e = ground arith

Later-Same : {n : ℕ} {first f : Frame} → Later n first f → Same first f
Later-Same begun = (refl, refl, refl)
Later-Same (again {f} {f'} now p p' l e) =
    let a = step-Same _ now p p' f f' e in let b = Later-Same l in (a.0 ∙ b.0, a.1 ∙ b.1, a.2 ∙ b.2)

call_sets :
    (ps p : Parsec) (cpu tsc : ℕ) (blocking : Bool) (f : Frame)
    → ps_quiesce ps cpu tsc blocking ≡ running p f
    → (f.qsc ≡ (timing_of ps cpu).last_known_quiescence) × (f.cpu ≡ cpu) × (f.time_check ≡ tsc)
unfolding ps_quiesce
call_sets ps p cpu tsc blocking f e = ground arith

-- The round found `p` and returned in `p'` from the place `i`; `old` is what `*qsc` was, and `tsc` the
-- time asked for. It returned 0 from inside the loop, 0 behind the loop, or -1.
abbrev pub Returns : (n cpu tsc old i : ℕ) (p p' : Parsec) (r : Ret) (q : ℕ) → Type 0
Returns n cpu tsc old i p p' r q =
    ((r ≡ success) × (i < n) × (q ≡ old) × (tsc < (timing_of p cpu).last_known_quiescence))
    ⊎ (((r ≡ success)
          × (n ≤ i)
          × ((q ≡ old)
              ⊎ ((q ≡ (timing_of p' cpu).last_known_quiescence)
                  × ((timing_of p cpu).last_known_quiescence < q))))
        ⊎ ((r ≡ failure) × (i < n) × (q ≡ old)))

finish_returns :
    (n : ℕ) (p p' : Parsec) (f : Frame) (r : Ret) (q : ℕ)
    → quiesce_finish n p f ≡ returned p' r q
    → (r ≡ success)
      × ((q ≡ f.qsc)
          ⊎ ((q ≡ (timing_of p' f.cpu).last_known_quiescence)
              × ((timing_of p f.cpu).last_known_quiescence < q)))
unfolding quiesce_finish
finish_returns n p p' f r q e = ground arith

recheck_returns :
    (n now j : ℕ) (p p' : Parsec) (f : Frame) (r : Ret) (q : ℕ)
    → f.i < n
    → recheck n now p f j ≡ returned p' r q
    → ((r ≡ success) × (q ≡ f.qsc) × (f.time_check < (timing_of p f.cpu).last_known_quiescence))
      ⊎ ((r ≡ failure) × (q ≡ f.qsc))
unfolding recheck
recheck_returns n now j p p' f r q lt e = ground (arith, finish-break n p f lt)

step-Returns :
    (n now : ℕ) (p p' : Parsec) (f : Frame) (r : Ret) (q : ℕ)
    → quiesce_step n now p f ≡ returned p' r q
    → Returns n f.cpu f.time_check f.qsc f.i p p' r q
unfolding quiesce_step
step-Returns n now p p' f r q e = elim (Bool-cases (ltb f.i n)) [
  | inl more ↦
      let lt : f.i < n = ground arith in
      elim (recheck_returns n now ((f.cpu + f.i) % n) p p' f r q lt (rw more at e)) [
        | inl (a, b, c) ↦ inl (a, lt, b, c)
        | inr (a, b) ↦ inr (inr (a, lt, b))
      ]
  | inr last ↦
      let (a, b) = finish_returns n p p' f r q (rw last at e) in inr (inl (a, ground arith, b))
]

-- A call of `ps_quiesce` that goes through its loop, whatever the other cores do between its rounds,
-- returns in one of three ways. It returns 0 from inside the loop, once its core knows of a quiescence
-- after the time asked for, but `*qsc` is the last known quiescence from the start of the call. It returns 0
-- behind the loop, and `*qsc` is that of the start too, or the new, later one that the core has just learnt.
-- It returns -1 from inside the loop, with `*qsc` as at the start.
pub call-Returns :
    {n : ℕ} (ps : Parsec) (cpu tsc : ℕ) (blocking : Bool) {p₀ : Parsec} {first f : Frame} (now : ℕ)
    (p p' : Parsec) (r : Ret) (q : ℕ)
    → ps_quiesce ps cpu tsc blocking ≡ running p₀ first
    → Later n first f
    → quiesce_step n now p f ≡ returned p' r q
    → Returns n cpu tsc (timing_of ps cpu).last_known_quiescence f.i p p' r q
call-Returns {n} ps cpu tsc blocking {p₀} {first} {f} now p p' r q start l e =
    let (a, b, c) = call_sets ps p₀ cpu tsc blocking first start in
    let (a', b', c') = Later-Same l in
    rw (← a, ← a', ← b, ← b', ← c, ← c') (step-Returns n now p p' f r q e)
