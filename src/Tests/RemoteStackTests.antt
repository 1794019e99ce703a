-- ===== src/Tests/RemoteStackTests.antt =====
-- A run of the stacks of remotely freed objects, and their theorems at it.
use ps.Base.{ℕ, ◌≡◌, refl, arith, [], ◌∷◌, true}
use ps.Queue.Fifo.{PathToNull}
use ps.RemoteStack.{
  idle, Stack, Reach, push, push_load, push_link, push_swap, remove, remove_load, remove_swap,
  start, step, push_cas, remove_cas, got, held, in_stack,
}
use ps.RemoteStack.Safety.{reach-Path, got-Path}
use ps.Ring.Chain.{has, Distinct}

-- Core 0 pushes its header 1000, and core 1 takes what is there.
pushed : (s : Stack) × Reach s × (s.pc 1 ≡ idle) × (s.top ≡ 1000) × (s.spec ≡ 1000 ∷ [])
unfolding push_cas
pushed = (
  _,
  step
      (step
        (step (step (start (λ c. 0) (λ c. 0)) (push 0 1000 refl refl (omega arith)))
          (push_load 0 1000 refl))
        (push_link 0 1000 0 refl))
      (push_swap 0 1000 0 refl),
  refl,
  refl,
  refl,
)

reach-Path_example :
    let s = pushed.0 in
    PathToNull s.next s.top s.spec
    × Distinct s.spec
    × ((c : ℕ) → has c s.spec ≡ true → s.place c ≡ in_stack)
reach-Path_example = reach-Path pushed.1

taken : (s : Stack) × Reach s × (s.pc 1 ≡ got 1000 (1000 ∷ []))
unfolding pushed push_cas remove_cas
taken = (
  _,
  step (step (step pushed.1 (remove 1 refl)) (remove_load 1 refl)) (remove_swap 1 1000 refl),
  refl,
)

got-Path_example :
    let s = taken.0 in
    PathToNull s.next 1000 (1000 ∷ [])
    × Distinct (1000 ∷ [])
    × ((c : ℕ) → has c (1000 ∷ []) ≡ true → s.place c ≡ held 1)
got-Path_example = got-Path 1 1000 (1000 ∷ []) taken.1 taken.2
