-- ===== src/Tests/Schedule.antt =====
-- Reachable states of the cores of ps_smr.c by evaluation, for a given order of their actions.
use ps.Base.{ℕ, ◌<◌, ◌≡◌, refl, Bool, true, false, List, foldl}
use native.Mathlib.Decide.{dec_lt}
use ps.Parsec.{timing_of, ps_in_lib}
use ps.Parsec.Quiesce.{max_tsc}
use ps.Parsec.System.{
  Pc, idle, quiescing, got, System, Step, enter, leave, call, round, resume, Reach, start, later,
}

pub data Action : Type 0 where
  into : ℕ → Action
  out_of : ℕ → Action
  quiesce : (c tsc : ℕ) → Action
  go : ℕ → Action

pub record Run (n t : ℕ) : Type 0 where
  pub last : System
  pub open last use *
  pub reach : Reach n t last

module _ {n t : ℕ} (r : Run n t) (c : ℕ) (lt : c < n) where
  extend : {u : System} → Step n r.last u → Run n t
  extend {u} st = record { last = u; reach = later r.reach st }

  turn_into : Run n t
  unfolding extend dec_lt
  turn_into = from (r.pc c) refl (ps_in_lib (timing_of r.last.ps c)) refl
    where
      from : (p : Pc) → r.pc c ≡ p → (b : Bool) → ps_in_lib (timing_of r.last.ps c) ≡ b → Run n t
      from idle e false o = elim (dec_lt r.last.now max_tsc) [
        | yes h ↦ extend (enter c lt e o h)
        | no _ ↦ r
      ]
      from _ e _ o = r

  turn_out_of : Run n t
  unfolding extend
  turn_out_of = from (r.pc c) refl (ps_in_lib (timing_of r.last.ps c)) refl
    where
      from : (p : Pc) → r.pc c ≡ p → (b : Bool) → ps_in_lib (timing_of r.last.ps c) ≡ b → Run n t
      from idle e true o = extend (leave c lt e o)
      from _ e _ o = r

  turn_quiesce : ℕ → Run n t
  unfolding extend
  turn_quiesce tsc = from (r.pc c) refl
    where
      from : (p : Pc) → r.pc c ≡ p → Run n t
      from idle e = extend (call c tsc false lt e)
      from _ e = r

  turn_go : Run n t
  unfolding extend dec_lt
  turn_go = from (r.pc c) refl
    where
      from : (p : Pc) → r.pc c ≡ p → Run n t
      from (quiescing f) e = elim (dec_lt r.last.now max_tsc) [
        | yes h ↦ extend (round c f lt e h)
        | no _ ↦ r
      ]
      from (got q s) e = extend (resume c q s lt e)
      from _ e = r

turn : {n t : ℕ} → Run n t → Action → Run n t
unfolding turn_into turn_out_of turn_quiesce turn_go dec_lt
turn {n} r (into c) = elim (dec_lt c n) [ yes lt ↦ turn_into r c lt | no _ ↦ r ]
turn {n} r (out_of c) = elim (dec_lt c n) [ yes lt ↦ turn_out_of r c lt | no _ ↦ r ]
turn {n} r (quiesce c tsc) = elim (dec_lt c n) [ yes lt ↦ turn_quiesce r c lt tsc | no _ ↦ r ]
turn {n} r (go c) = elim (dec_lt c n) [ yes lt ↦ turn_go r c lt | no _ ↦ r ]

unfoldable pub run : (n t : ℕ) → List Action → Run n t
unfolding turn
run n t = foldl turn (record { last = _; reach = start })
