-- ===== src/RemoteStack/Invariant.antt =====
-- The invariant of the stacks of remotely freed objects, and what a step of one core leaves of it.
use ps.Base.{
  subst, ◌∙◌, ℕ, ◌≡◌, ◌≢◌, refl, sym, true, false, ==_self, ne→==, update, Bool-cases, inl, inr, ap,
}
use native.Mathlib.Decide.{ℕ_discrete}
use ps.Queue.Fifo.{PathToNull, path_frame}
use ps.RemoteStack.{
  Pc, idle, push_start, push_loaded, push_linked, remove_start, remove_loaded, got, Place, held,
  pushed_by, in_stack, Stack,
}
use ps.Ring.Chain.{has, Distinct}

-- What core `i` relies on at its place in the code
abbrev pub PcOk : Stack → ℕ → Pc → Type 0
PcOk s i (push_start n) = (s.place n ≡ pushed_by i) × (n ≢ 0)
PcOk s i (push_loaded n t) = (s.place n ≡ pushed_by i) × (n ≢ 0)
PcOk s i (push_linked n t) = (s.place n ≡ pushed_by i) × (n ≢ 0) × (s.next n ≡ t)
PcOk s i (got t ts) =
    PathToNull s.next t ts × Distinct ts × ((c : ℕ) → has c ts ≡ true → s.place c ≡ held i)
PcOk s i _ = Unit

pub record Inv (s : Stack) : Type 0 where
  pub path : PathToNull s.next s.top s.spec
  pub distinct : Distinct s.spec
  pub inside : (c : ℕ) → has c s.spec ≡ true → s.place c ≡ in_stack
  pub pcs : (i : ℕ) → PcOk s i (s.pc i)

-- The steps of one core leave the facts of the others.
abbrev pub Kept : Stack → Stack → ℕ → Type 0
Kept s s' j =
    ((c : ℕ) → s.place c ≡ pushed_by j → (s'.place c ≡ pushed_by j) × (s'.next c ≡ s.next c))
    × ((c : ℕ) → s.place c ≡ held j → (s'.place c ≡ held j) × (s'.next c ≡ s.next c))

pub PcOk-Kept : (s s' : Stack) (j : ℕ) (p : Pc) → Kept s s' j → PcOk s j p → PcOk s' j p
PcOk-Kept s s' j idle k ok = tt
PcOk-Kept s s' j (push_start n) k ok = ((k.0 n ok.0).0, ok.1)
PcOk-Kept s s' j (push_loaded n t) k ok = ((k.0 n ok.0).0, ok.1)
PcOk-Kept s s' j (push_linked n t) k ok = ((k.0 n ok.0).0, ok.1, (k.0 n ok.0).1 ∙ ok.2)
PcOk-Kept s s' j remove_start k ok = tt
PcOk-Kept s s' j (remove_loaded t) k ok = tt
PcOk-Kept s s' j (got t ts) k ok = (
  path_frame s.next s'.next t ts (λ c h. (k.1 c (ok.2 c h)).1) ok.0,
  ok.1,
  λ c h. (k.1 c (ok.2 c h)).0,
)

-- The invariant after a step of core `i`, from what it has to show
module _ {s : Stack} (ok : Inv s) (i : ℕ) (p : Pc) where
  pub moved :
      (s' : Stack)
      → s'.pc ≡ update s.pc i p
      → PcOk s' i p
      → ((j : ℕ) → j ≢ i → Kept s s' j)
      → (j : ℕ) → PcOk s' j (s'.pc j)
  moved s' at mine kept j = rw at (elim (ℕ_discrete j i) [
    | yes e ↦ rw (e, ==_self i) mine
    | no ne ↦ rw (ne→== j i ne) (PcOk-Kept s s' j (s.pc j) (kept j ne) (ok.pcs j))
  ])

  -- Only the place in the code changes.
  pub only_pc :
      PcOk (record s { pc = update s.pc i p }) i p → Inv (record s { pc = update s.pc i p })
  only_pc mine = record {
    path = ok.path;
    distinct = ok.distinct;
    inside = ok.inside;
    pcs =
        moved (record s { pc = update s.pc i p }) refl mine
          (λ j ne. (λ c h. (h, refl), λ c h. (h, refl)));
  }

pub at : {s : Stack} (ok : Inv s) (i : ℕ) (p : Pc) → s.pc i ≡ p → PcOk s i p
at {s} ok i p e = subst (PcOk s i) e (ok.pcs i)

pub outside : {s : Stack} (ok : Inv s) (i n : ℕ) → s.place n ≡ pushed_by i → has n s.spec ≡ false
outside {s} ok i n e = elim (Bool-cases (has n s.spec)) [
  | inl h ↦ absurd (cc (ok.inside n h))
  | inr h ↦ h
]

pub apart : (f : ℕ → Place) (c n : ℕ) (p q : Place) → f c ≡ p → f n ≡ q → p ≢ q → c ≢ n
apart f c n p q e g ne same = ne (sym e ∙ ap f same ∙ g)
