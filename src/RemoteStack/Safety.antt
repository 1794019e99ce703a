-- ===== src/RemoteStack/Safety.antt =====
-- The loops keep the stack in order, whatever the other cores do.
use ps.Base.{
  ◌∙◌, ℕ, ◌≡◌, ◌≢◌, refl, sym, true, false, List, [], ◌∷◌, ◌==◌, ==_self, ne→==, ==→eq,
  if◌then◌else◌, update, Bool-cases, inl, inr, arith,
}
use native.Mathlib.Decide.{ℕ_discrete}
use ps.Queue.Fifo.{PathToNull, path_frame}
use ps.RemoteStack.Invariant.{Inv, moved, only_pc, at, outside, apart}
use ps.RemoteStack.{
  idle, push_start, push_loaded, push_linked, remove_start, got, Place, held, pushed_by, in_stack,
  Stack, push_cas, remove_cas, Step, push, push_load, push_link, push_swap, remove, remove_load,
  remove_swap, finish, Reach, start, step,
}
use ps.Ring.Chain.{has, Distinct}

push-Inv :
    {s : Stack} (i n : ℕ)
    → Inv s
    → s.place n ≡ held i
    → n ≢ 0
    → Inv (record s { pc = update s.pc i (push_start n); place = update s.place n (pushed_by i) })
push-Inv {s} i n ok mine ne = record {
  path = ok.path;
  distinct = ok.distinct;
  inside = λ c h. rw (ne→== c n (away c in_stack (ok.inside c h) (λ b. cc))) (ok.inside c h);
  pcs =
      moved ok i (push_start n) s' refl (rw (==_self n) refl, ne)
        (λ j other. (
          λ c h. (rw (ne→== c n (away c (pushed_by j) h (λ b. cc))) h, refl),
          λ c h. (rw (ne→== c n (away c (held j) h (λ b. other cc))) h, refl),
        ));
}
  where
    s' : Stack
    s' = record s { pc = update s.pc i (push_start n); place = update s.place n (pushed_by i) }

    away : (c : ℕ) (p : Place) → s.place c ≡ p → p ≢ held i → c ≢ n
    away c p e = apart s.place c n p (held i) e mine

link-Inv :
    {s : Stack} (i n t : ℕ)
    → Inv s
    → s.pc i ≡ push_loaded n t
    → Inv (record s { next = update s.next n t; pc = update s.pc i (push_linked n t) })
link-Inv {s} i n t ok e = record {
  path =
      path_frame s.next (update s.next n t) s.top s.spec
        (λ c h. rw (ne→== c n (away c in_stack (ok.inside c h) (λ b. cc))) refl) ok.path;
  distinct = ok.distinct;
  inside = ok.inside;
  pcs =
      moved ok i (push_linked n t) s' refl (mine.0, mine.1, rw (==_self n) refl)
        (λ j other. (
          λ c h. (h, rw (ne→== c n (away c (pushed_by j) h (λ b. other cc))) refl),
          λ c h. (h, rw (ne→== c n (away c (held j) h (λ b. cc))) refl),
        ));
}
  where
    s' : Stack
    s' = record s { next = update s.next n t; pc = update s.pc i (push_linked n t) }

    mine : (s.place n ≡ pushed_by i) × (n ≢ 0)
    mine = at ok i (push_loaded n t) e

    away : (c : ℕ) (p : Place) → s.place c ≡ p → p ≢ pushed_by i → c ≢ n
    away c p e = apart s.place c n p (pushed_by i) e mine.0

push_cas-Inv : {s : Stack} (i n t : ℕ) → Inv s → s.pc i ≡ push_linked n t → Inv (push_cas s i n t)
unfolding push_cas
push_cas-Inv {s} i n t ok e = elim (Bool-cases (s.top == t)) [
  | inl same ↦ rw same (record {
    path = (refl, mine.1, rw (mine.2 ∙ sym (==→eq s.top t same)) ok.path);
    distinct = (outside ok i n mine.0, ok.distinct);
    inside = λ c h. elim (ℕ_discrete c n) [
      | yes here ↦ rw (here, ==_self n) refl
      | no ne ↦ rw (ne→== c n ne) (ok.inside c (ground arith))
    ];
    pcs = moved ok i idle s' refl tt (λ j other. (
      λ c h. (rw (ne→== c n (away c (pushed_by j) h (λ b. other cc))) h, refl),
      λ c h. (rw (ne→== c n (away c (held j) h (λ b. cc))) h, refl),
    ));
  })
  | inr other ↦ rw other (only_pc ok i (push_start n) (mine.0, mine.1))
]
  where
    s' : Stack
    s' = record s {
      top = n;
      pc = update s.pc i idle;
      place = update s.place n in_stack;
      spec = n ∷ s.spec;
    }

    mine : (s.place n ≡ pushed_by i) × (n ≢ 0) × (s.next n ≡ t)
    mine = at ok i (push_linked n t) e

    away : (c : ℕ) (p : Place) → s.place c ≡ p → p ≢ pushed_by i → c ≢ n
    away c p e = apart s.place c n p (pushed_by i) e mine.0

remove_cas-Inv : {s : Stack} (i t : ℕ) → Inv s → Inv (remove_cas s i t)
unfolding remove_cas
remove_cas-Inv {s} i t ok = elim (Bool-cases (s.top == t)) [
  | inl same ↦ rw same (record {
    path = refl;
    distinct = tt;
    inside = λ c h. cc;
    pcs =
        moved ok i (got t s.spec) s' refl
          (rw (sym (==→eq s.top t same)) ok.path, ok.distinct, λ c h. rw h refl)
          (λ j other. (
            λ c h. (rw (elsewhere c (pushed_by j) h (λ b. cc)) h, refl),
            λ c h. (rw (elsewhere c (held j) h (λ b. cc)) h, refl),
          ));
  })
  | inr other ↦ rw other (only_pc ok i remove_start tt)
]
  where
    s' : Stack
    s' = record s {
      top = 0;
      pc = update s.pc i (got t s.spec);
      place = λ c. if has c s.spec then held i else s.place c;
      spec = [];
    }

    elsewhere : (c : ℕ) (p : Place) → s.place c ≡ p → p ≢ in_stack → has c s.spec ≡ false
    elsewhere c p e ne = elim (Bool-cases (has c s.spec)) [
      | inl h ↦ absurd (ne (sym e ∙ ok.inside c h))
      | inr h ↦ h
    ]

pub Step-Inv : {s s' : Stack} → Step s s' → Inv s → Inv s'
Step-Inv (push i n e mine ne) ok = push-Inv i n ok mine ne
Step-Inv (push_load i n e) ok = only_pc ok i _ (at ok i _ e)
Step-Inv (push_link i n t e) ok = link-Inv i n t ok e
Step-Inv (push_swap i n t e) ok = push_cas-Inv i n t ok e
Step-Inv (remove i e) ok = only_pc ok i remove_start tt
Step-Inv (remove_load i e) ok = only_pc ok i _ tt
Step-Inv (remove_swap i t e) ok = remove_cas-Inv i t ok
Step-Inv (finish i t ts e) ok = only_pc ok i idle tt

pub Reach-Inv : {s : Stack} → Reach s → Inv s
Reach-Inv (start next owner) = record {
  path = refl;
  distinct = tt;
  inside = λ c h. cc;
  pcs = λ i. tt;
}
Reach-Inv (step r st) = Step-Inv st (Reach-Inv r)

-- In every interleaving of pushes and removals the stack is a path to `NULL` through distinct
-- headers, the list that every push that succeeded has put its header in front of, and every removal
-- has emptied. None of them is with a core.
pub reach-Path :
    {s : Stack}
    → Reach s
    → PathToNull s.next s.top s.spec
      × Distinct s.spec
      × ((c : ℕ) → has c s.spec ≡ true → s.place c ≡ in_stack)
reach-Path r = let ok = Reach-Inv r in (ok.path, ok.distinct, ok.inside)

-- What a removal has returned to core `i` is all that was on the stack, a path to `NULL` through
-- distinct headers, all of which are that core's now.
pub got-Path :
    {s : Stack} (i t : ℕ) (ts : List ℕ)
    → Reach s
    → s.pc i ≡ got t ts
    → PathToNull s.next t ts × Distinct ts × ((c : ℕ) → has c ts ≡ true → s.place c ≡ held i)
got-Path i t ts r e = at (Reach-Inv r) i (got t ts) e
