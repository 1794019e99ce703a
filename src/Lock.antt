-- ===== src/Lock.antt =====
-- The atomic operations and the spin lock of plat/arch/x86/ps_arch_x86_common.h, as the comments there
-- describe them, under every interleaving of the cores.
use ps.Base.{
  ℕ, ◌+◌, ◌%◌, ◌^◌, ◌≡◌, ◌≢◌, sym, ◌∙◌, Bool, true, false, ◌==◌, ==_self, ne→==, ==→eq,
  if◌then◌else◌, update, Bool-cases, inl, inr, arith,
}
use native.Mathlib.Decide.{ℕ_discrete}

-- `ps_cas` on a target: whether it succeeded, and what the target holds then
unfoldable pub ps_cas : (target old updated : ℕ) → Bool × ℕ
ps_cas target old updated = if target == old then (true, updated) else (false, target)

-- `ps_faa`: what the target held, and what it holds then
unfoldable pub ps_faa : (target inc : ℕ) → ℕ × ℕ
ps_faa target inc = (target, (target + inc) % 2 ^ 64)

pub data Pc : Type 0 where
  outside : Pc
  spinning : Pc
  holding : Pc

-- `struct ps_lock`, and where each core is
pub record Lock : Type 0 where
  pub o : ℕ
  pub pc : ℕ → Pc

-- A round of the loop of `ps_lock_take`
unfoldable pub spin : Lock → ℕ → Lock
spin l i =
    let r = ps_cas l.o 0 1 in
    record { o = r.1; pc = update l.pc i (if r.0 then holding else spinning) }

pub data Step : Lock → Lock → Type 0 where
  take : {l : Lock} (i : ℕ) → l.pc i ≡ outside → Step l (record l { pc = update l.pc i spinning })
  swap : {l : Lock} (i : ℕ) → l.pc i ≡ spinning → Step l (spin l i)
  release :
      {l : Lock} (i : ℕ) → l.pc i ≡ holding → Step l (record { o = 0; pc = update l.pc i outside })

-- `ps_lock_init`, with every core outside
abbrev pub ps_lock_init : Lock
ps_lock_init = record { o = 0; pc = λ i. outside }

pub data Reach : Lock → Type 0 where
  start : Reach ps_lock_init
  step : {l l' : Lock} → Reach l → Step l l' → Reach l'

-- Cores that hold the lock are one core, and it is marked as taken.
record Inv (l : Lock) : Type 0 where
  pub one : (i j : ℕ) → l.pc i ≡ holding → l.pc j ≡ holding → i ≡ j
  pub taken : (i : ℕ) → l.pc i ≡ holding → l.o ≢ 0

-- A core that comes to a place where it does not hold the lock
leaves :
    (f : ℕ → Pc) (i : ℕ) (p : Pc)
    → p ≢ holding
    → (j : ℕ) → update f i p j ≡ holding
    → (j ≢ i) × (f j ≡ holding)
leaves f i p ne j e = elim (ℕ_discrete j i) [
  | yes same ↦ absurd (ne (rw (same, ==_self i) at e))
  | no other ↦ (other, rw (ne→== j i other) at e)
]

only_pc :
    {l : Lock} (i : ℕ) (p : Pc) → p ≢ holding → Inv l → Inv (record l { pc = update l.pc i p })
only_pc {l} i p ne ok = record {
  one = λ j k e f. ok.one j k (leaves l.pc i p ne j e).1 (leaves l.pc i p ne k f).1;
  taken = λ j e. ok.taken j (leaves l.pc i p ne j e).1;
}

spin-Inv : (l : Lock) (i : ℕ) → Inv l → Inv (spin l i)
unfolding spin ps_cas
spin-Inv l i ok = elim (Bool-cases (l.o == 0)) [
  | inl vacant ↦ rw vacant (record {
    one = λ j k e f. mine vacant j e ∙ sym (mine vacant k f);
    taken = λ j e. omega arith;
  })
  | inr shut ↦ rw shut (only_pc i spinning (λ b. cc) ok)
]
  where
    mine : (l.o == 0) ≡ true → (j : ℕ) → update l.pc i holding j ≡ holding → j ≡ i
    mine vacant j e = elim (ℕ_discrete j i) [
      | yes same ↦ same
      | no other ↦ absurd (ok.taken j (rw (ne→== j i other) at e) (==→eq l.o 0 vacant))
    ]

release-Inv :
    (l : Lock) (i : ℕ)
    → l.pc i ≡ holding
    → Inv l
    → Inv (record { o = 0; pc = update l.pc i outside })
release-Inv l i h ok = record {
  one = λ j k e f. ok.one j k (left j e).1 (left k f).1;
  taken = λ j e. absurd ((left j e).0 (ok.one j i (left j e).1 h));
}
  where
    left : (j : ℕ) → update l.pc i outside j ≡ holding → (j ≢ i) × (l.pc j ≡ holding)
    left j e = leaves l.pc i outside (λ b. cc) j e

Step-Inv : {l l' : Lock} → Step l l' → Inv l → Inv l'
Step-Inv (take i e) ok = only_pc i spinning (λ b. cc) ok
Step-Inv {l} (swap i e) ok = spin-Inv l i ok
Step-Inv {l} (release i e) ok = release-Inv l i e ok

Reach-Inv : {l : Lock} → Reach l → Inv l
Reach-Inv start = record { one = λ i j e f. cc; taken = λ i e. cc }
Reach-Inv (step r s) = Step-Inv s (Reach-Inv r)

-- In every interleaving, while one core is between `ps_lock_take` and `ps_lock_release` the lock is
-- marked as taken, and no other core is there.
pub mutual_exclusion :
    {l : Lock} → Reach l → (i j : ℕ) → i ≢ j → l.pc i ≡ holding → (l.o ≢ 0) × (l.pc j ≢ holding)
mutual_exclusion r i j ne h = let ok = Reach-Inv r in (ok.taken i h, λ e. ne (ok.one i j h e))
