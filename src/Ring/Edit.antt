-- ===== src/Ring/Edit.antt =====
-- `ps_list_ll_init`, `_empty`, `_add` and `_rem` on circles of nodes.
use ps.Base.{ℕ, ◌≡◌, ◌≢◌, ◌↔◌, refl, true, false, List, [], ◌∷◌, ◌++◌, arith, ap}
use mathlib.Core.List.{append-nil}
use ps.Ring.{Links, ps_list_ll_init, ps_list_ll_empty, ps_list_ll_add, ps_list_ll_rem}
use ps.Ring.Chain.{has, Distinct, Chain, Ring, frame, rotate}

-- `ps_list_ll_init` makes a node a circle of its own.
pub init-Ring : (k : Links) (l : ℕ) → Ring (ps_list_ll_init k l) l []
unfolding ps_list_ll_init
init-Ring k l = record { chain = ground arith; distinct = ground arith }

-- `ps_list_ll_empty` says whether a node is the only one of its circle.
pub empty_iff :
    {k : Links} {h : ℕ} (xs : List ℕ) → Ring k h xs → (ps_list_ll_empty k h ≡ true) ↔ (xs ≡ [])
unfolding ps_list_ll_empty
empty_iff [] r = (λ e. refl, λ e. ground (arith, r.chain))
empty_iff (x ∷ xs) r = (λ e. ground (arith, r.chain, r.distinct), λ e. cc)

-- `ps_list_ll_add` puts a node of no circle right behind the given one.
pub add-Ring :
    {k : Links} {h : ℕ} (xs : List ℕ) (new : ℕ)
    → Ring k h xs
    → has new (h ∷ xs) ≡ false
    → Ring (ps_list_ll_add k h new) h (new ∷ xs)
unfolding ps_list_ll_add
add-Ring [] new r out = record {
  chain = ground (arith, r.chain);
  distinct = ground (arith, r.distinct);
}
add-Ring {k} {h} (x ∷ xs) new r out = record {
  chain = (
    ground arith,
    ground arith,
    (
      ground arith,
      ground (arith, r.chain, r.distinct),
      frame x xs h (λ c i. ground (arith, r.distinct)) (λ c i. ground (arith, r.distinct))
          r.chain.2,
    ),
  );
  distinct = ground (arith, r.distinct);
}

last-mem : (k : Links) (a : ℕ) (xs : List ℕ) (b : ℕ) → Chain k a xs b → has (k.p b) (a ∷ xs) ≡ true
last-mem k a [] b (e, f) = ground arith
last-mem k a (x ∷ xs) b (e, f, c) = ground (arith, last-mem k x xs b c)

-- The last link may be bent to another end.
retarget :
    (k m : Links) (a : ℕ) (xs : List ℕ) (b c : ℕ)
    → Chain k a xs b
    → Distinct (a ∷ xs)
    → has c xs ≡ false
    → m.n (k.p b) ≡ c
    → m.p c ≡ k.p b
    → ((d : ℕ) → d ≢ k.p b → has d (a ∷ xs) ≡ true → m.n d ≡ k.n d)
    → ((d : ℕ) → d ≢ c → has d xs ≡ true → m.p d ≡ k.p d)
    → Chain m a xs c
retarget k m a [] b c (e, f) dis out new_n new_p same_n same_p = (cc, cc)
retarget k m a (x ∷ xs) b c (e, f, ch) dis out new_n new_p same_n same_p = (
  ground (arith, same_n a, last-mem k x xs b ch),
  ground (arith, same_p x),
  retarget k m x xs b c ch dis.1 (ground arith) new_n new_p (λ d ne h. same_n d ne (ground arith))
      (λ d ne h. same_p d ne (ground arith)),
)

ne_of_has : (a b : ℕ) (xs : List ℕ) → has a xs ≡ true → has b xs ≡ false → a ≢ b
ne_of_has a b xs h o e = cc (ap (λ c. has c xs) e)

-- The node that is removed is a circle of its own; the others are one from its successor on.
pub rem-head :
    {k : Links} {h : ℕ} (x : ℕ) (xs : List ℕ)
    → Ring k h (x ∷ xs)
    → Ring (ps_list_ll_rem k h) x xs × Ring (ps_list_ll_rem k h) h []
unfolding ps_list_ll_rem
rem-head {k} {h} x xs r = (
  record {
    chain =
        retarget k (ps_list_ll_rem k h) x xs h x r.chain.2 r.distinct.1 r.distinct.1.0
          (ground (arith, last-ne, r.chain)) (ground (arith, last-ne, r.chain, r.distinct))
          (λ d ne i. ground (arith, r.chain, r.distinct))
          (λ d ne i. ground (arith, r.chain, r.distinct));
    distinct = r.distinct.1;
  },
  record { chain = ground arith; distinct = ground arith },
)
  where
    last-ne : k.p h ≢ h
    last-ne = ne_of_has (k.p h) h (x ∷ xs) (last-mem k x xs h r.chain.2) r.distinct.0

pub rem-Ring :
    {k : Links} {h : ℕ} (xs : List ℕ) (x : ℕ) (ys : List ℕ)
    → Ring k h (xs ++ x ∷ ys)
    → Ring (ps_list_ll_rem k x) h (xs ++ ys) × Ring (ps_list_ll_rem k x) x []
rem-Ring {k} {h} xs x [] r = let (a, b) = rem-head h xs (rotate h xs x [] r) in (rw append-nil a, b)
rem-Ring {k} {h} xs x (y ∷ ys) r =
    let (a, b) = rem-head y (ys ++ h ∷ xs) (rotate h xs x (y ∷ ys) r) in (rotate y ys h xs a, b)

first-mem : (k : Links) (a : ℕ) (xs : List ℕ) (b : ℕ) → Chain k a xs b → has (k.n a) (b ∷ xs) ≡ true
first-mem k a [] b (e, f) = ground arith
first-mem k a (x ∷ xs) b (e, f, c) = ground arith

-- A circle that shares no node with the edited one keeps its links.
module _ {k : Links} {h g : ℕ} (xs ys : List ℕ) (r : Ring k h xs) (q : Ring k g ys)
    (apart : (a : ℕ) → has a (h ∷ xs) ≡ true → has a (g ∷ ys) ≡ false) where
  foreign : (c : ℕ) → has c (g ∷ ys) ≡ true → (c ≢ h) × (c ≢ k.n h) × (c ≢ k.p h)
  foreign c i = (
    ne_of_has c h (g ∷ ys) i (apart h (ground arith)),
    ne_of_has c (k.n h) (g ∷ ys) i (apart (k.n h) (first-mem k h xs h r.chain)),
    ne_of_has c (k.p h) (g ∷ ys) i (apart (k.p h) (last-mem k h xs h r.chain)),
  )

  pub add-frame : (new : ℕ) → has new (g ∷ ys) ≡ false → Ring (ps_list_ll_add k h new) g ys
  unfolding ps_list_ll_add
  add-frame new out = record {
    chain =
        frame g ys g (λ c i. ground (arith, foreign c i, ne_of_has c new (g ∷ ys) i out))
          (λ c i. ground (arith, foreign c i, ne_of_has c new (g ∷ ys) i out)) q.chain;
    distinct = q.distinct;
  }

  pub rem-frame : Ring (ps_list_ll_rem k h) g ys
  unfolding ps_list_ll_rem
  rem-frame = record {
    chain =
        frame g ys g (λ c i. ground (arith, foreign c i)) (λ c i. ground (arith, foreign c i))
          q.chain;
    distinct = q.distinct;
  }

pub init-frame :
    {k : Links} {g : ℕ} (ys : List ℕ) (l : ℕ)
    → Ring k g ys
    → has l (g ∷ ys) ≡ false
    → Ring (ps_list_ll_init k l) g ys
unfolding ps_list_ll_init
init-frame {k} {g} ys l q out = record {
  chain =
      frame g ys g (λ c i. ground (arith, ne_of_has c l (g ∷ ys) i out))
        (λ c i. ground (arith, ne_of_has c l (g ∷ ys) i out)) q.chain;
  distinct = q.distinct;
}
