-- ===== src/Ring/Chain.antt =====
-- What a list of ps_list.h stands for: its nodes in order.
use ps.Base.{ℕ, ◌≡◌, refl, Bool, true, false, ◌||◌, List, [], ◌∷◌, ◌++◌, ◌==◌, arith, ◌∙◌}
use ps.Ring.{Links}

-- The address is one of the list.
abbrev pub has : ℕ → List ℕ → Bool
has a [] = false
has a (x ∷ xs) = (a == x) || has a xs

abbrev pub Distinct : List ℕ → Type 0
Distinct [] = Unit
Distinct (x ∷ xs) = (has x xs ≡ false) × Distinct xs

-- From `a` the links lead through `xs` to `b`, and back.
abbrev pub Chain : Links → ℕ → List ℕ → ℕ → Type 0
Chain k a [] b = (k.n a ≡ b) × (k.p b ≡ a)
Chain k a (x ∷ xs) b = (k.n a ≡ x) × (k.p x ≡ a) × Chain k x xs b

-- A circle of distinct nodes, `h` and then `xs`
pub record Ring (k : Links) (h : ℕ) (xs : List ℕ) : Type 0 where
  pub chain : Chain k h xs h
  pub distinct : Distinct (h ∷ xs)

pub has-append : (a : ℕ) (xs ys : List ℕ) → has a (xs ++ ys) ≡ (has a xs || has a ys)
has-append a [] ys = refl
has-append a (x ∷ xs) ys = ground (arith, has-append a xs ys)

-- A chain reads `n` at its start and its nodes, and `p` at its nodes and its end.
pub frame :
    {k m : Links} (a : ℕ) (xs : List ℕ) (b : ℕ)
    → ((c : ℕ) → has c (a ∷ xs) ≡ true → m.n c ≡ k.n c)
    → ((c : ℕ) → has c (b ∷ xs) ≡ true → m.p c ≡ k.p c)
    → Chain k a xs b
    → Chain m a xs b
frame a [] b same_n same_p (e, f) = (same_n a (ground arith) ∙ e, same_p b (ground arith) ∙ f)
frame a (x ∷ xs) b same_n same_p (e, f, c) = (
  same_n a (ground arith) ∙ e,
  same_p x (ground arith) ∙ f,
  frame x xs b (λ c h. same_n c (ground arith)) (λ c h. same_p c (ground arith)) c,
)

pub split :
    (k : Links) (a : ℕ) (xs : List ℕ) (x : ℕ) (ys : List ℕ) (b : ℕ)
    → Chain k a (xs ++ x ∷ ys) b
    → Chain k a xs x × Chain k x ys b
split k a [] x ys b (e, f, c) = ((e, f), c)
split k a (y ∷ xs) x ys b (e, f, c) = let (c₁, c₂) = split k y xs x ys b c in ((e, f, c₁), c₂)

pub join :
    (k : Links) (a : ℕ) (xs : List ℕ) (x : ℕ) (ys : List ℕ) (b : ℕ)
    → Chain k a xs x
    → Chain k x ys b
    → Chain k a (xs ++ x ∷ ys) b
join k a [] x ys b (e, f) d = (e, f, d)
join k a (y ∷ xs) x ys b (e, f, c) d = (e, f, join k y xs x ys b c d)

Distinct-append :
    (xs ys : List ℕ)
    → Distinct xs
    → Distinct ys
    → ((a : ℕ) → has a xs ≡ true → has a ys ≡ false)
    → Distinct (xs ++ ys)
Distinct-append [] ys dx dy apart = dy
Distinct-append (x ∷ xs) ys (o, dx) dy apart = (
  rw (has-append x xs ys, o) (apart x (ground arith)),
  Distinct-append xs ys dx dy (λ a h. apart a (ground arith)),
)

Distinct-split :
    (xs ys : List ℕ)
    → Distinct (xs ++ ys)
    → Distinct xs × Distinct ys × ((a : ℕ) → has a xs ≡ true → has a ys ≡ false)
Distinct-split [] ys d = (tt, d, λ a h. cc)
Distinct-split (x ∷ xs) ys (o, d) =
    let (dx, dy, apart) = Distinct-split xs ys d in
    (
      (ground (arith, has-append x xs ys), dx),
      dy,
      λ a h. ground (arith, apart a, has-append x xs ys),
    )

-- The circle may be entered at any of its nodes.
pub rotate :
    {k : Links} (h : ℕ) (xs : List ℕ) (x : ℕ) (ys : List ℕ)
    → Ring k h (xs ++ x ∷ ys)
    → Ring k x (ys ++ h ∷ xs)
rotate {k} h xs x ys r =
    let (c₁, c₂) = split k h xs x ys h r.chain in
    let (d₁, d₂, apart) = Distinct-split (h ∷ xs) (x ∷ ys) r.distinct in
    record {
      chain = join k x ys h xs x c₂ c₁;
      distinct = Distinct-append (x ∷ ys) (h ∷ xs) d₂ d₁ (λ a m. ground (arith, apart a));
    }
