-- ===== src/Ert/Digits.antt =====
-- The digits that `__ert_walk` (ps_ertrie.h) takes of an identifier determine it.
use native.Mathlib.Nat.{
  mod-eq_of_lt, div-add-mod', div-eq_of_lt, div-div-eq-div-mul, zero-add, mul-zero, mul-suc,
}
use ps.Base.{
  pow_add, ne→==, ℕ, zero, suc, ◌+◌, ◌-◌, ◌*◌, ◌/◌, ◌%◌, ◌^◌, ◌≤◌, ◌<◌, ◌≡◌, refl, sym, ◌∙◌, ap,
  subst, Bool, false, List, [], ◌∷◌, arith, ltb, eq→==, ne→==,
}
use ps.Ert.{TrieState, ert_maxid, sub32}
use ps.Ert.Default.{ert_create_def}
use ps.Ert.Shape.{Geometry, IsSmall, path_of, digit, leaf_of}

parts : (x y d : ℕ) → x / d ≡ y / d → x % d ≡ y % d → x ≡ y
parts x y d q r = sym (div-add-mod' x d) ∙ rw (q, r) (div-add-mod' y d)

pub quotient : (x B o : ℕ) → x / 2 ^ B / 2 ^ o ≡ x / 2 ^ (B + o)
quotient x B o = div-div-eq-div-mul x (2 ^ B) (2 ^ o) ∙ ap (λ e. x / e) (sym (pow_add B o))

abbrev head_of : List ℕ → ℕ
head_of [] = 0
head_of (k ∷ p) = k

abbrev tail_of : List ℕ → List ℕ
tail_of [] = []
tail_of (k ∷ p) = p

module _ (g : Geometry) (small : IsSmall g) where
  -- The bits below level `i`
  abbrev pub below : ℕ → ℕ
  below i = g.order * (g.depth - (i + 1)) + g.last_order

  below_zero : below 0 ≡ g.order * (g.depth - 1) + g.last_order
  below_zero = refl

  below_suc :
      (i : ℕ) → i + 2 ≤ g.depth → below i ≡ g.order * (g.depth - (i + 2)) + g.last_order + g.order
  below_suc i h =
      let one_more : g.depth - (i + 1) ≡ suc (g.depth - (i + 2)) = omega arith in
      rw (one_more, mul-suc g.order (g.depth - (i + 2))) (omega arith)

  below_next : (i : ℕ) → below (suc i) ≡ g.order * (g.depth - (i + 2)) + g.last_order
  below_next i = let same : g.depth - (suc i + 1) ≡ g.depth - (i + 2) = omega arith in rw same refl

  below_last : below (g.depth - 1) ≡ g.last_order
  below_last =
      let some' : 1 ≤ g.depth = small.some_level in
      let none' : g.depth - (g.depth - 1 + 1) ≡ 0 = omega arith in
      rw (none', mul-zero g.order, zero-add g.last_order) refl

  pub leaf_digit : (id : ℕ) → digit g id (g.depth - 1) ≡ id % 2 ^ g.last_order
  leaf_digit id =
      let some' : 1 ≤ g.depth = small.some_level in
      rw (eq→== (g.depth - 1 + 1) g.depth (omega arith)) refl

  pub inner_digit :
      (id i : ℕ)
      → i + 2 ≤ g.depth
      → digit g id i ≡ id / 2 ^ (g.order * (g.depth - (i + 2)) + g.last_order) % 2 ^ g.order
  inner_digit id i h = rw (ne→== (i + 1) g.depth (λ e. omega arith)) refl

  path_of-quotient :
      (x y i : ℕ)
      → x < 2 ^ below 0
      → y < 2 ^ below 0
      → i + 1 ≤ g.depth
      → path_of g x i ≡ path_of g y i
      → x / 2 ^ below i ≡ y / 2 ^ below i
  unfolding path_of
  path_of-quotient x y zero lx ly h e = div-eq_of_lt lx ∙ sym (div-eq_of_lt ly)
  path_of-quotient x y (suc i) lx ly h e =
      let B = g.order * (g.depth - (i + 2)) + g.last_order in
      let ih = path_of-quotient x y i lx ly (omega arith) (ap tail_of e) in
      let up : (z : ℕ) → z / 2 ^ B / 2 ^ g.order ≡ z / 2 ^ below i =
        λ z. quotient z B g.order ∙ ap (λ b. z / 2 ^ b) (sym (below_suc i (omega arith))) in
      let digits : x / 2 ^ B % 2 ^ g.order ≡ y / 2 ^ B % 2 ^ g.order =
        sym (inner_digit x i (omega arith)) ∙ ap head_of e ∙ inner_digit y i (omega arith) in
      rw (below_next i)
        (parts (x / 2 ^ B) (y / 2 ^ B) (2 ^ g.order) (up x ∙ ih ∙ sym (up y)) digits)

  pub leaf_of-injective :
      (x y : ℕ)
      → x < 2 ^ below 0
      → y < 2 ^ below 0
      → leaf_of g x ≡ leaf_of g y
      → digit g x (g.depth - 1) ≡ digit g y (g.depth - 1)
      → x ≡ y
  leaf_of-injective x y lx ly e d =
      let some' : 1 ≤ g.depth = small.some_level in
      let q = path_of-quotient x y (g.depth - 1) lx ly (omega arith) e in
      parts x y (2 ^ g.last_order) (subst (λ b. x / 2 ^ b ≡ y / 2 ^ b) below_last q)
        (sym (leaf_digit x) ∙ d ∙ leaf_digit y)

  module _ {E : Type 0}
      (allocfn : TrieState E → (memctxt sz : ℕ) → (leaf : Bool) → ℕ × TrieState E) where
    pub offset : (g.order * sub32 g.depth 1 + g.last_order) % 2 ^ 32 ≡ below 0
    offset =
        let some' : 1 ≤ g.depth = small.some_level in
        let few : g.depth < 2 ^ 32 = small.few_levels in
        let bits : g.order * (g.depth - 1) + g.last_order < 64 = small.bits in
        let one_less : sub32 g.depth 1 ≡ g.depth - 1 = omega arith in
        rw one_less (mod-eq_of_lt (omega arith))

    -- Within the bounds that `ert_alloc` asserts, `__ert_maxid` is 2 to the number of bits of an identifier.
    pub ert_maxid_lem :
        ert_maxid (ert_create_def g.depth g.order g.last_order g.last_sz allocfn) ≡ 2 ^ below 0
    unfolding ert_maxid
    ert_maxid_lem =
        let bits : g.order * (g.depth - 1) + g.last_order < 64 = small.bits in
        let within : ltb 64 (below 0) ≡ false = ground arith in rw (offset, within) refl
