-- ===== src/Ert/Paths.antt =====
-- The nodes of a radix trie (ps_ertrie.h) with one more, at the end of a path.
use native.Mathlib.Nat.{mul-div_cancel}
use mathlib.Core.Bool.{true≢false}
use ps.Base.{
  ◌/◌, ◌⊎◌, subst, ◌⊎◌, ℕ, suc, ◌*◌, ◌<◌, ◌≡◌, ◌≢◌, refl, sym, ◌∙◌, ap, Bool, true, false, List, [],
  ◌∷◌, ◌&&◌, arith, ◌==◌, if◌then◌else◌, Bool-cases, inl, inr, ==→eq, ==_self,
}
use ps.Ert.Shape.{Geometry, slot}

path_eq : List ℕ → List ℕ → Bool
path_eq [] [] = true
path_eq [] (b ∷ q) = false
path_eq (a ∷ p) [] = false
path_eq (a ∷ p) (b ∷ q) = a == b && path_eq p q

path_eq_self : (p : List ℕ) → path_eq p p ≡ true
unfolding path_eq
path_eq_self [] = refl
path_eq_self (a ∷ p) = rw (==_self a) (path_eq_self p)

and_both : (b c : Bool) → (b && c) ≡ true → (b ≡ true) × (c ≡ true)
and_both true c h = (refl, h)
and_both false c h = ground arith

path_eq→eq : (p q : List ℕ) → path_eq p q ≡ true → p ≡ q
unfolding path_eq
path_eq→eq [] [] h = refl
path_eq→eq [] (b ∷ q) h = ground arith
path_eq→eq (a ∷ p) [] h = ground arith
path_eq→eq (a ∷ p) (b ∷ q) h =
    let both = and_both (a == b) (path_eq p q) h in
    rw (==→eq a b both.0, path_eq→eq p q both.1) refl

-- The node `new` at the end of the path `q`
pub grown : (List ℕ → ℕ) → List ℕ → ℕ → List ℕ → ℕ
unfolding path_eq
grown node q new p = if path_eq p q then new else node p

pub grown_self : (node : List ℕ → ℕ) (q : List ℕ) (new : ℕ) → grown node q new q ≡ new
unfolding grown
grown_self node q new = rw (path_eq_self q) refl

pub grown_cases :
    (node : List ℕ → ℕ) (q : List ℕ) (new : ℕ) (p : List ℕ)
    → (p ≡ q) ⊎ ((p ≢ q) × (grown node q new p ≡ node p))
unfolding grown
grown_cases node q new p = elim (Bool-cases (path_eq p q)) [
  | inl e ↦ inl (path_eq→eq p q e)
  | inr e ↦
      inr (
        (λ pq. true≢false (sym (path_eq_self q) ∙ subst (λ r. path_eq r q ≡ false) pq e)),
        rw e refl,
      )
]

pub list_eq : {a b : ℕ} {p q : List ℕ} → a ≡ b → p ≡ q → a ∷ p ≡ b ∷ q
list_eq e f = rw (e, f) refl

abbrev pub slot_of : Geometry → (List ℕ → ℕ) → List ℕ → ℕ
slot_of g node [] = 0
slot_of g node (k ∷ p) = slot g node p k

abbrev pub tail_of : List ℕ → List ℕ
tail_of [] = []
tail_of (k ∷ p) = p

pub zero_ne_suc : {n : ℕ} → 0 ≢ suc n
zero_ne_suc e = omega arith

pub ne_suc : (n : ℕ) → suc (suc n) ≢ suc n
ne_suc n e = omega arith

pub mul_cancel : (k l s : ℕ) → 0 < s → k * s ≡ l * s → k ≡ l
mul_cancel k l s h e = sym (mul-div_cancel k h) ∙ ap (λ x. x / s) e ∙ mul-div_cancel l h

pub value_zero : (x n : ℕ) → x ≡ 0 → (if n == 0 then 0 else x) ≡ 0
value_zero x n h = ground arith

pub value_same :
    {x y n l : ℕ} → n ≡ l → x ≡ y → (if n == 0 then 0 else x) ≡ (if l == 0 then 0 else y)
value_same e f = rw (e, f) refl

pub value_null : (x n : ℕ) → n ≡ 0 → (if n == 0 then 0 else x) ≡ 0
value_null x n h = ground arith
