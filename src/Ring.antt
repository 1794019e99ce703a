-- ===== src/Ring.antt =====
-- The circular doubly linked lists of ps_list.h.
pub mod Apart
pub mod Chain
pub mod Count
pub mod Edit
pub mod Object
pub mod Walk
use ps.Base.{ℕ, ◌==◌, Bool, update}

-- The fields `n` and `p` of every `struct ps_list`, by address
pub record Links : Type 0 where
  pub n : ℕ → ℕ
  pub p : ℕ → ℕ

-- `ps_list_ll_init`, which `ps_list_head_init` calls
unfoldable pub ps_list_ll_init : Links → ℕ → Links
ps_list_ll_init k l = record { n = update k.n l l; p = update k.p l l }

-- `ps_list_ll_empty`
unfoldable pub ps_list_ll_empty : Links → ℕ → Bool
ps_list_ll_empty k l = k.n l == l

-- `ps_list_ll_add`, write by write; the last one goes through the new `n` of `new`
unfoldable pub ps_list_ll_add : Links → ℕ → ℕ → Links
ps_list_ll_add k l new =
    let n₁ = update k.n new (k.n l) in
    let p₁ = update k.p new l in
    let n₂ = update n₁ l new in record { n = n₂; p = update p₁ (n₂ new) new }

-- `ps_list_ll_rem`, write by write
unfoldable pub ps_list_ll_rem : Links → ℕ → Links
ps_list_ll_rem k l =
    let p₁ = update k.p (k.n l) (k.p l) in
    let n₁ = update k.n (p₁ l) (k.n l) in record { n = update n₁ l l; p = update p₁ l l }
