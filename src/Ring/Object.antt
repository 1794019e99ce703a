-- ===== src/Ring/Object.antt =====
-- The object interface of ps_list.h: `off` is the offset of the list field, as `ps_offsetof` gives
-- it, in 64-bit address arithmetic.
use ps.Base.{ℕ, zero, suc, ◌+◌, ◌-◌, ◌%◌, ◌^◌, Bool, Option, none, some, ◌==◌, if◌then◌else◌}
use ps.Ring.{Links, ps_list_ll_init, ps_list_ll_empty, ps_list_ll_add, ps_list_ll_rem}

-- `ps_container`, and `ps_list_obj_get`
unfoldable pub ps_container : (intern off : ℕ) → ℕ
ps_container intern off = (intern + 2 ^ 64 - off) % 2 ^ 64

-- `&(o)->lname`
abbrev pub node_of : (o off : ℕ) → ℕ
node_of o off = o + off

abbrev pub ps_list_singleton : Links → (o off : ℕ) → Bool
ps_list_singleton k o off = ps_list_ll_empty k (node_of o off)

abbrev pub ps_list_init : Links → (o off : ℕ) → Links
ps_list_init k o off = ps_list_ll_init k (node_of o off)

abbrev pub ps_list_next : Links → (o off : ℕ) → ℕ
ps_list_next k o off = ps_container (k.n (node_of o off)) off

abbrev pub ps_list_prev : Links → (o off : ℕ) → ℕ
ps_list_prev k o off = ps_container (k.p (node_of o off)) off

abbrev pub ps_list_add : Links → (o n off : ℕ) → Links
ps_list_add k o n off = ps_list_ll_add k (node_of o off) (node_of n off)

abbrev pub ps_list_append : Links → (o n off : ℕ) → Links
ps_list_append k o n off = ps_list_add k (ps_list_prev k o off) n off

abbrev pub ps_list_rem : Links → (o off : ℕ) → Links
ps_list_rem k o off = ps_list_ll_rem k (node_of o off)

abbrev pub ps_list_head_add : Links → (lh o off : ℕ) → Links
ps_list_head_add k lh o off = ps_list_ll_add k lh (node_of o off)

abbrev pub ps_list_head_append : Links → (lh o off : ℕ) → Links
ps_list_head_append k lh o off = ps_list_ll_add k (k.p lh) (node_of o off)

abbrev pub ps_list_head_first : Links → (lh off : ℕ) → ℕ
ps_list_head_first k lh off = ps_container (k.n lh) off

abbrev pub ps_list_head_last : Links → (lh off : ℕ) → ℕ
ps_list_head_last k lh off = ps_container (k.p lh) off

abbrev pub ps_list_is_head : (lh o off : ℕ) → Bool
ps_list_is_head lh o off = ps_container lh off == o

-- The loop of `ps_list_foreach` from `iter` on; the body leaves the list alone. `none` means that
-- the fuel ran out.
unfoldable pub foreach_loop {ℓ} :
    {S : Type ℓ} → ℕ → Links → (lh off : ℕ) → (ℕ → S → S) → (iter : ℕ) → S → Option S
foreach_loop zero k lh off body iter s = none
foreach_loop (suc fuel) k lh off body iter s =
    let rest = foreach_loop fuel k lh off body (ps_list_next k iter off) (body iter s) in
    if ps_list_is_head lh iter off then some s else rest

-- `ps_list_foreach`
unfoldable pub ps_list_foreach {ℓ} :
    {S : Type ℓ} → ℕ → Links → (lh off : ℕ) → (ℕ → S → S) → S → Option S
ps_list_foreach fuel k lh off body s =
    foreach_loop fuel k lh off body (ps_list_head_first k lh off) s

-- The loop of `ps_list_foreach_del`: `tmp` was read before the body ran on `iter`.
unfoldable pub foreach_del_loop {ℓ} :
    {S : Type ℓ}
    → ℕ
    → (lh off : ℕ) → (ℕ → Links → S → Links × S)
    → (iter tmp : ℕ) → Links
    → S
    → Option (Links × S)
foreach_del_loop zero lh off body iter tmp k s = none
foreach_del_loop (suc fuel) lh off body iter tmp k s =
    let r = body iter k s in
    let rest = foreach_del_loop fuel lh off body tmp (ps_list_next r.0 tmp off) r.0 r.1 in
    if ps_list_is_head lh iter off then some (k, s) else rest

-- `ps_list_foreach_del`
unfoldable pub ps_list_foreach_del {ℓ} :
    {S : Type ℓ} → ℕ → (lh off : ℕ) → (ℕ → Links → S → Links × S) → Links → S → Option (Links × S)
ps_list_foreach_del fuel lh off body k s =
    let iter = ps_list_head_first k lh off in
    foreach_del_loop fuel lh off body iter (ps_list_next k iter off) k s
