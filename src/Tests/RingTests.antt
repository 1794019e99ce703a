-- ===== src/Tests/RingTests.antt =====
-- Runs of ps_list.h, and its theorems at them.
use ps.Base.{ℕ, ◌+◌, ◌≡◌, refl, some, List, [], ◌∷◌, foldl, arith, length}
use ps.Ring.{Links, ps_list_ll_init, ps_list_ll_add}
use ps.Ring.Chain.{Ring}
use ps.Ring.Edit.{init-Ring, add-Ring}
use ps.Ring.Object.{ps_list_foreach, ps_list_foreach_del, ps_list_rem, ps_container, foreach_loop}
use ps.Ring.Walk.{foreach_del-foldl}

-- Objects 1000 and 2000 with their list field at offset 72, in the list with the head 500.
abbrev both : List ℕ
both = 1000 ∷ 2000 ∷ []

abbrev zeroed : Links
zeroed = record { n = λ a. 0; p = λ a. 0 }

abbrev just_head : Links
just_head = ps_list_ll_init zeroed 500

abbrev one_object : Links
one_object = ps_list_ll_add just_head 500 2072

abbrev two_objects : Links
two_objects = ps_list_ll_add one_object 500 1072

one_object-Ring : Ring one_object 500 (2072 ∷ [])
one_object-Ring = add-Ring [] 2072 (init-Ring zeroed 500) refl

add-Ring_example : Ring two_objects 500 (1072 ∷ 2072 ∷ [])
add-Ring_example = add-Ring (2072 ∷ []) 1072 one_object-Ring refl

two_objects-Ring : Ring two_objects 500 (1072 ∷ 2072 ∷ [])
two_objects-Ring = add-Ring (2072 ∷ []) 1072 one_object-Ring refl

-- Pushing each object on a list, the loop visits 1000 and then 2000.
foreach_runs : ps_list_foreach 3 two_objects 500 72 (λ o s. o ∷ s) [] ≡ some (2000 ∷ 1000 ∷ [])
unfolding ps_list_foreach foreach_loop ps_container ps_list_ll_add ps_list_ll_init
foreach_runs = refl

foreach_del-foldl_example :
    (k' : Links) × (ps_list_foreach_del
        (length both + 1)
        500
        72
        (λ o k s. (ps_list_rem k o 72, o ∷ s))
        two_objects
        []
      ≡ some (k', foldl (λ (s : List ℕ) (o : ℕ). o ∷ s) [] both))
    × Ring k' 500 []
foreach_del-foldl_example =
    foreach_del-foldl 500 72 (omega arith) (λ o s. o ∷ s) both two_objects [] two_objects-Ring
      (omega arith)
