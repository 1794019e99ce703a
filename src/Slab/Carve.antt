-- ===== src/Slab/Carve.antt =====
-- The freelist that `__ps_slab_init` (ps_slab.c) builds in the memory of a new slab.
use ps.Base.{
  ap, ◌∙◌, ℕ, zero, suc, ◌+◌, ◌*◌, ◌^◌, ◌≤◌, ◌<◌, ◌≡◌, ◌≢◌, refl, true, false, List, [], ◌∷◌, arith,
  length,
}
use ps.Header.{Headers, set_next, ps_mhead_init, ps_mhead_setfree}
use ps.Queue.Fifo.{PathToNull}
use ps.Ring.Chain.{has, Distinct}
use ps.Slab.{carve}

-- The headers of `n` objects of size `sz`, from `a` on
abbrev pub objects : (n sz a : ℕ) → List ℕ
objects zero sz a = []
objects (suc n) sz a = a ∷ objects n sz (a + sz)

-- `n * sz`
abbrev pub span : (n sz : ℕ) → ℕ
span zero sz = 0
span (suc n) sz = sz + span n sz

pub span-mul : (n sz : ℕ) → span n sz ≡ n * sz
span-mul zero sz = omega arith
span-mul (suc n) sz = omega (arith, span-mul n sz)

pub length-objects : (n sz a : ℕ) → length (objects n sz a) ≡ n
length-objects zero sz a = refl
length-objects (suc n) sz a = rw (length-objects n sz (a + sz))

pub in_objects : (n sz a c : ℕ) → has c (objects n sz a) ≡ true → (a ≤ c) × (c + sz ≤ a + span n sz)
in_objects zero sz a c h = cc
in_objects (suc n) sz a c h = ground (arith, in_objects n sz (a + sz) c)

below_objects : (n sz a c : ℕ) → c < a → has c (objects n sz a) ≡ false
below_objects n sz a c h = ground (arith, in_objects n sz a c)

pub Distinct-objects : (n sz a : ℕ) → 0 < sz → Distinct (objects n sz a)
Distinct-objects zero sz a h = tt
Distinct-objects (suc n) sz a h =
    (below_objects n sz (a + sz) a (omega arith), Distinct-objects n sz (a + sz) h)

-- What the loop makes of `hs`: the link of `prev` leads into the `n` objects, which end at `NULL`, are
-- marked, and belong to `s`. Everything else is as before.
pub record Carved (n s sz a prev : ℕ) (hs gs : Headers) (end : ℕ) : Type 0 where
  pub stops : end ≡ a + span n sz
  pub enters : gs.next prev ≡ a
  pub path : PathToNull gs.next a (objects n sz a)
  pub marked : (c : ℕ) → has c (objects n sz a) ≡ true → gs.tsc_free c ≡ 1
  pub owned : (c : ℕ) → has c (objects n sz a) ≡ true → gs.slab c ≡ s
  pub same_next : (c : ℕ) → has c (prev ∷ objects n sz a) ≡ false → gs.next c ≡ hs.next c
  pub same_tsc : (c : ℕ) → has c (objects n sz a) ≡ false → gs.tsc_free c ≡ hs.tsc_free c
  pub same_slab : (c : ℕ) → has c (objects n sz a) ≡ false → gs.slab c ≡ hs.slab c

-- One round
abbrev pub carve_one : (s a prev : ℕ) → Headers → Headers
carve_one s a prev hs = set_next (ps_mhead_init hs a s) prev a

-- A round in front of the others
extend :
    (n s sz a prev : ℕ) (hs gs : Headers) (end : ℕ)
    → prev < a
    → 0 < sz
    → Carved (suc n) s sz (a + sz) a (carve_one s a prev hs) gs end
    → Carved (suc (suc n)) s sz a prev hs gs end
unfolding ps_mhead_init ps_mhead_setfree
extend n s sz a prev hs gs end lt pos rest = record {
  stops = omega (arith, rest.stops);
  enters =
      rest.same_next prev (ground (arith, below_objects (suc n) sz (a + sz) prev)) ∙ ground arith;
  path = (refl, omega arith, rw rest.enters rest.path);
  marked =
      λ c i. ground (arith, rest.marked c, rest.same_tsc c, below_objects (suc n) sz (a + sz) a);
  owned =
      λ c i. ground (arith, rest.owned c, rest.same_slab c, below_objects (suc n) sz (a + sz) a);
  same_next = λ c i. ground (arith, rest.same_next c);
  same_tsc = λ c i. ground (arith, rest.same_tsc c);
  same_slab = λ c i. ground (arith, rest.same_slab c);
}

one_zeroed :
    (n s sz a prev : ℕ) (hs : Headers)
    → prev ≤ a
    → 0 < sz
    → ((c : ℕ) → has c (objects (suc (suc n)) sz a) ≡ true → hs.next c ≡ 0)
    → (c : ℕ) → has c (objects (suc n) sz (a + sz)) ≡ true
    → (carve_one s a prev hs).next c ≡ 0
unfolding ps_mhead_init ps_mhead_setfree
one_zeroed n s sz a prev hs le pos zeroed c i =
    ground (arith, in_objects (suc n) sz (a + sz) c, zeroed c)

-- The last round
carve_last :
    (s sz a prev : ℕ) (hs : Headers)
    → prev < a
    → 0 < sz
    → a + span 1 sz < 2 ^ 64
    → hs.next a ≡ 0
    → let r = carve 1 s sz a prev hs in Carved 1 s sz a prev hs r.0 r.1
unfolding carve ps_mhead_init ps_mhead_setfree
carve_last s sz a prev hs lt pos fits zeroed = record {
  stops = omega arith;
  enters = ground arith;
  path = (refl, omega arith, ground (arith, zeroed));
  marked = λ c i. ground arith;
  owned = λ c i. ground arith;
  same_next = λ c i. ground arith;
  same_tsc = λ c i. ground arith;
  same_slab = λ c i. ground arith;
}

carve-suc :
    (n s sz a prev : ℕ) (hs : Headers)
    → a + sz < 2 ^ 64
    → carve (suc n) s sz a prev hs ≡ carve n s sz (a + sz) a (carve_one s a prev hs)
unfolding carve
carve-suc n s sz a prev hs fits = ap (λ b. carve n s sz b a (carve_one s a prev hs)) (omega arith)

pub carve-Carved :
    (n s sz a prev : ℕ) (hs : Headers)
    → prev < a
    → 0 < sz
    → a + span (suc n) sz < 2 ^ 64
    → ((c : ℕ) → has c (objects (suc n) sz a) ≡ true → hs.next c ≡ 0)
    → let r = carve (suc n) s sz a prev hs in Carved (suc n) s sz a prev hs r.0 r.1
carve-Carved zero s sz a prev hs lt pos fits zeroed =
    carve_last s sz a prev hs lt pos fits (zeroed a (ground arith))
carve-Carved (suc n) s sz a prev hs lt pos fits zeroed =
    rw (carve-suc (suc n) s sz a prev hs (omega arith)) (
      extend n s sz a prev hs _ _ lt pos (
        carve-Carved n s sz (a + sz) a (carve_one s a prev hs) (omega arith) pos (omega arith)
          (λ c i. one_zeroed n s sz a prev hs (omega arith) pos zeroed c i)))

-- The whole loop, where the first round links the first object to itself
pub start-Carved :
    (n s sz a : ℕ) (hs : Headers)
    → 0 < sz
    → a ≢ 0
    → a + span (suc (suc n)) sz < 2 ^ 64
    → ((c : ℕ) → has c (objects (suc (suc n)) sz a) ≡ true → hs.next c ≡ 0)
    → let r = carve (suc (suc n)) s sz a a hs in
      Carved (suc n) s sz (a + sz) a (carve_one s a a hs) r.0 r.1
start-Carved n s sz a hs pos ne fits zeroed = rw (carve-suc (suc n) s sz a a hs (omega arith)) (
    carve-Carved n s sz (a + sz) a (carve_one s a a hs) (omega arith) pos (omega arith)
      (λ c i. one_zeroed n s sz a a hs (omega arith) pos zeroed c i))
