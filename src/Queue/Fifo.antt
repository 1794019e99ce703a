-- ===== src/Queue/Fifo.antt =====
-- The queue holds its headers in the order in which they were freed.
use ps.Base.{
  ◌∙◌, ℕ, ◌≡◌, ◌≢◌, refl, true, false, List, [], ◌∷◌, ◌++◌, arith, ap, if◌then◌else◌, ◌==◌,
  update_self, ne→==, sym, update,
}
use ps.Ring.Chain.{has, Distinct, has-append}
use ps.Header.{Headers, OnlyAt, set_next-OnlyAt}
use ps.Queue.{QscList, ps_qsc_enqueue, ps_qsc_dequeue}

-- From `a` the links lead through `xs` to `NULL`.
abbrev pub PathToNull : (ℕ → ℕ) → ℕ → List ℕ → Type 0
PathToNull next a [] = a ≡ 0
PathToNull next a (x ∷ xs) = (a ≡ x) × (x ≢ 0) × PathToNull next (next x) xs

-- The last header, or `NULL`
abbrev pub last : List ℕ → ℕ
last [] = 0
last (x ∷ []) = x
last (x ∷ y ∷ xs) = last (y ∷ xs)

pub record IsQueue (hs : Headers) (ql : QscList) (xs : List ℕ) : Type 0 where
  pub path : PathToNull hs.next ql.head xs
  pub distinct : Distinct xs
  pub at_end : ql.tail ≡ last xs

-- A path reads the links of its own headers only.
pub path_frame :
    (f g : ℕ → ℕ) (a : ℕ) (xs : List ℕ)
    → ((c : ℕ) → has c xs ≡ true → g c ≡ f c)
    → PathToNull f a xs
    → PathToNull g a xs
path_frame f g a [] same p = p
path_frame f g a (x ∷ xs) same (e, ne, p) =
    (e, ne, rw (same x (ground arith)) (path_frame f g (f x) xs (λ c h. same c (ground arith)) p))

pub last-mem : (x : ℕ) (xs : List ℕ) → has (last (x ∷ xs)) (x ∷ xs) ≡ true
last-mem x [] = ground arith
last-mem x (y ∷ xs) = ground (arith, last-mem y xs)

ne_of_has : (a b : ℕ) (xs : List ℕ) → has a xs ≡ false → has b xs ≡ true → a ≢ b
ne_of_has a b xs o h e = cc (ap (λ c. has c xs) e)

last_snoc : (x : ℕ) (xs : List ℕ) (n : ℕ) → last ((x ∷ xs) ++ n ∷ []) ≡ n
last_snoc x [] n = refl
last_snoc x (y ∷ xs) n = last_snoc y xs n

Distinct-snoc : (xs : List ℕ) (n : ℕ) → Distinct xs → has n xs ≡ false → Distinct (xs ++ n ∷ [])
Distinct-snoc [] n d o = (refl, tt)
Distinct-snoc (x ∷ xs) n d o =
    (ground (arith, has-append x xs (n ∷ []), d.0), Distinct-snoc xs n d.1 (ground arith))

-- A path with a header at its end, which takes the place of `NULL`
path_snoc :
    (f : ℕ → ℕ) (a : ℕ) (x : ℕ) (xs : List ℕ) (n : ℕ)
    → PathToNull f a (x ∷ xs)
    → Distinct (x ∷ xs)
    → n ≢ 0
    → has n (x ∷ xs) ≡ false
    → f n ≡ 0
    → PathToNull (update f (last (x ∷ xs)) n) a ((x ∷ xs) ++ n ∷ [])
path_snoc f a x [] n p d ne out e = (p.0, p.1, (ground arith, ne, ground arith))
path_snoc f a x (y ∷ xs) n p d ne out e =
    let ih = path_snoc f (f x) y xs n p.2 d.1 ne (ground arith) e in
    (
      p.0,
      p.1,
      (ground (arith, p.2.0, last-mem y xs, d.0, ne_of_has x (last (y ∷ xs)) (y ∷ xs)), ih.1, ih.2),
    )

pub last-ne-zero : (f : ℕ → ℕ) (a x : ℕ) (xs : List ℕ) → PathToNull f a (x ∷ xs) → last (x ∷ xs) ≢ 0
last-ne-zero f a x [] p = p.1
last-ne-zero f a x (y ∷ xs) p = last-ne-zero f (f x) y xs p.2

-- A header whose link is `NULL` and which is not in the queue goes to the end of it.
pub enqueue-IsQueue :
    {hs : Headers} {ql : QscList} (xs : List ℕ) (n : ℕ)
    → IsQueue hs ql xs
    → n ≢ 0
    → has n xs ≡ false
    → hs.next n ≡ 0
    → let r = ps_qsc_enqueue hs ql n in IsQueue r.0 r.1 (xs ++ n ∷ [])
unfolding ps_qsc_enqueue
enqueue-IsQueue [] n q ne out e =
    rw q.at_end (record { path = (refl, ne, e); distinct = (refl, tt); at_end = refl })
enqueue-IsQueue {hs} {ql} (x ∷ xs) n q ne out e =
    rw (q.at_end, ne→== (last (x ∷ xs)) 0 (last-ne-zero hs.next ql.head x xs q.path))
      (record {
        path = path_snoc hs.next ql.head x xs n q.path q.distinct ne out e;
        distinct = Distinct-snoc (x ∷ xs) n q.distinct out;
        at_end = sym (last_snoc x xs n);
      })

tail_after :
    (t x : ℕ) (xs : List ℕ)
    → t ≡ last (x ∷ xs)
    → has x xs ≡ false
    → (if t == x then 0 else t) ≡ last xs
tail_after t x [] e out = ground arith
tail_after t x (y ∷ xs) e out = ground (arith, last-mem y xs, ne_of_has x (last (y ∷ xs)) (y ∷ xs))

-- The first header of the queue comes out, with its link cut.
pub dequeue-IsQueue :
    {hs : Headers} {ql : QscList} (x : ℕ) (xs : List ℕ)
    → IsQueue hs ql (x ∷ xs)
    → let r = ps_qsc_dequeue hs ql in
      (r.0 ≡ x) × IsQueue r.1 r.2 xs × (r.1.next x ≡ 0) × (r.1.tsc_free ≡ hs.tsc_free)
unfolding ps_qsc_dequeue
dequeue-IsQueue {hs} {ql} x xs q =
    rw (q.path.0, ne→== x 0 q.path.1)
      (
        refl,
        record {
          path =
              path_frame hs.next (update hs.next x 0) (hs.next x) xs
                (λ c h. ground (arith, ne_of_has x c xs q.distinct.0 h)) q.path.2;
          distinct = q.distinct.1;
          at_end = tail_after ql.tail x xs q.at_end q.distinct.0;
        },
        update_self hs.next x 0,
        refl,
      )

-- An empty queue stays as it is.
pub dequeue-nil :
    {hs : Headers} {ql : QscList} → IsQueue hs ql [] → ps_qsc_dequeue hs ql ≡ (0, hs, ql)
unfolding ps_qsc_dequeue
dequeue-nil q = rw q.path

-- Only the header that comes out is written to.
pub dequeue-OnlyAt :
    {hs : Headers} {ql : QscList} (x : ℕ) (xs : List ℕ)
    → IsQueue hs ql (x ∷ xs)
    → OnlyAt x hs (ps_qsc_dequeue hs ql).1
unfolding ps_qsc_dequeue
dequeue-OnlyAt {hs} x xs q = rw (q.path.0, ne→== x 0 q.path.1) (set_next-OnlyAt hs x 0)

-- A queue reads the links of its own headers.
pub IsQueue-frame :
    {hs gs : Headers} {ql : QscList} {x : ℕ} (xs : List ℕ)
    → OnlyAt x hs gs
    → has x xs ≡ false
    → IsQueue hs ql xs
    → IsQueue gs ql xs
IsQueue-frame {hs} {gs} {ql} {x} xs only out q = record {
  path =
      path_frame hs.next gs.next ql.head xs
        (λ c h. only.same_next c (λ e. ne_of_has x c xs out h (sym e))) q.path;
  distinct = q.distinct;
  at_end = q.at_end;
}

-- A path through one node or more does not start at `NULL`.
pub path_head : (n : ℕ → ℕ) (a : ℕ) (xs : List ℕ) → PathToNull n a xs → xs ≢ [] → a ≢ 0
path_head n a [] p ne = absurd (ne refl)
path_head n a (x ∷ xs) p ne = λ z. p.1 (sym p.0 ∙ z)
