-- ===== src/Ert/Abstract.antt =====
-- What the operations of ps_ertrie.h promise: a function from identifiers to values.
use ps.Base.{ℕ, ◌+◌, ◌^◌, ◌<◌, ◌≡◌, ◌≢◌, ◌⊎◌, sym, ◌∙◌, ap, subst, Bool, some, List, update}
use ps.Ert.{ert_lookup, TrieState, ExpandRet, expanded, no_memory, occupied}
use ps.Ert.Default.{ert_create_def}
use ps.Ert.Shape.{Geometry, IsSmall, contents, id_bits, Outside}
use ps.Ert.Room.{Holds}
use ps.Ert.Lookup.{ert_lookup-contents}
use ps.Ert.Digits.{ert_maxid_lem}

-- What an expansion up to `depth + 1` may do to the values: it returns -1, 1 or 0.
pub data Puts (f : ℕ → ℕ) (id d : ℕ) : ExpandRet → (ℕ → ℕ) → Type 0 where
  full : Puts f id d no_memory f
  kept : d ≢ 0 → f id ≢ 0 → Puts f id d occupied f
  put : (d ≡ 0) ⊎ (f id ≡ 0) → Puts f id d expanded (update f id d)

-- The state holds a trie whose values are those of `f`.
pub record Represents {E : Type 0} (g : Geometry) (Room : E → ℕ → Type 0) (v : ℕ) (st : TrieState E)
    (f : ℕ → ℕ) : Type 0 where
  pub node : List ℕ → ℕ
  pub holds : Holds g Room st v node
  pub agrees : (id : ℕ) → id < 2 ^ id_bits g → contents g st.mem node id ≡ f id

module _ {E : Type 0} {g : Geometry} {Room : E → ℕ → Type 0} {v : ℕ} {st : TrieState E}
    {f : ℕ → ℕ} where
  -- A word that is neither the trie's nor the allocator's
  abbrev pub Spare : Represents g Room v st f → ℕ → Type 0
  Spare rep a = (¬ Room st.env a) × Outside g rep.node a

-- Spare words stay spare, and all but `r` keep what they hold.
pub record Keeps {E : Type 0} {g : Geometry} {Room : E → ℕ → Type 0} {v : ℕ} {st st' : TrieState E}
    {f f' : ℕ → ℕ} (r : ℕ) (rep : Represents g Room v st f) (rep' : Represents g Room v st' f')
    : Type 0 where
  pub stay_spare : (a : ℕ) → Spare rep a → Spare rep' a
  pub keep_words : (a : ℕ) → Spare rep a → a ≢ r → st'.mem a ≡ st.mem a

-- The trie takes only words that the allocator had in the state `st`.
pub record TakesRoom {E : Type 0} {g : Geometry} {Room : E → ℕ → Type 0} {v : ℕ} {st' : TrieState E}
    {f : ℕ → ℕ} (st : TrieState E) (rep : Represents g Room v st' f) : Type 0 where
  pub others_spare : (a : ℕ) → ¬ Room st.env a → Spare rep a

-- In a state that represents `f`, `__ert_lookup` up to `depth + 1` for a valid identifier, with its local
-- outside of the trie, gives the value of `f`, and NULL if that is 0.
pub ert_lookup-Represents :
    {E : Type 0} {g : Geometry} (small : IsSmall g) {Room : E → ℕ → Type 0}
    (allocfn : TrieState E → (memctxt sz : ℕ) → (leaf : Bool) → ℕ × TrieState E) (v r id accum : ℕ)
    (st : TrieState E) (f : ℕ → ℕ) (rep : Represents g Room v st f)
    → Spare rep r
    → id < 2 ^ id_bits g
    → ert_lookup
        (ert_create_def g.depth g.order g.last_order g.last_sz allocfn)
        r
        v
        id
        0
        (g.depth + 1)
        accum
        st.mem
      ≡ some (f id)
ert_lookup-Represents {g = g} small allocfn v r id accum st f rep spare lt =
    ert_lookup-contents g small allocfn rep.holds.trie_held r id accum spare.1
      (subst (λ b. id < b) (sym (ert_maxid_lem g small allocfn)) lt)
    ∙ ap some (rep.agrees id lt)
