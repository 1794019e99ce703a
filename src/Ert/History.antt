-- ===== src/Ert/History.antt =====
-- Sequences of calls of `ert_alloc`, `__ert_expand` and `__ert_lookup` (ps_ertrie.h).
use ps.Base.{
  ℕ, ◌+◌, ◌^◌, ◌<◌, ◌≡◌, refl, sym, subst, Bool, Option, some, List, [], ◌∷◌, update, ◌>>=◌,
}
use ps.Ert.{
  TrieState, ErtParams, ExpandRet, expanded, no_memory, occupied, again, ert_expand, ert_lookup,
}
use ps.Ert.Shape.{Geometry, IsSmall, id_bits}
use ps.Ert.Room.{AllocSpec}
use ps.Ert.Allocate.{trie}
use ps.Ert.Abstract.{Represents, Spare, Puts, full, kept, put, ert_lookup-Represents}
use ps.Ert.Refine.{ert_expand-Refines}

-- A call of `__ert_expand` up to `depth + 1`
pub record Expansion : Type 0 where
  pub id : ℕ
  pub data' : ℕ

-- The values after the expansions with their results: those that returned 0 count.
unfoldable pub replay : (ℕ → ℕ) → List Expansion → List ExpandRet → ℕ → ℕ
replay f [] rets = f
replay f (c ∷ calls) [] = f
replay f (c ∷ calls) (expanded ∷ rets) = replay (update f c.id c.data') calls rets
replay f (c ∷ calls) (no_memory ∷ rets) = replay f calls rets
replay f (c ∷ calls) (occupied ∷ rets) = replay f calls rets
replay f (c ∷ calls) (again ∷ rets) = replay f calls rets

-- Each identifier is one of the trie's.
pub data Valid (g : Geometry) : List Expansion → Type 0 where
  none_left : Valid g []
  one_more :
      {c : Expansion} {calls : List Expansion}
      → c.id < 2 ^ id_bits g
      → Valid g calls
      → Valid g (c ∷ calls)

module _ {E : Type 0} (T : ErtParams E) (r v accum memctxt : ℕ) where
  -- The calls in their order
  unfoldable pub expand_all : List Expansion → TrieState E → Option (List ExpandRet × TrieState E)
  expand_all [] st = some ([], st)
  expand_all (c ∷ calls) st = do
    (ret, st') ← ert_expand T r v c.id 0 (T.depth + 1) accum memctxt c.data' st
    (rets, st'') ← expand_all calls st'
    some (ret ∷ rets, st'')

module _ {E : Type 0} {g : Geometry} (small : IsSmall g) {Room : E → ℕ → Type 0}
    {allocfn : TrieState E → (memctxt sz : ℕ) → (leaf : Bool) → ℕ × TrieState E}
    (spec : AllocSpec Room allocfn) (memctxt r v accum : ℕ) where
  abbrev T : ErtParams E
  T = trie small spec memctxt

  puts-replay :
      (c : Expansion) (calls : List Expansion) (rets : List ExpandRet) {f f' : ℕ → ℕ}
      {ret : ExpandRet}
      → Puts f c.id c.data' ret f'
      → replay f (c ∷ calls) (ret ∷ rets) ≡ replay f' calls rets
  unfolding replay
  puts-replay c calls rets full = refl
  puts-replay c calls rets (kept dn fn) = refl
  puts-replay c calls rets (put dz) = refl

  abbrev pub Held : TrieState E → (ℕ → ℕ) → Type 0
  Held st f = (rep : Represents g Room v st f) × Spare rep r

  abbrev pub Replays :
      List Expansion → TrieState E → (ℕ → ℕ) → Option (List ExpandRet × TrieState E) → Type 0
  Replays calls st f o =
      (rets : List ExpandRet) × (st' : TrieState E) × (o ≡ some (rets, st'))
      × Held st' (replay f calls rets)

  expand_all-Replays :
      (calls : List Expansion) (st : TrieState E) (f : ℕ → ℕ) (rep : Represents g Room v st f)
      → Spare rep r
      → Valid g calls
      → Replays calls st f (expand_all T r v accum memctxt calls st)
  unfolding expand_all replay
  expand_all-Replays [] st f rep spare none_left = ([], st, refl, (rep, spare))
  expand_all-Replays (c ∷ calls) st f rep spare (one_more lt valid) =
      let (ret, st', f', rep', e, p, _, fr) =
        ert_expand-Refines small spec memctxt v r c.id accum c.data' st f rep spare lt in
      let (rets, st'', e', held) =
        expand_all-Replays calls st' f' rep' (fr.stay_spare r spare) valid in
      (ret ∷ rets, st'', rw (e, e') refl, subst (Held st'') (sym (puts-replay c calls rets p)) held)

  -- From a state that represents `f`, expansions up to `depth + 1` for valid identifiers all end, and a
  -- lookup of a valid identifier after them gives what `f` with the expansions that returned 0, in their
  -- order, gives.
  pub ert_lookup-expand_all :
      (calls : List Expansion) (st : TrieState E) (f : ℕ → ℕ) (rep : Represents g Room v st f)
      (id : ℕ)
      → Spare rep r
      → Valid g calls
      → id < 2 ^ id_bits g
      → (rets : List ExpandRet) × (st' : TrieState E) × (expand_all T r v accum memctxt calls st
          ≡ some (rets, st'))
        × (ert_lookup T r v id 0 (g.depth + 1) accum st'.mem ≡ some (replay f calls rets id))
  ert_lookup-expand_all calls st f rep id spare valid lt =
      let (rets, st', e, held) = expand_all-Replays calls st f rep spare valid in
      (
        rets,
        st',
        e,
        ert_lookup-Represents small allocfn v r id accum st' (replay f calls rets) held.0 held.1 lt,
      )
