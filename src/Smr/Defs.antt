-- ===== src/Smr/Defs.antt =====
-- What the reclamation asks of the function that it hands quiescent memory to, and its invariant.
use ps.Base.{ℕ, ◌^◌, ◌<◌, ◌≡◌, ◌≢◌, refl, arith, true, List, length, some}
use ps.Header.{Headers, OnlyAt, ps_mhead_mem}
use ps.Memory.{SmrInfo, State, FreeFn, smr_info_of, slab_info_of, set_headers, set_smr_info}
use ps.Queue.Fifo.{IsQueue}
use ps.Ring.Chain.{has}

-- The states agree but for headers, queues and parallel sections.
pub record SameSlabs {E : Type 0} (st st' : State E) : Type 0 where
  pub same_slabs : st'.slabs ≡ st.slabs
  pub same_links : st'.links ≡ st.links
  pub same_env : st'.env ≡ st.env
  pub same_info : (c : ℕ) → slab_info_of st' c ≡ slab_info_of st c
  pub same_remote : (c : ℕ) → (st'.percore c).slab_remote ≡ (st.percore c).slab_remote

pub SameSlabs-headers :
    {E : Type 0} (st : State E) (hs : Headers) → SameSlabs st (set_headers st hs)
SameSlabs-headers st hs = record {
  same_slabs = refl;
  same_links = refl;
  same_env = refl;
  same_info = λ c. refl;
  same_remote = λ c. refl;
}

pub SameSlabs-smr :
    {E : Type 0} (st : State E) (hs : Headers) (c : ℕ) (si : SmrInfo)
    → SameSlabs st (set_smr_info (set_headers st hs) c si)
SameSlabs-smr st hs c si = record {
  same_slabs = refl;
  same_links = refl;
  same_env = refl;
  same_info = λ d. ground arith;
  same_remote = λ d. ground arith;
}

-- `ffn` takes back an object that is live. Other objects stay live, and neither their headers nor
-- the queues change. `Live` depends neither on the queues nor on the headers of live objects.
pub record FreeSpec {E : Type 0} (ffn : FreeFn E) (curr : ℕ) : Type 1 where
  pub Live : State E → ℕ → Type 0
  pub edit :
      (st st' : State E) (x : ℕ)
      → Live st x
      → OnlyAt x st.headers st'.headers
      → SameSlabs st st'
      → (h : ℕ) → Live st h
      → Live st' h
  pub frees :
      (st : State E) (x : ℕ)
      → Live st x
      → st.headers.tsc_free x ≡ 0
      → (st' : State E) × (ffn st (ps_mhead_mem x) 0 curr ≡ some st')
        × OnlyAt x st.headers st'.headers
        × (smr_info_of st' curr ≡ smr_info_of st curr)
        × (st'.parsecs ≡ st.parsecs)
        × ((h : ℕ) → h ≢ x → Live st h → Live st' h)

module _ {E : Type 0} {ffn : FreeFn E} {curr : ℕ} (spec : FreeSpec ffn curr) where
  -- The queue of core `curr` holds `xs`, which are marked and live, and its counter is right.
  pub record QueueOk (st : State E) (xs : List ℕ) : Type 0 where
    pub queue : IsQueue st.headers (smr_info_of st curr).qsc_list xs
    pub count : (smr_info_of st curr).qmemcnt ≡ length xs
    pub fits : length xs < 2 ^ 64
    pub marked : (c : ℕ) → has c xs ≡ true → st.headers.tsc_free c ≢ 0
    pub live : (c : ℕ) → has c xs ≡ true → spec.Live st c
