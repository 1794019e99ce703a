-- ===== src/Memory.antt =====
-- The state that the allocators share (the structures of ps_global.h, and `struct ps_slab`).
use ps.Base.{ℕ, Option, update}
use ps.Header.{Headers}
use ps.Parsec.{Parsec}
use ps.Queue.{QscList}
use ps.Ring.{Links}

-- The fields of every `struct ps_slab`, by address; the `list` fields are in `links`, by their own
-- address
pub record Slabs : Type 0 where
  pub memory : ℕ → ℕ
  pub start : ℕ → ℕ
  pub end : ℕ → ℕ
  pub memsz : ℕ → ℕ
  pub coreid : ℕ → ℕ
  pub freelist : ℕ → ℕ
  pub nfree : ℕ → ℕ

-- `struct ps_slab_info`; `fl` is `fl.list`
pub record SlabInfo : Type 0 where
  pub fl : ℕ
  pub salloccnt : ℕ
  pub remote_token : ℕ
  pub nslabs : ℕ

-- `struct ps_smr_info`
pub record SmrInfo : Type 0 where
  pub ps : ℕ
  pub qsc_list : QscList
  pub qmemcnt : ℕ
  pub qmemtarget : ℕ

-- `struct ps_mem_percore`: `slab_remote j k` is `slab_remote[j].remote_frees[k]`
pub record MemPercore : Type 0 where
  pub slab_info : SlabInfo
  pub smr_info : SmrInfo
  pub slab_remote : ℕ → ℕ → ℕ

-- Memory, one `struct ps_mem`, and what the allocation functions of the client keep in `env`
pub record State (E : Type 0) : Type 0 where
  pub headers : Headers
  pub slabs : Slabs
  pub links : Links
  pub parsecs : ℕ → Parsec
  pub percore : ℕ → MemPercore
  pub env : E

-- `(ps_free_fn_t)(m, s, sz, curr)`; `none` is a failed `assert`
abbrev pub FreeFn : Type 0 → Type 0
FreeFn E = State E → (s sz curr : ℕ) → Option (State E)

-- `(ps_alloc_fn_t)(m, sz, curr)`
abbrev pub AllocFn : Type 0 → Type 0
AllocFn E = State E → (sz curr : ℕ) → Option (ℕ × State E)

module _ {E : Type 0} where
  abbrev pub slab_info_of : State E → ℕ → SlabInfo
  slab_info_of st c = (st.percore c).slab_info

  abbrev pub smr_info_of : State E → ℕ → SmrInfo
  smr_info_of st c = (st.percore c).smr_info

  abbrev pub set_headers : State E → Headers → State E
  set_headers st hs = record st { headers = hs }

  abbrev pub set_slab_info : State E → ℕ → SlabInfo → State E
  set_slab_info st c si = record st {
    percore = update st.percore c (record (st.percore c) { slab_info = si });
  }

  abbrev pub set_smr_info : State E → ℕ → SmrInfo → State E
  set_smr_info st c si = record st {
    percore = update st.percore c (record (st.percore c) { smr_info = si });
  }
