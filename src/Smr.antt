-- ===== src/Smr.antt =====
-- Memory reclamation (ps_smr.h and ps_smr.c): frees are queued, and reach `ffn` once quiescent.
pub mod Batch
pub mod Defs
pub mod Free
pub mod Lifecycle
pub mod Reclaim
pub mod Safety
pub mod Slabs
use ps.Base.{
  ℕ, zero, suc, ◌+◌, ◌-◌, ◌*◌, ◌%◌, ◌^◌, Bool, true, false, ◌&&◌, ◌||◌, not, Option, none, some,
  leb, ltb, ◌==◌, if◌then◌else◌, update, ◌>>=◌,
}
use ps.Header.{
  Headers, ps_mhead_get, ps_mhead_mem, ps_mhead_isfree, ps_mhead_reset, ps_mhead_setfree,
}
use ps.Memory.{
  MemPercore, SmrInfo, State, FreeFn, smr_info_of, slab_info_of, set_headers, set_smr_info,
}
use ps.Parsec.{Parsec}
use ps.Parsec.Quiesce.{Ret, success, Outcome, running, returned, aborted}
use ps.Parsec.Progress.{ps_try_quiesce}
use ps.Queue.{QscList, ps_qsc_peek, ps_qsc_enqueue, ps_qsc_dequeue}

-- `PS_QLIST_BATCH`
abbrev pub qlist_batch : ℕ
qlist_batch = 128

abbrev pub succeeded : Ret → Bool
succeeded success = true
succeeded _ = false

module _ {E : Type 0} where
  -- The head of the queue comes off it, loses its mark and is counted out.
  unfoldable pub detach : State E → ℕ → State E
  detach st curr =
      let si = smr_info_of st curr in
      let d = ps_qsc_dequeue st.headers si.qsc_list in
      set_smr_info (set_headers st (ps_mhead_reset d.1 d.0)) curr
        (record si { qsc_list = d.2; qmemcnt = (si.qmemcnt + 2 ^ 64 - 1) % 2 ^ 64 })

  -- The body of the loop of `__ps_smr_reclaim` behind its test
  unfoldable pub release : FreeFn E → ℕ → State E → Option (State E)
  release ffn curr st =
      let a = ps_qsc_peek (smr_info_of st curr).qsc_list in
      ffn (detach st curr) (ps_mhead_mem a) 0 curr

  -- `k` more rounds of the loop; the second part says whether it broke off
  unfoldable pub reclaim_loop : ℕ → FreeFn E → (curr qsc : ℕ) → State E → Option (State E × Bool)
  reclaim_loop zero ffn curr qsc st = some (st, false)
  reclaim_loop (suc k) ffn curr qsc st =
      let a = ps_qsc_peek (smr_info_of st curr).qsc_list in
      let next = release ffn curr st >>= reclaim_loop k ffn curr qsc in
      if a == 0 || not (ps_mhead_isfree st.headers a)
      then none
      else if ltb qsc (st.headers.tsc_free a)
      then some (st, true)
      else next

  -- `qmemtarget` grows by a batch.
  unfoldable pub raise_target : State E → ℕ → State E
  raise_target st curr =
      let si = smr_info_of st curr in
      set_smr_info st curr (record si { qmemtarget = (si.qmemtarget + qlist_batch) % 2 ^ 64 })

  -- `__ps_smr_reclaim` behind its call of `ps_try_quiesce`
  unfoldable pub reclaim_batch : FreeFn E → ℕ → State E → Ret → ℕ → Option (State E)
  reclaim_batch ffn curr st r qsc = do
    (st', broke) ← reclaim_loop qlist_batch ffn curr qsc st
    some (if not (succeeded r) || broke then raise_target st' curr else st')

  -- What `ps_try_quiesce` gave back goes to the parallel section and to the loop.
  unfoldable pub with_quiescence : FreeFn E → ℕ → State E → ℕ → Outcome → Option (State E)
  with_quiescence ffn curr st ps (returned p r qsc) =
      reclaim_batch ffn curr (record st { parsecs = update st.parsecs ps p }) r qsc
  with_quiescence ffn curr st ps _ = none

  -- `__ps_smr_reclaim` on core `curr` of `num_cores`; `clock` and `others` are those of
  -- `ps_try_quiesce`.
  unfoldable pub ps_smr_reclaim :
      ℕ
      → (clock : ℕ → ℕ) → (others : ℕ → Parsec → Parsec) → FreeFn E
      → ℕ
      → State E
      → Option (State E)
  ps_smr_reclaim num_cores clock others ffn curr st =
      let ps = (smr_info_of st curr).ps in
      let a = ps_qsc_peek (smr_info_of st curr).qsc_list in
      if ps == 0 || a == 0
      then none
      else with_quiescence ffn curr st ps
          (ps_try_quiesce num_cores clock others (st.parsecs ps) curr (st.headers.tsc_free a))

  -- The mark, the queue and the count of `__ps_smr_free`
  unfoldable pub enqueue_freed : (buf curr tsc : ℕ) → State E → State E
  enqueue_freed buf curr tsc st =
      let m = ps_mhead_get buf in
      let si = smr_info_of st curr in
      let r = ps_qsc_enqueue (ps_mhead_setfree st.headers m tsc) si.qsc_list m in
      set_smr_info (set_headers st r.0) curr
        (record si { qsc_list = r.1; qmemcnt = (si.qmemcnt + 1) % 2 ^ 64 })

  -- `__ps_smr_free`, where `ps_tsc_locality` gives the core `curr` and the time `tsc`
  unfoldable pub ps_smr_free :
      ℕ
      → (clock : ℕ → ℕ) → (others : ℕ → Parsec → Parsec) → FreeFn E
      → (buf curr tsc : ℕ) → State E
      → Option (State E)
  ps_smr_free num_cores clock others ffn buf curr tsc st =
      let st' = enqueue_freed buf curr tsc st in
      let si = smr_info_of st' curr in
      if leb si.qmemtarget si.qmemcnt
      then ps_smr_reclaim num_cores clock others ffn curr st'
      else some st'

  -- `ps_smr_nqueued` on core `curr`
  unfoldable pub ps_smr_nqueued : State E → ℕ → ℕ
  ps_smr_nqueued st curr = (smr_info_of st curr).qmemcnt
