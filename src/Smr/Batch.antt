-- ===== src/Smr/Batch.antt =====
-- `__ps_smr_reclaim` takes a prefix of the queue, in order.
use ps.Base.{some, ◌≢◌, true, ℕ, ◌≡◌, ap, List, ◌∷◌, arith, ==_self}
use ps.Header.{
  ps_mhead_mem, Headers, OnlyAt, OnlyAt-trans, reset-OnlyAt, reset_unmarked, ps_mhead_reset,
}
use ps.Memory.{State, FreeFn, smr_info_of}
use ps.Queue.{ps_qsc_peek, ps_qsc_dequeue}
use ps.Queue.Fifo.{IsQueue-frame, dequeue-IsQueue, dequeue-OnlyAt}
use ps.Ring.Chain.{has}
use ps.Smr.{release, detach}
use ps.Smr.Defs.{SameSlabs, SameSlabs-smr, FreeSpec, QueueOk}

module _ {E : Type 0} {ffn : FreeFn E} {curr : ℕ} (spec : FreeSpec ffn curr) where
  open spec use {Live, edit, frees}

  module _ {st : State E} (x : ℕ) (xs : List ℕ) (ok : QueueOk spec st (x ∷ xs)) where
    open ok use {queue, count, fits, marked, live}

    pub peek-head : ps_qsc_peek (smr_info_of st curr).qsc_list ≡ x
    unfolding ps_qsc_peek
    peek-head = queue.path.0

    detached : Headers
    detached =
        let d = ps_qsc_dequeue st.headers (smr_info_of st curr).qsc_list in ps_mhead_reset d.1 d.0

    detached-OnlyAt : OnlyAt x st.headers detached
    unfolding detached
    detached-OnlyAt =
        rw (dequeue-IsQueue x xs queue).0
          (OnlyAt-trans (dequeue-OnlyAt x xs queue) (reset-OnlyAt _ x))

    detached-SameSlabs : SameSlabs st (detach st curr)
    unfolding detach detached
    detached-SameSlabs = SameSlabs-smr st detached curr _

    -- Behind `detach` the rest of the queue is in order, and the object is live and not marked.
    detach-QueueOk :
        QueueOk spec (detach st curr) xs
        × Live (detach st curr) x
        × ((detach st curr).headers.tsc_free x ≡ 0)
    unfolding detach detached
    detach-QueueOk = (
      record {
        queue =
            rw (==_self curr, smr_info_of)
              (IsQueue-frame xs (reset-OnlyAt _ _)
                (rw (dequeue-IsQueue x xs queue).0 queue.distinct.0)
                (dequeue-IsQueue x xs queue).1);
        count = rw (==_self curr, smr_info_of) (omega (arith, count, fits));
        fits = omega arith;
        marked = λ c h.
            rw (detached-OnlyAt.same_tsc c (λ e. cc (queue.distinct.0, ap (λ d. has d xs) e)))
              (marked c (ground arith));
        live = λ c h.
            edit st (detach st curr) x (live x (ground arith)) detached-OnlyAt detached-SameSlabs c
              (live c (ground arith));
      },
      edit st (detach st curr) x (live x (ground arith)) detached-OnlyAt detached-SameSlabs x
          (live x (ground arith)),
      rw (dequeue-IsQueue x xs queue).0 (reset_unmarked _ x),
    )

    pub unmarked_ne : (c : ℕ) → has c xs ≡ true → c ≢ x
    unmarked_ne c h e = cc (queue.distinct.0, ap (λ d. has d xs) e)

    -- A round hands the head of the queue to `ffn`, and the rest of the queue is in order.
    pub release-QueueOk :
        (st' : State E) × (release ffn curr st ≡ some st')
        × (ffn (detach st curr) (ps_mhead_mem x) 0 curr ≡ some st')
        × QueueOk spec st' xs
        × OnlyAt x st.headers st'.headers
        × (st'.parsecs ≡ st.parsecs)
    unfolding release detach detached
    release-QueueOk = (
      st',
      rw peek-head call,
      call,
      record {
        queue = rw same_info (IsQueue-frame xs only queue.distinct.0 (ok'.queue));
        count = rw same_info ok'.count;
        fits = ok'.fits;
        marked = λ c h. rw (only.same_tsc c (unmarked_ne c h)) (ok'.marked c h);
        live = λ c h. kept c (unmarked_ne c h) (ok'.live c h);
      },
      OnlyAt-trans detached-OnlyAt only,
      same_ps,
    )
      where
        open (frees (detach st curr) x detach-QueueOk.1 detach-QueueOk.2) use {
          «0» as st', «1» as call, «2» as only, «3» as same_info, «4» as same_ps, «5» as kept,
        }

        ok' : QueueOk spec (detach st curr) xs
        ok' = detach-QueueOk.0
