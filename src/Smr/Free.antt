-- ===== src/Smr/Free.antt =====
-- `__ps_smr_free`: from the queue to the parallel sections and back to the allocator.
use ps.Base.{
  ◌⊎◌, ℕ, ◌+◌, ◌^◌, ◌<◌, ◌≡◌, ◌≢◌, refl, true, false, List, [], ◌∷◌, ◌++◌, arith, length, ◌==◌,
  ne→==, ==_self, Bool-cases, inl, inr, length-append,
}
use ps.Header.{Headers, OnlyAt, set_next-OnlyAt, setfree-OnlyAt, ps_mhead_get, ps_mhead_setfree}
use ps.Memory.{State, FreeFn, smr_info_of, set_headers}
use ps.Queue.{QscList, ps_qsc_enqueue}
use ps.Queue.Fifo.{IsQueue, IsQueue-frame, enqueue-IsQueue, last, last-mem, last-ne-zero}
use ps.Ring.Chain.{has, has-append}
use ps.Smr.{enqueue_freed}
use ps.Smr.Defs.{FreeSpec, QueueOk, SameSlabs-headers, SameSlabs-smr}

enqueue-tsc :
    (hs : Headers) (ql : QscList) (n : ℕ) → (ps_qsc_enqueue hs ql n).0.tsc_free ≡ hs.tsc_free
unfolding ps_qsc_enqueue
enqueue-tsc hs ql n = elim (Bool-cases (ql.tail == 0)) [ inl e ↦ rw e | inr e ↦ rw e ]

enqueue-nil :
    {hs : Headers} {ql : QscList} (n : ℕ) → IsQueue hs ql [] → (ps_qsc_enqueue hs ql n).0 ≡ hs
unfolding ps_qsc_enqueue
enqueue-nil n q = rw q.at_end

enqueue-OnlyAt :
    {hs : Headers} {ql : QscList} (x : ℕ) (xs : List ℕ) (n : ℕ)
    → IsQueue hs ql (x ∷ xs)
    → OnlyAt (last (x ∷ xs)) hs (ps_qsc_enqueue hs ql n).0
unfolding ps_qsc_enqueue
enqueue-OnlyAt {hs} {ql} x xs n q =
    rw (q.at_end, ne→== (last (x ∷ xs)) 0 (last-ne-zero hs.next ql.head x xs q.path))
      (set_next-OnlyAt hs (last (x ∷ xs)) n)

-- The rest of the core's information stays.
pub enqueue_kept :
    {E : Type 0} (st : State E) (buf curr tsc : ℕ)
    → ((smr_info_of (enqueue_freed buf curr tsc st) curr).qmemtarget
        ≡ (smr_info_of st curr).qmemtarget)
      × ((smr_info_of (enqueue_freed buf curr tsc st) curr).ps ≡ (smr_info_of st curr).ps)
      × ((enqueue_freed buf curr tsc st).parsecs ≡ st.parsecs)
unfolding enqueue_freed
enqueue_kept st buf curr tsc =
    (rw (==_self curr, smr_info_of), rw (==_self curr, smr_info_of), refl)

snoc-cases :
    (c : ℕ) (xs : List ℕ) (m : ℕ) → has c (xs ++ m ∷ []) ≡ true → (c ≡ m) ⊎ (has c xs ≡ true)
snoc-cases c xs m h = ground (arith, has-append c xs (m ∷ []))

setfree-tsc : (hs : Headers) (x t : ℕ) → (ps_mhead_setfree hs x t).tsc_free x ≡ t
unfolding ps_mhead_setfree
setfree-tsc hs x t = ground arith

setfree-next : (hs : Headers) (x t : ℕ) → (ps_mhead_setfree hs x t).next ≡ hs.next
unfolding ps_mhead_setfree
setfree-next hs x t = refl

module _ {E : Type 0} {ffn : FreeFn E} {curr : ℕ} (spec : FreeSpec ffn curr) where
  open spec use {Live, edit}

  -- The caller owns the object at `buf`: it is live, not queued, and its link is `NULL`.
  pub record Owned (st : State E) (xs : List ℕ) (m : ℕ) : Type 0 where
    pub live : Live st m
    pub not_null : m ≢ 0
    pub unqueued : has m xs ≡ false
    pub unlinked : st.headers.next m ≡ 0

  -- The header `m` is at the end of the queue and has the mark `tsc`; the other marks are as in `st`.
  pub record Queues (st : State E) (xs : List ℕ) (m tsc : ℕ) (last : State E) : Type 0 where
    pub ok : QueueOk spec last (xs ++ m ∷ [])
    pub time_of : last.headers.tsc_free m ≡ tsc
    pub same_times : (c : ℕ) → c ≢ m → last.headers.tsc_free c ≡ st.headers.tsc_free c

  module _ {st : State E} (xs : List ℕ) (buf tsc : ℕ) (ok : QueueOk spec st xs)
      (own : Owned st xs (ps_mhead_get buf)) where
    m : ℕ
    m = ps_mhead_get buf

    marked_headers : Headers
    marked_headers = ps_mhead_setfree st.headers m tsc

    queued : IsQueue marked_headers (smr_info_of st curr).qsc_list xs
    unfolding marked_headers m
    queued = IsQueue-frame xs (setfree-OnlyAt st.headers m tsc) own.unqueued ok.queue

    live_after :
        (ys : List ℕ) → xs ≡ ys → (h : ℕ) → Live st h → Live (enqueue_freed buf curr tsc st) h
    unfolding enqueue_freed marked_headers m
    live_after [] e h l =
        edit st (enqueue_freed buf curr tsc st) m own.live
          (rw (enqueue-nil m (rw e at queued)) (setfree-OnlyAt st.headers m tsc))
          (SameSlabs-smr st _ curr _) h l
    live_after (x ∷ ys) e h l =
        edit (set_headers st marked_headers) (enqueue_freed buf curr tsc st) (last (x ∷ ys))
          (first (last (x ∷ ys)) (ok.live (last (x ∷ ys)) (rw e (last-mem x ys))))
          (enqueue-OnlyAt x ys m (rw e at queued))
          (SameSlabs-smr (set_headers st marked_headers) _ curr _) h (first h l)
      where
        first : (h : ℕ) → Live st h → Live (set_headers st marked_headers) h
        first =
            edit st (set_headers st marked_headers) m own.live (setfree-OnlyAt st.headers m tsc)
              (SameSlabs-headers st marked_headers)

    pub enqueue_freed-QueueOk :
        tsc ≢ 0
        → length xs + 1 < 2 ^ 64
        → QueueOk spec (enqueue_freed buf curr tsc st) (xs ++ ps_mhead_get buf ∷ [])
    unfolding enqueue_freed marked_headers m
    enqueue_freed-QueueOk marks fits = record {
      queue =
          rw (==_self curr, smr_info_of)
            (enqueue-IsQueue xs m queued own.not_null own.unqueued
              (rw (setfree-next st.headers m tsc) own.unlinked));
      count = rw (==_self curr, smr_info_of) (omega (arith, ok.count, length-append xs (m ∷ [])));
      fits = omega (arith, length-append xs (m ∷ []));
      marked = λ c h.
          rw (enqueue-tsc marked_headers (smr_info_of st curr).qsc_list m)
            (elim (snoc-cases c xs m h) [
              | inl e ↦ rw (e, setfree-tsc st.headers m tsc) marks
              | inr i ↦
                  rw ((setfree-OnlyAt st.headers m tsc).same_tsc c (λ e. cc own.unqueued))
                    (ok.marked c i)
            ]);
      live = λ c h.
          live_after xs refl c
            (elim (snoc-cases c xs m h) [ inl e ↦ rw e own.live | inr i ↦ ok.live c i ]);
    }

    -- `__ps_smr_free` puts the object at the end of the queue, in order, and its mark is the time of the
    -- free. No other mark changes, and the counter is right again.
    pub enqueue_freed-Queues :
        tsc ≢ 0
        → length xs + 1 < 2 ^ 64
        → Queues st xs (ps_mhead_get buf) tsc (enqueue_freed buf curr tsc st)
    unfolding enqueue_freed marked_headers m
    enqueue_freed-Queues marks fits = record {
      ok = enqueue_freed-QueueOk marks fits;
      time_of =
          rw (enqueue-tsc marked_headers (smr_info_of st curr).qsc_list m)
            (setfree-tsc st.headers m tsc);
      same_times = λ c ne.
          rw (enqueue-tsc marked_headers (smr_info_of st curr).qsc_list m)
            ((setfree-OnlyAt st.headers m tsc).same_tsc c ne);
    }
