-- ===== src/Queue.antt =====
-- The queue of freed memory (`struct ps_qsc_list` of ps_global.h), linked through the headers.
pub mod Fifo
use ps.Base.{ℕ, ◌==◌, if◌then◌else◌}
use ps.Header.{Headers, set_next}

pub record QscList : Type 0 where
  pub head : ℕ
  pub tail : ℕ

-- `__ps_qsc_peek`
unfoldable pub ps_qsc_peek : QscList → ℕ
ps_qsc_peek ql = ql.head

-- `__ps_qsc_enqueue`
unfoldable pub ps_qsc_enqueue : Headers → QscList → ℕ → Headers × QscList
ps_qsc_enqueue hs ql n =
    if ql.tail == 0
    then (hs, record { head = n; tail = n })
    else (set_next hs ql.tail n, record ql { tail = n })

-- `__ps_qsc_dequeue`; the result is the first part
unfoldable pub ps_qsc_dequeue : Headers → QscList → ℕ × Headers × QscList
ps_qsc_dequeue hs ql = if ql.head == 0 then (0, hs, ql) else (
  ql.head,
  set_next hs ql.head 0,
  record { head = hs.next ql.head; tail = if ql.tail == ql.head then 0 else ql.tail },
)

-- `__ps_qsc_clear`; the result is the first part
unfoldable pub ps_qsc_clear : QscList → ℕ × QscList
ps_qsc_clear l = (l.head, record { head = 0; tail = 0 })
