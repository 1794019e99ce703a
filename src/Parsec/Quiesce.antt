-- ===== src/Parsec/Quiesce.antt =====
-- `ps_quiesce` of ps_smr.c, one round of its `re_check` loop at a time, so that other cores can act
-- between two rounds. The counter and the shared stamps are read at the start of each round.
use ps.Base.{ℕ, ◌+◌, ◌-◌, ◌%◌, ◌^◌, Bool, true, false, ◌&&◌, ◌||◌, ltb, ◌==◌, if◌then◌else◌, update}
use ps.Parsec.{Timing, OtherCore, Parsec, timing_of, cached, set_timing, ps_in_lib}

-- `(unsigned long long)(-1)`
abbrev pub max_tsc : ℕ
max_tsc = 2 ^ 64 - 1

-- What `ps_quiesce` returns: 0, -1 and `-EQUIESCENCE`
pub data Ret : Type 0 where
  success : Ret
  failure : Ret
  equiescence : Ret

-- The local variables that live from one round to the next; `cpu` is `curr_cpu`.
pub record Frame : Type 0 where
  pub cpu : ℕ
  pub time_check : ℕ
  pub blocking : Bool
  pub inlib_curr : Bool
  pub i : ℕ
  pub first_try : Bool
  pub min_known_qsc : ℕ
  pub qsc : ℕ

-- Another round, a return with `*qsc`, or a failed `assert`
pub data Outcome : Type 0 where
  running : Parsec → Frame → Outcome
  returned : Parsec → Ret → ℕ → Outcome
  aborted : Outcome

-- The quiescence that the remote core knows of is used if it is later.
abbrev pub help : Timing → Timing → Timing
help t remote = record t {
  last_known_quiescence =
      if ltb t.last_known_quiescence remote.last_known_quiescence
      then remote.last_known_quiescence
      else t.last_known_quiescence;
}

-- `__ps_timing_update_remote`, where `ps_tsc` reads `now`
unfoldable pub ps_timing_update_remote : Parsec → ℕ → ℕ → ℕ → Parsec
ps_timing_update_remote ps curr remote_cpu now =
    let cpu_i = timing_of ps remote_cpu in
    record ps {
      timing_info = update ps.timing_info curr (record {
        timing = help (timing_of ps curr) cpu_i;
        timing_others =
            update (ps.timing_info curr).timing_others remote_cpu
              (record { time_in = cpu_i.time_in; time_out = cpu_i.time_out; time_updated = now });
      });
    }

-- The test that sets `done_i`
unfoldable pub core_done : ℕ → OtherCore → Bool
core_done time_check o =
    ltb time_check o.time_in || ltb time_check o.time_updated && ltb o.time_in o.time_out

-- The new `min_known_qsc` behind a core that is done
unfoldable pub lower_min : ℕ → OtherCore → ℕ
lower_min min_known_qsc o =
    if ltb o.time_in o.time_out
    then (if ltb o.time_updated min_known_qsc then o.time_updated else min_known_qsc)
    else (if ltb o.time_in min_known_qsc then o.time_in else min_known_qsc)

-- `ps_quiesce` up to the head of its loop
unfoldable pub ps_quiesce : Parsec → ℕ → ℕ → Bool → Outcome
ps_quiesce ps cpu tsc blocking =
    let t = timing_of ps cpu in
    let inlib_curr = ps_in_lib t in
    if ltb t.time_in tsc && inlib_curr
    then returned ps equiescence t.last_known_quiescence
    else running ps (record {
      cpu = cpu;
      time_check = tsc;
      blocking = blocking;
      inlib_curr = inlib_curr;
      i = 1;
      first_try = true;
      min_known_qsc = max_tsc;
      qsc = t.last_known_quiescence;
    })

-- `min_known_qsc` as it is after the test of `inlib_curr` behind the loop
unfoldable pub cap_min : Timing → Frame → ℕ
cap_min t f = if f.inlib_curr && ltb t.time_in f.min_known_qsc then t.time_in else f.min_known_qsc

abbrev pub set_last_known : Parsec → ℕ → ℕ → Parsec
set_last_known ps cpu q =
    set_timing ps cpu (record (timing_of ps cpu) { last_known_quiescence = q })

-- What follows the loop
unfoldable pub quiesce_finish : ℕ → Parsec → Frame → Outcome
quiesce_finish num_cores ps f =
    let t = timing_of ps f.cpu in
    let min_known_qsc = cap_min t f in
    if ltb 1 num_cores && f.i == num_cores
    then (if ltb min_known_qsc max_tsc
        then (if ltb t.last_known_quiescence min_known_qsc
            then returned (set_last_known ps f.cpu min_known_qsc) success min_known_qsc
            else returned ps success f.qsc)
        else aborted)
    else returned ps success f.qsc

abbrev pub next_core : Frame → OtherCore → Frame
next_core f o = record f {
  i = f.i + 1;
  first_try = true;
  min_known_qsc = lower_min f.min_known_qsc o;
}

-- The body of the loop from `re_check` on, for the core `qsc_cpu`
unfoldable pub recheck : ℕ → ℕ → Parsec → Frame → ℕ → Outcome
recheck num_cores now ps f qsc_cpu =
    if qsc_cpu == f.cpu
    then aborted
    else if ltb f.time_check (timing_of ps f.cpu).last_known_quiescence
    then quiesce_finish num_cores ps f
    else if core_done f.time_check (cached ps f.cpu qsc_cpu)
    then running ps (next_core f (cached ps f.cpu qsc_cpu))
    else if f.first_try || f.blocking
    then running (ps_timing_update_remote ps f.cpu qsc_cpu now) (record f { first_try = false })
    else returned ps failure f.qsc

-- One round
unfoldable pub quiesce_step : ℕ → ℕ → Parsec → Frame → Outcome
quiesce_step num_cores now ps f =
    if ltb f.i num_cores
    then recheck num_cores now ps f ((f.cpu + f.i) % num_cores)
    else quiesce_finish num_cores ps f
