-- ===== src/Parsec/Invariant/Section.antt =====
-- `ps_enter`, `ps_exit` and `ps_init` keep, or establish, the invariant on time stamps.
use ps.Base.{ℕ, ◌+◌, ◌%◌, ◌^◌, ◌<◌, ◌≡◌, ◌≢◌, arith}
use ps.Parsec.{Parsec, timing_of, ps_in_lib, ps_enter, ps_exit, ps_init}
use ps.Parsec.Quiesce.{max_tsc, Frame}
use ps.Parsec.Invariant.Defs.{Timely, FrameOk}

module _ {n now : ℕ} {ps : Parsec} (t : Timely n now ps) (c : ℕ) where
  open t use {past, out_le, known_past, safe, seen, seen_in, seen_past, seen_out}

  pub enter-Timely : now < max_tsc → Timely n (now + 1) (ps_enter ps c now)
  unfolding ps_enter
  enter-Timely lt = record {
    fits = omega arith;
    past = λ j. ground (arith, past j);
    out_le = λ j. ground (arith, out_le j, past j);
    known_past = λ j. ground (arith, known_past j);
    safe = λ j k lk h. ground (arith, safe j k lk, known_past j);
    seen = λ j k. ground (arith, seen j k, past k);
    seen_in = λ j k. ground (arith, seen_in j k);
    seen_past = λ j k. ground (arith, seen_past j k);
    seen_out = λ j k h i. ground (arith, seen_out j k, seen_past j k);
  }

  pub enter-FrameOk :
      {f : Frame} → FrameOk n now ps f → f.cpu ≢ c → FrameOk n (now + 1) (ps_enter ps c now) f
  unfolding ps_enter ps_in_lib
  enter-FrameOk {f} ok ne = record {
    low = ok.low;
    high = ok.high;
    qsc_le = ground (arith, ok.qsc_le);
    inlib = ground (arith, ok.inlib);
    checked = λ h. ground (arith, ok.checked);
    min_start = ok.min_start;
    min_past = λ h. omega (arith, ok.min_past h);
    min_check = ok.min_check;
    covers = λ k lo hi h. ground (arith, ok.covers k lo hi, ok.min_past);
  }

  -- The stamp of the exit does not wrap.
  exit_stamp : ((timing_of ps c).time_in + 1) % 2 ^ 64 ≡ (timing_of ps c).time_in + 1
  exit_stamp = omega (arith, past c, t.fits)

  pub exit-Timely : Timely n now (ps_exit ps c)
  unfolding ps_exit
  exit-Timely = rw exit_stamp (record {
    fits = t.fits;
    past = λ j. ground (arith, past j);
    out_le = λ j. ground (arith, out_le j);
    known_past = λ j. ground (arith, known_past j);
    safe = λ j k lk h. ground (arith, safe j k lk);
    seen = λ j k. ground (arith, seen j k);
    seen_in = λ j k. ground (arith, seen_in j k);
    seen_past = λ j k. ground (arith, seen_past j k);
    seen_out = λ j k h i. ground (arith, seen_out j k);
  })

  pub exit-FrameOk : {f : Frame} → FrameOk n now ps f → f.cpu ≢ c → FrameOk n now (ps_exit ps c) f
  unfolding ps_exit ps_in_lib
  exit-FrameOk {f} ok ne = rw exit_stamp (record {
    low = ok.low;
    high = ok.high;
    qsc_le = ground (arith, ok.qsc_le);
    inlib = ground (arith, ok.inlib);
    checked = λ h. ground (arith, ok.checked);
    min_start = ok.min_start;
    min_past = ok.min_past;
    min_check = ok.min_check;
    covers = λ k lo hi h. ground (arith, ok.covers k lo hi);
  })

pub init-Timely : (n t : ℕ) → t < max_tsc → Timely n (t + 1) (ps_init t)
unfolding ps_init
init-Timely n t lt = record {
  fits = omega arith;
  past = λ j. omega arith;
  out_le = λ j. omega arith;
  known_past = λ j. omega arith;
  safe = λ j k lk h. omega arith;
  seen = λ j k. omega arith;
  seen_in = λ j k. omega arith;
  seen_past = λ j k. omega arith;
  seen_out = λ j k h i. omega arith;
}
