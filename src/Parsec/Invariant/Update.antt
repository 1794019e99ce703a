-- ===== src/Parsec/Invariant/Update.antt =====
-- `__ps_timing_update_remote` and the new last known quiescence keep the invariant on time stamps.
use ps.Base.{ℕ, ◌+◌, ◌<◌, arith}
use ps.Parsec.{Parsec}
use ps.Parsec.Quiesce.{max_tsc, ps_timing_update_remote, set_last_known}
use ps.Parsec.Invariant.Defs.{Quiescent, Timely, Advances}

module _ {n now : ℕ} {ps : Parsec} (t : Timely n now ps) (c r : ℕ) where
  open t use {past, out_le, known_past, safe, seen, seen_in, seen_past, seen_out}

  pub update-Timely : now < max_tsc → Timely n (now + 1) (ps_timing_update_remote ps c r now)
  unfolding ps_timing_update_remote
  update-Timely lt = record {
    fits = omega arith;
    past = λ j. ground (arith, past j, past c);
    out_le = λ j. ground (arith, out_le j, out_le c);
    known_past = λ j. ground (arith, known_past j, known_past c, known_past r);
    safe = λ j k lk h. ground (arith, safe j k lk, safe c k lk, safe r k lk);
    seen = λ j k. ground (arith, seen j k, seen c k);
    seen_in = λ j k. ground (arith, seen_in j k, seen_in c k, past r);
    seen_past = λ j k. ground (arith, seen_past j k, seen_past c k);
    seen_out = λ j k h i. ground (arith, seen_out j k, seen_out c k, past r);
  }

  pub update-Advances : Advances c ps (ps_timing_update_remote ps c r now)
  unfolding ps_timing_update_remote
  update-Advances = record {
    same_in = λ j. ground arith;
    same_out = λ j. ground arith;
    grows = λ j. ground arith;
  }

module _ {n now : ℕ} {ps : Parsec} (t : Timely n now ps) (c q : ℕ) where
  open t use {past, out_le, known_past, safe, seen, seen_in, seen_past, seen_out}

  pub set-Timely :
      now < max_tsc → q < now → Quiescent n ps q → Timely n (now + 1) (set_last_known ps c q)
  set-Timely lt small quiet = record {
    fits = omega arith;
    past = λ j. ground (arith, past j);
    out_le = λ j. ground (arith, out_le j);
    known_past = λ j. ground (arith, known_past j);
    safe = λ j k lk h. ground (arith, safe j k lk, quiet k lk);
    seen = λ j k. ground (arith, seen j k);
    seen_in = λ j k. ground (arith, seen_in j k);
    seen_past = λ j k. ground (arith, seen_past j k);
    seen_out = λ j k h i. ground (arith, seen_out j k);
  }
