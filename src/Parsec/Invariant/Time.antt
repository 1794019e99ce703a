-- ===== src/Parsec/Invariant/Time.antt =====
-- What a round of `ps_quiesce` leaves behind, and the invariant as time goes on.
use ps.Base.{ℕ, ◌+◌, ◌-◌, ◌%◌, ◌≤◌, ◌<◌, ◌≡◌, ◌≢◌, refl, ◌∙◌, arith}
use native.Mathlib.Nat.{mod-eq_of_lt, mod-eq-sub-mod, add-mod_right}
use native.Mathlib.Decide.{dec_lt}
use ps.Parsec.{Parsec, timing_of, ps_in_lib}
use ps.Parsec.Quiesce.{max_tsc, Frame, Outcome, running, returned, aborted, set_last_known}
use ps.Parsec.Invariant.Defs.{Timely, FrameOk, Advances}

-- What a round on core `c` leaves behind.
abbrev pub Good : ℕ → ℕ → ℕ → Parsec → Outcome → Type 0
Good n t c ps (running p f) = Timely n t p × Advances c ps p × FrameOk n t p f × (f.cpu ≡ c)
Good n t c ps (returned p r q) =
    Timely n t p × Advances c ps p × (q ≤ (timing_of p c).last_known_quiescence)
Good n t c ps aborted = ⊥

pub Advances-refl : (c : ℕ) (ps : Parsec) → Advances c ps ps
Advances-refl c ps = record { same_in = λ j. refl; same_out = λ j. refl; grows = λ j. omega arith }

pub set-Advances :
    {ps : Parsec} (c q : ℕ)
    → (timing_of ps c).last_known_quiescence < q
    → Advances c ps (set_last_known ps c q)
set-Advances c q up = record {
  same_in = λ j. ground arith;
  same_out = λ j. ground arith;
  grows = λ j. ground arith;
}

pub Timely-mono :
    {n now : ℕ} {ps : Parsec} (t : ℕ) → Timely n now ps → now ≤ t → t ≤ max_tsc → Timely n t ps
Timely-mono t ok le fits = record {
  fits = fits;
  past = λ j. omega (arith, past j);
  out_le = out_le;
  known_past = λ j. omega (arith, known_past j);
  safe = safe;
  seen = seen;
  seen_in = seen_in;
  seen_past = λ j k. omega (arith, seen_past j k);
  seen_out = seen_out;
}
  where
    open ok use {past, out_le, known_past, safe, seen, seen_in, seen_past, seen_out}

pub FrameOk-mono :
    {n now d : ℕ} {ps qs : Parsec} {f : Frame} (t : ℕ)
    → FrameOk n now ps f
    → Advances d ps qs
    → now ≤ t
    → FrameOk n t qs f
unfolding ps_in_lib
FrameOk-mono {n} {f} t ok adv le = record {
  low = ok.low;
  high = ok.high;
  qsc_le = omega (arith, grows f.cpu, ok.qsc_le);
  inlib = rw (same_in f.cpu, same_out f.cpu) ok.inlib;
  checked = rw (same_in f.cpu, same_out f.cpu) ok.checked;
  min_start = ok.min_start;
  min_past = λ h. omega (arith, ok.min_past h);
  min_check = ok.min_check;
  covers =
      λ k lo hi. rw (same_in ((f.cpu + k) % n), same_out ((f.cpu + k) % n)) (ok.covers k lo hi);
}
  where
    open adv use {same_in, same_out, grows}

pub wrap_less : (n c j : ℕ) → c < j → c + (j - c) ≡ j
wrap_less n c j h = omega arith

pub wrap_more : (n c j : ℕ) → c < n → c + (j + n - c) ≡ j + n
wrap_more n c j h = omega arith

-- The loop meets every other core.
pub other_core :
    (n c j : ℕ) → c < n → j < n → j ≢ c → (k : ℕ) × (1 ≤ k) × (k < n) × ((c + k) % n ≡ j)
other_core n c j hc hj ne = elim (dec_lt c j) [
  | yes lt ↦ (j - c, omega arith, omega arith, rw (wrap_less n c j lt) (mod-eq_of_lt hj))
  | no ge ↦ (
    j + n - c,
    omega arith,
    omega arith,
    rw (wrap_more n c j hc) (add-mod_right j n ∙ mod-eq_of_lt hj),
  )
]

-- The loop never meets the core itself.
pub never_self : (n c k : ℕ) → c < n → 1 ≤ k → k < n → (c + k) % n ≢ c
never_self n c k hc lo hi e = elim (dec_lt (c + k) n) [
  | yes lt ↦ omega (arith, mod-eq_of_lt lt)
  | no ge ↦
      let le : n ≤ c + k = omega arith in
      let lt : c + k - n < n = omega arith in omega (arith, mod-eq-sub-mod le, mod-eq_of_lt lt)
]
