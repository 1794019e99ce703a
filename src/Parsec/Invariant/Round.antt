-- ===== src/Parsec/Invariant/Round.antt =====
-- A call of `ps_quiesce`, and each round of it, keep the invariant; no `assert` fails.
use ps.Base.{
  ℕ, ◌+◌, ◌%◌, ◌<◌, ◌≡◌, refl, true, false, Bool, ◌&&◌, ◌||◌, inl, inr, arith, ltb, leb, ◌==◌,
  Bool-cases, ltb→lt, lt→ltb, ne→==, eq→==,
}
use native.Mathlib.Decide.{ℕ_discrete}
use ps.Parsec.{Parsec, timing_of, cached, ps_in_lib}
use ps.Parsec.Quiesce.{
  max_tsc, Frame, ps_timing_update_remote, core_done, lower_min, cap_min, ps_quiesce,
  quiesce_finish, recheck, quiesce_step, next_core,
}
use ps.Parsec.Invariant.Defs.{Quiescent, Timely, Covers, FrameOk}
use ps.Parsec.Invariant.Time.{
  Good, Advances-refl, set-Advances, Timely-mono, FrameOk-mono, other_core, never_self,
}
use ps.Parsec.Invariant.Update.{update-Timely, update-Advances, set-Timely}

module _ {n now : ℕ} {ps : Parsec} (t : Timely n now ps) (c : ℕ) where
  open t use {past, known_past, safe, seen, seen_in, seen_past, seen_out}

  pub quiesce-Good :
      (tsc : ℕ) (blocking : Bool) → c < n → Good n now c ps (ps_quiesce ps c tsc blocking)
  unfolding ps_quiesce ps_in_lib
  quiesce-Good tsc blocking hc = elim (Bool-cases late) [
    | inl e ↦ rw e (t, Advances-refl c ps, omega arith)
    | inr e ↦ rw e (
      t,
      Advances-refl c ps,
      record {
        low = omega arith;
        high = omega arith;
        qsc_le = omega arith;
        inlib = refl;
        checked = λ h. ground arith;
        min_start = λ e. refl;
        min_past = λ h. absurd (omega arith);
        min_check = λ h. absurd (omega arith);
        covers = λ k lo hi. absurd (omega arith);
      },
      refl,
    )
  ]
    where
      late : Bool
      late =
          ltb (timing_of ps c).time_in tsc && leb (timing_of ps c).time_out (timing_of ps c).time_in

module _ {n now : ℕ} {ps : Parsec} (t : Timely n now ps) {f : Frame} (ok : FrameOk n now ps f)
    (hc : f.cpu < n) (lt : now < max_tsc) where
  open t use {past, known_past, safe, seen, seen_in, seen_past, seen_out}
  open ok use {low, high, qsc_le, inlib, checked, min_start, min_past, min_check, covers}

  -- Behind the whole loop the capped minimum bounds every open section.
  cap-Quiescent : 1 < n → f.i ≡ n → Quiescent n ps (cap_min (timing_of ps f.cpu) f)
  unfolding cap_min ps_in_lib
  cap-Quiescent many e j hj h = elim (ℕ_discrete j f.cpu) [
    | yes same ↦ ground arith
    | no other ↦
        let (k, lo, hi, at) = other_core n f.cpu j hc hj other in
        ground (arith, covers k lo (omega arith))
  ]

  cap-lt : 1 < n → f.i ≡ n → cap_min (timing_of ps f.cpu) f < now
  unfolding cap_min
  cap-lt many e = ground (arith, past f.cpu, min_past (omega arith))

  later-Timely : Timely n (now + 1) ps
  later-Timely = Timely-mono (now + 1) t (omega arith) (omega arith)

  full-Good : 1 < n → f.i ≡ n → Good n (now + 1) f.cpu ps (quiesce_finish n ps f)
  unfolding quiesce_finish
  full-Good many e =
      rw (lt→ltb 1 n many, eq→== f.i n e, lt→ltb q max_tsc (omega (arith, cap-lt many e)))
        (elim (Bool-cases (ltb (timing_of ps f.cpu).last_known_quiescence q)) [
          | inl up ↦ rw up (
            set-Timely t f.cpu q lt (cap-lt many e) (cap-Quiescent many e),
            set-Advances f.cpu q (ltb→lt _ q up),
            ground arith,
          )
          | inr same ↦ rw same (later-Timely, Advances-refl f.cpu ps, qsc_le)
        ])
    where
      q : ℕ
      q = cap_min (timing_of ps f.cpu) f

  finish-Good : Good n (now + 1) f.cpu ps (quiesce_finish n ps f)
  unfolding quiesce_finish
  finish-Good = elim (Bool-cases (ltb 1 n && f.i == n)) [
    | inr e ↦ rw e (later-Timely, Advances-refl f.cpu ps, qsc_le)
    | inl e ↦ full-Good (ground arith) (ground arith)
  ]

  abbrev at_core : ℕ
  at_core = (f.cpu + f.i) % n

  new-Covers : Covers n ps f.cpu f.i (lower_min f.min_known_qsc (cached ps f.cpu at_core))
  unfolding lower_min
  new-Covers h = ground (arith, seen f.cpu at_core, seen_out f.cpu at_core)

  next-FrameOk :
      f.i < n
      → core_done f.time_check (cached ps f.cpu at_core) ≡ true
      → FrameOk n (now + 1) ps (next_core f (cached ps f.cpu at_core))
  unfolding core_done lower_min
  next-FrameOk more done = record {
    low = omega arith;
    high = omega arith;
    qsc_le = qsc_le;
    inlib = inlib;
    checked = checked;
    min_start = λ e. absurd (omega arith);
    min_past = λ h. ground (arith, seen_past f.cpu at_core, seen_in f.cpu at_core);
    min_check = λ h.
        ground
          (arith, seen_past f.cpu at_core, seen_in f.cpu at_core, min_start, min_check, t.fits);
    covers = λ k lo hi. elim (ℕ_discrete k f.i) [
      | yes e ↦ rw e new-Covers
      | no ne ↦ λ h. ground (arith, covers k lo (omega arith) h)
    ];
  }

  remote-FrameOk :
      FrameOk n
        (now + 1)
        (ps_timing_update_remote ps f.cpu at_core now)
        (record f { first_try = false })
  remote-FrameOk =
      FrameOk-mono (now + 1)
        (record {
          low = low;
          high = high;
          qsc_le = qsc_le;
          inlib = inlib;
          checked = checked;
          min_start = min_start;
          min_past = min_past;
          min_check = min_check;
          covers = covers;
        })
        (update-Advances t f.cpu at_core) (omega arith)

  recheck-Good : f.i < n → Good n (now + 1) f.cpu ps (recheck n now ps f at_core)
  unfolding recheck
  recheck-Good more =
      rw (ne→== _ _ (never_self n f.cpu f.i hc low more))
        (elim (Bool-cases (ltb f.time_check (timing_of ps f.cpu).last_known_quiescence)) [
          | inl e ↦ rw e finish-Good
          | inr e ↦ rw e (elim (Bool-cases (core_done f.time_check (cached ps f.cpu at_core))) [
            | inl done ↦
                rw done (later-Timely, Advances-refl f.cpu ps, next-FrameOk more done, refl)
            | inr old ↦ rw old (elim (Bool-cases (f.first_try || f.blocking)) [
              | inl try ↦ rw try (
                update-Timely t f.cpu at_core lt,
                update-Advances t f.cpu at_core,
                remote-FrameOk,
                refl,
              )
              | inr stop ↦ rw stop (later-Timely, Advances-refl f.cpu ps, qsc_le)
            ])
          ])
        ])

  pub step-Good : Good n (now + 1) f.cpu ps (quiesce_step n now ps f)
  unfolding quiesce_step
  step-Good = elim (Bool-cases (ltb f.i n)) [
    | inl more ↦ rw more (recheck-Good (ltb→lt _ _ more))
    | inr end ↦ rw end finish-Good
  ]
