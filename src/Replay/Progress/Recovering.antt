-- ===== src/Replay/Progress/Recovering.antt =====
-- Recoveries: each start spends a use, which pays for the resumption that it may bring.
use mathlib.Core.List.{Memᴰ}
use mathlib.Core.List.Memᴰ
use replay_forge.Base.{
  Bool, Bool-cases, List, Option, String, [], arith, bool_eq, eq_refl, eq→≡, false, if◌then◌else◌,
  inl, inr, leb, nat_eq, none, option_eq, pair_eq, refl, runtime_error, some, string_eq, subst, sym,
  true, ℕ, ◌+◌, ◌-◌, ◌==◌, ◌∷◌, ◌≡◌, ◌≤◌, ◌⊎◌,
}
use replay_forge.Dict.{Dict, insert}
use replay_forge.Capabilities.Json.{Fields}
use replay_forge.Capabilities.Artifact.{CapabilityArtifact, Recovery, Step}
use replay_forge.Replay.Machine.{
  Outcome, Ports, Run, State, exhausted, failed, raised, record_event, recovery_completed,
  recovery_exhausted, recovery_started, return, returned, ◌>>=◌, ◌>>◌,
}
use replay_forge.Replay.Machine.Grades.{Ends, Grade, plain}
use replay_forge.Replay.Machine.Parts.{
  Good, done, raise-Good, reading-Good, record-Good, return-Good, seq, seq_with, with_leases-Good,
}
use replay_forge.Replay.Journal.{
  Progress, all_steps, is_sound, limit, permits_use, progress, starts, uses_left-spent,
  uses_of-count,
}
use replay_forge.Replay.Results.{ReplayRequest, RunResult, fail_step}
use replay_forge.Replay.Detection.{last_with}
use replay_forge.Replay.Steps.{StepEnd, finished, proceed, resume_at}
use replay_forge.Replay.Engine.{
  after_recovery, after_recovery_step, attempt_recovery, beat, count_use, execute_recovery,
  recovery_step, recovery_steps, start_recovery, use_matched, use_recovery, uses_of,
}
use replay_forge.Replay.Progress.Keys.{last_with-Memᴰ, last_with-key, recovery_steps_of-Memᴰ}
use replay_forge.Replay.Progress.Reporting.{Unsuccessful}
use replay_forge.Replay.Progress.Detecting.{OptionFound, detect_one-Good}
use replay_forge.Replay.Progress.Stepping.{EndMeets, fail_step-Good, step_end}
use replay_forge.Replay.Progress.Attempting.{
  OptionEndMeets, any-member, execute_step_with-Good, option_end,
}

abbrev pub EitherMeets : RunResult ⊎ ℕ → Type 0
EitherMeets (inl r) = Unsuccessful r
EitherMeets (inr version) = Unit {0}

abbrev pub either : Grade (RunResult ⊎ ℕ)
either = record { price = λ _. 0; meets = EitherMeets }

module _ {W : Type 0} (ports : Ports W) (request : ReplayRequest) (inputs : Fields) where
  abbrev a : CapabilityArtifact
  a = request.artifact

  pub beat-Good : (version : ℕ) → Good a plain (beat ports request inputs version)
  unfolding beat
  beat-Good version = seq a (reading-Good a) (λ x. seq a (reading-Good a) (λ y.
      seq a (reading-Good a) (λ z. seq a (with_leases-Good a _) (λ lease. done a lease.version))))

  recovery_step-Good :
      (step : Step)
      → Memᴰ step (all_steps a)
      → (version : ℕ) → Good a step_end (recovery_step ports request inputs step version)
  recovery_step-Good step listed version =
      execute_step_with-Good ports request inputs (λ s v. return none) false
        (λ s v. return-Good a option_end none tt refl) step listed version 1

  after_recovery_step-Good :
      (rest : ℕ → Run W (RunResult ⊎ ℕ)) (version : ℕ) (e : StepEnd)
      → ((v : ℕ) → Good a either (rest v))
      → EndMeets e
      → Good a either (after_recovery_step ports request inputs rest version e)
  unfolding after_recovery_step
  after_recovery_step-Good rest version (resume_at id v) others good =
      raise-Good a either runtime_error
  after_recovery_step-Good rest version (finished r) others good =
      return-Good a either (inl r) good refl
  after_recovery_step-Good rest version proceed others good = seq a (beat-Good version) others

  recovery_steps-Good :
      (steps : List Step) (version : ℕ)
      → ((s : Step) → Memᴰ s steps → Memᴰ s (all_steps a))
      → Good a either (recovery_steps ports request inputs steps version)
  unfolding recovery_steps
  recovery_steps-Good [] version listed = return-Good a either (inr version) tt refl
  recovery_steps-Good (step ∷ steps) version listed =
      seq_with a (recovery_step-Good step (listed step (Memᴰ.head refl)) version) (λ e good.
        after_recovery_step-Good _ version e
          (λ v. recovery_steps-Good steps v (λ s m. listed s (Memᴰ.tail m))) good)

  -- The grade without the price of a resumption.
  abbrev free_end : Grade (Option StepEnd)
  free_end = record { price = λ _. 0; meets = OptionEndMeets }

  module _ (r : Recovery) (declared : Memᴰ r a.recoveries) where
    execute_recovery-Good :
        (version : ℕ) → Good a either (execute_recovery ports request inputs r version)
    unfolding execute_recovery
    execute_recovery-Good version = seq a (beat-Good version) (λ next.
        recovery_steps-Good r.steps next
          (λ s m. Memᴰ.append_right a.steps (recovery_steps_of-Memᴰ a.recoveries declared m)))

    after_recovery-Good :
        (step : Step) (x : RunResult ⊎ ℕ)
        → EitherMeets x
        → Good a free_end (after_recovery ports request inputs step r x)
    unfolding after_recovery
    after_recovery-Good step (inl result) good =
        return-Good a free_end (some (finished result)) good refl
    after_recovery-Good step (inr next) good =
        seq a (record-Good a (recovery_completed step.id r.id r.resume_at) (λ log. refl))
          (λ u. return-Good a free_end (some (resume_at r.resume_at next)) tt refl)

    use_permitted : (uses : ℕ) → leb r.max_uses uses ≡ false → permits_use r.id (uses + 1) r ≡ true
    use_permitted uses h = ground (arith, eq_refl r.id, h)

    within_limit :
        (uses : Dict String ℕ)
        → leb r.max_uses (uses_of uses r.id) ≡ false
        → last_with (λ x. x.id) a.recoveries r.id ≡ some r
        → (id : String)
        → uses_of (insert uses r.id (uses_of uses r.id + 1)) id
          ≤ uses_of uses id + (limit a id - uses_of uses id)
    within_limit uses some_left found id = elim (Bool-cases (r.id == id)) [
      | inl e ↦
          subst
            (λ x.
              uses_of (insert uses r.id (uses_of uses r.id + 1)) x
              ≤ uses_of uses x + (limit a x - uses_of uses x))
            (eq→≡ r.id id e)
            (ground (arith, uses_of-count uses r.id r.id, eq_refl r.id, some_left, found))
      | inr e ↦ ground (arith, uses_of-count uses r.id id, e)
    ]

    -- The state in which the use is counted and the start is journalled.
    abbrev begun : Step → State W → State W
    begun step s = record s {
      recovery_uses = insert s.recovery_uses r.id (uses_of s.recovery_uses r.id + 1);
      log = recovery_started step.id r.id (uses_of s.recovery_uses r.id + 1) ∷ s.log;
    }

    begun-Progress :
        (step : Step) (s : State W)
        → leb r.max_uses (uses_of s.recovery_uses r.id) ≡ false
        → last_with (λ x. x.id) a.recoveries r.id ≡ some r
        → Progress a 1 s (begun step s)
    unfolding is_sound starts
    begun-Progress step s some_left found = record {
      spends = omega (
        arith,
        uses_left-spent a.recoveries s.recovery_uses declared (ground (arith, some_left)),
      );
      keeps_sound = λ h. ground (
        arith,
        any-member (permits_use r.id (uses_of s.recovery_uses r.id + 1)) a.recoveries declared
            (use_permitted (uses_of s.recovery_uses r.id) some_left),
        h,
      );
      counts = λ id. ground (arith, uses_of-count s.recovery_uses r.id id);
      limits = λ id. within_limit s.recovery_uses some_left found id;
    }

    start_recovery-Good :
        (step : Step) (version : ℕ)
        → Good a free_end (
            execute_recovery ports request inputs r version
            >>= after_recovery ports request inputs step r)
    start_recovery-Good step version =
        seq_with a (execute_recovery-Good version) (after_recovery-Good step)

    free : (s t u : State W) → Progress a 1 s t → Progress a 0 t u → Progress a 0 s u
    free s t u p q = (progress a).then_ 0 ((progress a).spares 1 p) q

    -- After a use was spent, a resumption is paid for.
    paid :
        (s t : State W) (x : Outcome (Option StepEnd) × State W)
        → Progress a 1 s t
        → Ends (progress a) free_end t x
        → Ends (progress a) option_end s x
    paid s t (returned none, u) p (h, q) = (h, free s t u p q)
    paid s t (returned (some (resume_at id v)), u) p (h, q) = (
      h,
      record {
        spends = omega (arith, p.spends, q.spends);
        keeps_sound = λ g. q.keeps_sound (p.keeps_sound g);
        counts = λ i. omega (arith, p.counts i, q.counts i);
        limits = λ i. omega (arith, p.limits i, q.limits i);
      },
    )
    paid s t (returned (some (finished result)), u) p (h, q) = (h, free s t u p q)
    paid s t (returned (some proceed), u) p (h, q) = (h, free s t u p q)
    paid s t (failed e, u) p q = free s t u p q
    paid s t (raised e, u) p q = free s t u p q
    paid s t (exhausted, u) p q = q

    use_recovery-Ends :
        (step : Step) (version : ℕ)
        → last_with (λ x. x.id) a.recoveries r.id ≡ some r
        → (s : State W)
        → Ends
            (progress a)
            option_end
            s
            (use_recovery ports request inputs step version r (uses_of s.recovery_uses r.id) s)
    unfolding use_recovery count_use start_recovery record_event
    use_recovery-Ends step version found s =
        by_limit (leb r.max_uses (uses_of s.recovery_uses r.id)) refl
      where
        exhausted_uses : Good a option_end (
            record_event (recovery_exhausted step.id r.id (uses_of s.recovery_uses r.id))
            >> (fail_step ports "recovery_exhausted" (some step.id) >>= λ x.
                return (some (finished x))))
        exhausted_uses =
            seq a (record-Good a (recovery_exhausted step.id r.id _) (λ log. refl)) (λ u.
              seq_with a (fail_step-Good ports request inputs "recovery_exhausted" (some step.id))
                (λ x bad. return-Good a option_end (some (finished x)) bad refl))

        by_limit :
            (b : Bool)
            → leb r.max_uses (uses_of s.recovery_uses r.id) ≡ b
            → Ends (progress a) option_end s (
                (if b
                    then (do
                      record_event (recovery_exhausted step.id r.id (uses_of s.recovery_uses r.id))
                      x ← fail_step ports "recovery_exhausted" (some step.id)
                      return (some (finished x)))
                    else (count_use ports request inputs r.id (uses_of s.recovery_uses r.id)
                        >> start_recovery ports request inputs step version r
                            (uses_of s.recovery_uses r.id)))
                  s)
        by_limit true e = exhausted_uses.at s
        by_limit false e =
            paid s (begun step s) _ (begun-Progress step s e found)
              ((start_recovery-Good step version).at (begun step s))

  pub attempt_recovery-Good :
      (step : Step) (version : ℕ)
      → Good a option_end (attempt_recovery ports request inputs step version)
  unfolding attempt_recovery use_matched
  attempt_recovery-Good step version =
      seq_with a (detect_one-Good a ports inputs _ _ step.recovery_refs) after
    where
      after :
          (o : Option Recovery)
          → OptionFound a ports inputs (last_with (λ x. x.id) a.recoveries) (λ x. x.trigger) o
          → Good a option_end (use_matched ports request inputs step version o)
      after none found = return-Good a option_end none tt refl
      after (some r) (code, found) = record {
        at = use_recovery-Ends r (last_with-Memᴰ (λ x. x.id) a.recoveries code found) step version (
            subst (λ x. last_with (λ y. y.id) a.recoveries x ≡ some r)
              (sym (last_with-key (λ x. x.id) a.recoveries code found)) found);
      }
