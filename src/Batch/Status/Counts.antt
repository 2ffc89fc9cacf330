-- ===== src/Batch/Status/Counts.antt =====
-- The counters and time stamps of a batch's status.
use roboflow.Batch.Status.{
  BatchPhase, BatchStatus, FailedWorkUnit, can_transition_to, cancelled, complete, discovering,
  failed, increment_active, is_claimable, is_complete, is_terminal, lifecycle, new,
  record_completion, record_failure, running, transition_to,
}
use roboflow.Lifecycle.{IsLawful}
use roboflow.Prelude.{
  Bool, List, Option, [], arith, false, if◌then◌else◌, length, length-append, none, refl, some,
  true, ℕ, ◌+◌, ◌<◌, ◌^◌, ◌∙◌, ◌∷◌, ◌≡◌, ◌≤◌,
}

-- What is reported, and how many units it starts. Nothing ends that was not started.
pub data Report : BatchStatus → ℕ → BatchStatus → Type 0 where
  starts : (s : BatchStatus) (count now : ℕ) → Report s count (increment_active s count now)
  completes :
      (s : BatchStatus) (count now : ℕ)
      → count ≤ s.work_units_active
      → Report s 0 (record_completion s count now)
  fails :
      (s : BatchStatus) (unit : FailedWorkUnit) (now : ℕ)
      → 0 < s.work_units_active
      → Report s 0 (record_failure s unit now)

-- Reports one after another, and how many units they start in all.
pub data Reports (s : BatchStatus) : ℕ → BatchStatus → Type 0 where
  here : Reports s 0 s
  next :
      {m : ℕ} {t : BatchStatus} {n : ℕ} {u : BatchStatus}
      → Reports s m t
      → Report t n u
      → Reports s (m + n) u

-- The units that the counters show, in whatever state.
abbrev pub units_counted : BatchStatus → ℕ
units_counted s = s.work_units_completed + s.work_units_failed + s.work_units_active

pub record Accounts (s : BatchStatus) : Type 0 where
  pub completed_files : s.files_completed ≡ s.work_units_completed
  pub failed_files : s.files_failed ≡ s.work_units_failed
  pub active_files : s.files_active ≡ s.work_units_active
  pub listed : length s.failed_work_units ≡ s.work_units_failed

-- The counters after more units were started.
record Counted (s : BatchStatus) (n : ℕ) (t : BatchStatus) : Type 0 where
  same_total : t.work_units_total ≡ s.work_units_total
  in_order : Accounts t
  balance : units_counted t ≡ units_counted s + n

Report-Counted :
    {s : BatchStatus} {n : ℕ} {t : BatchStatus}
    → Report s n t
    → units_counted s + n < 2 ^ 32
    → Accounts s
    → Counted s n t
unfolding increment_active record_completion record_failure
Report-Counted (starts s count now) few a = ground arith
Report-Counted (completes s count now h) few a = ground arith
Report-Counted (fails s unit now h) few a =
    ground (arith, length-append s.failed_work_units (unit ∷ []))

Reports-Counted :
    {s : BatchStatus} {n : ℕ} {t : BatchStatus}
    → Reports s n t
    → units_counted s + n < 2 ^ 32
    → Accounts s
    → Counted s n t
Reports-Counted {s} here few a = record { same_total = refl; in_order = a; balance = omega arith }
Reports-Counted (next r p) few a =
    let before = Reports-Counted r (omega arith) a in
    let after = Report-Counted p (omega (arith, before.balance)) before.in_order in
    record {
      same_total = after.same_total ∙ before.same_total;
      in_order = after.in_order;
      balance = omega (arith, before.balance, after.balance);
    }

-- From a status whose counters are in order, whatever is reported in any order without ending units
-- that were not started, while fewer than 2^32 are counted: every unit that was started is counted
-- once, as complete, failed or active; the file counters follow the unit counters, and every failure
-- is listed; and a status is complete only when as many units are active as were started beyond the
-- total.
pub Reports-is_complete :
    {s : BatchStatus} {n : ℕ} {t : BatchStatus}
    → Accounts s
    → Reports s n t
    → units_counted s + n < 2 ^ 32
    → (units_counted t ≡ units_counted s + n)
      × Accounts t
      × (is_complete t ≡ true → t.work_units_active + s.work_units_total ≡ units_counted s + n)
unfolding is_complete
Reports-is_complete {s} {n} {t} a r few =
    let k = Reports-Counted r few a in
    (k.balance, k.in_order, λ h. ground (arith, k.balance, k.same_total))

-- Transitions one after another, with their times.
unfoldable pub transitions : BatchStatus → List (BatchPhase × ℕ) → BatchStatus
transitions s [] = s
transitions s ((p, now) ∷ ps) = transitions (transition_to s p now) ps

abbrev starts_work : BatchPhase → Bool
starts_work discovering = true
starts_work running = true
starts_work _ = false

abbrev first_time : (BatchPhase → Bool) → List (BatchPhase × ℕ) → Option ℕ
first_time test [] = none
first_time test ((p, now) ∷ ps) = let rest = first_time test ps in if test p then some now else rest

abbrev or_else : Option ℕ → Option ℕ → Option ℕ
or_else none b = b
or_else (some a) b = some a

transitions-times :
    (s : BatchStatus) (ps : List (BatchPhase × ℕ))
    → ((transitions s ps).started_at ≡ or_else s.started_at (first_time starts_work ps))
      × ((transitions s ps).completed_at ≡ or_else s.completed_at (first_time is_terminal ps))
unfolding transitions transition_to is_terminal
transitions-times s [] = ground arith
transitions-times s ((discovering, now) ∷ ps) =
    ground (arith, transitions-times (transition_to s discovering now) ps)
transitions-times s ((running, now) ∷ ps) =
    ground (arith, transitions-times (transition_to s running now) ps)
transitions-times s ((complete, now) ∷ ps) =
    ground (arith, transitions-times (transition_to s complete now) ps)
transitions-times s ((failed, now) ∷ ps) =
    ground (arith, transitions-times (transition_to s failed now) ps)
transitions-times s ((cancelled, now) ∷ ps) =
    ground (arith, transitions-times (transition_to s cancelled now) ps)
transitions-times s ((p, now) ∷ ps) = ground (arith, transitions-times (transition_to s p now) ps)

-- However a new status moves between phases, it is stamped as started at the first move to
-- discovering or running, and as completed at the first move to a terminal phase, for good.
pub transitions_stamps :
    (made : ℕ) (ps : List (BatchPhase × ℕ))
    → ((transitions (new made) ps).started_at ≡ first_time starts_work ps)
      × ((transitions (new made) ps).completed_at ≡ first_time is_terminal ps)
unfolding new
transitions_stamps made ps = transitions-times (new made) ps

-- The phases of a batch keep the promises of the trait's documentation: a phase may stay as it is, a
-- terminal one leads to no other, and a claimable one is not terminal.
phase_lifecycle-IsLawful : IsLawful lifecycle
unfolding is_terminal is_claimable can_transition_to
phase_lifecycle-IsLawful = record {
  self_allowed = λ s. ground arith;
  terminal_stays = λ s t h k. ground arith;
  claimable_lives = λ s h. ground arith;
}
