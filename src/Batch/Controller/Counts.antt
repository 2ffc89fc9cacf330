-- ===== src/Batch/Controller/Counts.antt =====
-- What the controller's scan of the work units counts.
use roboflow.Batch.Controller.{
  Tally, apply_tally, count_entry, count_unit, describe_failure, empty_tally, tally_from,
}
use roboflow.Batch.Status.{BatchPhase, BatchStatus, FailedWorkUnit, is_complete}
use roboflow.Batch.WorkUnit.{
  WorkUnit, WorkUnitStatus, cancelled, complete, dead, failed, pending, processing,
}
use roboflow.Codec.{Codec}
use roboflow.Prelude.{
  Bool, List, Option-cases, [], append-nil, append_assoc, arith, false, if◌then◌else◌, inl, inr,
  length, none, refl, some, suc, true, ℕ, ◌++◌, ◌+◌, ◌<◌, ◌^◌, ◌∷◌, ◌≡◌, ◌≢◌, ◌≤◌,
}
use roboflow.Tikv.Store.{Store}

-- The units that the entries of a scan hold.
abbrev pub units_of : Codec WorkUnit → Store → List WorkUnit
units_of c [] = []
units_of c ((k, v) ∷ es) = elim (c.deserialize v) [
  | none ↦ units_of c es
  | some u ↦ u ∷ units_of c es
]

abbrev pub count_if : (WorkUnitStatus → Bool) → List WorkUnit → ℕ
count_if test [] = 0
count_if test (u ∷ us) = (if test u.status then 1 else 0) + count_if test us

abbrev pub completes : WorkUnitStatus → Bool
completes complete = true
completes _ = false

abbrev pub has_failed : WorkUnitStatus → Bool
has_failed failed = true
has_failed dead = true
has_failed _ = false

abbrev pub is_processing : WorkUnitStatus → Bool
is_processing processing = true
is_processing _ = false

-- Neither claimed yet nor to be worked on.
abbrev pub is_idle : WorkUnitStatus → Bool
is_idle pending = true
is_idle cancelled = true
is_idle _ = false

abbrev pub failures_of : List WorkUnit → List FailedWorkUnit
failures_of [] = []
failures_of (u ∷ us) =
    let rest = failures_of us in if has_failed u.status then describe_failure u ∷ rest else rest

-- Room for `n` more in each counter.
record HasRoom (t : Tally) (n : ℕ) : Type 0 where
  for_completed : t.completed + n < 2 ^ 32
  for_failed : t.failed_units + n < 2 ^ 32
  for_active : t.active + n < 2 ^ 32

record Adds (t r : Tally) (us : List WorkUnit) : Type 0 where
  completed_units : r.completed ≡ t.completed + count_if completes us
  failed_counted : r.failed_units ≡ t.failed_units + count_if has_failed us
  active_units : r.active ≡ t.active + count_if is_processing us
  failures_listed : r.failures ≡ t.failures ++ failures_of us

count_unit-Adds : (t : Tally) (u : WorkUnit) → HasRoom t 1 → Adds t (count_unit u t) (u ∷ [])
unfolding count_unit
count_unit-Adds t u h = ground (arith, append-nil t.failures)

count_unit-HasRoom :
    (t : Tally) (u : WorkUnit) (n : ℕ) → HasRoom t (suc n) → HasRoom (count_unit u t) n
unfolding count_unit
count_unit-HasRoom t u n h = ground arith

Adds-trans :
    (t s r : Tally) (u : WorkUnit) (us : List WorkUnit)
    → Adds t s (u ∷ [])
    → Adds s r us
    → Adds t r (u ∷ us)
Adds-trans t s r u us a b = ground (
  arith,
  append_assoc t.failures (describe_failure u ∷ []) (failures_of us),
  append-nil t.failures,
)

tally_from-Adds :
    (c : Codec WorkUnit) (t : Tally) (es : Store)
    → HasRoom t (length es)
    → Adds t (tally_from c t es) (units_of c es)
unfolding tally_from
tally_from-Adds c t [] h = ground (arith, append-nil t.failures)
tally_from-Adds c t ((k, v) ∷ es) h = elim (Option-cases (c.deserialize v)) [
  | inl e ↦ rw (e, units_of) (tally_from-Adds c t es (omega arith))
  | inr (u, e) ↦
      rw (e, units_of)
        (Adds-trans t (count_unit u t) (tally_from c (count_unit u t) es) u (units_of c es)
          (count_unit-Adds t u (omega arith))
          (tally_from-Adds c (count_unit u t) es (count_unit-HasRoom t u (length es) h)))
]

-- A scan of fewer than 2^32 entries counts its units by status, and describes those that failed, in
-- their order; entries that do not deserialize are left out.
pub tally_counts :
    (c : Codec WorkUnit) (es : Store)
    → length es < 2 ^ 32
    → let t = tally_from c empty_tally es in
      (t.completed ≡ count_if completes (units_of c es))
      × (t.failed_units ≡ count_if has_failed (units_of c es))
      × (t.active ≡ count_if is_processing (units_of c es))
      × (t.failures ≡ failures_of (units_of c es))
tally_counts c es h =
    let a = tally_from-Adds c empty_tally es (omega arith) in
    (omega arith, omega arith, omega arith, a.failures_listed)

-- Every entry holds a unit that is pending or cancelled.
abbrev pub AllIdle : Codec WorkUnit → Store → Type 0
AllIdle c [] = Unit {0}
AllIdle c ((k, v) ∷ es) =
    ((u : WorkUnit) × (c.deserialize v ≡ some u) × (is_idle u.status ≡ true)) × AllIdle c es

count_unit_idle : (u : WorkUnit) (t : Tally) → is_idle u.status ≡ true → count_unit u t ≡ t
unfolding count_unit
count_unit_idle u t h = ground arith

tally_from_idle :
    (c : Codec WorkUnit) (t : Tally) (es : Store) → AllIdle c es → tally_from c t es ≡ t
unfolding tally_from
tally_from_idle c t [] h = refl
tally_from_idle c t ((k, v) ∷ es) ((u, e, i), h) =
    rw (e, count_unit_idle u t i) (tally_from_idle c t es h)

tally_from-append :
    (c : Codec WorkUnit) (t : Tally) (es fs : Store)
    → tally_from c t (es ++ fs) ≡ tally_from c (tally_from c t es) fs
unfolding tally_from
tally_from-append c t [] fs = refl
tally_from-append c t ((k, v) ∷ es) fs = tally_from-append c (count_entry (c.deserialize v) t) es fs

complete_when_counted :
    (t : Tally) (s : BatchStatus) (backoff_limit now : ℕ)
    → 0 < t.completed
    → t.completed < 2 ^ 32
    → t.failed_units ≡ 0
    → t.active ≡ 0
    → s.phase ≢ BatchPhase.failed
    → let s' = apply_tally backoff_limit t s now in (is_complete s' ≡ true) × (s'.phase ≡ s.phase)
unfolding apply_tally is_complete
complete_when_counted t s backoff_limit now some_done b none_failed none_active p = ground arith

count_if-le : (test : WorkUnitStatus → Bool) (us : List WorkUnit) → count_if test us ≤ length us
count_if-le test [] = omega arith
count_if-le test (u ∷ us) = ground (arith, count_if-le test us)

length-units_of : (c : Codec WorkUnit) (es : Store) → length (units_of c es) ≤ length es
length-units_of c [] = omega arith
length-units_of c ((k, v) ∷ es) = elim (Option-cases (c.deserialize v)) [
  | inl e ↦ rw (e, units_of) (omega (arith, length-units_of c es))
  | inr (u, e) ↦ rw (e, units_of) (omega (arith, length-units_of c es))
]

-- Units that wait to be claimed do not count: a batch whose other units are all complete, and at
-- least one is, counts as complete however many of its units are still pending or cancelled,
-- whatever its status said before and unless it had failed it keeps its phase.
pub pending_units_uncounted :
    (c : Codec WorkUnit) (es waiting : Store) (s : BatchStatus) (backoff_limit now : ℕ)
    → length es < 2 ^ 32
    → AllIdle c waiting
    → 0 < count_if completes (units_of c es)
    → count_if has_failed (units_of c es) ≡ 0
    → count_if is_processing (units_of c es) ≡ 0
    → s.phase ≢ BatchPhase.failed
    → let s' = apply_tally backoff_limit (tally_from c empty_tally (es ++ waiting)) s now in
      (is_complete s' ≡ true) × (s'.phase ≡ s.phase)
pending_units_uncounted c es waiting s backoff_limit now b idle some_done no_failed no_active p =
    rw (tally_from-append c empty_tally es waiting, tally_from_idle c _ waiting idle)
      (complete_when_counted t s backoff_limit now (omega (arith, counts.0))
        (omega (arith, counts.0, count_if-le completes (units_of c es), length-units_of c es))
        (omega (arith, counts.1)) (omega (arith, counts.2)) p)
  where
    t : Tally
    t = tally_from c empty_tally es

    counts :
        (t.completed ≡ count_if completes (units_of c es))
        × (t.failed_units ≡ count_if has_failed (units_of c es))
        × (t.active ≡ count_if is_processing (units_of c es))
        × (t.failures ≡ failures_of (units_of c es))
    counts = tally_counts c es b
