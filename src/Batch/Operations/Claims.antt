-- ===== src/Batch/Operations/Claims.antt =====
-- Claiming work units from the store.
use roboflow.Batch.Operations.{
  Codecs, claim_named, claim_processor, claim_work_unit, parse_pending, read_claimed,
}
use roboflow.Batch.WorkUnit.{WorkUnit, claim, claimed_unit, is_claimable}
use roboflow.Bytes.{
  Bytes, Lacks, beq_iff, beq_refl, split_once-append, strip_prefix-append,
  trim_start_matches-append,
}
use roboflow.Prelude.{Option, [], arith, false, none, refl, some, ℕ, ◌++◌, ◌∙◌, ◌∷◌, ◌≡◌, ◌≢◌}
use roboflow.Tikv.Client.{Claim, claimed, unclaimed}
use roboflow.Tikv.Client.Healthy.{
  IsHealthy-write, after_claim, scan-IsHealthy, transactional_claim-IsHealthy,
}
use roboflow.Tikv.Error.{ok}
use roboflow.Tikv.Key.{pending_key, pending_key-prefix, pending_prefix, unit_key}
use roboflow.Tikv.Store.{insert, lookup, lookup-insert, lookup-remove, remove, scan_entries}
use roboflow.Tikv.World.{IsHealthy, World, continue}

-- The key of a pending unit is read back as its batch and unit, if the batch's name is not empty
-- and has no slash; the unit's name is arbitrary.
pub parse_pending-pending_key :
    (c : Codecs) (batch_id unit_id : Bytes)
    → batch_id ≢ []
    → Lacks b'/' batch_id
    → parse_pending c (pending_key batch_id unit_id) ≡ some (batch_id, unit_id)
unfolding parse_pending
parse_pending-pending_key c batch_id unit_id n l = ground (
  arith,
  pending_key-prefix batch_id unit_id,
  strip_prefix-append pending_prefix (b'/' ∷ batch_id ++ b'/' ∷ unit_id),
  trim_start_matches-append b'/' batch_id (b'/' ∷ unit_id) n l,
  split_once-append b'/' batch_id unit_id l,
)

claim_processor_refused :
    (c : Codecs) (worker d : Bytes) (now : ℕ) (u : WorkUnit)
    → c.units.deserialize d ≡ some u
    → is_claimable u ≡ false
    → claim_processor c worker now d ≡ unclaimed
unfolding claim_processor claim
claim_processor_refused c worker d now u e n = rw (e, claim_processor, n, claim)

claim_processor_granted :
    (c : Codecs) (worker d : Bytes) (now : ℕ) (u : WorkUnit) (d' : Bytes) (u' : WorkUnit)
    → c.units.deserialize d ≡ some u
    → claim u worker now ≡ claimed_unit u'
    → c.units.serialize u' ≡ some d'
    → claim_processor c worker now d ≡ claimed d'
unfolding claim_processor
claim_processor_granted c worker d now u d' u' e g s = rw (e, claim_processor, g, s)

claim_named_judged :
    (c : Codecs) (worker key : Bytes) (w : World) (batch_id unit_id d : Bytes) (r : Claim)
    → IsHealthy w
    → lookup (unit_key batch_id unit_id) w.store ≡ some d
    → claim_processor c worker w.now d ≡ r
    → claim_named c worker key (some (batch_id, unit_id)) w
      ≡ continue (read_claimed c) (after_claim (unit_key batch_id unit_id) key w (some (d, r)))
unfolding claim_named
claim_named_judged c worker key w batch_id unit_id d r h stored e = simp (
  transactional_claim-IsHealthy (unit_key batch_id unit_id) key (claim_processor c worker w.now) w
      h,
  stored,
  e,
)

-- A stored unit and its owner after a claim.
abbrev pub stored_unit : Codecs → Bytes → Bytes → World → Option WorkUnit
stored_unit c batch_id unit_id w = elim (lookup (unit_key batch_id unit_id) w.store) [
  | none ↦ none
  | some d ↦ c.units.deserialize d
]

-- The head of the queue, as a worker reads it before its transaction.
module _ (c : Codecs) (w : World) (h : IsHealthy w) (batch_id unit_id d : Bytes) (u : WorkUnit)
    (stored : lookup (unit_key batch_id unit_id) w.store ≡ some d)
    (decoded : c.units.deserialize d ≡ some u) where
  claim_named_refused :
      (worker key : Bytes)
      → is_claimable u ≡ false
      → claim_named c worker key (some (batch_id, unit_id)) w ≡ (ok none, w)
  claim_named_refused worker key n =
      claim_named_judged c worker key w batch_id unit_id d unclaimed h stored
        (claim_processor_refused c worker d w.now u decoded n)

  claim_named_granted :
      (worker key d' : Bytes) (u' : WorkUnit)
      → claim u worker w.now ≡ claimed_unit u'
      → c.units.serialize u' ≡ some d'
      → claim_named c worker key (some (batch_id, unit_id)) w ≡ (
        ok (some u'),
        record w { store = remove key (insert (unit_key batch_id unit_id) d' w.store) },
      )
  claim_named_granted worker key d' u' g s =
      claim_named_judged c worker key w batch_id unit_id d (claimed d') h stored
        (claim_processor_granted c worker d w.now u d' u' decoded g s)
      ∙ rw (c.units.deserialize-serialize u' d' s)

  -- With a client that nothing stands in the way of, and at the head of the queue the key of a
  -- stored unit that can be claimed and written back, of a batch whose name is not empty and has
  -- no slash: the worker gets the unit, it is stored as claimed, and its pending key is gone.
  pub claim_work_unit_granted :
      (worker v d' : Bytes) (u' : WorkUnit)
      → batch_id ≢ []
      → Lacks b'/' batch_id
      → scan_entries pending_prefix 1 w.store ≡ (pending_key batch_id unit_id, v) ∷ []
      → claim u worker w.now ≡ claimed_unit u'
      → c.units.serialize u' ≡ some d'
      → claim_work_unit c worker w ≡ (
        ok (some u'),
        record w {
          store =
              remove (pending_key batch_id unit_id) (insert (unit_key batch_id unit_id) d' w.store);
        },
      )
  unfolding claim_work_unit
  claim_work_unit_granted worker v d' u' n l first g s =
      simp
        (
          scan-IsHealthy pending_prefix 1 w h,
          first,
          parse_pending-pending_key c batch_id unit_id n l,
        )
        (claim_named_granted worker (pending_key batch_id unit_id) d' u' g s)

  -- With a client that nothing stands in the way of, and at the head of the queue the key of a
  -- stored unit that cannot be claimed, of a batch whose name is not empty and has no slash:
  -- whoever asks gets nothing, and nothing changes, so that the key stays at the head before every
  -- other unit.
  pub claim_work_unit_blocked :
      (worker v : Bytes)
      → batch_id ≢ []
      → Lacks b'/' batch_id
      → scan_entries pending_prefix 1 w.store ≡ (pending_key batch_id unit_id, v) ∷ []
      → is_claimable u ≡ false
      → claim_work_unit c worker w ≡ (ok none, w)
  unfolding claim_work_unit
  claim_work_unit_blocked worker v n l first r =
      simp
        (
          scan-IsHealthy pending_prefix 1 w h,
          first,
          parse_pending-pending_key c batch_id unit_id n l,
        )
        (claim_named_refused worker (pending_key batch_id unit_id) r)

claim_not_again :
    (u u' : WorkUnit) (worker : Bytes) (now : ℕ)
    → claim u worker now ≡ claimed_unit u'
    → is_claimable u' ≡ false
unfolding claim is_claimable
claim_not_again u u' worker now g = ground arith

-- Two workers have read the same pending key of a unit that is stored and can be claimed and
-- written back, and nothing stands in the way of their client: once one of them has claimed the
-- unit, the other's transaction gets nothing and leaves the store as the first one made it.
pub claim_excludes :
    (c : Codecs) (w : World) (batch_id unit_id d d' : Bytes) (u u' : WorkUnit)
    (worker other_worker key : Bytes)
    → IsHealthy w
    → lookup (unit_key batch_id unit_id) w.store ≡ some d
    → c.units.deserialize d ≡ some u
    → key ≢ unit_key batch_id unit_id
    → claim u worker w.now ≡ claimed_unit u'
    → c.units.serialize u' ≡ some d'
    → let w' = (claim_named c worker key (some (batch_id, unit_id)) w).1 in
      ((claim_named c worker key (some (batch_id, unit_id)) w).0 ≡ ok (some u'))
      × (claim_named c other_worker key (some (batch_id, unit_id)) w' ≡ (ok none, w'))
claim_excludes c w batch_id unit_id d d' u u' worker other_worker key h stored decoded k g s =
    rw (claim_named_granted c w h batch_id unit_id d u stored decoded worker key d' u' g s) (
      refl,
      claim_named_refused c after (IsHealthy-write w _ h) batch_id unit_id d' u' kept
          (c.units.deserialize-serialize u' d' s) other_worker key
          (claim_not_again u u' worker w.now g),
    )
  where
    after : World
    after = record w { store = remove key (insert (unit_key batch_id unit_id) d' w.store) }

    kept : lookup (unit_key batch_id unit_id) after.store ≡ some d'
    kept = ground (
      arith,
      lookup-remove key (unit_key batch_id unit_id) (insert (unit_key batch_id unit_id) d' w.store),
      lookup-insert (unit_key batch_id unit_id) (unit_key batch_id unit_id) d' w.store,
      beq_iff key (unit_key batch_id unit_id),
      beq_refl (unit_key batch_id unit_id),
    )
