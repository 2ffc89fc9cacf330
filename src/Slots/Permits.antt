-- ===== src/Slots/Permits.antt =====
-- Any requests and releases of slots, and the permits they leave.
use roboflow.Prelude.{
  Bool, List, Option, [], arith, false, if◌then◌else◌, none, some, true, ℕ, ◌+◌, ◌==◌, ◌∷◌, ◌≡◌,
}
use roboflow.Slots.{
  Slot, SlotPool, acquire, after_search, available, blocked, guard, release, take_slot, total,
  with_capacity,
}
use roboflow.Slots.Accounts.{
  Numbered, TakesSome, Takes, acquire-Takes, free_slots-Numbered, release_slot-Numbered,
  take_slot-TakesSome,
}

module _ {C R : Type 0} (can_satisfy : C → R → Bool) where
  -- Tasks that ask for a slot, and guards that are dropped.
  pub data PoolOp : Type 0 where
    asks : R → ℕ → PoolOp
    drops : ℕ → PoolOp

  unfoldable pub pool_after : SlotPool C → List PoolOp → SlotPool C
  pool_after p [] = p
  pool_after p (asks request task ∷ os) = pool_after ((acquire can_satisfy request task p).1) os
  pool_after p (drops i ∷ os) = pool_after (release i p) os

  search-Numbered :
      (task : ℕ) (p : SlotPool C) (o : Option (ℕ × List (Slot C))) (no_permit : Bool)
      → Numbered 0 p.slots
      → TakesSome task 0 p.slots o
      → Numbered 0 ((if no_permit then (blocked, p) else after_search can_satisfy p o).1.slots)
  search-Numbered task p o true h t = h
  search-Numbered task p none false h t = h
  search-Numbered task p (some (i, ss)) false h t = t.numbered

  pool_after-Numbered :
      (p : SlotPool C) (os : List PoolOp) → Numbered 0 p.slots → Numbered 0 (pool_after p os).slots
  unfolding pool_after acquire release
  pool_after-Numbered p [] h = h
  pool_after-Numbered p (asks request task ∷ os) h =
      pool_after-Numbered ((acquire can_satisfy request task p).1) os (
        search-Numbered task p (take_slot can_satisfy request task p.slots) (p.permits == 0) h
          (take_slot-TakesSome can_satisfy request task 0 p.slots h))
  pool_after-Numbered p (drops i ∷ os) h =
      pool_after-Numbered (release i p) os (release_slot-Numbered i 0 p.slots h)

  -- After any requests and releases, a task that is granted a slot of the pool gets one that was free:
  -- the slot is busy with that task and every other slot is as before, one slot fewer is free, and
  -- the permits are as many as before.
  pub acquire_exclusive :
      (worker num_slots : ℕ) (capacity : C) (os : List PoolOp) (request : R) (task j : ℕ)
      (p' : SlotPool C)
      → let p = pool_after (with_capacity worker num_slots capacity) os in
        acquire can_satisfy request task p ≡ (guard j, p')
        → Takes task 0 j p.slots p'.slots × (p'.permits ≡ p.permits)
  unfolding with_capacity
  acquire_exclusive worker num_slots capacity os request task j p' e =
      let p = pool_after (with_capacity worker num_slots capacity) os in
      acquire-Takes can_satisfy request task j p p'
        (pool_after-Numbered (with_capacity worker num_slots capacity) os
          (free_slots-Numbered worker capacity 0 num_slots))
        e

  -- Each time a slot is acquired and its guard dropped, as many slots are free as before, but the pool
  -- has one permit more than it had, and reports one slot more in total.
  pub release_inflates_total :
      (worker num_slots : ℕ) (capacity : C) (os : List PoolOp) (request : R) (task j : ℕ)
      (p' : SlotPool C)
      → let p = pool_after (with_capacity worker num_slots capacity) os in
        acquire can_satisfy request task p ≡ (guard j, p')
        → (available (release j p') ≡ available p)
          × ((release j p').permits ≡ p.permits + 1)
          × (total (release j p') ≡ total p + 1)
  unfolding release available total
  release_inflates_total worker num_slots capacity os request task j p' e =
      let (t, same) = acquire_exclusive worker num_slots capacity os request task j p' e in
      (t.free_again, omega (arith, same), omega (arith, t.taken_again, same))
