-- ===== src/Slots.antt =====
-- The pool of task slots: crates/roboflow-executor/src/resource.rs. Capacities and requests hold
-- floating point numbers, so `can_satisfy` is a parameter. A method that awaits the lock on the slots
-- runs whole; `blocked` stands for an `acquire` that waits for a permit.
pub mod Accounts
pub mod Permits
mod Tests
use roboflow.Prelude.{
  Bool, List, Option, [], false, if◌then◌else◌, none, some, suc, true, zero, ℕ, ◌&&◌, ◌+◌, ◌==◌,
  ◌∷◌,
}

pub data SlotState : Type 0 where
  free reserved busy draining : SlotState

pub record Slot (C : Type 0) : Type 0 where
  pub id : ℕ  -- u64
  pub worker_id : ℕ  -- u64
  pub state : SlotState
  pub task_id : Option ℕ
  pub capacity : C

pub record SlotPool (C : Type 0) : Type 0 where
  pub slots : List (Slot C)
  pub permits : ℕ  -- of the semaphore

pub data Acquired : Type 0 where
  blocked no_slot : Acquired
  guard : ℕ → Acquired

abbrev pub is_free : SlotState → Bool
is_free free = true
is_free _ = false

module _ {C : Type 0} where
  unfoldable pub free_slots : ℕ → C → ℕ → ℕ → List (Slot C)
  free_slots worker capacity i zero = []
  free_slots worker capacity i (suc n) =
      record { id = i; worker_id = worker; state = free; task_id = none; capacity = capacity }
      ∷ free_slots worker capacity (i + 1) n

  unfoldable pub with_capacity : ℕ → ℕ → C → SlotPool C
  unfolding free_slots
  with_capacity worker num_slots capacity = record {
    slots = free_slots worker capacity 0 num_slots;
    permits = num_slots;
  }

  unfoldable pub release_slot : ℕ → List (Slot C) → List (Slot C)
  release_slot i [] = []
  release_slot i (s ∷ ss) =
      if s.id == i then record s { state = free; task_id = none } ∷ ss else s ∷ release_slot i ss

  -- What the drop of a guard does. The permit comes back although `acquire` did not keep it.
  unfoldable pub release : ℕ → SlotPool C → SlotPool C
  unfolding release_slot
  release i p = record { slots = release_slot i p.slots; permits = p.permits + 1 }

  unfoldable pub count_free : List (Slot C) → ℕ
  count_free [] = 0
  count_free (s ∷ ss) = (if is_free s.state then 1 else 0) + count_free ss

  unfoldable pub count_taken : List (Slot C) → ℕ
  count_taken [] = 0
  count_taken (s ∷ ss) = (if is_free s.state then 0 else 1) + count_taken ss

  unfoldable pub available : SlotPool C → ℕ
  unfolding count_free
  available p = count_free p.slots

  -- While nobody holds the lock on the slots.
  unfoldable pub total : SlotPool C → ℕ
  unfolding count_taken
  total p = p.permits + count_taken p.slots

module _ {C R : Type 0} (can_satisfy : C → R → Bool) where
  abbrev pub or_keep : Slot C → Option (ℕ × List (Slot C)) → Option (ℕ × List (Slot C))
  or_keep s none = none
  or_keep s (some (i, ss)) = some (i, s ∷ ss)

  -- The first free slot that is large enough becomes busy.
  unfoldable pub take_slot : R → ℕ → List (Slot C) → Option (ℕ × List (Slot C))
  take_slot request task [] = none
  take_slot request task (s ∷ ss) =
      let rest = take_slot request task ss in
      if is_free s.state && can_satisfy s.capacity request
      then some (s.id, record s { state = busy; task_id = some task } ∷ ss)
      else or_keep s rest

  -- The permit is dropped either way; without a slot one more is added.
  abbrev pub after_search : SlotPool C → Option (ℕ × List (Slot C)) → Acquired × SlotPool C
  after_search p none = (no_slot, record p { permits = p.permits + 1 })
  after_search p (some (i, ss)) = (guard i, record p { slots = ss })

  unfoldable pub acquire : R → ℕ → SlotPool C → Acquired × SlotPool C
  unfolding take_slot
  acquire request task p =
      if p.permits == 0 then (blocked, p) else after_search p (take_slot request task p.slots)
