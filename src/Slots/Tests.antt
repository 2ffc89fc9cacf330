-- ===== src/Slots/Tests.antt =====
-- The pool of slots at concrete inputs: capacities and requests are numbers of cores.
use roboflow.Prelude.{Bool, List, [], leb, refl, some, ℕ, ◌+◌, ◌∷◌, ◌≡◌}
use roboflow.Slots.{SlotPool, acquire, available, busy, release, total, with_capacity}
use roboflow.Slots.Accounts.{Takes}
use roboflow.Slots.Permits.{PoolOp, acquire_exclusive, asks, pool_after, release_inflates_total}

abbrev enough : ℕ → ℕ → Bool
enough capacity request = leb request capacity

abbrev first_taken : List (PoolOp enough)
first_taken = asks 1 7 ∷ []

abbrev after_first : SlotPool ℕ
after_first = pool_after enough (with_capacity 1 2 4) first_taken

abbrev both_taken : SlotPool ℕ
both_taken = record {
  slots =
      record { id = 0; worker_id = 1; state = busy; task_id = some 7; capacity = 4 }
      ∷ record { id = 1; worker_id = 1; state = busy; task_id = some 8; capacity = 4 }
      ∷ [];
  permits = 2;
}

acquire_exclusive_example :
    Takes 8 0 1 after_first.slots both_taken.slots × (both_taken.permits ≡ after_first.permits)
unfolding pool_after with_capacity acquire
acquire_exclusive_example = acquire_exclusive enough 1 2 4 first_taken 2 8 1 both_taken refl

release_inflates_total_example :
    (available (release 1 both_taken) ≡ available after_first)
    × ((release 1 both_taken).permits ≡ after_first.permits + 1)
    × (total (release 1 both_taken) ≡ total after_first + 1)
unfolding pool_after with_capacity acquire
release_inflates_total_example =
    release_inflates_total enough 1 2 4 first_taken 2 8 1 both_taken refl
