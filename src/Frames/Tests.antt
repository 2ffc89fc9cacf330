-- ===== src/Frames/Tests.antt =====
-- The ring buffer at concrete inputs.
use roboflow.Frames.{FrameRingBuffer, empty_ring, next_power_of_two, set_slot, try_pop, try_push}
use roboflow.Frames.Capacity.{empty_ring-Holds}
use roboflow.Frames.Fifo.{Holds, Pops, Pushes, try_pop-Pops, try_push-Pushes}
use roboflow.Prelude.{[], arith, some, ℕ, ◌∷◌}

abbrev fresh : FrameRingBuffer ℕ
fresh = empty_ring 3

fresh-Holds : Holds fresh []
fresh-Holds = (empty_ring-Holds ℕ 3 (omega arith)).0

abbrev one : FrameRingBuffer ℕ
one = record fresh { buffer = set_slot 0 (some 7) (fresh.buffer); write_idx = 1 }

one-Holds : Holds one (7 ∷ [])
unfolding try_push empty_ring next_power_of_two
one-Holds = (try_push-Pushes 7 fresh [] fresh-Holds).0

try_push-Pushes_example : Pushes one (7 ∷ []) 8 (try_push 8 one)
try_push-Pushes_example = try_push-Pushes 8 one (7 ∷ []) one-Holds

try_pop-Pops_example : Pops one (7 ∷ []) (try_pop one)
try_pop-Pops_example = try_pop-Pops one (7 ∷ []) one-Holds
