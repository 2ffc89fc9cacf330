-- ===== src/Episode/Tests.antt =====
-- The episode allocator at concrete inputs.
use roboflow.Bytes.{Bytes, codes}
use roboflow.Codec.{Codec}
use roboflow.Episode.{
  EpisodeAllocator, EpisodeCounter, advance, new_allocator, new_counter, version_before,
}
use roboflow.Episode.Sharing.{allocations_tile}
use roboflow.Episode.Snapshots.{set}
use roboflow.Episode.Steps.{Reachable, System, Tiles, creates, initial, moves, reads, starts, swaps}
use roboflow.Prelude.{Option, [], arith, none, refl, some, ℕ, ◌<◌, ◌^◌, ◌∷◌, ◌≡◌, ◌≤◌}
use roboflow.Tikv.Cas.{cas_check}
use roboflow.Tikv.Store.{Store, insert}

abbrev read_counter : Bytes → Option EpisodeCounter
read_counter (n ∷ v ∷ []) = some (record { next_episode = n; version = v })
read_counter _ = none

abbrev written_counter : EpisodeCounter → Option Bytes
written_counter c = some (c.next_episode ∷ c.version ∷ [])

written_counter_reads :
    (c : EpisodeCounter) (b : Bytes) → written_counter c ≡ some b → read_counter b ≡ some c
written_counter_reads c b e = ground arith

abbrev counters : Codec EpisodeCounter
counters = record {
  serialize = written_counter;
  deserialize = read_counter;
  deserialize-serialize = written_counter_reads;
}

abbrev version_of : Bytes → Option ℕ
version_of (n ∷ v ∷ []) = some v
version_of _ = none

version_written :
    (c : EpisodeCounter) (b : Bytes) → counters.serialize c ≡ some b → version_of b ≡ some c.version
version_written c b e = ground arith

abbrev none_yet : EpisodeCounter
none_yet = record { next_episode = 0; version = 0 }

-- The counter is created, two workers read it, and the first takes five episodes.
abbrev created : System
created = record initial { stored = some (0 ∷ 0 ∷ []) }

abbrev first_read : System
first_read = record created { snapshot = set 0 (some none_yet) created.snapshot }

abbrev both_read : System
both_read = record first_read { snapshot = set 1 (some none_yet) first_read.snapshot }

abbrev swapped_once : System
swapped_once = record {
  stored = some (5 ∷ 1 ∷ []);
  snapshot = set 0 none both_read.snapshot;
  grants = (0, 5) ∷ [];
}

swapped_once-Reachable : Reachable counters version_of 100 swapped_once
unfolding new_counter cas_check advance version_before
swapped_once-Reachable =
    moves both_read swapped_once
      (moves first_read both_read
        (moves created first_read (moves initial created starts (creates (0 ∷ 0 ∷ []) refl refl))
          (reads 0 (0 ∷ 0 ∷ []) none_yet refl refl))
        (reads 1 (0 ∷ 0 ∷ []) none_yet refl refl))
      (swaps 0 5 0 none_yet (record { next_episode = 5; version = 1 }) (5 ∷ 1 ∷ []) refl
        (omega arith) refl refl refl)

allocations_tile_example : (n : ℕ) × Tiles swapped_once.grants n × (n ≤ 100) × (n < 2 ^ 64)
allocations_tile_example =
    allocations_tile counters version_of 100 version_written swapped_once swapped_once-Reachable

abbrev allocator : EpisodeAllocator
allocator = new_allocator (codes "jobs:a") 500

abbrev counted : Store
counted = insert allocator.counter_key (5 ∷ 2 ∷ []) []
