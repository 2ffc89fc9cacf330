-- ===== src/Episode/Steps.antt =====
-- Workers that allocate episode indices of one batch at the same time. Each client call of
-- `cas_allocate` is one step: the creation of a missing counter, the read, and the swap.
use roboflow.Bytes.{Bytes}
use roboflow.Codec.{Codec}
use roboflow.Episode.{EpisodeCounter, advance, allocated, new_counter, version_before}
use roboflow.Episode.Snapshots.{set}
use roboflow.Prelude.{List, Option, [], none, some, true, ℕ, ◌+◌, ◌∷◌, ◌≡◌, ◌≤◌}
use roboflow.Tikv.Cas.{cas_check}
use roboflow.Tikv.Error.{ok}

pub record System : Type 0 where
  pub stored : Option Bytes
  pub snapshot : ℕ → Option EpisodeCounter
  pub grants : List (ℕ × ℕ)

abbrev pub initial : System
initial = record { stored = none; snapshot = λ i. none; grants = [] }

-- The ranges follow each other from 0 on, the latest first, and end below the number.
abbrev pub Tiles : List (ℕ × ℕ) → ℕ → Type 0
Tiles [] n = n ≡ 0
Tiles ((start, count) ∷ older) n = (n ≡ start + count) × Tiles older start

module _ (counters : Codec EpisodeCounter) (version_of : Bytes → Option ℕ) (max_episodes : ℕ) where
  pub data Step (s : System) : System → Type 0 where
    creates :
        (b : Bytes)
        → counters.serialize new_counter ≡ some b
        → cas_check version_of 0 s.stored ≡ ok true
        → Step s (record s { stored = some b })
    reads :
        (worker : ℕ) (b : Bytes) (c : EpisodeCounter)
        → s.stored ≡ some b
        → counters.deserialize b ≡ some c
        → Step s (record s { snapshot = set worker (some c) s.snapshot })
    swaps :
        (worker count start : ℕ) (c c' : EpisodeCounter) (b : Bytes)
        → s.snapshot worker ≡ some c
        → 1 ≤ count
        → advance max_episodes count c ≡ allocated (start, c')
        → counters.serialize c' ≡ some b
        → cas_check version_of (version_before c') s.stored ≡ ok true
        → Step s (record s {
          stored = some b;
          snapshot = set worker none s.snapshot;
          grants = (start, count) ∷ s.grants;
        })
    abandons : (worker : ℕ) → Step s (record s { snapshot = set worker none s.snapshot })

  pub data Reachable : System → Type 0 where
    starts : Reachable initial
    moves : (s t : System) → Reachable s → Step s t → Reachable t
