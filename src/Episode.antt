-- ===== src/Episode.antt =====
-- Episode indices: crates/roboflow-distributed/src/episode/allocator.rs without the waits between
-- attempts and the printing of paths. The counters' codec stands for serde_json.
mod Tests
pub mod Alone
pub mod Sharing
pub mod Snapshots
pub mod Steps
use roboflow.Bytes.{Bytes, codes}
use roboflow.Codec.{Codec}
use roboflow.Prelude.{
  Bool, List, Option, [], false, if◌then◌else◌, leb, ltb, none, some, suc, true, zero, ℕ, ◌%◌, ◌*◌,
  ◌++◌, ◌+◌, ◌-◌, ◌/◌, ◌^◌, ◌∷◌,
}
use roboflow.Tikv.Cas.{cas}
use roboflow.Tikv.Client.{get}
use roboflow.Tikv.Error.{Result, TikvError, cas_failed, deserialization, err, ok, serialization}
use roboflow.Tikv.World.{M, World}

pub data AllocatorError : Type 0 where
  tikv : TikvError → AllocatorError
  overflow : ℕ → AllocatorError
  not_initialized : Bytes → AllocatorError
  batch_exceeds_limit : ℕ → ℕ → ℕ → AllocatorError

pub data Outcome (A : Type 0) : Type 0 where
  allocated : A → Outcome A
  refused_by : AllocatorError → Outcome A

pub record EpisodeAllocation : Type 0 where
  pub episode_index : ℕ
  pub chunk_index : ℕ
  pub chunk_offset : ℕ

-- Divides by the episodes in a chunk, which the code takes to be positive.
unfoldable pub new_allocation : ℕ → ℕ → EpisodeAllocation
new_allocation episode_index episodes_per_chunk = record {
  episode_index = episode_index;
  chunk_index = episode_index / episodes_per_chunk % 2 ^ 32;
  chunk_offset = episode_index % episodes_per_chunk % 2 ^ 32;
}

unfoldable pub chunk_index_from_episode : ℕ → ℕ → ℕ
chunk_index_from_episode episode_index episodes_per_chunk =
    episode_index / episodes_per_chunk % 2 ^ 32

pub record EpisodeCounter : Type 0 where
  pub next_episode : ℕ  -- u64
  pub version : ℕ  -- u64

unfoldable pub new_counter : EpisodeCounter
new_counter = record { next_episode = 0; version = 0 }

pub record EpisodeAllocator : Type 0 where
  pub batch_id : Bytes
  pub episodes_per_chunk : ℕ  -- u32
  pub max_episodes : ℕ  -- u64
  pub counter_key : Bytes

unfoldable pub new_allocator : Bytes → ℕ → EpisodeAllocator
new_allocator batch_id episodes_per_chunk = record {
  batch_id = batch_id;
  episodes_per_chunk = episodes_per_chunk;
  max_episodes = (2 ^ 32 - 1) * episodes_per_chunk;
  counter_key = codes "/batch/" ++ batch_id ++ codes "/episode_counter";
}

-- What an attempt makes of the counter it read: where the new indices start, and the next counter.
unfoldable pub advance : ℕ → ℕ → EpisodeCounter → Outcome (ℕ × EpisodeCounter)
advance max_episodes count c =
    let new_next = c.next_episode + count in
    if leb (2 ^ 64) new_next
    then refused_by (overflow max_episodes)
    else if ltb max_episodes new_next
    then refused_by (overflow max_episodes)
    else allocated
        (c.next_episode, record { next_episode = new_next; version = (c.version + 1) % 2 ^ 64 })

-- `counter.version - 1`, after the version was raised.
unfoldable pub version_before : EpisodeCounter → ℕ
version_before c = (c.version + (2 ^ 64 - 1)) % 2 ^ 64

abbrev pub E : Type 0 → Type 0
E A = World → Outcome A × World

abbrev pub from_tikv : {A : Type 0} → Result A × World → Outcome A × World
from_tikv (ok a, w) = (allocated a, w)
from_tikv (err e, w) = (refused_by (tikv e), w)

abbrev pub call : {A : Type 0} → M A → E A
call m w = from_tikv (m w)

abbrev proceed : {A B : Type 0} → (A → E B) → Outcome A × World → Outcome B × World
proceed f (allocated a, w) = f a w
proceed f (refused_by e, w) = (refused_by e, w)

infixl 5 ◌>>=◌ ◌>>◌
abbrev pub ◌>>=◌ : {A B : Type 0} → E A → (A → E B) → E B
◌>>=◌ m f w = proceed f (m w)

abbrev pub ◌>>◌ : {B : Type 0} → E (Unit {0}) → E B → E B
◌>>◌ m k = m >>= λ _. k

abbrev pub give : {A : Type 0} → A → E A
give a w = (allocated a, w)

abbrev pub refuse : {A : Type 0} → AllocatorError → E A
refuse e w = (refused_by e, w)

-- Runs a call and drops its result, an error too: `let _ = ...`.
abbrev pub ignore : {A : Type 0} → M A → E (Unit {0})
ignore m w = (allocated tt, (m w).1)

module _ (counters : Codec EpisodeCounter) (version_of : Bytes → Option ℕ)
    (a : EpisodeAllocator) where
  abbrev create : Option Bytes → E (Unit {0})
  create none = refuse (tikv (serialization (codes "episode counter")))
  create (some value) = ignore (cas version_of a.counter_key 0 value)

  abbrev create_if_missing : Option Bytes → E (Unit {0})
  create_if_missing none = create (counters.serialize new_counter)
  create_if_missing (some _) = give tt

  unfoldable pub ensure_initialized : E (Unit {0})
  ensure_initialized = do existing ← call (get a.counter_key); create_if_missing existing

  abbrev pub stored_counter : Option Bytes → Outcome EpisodeCounter
  stored_counter none = refused_by (not_initialized a.batch_id)
  stored_counter (some b) = elim (counters.deserialize b) [
    | none ↦ refused_by (tikv (deserialization (codes "episode counter")))
    | some c ↦ allocated c
  ]

  abbrev swapped : ℕ → EpisodeCounter → Bool → E ℕ
  swapped start c true = give start
  swapped start c false = refuse (tikv (cas_failed (version_before c) c.version))

  abbrev swap : ℕ → EpisodeCounter → Option Bytes → E ℕ
  swap start c none = refuse (tikv (serialization (codes "episode counter")))
  swap start c (some value) = do
    success ← call (cas version_of a.counter_key (version_before c) value)
    swapped start c success

  unfoldable pub cas_allocate : ℕ → E ℕ
  cas_allocate count = do
    ensure_initialized
    existing ← call (get a.counter_key)
    c ← λ w. (stored_counter existing, w)
    raised ← λ w. (advance a.max_episodes count c, w)
    swap (raised.0) (raised.1) (counters.serialize (raised.1))

  unfoldable pub is_cas_failed : AllocatorError → Bool
  is_cas_failed (tikv (cas_failed expected got)) = true
  is_cas_failed _ = false

  abbrev after_allocate : Outcome ℕ × World → E ℕ → Outcome ℕ × World
  after_allocate (allocated start, w) again = (allocated start, w)
  after_allocate (refused_by e, w) again = if is_cas_failed e then again w else (refused_by e, w)

  abbrev exhausted : Outcome ℕ × World → Outcome ℕ × World
  exhausted (allocated start, w) = (allocated start, w)
  exhausted (refused_by e, w) =
      (refused_by (if is_cas_failed e then tikv (cas_failed 0 0) else e), w)

  -- The retry loop, by the attempts that are left after this one.
  unfoldable pub retry_allocate : ℕ → ℕ → E ℕ
  retry_allocate zero count w = exhausted (cas_allocate count w)
  retry_allocate (suc left) count w =
      after_allocate (cas_allocate count w) (retry_allocate left count)

  -- Ten attempts.
  unfoldable pub allocate : E EpisodeAllocation
  allocate = do start ← retry_allocate 9 1; give (new_allocation start a.episodes_per_chunk)

  unfoldable pub range : ℕ → ℕ → List EpisodeAllocation
  range start zero = []
  range start (suc n) = new_allocation start a.episodes_per_chunk ∷ range (start + 1) n

  unfoldable pub allocate_batch : ℕ → E (List EpisodeAllocation)
  allocate_batch zero = give []
  allocate_batch (suc n) = do start ← retry_allocate 9 (suc n); give (range start (suc n))

  abbrev count_in : Option Bytes → Outcome ℕ
  count_in none = allocated 0
  count_in (some b) = elim (counters.deserialize b) [
    | none ↦ refused_by (tikv (deserialization (codes "episode counter")))
    | some c ↦ allocated c.next_episode
  ]

  unfoldable pub allocated_count : E ℕ
  allocated_count = do existing ← call (get a.counter_key); λ w. (count_in existing, w)
