-- ===== src/Episode/Alone.antt =====
-- One worker that allocates episode indices, and the chunks they fall into.
use native.Mathlib.Nat.{div-add-mod', div-lt_iff_lt-mul, mod-eq_of_lt, mod-lt}
use roboflow.Bytes.{Bytes}
use roboflow.Codec.{Codec}
use roboflow.Episode.{
  EpisodeAllocator, EpisodeCounter, advance, allocate, allocated, cas_allocate,
  chunk_index_from_episode, ensure_initialized, new_allocation, new_allocator, retry_allocate,
  stored_counter, version_before,
}
use roboflow.Prelude.{
  Option, arith, refl, some, suc, true, zero, ℕ, ◌%◌, ◌*◌, ◌+◌, ◌-◌, ◌/◌, ◌<◌, ◌^◌, ◌≡◌,
}
use roboflow.Tikv.Cas.{cas-IsHealthy, cas_check}
use roboflow.Tikv.Client.Healthy.{get-IsHealthy}
use roboflow.Tikv.Error.{ok}
use roboflow.Tikv.Store.{insert, lookup}
use roboflow.Tikv.World.{IsHealthy, World}

version_raised :
    (c c' : EpisodeCounter) (max_episodes count start : ℕ)
    → advance max_episodes count c ≡ allocated (start, c')
    → c'.version ≡ (c.version + 1) % 2 ^ 64
unfolding advance
version_raised c c' max_episodes count start adv = ground arith

version_kept :
    (c c' : EpisodeCounter) (max_episodes count start : ℕ)
    → c.version < 2 ^ 64
    → advance max_episodes count c ≡ allocated (start, c')
    → version_before c' ≡ c.version
unfolding version_before
version_kept c c' max_episodes count start small adv =
    omega (arith, version_raised c c' max_episodes count start adv)

cas_check_same :
    (version_of : Bytes → Option ℕ) (stored : Option Bytes) (b : Bytes) (expected v : ℕ)
    → stored ≡ some b
    → version_of b ≡ some v
    → expected ≡ v
    → cas_check version_of expected stored ≡ ok true
unfolding cas_check
cas_check_same version_of stored b expected v at version same = ground arith

advance_by_one :
    (max_episodes : ℕ) (c : EpisodeCounter)
    → c.version + 1 < 2 ^ 64
    → c.next_episode < max_episodes
    → max_episodes < 2 ^ 64
    → advance max_episodes 1 c
      ≡ allocated
          (c.next_episode, record { next_episode = c.next_episode + 1; version = c.version + 1 })
unfolding advance
advance_by_one max_episodes c small room wide = ground arith

module _ (counters : Codec EpisodeCounter) (version_of : Bytes → Option ℕ) (a : EpisodeAllocator)
    (b b' : Bytes) (c c' : EpisodeCounter) (count start : ℕ)
    (read : counters.deserialize b ≡ some c) (version : version_of b ≡ some c.version)
    (small : c.version < 2 ^ 64) (adv : advance a.max_episodes count c ≡ allocated (start, c'))
    (fits : counters.serialize c' ≡ some b') (w : World) (h : IsHealthy w)
    (stored : lookup a.counter_key w.store ≡ some b) where
  swap_accepted : cas_check version_of (version_before c') (lookup a.counter_key w.store) ≡ ok true
  swap_accepted =
      cas_check_same version_of _ b (version_before c') c.version stored version
        (version_kept c c' a.max_episodes count start small adv)

  ensure_initialized_there : ensure_initialized counters version_of a w ≡ (allocated tt, w)
  unfolding ensure_initialized
  ensure_initialized_there = simp (get-IsHealthy a.counter_key w h, stored)

  cas_allocate_alone :
      cas_allocate counters version_of a count w
      ≡ (allocated start, record w { store = insert a.counter_key b' w.store })
  unfolding cas_allocate
  cas_allocate_alone =
      rw
        (
          ensure_initialized_there,
          get-IsHealthy a.counter_key w h,
          stored,
          stored_counter,
          read,
          adv,
          fits,
          cas-IsHealthy version_of a.counter_key b' (version_before c') w h swap_accepted,
        )
        refl

  allocate_attempt :
      (left : ℕ)
      → retry_allocate counters version_of a left count w
        ≡ (allocated start, record w { store = insert a.counter_key b' w.store })
  unfolding retry_allocate
  allocate_attempt zero = rw cas_allocate_alone refl
  allocate_attempt (suc left) = rw cas_allocate_alone refl

-- The place of an episode: its chunk and the offset there give the index back, and the offset is
-- within the chunk, for every index that a default allocator may hand out.
pub chunk_round_trip :
    (batch_id : Bytes) (episodes_per_chunk index : ℕ)
    → 0 < episodes_per_chunk
    → episodes_per_chunk < 2 ^ 32
    → index < (new_allocator batch_id episodes_per_chunk).max_episodes
    → let p = new_allocation index episodes_per_chunk in
      (p.chunk_index * episodes_per_chunk + p.chunk_offset ≡ index)
      × (p.chunk_offset < episodes_per_chunk)
      × (p.chunk_index ≡ chunk_index_from_episode index episodes_per_chunk)
unfolding new_allocator new_allocation chunk_index_from_episode
chunk_round_trip batch_id per index pos small below =
    let chunk_small = (div-lt_iff_lt-mul {k = per} {x = index} {y = 2 ^ 32 - 1} pos).1 below in
    let offset_small = mod-lt index pos in
    let parts = div-add-mod' index per in
    let same_chunk = mod-eq_of_lt {n = index / per} {m = 2 ^ 32} (omega arith) in
    let same_offset = mod-eq_of_lt {n = index % per} {m = 2 ^ 32} (omega arith) in
    (rw (same_chunk, same_offset) parts, rw same_offset offset_small, refl)

-- A worker that nobody disturbs, with a client that nothing stands in the way of, a readable
-- counter below the maximum and a new one that can be written, gets the next index at its first
-- attempt; the counter and its version go up by one.
pub allocate_alone :
    (counters : Codec EpisodeCounter) (version_of : Bytes → Option ℕ) (a : EpisodeAllocator)
    (b b' : Bytes) (c : EpisodeCounter) (w : World)
    → IsHealthy w
    → lookup a.counter_key w.store ≡ some b
    → counters.deserialize b ≡ some c
    → version_of b ≡ some c.version
    → c.version + 1 < 2 ^ 64
    → c.next_episode < a.max_episodes
    → a.max_episodes < 2 ^ 64
    → counters.serialize (record { next_episode = c.next_episode + 1; version = c.version + 1 })
      ≡ some b'
    → allocate counters version_of a w ≡ (
      allocated (new_allocation c.next_episode a.episodes_per_chunk),
      record w { store = insert a.counter_key b' w.store },
    )
unfolding allocate
allocate_alone counters version_of a b b' c w h stored read version small room wide fits =
    rw
      (allocate_attempt counters version_of a b b' c
        (record { next_episode = c.next_episode + 1; version = c.version + 1 }) 1 c.next_episode
        read version (omega arith) (advance_by_one a.max_episodes c small room wide) fits w h stored
        9)
      refl
