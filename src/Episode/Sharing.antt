-- ===== src/Episode/Sharing.antt =====
-- What the workers that allocate episode indices of one batch at the same time are given.
use roboflow.Bytes.{Bytes}
use roboflow.Codec.{Codec}
use roboflow.Episode.{EpisodeCounter, advance, allocated, new_counter, version_before}
use roboflow.Episode.Snapshots.{
  Fresh, Fresh-newer, Fresh-same, Fresh-set, counter_ext, missing, set, set-none, unread,
}
use roboflow.Episode.Steps.{
  Reachable, Step, System, Tiles, abandons, creates, moves, reads, starts, swaps,
}
use roboflow.Prelude.{
  Option, [], ap, arith, none, refl, some, subst, sym, true, ℕ, ◌%◌, ◌+◌, ◌<◌, ◌^◌, ◌∙◌, ◌∷◌, ◌≡◌,
  ◌≤◌,
}
use roboflow.Tikv.Cas.{cas_check}
use roboflow.Tikv.Error.{ok}

module _ (counters : Codec EpisodeCounter) (version_of : Bytes → Option ℕ) (max_episodes : ℕ) where
  record Counts (s : System) (b : Bytes) (c : EpisodeCounter) : Type 0 where
    is_stored : s.stored ≡ some b
    reads_back : counters.deserialize b ≡ some c
    has_version : version_of b ≡ some c.version
    below : c.version ≤ c.next_episode
    fits : c.next_episode < 2 ^ 64
    within : c.next_episode ≤ max_episodes
    untouched_zero : c.version ≡ 0 → c.next_episode ≡ 0
    tiled : Tiles s.grants c.next_episode
    fresh : (i : ℕ) → Fresh c (s.snapshot i)

  data Inv (s : System) : Type 0 where
    untouched : s.stored ≡ none → s.grants ≡ [] → ((i : ℕ) → s.snapshot i ≡ none) → Inv s
    counting : (b : Bytes) (c : EpisodeCounter) → Counts s b c → Inv s

  -- A swap that the store accepts expects the version that is stored.
  swap_expected :
      (s : System) (b : Bytes) (c : EpisodeCounter) (expected : ℕ)
      → Counts s b c
      → cas_check version_of expected s.stored ≡ ok true
      → c.version ≡ expected
  unfolding cas_check
  swap_expected s b c expected h fine = ground arith

  advance_allocated :
      (count start : ℕ) (c c' : EpisodeCounter)
      → advance max_episodes count c ≡ allocated (start, c')
      → (start ≡ c.next_episode)
        × (c'.next_episode ≡ c.next_episode + count)
        × (c'.version ≡ (c.version + 1) % 2 ^ 64)
        × (c.next_episode + count < 2 ^ 64)
        × (c.next_episode + count ≤ max_episodes)
  unfolding advance
  advance_allocated count start c c' e = ground arith

  read_same :
      (stored : Option Bytes) (b b' : Bytes) (c d : EpisodeCounter)
      → stored ≡ some b'
      → stored ≡ some b
      → counters.deserialize b ≡ some c
      → counters.deserialize b' ≡ some d
      → c ≡ d
  read_same stored b b' c d at read decoded counted = ground arith

  resnap :
      (s : System) (b : Bytes) (c : EpisodeCounter) (f : ℕ → Option EpisodeCounter)
      → Counts s b c
      → ((i : ℕ) → Fresh c (f i))
      → Counts (record s { snapshot = f }) b c
  resnap s b c f h fresh_now = record {
    is_stored = h.is_stored;
    reads_back = h.reads_back;
    has_version = h.has_version;
    below = h.below;
    fits = h.fits;
    within = h.within;
    untouched_zero = h.untouched_zero;
    tiled = h.tiled;
    fresh = fresh_now;
  }

  -- A snapshot whose swap is accepted is the stored counter.
  swapped_current :
      (s : System) (worker count start : ℕ) (b : Bytes) (c c' d : EpisodeCounter)
      → Counts s b d
      → s.snapshot worker ≡ some c
      → advance max_episodes count c ≡ allocated (start, c')
      → cas_check version_of (version_before c') s.stored ≡ ok true
      → c ≡ d
  unfolding version_before
  swapped_current s worker count start b c c' d h snap adv fine =
      let (old, same) = subst (Fresh d) snap (h.fresh worker) in
      let (_, _, raised, _, _) = advance_allocated count start c c' adv in
      let expected = swap_expected s b d (version_before c') h fine in
      same (omega (arith, raised, expected, old))

  module _
      (version_written : (c : EpisodeCounter) (b : Bytes)
        → counters.serialize c ≡ some b
        → version_of b ≡ some c.version) where
    creates-Inv :
        (s : System) (b : Bytes)
        → counters.serialize new_counter ≡ some b
        → cas_check version_of 0 s.stored ≡ ok true
        → Inv s
        → Inv (record s { stored = some b })
    unfolding new_counter
    creates-Inv s b encoded fine (untouched a g e) = counting b new_counter record {
      is_stored = refl;
      reads_back = counters.deserialize-serialize new_counter b encoded;
      has_version = version_written new_counter b encoded;
      below = omega arith;
      fits = omega arith;
      within = omega arith;
      untouched_zero = λ e. refl;
      tiled = rw g refl;
      fresh = λ i. rw (e i) tt;
    }
    creates-Inv s b encoded fine (counting b' c h) =
        let zero_version = swap_expected s b' c 0 h fine in
        let is_new = counter_ext c new_counter (h.untouched_zero zero_version) zero_version in
        counting b new_counter record {
          is_stored = refl;
          reads_back = counters.deserialize-serialize new_counter b encoded;
          has_version = version_written new_counter b encoded;
          below = omega arith;
          fits = omega arith;
          within = omega arith;
          untouched_zero = λ e. refl;
          tiled = subst (λ d. Tiles s.grants d.next_episode) is_new h.tiled;
          fresh = subst (λ d. (i : ℕ) → Fresh d (s.snapshot i)) is_new h.fresh;
        }

    swaps-Inv :
        (s : System) (worker count start : ℕ) (c c' : EpisodeCounter) (b : Bytes)
        → s.snapshot worker ≡ some c
        → 1 ≤ count
        → advance max_episodes count c ≡ allocated (start, c')
        → counters.serialize c' ≡ some b
        → cas_check version_of (version_before c') s.stored ≡ ok true
        → Inv s
        → Inv (record s {
          stored = some b;
          snapshot = set worker none s.snapshot;
          grants = (start, count) ∷ s.grants;
        })
    swaps-Inv s worker count start c c' b snap pos adv encoded fine (untouched a g e) =
        elim (missing (s.snapshot worker) c (e worker) snap) [ ]
    swaps-Inv s worker count start c c' b snap pos adv encoded fine (counting b' d h) =
        let current = swapped_current s worker count start b' c c' d h snap adv fine in
        let (at, upto, raised, small, room) = advance_allocated count start c c' adv in
        let below_next = h.below in
        let same_next = ap (λ x. x.next_episode) current in
        let same_version = ap (λ x. x.version) current in
        counting b c' record {
          is_stored = refl;
          reads_back = counters.deserialize-serialize c' b encoded;
          has_version = version_written c' b encoded;
          below = omega arith;
          fits = omega arith;
          within = omega arith;
          untouched_zero = λ e. omega arith;
          tiled = (omega arith, subst (Tiles s.grants) (sym (at ∙ same_next)) h.tiled);
          fresh =
              Fresh-set c' worker none s.snapshot tt
                λ i. Fresh-newer d c' (s.snapshot i) (omega arith) (h.fresh i);
        }

    moved-Inv : (s t : System) → Step counters version_of max_episodes s t → Inv s → Inv t
    moved-Inv s t (creates b encoded fine) inv = creates-Inv s b encoded fine inv
    moved-Inv s t (reads worker b c read decoded) (untouched a g e) =
        elim (unread s.stored b a read) [ ]
    moved-Inv s t (reads worker b c read decoded) (counting b' d h) =
        let same = read_same s.stored b b' c d h.is_stored read decoded h.reads_back in
        counting b' d
          (resnap s b' d _ h (Fresh-set d worker (some c) s.snapshot (Fresh-same c d same) h.fresh))
    moved-Inv s t (swaps worker count start c c' b snap pos adv encoded fine) inv =
        swaps-Inv s worker count start c c' b snap pos adv encoded fine inv
    moved-Inv s t (abandons worker) (untouched a g e) = untouched a g (set-none worker s.snapshot e)
    moved-Inv s t (abandons worker) (counting b d h) =
        counting b d (resnap s b d _ h (Fresh-set d worker none s.snapshot tt h.fresh))

    Reachable-Inv : (s : System) → Reachable counters version_of max_episodes s → Inv s
    Reachable-Inv s starts = untouched refl refl λ i. refl
    Reachable-Inv s (moves r _ reached m) = moved-Inv r s m (Reachable-Inv r reached)

    Inv-Tiles :
        (s : System) → Inv s → (n : ℕ) × Tiles s.grants n × (n ≤ max_episodes) × (n < 2 ^ 64)
    Inv-Tiles s (untouched a g e) = (0, rw g refl, omega arith, omega arith)
    Inv-Tiles s (counting b c h) = (c.next_episode, h.tiled, h.within, h.fits)

    -- If the version of every counter that is written can be read from the value: however the
    -- workers' client calls interleave, and whichever of them crash, the ranges of episode indices
    -- that were handed out follow each other from 0 without a gap or an overlap, and end at or
    -- before the maximum.
    pub allocations_tile :
        (s : System)
        → Reachable counters version_of max_episodes s
        → (n : ℕ) × Tiles s.grants n × (n ≤ max_episodes) × (n < 2 ^ 64)
    allocations_tile s reached = Inv-Tiles s (Reachable-Inv s reached)
