-- ===== src/Storage/Cache/Eviction.antt =====
-- The eviction loop of the cache of crates/roboflow-storage/src/cached/storage.rs.
use roboflow.Bytes.{Bytes, beq, beq_iff, beq_refl, beq_sound}
use roboflow.Prelude.{
  Bool-cases, List, Option-cases, arith, false, inl, inr, leb, leb→le, length, none, refl, some,
  subst, suc, true, zero, ℕ, ◌<◌, ◌^◌, ◌∙◌, ◌≡◌, ◌≢◌, ◌≤◌, ◌⊎◌,
}
use roboflow.Storage.Cache.{
  CacheEntry, CachedStorage, cache_path, candidate, evict, evict_loop, evict_one, find_entry,
  remove_entry,
}
use roboflow.Storage.Cache.Entries.{
  AllPending, Distinct, Distinct-remove_entry, Picks, candidate-Picks, candidate-found,
  find_entry-remove_entry, length-remove_entry_found, total_size, total_size-remove_entry,
}

-- The size that is kept is the size of the entries.
pub record Tracked (c : CachedStorage) : Type 0 where
  pub counted : c.cache_size ≡ total_size c.entries
  pub fits : total_size c.entries < 2 ^ 64

-- The file of a path is not that of an entry that may be evicted.
abbrev pub Apart : Bytes → List (Bytes × CacheEntry) → Type 0
Apart q es =
    (p : Bytes) (e : CacheEntry)
    → find_entry p es ≡ some e
    → e.pending_upload ≡ false
    → cache_path q ≢ cache_path p

pub record Evicted (c c' : CachedStorage) : Type 0 where
  pub enough : (c'.cache_size ≤ c'.config.target_size) ⊎ AllPending c'.entries
  pub distinct : Distinct c'.entries
  pub tracked : Tracked c → Tracked c'
  pub same_config : c'.config ≡ c.config
  pub pending_kept :
      (q : Bytes) (e : CacheEntry)
      → find_entry q c.entries ≡ some e
      → e.pending_upload ≡ true
      → find_entry q c'.entries ≡ some e
  pub files_kept :
      (q : Bytes) → Apart q c.entries → c'.files (cache_path q) ≡ c.files (cache_path q)
  pub nothing_new :
      (q : Bytes) (e : CacheEntry)
      → find_entry q c'.entries ≡ some e
      → find_entry q c.entries ≡ some e
  pub no_new_file : (f : Bytes) → c.files f ≡ none → c'.files f ≡ none
  pub gone :
      (q : Bytes) (e : CacheEntry)
      → find_entry q c.entries ≡ some e
      → find_entry q c'.entries ≡ none
      → c'.files (cache_path q) ≡ none
  pub outside : (c'.remote ≡ c.remote) × (c'.queue ≡ c.queue)

stays :
    (c : CachedStorage)
    → Distinct c.entries
    → (c.cache_size ≤ c.config.target_size) ⊎ AllPending c.entries
    → Evicted c c
stays c d enough = record {
  enough = enough;
  distinct = d;
  tracked = λ t. t;
  same_config = refl;
  pending_kept = λ q e h w. h;
  files_kept = λ q a. refl;
  nothing_new = λ q e h. h;
  no_new_file = λ f h. h;
  gone = λ q e h g. absurd (cc);
  outside = (refl, refl);
}

module _ (c : CachedStorage) (p : Bytes) (e : CacheEntry) (d : Distinct c.entries)
    (found_there : find_entry p c.entries ≡ some e) (unqueued : e.pending_upload ≡ false) where
  evict_one-Distinct : Distinct (evict_one p e c).entries
  unfolding evict_one
  evict_one-Distinct = Distinct-remove_entry p c.entries d

  evict_one-Tracked : Tracked c → Tracked (evict_one p e c)
  unfolding evict_one
  evict_one-Tracked t =
      let left = total_size-remove_entry p e c.entries d found_there in
      record {
        counted = omega (arith, left, t.counted, t.fits);
        fits = omega (arith, left, t.fits);
      }

  shorter : (fuel : ℕ) → length c.entries ≤ fuel → length (evict_one p e c).entries < fuel
  unfolding evict_one
  shorter fuel le = omega (arith, length-remove_entry_found p e c.entries found_there)

  kept_by_one :
      (q : Bytes) (f : CacheEntry)
      → find_entry q c.entries ≡ some f
      → f.pending_upload ≡ true
      → find_entry q (remove_entry p c.entries) ≡ some f
  kept_by_one q f h w = ground (arith, find_entry-remove_entry p q c.entries, beq_iff p q)

  file_kept_by_one :
      (q : Bytes)
      → Apart q c.entries
      → (evict_one p e c).files (cache_path q) ≡ c.files (cache_path q)
  unfolding evict_one
  file_kept_by_one q a =
      let n = a p e found_there unqueued in ground (arith, n, beq_iff (cache_path q) (cache_path p))

  still-Apart : (q : Bytes) → Apart q c.entries → Apart q (remove_entry p c.entries)
  still-Apart q a r f h w =
      a r f (ground (arith, find_entry-remove_entry p r c.entries, beq_iff p r)) w

  only_left :
      (q : Bytes) (f : CacheEntry)
      → find_entry q (remove_entry p c.entries) ≡ some f
      → find_entry q c.entries ≡ some f
  only_left q f h = ground (arith, find_entry-remove_entry p q c.entries, beq_iff p q)

  no_file_by_one : (f : Bytes) → c.files f ≡ none → (evict_one p e c).files f ≡ none
  unfolding evict_one
  no_file_by_one f h = ground (arith, beq_iff f (cache_path p))

  own_file_gone : (evict_one p e c).files (cache_path p) ≡ none
  unfolding evict_one
  own_file_gone = ground (arith, beq_refl (cache_path p))

  gone_after :
      (c' : CachedStorage)
      → Evicted (evict_one p e c) c'
      → (q : Bytes) (f : CacheEntry) → find_entry q c.entries ≡ some f
      → find_entry q c'.entries ≡ none
      → c'.files (cache_path q) ≡ none
  unfolding evict_one
  gone_after c' v q f h g = elim (Bool-cases (beq p q)) [
    | inl same ↦
        subst (λ r. c'.files (cache_path r) ≡ none) (beq_sound p q same)
          (v.no_new_file (cache_path p) own_file_gone)
    | inr differs ↦ v.gone q f (ground (arith, find_entry-remove_entry p q c.entries)) g
  ]

  evict_more : (c' : CachedStorage) → Evicted (evict_one p e c) c' → Evicted c c'
  unfolding evict_one
  evict_more c' v = record {
    enough = v.enough;
    distinct = v.distinct;
    tracked = λ t. v.tracked (evict_one-Tracked t);
    same_config = v.same_config;
    pending_kept = λ q f h w. v.pending_kept q f (kept_by_one q f h w) w;
    files_kept = λ q a. v.files_kept q (still-Apart q a) ∙ file_kept_by_one q a;
    nothing_new = λ q f h. only_left q f (v.nothing_new q f h);
    no_new_file = λ f h. v.no_new_file f (no_file_by_one f h);
    gone = λ q f h g. gone_after c' v q f h g;
    outside = v.outside;
  }

evict_loop-Evicted :
    (fuel : ℕ) (c : CachedStorage)
    → Distinct c.entries
    → length c.entries < fuel
    → Evicted c (evict_loop fuel c)
unfolding evict_loop
evict_loop-Evicted zero c d enough = absurd (omega arith)
evict_loop-Evicted (suc fuel) c d enough =
    let policy = c.config.eviction_policy in
    elim (Bool-cases (leb c.cache_size c.config.target_size)) [
      | inl small ↦ rw (evict_loop, small) (stays c d (inl (leb→le _ _ small)))
      | inr large ↦ elim (Option-cases (candidate c.config.eviction_policy c.entries)) [
        | inl none_left ↦
            rw (evict_loop, large, none_left)
              (stays c d
                (inr (subst (Picks policy c.entries) none_left (candidate-Picks policy c.entries))))
        | inr ((p, e), picked) ↦
            let there = candidate-found policy c.entries p e d picked in
            let unqueued =
              (subst (Picks policy c.entries) picked (candidate-Picks policy c.entries)).0 in
            rw (evict_loop, large, picked)
              (evict_more c p e d there unqueued (evict_loop fuel (evict_one p e c)) (
                evict_loop-Evicted fuel (evict_one p e c)
                  (evict_one-Distinct c p e d there unqueued)
                  (shorter c p e d there unqueued fuel (omega arith))))
      ]
    ]

-- From every state of a cache whose entries have one path each, as those of a map do, whatever its
-- tracked size says: the eviction ends, with the tracked size at the target or below, or with
-- nothing left but entries whose uploads are pending. It never takes such an entry out, and keeps
-- every file that is not the file of an entry that it may take out. An entry that is taken out loses
-- its file; no entry and no file appears; the remote side and the queue stay as they are. And where
-- the tracked size was the size of the entries, it is so afterwards.
pub evict-Evicted : (c : CachedStorage) → Distinct c.entries → Evicted c (evict c)
unfolding evict
evict-Evicted c d = evict_loop-Evicted (suc (length c.entries)) c d (omega arith)
