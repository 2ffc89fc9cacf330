-- ===== src/Storage/Cache/Tests.antt =====
-- Runs of the cache, and its theorems at concrete inputs.
use roboflow.Bytes.{Bytes, beq, codes}
use roboflow.Prelude.{Bool, Option, [], arith, false, none, refl, some, take, true, ℕ, ◌∷◌, ◌≡◌}
use roboflow.Storage.Cache.{
  CacheConfig, CacheEntry, CacheStats, CachedStorage, breaks_off, cache_path, evict, flushed, lru,
  new_entry, put_file, reader, whole, write_through,
}
use roboflow.Storage.Cache.Entries.{Distinct}
use roboflow.Storage.Cache.Eviction.{Evicted, Tracked, evict-Evicted}
use roboflow.Storage.Cache.Limits.{reader_too_large}
use roboflow.Storage.Cache.Reading.{NoClash, answer, reader-view, reader_partial, view}
use roboflow.Storage.Error.{failure, io_error, other_error, success}

abbrev small_cache : CacheConfig
small_cache = record {
  max_cache_size = 10;
  target_size = 9;
  eviction_policy = lru;
  delete_after_upload = false;
}

abbrev no_stats : CacheStats
no_stats = record {
  cache_hits = 0;
  cache_misses = 0;
  total_cached_bytes = 0;
  cached_file_count = 0;
  pending_uploads = 0;
  uploads_completed = 0;
  uploads_failed = 0;
  bytes_uploaded = 0;
}

abbrev entry : ℕ → ℕ → Bool → CacheEntry
entry size at pending = record {
  size = size;
  last_accessed = at;
  created_at = at;
  access_count = 1;
  pending_upload = pending;
}

abbrev objects : Bytes → Option Bytes
objects =
    put_file (codes "big") (some (codes "twelve bytes"))
      (put_file (codes "a/b") (some (codes "1234")) (λ q. none))

abbrev first_cache : CachedStorage
first_cache = record {
  config = small_cache;
  remote = objects;
  files = put_file (codes "old") (some (codes "123")) (λ q. none);
  entries = (codes "old", entry 3 5 false) ∷ [];
  cache_size = 3;
  stats = no_stats;
  queue = [];
}

abbrev full_cache : CachedStorage
full_cache = record first_cache {
  entries =
      (codes "x", entry 6 7 false)
      ∷ (codes "y", entry 8 1 true)
      ∷ (codes "old", entry 3 5 false)
      ∷ [];
  cache_size = 17;
}

reads_through : (reader whole 9 (codes "a/b") first_cache).0 ≡ success (codes "1234")
unfolding reader beq new_entry
reads_through = refl

-- The oldest entry whose upload is not pending goes first, and then the other one.
evicts_by_age : (evict full_cache).entries ≡ (codes "y", entry 8 1 true) ∷ []
unfolding evict beq
evicts_by_age = refl

-- Two paths with one name in the cache.
clashing : cache_path (codes "a/b") ≡ cache_path (codes "a::b")
unfolding cache_path
clashing = refl

-- The content of one of them is read under the name of the other.
clash_misread :
    (reader whole 9 (codes "a::b") (reader whole 8 (codes "a/b") first_cache).1).0
    ≡ success (codes "1234")
unfolding reader beq new_entry
clash_misread = refl

-- A flush finds nothing pending while the file that was written waits in the queue.
flush_too_early : flushed (write_through (codes "out") (codes "data") first_cache) ≡ true
unfolding flushed write_through
flush_too_early = refl

-- The tracked size is too large, as it may be after copies.
abbrev drifted : CachedStorage
drifted = record full_cache { cache_size = 23 }

drifted-Distinct : Distinct drifted.entries
unfolding beq
drifted-Distinct = (refl, (refl, (refl, tt)))

first_cache-Tracked : Tracked first_cache
first_cache-Tracked = record { counted = refl; fits = omega arith }

evict-Evicted_example : Evicted drifted (evict drifted)
evict-Evicted_example = evict-Evicted drifted drifted-Distinct

-- A download that breaks off after two bytes: the next reader reads these.
part_stays :
    let c' = (reader (breaks_off 2 (other_error (codes "read"))) 9 (codes "a/b") first_cache).1 in
    (reader whole 10 (codes "a/b") c').0 ≡ success (take 2 (codes "1234"))
unfolding beq cache_path
part_stays =
    (reader_partial 2 9 10 (other_error (codes "read")) whole (codes "a/b") (codes "1234")
      first_cache refl refl).1

reader-view_example :
    ((reader whole 9 (codes "a/b") first_cache).0
      ≡ answer (codes "a/b") (view first_cache (codes "a/b")))
    × ((q : Bytes)
        → NoClash (codes "a/b") q
        → view (reader whole 9 (codes "a/b") first_cache).1 q ≡ view first_cache q)
unfolding beq
reader-view_example = reader-view 9 (codes "a/b") first_cache (omega arith)

reader_too_large_example :
    (reader whole 9 (codes "big") first_cache).0
    ≡ failure (io_error (codes "No such file or directory"))
unfolding beq cache_path
reader_too_large_example =
    reader_too_large 9 (codes "big") (codes "twelve bytes") first_cache (refl, tt)
      first_cache-Tracked refl refl refl (omega arith) (omega arith) (omega arith)
