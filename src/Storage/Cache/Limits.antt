-- ===== src/Storage/Cache/Limits.antt =====
-- Where the cache of crates/roboflow-storage/src/cached/storage.rs does not do what it is for.
use roboflow.Bytes.{Bytes, beq_refl, codes}
use roboflow.Prelude.{
  List, Option-cases, [], ap, arith, false, inl, inr, length, ltb, none, refl, some, sym, true, ℕ,
  ◌%◌, ◌+◌, ◌<◌, ◌^◌, ◌∙◌, ◌∷◌, ◌≡◌, ◌≤◌, ◌⊎◌,
}
use roboflow.Storage.Cache.{
  CacheConfig, CacheEntry, CachedStorage, add_to_cache, cache_path, change_entry, copy, evict,
  find_entry, new_entry, open_file, opened, reader, remove_entry, whole,
}
use roboflow.Storage.Cache.Entries.{
  AllPending, Distinct, remove_entry_absent, total_size, total_size-remove_entry,
}
use roboflow.Storage.Cache.Eviction.{Tracked, evict-Evicted}
use roboflow.Storage.Cache.Reading.{downloaded, reader_miss}
use roboflow.Storage.Error.{failure, io_error}

-- The cache with an entry for a new path, before it looks at the limit.
abbrev pub with_entry : ℕ → Bytes → ℕ → CachedStorage → CachedStorage
with_entry now path size c = record c {
  entries = (path, new_entry now size) ∷ remove_entry path c.entries;
  cache_size = (c.cache_size + size) % 2 ^ 64;
  stats = record c.stats {
    total_cached_bytes = c.cache_size + size;
    cached_file_count = c.stats.cached_file_count + 1;
  };
}

add_to_cache_over :
    (now : ℕ) (path : Bytes) (size : ℕ) (c : CachedStorage)
    → c.config.max_cache_size < c.cache_size + size
    → add_to_cache now path size c ≡ evict (with_entry now path size c)
unfolding add_to_cache
add_to_cache_over now path size c over =
    let large : ltb c.config.max_cache_size (c.cache_size + size) ≡ true = ground arith in
    rw (add_to_cache, large) refl

with_entry-Tracked :
    (now : ℕ) (path : Bytes) (size : ℕ) (c : CachedStorage)
    → Tracked c
    → find_entry path c.entries ≡ none
    → c.cache_size + size < 2 ^ 64
    → Tracked (with_entry now path size c)
unfolding new_entry
with_entry-Tracked now path size c t fresh room =
    let same = remove_entry_absent path c.entries fresh in
    record {
      counted = rw same (omega (arith, t.counted));
      fits = rw same (omega (arith, t.counted));
    }

with_entry-Distinct :
    (now : ℕ) (path : Bytes) (size : ℕ) (c : CachedStorage)
    → Distinct c.entries
    → find_entry path c.entries ≡ none
    → Distinct (with_entry now path size c).entries
with_entry-Distinct now path size c d fresh =
    let same = remove_entry_absent path c.entries fresh in (rw same fresh, rw same d)

total_size-find_entry :
    (path : Bytes) (e : CacheEntry) (es : List (Bytes × CacheEntry))
    → find_entry path es ≡ some e
    → e.size ≤ total_size es
total_size-find_entry path e [] h = absurd (cc)
total_size-find_entry path e ((p, f) ∷ es) h = ground (arith, total_size-find_entry path e es)

AllPending-find_entry :
    (path : Bytes) (e : CacheEntry) (es : List (Bytes × CacheEntry))
    → AllPending es
    → find_entry path es ≡ some e
    → e.pending_upload ≡ true
AllPending-find_entry path e [] a h = absurd (cc)
AllPending-find_entry path e ((p, f) ∷ es) a h = ground (arith, AllPending-find_entry path e es a.1)

abbrev target : CacheConfig → ℕ
target config = config.target_size

too_large :
    (e : CacheEntry) (size now : ℕ) (c : CachedStorage)
    → Tracked c
    → (path : Bytes) → find_entry path c.entries ≡ some e
    → some e ≡ some (new_entry now size)
    → c.config.target_size < size
    → (c.cache_size ≤ c.config.target_size) ⊎ AllPending c.entries
    → ⊥
unfolding new_entry
too_large e size now c t path left old large (inl small) =
    let held = total_size-find_entry path e c.entries left in
    let own : e.size ≡ size = ground arith in omega (arith, held, own, t.counted)
too_large e size now c t path left old large (inr waiting) =
    let waits = AllPending-find_entry path e c.entries waiting left in
    let unqueued : e.pending_upload ≡ false = ground arith in absurd (cc (waits, unqueued))

own_entry :
    (now : ℕ) (path : Bytes) (size : ℕ) (c : CachedStorage)
    → find_entry path (with_entry now path size c).entries ≡ some (new_entry now size)
own_entry now path size c = rw (beq_refl path) refl

-- The entry of what is larger than the cache is among those that the eviction takes out.
evicts_itself :
    (now : ℕ) (path : Bytes) (size : ℕ) (c : CachedStorage)
    → Distinct c.entries
    → Tracked c
    → find_entry path c.entries ≡ none
    → c.config.target_size < size
    → c.cache_size + size < 2 ^ 64
    → find_entry path (evict (with_entry now path size c)).entries ≡ none
unfolding new_entry
evicts_itself now path size c d t fresh large room =
    let v =
      evict-Evicted (with_entry now path size c) (with_entry-Distinct now path size c d fresh) in
    let own = own_entry now path size c in
    elim (Option-cases (find_entry path (evict (with_entry now path size c)).entries)) [
      | inl none_left ↦ none_left
      | inr (e, left) ↦
          let old : some e ≡ some (new_entry now size) = sym (v.nothing_new path e left) ∙ own in
          absurd (
            too_large e size now (evict (with_entry now path size c))
              (v.tracked (with_entry-Tracked now path size c t fresh room)) path left old
              (omega (arith, ap target v.same_config)) v.enough)
    ]

-- A download of an object larger than the cache's limit is evicted before it is opened: the reader
-- gets an I/O error, though the remote side has the object. (The path is neither cached nor
-- tracked, and the sizes are tracked.)
pub reader_too_large :
    (now : ℕ) (path content : Bytes) (c : CachedStorage)
    → Distinct c.entries
    → Tracked c
    → c.files (cache_path path) ≡ none
    → find_entry path c.entries ≡ none
    → c.remote path ≡ some content
    → c.config.target_size ≤ c.config.max_cache_size
    → c.config.max_cache_size < length content
    → c.cache_size + length content < 2 ^ 64
    → (reader whole now path c).0 ≡ failure (io_error (codes "No such file or directory"))
unfolding open_file
reader_too_large now path content c dist t miss fresh there target large room =
    let d = downloaded path content c in
    let td : Tracked d = record { counted = t.counted; fits = t.fits } in
    let size = length content in
    let v =
      evict-Evicted (with_entry now path size d) (with_entry-Distinct now path size d dist fresh) in
    let gone = evicts_itself now path size d dist td fresh (omega arith) room in
    rw (reader_miss now path content c miss there, add_to_cache_over now path size d (omega arith))
      (ap opened (v.gone path (new_entry now size) (own_entry now path size d) gone))

total_size-change_entry :
    (path : Bytes) (f : CacheEntry → CacheEntry) (es : List (Bytes × CacheEntry))
    → ((e : CacheEntry) → (f e).size ≡ e.size)
    → total_size (change_entry path f es) ≡ total_size es
total_size-change_entry path f [] same = refl
total_size-change_entry path f ((p, e) ∷ es) same =
    ground (arith, same e, total_size-change_entry path f es same)

-- Copying within the cache onto a path that has an entry counts both sizes, though the old entry is
-- replaced: from then on the tracked size is too large by the size of the old entry. (There is
-- room, so that nothing is evicted.)
pub copy_drifts :
    (now : ℕ) (source dest content : Bytes) (e : CacheEntry) (c : CachedStorage)
    → Distinct c.entries
    → Tracked c
    → c.files (cache_path source) ≡ some content
    → find_entry dest c.entries ≡ some e
    → c.cache_size + length content ≤ c.config.max_cache_size
    → c.config.max_cache_size < 2 ^ 64
    → let c' = (copy now source dest c).1 in c'.cache_size ≡ total_size c'.entries + e.size
unfolding copy new_entry add_to_cache
copy_drifts now source dest content e c d t cached old room limit =
    let small : ltb c.config.max_cache_size (c.cache_size + length content) ≡ false =
      ground arith in
    let left = total_size-remove_entry dest e c.entries d old in
    let marked =
      total_size-change_entry dest (λ e. record e { pending_upload = true })
        ((dest, new_entry now (length content)) ∷ remove_entry dest c.entries) (λ e. refl) in
    rw (copy, cached, add_to_cache, small, marked) (omega (arith, left, t.counted))
