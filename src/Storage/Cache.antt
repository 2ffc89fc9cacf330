-- ===== src/Storage/Cache.antt =====
-- A local cache in front of remote storage: crates/roboflow-storage/src/cached/storage.rs, with the
-- entries, tasks and workers of cached/upload.rs. Files and remote objects are maps from paths to
-- contents; the file operations of the cache's directory succeed, the remote side may lack an
-- object. An operation runs whole. A 64-bit float works out `target_size`, nine tenths of the
-- maximum, which stands in the configuration.
mod Tests
pub mod Entries
pub mod Eviction
pub mod Reading
pub mod Limits
use roboflow.Bytes.{Bytes, beq, codes}
use roboflow.Prelude.{
  Bool, List, Option, [], false, if◌then◌else◌, leb, length, ltb, none, some, suc, take, true, zero,
  ℕ, ◌%◌, ◌++◌, ◌+◌, ◌-◌, ◌==◌, ◌^◌, ◌||◌, ◌∷◌,
}
use roboflow.Storage.Error.{Returned, StorageError, failure, io_error, not_found, success}

pub data EvictionPolicy : Type 0 where
  lru : EvictionPolicy
  lfu : EvictionPolicy
  fifo : EvictionPolicy

pub record CacheConfig : Type 0 where
  pub max_cache_size : ℕ
  pub target_size : ℕ
  pub eviction_policy : EvictionPolicy
  pub delete_after_upload : Bool

pub record CacheStats : Type 0 where
  pub cache_hits : ℕ
  pub cache_misses : ℕ
  pub total_cached_bytes : ℕ
  pub cached_file_count : ℕ
  pub pending_uploads : ℕ
  pub uploads_completed : ℕ
  pub uploads_failed : ℕ
  pub bytes_uploaded : ℕ

pub record CacheEntry : Type 0 where
  pub size : ℕ
  pub last_accessed : ℕ
  pub created_at : ℕ
  pub access_count : ℕ
  pub pending_upload : Bool

pub record UploadTask : Type 0 where
  pub local_path : Bytes
  pub remote_path : Bytes
  pub size : ℕ

pub record CachedStorage : Type 0 where
  pub config : CacheConfig
  pub remote : Bytes → Option Bytes
  pub files : Bytes → Option Bytes
  pub entries : List (Bytes × CacheEntry)
  pub cache_size : ℕ
  pub stats : CacheStats
  pub queue : List UploadTask

abbrev pub put_file : Bytes → Option Bytes → (Bytes → Option Bytes) → Bytes → Option Bytes
put_file path content files q = if beq q path then content else files q

-- The name in the cache's directory: each slash and each backslash becomes two colons.
unfoldable pub cache_path : Bytes → Bytes
cache_path [] = []
cache_path (c ∷ path) =
    let rest = cache_path path in if (c == 47) || (c == 92) then b':' ∷ b':' ∷ rest else c ∷ rest

abbrev pub is_some : {A : Type 0} → Option A → Bool
is_some none = false
is_some (some a) = true

unfoldable pub is_cached : Bytes → CachedStorage → Bool
unfolding cache_path
is_cached path c = is_some (c.files (cache_path path))

unfoldable pub new_entry : ℕ → ℕ → CacheEntry
new_entry now size = record {
  size = size;
  last_accessed = now;
  created_at = now;
  access_count = 1;
  pending_upload = false;
}

abbrev pub find_entry : Bytes → List (Bytes × CacheEntry) → Option CacheEntry
find_entry path [] = none
find_entry path ((p, e) ∷ es) = if beq p path then some e else find_entry path es

abbrev pub remove_entry : Bytes → List (Bytes × CacheEntry) → List (Bytes × CacheEntry)
remove_entry path [] = []
remove_entry path ((p, e) ∷ es) =
    let rest = remove_entry path es in if beq p path then rest else (p, e) ∷ rest

abbrev pub change_entry :
    Bytes → (CacheEntry → CacheEntry) → List (Bytes × CacheEntry) → List (Bytes × CacheEntry)
change_entry path f [] = []
change_entry path f ((p, e) ∷ es) =
    (if beq p path then (p, f e) else (p, e)) ∷ change_entry path f es

-- By what the policy compares.
unfoldable pub eviction_key : EvictionPolicy → CacheEntry → ℕ
eviction_key lru e = e.last_accessed
eviction_key lfu e = e.access_count
eviction_key fifo e = e.created_at

abbrev pub smaller :
    EvictionPolicy → Bytes × CacheEntry → Option (Bytes × CacheEntry) → Bytes × CacheEntry
smaller policy (p, e) none = (p, e)
smaller policy (p, e) (some (q, f)) =
    if leb (eviction_key policy e) (eviction_key policy f) then (p, e) else (q, f)

-- The entry to evict: the first with the smallest key, among those without a pending upload.
unfoldable pub candidate : EvictionPolicy → List (Bytes × CacheEntry) → Option (Bytes × CacheEntry)
unfolding eviction_key
candidate policy [] = none
candidate policy ((p, e) ∷ es) =
    let rest = candidate policy es in
    if e.pending_upload then rest else some (smaller policy (p, e) rest)

-- One round of the eviction, for the entry that was found.
unfoldable pub evict_one : Bytes → CacheEntry → CachedStorage → CachedStorage
unfolding cache_path
evict_one path e c =
    let size = (c.cache_size + 2 ^ 64 - e.size) % 2 ^ 64 in
    record c {
      entries = remove_entry path c.entries;
      files = put_file (cache_path path) none c.files;
      cache_size = size;
      stats = record c.stats {
        total_cached_bytes = size;
        cached_file_count = c.stats.cached_file_count - 1;
      };
    }

unfoldable pub evict_loop : ℕ → CachedStorage → CachedStorage
unfolding candidate evict_one
evict_loop zero c = c
evict_loop (suc fuel) c =
    if leb c.cache_size c.config.target_size
    then c
    else elim (candidate c.config.eviction_policy c.entries) [
      | none ↦ c
      | some found_entry ↦ evict_loop fuel (evict_one found_entry.0 found_entry.1 c)
    ]

-- A round takes an entry out, so this fuel is enough.
unfoldable pub evict : CachedStorage → CachedStorage
unfolding evict_loop
evict c = evict_loop (suc (length c.entries)) c

unfoldable pub add_to_cache : ℕ → Bytes → ℕ → CachedStorage → CachedStorage
unfolding new_entry
add_to_cache now path size c =
    let new_size = c.cache_size + size in
    let c' = record c {
      entries = (path, new_entry now size) ∷ remove_entry path c.entries;
      cache_size = new_size % 2 ^ 64;
      stats = record c.stats {
        total_cached_bytes = new_size;
        cached_file_count = c.stats.cached_file_count + 1;
      };
    } in
    if ltb c.config.max_cache_size new_size then evict c' else c'

unfoldable pub record_access : ℕ → Bytes → CachedStorage → CachedStorage
record_access now path c = record c {
  entries =
      change_entry path (λ e. record e { last_accessed = now; access_count = e.access_count + 1 })
        c.entries;
}

abbrev pub opened : Option Bytes → Returned StorageError Bytes
opened none = failure (io_error (codes "No such file or directory"))
opened (some content) = success content

unfoldable pub open_file : Bytes → CachedStorage → Returned StorageError Bytes
unfolding cache_path
open_file path c = opened (c.files (cache_path path))

-- How a download ends: it is whole, or it breaks off after so many bytes, at an error in reading the
-- remote side or in writing the file.
pub data Download : Type 0 where
  whole : Download
  breaks_off : ℕ → StorageError → Download

-- What is done with the object of a miss. A part that was written stays.
unfoldable pub keep_download :
    Download → ℕ → Bytes → Bytes → CachedStorage → Returned StorageError Bytes × CachedStorage
unfolding cache_path add_to_cache open_file
keep_download (breaks_off n e) now path content c =
    (failure e, record c { files = put_file (cache_path path) (some (take n content)) c.files })
keep_download whole now path content c =
    let kept =
      add_to_cache now path (length content)
        (record c { files = put_file (cache_path path) (some content) c.files }) in
    (open_file path kept, kept)

-- The content that a reader of the path reads.
unfoldable pub reader :
    Download → ℕ → Bytes → CachedStorage → Returned StorageError Bytes × CachedStorage
unfolding is_cached record_access open_file keep_download
reader download now path c =
    if is_cached path c
    then (let c' = record (record_access now path c) {
      stats = record c.stats { cache_hits = c.stats.cache_hits + 1 };
    } in
        (open_file path c', c'))
    else (let c' = record c {
      stats = record c.stats { cache_misses = c.stats.cache_misses + 1 };
    } in
        elim (c.remote path) [
          | none ↦ (failure (not_found path), c')
          | some content ↦ keep_download download now path content c'
        ])

-- `CachedStorage::queue_upload`.
unfoldable pub queue_upload : Bytes → Bytes → ℕ → CachedStorage → CachedStorage
queue_upload local_path remote_path size c = record c {
  queue =
      c.queue ++ (record { local_path = local_path; remote_path = remote_path; size = size } ∷ []);
  entries = change_entry remote_path (λ e. record e { pending_upload = true }) c.entries;
  stats = record c.stats { pending_uploads = c.stats.pending_uploads + 1 };
}

-- A `CachedWriter` that was given the content and then flushed or dropped.
unfoldable pub write_through : Bytes → Bytes → CachedStorage → CachedStorage
unfolding cache_path
write_through path content c = record c {
  files = put_file (cache_path path) (some content) c.files;
  queue =
      c.queue
      ++ (record { local_path = cache_path path; remote_path = path; size = length content } ∷ []);
}

-- `CachedStorage::flush` looks whether uploads are pending, again and again until its time is up.
unfoldable pub flushed : CachedStorage → Bool
flushed c = c.stats.pending_uploads == 0

-- One task of an upload worker; `accepts` says whether the remote side takes the file.
unfoldable pub upload_next : Bool → CachedStorage → CachedStorage
upload_next accepts c = elim c.queue [
  | [] ↦ c
  | task ∷ tasks ↦
      let entries =
        change_entry task.remote_path (λ e. record e { pending_upload = false }) c.entries in
      elim (c.files task.local_path) [
        | none ↦ record c {
          queue = tasks;
          entries = entries;
          stats = record c.stats {
            uploads_failed = c.stats.uploads_failed + 1;
            pending_uploads = c.stats.pending_uploads - 1;
          };
        }
        | some content ↦
            if accepts
            then record c {
              queue = tasks;
              entries = entries;
              remote = put_file task.remote_path (some content) c.remote;
              files =
                  if c.config.delete_after_upload
                  then put_file task.local_path none c.files
                  else c.files;
              stats = record c.stats {
                uploads_completed = c.stats.uploads_completed + 1;
                bytes_uploaded = c.stats.bytes_uploaded + task.size;
                pending_uploads = c.stats.pending_uploads - 1;
              };
            }
            else record c {
              queue = tasks;
              entries = entries;
              stats = record c.stats {
                uploads_failed = c.stats.uploads_failed + 1;
                pending_uploads = c.stats.pending_uploads - 1;
              };
            }
      ]
]

unfoldable pub exists : Bytes → CachedStorage → Bool
unfolding is_cached
exists path c = is_cached path c || is_some (c.remote path)

-- The deletion here; the remote side deletes next.
unfoldable pub delete : Bytes → CachedStorage → CachedStorage
unfolding cache_path
delete path c = record c {
  entries = remove_entry path c.entries;
  cache_size = elim (find_entry path c.entries) [
    | none ↦ c.cache_size
    | some e ↦ (c.cache_size + 2 ^ 64 - e.size) % 2 ^ 64
  ];
  files = put_file (cache_path path) none c.files;
  remote = put_file path none c.remote;
}

-- Within the cache, where the source is cached; else the remote side copies what it has.
unfoldable pub copy :
    ℕ → Bytes → Bytes → CachedStorage → Returned StorageError (Unit {0}) × CachedStorage
unfolding cache_path add_to_cache queue_upload
copy now source dest c = elim (c.files (cache_path source)) [
  | none ↦ elim (c.remote source) [
    | none ↦ (failure (not_found source), c)
    | some content ↦ (success tt, record c { remote = put_file dest (some content) c.remote })
  ]
  | some content ↦ (
    success tt,
    queue_upload (cache_path dest) dest (length content) (
        add_to_cache now dest (length content)
          (record c { files = put_file (cache_path dest) (some content) c.files })),
  )
]
