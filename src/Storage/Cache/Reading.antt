-- ===== src/Storage/Cache/Reading.antt =====
-- Reading through the cache of crates/roboflow-storage/src/cached/storage.rs.
use roboflow.Bytes.{Bytes, beq, beq_refl}
use roboflow.Prelude.{
  Bool-cases, Option, Option-cases, ap, arith, false, inl, inr, length, ltb, none, refl, some,
  subst, sym, take, true, ℕ, ◌+◌, ◌∙◌, ◌≡◌, ◌≤◌,
}
use roboflow.Storage.Cache.{
  CachedStorage, Download, add_to_cache, breaks_off, cache_path, is_cached, keep_download,
  open_file, opened, put_file, reader, record_access, whole,
}
use roboflow.Storage.Error.{Returned, StorageError, failure, not_found, success}

-- What the storage holds, seen from outside: the cached file, or else the remote object.
abbrev pub first_of : Option Bytes → Option Bytes → Option Bytes
first_of none r = r
first_of (some content) r = some content

abbrev pub view : CachedStorage → Bytes → Option Bytes
view c path = first_of (c.files (cache_path path)) (c.remote path)

abbrev pub answer : Bytes → Option Bytes → Returned StorageError Bytes
answer path none = failure (not_found path)
answer path (some content) = success content

-- There is room for what a miss brings in.
abbrev pub HasRoom : CachedStorage → Option Bytes → Type 0
HasRoom c none = Unit {0}
HasRoom c (some content) = c.cache_size + length content ≤ c.config.max_cache_size

abbrev pub NoClash : Bytes → Bytes → Type 0
NoClash p q = beq (cache_path q) (cache_path p) ≡ true → q ≡ p

add_to_cache_room :
    (now : ℕ) (path : Bytes) (size : ℕ) (c : CachedStorage)
    → c.cache_size + size ≤ c.config.max_cache_size
    → ((add_to_cache now path size c).files ≡ c.files)
      × ((add_to_cache now path size c).remote ≡ c.remote)
unfolding add_to_cache
add_to_cache_room now path size c room =
    let small : ltb c.config.max_cache_size (c.cache_size + size) ≡ false = ground arith in
    rw (add_to_cache, small) (refl, refl)

-- What a reader does to the files and the remote side, and what it reads.
record Read (path : Bytes) (c : CachedStorage) (out : Returned StorageError Bytes × CachedStorage)
    (files : Bytes → Option Bytes) (o : Option Bytes) : Type 0 where
  result : out.0 ≡ answer path o
  new_files : out.1.files ≡ files
  same_remote : out.1.remote ≡ c.remote

put_file_same :
    (f : Bytes) (o : Option Bytes) (files : Bytes → Option Bytes) → put_file f o files f ≡ o
put_file_same f o files = rw (beq_refl f) refl

reader_hit :
    (now : ℕ) (path content : Bytes) (c : CachedStorage)
    → c.files (cache_path path) ≡ some content
    → Read path c (reader whole now path c) c.files (some content)
unfolding reader is_cached record_access
reader_hit now path content c hit = record {
  result = rw (reader, hit) refl;
  new_files = rw (reader, hit) refl;
  same_remote = rw (reader, hit) refl;
}

reader_absent :
    (now : ℕ) (path : Bytes) (c : CachedStorage)
    → c.files (cache_path path) ≡ none
    → c.remote path ≡ none
    → Read path c (reader whole now path c) c.files none
unfolding reader is_cached
reader_absent now path c miss absent = record {
  result = rw (reader, miss, absent) refl;
  new_files = rw (reader, miss, absent) refl;
  same_remote = rw (reader, miss, absent) refl;
}

-- The cache as `add_to_cache` finds it after a download.
abbrev pub downloaded : Bytes → Bytes → CachedStorage → CachedStorage
downloaded path content c = record c {
  stats = record c.stats { cache_misses = c.stats.cache_misses + 1 };
  files = put_file (cache_path path) (some content) c.files;
}

pub reader_miss :
    (now : ℕ) (path content : Bytes) (c : CachedStorage)
    → c.files (cache_path path) ≡ none
    → c.remote path ≡ some content
    → let kept = add_to_cache now path (length content) (downloaded path content c) in
      reader whole now path c ≡ (open_file path kept, kept)
unfolding reader is_cached keep_download
reader_miss now path content c miss there = rw (reader, miss, there) refl

reader_brings :
    (now : ℕ) (path content : Bytes) (c : CachedStorage)
    → c.files (cache_path path) ≡ none
    → c.remote path ≡ some content
    → c.cache_size + length content ≤ c.config.max_cache_size
    → Read path c
        (reader whole now path c)
        (put_file (cache_path path) (some content) c.files)
        (some content)
unfolding open_file
reader_brings now path content c miss there room =
    let kept = add_to_cache_room now path (length content) (downloaded path content c) room in
    rw (reader_miss now path content c miss there) (record {
      result = ap opened (
          ap (λ files. files (cache_path path)) kept.0
          ∙ put_file_same (cache_path path) (some content) c.files);
      new_files = kept.0;
      same_remote = kept.1;
    })

brought_view :
    (path content : Bytes) (c : CachedStorage) (q : Bytes)
    → NoClash path q
    → c.files (cache_path path) ≡ none
    → c.remote path ≡ some content
    → first_of (put_file (cache_path path) (some content) c.files (cache_path q)) (c.remote q)
      ≡ view c q
brought_view path content c q clear miss there =
    elim (Bool-cases (beq (cache_path q) (cache_path path))) [
      | inl same ↦
          subst
            (λ r.
              first_of (put_file (cache_path path) (some content) c.files (cache_path r))
                (c.remote r)
              ≡ view c r)
            (sym (clear same)) (rw (beq_refl (cache_path path), miss, there) refl)
      | inr differs ↦ rw differs refl
    ]

-- While there is room in the cache, and the download of a miss does not break off, a reader reads
-- what the storage holds, from the cache or from the remote side, or is told that there is no such
-- object; and then the storage holds the same, for every path whose name in the cache is not that of
-- another path, the one that was read.
pub reader-view :
    (now : ℕ) (path : Bytes) (c : CachedStorage)
    → HasRoom c (c.remote path)
    → ((reader whole now path c).0 ≡ answer path (view c path))
      × ((q : Bytes) → NoClash path q → view (reader whole now path c).1 q ≡ view c q)
reader-view now path c room = elim (Option-cases (c.files (cache_path path))) [
  | inl miss ↦ elim (Option-cases (c.remote path)) [
    | inl absent ↦
        let r = reader_absent now path c miss absent in
        (rw (miss, absent) r.result, λ q n. rw (r.new_files, r.same_remote) refl)
    | inr (content, there) ↦
        let r = reader_brings now path content c miss there (rw there at room) in
        (
          rw (miss, there) r.result,
          λ q n. rw (r.new_files, r.same_remote) (brought_view path content c q n miss there),
        )
  ]
  | inr (content, hit) ↦
      let r = reader_hit now path content c hit in
      (rw hit r.result, λ q n. rw (r.new_files, r.same_remote) refl)
]

-- A download that breaks off leaves a part of the object, which the cache then takes for the whole:
-- the first reader gets the error, and the next one that part as the content, whatever the next
-- download would bring. (The object is not in the cache at first.)
pub reader_partial :
    (n now later : ℕ) (e : StorageError) (again : Download) (path content : Bytes)
    (c : CachedStorage)
    → c.files (cache_path path) ≡ none
    → c.remote path ≡ some content
    → let (first, c') = reader (breaks_off n e) now path c in
      (first ≡ failure e) × ((reader again later path c').0 ≡ success (take n content))
unfolding reader is_cached keep_download open_file record_access
reader_partial n now later e again path content c miss there =
    rw (reader, miss, there) (refl, rw (beq_refl (cache_path path)) refl)
