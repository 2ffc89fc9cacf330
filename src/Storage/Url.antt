-- ===== src/Storage/Url.antt =====
-- URLs of storage: crates/roboflow-storage/src/url.rs. A path is its text.
pub mod RoundTrip
use mathlib.Core.List.{reverse}
use roboflow.Bytes.{Bytes, beq, codes, split_once, starts_with, strip_prefix}
use roboflow.Prelude.{
  Bool, List, Option, [], false, if◌then◌else◌, leb, length, none, not, some, suc, true, zero, ℕ,
  ◌&&◌, ◌++◌, ◌==◌, ◌||◌, ◌∷◌,
}
use roboflow.Storage.Error.{Returned, StorageError, cloud, failure, invalid_path, success}

pub data StorageUrl : Type 0 where
  local : Bytes → StorageUrl
  s3 : Bytes → Bytes → Option Bytes → Option Bytes → StorageUrl

unfoldable pub is_local : StorageUrl → Bool
is_local (local path) = true
is_local (s3 bucket key endpoint region) = false

unfoldable pub is_remote : StorageUrl → Bool
unfolding is_local
is_remote u = not (is_local u)

unfoldable pub url_path : StorageUrl → Bytes
url_path (local path) = path
url_path (s3 bucket key endpoint region) = key

unfoldable pub url_bucket : StorageUrl → Option Bytes
url_bucket (local path) = none
url_bucket (s3 bucket key endpoint region) = some bucket

-- The white space of Unicode in UTF-8, which is what Rust's `trim` strips.
abbrev white_space : List Bytes
white_space =
    (9 ∷ [])
    ∷ (10 ∷ [])
    ∷ (11 ∷ [])
    ∷ (12 ∷ [])
    ∷ (13 ∷ [])
    ∷ (32 ∷ [])
    ∷ (194 ∷ 133 ∷ [])
    ∷ (194 ∷ 160 ∷ [])
    ∷ (225 ∷ 154 ∷ 128 ∷ [])
    ∷ (226 ∷ 128 ∷ 128 ∷ [])
    ∷ (226 ∷ 128 ∷ 129 ∷ [])
    ∷ (226 ∷ 128 ∷ 130 ∷ [])
    ∷ (226 ∷ 128 ∷ 131 ∷ [])
    ∷ (226 ∷ 128 ∷ 132 ∷ [])
    ∷ (226 ∷ 128 ∷ 133 ∷ [])
    ∷ (226 ∷ 128 ∷ 134 ∷ [])
    ∷ (226 ∷ 128 ∷ 135 ∷ [])
    ∷ (226 ∷ 128 ∷ 136 ∷ [])
    ∷ (226 ∷ 128 ∷ 137 ∷ [])
    ∷ (226 ∷ 128 ∷ 138 ∷ [])
    ∷ (226 ∷ 128 ∷ 168 ∷ [])
    ∷ (226 ∷ 128 ∷ 169 ∷ [])
    ∷ (226 ∷ 128 ∷ 175 ∷ [])
    ∷ (226 ∷ 129 ∷ 159 ∷ [])
    ∷ (227 ∷ 128 ∷ 128 ∷ [])
    ∷ []

-- How many bytes the first of the texts has that the bytes start with.
unfoldable width : List Bytes → Bytes → ℕ
unfolding starts_with
width [] s = 0
width (p ∷ ps) s = let rest = width ps s in if starts_with p s then length p else rest

-- Strips the texts from the front, after so many bytes of the last one.
unfoldable strip : List Bytes → ℕ → Bytes → Bytes
unfolding width
strip ps n [] = []
strip ps (suc n) (x ∷ xs) = strip ps n xs
strip ps zero (x ∷ xs) = elim (width ps (x ∷ xs)) [ zero ↦ x ∷ xs | suc n ↦ strip ps n xs ]

abbrev reversed : List Bytes → List Bytes
reversed [] = []
reversed (p ∷ ps) = reverse p ∷ reversed ps

unfoldable pub trim : Bytes → Bytes
unfolding strip
trim s = reverse (strip (reversed white_space) 0 (reverse (strip white_space 0 s)))

abbrev before_found : ℕ → Option (Bytes × Bytes) → Option (Bytes × Bytes)
before_found x none = none
before_found x (some (a, b)) = some (x ∷ a, b)

-- The text before and after the first place of the needle.
unfoldable pub split_at : Bytes → Bytes → Option (Bytes × Bytes)
split_at needle [] = elim (strip_prefix needle []) [ none ↦ none | some rest ↦ some ([], rest) ]
split_at needle (x ∷ xs) = elim (strip_prefix needle (x ∷ xs)) [
  | none ↦ before_found x (split_at needle xs)
  | some rest ↦ some ([], rest)
]

abbrev onto_first : ℕ → List Bytes → List Bytes
onto_first x [] = (x ∷ []) ∷ []
onto_first x (p ∷ ps) = (x ∷ p) ∷ ps

-- `text.split(c)`.
unfoldable pub split : ℕ → Bytes → List Bytes
split c [] = [] ∷ []
split c (x ∷ xs) = let rest = split c xs in if x == c then [] ∷ rest else onto_first x rest

-- One parameter of the query: the endpoint, the region, or one that is not known.
unfoldable pub read_param : Bytes → Option Bytes × Option Bytes → Option Bytes × Option Bytes
read_param param (endpoint, region) = elim (split_once b'=' param) [
  | none ↦ (endpoint, region)
  | some (key, value) ↦
      if beq key (codes "endpoint")
      then (some value, region)
      else if beq key (codes "region")
      then (endpoint, some value)
      else (endpoint, region)
]

unfoldable pub read_params : List Bytes → Option Bytes × Option Bytes → Option Bytes × Option Bytes
unfolding read_param
read_params [] so_far = so_far
read_params (param ∷ params) so_far = read_params params (read_param param so_far)

unfoldable pub read_query : Option Bytes → Option Bytes × Option Bytes
unfolding split read_params
read_query none = (none, none)
read_query (some query) = read_params (split b'&' query) (none, none)

abbrev pub path_and_query : Bytes → Option (Bytes × Bytes) → Bytes × Option Bytes
path_and_query rest none = (rest, none)
path_and_query rest (some (path, query)) = (path, some query)

abbrev pub bucket_and_key : Bytes → Option (Bytes × Bytes) → Bytes × Bytes
bucket_and_key path none = (path, [])
bucket_and_key path (some (bucket, key)) = (bucket, key)

unfoldable pub parse_s3_url : Bytes → Returned StorageError StorageUrl
unfolding read_query
parse_s3_url rest =
    let (path, query) = path_and_query rest (split_once b'?' rest) in
    let (bucket, key) = bucket_and_key path (split_once b'/' path) in
    let (endpoint, region) = read_query query in
    if beq bucket []
    then failure (invalid_path (codes "S3 URL missing bucket name"))
    else success (s3 bucket key endpoint region)

-- The path of a URL `file://` with this rest.
unfoldable pub file_path : Bytes → Bytes
file_path rest = elim (strip_prefix (codes "localhost/") rest) [
  | some path ↦ b'/' ∷ path
  | none ↦ if starts_with (codes "/") rest then rest else b'/' ∷ rest
]

unfoldable pub with_scheme : Bytes → Bytes → Returned StorageError StorageUrl
unfolding parse_s3_url file_path
with_scheme scheme rest =
    if beq scheme (codes "file")
    then success (local (file_path rest))
    else if beq scheme (codes "s3")
    then parse_s3_url rest
    else failure (invalid_path (codes "unsupported URL scheme: " ++ scheme))

unfoldable pub without_scheme : Bytes → Returned StorageError StorageUrl
without_scheme s =
    if starts_with (codes "s3:") s
    then failure (
        invalid_path (
          codes "malformed cloud URL '"
          ++ (s ++ codes "': use s3://bucket/path (double slash required)")))
    else success (local s)

unfoldable pub from_str : Bytes → Returned StorageError StorageUrl
unfolding split_at with_scheme without_scheme trim
from_str text = elim (split_at (codes "://") (trim text)) [
  | some (scheme, rest) ↦ with_scheme scheme rest
  | none ↦ without_scheme (trim text)
]

unfoldable pub print_query : Option Bytes → Option Bytes → Bytes
print_query none none = []
print_query (some ep) none = b'?' ∷ (codes "endpoint=" ++ ep)
print_query none (some r) = b'?' ∷ (codes "region=" ++ r)
print_query (some ep) (some r) =
    b'?' ∷ (codes "endpoint=" ++ (ep ++ (b'&' ∷ (codes "region=" ++ r))))

-- `Display`.
unfoldable pub print_url : StorageUrl → Bytes
unfolding print_query
print_url (local path) = codes "file://" ++ path
print_url (s3 bucket key endpoint region) =
    codes "s3://" ++ (bucket ++ (b'/' ∷ (key ++ print_query endpoint region)))
