-- ===== src/Storage/Url/RoundTrip.antt =====
-- Printing and reading a URL: crates/roboflow-storage/src/url.rs.
use roboflow.Bytes.{
  Bytes, Lacks, beq, codes, split_once, split_once-append, starts_with, strip_prefix,
}
use roboflow.Prelude.{
  Option, [], ap, append-nil, append_assoc, arith, false, none, refl, some, true, ℕ, ◌++◌, ◌∙◌, ◌∷◌,
  ◌≡◌, ◌≢◌,
}
use roboflow.Storage.Error.{success}
use roboflow.Storage.Url.{
  StorageUrl, file_path, from_str, local, parse_s3_url, path_and_query, print_query, print_url,
  read_param, read_params, read_query, s3, split, split_at, trim, with_scheme,
}

abbrev pub OptionLacks : ℕ → Option Bytes → Type 0
OptionLacks c none = Unit {0}
OptionLacks c (some s) = Lacks c s

-- The parts can be told apart in the text.
abbrev pub Printable : StorageUrl → Type 0
Printable (local path) = starts_with (codes "/") path ≡ true
Printable (s3 bucket key endpoint region) =
    (bucket ≢ [])
    × Lacks b'/' bucket
    × Lacks b'?' bucket
    × Lacks b'?' key
    × OptionLacks b'&' endpoint
    × OptionLacks b'&' region

split-Lacks : (c : ℕ) (a : Bytes) → Lacks c a → split c a ≡ a ∷ []
unfolding split
split-Lacks c [] h = refl
split-Lacks c (x ∷ a) h = ground (arith, split-Lacks c a h.1)

split-append : (c : ℕ) (a b : Bytes) → Lacks c a → split c (a ++ c ∷ b) ≡ a ∷ split c b
unfolding split
split-append c [] b h = ground arith
split-append c (x ∷ a) b h = ground (arith, split-append c a b h.1)

split_once-Lacks : (c : ℕ) (a : Bytes) → Lacks c a → split_once c a ≡ none
unfolding split_once
split_once-Lacks c [] h = refl
split_once-Lacks c (x ∷ a) h = ground (arith, split_once-Lacks c a h.1)

Lacks-append : (c : ℕ) (a b : Bytes) → Lacks c a → Lacks c b → Lacks c (a ++ b)
Lacks-append c [] b h k = k
Lacks-append c (x ∷ a) b h k = (h.0, Lacks-append c a b h.1 k)

read_endpoint :
    (ep : Bytes) (region : Option Bytes)
    → read_param (codes "endpoint=" ++ ep) (none, region) ≡ (some ep, region)
unfolding read_param beq
read_endpoint ep region =
    rw (read_param, split_once-append b'=' (codes "endpoint") ep (omega arith)) refl

read_region :
    (r : Bytes) (endpoint : Option Bytes)
    → read_param (codes "region=" ++ r) (endpoint, none) ≡ (endpoint, some r)
unfolding read_param beq
read_region r endpoint =
    rw (read_param, split_once-append b'=' (codes "region") r (omega arith)) refl

-- The query behind the mark, as `read_query` gets it.
abbrev query_text : Option Bytes → Option Bytes → Option Bytes
query_text none none = none
query_text (some ep) none = some (codes "endpoint=" ++ ep)
query_text none (some r) = some (codes "region=" ++ r)
query_text (some ep) (some r) = some (codes "endpoint=" ++ (ep ++ (b'&' ∷ (codes "region=" ++ r))))

read_query-text :
    (endpoint region : Option Bytes)
    → OptionLacks b'&' endpoint
    → OptionLacks b'&' region
    → read_query (query_text endpoint region) ≡ (endpoint, region)
unfolding read_query
read_query-text none none le lr = refl
read_query-text (some ep) none le lr =
    let alone =
      split-Lacks b'&' (codes "endpoint=" ++ ep)
        (Lacks-append b'&' (codes "endpoint=") ep (omega arith) le) in
    rw (read_query, alone, read_params) (read_endpoint ep none)
read_query-text none (some r) le lr =
    let alone =
      split-Lacks b'&' (codes "region=" ++ r)
        (Lacks-append b'&' (codes "region=") r (omega arith) lr) in
    rw (read_query, alone, read_params) (read_region r none)
read_query-text (some ep) (some r) le lr =
    let first = codes "endpoint=" ++ ep in
    let second = codes "region=" ++ r in
    let parts : split b'&' (first ++ b'&' ∷ second) ≡ first ∷ second ∷ [] =
      split-append b'&' first second (Lacks-append b'&' (codes "endpoint=") ep (omega arith) le)
      ∙ ap (◌∷◌ first)
          (split-Lacks b'&' second (Lacks-append b'&' (codes "region=") r (omega arith) lr)) in
    ap (λ ps. read_params ps (none, none)) parts
    ∙ ap (read_param second) (read_endpoint ep none)
    ∙ read_region r (some ep)

with_query :
    (path : Bytes) (endpoint region : Option Bytes)
    → Lacks b'?' path
    → path_and_query
        (path ++ print_query endpoint region)
        (split_once b'?' (path ++ print_query endpoint region))
      ≡ (path, query_text endpoint region)
unfolding print_query
with_query path none none l = rw (append-nil, split_once-Lacks b'?' path l) refl
with_query path (some ep) none l = rw (split_once-append b'?' path (codes "endpoint=" ++ ep) l) refl
with_query path none (some r) l = rw (split_once-append b'?' path (codes "region=" ++ r) l) refl
with_query path (some ep) (some r) l =
    rw
      (split_once-append b'?' path (codes "endpoint=" ++ (ep ++ (b'&' ∷ (codes "region=" ++ r)))) l)
      refl

beq_nil : (b : Bytes) → b ≢ [] → beq b [] ≡ false
unfolding beq
beq_nil [] n = absurd (n refl)
beq_nil (x ∷ b) n = refl

-- What the three cuts of the text give is what is read.
parse_s3_url-cuts :
    (rest path : Bytes) (query : Option Bytes) (bucket key : Bytes) (endpoint region : Option Bytes)
    → path_and_query rest (split_once b'?' rest) ≡ (path, query)
    → split_once b'/' path ≡ some (bucket, key)
    → read_query query ≡ (endpoint, region)
    → bucket ≢ []
    → parse_s3_url rest ≡ success (s3 bucket key endpoint region)
unfolding parse_s3_url
parse_s3_url-cuts rest path query bucket key endpoint region cut slash params named =
    rw (parse_s3_url, cut, slash, params, beq_nil bucket named) refl

parse_s3_url-print :
    (bucket key : Bytes) (endpoint region : Option Bytes)
    → Printable (s3 bucket key endpoint region)
    → parse_s3_url (bucket ++ (b'/' ∷ (key ++ print_query endpoint region)))
      ≡ success (s3 bucket key endpoint region)
parse_s3_url-print bucket key endpoint region p =
    let path = bucket ++ b'/' ∷ key in
    let marks = Lacks-append b'?' bucket (b'/' ∷ key) p.2 (omega arith, p.3) in
    let parsed =
      parse_s3_url-cuts (path ++ print_query endpoint region) path (query_text endpoint region)
        bucket key endpoint region (with_query path endpoint region marks)
        (split_once-append b'/' bucket key p.1) (read_query-text endpoint region p.4 p.5) p.0 in
    rw (append_assoc bucket (b'/' ∷ key) (print_query endpoint region)) at parsed

file_path-absolute : (path : Bytes) → starts_with (codes "/") path ≡ true → file_path path ≡ path
unfolding file_path starts_with strip_prefix
file_path-absolute [] e = absurd (cc)
file_path-absolute (x ∷ path) e = ground arith

from_str-scheme :
    (text scheme rest : Bytes)
    → trim text ≡ text
    → split_at (codes "://") text ≡ some (scheme, rest)
    → from_str text ≡ with_scheme scheme rest
unfolding from_str
from_str-scheme text scheme rest trimmed cut = rw (from_str, trimmed, cut) refl

-- A URL that can be printed reads back from its text: a local path that begins with a slash; or a
-- bucket that is not empty and has no slash, a key, an endpoint and a region, where bucket and key
-- have no question mark, and endpoint and region no ampersand. (The text has no white space at
-- its ends.)
pub from_str-print_url :
    (u : StorageUrl)
    → Printable u
    → trim (print_url u) ≡ print_url u
    → from_str (print_url u) ≡ success u
unfolding split_at strip_prefix print_url with_scheme beq
from_str-print_url (local path) p t =
    from_str-scheme (print_url (local path)) (codes "file") path t refl
    ∙ ap (λ q. success (local q)) (file_path-absolute path p)
from_str-print_url (s3 bucket key endpoint region) p t =
    from_str-scheme (print_url (s3 bucket key endpoint region)) (codes "s3")
      (bucket ++ (b'/' ∷ (key ++ print_query endpoint region))) t refl
    ∙ parse_s3_url-print bucket key endpoint region p
