-- ===== src/Episode/Snapshots.antt =====
-- The counters that workers have read, and may hold on to.
use roboflow.Bytes.{Bytes}
use roboflow.Episode.{EpisodeCounter}
use roboflow.Prelude.{
  Option, ap, arith, false, if◌then◌else◌, none, some, true, ℕ, ◌<◌, ◌==◌, ◌≡◌, ◌≤◌,
}

abbrev pub set : ℕ → Option EpisodeCounter → (ℕ → Option EpisodeCounter) → ℕ → Option EpisodeCounter
set i o f j = if j == i then o else f j

-- A snapshot that still has the counter's version is the counter.
abbrev pub Fresh : EpisodeCounter → Option EpisodeCounter → Type 0
Fresh c none = Unit {0}
Fresh c (some d) = (d.version ≤ c.version) × (d.version ≡ c.version → d ≡ c)

pub counter_ext :
    (c d : EpisodeCounter) → c.next_episode ≡ d.next_episode → c.version ≡ d.version → c ≡ d
counter_ext c d n v = ground arith

pub missing : (o : Option EpisodeCounter) (c : EpisodeCounter) → o ≡ none → o ≡ some c → ⊥
missing o c e snap = ground arith

pub unread : (stored : Option Bytes) (b : Bytes) → stored ≡ none → stored ≡ some b → ⊥
unread stored b e read = ground arith

pub Fresh-same : (c d : EpisodeCounter) → c ≡ d → Fresh d (some c)
Fresh-same c d e = (let v = ap (λ x. x.version) e in omega arith, λ _. e)

pub set-none :
    (worker : ℕ) (f : ℕ → Option EpisodeCounter)
    → ((i : ℕ) → f i ≡ none)
    → (i : ℕ) → set worker none f i ≡ none
set-none worker f e i = ground (arith, e i)

pub Fresh-set :
    (c : EpisodeCounter) (worker : ℕ) (o : Option EpisodeCounter) (f : ℕ → Option EpisodeCounter)
    → Fresh c o
    → ((i : ℕ) → Fresh c (f i))
    → (i : ℕ) → Fresh c (set worker o f i)
Fresh-set c worker o f new old i = elim (i == worker) as (λ t. Fresh c (if t then o else f i)) [
  | true ↦ new
  | false ↦ old i
]

pub Fresh-newer :
    (c d : EpisodeCounter) (o : Option EpisodeCounter)
    → c.version < d.version
    → Fresh c o
    → Fresh d o
Fresh-newer c d none newer f = tt
Fresh-newer c d (some e) newer (old, same) = (omega arith, λ v. ground arith)
