-- ===== src/Storage/Cache/Entries.antt =====
-- The entries of the cache of crates/roboflow-storage/src/cached/storage.rs: their sizes, and which
-- of them the policy picks.
use roboflow.Bytes.{Bytes, beq, beq_iff, beq_refl}
use roboflow.Prelude.{
  Bool, List, Option, [], arith, false, if◌then◌else◌, inl, inr, leb, leb→le, length, none, refl,
  some, true, ℕ, ◌+◌, ◌<◌, ◌∷◌, ◌≡◌, ◌≤◌, ◌⊎◌,
}
use roboflow.Storage.Cache.{
  CacheEntry, EvictionPolicy, candidate, eviction_key, find_entry, remove_entry, smaller,
}

abbrev pub total_size : List (Bytes × CacheEntry) → ℕ
total_size [] = 0
total_size ((p, e) ∷ es) = e.size + total_size es

-- No path stands twice.
abbrev pub Distinct : List (Bytes × CacheEntry) → Type 0
Distinct [] = Unit {0}
Distinct ((p, e) ∷ es) = (find_entry p es ≡ none) × Distinct es

-- Every entry has a pending upload or a key that is at least so large.
abbrev pub AtLeast : EvictionPolicy → ℕ → List (Bytes × CacheEntry) → Type 0
AtLeast policy k [] = Unit {0}
AtLeast policy k ((p, e) ∷ es) =
    ((e.pending_upload ≡ true) ⊎ (k ≤ eviction_key policy e)) × AtLeast policy k es

abbrev pub AllPending : List (Bytes × CacheEntry) → Type 0
AllPending [] = Unit {0}
AllPending ((p, e) ∷ es) = (e.pending_upload ≡ true) × AllPending es

AtLeast-weaken :
    (policy : EvictionPolicy) (k l : ℕ) (es : List (Bytes × CacheEntry))
    → k ≤ l
    → AtLeast policy l es
    → AtLeast policy k es
AtLeast-weaken policy k l [] le a = tt
AtLeast-weaken policy k l ((p, e) ∷ es) le (inl w, a) = (inl w, AtLeast-weaken policy k l es le a)
AtLeast-weaken policy k l ((p, e) ∷ es) le (inr w, a) =
    (inr (omega arith), AtLeast-weaken policy k l es le a)

AtLeast-pending :
    (policy : EvictionPolicy) (k : ℕ) (es : List (Bytes × CacheEntry))
    → AllPending es
    → AtLeast policy k es
AtLeast-pending policy k [] a = tt
AtLeast-pending policy k ((p, e) ∷ es) a = (inl a.0, AtLeast-pending policy k es a.1)

-- What an eviction picks: nothing, and everything is pending; or an entry that is not pending and
-- that comes first by the policy among such.
abbrev pub Picks : EvictionPolicy → List (Bytes × CacheEntry) → Option (Bytes × CacheEntry) → Type 0
Picks policy es none = AllPending es
Picks policy es (some pe) =
    (pe.1.pending_upload ≡ false) × AtLeast policy (eviction_key policy pe.1) es

pick_of :
    (policy : EvictionPolicy) (p q : Bytes) (e f : CacheEntry) (es : List (Bytes × CacheEntry))
    (b : Bool)
    → (b ≡ true → eviction_key policy e ≤ eviction_key policy f)
    → (b ≡ false → eviction_key policy f ≤ eviction_key policy e)
    → e.pending_upload ≡ false
    → Picks policy es (some (q, f))
    → Picks policy ((p, e) ∷ es) (some (if b then (p, e) else (q, f)))
pick_of policy p q e f es true le gt unqueued a = (
  unqueued,
  (
    inr (omega arith),
    AtLeast-weaken policy (eviction_key policy e) (eviction_key policy f) es (le refl) a.1,
  ),
)
pick_of policy p q e f es false le gt unqueued a = (a.0, (inr (gt refl), a.1))

pick :
    (policy : EvictionPolicy) (p : Bytes) (e : CacheEntry) (es : List (Bytes × CacheEntry))
    (o : Option (Bytes × CacheEntry))
    → e.pending_upload ≡ false
    → Picks policy es o
    → Picks policy ((p, e) ∷ es) (some (smaller policy (p, e) o))
pick policy p e es none unqueued a =
    (unqueued, (inr (omega arith), AtLeast-pending policy (eviction_key policy e) es a))
pick policy p e es (some (q, f)) unqueued a =
    pick_of policy p q e f es (leb (eviction_key policy e) (eviction_key policy f)) (leb→le _ _)
      (λ gt. ground arith) unqueued a

pass_over :
    (policy : EvictionPolicy) (p : Bytes) (e : CacheEntry) (es : List (Bytes × CacheEntry))
    (o : Option (Bytes × CacheEntry))
    → e.pending_upload ≡ true
    → Picks policy es o
    → Picks policy ((p, e) ∷ es) o
pass_over policy p e es none waits a = (waits, a)
pass_over policy p e es (some (q, f)) waits a = (a.0, (inl waits, a.1))

Picks-either :
    (policy : EvictionPolicy) (p : Bytes) (e : CacheEntry) (es : List (Bytes × CacheEntry))
    (o : Option (Bytes × CacheEntry)) (b : Bool)
    → e.pending_upload ≡ b
    → Picks policy es o
    → Picks policy ((p, e) ∷ es) (if b then o else some (smaller policy (p, e) o))
Picks-either policy p e es o true waits a = pass_over policy p e es o waits a
Picks-either policy p e es o false unqueued a = pick policy p e es o unqueued a

-- The entry to evict is one without a pending upload whose access time, access count or creation
-- time, by the policy, is not larger than that of any other such entry; there is none only if all
-- uploads are pending.
pub candidate-Picks :
    (policy : EvictionPolicy) (es : List (Bytes × CacheEntry))
    → Picks policy es (candidate policy es)
unfolding candidate
candidate-Picks policy [] = tt
candidate-Picks policy ((p, e) ∷ es) =
    Picks-either policy p e es (candidate policy es) e.pending_upload refl
      (candidate-Picks policy es)

found_behind :
    (p q : Bytes) (e f : CacheEntry) (es : List (Bytes × CacheEntry))
    → find_entry p es ≡ none
    → find_entry q es ≡ some f
    → find_entry q ((p, e) ∷ es) ≡ some f
found_behind p q e f es gone h = ground (arith, beq_iff p q)

-- The entry that is picked stands in the list.
pub candidate-found :
    (policy : EvictionPolicy) (es : List (Bytes × CacheEntry)) (q : Bytes) (f : CacheEntry)
    → Distinct es
    → candidate policy es ≡ some (q, f)
    → find_entry q es ≡ some f
unfolding candidate
candidate-found policy [] q f d h = absurd (cc)
candidate-found policy ((p, e) ∷ es) q f d h =
    ground (
      arith,
      beq_iff p q,
      beq_refl p,
      found_behind p q e f es d.0,
      candidate-found policy es q f d.1,
    )

pub length-remove_entry :
    (path : Bytes) (es : List (Bytes × CacheEntry)) → length (remove_entry path es) ≤ length es
length-remove_entry path [] = omega arith
length-remove_entry path ((p, e) ∷ es) = ground (arith, length-remove_entry path es)

pub length-remove_entry_found :
    (path : Bytes) (e : CacheEntry) (es : List (Bytes × CacheEntry))
    → find_entry path es ≡ some e
    → length (remove_entry path es) < length es
length-remove_entry_found path e [] h = absurd (cc)
length-remove_entry_found path e ((p, f) ∷ es) h =
    ground (arith, length-remove_entry path es, length-remove_entry_found path e es)

pub remove_entry_absent :
    (path : Bytes) (es : List (Bytes × CacheEntry))
    → find_entry path es ≡ none
    → remove_entry path es ≡ es
remove_entry_absent path [] h = refl
remove_entry_absent path ((p, e) ∷ es) h = ground (arith, remove_entry_absent path es)

pub total_size-remove_entry :
    (path : Bytes) (e : CacheEntry) (es : List (Bytes × CacheEntry))
    → Distinct es
    → find_entry path es ≡ some e
    → total_size (remove_entry path es) + e.size ≡ total_size es
total_size-remove_entry path e [] d h = absurd (cc)
total_size-remove_entry path e ((p, f) ∷ es) d h =
    ground
      (arith, beq_iff p path, remove_entry_absent path es, total_size-remove_entry path e es d.1)

pub find_entry-remove_entry :
    (p q : Bytes) (es : List (Bytes × CacheEntry))
    → find_entry q (remove_entry p es) ≡ (if beq p q then none else find_entry q es)
find_entry-remove_entry p q [] = ground arith
find_entry-remove_entry p q ((r, e) ∷ es) =
    ground (arith, beq_iff r p, beq_iff r q, beq_iff p q, find_entry-remove_entry p q es)

pub Distinct-remove_entry :
    (path : Bytes) (es : List (Bytes × CacheEntry)) → Distinct es → Distinct (remove_entry path es)
Distinct-remove_entry path [] d = tt
Distinct-remove_entry path ((p, e) ∷ es) d =
    ground (arith, Distinct-remove_entry path es d.1, find_entry-remove_entry path p es)
