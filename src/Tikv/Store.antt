-- ===== src/Tikv/Store.antt =====
-- TiKV's ordered key-value store, as far as the code relies on it: a map from keys to values that a
-- scan reads in the order of the keys. It keeps one entry for a key.
use roboflow.Prelude.{ℕ, ◌≡◌, refl, Option, none, some, List, [], ◌∷◌, arith, if◌then◌else◌, take}
use roboflow.Bytes.{Bytes, beq, beq_iff, bytes_ltb, in_range}

abbrev pub Store : Type 0
Store = List (Bytes × Bytes)

unfoldable pub lookup : Bytes → Store → Option Bytes
lookup k [] = none
lookup k ((j, v) ∷ m) = if beq j k then some v else lookup k m

unfoldable pub insert : Bytes → Bytes → Store → Store
insert k v [] = (k, v) ∷ []
insert k v ((j, w) ∷ m) =
    let rest = insert k v m in
    if beq j k then (k, v) ∷ m else if bytes_ltb k j then (k, v) ∷ (j, w) ∷ m else (j, w) ∷ rest

unfoldable pub remove : Bytes → Store → Store
remove k [] = []
remove k ((j, w) ∷ m) = if beq j k then remove k m else (j, w) ∷ remove k m

-- The entries of a range of keys, in order.
unfoldable pub entries : Bytes → Store → Store
entries p [] = []
entries p ((j, w) ∷ m) = if in_range p j then (j, w) ∷ entries p m else entries p m

unfoldable pub scan_entries : Bytes → ℕ → Store → Store
scan_entries p limit m = take limit (entries p m)

pub lookup-insert :
    (k j v : Bytes) (m : Store) → lookup j (insert k v m) ≡ (if beq k j then some v else lookup j m)
unfolding lookup insert
lookup-insert k j v [] = refl
lookup-insert k j v ((i, w) ∷ m) =
    ground (arith, beq_iff i k, beq_iff i j, beq_iff k j, lookup-insert k j v m)

pub lookup-remove :
    (k j : Bytes) (m : Store) → lookup j (remove k m) ≡ (if beq k j then none else lookup j m)
unfolding lookup remove
lookup-remove k j [] = ground arith
lookup-remove k j ((i, w) ∷ m) =
    ground (arith, beq_iff i k, beq_iff i j, beq_iff k j, lookup-remove k j m)
