-- ===== src/Tikv/World.antt =====
-- What the operations of the TiKV client act on, and the monad that they run in. A call of the
-- `tikv_client` library ends as the list of faults says: `some msg` makes it fail with that text,
-- and it succeeds on `none` and once the list is used up. A transaction that fails leaves the store
-- as it was. Time does not pass within an operation.
use roboflow.Bytes.{Bytes, codes}
use roboflow.Prelude.{
  Bool, List, Option, [], if◌then◌else◌, none, some, true, ℕ, ◌%◌, ◌^◌, ◌∷◌, ◌≡◌,
}
use roboflow.Tikv.Circuit.{CircuitInner, is_call_permitted, record_failure, record_success}
use roboflow.Tikv.Error.{Result, TikvError, circuit_open, client_error, connection_failed, err, ok}
use roboflow.Tikv.Store.{Store}

pub record World : Type 0 where
  pub connected : Bool
  pub store : Store
  pub breaker : CircuitInner
  pub max_retries : ℕ
  pub now : ℕ
  pub faults : List (Option Bytes)

abbrev pub M : Type 0 → Type 0
M A = World → Result A × World

abbrev pub continue : {A B : Type 0} → (A → M B) → Result A × World → Result B × World
continue f (ok a, w) = f a w
continue f (err e, w) = (err e, w)

infixl 5 ◌>>=◌ ◌>>◌
abbrev pub ◌>>=◌ : {A B : Type 0} → M A → (A → M B) → M B
◌>>=◌ m f w = continue f (m w)

abbrev pub ◌>>◌ : {B : Type 0} → M (Unit {0}) → M B → M B
◌>>◌ m k = m >>= λ _. k

abbrev pub return : {A : Type 0} → A → M A
return a w = (ok a, w)

abbrev pub fail : {A : Type 0} → TikvError → M A
fail e w = (err e, w)

abbrev pub read_store : {A : Type 0} → (Store → A) → M A
read_store f w = (ok (f w.store), w)

abbrev pub write_store : (Store → Store) → M (Unit {0})
write_store f w = (ok tt, record w { store = f w.store })

abbrev pub read_now : M ℕ
read_now w = (ok w.now, w)

abbrev take_fault : List (Option Bytes) → Option Bytes × List (Option Bytes)
take_fault [] = (none, [])
take_fault (f ∷ fs) = (f, fs)

-- A call of the library outside the breaker; its error is wrapped.
unfoldable pub tick : M (Unit {0})
tick w =
    let (f, fs) = take_fault w.faults in
    let w' = record w { faults = fs } in
    elim f [ none ↦ (ok tt, w') | some msg ↦ (err (client_error msg), w') ]

-- A call of the library that tells the breaker of its failure.
unfoldable pub guarded_tick : M (Unit {0})
guarded_tick w =
    let (f, fs) = take_fault w.faults in
    elim f [
      | none ↦ (ok tt, record w { faults = fs })
      | some msg ↦ (
        err (client_error msg),
        record w { faults = fs; breaker = record_failure w.breaker w.now },
      )
    ]

unfoldable pub check_permitted : M (Unit {0})
check_permitted w =
    let (b, permitted) = is_call_permitted w.breaker w.now in
    let w' = record w { breaker = b } in
    if permitted then (ok tt, w') else (err (circuit_open (b.failures % 2 ^ 32)), w')

unfoldable pub check_connected : M (Unit {0})
check_connected w =
    if w.connected
    then (ok tt, w)
    else (err (connection_failed (codes "TiKV client not initialized")), w)

unfoldable pub note_success : M (Unit {0})
note_success w = (ok tt, record w { breaker = record_success w.breaker w.now })

-- Nothing stands in the way of the client.
pub record IsHealthy (w : World) : Type 0 where
  pub connected : w.connected ≡ true
  pub no_faults : w.faults ≡ []
  pub breaker_closed : w.breaker.state ≡ 0
  pub no_failures : w.breaker.failures ≡ 0
