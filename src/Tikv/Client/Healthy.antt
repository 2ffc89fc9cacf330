-- ===== src/Tikv/Client/Healthy.antt =====
-- The client's operations when nothing stands in their way.
use roboflow.Bytes.{Bytes}
use roboflow.Prelude.{Option, arith, none, refl, some, suc, zero, ℕ, ◌≡◌}
use roboflow.Tikv.Circuit.{is_call_permitted, record_success}
use roboflow.Tikv.Client.{
  Claim, broken, claim_found, claimed, delete, delete_once, finish_claim, get, put, put_once,
  retry_write, scan, transactional_claim, unclaimed, write_once,
}
use roboflow.Tikv.Error.{Result, err, ok, other}
use roboflow.Tikv.Store.{Store, insert, lookup, remove, scan_entries}
use roboflow.Tikv.World.{
  IsHealthy, World, check_connected, check_permitted, guarded_tick, note_success, tick,
}

module _ (w : World) (h : IsHealthy w) where
  pub check_permitted-IsHealthy : check_permitted w ≡ (ok tt, w)
  unfolding check_permitted is_call_permitted
  check_permitted-IsHealthy = ground arith

  pub check_connected-IsHealthy : check_connected w ≡ (ok tt, w)
  unfolding check_connected
  check_connected-IsHealthy = ground arith

  pub guarded_tick-IsHealthy : guarded_tick w ≡ (ok tt, w)
  unfolding guarded_tick
  guarded_tick-IsHealthy = ground arith

  pub tick-IsHealthy : tick w ≡ (ok tt, w)
  unfolding tick
  tick-IsHealthy = ground arith

  pub note_success-IsHealthy : note_success w ≡ (ok tt, w)
  unfolding note_success record_success
  note_success-IsHealthy = ground arith

pub IsHealthy-write : (w : World) (m : Store) → IsHealthy w → IsHealthy (record w { store = m })
IsHealthy-write w m h = ground arith

pub get-IsHealthy : (k : Bytes) (w : World) → IsHealthy w → get k w ≡ (ok (lookup k w.store), w)
unfolding get
get-IsHealthy k w h = simp (
  check_permitted-IsHealthy w h,
  check_connected-IsHealthy w h,
  guarded_tick-IsHealthy w h,
  note_success-IsHealthy w h,
)

write_once-IsHealthy :
    (f : Store → Store) (w : World)
    → IsHealthy w
    → write_once f w ≡ (ok tt, record w { store = f w.store })
unfolding write_once
write_once-IsHealthy f w h = simp (
  check_permitted-IsHealthy w h,
  check_connected-IsHealthy w h,
  guarded_tick-IsHealthy w h,
  note_success-IsHealthy (record w { store = f w.store }) (IsHealthy-write w (f w.store) h),
)

retry_write-IsHealthy :
    (n : ℕ) (f : Store → Store) (w : World)
    → IsHealthy w
    → retry_write n (write_once f) w ≡ (ok tt, record w { store = f w.store })
unfolding retry_write
retry_write-IsHealthy zero f w h = write_once-IsHealthy f w h
retry_write-IsHealthy (suc n) f w h = rw (write_once-IsHealthy f w h)

pub put-IsHealthy :
    (k v : Bytes) (w : World)
    → IsHealthy w
    → put k v w ≡ (ok tt, record w { store = insert k v w.store })
unfolding put put_once
put-IsHealthy k v w h = retry_write-IsHealthy w.max_retries (insert k v) w h

pub delete-IsHealthy :
    (k : Bytes) (w : World)
    → IsHealthy w
    → delete k w ≡ (ok tt, record w { store = remove k w.store })
unfolding delete delete_once
delete-IsHealthy k w h = retry_write-IsHealthy w.max_retries (remove k) w h

pub scan-IsHealthy :
    (p : Bytes) (limit : ℕ) (w : World)
    → IsHealthy w
    → scan p limit w ≡ (ok (scan_entries p limit w.store), w)
unfolding scan
scan-IsHealthy p limit w h = simp (check_connected-IsHealthy w h, tick-IsHealthy w h)

-- What a claim does to a healthy client's store, by what the processor says of the stored value.
abbrev pub after_claim :
    Bytes → Bytes → World → Option (Bytes × Claim) → Result (Option Bytes) × World
after_claim k p w none = (ok none, record w { store = remove p w.store })
after_claim k p w (some (v, broken msg)) = (err (other msg), w)
after_claim k p w (some (v, unclaimed)) = (ok none, w)
after_claim k p w (some (v, claimed v')) =
    (ok (some v'), record w { store = remove p (insert k v' w.store) })

abbrev pub judge : (Bytes → Claim) → Option Bytes → Option (Bytes × Claim)
judge process none = none
judge process (some v) = some (v, process v)

finish_claim-IsHealthy :
    (k p v : Bytes) (c : Claim) (w : World)
    → IsHealthy w
    → finish_claim k p c w ≡ after_claim k p w (some (v, c))
unfolding finish_claim
finish_claim-IsHealthy k p v (broken msg) w h = refl
finish_claim-IsHealthy k p v unclaimed w h = simp (tick-IsHealthy w h)
finish_claim-IsHealthy k p v (claimed v') w h = simp (tick-IsHealthy w h)

claim_found-IsHealthy :
    (k p : Bytes) (process : Bytes → Claim) (o : Option Bytes) (w : World)
    → IsHealthy w
    → claim_found k p process o w ≡ after_claim k p w (judge process o)
unfolding claim_found
claim_found-IsHealthy k p process none w h = simp (tick-IsHealthy w h)
claim_found-IsHealthy k p process (some v) w h = finish_claim-IsHealthy k p v (process v) w h

pub transactional_claim-IsHealthy :
    (k p : Bytes) (process : Bytes → Claim) (w : World)
    → IsHealthy w
    → transactional_claim k p process w ≡ after_claim k p w (judge process (lookup k w.store))
unfolding transactional_claim
transactional_claim-IsHealthy k p process w h =
    simp (check_connected-IsHealthy w h, tick-IsHealthy w h)
      (claim_found-IsHealthy k p process (lookup k w.store) w h)
