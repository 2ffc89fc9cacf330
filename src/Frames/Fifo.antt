-- ===== src/Frames/Fifo.antt =====
-- The ring buffer is a bounded first-in, first-out queue.
use Prim.Native.Nat.{◌∣◌}
use mathlib.Core.Path.{ap₂}
use roboflow.Frames.{
  FrameRingBuffer, Pushed, accepted, clone_ring, full, is_closed, len, rejected, ring_closed,
  set_slot, slot_of, try_pop, try_push,
}
use roboflow.Frames.Window.{
  cons_parts, held, held-append, window, window-set_after, window-set_before, window_empty,
  window_nonempty, wrapped_slot,
}
use roboflow.Prelude.{
  ==_iff, Bool, List, Option, [], ap, arith, false, if◌then◌else◌, leb, none, refl, some, subst,
  suc, sym, tests, true, ℕ, ◌%◌, ◌++◌, ◌+◌, ◌-◌, ◌<◌, ◌==◌, ◌^◌, ◌∙◌, ◌∷◌, ◌≡◌, ◌≢◌, ◌≤◌,
}

-- The capacity divides 2 ^ 64, so that an index that wraps stays at its slot.
pub record IsValid {A : Type 0} (r : FrameRingBuffer A) : Type 0 where
  pub mask_below : r.mask + 1 ≡ r.capacity
  pub small : r.capacity < 2 ^ 64
  pub divides : r.capacity ∣ 2 ^ 64
  pub write_fits : r.write_idx < 2 ^ 64
  pub read_fits : r.read_idx < 2 ^ 64
  pub within : len r ≤ r.capacity

-- What the buffer holds, the oldest frame first.
module _ {A : Type 0} where
  abbrev pub Holds : FrameRingBuffer A → List A → Type 0
  Holds r q = IsValid r × (window r.buffer r.capacity r.read_idx (len r) ≡ held q)

false_test : (a b : ℕ) → a ≡ b → (a == b) ≡ false → ⊥
false_test a b e t = ground arith

module _ {A : Type 0} where
  -- What the result of a push says of the ring and the queue it holds.
  abbrev pub Pushes : FrameRingBuffer A → List A → A → Pushed (FrameRingBuffer A) → Type 0
  Pushes r q x (accepted r') =
      Holds r' (q ++ (x ∷ [])) × (is_closed r ≡ false) × (len r < r.capacity)
  Pushes r q x (rejected ring_closed) = is_closed r ≡ true
  Pushes r q x (rejected full) = (is_closed r ≡ false) × (len r ≡ r.capacity)

  abbrev pub Pops : FrameRingBuffer A → List A → Option A × FrameRingBuffer A → Type 0
  Pops r [] (o, r') = (o ≡ none) × (r' ≡ r)
  Pops r (x ∷ rest) (o, r') = (o ≡ some x) × Holds r' rest

  pushed : A → FrameRingBuffer A → FrameRingBuffer A
  unfolding slot_of
  pushed x r = record r {
    buffer = set_slot (slot_of r r.write_idx) (some x) r.buffer;
    write_idx = (r.write_idx + 1) % 2 ^ 64;
  }

  len-pushed :
      (x : A) (r : FrameRingBuffer A)
      → r.write_idx < 2 ^ 64
      → r.read_idx < 2 ^ 64
      → len r < 2 ^ 64 - 1
      → len (pushed x r) ≡ suc (len r)
  unfolding len pushed
  len-pushed x r w d room = omega arith

  write_at : (r : FrameRingBuffer A) → IsValid r → r.write_idx ≡ (r.read_idx + len r) % 2 ^ 64
  unfolding len
  write_at r v = let w = v.write_fits in let d = v.read_fits in omega arith

  pushed_at :
      (r : FrameRingBuffer A)
      → IsValid r
      → slot_of r r.write_idx ≡ (r.read_idx + (0 + len r)) % r.capacity
  unfolding slot_of
  pushed_at r v =
      ap₂ (λ i m. i % m) (write_at r v) v.mask_below
      ∙ wrapped_slot r.capacity (r.read_idx + len r) v.divides
      ∙ ap (λ k. (r.read_idx + k) % r.capacity) (omega arith)

  start_at : (r : FrameRingBuffer A) → IsValid r → (r.read_idx + 0) % 2 ^ 64 ≡ r.read_idx
  start_at r v = let d = v.read_fits in omega arith

  pushed-Holds :
      (x : A) (r : FrameRingBuffer A) (q : List A)
      → Holds r q
      → len r < r.capacity
      → Holds (pushed x r) (q ++ (x ∷ []))
  unfolding pushed
  pushed-Holds x r q (v, e) room =
      let longer = len-pushed x r v.write_fits v.read_fits (omega (arith, v.small)) in
      let after =
        window-set_after r.capacity v.divides r.buffer (some x) r.read_idx 0 (len r)
          (slot_of r r.write_idx) (omega arith) (pushed_at r v) in
      (
        record {
          mask_below = v.mask_below;
          small = v.small;
          divides = v.divides;
          write_fits = omega arith;
          read_fits = v.read_fits;
          within = rw longer (omega arith);
        },
        rw (longer, sym (held-append q x), sym e)
            (subst
              (λ i.
                window ((pushed x r).buffer) r.capacity i (suc (len r))
                ≡ window r.buffer r.capacity i (len r) ++ (some x ∷ []))
              (start_at r v) after),
      )

  decide_push :
      (x : A) (r : FrameRingBuffer A) (q : List A) (c f : Bool)
      → Holds r q
      → is_closed r ≡ c
      → leb r.capacity (len r) ≡ f
      → Pushes r q x
          (if c then rejected ring_closed else if f then rejected full else accepted (pushed x r))
  decide_push x r q true f h shut over = shut
  decide_push x r q false true (v, e) shut over = (shut, omega (tests, over, v.within))
  decide_push x r q false false h shut over =
      let room : len r < r.capacity = ground arith in (pushed-Holds x r q h room, shut, room)

  -- A push into a ring that holds a queue either puts its frame at the end, when the ring is open
  -- and has room, or is refused, because the ring is closed or else because it is full.
  pub try_push-Pushes :
      (x : A) (r : FrameRingBuffer A) (q : List A) → Holds r q → Pushes r q x (try_push x r)
  unfolding try_push pushed
  try_push-Pushes x r q h = decide_push x r q (is_closed r) (leb r.capacity (len r)) h refl refl

  popped : FrameRingBuffer A → FrameRingBuffer A
  unfolding slot_of
  popped r = record r {
    buffer = set_slot (slot_of r r.read_idx) none r.buffer;
    read_idx = (r.read_idx + 1) % 2 ^ 64;
  }

  len-popped : (n : ℕ) (r : FrameRingBuffer A) → IsValid r → len r ≡ suc n → len (popped r) ≡ n
  unfolding len popped
  len-popped n r v e = let w = v.write_fits in let d = v.read_fits in omega arith

  first_slot :
      (r : FrameRingBuffer A) (x : A) (q : List A) (n : ℕ)
      → Holds r (x ∷ q)
      → len r ≡ suc n
      → (r.buffer (r.read_idx % r.capacity) ≡ some x)
        × (window r.buffer r.capacity ((r.read_idx + 1) % 2 ^ 64) n ≡ held q)
  first_slot r x q n (v, e) l =
      cons_parts _ _ _ _
        (subst (λ k. window r.buffer r.capacity r.read_idx k ≡ some x ∷ held q) l e)

  length_held :
      (r : FrameRingBuffer A) (x : A) (q : List A) → Holds r (x ∷ q) → (n : ℕ) × (len r ≡ suc n)
  length_held r x q (v, e) =
      window_nonempty r.buffer r.capacity r.read_idx (len r) (some x) (held q) e

  popped-Holds :
      (r : FrameRingBuffer A) (x : A) (q : List A) (n : ℕ)
      → Holds r (x ∷ q)
      → len r ≡ suc n
      → (r.buffer (slot_of r r.read_idx) ≡ some x) × Holds (popped r) q
  unfolding popped slot_of
  popped-Holds r x q n (v, e) l =
      let (head, rest) = first_slot r x q n (v, e) l in
      let shorter = len-popped n r v l in
      (
        rw v.mask_below head,
        (
          record {
            mask_below = v.mask_below;
            small = v.small;
            divides = v.divides;
            write_fits = v.write_fits;
            read_fits = omega arith;
            within = rw shorter (omega (arith, v.within));
          },
          rw (shorter, v.mask_below)
              (window-set_before r.capacity v.divides r.buffer none r.read_idx 1 n (omega arith)
                  (omega (arith, v.within))
                ∙ rest),
        ),
      )

  empty_at : (r : FrameRingBuffer A) → IsValid r → len r ≡ 0 → r.read_idx ≡ r.write_idx
  unfolding len
  empty_at r v e = let w = v.write_fits in let d = v.read_fits in omega arith

  nonempty_at :
      (n : ℕ) (r : FrameRingBuffer A) → IsValid r → len r ≡ suc n → r.read_idx ≢ r.write_idx
  unfolding len
  nonempty_at n r v e at = let w = v.write_fits in let d = v.read_fits in omega arith

  abbrev after_test : FrameRingBuffer A → Bool → Option A × FrameRingBuffer A
  after_test r none_left =
      if none_left then (none, r) else (r.buffer (slot_of r r.read_idx), popped r)

  decide_pop :
      (r : FrameRingBuffer A) (q : List A) (none_left : Bool)
      → Holds r q
      → (r.read_idx == r.write_idx) ≡ none_left
      → Pops r q (after_test r none_left)
  decide_pop r [] true h test = (refl, refl)
  decide_pop r [] false (v, e) test =
      let same = empty_at r v (window_empty r.buffer r.capacity r.read_idx (len r) e) in
      elim (false_test r.read_idx r.write_idx same test) [ ]
  decide_pop r (x ∷ q) true (v, e) test =
      let (n, l) = length_held r x q (v, e) in
      elim (nonempty_at n r v l ((==_iff r.read_idx r.write_idx).0 test)) [ ]
  decide_pop r (x ∷ q) false h test = let (n, l) = length_held r x q h in popped-Holds r x q n h l

  -- A pop of a ring that holds a queue takes the oldest frame and leaves the rest of the queue; it
  -- finds none, and changes nothing, only when the queue is empty.
  pub try_pop-Pops : (r : FrameRingBuffer A) (q : List A) → Holds r q → Pops r q (try_pop r)
  unfolding try_pop popped
  try_pop-Pops r q h = decide_pop r q (r.read_idx == r.write_idx) h refl

  -- A clone of a ring that holds frames gives none when it is popped, but moves the shared read index
  -- past the oldest one.
  pub clone_ring_loses :
      (r : FrameRingBuffer A) (x : A) (q : List A)
      → Holds r (x ∷ q)
      → let (o, r') = try_pop (clone_ring r) in
        (o ≡ none) × (r'.write_idx ≡ r.write_idx) × (r'.read_idx ≡ (r.read_idx + 1) % 2 ^ 64)
  unfolding try_pop clone_ring
  clone_ring_loses r x q h =
      let (n, l) = length_held r x q h in ground (arith, nonempty_at n r (h.0) l)
