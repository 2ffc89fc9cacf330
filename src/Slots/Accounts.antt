-- ===== src/Slots/Accounts.antt =====
-- Who holds which slot, and how many permits there are.
use roboflow.Prelude.{
  Bool, List, Option, [], ap, arith, false, if◌then◌else◌, none, refl, some, subst, suc, sym, true,
  zero, ℕ, ◌&&◌, ◌+◌, ◌==◌, ◌∷◌, ◌≡◌, ◌≢◌, ◌≤◌,
}
use roboflow.Slots.{
  Slot, SlotPool, SlotState, acquire, after_search, blocked, busy, count_free, count_taken, free,
  free_slots, guard, is_free, no_slot, or_keep, release_slot, take_slot,
}

module _ {C : Type 0} where
  -- The slots are numbered in order.
  abbrev pub Numbered : ℕ → List (Slot C) → Type 0
  Numbered i [] = Unit {0}
  Numbered i (s ∷ ss) = (s.id ≡ i) × Numbered (i + 1) ss

  pub free_slots-Numbered :
      (worker : ℕ) (capacity : C) (i n : ℕ) → Numbered i (free_slots worker capacity i n)
  unfolding free_slots
  free_slots-Numbered worker capacity i zero = tt
  free_slots-Numbered worker capacity i (suc n) =
      (refl, free_slots-Numbered worker capacity (i + 1) n)

  pub release_slot-Numbered :
      (j i : ℕ) (ss : List (Slot C)) → Numbered i ss → Numbered i (release_slot j ss)
  unfolding release_slot
  release_slot-Numbered j i [] h = tt
  release_slot-Numbered j i (s ∷ ss) h = ground (arith, release_slot-Numbered j (i + 1) ss h.1)

  -- What a slot is doing.
  abbrev pub doing : ℕ → List (Slot C) → Option (SlotState × Option ℕ)
  doing i [] = none
  doing i (s ∷ ss) = if s.id == i then some (s.state, s.task_id) else doing i ss

  -- Slot `j` was free and is busy with the task; giving it back restores the counts.
  pub record Takes (task i j : ℕ) (ss ts : List (Slot C)) : Type 0 where
    pub numbered : Numbered i ts
    pub later : i ≤ j
    pub one_free_less : count_free ts + 1 ≡ count_free ss
    pub one_taken_more : count_taken ts ≡ count_taken ss + 1
    pub free_again : count_free (release_slot j ts) ≡ count_free ss
    pub taken_again : count_taken (release_slot j ts) ≡ count_taken ss
    pub was_free : (o : Option ℕ) × (doing j ss ≡ some (free, o))
    pub is_busy : doing j ts ≡ some (busy, some task)
    pub others_keep : (k : ℕ) → k ≢ j → doing k ts ≡ doing k ss

  abbrev pub TakesSome : ℕ → ℕ → List (Slot C) → Option (ℕ × List (Slot C)) → Type 0
  TakesSome task i ss none = Unit {0}
  TakesSome task i ss (some (j, ts)) = Takes task i j ss ts

  Takes-next :
      (task i j : ℕ) (s : Slot C) (ss ts : List (Slot C))
      → s.id ≡ i
      → Takes task (i + 1) j ss ts
      → Takes task i j (s ∷ ss) (s ∷ ts)
  unfolding release_slot count_free count_taken
  Takes-next task i j s ss ts e t = record {
    numbered = ground arith;
    later = ground arith;
    one_free_less = ground arith;
    one_taken_more = ground arith;
    free_again = ground arith;
    taken_again = ground arith;
    was_free = (t.was_free.0, ground (arith, t.was_free.1));
    is_busy = ground arith;
    others_keep = λ k n. ground (arith, t.others_keep k n);
  }

  Takes-here :
      (task i : ℕ) (s : Slot C) (ss : List (Slot C))
      → Numbered i (s ∷ ss)
      → is_free s.state ≡ true
      → Takes task i s.id (s ∷ ss) (record s { state = busy; task_id = some task } ∷ ss)
  unfolding release_slot count_free count_taken
  Takes-here task i s ss h f = record {
    numbered = ground arith;
    later = ground arith;
    one_free_less = ground arith;
    one_taken_more = ground arith;
    free_again = ground arith;
    taken_again = ground arith;
    was_free = (s.task_id, ground arith);
    is_busy = ground arith;
    others_keep = λ k n. ground arith;
  }

blocked-ne-guard : (j : ℕ) → blocked ≢ guard j
blocked-ne-guard j e = ground arith

no_slot-ne-guard : (j : ℕ) → no_slot ≢ guard j
no_slot-ne-guard j e = ground arith

guard-inj : (i j : ℕ) → guard i ≡ guard j → i ≡ j
guard-inj i j e = ground arith

module _ {C R : Type 0} (can_satisfy : C → R → Bool) where
  take_slot-later :
      (task i : ℕ) (s : Slot C) (ss : List (Slot C)) (o : Option (ℕ × List (Slot C)))
      → s.id ≡ i
      → TakesSome task (i + 1) ss o
      → TakesSome task i (s ∷ ss) (or_keep can_satisfy s o)
  take_slot-later task i s ss none e t = tt
  take_slot-later task i s ss (some (j, ts)) e t = Takes-next task i j s ss ts e t

  decide_take :
      (request : R) (task i : ℕ) (s : Slot C) (ss : List (Slot C)) (fits : Bool)
      → Numbered i (s ∷ ss)
      → (is_free s.state && can_satisfy s.capacity request) ≡ fits
      → TakesSome task (i + 1) ss (take_slot can_satisfy request task ss)
      → TakesSome task i (s ∷ ss) (
          if fits
          then some (s.id, record s { state = busy; task_id = some task } ∷ ss)
          else or_keep can_satisfy s (take_slot can_satisfy request task ss))
  decide_take request task i s ss true h e t = Takes-here task i s ss h (ground arith)
  decide_take request task i s ss false h e t = take_slot-later task i s ss _ h.0 t

  pub take_slot-TakesSome :
      (request : R) (task i : ℕ) (ss : List (Slot C))
      → Numbered i ss
      → TakesSome task i ss (take_slot can_satisfy request task ss)
  unfolding take_slot
  take_slot-TakesSome request task i [] h = tt
  take_slot-TakesSome request task i (s ∷ ss) h =
      decide_take request task i s ss (is_free s.state && can_satisfy s.capacity request) h refl
        (take_slot-TakesSome request task (i + 1) ss h.1)

  granted_search :
      (task j : ℕ) (p p' : SlotPool C) (o : Option (ℕ × List (Slot C))) (no_permit : Bool)
      → TakesSome task 0 p.slots o
      → (if no_permit then (blocked, p) else after_search can_satisfy p o) ≡ (guard j, p')
      → Takes task 0 j p.slots p'.slots × (p'.permits ≡ p.permits)
  granted_search task j p p' o true t e = absurd (blocked-ne-guard j (ap (λ x. x.0) e))
  granted_search task j p p' none false t e = absurd (no_slot-ne-guard j (ap (λ x. x.0) e))
  granted_search task j p p' (some (i, ss)) false t e =
      let same_slot = guard-inj i j (ap (λ x. x.0) e) in
      let same_pool = ap (λ x. x.1) e in
      (
        subst (λ q. Takes task 0 j p.slots q.slots) same_pool
            (subst (λ k. Takes task 0 k p.slots ss) same_slot t),
        sym (ap (λ q. q.permits) same_pool),
      )

  pub acquire-Takes :
      (request : R) (task j : ℕ) (p p' : SlotPool C)
      → Numbered 0 p.slots
      → acquire can_satisfy request task p ≡ (guard j, p')
      → Takes task 0 j p.slots p'.slots × (p'.permits ≡ p.permits)
  unfolding acquire
  acquire-Takes request task j p p' h e =
      granted_search task j p p' (take_slot can_satisfy request task p.slots) (p.permits == 0)
        (take_slot-TakesSome request task 0 p.slots h) e
