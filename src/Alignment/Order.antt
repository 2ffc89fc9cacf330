-- ===== src/Alignment/Order.antt =====
-- The frames of the buffer of crates/roboflow-dataset/src/formats/alignment/buffer.rs: they stay
-- sorted by timestamp, and a message goes to the one frame that has its time.
use roboflow.Alignment.Buffer.{
  PartialFrame, Position, found, insert_at, missing, modify_at, one_on, search_timestamp,
}
use roboflow.Alignment.Criteria.{FrameCompletionCriteria}
use roboflow.Alignment.Emission.{ready, staying}
use roboflow.Prelude.{
  Bool, Bool-cases, List, [], arith, false, if◌then◌else◌, inl, inr, ltb, refl, ℕ, ◌<◌, ◌==◌, ◌||◌,
  ◌∷◌, ◌≡◌,
}

module _ {V : Type 0} where
  -- Every frame is later than `t`.
  abbrev pub AllAbove : ℕ → List (PartialFrame V) → Type 0
  AllAbove t [] = Unit {0}
  AllAbove t (p ∷ ps) = (t < p.timestamp) × AllAbove t ps

  abbrev pub Sorted : List (PartialFrame V) → Type 0
  Sorted [] = Unit {0}
  Sorted (p ∷ ps) = AllAbove p.timestamp ps × Sorted ps

  abbrev pub has_time : ℕ → List (PartialFrame V) → Bool
  has_time t [] = false
  has_time t (p ∷ ps) = (p.timestamp == t) || has_time t ps

  -- Changes the frame that has the time, or puts the changed new one in its place.
  abbrev pub touch :
      ℕ
      → PartialFrame V
      → (PartialFrame V → PartialFrame V)
      → List (PartialFrame V)
      → List (PartialFrame V)
  touch t fresh f [] = f fresh ∷ []
  touch t fresh f (p ∷ ps) =
      let rest = touch t fresh f ps in
      if p.timestamp == t
      then f p ∷ ps
      else if ltb t p.timestamp
      then f fresh ∷ p ∷ ps
      else p ∷ rest

  abbrev pub place :
      PartialFrame V
      → (PartialFrame V → PartialFrame V)
      → List (PartialFrame V)
      → Position
      → List (PartialFrame V)
  place fresh f ps (found i) = modify_at i f ps
  place fresh f ps (missing i) = modify_at i f (insert_at i fresh ps)

  place-one_on :
      (fresh p : PartialFrame V) (f : PartialFrame V → PartialFrame V) (ps : List (PartialFrame V))
      (o : Position)
      → place fresh f (p ∷ ps) (one_on o) ≡ p ∷ place fresh f ps o
  unfolding modify_at insert_at
  place-one_on fresh p f ps (found i) = refl
  place-one_on fresh p f ps (missing i) = refl

  pub place-search_timestamp :
      (t : ℕ) (fresh : PartialFrame V) (f : PartialFrame V → PartialFrame V)
      (ps : List (PartialFrame V))
      → place fresh f ps (search_timestamp t ps) ≡ touch t fresh f ps
  unfolding search_timestamp modify_at insert_at
  place-search_timestamp t fresh f [] = refl
  place-search_timestamp t fresh f (p ∷ ps) = ground (
    arith,
    place-search_timestamp t fresh f ps,
    place-one_on fresh p f ps (search_timestamp t ps),
  )

  AllAbove-trans : (s t : ℕ) (ps : List (PartialFrame V)) → s < t → AllAbove t ps → AllAbove s ps
  AllAbove-trans s t [] lt a = tt
  AllAbove-trans s t (p ∷ ps) lt a = (omega arith, AllAbove-trans s t ps lt a.1)

  -- A property of single frames, of every frame.
  abbrev pub All : (PartialFrame V → Type 0) → List (PartialFrame V) → Type 0
  All P [] = Unit {0}
  All P (p ∷ ps) = P p × All P ps

  pub touch-All :
      (P : PartialFrame V → Type 0) (t : ℕ) (fresh : PartialFrame V)
      (f : PartialFrame V → PartialFrame V) (ps : List (PartialFrame V))
      → P (f fresh)
      → ((p : PartialFrame V) → P p → P (f p))
      → All P ps
      → All P (touch t fresh f ps)
  touch-All P t fresh f [] n h a = (n, tt)
  touch-All P t fresh f (p ∷ ps) n h a =
      let rest = touch-All P t fresh f ps n h a.1 in
      elim (Bool-cases (p.timestamp == t)) [
        | inl e ↦ rw e (h p a.0, a.1)
        | inr e ↦ elim (Bool-cases (ltb t p.timestamp)) [
          | inl l ↦ rw (e, l) (n, a)
          | inr l ↦ rw (e, l) (a.0, rest)
        ]
      ]

  pub staying-All :
      (P : PartialFrame V → Type 0) (c : FrameCompletionCriteria) (now : ℕ)
      (ps : List (PartialFrame V))
      → All P ps
      → All P (staying c now ps)
  staying-All P c now [] a = tt
  staying-All P c now (p ∷ ps) a =
      let rest = staying-All P c now ps a.1 in
      elim (Bool-cases (ready c now p)) [ inl e ↦ rw e rest | inr e ↦ rw e (a.0, rest) ]

  AllAbove-staying :
      (s : ℕ) (c : FrameCompletionCriteria) (now : ℕ) (ps : List (PartialFrame V))
      → AllAbove s ps
      → AllAbove s (staying c now ps)
  AllAbove-staying s c now [] a = tt
  AllAbove-staying s c now (p ∷ ps) a =
      let rest = AllAbove-staying s c now ps a.1 in
      elim (Bool-cases (ready c now p)) [ inl e ↦ rw e rest | inr e ↦ rw e (a.0, rest) ]

  pub staying-Sorted :
      (c : FrameCompletionCriteria) (now : ℕ) (ps : List (PartialFrame V))
      → Sorted ps
      → Sorted (staying c now ps)
  staying-Sorted c now [] a = tt
  staying-Sorted c now (p ∷ ps) a =
      let rest = staying-Sorted c now ps a.1 in
      elim (Bool-cases (ready c now p)) [
        | inl e ↦ rw e rest
        | inr e ↦ rw e (AllAbove-staying p.timestamp c now ps a.0, rest)
      ]

  module _ (t : ℕ) (fresh : PartialFrame V) (f : PartialFrame V → PartialFrame V)
      (new_time : fresh.timestamp ≡ t)
      (keeps_time : (p : PartialFrame V) → (f p).timestamp ≡ p.timestamp) where
    AllAbove-touch :
        (s : ℕ) (ps : List (PartialFrame V))
        → s < t
        → AllAbove s ps
        → AllAbove s (touch t fresh f ps)
    AllAbove-touch s [] lt a = (omega (arith, keeps_time fresh), tt)
    AllAbove-touch s (p ∷ ps) lt a =
        ground (arith, AllAbove-touch s ps lt a.1, keeps_time p, keeps_time fresh)

    pub touch-Sorted : (ps : List (PartialFrame V)) → Sorted ps → Sorted (touch t fresh f ps)
    touch-Sorted [] a = (tt, tt)
    touch-Sorted (p ∷ ps) a = ground (
      arith,
      touch-Sorted ps a.1,
      AllAbove-touch p.timestamp ps,
      keeps_time p,
      keeps_time fresh,
      AllAbove-trans t p.timestamp ps,
    )
