-- ===== src/Storage/Multipart/Content.antt =====
-- What an upload in parts stores: crates/roboflow-storage/src/multipart.rs.
use native.Mathlib.Decide.{dec_lt}
use native.Mathlib.Nat.{div-mul-le_self, lt-div-mul-add, mul-le-mul_right, suc-mul}
use roboflow.Bytes.{Bytes}
use roboflow.Lifecycle.{attempts}
use roboflow.Prelude.{
  Bool, Bool-cases, Option, ap, append-nil, append_assoc, arith, false, if◌then◌else◌, inl, inr,
  length, ltb, min, none, refl, some, subst, suc, sym, true, zero, ℕ, ◌*◌, ◌++◌, ◌+◌, ◌-◌, ◌/◌, ◌<◌,
  ◌==◌, ◌∙◌, ◌≡◌, ◌≤◌, ◌⊎◌,
}
use roboflow.Storage.Error.{Returned, StorageError, failure, success}
use roboflow.Storage.Multipart.{
  MultipartConfig, MultipartStats, PartEnd, complete_internal, give_up, given_up, part_at,
  part_count, put_with_retry, upload_from_reader, upload_parts, upload_small, uploaded,
}
use roboflow.Storage.Slices.{slice, slice-append, slice_none, slice_whole}

-- A part and what comes behind it.
part_then_rest :
    (off size : ℕ) (file : Bytes)
    → off ≤ length file
    → slice off (off + min size (length file - off)) file ++ slice (off + size) (length file) file
      ≡ slice off (length file) file
part_then_rest off size file le = elim (dec_lt (length file) (off + size)) [
  | yes last ↦
      let end : off + min size (length file - off) ≡ length file = omega arith in
      ap (λ e. slice off e file ++ slice (off + size) (length file) file) end
      ∙ ap (λ b. slice off (length file) file ++ b)
          (sym (slice_none (off + size) (length file) file (omega arith)))
      ∙ append-nil (slice off (length file) file)
  | no more ↦
      let end : off + min size (length file - off) ≡ off + size = omega arith in
      ap (λ e. slice off e file ++ slice (off + size) (length file) file) end
      ∙ slice-append off (off + size) (length file) file (omega arith) (omega arith)
]

PartEnd-cases :
    (end : PartEnd)
    → ((again : Bool) × (end ≡ uploaded again)) ⊎ ((e : StorageError) × (end ≡ given_up e))
PartEnd-cases (uploaded again) = inl (again, refl)
PartEnd-cases (given_up e) = inr (e, refl)

Returned-cases :
    {A : Type 0} (o : Returned StorageError A)
    → ((a : A) × (o ≡ success a)) ⊎ ((e : StorageError) × (o ≡ failure e))
Returned-cases (success a) = inl (a, refl)
Returned-cases (failure e) = inr (e, refl)

count_enough : (c : MultipartConfig) (n : ℕ) → 0 < c.part_size → n ≤ part_count c n * c.part_size
unfolding part_count
count_enough c n pos = elim (Bool-cases (n == 0)) [
  | inl empty ↦ rw (part_count, empty) (ground arith)
  | inr some_bytes ↦
      let div = lt-div-mul-add {a = n + c.part_size - 1} {b = c.part_size} pos in
      rw (part_count, some_bytes) (omega (arith, div))
]

count_inside : (c : MultipartConfig) (n i : ℕ) → i < part_count c n → i * c.part_size ≤ n
unfolding part_count
count_inside c n i lt = elim (Bool-cases (n == 0)) [
  | inl empty ↦ absurd (omega (arith, rw (part_count, empty) at lt))
  | inr some_bytes ↦
      let below : i < (n + c.part_size - 1) / c.part_size = rw (part_count, some_bytes) at lt in
      let more = mul-le-mul_right {m = suc i} c.part_size below in
      let div = div-mul-le_self (n + c.part_size - 1) c.part_size in
      omega (arith, more, div, suc-mul i c.part_size)
]

module _ {U : Type 0} (put_part : Bytes → U → Returned StorageError (Unit {0}) × U)
    (complete abort : U → Returned StorageError (Unit {0}) × U) (stored : U → Bytes) where
  -- The store keeps the parts that it accepts, in their order, and completes them to one object.
  pub record Keeps : Type 0 where
    pub put_success :
        (part : Bytes) (u : U) (done : Unit {0})
        → (put_part part u).0 ≡ success done
        → stored (put_part part u).1 ≡ stored u ++ part
    pub put_failure :
        (part : Bytes) (u : U) (e : StorageError)
        → (put_part part u).0 ≡ failure e
        → stored (put_part part u).1 ≡ stored u
    pub complete_success :
        (u : U) (done : Unit {0}) → (complete u).0 ≡ success done → stored (complete u).1 ≡ stored u

  -- What an attempt leaves behind, by how it ended.
  abbrev Left : Bytes → U → PartEnd → U → Type 0
  Left part u (uploaded retried) u' = stored u' ≡ stored u ++ part
  Left part u (given_up e) u' = stored u' ≡ stored u

  module _ (keeps : Keeps) where
    give_up-Left :
        (last_error : Option StorageError) (part : Bytes) (u : U)
        → Left part u (give_up last_error) u
    give_up-Left none part u = refl
    give_up-Left (some e) part u = refl

    Left-after_failure :
        (part : Bytes) (u u' : U) (end : PartEnd) (u'' : U)
        → stored u' ≡ stored u
        → Left part u' end u''
        → Left part u end u''
    Left-after_failure part u u' (uploaded r) u'' e l = l ∙ ap (λ b. b ++ part) e
    Left-after_failure part u u' (given_up f) u'' e l = l ∙ e

    put_with_retry-Left :
        (attempts : ℕ) (retried : Bool) (last_error : Option StorageError) (part : Bytes) (u : U)
        → let put = put_with_retry put_part complete abort attempts retried last_error part u in
          Left part u put.0 put.1
    unfolding put_with_retry
    put_with_retry-Left zero retried last_error part u = give_up-Left last_error part u
    put_with_retry-Left (suc attempts) retried last_error part u =
        elim (Returned-cases (put_part part u).0) [
          | inl (done, e) ↦ rw (put_with_retry, e) (keeps.put_success part u done e)
          | inr (e, q) ↦
              rw (put_with_retry, q)
                (Left-after_failure part u (put_part part u).1 _ _ (keeps.put_failure part u e q)
                  (put_with_retry-Left attempts true (some e) part (put_part part u).1))
        ]

    -- Where the loop over the parts gets through, it adds the rest of the file.
    upload_parts-rest :
        (c : MultipartConfig) (file : Bytes) (left index retried : ℕ) (u : U) (r : ℕ)
        → length file ≤ (index + left) * c.part_size
        → ((i : ℕ) → i < index + left → i * c.part_size ≤ length file)
        → (upload_parts put_part complete abort c file left index retried u).0 ≡ success r
        → stored (upload_parts put_part complete abort c file left index retried u).1
          ≡ stored u ++ slice (index * c.part_size) (length file) file
    unfolding upload_parts part_at
    upload_parts-rest c file zero index retried u r enough inside e =
        sym (append-nil (stored u))
        ∙ ap (λ b. stored u ++ b)
            (slice_none (index * c.part_size) (length file) file
              (subst (λ k. length file ≤ k * c.part_size) (omega arith) enough))
    upload_parts-rest c file (suc left) index retried u r enough inside e =
        let part = part_at put_part complete abort c file index in
        let put = put_with_retry put_part complete abort (suc c.max_retries) false none part u in
        let here = put_with_retry-Left (suc c.max_retries) false none part u in
        let off = index * c.part_size in
        let next : (index + 1) * c.part_size ≡ off + c.part_size =
          ap (λ k. k * c.part_size) (omega arith) ∙ suc-mul index c.part_size in
        elim (PartEnd-cases put.0) [
          | inr (f, q) ↦ absurd (cc (rw (upload_parts, q) at e))
          | inl (again, q) ↦
              let retried' = retried + (if again then 1 else 0) in
              let later =
                upload_parts-rest c file left (index + 1) retried' put.1 r
                  (subst (λ k. length file ≤ k * c.part_size) (omega arith) enough)
                  (λ i lt. inside i (omega arith)) (rw (upload_parts, q) at e) in
              let added : stored put.1 ≡ stored u ++ part =
                subst (λ end. Left part u end put.1) q here in
              rw (upload_parts, q)
                (later
                  ∙ ap (λ b. b ++ slice ((index + 1) * c.part_size) (length file) file) added
                  ∙ append_assoc (stored u) part
                      (slice ((index + 1) * c.part_size) (length file) file)
                  ∙ ap (λ k. stored u ++ (part ++ slice k (length file) file)) next
                  ∙ ap (λ b. stored u ++ b)
                      (part_then_rest off c.part_size file (inside index (omega arith))))
        ]

    complete-keeps :
        (bytes parts retried : ℕ) (u : U) (stats : MultipartStats)
        → (complete_internal put_part complete abort bytes parts retried u).0 ≡ success stats
        → stored (complete_internal put_part complete abort bytes parts retried u).1 ≡ stored u
    unfolding complete_internal
    complete-keeps bytes parts retried u stats e = elim (Returned-cases (complete u).0) [
      | inl (done, q) ↦ rw (complete_internal, q) (keeps.complete_success u done q)
      | inr (f, q) ↦ absurd (cc (rw (complete_internal, q) at e))
    ]

    small-keeps :
        (file : Bytes) (u : U) (stats : MultipartStats)
        → (upload_small put_part complete abort file u).0 ≡ success stats
        → stored (upload_small put_part complete abort file u).1 ≡ stored u ++ file
    unfolding upload_small
    small-keeps file u stats e = elim (Returned-cases (put_part file u).0) [
      | inl (done, q) ↦
          let after =
            complete-keeps (length file) 1 0 (put_part file u).1 stats
              (rw (upload_small, q) at e) in
          rw (upload_small, q) (after ∙ keeps.put_success file u done q)
      | inr (f, q) ↦ absurd (cc (rw (upload_small, q) at e))
    ]

    -- An upload that reports success has stored exactly the file behind what the upload held before,
    -- whether it went up whole or in parts, whatever parts had to be put again, if the store keeps
    -- the parts that it accepts in their order, and nothing of those that it refuses. (The parts
    -- are not empty.)
    pub upload_from_reader_stores :
        (c : MultipartConfig) (file : Bytes) (u : U) (stats : MultipartStats)
        → 0 < c.part_size
        → (upload_from_reader put_part complete abort c file u).0 ≡ success stats
        → stored (upload_from_reader put_part complete abort c file u).1 ≡ stored u ++ file
    unfolding upload_from_reader
    upload_from_reader_stores c file u stats pos e =
        let count = part_count c (length file) in
        elim (Bool-cases (ltb (length file) c.threshold)) [
          | inl small ↦
              rw (upload_from_reader, small)
                (small-keeps file u stats (rw (upload_from_reader, small) at e))
          | inr large ↦
              elim (Returned-cases (upload_parts put_part complete abort c file count 0 0 u).0) [
                | inr (f, q) ↦ absurd (cc (rw (upload_from_reader, large, q) at e))
                | inl (r, q) ↦
                    let through =
                      upload_parts-rest c file count 0 0 u r
                        (subst (λ k. length file ≤ k * c.part_size) (omega arith)
                          (count_enough c (length file) pos))
                        (λ i lt. count_inside c (length file) i (omega arith)) q in
                    let start : 0 * c.part_size ≡ 0 = omega arith in
                    let done =
                      complete-keeps (length file) count r
                        (upload_parts put_part complete abort c file count 0 0 u).1 stats
                        (rw (upload_from_reader, large, q) at e) in
                    rw (upload_from_reader, large, q)
                      (done
                        ∙ through
                        ∙ ap (λ k. stored u ++ slice k (length file) file) start
                        ∙ ap (λ b. stored u ++ b) (slice_whole file))
              ]
        ]
