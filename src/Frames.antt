-- ===== src/Frames.antt =====
-- The ring buffer between capture and encoding:
-- crates/roboflow-dataset/src/formats/common/ring_buffer.rs without the operations that wait. An
-- operation runs whole, as with one producer and one consumer. Slots beyond the capacity are not
-- used.
mod Tests
pub mod Capacity
pub mod Fifo
pub mod Window
use roboflow.Prelude.{
  Bool, Option, if◌then◌else◌, leb, none, not, some, suc, zero, ℕ, ◌%◌, ◌*◌, ◌+◌, ◌-◌, ◌==◌, ◌^◌,
}

pub data RingBufferError : Type 0 where
  full : RingBufferError
  ring_closed : RingBufferError

pub data Pushed (A : Type 0) : Type 0 where
  accepted : A → Pushed A
  rejected : RingBufferError → Pushed A

pub record FrameRingBuffer (A : Type 0) : Type 0 where
  pub buffer : ℕ → Option A
  pub capacity : ℕ
  pub mask : ℕ
  pub write_idx : ℕ
  pub read_idx : ℕ
  pub closed : ℕ

-- Doubles from 1 on; 63 times are enough for what fits in a usize.
unfoldable pub doubling : ℕ → ℕ → ℕ → ℕ
doubling zero p n = p
doubling (suc fuel) p n = let rest = doubling fuel (2 * p) n in if leb n p then p else rest

unfoldable pub next_power_of_two : ℕ → ℕ
unfolding doubling
next_power_of_two n = doubling 63 1 n

module _ {A : Type 0} where
  unfoldable pub empty_ring : ℕ → FrameRingBuffer A
  empty_ring wanted = record {
    buffer = λ i. none;
    capacity = next_power_of_two wanted;
    mask = next_power_of_two wanted - 1;
    write_idx = 0;
    read_idx = 0;
    closed = 0;
  }

  -- `write.wrapping_sub(read)`.
  unfoldable pub len : FrameRingBuffer A → ℕ
  len r = (r.write_idx + 2 ^ 64 - r.read_idx) % 2 ^ 64

  unfoldable pub is_empty : FrameRingBuffer A → Bool
  unfolding len
  is_empty r = len r == 0

  unfoldable pub is_full : FrameRingBuffer A → Bool
  unfolding len
  is_full r = len r == r.capacity

  unfoldable pub close : FrameRingBuffer A → FrameRingBuffer A
  close r = record r { closed = 1 }

  unfoldable pub is_closed : FrameRingBuffer A → Bool
  is_closed r = not (r.closed == 0)

  abbrev pub set_slot : ℕ → Option A → (ℕ → Option A) → ℕ → Option A
  set_slot i x slots j = if j == i then x else slots j

  -- `i & mask`, where the mask is one less than a power of two.
  unfoldable pub slot_of : FrameRingBuffer A → ℕ → ℕ
  slot_of r i = i % (r.mask + 1)

  unfoldable pub try_push : A → FrameRingBuffer A → Pushed (FrameRingBuffer A)
  unfolding len is_closed slot_of
  try_push frame r =
      if is_closed r
      then rejected ring_closed
      else if leb r.capacity (len r)
      then rejected full
      else accepted (record r {
        buffer = set_slot (slot_of r r.write_idx) (some frame) r.buffer;
        write_idx = (r.write_idx + 1) % 2 ^ 64;
      })

  unfoldable pub try_pop : FrameRingBuffer A → Option A × FrameRingBuffer A
  unfolding slot_of
  try_pop r = if r.read_idx == r.write_idx then (none, r) else (
    r.buffer (slot_of r r.read_idx),
    record r {
      buffer = set_slot (slot_of r r.read_idx) none r.buffer;
      read_idx = (r.read_idx + 1) % 2 ^ 64;
    },
  )

  -- `Clone`: new empty slots, and the indices and the flag that both share.
  unfoldable pub clone_ring : FrameRingBuffer A → FrameRingBuffer A
  clone_ring r = record r { buffer = λ i. none }
