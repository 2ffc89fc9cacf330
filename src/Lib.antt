-- ===== src/Lib.antt =====
-- Roboflow converts robot recordings into training datasets on many workers that share a TiKV
-- store. This library models the coordination of that work, the slots that tasks run in, the
-- alignment of messages into frames with the buffer in front of the encoders, and the storage layer
-- that objects are read and written through.
--
-- A batch of recordings has a specification and a status in the store, and is cut into work units.
-- The controller reconciles the status with the units; workers claim units from a queue of pending
-- keys, complete or fail them; a reaper takes units back from workers whose heartbeats stopped.
-- When its units are done, the finalizer has the batch merged and completes it. Locks with fencing
-- tokens guard what only one process may do, and a counter in the store hands out episode indices;
-- checkpoints record how far a worker is. All of them reach TiKV through one client with a circuit
-- breaker. A worker reads recordings in chunks through a cache on its disk, gathers their messages
-- into frames by time stamp, and uploads what it encodes in parts.
--
-- The files, with the source they model:
-- - Lifecycle: the interface of the state enums, crates/roboflow-distributed/src/state/mod.rs.
-- - Tikv/Error, Tikv/Circuit, Tikv/Key: tikv/error.rs, tikv/circuit.rs, tikv/key.rs and
--   batch/key.rs of crates/roboflow-distributed/src. `CircuitInner` is the shared atomics, and
--   every method returns the new one; `call` takes the awaited operation as a function of the
--   breaker.
-- - Tikv/Store: what the code relies on of TiKV, an ordered map. Tikv/World: the client's state
--   and the monad of its operations. Tikv/Client and Tikv/Cas: get, put, delete, scan,
--   transactional_claim and cas of tikv/client.rs. Tikv/Lock: LockRecord of tikv/schema.rs, the
--   lock operations of tikv/client.rs, and the manager of tikv/locks.rs. Tikv/Heartbeat:
--   HeartbeatRecord of tikv/schema.rs. Tikv/Checkpoint: CheckpointState and the upload states of
--   tikv/schema.rs, and tikv/checkpoint.rs.
-- - Batch/WorkUnit, Batch/Status, Batch/Spec: the files of batch/ with these names.
--   Batch/Controller is the reconciliation of batch/controller.rs, and Batch/Operations what it
--   does to the store: `claim_work_unit`, `complete_work_unit`, `fail_work_unit`, `cancel_batch`,
--   `reconcile_batch`.
-- - Reaper: reaper.rs. Episode: episode/allocator.rs; Episode/Steps has the workers at the same time.
-- - Merge/State, Merge/Semaphore, Merge/Coordinator: merge/schema.rs and merge/coordinator.rs;
--   Merge/Finalizer: finalizer/mod.rs. The semaphore is passed along beside the client's state.
-- - Frames: crates/roboflow-dataset/src/formats/common/ring_buffer.rs.
-- - Alignment: config.rs, completion.rs, stats.rs and buffer.rs of
--   crates/roboflow-dataset/src/formats/alignment. Alignment/Buffer has the state and the search for
--   the frame of a message, Alignment/Emission how frames leave. Alignment/Reference
--   says what leaves without the indices of the source.
-- - Storage/Retry: crates/roboflow-core/src/retry.rs. Storage/Error, Storage/Url,
--   Storage/Streaming, Storage/Multipart: error.rs, url.rs, streaming.rs and multipart.rs of
--   crates/roboflow-storage/src. Storage/Cache: cached/storage.rs, cached/upload.rs and
--   cached/eviction.rs there, with the disk and the remote side as maps from names to contents.
-- - Slots: the pool of task slots of crates/roboflow-executor/src/resource.rs.
-- - Prelude, Bytes and Codec are shared: library names, byte strings, and the serializers as a
--   parameter whose one law is that a written value reads back. Samples and Codec/Table serve the
--   tests, which stand in the modules named Tests and Examples.
--
-- The texts of errors that libraries make up stand as fixed words. Every call of the TiKV library
-- ends as a list of faults says, so that errors are values; a transaction takes effect at its
-- commit or not at all, and operations that run at the same time are sequences of such steps.
-- Clocks are arguments. Integers of the source are natural numbers with the wrap-around written
-- out.
--
-- Bounds and fuel: a retry loop counts the attempts left, from the client's `max_retries` or the
-- allocator's ten, so it ends as the source's loop does. Rounding a capacity up to a power of two
-- doubles at most 63 times, which is enough for every capacity that a 64-bit usize can round up.
-- The eviction of the cache has one round more than entries, and each round takes an entry out.
-- Heartbeats are scanned up to 1000, units of a batch up to 10000, as in the source.
--
-- Not modelled: waits, logging and metrics; connecting to TiKV; the background renewal of locks;
-- the endless loops of controller and reaper, whose bodies are modelled; submitting and listing
-- batches; the scanner and the worker; the merge of parquet files and the finalizer's metadata;
-- the rest of the executor; how an image or numbers are extracted from a message; the dataset
-- writers, media and the storage back ends, most of which are input and output through libraries.
-- Measures in floating point, such as rates, speeds and the durations of a backoff, are left out
-- everywhere.
pub mod Prelude
pub mod Bytes
pub mod Codec
pub mod Lifecycle
pub mod Slots
pub mod Tikv
pub mod Batch
pub mod Episode
pub mod Frames
pub mod Reaper
pub mod Samples
pub mod Alignment
pub mod Storage
pub mod Merge
