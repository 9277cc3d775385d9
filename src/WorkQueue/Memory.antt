-- ===== src/WorkQueue/Memory.antt =====
-- server/pkg/workqueue/memoryworkqueue.go. The channel `pendingChan` is its buffer, oldest first. A
-- method is cut where another goroutine can come between: `pick` receives from the channel and then
-- takes the mutex, and `groom` holds the mutex while it sends.
pub mod System
use moblog_cloud.Prelude.{
  ℕ, ◌+◌, ◌≤◌, GoString, Bool, Option, none, some, List, [], ◌∷◌, ◌++◌, Result, ok, err, queue_full,
  ltb, length, if◌then◌else◌,
}
use moblog_cloud.Prelude.GoMap
use moblog_cloud.Prelude.GoMap.{GoMap}
use moblog_cloud.IdGenerator.{StringIdGenerator, next}
use moblog_cloud.WorkQueue.{JobEntry}

abbrev pub memory_max_pending_jobs : ℕ
memory_max_pending_jobs = 1000

pub record MemoryEntryMetadata (J : Type 0) : Type 0 where
  pub entry : JobEntry J
  pub started : ℕ

pub record MemoryQueue (J : Type 0) : Type 0 where
  pub id_generator : StringIdGenerator
  pub pending : List (JobEntry J)
  pub metadata : GoMap (MemoryEntryMetadata J)

module _ {J : Type 0} where
  unfoldable pub new_memory_queue : MemoryQueue J
  new_memory_queue = record {
    id_generator = record { last_id = 0 };
    pending = [];
    metadata = GoMap.empty;
  }

  -- A send on the buffered channel; `none` where it would block.
  unfoldable pub send : JobEntry J → MemoryQueue J → Option (MemoryQueue J)
  send entry q =
      if ltb (length q.pending) memory_max_pending_jobs
      then some (record q { pending = q.pending ++ entry ∷ [] })
      else none

  -- A receive from the channel; `none` where it would block.
  unfoldable pub receive : MemoryQueue J → Option (JobEntry J × MemoryQueue J)
  receive q = elim q.pending [
    | [] ↦ none
    | entry ∷ rest ↦ some (entry, record q { pending = rest })
  ]

  abbrev or_full : MemoryQueue J → Option (MemoryQueue J) → Result (Unit {0}) × MemoryQueue J
  or_full q none = (err queue_full, q)
  or_full q (some sent) = (ok tt, sent)

  -- The entry that `Post` makes, and the queue with its identifier taken.
  unfoldable pub new_entry : J → ℕ → MemoryQueue J → JobEntry J × MemoryQueue J
  new_entry job ttr q =
      let (id, generator) = next q.id_generator in
      (record { id = id; ttr = ttr; job = job }, record q { id_generator = generator })

  unfoldable pub post : J → ℕ → MemoryQueue J → Result (Unit {0}) × MemoryQueue J
  unfolding new_entry send
  post job ttr q = let (entry, taken) = new_entry job ttr q in or_full taken (send entry taken)

  unfoldable pub reserve_entry : JobEntry J → ℕ → MemoryQueue J → MemoryQueue J
  reserve_entry entry now q = record q {
    metadata = GoMap.put q.metadata entry.id (record { entry = entry; started = now });
  }

  -- `Pick` with no other goroutine between its steps: with an empty channel the timer fires.
  unfoldable pub pick : ℕ → MemoryQueue J → Result (Option (JobEntry J)) × MemoryQueue J
  unfolding receive reserve_entry
  pick now q = elim (receive q) [
    | none ↦ (ok none, q)
    | some (entry, rest) ↦ (ok (some entry), reserve_entry entry now rest)
  ]

  unfoldable pub finish : JobEntry J → MemoryQueue J → Result (Unit {0}) × MemoryQueue J
  finish entry q = (ok tt, record q { metadata = GoMap.delete q.metadata entry.id })

  -- `now.After(m.started.Add(m.entry.TTR))`
  abbrev pub took_too_long : ℕ → MemoryEntryMetadata J → Bool
  took_too_long now m = ltb (m.started + m.entry.ttr) now
