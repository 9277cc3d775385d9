-- ===== src/WorkQueue/Memory/System.antt =====
-- server/pkg/workqueue/memoryworkqueue.go under concurrency: the queue, the goroutines that have
-- received an entry and not reserved it yet, and the grooming goroutine. The mutex is held exactly
-- while the groomer is not idle; every other critical section is one step.
pub mod Conservation
pub mod Reachable
pub mod Blocking
use moblog_cloud.Prelude.{
  ℕ, ◌+◌, ◌^◌, ◌<◌, GoString, Option, none, some, List, [], ◌∷◌, ◌++◌, if◌then◌else◌, ◌≡◌,
}
use moblog_cloud.Prelude.GoMap
use moblog_cloud.WorkQueue.{JobEntry}
use moblog_cloud.WorkQueue.Memory.{
  MemoryQueue, MemoryEntryMetadata, send, receive, new_entry, reserve_entry, finish, took_too_long,
  post,
}

-- `groom` on its way through the map: the identifiers that the range has still to visit, and the
-- time that it read; `sending` has taken an entry out of the map and waits for the channel.
pub data Groomer (J : Type 0) : Type 0 where
  idle : Groomer J
  sweeping : List GoString → ℕ → Groomer J
  sending : JobEntry J → List GoString → ℕ → Groomer J

pub record System (J : Type 0) : Type 0 where
  pub queue : MemoryQueue J
  pub received : List (JobEntry J)
  pub groomer : Groomer J

-- What a step does to the jobs: nothing, a job is posted, or a job is finished.
pub data Event : Type 0 where
  moved : Event
  posted finished : GoString → Event

module _ {J : Type 0} where
  abbrev pub visit : Option (MemoryEntryMetadata J) → List GoString → ℕ → System J → System J
  visit none ids now s = record s { groomer = sweeping ids now }
  visit (some m) ids now s =
      if took_too_long now m
      then (record s {
        queue = record s.queue { metadata = GoMap.delete s.queue.metadata m.entry.id };
        groomer = sending m.entry ids now;
      })
      else (record s { groomer = sweeping ids now })

  -- One step of `groom`; `none` where it has ended or waits for the channel.
  unfoldable pub groom_step : Groomer J → System J → Option (System J)
  unfolding send
  groom_step idle s = none
  groom_step (sweeping [] now) s = some (record s { groomer = idle })
  groom_step (sweeping (id ∷ ids) now) s = some (visit (GoMap.get s.queue.metadata id) ids now s)
  groom_step (sending entry ids now) s = elim (send entry s.queue) [
    | none ↦ none
    | some sent ↦ some (record s { queue = sent; groomer = sweeping ids now })
  ]

  -- One step of some goroutine. The identifiers' counter has not wrapped around.
  pub data Step (s : System J) : Event → System J → Type 0 where
    posts :
        (job : J) (ttr : ℕ) (sent : MemoryQueue J)
        → s.queue.id_generator.last_id + 1 < 2 ^ 64
        → send (new_entry job ttr s.queue).0 (new_entry job ttr s.queue).1 ≡ some sent
        → Step s (posted (new_entry job ttr s.queue).0.id) (record s { queue = sent })
    refuses :
        (job : J) (ttr : ℕ)
        → s.queue.id_generator.last_id + 1 < 2 ^ 64
        → send (new_entry job ttr s.queue).0 (new_entry job ttr s.queue).1 ≡ none
        → Step s moved (record s { queue = (new_entry job ttr s.queue).1 })
    receives :
        (entry : JobEntry J) (rest : MemoryQueue J)
        → receive s.queue ≡ some (entry, rest)
        → Step s moved (record s { queue = rest; received = entry ∷ s.received })
    reserves :
        (before after : List (JobEntry J)) (entry : JobEntry J) (now : ℕ)
        → s.groomer ≡ idle
        → s.received ≡ before ++ entry ∷ after
        → Step s moved
            (record s { queue = reserve_entry entry now s.queue; received = before ++ after })
    finishes :
        (entry : JobEntry J)
        → s.groomer ≡ idle
        → Step s (finished entry.id) (record s { queue = (finish entry s.queue).1 })
    grooms :
        (ids : List GoString) (now : ℕ)
        → s.groomer ≡ idle
        → Step s moved (record s { groomer = sweeping ids now })
    sweeps : (t : System J) → groom_step s.groomer s ≡ some t → Step s moved t
