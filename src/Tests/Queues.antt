-- ===== src/Tests/Queues.antt =====
-- Tests of server/pkg/idgenerator and server/pkg/workqueue.
use moblog_cloud.Prelude.{
  ℕ, suc, zero, codes, [], ◌∷◌, List, none, ◌≡◌, refl, inl, inr, arith, length,
}
use moblog_cloud.Prelude.GoMap
use moblog_cloud.IdGenerator.{StringIdGenerator, next, format_uint, digits}
use moblog_cloud.WorkQueue.{JobEntry}
use moblog_cloud.WorkQueue.Memory.{MemoryQueue, new_memory_queue, new_entry, send, receive}
use moblog_cloud.WorkQueue.Memory.System.{
  System, idle, sending, posted, finished, moved, Step, posts, refuses, receives,
}
use moblog_cloud.WorkQueue.Memory.System.Conservation.{places}
use moblog_cloud.WorkQueue.Memory.System.Reachable.{
  start, Reach, here, next_step, Occurs, posted-places,
}
use moblog_cloud.WorkQueue.Memory.System.Blocking.{
  IsBlocked, none_yet, and_then, IsBlocked-for_ever,
}

abbrev counter : StringIdGenerator
counter = record { last_id = 41 }

abbrev one_job : MemoryQueue ℕ
one_job = record {
  id_generator = record { last_id = 1 };
  pending = record { id = codes "1"; ttr = 60; job = 7 } ∷ [];
  metadata = GoMap.empty;
}

abbrev after_post : System ℕ
after_post = record { queue = one_job; received = []; groomer = idle }

one_posted : Step start (posted (codes "1")) after_post
unfolding start new_memory_queue new_entry next format_uint digits send
one_posted = posts 7 60 one_job (omega arith) refl

abbrev received_job : System ℕ
received_job = record {
  queue = record one_job { pending = [] };
  received = record { id = codes "1"; ttr = 60; job = 7 } ∷ [];
  groomer = idle;
}

one_received : Step after_post moved received_job
unfolding receive
one_received =
    receives (record { id = codes "1"; ttr = 60; job = 7 }) (record one_job { pending = [] }) refl

one_history : Reach (moved ∷ posted (codes "1") ∷ []) received_job
one_history = next_step (next_step here one_posted) one_received

not_finished : ¬ Occurs (finished (codes "1")) (moved ∷ posted (codes "1") ∷ [])
not_finished (inl h) = cc
not_finished (inr (inl h)) = cc
not_finished (inr (inr h)) = h

posted-places_example : places (codes "1") received_job ≡ 1
posted-places_example = posted-places (codes "1") one_history (inr (inl refl)) not_finished

jobs : ℕ → List (JobEntry ℕ)
jobs zero = []
jobs (suc n) = record { id = codes "7"; ttr = 60; job = 7 } ∷ jobs n

length-jobs : (n : ℕ) → length (jobs n) ≡ n
unfolding jobs
length-jobs zero = refl
length-jobs (suc n) = omega (arith, length-jobs n)

abbrev full_queue : MemoryQueue ℕ
full_queue = record {
  id_generator = record { last_id = 1001 };
  pending = jobs 1000;
  metadata = GoMap.empty;
}

abbrev late_entry : JobEntry ℕ
late_entry = record { id = codes "3"; ttr = 60; job = 7 }

abbrev blocked : System ℕ
blocked = record { queue = full_queue; received = []; groomer = sending late_entry [] 100 }

abbrev refused : System ℕ
refused = record blocked { queue = (new_entry 7 60 full_queue).1 }

no_room : send (new_entry 7 60 full_queue).0 (new_entry 7 60 full_queue).1 ≡ none
unfolding new_entry send
no_room = ground (arith, length-jobs 1000)

blocked-IsBlocked : IsBlocked blocked
blocked-IsBlocked = (late_entry, [], 100, refl, omega (arith, length-jobs 1000))

IsBlocked-for_ever_example : IsBlocked refused × ¬ Occurs (finished (codes "1")) (moved ∷ [])
IsBlocked-for_ever_example =
    IsBlocked-for_ever {s = blocked} (codes "1") blocked-IsBlocked
      (and_then none_yet (refuses 7 60 (omega arith) no_room) (λ quiet. quiet))
