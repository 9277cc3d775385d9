-- ===== src/Tests/RedisQueues.antt =====
-- Tests of server/pkg/workqueue/redis.go.
use moblog_cloud.Prelude.{
  ℕ, GoString, codes, [], ◌∷◌, none, Result, ok, err, message, ◌≡◌, refl, inl, inr, arith,
}
use moblog_cloud.IdGenerator.{next, format_uint, digits}
use moblog_cloud.WorkQueue.Redis.{
  RedisEntry, entry, RedisLists, RedisQueue, GobCodec, answered, encode_redis_entry, post, pick,
  move_right, pop_right,
}
use moblog_cloud.WorkQueue.Redis.Scripts.{count}
use moblog_cloud.WorkQueue.Redis.Counting.{places, Inv}
use moblog_cloud.WorkQueue.Redis.Places.{moved, cleared, posted, finished, Step, posts, picks}
use moblog_cloud.WorkQueue.Redis.History.{Occurs, Reach, here, next_step, posted-places_redis}

abbrev gob : GobCodec ℕ
gob = record { encode = λ n. ok (n ∷ []); decode = decode }
  where
    decode : GoString → Result ℕ
    decode (n ∷ []) = ok n
    decode _ = err (message (codes "EOF"))

abbrev kept : ℕ → ℕ
kept n = n

abbrev process : RedisQueue
process = record { id = codes "host"; id_generator = record { last_id = 0 } }

abbrev job_entry : RedisEntry
job_entry = record { id = codes "host-1"; ttr_us = 60; gob_data = 7 ∷ []; started = none }

abbrev no_jobs : RedisLists
no_jobs = record { pending = []; reserved = [] }

abbrev one_pending : RedisLists
one_pending = record { pending = entry job_entry ∷ []; reserved = [] }

abbrev one_reserved : RedisLists
one_reserved = record { pending = []; reserved = entry job_entry ∷ [] }

one_posted : Step gob kept no_jobs (posted (codes "host-1")) one_pending
unfolding post encode_redis_entry next format_uint digits count
one_posted = posts 7 60000 answered process refl refl

one_picked : Step gob kept one_pending moved one_reserved
unfolding pick move_right pop_right
one_picked = picks answered

one_history : Reach gob kept (moved ∷ posted (codes "host-1") ∷ []) one_reserved
one_history = next_step (next_step here one_posted) one_picked

not_finished : ¬ Occurs (finished (codes "host-1")) (moved ∷ posted (codes "host-1") ∷ [])
not_finished (inl h) = cc
not_finished (inr (inl h)) = cc
not_finished (inr (inr h)) = h

not_cleared : ¬ Occurs cleared (moved ∷ posted (codes "host-1") ∷ [])
not_cleared (inl h) = cc
not_cleared (inr (inl h)) = cc
not_cleared (inr (inr h)) = h

posted-places_redis_example : places (codes "host-1") one_reserved ≡ 1
posted-places_redis_example =
    posted-places_redis gob kept (codes "host-1") one_history (inr (inl refl)) not_finished
      not_cleared

no_jobs-Inv : Inv no_jobs
unfolding count
no_jobs-Inv = record { pending_entries = tt; reserved_entries = tt; once = λ id. omega arith }
