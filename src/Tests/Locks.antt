-- ===== src/Tests/Locks.antt =====
-- Tests of server/pkg/distlock: two processes, of which the first takes the lock.
use moblog_cloud.Prelude.{
  codes, ◌==◌, eq_iff, false≢true, [], ◌∷◌, none, some, false, ◌≡◌, ◌≢◌, ◌⊎◌, refl, arith, message,
  ok, ◌>>=◌,
}
use moblog_cloud.Connection.{answered, lost, over}
use moblog_cloud.DistLock.{LockKey, Lock, is_master, tick, stop, acquire_script}
use moblog_cloud.DistLock.Making.{new}
use moblog_cloud.WorkQueue.Redis.{RedisQueue, RedisLists, entry, groom, groom_script}
use moblog_cloud.WorkQueue.Redis.Grooming.{Setup, new_redis_queue, made_just_now, groom_excludes}
use moblog_cloud.DistLock.Exclusion.{nothing_yet, stops, tick_excludes, tick_channel}

abbrev first : Lock
first = record { id = codes "a"; expiration_delay = 25000; master = 0; master_channel = some [] }

abbrev second : Lock
second = record { id = codes "b"; expiration_delay = 25000; master = 0; master_channel = some [] }

abbrev stopped : LockKey
stopped = (stop (lost (message [])) 20 second (tick answered 10 first none).1).1

second-ne-first : second.id ≢ first.id
unfolding ◌==◌
second-ne-first e = false≢true ((eq_iff second.id first.id).1 e)

tick_excludes_example : is_master (tick answered 5000 second stopped).0 ≡ false
unfolding tick acquire_script is_master
tick_excludes_example =
    tick_excludes 10 first none 20 stopped 5000 second refl
      (stops (lost (message [])) 20 second nothing_yet (omega arith) second-ne-first) (omega arith)
      (omega arith) second-ne-first

tick_channel_example :
    let l' = (tick answered 10 first none).0 in
    ((l'.master ≡ 0) × (l'.master_channel ≡ some []))
    ⊎ ((answered ≡ answered)
        × (l'.master ≢ 0)
        × (((first.master_channel ≡ some []) × (l'.master_channel ≡ some (is_master l' ∷ [])))
            ⊎ ((first.master_channel ≢ some []) × (l'.master_channel ≡ some []))))
tick_channel_example = tick_channel 10 first none answered

-- A host and a server that answer, and the queue that is made there.
abbrev setup : Setup
setup = record {
  parsed_url = ok tt;
  hostname = ok (codes "h");
  finish_script_sha = ok [];
  groom_script_sha = ok [];
  lock_host = record {
    hostname = ok (codes "h");
    acquire_script_sha = ok [];
    release_script_sha = ok [];
    uuid = codes "1";
  };
  uuid = codes "2";
}

abbrev grooming : Lock
grooming = record {
  id = codes "h-1";
  expiration_delay = 25000;
  master = 0;
  master_channel = some [];
}

abbrev queue : RedisQueue
queue = record { id = codes "h-2"; id_generator = record { last_id = 0 } }

makes_queue : new_redis_queue setup ≡ ok (queue, grooming)
unfolding new_redis_queue new ◌>>=◌ ◌==◌
makes_queue = refl

second-ne-grooming : second.id ≢ grooming.id
unfolding ◌==◌
second-ne-grooming e = false≢true ((eq_iff second.id grooming.id).1 e)

abbrev overdue : RedisLists
overdue = record {
  pending = [];
  reserved = entry (record { id = codes "1"; ttr_us = 5; gob_data = []; started = some 10 }) ∷ [];
}

groom_excludes_example :
    (groom (λ n. n) (is_master grooming) answered 100 overdue ≡ overdue)
    × (groom (λ n. n) (is_master (tick answered 10 grooming none).0) answered 100 overdue
        ≡ (over answered (groom_script (λ n. n) 100 overdue) overdue).1)
    × (groom
          (λ n. n)
          (is_master (tick answered 5000 second (tick answered 10 grooming none).1).0)
          answered
          100
          overdue
        ≡ overdue)
unfolding tick acquire_script is_master
groom_excludes_example =
    groom_excludes (λ n. n) setup queue grooming grooming 10 none 10
      (tick answered 10 grooming none).1 5000 second answered 100 overdue makes_queue made_just_now
      refl nothing_yet (omega arith) (omega arith) second-ne-grooming
