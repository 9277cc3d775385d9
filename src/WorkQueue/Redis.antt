-- ===== src/WorkQueue/Redis.antt =====
-- server/pkg/workqueue/redis.go: the queue on a Redis server that several processes share. A command
-- or a script runs on the server at once and whole. The lists hold texts: the JSON of an entry, or
-- one of the words that the scripts leave for a moment. JSON is taken to keep an entry, but for the
-- numbers of the server's encoder, of which it keeps what the parameter `kept` says; the gob
-- encoding of a job is the parameter `gob`.
pub mod Scripts
pub mod Counting
pub mod Places
pub mod History
pub mod Grooming
use moblog_cloud.Prelude.{
  ℕ, ◌+◌, ◌*◌, ◌/◌, GoString, codes, ◌==◌, Bool, true, false, Option, none, some, List, [], ◌∷◌,
  ◌++◌, Error, message, Result, ok, err, panic, wrap_err, ltb, if◌then◌else◌,
}
pub use moblog_cloud.Connection.{Connection, answered, refused, lost, over}
use moblog_cloud.IdGenerator.{StringIdGenerator, next}
use moblog_cloud.WorkQueue.{JobEntry}

-- `redisEntry`, with the time that the groom script adds to it, both times in microseconds.
pub record RedisEntry : Type 0 where
  pub id : GoString
  pub ttr_us : ℕ
  pub gob_data : GoString
  pub started : Option ℕ

pub data Item : Type 0 where
  entry : RedisEntry → Item
  finished_word expired_word : Item

-- The lists under the two keys, leftmost first.
pub record RedisLists : Type 0 where
  pub pending : List Item
  pub reserved : List Item

pub record RedisQueue : Type 0 where
  pub id : GoString
  pub id_generator : StringIdGenerator

pub record GobCodec (J : Type 0) : Type 0 where
  pub encode : J → Result GoString
  pub decode : GoString → Result J

-- The finish script: its loop, which stops with an error at a text that is no JSON, and `lrem 1`.
unfoldable pub mark_finished : GoString → List Item → Bool × List Item
mark_finished id [] = (true, [])
mark_finished id (entry e ∷ rest) =
    let (done, after) = mark_finished id rest in
    (done, (if e.id == id then finished_word else entry e) ∷ after)
mark_finished id (word ∷ rest) = (false, word ∷ rest)

unfoldable pub remove_finished : List Item → List Item
remove_finished [] = []
remove_finished (finished_word ∷ rest) = rest
remove_finished (item ∷ rest) = item ∷ remove_finished rest

abbrev script_error : Error
script_error = message (codes "ERR Error running script")

unfoldable pub finish_script : GoString → RedisLists → Result (Unit {0}) × RedisLists
unfolding mark_finished remove_finished
finish_script id lists =
    let (done, after) = mark_finished id lists.reserved in
    if done
    then (ok tt, record lists { reserved = remove_finished after })
    else (err script_error, record lists { reserved = after })

-- The groom script. An entry that has no start yet gets the time of the server, and is written back
-- with it.
module _ (kept : ℕ → ℕ) where
  abbrev pub re_encoded : RedisEntry → Option ℕ → RedisEntry
  re_encoded e none = record e { ttr_us = kept e.ttr_us; started = none }
  re_encoded e (some t) = record e { ttr_us = kept e.ttr_us; started = some (kept t) }

  abbrev pub start_of : ℕ → RedisEntry → ℕ
  start_of time e = elim e.started [ none ↦ time | some t ↦ t ]

  abbrev pub is_overdue : ℕ → RedisEntry → Bool
  is_overdue time e = ltb (start_of time e + e.ttr_us) time

  abbrev pub seen : ℕ → RedisEntry → RedisEntry
  seen time e = elim e.started [ none ↦ re_encoded e (some time) | some t ↦ e ]

  -- The loop, with the list that it pushes to.
  unfoldable pub groom_loop : ℕ → List Item → List Item → Bool × RedisLists
  groom_loop time pending [] = (true, record { pending = pending; reserved = [] })
  groom_loop time pending (entry e ∷ rest) =
      let overdue = is_overdue time e in
      let (done, after) =
        groom_loop time (if overdue then entry (re_encoded e none) ∷ pending else pending) rest in
      (
        done,
        record after {
          reserved = (if overdue then expired_word else entry (seen time e)) ∷ after.reserved;
        },
      )
  groom_loop time pending (word ∷ rest) =
      (false, record { pending = pending; reserved = word ∷ rest })

  -- `lrem 0`
  unfoldable pub remove_expired : List Item → List Item
  remove_expired [] = []
  remove_expired (expired_word ∷ rest) = remove_expired rest
  remove_expired (item ∷ rest) = item ∷ remove_expired rest

  unfoldable pub groom_script : ℕ → RedisLists → Result (Unit {0}) × RedisLists
  unfolding groom_loop remove_expired
  groom_script time lists =
      let (done, after) = groom_loop time lists.pending lists.reserved in
      if done
      then (ok tt, record after { reserved = remove_expired after.reserved })
      else (err script_error, after)

  -- An error of the script is logged.
  unfoldable pub groom : Bool → Connection → ℕ → RedisLists → RedisLists
  unfolding groom_script
  groom is_master connection time lists =
      if is_master then (over connection (groom_script time lists) lists).1 else lists

-- BRPOPLPUSH: the rightmost pending item becomes the leftmost reserved one. With none, the server
-- answers nil when the timeout has passed.
unfoldable pub pop_right : List Item → Option (List Item × Item)
pop_right [] = none
pop_right (item ∷ rest) = elim (pop_right rest) [
  | none ↦ some ([], item)
  | some (front, last) ↦ some (item ∷ front, last)
]

unfoldable pub move_right : RedisLists → Result (Option Item) × RedisLists
unfolding pop_right
move_right lists = elim (pop_right lists.pending) [
  | none ↦ (ok none, lists)
  | some (front, last) ↦
      (ok (some last), record { pending = front; reserved = last ∷ lists.reserved })
]

unfoldable pub finish :
    {J : Type 0} → JobEntry J → Connection → RedisLists → Result (Unit {0}) × RedisLists
unfolding finish_script
finish e connection lists =
    let answer = over connection (finish_script e.id lists) lists in
    (wrap_err answer.0 (codes "Error while removing entry from reserved list"), answer.1)

unfoldable pub clear : Connection → RedisLists → Result (Unit {0}) × RedisLists
clear connection lists =
    let answer = over connection (ok tt, record { pending = []; reserved = [] }) lists in
    (wrap_err answer.0 (codes "Error while deleting keys"), answer.1)

module _ {J : Type 0} (gob : GobCodec J) where
  abbrev encoded : GoString → ℕ → Result GoString → Result RedisEntry
  encoded id ttr (ok text) =
      ok (record { id = id; ttr_us = ttr / 1000; gob_data = text; started = none })
  encoded id ttr (err e) = wrap_err (err e) (codes "Error while encoding entry data")
  encoded id ttr panic = panic

  unfoldable pub encode_redis_entry : GoString → ℕ → J → Result RedisEntry
  encode_redis_entry id ttr job = encoded id ttr (gob.encode job)

  abbrev decoded : RedisEntry → Result J → Result (JobEntry J)
  decoded e (ok job) = ok (record { id = e.id; ttr = e.ttr_us * 1000; job = job })
  decoded e (err x) = wrap_err (err x) (codes "Error while decoding entry data")
  decoded e panic = panic

  unfoldable pub decode_redis_entry : Item → Result (JobEntry J)
  decode_redis_entry (entry e) = decoded e (gob.decode e.gob_data)
  decode_redis_entry word =
      wrap_err (err (message (codes "invalid character"))) (codes "Error while decoding entry")

  -- The identifier of the next entry.
  abbrev pub entry_id : RedisQueue → GoString
  entry_id q = q.id ++ codes "-" ++ (next q.id_generator).0

  -- LPUSH
  abbrev pushed : Connection → RedisLists → Result RedisEntry → Result (Unit {0}) × RedisLists
  pushed connection lists (err e) =
      (wrap_err (err e) (codes "Error while encoding entry data"), lists)
  pushed connection lists panic = (panic, lists)
  pushed connection lists (ok e) =
      let answer =
        over connection (ok tt, record lists { pending = entry e ∷ lists.pending }) lists in
      (wrap_err answer.0 (codes "Error while pushing job to Redis"), answer.1)

  unfoldable pub post :
      J → ℕ → Connection → RedisQueue → RedisLists → Result (Unit {0}) × RedisQueue × RedisLists
  unfolding encode_redis_entry
  post job ttr connection q lists =
      let answer = pushed connection lists (encode_redis_entry (entry_id q) ttr job) in
      (answer.0, record q { id_generator = (next q.id_generator).1 }, answer.1)

  abbrev picked : Result (Option Item) → Result (Option (JobEntry J))
  picked (err e) = wrap_err (err e) (codes "Error while picking job from Redis")
  picked panic = panic
  picked (ok none) = ok none
  picked (ok (some item)) = elim (decode_redis_entry item) [
    | ok e ↦ ok (some e)
    | err e ↦ err e
    | panic ↦ panic
  ]

  unfoldable pub pick : Connection → RedisLists → Result (Option (JobEntry J)) × RedisLists
  unfolding move_right decode_redis_entry
  pick connection lists =
      let answer = over connection (move_right lists) lists in (picked answer.0, answer.1)
