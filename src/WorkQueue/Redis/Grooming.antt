-- ===== src/WorkQueue/Redis/Grooming.antt =====
-- server/pkg/workqueue/redis.go with server/pkg/distlock/distlock.go: the making and the end of a queue, with
-- the lock that says which process grooms. `Setup` is what the host and the Redis server answer.
use moblog_cloud.Prelude.{
  ℕ, ◌+◌, ◌≤◌, ◌<◌, GoString, codes, ◌++◌, true, Result, ok, err, panic, wrap_err, ◌>>=◌,
  bind-eq-ok, wrap_err-eq-ok, ok_inj, ◌==◌, ◌≡◌, ◌≢◌, refl, ap, sym, ◌∙◌, subst, arith,
}
use moblog_cloud.Connection.{Connection, answered, over}
use moblog_cloud.DistLock.{LockKey, Lock, is_master, tick}
use moblog_cloud.DistLock
use moblog_cloud.DistLock.Making.{Options, Host, new}
use moblog_cloud.DistLock.Exclusion.{Others, tick_excludes}
use moblog_cloud.WorkQueue.Redis.{RedisQueue, RedisLists, groom, groom_script}

-- The host of the lock is asked on its own: each call of the system has its own outcome.
pub record Setup : Type 0 where
  pub parsed_url : Result (Unit {0})
  pub hostname : Result GoString
  pub finish_script_sha : Result GoString
  pub groom_script_sha : Result GoString
  pub lock_host : Host
  pub uuid : GoString

-- The other options are zero.
abbrev pub groom_options : Options
groom_options = record { name = codes "jobs"; refresh_interval = 0; expiration_delay = 0 }

-- The queue and its grooming lock.
unfoldable pub new_redis_queue : Setup → Result (RedisQueue × Lock)
unfolding new
new_redis_queue setup = do
  _ ← wrap_err setup.parsed_url (codes "Error while parsing redis URL")
  hostname ← wrap_err setup.hostname (codes "Error while retrieving hostname")
  _ ← wrap_err setup.finish_script_sha (codes "Error while uploading finish script to Redis")
  _ ← wrap_err setup.groom_script_sha (codes "Error while uploading groom script to Redis")
  groom_lock ←
      wrap_err (new setup.lock_host groom_options) (codes "Error while creating grooming lock")
  ok (
    record { id = hostname ++ codes "-" ++ setup.uuid; id_generator = record { last_id = 0 } },
    groom_lock.1,
  )

abbrev pub stop : Connection → ℕ → Lock → LockKey → Lock × LockKey
stop connection now groom_lock key = DistLock.stop connection now groom_lock key

-- A lock after some ticks, over any connections, at any times and on any keys.
pub data Ticked (l : Lock) : Lock → Type 0 where
  made_just_now : Ticked l l
  ticked :
      {l' : Lock} (connection : Connection) (now : ℕ) (key : LockKey)
      → Ticked l l'
      → Ticked l (tick connection now l' key).0

refreshed-delay :
    (l : Lock) (answer : Result ℕ)
    → (DistLock.refreshed l answer).expiration_delay ≡ l.expiration_delay
refreshed-delay l (ok ret) = refl
refreshed-delay l (err e) = refl
refreshed-delay l panic = refl

Ticked-delay : {l l' : Lock} → Ticked l l' → l'.expiration_delay ≡ l.expiration_delay
unfolding tick
Ticked-delay made_just_now = refl
Ticked-delay (ticked {l' = l'} connection now key run) = refreshed-delay l' _ ∙ Ticked-delay run

-- A lock that `New` makes without a delay among the options has the default one, and is no master.
new-default :
    (host : Host) (made : Options × Lock)
    → new host groom_options ≡ ok made
    → (made.1.expiration_delay ≡ 25000) × (made.1.master ≡ 0)
unfolding new ◌==◌
new-default host made e =
    let (_, _, e₁) = bind-eq-ok _ _ e in
    let (_, _, e₂) = bind-eq-ok _ _ e₁ in
    let (_, _, e₃) = bind-eq-ok _ _ e₂ in
    let same = ok_inj e₃ in
    (ap (λ m. m.1.expiration_delay) (sym same), ap (λ m. m.1.master) (sym same))

new_redis_queue-lock :
    (setup : Setup) (q : RedisQueue) (l : Lock)
    → new_redis_queue setup ≡ ok (q, l)
    → (l.expiration_delay ≡ 25000) × (l.master ≡ 0)
unfolding new_redis_queue
new_redis_queue-lock setup q l e =
    let (_, _, e₁) = bind-eq-ok _ _ e in
    let (_, _, e₂) = bind-eq-ok _ _ e₁ in
    let (_, _, e₃) = bind-eq-ok _ _ e₂ in
    let (_, _, e₄) = bind-eq-ok _ _ e₃ in
    let (made, h, e₅) = bind-eq-ok _ _ e₄ in
    subst (λ m. (m.expiration_delay ≡ 25000) × (m.master ≡ 0)) (ap (λ r. r.1) (ok_inj e₅))
      (new-default setup.lock_host made (wrap_err-eq-ok _ _ h))

-- A queue that `NewRedisQueue` made does not groom before its lock has ticked. After an answered tick
-- that makes its process the master it does; and for 25 seconds from then on no other process grooms
-- after an answered tick of its own, whatever the other processes have done in the meantime.
pub groom_excludes :
    (kept : ℕ → ℕ) (setup : Setup) (q : RedisQueue) (l l' : Lock) (start : ℕ) (key : LockKey)
    (before : ℕ) (k : LockKey) (now : ℕ) (other : Lock) (connection : Connection) (time : ℕ)
    (lists : RedisLists)
    → new_redis_queue setup ≡ ok (q, l)
    → Ticked l l'
    → is_master (tick answered start l' key).0 ≡ true
    → Others l'.id start (tick answered start l' key).1 before k
    → before ≤ now
    → now < start + 25000
    → other.id ≢ l'.id
    → (groom kept (is_master l) connection time lists ≡ lists)
      × (groom kept (is_master (tick answered start l' key).0) connection time lists
          ≡ (over connection (groom_script kept time lists) lists).1)
      × (groom kept (is_master (tick answered now other k).0) connection time lists ≡ lists)
unfolding groom is_master
groom_excludes kept setup q l l' start key before k now other connection time lists made run master
      others later in_time differs =
    let (delay, idle) = new_redis_queue-lock setup q l made in
    let lasts = Ticked-delay run ∙ delay in
    let excluded =
      tick_excludes start l' key before k now other master others later (omega arith) differs in
    (rw (idle) refl, rw (master) refl, rw (excluded) refl)
