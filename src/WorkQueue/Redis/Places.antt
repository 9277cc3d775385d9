-- ===== src/WorkQueue/Redis/Places.antt =====
-- server/pkg/workqueue/redis.go: the queue that several processes share, as steps on its lists.
use moblog_cloud.Prelude.{
  ℕ, ◌+◌, ◌≤◌, GoString, ◌==◌, Bool, true, false, Result, ok, err, panic, if◌then◌else◌, ◌≡◌, refl,
  arith, Bool-cases, inl, inr,
}
use moblog_cloud.WorkQueue.{JobEntry}
use moblog_cloud.WorkQueue.Redis.{
  RedisEntry, RedisLists, RedisQueue, GobCodec, Connection, answered, refused, lost, over,
  finish_script, groom_script, groom, move_right, finish, clear, entry_id, encoded,
  encode_redis_entry, pushed, post, pick,
}
use moblog_cloud.WorkQueue.Redis.Scripts.{AreEntries, count, finish_script-removes}
use moblog_cloud.WorkQueue.Redis.Counting.{
  places, Inv, Shuffled, others-AreEntries, count-others, move_right-Shuffled,
  groom_script-Shuffled,
}

pub data Event : Type 0 where
  moved cleared : Event
  posted attempted finished : GoString → Event

-- What an event does to the number of places of a job.
abbrev pub Effect : Event → GoString → ℕ → ℕ → Type 0
Effect moved id before after = after ≡ before
Effect cleared id before after = after ≤ before
Effect (posted x) id before after = after ≡ before + (if x == id then 1 else 0)
Effect (attempted x) id before after =
    (before ≤ after) × (after ≤ before + (if x == id then 1 else 0))
Effect (finished x) id before after =
    (after ≤ before) × (if x == id then Unit else (after ≡ before))

module _ {J : Type 0} (gob : GobCodec J) (kept : ℕ → ℕ) where
  -- A call of some process, over whatever connection. The identifier of an entry that is posted is
  -- not in use.
  pub data Step (s : RedisLists) : Event → RedisLists → Type 0 where
    posts :
        (job : J) (ttr : ℕ) (connection : Connection) (q : RedisQueue)
        → places (entry_id gob q) s ≡ 0
        → (post gob job ttr connection q s).0 ≡ ok tt
        → Step s (posted (entry_id gob q)) (post gob job ttr connection q s).2
    attempts :
        (job : J) (ttr : ℕ) (connection : Connection) (q : RedisQueue)
        → places (entry_id gob q) s ≡ 0
        → Step s (attempted (entry_id gob q)) (post gob job ttr connection q s).2
    picks : (connection : Connection) → Step s moved (pick gob connection s).1
    finishes :
        (e : JobEntry J) (connection : Connection)
        → Step s (finished e.id) (finish e connection s).1
    grooms :
        (is_master : Bool) (connection : Connection) (time : ℕ)
        → Step s moved (groom kept is_master connection time s)
    clears : (connection : Connection) → Step s cleared (clear connection s).1

  abbrev Entries : RedisLists → Type 0
  Entries s = AreEntries s.pending × AreEntries s.reserved

  over-Shuffled :
      {A : Type 0} (connection : Connection) (ran : Result A × RedisLists) (s : RedisLists)
      → Inv s
      → Shuffled s ran.1
      → Shuffled s (over connection ran s).1
  over-Shuffled answered ran s v h = h
  over-Shuffled (refused x) ran s v h = (v.pending_entries, v.reserved_entries, λ id. refl)
  over-Shuffled (lost x) ran s v h = h

  encoded-id :
      (id : GoString) (ttr : ℕ) (m : Result GoString) (e : RedisEntry)
      → encoded gob id ttr m ≡ ok e
      → e.id ≡ id
  encoded-id id ttr (ok text) e h = ground arith
  encoded-id id ttr (err x) e h = cc
  encoded-id id ttr panic e h = cc

  -- A post that returns no error has pushed the entry; one that returns an error may have.
  abbrev Pushed : GoString → RedisLists → Result (Unit {0}) × RedisLists → Type 0
  Pushed x s r =
      Entries r.1
      × ((r.0 ≡ ok tt) → (id : GoString) → places id r.1 ≡ places id s + (if x == id then 1 else 0))
      × ((id : GoString)
          → (places id s ≤ places id r.1)
            × (places id r.1 ≤ places id s + (if x == id then 1 else 0)))

  pushed-Pushed :
      (x : GoString) (connection : Connection) (s : RedisLists) (m : Result RedisEntry)
      → Inv s
      → ((e : RedisEntry) → m ≡ ok e → e.id ≡ x)
      → Pushed x s (pushed gob connection s m)
  unfolding count
  pushed-Pushed x connection s (err e) v h =
      ((v.pending_entries, v.reserved_entries), λ no. cc, λ id. (omega arith, omega arith))
  pushed-Pushed x connection s panic v h =
      ((v.pending_entries, v.reserved_entries), λ no. cc, λ id. (omega arith, omega arith))
  pushed-Pushed x answered s (ok e) v h = (
    (v.pending_entries, v.reserved_entries),
    λ _ id. rw (← h e refl) (omega arith),
    λ id. rw (← h e refl) (omega arith, omega arith),
  )
  pushed-Pushed x (refused f) s (ok e) v h =
      ((v.pending_entries, v.reserved_entries), λ no. cc, λ id. (omega arith, omega arith))
  pushed-Pushed x (lost f) s (ok e) v h = (
    (v.pending_entries, v.reserved_entries),
    λ no. cc,
    λ id. rw (← h e refl) (omega arith, omega arith),
  )

  post-Pushed :
      (job : J) (ttr : ℕ) (connection : Connection) (q : RedisQueue) (s : RedisLists)
      → Inv s
      → Pushed
          (entry_id gob q)
          s
          ((post gob job ttr connection q s).0, (post gob job ttr connection q s).2)
  unfolding post encode_redis_entry
  post-Pushed job ttr connection q s v =
      pushed-Pushed (entry_id gob q) connection s _ v (λ e h. encoded-id _ ttr (gob.encode job) e h)

  finish-Effect :
      (x : GoString) (connection : Connection) (s : RedisLists)
      → Inv s
      → Entries (over connection (finish_script x s) s).1
        × ((id : GoString)
            → Effect
                (finished x)
                id
                (places id s)
                (places id (over connection (finish_script x s) s).1))
  finish-Effect x connection s v = go connection
    where
      ran :
          (Entries (finish_script x s).1)
          × ((id : GoString)
              → Effect (finished x) id (places id s) (places id (finish_script x s).1))
      ran = rw (finish_script-removes x s v.reserved_entries (omega (arith, v.once x))) (
        (v.pending_entries, others-AreEntries x s.reserved v.reserved_entries),
        λ id. elim (Bool-cases (x == id)) [
          | inl same ↦ rw same (ground (arith, count-others x id s.reserved), tt)
          | inr differs ↦ rw differs (
            ground (arith, count-others x id s.reserved),
            ground (arith, count-others x id s.reserved),
          )
        ],
      )

      unchanged : (id : GoString) → Effect (finished x) id (places id s) (places id s)
      unchanged id = elim (Bool-cases (x == id)) [
        | inl same ↦ rw same (omega arith, tt)
        | inr differs ↦ rw differs (omega arith, refl)
      ]

      go :
          (c : Connection)
          → Entries (over c (finish_script x s) s).1
            × ((id : GoString)
                → Effect (finished x) id (places id s) (places id (over c (finish_script x s) s).1))
      go answered = ran
      go (refused f) = ((v.pending_entries, v.reserved_entries), unchanged)
      go (lost f) = ran

  -- From lists of entries with every job in one place at most, whatever becomes of the connection:
  -- a post that returns no error puts its job in one place more, and any post may do so; a pick and
  -- a grooming leave every job in as many places; a finish takes away no other job than its own, a
  -- clearing adds none; and the lists hold entries only again.
  pub Step-Effect_redis :
      {s t : RedisLists} {e : Event}
      → Inv s
      → Step s e t
      → (AreEntries t.pending × AreEntries t.reserved)
        × ((id : GoString) → Effect e id (places id s) (places id t))
  unfolding pick groom finish clear count
  Step-Effect_redis {s} v (posts job ttr connection q unused done) =
      let (es, effect, _) = post-Pushed job ttr connection q s v in (es, effect done)
  Step-Effect_redis {s} v (attempts job ttr connection q unused) =
      let (es, _, effect) = post-Pushed job ttr connection q s v in (es, effect)
  Step-Effect_redis {s} v (picks connection) =
      let (a, b, same) = over-Shuffled connection (move_right s) s v (move_right-Shuffled s v) in
      ((a, b), same)
  Step-Effect_redis {s} v (finishes e connection) = finish-Effect e.id connection s v
  Step-Effect_redis {s} v (grooms true connection time) =
      let (a, b, same) =
        over-Shuffled connection (groom_script kept time s) s v
          (groom_script-Shuffled kept time s v) in
      ((a, b), same)
  Step-Effect_redis v (grooms false connection time) =
      ((v.pending_entries, v.reserved_entries), λ id. refl)
  Step-Effect_redis v (clears answered) = ((tt, tt), λ id. omega arith)
  Step-Effect_redis v (clears (refused x)) =
      ((v.pending_entries, v.reserved_entries), λ id. omega arith)
  Step-Effect_redis v (clears (lost x)) = ((tt, tt), λ id. omega arith)
