-- ===== src/DistLock.antt =====
-- server/pkg/distlock/distlock.go: a lock that one process at a time holds on a Redis server. The
-- server's clock counts milliseconds; a key whose time has come is gone.
pub mod Exclusion
pub mod Making
use moblog_cloud.Prelude.{
  ℕ, ◌+◌, GoString, ◌==◌, Bool, true, false, not, Option, none, some, List, [], ◌∷◌, Result, ok,
  err, panic, ltb, nat_eq, if◌then◌else◌,
}
use moblog_cloud.Connection.{Connection, over}

-- The key of the lock: the identifier of the master, and when it expires.
abbrev pub LockKey : Type 0
LockKey = Option (GoString × ℕ)

-- `get`
abbrev pub current : ℕ → LockKey → Option GoString
current now none = none
current now (some (id, deadline)) = if ltb now deadline then some id else none

-- A positive `expiration_delay` is passed: Redis refuses to set a key for no time at all.
unfoldable pub acquire_script : GoString → ℕ → ℕ → LockKey → Result ℕ × LockKey
acquire_script node_id expiration_delay now key = elim (current now key) [
  | none ↦ (ok 1, some (node_id, now + expiration_delay))
  | some master_id ↦
      if master_id == node_id then (ok 1, some (node_id, now + expiration_delay)) else (ok 0, key)
]

unfoldable pub release_script : GoString → ℕ → LockKey → Result ℕ × LockKey
release_script node_id now key = elim (current now key) [
  | none ↦ (ok 0, key)
  | some master_id ↦ if master_id == node_id then (ok 1, none) else (ok 0, key)
]

-- A lock of a process. The channel has room for one message; `none` once it is closed.
pub record Lock : Type 0 where
  pub id : GoString
  pub expiration_delay : ℕ
  pub master : ℕ
  pub master_channel : Option (List Bool)

unfoldable pub is_master : Lock → Bool
is_master l = nat_eq l.master 1

-- The `select` with a default: a send that would block is skipped.
abbrev pub offered : Bool → Option (List Bool) → Option (List Bool)
offered message none = none
offered message (some []) = some (message ∷ [])
offered message (some (m ∷ ms)) = some (m ∷ ms)

abbrev pub refreshed : Lock → Result ℕ → Lock
refreshed l (err e) = l
refreshed l panic = l
refreshed l (ok ret) = record l {
  master = ret;
  master_channel =
      if nat_eq l.master ret then l.master_channel else offered (nat_eq ret 1) l.master_channel;
}

unfoldable pub tick : Connection → ℕ → Lock → LockKey → Lock × LockKey
unfolding acquire_script
tick connection now l key =
    let answer = over connection (acquire_script l.id l.expiration_delay now key) key in
    (refreshed l answer.0, answer.1)

-- An error is logged.
unfoldable pub stop : Connection → ℕ → Lock → LockKey → Lock × LockKey
unfolding release_script
stop connection now l key =
    let answer = over connection (release_script l.id now key) key in
    (record l { master = 0; master_channel = none }, answer.1)
