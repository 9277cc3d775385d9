-- ===== src/DistLock/Exclusion.antt =====
-- server/pkg/distlock/distlock.go: one master at a time, as long as its lease lasts.
use moblog_cloud.Prelude.{
  ℕ, ◌+◌, ◌≤◌, ◌<◌, GoString, ◌==◌, eq_iff, Bool, true, false, Option, none, some, List, [], ◌∷◌,
  Result, ok, err, panic, nat_eq, ◌≡◌, ◌≢◌, ◌⊎◌, refl, ap, sym, ◌∙◌, arith, Bool-cases, inl, inr,
  subst, false≢true,
}
use moblog_cloud.Connection.{Connection, answered, refused, lost}
use moblog_cloud.DistLock.{
  LockKey, current, acquire_script, release_script, Lock, is_master, offered, refreshed, tick, stop,
}

-- An answered tick makes its process the master, with a lease of the expiration delay, unless another
-- process holds the lock at that time, which then keeps its lease.
pub tick-is_master :
    (now : ℕ) (l : Lock) (key : LockKey)
    → (is_master (tick answered now l key).0 ≡ true
        × ((tick answered now l key).1 ≡ some (l.id, now + l.expiration_delay)))
      ⊎ (is_master (tick answered now l key).0 ≡ false
          × ((tick answered now l key).1 ≡ key)
          × ((holder : GoString) × (holder ≢ l.id) × (current now key ≡ some holder)))
unfolding tick acquire_script is_master
tick-is_master now l key = go (current now key) refl
  where
    go :
        (m : Option GoString)
        → current now key ≡ m
        → (is_master (tick answered now l key).0 ≡ true
            × ((tick answered now l key).1 ≡ some (l.id, now + l.expiration_delay)))
          ⊎ (is_master (tick answered now l key).0 ≡ false
              × ((tick answered now l key).1 ≡ key)
              × ((holder : GoString) × (holder ≢ l.id) × (current now key ≡ some holder)))
    go none e = inl (ground arith, ground arith)
    go (some holder) e = elim (Bool-cases (holder == l.id)) [
      | inl own ↦ inl (ground arith, ground arith)
      | inr other ↦
          inr
            (ground arith, ground arith, (holder, (λ same. ground (arith, eq_iff holder l.id)), e))
    ]

-- Ticks and stops of other processes than the holder, from a time and a key to a later time and its
-- key.
pub data Others (holder : GoString) (start : ℕ) (key : LockKey) : ℕ → LockKey → Type 0 where
  nothing_yet : Others holder start key start key
  ticks :
      {before : ℕ} {k : LockKey} (connection : Connection) (now : ℕ) (l : Lock)
      → Others holder start key before k
      → before ≤ now
      → l.id ≢ holder
      → Others holder start key now (tick connection now l k).1
  stops :
      {before : ℕ} {k : LockKey} (connection : Connection) (now : ℕ) (l : Lock)
      → Others holder start key before k
      → before ≤ now
      → l.id ≢ holder
      → Others holder start key now (stop connection now l k).1

other_tick :
    (connection : Connection) (now : ℕ) (l : Lock) (holder : GoString) (deadline : ℕ)
    → l.id ≢ holder
    → now < deadline
    → (tick connection now l (some (holder, deadline))).1 ≡ some (holder, deadline)
unfolding tick acquire_script
other_tick answered now l holder deadline h h' = ground (arith, eq_iff holder l.id)
other_tick (refused e) now l holder deadline h h' = refl
other_tick (lost e) now l holder deadline h h' = ground (arith, eq_iff holder l.id)

other_stop :
    (connection : Connection) (now : ℕ) (l : Lock) (holder : GoString) (deadline : ℕ)
    → l.id ≢ holder
    → now < deadline
    → (stop connection now l (some (holder, deadline))).1 ≡ some (holder, deadline)
unfolding stop release_script
other_stop answered now l holder deadline h h' = ground (arith, eq_iff holder l.id)
other_stop (refused e) now l holder deadline h h' = refl
other_stop (lost e) now l holder deadline h h' = ground (arith, eq_iff holder l.id)

Others-keep :
    {holder : GoString} {start deadline now : ℕ} {k : LockKey}
    → Others holder start (some (holder, deadline)) now k
    → now < deadline
    → k ≡ some (holder, deadline)
Others-keep nothing_yet h = refl
Others-keep {holder = holder} {deadline = deadline} (ticks connection now l run later other) h =
    ap (λ k. (tick connection now l k).1) (Others-keep run (omega arith))
    ∙ other_tick connection now l holder deadline other h
Others-keep {holder = holder} {deadline = deadline} (stops connection now l run later other) h =
    ap (λ k. (stop connection now l k).1) (Others-keep run (omega arith))
    ∙ other_stop connection now l holder deadline other h

other_not_master :
    (now : ℕ) (l : Lock) (holder : GoString) (deadline : ℕ)
    → l.id ≢ holder
    → now < deadline
    → is_master (tick answered now l (some (holder, deadline))).0 ≡ false
unfolding tick acquire_script is_master
other_not_master now l holder deadline h h' = ground (arith, eq_iff holder l.id)

-- After an answered tick that makes a process the master, and until its expiration delay has passed,
-- no answered tick of another process makes that one the master, whatever the other processes have
-- done in the meantime and whatever has become of their connections.
pub tick_excludes :
    (start : ℕ) (l : Lock) (key : LockKey) (before : ℕ) (k : LockKey) (now : ℕ) (other : Lock)
    → is_master (tick answered start l key).0 ≡ true
    → Others l.id start (tick answered start l key).1 before k
    → before ≤ now
    → now < start + l.expiration_delay
    → other.id ≢ l.id
    → is_master (tick answered now other k).0 ≡ false
tick_excludes start l key before k now other master run later in_time differs =
    elim (tick-is_master start l key) [
      | inr (refuses, _, _) ↦ absurd (false≢true (sym refuses ∙ master))
      | inl (_, leased) ↦
          ap (λ x. is_master (tick answered now other x).0)
            (Others-keep (subst (λ x. Others l.id start x before k) leased run) (omega arith))
          ∙ other_not_master now other l.id (start + l.expiration_delay) differs in_time
    ]

-- What a reader of the channel gets: an answered tick that changes the state of its process leaves the
-- new state in an empty channel, and one that finds a message there leaves that, the older state; a
-- tick without an answer changes neither the state nor the channel.
pub tick_channel :
    (now : ℕ) (l : Lock) (key : LockKey) (connection : Connection)
    → let l' = (tick connection now l key).0 in
      ((l'.master ≡ l.master) × (l'.master_channel ≡ l.master_channel))
      ⊎ ((connection ≡ answered)
          × (l'.master ≢ l.master)
          × (((l.master_channel ≡ some []) × (l'.master_channel ≡ some (is_master l' ∷ [])))
              ⊎ ((l.master_channel ≢ some []) × (l'.master_channel ≡ l.master_channel))))
unfolding tick is_master
tick_channel now l key (refused e) = inl (refl, refl)
tick_channel now l key (lost e) = inl (refl, refl)
tick_channel now l key answered = after (acquire_script l.id l.expiration_delay now key).0
  where
    offering :
        (message : Bool) (channel : Option (List Bool))
        → ((channel ≡ some []) × (offered message channel ≡ some (message ∷ [])))
          ⊎ ((channel ≢ some []) × (offered message channel ≡ channel))
    offering message none = inr ((λ e. cc), refl)
    offering message (some []) = inl (refl, refl)
    offering message (some (m ∷ ms)) = inr ((λ e. cc), refl)

    after :
        (r : Result ℕ)
        → (((refreshed l r).master ≡ l.master)
            × ((refreshed l r).master_channel ≡ l.master_channel))
          ⊎ ((answered ≡ answered)
              × ((refreshed l r).master ≢ l.master)
              × (((l.master_channel ≡ some [])
                    × ((refreshed l r).master_channel
                        ≡ some (nat_eq (refreshed l r).master 1 ∷ [])))
                  ⊎ ((l.master_channel ≢ some [])
                      × ((refreshed l r).master_channel ≡ l.master_channel))))
    after (err e) = inl (refl, refl)
    after panic = inl (refl, refl)
    after (ok ret) = elim (Bool-cases (nat_eq l.master ret)) [
      | inl same ↦ rw same (inl (ground arith, refl))
      | inr changed ↦
          rw changed (inr (refl, (λ e. ground arith), offering (nat_eq ret 1) l.master_channel))
    ]
