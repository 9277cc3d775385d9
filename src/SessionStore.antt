-- ===== src/SessionStore.antt =====
-- server/pkg/sessionstore/sessionstore.go: sessions, the interface that the stores implement, and
-- what it promises. A time is a number of nanoseconds since Go's zero time, so the zero `time.Time`
-- is 0; every call takes the time at which it is made.
pub mod Memory
pub mod Redis
use moblog_cloud.Prelude.{
  ℕ, ◌+◌, ◌≤◌, ◌<◌, ◌⊎◌, GoString, ◌==◌, List, [], Option, none, some, Result, ok, ◌≡◌, ◌≢◌, ltb,
  if◌then◌else◌,
}

pub record Session : Type 0 where
  pub sid : GoString
  pub expires : ℕ
  pub username : GoString

-- The interface `SessionStore`.
pub record SessionStore (S : Type 0) : Type 0 where
  pub set : Session → ℕ → S → Result (Unit {0}) × S
  pub get : GoString → ℕ → S → Result (Option Session) × S
  pub delete : GoString → S → Result (Unit {0}) × S

-- `if time.Now().After(session.Expires)`
abbrev pub unexpired : ℕ → Session → Option Session
unexpired now session = if ltb session.expires now then none else some session

-- The sessions that a store would show at a time.
abbrev pub Live : Type 0 → Type 0
Live S = S → ℕ → GoString → Option Session

-- What a client relies on where a call returns no error. Sessions have a non-empty identifier, the
-- clock stands after the zero time and does not run backwards. A session that was set shows until
-- it expires, except perhaps in the last `slack` nanoseconds before that; `Storable` are the sessions that
-- the store can keep.
pub record Contract {S : Type 0} (ops : SessionStore S) (live : Live S) (slack : ℕ)
    (Storable : Session → Type 0) : Type 0 where
  pub sets :
      (session : Session) (now : ℕ) (s : S) (later : ℕ)
      → Storable session
      → session.sid ≢ []
      → 0 < now
      → now ≤ later
      → (later + slack ≤ session.expires) ⊎ (session.expires < later)
      → (ops.set session now s).0 ≡ ok tt
      → live (ops.set session now s).1 later session.sid ≡ unexpired later session
  pub set_keeps :
      (session : Session) (now : ℕ) (s : S) (later : ℕ) (sid : GoString)
      → session.sid ≢ sid
      → (ops.set session now s).0 ≡ ok tt
      → live (ops.set session now s).1 later sid ≡ live s later sid
  pub gets :
      (sid : GoString) (now : ℕ) (s : S) (found : Option Session)
      → 0 < now
      → (ops.get sid now s).0 ≡ ok found
      → found ≡ live s now sid
  pub get_keeps :
      (sid : GoString) (now : ℕ) (s : S) (later : ℕ) (other : GoString)
      → now ≤ later
      → live (ops.get sid now s).1 later other ≡ live s later other
  pub deletes :
      (sid : GoString) (s : S) (now : ℕ) (other : GoString)
      → (ops.delete sid s).0 ≡ ok tt
      → live (ops.delete sid s).1 now other ≡ (if sid == other then none else live s now other)
