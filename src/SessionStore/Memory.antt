-- ===== src/SessionStore/Memory.antt =====
-- server/pkg/sessionstore/memorysessionstore.go. Each method holds the lock, so it is one step.
use moblog_cloud.Prelude.{
  ℕ, ◌≤◌, ◌<◌, GoString, ◌==◌, eq_iff, eq_refl, [], Option, none, some, Result, ok, panic, ◌≡◌, ◌≢◌,
  arith, ltb, if◌then◌else◌,
}
use moblog_cloud.Prelude.GoMap
use moblog_cloud.Prelude.GoMap.{map_laws, GoMap, get-put, get-delete}
use moblog_cloud.SessionStore.{Session, SessionStore, Contract, Live, unexpired}

pub record MemorySessionStore : Type 0 where
  pub sessions : GoMap Session

unfoldable pub new_memory_session_store : MemorySessionStore
new_memory_session_store = record { sessions = GoMap.empty }

unfoldable pub set : Session → ℕ → MemorySessionStore → Result (Unit {0}) × MemorySessionStore
set session now s =
    if session.sid == []
    then (panic, s)
    else (ok tt, record s { sessions = GoMap.put s.sessions session.sid session })

-- What a Go map gives for a missing key: the zero session, long expired.
abbrev zero_session : Session
zero_session = record { sid = []; expires = 0; username = [] }

abbrev or_zero : Option Session → Session
or_zero none = zero_session
or_zero (some session) = session

unfoldable pub get :
    GoString → ℕ → MemorySessionStore → Result (Option Session) × MemorySessionStore
get sid now s =
    let session : Session = or_zero (GoMap.get s.sessions sid) in
    if ltb session.expires now
    then (ok none, record s { sessions = GoMap.delete s.sessions sid })
    else (ok (some session), s)

unfoldable pub delete : GoString → MemorySessionStore → Result (Unit {0}) × MemorySessionStore
delete sid s = (ok tt, record s { sessions = GoMap.delete s.sessions sid })

unfoldable pub memory_session_store : SessionStore MemorySessionStore
memory_session_store = record { set = set; get = get; delete = delete }

abbrev unexpired_of : ℕ → Option Session → Option Session
unexpired_of now none = none
unexpired_of now (some session) = unexpired now session

unfoldable pub live : Live MemorySessionStore
live s now sid = unexpired_of now (GoMap.get s.sessions sid)

live-set :
    (session : Session) (now : ℕ) (s : MemorySessionStore) (later : ℕ) (sid : GoString)
    → session.sid ≢ []
    → live (set session now s).1 later sid
      ≡ (if session.sid == sid then unexpired later session else live s later sid)
unfolding live set
live-set session now s later sid h =
    ground (arith, eq_iff session.sid [], get-put s.sessions session.sid session sid)

live-set_ne :
    (session : Session) (now : ℕ) (s : MemorySessionStore) (later : ℕ) (sid : GoString)
    → session.sid ≢ sid
    → live (set session now s).1 later sid ≡ live s later sid
unfolding live set
live-set_ne session now s later sid h =
    ground (arith, eq_iff session.sid sid, get-put s.sessions session.sid session sid)

get-live :
    (sid : GoString) (now : ℕ) (s : MemorySessionStore) (found : Option Session)
    → 0 < now
    → (get sid now s).0 ≡ ok found
    → found ≡ live s now sid
unfolding live get
get-live sid now s found h e = ground arith

live-get :
    (sid : GoString) (now : ℕ) (s : MemorySessionStore) (later : ℕ) (other : GoString)
    → now ≤ later
    → live (get sid now s).1 later other ≡ live s later other
unfolding live get
live-get sid now s later other h = ground (arith, get-delete s.sessions sid other, eq_iff sid other)

live-delete :
    (sid : GoString) (s : MemorySessionStore) (now : ℕ) (other : GoString)
    → live (delete sid s).1 now other ≡ (if sid == other then none else live s now other)
unfolding live delete
live-delete sid s now other = grind (arith, map_laws)

-- The memory store keeps the promises of the interface for every session, to the nanosecond: a session shows after
-- `Set` exactly until it expires, whatever else is set, fetched or deleted under other identifiers.
pub memory_session_store-Contract : Contract memory_session_store live 0 (λ _. Unit)
unfolding memory_session_store
memory_session_store-Contract = record {
  sets = λ session now s later _ h _ _ _ _.
      ground (arith, live-set session now s later session.sid h, eq_refl session.sid);
  set_keeps = λ session now s later sid h _. live-set_ne session now s later sid h;
  gets = get-live;
  get_keeps = live-get;
  deletes = λ sid s now other _. live-delete sid s now other;
}
