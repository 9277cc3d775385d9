-- ===== src/SessionStore/Redis.antt =====
-- server/pkg/sessionstore/redissessionstore.go. The Redis server and its client are not part of
-- the repository: they are the parameter `client`, with what Redis documents of SET, GET and DEL.
-- So is the JSON encoding of a session, with the round trip that it documents for strings of valid UTF-8;
-- what is not is replaced in the encoding.
pub mod Contract
use moblog_cloud.Prelude.{
  ℕ, ◌+◌, ◌-◌, ◌*◌, ◌/◌, ◌≤◌, ◌<◌, GoString, codes, ◌==◌, eq_iff, eq_refl, List, [], ◌++◌, Option,
  none, some, Result, ok, err, panic, wrap_err, ◌≡◌, ◌≢◌, refl, arith, ltb, if◌then◌else◌, Bool,
  ◌⊎◌, inl, inr, sym, ◌∙◌, ap, true, valid_utf8,
}
use moblog_cloud.SessionStore.{Session, SessionStore}

-- `set key data expiration now`, `get key now`, `del key`. A missing key is `none` (`redis.Nil`).
-- An expiration of 0 is none; the client sends it in whole milliseconds.
pub record RedisClient (R : Type 0) : Type 0 where
  pub set : GoString → GoString → ℕ → ℕ → R → Result (Unit {0}) × R
  pub get : GoString → ℕ → R → Result (Option GoString)
  pub del : GoString → R → Result (Unit {0}) × R

abbrev pub millisecond : ℕ
millisecond = 1000000

-- `value r now key` is what the server holds under a key at a time. After its deadline a value may
-- or may not be there still.
pub record IsRedis {R : Type 0} (client : RedisClient R)
    (value : R → ℕ → GoString → Option GoString) : Type 0 where
  pub gets :
      (key : GoString) (now : ℕ) (r : R) (found : Option GoString)
      → client.get key now r ≡ ok found
      → found ≡ value r now key
  pub sets_fresh :
      (key value' : GoString) (expiration now : ℕ) (r : R) (later : ℕ)
      → (client.set key value' expiration now r).0 ≡ ok tt
      → now ≤ later
      → (expiration ≡ 0) ⊎ (later < now + expiration / millisecond * millisecond)
      → value (client.set key value' expiration now r).1 later key ≡ some value'
  pub sets_stale :
      (key value' : GoString) (expiration now : ℕ) (r : R) (later : ℕ)
      → (client.set key value' expiration now r).0 ≡ ok tt
      → now ≤ later
      → (value (client.set key value' expiration now r).1 later key ≡ none)
        ⊎ (value (client.set key value' expiration now r).1 later key ≡ some value')
  pub sets_other :
      (key value' : GoString) (expiration now : ℕ) (r : R) (later : ℕ) (other : GoString)
      → key ≢ other
      → value (client.set key value' expiration now r).1 later other ≡ value r later other
  pub dels :
      (key : GoString) (r : R) (now : ℕ) (other : GoString)
      → (client.del key r).0 ≡ ok tt
      → value (client.del key r).1 now other ≡ (if key == other then none else value r now other)

-- The strings of the session are valid UTF-8.
abbrev pub IsText : Session → Type 0
IsText session = (valid_utf8 session.sid ≡ true) × (valid_utf8 session.username ≡ true)

-- `encoding/json` on `Session`.
pub record SessionJson : Type 0 where
  pub marshal : Session → Result GoString
  pub unmarshal : GoString → Result Session
  pub round_trip :
      (session : Session) (text : GoString)
      → IsText session
      → marshal session ≡ ok text
      → unmarshal text ≡ ok session

abbrev redis_key_prefix_sessions : GoString
redis_key_prefix_sessions = codes "session-"

module _ {R : Type 0} (client : RedisClient R) (json : SessionJson) where
  -- `time.Until` of a time that has passed is negative, which the client takes for no expiration.
  save : Session → ℕ → R → Result GoString → Result (Unit {0}) × R
  save session now r (err e) = (wrap_err (err e) (codes "Error while encoding session data"), r)
  save session now r panic = (panic, r)
  save session now r (ok text) =
      let key = redis_key_prefix_sessions ++ session.sid in
      let answer = client.set key text (session.expires - now) now r in
      (wrap_err answer.0 (codes "Error while saving session into Redis"), answer.1)

  pub set : Session → ℕ → R → Result (Unit {0}) × R
  unfolding save
  set session now r = save session now r (json.marshal session)

  decode : ℕ → Result Session → Result (Option Session)
  decode now (err e) = wrap_err (err e) (codes "Error while decoding session data")
  decode now panic = panic
  decode now (ok session) = if ltb session.expires now then ok none else ok (some session)

  read : ℕ → Result (Option GoString) → Result (Option Session)
  unfolding decode
  read now (err e) = wrap_err (err e) (codes "Error while retrieving session data from Redis")
  read now panic = panic
  read now (ok none) = ok none
  read now (ok (some text)) = decode now (json.unmarshal text)

  pub get : GoString → ℕ → R → Result (Option Session) × R
  unfolding read
  get sid now r = (read now (client.get (redis_key_prefix_sessions ++ sid) now r), r)

  pub delete : GoString → R → Result (Unit {0}) × R
  delete sid r =
      let answer = client.del (redis_key_prefix_sessions ++ sid) r in
      (wrap_err answer.0 (codes "Error while deleting session from Redis"), answer.1)

  pub redis_session_store : SessionStore R
  redis_session_store = record { set = set; get = get; delete = delete }
