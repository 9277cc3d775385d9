-- ===== src/SessionStore/Redis/Contract.antt =====
-- server/pkg/sessionstore/redissessionstore.go: the Redis store keeps the promises of the interface.
use moblog_cloud.Prelude.{
  ℕ, ◌+◌, ◌-◌, ◌≤◌, ◌<◌, GoString, ◌==◌, eq_iff, ◌++◌, Option, none, some, Result, ok, err, panic,
  wrap_err-eq-ok, ◌≡◌, ◌≢◌, refl, arith, if◌then◌else◌, ◌⊎◌, inl, inr, sym, ◌∙◌, ap, Bool-cases,
}
use moblog_cloud.SessionStore.{Session, Contract, Live, unexpired}
use moblog_cloud.SessionStore.Redis.{
  RedisClient, IsRedis, SessionJson, IsText, millisecond, redis_key_prefix_sessions, set, save, get,
  decode, read, delete, redis_session_store,
}

-- Keys are equal exactly when the identifiers are.
prefix-eq :
    (a b : GoString) → (redis_key_prefix_sessions ++ a == redis_key_prefix_sessions ++ b) ≡ (a == b)
unfolding ◌==◌
prefix-eq a b = refl

prefix-ne :
    (a b : GoString) → a ≢ b → redis_key_prefix_sessions ++ a ≢ redis_key_prefix_sessions ++ b
prefix-ne a b h e = h ((eq_iff a b).0 (sym (prefix-eq a b) ∙ (eq_iff _ _).1 e))

module _ {R : Type 0} (client : RedisClient R) (json : SessionJson)
    {value : R → ℕ → GoString → Option GoString} (redis : IsRedis client value) where
  abbrev decoded : ℕ → Result Session → Option Session
  decoded now (ok session) = unexpired now session
  decoded now _ = none

  abbrev decoded_text : ℕ → Option GoString → Option Session
  decoded_text now none = none
  decoded_text now (some text) = decoded now (json.unmarshal text)

  pub live : Live R
  live r now sid = decoded_text now (value r now (redis_key_prefix_sessions ++ sid))

  saves :
      (session : Session) (now : ℕ) (r : R) (later : ℕ) (m : Result GoString)
      → json.marshal session ≡ m
      → IsText session
      → now ≤ later
      → (later + millisecond ≤ session.expires) ⊎ (session.expires < later)
      → (save client json session now r m).0 ≡ ok tt
      → live (save client json session now r m).1 later session.sid ≡ unexpired later session
  unfolding save live
  saves session now r later (err x) m text_ok h window e = cc
  saves session now r later panic m text_ok h window e = cc
  saves session now r later (ok text) m text_ok h (inl before) e =
      let key = redis_key_prefix_sessions ++ session.sid in
      rw
        (
          redis.sets_fresh key text (session.expires - now) now r later (wrap_err-eq-ok _ _ e) h
              (inr (omega arith)),
          json.round_trip session text text_ok m,
        )
        refl
  saves session now r later (ok text) m text_ok h (inr after) e =
      let key = redis_key_prefix_sessions ++ session.sid in
      elim (redis.sets_stale key text (session.expires - now) now r later (wrap_err-eq-ok _ _ e)
        h) [
          | inl gone ↦ rw gone (ground arith)
          | inr there ↦ rw (there, json.round_trip session text text_ok m) refl
        ]

  save-keeps :
      (session : Session) (now : ℕ) (r : R) (later : ℕ) (sid : GoString) (m : Result GoString)
      → session.sid ≢ sid
      → live (save client json session now r m).1 later sid ≡ live r later sid
  unfolding save live
  save-keeps session now r later sid (err x) h = refl
  save-keeps session now r later sid panic h = refl
  save-keeps session now r later sid (ok text) h =
      ap (decoded_text later)
        (redis.sets_other _ text _ now r later _ (prefix-ne session.sid sid h))

  reads :
      (now : ℕ) (m : Result (Option GoString)) (held : Option GoString) (found : Option Session)
      → ((o : Option GoString) → m ≡ ok o → o ≡ held)
      → read client json now m ≡ ok found
      → found ≡ decoded_text now held
  unfolding read
  reads now (err x) held found h e = cc
  reads now panic held found h e = cc
  reads now (ok none) held found h e = rw (← h none refl) (ground arith)
  reads now (ok (some text)) held found h e =
      rw (← h (some text) refl) (reads_text (json.unmarshal text) e)
    where
      reads_text :
          (m : Result Session) → decode client json now m ≡ ok found → found ≡ decoded now m
      reads_text (ok session) e = ground arith
      reads_text (err x) e = cc
      reads_text panic e = cc

  live-delete :
      (sid : GoString) (r : R) (now : ℕ) (other : GoString)
      → (delete client json sid r).0 ≡ ok tt
      → live (delete client json sid r).1 now other
        ≡ (if sid == other then none else live r now other)
  unfolding delete live
  live-delete sid r now other e = elim (Bool-cases (sid == other)) [
    | inl same ↦
        rw
          (
            redis.dels _ r now (redis_key_prefix_sessions ++ other) (wrap_err-eq-ok _ _ e),
            prefix-eq sid other,
            same,
          )
          refl
    | inr differs ↦
        rw
          (
            redis.dels _ r now (redis_key_prefix_sessions ++ other) (wrap_err-eq-ok _ _ e),
            prefix-eq sid other,
            differs,
          )
          refl
  ]

  -- Over a Redis server and a JSON encoding that behave as documented, the Redis store keeps the
  -- promises of the interface for the sessions whose strings are valid UTF-8, but for the last millisecond before a session expires: Redis counts
  -- the time to live in whole milliseconds.
  pub redis_session_store-Contract :
      Contract (redis_session_store client json) live millisecond IsText
  unfolding redis_session_store set get live
  redis_session_store-Contract = record {
    sets = λ session now r later is_text _ _ h window e.
        saves session now r later _ refl is_text h window e;
    set_keeps = λ session now r later sid h _. save-keeps session now r later sid _ h;
    gets = λ sid now r found _ e. reads now _ _ found (redis.gets _ now r) e;
    get_keeps = λ sid now r later other _. refl;
    deletes = live-delete;
  }
