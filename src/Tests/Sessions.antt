-- ===== src/Tests/Sessions.antt =====
-- Tests of server/pkg/sessionstore/redissessionstore.go, over a server that keeps everything and a
-- plain encoding of sessions.
use moblog_cloud.Prelude.{
  ℕ, suc, zero, GoString, [], ◌∷◌, ◌++◌, Option, Result, ok, err, panic, message, ◌≡◌, refl, ap,
  sym, ◌∙◌, inr, arith, eq_iff,
}
use moblog_cloud.Prelude.GoMap
use moblog_cloud.Prelude.GoMap.{GoMap, get-put, get-delete}
use moblog_cloud.SessionStore.{Session, Contract}
use moblog_cloud.SessionStore.Redis.{
  RedisClient, IsRedis, SessionJson, IsText, millisecond, redis_session_store,
}
use moblog_cloud.SessionStore.Redis.Contract.{live, redis_session_store-Contract}

abbrev keeping_redis : RedisClient (GoMap GoString)
keeping_redis = record {
  set = λ key text expiration now r. (ok tt, GoMap.put r key text);
  get = λ key now r. ok (GoMap.get r key);
  del = λ key r. (ok tt, GoMap.delete r key);
}

abbrev kept : GoMap GoString → ℕ → GoString → Option GoString
kept r now key = GoMap.get r key

keeping_redis-IsRedis : IsRedis keeping_redis kept
keeping_redis-IsRedis = record {
  gets = λ key now r found e. ground arith;
  sets_fresh = λ key text expiration now r later e h h'.
      ground (arith, get-put r key text key, eq_iff key key);
  sets_stale = λ key text expiration now r later e h.
      inr (ground (arith, get-put r key text key, eq_iff key key));
  sets_other = λ key text expiration now r later other h.
      ground (arith, get-put r key text other, eq_iff key other);
  dels = λ key r now other e. get-delete r key other;
}

abbrev shifted : GoString → GoString
shifted [] = []
shifted (c ∷ s) = suc c ∷ shifted s

abbrev starting : ℕ → GoString × GoString → GoString × GoString
starting c (s, rest) = (c ∷ s, rest)

abbrev split_mark : GoString → GoString × GoString
split_mark [] = ([], [])
split_mark (zero ∷ s) = ([], s)
split_mark (suc c ∷ s) = starting c (split_mark s)

split_mark-shifted : (s rest : GoString) → split_mark (shifted s ++ 0 ∷ rest) ≡ (s, rest)
split_mark-shifted [] rest = refl
split_mark-shifted (c ∷ s) rest = ap (starting c) (split_mark-shifted s rest)

abbrev marshalled : Session → GoString
marshalled session = session.expires ∷ (shifted session.sid ++ 0 ∷ session.username)

abbrev session_of : ℕ → GoString × GoString → Session
session_of expires (sid, username) = record { sid = sid; expires = expires; username = username }

abbrev unmarshalled : GoString → Result Session
unmarshalled [] = err (message [])
unmarshalled (expires ∷ s) = ok (session_of expires (split_mark s))

abbrev plain_json : SessionJson
plain_json = record {
  marshal = λ session. ok (marshalled session);
  unmarshal = unmarshalled;
  round_trip = λ session text _ h.
      sym (ap opened h)
      ∙ ap (λ p. ok (session_of session.expires p))
          (split_mark-shifted session.sid session.username);
}
  where
    opened : Result GoString → Result Session
    opened (ok text) = unmarshalled text
    opened _ = panic

redis_session_store-Contract_example :
    Contract
      (redis_session_store keeping_redis plain_json)
      (live keeping_redis plain_json keeping_redis-IsRedis)
      millisecond
      IsText
redis_session_store-Contract_example =
    redis_session_store-Contract keeping_redis plain_json keeping_redis-IsRedis
