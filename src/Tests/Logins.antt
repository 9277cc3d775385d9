-- ===== src/Tests/Logins.antt =====
-- Tests of the logins of server/pkg/adminserver: the handler over the memory stores, and the client of it.
use moblog_cloud.Prelude.{
  codes, ok, err, ◌≡◌, refl, true, false, some, none, ◌==◌, inl, arith, [], ◌∷◌,
}
use moblog_cloud.Prelude.GoMap
use moblog_cloud.UserStore.{validate_user, valid_alphanumeric}
use moblog_cloud.UserStore.Memory.{
  MemoryUserStore, create_user, memory_user_store, new_memory_user_store, authenticate_user,
}
use moblog_cloud.SessionStore.{Session, unexpired}
use moblog_cloud.SessionStore.Memory.{
  MemorySessionStore, memory_session_store, memory_session_store-Contract, live,
  new_memory_session_store,
}
use moblog_cloud.SessionStore.Memory
use moblog_cloud.AdminServer.{State}
use moblog_cloud.AdminServer.AuthSession.{session_from_request, encode_auth_cookie}
use moblog_cloud.AdminServer.Login.{login_handler, session_expiry_time, save_session}
use moblog_cloud.AdminServer.Sessions.{Admits, Granted, refreshed}
use moblog_cloud.Http.{Cookie, status_ok}
use mathlib.Core.Option.{none-ne-some}
use moblog_cloud.Tests.Fixtures.{in_order, users, sessions, state, plain_cookies}
use moblog_cloud.AdminClient.{Client, NetLibrary, host_of, login}
use moblog_cloud.AdminClient.Sessions.{reply_of, client_login-session}
use moblog_cloud.RpcClient.{new}
use moblog_cloud.Prelude.{contains, message}
use moblog_cloud.Http.{zero_cookie, HttpClient, Response}

abbrev new_session : Session
new_session = record { sid = codes "s9"; expires = session_expiry_time 5; username = codes "anna" }

abbrev new_cookie : Cookie
new_cookie = record {
  name = codes "auth";
  value = codes "s9";
  path = codes "/";
  domain = [];
  expires = session_expiry_time 5;
  secure = false;
  http_only = true;
}

abbrev logged_in : State MemoryUserStore MemorySessionStore
logged_in = record state { sessions = (Memory.set new_session 5 sessions).1 }

grants :
    Granted plain_cookies (memory_user_store in_order) memory_session_store new_cookie logged_in (
      login_handler plain_cookies
        (memory_user_store in_order)
        memory_session_store
        (ok (codes "anna", codes "secret"))
        (codes "s9")
        5
        none
        state)
unfolding login_handler save_session encode_auth_cookie memory_user_store memory_session_store
    Memory.set authenticate_user create_user new_memory_user_store validate_user valid_alphanumeric
    GoMap.get GoMap.put GoMap.empty ◌==◌
grants = refl

shows_new_session :
    (session_from_request {U = MemoryUserStore} plain_cookies memory_session_store
      (some new_cookie)
      10
      logged_in).0
    ≡ ok (some new_session)
unfolding session_from_request memory_session_store Memory.set Memory.get GoMap.get GoMap.put ◌==◌
shows_new_session = refl

-- The server's answer to every request.
abbrev answer : Response
answer = record { status = status_ok; cookies = new_cookie ∷ [] }

abbrev server : HttpClient (Unit {0})
server = record {
  post = λ url type body n. (ok (reply_of answer []), n);
  set_cookies = λ url cookies n. n;
}

abbrev net : NetLibrary
net = record {
  url_parse = λ url. ok (record { host = codes "admin"; path = codes "/api" });
  split_host_port = λ host. err (message []);
  encode_values = λ values. [];
}

abbrev client : Client
client = record {
  url = codes "http://admin/api";
  rpc = new (codes "http://admin/api");
  auth_cookie = zero_cookie;
}

named : host_of net (codes "admin") ≡ ok (codes "admin")
unfolding contains
named = refl

shows_through_client :
    (session_from_request {U = MemoryUserStore} plain_cookies memory_session_store
      (some (login net server (codes "anna") (codes "secret") client tt).1.auth_cookie)
      10
      logged_in).0
    ≡ ok (some new_session)
unfolding login session_from_request memory_session_store Memory.set Memory.get GoMap.get GoMap.put
    ◌==◌ contains
shows_through_client = refl

client_login-session_example :
    (admitted : Session) × Admits plain_cookies
      (memory_user_store in_order)
      memory_session_store
      (codes "anna")
      (codes "secret")
      (codes "s9")
      none
      users
      admitted
    × (some new_session
        ≡ unexpired 10
            (refreshed plain_cookies (memory_user_store in_order) memory_session_store admitted 5))
client_login-session_example =
    client_login-session net client.url (record { host = codes "admin"; path = codes "/api" })
      (codes "admin") refl named plain_cookies (memory_user_store in_order) memory_session_store
      memory_session_store-Contract server (codes "anna") (codes "secret") (codes "s9") client tt 5
      none state logged_in answer [] 10 (some new_session) (λ admitted who. tt) (cc)
      (λ x e. absurd (none-ne-some x e)) (omega arith) (omega arith) (inl (omega arith)) refl grants
      refl refl shows_through_client
