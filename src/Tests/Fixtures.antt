-- ===== src/Tests/Fixtures.antt =====
-- The data of the tests.
use moblog_cloud.Prelude.{GoString, codes, Result, ok, ap, sym, List, []}
use moblog_cloud.UserStore.{User, Blog}
use moblog_cloud.UserStore.Memory.{MemoryUserStore, new_memory_user_store, create_user}
use moblog_cloud.UserStore.Memory.Invariant.{IsWellFormed, new_memory_user_store-IsWellFormed}
use moblog_cloud.UserStore.Memory.Refinement.{create_user-Does}
use moblog_cloud.SessionStore.{Session}
use moblog_cloud.SessionStore.Memory.{MemorySessionStore, new_memory_session_store}
use moblog_cloud.SessionStore.Memory
use moblog_cloud.AdminServer.{State}
use moblog_cloud.AdminServer.AuthSession.{AuthCookie, SecureCookie}

abbrev pub in_order : List Blog → List Blog
in_order blogs = blogs

abbrev pub anna : User
anna = record { username = codes "anna"; password = codes "secret"; display_name = codes "Anna" }

abbrev pub travel : Blog
travel = record { slug = codes "travel"; display_name = codes "Travels" }

abbrev pub users : MemoryUserStore
users = (create_user anna new_memory_user_store).1

pub users-IsWellFormed : IsWellFormed users
users-IsWellFormed =
    (create_user-Does new_memory_user_store new_memory_user_store-IsWellFormed anna).0

abbrev pub annas_session : Session
annas_session = record { sid = codes "s1"; expires = 100; username = codes "anna" }

abbrev pub sessions : MemorySessionStore
sessions = (Memory.set annas_session 5 new_memory_session_store).1

abbrev pub state : State MemoryUserStore MemorySessionStore
state = record { users = users; sessions = sessions }

abbrev pub plain_cookies : SecureCookie
plain_cookies = record {
  encode = λ name cookie. ok cookie.session_id;
  decode = λ name text. ok (record { session_id = text });
  round_trip = λ name cookie text h. sym (ap decoded h);
}
  where
    decoded : Result GoString → Result AuthCookie
    decoded (ok text) = ok (record { session_id = text })
    decoded _ = ok (record { session_id = [] })
