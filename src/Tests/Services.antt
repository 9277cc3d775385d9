-- ===== src/Tests/Services.antt =====
-- Tests of server/pkg/adminserver, over the memory stores.
use moblog_cloud.Prelude.{
  ◌⊎◌, codes, ok, err, panic, ◌≡◌, refl, true, false, some, none, ◌==◌, if◌then◌else◌, [], ◌∷◌,
  require_authentication, arith, inr,
}
use moblog_cloud.Prelude.GoMap
use moblog_cloud.UserStore.{validate_user, valid_alphanumeric}
use moblog_cloud.UserStore.Spec.{Account}
use moblog_cloud.UserStore.Memory.{
  MemoryUserStore, create_user, delete_user, memory_user_store, new_memory_user_store,
}
use moblog_cloud.UserStore.Memory.Contract.{memory_user_store-Contract}
use moblog_cloud.UserStore.Memory.Refinement.{view}
use moblog_cloud.SessionStore.Memory.{
  MemorySessionStore, memory_session_store, memory_session_store-Contract, live,
  new_memory_session_store,
}
use moblog_cloud.SessionStore.Memory
use moblog_cloud.AdminServer.{
  State, Call, Answer, nothing, users_delete, users_whoami, blogs_delete, dispatch,
}
use moblog_cloud.AdminServer.AuthSession.{with_session, reset_auth_cookie}
use moblog_cloud.AdminServer.Login.{logout_handler}
use moblog_cloud.AdminServer.Authorization.{
  needs_session, dispatch_session, dispatch-spares-account,
}
use moblog_cloud.AdminServer.Logout.{logout_panics, logout_session, delete_user-sessions}
use moblog_cloud.Http.{Cookie, zero_cookie, status_ok}
use moblog_cloud.AdminServer
use moblog_cloud.Tests.Fixtures.{
  in_order, users, users-IsWellFormed, sessions, annas_session, state, plain_cookies,
}
use mathlib.Core.List.Perm

abbrev annas_account : Account
annas_account = record { display_name = codes "Anna"; blogs = λ slug. GoMap.get GoMap.empty slug }

dispatch-spares-account_example :
    view
      (dispatch
        (memory_user_store in_order)
        memory_session_store
        (users_delete (codes "anna"))
        none
        state).1.users
      (codes "anna")
    ≡ some annas_account
unfolding view create_user new_memory_user_store validate_user valid_alphanumeric GoMap.get
    GoMap.put GoMap.empty ◌==◌
dispatch-spares-account_example =
    dispatch-spares-account (memory_user_store in_order) memory_session_store
      (memory_user_store-Contract in_order (λ blogs. Perm.refl blogs)) (codes "anna") annas_account
      none (λ no. no) (users_delete (codes "anna")) state users-IsWellFormed refl

dispatch_session_example :
    ((needs_session users_whoami ≡ true)
      × (dispatch (memory_user_store in_order) memory_session_store users_whoami none state
          ≡ (err require_authentication, state)))
    ⊎ ((needs_session users_whoami ≡ false)
        × (dispatch
              (memory_user_store in_order)
              memory_session_store
              users_whoami
              (some annas_session)
              state
            ≡ dispatch (memory_user_store in_order) memory_session_store users_whoami none state))
dispatch_session_example =
    dispatch_session (memory_user_store in_order) memory_session_store users_whoami
      (some annas_session) state

-- A cookie that names an identifier that was never given.
abbrev strangers_cookie : Cookie
strangers_cookie = record zero_cookie { name = codes "auth"; value = codes "s9" }

names_none :
    (plain_cookies.decode (codes "auth") (codes "s9") ≡ ok (record { session_id = codes "s9" }))
    × ((memory_session_store.get (codes "s9") 10 state.sessions).0 ≡ ok none)
    × (live state.sessions 10 (codes "s9") ≡ none)
unfolding memory_session_store Memory.get live GoMap.get ◌==◌ Memory.set GoMap.put
    new_memory_session_store GoMap.empty
names_none = (refl, refl, refl)

logout_panics_example :
    let (answer, st') =
      with_session plain_cookies memory_session_store false
        (logout_handler plain_cookies (memory_user_store in_order) memory_session_store)
        (some strangers_cookie)
        10
        state in
    (answer ≡ panic) × (live st'.sessions 20 (codes "s1") ≡ live sessions 20 (codes "s1"))
logout_panics_example =
    logout_panics plain_cookies (memory_user_store in_order) memory_session_store
      memory_session_store-Contract (some strangers_cookie) 10 state 20 (codes "s1") (omega arith)
      (omega arith)
      (inr
        (inr (strangers_cookie, codes "s9", none, refl, names_none.0, names_none.1, names_none.2)))

abbrev logged_out : State MemoryUserStore MemorySessionStore
logged_out = record state { sessions = (Memory.delete (codes "s1") sessions).1 }

logs_out :
    logout_handler plain_cookies
      (memory_user_store in_order)
      memory_session_store
      (some annas_session)
      state
    ≡ (ok (record { status = status_ok; cookies = reset_auth_cookie ∷ [] }), logged_out)
unfolding logout_handler memory_session_store Memory.delete
logs_out = refl

logout_session_example :
    live logged_out.sessions 10 (codes "s2")
    ≡ (if codes "s1" == codes "s2" then none else live sessions 10 (codes "s2"))
logout_session_example =
    logout_session plain_cookies (memory_user_store in_order) memory_session_store
      memory_session_store-Contract annas_session state logged_out 10 (codes "s2") logs_out

abbrev without_anna : State MemoryUserStore MemorySessionStore
without_anna = record {
  users = (delete_user (codes "anna") users).1;
  sessions = (Memory.delete (codes "s1") sessions).1;
}

deletes_anna :
    dispatch
      (memory_user_store in_order)
      memory_session_store
      (users_delete (codes "anna"))
      (some annas_session)
      state
    ≡ (ok nothing, without_anna)
unfolding dispatch AdminServer.delete_user memory_user_store memory_session_store Memory.delete
    delete_user create_user new_memory_user_store validate_user valid_alphanumeric GoMap.get
    GoMap.put GoMap.empty ◌==◌
deletes_anna = refl

delete_user-sessions_example :
    (annas_session.username ≡ codes "anna")
    × (view without_anna.users (codes "anna") ≡ none)
    × (live without_anna.sessions 10 (codes "s2")
        ≡ (if codes "s1" == codes "s2" then none else live sessions 10 (codes "s2")))
delete_user-sessions_example =
    delete_user-sessions (memory_user_store in_order) memory_session_store
      (memory_user_store-Contract in_order (λ blogs. Perm.refl blogs)) memory_session_store-Contract
      (codes "anna") annas_session state without_anna 10 (codes "s2") users-IsWellFormed
      deletes_anna
