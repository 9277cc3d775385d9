-- ===== src/AdminServer.antt =====
-- server/pkg/adminserver: the state behind the server, and the services that its JSON-RPC calls
-- reach (server.go). Logging is not modelled. A method whose argument pointer may be nil takes an
-- `Option`; `SessionFromContext` is the argument `session`.
pub mod AuthSession
pub mod Login
pub mod Keeps
pub mod Authorization
pub mod Sessions
pub mod Logout
use moblog_cloud.Prelude.{
  GoString, ◌==◌, Bool, true, false, not, Option, none, some, List, [], Result, ok, err, panic,
  Error, invalid_parameter, require_authentication, get_unknown_user, update_invalid_user,
  delete_invalid_user, unknown_blog, if◌then◌else◌,
}
use moblog_cloud.UserStore.{User, Blog, UserStore}
use moblog_cloud.SessionStore.{Session, SessionStore}

pub record State (U S : Type 0) : Type 0 where
  pub users : U
  pub sessions : S

abbrev pub Handler : Type 0 → Type 0 → Type 0 → Type 0
Handler U S A = State U S → Result A × State U S

-- A call of the user store, in the server's state.
abbrev pub on_users : {U S A : Type 0} → (U → Result A × U) → Handler U S A
on_users call st = let answer = call st.users in (answer.0, record st { users = answer.1 })

-- The error of a lookup, or the given one where it finds nothing.
abbrev or_error : {A : Type 0} → Error → Result (Option A) → Result A
or_error missing (err e) = err e
or_error missing panic = panic
or_error missing (ok none) = err missing
or_error missing (ok (some a)) = ok a

-- `args.Username`, or the session's where that is empty.
abbrev blog_owner : Option Session → GoString → Result GoString
blog_owner session [] = elim session [ none ↦ err require_authentication | some x ↦ ok x.username ]
blog_owner session username = ok username

module _ {U S : Type 0} (store : UserStore U) where
  module _ (session_store : SessionStore S) where
    abbrev then_delete_session :
        GoString → Result (Unit {0}) × State U S → Result (Unit {0}) × State U S
    then_delete_session sid (err e, st) = (err e, st)
    then_delete_session sid (panic, st) = (panic, st)
    then_delete_session sid (ok _, st) =
        let answer = session_store.delete sid st.sessions in
        (answer.0, record st { sessions = answer.1 })

    unfoldable pub delete_user : Option Session → GoString → Handler U S (Unit {0})
    delete_user none username st = (err require_authentication, st)
    delete_user (some session) username st =
        if not (session.username == username)
        then (err delete_invalid_user, st)
        else then_delete_session session.sid (on_users (store.delete_user username) st)

  unfoldable pub create_user : Option User → Handler U S (Unit {0})
  create_user none st = (err invalid_parameter, st)
  create_user (some user) st = on_users (store.create_user user) st

  unfoldable pub update_user : Option Session → Option User → Handler U S (Unit {0})
  update_user none user st = (err require_authentication, st)
  update_user (some session) none st = (err invalid_parameter, st)
  update_user (some session) (some user) st =
      if not (session.username == user.username)
      then (err update_invalid_user, st)
      else on_users (store.update_user user) st

  unfoldable pub get_user : GoString → Handler U S User
  get_user username st = (or_error get_unknown_user (store.get_user username st.users), st)

  unfoldable pub whoami : Option Session → Handler U S User
  unfolding get_user
  whoami none st = (err require_authentication, st)
  whoami (some session) st = get_user session.username st

  unfoldable pub create_blog : Option Session → Option Blog → Handler U S (Unit {0})
  create_blog none blog st = (err require_authentication, st)
  create_blog (some session) none st = (err invalid_parameter, st)
  create_blog (some session) (some blog) st = on_users (store.add_blog session.username blog) st

  unfoldable pub update_blog : Option Session → Option Blog → Handler U S (Unit {0})
  update_blog none blog st = (err require_authentication, st)
  update_blog (some session) none st = (err invalid_parameter, st)
  update_blog (some session) (some blog) st = on_users (store.update_blog session.username blog) st

  abbrev get_owned_blog : Result GoString → GoString → Handler U S Blog
  get_owned_blog (err e) slug st = (err e, st)
  get_owned_blog panic slug st = (panic, st)
  get_owned_blog (ok username) slug st =
      (or_error unknown_blog (store.get_blog username slug st.users), st)

  unfoldable pub get_blog : Option Session → GoString → GoString → Handler U S Blog
  get_blog session username slug = get_owned_blog (blog_owner session username) slug

  unfoldable pub list_blogs : Option Session → Handler U S (List Blog)
  list_blogs none st = (err require_authentication, st)
  list_blogs (some session) st = (store.list_blogs session.username st.users, st)

  unfoldable pub delete_blog : Option Session → GoString → Handler U S (Unit {0})
  delete_blog none slug st = (err require_authentication, st)
  delete_blog (some session) slug st = on_users (store.delete_blog session.username slug) st

-- The methods that the RPC server registers.
pub data Call : Type 0 where
  users_create users_update : Option User → Call
  users_get users_delete : GoString → Call
  users_whoami blogs_list : Call
  blogs_create blogs_update : Option Blog → Call
  blogs_get : GoString → GoString → Call
  blogs_delete : GoString → Call

-- What a call replies with.
pub data Answer : Type 0 where
  nothing : Answer
  a_user : User → Answer
  a_blog : Blog → Answer
  some_blogs : List Blog → Answer

abbrev reply {ℓ} : {A B : Type ℓ} {T : Type ℓ} → (A → B) → Result A × T → Result B × T
reply f (ok a, st) = (ok (f a), st)
reply f (err e, st) = (err e, st)
reply f (panic, st) = (panic, st)

-- The service method that a call reaches, with the session of its request.
module _ {U S : Type 0} (store : UserStore U) (session_store : SessionStore S) where
  unfoldable pub dispatch : Call → Option Session → Handler U S Answer
  dispatch (users_create user) session st = reply (λ _. nothing) (create_user store user st)
  dispatch (users_update user) session st = reply (λ _. nothing) (update_user store session user st)
  dispatch (users_get username) session st = reply a_user (get_user store username st)
  dispatch (users_delete username) session st =
      reply (λ _. nothing) (delete_user store session_store session username st)
  dispatch users_whoami session st = reply a_user (whoami store session st)
  dispatch blogs_list session st = reply some_blogs (list_blogs store session st)
  dispatch (blogs_create blog) session st = reply (λ _. nothing) (create_blog store session blog st)
  dispatch (blogs_update blog) session st = reply (λ _. nothing) (update_blog store session blog st)
  dispatch (blogs_get username slug) session st =
      reply a_blog (get_blog store session username slug st)
  dispatch (blogs_delete slug) session st = reply (λ _. nothing) (delete_blog store session slug st)
