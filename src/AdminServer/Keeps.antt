-- ===== src/AdminServer/Keeps.antt =====
-- server/pkg/adminserver/server.go: what the store methods that a request may reach
-- keep, the request keeps, call by call.
use moblog_cloud.Prelude.{
  GoString, ◌==◌, eq_iff, Option, none, some, Result, ok, err, panic, ◌≡◌, refl, Bool-cases, inl,
  inr, [], ◌∷◌,
}
use moblog_cloud.UserStore.{UserStore, User, Blog}
use moblog_cloud.SessionStore.{Session, SessionStore}
use moblog_cloud.AdminServer.{
  State, Call, users_create, users_update, users_get, users_delete, users_whoami, blogs_list,
  blogs_create, blogs_update, blogs_get, blogs_delete, dispatch, reply, then_delete_session,
  create_user, update_user, get_user, whoami, delete_user, create_blog, update_blog, get_blog,
  list_blogs, delete_blog,
}

-- The request comes with a session of the user `name`.
abbrev pub ActsAs : Option Session → GoString → Type 0
ActsAs none name = ⊥
ActsAs (some session) name = session.username ≡ name

module _ {U S : Type 0} (P : U → Type 0) where
  keeps_reply :
      {A B : Type 0} (f : A → B) (r : Result A × State U S) → P r.1.users → P (reply f r).1.users
  keeps_reply f (ok a, st) h = h
  keeps_reply f (err e, st) h = h
  keeps_reply f (panic, st) h = h

  keeps_then_delete_session :
      (store : UserStore U) (session_store : SessionStore S) (sid : GoString)
      (r : Result (Unit {0}) × State U S)
      → P r.1.users
      → P (then_delete_session store session_store sid r).1.users
  keeps_then_delete_session store session_store sid (ok a, st) h = h
  keeps_then_delete_session store session_store sid (err e, st) h = h
  keeps_then_delete_session store session_store sid (panic, st) h = h

-- The methods of the store that a request with this session may reach keep `P`.
pub record MethodsKeep {U : Type 0} (store : UserStore U) (session : Option Session)
    (P : U → Type 0) : Type 0 where
  pub creates : (user : User) (u : U) → P u → P (store.create_user user u).1
  pub updates :
      (user : User) (u : U) → ActsAs session user.username → P u → P (store.update_user user u).1
  pub deletes :
      (name : GoString) (u : U) → ActsAs session name → P u → P (store.delete_user name u).1
  pub adds_blog :
      (name : GoString) (blog : Blog) (u : U)
      → ActsAs session name
      → P u
      → P (store.add_blog name blog u).1
  pub updates_blog :
      (name : GoString) (blog : Blog) (u : U)
      → ActsAs session name
      → P u
      → P (store.update_blog name blog u).1
  pub deletes_blog :
      (name slug : GoString) (u : U)
      → ActsAs session name
      → P u
      → P (store.delete_blog name slug u).1

module _ {U S : Type 0} (store : UserStore U) (session_store : SessionStore S)
    (P : U → Type 0) where
  keeps_update_user :
      (session : Option Session)
      → MethodsKeep store session P
      → (user : Option User) (st : State U S) → P st.users
      → P (update_user store session user st).1.users
  unfolding update_user
  keeps_update_user none k user st h = h
  keeps_update_user (some x) k none st h = h
  keeps_update_user (some x) k (some user) st h = elim (Bool-cases (x.username == user.username)) [
    | inl same ↦ rw same (k.updates user st.users ((eq_iff x.username user.username).0 same) h)
    | inr differs ↦ rw differs h
  ]

  keeps_delete_user :
      (session : Option Session)
      → MethodsKeep store session P
      → (name : GoString) (st : State U S) → P st.users
      → P (delete_user store session_store session name st).1.users
  unfolding delete_user
  keeps_delete_user none k name st h = h
  keeps_delete_user (some x) k name st h = elim (Bool-cases (x.username == name)) [
    | inl same ↦ rw same (
        keeps_then_delete_session P store session_store x.sid _
          (k.deletes name st.users ((eq_iff x.username name).0 same) h))
    | inr differs ↦ rw differs h
  ]

  keeps_blogs_get :
      (session : Option Session) (name slug : GoString) (st : State U S)
      → P st.users
      → P (get_blog store session name slug st).1.users
  unfolding get_blog
  keeps_blogs_get none [] slug st h = h
  keeps_blogs_get (some x) [] slug st h = h
  keeps_blogs_get session (c ∷ name) slug st h = h

  keeps_whoami :
      (session : Option Session) (st : State U S) → P st.users → P (whoami store session st).1.users
  unfolding whoami
  keeps_whoami none st h = h
  keeps_whoami (some x) st h = h

  keeps_list_blogs :
      (session : Option Session) (st : State U S)
      → P st.users
      → P (list_blogs store session st).1.users
  unfolding list_blogs
  keeps_list_blogs none st h = h
  keeps_list_blogs (some x) st h = h

  keeps_create_blog :
      (session : Option Session)
      → MethodsKeep store session P
      → (blog : Option Blog) (st : State U S) → P st.users
      → P (create_blog store session blog st).1.users
  unfolding create_blog
  keeps_create_blog none k blog st h = h
  keeps_create_blog (some x) k none st h = h
  keeps_create_blog (some x) k (some blog) st h = k.adds_blog x.username blog st.users refl h

  keeps_update_blog :
      (session : Option Session)
      → MethodsKeep store session P
      → (blog : Option Blog) (st : State U S) → P st.users
      → P (update_blog store session blog st).1.users
  unfolding update_blog
  keeps_update_blog none k blog st h = h
  keeps_update_blog (some x) k none st h = h
  keeps_update_blog (some x) k (some blog) st h = k.updates_blog x.username blog st.users refl h

  keeps_delete_blog :
      (session : Option Session)
      → MethodsKeep store session P
      → (slug : GoString) (st : State U S) → P st.users
      → P (delete_blog store session slug st).1.users
  unfolding delete_blog
  keeps_delete_blog none k slug st h = h
  keeps_delete_blog (some x) k slug st h = k.deletes_blog x.username slug st.users refl h

  pub keeps_dispatch :
      (call : Call) (session : Option Session)
      → MethodsKeep store session P
      → (st : State U S) → P st.users
      → P (dispatch store session_store call session st).1.users
  unfolding dispatch create_user get_user
  keeps_dispatch (users_create none) session k st h = h
  keeps_dispatch (users_create (some user)) session k st h =
      keeps_reply P _ _ (k.creates user st.users h)
  keeps_dispatch (users_update user) session k st h =
      keeps_reply P _ _ (keeps_update_user session k user st h)
  keeps_dispatch (users_get name) session k st h = keeps_reply P _ _ h
  keeps_dispatch (users_delete name) session k st h =
      keeps_reply P _ _ (keeps_delete_user session k name st h)
  keeps_dispatch users_whoami session k st h = keeps_reply P _ _ (keeps_whoami session st h)
  keeps_dispatch blogs_list session k st h = keeps_reply P _ _ (keeps_list_blogs session st h)
  keeps_dispatch (blogs_create blog) session k st h =
      keeps_reply P _ _ (keeps_create_blog session k blog st h)
  keeps_dispatch (blogs_update blog) session k st h =
      keeps_reply P _ _ (keeps_update_blog session k blog st h)
  keeps_dispatch (blogs_get name slug) session k st h =
      keeps_reply P _ _ (keeps_blogs_get session name slug st h)
  keeps_dispatch (blogs_delete slug) session k st h =
      keeps_reply P _ _ (keeps_delete_blog session k slug st h)
