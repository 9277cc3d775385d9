-- ===== src/AdminServer/Authorization.antt =====
-- server/pkg/adminserver/server.go: what a call may do with the session of its request.
use moblog_cloud.Prelude.{
  inr, inl, ◌⊎◌, GoString, Bool, true, false, Option, none, some, err, require_authentication, ◌≡◌,
  ◌≢◌, refl, ◌∙◌, [], ◌∷◌, subst,
}
use moblog_cloud.UserStore.{UserStore}
use moblog_cloud.UserStore.Spec.{Account, Accounts, Contract}
use moblog_cloud.UserStore.Spec.Frame.{
  Outcome-Spares, create_user-Spares, update_user-Spares, delete_user-Spares, add_blog-Spares,
  update_blog-Spares, delete_blog-Spares,
}
use moblog_cloud.SessionStore.{Session, SessionStore}
use moblog_cloud.AdminServer.Keeps.{ActsAs, MethodsKeep, keeps_dispatch}
use moblog_cloud.AdminServer.{
  State, Call, users_create, users_get, blogs_get, dispatch, create_user, update_user, get_user,
  whoami, delete_user, create_blog, update_blog, get_blog, list_blogs, delete_blog,
}

-- The calls that admin_api.md and server.go reserve to a user with a session.
abbrev pub needs_session : Call → Bool
needs_session (users_create user) = false
needs_session (users_get name) = false
needs_session (blogs_get [] slug) = true
needs_session (blogs_get (c ∷ name) slug) = false
needs_session _ = true

-- A call without a session does nothing where it needs one, and where it needs none the session
-- makes no difference.
pub dispatch_session :
    {U S : Type 0} (store : UserStore U) (session_store : SessionStore S) (call : Call)
    (session : Option Session) (st : State U S)
    → ((needs_session call ≡ true)
        × (dispatch store session_store call none st ≡ (err require_authentication, st)))
      ⊎ ((needs_session call ≡ false)
          × (dispatch store session_store call session st
              ≡ dispatch store session_store call none st))
unfolding dispatch create_user update_user get_user whoami delete_user create_blog update_blog
    get_blog list_blogs delete_blog
dispatch_session store session_store (users_create user) session st = inr (refl, refl)
dispatch_session store session_store (users_get name) session st = inr (refl, refl)
dispatch_session store session_store (blogs_get [] slug) session st = inl (refl, refl)
dispatch_session store session_store (blogs_get (c ∷ name) slug) session st = inr (refl, refl)
dispatch_session store session_store _ session st = inl (refl, refl)

module _ {U S : Type 0} (store : UserStore U) (session_store : SessionStore S) {Inv : U → Type 0}
    {view : U → Accounts} (contract : Contract store Inv view) where
  -- Every call leaves the user store well-formed.
  pub dispatch-Inv :
      (call : Call) (session : Option Session) (st : State U S)
      → Inv st.users
      → Inv (dispatch store session_store call session st).1.users
  dispatch-Inv call session st =
      keeps_dispatch store session_store Inv call session
        (record {
          creates = λ user u h. (contract.creates user u h).0;
          updates = λ user u _ h. (contract.updates user u h).0;
          deletes = λ name u _ h. (contract.deletes name u h).0;
          adds_blog = λ name blog u _ h. (contract.adds_blog name blog u h).0;
          updates_blog = λ name blog u _ h. (contract.updates_blog name blog u h).0;
          deletes_blog = λ name slug u _ h. (contract.deletes_blog name slug u h).0;
        })
        st

  module _ (name : GoString) (account : Account) (session : Option Session)
      (stranger : ¬ ActsAs session name) where
    abbrev Holds : U → Type 0
    Holds u = Inv u × (view u name ≡ some account)

    other_owner : (owner : GoString) → ActsAs session owner → owner ≢ name
    other_owner owner acts same = stranger (subst (ActsAs session) same acts)

    stranger-MethodsKeep : MethodsKeep store session Holds
    stranger-MethodsKeep = record {
      creates = λ user u h.
          let (inv, outcome) = contract.creates user u h.0 in
          (
            inv,
            Outcome-Spares view u _ _ name outcome (create_user-Spares user name (view u) h.1)
                ∙ h.1,
          );
      updates = λ user u acts h.
          let (inv, outcome) = contract.updates user u h.0 in
          (
            inv,
            Outcome-Spares view u _ _ name outcome
                  (update_user-Spares user name (view u) (other_owner _ acts))
                ∙ h.1,
          );
      deletes = λ owner u acts h.
          let (inv, outcome) = contract.deletes owner u h.0 in
          (
            inv,
            Outcome-Spares view u _ _ name outcome
                  (delete_user-Spares owner name (view u) (other_owner _ acts))
                ∙ h.1,
          );
      adds_blog = λ owner blog u acts h.
          let (inv, outcome) = contract.adds_blog owner blog u h.0 in
          (
            inv,
            Outcome-Spares view u _ _ name outcome
                  (add_blog-Spares owner name (view u) (other_owner _ acts) blog)
                ∙ h.1,
          );
      updates_blog = λ owner blog u acts h.
          let (inv, outcome) = contract.updates_blog owner blog u h.0 in
          (
            inv,
            Outcome-Spares view u _ _ name outcome
                  (update_blog-Spares owner name (view u) (other_owner _ acts) blog)
                ∙ h.1,
          );
      deletes_blog = λ owner slug u acts h.
          let (inv, outcome) = contract.deletes_blog owner slug u h.0 in
          (
            inv,
            Outcome-Spares view u _ _ name outcome
                  (delete_blog-Spares owner name (view u) (other_owner _ acts) slug)
                ∙ h.1,
          );
    }

    -- Over any user store that keeps the promises of the interface: a call whose request has no
    -- session of the user leaves the user's account as it is, whatever the call and its arguments.
    pub dispatch-spares-account :
        (call : Call) (st : State U S)
        → Inv st.users
        → view st.users name ≡ some account
        → view (dispatch store session_store call session st).1.users name ≡ some account
    dispatch-spares-account call st inv there =
        (keeps_dispatch store session_store Holds call session stranger-MethodsKeep st
          (inv, there)).1
