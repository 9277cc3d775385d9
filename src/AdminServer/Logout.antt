-- ===== src/AdminServer/Logout.antt =====
-- server/pkg/adminserver/server.go: what ends a session, and what does not.
use moblog_cloud.Prelude.{
  ℕ, GoString, ◌==◌, eq_iff, false, Option, none, some, [], ◌∷◌, Result, ok, err, panic, ok-ne-err,
  Error, ◌<◌, ◌≤◌, ◌⊎◌, ◌≡◌, refl, ap, sym, ◌∙◌, arith, inl, inr, Bool-cases, if◌then◌else◌,
}
use moblog_cloud.UserStore.{UserStore}
use moblog_cloud.UserStore.Spec
use moblog_cloud.UserStore.Spec.{Accounts}
use moblog_cloud.UserStore.Spec.Frame.{Outcome-ok, delete_user-none}
use moblog_cloud.SessionStore.{Session, SessionStore, Contract, Live}
use moblog_cloud.AdminServer.{
  State, nothing, dispatch, reply, users_delete, delete_user, then_delete_session, on_users,
}
use moblog_cloud.AdminServer.AuthSession.{
  SecureCookie, auth_cookie_name, reset_auth_cookie, session_from_request, with_session,
}
use moblog_cloud.AdminServer.Login.{logged_out, logout_handler}
use moblog_cloud.Http.{Cookie, status_ok}

module _ {U S : Type 0} (sc : SecureCookie) (store : UserStore U)
    (session_store : SessionStore S) where
  succeeded :
      (r : Result (Unit {0}))
      → logged_out sc store session_store r
        ≡ ok (record { status = status_ok; cookies = reset_auth_cookie ∷ [] })
      → r ≡ ok tt
  succeeded (ok u) h = refl
  succeeded (err e) h = absurd (ground arith)
  succeeded panic h = cc

  module _ {live : Live S} {slack : ℕ} {Storable : Session → Type 0}
      (contract : Contract session_store live slack Storable) where
    -- A logout that succeeds ends the session of the request and no other.
    pub logout_session :
        (session : Session) (st st' : State U S) (now : ℕ) (other : GoString)
        → logout_handler sc store session_store (some session) st
          ≡ (ok (record { status = status_ok; cookies = reset_auth_cookie ∷ [] }), st')
        → live st'.sessions now other
          ≡ (if session.sid == other then none else live st.sessions now other)
    unfolding logout_handler
    logout_session session st st' now other h =
        ap (λ p. live p.1.sessions now other) (sym h)
        ∙ contract.deletes session.sid st.sessions now other (succeeded _ (ap (λ p. p.0) h))

    -- A cookie that gives a request no session: there is none, or it does not decode, or it names an
    -- identifier under which the session store answers and shows no session.
    abbrev pub GivesNone : Option Cookie → ℕ → State U S → Type 0
    GivesNone cookie now st =
        (cookie ≡ none)
        ⊎ ((c : Cookie) × (e : Error) × (cookie ≡ some c)
            × (sc.decode auth_cookie_name c.value ≡ err e))
        ⊎ ((c : Cookie) × (sid : GoString) × (found : Option Session) × (cookie ≡ some c)
            × (sc.decode auth_cookie_name c.value ≡ ok (record { session_id = sid }))
            × ((session_store.get sid now st.sessions).0 ≡ ok found)
            × (live st.sessions now sid ≡ none))

    -- A request to log out that comes with no cookie, with one that does not decode, or with one whose
    -- session the session store, which answers, no longer shows, makes the handler panic; every session stays as it was.
    pub logout_panics :
        (cookie : Option Cookie) (now : ℕ) (st : State U S) (later : ℕ) (other : GoString)
        → 0 < now
        → now ≤ later
        → GivesNone cookie now st
        → let (answer, st') =
            with_session sc session_store false
              (logout_handler sc store session_store)
              cookie
              now
              st in
          (answer ≡ panic) × (live st'.sessions later other ≡ live st.sessions later other)
    unfolding with_session session_from_request logout_handler
    logout_panics cookie now st later other h after (inl no_cookie) = rw no_cookie (refl, refl)
    logout_panics cookie now st later other h after (inr (inl (c, e, is, undecoded))) =
        rw (is, undecoded) (refl, refl)
    logout_panics cookie now st later other h after
          (inr (inr (c, sid, found, is, names, got, gone))) =
        let nothing_found : found ≡ none = contract.gets sid now st.sessions found h got ∙ gone in
        let got_none = got ∙ ap ok nothing_found in
        rw (is, names, got_none) (refl, contract.get_keeps sid now st.sessions later other after)

done_reply :
    {U S : Type 0} (r : Result (Unit {0}) × State U S) (st' : State U S)
    → reply (λ _. nothing) r ≡ (ok nothing, st')
    → r ≡ (ok tt, st')
done_reply (ok u, st) st' h = ap (λ p. (ok tt, p.1)) h
done_reply (err e, st) st' h = cc
done_reply (panic, st) st' h = cc

module _ {U S : Type 0} (store : UserStore U) (session_store : SessionStore S) where
  abbrev SessionDeleted : GoString → Result (Unit {0}) × State U S → State U S → Type 0
  SessionDeleted sid r st' =
      (r.0 ≡ ok tt)
      × ((session_store.delete sid r.1.sessions).0 ≡ ok tt)
      × (st' ≡ record r.1 { sessions = (session_store.delete sid r.1.sessions).1 })

  done_then_delete :
      (sid : GoString) (r : Result (Unit {0}) × State U S) (st' : State U S)
      → then_delete_session store session_store sid r ≡ (ok tt, st')
      → SessionDeleted sid r st'
  done_then_delete sid (err e, st) st' h = cc
  done_then_delete sid (panic, st) st' h = cc
  done_then_delete sid (ok u, st) st' h = (refl, ap (λ p. p.0) h, ap (λ p. p.1) (sym h))

  done_delete_user :
      (session : Session) (name : GoString) (st st' : State U S)
      → delete_user store session_store (some session) name st ≡ (ok tt, st')
      → (session.username ≡ name)
        × SessionDeleted session.sid (on_users (store.delete_user name) st) st'
  unfolding delete_user
  done_delete_user session name st st' h = elim (Bool-cases (session.username == name)) [
    | inl same ↦
        ((eq_iff session.username name).0 same, done_then_delete session.sid _ st' (rw same at h))
    | inr differs ↦ absurd (ok-ne-err (sym (ap (λ p. p.0) (rw differs at h))))
  ]

  module _ {Inv : U → Type 0} {view : U → Accounts} (users : Spec.Contract store Inv view)
      {live : Live S} {slack : ℕ} {Storable : Session → Type 0}
      (sessions : Contract session_store live slack Storable) where
    -- `Users.Delete`, where it succeeds, is called with a session of the user itself; it removes
    -- the account and ends the session of the request, and every other session stays as it was,
    -- those of the deleted user among them.
    pub delete_user-sessions :
        (name : GoString) (session : Session) (st st' : State U S) (now : ℕ) (other : GoString)
        → Inv st.users
        → dispatch store session_store (users_delete name) (some session) st ≡ (ok nothing, st')
        → (session.username ≡ name)
          × (view st'.users name ≡ none)
          × (live st'.sessions now other
              ≡ (if session.sid == other then none else live st.sessions now other))
    unfolding dispatch
    delete_user-sessions name session st st' now other inv h =
        let (same, deleted) = done_delete_user session name st st' (done_reply _ st' h) in
        let (done, ended, after) = deleted in
        let (a, spec, accounts) =
          Outcome-ok view st.users _ _ (users.deletes name st.users inv).1 done in
        (
          same,
          ap (λ t. view t.users name) after ∙ accounts name ∙ delete_user-none name _ a spec,
          ap (λ t. live t.sessions now other) after
              ∙ sessions.deletes session.sid st.sessions now other ended,
        )
