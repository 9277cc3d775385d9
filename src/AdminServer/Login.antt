-- ===== src/AdminServer/Login.antt =====
-- server/pkg/adminserver/server.go: `loginHandler` and `logoutHandler`. The identifier that
-- `GenerateSessionID` makes and the time are arguments.
use moblog_cloud.Prelude.{
  ℕ, ◌+◌, ◌*◌, GoString, ◌==◌, Bool, true, false, ◌&&◌, Option, none, some, [], ◌∷◌, Result, ok,
  err, panic, if◌then◌else◌,
}
use moblog_cloud.UserStore.{UserStore}
use moblog_cloud.SessionStore.{Session, SessionStore}
use moblog_cloud.AdminServer.{State}
use moblog_cloud.AdminServer.AuthSession.{
  SecureCookie, HttpHandler, encode_auth_cookie, reset_auth_cookie,
}
use moblog_cloud.Http.{
  Cookie, Response, just, status_ok, status_bad_request, status_unauthorized,
  status_internal_server_error,
}

-- `time.Now().Add(30 * 24 * time.Hour)`
abbrev pub session_lifetime : ℕ
session_lifetime = 30 * 24 * 3600 * 1000000000

abbrev pub session_expiry_time : ℕ → ℕ
session_expiry_time now = now + session_lifetime

module _ {U S : Type 0} (sc : SecureCookie) (store : UserStore U)
    (session_store : SessionStore S) where
  abbrev pub answer_with : ℕ → Result Cookie → Result Response
  answer_with expires (err e) = ok (just status_internal_server_error)
  answer_with expires panic = panic
  answer_with expires (ok cookie) =
      ok (record { status = status_ok; cookies = record cookie { expires = expires } ∷ [] })

  abbrev pub after_set : Session → Result (Unit {0}) × S → State U S → Result Response × State U S
  after_set session (err e, s) st =
      (ok (just status_internal_server_error), record st { sessions = s })
  after_set session (panic, s) st = (panic, record st { sessions = s })
  after_set session (ok _, s) st = (
    answer_with session.expires (encode_auth_cookie sc (record { session_id = session.sid })),
    record st { sessions = s },
  )

  -- From `session.Expires = sessionExpiryTime()` to the end.
  unfoldable pub save_session : Session → ℕ → HttpHandler U S
  save_session session now st =
      let fresh : Session = record session { expires = session_expiry_time now } in
      after_set fresh (session_store.set fresh now st.sessions) st

  -- Session refresh with an existing cookie.
  abbrev pub refresh : Option Session → ℕ → HttpHandler U S
  refresh none now st = (ok (just status_unauthorized), st)
  refresh (some session) now st = save_session session now st

  -- What follows `AuthenticateUser`.
  abbrev pub enter : GoString → GoString → ℕ → Result Bool → HttpHandler U S
  enter username new_sid now (err e) st = (ok (just status_internal_server_error), st)
  enter username new_sid now panic st = (panic, st)
  enter username new_sid now (ok false) st = (ok (just status_unauthorized), st)
  enter username new_sid now (ok true) st =
      save_session (record { sid = new_sid; expires = 0; username = username }) now st

  -- `form` is the outcome of `r.ParseForm`, with the user name and the password of the form.
  unfoldable pub login_handler :
      Result (GoString × GoString) → GoString → ℕ → Option Session → HttpHandler U S
  login_handler (err e) new_sid now session st = (ok (just status_bad_request), st)
  login_handler panic new_sid now session st = (panic, st)
  login_handler (ok (username, password)) new_sid now session st =
      if username == [] && password == []
      then refresh session now st
      else enter username new_sid now (store.authenticate_user username password st.users) st

  abbrev pub logged_out : Result (Unit {0}) → Result Response
  logged_out (err e) = ok (just status_internal_server_error)
  logged_out panic = panic
  logged_out (ok _) = ok (record { status = status_ok; cookies = reset_auth_cookie ∷ [] })

  -- The session of the request is dereferenced with no test: without one the handler panics.
  unfoldable pub logout_handler : Option Session → HttpHandler U S
  logout_handler none st = (panic, st)
  logout_handler (some session) st =
      let answer = session_store.delete session.sid st.sessions in
      (logged_out answer.0, record st { sessions = answer.1 })
