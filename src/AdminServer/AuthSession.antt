-- ===== src/AdminServer/AuthSession.antt =====
-- server/pkg/adminserver/session.go: the authentication cookie, and the session of a request. The
-- secure cookie library is the parameter `secure_cookie`; Go's `Request.Cookie` fails only where
-- there is no cookie of the name, so the cookie of a request is an `Option`.
use moblog_cloud.Prelude.{
  ℕ, ◌*◌, GoString, codes, Bool, true, false, Option, none, some, [], Result, ok, err, panic,
  wrap_err, ◌≡◌, if◌then◌else◌,
}
use moblog_cloud.SessionStore.{Session, SessionStore}
use moblog_cloud.AdminServer.{State}
use moblog_cloud.Http.{Cookie, Response, just, status_unauthorized, status_internal_server_error}

abbrev pub auth_cookie_name : GoString
auth_cookie_name = codes "auth"

pub record AuthCookie : Type 0 where
  pub session_id : GoString

-- `securecookie.SecureCookie`: what it encodes it decodes, under the same name.
pub record SecureCookie : Type 0 where
  pub encode : GoString → AuthCookie → Result GoString
  pub decode : GoString → GoString → Result AuthCookie
  pub round_trip :
      (name : GoString) (cookie : AuthCookie) (text : GoString)
      → encode name cookie ≡ ok text
      → decode name text ≡ ok cookie

abbrev pub auth_cookie_of : Result GoString → Result Cookie
auth_cookie_of (err e) = wrap_err (err e) (codes "Error while encoding auth cookie")
auth_cookie_of panic = panic
auth_cookie_of (ok encoded) = ok (record {
  name = auth_cookie_name;
  value = encoded;
  path = codes "/";
  domain = [];
  expires = 0;
  secure = false;
  http_only = true;
})

unfoldable pub encode_auth_cookie : SecureCookie → AuthCookie → Result Cookie
encode_auth_cookie sc cookie = auth_cookie_of (sc.encode auth_cookie_name cookie)

-- `time.Unix(0, 0)` in nanoseconds since the zero time: 1969 years, or 719162 days.
abbrev pub unix_epoch : ℕ
unix_epoch = 719162 * 86400 * 1000000000

unfoldable pub reset_auth_cookie : Cookie
reset_auth_cookie = record {
  name = auth_cookie_name;
  value = [];
  path = codes "/";
  domain = [];
  expires = unix_epoch;
  secure = false;
  http_only = true;
}

-- A handler of requests: it answers or panics, and may change the state.
abbrev pub HttpHandler : Type 0 → Type 0 → Type 0
HttpHandler U S = State U S → Result Response × State U S

module _ {U S : Type 0} (sc : SecureCookie) (session_store : SessionStore S) where
  abbrev pub session_of : ℕ → State U S → Result AuthCookie → Result (Option Session) × State U S
  session_of now st (err e) = (ok none, st)
  session_of now st panic = (panic, st)
  session_of now st (ok decoded) =
      let answer = session_store.get decoded.session_id now st.sessions in
      (
        wrap_err answer.0 (codes "Error while retrieving session"),
        record st { sessions = answer.1 },
      )

  unfoldable pub session_from_request :
      Option Cookie → ℕ → State U S → Result (Option Session) × State U S
  session_from_request none now st = (ok none, st)
  session_from_request (some cookie) now st =
      session_of now st (sc.decode auth_cookie_name cookie.value)

  abbrev pub serve_with :
      Bool
      → (Option Session → HttpHandler U S)
      → Result (Option Session) × State U S
      → Result Response × State U S
  serve_with require_auth handler (err e, st) = (ok (just status_internal_server_error), st)
  serve_with require_auth handler (panic, st) = (panic, st)
  serve_with require_auth handler (ok none, st) =
      if require_auth then (ok (just status_unauthorized), st) else handler none st
  serve_with require_auth handler (ok (some session), st) = handler (some session) st

  -- `WithSession`: the handler runs with the session of the request's cookie.
  unfoldable pub with_session :
      Bool → (Option Session → HttpHandler U S) → Option Cookie → ℕ → HttpHandler U S
  unfolding session_from_request
  with_session require_auth handler cookie now st =
      serve_with require_auth handler (session_from_request cookie now st)
