-- ===== src/Http.antt =====
-- What the program uses of Go's `net/http` and `net/url`: cookies, the answer of a handler, URLs, and
-- the client, whose network and cookie jar are a state.
use moblog_cloud.Prelude.{ℕ, GoString, List, [], Bool, false, Result}

-- `http.Cookie`, with times in nanoseconds since the zero time.
pub record Cookie : Type 0 where
  pub name : GoString
  pub value : GoString
  pub path : GoString
  pub domain : GoString
  pub expires : ℕ
  pub secure : Bool
  pub http_only : Bool

-- What a handler has written: the status of its (first) `WriteHeader`, and the cookies that it set.
pub record Response : Type 0 where
  pub status : ℕ
  pub cookies : List Cookie

abbrev pub status_ok : ℕ
status_ok = 200

abbrev pub status_bad_request : ℕ
status_bad_request = 400

abbrev pub status_unauthorized : ℕ
status_unauthorized = 401

abbrev pub status_not_found : ℕ
status_not_found = 404

abbrev pub status_internal_server_error : ℕ
status_internal_server_error = 500

abbrev pub just : ℕ → Response
just code = record { status = code; cookies = [] }

-- `http.Cookie{}`
abbrev pub zero_cookie : Cookie
zero_cookie = record {
  name = [];
  value = [];
  path = [];
  domain = [];
  expires = 0;
  secure = false;
  http_only = false;
}

-- `url.URL`
pub record Url : Type 0 where
  pub host : GoString
  pub path : GoString

-- `http.Response`, as a client reads it.
pub record HttpReply : Type 0 where
  pub status : ℕ
  pub body : GoString
  pub cookies : List Cookie

-- `http.Client`: `Post` to a URL of a body of a content type, and `Jar.SetCookies`.
pub record HttpClient (N : Type 0) : Type 0 where
  pub post : GoString → GoString → GoString → N → Result HttpReply × N
  pub set_cookies : Url → List Cookie → N → N
