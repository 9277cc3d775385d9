-- ===== src/AdminClient.antt =====
-- server/pkg/adminserver/client.go. `http` is the HTTP client with its jar, `codec` is JSON, `url_parse`,
-- `split_host_port` and `encode_values` are the functions of Go's net packages.
pub mod Cookies
pub mod Answers
pub mod Sessions
use moblog_cloud.Prelude.{
  ℕ, GoString, codes, contains, ◌==◌, nat_eq, Bool, not, true, false, Option, none, some, List, [],
  ◌∷◌, ◌++◌, Error, message, wrap, Result, ok, err, panic, wrap_err, if◌then◌else◌,
}
use moblog_cloud.Http.{Cookie, zero_cookie, Url, HttpReply, HttpClient, status_ok}
use moblog_cloud.IdGenerator.{format_uint}
use moblog_cloud.UserStore.{User, Blog}
use moblog_cloud.AdminServer.AuthSession.{auth_cookie_name, reset_auth_cookie}
use moblog_cloud.RpcClient.{RpcClient, Codec, new, call}

pub record Client : Type 0 where
  pub url : GoString
  pub rpc : RpcClient
  pub auth_cookie : Cookie

-- The arguments of the calls, as the structures that are encoded: a user, a blog, and the records of
-- server/pkg/adminserver/server.go.
pub data Params : Type 0 where
  user_params : User → Params
  blog_params : Blog → Params
  get_user_args delete_user_args delete_blog_args : GoString → Params
  get_blog_args : GoString → GoString → Params
  whoami_args list_blogs_args : Params

-- What the client takes of the network libraries.
pub record NetLibrary : Type 0 where
  pub url_parse : GoString → Result Url
  pub split_host_port : GoString → Result GoString
  pub encode_values : List (GoString × GoString) → GoString

-- How a reply's result is decoded, by the type of the variable that takes it.
pub record Decoders : Type 0 where
  pub nothing : GoString → Result (Unit {0})
  pub user : GoString → Result User
  pub blog : GoString → Result Blog
  pub blogs : GoString → Result (List Blog)

-- `NewClient`, with the outcome of making the jar.
abbrev pub new_client : Result (Unit {0}) → GoString → Result Client
new_client (err e) url = err (wrap e (codes "Error while creating cookie jar"))
new_client panic url = panic
new_client (ok _) url = ok (record { url = url; rpc = new url; auth_cookie = zero_cookie })

abbrev pub auth_cookie : Client → Result (Option Cookie)
auth_cookie c = if c.auth_cookie.name == [] then ok none else ok (some c.auth_cookie)

abbrev pub reset_cached_auth_cookie : Client → Client
reset_cached_auth_cookie c = record c { auth_cookie = zero_cookie }

module _ (net : NetLibrary) where
  -- The host of the URL without its port.
  abbrev pub host_of : GoString → Result GoString
  host_of host =
      if contains host (codes ":")
      then wrap_err (net.split_host_port host) (codes "Error while parsing URL host")
      else ok host

  abbrev pub domain_of : Cookie → Url → Result GoString
  domain_of cookie url = if cookie.domain == [] then host_of url.host else ok cookie.domain

  abbrev pub store_with : Cookie → Url → Result GoString → Client → Result (Unit {0}) × Client
  store_with cookie url (err e) c = (err e, c)
  store_with cookie url panic c = (panic, c)
  store_with cookie url (ok domain) c =
      let path = if cookie.path == [] then url.path else cookie.path in
      (ok tt, record c { auth_cookie = record cookie { domain = domain; path = path } })

  abbrev pub cache_at : Cookie → Result Url → Client → Result (Unit {0}) × Client
  cache_at cookie (err e) c = (err (wrap e (codes "Error while parsing client URL")), c)
  cache_at cookie panic c = (panic, c)
  cache_at cookie (ok url) c = store_with cookie url (domain_of cookie url) c

  unfoldable pub set_cached_auth_cookie : Cookie → Client → Result (Unit {0}) × Client
  set_cached_auth_cookie cookie c = cache_at cookie (net.url_parse c.url) c

  abbrev pub caching : Result (Unit {0}) → Result (Unit {0})
  caching r = wrap_err r (codes "Error while caching auth cookie")

  -- The loop over the cookies of a reply, which ends at an error.
  abbrev pub go_on_from :
      Result (Unit {0}) × Client
      → (Client → Result (Unit {0}) × Client)
      → Result (Unit {0}) × Client
  go_on_from (ok _, c) rest = rest c
  go_on_from (err e, c) rest = (caching (err e), c)
  go_on_from (panic, c) rest = (panic, c)

  unfoldable pub cache_cookies : List Cookie → Client → Result (Unit {0}) × Client
  unfolding set_cached_auth_cookie
  cache_cookies [] c = (ok tt, c)
  cache_cookies (cookie ∷ cookies) c =
      let cached = go_on_from (set_cached_auth_cookie cookie c) (cache_cookies cookies) in
      let skipped = cache_cookies cookies c in
      if cookie.name == auth_cookie_name then cached else skipped

abbrev pub form_type : GoString
form_type = codes "application/x-www-form-urlencoded"

module _ {N : Type 0} (net : NetLibrary) (http : HttpClient N) where
  abbrev pub jar_with : Cookie → Url → N → N
  jar_with cookie url n = http.set_cookies url (cookie ∷ []) n

  abbrev pub set_at_url : Option Cookie → Result Url → Client → N → Result (Unit {0}) × Client × N
  set_at_url cookie (err e) c n = (err (wrap e (codes "Error while parsing server url")), c, n)
  set_at_url cookie panic c n = (panic, c, n)
  set_at_url none (ok url) c n =
      (ok tt, reset_cached_auth_cookie c, jar_with reset_auth_cookie url n)
  set_at_url (some cookie) (ok url) c n =
      let cached = set_cached_auth_cookie net cookie c in
      (caching net cached.0, cached.1, jar_with cookie url n)

  abbrev pub is_misnamed : Option Cookie → Bool
  is_misnamed none = false
  is_misnamed (some cookie) = not (cookie.name == auth_cookie_name)

  unfoldable pub set_auth_cookie : Option Cookie → Client → N → Result (Unit {0}) × Client × N
  unfolding set_cached_auth_cookie
  set_auth_cookie cookie c n =
      if is_misnamed cookie
      then (err (message (codes "Invalid cookie name")), c, n)
      else set_at_url cookie (net.url_parse c.url) c n

  abbrev pub logged_in : Result HttpReply → Client → Result (Unit {0}) × Client
  logged_in (err e) c = (err (wrap e (codes "Error while sending login request")), c)
  logged_in panic c = (panic, c)
  logged_in (ok answer) c =
      let cached = cache_cookies net answer.cookies c in
      let refused : Error = message (
        codes "Invalid username or password (status code "
        ++ format_uint answer.status
        ++ codes ")") in
      if not (nat_eq answer.status status_ok)
      then (err refused, reset_cached_auth_cookie c)
      else cached

  unfoldable pub login : GoString → GoString → Client → N → Result (Unit {0}) × Client × N
  unfolding cache_cookies
  login username password c n =
      let values =
        net.encode_values ((codes "username", username) ∷ (codes "password", password) ∷ []) in
      let answer = http.post (c.url ++ codes "/login") form_type values n in
      let entered = logged_in answer.0 c in (entered.0, entered.1, answer.1)

  abbrev pub refresh_session : Client → N → Result (Unit {0}) × Client × N
  refresh_session c n = login [] [] c n

  -- The error of a reply that is not 200 is wrapped from a nil error, which stays nil.
  abbrev pub logged_out : Result HttpReply → Client → Result (Unit {0}) × Client
  logged_out (err e) c = (err (wrap e (codes "Error while sending logout request")), c)
  logged_out panic c = (panic, c)
  logged_out (ok answer) c =
      if not (nat_eq answer.status status_ok)
      then (
        wrap_err (ok tt) (codes "Logout request returned status " ++ format_uint answer.status),
        c,
      )
      else (ok tt, reset_cached_auth_cookie c)

  unfoldable pub logout : Client → N → Result (Unit {0}) × Client × N
  logout c n =
      let answer = http.post (c.url ++ codes "/logout") form_type [] n in
      let left = logged_out answer.0 c in (left.0, left.1, answer.1)

module _ {N : Type 0} (http : HttpClient N) (codec : Codec Params) (decode : Decoders) where
  -- A call's outcome, with the client and the network after it.
  abbrev pub Calling : Type 0 → Type 0
  Calling R = Client → N → Result R × Client × N

  abbrev pub rpc_call : {R : Type 0} → (GoString → Result R) → GoString → Params → Calling R
  rpc_call decoder method params c n =
      let (result, rpc, n') = call http codec decoder method params c.rpc n in
      (result, record c { rpc = rpc }, n')

  abbrev pub create_user : User → Calling (Unit {0})
  create_user user = rpc_call decode.nothing (codes "Users.Create") (user_params user)

  abbrev pub update_user : User → Calling (Unit {0})
  update_user user = rpc_call decode.nothing (codes "Users.Update") (user_params user)

  abbrev pub get_user : GoString → Calling User
  get_user username = rpc_call decode.user (codes "Users.Get") (get_user_args username)

  abbrev pub whoami : Calling User
  whoami = rpc_call decode.user (codes "Users.Whoami") whoami_args

  abbrev pub delete_user : GoString → Calling (Unit {0})
  delete_user username = rpc_call decode.nothing (codes "Users.Delete") (delete_user_args username)

  abbrev pub create_blog : Blog → Calling (Unit {0})
  create_blog blog = rpc_call decode.nothing (codes "Blogs.Create") (blog_params blog)

  abbrev pub update_blog : Blog → Calling (Unit {0})
  update_blog blog = rpc_call decode.nothing (codes "Blogs.Update") (blog_params blog)

  -- `GetBlog` and `GetUserBlog`: no user name means the session's.
  abbrev pub get_user_blog : GoString → GoString → Calling Blog
  get_user_blog username slug =
      rpc_call decode.blog (codes "Blogs.Get") (get_blog_args username slug)

  abbrev pub get_blog : GoString → Calling Blog
  get_blog slug = rpc_call decode.blog (codes "Blogs.Get") (get_blog_args [] slug)

  abbrev pub list_blogs : Calling (List Blog)
  list_blogs = rpc_call decode.blogs (codes "Blogs.List") list_blogs_args

  abbrev pub delete_blog : GoString → Calling (Unit {0})
  delete_blog slug = rpc_call decode.nothing (codes "Blogs.Delete") (delete_blog_args slug)
