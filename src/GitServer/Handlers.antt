-- ===== src/GitServer/Handlers.antt =====
-- server/pkg/gitserver/server.go: the handlers. The admin server's client, the file system and the
-- git program are the parameters `admin` and `host`; the job queue is the interface `JobQueue`.
-- What a handler writes to the response body is not modelled, but for its status.
pub mod Access
pub mod Pushes
use moblog_cloud.Prelude.{
  ℕ, ◌*◌, GoString, codes, ◌==◌, Bool, true, false, not, ◌&&◌, ◌||◌, Option, none, some, List, [],
  ◌∷◌, ◌++◌, Result, ok, err, panic, wrap_err, if◌then◌else◌, map,
}
use moblog_cloud.Http.{
  Cookie, Response, just, status_ok, status_bad_request, status_unauthorized, status_not_found,
  status_internal_server_error,
}
use moblog_cloud.UserStore.{User, Blog}
use moblog_cloud.GitServer.{remove_git_repository_suffix, blog_exists, drop}
use moblog_cloud.GitServer.Paths.{repository_path}

pub record UserSession : Type 0 where
  pub auth_cookie : Cookie
  pub username : GoString
  pub blogs : List GoString

-- server/pkg/jobs/jobs.go
pub record RenderJob : Type 0 where
  pub username : GoString
  pub auth_cookie : Cookie
  pub repository : GoString

-- The calls of the admin server's client that the git server makes, for a client that holds the
-- cookie: making the client and giving it the cookie, `Whoami`, and `ListBlogs`.
pub record AdminClient : Type 0 where
  pub connect : Cookie → Result (Unit {0})
  pub whoami : Cookie → Result User
  pub list_blogs : Cookie → Result (List Blog)

-- The disk and the programs of the host; `has_output` tells whether a run of git writes anything to its
-- standard output.
pub record Host (H : Type 0) : Type 0 where
  pub is_dir : GoString → H → Result Bool
  pub mkdir_all : GoString → H → Result (Unit {0}) × H
  pub remove_all : GoString → H → H
  pub run_git : List GoString → H → Result (Unit {0}) × H
  pub has_output : List GoString → H → Bool

-- A queue takes a job and its time to run.
pub record JobQueue (Q : Type 0) : Type 0 where
  pub post : RenderJob → ℕ → Q → Result (Unit {0}) × Q

pub record State (H Q : Type 0) : Type 0 where
  pub host : H
  pub queue : Q

-- A request, as the router hands it over: the variables of its path, its cookie, the `service` of
-- its query, its content type and the formats that it accepts.
pub record Request : Type 0 where
  pub username : GoString
  pub repository : GoString
  pub auth_cookie : Option Cookie
  pub service : GoString
  pub content_type : GoString
  pub accepts : List GoString

abbrev pub names_of : List Blog → List GoString
names_of [] = []
names_of (blog ∷ blogs) = blog.slug ∷ names_of blogs

abbrev pub session_of : Cookie → User → Result (List Blog) → Result (Option UserSession)
session_of cookie me (err e) = wrap_err (err e) (codes "Error while retrieving blog list")
session_of cookie me panic = panic
session_of cookie me (ok blogs) =
    ok (some (record { auth_cookie = cookie; username = me.username; blogs = names_of blogs }))

abbrev pub session_for : AdminClient → Cookie → Result User → Result (Option UserSession)
session_for admin cookie (err e) =
    wrap_err (err e) (codes "Error while retrieving user information")
session_for admin cookie panic = panic
session_for admin cookie (ok me) = session_of cookie me (admin.list_blogs cookie)

abbrev pub session_over : AdminClient → Cookie → Result (Unit {0}) → Result (Option UserSession)
session_over admin cookie (err e) = err e
session_over admin cookie panic = panic
session_over admin cookie (ok _) = session_for admin cookie (admin.whoami cookie)

unfoldable pub user_session_from_request : AdminClient → Option Cookie → Result (Option UserSession)
user_session_from_request admin none = ok none
user_session_from_request admin (some cookie) = session_over admin cookie (admin.connect cookie)

-- `runGitService`: the arguments of the git program.
abbrev pub git_service_args : GoString → List GoString → GoString → List GoString
git_service_args service extra path = service ∷ codes "--stateless-rpc" ∷ (extra ++ path ∷ [])

unfoldable pub client_accepts : List GoString → GoString → Bool
client_accepts [] format = false
client_accepts (x ∷ xs) format =
    let rest = client_accepts xs format in if format == x then true else rest

abbrev pub render_job_ttr : ℕ
render_job_ttr = 10 * 60 * 1000000000

module _ {H Q : Type 0} (base_dir : GoString) (admin : AdminClient) (host : Host H)
    (queue : JobQueue Q) where
  abbrev HttpHandler : Type 0
  HttpHandler = Request → State H Q → Result Response × State H Q

  -- The directory of a failed `git init` is removed again.
  abbrev pub initialized : GoString → Result (Unit {0}) × H → Result (Unit {0}) × H
  initialized path (ok _, h) = (ok tt, h)
  initialized path (err e, h) =
      (wrap_err (err e) (codes "Error while running git init"), host.remove_all path h)
  initialized path (panic, h) = (panic, h)

  abbrev pub after_mkdir : GoString → Result (Unit {0}) × H → Result (Unit {0}) × H
  after_mkdir path (err e, h) =
      (wrap_err (err e) (codes "Error while creating repository directory"), h)
  after_mkdir path (panic, h) = (panic, h)
  after_mkdir path (ok _, h) =
      initialized path (host.run_git (codes "init" ∷ codes "--bare" ∷ path ∷ []) h)

  unfoldable pub init_new_repository : GoString → H → Result (Unit {0}) × H
  init_new_repository path h = after_mkdir path (host.mkdir_all path h)

  abbrev pub ensure_dir : GoString → Result Bool → H → Result (Unit {0}) × H
  ensure_dir path (err e) h =
      (wrap_err (err e) (codes "Error while checking if repository directory exists"), h)
  ensure_dir path panic h = (panic, h)
  ensure_dir path (ok true) h = (ok tt, h)
  ensure_dir path (ok false) h =
      let answer = init_new_repository path h in
      (wrap_err answer.0 (codes "Error while initializing a new repository"), answer.1)

  unfoldable pub ensure_repository : GoString → GoString → H → Result (Unit {0}) × H
  ensure_repository username repository h =
      let path = repository_path base_dir username repository in
      ensure_dir path (host.is_dir path h) h

  abbrev pub serve_ensured :
      (UserSession → HttpHandler)
      → UserSession
      → Request
      → State H Q
      → Result (Unit {0}) × H
      → Result Response × State H Q
  serve_ensured handler session r st (err e, h) =
      (ok (just status_internal_server_error), record st { host = h })
  serve_ensured handler session r st (panic, h) = (panic, record st { host = h })
  serve_ensured handler session r st (ok _, h) = handler session r (record st { host = h })

  abbrev pub serve_session : (UserSession → HttpHandler) → Result (Option UserSession) → HttpHandler
  serve_session handler (err e) r st = (ok (just status_internal_server_error), st)
  serve_session handler panic r st = (panic, st)
  serve_session handler (ok none) r st = (ok (just status_unauthorized), st)
  serve_session handler (ok (some session)) r st =
      let repository = remove_git_repository_suffix r.repository in
      if not (session.username == r.username)
      then (ok (just status_unauthorized), st)
      else if not (blog_exists session.blogs repository)
      then (ok (just status_not_found), st)
      else serve_ensured handler session r st (ensure_repository r.username repository st.host)

  -- The handler runs for the user of the path only, on one of the user's blogs, whose repository is
  -- made on first access.
  unfoldable pub with_valid_repository : (UserSession → HttpHandler) → HttpHandler
  with_valid_repository handler r st =
      serve_session handler (user_session_from_request admin r.auth_cookie) r st

  abbrev pub repository_of : Request → GoString
  repository_of r = repository_path base_dir r.username (remove_git_repository_suffix r.repository)

  -- The body, with the packet that announces the service, is written before git runs, so a failure of
  -- git no longer changes the status, which is 200 by then.
  abbrev pub advertised : State H Q → Result (Unit {0}) × H → Result Response × State H Q
  advertised st (panic, h) = (panic, record st { host = h })
  advertised st (_, h) = (ok (just status_ok), record st { host = h })

  unfoldable pub serve_info_refs : UserSession → HttpHandler
  serve_info_refs session r st =
      if not (r.service == codes "git-upload-pack") && not (r.service == codes "git-receive-pack")
      then (ok (just status_bad_request), st)
      else (let service = drop 4 r.service in
          advertised st (
            host.run_git
              (git_service_args service (codes "--advertise-refs" ∷ []) (repository_of r)) st.host))

  -- A job that the queue refuses is logged, and the push succeeds all the same.
  abbrev pub posted_answer : State H Q → Result (Unit {0}) × Q → Result Response × State H Q
  posted_answer st (panic, q) = (panic, record st { queue = q })
  posted_answer st (_, q) = (ok (just status_ok), record st { queue = q })

  -- The output of git is the response: the status of a failure comes too late after the first output,
  -- which has sent the status 200.
  abbrev pub after_service :
      Bool
      → UserSession
      → Request
      → State H Q
      → Bool
      → Result (Unit {0}) × H
      → Result Response × State H Q
  after_service is_push session r st has_written (err e, h) = (
    ok (just (if has_written then status_ok else status_internal_server_error)),
    record st { host = h },
  )
  after_service is_push session r st has_written (panic, h) = (panic, record st { host = h })
  after_service false session r st has_written (ok _, h) =
      (ok (just status_ok), record st { host = h })
  after_service true session r st has_written (ok _, h) =
      posted_answer (record st { host = h })
        (queue.post
          (record {
            username = session.username;
            auth_cookie = session.auth_cookie;
            repository = remove_git_repository_suffix r.repository;
          })
          render_job_ttr st.queue)

  unfoldable pub serve_git_service : GoString → UserSession → HttpHandler
  unfolding client_accepts
  serve_git_service service session r st =
      if not (r.content_type == codes "application/x-git-" ++ (service ++ codes "-request"))
        || not
            (client_accepts r.accepts (codes "application/x-git-" ++ (service ++ codes "-result")))
      then (ok (just status_bad_request), st)
      else after_service (service == codes "receive-pack") session r st
          (host.has_output (git_service_args service [] (repository_of r)) st.host)
          (host.run_git (git_service_args service [] (repository_of r)) st.host)

  unfoldable pub serve_upload_pack : UserSession → HttpHandler
  serve_upload_pack = serve_git_service (codes "upload-pack")

  unfoldable pub serve_receive_pack : UserSession → HttpHandler
  serve_receive_pack = serve_git_service (codes "receive-pack")
