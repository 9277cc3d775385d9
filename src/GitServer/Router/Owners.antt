-- ===== src/GitServer/Router/Owners.antt =====
-- server/pkg/gitserver/server.go: whom the git server serves.
use mathlib.Core.Option.{none-ne-some}
use moblog_cloud.Prelude.{GoString, ok, ◌≡◌, refl, sym, ◌∙◌, ◌⊎◌, inl, inr, Option-cases}
use moblog_cloud.Http.{just, status_not_found}
use moblog_cloud.GitServer.Handlers.{AdminClient, Host, JobQueue, State, Request}
use moblog_cloud.GitServer.Handlers.Access.{Verdict, with_valid_repository-owner}
use moblog_cloud.GitServer.Router.{Match, route, handler_of, serve_http}
use moblog_cloud.GitServer.Router.Routes.{Takes, route_iff}

module _ {H Q : Type 0} (base_dir : GoString) (admin : AdminClient) (host : Host H)
    (queue : JobQueue Q) (base_path method path : GoString) (r : Request) (st : State H Q) where
  abbrev pub named : Match → Request
  named m = record r { username = m.username; repository = m.repository }

  -- Whatever the request: either it is for none of the three endpoints of any repository under the base
  -- path, is answered 404 and leaves the state as it was, or its method and its path are those of an
  -- endpoint, for valid names of a user and of a repository, and then either the endpoint's handler
  -- answers, with the session of the user that the admin server knows the cookie as, who is the user of
  -- the path and has a blog of the repository's name, or the request is turned away and the job queue is
  -- as it was.
  pub serve_http-owner :
      let answer = serve_http base_dir admin host queue base_path method path r st in
      (((m : Match) → ¬ Takes base_path method path m)
        × (answer ≡ (ok (just status_not_found), st)))
      ⊎ ((m : Match) × Takes base_path method path m
          × Verdict base_dir admin host queue
              (handler_of base_dir admin host queue m.endpoint)
              (named m)
              st
              answer)
  unfolding serve_http
  serve_http-owner = elim (Option-cases (route base_path method path)) [
    | inl e ↦ rw e (
        inl
          ((λ m takes. none-ne-some m (sym e ∙ (route_iff base_path method path m).1 takes)), refl))
    | inr (m, e) ↦ rw e (
        inr (
          m,
          (route_iff base_path method path m).0 e,
          with_valid_repository-owner base_dir admin host queue
              (handler_of base_dir admin host queue m.endpoint) (named m) st,
        ))
  ]
