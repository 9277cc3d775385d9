-- ===== src/Tests/Routers.antt =====
-- Tests of the routes of server/pkg/gitserver/server.go.
use moblog_cloud.Prelude.{GoString, codes, some, ◌==◌, refl, ok, ◌≡◌, ◌↔◌, ◌⊎◌}
use moblog_cloud.Http.{just, status_not_found}
use moblog_cloud.UserStore.{valid_alphanumeric}
use moblog_cloud.GitServer.Paths.{split_slash}
use moblog_cloud.GitServer.Handlers.Access.{Verdict}
use moblog_cloud.GitServer.Router.{Endpoint, Match, route, trim_slashes, handler_of, serve_http}
use moblog_cloud.GitServer.Router.Routes.{Takes, route_iff}
use moblog_cloud.GitServer.Router.Owners.{named, serve_http-owner}
use moblog_cloud.Tests.Git.{admin, host, queue, push, quiet}

abbrev travels : Match
travels = record {
  endpoint = Endpoint.receive_pack;
  username = codes "anna";
  repository = codes "travel.git";
}

abbrev push_path : GoString
push_path = codes "/anna/travel.git/git-receive-pack"

-- With the base path "/", whose slash is no second one in the pattern of the route.
routed_at_root : route (codes "/") (codes "POST") push_path ≡ some travels
unfolding route trim_slashes split_slash ◌==◌ valid_alphanumeric
routed_at_root = refl

route_iff_example :
    (route (codes "/") (codes "POST") push_path ≡ some travels)
    ↔ Takes (codes "/") (codes "POST") push_path travels
route_iff_example = route_iff (codes "/") (codes "POST") push_path travels

serve_http-owner_example :
    let answer =
      serve_http
        (codes "/repositories")
        admin
        host
        queue
        (codes "/")
        (codes "POST")
        push_path
        push
        quiet in
    (((m : Match) → ¬ Takes (codes "/") (codes "POST") push_path m)
      × (answer ≡ (ok (just status_not_found), quiet)))
    ⊎ ((m : Match) × Takes (codes "/") (codes "POST") push_path m
        × Verdict
            (codes "/repositories")
            admin
            host
            queue
            (handler_of (codes "/repositories") admin host queue m.endpoint)
            (named
              (codes "/repositories")
              admin
              host
              queue
              (codes "/")
              (codes "POST")
              push_path
              push
              quiet
              m)
            quiet
            answer)
serve_http-owner_example =
    serve_http-owner (codes "/repositories") admin host queue (codes "/") (codes "POST") push_path
      push quiet
