-- ===== src/GitServer/Router.antt =====
-- server/pkg/gitserver/server.go: the routes of `New`, and `ServeHTTP`. The router matches a path against
-- the pattern of a route as a whole, the base path first, and a variable takes what its regular
-- expression allows, which has no slash. It redirects a path that is not clean; the path here is clean.
-- The slashes at the end of a base path are left out where the pattern of a route is put behind it, and a
-- base path that does not begin with a slash is an error of the router, with which nothing matches. A
-- base path with a variable in it is not modelled.
pub mod Routes
pub mod Owners
use moblog_cloud.Prelude.{
  GoString, codes, ◌==◌, Bool, true, false, ◌&&◌, Option, none, some, List, [], ◌∷◌, ◌++◌, Result,
  ok, has_prefix, length, nat_eq, if◌then◌else◌,
}
use moblog_cloud.Http.{Response, just, status_not_found}
use moblog_cloud.UserStore.{valid_alphanumeric}
use moblog_cloud.GitServer.{drop}
use moblog_cloud.GitServer.Paths.{split_slash}
use moblog_cloud.GitServer.Handlers.{
  UserSession, AdminClient, Host, JobQueue, State, Request, with_valid_repository, serve_info_refs,
  serve_upload_pack, serve_receive_pack,
}

-- The three routes of a repository.
pub data Endpoint : Type 0 where
  info_refs upload_pack receive_pack : Endpoint

pub record Match : Type 0 where
  pub endpoint : Endpoint
  pub username : GoString
  pub repository : GoString

abbrev pub method_of : Endpoint → GoString
method_of info_refs = codes "GET"
method_of upload_pack = codes "POST"
method_of receive_pack = codes "POST"

-- The end of a route's path, by its elements.
abbrev pub elements_of : Endpoint → List GoString
elements_of info_refs = codes "info" ∷ codes "refs" ∷ []
elements_of upload_pack = codes "git-upload-pack" ∷ []
elements_of receive_pack = codes "git-receive-pack" ∷ []

abbrev pub same_elements : List GoString → List GoString → Bool
same_elements [] [] = true
same_elements [] (y ∷ ys) = false
same_elements (x ∷ xs) [] = false
same_elements (x ∷ xs) (y ∷ ys) = x == y && same_elements xs ys

abbrev pub takes : Endpoint → GoString → List GoString → Bool
takes endpoint method rest =
    method == method_of endpoint && same_elements rest (elements_of endpoint)

abbrev pub endpoint_for : GoString → List GoString → Option Endpoint
endpoint_for method rest =
    if takes info_refs method rest
    then some info_refs
    else if takes upload_pack method rest
    then some upload_pack
    else if takes receive_pack method rest
    then some receive_pack
    else none

abbrev pub at_repository : GoString → GoString → Option Endpoint → Option Match
at_repository username repository none = none
at_repository username repository (some endpoint) =
    if valid_alphanumeric username && valid_alphanumeric repository
    then some (record { endpoint = endpoint; username = username; repository = repository })
    else none

-- The elements of the path after the base path: nothing before the first slash, the user and the
-- repository, and the rest.
abbrev pub matched : GoString → List GoString → Option Match
matched method ([] ∷ username ∷ repository ∷ rest) =
    at_repository username repository (endpoint_for method rest)
matched method _ = none

-- A string without the slashes at its end, as `strings.TrimRight` does.
unfoldable pub trim_slashes : GoString → GoString
trim_slashes [] = []
trim_slashes (c ∷ s) =
    let rest = trim_slashes s in if rest == [] && nat_eq c b'/' then [] else c ∷ rest

-- No base path, or one that the router takes.
abbrev pub is_template : GoString → Bool
is_template [] = true
is_template (c ∷ s) = nat_eq c b'/'

unfoldable pub route : GoString → GoString → GoString → Option Match
unfolding trim_slashes
route base_path method path =
    if is_template base_path && has_prefix path base_path
    then matched method (split_slash (drop (length (trim_slashes base_path)) path))
    else none

module _ {H Q : Type 0} (base_dir : GoString) (admin : AdminClient) (host : Host H)
    (queue : JobQueue Q) where
  abbrev pub handler_of : Endpoint → UserSession → Request → State H Q → Result Response × State H Q
  handler_of info_refs = serve_info_refs base_dir admin host queue
  handler_of upload_pack = serve_upload_pack base_dir admin host queue
  handler_of receive_pack = serve_receive_pack base_dir admin host queue

  -- The request's variables are those of the route.
  abbrev pub serve_matched : Option Match → Request → State H Q → Result Response × State H Q
  serve_matched none r st = (ok (just status_not_found), st)
  serve_matched (some m) r st =
      with_valid_repository base_dir admin host queue (handler_of m.endpoint)
        (record r { username = m.username; repository = m.repository }) st

  unfoldable pub serve_http :
      GoString → GoString → GoString → Request → State H Q → Result Response × State H Q
  unfolding route
  serve_http base_path method path r st = serve_matched (route base_path method path) r st
