-- ===== src/GitServer/Handlers/Access.antt =====
-- server/pkg/gitserver/server.go: who reaches a repository, and which pushes post a render job.
use moblog_cloud.Prelude.{
  GoString, ◌==◌, eq_iff, true, Option, none, some, List, [], ◌∷◌, Result, ok, err, panic, ◌≡◌,
  refl, ap, sym, ◌∙◌, ◌⊎◌, inl, inr, Bool-cases, arith,
}
use moblog_cloud.Http.{
  Cookie, Response, just, status_unauthorized, status_not_found, status_internal_server_error,
}
use moblog_cloud.UserStore.{User, Blog}
use moblog_cloud.GitServer.{remove_git_repository_suffix, blog_exists}
use moblog_cloud.GitServer.Paths.{repository_path}
use moblog_cloud.GitServer.Handlers.{
  UserSession, AdminClient, Host, JobQueue, State, Request, names_of, session_of, session_for,
  session_over, user_session_from_request, ensure_repository, serve_ensured, serve_session,
  with_valid_repository,
}

-- One of the blogs has the slug.
pub data HasSlug (slug : GoString) : List Blog → Type 0 where
  here : {blog : Blog} {blogs : List Blog} → blog.slug ≡ slug → HasSlug slug (blog ∷ blogs)
  there : {blog : Blog} {blogs : List Blog} → HasSlug slug blogs → HasSlug slug (blog ∷ blogs)

-- What an answer to a request that is turned away looks like: no more than a status, or a panic.
abbrev pub IsRefusal : Result Response → Type 0
IsRefusal answer =
    (answer ≡ panic)
    ⊎ (answer ≡ ok (just status_unauthorized))
    ⊎ (answer ≡ ok (just status_not_found))
    ⊎ (answer ≡ ok (just status_internal_server_error))

blog_exists-HasSlug :
    (slug : GoString) (blogs : List Blog)
    → blog_exists (names_of blogs) slug ≡ true
    → HasSlug slug blogs
unfolding blog_exists
blog_exists-HasSlug slug [] h = cc
blog_exists-HasSlug slug (blog ∷ blogs) h = elim (Bool-cases (blog.slug == slug)) [
  | inl same ↦ here ((eq_iff blog.slug slug).0 same)
  | inr other ↦ there (blog_exists-HasSlug slug blogs (ground arith))
]

HasSlug-blog_exists :
    (slug : GoString) (blogs : List Blog)
    → HasSlug slug blogs
    → blog_exists (names_of blogs) slug ≡ true
unfolding blog_exists
HasSlug-blog_exists slug [] h = elim h [ ]
HasSlug-blog_exists slug (blog ∷ blogs) (here e) = rw ((eq_iff blog.slug slug).1 e) refl
HasSlug-blog_exists slug (blog ∷ blogs) (there h) = elim (Bool-cases (blog.slug == slug)) [
  | inl same ↦ rw same refl
  | inr other ↦ rw (other, HasSlug-blog_exists slug blogs h) refl
]

-- The owner of what a request names: the admin server takes the request's cookie for the user of
-- its path, and lists a blog of the repository's name among that user's.
pub record IsOwner (admin : AdminClient) (r : Request) (cookie : Cookie) (me : User)
    (blogs : List Blog) : Type 0 where
  pub cookie_eq : r.auth_cookie ≡ some cookie
  pub connected : admin.connect cookie ≡ ok tt
  pub whoami_eq : admin.whoami cookie ≡ ok me
  pub username_eq : me.username ≡ r.username
  pub list_blogs_eq : admin.list_blogs cookie ≡ ok blogs
  pub has_blog : HasSlug (remove_git_repository_suffix r.repository) blogs

abbrev pub owner_session : Cookie → User → List Blog → UserSession
owner_session cookie me blogs = record {
  auth_cookie = cookie;
  username = me.username;
  blogs = names_of blogs;
}

-- What a session is made of.
abbrev Backs : AdminClient → Option Cookie → UserSession → Type 0
Backs admin auth_cookie session =
    (cookie : Cookie) × (me : User) × (blogs : List Blog) × (auth_cookie ≡ some cookie)
    × (admin.connect cookie ≡ ok tt)
    × (admin.whoami cookie ≡ ok me)
    × (admin.list_blogs cookie ≡ ok blogs)
    × (session ≡ owner_session cookie me blogs)

user_session-Backs :
    (admin : AdminClient) (auth_cookie : Option Cookie) (session : UserSession)
    → user_session_from_request admin auth_cookie ≡ ok (some session)
    → Backs admin auth_cookie session
unfolding user_session_from_request
user_session-Backs admin none session h = cc
user_session-Backs admin (some cookie) session h = connected _ refl h
  where
    listed :
        (me : User) (m : Result (List Blog))
        → admin.connect cookie ≡ ok tt
        → admin.whoami cookie ≡ ok me
        → admin.list_blogs cookie ≡ m
        → session_of cookie me m ≡ ok (some session)
        → Backs admin (some cookie) session
    listed me (err e) c w l h = cc
    listed me panic c w l h = cc
    listed me (ok blogs) c w l h = (cookie, me, blogs, refl, c, w, l, ground arith)

    known :
        (m : Result User)
        → admin.connect cookie ≡ ok tt
        → admin.whoami cookie ≡ m
        → session_for admin cookie m ≡ ok (some session)
        → Backs admin (some cookie) session
    known (err e) c w h = cc
    known panic c w h = cc
    known (ok me) c w h = listed me _ c w refl h

    connected :
        (m : Result (Unit {0}))
        → admin.connect cookie ≡ m
        → session_over admin cookie m ≡ ok (some session)
        → Backs admin (some cookie) session
    connected (err e) c h = cc
    connected panic c h = cc
    connected (ok tt) c h = known _ c refl h

module _ {H Q : Type 0} (base_dir : GoString) (admin : AdminClient) (host : Host H)
    (queue : JobQueue Q) (handler : UserSession → Request → State H Q → Result Response × State H Q)
    (r : Request) (st : State H Q) where
  -- The handler answers, for the owner, or the request is turned away and no job is posted.
  abbrev pub Verdict : Result Response × State H Q → Type 0
  Verdict answer =
      ((cookie : Cookie) × (me : User) × (blogs : List Blog) × (h : H) × IsOwner admin r cookie me
          blogs
        × (answer ≡ handler (owner_session cookie me blogs) r (record st { host = h })))
      ⊎ (IsRefusal answer.0 × (answer.1.queue ≡ st.queue))

  ensured-Verdict :
      (cookie : Cookie) (me : User) (blogs : List Blog)
      → IsOwner admin r cookie me blogs
      → (m : Result (Unit {0}) × H)
      → Verdict
          (serve_ensured base_dir admin host queue handler (owner_session cookie me blogs) r st m)
  ensured-Verdict cookie me blogs owner (ok _, h) = inl (cookie, me, blogs, h, owner, refl)
  ensured-Verdict cookie me blogs owner (err e, h) = inr (inr (inr (inr refl)), refl)
  ensured-Verdict cookie me blogs owner (panic, h) = inr (inl refl, refl)

  session-Verdict :
      (m : Result (Option UserSession))
      → user_session_from_request admin r.auth_cookie ≡ m
      → Verdict (serve_session base_dir admin host queue handler m r st)
  session-Verdict (err e) h = inr (inr (inr (inr refl)), refl)
  session-Verdict panic h = inr (inl refl, refl)
  session-Verdict (ok none) h = inr (inr (inl refl), refl)
  session-Verdict (ok (some session)) h = elim (Bool-cases (session.username == r.username)) [
    | inr other ↦ rw other (inr (inr (inl refl), refl))
    | inl same ↦
        rw same
          (elim (Bool-cases
            (blog_exists session.blogs (remove_git_repository_suffix r.repository))) [
              | inr missing ↦ rw missing (inr (inr (inr (inl refl)), refl))
              | inl exists ↦ rw exists (
                  let (cookie, me, blogs, ec, cn, ew, el, es) =
                    user_session-Backs admin r.auth_cookie session h in
                  let owner : IsOwner admin r cookie me blogs = record {
                    cookie_eq = ec;
                    connected = cn;
                    whoami_eq = ew;
                    username_eq =
                        sym (ap (λ x. x.username) es) ∙ (eq_iff session.username r.username).0 same;
                    list_blogs_eq = el;
                    has_blog = blog_exists-HasSlug _ blogs (rw (← ap (λ x. x.blogs) es) exists);
                  } in
                  rw es (ensured-Verdict cookie me blogs owner _))
            ])
  ]

  -- Whatever the request, either its handler answers, with the session of the user that the admin
  -- server knows the cookie as, who is the user of the path and has a blog of the repository's name,
  -- or the answer is 401, 404 or 500 or a panic and the job queue is as it was.
  pub with_valid_repository-owner :
      Verdict (with_valid_repository base_dir admin host queue handler r st)
  unfolding with_valid_repository
  with_valid_repository-owner = session-Verdict _ refl

  -- The owner of an existing repository reaches the handler, which finds the state as it was.
  pub with_valid_repository-serves :
      (cookie : Cookie) (me : User) (blogs : List Blog)
      → IsOwner admin r cookie me blogs
      → host.is_dir
          (repository_path base_dir r.username (remove_git_repository_suffix r.repository))
          st.host
        ≡ ok true
      → with_valid_repository base_dir admin host queue handler r st
        ≡ handler (owner_session cookie me blogs) r st
  unfolding with_valid_repository user_session_from_request ensure_repository
  with_valid_repository-serves cookie me blogs owner dir =
      rw
        (
          owner.cookie_eq,
          owner.connected,
          owner.whoami_eq,
          owner.list_blogs_eq,
          (eq_iff me.username r.username).1 owner.username_eq,
          HasSlug-blog_exists _ blogs owner.has_blog,
          dir,
        )
        refl
