-- ===== src/GitServer/Handlers/Pushes.antt =====
-- server/pkg/gitserver/server.go: which requests post a render job, and which job.
use moblog_cloud.Prelude.{
  GoString, codes, ◌==◌, Bool, true, false, not, ◌&&◌, ◌||◌, List, [], ◌∷◌, ◌++◌, Result, ok, err,
  panic, ◌≡◌, refl, ap, ◌∙◌, ◌⊎◌, inl, inr, Bool-cases,
}
use moblog_cloud.Http.{Cookie, just, status_ok}
use moblog_cloud.UserStore.{User, Blog}
use moblog_cloud.GitServer.{remove_git_repository_suffix}
use moblog_cloud.GitServer.Paths.{repository_path}
use moblog_cloud.GitServer.Handlers.{
  UserSession, RenderJob, AdminClient, Host, JobQueue, State, Request, with_valid_repository,
  serve_info_refs, client_accepts, after_service, posted_answer, serve_git_service,
  serve_upload_pack, serve_receive_pack, render_job_ttr, advertised,
}
use moblog_cloud.GitServer.Handlers.Access.{
  IsOwner, owner_session, with_valid_repository-owner, with_valid_repository-serves,
}

module _ {H Q : Type 0} (base_dir : GoString) (admin : AdminClient) (host : Host H)
    (queue : JobQueue Q) where
  -- The job that a push of the request's repository is answered with.
  abbrev pub push_job : Request → Cookie → RenderJob
  push_job r cookie = record {
    username = r.username;
    auth_cookie = cookie;
    repository = remove_git_repository_suffix r.repository;
  }

  abbrev pub Posted : Request → Cookie → Q → Q → Type 0
  Posted r cookie q q' = q' ≡ (queue.post (push_job r cookie) render_job_ttr q).1

  session_job : UserSession → Request → RenderJob
  session_job session r = record {
    username = session.username;
    auth_cookie = session.auth_cookie;
    repository = remove_git_repository_suffix r.repository;
  }

  posted_answer-queue :
      (st : State H Q) (m : Result (Unit {0}) × Q)
      → (posted_answer base_dir admin host queue st m).1.queue ≡ m.1
  posted_answer-queue st (ok _, q) = refl
  posted_answer-queue st (err e, q) = refl
  posted_answer-queue st (panic, q) = refl

  after_push-queue :
      (session : UserSession) (r : Request) (st : State H Q) (written : Bool)
      (m : Result (Unit {0}) × H)
      → ((after_service base_dir admin host queue true session r st written m).1.queue ≡ st.queue)
        ⊎ ((after_service base_dir admin host queue true session r st written m).1.queue
            ≡ (queue.post (session_job session r) render_job_ttr st.queue).1)
  unfolding session_job
  after_push-queue session r st written (ok _, h) =
      inr (posted_answer-queue (record st { host = h }) _)
  after_push-queue session r st written (err e, h) = inl refl
  after_push-queue session r st written (panic, h) = inl refl

  after_fetch-queue :
      (session : UserSession) (r : Request) (st : State H Q) (written : Bool)
      (m : Result (Unit {0}) × H)
      → (after_service base_dir admin host queue false session r st written m).1.queue ≡ st.queue
  after_fetch-queue session r st written (ok _, h) = refl
  after_fetch-queue session r st written (err e, h) = refl
  after_fetch-queue session r st written (panic, h) = refl

  serve_receive_pack-queue :
      (session : UserSession) (r : Request) (st : State H Q)
      → ((serve_receive_pack base_dir admin host queue session r st).1.queue ≡ st.queue)
        ⊎ ((serve_receive_pack base_dir admin host queue session r st).1.queue
            ≡ (queue.post (session_job session r) render_job_ttr st.queue).1)
  unfolding serve_receive_pack serve_git_service ◌==◌
  serve_receive_pack-queue session r st =
      elim (Bool-cases (
        not (
          r.content_type
          == codes "application/x-git-" ++ (codes "receive-pack" ++ codes "-request"))
        || not (
            client_accepts r.accepts
              (codes "application/x-git-" ++ (codes "receive-pack" ++ codes "-result"))))) [
                | inl bad ↦ rw bad (inl refl)
                | inr good ↦ rw good (after_push-queue session r st _ _)
              ]

  serve_upload_pack-queue :
      (session : UserSession) (r : Request) (st : State H Q)
      → (serve_upload_pack base_dir admin host queue session r st).1.queue ≡ st.queue
  unfolding serve_upload_pack serve_git_service ◌==◌
  serve_upload_pack-queue session r st =
      elim (Bool-cases (
        not (
          r.content_type == codes "application/x-git-" ++ (codes "upload-pack" ++ codes "-request"))
        || not (
            client_accepts r.accepts
              (codes "application/x-git-" ++ (codes "upload-pack" ++ codes "-result"))))) [
                | inl bad ↦ rw bad refl
                | inr good ↦ rw good (after_fetch-queue session r st _ _)
              ]

  advertised-queue :
      (st : State H Q) (m : Result (Unit {0}) × H)
      → (advertised base_dir admin host queue st m).1.queue ≡ st.queue
  advertised-queue st (ok _, h) = refl
  advertised-queue st (err e, h) = refl
  advertised-queue st (panic, h) = refl

  serve_info_refs-queue :
      (session : UserSession) (r : Request) (st : State H Q)
      → (serve_info_refs base_dir admin host queue session r st).1.queue ≡ st.queue
  unfolding serve_info_refs
  serve_info_refs-queue session r st =
      elim (Bool-cases (
        not (r.service == codes "git-upload-pack")
        && not (r.service == codes "git-receive-pack"))) [
          | inl bad ↦ rw bad refl
          | inr good ↦ rw good (advertised-queue st _)
        ]

  -- A push leaves the job queue as it was, or posts one job, which asks for the repository of the
  -- request to be rendered in the name of its owner, with the owner's cookie.
  pub receive_pack-posts :
      (r : Request) (st : State H Q)
      → ((with_valid_repository base_dir admin host queue
            (serve_receive_pack base_dir admin host queue)
            r
            st).1.queue
          ≡ st.queue)
        ⊎ ((cookie : Cookie) × (me : User) × (blogs : List Blog) × IsOwner admin r cookie me blogs
            × Posted r cookie st.queue
                (with_valid_repository base_dir admin host queue
                  (serve_receive_pack base_dir admin host queue)
                  r
                  st).1.queue)
  unfolding session_job
  receive_pack-posts r st =
      elim (with_valid_repository-owner base_dir admin host queue
        (serve_receive_pack base_dir admin host queue) r st) [
          | inr (refused, same) ↦ inl same
          | inl (cookie, me, blogs, h, owner, e) ↦
              elim (serve_receive_pack-queue (owner_session cookie me blogs) r
                (record st { host = h })) [
                  | inl same ↦ inl (ap (λ a. a.1.queue) e ∙ same)
                  | inr posted ↦ inr (
                    cookie,
                    me,
                    blogs,
                    owner,
                    ap (λ a. a.1.queue) e
                        ∙ posted
                        ∙ ap
                            (λ u.
                              (queue.post
                                (record {
                                  username = u;
                                  auth_cookie = cookie;
                                  repository = remove_git_repository_suffix r.repository;
                                })
                                render_job_ttr st.queue).1)
                            owner.username_eq,
                  )
                ]
        ]

  -- A fetch and the advertisement of the references post no job, whoever asks.
  pub fetch-posts_none :
      (r : Request) (st : State H Q)
      → ((with_valid_repository base_dir admin host queue
            (serve_upload_pack base_dir admin host queue)
            r
            st).1.queue
          ≡ st.queue)
        × ((with_valid_repository base_dir admin host queue
              (serve_info_refs base_dir admin host queue)
              r
              st).1.queue
            ≡ st.queue)
  fetch-posts_none r st = (
    elim (with_valid_repository-owner base_dir admin host queue
        (serve_upload_pack base_dir admin host queue) r st) [
          | inr (refused, same) ↦ same
          | inl (cookie, me, blogs, h, owner, e) ↦
              ap (λ a. a.1.queue) e ∙ serve_upload_pack-queue _ r (record st { host = h })
        ],
    elim (with_valid_repository-owner base_dir admin host queue
        (serve_info_refs base_dir admin host queue) r st) [
          | inr (refused, same) ↦ same
          | inl (cookie, me, blogs, h, owner, e) ↦
              ap (λ a. a.1.queue) e ∙ serve_info_refs-queue _ r (record st { host = h })
        ],
  )

  -- The owner's push to an existing repository, with the types that git sends and accepts, is
  -- answered with 200 and posts the job, once the git program has taken the push and where the queue
  -- takes the job.
  pub receive_pack-renders :
      (r : Request) (st : State H Q) (cookie : Cookie) (me : User) (blogs : List Blog) (h : H)
      (q : Q) (u : Unit {0})
      → IsOwner admin r cookie me blogs
      → host.is_dir
          (repository_path base_dir r.username (remove_git_repository_suffix r.repository))
          st.host
        ≡ ok true
      → r.content_type ≡ codes "application/x-git-receive-pack-request"
      → client_accepts r.accepts (codes "application/x-git-receive-pack-result") ≡ true
      → host.run_git
          (codes "receive-pack"
            ∷ codes "--stateless-rpc"
            ∷ repository_path base_dir r.username (remove_git_repository_suffix r.repository)
            ∷ [])
          st.host
        ≡ (ok u, h)
      → queue.post (push_job r cookie) render_job_ttr st.queue ≡ (ok u, q)
      → with_valid_repository base_dir admin host queue
          (serve_receive_pack base_dir admin host queue)
          r
          st
        ≡ (ok (just status_ok), record { host = h; queue = q })
  unfolding serve_receive_pack serve_git_service ◌==◌
  receive_pack-renders r st cookie me blogs h q u owner dir ct acc git post =
      with_valid_repository-serves base_dir admin host queue
        (serve_receive_pack base_dir admin host queue) r st cookie me blogs owner dir
      ∙ rw (ct, acc, git, owner.username_eq, post) refl
