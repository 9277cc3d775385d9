-- ===== src/Worker/Rendering/Publishing.antt =====
-- server/pkg/worker/renderworker.go: when a rendering publishes, and what.
use moblog_cloud.Prelude.{
  GoString, codes, Option, none, some, List, [], ◌∷◌, ◌++◌, Result, ok, err, panic, true, ok-ne-err,
  wrap_err-eq-ok, ◌≡◌, ◌≢◌, sym, refl, ap, ◌∙◌, ◌⊎◌, inl, inr,
}
use moblog_cloud.Http.{HttpClient, zero_cookie}
use moblog_cloud.UserStore.{Blog}
use moblog_cloud.RpcClient.{Codec, new}
use moblog_cloud.AdminClient.{
  Client, Params, NetLibrary, Decoders, auth_cookie, set_auth_cookie, refresh_session,
  get_user_blog,
}
use moblog_cloud.GitServer.Paths.{path_join}
use moblog_cloud.GitServer.Handlers.{RenderJob}
use moblog_cloud.Worker.Rendering.{
  Settings, FileKind, directory, regular, other_file, Tools, ConfigFile, State, after_step, run_git,
  cookie_lines, write_lines, write_auth_cookie_file, clone_blog, theme_from, clone_theme,
  generate_config_file, run_hugo, in_world, by_client, publish, with_blog, render_blog,
}
use moblog_cloud.Worker.Rendering.Uploads.{IsBlobStore, source_dir}
use moblog_cloud.Worker.Rendering.Keys.{Walks, files_of, Stored, upload_html_files-Stored}
use moblog_cloud.Worker.Rendering.Steps.{
  Cloned, Configured, Generated, clone_blog-Cloned, generate_config_file-Configured,
  run_hugo-Generated,
}
use moblog_cloud.UserStore.{valid_alphanumeric}

-- The tools that are not the blob store's publish nothing.
pub record IsQuiet {W : Type 0} (tools : Tools W) (published : W → List (GoString × GoString))
    : Type 0 where
  pub removing : (path : GoString) (w : W) → published (tools.remove_all path w).1 ≡ published w
  pub writing :
      (path text : GoString) (w : W) → published (tools.write_file path text w).1 ≡ published w
  pub running :
      (path : GoString) (args : List GoString) (w : W)
      → published (tools.run path args w).1 ≡ published w

-- What holds of the state at an error and of the state that follows a success holds after the step.
after_step-state :
    {A B S : Type 0} (Q : S → Type 0) (text : GoString) (r : Result A × S)
    (rest : A → S → Result B × S)
    → Q r.1
    → ((a : A) → r.0 ≡ ok a → Q r.1 → Q (rest a r.1).1)
    → Q (after_step text r rest).1
after_step-state Q text (ok a, s) rest q h = h a refl q
after_step-state Q text (err e, s) rest q h = q
after_step-state Q text (panic, s) rest q h = q

-- What holds of every failure in the state of a step, and of what follows a success, holds after it.
after_step-outcome :
    {A B S : Type 0} (Q : Result B × S → Type 0) (text : GoString) (r : Result A × S)
    (rest : A → S → Result B × S)
    → ((x : Result B) → ((b : B) → x ≢ ok b) → Q (x, r.1))
    → ((a : A) → r.0 ≡ ok a → Q (rest a r.1))
    → Q (after_step text r rest)
after_step-outcome Q text (ok a, s) rest fails h = h a refl
after_step-outcome Q text (err e, s) rest fails h = fails _ λ b same. ok-ne-err (sym same)
after_step-outcome Q text (panic, s) rest fails h = fails _ λ b same. cc

module _ {W : Type 0} (tools : Tools W) (net : NetLibrary) (marshal : ConfigFile → Result GoString)
    (settings : Settings) (published : W → List (GoString × GoString))
    (quiet : IsQuiet tools published) (b : List (GoString × GoString)) where
  abbrev Same : W → Type 0
  Same w = published w ≡ b

  run_git-Same :
      (args : List GoString) (w : W) → Same w → Same (run_git tools net marshal settings args w).1
  unfolding run_git
  run_git-Same args w same =
      after_step-state Same _ (tools.look_path (codes "git") w, w) _ same
        λ git _ _. quiet.running git args w ∙ same

  clone_blog-Same :
      (job : RenderJob) (file : GoString) (w : W)
      → Same w
      → Same (clone_blog tools net marshal settings job file w).1
  unfolding clone_blog
  clone_blog-Same job file w same =
      after_step-state Same _ (tools.remove_all _ w) _ (quiet.removing _ w ∙ same)
        λ _ _ same'. run_git-Same _ _ same'

  clone_theme-Same : (w : W) → Same w → Same (clone_theme tools net marshal settings w).1
  unfolding clone_theme
  clone_theme-Same w same = from (tools.stat path w)
    where
      path : GoString
      path = path_join (settings.work_dir ∷ codes "theme" ∷ [])

      from :
          (r : Result (Option FileKind)) → Same (theme_from tools net marshal settings path r w).1
      from (err e) = same
      from panic = same
      from (ok none) = run_git-Same _ w same
      from (ok (some directory)) = run_git-Same _ w same
      from (ok (some regular)) = same
      from (ok (some other_file)) = same

  generate_config_file-Same :
      (path : GoString) (blog : Blog) (w : W)
      → Same w
      → Same (generate_config_file tools net marshal settings path blog w).1
  unfolding generate_config_file
  generate_config_file-Same path blog w same =
      after_step-state Same _ (marshal _, w) _ same λ text _ _. quiet.writing path text w ∙ same

  run_hugo-Same :
      (config : GoString) (w : W) → Same w → Same (run_hugo tools net marshal settings config w).1
  unfolding run_hugo
  run_hugo-Same config w same =
      after_step-state Same _ (tools.remove_all _ w) _ (quiet.removing _ w ∙ same) λ _ _ same'.
        after_step-state Same _ (tools.look_path (codes "hugo") _, _) _ same'
          λ hugo _ same''. quiet.running hugo _ _ ∙ same''

  write_auth_cookie_file-Same :
      (client : Client) (file : GoString) (w : W)
      → Same w
      → Same (write_auth_cookie_file tools net marshal settings client file w).1
  unfolding write_auth_cookie_file
  write_auth_cookie_file-Same client file w same =
      lines (cookie_lines tools net marshal settings (auth_cookie client))
    where
      lines : (r : Result GoString) → Same (write_lines tools net marshal settings file r w).1
      lines (err e) = same
      lines panic = same
      lines (ok text) = quiet.writing file text w ∙ same

module _ {N W : Type 0} (tools : Tools W) (net : NetLibrary)
    (marshal : ConfigFile → Result GoString) (settings : Settings) (http : HttpClient N)
    (codec : Codec Params) (decode : Decoders) (published : W → List (GoString × GoString))
    (pending : W → Option (GoString × GoString)) (is : IsBlobStore tools published pending)
    (quiet : IsQuiet tools published)
    (walks : Walks tools (source_dir tools net marshal settings)) where
  abbrev pub cookie_file : GoString
  cookie_file = path_join (settings.work_dir ∷ codes "auth_cookie.txt" ∷ [])

  abbrev pub config_file : GoString
  config_file = path_join (settings.work_dir ∷ codes "config.json" ∷ [])

  -- From one world to the other, the job's repository was cloned, the theme fetched, the blog's
  -- configuration written, and the blog generated anew, each without an error.
  abbrev pub IsRendered : RenderJob → Blog → W → W → Type 0
  IsRendered job blog w w' =
      (cloned : W) × (themed : W) × (configured : W) × Cloned tools net marshal settings job
        cookie_file w cloned
      × (clone_theme tools net marshal settings cloned ≡ (ok tt, themed))
      × Configured tools net marshal settings config_file blog themed configured
      × Generated tools net marshal settings config_file configured w'

  -- The new blobs are of the first of the generated files, as they stand when the blog was rendered, and
  -- without an error of every one.
  abbrev pub Adds :
      RenderJob
      → Blog
      → Result (Unit {0})
      → List (GoString × GoString)
      → List (GoString × GoString)
      → Type 0
  Adds job blog result before after =
      let source = source_dir tools net marshal settings in
      (w : W) × (rendered : W) × IsRendered job blog w rendered
      × ((left : List GoString) × Stored job.username blog.slug source
            (files_of (tools.walk source rendered)) before after left
          × (result ≡ ok tt → left ≡ []))

  -- An outcome that leaves the blob store as it was, with an error, or adds to it.
  abbrev Outcome :
      RenderJob → Blog → List (GoString × GoString) → Result (Unit {0}) × State N W → Type 0
  Outcome job blog before (r, st) =
      ((r ≢ ok tt) × (published st.world ≡ before)) ⊎ Adds job blog r before (published st.world)

  publish-Adds :
      (job : RenderJob) (blog : Blog) (st : State N W) (before : List (GoString × GoString))
      → valid_alphanumeric job.username ≡ true
      → valid_alphanumeric blog.slug ≡ true
      → published st.world ≡ before
      → Outcome job blog before
          (publish tools net marshal settings http codec decode job blog cookie_file st)
  unfolding publish
  publish-Adds job blog st before valid_u valid_s same =
      let same1 =
        clone_blog-Same tools net marshal settings published quiet before job cookie_file st.world
          same in
      step _ (clone_blog tools net marshal settings job cookie_file) st _ same1 λ cloned.
        let same2 = clone_theme-Same tools net marshal settings published quiet before _ same1 in
        step _ (clone_theme tools net marshal settings) _ _ same2 λ themed.
          let same3 =
            generate_config_file-Same tools net marshal settings published quiet before config_file
              blog _ same2 in
          step _ (generate_config_file tools net marshal settings config_file blog) _ _ same3
            λ configured.
              let same4 =
                run_hugo-Same tools net marshal settings published quiet before config_file _
                  same3 in
              step _ (run_hugo tools net marshal settings config_file) _ _ same4 λ generated.
                let (left, (new, files, are, after), whole) =
                  upload_html_files-Stored tools net marshal settings job.username blog.slug valid_u
                    valid_s published pending is walks _ in
                inr (
                  _,
                  _,
                  (
                    _,
                    _,
                    _,
                    clone_blog-Cloned tools net marshal settings job cookie_file st.world cloned,
                    ap (λ r. (r, (clone_theme tools net marshal settings cloned_world).1)) themed,
                    generate_config_file-Configured tools net marshal settings config_file blog _
                        configured,
                    run_hugo-Generated tools net marshal settings config_file _ generated,
                  ),
                  (
                    left,
                    (new, files, are, after ∙ ap (λ x. x ++ new) same4),
                    λ ended. whole (wrap_err-eq-ok _ _ ended),
                  ),
                )
    where
      cloned_world : W
      cloned_world = (clone_blog tools net marshal settings job cookie_file st.world).1

      step :
          (text : GoString) (f : W → Result (Unit {0}) × W) (st' : State N W)
          (rest : Unit {0} → State N W → Result (Unit {0}) × State N W)
          → published (f st'.world).1 ≡ before
          → ((f st'.world).0 ≡ ok tt
              → Outcome job blog before (rest tt (record st' { world = (f st'.world).1 })))
          → Outcome job blog before
              (after_step text (in_world tools net marshal settings http codec decode f st') rest)
      step text f st' rest kept next =
          after_step-outcome (Outcome job blog before) text
            (in_world tools net marshal settings http codec decode f st') rest
            (λ x fails. inl (fails tt, kept)) λ _ done. next done

  with_blog-Adds :
      (job : RenderJob) (blog : Blog) (client : Client) (st : State N W)
      (before : List (GoString × GoString))
      → valid_alphanumeric job.username ≡ true
      → valid_alphanumeric blog.slug ≡ true
      → published st.world ≡ before
      → Outcome job blog before
          (with_blog tools net marshal settings http codec decode job (blog, client) st)
  unfolding with_blog
  with_blog-Adds job blog client st before valid_u valid_s same =
      let same1 =
        write_auth_cookie_file-Same tools net marshal settings published quiet before client
          cookie_file st.world same in
      after_step-outcome (Outcome job blog before) _
        (in_world tools net marshal settings http codec decode
          (write_auth_cookie_file tools net marshal settings client cookie_file) st)
        _ (λ x fails. inl (fails tt, same1))
        λ _ _. publish-Adds job blog _ before valid_u valid_s same1

  -- The admin server's answers to the client of a job: it takes the job's cookie, renews the session, and
  -- has the blog of the job's user and name.
  abbrev pub Confirmed : RenderJob → N → Blog → Type 0
  Confirmed job n blog =
      let client : Client = record {
        url = settings.admin_server_url;
        rpc = new settings.admin_server_url;
        auth_cookie = zero_cookie;
      } in
      let (taken, client1, n1) = set_auth_cookie net http (some job.auth_cookie) client n in
      let (renewed, client2, n2) = refresh_session net http client1 n1 in
      let (found, _, _) = get_user_blog http codec decode job.username job.repository client2 n2 in
      (taken ≡ ok tt) × (renewed ≡ ok tt) × (found ≡ ok blog)

  client_step :
      {A B : Type 0} (Q : Result B × State N W → Type 0) (text : GoString)
      (called : Result A × Client × N) (st : State N W)
      (rest : A × Client → State N W → Result B × State N W)
      → ((x : Result B) (n : N) → ((b : B) → x ≢ ok b) → Q (x, record st { network = n }))
      → ((a : A) → called.0 ≡ ok a → Q (rest (a, called.1) (record st { network = called.2 })))
      → Q (after_step text (by_client tools net marshal settings http codec decode called st) rest)
  client_step Q text (ok a, c, n) st rest q h = h a refl
  client_step Q text (err e, c, n) st rest q h = q _ n λ b same. ok-ne-err (sym same)
  client_step Q text (panic, c, n) st rest q h = q _ n λ b same. cc

  -- Where the names of the job's user and of the blogs that the admin server confirms are valid: a
  -- rendering either ends with an error and leaves the blob store as it was, or the admin server has
  -- confirmed, to a client with the job's cookie, that the job's user has the blog, the job's repository
  -- was then cloned and the blog generated from it, and the new blobs are of the first of the generated
  -- files, in the order of their walk, and without an error of every one, each under the names of the
  -- job's user, of that blog, and what its path has below the directory.
  pub render_blog-Confirmed :
      (jar : Result (Unit {0})) (job : RenderJob) (st : State N W)
      → valid_alphanumeric job.username ≡ true
      → ((blog : Blog) → Confirmed job st.network blog → valid_alphanumeric blog.slug ≡ true)
      → let (result, after) = render_blog tools net marshal settings http codec decode jar job st in
        ((result ≢ ok tt) × (published after.world ≡ published st.world))
        ⊎ ((blog : Blog) × Confirmed job st.network blog
            × Adds job blog result (published st.world) (published after.world))
  unfolding render_blog
  render_blog-Confirmed (err e) job st valid_u valid_s = inl ((λ same. ok-ne-err (sym same)), refl)
  render_blog-Confirmed panic job st valid_u valid_s = inl ((λ same. cc), refl)
  render_blog-Confirmed (ok _) job st valid_u valid_s =
      client_step Q _ set st _ (λ x n fails. inl (fails tt, refl))
        λ _ taken.
          client_step Q _ renewed (record st { network = set.2 }) _
            (λ x n fails. inl (fails tt, refl))
            λ _ is_renewed.
              client_step Q _ fetched (record st { network = renewed.2 }) _
                (λ x n fails. inl (fails tt, refl))
                λ blog found.
                  elim (with_blog-Adds job blog fetched.1 (record st { network = fetched.2 })
                    (published st.world) valid_u (valid_s blog (taken, is_renewed, found)) refl) [
                      | inl same ↦ inl same
                      | inr adds ↦ inr (blog, (taken, is_renewed, found), adds)
                    ]
    where
      Q : Result (Unit {0}) × State N W → Type 0
      Q (r, st') =
          ((r ≢ ok tt) × (published st'.world ≡ published st.world))
          ⊎ ((blog : Blog) × Confirmed job st.network blog
              × Adds job blog r (published st.world) (published st'.world))

      set : Result (Unit {0}) × Client × N
      set =
          set_auth_cookie net http (some job.auth_cookie)
            (record {
              url = settings.admin_server_url;
              rpc = new settings.admin_server_url;
              auth_cookie = zero_cookie;
            })
            st.network

      renewed : Result (Unit {0}) × Client × N
      renewed = refresh_session net http set.1 set.2

      fetched : Result Blog × Client × N
      fetched = get_user_blog http codec decode job.username job.repository renewed.1 renewed.2
