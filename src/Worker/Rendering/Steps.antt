-- ===== src/Worker/Rendering/Steps.antt =====
-- server/pkg/worker/renderworker.go: what a step of a rendering that has succeeded has done.
use moblog_cloud.Prelude.{
  GoString, codes, List, [], ◌∷◌, ◌++◌, Result, ok, err, panic, wrap_err-eq-ok, ◌≡◌, refl, ap, sym,
  ◌∙◌, subst,
}
use moblog_cloud.UserStore.{Blog}
use moblog_cloud.AdminClient.{NetLibrary}
use moblog_cloud.GitServer.Paths.{path_join}
use moblog_cloud.GitServer.Handlers.{RenderJob}
use moblog_cloud.Worker.Rendering.{
  Settings, Tools, ConfigFile, config_of, after_step, wrapped, run_git, clone_args, clone_blog,
  generate_config_file, run_hugo,
}

-- A step after another one has succeeded where both have.
after_step-eq-ok :
    {A B S : Type 0} (text : GoString) (r : Result A × S) (rest : A → S → Result B × S) {b : B}
    → (after_step text r rest).0 ≡ ok b
    → (a : A) × (r ≡ (ok a, r.1)) × (after_step text r rest ≡ rest a r.1)
after_step-eq-ok text (ok a, s) rest e = (a, refl, refl)
after_step-eq-ok text (err x, s) rest e = cc
after_step-eq-ok text (panic, s) rest e = cc

wrapped-eq-ok :
    {A S : Type 0} (text : GoString) (r : Result A × S) {a : A}
    → (wrapped text r).0 ≡ ok a
    → r ≡ (ok a, (wrapped text r).1)
wrapped-eq-ok text (r, s) e = ap (λ x. (x, s)) (wrap_err-eq-ok r text e)

module _ {W : Type 0} (tools : Tools W) (net : NetLibrary) (marshal : ConfigFile → Result GoString)
    (settings : Settings) where
  abbrev pub blog_dir : GoString
  blog_dir = path_join (settings.work_dir ∷ codes "blog" ∷ [])

  abbrev pub html_dir : GoString
  html_dir = path_join (settings.work_dir ∷ codes "html" ∷ [])

  -- A program that is found in the PATH has run, and has ended without an error.
  abbrev pub HasRun : GoString → List GoString → W → W → Type 0
  HasRun name args w w' =
      (program : GoString) × (tools.look_path name w ≡ ok program)
      × (tools.run program args w ≡ (ok tt, w'))

  -- The directory was removed, and git has cloned the repository of the job into it.
  abbrev pub Cloned : RenderJob → GoString → W → W → Type 0
  Cloned job cookie_file w w' =
      (emptied : W) × (tools.remove_all blog_dir w ≡ (ok tt, emptied))
      × HasRun (codes "git")
          (codes "-c"
            ∷ (codes "http.cookieFile=" ++ cookie_file)
            ∷ codes "clone"
            ∷ codes "--depth"
            ∷ codes "1"
            ∷ (settings.git_server_url ++ codes "/" ++ job.username ++ codes "/" ++ job.repository)
            ∷ blog_dir
            ∷ [])
          emptied w'

  -- The configuration of the blog was written.
  abbrev pub Configured : GoString → Blog → W → W → Type 0
  Configured config blog w w' =
      (text : GoString) × (marshal (config_of blog) ≡ ok text)
      × (tools.write_file config text w ≡ (ok tt, w'))

  -- The directory of the generated files was removed, and Hugo has generated them again, from the cloned
  -- repository.
  abbrev pub Generated : GoString → W → W → Type 0
  Generated config w w' =
      (emptied : W) × (tools.remove_all html_dir w ≡ (ok tt, emptied))
      × HasRun (codes "hugo")
          (codes "--config"
            ∷ config
            ∷ codes "--source"
            ∷ blog_dir
            ∷ codes "--destination"
            ∷ html_dir
            ∷ codes "--themesDir"
            ∷ settings.work_dir
            ∷ codes "--theme"
            ∷ codes "theme"
            ∷ [])
          emptied w'

  run_git-HasRun :
      (args : List GoString) (w : W)
      → (run_git tools net marshal settings args w).0 ≡ ok tt
      → HasRun (codes "git") args w (run_git tools net marshal settings args w).1
  unfolding run_git
  run_git-HasRun args w e =
      let (git, found, is) = after_step-eq-ok _ (tools.look_path (codes "git") w, w) _ e in
      (
        git,
        ap (λ r. r.0) found,
        wrapped-eq-ok _ (tools.run git args w) (ap (λ r. r.0) (sym is) ∙ e)
            ∙ ap (λ r. (ok tt, r.1)) (sym is),
      )

  pub clone_blog-Cloned :
      (job : RenderJob) (file : GoString) (w : W)
      → (clone_blog tools net marshal settings job file w).0 ≡ ok tt
      → Cloned job file w (clone_blog tools net marshal settings job file w).1
  unfolding clone_blog
  clone_blog-Cloned job file w e =
      let (_, removed, is) = after_step-eq-ok _ (tools.remove_all blog_dir w) _ e in
      let ran = ap (λ r. r.0) (sym is) ∙ e in
      (
        (tools.remove_all blog_dir w).1,
        removed,
        subst
            (λ r.
              HasRun (codes "git") (clone_args tools net marshal settings job file blog_dir)
                (tools.remove_all blog_dir w).1 r.1)
            (sym is) (run_git-HasRun _ _ (wrap_err-eq-ok _ _ ran)),
      )

  pub generate_config_file-Configured :
      (config : GoString) (blog : Blog) (w : W)
      → (generate_config_file tools net marshal settings config blog w).0 ≡ ok tt
      → Configured config blog w (generate_config_file tools net marshal settings config blog w).1
  unfolding generate_config_file
  generate_config_file-Configured config blog w e =
      let (text, encoded, is) = after_step-eq-ok _ (marshal (config_of blog), w) _ e in
      (
        text,
        ap (λ r. r.0) encoded,
        wrapped-eq-ok _ (tools.write_file config text w) (ap (λ r. r.0) (sym is) ∙ e)
            ∙ ap (λ r. (ok tt, r.1)) (sym is),
      )

  pub run_hugo-Generated :
      (config : GoString) (w : W)
      → (run_hugo tools net marshal settings config w).0 ≡ ok tt
      → Generated config w (run_hugo tools net marshal settings config w).1
  unfolding run_hugo
  run_hugo-Generated config w e =
      let (_, removed, is) = after_step-eq-ok _ (tools.remove_all html_dir w) _ e in
      let emptied = (tools.remove_all html_dir w).1 in
      let (hugo, found, is') =
        after_step-eq-ok _ (tools.look_path (codes "hugo") emptied, emptied) _
          (ap (λ r. r.0) (sym is) ∙ e) in
      (
        emptied,
        removed,
        (
          hugo,
          ap (λ r. r.0) found,
          wrapped-eq-ok _ (tools.run hugo _ emptied) (ap (λ r. r.0) (sym (is ∙ is')) ∙ e)
              ∙ ap (λ r. (ok tt, r.1)) (sym (is ∙ is')),
        ),
      )
