-- ===== src/Worker/Rendering.antt =====
-- server/pkg/worker/renderworker.go, and runGit of worker.go. The disk, the programs that are run and
-- the blob store are the parameter `tools`, over a world `W`; the admin server's client is that of
-- adminserver/client.go. What a program writes to its standard error is left out of the error's text.
pub mod CookieFile
pub mod Uploads
pub mod Keys
pub mod Steps
pub mod Publishing
use moblog_cloud.Prelude.{
  ℕ, GoString, codes, ◌==◌, ◌||◌, Bool, true, false, Option, none, some, List, [], ◌∷◌, ◌++◌,
  length, Error, message, wrap, Result, ok, err, panic, wrap_err, if◌then◌else◌,
}
use moblog_cloud.Http.{Cookie, Url, HttpClient}
use moblog_cloud.UserStore.{Blog}
use moblog_cloud.NetscapeCookies.{write_cookie}
use moblog_cloud.RpcClient.{Codec}
use moblog_cloud.AdminClient.{
  Client, Params, NetLibrary, Decoders, new_client, auth_cookie, set_auth_cookie, login,
  refresh_session, get_user_blog,
}
use moblog_cloud.GitServer.{drop}
use moblog_cloud.GitServer.Paths.{path_join}
use moblog_cloud.GitServer.Handlers.{RenderJob}

-- The fields of `Worker` that a rendering reads.
pub record Settings : Type 0 where
  pub admin_server_url : GoString
  pub git_server_url : GoString
  pub work_dir : GoString
  pub theme_repository_url : GoString
  pub blog_output_url : GoString

pub data FileKind : Type 0 where
  directory regular other_file : FileKind

-- `walk` lists the visits of `filepath.Walk` in their order: a path, with its kind or an error.
pub record Tools (W : Type 0) : Type 0 where
  pub remove_all : GoString → W → Result (Unit {0}) × W
  pub write_file : GoString → GoString → W → Result (Unit {0}) × W
  pub stat : GoString → W → Result (Option FileKind)
  pub look_path : GoString → W → Result GoString
  pub run : GoString → List GoString → W → Result (Unit {0}) × W
  pub walk : GoString → W → List (GoString × Result FileKind)
  pub open_file : GoString → W → Result (Unit {0})
  pub content_type : GoString → GoString
  pub open_bucket : GoString → W → Result (Unit {0})
  pub new_writer : GoString → GoString → W → Result (Unit {0}) × W
  pub copy : GoString → GoString → W → Result (Unit {0}) × W
  pub close : GoString → W → Result (Unit {0}) × W

pub record ConfigFile : Type 0 where
  pub build_future : Bool
  pub disable_kinds : List GoString
  pub enable_inline_shortcodes : Bool
  pub language_code : GoString
  pub rss_limit : ℕ
  pub title : GoString

abbrev pub blog_directory : GoString
blog_directory = codes "blog"

abbrev pub theme_directory : GoString
theme_directory = codes "theme"

abbrev pub result_directory : GoString
result_directory = codes "html"

-- `if err != nil { return errors.Wrap(err, text) }`, and what follows.
abbrev pub after_step :
    {A B S : Type 0} → GoString → Result A × S → (A → S → Result B × S) → Result B × S
after_step text (ok a, s) rest = rest a s
after_step text (err e, s) rest = (err (wrap e text), s)
after_step text (panic, s) rest = (panic, s)

abbrev pub wrapped : {A S : Type 0} → GoString → Result A × S → Result A × S
wrapped text (r, s) = (wrap_err r text, s)

-- The file name extension of `path.Ext`: from the last dot of the last element.
abbrev pub has_slash_or_dot : GoString → Bool
has_slash_or_dot [] = false
has_slash_or_dot (c ∷ s) = (c ∷ [] == codes "/" || c ∷ [] == codes ".") || has_slash_or_dot s

unfoldable pub ext : GoString → GoString
ext [] = []
ext (c ∷ s) =
    let rest = ext s in
    if has_slash_or_dot s then rest else if c ∷ [] == codes "." then c ∷ s else []

abbrev pub config_of : Blog → ConfigFile
config_of blog = record {
  build_future = true;
  disable_kinds =
      codes "section"
      ∷ codes "taxonomy"
      ∷ codes "taxonomyTerm"
      ∷ codes "sitemap"
      ∷ codes "robotsTXT"
      ∷ codes "404"
      ∷ [];
  enable_inline_shortcodes = false;
  language_code = codes "en-us";
  rss_limit = 100;
  title = blog.display_name;
}

module _ {W : Type 0} (tools : Tools W) (net : NetLibrary) (marshal : ConfigFile → Result GoString)
    (settings : Settings) where
  unfoldable pub run_git : List GoString → W → Result (Unit {0}) × W
  run_git args w =
      after_step (codes "Cannot find git in PATH") (tools.look_path (codes "git") w, w)
        λ git w. wrapped (codes "Git returned an error") (tools.run git args w)

  -- The line for the git server, of the cookie for the admin server.
  abbrev pub git_line : Cookie → GoString → Result Url → Result GoString
  git_line cookie line (err e) = err (wrap e (codes "Error while parsing Git server URL"))
  git_line cookie line panic = panic
  git_line cookie line (ok url) = elim (write_cookie (record cookie { domain = url.host })) [
    | ok more ↦ ok (line ++ more)
    | err e ↦ err (wrap e (codes "Error while serializing git server cookie"))
    | panic ↦ panic
  ]

  abbrev pub cookie_lines : Result (Option Cookie) → Result GoString
  cookie_lines (err e) = err (wrap e (codes "Error while retrieving auth cookie from admin client"))
  cookie_lines panic = panic
  cookie_lines (ok none) = err (message (codes "Admin client has no auth cookie"))
  cookie_lines (ok (some cookie)) = elim (write_cookie cookie) [
    | ok line ↦ git_line cookie line (net.url_parse settings.git_server_url)
    | err e ↦ err (wrap e (codes "Error while serializing admin server cookie"))
    | panic ↦ panic
  ]

  abbrev pub write_lines : GoString → Result GoString → W → Result (Unit {0}) × W
  write_lines file (err e) w = (err e, w)
  write_lines file panic w = (panic, w)
  write_lines file (ok lines) w =
      wrapped (codes "Error while writing auth cookie file") (tools.write_file file lines w)

  unfoldable pub write_auth_cookie_file : Client → GoString → W → Result (Unit {0}) × W
  write_auth_cookie_file client file w = write_lines file (cookie_lines (auth_cookie client)) w

  abbrev pub clone_args : RenderJob → GoString → GoString → List GoString
  clone_args job file repo_path =
      codes "-c"
      ∷ (codes "http.cookieFile=" ++ file)
      ∷ codes "clone"
      ∷ codes "--depth"
      ∷ codes "1"
      ∷ (settings.git_server_url ++ codes "/" ++ job.username ++ codes "/" ++ job.repository)
      ∷ repo_path
      ∷ []

  unfoldable pub clone_blog : RenderJob → GoString → W → Result (Unit {0}) × W
  unfolding run_git
  clone_blog job file w =
      let repo_path = path_join (settings.work_dir ∷ blog_directory ∷ []) in
      after_step (codes "Error while cleaning blog directory") (tools.remove_all repo_path w)
        λ _ w. wrapped (codes "Error while cloning") (run_git (clone_args job file repo_path) w)

  abbrev pub theme_from : GoString → Result (Option FileKind) → W → Result (Unit {0}) × W
  theme_from path (err e) w =
      (err (wrap e (codes "Error while checking if theme directory exists")), w)
  theme_from path panic w = (panic, w)
  theme_from path (ok none) w =
      wrapped (codes "Error while cloning theme")
        (run_git (codes "clone" ∷ settings.theme_repository_url ∷ path ∷ []) w)
  theme_from path (ok (some directory)) w =
      wrapped (codes "Error while pulling in theme dir")
        (run_git (codes "-C" ∷ path ∷ codes "pull" ∷ []) w)
  theme_from path (ok (some _)) w =
      (err (message (codes "Theme path exists but is not a directory")), w)

  unfoldable pub clone_theme : W → Result (Unit {0}) × W
  unfolding run_git
  clone_theme w =
      let path = path_join (settings.work_dir ∷ theme_directory ∷ []) in
      theme_from path (tools.stat path w) w

  unfoldable pub generate_config_file : GoString → Blog → W → Result (Unit {0}) × W
  generate_config_file path blog w =
      after_step (codes "Error while encoding configuration file") (marshal (config_of blog), w)
        λ text w. wrapped (codes "Error while writing config file") (tools.write_file path text w)

  abbrev pub hugo_args : GoString → GoString → List GoString
  hugo_args config destination =
      codes "--config"
      ∷ config
      ∷ codes "--source"
      ∷ path_join (settings.work_dir ∷ blog_directory ∷ [])
      ∷ codes "--destination"
      ∷ destination
      ∷ codes "--themesDir"
      ∷ settings.work_dir
      ∷ codes "--theme"
      ∷ theme_directory
      ∷ []

  unfoldable pub run_hugo : GoString → W → Result (Unit {0}) × W
  run_hugo config w =
      let destination = path_join (settings.work_dir ∷ result_directory ∷ []) in
      after_step (codes "Error while cleaning destination directory")
        (tools.remove_all destination w)
        λ _ w.
          after_step (codes "Cannot find hugo in PATH") (tools.look_path (codes "hugo") w, w)
            λ hugo w.
              wrapped (codes "Hugo returned an error")
                (tools.run hugo (hugo_args config destination) w)

  -- The last three steps of `uploadFile`, each with what follows it.
  abbrev pub finalized : GoString → W → Result (Unit {0}) × W
  finalized key w =
      wrapped (codes "Error while finalizing upload")
        (wrapped (codes "Error while finalizing upload") (tools.close key w))

  abbrev pub copied : GoString → GoString → W → Result (Unit {0}) × W
  copied key path w =
      after_step (codes "Error while copying file data") (tools.copy path key w)
        (λ _. finalized key)

  abbrev pub written : GoString → GoString → W → Result (Unit {0}) × W
  written key path w =
      after_step (codes "Error while creating writer")
        (tools.new_writer key (tools.content_type (ext path)) w) (λ _. copied key path)

  unfoldable pub upload_file : GoString → GoString → W → Result (Unit {0}) × W
  unfolding ext
  upload_file key path w =
      after_step (codes "Error while opening source file") (tools.open_file path w, w)
        (λ _. written key path)

  abbrev pub key_of : GoString → GoString → GoString → GoString → GoString
  key_of source username slug path = path_join (username ∷ slug ∷ drop (length source) path ∷ [])

  abbrev pub copy_visit :
      GoString → GoString → GoString → GoString × Result FileKind → W → Result (Unit {0}) × W
  copy_visit source username slug (path, err e) w = (err e, w)
  copy_visit source username slug (path, panic) w = (panic, w)
  copy_visit source username slug (path, ok directory) w = (ok tt, w)
  copy_visit source username slug (path, ok regular) w =
      upload_file (key_of source username slug path) path w
  copy_visit source username slug (path, ok other_file) w =
      (err (message (codes "Don't know how to copy " ++ path ++ codes ": unknown file type")), w)

  -- `filepath.Walk` ends at the first error.
  abbrev pub go_on : Result (Unit {0}) × W → (W → Result (Unit {0}) × W) → Result (Unit {0}) × W
  go_on (ok _, w) rest = rest w
  go_on (err e, w) rest = (err e, w)
  go_on (panic, w) rest = (panic, w)

  unfoldable pub copy_visits :
      GoString → GoString → GoString → List (GoString × Result FileKind) → W → Result (Unit {0}) × W
  unfolding upload_file
  copy_visits source username slug [] w = (ok tt, w)
  copy_visits source username slug (visit ∷ visits) w =
      go_on (copy_visit source username slug visit w) (copy_visits source username slug visits)

  unfoldable pub upload_html_files : GoString → GoString → W → Result (Unit {0}) × W
  unfolding copy_visits
  upload_html_files username slug w =
      let source = path_join (settings.work_dir ∷ result_directory ∷ []) in
      after_step (codes "Error while opening bucket")
        (tools.open_bucket settings.blog_output_url w, w)
        λ _ w.
          wrapped (codes "Error while copying files")
            (copy_visits source username slug (tools.walk source w) w)

-- The network of the admin server's client, and the rest of the world.
pub record State (N W : Type 0) : Type 0 where
  pub network : N
  pub world : W

module _ {N W : Type 0} (tools : Tools W) (net : NetLibrary)
    (marshal : ConfigFile → Result GoString) (settings : Settings) (http : HttpClient N)
    (codec : Codec Params) (decode : Decoders) where
  -- A step in the world, and a call of the client.
  abbrev pub in_world : {A : Type 0} → (W → Result A × W) → State N W → Result A × State N W
  in_world f st = let (r, w) = f st.world in (r, record st { world = w })

  abbrev pub by_client :
      {A : Type 0} → Result A × Client × N → State N W → Result (A × Client) × State N W
  by_client (ok a, client, n) st = (ok (a, client), record st { network = n })
  by_client (err e, client, n) st = (err e, record st { network = n })
  by_client (panic, client, n) st = (panic, record st { network = n })

  -- From the cloning of the blog to the end.
  unfoldable pub publish : RenderJob → Blog → GoString → State N W → Result (Unit {0}) × State N W
  unfolding clone_blog clone_theme generate_config_file run_hugo upload_html_files
  publish job blog file st =
      let config = path_join (settings.work_dir ∷ codes "config.json" ∷ []) in
      after_step (codes "Error while cloning blog")
        (in_world (clone_blog tools net marshal settings job file) st)
        λ _ st.
          after_step (codes "Error while cloning theme")
            (in_world (clone_theme tools net marshal settings) st)
            λ _ st.
              after_step (codes "Error while generating config file")
                (in_world (generate_config_file tools net marshal settings config blog) st)
                λ _ st.
                  after_step (codes "Error while running Hugo")
                    (in_world (run_hugo tools net marshal settings config) st)
                    λ _ st. wrapped (codes "Error while uploading generated files") (
                      in_world (upload_html_files tools net marshal settings job.username blog.slug)
                        st)

  -- From the client's cookie file on.
  unfoldable pub with_blog : RenderJob → Blog × Client → State N W → Result (Unit {0}) × State N W
  unfolding write_auth_cookie_file publish
  with_blog job (blog, client) st =
      let file = path_join (settings.work_dir ∷ codes "auth_cookie.txt" ∷ []) in
      after_step (codes "Error while writing auth cookie file")
        (in_world (write_auth_cookie_file tools net marshal settings client file) st)
        λ _ st. publish job blog file st

  -- `jar` is the outcome of making the client's cookie jar.
  unfoldable pub render_blog :
      Result (Unit {0}) → RenderJob → State N W → Result (Unit {0}) × State N W
  unfolding set_auth_cookie login with_blog
  render_blog jar job st =
      after_step (codes "Error while creating adminserver client")
        (new_client jar settings.admin_server_url, st)
        λ client st.
          after_step (codes "Error while setting auth cookie on client")
            (by_client (set_auth_cookie net http (some job.auth_cookie) client st.network) st)
            λ (_, client) st.
              after_step (codes "Error while refreshing client session")
                (by_client (refresh_session net http client st.network) st)
                λ (_, client) st.
                  after_step (codes "Error while fetching blog information")
                    (by_client
                      (get_user_blog http codec decode job.username job.repository client
                        st.network)
                      st)
                    λ (blog, client) st. with_blog job (blog, client) st
