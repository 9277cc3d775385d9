-- ===== src/Tests/Renderings.antt =====
-- Tests of server/pkg/worker/renderworker.go.
use moblog_cloud.Prelude.{
  GoString, codes, Option, none, some, List, [], ◌∷◌, ◌++◌, Result, ok, err, message, ◌≡◌, refl,
  arith, ap, ◌⊎◌, ◌≢◌, inl, inr, true, subst, ok_inj, ◌==◌,
}
use moblog_cloud.Http.{Cookie, zero_cookie, HttpClient}
use moblog_cloud.UserStore.{Blog}
use moblog_cloud.RpcClient.{Codec, new}
use moblog_cloud.AdminClient.{Client, Params, NetLibrary, Decoders}
use moblog_cloud.NetscapeCookies.Fields.{fields}
use moblog_cloud.GitServer.Handlers.{RenderJob}
use moblog_cloud.Worker.Rendering.{
  Settings, directory, regular, Tools, ConfigFile, State, wrapped, upload_html_files, render_blog,
  write_auth_cookie_file,
}
use moblog_cloud.Worker.Rendering.Uploads.{IsBlobStore, source_dir}
use moblog_cloud.Worker.Rendering.Keys.{IsName, Walks, files_of, Stored, upload_html_files-Stored}
use moblog_cloud.UserStore.{valid_alphanumeric}
use moblog_cloud.GitServer.Paths.{join_slash}
use moblog_cloud.AdminClient.{login, set_auth_cookie}
use moblog_cloud.IdGenerator.{next}
use moblog_cloud.RpcClient.{call}
use moblog_cloud.Worker.Rendering.Publishing.{IsQuiet, Adds, Confirmed, render_blog-Confirmed}
use moblog_cloud.Worker.Rendering.CookieFile.{seven_fields, write_auth_cookie_file-lines}

-- A blob store beside a disk that always has the same generated files.
pub record World : Type 0 where
  pub published : List (GoString × GoString)
  pub pending : Option (GoString × GoString)

abbrev new_blobs : Option (GoString × GoString) → List (GoString × GoString)
new_blobs none = []
new_blobs (some blob) = blob ∷ []

abbrev tools : Tools World
tools = record {
  remove_all = λ path w. (ok tt, w);
  write_file = λ path text w. (ok tt, w);
  stat = λ path w. ok none;
  look_path = λ name w. ok name;
  run = λ path args w. (ok tt, w);
  walk = λ path w.
      (path, ok directory)
      ∷ (path ++ codes "/index.html", ok regular)
      ∷ (path ++ codes "/a", err (message []))
      ∷ [];
  open_file = λ path w. ok tt;
  content_type = λ extension. extension;
  open_bucket = λ url w. ok tt;
  new_writer = λ key type w. (ok tt, w);
  copy = λ path key w. (ok tt, record w { pending = some (key, path) });
  close = λ key w. (ok tt, record w { published = w.published ++ new_blobs w.pending });
}

tools-IsBlobStore : IsBlobStore tools (λ w. w.published) (λ w. w.pending)
tools-IsBlobStore = record {
  opens = λ key type w. refl;
  copies = λ path key w. (refl, λ _. refl);
  closes = λ key path w held. ap (λ blob. w.published ++ new_blobs blob) held;
}

tools-IsQuiet : IsQuiet tools (λ w. w.published)
tools-IsQuiet = record {
  removing = λ path w. refl;
  writing = λ path text w. refl;
  running = λ path args w. refl;
}

abbrev nothing_yet : World
nothing_yet = record { published = []; pending = none }

abbrev net : NetLibrary
net = record {
  url_parse = λ url. ok (record { host = url; path = [] });
  split_host_port = λ host. ok host;
  encode_values = λ values. [];
}

abbrev settings : Settings
settings = record {
  admin_server_url = codes "admin";
  git_server_url = codes "git:8080";
  work_dir = codes "/work";
  theme_repository_url = codes "theme";
  blog_output_url = codes "mem";
}

abbrev marshal : ConfigFile → Result GoString
marshal config = ok config.title

abbrev session : Cookie
session = record zero_cookie {
  name = codes "auth";
  value = codes "s1";
  domain = codes "admin";
  expires = 63000000000000000000;
}

abbrev answering : HttpClient (Unit {0})
answering = record {
  post = λ url type body n. (ok (record { status = 200; body = body; cookies = session ∷ [] }), n);
  set_cookies = λ url cookies n. n;
}

abbrev id_codec : Codec Params
id_codec = record {
  encode = λ request. ok request.id;
  decode_reply = λ text. ok (record { id = text; error = []; result = [] });
}

abbrev travel : Blog
travel = record { slug = codes "travel"; display_name = codes "Travels" }

abbrev decode : Decoders
decode = record {
  nothing = λ text. ok tt;
  user = λ text. err (message text);
  blog = λ text. ok travel;
  blogs = λ text. ok [];
}

abbrev job : RenderJob
job = record { username = codes "anna"; auth_cookie = session; repository = codes "travel" }

abbrev source : GoString
source = source_dir tools net marshal settings

index-IsName : IsName (codes "index.html")
unfolding ◌==◌
index-IsName =
    ((refl, (refl, (refl, (refl, (refl, (refl, (refl, (refl, (refl, (refl, tt)))))))))), refl, refl)

a-IsName : IsName (codes "a")
unfolding ◌==◌
a-IsName = ((refl, tt), refl, refl)

tools-Walks : Walks tools source
unfolding join_slash
tools-Walks w = (
  inl refl,
  (
    inr (codes "index.html", [], index-IsName, tt, refl),
    (inr (codes "a", [], a-IsName, tt, refl), tt),
  ),
)

is_valid : (valid_alphanumeric (codes "anna") ≡ true) × (valid_alphanumeric (codes "travel") ≡ true)
unfolding valid_alphanumeric
is_valid = (refl, refl)

upload_html_files-Stored_example :
    let (result, after) =
      upload_html_files tools net marshal settings (codes "anna") (codes "travel") nothing_yet in
    (left : List GoString) × Stored
      (codes "anna")
      (codes "travel")
      source
      (files_of (tools.walk source nothing_yet))
      []
      after.published
      left
    × (result ≡ ok tt → left ≡ [])
upload_html_files-Stored_example =
    upload_html_files-Stored tools net marshal settings (codes "anna") (codes "travel") is_valid.0
      is_valid.1 (λ w. w.published) (λ w. w.pending) tools-IsBlobStore tools-Walks nothing_yet

abbrev begun : State (Unit {0}) World
begun = record { network = tt; world = nothing_yet }

found_travel :
    (blog : Blog)
    → Confirmed tools net marshal settings answering id_codec decode
        (λ w. w.published)
        (λ w. w.pending)
        tools-IsBlobStore
        tools-IsQuiet
        tools-Walks
        job
        tt
        blog
    → valid_alphanumeric blog.slug ≡ true
unfolding call ◌==◌ next login set_auth_cookie
found_travel blog (_, _, found) =
    subst (λ (b : Blog). valid_alphanumeric b.slug ≡ true) (ok_inj found) is_valid.1

render_blog-Confirmed_example :
    let (result, after) =
      render_blog tools net marshal settings answering id_codec decode (ok tt) job begun in
    ((result ≢ ok tt) × (after.world.published ≡ []))
    ⊎ ((blog : Blog) × Confirmed tools net marshal settings answering id_codec decode
          (λ w. w.published)
          (λ w. w.pending)
          tools-IsBlobStore
          tools-IsQuiet
          tools-Walks
          job
          tt
          blog
        × Adds tools net marshal settings answering id_codec decode
            (λ w. w.published)
            (λ w. w.pending)
            tools-IsBlobStore
            tools-IsQuiet
            tools-Walks
            job
            blog
            result
            []
            after.world.published)
render_blog-Confirmed_example =
    render_blog-Confirmed tools net marshal settings answering id_codec decode (λ w. w.published)
      (λ w. w.pending) tools-IsBlobStore tools-IsQuiet tools-Walks (ok tt) job begun is_valid.0
      found_travel

abbrev client : Client
client = record { url = codes "admin"; rpc = new (codes "admin"); auth_cookie = session }

write_auth_cookie_file-lines_example :
    (line : GoString) × (git : GoString) × (write_auth_cookie_file tools net marshal settings client
        (codes "f")
        nothing_yet
      ≡ wrapped
          (codes "Error while writing auth cookie file")
          (tools.write_file (codes "f") (line ++ git) nothing_yet))
    × (fields line ≡ seven_fields (codes "admin") session)
    × (fields git ≡ seven_fields (codes "git:8080") session)
write_auth_cookie_file-lines_example =
    write_auth_cookie_file-lines tools net marshal settings client (codes "f") nothing_yet
      (record { host = codes "git:8080"; path = [] })
      (record {
        domain = λ e. cc;
        expires = λ e. omega (arith, e);
        name = λ e. cc;
        value = λ e. cc;
        plain_domain =
            ((refl, refl), ((refl, refl), ((refl, refl), ((refl, refl), ((refl, refl), tt)))));
        plain_path = tt;
        plain_name = ((refl, refl), ((refl, refl), ((refl, refl), ((refl, refl), tt))));
        plain_value = ((refl, refl), ((refl, refl), tt));
      })
      refl (λ e. cc)
      (
        (refl, refl),
        (
          (refl, refl),
          (
            (refl, refl),
            ((refl, refl), ((refl, refl), ((refl, refl), ((refl, refl), ((refl, refl), tt))))),
          ),
        ),
      )
