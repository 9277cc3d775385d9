-- ===== src/Worker/Rendering/CookieFile.antt =====
-- server/pkg/worker/renderworker.go: the cookie file that writeAuthCookieFile writes for git.
use moblog_cloud.Prelude.{
  GoString, codes, ◌==◌, eq_iff, some, List, [], ◌∷◌, ◌++◌, Result, ok, ◌≡◌, ◌≢◌, refl, ap, ◌∙◌,
  Bool-cases, inl, inr,
}
use moblog_cloud.Http.{Cookie, Url}
use moblog_cloud.NetscapeCookies.{write_cookie, path_of, bool_str, unix_text}
use moblog_cloud.NetscapeCookies.Fields.{fields, fields-write_cookie, IsPlain}
use moblog_cloud.AdminClient.{Client, NetLibrary, auth_cookie}
use moblog_cloud.Worker.Rendering.{
  Settings, Tools, ConfigFile, wrapped, git_line, cookie_lines, write_lines, write_auth_cookie_file,
}

-- The fields of a line for the domain.
abbrev pub seven_fields : GoString → Cookie → List GoString
seven_fields domain cookie =
    domain
    ∷ codes "FALSE"
    ∷ path_of cookie
    ∷ bool_str cookie.secure
    ∷ unix_text cookie.expires
    ∷ cookie.name
    ∷ cookie.value
    ∷ []

-- A cookie that has all that a line needs, and neither a tab nor a newline.
pub record IsComplete (cookie : Cookie) : Type 0 where
  pub domain : cookie.domain ≢ []
  pub expires : cookie.expires ≢ 0
  pub name : cookie.name ≢ []
  pub value : cookie.value ≢ []
  pub plain_domain : IsPlain cookie.domain
  pub plain_path : IsPlain cookie.path
  pub plain_name : IsPlain cookie.name
  pub plain_value : IsPlain cookie.value

line_of :
    (cookie : Cookie)
    → IsComplete cookie
    → (line : GoString) × (write_cookie cookie ≡ ok line)
      × (fields line ≡ seven_fields cookie.domain cookie)
line_of cookie is =
    fields-write_cookie cookie is.domain is.expires is.name is.value is.plain_domain is.plain_path
      is.plain_name is.plain_value

module _ {W : Type 0} (tools : Tools W) (net : NetLibrary) (marshal : ConfigFile → Result GoString)
    (settings : Settings) where
  -- Where the client's cookie is complete and the URL of the git server has a host without a tab or a
  -- newline, the file is written with two lines: the one reads back as the cookie's fields, the other as
  -- the same fields but for the domain, which is the host of that URL with its port.
  pub write_auth_cookie_file-lines :
      (client : Client) (file : GoString) (w : W) (url : Url)
      → IsComplete client.auth_cookie
      → net.url_parse settings.git_server_url ≡ ok url
      → url.host ≢ []
      → IsPlain url.host
      → (line : GoString) × (git : GoString) × (write_auth_cookie_file tools net marshal settings
            client file w
          ≡ wrapped
              (codes "Error while writing auth cookie file")
              (tools.write_file file (line ++ git) w))
        × (fields line ≡ seven_fields client.auth_cookie.domain client.auth_cookie)
        × (fields git ≡ seven_fields url.host client.auth_cookie)
  unfolding write_auth_cookie_file
  write_auth_cookie_file-lines client file w url is parsed hosted plain =
      let cookie : Cookie = client.auth_cookie in
      let (line, written, read) = line_of cookie is in
      let (git, git_written, git_read) =
        line_of (record cookie { domain = url.host })
          (record {
            domain = hosted;
            expires = is.expires;
            name = is.name;
            value = is.value;
            plain_domain = plain;
            plain_path = is.plain_path;
            plain_name = is.plain_name;
            plain_value = is.plain_value;
          }) in
      (
        line,
        git,
        ap (λ r. write_lines tools net marshal settings file r w) (both written git_written),
        read,
        git_read,
      )
    where
      named : auth_cookie client ≡ ok (some client.auth_cookie)
      named = elim (Bool-cases (client.auth_cookie.name == [])) [
        | inl is_empty ↦ absurd (is.name ((eq_iff client.auth_cookie.name []).0 is_empty))
        | inr given ↦ rw (given, auth_cookie) refl
      ]

      both :
          {line git : GoString}
          → write_cookie client.auth_cookie ≡ ok line
          → write_cookie (record client.auth_cookie { domain = url.host }) ≡ ok git
          → cookie_lines tools net marshal settings (auth_cookie client) ≡ ok (line ++ git)
      both {line} {git} written git_written =
          ap (cookie_lines tools net marshal settings) named
          ∙ rw (written, cookie_lines, parsed, git_line, git_written) refl
