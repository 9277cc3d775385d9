-- ===== src/NetscapeCookies.antt =====
-- server/pkg/netscapecookies/cookie.go: a cookie as a line of the file that git reads. Writing to `w`
-- does not fail: the program's only writer is a buffer.
pub mod Fields
use moblog_cloud.Prelude.{
  ℕ, ◌-◌, ◌*◌, ◌/◌, GoString, codes, Bool, true, false, [], ◌∷◌, ◌++◌, Result, ok, err, no_domain,
  no_expires, no_name, no_value, nat_eq, ltb, ◌==◌, if◌then◌else◌,
}
use moblog_cloud.Http.{Cookie}
use moblog_cloud.IdGenerator.{format_uint}

abbrev pub bool_str : Bool → GoString
bool_str b = if b then codes "TRUE" else codes "FALSE"

abbrev pub tab : ℕ
tab = 9

abbrev newline : ℕ
newline = 10

-- `%d` of `Time.Unix`, whose second 0 is 62135596800 seconds after the zero time.
unfoldable pub unix_text : ℕ → GoString
unix_text time =
    let seconds = time / 1000000000 in
    if ltb seconds 62135596800
    then b'-' ∷ format_uint (62135596800 - seconds)
    else format_uint (seconds - 62135596800)

abbrev pub path_of : Cookie → GoString
path_of cookie = if cookie.path == [] then codes "/" else cookie.path

unfoldable pub write_cookie : Cookie → Result GoString
unfolding unix_text
write_cookie cookie =
    if cookie.domain == []
    then err no_domain
    else if nat_eq cookie.expires 0
    then err no_expires
    else if cookie.name == []
    then err no_name
    else if cookie.value == []
    then err no_value
    else ok (
        cookie.domain
        ++ tab
          ∷ (bool_str false
              ++ tab
                ∷ (path_of cookie
                    ++ tab
                      ∷ (bool_str cookie.secure
                          ++ tab
                            ∷ (unix_text cookie.expires
                                ++ tab ∷ (cookie.name ++ tab ∷ (cookie.value ++ newline ∷ [])))))))
