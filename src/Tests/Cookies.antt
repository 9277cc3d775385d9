-- ===== src/Tests/Cookies.antt =====
-- Tests of server/pkg/netscapecookies.
use moblog_cloud.Prelude.{GoString, codes, [], ◌∷◌, ok, true, false, ◌≡◌, refl, arith}
use moblog_cloud.Http.{Cookie}
use moblog_cloud.NetscapeCookies.{bool_str, unix_text, path_of, write_cookie}
use moblog_cloud.NetscapeCookies.Fields.{fields, fields-write_cookie}

abbrev cookie : Cookie
cookie = record {
  name = codes "a";
  value = codes "s1";
  path = codes "/";
  domain = codes "x";
  expires = 63000000000000000000;
  secure = false;
  http_only = true;
}

fields-write_cookie_example :
    (line : GoString) × (write_cookie cookie ≡ ok line)
    × (fields line
        ≡ codes "x"
          ∷ codes "FALSE"
          ∷ path_of cookie
          ∷ bool_str false
          ∷ unix_text cookie.expires
          ∷ codes "a"
          ∷ codes "s1"
          ∷ [])
fields-write_cookie_example =
    fields-write_cookie cookie (λ e. cc) (λ e. omega arith) (λ e. cc) (λ e. cc) ((refl, refl), tt)
      ((refl, refl), tt) ((refl, refl), tt) ((refl, refl), ((refl, refl), tt))

abbrev homeless : Cookie
homeless = record cookie { domain = [] }
