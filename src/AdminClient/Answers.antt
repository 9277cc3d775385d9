-- ===== src/AdminClient/Answers.antt =====
-- server/pkg/adminserver/client.go: what the client makes of the answers to a login and to a logout.
use moblog_cloud.Prelude.{
  GoString, codes, ◌==◌, nat_eq, Bool, true, false, Option, none, some, List, [], ◌∷◌, ◌++◌, ok,
  IsErr, if◌then◌else◌, ◌≡◌, ◌≢◌, refl, ap, sym, ◌∙◌, subst, arith, Bool-cases, inl, inr,
}
use moblog_cloud.Http.{Cookie, zero_cookie, Url, HttpReply, HttpClient, status_ok}
use moblog_cloud.AdminServer.AuthSession.{auth_cookie_name}
use moblog_cloud.AdminClient.{
  Client, NetLibrary, host_of, domain_of, cache_at, set_cached_auth_cookie, go_on_from,
  cache_cookies, form_type, logged_in, login, logged_out, logout,
}

abbrev pub last_of : Bool → Cookie → Option Cookie → Option Cookie
last_of named cookie (some later) = some later
last_of named cookie none = if named then some cookie else none

-- The last cookie with the admin server's name.
abbrev pub last_auth : List Cookie → Option Cookie
last_auth [] = none
last_auth (cookie ∷ cookies) = last_of (cookie.name == auth_cookie_name) cookie (last_auth cookies)

-- A cookie with the host and the path of the URL where it has none.
abbrev pub filled : GoString → Url → Cookie → Cookie
filled host u cookie = record cookie {
  domain = if cookie.domain == [] then host else cookie.domain;
  path = if cookie.path == [] then u.path else cookie.path;
}

abbrev pub kept : GoString → Url → Option Cookie → Cookie → Cookie
kept host u none before = before
kept host u (some cookie) before = filled host u cookie

abbrev pub login_values : GoString → GoString → List (GoString × GoString)
login_values username password = (codes "username", username) ∷ (codes "password", password) ∷ []

module _ (net : NetLibrary) (url : GoString) (u : Url) (host : GoString)
    (parses : net.url_parse url ≡ ok u) (hosts : host_of net u.host ≡ ok host) where
  set_cached-filled :
      (cookie : Cookie) (c : Client)
      → c.url ≡ url
      → set_cached_auth_cookie net cookie c
        ≡ (ok tt, record c { auth_cookie = filled host u cookie })
  unfolding set_cached_auth_cookie
  set_cached-filled cookie c at =
      ap (λ r. cache_at net cookie r c) (ap net.url_parse at ∙ parses)
      ∙ elim (Bool-cases (cookie.domain == [])) [
        | inl is_empty ↦ rw (is_empty, domain_of, hosts) refl
        | inr given ↦ rw (given, domain_of) refl
      ]

  kept_other :
      (cookie : Cookie) (o : Option Cookie) (before : Cookie)
      → kept host u o before ≡ kept host u (last_of false cookie o) before
  kept_other cookie none before = refl
  kept_other cookie (some later) before = refl

  kept_named :
      (cookie : Cookie) (o : Option Cookie) (before : Cookie)
      → kept host u o (filled host u cookie) ≡ kept host u (last_of true cookie o) before
  kept_named cookie none before = refl
  kept_named cookie (some later) before = refl

  cache_cookies-last :
      (cookies : List Cookie) (c : Client)
      → c.url ≡ url
      → cache_cookies net cookies c
        ≡ (ok tt, record c { auth_cookie = kept host u (last_auth cookies) c.auth_cookie })
  unfolding cache_cookies
  cache_cookies-last [] c at = refl
  cache_cookies-last (cookie ∷ cookies) c at = elim (Bool-cases (cookie.name == auth_cookie_name)) [
    | inr other ↦
        rw (other, cache_cookies)
          (cache_cookies-last cookies c at
            ∙ ap (λ k. (ok tt, record c { auth_cookie = k }))
                (kept_other cookie (last_auth cookies) c.auth_cookie))
    | inl named ↦
        rw (named, cache_cookies)
          (ap (λ r. go_on_from net r (cache_cookies net cookies)) (set_cached-filled cookie c at)
            ∙ cache_cookies-last cookies (record c { auth_cookie = filled host u cookie }) at
            ∙ ap (λ k. (ok tt, record c { auth_cookie = k }))
                (kept_named cookie (last_auth cookies) c.auth_cookie))
  ]

  -- Of a login that is answered: with the status 200 it succeeds, and the client keeps the last of the
  -- answer's cookies that has the admin server's name, with the host and the path of its own URL where
  -- the cookie has none, or the cookie it had where there is none; with any other status it is an error,
  -- and the client keeps no cookie.
  pub login-last :
      {N : Type 0} (http : HttpClient N) (username password : GoString) (c : Client) (n : N)
      (answer : HttpReply)
      → c.url ≡ url
      → (http.post
          (c.url ++ codes "/login")
          form_type
          (net.encode_values (login_values username password))
          n).0
        ≡ ok answer
      → let (result, after, _) = login net http username password c n in
        (answer.status ≡ 200
          → (result ≡ ok tt)
            × (after.auth_cookie ≡ kept host u (last_auth answer.cookies) c.auth_cookie))
        × (answer.status ≢ 200 → IsErr result × (after.auth_cookie ≡ zero_cookie))
  unfolding login
  login-last http username password c n answer at posted =
      subst
        (λ r.
          (answer.status ≡ 200
            → ((logged_in net http r c).0 ≡ ok tt)
              × ((logged_in net http r c).1.auth_cookie
                  ≡ kept host u (last_auth answer.cookies) c.auth_cookie))
          × (answer.status ≢ 200
              → IsErr (logged_in net http r c).0
                × ((logged_in net http r c).1.auth_cookie ≡ zero_cookie)))
        (sym posted)
        (elim (Bool-cases (nat_eq answer.status status_ok)) [
          | inl is_ok ↦
              rw (is_ok, logged_in)
                (
                  λ _. (ap (λ r. r.0) last, ap (λ r. r.1.auth_cookie) last),
                  λ is_not. absurd (is_not (ground (arith, is_ok))),
                )
          | inr other ↦
              rw (other, logged_in)
                (λ is_ok. absurd (cc (other, ap (λ x. nat_eq x 200) is_ok)), λ _. ((_, refl), refl))
        ])
    where
      last :
          cache_cookies net answer.cookies c
          ≡ (ok tt, record c { auth_cookie = kept host u (last_auth answer.cookies) c.auth_cookie })
      last = cache_cookies-last answer.cookies c at

-- A logout that is answered returns no error, whatever the status; the client keeps no cookie after the
-- status 200, and after any other status it is as it was.
pub logout_lem :
    {N : Type 0} (net : NetLibrary) (http : HttpClient N) (c : Client) (n : N) (answer : HttpReply)
    → (http.post (c.url ++ codes "/logout") form_type [] n).0 ≡ ok answer
    → let (result, after, _) = logout net http c n in
      (result ≡ ok tt)
      × (answer.status ≡ 200 → after.auth_cookie ≡ zero_cookie)
      × (answer.status ≢ 200 → after ≡ c)
unfolding logout
logout_lem net http c n answer posted =
    subst
      (λ r.
        ((logged_out net http r c).0 ≡ ok tt)
        × (answer.status ≡ 200 → (logged_out net http r c).1.auth_cookie ≡ zero_cookie)
        × (answer.status ≢ 200 → (logged_out net http r c).1 ≡ c))
      (sym posted)
      (elim (Bool-cases (nat_eq answer.status status_ok)) [
        | inl is_ok ↦
            rw (is_ok, logged_out)
              (refl, λ _. refl, λ is_not. absurd (is_not (ground (arith, is_ok))))
        | inr other ↦
            rw (other, logged_out)
              (refl, λ is_ok. absurd (cc (other, ap (λ x. nat_eq x 200) is_ok)), λ _. refl)
      ])
