-- ===== src/AdminClient/Cookies.antt =====
-- server/pkg/adminserver/client.go: the cookie that the client keeps.
use moblog_cloud.Prelude.{
  GoString, ◌==◌, eq_iff, nat_eq, not, false, Option, none, some, List, [], ◌∷◌, Result, ok, err,
  panic, ok_inj, ◌≡◌, ◌≢◌, refl, ap, sym, ◌∙◌, subst, Bool-cases, ◌⊎◌, inl, inr,
}
use moblog_cloud.Http.{Cookie, zero_cookie, Url, HttpReply, HttpClient, status_ok}
use moblog_cloud.AdminServer.AuthSession.{auth_cookie_name}
use moblog_cloud.RpcClient.{Codec, new}
use moblog_cloud.AdminClient.{
  Client, Params, NetLibrary, Decoders, host_of, domain_of, store_with, cache_at,
  set_cached_auth_cookie, go_on_from, cache_cookies, set_at_url, is_misnamed, set_auth_cookie,
  logged_in, login, logged_out, logout, rpc_call,
}

-- The cookie that the client keeps is none, or it is the admin server's and says for which host it is.
abbrev pub IsCookie : Cookie → Type 0
IsCookie cookie = (cookie ≡ zero_cookie) ⊎ ((cookie.name ≡ auth_cookie_name) × (cookie.domain ≢ []))

module _ (net : NetLibrary) where
  -- What a URL has for a host is some name.
  abbrev pub Hosted : GoString → Type 0
  Hosted url =
      (u : Url) (host : GoString)
      → net.url_parse url ≡ ok u
      → host_of net u.host ≡ ok host
      → host ≢ []

  domain_of-some :
      (cookie : Cookie) (u : Url) (domain : GoString)
      → ((host : GoString) → host_of net u.host ≡ ok host → host ≢ [])
      → domain_of net cookie u ≡ ok domain
      → domain ≢ []
  domain_of-some cookie u domain hosted h = elim (Bool-cases (cookie.domain == [])) [
    | inl is_empty ↦ hosted domain (rw (is_empty, domain_of) at h)
    | inr given ↦
        λ e. cc (given, (eq_iff cookie.domain []).1 (ok_inj (rw (given, domain_of) at h) ∙ e))
  ]

  store_with-IsCookie :
      (cookie : Cookie) (u : Url) (domain : Result GoString) (c : Client)
      → cookie.name ≡ auth_cookie_name
      → ((text : GoString) → domain ≡ ok text → text ≢ [])
      → IsCookie c.auth_cookie
      → IsCookie (store_with net cookie u domain c).1.auth_cookie
  store_with-IsCookie cookie u (err e) c named hosted is = is
  store_with-IsCookie cookie u panic c named hosted is = is
  store_with-IsCookie cookie u (ok domain) c named hosted is = inr (named, hosted domain refl)

  set_cached-IsCookie :
      (cookie : Cookie) (c : Client)
      → Hosted c.url
      → cookie.name ≡ auth_cookie_name
      → IsCookie c.auth_cookie
      → IsCookie (set_cached_auth_cookie net cookie c).1.auth_cookie
  unfolding set_cached_auth_cookie
  set_cached-IsCookie cookie c hosted named is = parsed (net.url_parse c.url) refl
    where
      parsed :
          (r : Result Url)
          → net.url_parse c.url ≡ r
          → IsCookie (cache_at net cookie r c).1.auth_cookie
      parsed (err e) i = is
      parsed panic i = is
      parsed (ok u) i =
          store_with-IsCookie cookie u (domain_of net cookie u) c named
            (λ text h. domain_of-some cookie u text (λ host. hosted u host i) h) is

  set_cached-url :
      (cookie : Cookie) (c : Client) → (set_cached_auth_cookie net cookie c).1.url ≡ c.url
  unfolding set_cached_auth_cookie
  set_cached-url cookie c = parsed (net.url_parse c.url)
    where
      stored : (u : Url) (d : Result GoString) → (store_with net cookie u d c).1.url ≡ c.url
      stored u (err e) = refl
      stored u panic = refl
      stored u (ok d) = refl

      parsed : (r : Result Url) → (cache_at net cookie r c).1.url ≡ c.url
      parsed (err e) = refl
      parsed panic = refl
      parsed (ok u) = stored u (domain_of net cookie u)

  cache_cookies-IsCookie :
      (cookies : List Cookie) (c : Client)
      → Hosted c.url
      → IsCookie c.auth_cookie
      → IsCookie (cache_cookies net cookies c).1.auth_cookie
  unfolding cache_cookies
  cache_cookies-IsCookie [] c hosted is = is
  cache_cookies-IsCookie (cookie ∷ cookies) c hosted is =
      elim (Bool-cases (cookie.name == auth_cookie_name)) [
        | inr other ↦ rw (other, cache_cookies) (cache_cookies-IsCookie cookies c hosted is)
        | inl named ↦
            rw (named, cache_cookies)
              (after (set_cached_auth_cookie net cookie c)
                (set_cached-IsCookie cookie c hosted ((eq_iff cookie.name auth_cookie_name).0 named)
                  is)
                (set_cached-url cookie c)
                (λ c' hosted' is'. cache_cookies-IsCookie cookies c' hosted' is'))
      ]
    where
      after :
          (cached : Result (Unit {0}) × Client)
          → IsCookie cached.1.auth_cookie
          → cached.1.url ≡ c.url
          → ((c' : Client)
              → Hosted c'.url
              → IsCookie c'.auth_cookie
              → IsCookie (cache_cookies net cookies c').1.auth_cookie)
          → IsCookie (go_on_from net cached (cache_cookies net cookies)).1.auth_cookie
      after (ok _, c') is' same go_on = go_on c' (subst Hosted (sym same) hosted) is'
      after (err e, c') is' same go_on = is'
      after (panic, c') is' same go_on = is'

  cache_cookies-url :
      (cookies : List Cookie) (c : Client) → (cache_cookies net cookies c).1.url ≡ c.url
  unfolding cache_cookies
  cache_cookies-url [] c = refl
  cache_cookies-url (cookie ∷ cookies) c = elim (Bool-cases (cookie.name == auth_cookie_name)) [
    | inr other ↦ rw (other, cache_cookies) (cache_cookies-url cookies c)
    | inl named ↦
        rw (named, cache_cookies)
          (after (set_cached_auth_cookie net cookie c) (set_cached-url cookie c)
            (cache_cookies-url cookies))
  ]
    where
      after :
          (cached : Result (Unit {0}) × Client)
          → cached.1.url ≡ c.url
          → ((c' : Client) → (cache_cookies net cookies c').1.url ≡ c'.url)
          → (go_on_from net cached (cache_cookies net cookies)).1.url ≡ c.url
      after (ok _, c') same go_on = go_on c' ∙ same
      after (err e, c') same go_on = same
      after (panic, c') same go_on = same

module _ {N : Type 0} (net : NetLibrary) (http : HttpClient N) (codec : Codec Params)
    (decode : Decoders) where
  -- The clients that a program comes to have: a new one, and one after a call of its methods.
  pub data Reach : Client → Type 1 where
    made : (url : GoString) → Reach (record { url = url; rpc = new url; auth_cookie = zero_cookie })
    given :
        {c : Client}
        → Reach c
        → (cookie : Option Cookie) (n : N) → Reach (set_auth_cookie net http cookie c n).1
    entered :
        {c : Client}
        → Reach c
        → (username password : GoString) (n : N) → Reach (login net http username password c n).1
    left : {c : Client} → Reach c → (n : N) → Reach (logout net http c n).1
    called :
        {c : Client}
        → Reach c
        → {R : Type 0} (decoder : GoString → Result R) (method : GoString) (params : Params) (n : N)
        → Reach (rpc_call http codec decode decoder method params c n).1

  abbrev Keeps : Client → Client → Type 0
  Keeps c c' =
      (c'.url ≡ c.url) × (Hosted net c.url → IsCookie c.auth_cookie → IsCookie c'.auth_cookie)

  set_auth_cookie-Keeps :
      (cookie : Option Cookie) (c : Client) (n : N)
      → Keeps c (set_auth_cookie net http cookie c n).1
  unfolding set_auth_cookie
  set_auth_cookie-Keeps cookie c n = elim (Bool-cases (is_misnamed net http cookie)) [
    | inl is ↦ rw (is, set_auth_cookie) (refl, λ _ held. held)
    | inr is_not ↦ rw (is_not, set_auth_cookie) (parsed cookie is_not (net.url_parse c.url))
  ]
    where
      parsed :
          (cookie : Option Cookie)
          → is_misnamed net http cookie ≡ false
          → (r : Result Url) → Keeps c (set_at_url net http cookie r c n).1
      parsed cookie named (err e) = (refl, λ _ held. held)
      parsed cookie named panic = (refl, λ _ held. held)
      parsed none named (ok u) = (refl, λ _ _. inl refl)
      parsed (some cookie) named (ok u) = (
        set_cached-url net cookie c,
        λ hosted held.
            set_cached-IsCookie net cookie c hosted
              ((eq_iff cookie.name auth_cookie_name).0
                (elim (Bool-cases (cookie.name == auth_cookie_name)) [
                  | inl is ↦ is
                  | inr is_not ↦ cc (ap not is_not, named)
                ]))
              held,
      )

  login-Keeps :
      (username password : GoString) (c : Client) (n : N)
      → Keeps c (login net http username password c n).1
  unfolding login
  login-Keeps username password c n = replied (http.post _ _ _ n).0
    where
      replied : (r : Result HttpReply) → Keeps c (logged_in net http r c).1
      replied (err e) = (refl, λ _ is. is)
      replied panic = (refl, λ _ is. is)
      replied (ok answer) = elim (Bool-cases (nat_eq answer.status status_ok)) [
        | inl is_ok ↦
            rw (is_ok, logged_in)
              (cache_cookies-url net answer.cookies c, cache_cookies-IsCookie net answer.cookies c)
        | inr other ↦ rw (other, logged_in) (refl, λ _ _. inl refl)
      ]

  logout-Keeps : (c : Client) (n : N) → Keeps c (logout net http c n).1
  unfolding logout
  logout-Keeps c n = replied (http.post _ _ _ n).0
    where
      replied : (r : Result HttpReply) → Keeps c (logged_out net http r c).1
      replied (err e) = (refl, λ _ is. is)
      replied panic = (refl, λ _ is. is)
      replied (ok answer) = elim (Bool-cases (nat_eq answer.status status_ok)) [
        | inl is_ok ↦ rw (is_ok, logged_out) (refl, λ _ _. inl refl)
        | inr other ↦ rw (other, logged_out) (refl, λ _ is. is)
      ]

  -- Whatever calls a client has made and whatever the servers have answered, the cookie that it keeps is
  -- none, or it has the admin server's name and a domain, if the URL of the client has a host.
  pub Reach-IsCookie : {c : Client} → Reach c → Hosted net c.url → IsCookie c.auth_cookie
  Reach-IsCookie (made url) hosted = inl refl
  Reach-IsCookie (given {c} before cookie n) hosted =
      let (same, keeps) = set_auth_cookie-Keeps cookie c n in
      keeps (subst (Hosted net) same hosted)
        (Reach-IsCookie before (subst (Hosted net) same hosted))
  Reach-IsCookie (entered {c} before username password n) hosted =
      let (same, keeps) = login-Keeps username password c n in
      keeps (subst (Hosted net) same hosted)
        (Reach-IsCookie before (subst (Hosted net) same hosted))
  Reach-IsCookie (left {c} before n) hosted =
      let (same, keeps) = logout-Keeps c n in
      keeps (subst (Hosted net) same hosted)
        (Reach-IsCookie before (subst (Hosted net) same hosted))
  Reach-IsCookie (called {c} before decoder method params n) hosted = Reach-IsCookie before hosted
