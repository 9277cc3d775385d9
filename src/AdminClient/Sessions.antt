-- ===== src/AdminClient/Sessions.antt =====
-- server/pkg/adminserver/client.go against server/pkg/adminserver/server.go: a login of the client that
-- the login handler of the server answers.
use moblog_cloud.Prelude.{
  ℕ, ◌+◌, ◌≤◌, ◌<◌, GoString, codes, ◌==◌, eq_refl, Bool, true, false, ◌&&◌, Option, none, some, [],
  ◌∷◌, ◌++◌, Result, ok, err, panic, ◌≡◌, ◌≢◌, refl, ap, sym, ◌∙◌, subst, arith, Bool-cases, ◌⊎◌,
  inl, inr,
}
use moblog_cloud.Http.{Cookie, Response, status_ok, Url, HttpReply, HttpClient}
use moblog_cloud.UserStore.{UserStore}
use moblog_cloud.SessionStore.{Session, SessionStore, Contract, Live, unexpired}
use moblog_cloud.AdminServer.{State}
use moblog_cloud.AdminServer.AuthSession.{
  SecureCookie, auth_cookie_name, auth_cookie_of, encode_auth_cookie, session_from_request,
}
use moblog_cloud.AdminServer.Login.{
  session_expiry_time, answer_with, after_set, refresh, enter, save_session, login_handler,
}
use moblog_cloud.AdminServer.Sessions.{refreshed, Admits, login_session}
use moblog_cloud.AdminClient.{Client, NetLibrary, host_of, form_type, login}
use moblog_cloud.AdminClient.Answers.{login-last, login_values, last_auth, last_of, filled, kept}

-- The answer of a handler, as a client reads it.
abbrev pub reply_of : Response → GoString → HttpReply
reply_of response body = record {
  status = response.status;
  body = body;
  cookies = response.cookies;
}

module _ {U S : Type 0} (sc : SecureCookie) (store : UserStore U)
    (session_store : SessionStore S) where
  -- An answer with the status 200 has one cookie, of the server's name.
  abbrev OnlyGrants : Result Response → Type 0
  OnlyGrants (ok response) =
      response.status ≡ 200
      → (cookie : Cookie) × (response ≡ record { status = status_ok; cookies = cookie ∷ [] })
        × (cookie.name ≡ auth_cookie_name)
  OnlyGrants _ = Unit

  answer_with-OnlyGrants :
      (expires : ℕ) (m : Result GoString)
      → OnlyGrants (answer_with sc store session_store expires (auth_cookie_of m))
  answer_with-OnlyGrants expires (ok text) = λ h. (_, refl, refl)
  answer_with-OnlyGrants expires (err e) = λ h. absurd (omega (arith, h))
  answer_with-OnlyGrants expires panic = tt

  save_session-OnlyGrants :
      (session : Session) (now : ℕ) (st : State U S)
      → OnlyGrants (save_session sc store session_store session now st).0
  unfolding save_session encode_auth_cookie
  save_session-OnlyGrants session now st =
      after (session_store.set (refreshed sc store session_store session now) now st.sessions)
    where
      after :
          (r : Result (Unit {0}) × S)
          → OnlyGrants
              (after_set sc store session_store
                (refreshed sc store session_store session now)
                r
                st).0
      after (err e, s) = λ h. absurd (omega (arith, h))
      after (panic, s) = tt
      after (ok _, s) =
          answer_with-OnlyGrants (session_expiry_time now)
            (sc.encode auth_cookie_name (record { session_id = session.sid }))

  login-OnlyGrants :
      (username password new_sid : GoString) (now : ℕ) (session : Option Session) (st : State U S)
      → OnlyGrants
          (login_handler sc store session_store (ok (username, password)) new_sid now session st).0
  unfolding login_handler
  login-OnlyGrants username password new_sid now session st =
      elim (Bool-cases (username == [] && password == [])) [
        | inl no_credentials ↦ rw no_credentials (renewed session)
        | inr given ↦ rw given (entered (store.authenticate_user username password st.users))
      ]
    where
      renewed :
          (session : Option Session) → OnlyGrants (refresh sc store session_store session now st).0
      renewed none = λ h. absurd (omega (arith, h))
      renewed (some x) = save_session-OnlyGrants x now st

      entered :
          (answer : Result Bool)
          → OnlyGrants (enter sc store session_store username new_sid now answer st).0
      entered (err e) = λ h. absurd (omega (arith, h))
      entered panic = tt
      entered (ok false) = λ h. absurd (omega (arith, h))
      entered (ok true) = save_session-OnlyGrants _ now st

module _ (net : NetLibrary) (url : GoString) (u : Url) (host : GoString)
    (parses : net.url_parse url ≡ ok u) (hosts : host_of net u.host ≡ ok host) where
  -- A client keeps the one cookie of an answer.
  login-one :
      {N : Type 0} (http : HttpClient N) (username password : GoString) (c : Client) (n : N)
      (response : Response) (body : GoString) (cookie : Cookie)
      → c.url ≡ url
      → (http.post
          (c.url ++ codes "/login")
          form_type
          (net.encode_values (login_values username password))
          n).0
        ≡ ok (reply_of response body)
      → response ≡ record { status = status_ok; cookies = cookie ∷ [] }
      → cookie.name ≡ auth_cookie_name
      → (login net http username password c n).1.auth_cookie ≡ filled host u cookie
  login-one http username password c n response body cookie at posted one named =
      let grants : response.status ≡ 200 = ap (λ r. r.status) one in
      ((login-last net url u host parses hosts http username password c n (reply_of response body)
          at posted).0
        grants).1
      ∙ ap (λ r. kept host u (last_auth r.cookies) c.auth_cookie) one
      ∙ ap (λ b. kept host u (last_of b cookie none) c.auth_cookie) (names_it)
    where
      names_it : (cookie.name == auth_cookie_name) ≡ true
      names_it = ap (λ x. x == auth_cookie_name) named ∙ eq_refl auth_cookie_name

  module _ {U S : Type 0} (sc : SecureCookie) (store : UserStore U) (session_store : SessionStore S)
      {live : Live S} {slack : ℕ} {Storable : Session → Type 0}
      (contract : Contract session_store live slack Storable) where
    -- A client logs in, and the answer that it gets, of the status 200, is that of the login handler to
    -- the same credentials, over a session store that can keep the session. Then the login was either with credentials that the user store accepts or,
    -- with none, from a request that had a session; and a request with the cookie that the client keeps
    -- is given that session, with its new expiry time, until it expires (but perhaps for the slack of
    -- the session store), and none from then on.
    pub client_login-session :
        {N : Type 0} (http : HttpClient N) (username password new_sid : GoString) (c : Client)
        (n : N) (now : ℕ) (session : Option Session) (st st' : State U S) (response : Response)
        (body : GoString) (later : ℕ) (found : Option Session)
        → ((admitted : Session)
            → Admits sc store session_store username password new_sid session st.users admitted
            → Storable (refreshed sc store session_store admitted now))
        → new_sid ≢ []
        → ((x : Session) → session ≡ some x → x.sid ≢ [])
        → 0 < now
        → now ≤ later
        → (later + slack ≤ session_expiry_time now) ⊎ (session_expiry_time now < later)
        → c.url ≡ url
        → login_handler sc store session_store (ok (username, password)) new_sid now session st
          ≡ (ok response, st')
        → (http.post
            (c.url ++ codes "/login")
            form_type
            (net.encode_values (login_values username password))
            n).0
          ≡ ok (reply_of response body)
        → response.status ≡ 200
        → (session_from_request sc session_store
            (some (login net http username password c n).1.auth_cookie)
            later
            st').0
          ≡ ok found
        → (admitted : Session) × Admits sc store session_store username password new_sid session
            st.users admitted
          × (found ≡ unexpired later (refreshed sc store session_store admitted now))
    unfolding session_from_request
    client_login-session http username password new_sid c n now session st st' response body later
          found storable fresh old began after window at served posted accepted shown =
        let (cookie, one, named) =
          subst (OnlyGrants sc store session_store) (ap (λ r. r.0) served)
            (login-OnlyGrants sc store session_store username password new_sid now session st)
            accepted in
        let keeps = login-one http username password c n response body cookie at posted one named in
        login_session sc store session_store contract username password new_sid now session st st'
          cookie later found storable fresh old began after window
          (served ∙ ap (λ r. (ok r, st')) one) (same_value cookie _ keeps ∙ shown)
      where
        same_value :
            (cookie other : Cookie)
            → other ≡ filled host u cookie
            → (session_from_request sc session_store (some cookie) later st').0
              ≡ (session_from_request sc session_store (some other) later st').0
        same_value cookie other e =
            ap (λ k. (session_from_request sc session_store (some k) later st').0) (sym e)
