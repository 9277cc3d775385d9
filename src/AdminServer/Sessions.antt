-- ===== src/AdminServer/Sessions.antt =====
-- server/pkg/adminserver/server.go and session.go: the life of a session, from the login that makes
-- it, through the requests that its cookie authenticates, to the logout that ends it.
use mathlib.Core.Logic.{◌≢◌}
use moblog_cloud.Prelude.{
  ℕ, ◌+◌, ◌≤◌, ◌<◌, GoString, ◌==◌, eq_iff, Bool, true, false, ◌&&◌, Option, none, some, [], ◌∷◌,
  Result, ok, err, panic, ◌≡◌, refl, ap, sym, ◌∙◌, arith, ◌⊎◌, inl, inr, Bool-cases, wrap_err-eq-ok,
}
use moblog_cloud.UserStore.{UserStore}
use moblog_cloud.SessionStore.{Session, SessionStore, Contract, Live, unexpired}
use moblog_cloud.AdminServer.{State}
use moblog_cloud.AdminServer.AuthSession.{
  SecureCookie, auth_cookie_name, auth_cookie_of, encode_auth_cookie, session_from_request,
}
use moblog_cloud.AdminServer.Login.{
  session_expiry_time, answer_with, after_set, refresh, enter, save_session, login_handler,
}
use moblog_cloud.Http.{Cookie, Response, status_ok}

module _ {U S : Type 0} (sc : SecureCookie) (store : UserStore U)
    (session_store : SessionStore S) where
  -- The session that a handler saves.
  abbrev pub refreshed : Session → ℕ → Session
  refreshed session now = record session { expires = session_expiry_time now }

  -- A cookie that decodes to the identifier.
  abbrev pub Names : Cookie → GoString → Type 0
  Names cookie sid = sc.decode auth_cookie_name cookie.value ≡ ok (record { session_id = sid })

  answer-Names :
      (sid : GoString) (expires : ℕ) (cookie : Cookie) (m : Result GoString)
      → sc.encode auth_cookie_name (record { session_id = sid }) ≡ m
      → answer_with sc store session_store expires (auth_cookie_of m)
        ≡ ok (record { status = status_ok; cookies = cookie ∷ [] })
      → Names cookie sid
  answer-Names sid expires cookie (ok text) e h =
      let v : text ≡ cookie.value = ground arith in
      rw (← v) (sc.round_trip auth_cookie_name _ text e)
  answer-Names sid expires cookie (err x) e h = absurd (ground arith)
  answer-Names sid expires cookie panic e h = cc

  -- An answer with a cookie comes of a session that was stored, and the cookie names it.
  save_session-stores :
      (session : Session) (now : ℕ) (st st' : State U S) (cookie : Cookie)
      → save_session sc store session_store session now st
        ≡ (ok (record { status = status_ok; cookies = cookie ∷ [] }), st')
      → ((session_store.set (refreshed session now) now st.sessions).0 ≡ ok tt)
        × (st'.sessions ≡ (session_store.set (refreshed session now) now st.sessions).1)
        × Names cookie session.sid
  unfolding save_session encode_auth_cookie
  save_session-stores session now st st' cookie h =
      go (session_store.set (refreshed session now) now st.sessions) h
    where
      go :
          (r : Result (Unit {0}) × S)
          → after_set sc store session_store (refreshed session now) r st
            ≡ (ok (record { status = status_ok; cookies = cookie ∷ [] }), st')
          → (r.0 ≡ ok tt) × (st'.sessions ≡ r.1) × Names cookie session.sid
      go (err e, s) h = absurd (ground arith)
      go (panic, s) h = cc
      go (ok u, s) h = (
        refl,
        ap (λ p. p.1.sessions) (sym h),
        answer-Names session.sid (session_expiry_time now) cookie _ refl (ap (λ p. p.0) h),
      )

  -- Whom a login lets in: the owner of the credentials under a new identifier, or, with no
  -- credentials, the session of the request.
  abbrev pub Admits : GoString → GoString → GoString → Option Session → U → Session → Type 0
  Admits username password new_sid session users admitted =
      ((store.authenticate_user username password users ≡ ok true)
        × (admitted ≡ record { sid = new_sid; expires = 0; username = username }))
      ⊎ ((username ≡ []) × (password ≡ []) × (session ≡ some admitted))

  abbrev pub Granted : Cookie → State U S → Result Response × State U S → Type 0
  Granted cookie st' r = r ≡ (ok (record { status = status_ok; cookies = cookie ∷ [] }), st')

  refresh-Admits :
      (username password new_sid : GoString) (now : ℕ) (session : Option Session)
      (st st' : State U S) (cookie : Cookie)
      → (username == [] && password == []) ≡ true
      → Granted cookie st' (refresh sc store session_store session now st)
      → (admitted : Session) × Admits username password new_sid session st.users admitted
        × Granted cookie st' (save_session sc store session_store admitted now st)
  refresh-Admits username password new_sid now none st st' cookie e h = absurd (ground arith)
  refresh-Admits username password new_sid now (some x) st st' cookie e h = (
    x,
    inr (
      ground (arith, eq_iff username []),
      ground (arith, eq_iff username [], eq_iff password []),
      refl,
    ),
    h,
  )

  enter-Admits :
      (username password new_sid : GoString) (now : ℕ) (session : Option Session)
      (st st' : State U S) (cookie : Cookie) (answer : Result Bool)
      → store.authenticate_user username password st.users ≡ answer
      → Granted cookie st' (enter sc store session_store username new_sid now answer st)
      → (admitted : Session) × Admits username password new_sid session st.users admitted
        × Granted cookie st' (save_session sc store session_store admitted now st)
  enter-Admits username password new_sid now session st st' cookie (err x) e h =
      absurd (ground arith)
  enter-Admits username password new_sid now session st st' cookie panic e h = cc
  enter-Admits username password new_sid now session st st' cookie (ok false) e h =
      absurd (ground arith)
  enter-Admits username password new_sid now session st st' cookie (ok true) e h =
      (_, inl (e, refl), h)

  login-Admits :
      (username password new_sid : GoString) (now : ℕ) (session : Option Session)
      (st st' : State U S) (cookie : Cookie)
      → Granted cookie st'
          (login_handler sc store session_store (ok (username, password)) new_sid now session st)
      → (admitted : Session) × Admits username password new_sid session st.users admitted
        × Granted cookie st' (save_session sc store session_store admitted now st)
  unfolding login_handler
  login-Admits username password new_sid now session st st' cookie h =
      elim (Bool-cases (username == [] && password == [])) [
        | inl empty ↦
            refresh-Admits username password new_sid now session st st' cookie empty (rw empty at h)
        | inr given ↦
            enter-Admits username password new_sid now session st st' cookie _ refl (rw given at h)
      ]

  module _ {live : Live S} {slack : ℕ} {Storable : Session → Type 0}
      (contract : Contract session_store live slack Storable) where
    -- A cookie that names an identifier gives the request the session that shows under it.
    session_from_request-live :
        (cookie : Cookie) (sid : GoString) (later : ℕ) (st : State U S) (found : Option Session)
        → Names cookie sid
        → 0 < later
        → (session_from_request sc session_store (some cookie) later st).0 ≡ ok found
        → found ≡ live st.sessions later sid
    unfolding session_from_request
    session_from_request-live cookie sid later st found names h e =
        contract.gets sid later st.sessions found h (wrap_err-eq-ok _ _ (rw names at e))

    -- A login that is granted either had credentials that the user store accepts, or had none and
    -- renews the session of its request. From then on its cookie gives a request that session, with
    -- the new expiry time, until it expires (but perhaps for the slack of the session store), and
    -- gives none from then on.
    pub login_session :
        (username password new_sid : GoString) (now : ℕ) (session : Option Session)
        (st st' : State U S) (cookie : Cookie) (later : ℕ) (found : Option Session)
        → ((admitted : Session)
            → Admits username password new_sid session st.users admitted
            → Storable (refreshed admitted now))
        → new_sid ≢ []
        → ((x : Session) → session ≡ some x → x.sid ≢ [])
        → 0 < now
        → now ≤ later
        → (later + slack ≤ session_expiry_time now) ⊎ (session_expiry_time now < later)
        → Granted cookie st'
            (login_handler sc store session_store (ok (username, password)) new_sid now session st)
        → (session_from_request sc session_store (some cookie) later st').0 ≡ ok found
        → (admitted : Session) × Admits username password new_sid session st.users admitted
          × (found ≡ unexpired later (refreshed admitted now))
    login_session username password new_sid now session st st' cookie later found storable fresh old
          h le window granted e =
        let (admitted, who, saved) =
          login-Admits username password new_sid now session st st' cookie granted in
        let (stored, same, names) = save_session-stores admitted now st st' cookie saved in
        let named : admitted.sid ≢ [] = elim who [
          | inl (_, new) ↦ rw new fresh
          | inr (_, _, kept) ↦ old admitted kept
        ] in
        (
          admitted,
          who,
          session_from_request-live cookie admitted.sid later st' found names (omega arith) e
              ∙ ap (λ s. live s later admitted.sid) same
              ∙ contract.sets (refreshed admitted now) now st.sessions later (storable admitted who)
                  named h le window stored,
        )
