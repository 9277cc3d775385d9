-- ===== src/Prelude/Errors.antt =====
-- What a Go call comes back with: a value, an error, or a panic that unwinds its callers.
-- A Go function that returns `(T, error)` returns a `Result`; one that returns `error` alone
-- returns a `Result` of `Unit` where it is a method, and an `Option` of `Error` where it is a check.
-- Sentinel errors are constructors, so that callers can compare them as the code does.
use mathlib.Core.Path.{◌≡◌, ap, refl}
use mathlib.Core.Logic.{◌≢◌}
use moblog_cloud.Prelude.Text.{GoString}

pub data Error : Type 0 where
  -- server/pkg/userstore/userstore.go
  already_exists does_not_exist username_empty username_invalid password_empty : Error
  blog_already_exists blog_does_not_exist blog_slug_empty blog_slug_invalid : Error
  -- server/pkg/adminserver/server.go
  invalid_parameter require_authentication get_unknown_user : Error
  update_invalid_user delete_invalid_user unknown_blog : Error
  -- server/pkg/workqueue/workqueue.go
  queue_full : Error
  -- server/pkg/netscapecookies/cookie.go
  no_domain no_expires no_name no_value : Error
  -- database/sql
  no_rows : Error
  -- `errors.New` and `errors.Errorf`, and an error of a library
  message : GoString → Error
  -- `errors.Wrap`
  wrap : Error → GoString → Error

pub data Result {ℓ} (A : Type ℓ) : Type ℓ where
  ok : A → Result A
  err : Error → Result A
  panic : Result A

-- `errors.Wrap(err, text)` on the error of a call: nil stays nil.
abbrev pub wrap_err {ℓ} : {A : Type ℓ} → Result A → GoString → Result A
wrap_err (ok a) text = ok a
wrap_err (err e) text = err (wrap e text)
wrap_err panic text = panic

-- A step after another one: an error and a panic end the function.
infixl 5 ◌>>=◌
unfoldable pub ◌>>=◌ : {A B : Type 0} → Result A → (A → Result B) → Result B
ok a >>= f = f a
err e >>= f = err e
panic >>= f = panic

abbrev pub IsErr {ℓ} : {A : Type ℓ} → Result A → Type ℓ
IsErr r = (e : Error) × (r ≡ err e)

pub wrap_err-eq-ok {ℓ} :
    {A : Type ℓ} (r : Result A) (text : GoString) {a : A} → wrap_err r text ≡ ok a → r ≡ ok a
wrap_err-eq-ok (ok a) text e = e
wrap_err-eq-ok (err x) text e = cc
wrap_err-eq-ok panic text e = cc

pub ok-ne-err {ℓ} : {A : Type ℓ} {a : A} {e : Error} → ok a ≢ err e
ok-ne-err h = cc

pub ok_inj {ℓ} : {A : Type ℓ} {a b : A} → ok a ≡ ok b → a ≡ b
ok_inj {A} {a} {b} h = ap (λ r. elim r [ ok x ↦ x | _ ↦ a ]) h

pub bind-eq-ok :
    {A B : Type 0} (r : Result A) (f : A → Result B) {b : B}
    → (r >>= f) ≡ ok b
    → (a : A) × (r ≡ ok a) × (f a ≡ ok b)
unfolding ◌>>=◌
bind-eq-ok (ok a) f e = (a, refl, e)
bind-eq-ok (err x) f e = cc
bind-eq-ok panic f e = cc
