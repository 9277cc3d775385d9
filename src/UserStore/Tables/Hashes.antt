-- ===== src/UserStore/Tables/Hashes.antt =====
-- The statement of server/pkg/userstore/sqluserstore.go that stores a password.
use moblog_cloud.Prelude.{
  ℕ, GoString, ◌==◌, eq_iff, eq_refl, false, not, [], Option, some, ◌≡◌, refl, ap, sym, ◌∙◌,
  Bool-cases, Option-cases, inl, inr, if◌then◌else◌,
}
use moblog_cloud.UserStore.{User}
use moblog_cloud.UserStore.Spec.{Accounts, set_at}
use moblog_cloud.UserStore.Tables.{
  UserRow, Tables, Statement, insert_user, update_user_data, update_user_password, Effect, rows,
  duplicate_key, with_user, effect, accounts,
}
use moblog_cloud.UserStore.Tables.Meaning.{
  Changed, accounts-with_user, accounts-some, with_user-IsConsistent,
}

-- The tables of an effect.
abbrev pub tables_after : Tables → Effect → Tables
tables_after t (rows n u) = u
tables_after t _ = t

abbrev pub set_data : User → Statement
set_data user = update_user_data user.display_name user.username

-- The tables with the password of an update, hashed with the salt, if there is one.
abbrev pub with_password : (GoString → GoString → GoString) → User → GoString → Tables → Tables
with_password argon2 user salt t =
    if not (user.password == [])
    then tables_after t
        (effect (update_user_password salt (argon2 user.password salt) user.username) t)
    else t

abbrev pub updated : (GoString → GoString → GoString) → User → GoString → Tables → Tables
updated argon2 user salt t =
    with_password argon2 user salt (tables_after t (effect (set_data user) t))

set_same : (a : Accounts) (k : GoString) → (name : GoString) → set_at a k (a k) name ≡ a name
set_same a k name = elim (Bool-cases (k == name)) [
  | inl here ↦ rw here (ap a ((eq_iff k name).0 here))
  | inr elsewhere ↦ rw elsewhere refl
]

-- A password is no part of the accounts.
rehashed-Changed :
    (spec : Option Accounts) (t : Tables) (name salt password : GoString) (row : UserRow)
    → Changed spec t
    → t.users name ≡ some row
    → Changed spec (with_user t name (some (record row { salt = salt; password = password })))
rehashed-Changed spec t name salt password row (v, (a, e, same)) there = (
  with_user-IsConsistent t v name _ (v.keyed name row there),
  (
    a,
    e,
    λ other.
        accounts-with_user t name (record row { salt = salt; password = password }) refl other
        ∙ ap (λ o. set_at (accounts t) name o other) (sym (accounts-some t name row there))
        ∙ set_same (accounts t) name other
        ∙ same other,
  ),
)

pub update_user_password-Changed :
    (spec : Option Accounts) (t : Tables) (name salt password : GoString)
    → Changed spec t
    → Changed spec (tables_after t (effect (update_user_password salt password name) t))
unfolding effect
update_user_password-Changed spec t name salt password changed =
    elim (Option-cases (t.users name)) [
      | inl e ↦ rw (e, tables_after, effect) changed
      | inr (row, e) ↦
          rw (e, tables_after, effect) (rehashed-Changed spec t name salt password row changed e)
    ]

-- The two updates of a known user's row.
pub data_row :
    (t : Tables) (name display_name : GoString) (row : UserRow)
    → t.users name ≡ some row
    → (effect (update_user_data display_name name) t
        ≡ rows 1 (tables_after t (effect (update_user_data display_name name) t)))
      × ((tables_after t (effect (update_user_data display_name name) t)).users name
          ≡ some (record row { display_name = display_name }))
unfolding effect
data_row t name display_name row e = rw (e, tables_after, effect) (refl, rw (eq_refl name) refl)

pub password_row :
    (t : Tables) (name salt password : GoString) (row : UserRow)
    → t.users name ≡ some row
    → (effect (update_user_password salt password name) t
        ≡ rows 1 (tables_after t (effect (update_user_password salt password name) t)))
      × ((tables_after t (effect (update_user_password salt password name) t)).users name
          ≡ some (record row { salt = salt; password = password }))
unfolding effect
password_row t name salt password row e =
    rw (e, tables_after, effect) (refl, rw (eq_refl name) refl)

-- An inserted row is found.
pub inserted_row :
    (t t' : Tables) (n : ℕ) (row : UserRow)
    → effect (insert_user row) t ≡ rows n t'
    → t'.users row.username ≡ some row
unfolding effect
inserted_row t t' n row h = elim (Option-cases (t.users row.username)) [
  | inl e ↦
      let there : (tables_after t (effect (insert_user row) t)).users row.username ≡ some row =
        rw (e, tables_after, effect, eq_refl row.username) refl in
      ap (λ u. (tables_after t u).users row.username) (sym h) ∙ there
  | inr (other, e) ↦
      let refused : effect (insert_user row) t ≡ duplicate_key = rw (e, effect) refl in
      absurd (cc (sym refused ∙ h))
]

-- The other users' rows.
pub data_elsewhere :
    (t : Tables) (name display_name other : GoString)
    → (name == other) ≡ false
    → (tables_after t (effect (update_user_data display_name name) t)).users other ≡ t.users other
unfolding effect
data_elsewhere t name display_name other h = elim (Option-cases (t.users name)) [
  | inl e ↦ rw (e, tables_after, effect) refl
  | inr (row, e) ↦ rw (e, tables_after, effect, h) refl
]

pub password_elsewhere :
    (t : Tables) (name salt password other : GoString)
    → (name == other) ≡ false
    → (tables_after t (effect (update_user_password salt password name) t)).users other
      ≡ t.users other
unfolding effect
password_elsewhere t name salt password other h = elim (Option-cases (t.users name)) [
  | inl e ↦ rw (e, tables_after, effect) refl
  | inr (row, e) ↦ rw (e, tables_after, effect, h) refl
]
