-- ===== src/UserStore/Sql/Passwords.antt =====
-- server/pkg/userstore/sqluserstore.go: which passwords a user can log in with.
use moblog_cloud.Prelude.{
  GoString, ◌==◌, eq_iff, Bool, true, not, ◌&&◌, Option, none, some, [], Result, ok, ◌≡◌, ap, sym,
  ◌∙◌, Bool-cases, inl, inr, if◌then◌else◌,
}
use moblog_cloud.UserStore.{User, validate_user}
use moblog_cloud.UserStore.Tables.{UserRow, Tables, effect, update_user_data}
use moblog_cloud.UserStore.Tables.Hashes.{
  tables_after, updated, with_password, data_row, password_row, data_elsewhere, password_elsewhere,
}
use moblog_cloud.UserStore.Sql.{Database, update_user, authenticate_user, authenticated}
use moblog_cloud.UserStore.Sql.Databases.{IsAnswering, one_found}
use moblog_cloud.UserStore.Sql.Updates.{update_user_tables}

module _ {D T : Type 0} (db : Database D T) (argon2 : GoString → GoString → GoString)
    (read_random : D → Result GoString) (tables : D → Tables) (tx_tables : T → Tables)
    (is : IsAnswering db tables tx_tables) (salt : D → GoString)
    (random : (d : D) → read_random d ≡ ok (salt d)) where
  abbrev login : GoString → Option UserRow → Result Bool
  login password row = authenticated db argon2 read_random password (one_found row)

  authenticate-login :
      (name password : GoString) (d : D)
      → authenticate_user db argon2 read_random name password d
        ≡ login password ((tables d).users name)
  unfolding authenticate_user
  authenticate-login name password d =
      ap (authenticated db argon2 read_random password) (is.finds_user name d)

  updated-login :
      (user : User) (t : Tables) (row : UserRow) (name password : GoString)
      → t.users user.username ≡ some row
      → login password ((updated argon2 user row.salt t).users name) ≡ (
          if user.username == name && not (user.password == [])
          then ok (argon2 password row.salt == argon2 user.password row.salt)
          else login password (t.users name))
  updated-login user t row name password there = elim (Bool-cases (user.username == name)) [
    | inr other ↦ elim (Bool-cases (user.password == [])) [
      | inl is_empty ↦
          rw (other, is_empty, with_password)
            (ap (login password) (data_elsewhere t user.username user.display_name name other))
      | inr given ↦
          rw (other, given, with_password)
            (ap (login password) (
              password_elsewhere t1 user.username row.salt (argon2 user.password row.salt) name
                other
              ∙ data_elsewhere t user.username user.display_name name other))
    ]
    | inl here ↦ elim (Bool-cases (user.password == [])) [
      | inl is_empty ↦
          rw (here, is_empty, with_password, sym ((eq_iff user.username name).0 here))
            (ap (login password) (data_row t user.username user.display_name row there).1
              ∙ ap (login password) (sym there))
      | inr given ↦
          rw (here, given, with_password, sym ((eq_iff user.username name).0 here))
            (ap (login password)
              (password_row t1 user.username row.salt (argon2 user.password row.salt) _
                (data_row t user.username user.display_name row there).1).1)
    ]
  ]
    where
      t1 : Tables
      t1 = tables_after t (effect (update_user_data user.display_name user.username) t)

  -- On a database that answers every call, after an update of a user, who is known, with a valid
  -- argument: without a password every login is as
  -- before, and with one the user logs in with what has the same hash, of the salt the user had; the
  -- logins of other users are as before.
  pub authenticate-update_user_sql :
      (user : User) (d : D) (row : UserRow) (name password : GoString)
      → validate_user user true ≡ none
      → (tables d).users user.username ≡ some row
      → authenticate_user db argon2 read_random name password
          (update_user db argon2 read_random user d).1
        ≡ (if user.username == name && not (user.password == [])
            then ok (argon2 password row.salt == argon2 user.password row.salt)
            else authenticate_user db argon2 read_random name password d)
  authenticate-update_user_sql user d row name password valid there =
      rw (authenticate-login name password d) (
        authenticate-login name password (update_user db argon2 read_random user d).1
        ∙ ap (λ t. login password (t.users name))
            (update_user_tables db argon2 read_random tables tx_tables is salt random user d row
              valid there)
        ∙ updated-login user (tables d) row name password there)
