-- ===== src/UserStore/Sql/Rehashing.antt =====
-- server/pkg/userstore/sqluserstore.go, the password of `UpdateUser`, whatever becomes of the connection.
use moblog_cloud.Prelude.{
  ℕ, GoString, codes, ◌==◌, true, false, Option, some, [], wrap, Result, ok, err, panic, ◌≡◌, refl,
  ap, subst, sym, inl, inr, Bool-cases,
}
use moblog_cloud.UserStore.{User}
use moblog_cloud.UserStore.Tables.{UserRow, Tables, Statement, update_user_password, effect}
use moblog_cloud.UserStore.Tables.Hashes.{tables_after}
use moblog_cloud.UserStore.Sql.{Database, set_password, update_password, then_password, is_no_rows}
use moblog_cloud.UserStore.Sql.Transactions.{Held}
use moblog_cloud.UserStore.Sql.Databases.{IsDatabase, Ran, Answers}

-- The salt that a new password is hashed with, by the answer to its query: that of the row, which is the
-- one that the table has, or nil where the query has failed.
abbrev pub Salted : Result UserRow → Option UserRow → GoString → Type 0
Salted (ok row) held salt = (held ≡ some row) × (salt ≡ row.salt)
Salted (err e) held salt = (is_no_rows e ≡ false) × (salt ≡ [])
Salted panic held salt = ⊥

module _ {D T : Type 0} (db : Database D T) (argon2 : GoString → GoString → GoString)
    (read_random : D → Result GoString) (tables : D → Tables) (tx_tables : T → Tables)
    (is : IsDatabase db tables tx_tables) (Q P : Tables → Type 0) (user : User) (d : D)
    (stores : (user.password == []) ≡ false
      → (salt : GoString) (t : Tables)
      → Salted (db.user_row user.username d) ((tables d).users user.username) salt
      → Q t
      → P (
          tables_after t
            (effect (update_user_password salt (argon2 user.password salt) user.username) t)))
    (keeps : (t : Tables) → (user.password == []) ≡ true → Q t → P t) where
  set_password-Held :
      (user.password == []) ≡ false
      → (salt : GoString) (t : T)
      → Salted (db.user_row user.username d) ((tables d).users user.username) salt
      → Q (tx_tables t)
      → Held P
          (set_password db argon2 read_random user salt t).0
          (tx_tables (set_password db argon2 read_random user salt t).1)
  set_password-Held given salt t salted held = answered (db.exec_tx s t) (is.execs_tx s t)
    where
      s : Statement
      s = update_user_password salt (argon2 user.password salt) user.username

      answered :
          (r : Result (Result ℕ) × T)
          → Ran s (tx_tables t) r.0 (tx_tables r.1)
          → Held P
              (elim r.0 [
                | ok _ ↦ ok tt
                | err e ↦ err (wrap e (codes "Error while updating user password"))
                | panic ↦ panic
              ])
              (tx_tables r.1)
      answered (ok counted, t') (n, h, _) =
          subst P (ap (tables_after (tx_tables t)) h) (stores given salt (tx_tables t) salted held)
      answered (err _, t') ran = tt
      answered (panic, t') ran = tt

  salted :
      (salt : GoString) (row : Result UserRow)
      → db.user_row user.username d ≡ row
      → Salted row ((tables d).users user.username) salt
      → Salted (db.user_row user.username d) ((tables d).users user.username) salt
  salted salt row asked h =
      subst (λ r. Salted r ((tables d).users user.username) salt) (sym asked) h

  update_password-Held :
      (user.password == []) ≡ false
      → (row : Result UserRow) (t : T) → db.user_row user.username d ≡ row
      → Answers row ((tables d).users user.username)
      → Q (tx_tables t)
      → Held P
          (update_password db argon2 read_random user row t).0
          (tx_tables (update_password db argon2 read_random user row t).1)
  update_password-Held given (ok row) t asked there held =
      set_password-Held given row.salt t (salted _ (ok row) asked (there, refl)) held
  update_password-Held given (err e) t asked _ held = elim (Bool-cases (is_no_rows e)) [
    | inl missing ↦ rw (missing, update_password) tt
    | inr other ↦
        rw (other, update_password)
          (set_password-Held given [] t (salted _ (err e) asked (other, refl)) held)
  ]
  update_password-Held given panic t _ _ held = tt

  pub then_password-Held :
      (r : Result (Unit {0})) (t : T)
      → Held Q r (tx_tables t)
      → Held P
          (then_password db argon2 read_random user d (r, t)).0
          (tx_tables (then_password db argon2 read_random user d (r, t)).1)
  then_password-Held (err e) t held = tt
  then_password-Held panic t held = tt
  then_password-Held (ok _) t held = elim (Bool-cases (user.password == [])) [
    | inl is_empty ↦ rw (is_empty, then_password) (keeps (tx_tables t) is_empty held)
    | inr given ↦
        rw (given, then_password)
          (update_password-Held given (db.user_row user.username d) t refl
            (is.finds_user user.username d) held)
  ]
