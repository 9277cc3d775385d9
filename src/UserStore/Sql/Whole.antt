-- ===== src/UserStore/Sql/Whole.antt =====
-- server/pkg/userstore/sqluserstore.go, the transaction of `UpdateUser`, whatever becomes of the connection.
use moblog_cloud.Prelude.{
  ℕ, GoString, codes, nat_eq, true, false, false≢true, eq_iff, ◌==◌, ◌≢◌, ◌⊎◌, ◌∙◌, none, Error, [],
  does_not_exist, Result, ok, err, panic, ◌≡◌, refl, ap, sym, subst, inl, inr, Bool-cases,
}
use moblog_cloud.UserStore.{User, validate_user}
use moblog_cloud.UserStore.Tables.{UserRow, Tables, update_user_password, effect}
use moblog_cloud.UserStore.Tables.Hashes.{tables_after, set_data, with_password, updated}
use moblog_cloud.UserStore.Sql.{
  Database, one_row, affected, in_tx_from, in_tx, then_password, update_data, update_user,
  is_no_rows,
}
use moblog_cloud.UserStore.Sql.Transactions.{
  Ended, Held, wrapped-Ended, after_check-Ended, in_tx_from-Ended,
}
use moblog_cloud.UserStore.Sql.Rehashing.{Salted, then_password-Held}
use moblog_cloud.UserStore.Sql.Databases.{IsDatabase, Ran}

-- The tables after an update, by the answer to the query of the salt: an update without a password
-- stores its data; one with a password stores that too, hashed with the salt of the answered row or, where
-- the query has failed, with nil.
abbrev pub IsUpdated :
    (GoString → GoString → GoString) → Result UserRow → User → Tables → Tables → Type 0
IsUpdated argon2 answer user t t' =
    ((user.password ≡ []) × (t' ≡ tables_after t (effect (set_data user) t)))
    ⊎ ((user.password ≢ [])
        × ((salt : GoString) × Salted answer (t.users user.username) salt
            × (t' ≡ updated argon2 user salt t)))

module _ {D T : Type 0} (db : Database D T) (argon2 : GoString → GoString → GoString)
    (read_random : D → Result GoString) (tables : D → Tables) (tx_tables : T → Tables)
    (is : IsDatabase db tables tx_tables) where
  abbrev HasData : User → Tables → Tables → Type 0
  HasData user t t' = t' ≡ tables_after t (effect (set_data user) t)

  update_data-HasData :
      (user : User) (t : T)
      → Held
          (HasData user (tx_tables t))
          (update_data db argon2 read_random user t).0
          (tx_tables (update_data db argon2 read_random user t).1)
  update_data-HasData user t =
      answered (db.exec_tx (set_data user) t) (is.execs_tx (set_data user) t)
    where
      answered :
          (r : Result (Result ℕ) × T)
          → Ran (set_data user) (tx_tables t) r.0 (tx_tables r.1)
          → Held
              (HasData user (tx_tables t))
              (affected does_not_exist
                (codes "Error while updating user data")
                (codes "Error counting the affected rows")
                r.0)
              (tx_tables r.1)
      answered (ok (ok k), t') (n, h, _) = elim (Bool-cases (nat_eq k 1)) [
        | inl one ↦ rw (one, affected, one_row) (sym (ap (tables_after (tx_tables t)) h))
        | inr other ↦ rw (other, affected, one_row) tt
      ]
      answered (ok (err e), t') ran = tt
      answered (ok panic, t') ran = tt
      answered (err e, t') ran = tt
      answered (panic, t') ran = tt

  -- The data and the password of an update are stored together or not at all, whatever fails: without
  -- an error both are stored; with an error both are, where the connection is lost too late, or the
  -- tables are as they were. The password is hashed with the salt of the row that the query has found,
  -- which is the row of the table, or with nil where the query has failed with an error that is not
  -- `sql.ErrNoRows`.
  pub update_user-IsUpdated :
      (user : User) (d : D)
      → Ended
          (IsUpdated argon2 (db.user_row user.username d) user (tables d))
          (tables d)
          (update_user db argon2 read_random user d).0
          (tables (update_user db argon2 read_random user d).1)
  unfolding update_user in_tx
  update_user-IsUpdated user d = after_check-Ended tables P (validate_user user true) _ d λ valid.
      wrapped-Ended P (tables d) (tables answer.1) answer.0 (codes "Error while updating user") (
        in_tx_from-Ended db argon2 read_random tables tx_tables is P body (db.begin d) d λ t begun.
          then_password-Held db argon2 read_random tables tx_tables is (HasData user (tables d)) P
            user d
            (λ given salt u salted has. inr (
              (λ is_empty. false≢true (sym given ∙ (eq_iff user.password []).1 is_empty)),
              (salt, salted, rw (with_password, given) (ap (stored salt) has)),
            ))
            (λ u is_empty has. inl ((eq_iff user.password []).0 is_empty, has))
            (update_data db argon2 read_random user t).0
            (update_data db argon2 read_random user t).1
            (subst
              (λ u.
                Held (HasData user u) (update_data db argon2 read_random user t).0
                  (tx_tables (update_data db argon2 read_random user t).1))
              (is.begins d t begun) (update_data-HasData user t)))
    where
      P : Tables → Type 0
      P = IsUpdated argon2 (db.user_row user.username d) user (tables d)

      stored : GoString → Tables → Tables
      stored salt u =
          tables_after u
            (effect (update_user_password salt (argon2 user.password salt) user.username) u)

      body : T → Result (Unit {0}) × T
      body t = then_password db argon2 read_random user d (update_data db argon2 read_random user t)

      answer : Result (Unit {0}) × D
      answer = in_tx_from db argon2 read_random body (db.begin d) d

  -- A query of the salt that fails is no error of the update: where everything else is answered, the
  -- update of an existing user succeeds, and the new password is stored with the nil salt and the hash
  -- that is made with it.
  pub update_user-unsalted :
      (user : User) (d d' : D) (t t₁ t₂ : T) (e : Error) (counted : Result ℕ)
      → validate_user user true ≡ none
      → user.password ≢ []
      → db.begin d ≡ ok t
      → db.exec_tx (set_data user) t ≡ (ok (ok 1), t₁)
      → db.user_row user.username d ≡ err e
      → is_no_rows e ≡ false
      → db.exec_tx (update_user_password [] (argon2 user.password []) user.username) t₁
        ≡ (ok counted, t₂)
      → db.commit t₂ d ≡ (ok tt, d')
      → (update_user db argon2 read_random user d ≡ (ok tt, d'))
        × (tables d' ≡ updated argon2 user [] (tables d))
  unfolding update_user in_tx
  update_user-unsalted user d d' t t₁ t₂ e counted valid given begun has_data asked other stored
        ended =
      (runs, unsalted (subst Updated runs (update_user-IsUpdated user d)))
    where
      given' : (user.password == []) ≡ false
      given' = elim (Bool-cases (user.password == [])) [
        | inl is_empty ↦ absurd (given ((eq_iff user.password []).0 is_empty))
        | inr differs ↦ differs
      ]

      runs : update_user db argon2 read_random user d ≡ (ok tt, d')
      runs = rw (valid, begun, has_data, given', asked, other, stored, ended) refl

      Updated : Result (Unit {0}) × D → Type 0
      Updated r =
          Ended (IsUpdated argon2 (db.user_row user.username d) user (tables d)) (tables d) r.0
            (tables r.1)

      unsalted :
          IsUpdated argon2 (db.user_row user.username d) user (tables d) (tables d')
          → tables d' ≡ updated argon2 user [] (tables d)
      unsalted (inl (is_empty, _)) = absurd (given is_empty)
      unsalted (inr (_, (salt, salted, is_after))) =
          let (_, nil) = subst (λ r. Salted r ((tables d).users user.username) salt) asked salted in
          is_after ∙ ap (λ s. updated argon2 user s (tables d)) nil
