-- ===== src/UserStore/Sql/Updates.antt =====
-- server/pkg/userstore/sqluserstore.go on a database that answers: `inTx` and `UpdateUser`.
use moblog_cloud.Prelude.{
  ℕ, GoString, codes, ◌==◌, true, none, some, [], Error, does_not_exist, wrap, Result, ok, err,
  panic, wrap_err, ◌≡◌, refl, ap, sym, ◌∙◌, subst, arith, inl, inr, Option-cases, Bool-cases,
}
use moblog_cloud.UserStore.{User, validate_user}
use moblog_cloud.UserStore.Spec
use moblog_cloud.UserStore.Spec.{
  Accounts, on_account, Contract, Conforms, Outcome, checked, blog_of, profile, shown, listed,
}
use moblog_cloud.UserStore.Tables.{
  UserRow, Tables, Statement, update_user_password, rows, effect, accounts, IsConsistent,
}
use moblog_cloud.UserStore.Tables.Meaning.{Changed, update_user_data-Means, accounts-none}
use moblog_cloud.UserStore.Tables.Effects.{Means-Changed}
use moblog_cloud.UserStore.Tables.Hashes.{
  tables_after, set_data, with_password, updated, update_user_password-Changed, data_row,
  password_row,
}
use moblog_cloud.UserStore.Sql.{
  Database, affected, after_check, end_tx, in_tx_from, in_tx, rolled_back, set_password,
  update_password, then_password, update_data, update_user,
}
use moblog_cloud.UserStore.Sql.Answers.{Conformed, succeeds, refuses, after_check-Conformed}
use moblog_cloud.UserStore.Sql.Databases.{IsAnswering, Told, one_found}

module _ {D T : Type 0} (db : Database D T) (argon2 : GoString → GoString → GoString)
    (read_random : D → Result GoString) (tables : D → Tables) (tx_tables : T → Tables)
    (is : IsAnswering db tables tx_tables) (salt : D → GoString)
    (random : (d : D) → read_random d ≡ ok (salt d)) where
  -- A transaction whose body succeeds, and one whose body does not.
  in_tx_succeeds :
      (body : T → Result (Unit {0}) × T) (d : D) (t : T)
      → db.begin d ≡ ok t
      → (body t).0 ≡ ok tt
      → ((in_tx db argon2 read_random body d).0 ≡ ok tt)
        × (tables (in_tx db argon2 read_random body d).1 ≡ tx_tables (body t).1)
  unfolding in_tx
  in_tx_succeeds body d t begun done = subst Ends (sym whole) (
    ap (λ r. wrap_err r (codes "Error while committing transaction")) (is.commits (body t).1 d).0,
    (is.commits (body t).1 d).1,
  )
    where
      Ends : Result (Unit {0}) × D → Type 0
      Ends r = (r.0 ≡ ok tt) × (tables r.1 ≡ tx_tables (body t).1)

      whole :
          in_tx_from db argon2 read_random body (db.begin d) d
          ≡ end_tx db argon2 read_random (ok tt, (body t).1) d
      whole =
          ap (λ b. in_tx_from db argon2 read_random body b d) begun
          ∙ ap (λ r. end_tx db argon2 read_random (r, (body t).1) d) done

  in_tx_fails :
      (body : T → Result (Unit {0}) × T) (d : D) (t : T) (e : Error)
      → db.begin d ≡ ok t
      → (body t).0 ≡ err e
      → in_tx db argon2 read_random body d ≡ (err e, d)
  unfolding in_tx
  in_tx_fails body d t e begun failed =
      ap (λ b. in_tx_from db argon2 read_random body b d) begun
      ∙ ap (λ r. end_tx db argon2 read_random (r, (body t).1) d) failed
      ∙ ap (λ r. (rolled_back db argon2 read_random e r, d)) (is.rolls_back (body t).1 d)

  -- An answered statement that affects a row.
  answered_row :
      (s : Statement) (t : T) (n : ℕ) (t' : Tables)
      → effect s (tx_tables t) ≡ rows n t'
      → ((db.exec_tx s t).0 ≡ ok (ok n)) × (tx_tables (db.exec_tx s t).1 ≡ t')
  answered_row s t n t' e =
      let (answered, after, _) =
        subst (λ x. Told tx_tables x t (db.exec_tx s t)) e (is.tells_tx s t) in
      (answered, after)

  set_password_succeeds :
      (user : User) (used : GoString) (t : T) (row : UserRow)
      → (tx_tables t).users user.username ≡ some row
      → ((set_password db argon2 read_random user used t).0 ≡ ok tt)
        × (tx_tables (set_password db argon2 read_random user used t).1
            ≡ tables_after (tx_tables t) (
                effect
                  (update_user_password used (argon2 user.password used) user.username)
                  (tx_tables t)))
  set_password_succeeds user used t row there =
      let password : GoString = argon2 user.password used in
      let (affects, _) = password_row (tx_tables t) user.username used password row there in
      let (answered, after) =
        answered_row (update_user_password used password user.username) t 1 _ affects in
      (
        ap
            (λ r. elim r [
              | ok _ ↦ ok tt
              | err e ↦ err (wrap e (codes "Error while updating user password"))
              | panic ↦ panic
            ])
            answered,
        after,
      )

  then_password_succeeds :
      (user : User) (d : D) (r : Result (Unit {0})) (t : T) (row new_row : UserRow)
      → r ≡ ok tt
      → (tables d).users user.username ≡ some row
      → (tx_tables t).users user.username ≡ some new_row
      → ((then_password db argon2 read_random user d (r, t)).0 ≡ ok tt)
        × (tx_tables (then_password db argon2 read_random user d (r, t)).1
            ≡ with_password argon2 user row.salt (tx_tables t))
  then_password_succeeds user d r t row new_row done there new_there =
      subst
        (λ x.
          Succeeded (then_password db argon2 read_random user d (x, t))
            (with_password argon2 user row.salt (tx_tables t)))
        (sym done)
        (elim (Bool-cases (user.password == [])) [
          | inl is_empty ↦ rw (is_empty, then_password) (refl, refl)
          | inr given ↦
              rw (given, then_password)
                (subst
                  (λ x. Succeeded (update_password db argon2 read_random user x t) (
                    tables_after (tx_tables t) (
                      effect
                        (update_user_password row.salt (argon2 user.password row.salt)
                          user.username)
                        (tx_tables t))))
                  (sym (is.finds_user user.username d ∙ ap one_found there))
                  (set_password_succeeds user row.salt t new_row new_there))
        ])
    where
      Succeeded : Result (Unit {0}) × T → Tables → Type 0
      Succeeded x after = (x.0 ≡ ok tt) × (tx_tables x.1 ≡ after)

  abbrev updating : User → D → Result (Unit {0}) × D
  updating user d =
      in_tx db argon2 read_random
        (λ t. then_password db argon2 read_random user d (update_data db argon2 read_random user t))
        d

  -- An unknown user is refused inside the transaction, which is rolled back.
  updating_unknown :
      (user : User) (d : D)
      → (tables d).users user.username ≡ none
      → updating user d ≡ (err does_not_exist, d)
  unfolding effect
  updating_unknown user d missing =
      let (t, begun, same) = is.begins d in
      let (answered, _) =
        answered_row (set_data user) t 0 (tx_tables t)
          (rw (ap (λ u. u.users user.username) same ∙ missing, effect) refl) in
      in_tx_fails _ d t does_not_exist begun (
        ap
          (λ r.
            (then_password db argon2 read_random user d (
              affected does_not_exist (codes "Error while updating user data")
                  (codes "Error counting the affected rows") r,
              (db.exec_tx (set_data user) t).1,
            )).0)
          answered)

  updating_known :
      (user : User) (d : D) (row : UserRow)
      → (tables d).users user.username ≡ some row
      → ((updating user d).0 ≡ ok tt)
        × (tables (updating user d).1 ≡ updated argon2 user row.salt (tables d))
  updating_known user d row there =
      let (t, begun, same) = is.begins d in
      let there_t = ap (λ u. u.users user.username) same ∙ there in
      let (affects, new_there) =
        data_row (tx_tables t) user.username user.display_name row there_t in
      let (answered, after) = answered_row (set_data user) t 1 _ affects in
      let (done, updates) =
        then_password_succeeds user d (update_data db argon2 read_random user t).0
          (update_data db argon2 read_random user t).1 row _
          (ap
            (affected does_not_exist (codes "Error while updating user data")
              (codes "Error counting the affected rows"))
            answered)
          there (ap (λ u. u.users user.username) after ∙ new_there) in
      let (answer, final) = in_tx_succeeds _ d t begun done in
      (
        answer,
        final
            ∙ updates
            ∙ ap (with_password argon2 user row.salt) after
            ∙ ap (updated argon2 user row.salt) same,
      )

  updated-Changed :
      (user : User) (used : GoString) (t : Tables) (row : UserRow)
      → IsConsistent t
      → validate_user user true ≡ none
      → t.users user.username ≡ some row
      → Changed (Spec.update_user user (accounts t)) (updated argon2 user used t)
  updated-Changed user used t row v valid there = elim (Bool-cases (user.password == [])) [
    | inl is_empty ↦ rw (is_empty, with_password) data_changed
    | inr given ↦
        rw (given, with_password)
          (update_user_password-Changed _ _ user.username used (argon2 user.password used)
            data_changed)
  ]
    where
      data_changed :
          Changed (Spec.update_user user (accounts t)) (tables_after t (effect (set_data user) t))
      data_changed =
          elim (Means-Changed t _ 1 _ (update_user_data-Means t v user valid)
            (data_row t user.username user.display_name row there).0) [
              | inl (_, changed) ↦ changed
              | inr (_, never, _) ↦ absurd (omega (arith, never))
            ]

  -- What `UpdateUser` does to a known user's rows.
  pub update_user_tables :
      (user : User) (d : D) (row : UserRow)
      → validate_user user true ≡ none
      → (tables d).users user.username ≡ some row
      → tables (update_user db argon2 read_random user d).1
        ≡ updated argon2 user row.salt (tables d)
  unfolding update_user
  update_user_tables user d row valid there =
      rw (valid, after_check) ((updating_known user d row there).1)

  pub update_user-Conformed :
      (user : User) (d : D) (v : IsConsistent (tables d))
      → Conformed tables d v
          (Spec.update_user user (accounts (tables d)))
          (update_user db argon2 read_random user d)
  unfolding update_user Spec.update_user
  update_user-Conformed user d v =
      after_check-Conformed tables d v _ (validate_user user true) _ (λ e h. rw (h, checked) refl)
        λ valid. elim (Option-cases ((tables d).users user.username)) [
          | inl missing ↦
              refuses tables d v _ _ _ (wrap does_not_exist context)
                (rw (valid, checked, accounts-none (tables d) user.username missing, on_account)
                  refl)
                (ap (λ r. wrap_err r.0 context) (updating_unknown user d missing))
                (ap (λ r. r.1) (updating_unknown user d missing))
          | inr (row, there) ↦
              let (answer, after) = updating_known user d row there in
              succeeds tables d v _ _ _ _
                (updated-Changed user row.salt (tables d) row v valid there)
                (ap (λ r. wrap_err r context) answer) after
        ]
    where
      context : GoString
      context = codes "Error while updating user"
