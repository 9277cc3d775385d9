-- ===== src/UserStore/Sql/Atomic.antt =====
-- server/pkg/userstore/sqluserstore.go, whatever becomes of the connection to the database.
use moblog_cloud.Prelude.{
  ℕ, GoString, codes, nat_eq, true, false, Option, none, Error, already_exists, does_not_exist,
  blog_already_exists, blog_does_not_exist, Result, ok, err, panic, ◌≡◌, refl, ap, sym, ◌∙◌, subst,
  ◌⊎◌, inl, inr, Bool-cases,
}
use moblog_cloud.UserStore.{User, validate_user, validate_blog}
use moblog_cloud.UserStore.Spec
use moblog_cloud.UserStore.Spec.{Accounts}
use moblog_cloud.UserStore.Spec.Calls.{
  Call, creation, update, deletion, blog_creation, blog_update, blog_deletion, run, specified,
}
use moblog_cloud.UserStore.Tables.{
  Tables, Statement, insert_user, update_user_data, delete_user_row, insert_blog, update_blog_row,
  delete_blog_row, rows, effect, accounts, IsConsistent,
}
use moblog_cloud.UserStore.Tables.Meaning.{
  Changed, Means, insert_user-Means, update_user_data-Means, delete_user_row-Means,
  insert_blog-Means, update_blog_row-Means, delete_blog_row-Means,
}
use moblog_cloud.UserStore.Tables.Effects.{Means-Changed}
use moblog_cloud.UserStore.Tables.Hashes.{update_user_password-Changed}
use moblog_cloud.UserStore.Sql.{
  Database, is_duplicate, inserted, one_row, affected, hash_new_password, insert_hashed,
  create_user, in_tx_from, in_tx, then_password, update_data, update_user, delete_user, add_blog,
  update_blog, delete_blog, sql_user_store,
}
use moblog_cloud.UserStore.Sql.Transactions.{
  Ended, Held, wrapped-Ended, after_check-Ended, in_tx_from-Ended,
}
use moblog_cloud.UserStore.Sql.Rehashing.{then_password-Held}
use moblog_cloud.UserStore.Sql.Databases.{IsDatabase, Ran}

-- What a method has done to the tables, by its answer: without an error, what is specified; with an
-- error, that or nothing.
abbrev pub Done : Option Accounts → Tables → Result (Unit {0}) → Tables → Type 0
Done spec = Ended (Changed spec)

module _ (spec : Option Accounts) (s : Statement) (t t' : Tables) where
  -- After an execution that may have failed.
  done_or_not :
      (Zero : Type 0)
      → Means Zero spec t (effect s t)
      → (n : ℕ) → effect s t ≡ rows n t'
      → (t' ≡ t) ⊎ Changed spec t'
  done_or_not Zero m n h = elim (Means-Changed t t' n (effect s t) m h) [
    | inl (_, changed) ↦ inr changed
    | inr (_, _, same) ↦ inl same
  ]

  failed :
      (Zero : Type 0)
      → Means Zero spec t (effect s t)
      → Ran s t panic t'
      → (t' ≡ t) ⊎ Changed spec t'
  failed Zero m (inl same) = inl same
  failed Zero m (inr (n, h)) = done_or_not Zero m n h

  inserted-Done :
      (duplicate : Error) (text : GoString) (r : Result (Result ℕ))
      → Means ⊥ spec t (effect s t)
      → Ran s t r t'
      → Done spec t (inserted duplicate text r) t'
  inserted-Done duplicate text (ok counted) m (n, h, _) =
      elim (Means-Changed t t' n (effect s t) m h) [
        | inl (_, changed) ↦ changed
        | inr (never, _, _) ↦ absurd never
      ]
  inserted-Done duplicate text (err e) m ran = elim (Bool-cases (is_duplicate e)) [
    | inl is ↦ rw (is, inserted) (failed ⊥ m ran)
    | inr is ↦ rw (is, inserted) (failed ⊥ m ran)
  ]
  inserted-Done duplicate text panic m ran = failed ⊥ m ran

  affected-Done :
      (missing : Error) (exec_text rows_text : GoString) (r : Result (Result ℕ))
      → Means Unit spec t (effect s t)
      → Ran s t r t'
      → Done spec t (affected missing exec_text rows_text r) t'
  affected-Done missing exec_text rows_text (ok (ok k)) m (n, h, told) =
      elim (Bool-cases (nat_eq k 1)) [
        | inr other ↦ rw (other, affected, one_row) (done_or_not Unit m n h)
        | inl one ↦ elim (Means-Changed t t' n (effect s t) m h) [
          | inl (_, changed) ↦ rw (one, affected, one_row) changed
          | inr (_, zero, _) ↦ cc (one, ap (λ x. nat_eq x 1) (told ∙ zero))
        ]
      ]
  affected-Done missing exec_text rows_text (ok (err e)) m (n, h, _) = done_or_not Unit m n h
  affected-Done missing exec_text rows_text (ok panic) m (n, h, _) = done_or_not Unit m n h
  affected-Done missing exec_text rows_text (err e) m ran = failed Unit m ran
  affected-Done missing exec_text rows_text panic m ran = failed Unit m ran

module _ {D T : Type 0} (db : Database D T) (argon2 : GoString → GoString → GoString)
    (read_random : D → Result GoString) (tables : D → Tables) (tx_tables : T → Tables)
    (is : IsDatabase db tables tx_tables) where
  affected-Held :
      (spec : Option Accounts) (s : Statement) (t t' : Tables) (missing : Error)
      (exec_text rows_text : GoString) (r : Result (Result ℕ))
      → Means Unit spec t (effect s t)
      → Ran s t r t'
      → Held (Changed spec) (affected missing exec_text rows_text r) t'
  affected-Held spec s t t' missing exec_text rows_text r means ran =
      held_of (affected missing exec_text rows_text r)
        (affected-Done spec s t t' missing exec_text rows_text r means ran)
    where
      held_of : (r : Result (Unit {0})) → Done spec t r t' → Held (Changed spec) r t'
      held_of (ok _) done = done
      held_of (err e) done = tt
      held_of panic done = tt

  update_data-Held :
      (user : User) (t : T)
      → IsConsistent (tx_tables t)
      → validate_user user true ≡ none
      → Held
          (Changed (Spec.update_user user (accounts (tx_tables t))))
          (update_data db argon2 read_random user t).0
          (tx_tables (update_data db argon2 read_random user t).1)
  update_data-Held user t v valid =
      affected-Held _ s (tx_tables t) _ does_not_exist _ _ (db.exec_tx s t).0
        (update_user_data-Means (tx_tables t) v user valid) (is.execs_tx s t)
    where
      s : Statement
      s = update_user_data user.display_name user.username

  update_user-Done :
      (user : User) (d : D)
      → IsConsistent (tables d)
      → Done
          (Spec.update_user user (accounts (tables d)))
          (tables d)
          (update_user db argon2 read_random user d).0
          (tables (update_user db argon2 read_random user d).1)
  unfolding update_user in_tx
  update_user-Done user d v = after_check-Ended tables _ (validate_user user true) _ d λ valid.
      wrapped-Ended changes (tables d) (tables answer.1) answer.0
        (codes "Error while updating user")
        (in_tx_from-Ended db argon2 read_random tables tx_tables is changes body (db.begin d) d
          λ t begun.
            then_password-Held db argon2 read_random tables tx_tables is changes changes user d
              (λ given salt u _ changed.
                update_user_password-Changed _ u user.username salt _ changed)
              (λ u _ changed. changed) (update_data db argon2 read_random user t).0
              (update_data db argon2 read_random user t).1
              (subst
                (λ u.
                  Held (Changed (Spec.update_user user (accounts u)))
                    (update_data db argon2 read_random user t).0
                    (tx_tables (update_data db argon2 read_random user t).1))
                (is.begins d t begun)
                (update_data-Held user t (subst IsConsistent (sym (is.begins d t begun)) v) valid)))
    where
      changes : Tables → Type 0
      changes = Changed (Spec.update_user user (accounts (tables d)))

      body : T → Result (Unit {0}) × T
      body t = then_password db argon2 read_random user d (update_data db argon2 read_random user t)

      answer : Result (Unit {0}) × D
      answer = in_tx_from db argon2 read_random body (db.begin d) d

  create_user-Done :
      (user : User) (d : D)
      → IsConsistent (tables d)
      → Done
          (Spec.create_user user (accounts (tables d)))
          (tables d)
          (create_user db argon2 read_random user d).0
          (tables (create_user db argon2 read_random user d).1)
  unfolding create_user
  create_user-Done user d v =
      after_check-Ended tables _ (validate_user user false) _ d λ valid.
        hashed valid (hash_new_password db argon2 read_random user.password (read_random d))
    where
      hashed :
          validate_user user false ≡ none
          → (new : Result (GoString × GoString))
          → Done
              (Spec.create_user user (accounts (tables d)))
              (tables d)
              (insert_hashed db argon2 read_random user d new).0
              (tables (insert_hashed db argon2 read_random user d new).1)
      hashed valid (err e) = inl refl
      hashed valid panic = inl refl
      hashed valid (ok (salt, password)) =
          inserted-Done _ s (tables d) _ already_exists _ (db.exec s d).0
            (insert_user-Means (tables d) v user salt password valid) (is.execs s d)
        where
          s : Statement
          s = insert_user (record {
            username = user.username;
            display_name = user.display_name;
            salt = salt;
            password = password;
          })

  -- Without an error a call does what is specified; with an error it does that, where the connection is
  -- lost too late, or nothing.
  pub sql_user_store-Done :
      (call : Call) (d : D)
      → IsConsistent (tables d)
      → Done
          (specified call (accounts (tables d)))
          (tables d)
          (run (sql_user_store db argon2 read_random) call d).0
          (tables (run (sql_user_store db argon2 read_random) call d).1)
  unfolding run specified sql_user_store create_user update_user delete_user add_blog update_blog
      delete_blog
  sql_user_store-Done (creation user) d v = create_user-Done user d v
  sql_user_store-Done (update user) d v = update_user-Done user d v
  sql_user_store-Done (deletion name) d v =
      affected-Done _ (delete_user_row name) (tables d) _ does_not_exist _ _
        (db.exec (delete_user_row name) d).0 (delete_user_row-Means (tables d) v name)
        (is.execs (delete_user_row name) d)
  sql_user_store-Done (blog_creation name blog) d v =
      after_check-Ended tables _ (validate_blog blog) _ d λ valid.
        inserted-Done _ s (tables d) _ blog_already_exists _ (db.exec s d).0
          (insert_blog-Means (tables d) v name blog valid) (is.execs s d)
    where
      s : Statement
      s = insert_blog name blog.slug blog.display_name
  sql_user_store-Done (blog_update name blog) d v =
      after_check-Ended tables _ (validate_blog blog) _ d λ valid.
        affected-Done _ s (tables d) _ blog_does_not_exist _ _ (db.exec s d).0
          (update_blog_row-Means (tables d) v name blog valid) (is.execs s d)
    where
      s : Statement
      s = update_blog_row blog.display_name name blog.slug
  sql_user_store-Done (blog_deletion name slug) d v =
      affected-Done _ (delete_blog_row name slug) (tables d) _ blog_does_not_exist _ _
        (db.exec (delete_blog_row name slug) d).0 (delete_blog_row-Means (tables d) v name slug)
        (is.execs (delete_blog_row name slug) d)
