-- ===== src/UserStore/Sql.antt =====
-- server/pkg/userstore/sqluserstore.go. The database and its driver are the parameter `db`, Argon2
-- and the random source are the parameters `argon2` and `read_random`. `NewSQLUserStore` is in Making.
pub mod Databases
pub mod Making
pub mod Transactions
pub mod Rehashing
pub mod Atomic
pub mod Whole
pub mod Answers
pub mod Updates
pub mod Contract
pub mod Passwords
use moblog_cloud.Prelude.{
  ℕ, GoString, codes, ◌==◌, contains, nat_eq, Bool, true, false, not, ◌&&◌, ◌||◌, Option, none,
  some, List, [], ◌∷◌, ◌++◌, Error, already_exists, does_not_exist, username_empty,
  username_invalid, password_empty, blog_already_exists, blog_does_not_exist, blog_slug_empty,
  blog_slug_invalid, no_rows, message, wrap, Result, ok, err, panic, wrap_err, if◌then◌else◌,
}
use moblog_cloud.UserStore.{User, Blog, UserStore, validate_user, validate_blog}
use moblog_cloud.UserStore.Tables.{
  UserRow, Statement, insert_user, update_user_data, update_user_password, delete_user_row,
  insert_blog, update_blog_row, delete_blog_row,
}

-- The calls of database/sql and sqlx. A statement that ran comes back with a result, whose
-- `RowsAffected` may be an error of its own. A query of one row comes back with `no_rows` where there
-- is none. The statements of a transaction work on a state `T` of its own.
pub record Database (D T : Type 0) : Type 0 where
  pub exec : Statement → D → Result (Result ℕ) × D
  pub user_row : GoString → D → Result UserRow
  pub blog_row : GoString → GoString → D → Result Blog
  pub blog_rows : GoString → D → Result (List Blog)
  pub begin : D → Result T
  pub exec_tx : Statement → T → Result (Result ℕ) × T
  pub commit : T → D → Result (Unit {0}) × D
  pub rollback : T → D → Result (Unit {0})

-- `err.Error()` of a driver's error and of what wraps one.
abbrev pub error_text : Error → GoString
error_text (message text) = text
error_text (wrap e text) = text ++ codes ": " ++ error_text e
error_text does_not_exist = codes "User does not exist"
error_text e = []

abbrev pub is_duplicate : Error → Bool
is_duplicate e = contains (error_text e) (codes "duplicate key value violates unique constraint")

-- An insertion's error, with the given one for a duplicate key.
abbrev pub inserted : {A : Type 0} → Error → GoString → Result A → Result (Unit {0})
inserted duplicate text (ok _) = ok tt
inserted duplicate text (err e) = if is_duplicate e then err duplicate else err (wrap e text)
inserted duplicate text panic = panic

-- The check that exactly one row was affected.
abbrev pub one_row : Error → GoString → Result ℕ → Result (Unit {0})
one_row missing text (ok n) = if nat_eq n 1 then ok tt else err missing
one_row missing text (err e) = err (wrap e text)
one_row missing text panic = panic

abbrev pub affected : Error → GoString → GoString → Result (Result ℕ) → Result (Unit {0})
affected missing exec_text rows_text (ok counted) = one_row missing rows_text counted
affected missing exec_text rows_text (err e) = err (wrap e exec_text)
affected missing exec_text rows_text panic = panic

-- The test against `sql.ErrNoRows`.
abbrev pub is_no_rows : Error → Bool
is_no_rows no_rows = true
is_no_rows _ = false

abbrev pub found : {A B : Type 0} → (A → B) → GoString → Result A → Result (Option B)
found shown text (ok row) = ok (some (shown row))
found shown text (err e) = if is_no_rows e then ok none else err (wrap e text)
found shown text panic = panic

-- A check first, then the rest.
abbrev pub after_check :
    {D : Type 0} → Option Error → Result (Unit {0}) × D → D → Result (Unit {0}) × D
after_check (some e) rest d = (err e, d)
after_check none rest d = rest

module _ {D T : Type 0} (db : Database D T) (argon2 : GoString → GoString → GoString)
    (read_random : D → Result GoString) where
  abbrev pub hash_password : GoString → GoString → GoString
  hash_password password salt = argon2 password salt

  -- `hashNewPassword`: the salt and the hash.
  abbrev pub hash_new_password : GoString → Result GoString → Result (GoString × GoString)
  hash_new_password password (ok salt) = ok (salt, hash_password password salt)
  hash_new_password password (err e) = err e
  hash_new_password password panic = panic

  abbrev pub insert_hashed : User → D → Result (GoString × GoString) → Result (Unit {0}) × D
  insert_hashed user d (err e) = (wrap_err (err e) (codes "Error while hashing password"), d)
  insert_hashed user d panic = (panic, d)
  insert_hashed user d (ok (salt, password)) =
      let row : UserRow = record {
        username = user.username;
        display_name = user.display_name;
        salt = salt;
        password = password;
      } in
      let answer = db.exec (insert_user row) d in
      (inserted already_exists (codes "Error while creating user") answer.0, answer.1)

  unfoldable pub create_user : User → D → Result (Unit {0}) × D
  create_user user d =
      after_check (validate_user user false)
        (insert_hashed user d (hash_new_password user.password (read_random d))) d

  -- `inTx`, after the function `do`: its outcome, and the transaction as it leaves it.
  abbrev pub rolled_back : Error → Result (Unit {0}) → Result (Unit {0})
  rolled_back e (ok _) = err e
  rolled_back e (err rollback_error) = err (
      wrap rollback_error
        (codes "Error while rolling back transaction because of error " ++ error_text e))
  rolled_back e panic = panic

  abbrev pub end_tx : Result (Unit {0}) × T → D → Result (Unit {0}) × D
  end_tx (err e, t) d = (rolled_back e (db.rollback t d), d)
  end_tx (panic, t) d = (panic, d)
  end_tx (ok _, t) d =
      let answer = db.commit t d in
      (wrap_err answer.0 (codes "Error while committing transaction"), answer.1)

  abbrev pub in_tx_from : (T → Result (Unit {0}) × T) → Result T → D → Result (Unit {0}) × D
  in_tx_from body (err e) d = (wrap_err (err e) (codes "Error while starting transaction"), d)
  in_tx_from body panic d = (panic, d)
  in_tx_from body (ok t) d = end_tx (body t) d

  unfoldable pub in_tx : (T → Result (Unit {0}) × T) → D → Result (Unit {0}) × D
  in_tx body d = in_tx_from body (db.begin d) d

  -- The salt where `Scan` has failed: nil, as it was declared.
  abbrev pub scanned_nothing : GoString
  scanned_nothing = []

  abbrev pub set_password : User → GoString → T → Result (Unit {0}) × T
  set_password user salt t =
      let answer =
        db.exec_tx (update_user_password salt (hash_password user.password salt) user.username) t in
      (
        elim answer.0 [
          | ok _ ↦ ok tt
          | err e ↦ err (wrap e (codes "Error while updating user password"))
          | panic ↦ panic
        ],
        answer.1,
      )

  -- The query of the salt does not go through the transaction.
  abbrev pub update_password : User → Result UserRow → T → Result (Unit {0}) × T
  update_password user (ok row) t = set_password user row.salt t
  update_password user (err e) t =
      if is_no_rows e
      then (err (message (codes "No password row!?")), t)
      else set_password user scanned_nothing t
  update_password user panic t = (panic, t)

  abbrev pub then_password : User → D → Result (Unit {0}) × T → Result (Unit {0}) × T
  then_password user d (err e, t) = (err e, t)
  then_password user d (panic, t) = (panic, t)
  then_password user d (ok _, t) =
      if not (user.password == [])
      then update_password user (db.user_row user.username d) t
      else (ok tt, t)

  abbrev pub update_data : User → T → Result (Unit {0}) × T
  update_data user t =
      let answer = db.exec_tx (update_user_data user.display_name user.username) t in
      (
        affected does_not_exist (codes "Error while updating user data")
            (codes "Error counting the affected rows") answer.0,
        answer.1,
      )

  unfoldable pub update_user : User → D → Result (Unit {0}) × D
  unfolding in_tx
  update_user user d =
      let answer = in_tx (λ t. then_password user d (update_data user t)) d in
      after_check (validate_user user true)
        (wrap_err answer.0 (codes "Error while updating user"), answer.1) d

  abbrev pub shown_user : UserRow → User
  shown_user row = record {
    username = row.username;
    password = [];
    display_name = row.display_name;
  }

  unfoldable pub get_user : GoString → D → Result (Option User)
  get_user username d =
      found shown_user (codes "Error while fetching user") (db.user_row username d)

  -- The hash is computed, of a nil salt, before the error is looked at.
  abbrev pub authenticated : GoString → Result UserRow → Result Bool
  authenticated password (err e) =
      if is_no_rows e then ok false else err (wrap e (codes "Error while hashing password"))
  authenticated password panic = panic
  authenticated password (ok row) = ok (hash_password password row.salt == row.password)

  unfoldable pub authenticate_user : GoString → GoString → D → Result Bool
  authenticate_user username password d = authenticated password (db.user_row username d)

  unfoldable pub delete_user : GoString → D → Result (Unit {0}) × D
  delete_user username d =
      let answer = db.exec (delete_user_row username) d in
      (
        affected does_not_exist (codes "Error while deleting user")
            (codes "Error while counting affected rows") answer.0,
        answer.1,
      )

  unfoldable pub add_blog : GoString → Blog → D → Result (Unit {0}) × D
  add_blog username blog d =
      let answer = db.exec (insert_blog username blog.slug blog.display_name) d in
      after_check (validate_blog blog)
        (inserted blog_already_exists (codes "Error while creating blog") answer.0, answer.1) d

  unfoldable pub update_blog : GoString → Blog → D → Result (Unit {0}) × D
  update_blog username blog d =
      let answer = db.exec (update_blog_row blog.display_name username blog.slug) d in
      after_check (validate_blog blog)
        (
          affected blog_does_not_exist (codes "Error while updating blog")
              (codes "Error counting the affected rows") answer.0,
          answer.1,
        )
        d

  unfoldable pub get_blog : GoString → GoString → D → Result (Option Blog)
  get_blog username blog_slug d =
      found (λ blog. blog) (codes "Error while fetching blog") (db.blog_row username blog_slug d)

  unfoldable pub list_blogs : GoString → D → Result (List Blog)
  list_blogs username d = wrap_err (db.blog_rows username d) (codes "Error while fetching blogs")

  unfoldable pub delete_blog : GoString → GoString → D → Result (Unit {0}) × D
  delete_blog username blog_slug d =
      let answer = db.exec (delete_blog_row username blog_slug) d in
      (
        affected blog_does_not_exist (codes "Error while deleting blog")
            (codes "Error while counting affected rows") answer.0,
        answer.1,
      )

  unfoldable pub sql_user_store : UserStore D
  unfolding create_user update_user get_user authenticate_user delete_user add_blog update_blog
      get_blog list_blogs delete_blog
  sql_user_store = record {
    create_user = create_user;
    update_user = update_user;
    get_user = get_user;
    authenticate_user = authenticate_user;
    delete_user = delete_user;
    add_blog = add_blog;
    update_blog = update_blog;
    get_blog = get_blog;
    list_blogs = list_blogs;
    delete_blog = delete_blog;
  }
