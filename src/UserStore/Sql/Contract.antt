-- ===== src/UserStore/Sql/Contract.antt =====
-- server/pkg/userstore/sqluserstore.go on a database that answers: the promises of the interface.
use mathlib.Core.List.{Mem}
use moblog_cloud.Prelude.{
  ℕ, GoString, codes, eq_refl, true, false, Option, none, some, [], Error, already_exists,
  does_not_exist, blog_already_exists, blog_does_not_exist, message, wrap, Result, ok, err, ◌≡◌,
  refl, ap, sym, ◌∙◌, subst, inl, inr, Option-cases, ◌↔◌,
}
use moblog_cloud.UserStore.{User, Blog, validate_user, validate_blog}
use moblog_cloud.UserStore.Spec
use moblog_cloud.UserStore.Spec.{
  Accounts, Contract, Conforms, Outcome, checked, blog_of, profile, shown, listed,
}
use moblog_cloud.UserStore.Tables.{
  UserRow, Tables, insert_user, delete_user_row, insert_blog, update_blog_row, delete_blog_row,
  Effect, rows, duplicate_key, no_reference, effect, accounts, IsConsistent, blog_at,
}
use moblog_cloud.UserStore.Tables.Meaning.{
  insert_user-Means, delete_user_row-Means, insert_blog-Means, update_blog_row-Means,
  delete_blog_row-Means, accounts-none, accounts-some,
}
use moblog_cloud.UserStore.Tables.Hashes.{inserted_row}
use moblog_cloud.UserStore.Tables.Lookups.{blog_of-accounts, blog_at-some, users-none}
use moblog_cloud.UserStore.Sql.{
  Database, inserted, after_check, insert_hashed, hash_new_password, create_user, get_user,
  authenticate_user, authenticated, delete_user, add_blog, update_blog, get_blog, list_blogs,
  delete_blog, sql_user_store, found,
}
use moblog_cloud.UserStore.Sql.Databases.{IsAnswering, Told, one_found}
use moblog_cloud.UserStore.Sql.Answers.{
  Conformed, affected-Conformed, inserted-Conformed, after_check-Conformed,
}
use moblog_cloud.UserStore.Sql.Updates.{update_user-Conformed}

module _ {D T : Type 0} (db : Database D T) (argon2 : GoString → GoString → GoString)
    (read_random : D → Result GoString) (tables : D → Tables) (tx_tables : T → Tables)
    (is : IsAnswering db tables tx_tables) (salt : D → GoString)
    (random : (d : D) → read_random d ≡ ok (salt d)) where
  abbrev new_row : User → D → UserRow
  new_row user d = record {
    username = user.username;
    display_name = user.display_name;
    salt = salt d;
    password = argon2 user.password (salt d);
  }

  -- The insertion of a user, its salt drawn.
  inserting :
      (user : User) (d : D)
      → create_user db argon2 read_random user d
        ≡ after_check
            (validate_user user false)
            (
              inserted already_exists
                  (codes "Error while creating user")
                  (db.exec (insert_user (new_row user d)) d).0,
              (db.exec (insert_user (new_row user d)) d).1,
            )
            d
  unfolding create_user
  inserting user d =
      ap
        (λ r.
          after_check (validate_user user false)
            (insert_hashed db argon2 read_random user d
              (hash_new_password db argon2 read_random user.password r))
            d)
        (random d)

  create_user-Conformed :
      (user : User) (d : D) (v : IsConsistent (tables d))
      → Conformed tables d v
          (Spec.create_user user (accounts (tables d)))
          (create_user db argon2 read_random user d)
  unfolding Spec.create_user
  create_user-Conformed user d v =
      subst (Conformed tables d v (Spec.create_user user (accounts (tables d))))
        (sym (inserting user d))
        (after_check-Conformed tables d v _ (validate_user user false) _
          (λ e h. rw (h, checked) refl)
          λ valid.
            inserted-Conformed tables d v _ already_exists _ _
              (db.exec (insert_user (new_row user d)) d)
              (insert_user-Means (tables d) v user (salt d) (argon2 user.password (salt d)) valid)
              (is.tells (insert_user (new_row user d)) d))

  get_user-profile :
      (name : GoString) (d : D)
      → IsConsistent (tables d)
      → get_user db argon2 read_random name d ≡ ok (profile name (accounts (tables d) name))
  unfolding get_user
  get_user-profile name d v = elim (Option-cases ((tables d).users name)) [
    | inl e ↦ rw (is.finds_user name d, e, one_found, accounts-none (tables d) name e) refl
    | inr (row, e) ↦
        rw (is.finds_user name d, e, one_found, accounts-some (tables d) name row e)
          (ap
            (λ u.
              ok (some (record { username = u; password = []; display_name = row.display_name })))
            (v.keyed name row e))
  ]

  get_blog-blog_of :
      (name slug : GoString) (d : D)
      → IsConsistent (tables d)
      → shown (get_blog db argon2 read_random name slug d) ≡ blog_of (accounts (tables d)) name slug
  unfolding get_blog
  get_blog-blog_of name slug d v =
      ap (λ r. shown (found (λ blog. blog) (codes "Error while fetching blog") r))
        (is.finds_blog name slug d)
      ∙ back (blog_at slug ((tables d).blogs name slug))
      ∙ sym (blog_of-accounts (tables d) name slug v)
    where
      back :
          (o : Option Blog)
          → shown (found (λ blog. blog) (codes "Error while fetching blog") (one_found o)) ≡ o
      back none = refl
      back (some blog) = refl

  list_blogs-blog_of :
      (name : GoString) (blog : Blog) (d : D)
      → IsConsistent (tables d)
      → Mem blog (listed (list_blogs db argon2 read_random name d))
        ↔ (blog_of (accounts (tables d)) name blog.slug ≡ some blog)
  unfolding list_blogs
  list_blogs-blog_of name blog d v =
      let (blogs, answered, lists) = is.lists_blogs name d in
      let (there, back) = blog_at-some ((tables d).blogs name blog.slug) blog in
      rw (answered, blog_of-accounts (tables d) name blog.slug v)
        (λ m. there ((lists blog).0 m), λ e. (lists blog).1 (back e))

  row_after :
      (user : User) (d : D) (e : Effect) (r : Result (Result ℕ) × D)
      → effect (insert_user (new_row user d)) (tables d) ≡ e
      → Told tables e d r
      → inserted already_exists (codes "Error while creating user") r.0 ≡ ok tt
      → (tables r.1).users user.username ≡ some (new_row user d)
  row_after user d (rows n t') r h (_, after, _) done =
      ap (λ t. t.users user.username) after ∙ inserted_row (tables d) t' n (new_row user d) h
  row_after user d duplicate_key r h ((text, answered, duplicate), _) done =
      let failed : inserted {A = Result ℕ} already_exists (codes "Error while creating user")
            (err (message text))
          ≡ err already_exists =
        rw (inserted, duplicate) refl in
      absurd (
        cc (
          sym done
          ∙ ap (inserted already_exists (codes "Error while creating user")) answered
          ∙ failed))
  row_after user d no_reference r h ((text, answered, other), _) done =
      let failed : inserted {A = Result ℕ} already_exists (codes "Error while creating user")
            (err (message text))
          ≡ err (wrap (message text) (codes "Error while creating user")) =
        rw (inserted, other) refl in
      absurd (
        cc (
          sym done
          ∙ ap (inserted already_exists (codes "Error while creating user")) answered
          ∙ failed))

  -- A created user's row.
  pub created_row :
      (user : User) (d : D)
      → (create_user db argon2 read_random user d).0 ≡ ok tt
      → (tables (create_user db argon2 read_random user d).1).users user.username
        ≡ some (new_row user d)
  created_row user d done =
      subst (λ r. (tables r.1).users user.username ≡ some (new_row user d)) (sym (inserting user d))
        (passed (validate_user user false) (ap (λ r. r.0) (sym (inserting user d)) ∙ done))
    where
      answer : Result (Result ℕ) × D
      answer = db.exec (insert_user (new_row user d)) d

      tried : Result (Unit {0}) × D
      tried = (inserted already_exists (codes "Error while creating user") answer.0, answer.1)

      passed :
          (checks : Option Error)
          → (after_check checks tried d).0 ≡ ok tt
          → (tables (after_check checks tried d).1).users user.username ≡ some (new_row user d)
      passed none done =
          row_after user d _ answer refl (is.tells (insert_user (new_row user d)) d) done
      passed (some e) done = absurd (cc done)

  authenticate-create :
      (user : User) (d : D)
      → IsConsistent (tables d)
      → (create_user db argon2 read_random user d).0 ≡ ok tt
      → authenticate_user db argon2 read_random user.username user.password
          (create_user db argon2 read_random user d).1
        ≡ ok true
  unfolding authenticate_user
  authenticate-create user d v done =
      ap (authenticated db argon2 read_random user.password) (
        is.finds_user user.username (create_user db argon2 read_random user d).1
        ∙ ap one_found (created_row user d done))
      ∙ ap ok (eq_refl (argon2 user.password (salt d)))

  rejects_unknown :
      (name password : GoString) (d : D)
      → accounts (tables d) name ≡ none
      → authenticate_user db argon2 read_random name password d ≡ ok false
  unfolding authenticate_user
  rejects_unknown name password d missing =
      ap (authenticated db argon2 read_random password)
        (is.finds_user name d ∙ ap one_found (users-none (tables d) name missing))

  -- The promises of the interface, on consistent tables.
  pub sql_user_store-Contract :
      Contract
        (sql_user_store db argon2 read_random)
        (λ d. IsConsistent (tables d))
        (λ d. accounts (tables d))
  unfolding sql_user_store delete_user add_blog update_blog delete_blog Spec.add_blog
      Spec.update_blog
  sql_user_store-Contract = record {
    creates = create_user-Conformed;
    updates = update_user-Conformed db argon2 read_random tables tx_tables is salt random;
    deletes = λ name d v.
        affected-Conformed tables d v _ does_not_exist _ _ _ (db.exec (delete_user_row name) d)
          (delete_user_row-Means (tables d) v name) (is.tells (delete_user_row name) d);
    adds_blog = λ name blog d v.
        after_check-Conformed tables d v _ (validate_blog blog) _ (λ e h. rw (h, checked) refl)
          λ valid.
            inserted-Conformed tables d v _ blog_already_exists _ _
              (db.exec (insert_blog name blog.slug blog.display_name) d)
              (insert_blog-Means (tables d) v name blog valid)
              (is.tells (insert_blog name blog.slug blog.display_name) d);
    updates_blog = λ name blog d v.
        after_check-Conformed tables d v _ (validate_blog blog) _ (λ e h. rw (h, checked) refl)
          λ valid.
            affected-Conformed tables d v _ blog_does_not_exist _ _ _
              (db.exec (update_blog_row blog.display_name name blog.slug) d)
              (update_blog_row-Means (tables d) v name blog valid)
              (is.tells (update_blog_row blog.display_name name blog.slug) d);
    deletes_blog = λ name slug d v.
        affected-Conformed tables d v _ blog_does_not_exist _ _ _
          (db.exec (delete_blog_row name slug) d) (delete_blog_row-Means (tables d) v name slug)
          (is.tells (delete_blog_row name slug) d);
    gets_user = get_user-profile;
    gets_blog = get_blog-blog_of;
    lists_blogs = list_blogs-blog_of;
    authenticates = authenticate-create;
    rejects_unknown = λ name password d v missing. rejects_unknown name password d missing;
  }
