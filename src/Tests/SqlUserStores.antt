-- ===== src/Tests/SqlUserStores.antt =====
-- Tests of server/pkg/userstore/sqluserstore.go.
use mathlib.Core.Option.{none-ne-some, some_inj}
use moblog_cloud.Prelude.{
  GoString, codes, ◌==◌, eq_iff, [], ◌++◌, Option, none, some, Result, ok, err, true, false, ◌≡◌,
  refl, ap, sym, ◌∙◌, if◌then◌else◌, eq_refl, message, wrap, Bool-cases, inl, inr, arith,
}
use moblog_cloud.Prelude.GoMap.{get-empty}
use moblog_cloud.UserStore.{User, validate_user, valid_alphanumeric}
use moblog_cloud.UserStore.Spec.{Contract}
use moblog_cloud.UserStore.Spec.Calls.{update, run, specified}
use moblog_cloud.UserStore.Tables.{
  UserRow, accounts, IsConsistent, update_user_data, update_user_password,
}
use moblog_cloud.UserStore.Sql.{sql_user_store, update_user, authenticate_user}
use moblog_cloud.UserStore.Sql.Atomic.{Done, sql_user_store-Done}
use moblog_cloud.UserStore.Sql.Transactions.{Ended}
use moblog_cloud.UserStore.Sql.Whole.{IsUpdated, update_user-IsUpdated, update_user-unsalted}
use moblog_cloud.UserStore.Tables.Hashes.{updated}
use moblog_cloud.UserStore.Sql.Contract.{sql_user_store-Contract}
use moblog_cloud.UserStore.Sql.Passwords.{authenticate-update_user_sql}
use moblog_cloud.Tests.Databases.{
  Rows, tables, keeping_database, keeping_database-IsAnswering, losing_database,
  losing_database-IsDatabase, no_rows_yet, execute, forgetting_database,
  forgetting_database-IsDatabase,
}

abbrev salting : GoString → GoString → GoString
salting password salt = salt ++ password

abbrev drawing : Rows → Result GoString
drawing d = ok (codes "salt")

abbrev annas_row : UserRow
annas_row = record {
  username = codes "anna";
  display_name = codes "Anna";
  salt = codes "old";
  password = codes "oldsecret";
}

abbrev with_anna : Rows
with_anna = record no_rows_yet {
  user_rows = λ name. if codes "anna" == name then some annas_row else none;
}

with_anna-IsConsistent : IsConsistent (tables with_anna)
with_anna-IsConsistent = record {
  keyed = λ name row e. elim (Bool-cases (codes "anna" == name)) [
    | inl here ↦
        let there : with_anna.user_rows name ≡ some annas_row = rw here refl in
        ap (λ (r : UserRow). r.username) (some_inj.0 (sym e ∙ there))
        ∙ (eq_iff (codes "anna") name).0 here
    | inr other ↦
        let missing : with_anna.user_rows name ≡ none = rw other refl in
        absurd (none-ne-some row (sym missing ∙ e))
  ];
  references = λ name slug e. get-empty slug;
}

abbrev new_password : User
new_password = record {
  username = codes "anna";
  password = codes "new";
  display_name = codes "Anna B.";
}

sql_user_store-Contract_example :
    Contract
      (sql_user_store keeping_database salting drawing)
      (λ d. IsConsistent (tables d))
      (λ d. accounts (tables d))
sql_user_store-Contract_example =
    sql_user_store-Contract keeping_database salting drawing tables tables
      keeping_database-IsAnswering (λ d. codes "salt") (λ d. refl)

sql_user_store-Done_example :
    Done
      (specified (update new_password) (accounts (tables with_anna)))
      (tables with_anna)
      (run (sql_user_store losing_database salting drawing) (update new_password) with_anna).0
      (tables
        (run (sql_user_store losing_database salting drawing) (update new_password) with_anna).1)
sql_user_store-Done_example =
    sql_user_store-Done losing_database salting drawing tables tables losing_database-IsDatabase
      (update new_password) with_anna with_anna-IsConsistent

update_user-IsUpdated_example :
    Ended
      (IsUpdated salting
        (losing_database.user_row (codes "anna") with_anna)
        new_password
        (tables with_anna))
      (tables with_anna)
      (update_user losing_database salting drawing new_password with_anna).0
      (tables (update_user losing_database salting drawing new_password with_anna).1)
update_user-IsUpdated_example =
    update_user-IsUpdated losing_database salting drawing tables tables losing_database-IsDatabase
      new_password with_anna

abbrev with_new_data : Rows
with_new_data = (execute (update_user_data (codes "Anna B.") (codes "anna")) with_anna).1

abbrev with_new_hash : Rows
with_new_hash = (execute (update_user_password [] (codes "new") (codes "anna")) with_new_data).1

update_user-unsalted_example :
    (update_user forgetting_database salting drawing new_password with_anna
      ≡ (ok tt, with_new_hash))
    × (tables with_new_hash ≡ updated salting new_password [] (tables with_anna))
unfolding validate_user valid_alphanumeric moblog_cloud.Prelude.◌==◌ execute
update_user-unsalted_example =
    update_user-unsalted forgetting_database salting drawing tables tables
      forgetting_database-IsDatabase new_password with_anna with_new_hash with_anna with_new_data
      with_new_hash (message (codes "connection lost")) (ok 1) refl (λ e. cc) refl refl refl refl
      refl refl

authenticate-update_user_sql_example :
    authenticate_user keeping_database salting drawing
      (codes "anna")
      (codes "new")
      (update_user keeping_database salting drawing new_password with_anna).1
    ≡ ok true
unfolding validate_user valid_alphanumeric moblog_cloud.Prelude.◌==◌
authenticate-update_user_sql_example =
    authenticate-update_user_sql keeping_database salting drawing tables tables
      keeping_database-IsAnswering (λ d. codes "salt") (λ d. refl) new_password with_anna annas_row
      (codes "anna") (codes "new") refl refl
