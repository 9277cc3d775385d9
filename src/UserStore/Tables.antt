-- ===== src/UserStore/Tables.antt =====
-- server/sql/1_initialize_schema.up.sql and the statements that server/pkg/userstore/sqluserstore.go prepares: what they
-- mean on the two tables. `users` has the primary key username; `blogs` has the primary key
-- (username, slug), and its usernames refer to `users`, with ON DELETE CASCADE.
pub mod Meaning
pub mod Hashes
pub mod Effects
pub mod Lookups
use moblog_cloud.Prelude.{ℕ, GoString, Option, none, some, ◌≡◌}
use moblog_cloud.UserStore.{Blog}
use moblog_cloud.UserStore.Spec.{Account, Accounts, set_at}

-- `userRecord`
pub record UserRow : Type 0 where
  pub username : GoString
  pub display_name : GoString
  pub salt : GoString
  pub password : GoString

-- A row by its primary key; of a blog the display name is what is left.
pub record Tables : Type 0 where
  pub users : GoString → Option UserRow
  pub blogs : GoString → GoString → Option GoString

-- The statements that write, with their arguments.
pub data Statement : Type 0 where
  insert_user : UserRow → Statement
  update_user_data : GoString → GoString → Statement
  update_user_password : GoString → GoString → GoString → Statement
  delete_user_row : GoString → Statement
  insert_blog : GoString → GoString → GoString → Statement
  update_blog_row : GoString → GoString → GoString → Statement
  delete_blog_row : GoString → GoString → Statement

pub data Effect : Type 0 where
  rows : ℕ → Tables → Effect
  duplicate_key no_reference : Effect

abbrev pub with_user : Tables → GoString → Option UserRow → Tables
with_user t username row = record t { users = set_at t.users username row }

abbrev pub with_blog : Tables → GoString → GoString → Option GoString → Tables
with_blog t username slug display_name = record t {
  blogs = set_at t.blogs username (set_at (t.blogs username) slug display_name);
}

abbrev pub without_user : Tables → GoString → Tables
without_user t username = record {
  users = set_at t.users username none;
  blogs = set_at t.blogs username (λ slug. none);
}

unfoldable pub effect : Statement → Tables → Effect
effect (insert_user row) t = elim (t.users row.username) [
  | some _ ↦ duplicate_key
  | none ↦ rows 1 (with_user t row.username (some row))
]
effect (update_user_data display_name username) t = elim (t.users username) [
  | none ↦ rows 0 t
  | some row ↦ rows 1 (with_user t username (some (record row { display_name = display_name })))
]
effect (update_user_password salt password username) t = elim (t.users username) [
  | none ↦ rows 0 t
  | some row ↦
      rows 1 (with_user t username (some (record row { salt = salt; password = password })))
]
effect (delete_user_row username) t = elim (t.users username) [
  | none ↦ rows 0 t
  | some _ ↦ rows 1 (without_user t username)
]
effect (insert_blog username slug display_name) t = elim (t.blogs username slug) [
  | some _ ↦ duplicate_key
  | none ↦ elim (t.users username) [
    | none ↦ no_reference
    | some _ ↦ rows 1 (with_blog t username slug (some display_name))
  ]
]
effect (update_blog_row display_name username slug) t = elim (t.blogs username slug) [
  | none ↦ rows 0 t
  | some _ ↦ rows 1 (with_blog t username slug (some display_name))
]
effect (delete_blog_row username slug) t = elim (t.blogs username slug) [
  | none ↦ rows 0 t
  | some _ ↦ rows 1 (with_blog t username slug none)
]

abbrev pub blog_at : GoString → Option GoString → Option Blog
blog_at slug none = none
blog_at slug (some display_name) = some (record { slug = slug; display_name = display_name })

-- An account, from its row and the display names of its blogs.
abbrev pub account_of : Option UserRow → (GoString → Option GoString) → Option Account
account_of none blogs = none
account_of (some row) blogs =
    some (record { display_name = row.display_name; blogs = λ slug. blog_at slug (blogs slug) })

-- The accounts that the tables hold.
unfoldable pub accounts : Tables → Accounts
accounts t name = account_of (t.users name) (t.blogs name)

-- A user's row stands under its own name, and a blog has its user.
pub record IsConsistent (t : Tables) : Type 0 where
  pub keyed : (name : GoString) (row : UserRow) → t.users name ≡ some row → row.username ≡ name
  pub references : (name slug : GoString) → t.users name ≡ none → t.blogs name slug ≡ none
