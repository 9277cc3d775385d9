-- ===== src/UserStore.antt =====
-- server/pkg/userstore/userstore.go: the users and blogs, the checks on their names, and the
-- interface that the stores implement. The children are the stores.
pub mod Spec
pub mod Memory
pub mod Tables
pub mod Sql
use moblog_cloud.Prelude.{
  GoString, codes, ◌==◌, Bool, true, false, not, ◌&&◌, ◌||◌, leb, nat_eq, all, Option, none, some,
  List, [], ◌∷◌, Result, Error, username_empty, username_invalid, password_empty, blog_slug_empty,
  blog_slug_invalid, if◌then◌else◌, ℕ,
}

pub record User : Type 0 where
  pub username : GoString
  pub password : GoString
  pub display_name : GoString

pub record Blog : Type 0 where
  pub slug : GoString
  pub display_name : GoString

-- A method that may change the store comes back with the new store, beside an error too.
abbrev pub Method : Type 0 → Type 0 → Type 0
Method S A = S → Result A × S

-- The interface `UserStore`. Every store reads without writing.
pub record UserStore (S : Type 0) : Type 0 where
  pub create_user : User → Method S (Unit {0})
  pub update_user : User → Method S (Unit {0})
  pub get_user : GoString → S → Result (Option User)
  pub authenticate_user : GoString → GoString → S → Result Bool
  pub delete_user : GoString → Method S (Unit {0})
  pub add_blog : GoString → Blog → Method S (Unit {0})
  pub update_blog : GoString → Blog → Method S (Unit {0})
  pub get_blog : GoString → GoString → S → Result (Option Blog)
  pub list_blogs : GoString → S → Result (List Blog)
  pub delete_blog : GoString → GoString → Method S (Unit {0})

-- The classes of `validAlphanumericRe`, `^[a-zA-Z][a-zA-Z0-9\.\-_]+$`.
unfoldable pub is_letter : ℕ → Bool
is_letter c = (leb b'a' c && leb c b'z') || (leb b'A' c && leb c b'Z')

unfoldable pub is_id_char : ℕ → Bool
unfolding is_letter
is_id_char c =
    is_letter c || (leb b'0' c && leb c b'9') || nat_eq c b'.' || nat_eq c b'-' || nat_eq c b'_'

-- `validAlphanumericRe.MatchString`: a letter, then one or more id characters, to the end.
unfoldable pub valid_alphanumeric : GoString → Bool
unfolding is_id_char
valid_alphanumeric [] = false
valid_alphanumeric (c ∷ []) = false
valid_alphanumeric (c ∷ d ∷ rest) = is_letter c && all is_id_char (d ∷ rest)

unfoldable pub validate_user : User → Bool → Option Error
validate_user user allow_empty_password =
    if user.username == []
    then some username_empty
    else if not (valid_alphanumeric user.username)
    then some username_invalid
    else if not allow_empty_password && user.password == []
    then some password_empty
    else none

unfoldable pub validate_blog : Blog → Option Error
validate_blog blog =
    if blog.slug == []
    then some blog_slug_empty
    else if not (valid_alphanumeric blog.slug)
    then some blog_slug_invalid
    else none
