-- ===== src/UserStore/Spec.antt =====
-- What the interface `UserStore` of server/pkg/userstore/userstore.go promises, with no
-- representation: a total map from user names to accounts, and for each method the accounts after a
-- success, or `none` where the method must refuse. Passwords are no part of this view.
pub mod Frame
pub mod Calls
use moblog_cloud.Prelude.{
  GoString, ◌==◌, Bool, true, false, Option, none, some, List, [], Result, ok, err, Error, ◌≡◌,
  if◌then◌else◌, ◌↔◌, IsErr,
}
use moblog_cloud.UserStore.{User, Blog, Method, UserStore, validate_user, validate_blog}
use mathlib.Core.List.{Mem}

pub record Account : Type 0 where
  pub display_name : GoString
  pub blogs : GoString → Option Blog

abbrev pub Accounts : Type 0
Accounts = GoString → Option Account

abbrev pub set_at : {A : Type 0} → (GoString → A) → GoString → A → GoString → A
set_at f k v j = if k == j then v else f j

abbrev pub on_account : Accounts → GoString → (Account → Option (Option Account)) → Option Accounts
on_account a name f = elim (a name) [
  | none ↦ none
  | some account ↦ elim (f account) [ none ↦ none | some new ↦ some (set_at a name new) ]
]

abbrev pub with_blog : Account → GoString → Option Blog → Account
with_blog account slug blog = record account { blogs = set_at account.blogs slug blog }

-- Nothing happens to an argument that the checks of userstore.go refuse.
abbrev pub checked : Option Error → Option Accounts → Option Accounts
checked (some e) change = none
checked none change = change

abbrev pub created : User → Accounts → Option Accounts
created user a = elim (a user.username) [
  | some _ ↦ none
  | none ↦ some (
      set_at a user.username
        (some (record { display_name = user.display_name; blogs = λ _. none })))
]

unfoldable pub create_user : User → Accounts → Option Accounts
create_user user a = checked (validate_user user false) (created user a)

abbrev pub renamed : GoString → Account → Option (Option Account)
renamed display_name account = some (some (record account { display_name = display_name }))

unfoldable pub update_user : User → Accounts → Option Accounts
update_user user a =
    checked (validate_user user true) (on_account a user.username (renamed user.display_name))

abbrev pub removed : Account → Option (Option Account)
removed account = some none

unfoldable pub delete_user : GoString → Accounts → Option Accounts
delete_user name a = on_account a name removed

abbrev pub blog_added : Blog → Account → Option (Option Account)
blog_added blog account = elim (account.blogs blog.slug) [
  | some _ ↦ none
  | none ↦ some (some (with_blog account blog.slug (some blog)))
]

unfoldable pub add_blog : GoString → Blog → Accounts → Option Accounts
add_blog name blog a = checked (validate_blog blog) (on_account a name (blog_added blog))

abbrev pub blog_updated : Blog → Account → Option (Option Account)
blog_updated blog account = elim (account.blogs blog.slug) [
  | none ↦ none
  | some _ ↦ some (some (with_blog account blog.slug (some blog)))
]

unfoldable pub update_blog : GoString → Blog → Accounts → Option Accounts
update_blog name blog a = checked (validate_blog blog) (on_account a name (blog_updated blog))

abbrev pub blog_removed : GoString → Account → Option (Option Account)
blog_removed slug account = elim (account.blogs slug) [
  | none ↦ none
  | some _ ↦ some (some (with_blog account slug none))
]

unfoldable pub delete_blog : GoString → GoString → Accounts → Option Accounts
delete_blog name slug a = on_account a name (blog_removed slug)

abbrev pub blog_of : Accounts → GoString → GoString → Option Blog
blog_of a name slug = elim (a name) [ none ↦ none | some account ↦ account.blogs slug ]

-- A refusal is an error and changes nothing; otherwise there is no error, and the accounts are as
-- specified.
abbrev pub Outcome :
    {S : Type 0} → (S → Accounts) → S → Option Accounts → Result (Unit {0}) × S → Type 0
Outcome view s none r = IsErr r.0 × (r.1 ≡ s)
Outcome view s (some a) r = (r.0 ≡ ok tt) × ((name : GoString) → view r.1 name ≡ a name)

abbrev pub profile : GoString → Option Account → Option User
profile name none = none
profile name (some account) =
    some (record { username = name; password = []; display_name = account.display_name })

-- What a lookup shows: a method may answer an unknown user with an error or with nothing.
abbrev pub shown : Result (Option Blog) → Option Blog
shown (ok found) = found
shown _ = none

abbrev pub listed : Result (List Blog) → List Blog
listed (ok blogs) = blogs
listed _ = []

-- One call of a method: the store stays well-formed, and the outcome is the specified one.
abbrev pub Conforms :
    {S : Type 0}
    → (S → Type 0)
    → (S → Accounts)
    → S
    → Option Accounts
    → Result (Unit {0}) × S
    → Type 0
Conforms Inv view s spec r = Inv r.1 × Outcome view s spec r

-- A store whose states satisfy `Inv`, seen through `view`, keeps the promises.
pub record Contract {S : Type 0} (ops : UserStore S) (Inv : S → Type 0) (view : S → Accounts)
    : Type 0 where
  pub creates :
      (user : User) (s : S)
      → Inv s
      → Conforms Inv view s (create_user user (view s)) (ops.create_user user s)
  pub updates :
      (user : User) (s : S)
      → Inv s
      → Conforms Inv view s (update_user user (view s)) (ops.update_user user s)
  pub deletes :
      (name : GoString) (s : S)
      → Inv s
      → Conforms Inv view s (delete_user name (view s)) (ops.delete_user name s)
  pub adds_blog :
      (name : GoString) (blog : Blog) (s : S)
      → Inv s
      → Conforms Inv view s (add_blog name blog (view s)) (ops.add_blog name blog s)
  pub updates_blog :
      (name : GoString) (blog : Blog) (s : S)
      → Inv s
      → Conforms Inv view s (update_blog name blog (view s)) (ops.update_blog name blog s)
  pub deletes_blog :
      (name slug : GoString) (s : S)
      → Inv s
      → Conforms Inv view s (delete_blog name slug (view s)) (ops.delete_blog name slug s)
  pub gets_user :
      (name : GoString) (s : S) → Inv s → ops.get_user name s ≡ ok (profile name (view s name))
  pub gets_blog :
      (name slug : GoString) (s : S)
      → Inv s
      → shown (ops.get_blog name slug s) ≡ blog_of (view s) name slug
  pub lists_blogs :
      (name : GoString) (blog : Blog) (s : S)
      → Inv s
      → Mem blog (listed (ops.list_blogs name s)) ↔ (blog_of (view s) name blog.slug ≡ some blog)
  pub authenticates :
      (user : User) (s : S)
      → Inv s
      → (ops.create_user user s).0 ≡ ok tt
      → ops.authenticate_user user.username user.password (ops.create_user user s).1 ≡ ok true
  pub rejects_unknown :
      (name password : GoString) (s : S)
      → Inv s
      → view s name ≡ none
      → ops.authenticate_user name password s ≡ ok false
