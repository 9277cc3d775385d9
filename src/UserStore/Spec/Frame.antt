-- ===== src/UserStore/Spec/Frame.antt =====
-- The promises of the interface `UserStore`: which accounts a method leaves as they are.
use moblog_cloud.Prelude.{
  GoString, eq_iff, eq_refl, false, Error, Option, none, some, Result, ok, ok-ne-err, ◌≡◌, ◌≢◌,
  refl, ap, sym, ◌∙◌, arith, Option-cases, inl, inr,
}
use moblog_cloud.UserStore.{User, Blog, validate_user}
use moblog_cloud.UserStore.Spec.{
  Account, Accounts, Outcome, set_at, on_account, create_user, update_user, delete_user, add_blog,
  update_blog, delete_blog, checked, created, removed, renamed, blog_added, blog_updated,
  blog_removed,
}
use mathlib.Core.Option.{none-ne-some}

-- A specified change, if there is one, leaves the account of `name` as it is.
abbrev pub Spares : GoString → Accounts → Option Accounts → Type 0
Spares name a none = Unit
Spares name a (some a') = a' name ≡ a name

pub Outcome-Spares :
    {S : Type 0} (view : S → Accounts) (s : S) (change : Option Accounts)
    (r : Result (Unit {0}) × S) (name : GoString)
    → Outcome view s change r
    → Spares name (view s) change
    → view r.1 name ≡ view s name
Outcome-Spares view s none r name (_, same) _ = rw same
Outcome-Spares view s (some a) r name (_, after) h = after name ∙ h

set_at_ne :
    {A : Type 0} (f : GoString → A) (k : GoString) (v : A) (j : GoString)
    → k ≢ j
    → set_at f k v j ≡ f j
set_at_ne f k v j h = ground (arith, eq_iff k j)

set_at_self : {A : Type 0} (f : GoString → A) (k : GoString) (v : A) → set_at f k v k ≡ v
set_at_self f k v = ground (arith, eq_refl k)

checked-Spares :
    (o : Option Error) (name : GoString) (a : Accounts) (change : Option Accounts)
    → Spares name a change
    → Spares name a (checked o change)
checked-Spares (some e) name a change h = tt
checked-Spares none name a change h = h

-- A method on one account spares every other.
module _ (owner name : GoString) (a : Accounts) (h : owner ≢ name) where
  chosen-Spares :
      (o : Option (Option Account))
      → Spares name a (elim o [ none ↦ none | some new ↦ some (set_at a owner new) ])
  chosen-Spares none = tt
  chosen-Spares (some new) = set_at_ne a owner new name h

  on_account-Spares : (f : Account → Option (Option Account)) → Spares name a (on_account a owner f)
  on_account-Spares f = elim (Option-cases (a owner)) [
    | inl e ↦ rw (e, on_account) tt
    | inr (account, e) ↦ rw (e, on_account) (chosen-Spares (f account))
  ]

  pub delete_user-Spares : Spares name a (delete_user owner a)
  unfolding delete_user
  delete_user-Spares = on_account-Spares removed

  pub delete_blog-Spares : (slug : GoString) → Spares name a (delete_blog owner slug a)
  unfolding delete_blog
  delete_blog-Spares slug = on_account-Spares (blog_removed slug)

  pub add_blog-Spares : (blog : Blog) → Spares name a (add_blog owner blog a)
  unfolding add_blog
  add_blog-Spares blog = checked-Spares _ name a _ (on_account-Spares (blog_added blog))

  pub update_blog-Spares : (blog : Blog) → Spares name a (update_blog owner blog a)
  unfolding update_blog
  update_blog-Spares blog = checked-Spares _ name a _ (on_account-Spares (blog_updated blog))

pub update_user-Spares :
    (user : User) (name : GoString) (a : Accounts)
    → user.username ≢ name
    → Spares name a (update_user user a)
unfolding update_user
update_user-Spares user name a h =
    checked-Spares _ name a _ (on_account-Spares user.username name a h (renamed user.display_name))

created-Spares :
    (user : User) (name : GoString) (a : Accounts) {account : Account}
    → a name ≡ some account
    → Spares name a (created user a)
created-Spares user name a there = elim (Option-cases (a user.username)) [
  | inr (x, e) ↦ rw (e, created) tt
  | inl e ↦
      rw (e, created)
        (set_at_ne a user.username _ name (λ same. none-ne-some _ (sym e ∙ ap a same ∙ there)))
]

-- Creating a user spares every account that is there already.
pub create_user-Spares :
    (user : User) (name : GoString) (a : Accounts) {account : Account}
    → a name ≡ some account
    → Spares name a (create_user user a)
unfolding create_user
create_user-Spares user name a there =
    checked-Spares (validate_user user false) name a (created user a)
      (created-Spares user name a there)

pub Outcome-ok :
    {S : Type 0} (view : S → Accounts) (s : S) (change : Option Accounts)
    (r : Result (Unit {0}) × S)
    → Outcome view s change r
    → r.0 ≡ ok tt
    → (a : Accounts) × (change ≡ some a) × ((name : GoString) → view r.1 name ≡ a name)
Outcome-ok view s none r ((e, failed), _) h = absurd (ok-ne-err (sym h ∙ failed))
Outcome-ok view s (some a) r (_, after) h = (a, refl, after)

abbrev or_else : Accounts → Option Accounts → Accounts
or_else a none = a
or_else a (some a') = a'

-- After a user is deleted there is no account of the name.
pub delete_user-none :
    (name : GoString) (a a' : Accounts) → delete_user name a ≡ some a' → a' name ≡ none
unfolding delete_user
delete_user-none name a a' h = elim (Option-cases (a name)) [
  | inl e ↦ absurd (none-ne-some a' (rw (e, on_account) at h))
  | inr (account, e) ↦
      let deleted : set_at a name none ≡ a' = ap (or_else a) (rw (e, on_account) at h) in
      ap (λ (f : Accounts). f name) (sym deleted) ∙ set_at_self a name none
]
