-- ===== src/UserStore/Tables/Meaning.antt =====
-- The statements of server/pkg/userstore/sqluserstore.go against the promises of the interface.
use mathlib.Core.Option.{none-ne-some}
use moblog_cloud.Prelude.{
  GoString, ◌==◌, eq_iff, eq_refl, true, false, Option, none, some, ◌≡◌, refl, ap, sym, ◌∙◌, arith,
  fun_ext, Bool-cases, Option-cases, ◌⊎◌, inl, inr,
}
use moblog_cloud.UserStore.{User, Blog, validate_user, validate_blog}
use moblog_cloud.UserStore.Spec
use moblog_cloud.UserStore.Spec.{
  Account, Accounts, set_at, on_account, checked, created, renamed, removed, blog_added,
  blog_updated, blog_removed,
}
use moblog_cloud.UserStore.Tables.{
  UserRow, Tables, insert_user, update_user_data, delete_user_row, insert_blog, update_blog_row,
  delete_blog_row, Effect, rows, with_user, with_blog, without_user, effect, blog_at, account_of,
  accounts, IsConsistent,
}

-- The tables hold the accounts as specified.
abbrev pub Changed : Option Accounts → Tables → Type 0
Changed spec t =
    IsConsistent t
    × ((a : Accounts) × (spec ≡ some a) × ((name : GoString) → accounts t name ≡ a name))

-- What a statement's effect comes to: the specified change of one row; nothing where the method has to
-- refuse; or, only where `Zero` allows it, no row at all, where the method has to refuse too.
abbrev pub Means : Type 0 → Option Accounts → Tables → Effect → Type 0
Means Zero spec t (rows n t') =
    ((n ≡ 1) × Changed spec t') ⊎ (Zero × (n ≡ 0) × (t' ≡ t) × (spec ≡ none))
Means Zero spec t _ = spec ≡ none

set_at_self : {A : Type 0} (f : GoString → A) (k : GoString) (v : A) → set_at f k v k ≡ v
set_at_self f k v = rw (eq_refl k) refl

set_at_other :
    {A : Type 0} (f : GoString → A) (k j : GoString) (v : A)
    → (k == j) ≡ false
    → set_at f k v j ≡ f j
set_at_other f k j v h = rw h refl

-- Tables that differ at one user only.
changed_at :
    (t t' : Tables) (k : GoString) (o : Option Account)
    → ((name : GoString) → (k == name) ≡ false → accounts t' name ≡ accounts t name)
    → accounts t' k ≡ o
    → (name : GoString) → accounts t' name ≡ set_at (accounts t) k o name
changed_at t t' k o same new name = elim (Bool-cases (k == name)) [
  | inl here ↦ rw here (ap (accounts t') (sym ((eq_iff k name).0 here)) ∙ new)
  | inr elsewhere ↦ rw elsewhere (same name elsewhere)
]

module _ (t : Tables) (k : GoString) where
  pub accounts-with_user :
      (row : UserRow) {account : Account}
      → account_of (some row) (t.blogs k) ≡ some account
      → (name : GoString)
      → accounts (with_user t k (some row)) name ≡ set_at (accounts t) k (some account) name
  unfolding accounts
  accounts-with_user row e =
      changed_at t (with_user t k (some row)) k _
        (λ name other.
          ap (λ u. account_of u (t.blogs name)) (set_at_other t.users k name (some row) other))
        (ap (λ u. account_of u (t.blogs k)) (set_at_self t.users k (some row)) ∙ e)

  accounts-without_user :
      (name : GoString) → accounts (without_user t k) name ≡ set_at (accounts t) k none name
  unfolding accounts
  accounts-without_user =
      changed_at t (without_user t k) k none (λ name other. rw other refl)
        (ap (λ u. account_of u ((without_user t k).blogs k)) (set_at_self t.users k none))

  blog_at-set_at :
      (slug : GoString) (o : Option GoString)
      → (λ x. blog_at x (set_at (t.blogs k) slug o x))
        ≡ set_at (λ x. blog_at x (t.blogs k x)) slug (blog_at slug o)
  blog_at-set_at slug o = fun_ext λ x. elim (Bool-cases (slug == x)) [
    | inl here ↦ rw here (ap (λ y. blog_at y o) (sym ((eq_iff slug x).0 here)))
    | inr elsewhere ↦ rw elsewhere refl
  ]

  accounts-with_blog :
      (slug : GoString) (o : Option GoString) (row : UserRow) {account : Account}
      → t.users k ≡ some row
      → accounts t k ≡ some account
      → (name : GoString)
      → accounts (with_blog t k slug o) name
        ≡ set_at (accounts t) k (some (Spec.with_blog account slug (blog_at slug o))) name
  unfolding accounts
  accounts-with_blog slug o row {account} there e =
      changed_at t (with_blog t k slug o) k _ (λ name other. rw other refl)
        (ap (account_of (t.users k)) (set_at_self t.blogs k (set_at (t.blogs k) slug o))
          ∙ ap (λ u. account_of u (set_at (t.blogs k) slug o)) there
          ∙ ap (λ f. some (record { display_name = row.display_name; blogs = f }))
              (blog_at-set_at slug o)
          ∙ shown account (ap (λ u. account_of u (t.blogs k)) (sym there) ∙ e))
    where
      shown :
          (account : Account)
          → account_of (some row) (t.blogs k) ≡ some account
          → ◌≡◌ {A = Option Account}
              (some (record {
                display_name = row.display_name;
                blogs = set_at (λ x. blog_at x (t.blogs k x)) slug (blog_at slug o);
              }))
              (some (Spec.with_blog account slug (blog_at slug o)))
      shown account h = cc h

module _ (t : Tables) (v : IsConsistent t) (k : GoString) where
  pub with_user-IsConsistent :
      (row : UserRow) → row.username ≡ k → IsConsistent (with_user t k (some row))
  with_user-IsConsistent row named = record {
    keyed = λ name r e. ground (arith, eq_iff k name, v.keyed name r);
    references = λ name slug e. ground (arith, v.references name slug);
  }

  without_user-IsConsistent : IsConsistent (without_user t k)
  without_user-IsConsistent = record {
    keyed = λ name r e. ground (arith, v.keyed name r);
    references = λ name slug e. ground (arith, v.references name slug);
  }

  with_blog-IsConsistent :
      (slug : GoString) (o : Option GoString) (row : UserRow)
      → t.users k ≡ some row
      → IsConsistent (with_blog t k slug o)
  with_blog-IsConsistent slug o row there = record {
    keyed = v.keyed;
    references = λ name x e. ground (arith, eq_iff k name, v.references name x);
  }

  no_blogs :
      t.users k ≡ none
      → ◌≡◌ {A = GoString → Option Blog} (λ slug. blog_at slug (t.blogs k slug)) (λ slug. none)
  no_blogs missing = fun_ext λ slug. ap (blog_at slug) (v.references k slug missing)

  -- A blog has its user.
  owner_of :
      (slug display_name : GoString)
      → t.blogs k slug ≡ some display_name
      → (row : UserRow) × (t.users k ≡ some row)
  owner_of slug display_name there = elim (Option-cases (t.users k)) [
    | inl missing ↦ absurd (none-ne-some display_name (sym (v.references k slug missing) ∙ there))
    | inr found ↦ found
  ]

abbrev account_at : Tables → GoString → UserRow → Account
account_at t k row = record {
  display_name = row.display_name;
  blogs = λ slug. blog_at slug (t.blogs k slug);
}

pub accounts-none : (t : Tables) (k : GoString) → t.users k ≡ none → accounts t k ≡ none
unfolding accounts
accounts-none t k e = ap (λ u. account_of u (t.blogs k)) e

pub accounts-some :
    (t : Tables) (k : GoString) (row : UserRow)
    → t.users k ≡ some row
    → accounts t k ≡ some (account_at t k row)
unfolding accounts
accounts-some t k row e = ap (λ u. account_of u (t.blogs k)) e

module _ (t : Tables) (v : IsConsistent t) where
  pub insert_user-Means :
      (user : User) (salt password : GoString)
      → validate_user user false ≡ none
      → Means ⊥ (Spec.create_user user (accounts t)) t (
          effect
            (insert_user (record {
              username = user.username;
              display_name = user.display_name;
              salt = salt;
              password = password;
            }))
            t)
  unfolding effect Spec.create_user
  insert_user-Means user salt password valid = elim (Option-cases (t.users user.username)) [
    | inr (row, e) ↦
        rw (valid, e, effect, checked, created, accounts-some t user.username row e) refl
    | inl e ↦
        rw (valid, e, effect, checked, created, accounts-none t user.username e)
          (inl (
            refl,
            (
              with_user-IsConsistent t v user.username _ refl,
              (
                _,
                refl,
                accounts-with_user t user.username _ (
                    ap (λ f. some (record { display_name = user.display_name; blogs = f }))
                      (no_blogs t v user.username e)),
              ),
            ),
          ))
  ]

  pub update_user_data-Means :
      (user : User)
      → validate_user user true ≡ none
      → Means Unit
          (Spec.update_user user (accounts t))
          t
          (effect (update_user_data user.display_name user.username) t)
  unfolding effect Spec.update_user
  update_user_data-Means user valid = elim (Option-cases (t.users user.username)) [
    | inl e ↦
        rw (valid, e, effect, checked, on_account, accounts-none t user.username e)
          (inr (tt, refl, refl, refl))
    | inr (row, e) ↦
        rw (valid, e, effect, checked, on_account, accounts-some t user.username row e)
          (inl (
            refl,
            (
              with_user-IsConsistent t v user.username _ (v.keyed user.username row e),
              (_, refl, accounts-with_user t user.username _ refl),
            ),
          ))
  ]

  pub delete_user_row-Means :
      (name : GoString)
      → Means Unit (Spec.delete_user name (accounts t)) t (effect (delete_user_row name) t)
  unfolding effect Spec.delete_user
  delete_user_row-Means name = elim (Option-cases (t.users name)) [
    | inl e ↦ rw (e, effect, on_account, accounts-none t name e) (inr (tt, refl, refl, refl))
    | inr (row, e) ↦
        rw (e, effect, on_account, accounts-some t name row e)
          (inl
            (refl, (without_user-IsConsistent t v name, (_, refl, accounts-without_user t name))))
  ]

  pub insert_blog-Means :
      (name : GoString) (blog : Blog)
      → validate_blog blog ≡ none
      → Means ⊥
          (Spec.add_blog name blog (accounts t))
          t
          (effect (insert_blog name blog.slug blog.display_name) t)
  unfolding effect Spec.add_blog
  insert_blog-Means name blog valid = elim (Option-cases (t.blogs name blog.slug)) [
    | inr (display_name, e) ↦
        let (row, there) = owner_of t v name blog.slug display_name e in
        rw (valid, e, effect, checked, on_account, accounts-some t name row there, blog_added, e)
          refl
    | inl e ↦ elim (Option-cases (t.users name)) [
      | inl missing ↦
          rw (valid, e, missing, effect, checked, on_account, accounts-none t name missing) refl
      | inr (row, there) ↦
          rw
            (
              valid,
              e,
              there,
              effect,
              checked,
              on_account,
              accounts-some t name row there,
              blog_added,
              e,
            )
            (inl (
              refl,
              (
                with_blog-IsConsistent t v name blog.slug _ row there,
                (
                  _,
                  refl,
                  accounts-with_blog t name blog.slug (some blog.display_name) row there
                      (accounts-some t name row there),
                ),
              ),
            ))
    ]
  ]

  pub update_blog_row-Means :
      (name : GoString) (blog : Blog)
      → validate_blog blog ≡ none
      → Means Unit
          (Spec.update_blog name blog (accounts t))
          t
          (effect (update_blog_row blog.display_name name blog.slug) t)
  unfolding effect Spec.update_blog
  update_blog_row-Means name blog valid = elim (Option-cases (t.blogs name blog.slug)) [
    | inl e ↦ elim (Option-cases (t.users name)) [
      | inl missing ↦
          rw (valid, e, effect, checked, on_account, accounts-none t name missing)
            (inr (tt, refl, refl, refl))
      | inr (row, there) ↦
          rw
            (valid, e, effect, checked, on_account, accounts-some t name row there, blog_updated, e)
            (inr (tt, refl, refl, refl))
    ]
    | inr (display_name, e) ↦
        let (row, there) = owner_of t v name blog.slug display_name e in
        rw (valid, e, effect, checked, on_account, accounts-some t name row there, blog_updated, e)
          (inl (
            refl,
            (
              with_blog-IsConsistent t v name blog.slug _ row there,
              (
                _,
                refl,
                accounts-with_blog t name blog.slug (some blog.display_name) row there
                    (accounts-some t name row there),
              ),
            ),
          ))
  ]

  pub delete_blog_row-Means :
      (name slug : GoString)
      → Means Unit
          (Spec.delete_blog name slug (accounts t))
          t
          (effect (delete_blog_row name slug) t)
  unfolding effect Spec.delete_blog
  delete_blog_row-Means name slug = elim (Option-cases (t.blogs name slug)) [
    | inl e ↦ elim (Option-cases (t.users name)) [
      | inl missing ↦
          rw (e, effect, on_account, accounts-none t name missing) (inr (tt, refl, refl, refl))
      | inr (row, there) ↦
          rw (e, effect, on_account, accounts-some t name row there, blog_removed, e)
            (inr (tt, refl, refl, refl))
    ]
    | inr (display_name, e) ↦
        let (row, there) = owner_of t v name slug display_name e in
        rw (e, effect, on_account, accounts-some t name row there, blog_removed, e)
          (inl (
            refl,
            (
              with_blog-IsConsistent t v name slug _ row there,
              (
                _,
                refl,
                accounts-with_blog t name slug none row there (accounts-some t name row there),
              ),
            ),
          ))
  ]
