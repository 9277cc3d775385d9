-- ===== src/UserStore/Memory/Refinement.antt =====
-- server/pkg/userstore/memoryuserstore.go against the promises of the interface.
use mathlib.Core.Option
use mathlib.Core.Option.{none-ne-some}
use moblog_cloud.Prelude.{
  GoString, true, false, Option, none, some, Result, ok, err, Error, ◌≡◌, refl, arith, ap, sym, ◌∙◌,
  fun_ext, Option-cases, inl, inr,
}
use moblog_cloud.Prelude.GoMap
use moblog_cloud.Prelude.GoMap.{GoMap, get-put, get-delete, get-empty}
use moblog_cloud.UserStore.{User, Blog, validate_user, validate_blog, valid_alphanumeric}
use moblog_cloud.UserStore.Spec
use moblog_cloud.UserStore.Spec.{Account, Accounts, Outcome, Conforms}
use moblog_cloud.UserStore.Memory.{
  MemoryRecord, MemoryUserStore, create_user, delete_user, add_blog, update_user, update_blog,
  delete_blog,
}
use moblog_cloud.UserStore.Memory.Invariant.{
  IsGood, IsWellFormed, delete-IsWellFormed, put-IsWellFormed, valid_of_validate_user,
  with_blog-IsGood, without_blog-IsGood,
}

abbrev pub account : MemoryRecord → Account
account r = record { display_name = r.user.display_name; blogs = GoMap.get r.blogs }

unfoldable pub view : MemoryUserStore → Accounts
view s name = Option.map account (GoMap.get s.users name)

module _ (s : MemoryUserStore) (name : GoString) where
  pub view-none : GoMap.get s.users name ≡ none → view s name ≡ none
  unfolding view
  view-none e = ap (Option.map account) e

  pub view-some :
      {r : MemoryRecord} → GoMap.get s.users name ≡ some r → view s name ≡ some (account r)
  unfolding view
  view-some e = ap (Option.map account) e

-- The accounts after the record under `name` is removed, or replaced.
view-delete :
    (s : MemoryUserStore) (name other : GoString)
    → view (record s { users = GoMap.delete s.users name }) other
      ≡ Spec.set_at (view s) name none other
unfolding view
view-delete s name other = ground (arith, get-delete s.users name other)

view-put :
    (s : MemoryUserStore) (name : GoString) (r : MemoryRecord) (other : GoString)
    → view (record s { users = GoMap.put s.users name r }) other
      ≡ Spec.set_at (view s) name (some (account r)) other
unfolding view
view-put s name r other = ground (arith, get-put s.users name r other)

account-with_blog :
    (r : MemoryRecord) (slug : GoString) (blog : Blog)
    → account (record r { blogs = GoMap.put r.blogs slug blog })
      ≡ Spec.with_blog (account r) slug (some blog)
account-with_blog r slug blog =
    ap (λ f. record (account r) { blogs = f }) (fun_ext (get-put r.blogs slug blog))

account-without_blog :
    (r : MemoryRecord) (slug : GoString)
    → account (record r { blogs = GoMap.delete r.blogs slug })
      ≡ Spec.with_blog (account r) slug none
account-without_blog r slug =
    ap (λ f. record (account r) { blogs = f }) (fun_ext (get-delete r.blogs slug))

view-put-account :
    (s : MemoryUserStore) (name : GoString) (r : MemoryRecord) {a : Account} (other : GoString)
    → account r ≡ a
    → view (record s { users = GoMap.put s.users name r }) other
      ≡ Spec.set_at (view s) name (some a) other
view-put-account s name r other e =
    view-put s name r other ∙ ap (λ a. Spec.set_at (view s) name (some a) other) e

abbrev pub Does : MemoryUserStore → Option Accounts → Result (Unit {0}) × MemoryUserStore → Type 0
Does = Conforms IsWellFormed view

module _ (user : User) where
  abbrev new_record : MemoryRecord
  new_record = record { user = user; blogs = GoMap.empty }

  new_record-IsGood : valid_alphanumeric user.username ≡ true → IsGood user.username new_record
  new_record-IsGood v =
      (refl, v, λ slug blog e. absurd (none-ne-some blog (sym (get-empty slug) ∙ e)))

  account_new : account new_record ≡ record { display_name = user.display_name; blogs = λ _. none }
  account_new = ap (λ f. record { display_name = user.display_name; blogs = f }) (fun_ext get-empty)

refuse : (s : MemoryUserStore) → IsWellFormed s → (e : Error) → Does s none (err e, s)
refuse s w e = (w, ((e, refl), refl))

-- A valid blog written into the record of `name`.
put_blog :
    (s : MemoryUserStore) (w : IsWellFormed s) (name : GoString) (r : MemoryRecord) (blog : Blog)
    → GoMap.get s.users name ≡ some r
    → validate_blog blog ≡ none
    → Does s
        (some (Spec.set_at (view s) name (some (Spec.with_blog (account r) blog.slug (some blog)))))
        (
          ok tt,
          record s {
            users = GoMap.put s.users name (record r { blogs = GoMap.put r.blogs blog.slug blog });
          },
        )
put_blog s w name r blog e i = (
  put-IsWellFormed s name _ w (with_blog-IsGood name r blog (w.at_name name r e) i),
  (refl, λ other. view-put-account s name _ other (account-with_blog r blog.slug blog)),
)

module _ (s : MemoryUserStore) (w : IsWellFormed s) where
  pub create_user-Does :
      (user : User) → Does s (Spec.create_user user (view s)) (create_user user s)
  unfolding create_user Spec.create_user
  create_user-Does user = elim (Option-cases (validate_user user false)) [
    | inr (x, i) ↦ rw (i, create_user, Spec.checked) (refuse s w _)
    | inl i ↦ elim (Option-cases (GoMap.get s.users user.username)) [
      | inr (r, e) ↦
          rw (i, e, create_user, view-some s _ e, Spec.checked, Spec.created) (refuse s w _)
      | inl e ↦
          rw (i, e, create_user, view-none s _ e, Spec.checked, Spec.created)
            (
              put-IsWellFormed s user.username _ w
                  (new_record-IsGood user (valid_of_validate_user user false i)),
              (refl, λ other. view-put-account s user.username _ other (account_new user)),
            )
    ]
  ]

  pub update_user-Does :
      (user : User) → Does s (Spec.update_user user (view s)) (update_user user s)
  unfolding update_user Spec.update_user
  update_user-Does user = elim (Option-cases (validate_user user true)) [
    | inr (x, i) ↦ rw (i, update_user, Spec.checked) (refuse s w _)
    | inl i ↦ elim (Option-cases (GoMap.get s.users user.username)) [
      | inl e ↦
          rw (i, e, update_user, view-none s _ e, Spec.checked, Spec.on_account, Spec.update_user)
            (refuse s w _)
      | inr (r, e) ↦
          rw (i, e, update_user, view-some s _ e, Spec.checked, Spec.on_account, Spec.update_user)
            (
              put-IsWellFormed s user.username _ w (refl, (w.at_name _ r e).1, (w.at_name _ r e).2),
              (refl, view-put s user.username _),
            )
    ]
  ]

  module _ (name : GoString) where
    pub delete_user-Does : Does s (Spec.delete_user name (view s)) (delete_user name s)
    unfolding delete_user Spec.delete_user
    delete_user-Does = elim (Option-cases (GoMap.get s.users name)) [
      | inl e ↦ rw (e, delete_user, view-none s name e, Spec.on_account) (refuse s w _)
      | inr (r, e) ↦
          rw (e, delete_user, view-some s name e, Spec.on_account)
            (delete-IsWellFormed s name w, (refl, view-delete s name))
    ]

    pub add_blog-Does :
        (blog : Blog) → Does s (Spec.add_blog name blog (view s)) (add_blog name blog s)
    unfolding add_blog Spec.add_blog
    add_blog-Does blog = elim (Option-cases (validate_blog blog)) [
      | inr (x, i) ↦ rw (i, add_blog, Spec.checked) (refuse s w _)
      | inl i ↦ elim (Option-cases (GoMap.get s.users name)) [
        | inl e ↦
            rw (i, e, add_blog, view-none s name e, Spec.checked, Spec.on_account, Spec.add_blog)
              (refuse s w _)
        | inr (r, e) ↦ elim (Option-cases (GoMap.get r.blogs blog.slug)) [
          | inr (b, f) ↦
              rw
                (
                  i,
                  e,
                  f,
                  add_blog,
                  view-some s name e,
                  f,
                  Spec.checked,
                  Spec.on_account,
                  Spec.blog_added,
                )
                (refuse s w _)
          | inl f ↦
              rw
                (
                  i,
                  e,
                  f,
                  add_blog,
                  view-some s name e,
                  f,
                  Spec.checked,
                  Spec.on_account,
                  Spec.blog_added,
                )
                (put_blog s w name r blog e i)
        ]
      ]
    ]

    pub update_blog-Does :
        (blog : Blog) → Does s (Spec.update_blog name blog (view s)) (update_blog name blog s)
    unfolding update_blog Spec.update_blog
    update_blog-Does blog = elim (Option-cases (validate_blog blog)) [
      | inr (x, i) ↦ rw (i, update_blog, Spec.checked) (refuse s w _)
      | inl i ↦ elim (Option-cases (GoMap.get s.users name)) [
        | inl e ↦
            rw
              (
                i,
                e,
                update_blog,
                view-none s name e,
                Spec.checked,
                Spec.on_account,
                Spec.update_blog,
              )
              (refuse s w _)
        | inr (r, e) ↦ elim (Option-cases (GoMap.get r.blogs blog.slug)) [
          | inl f ↦
              rw
                (
                  i,
                  e,
                  f,
                  update_blog,
                  view-some s name e,
                  f,
                  Spec.checked,
                  Spec.on_account,
                  Spec.blog_updated,
                )
                (refuse s w _)
          | inr (b, f) ↦
              rw
                (
                  i,
                  e,
                  f,
                  update_blog,
                  view-some s name e,
                  f,
                  Spec.checked,
                  Spec.on_account,
                  Spec.blog_updated,
                )
                (put_blog s w name r blog e i)
        ]
      ]
    ]

    pub delete_blog-Does :
        (slug : GoString) → Does s (Spec.delete_blog name slug (view s)) (delete_blog name slug s)
    unfolding delete_blog Spec.delete_blog
    delete_blog-Does slug = elim (Option-cases (GoMap.get s.users name)) [
      | inl e ↦ rw (e, delete_blog, view-none s name e, Spec.on_account) (refuse s w _)
      | inr (r, e) ↦ elim (Option-cases (GoMap.get r.blogs slug)) [
        | inl f ↦
            rw (e, f, delete_blog, view-some s name e, f, Spec.on_account, Spec.blog_removed)
              (refuse s w _)
        | inr (b, f) ↦
            rw (e, f, delete_blog, view-some s name e, f, Spec.on_account, Spec.blog_removed)
              (
                put-IsWellFormed s name _ w (without_blog-IsGood name r slug (w.at_name name r e)),
                (refl, λ other. view-put-account s name _ other (account-without_blog r slug)),
              )
      ]
    ]
