-- ===== src/UserStore/Tables/Lookups.antt =====
-- What the queries of server/pkg/userstore/sqluserstore.go find, in terms of the accounts.
use mathlib.Core.Option.{none-ne-some, some_inj}
use moblog_cloud.Prelude.{
  GoString, Option, none, some, ◌≡◌, refl, ap, sym, ◌∙◌, Option-cases, inl, inr, ◌↔◌,
}
use moblog_cloud.UserStore.{Blog}
use moblog_cloud.UserStore.Spec.{blog_of}
use moblog_cloud.UserStore.Tables.{Tables, blog_at, accounts, IsConsistent}
use moblog_cloud.UserStore.Tables.Meaning.{accounts-none, accounts-some}

pub blog_of-accounts :
    (t : Tables) (name slug : GoString)
    → IsConsistent t
    → blog_of (accounts t) name slug ≡ blog_at slug (t.blogs name slug)
blog_of-accounts t name slug v = elim (Option-cases (t.users name)) [
  | inl e ↦
      rw (accounts-none t name e, blog_of) (sym (ap (blog_at slug) (v.references name slug e)))
  | inr (row, e) ↦ rw (accounts-some t name row e, blog_of) refl
]

pub blog_at-some :
    (o : Option GoString) (blog : Blog)
    → (o ≡ some blog.display_name) ↔ (blog_at blog.slug o ≡ some blog)
blog_at-some none blog = (λ e. absurd (none-ne-some _ e), λ e. absurd (none-ne-some _ e))
blog_at-some (some display_name) blog =
    (λ e. ap (blog_at blog.slug) e, λ e. ap (λ b. some b.display_name) (some_inj.0 e))

-- No account, no row.
pub users-none : (t : Tables) (name : GoString) → accounts t name ≡ none → t.users name ≡ none
users-none t name missing = elim (Option-cases (t.users name)) [
  | inl e ↦ e
  | inr (row, e) ↦ absurd (none-ne-some _ (sym missing ∙ accounts-some t name row e))
]
