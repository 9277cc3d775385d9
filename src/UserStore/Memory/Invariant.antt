-- ===== src/UserStore/Memory/Invariant.antt =====
-- server/pkg/userstore/memoryuserstore.go: the shape of the map that every method keeps.
use mathlib.Core.Path.{subst₂}
use moblog_cloud.Prelude.{
  GoString, ◌==◌, eq_iff, Bool, true, none, some, ◌≡◌, sym, ◌∙◌, arith, inl, inr, Bool-cases,
}
use moblog_cloud.Prelude.GoMap
use moblog_cloud.Prelude.GoMap.{GoMap, get-put, get-delete, get-empty}
use moblog_cloud.UserStore.{User, Blog, validate_user, validate_blog, valid_alphanumeric}
use moblog_cloud.UserStore.Memory.{MemoryRecord, MemoryUserStore, new_memory_user_store}
use mathlib.Core.Option.{none-ne-some}

-- Every record stands under its own user's name and every blog under its own slug, and both are
-- valid names.
abbrev pub IsGood : GoString → MemoryRecord → Type 0
IsGood name r =
    (r.user.username ≡ name)
    × (valid_alphanumeric name ≡ true)
    × ((slug : GoString) (blog : Blog)
        → GoMap.get r.blogs slug ≡ some blog
        → (blog.slug ≡ slug) × (valid_alphanumeric slug ≡ true))

pub record IsWellFormed (s : MemoryUserStore) : Type 0 where
  pub at_name :
      (name : GoString) (r : MemoryRecord) → GoMap.get s.users name ≡ some r → IsGood name r

pub delete-IsWellFormed :
    (s : MemoryUserStore) (name : GoString)
    → IsWellFormed s
    → IsWellFormed (record s { users = GoMap.delete s.users name })
delete-IsWellFormed s name w = record {
  at_name = λ other r e. w.at_name other r (ground (arith, get-delete s.users name other));
}

pub put-IsWellFormed :
    (s : MemoryUserStore) (name : GoString) (r : MemoryRecord)
    → IsWellFormed s
    → IsGood name r
    → IsWellFormed (record s { users = GoMap.put s.users name r })
put-IsWellFormed s name r w g = record {
  at_name = λ other r' e. elim (Bool-cases (name == other)) [
    | inl same ↦
        let e₁ : name ≡ other = (eq_iff name other).0 same in
        let e₂ : r ≡ r' = ground (arith, get-put s.users name r other) in subst₂ IsGood e₁ e₂ g
    | inr differs ↦ w.at_name other r' (ground (arith, get-put s.users name r other))
  ];
}

pub valid_of_validate_user :
    (user : User) (allow : Bool)
    → validate_user user allow ≡ none
    → valid_alphanumeric user.username ≡ true
unfolding validate_user
valid_of_validate_user user allow h = ground arith

valid_of_validate_blog :
    (blog : Blog) → validate_blog blog ≡ none → valid_alphanumeric blog.slug ≡ true
unfolding validate_blog
valid_of_validate_blog blog h = ground arith

pub with_blog-IsGood :
    (name : GoString) (r : MemoryRecord) (blog : Blog)
    → IsGood name r
    → validate_blog blog ≡ none
    → IsGood name (record r { blogs = GoMap.put r.blogs blog.slug blog })
with_blog-IsGood name r blog g i = (
  g.0,
  g.1,
  λ slug found e. elim (Bool-cases (blog.slug == slug)) [
    | inl same ↦ ground (
      arith,
      eq_iff blog.slug slug,
      get-put r.blogs blog.slug blog slug,
      valid_of_validate_blog blog i,
    )
    | inr differs ↦ g.2 slug found (ground (arith, get-put r.blogs blog.slug blog slug))
  ],
)

pub without_blog-IsGood :
    (name : GoString) (r : MemoryRecord) (slug : GoString)
    → IsGood name r
    → IsGood name (record r { blogs = GoMap.delete r.blogs slug })
without_blog-IsGood name r slug g =
    (g.0, g.1, λ other found e. g.2 other found (ground (arith, get-delete r.blogs slug other)))

pub new_memory_user_store-IsWellFormed : IsWellFormed new_memory_user_store
unfolding new_memory_user_store
new_memory_user_store-IsWellFormed = record {
  at_name = λ name r e. absurd (none-ne-some r (sym (get-empty name) ∙ e));
}
