-- ===== src/UserStore/Memory.antt =====
-- server/pkg/userstore/memoryuserstore.go. Each method holds the store's lock from its first read
-- to its last write, so it is one step. A record's `blogs` map is made by `create_user` for that
-- record alone: no two records share one, and a write through the map reaches its own record only.
pub mod Invariant
pub mod Refinement
pub mod Contract
pub mod Passwords
use mathlib.Core.List.{map}
use moblog_cloud.Prelude.{
  GoString, ◌==◌, Bool, true, false, Option, none, some, List, [], ◌∷◌, Result, ok, err, Error,
  already_exists, does_not_exist, blog_already_exists, blog_does_not_exist,
}
use moblog_cloud.Prelude.GoMap
use moblog_cloud.Prelude.GoMap.{GoMap}
use moblog_cloud.UserStore.{User, Blog, Method, UserStore, validate_user, validate_blog}

pub record MemoryRecord : Type 0 where
  pub user : User
  pub blogs : GoMap Blog

pub record MemoryUserStore : Type 0 where
  pub users : GoMap MemoryRecord

unfoldable pub new_memory_user_store : MemoryUserStore
new_memory_user_store = record { users = GoMap.empty }

unfoldable pub create_user : User → Method MemoryUserStore (Unit {0})
create_user user s = elim (validate_user user false) [
  | some e ↦ (err e, s)
  | none ↦ elim (GoMap.get s.users user.username) [
    | some _ ↦ (err already_exists, s)
    | none ↦ (
      ok tt,
      record s {
        users = GoMap.put s.users user.username (record { user = user; blogs = GoMap.empty });
      },
    )
  ]
]

unfoldable pub update_user : User → Method MemoryUserStore (Unit {0})
update_user user s = elim (validate_user user true) [
  | some e ↦ (err e, s)
  | none ↦ elim (GoMap.get s.users user.username) [
    | none ↦ (err does_not_exist, s)
    | some r ↦
        (ok tt, record s { users = GoMap.put s.users user.username (record r { user = user }) })
  ]
]

unfoldable pub get_user : GoString → MemoryUserStore → Result (Option User)
get_user username s = elim (GoMap.get s.users username) [
  | some r ↦ ok (some (record r.user { password = [] }))
  | none ↦ ok none
]

unfoldable pub authenticate_user : GoString → GoString → MemoryUserStore → Result Bool
authenticate_user username password s = elim (GoMap.get s.users username) [
  | some r ↦ ok (r.user.password == password)
  | none ↦ ok false
]

unfoldable pub delete_user : GoString → Method MemoryUserStore (Unit {0})
delete_user username s = elim (GoMap.get s.users username) [
  | none ↦ (err does_not_exist, s)
  | some _ ↦ (ok tt, record s { users = GoMap.delete s.users username })
]

unfoldable pub add_blog : GoString → Blog → Method MemoryUserStore (Unit {0})
add_blog username blog s = elim (validate_blog blog) [
  | some e ↦ (err e, s)
  | none ↦ elim (GoMap.get s.users username) [
    | none ↦ (err does_not_exist, s)
    | some r ↦ elim (GoMap.get r.blogs blog.slug) [
      | some _ ↦ (err blog_already_exists, s)
      | none ↦ (
        ok tt,
        record s {
          users =
              GoMap.put s.users username (record r { blogs = GoMap.put r.blogs blog.slug blog });
        },
      )
    ]
  ]
]

unfoldable pub update_blog : GoString → Blog → Method MemoryUserStore (Unit {0})
update_blog username blog s = elim (validate_blog blog) [
  | some e ↦ (err e, s)
  | none ↦ elim (GoMap.get s.users username) [
    | none ↦ (err does_not_exist, s)
    | some r ↦ elim (GoMap.get r.blogs blog.slug) [
      | none ↦ (err blog_does_not_exist, s)
      | some _ ↦ (
        ok tt,
        record s {
          users =
              GoMap.put s.users username (record r { blogs = GoMap.put r.blogs blog.slug blog });
        },
      )
    ]
  ]
]

unfoldable pub get_blog : GoString → GoString → MemoryUserStore → Result (Option Blog)
get_blog username blog_slug s = elim (GoMap.get s.users username) [
  | none ↦ err does_not_exist
  | some r ↦ ok (GoMap.get r.blogs blog_slug)
]

-- The blogs come in the order in which the runtime ranges over the map, `range_order`.
unfoldable pub list_blogs :
    (List Blog → List Blog) → GoString → MemoryUserStore → Result (List Blog)
list_blogs range_order username s = elim (GoMap.get s.users username) [
  | none ↦ err does_not_exist
  | some r ↦ ok (range_order (map (λ e. e.1) (GoMap.entries r.blogs)))
]

unfoldable pub delete_blog : GoString → GoString → Method MemoryUserStore (Unit {0})
delete_blog username blog_slug s = elim (GoMap.get s.users username) [
  | none ↦ (err does_not_exist, s)
  | some r ↦ elim (GoMap.get r.blogs blog_slug) [
    | none ↦ (err blog_does_not_exist, s)
    | some _ ↦ (
      ok tt,
      record s {
        users = GoMap.put s.users username (record r { blogs = GoMap.delete r.blogs blog_slug });
      },
    )
  ]
]

unfoldable pub memory_user_store : (List Blog → List Blog) → UserStore MemoryUserStore
memory_user_store range_order = record {
  create_user = create_user;
  update_user = update_user;
  get_user = get_user;
  authenticate_user = authenticate_user;
  delete_user = delete_user;
  add_blog = add_blog;
  update_blog = update_blog;
  get_blog = get_blog;
  list_blogs = list_blogs range_order;
  delete_blog = delete_blog;
}
