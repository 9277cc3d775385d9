-- ===== src/UserStore/Spec/Calls.antt =====
-- The calls of the interface `UserStore` of server/pkg/userstore/userstore.go that write, as data.
use moblog_cloud.Prelude.{GoString, Result, Option}
use moblog_cloud.UserStore.{User, Blog, UserStore}
use moblog_cloud.UserStore.Spec
use moblog_cloud.UserStore.Spec.{Accounts}

pub data Call : Type 0 where
  creation update : User → Call
  deletion : GoString → Call
  blog_creation blog_update : GoString → Blog → Call
  blog_deletion : GoString → GoString → Call

-- The call's method of a store.
unfoldable pub run : {S : Type 0} → UserStore S → Call → S → Result (Unit {0}) × S
run ops (creation user) s = ops.create_user user s
run ops (update user) s = ops.update_user user s
run ops (deletion name) s = ops.delete_user name s
run ops (blog_creation name blog) s = ops.add_blog name blog s
run ops (blog_update name blog) s = ops.update_blog name blog s
run ops (blog_deletion name slug) s = ops.delete_blog name slug s

-- What it is specified to do.
unfoldable pub specified : Call → Accounts → Option Accounts
specified (creation user) a = Spec.create_user user a
specified (update user) a = Spec.update_user user a
specified (deletion name) a = Spec.delete_user name a
specified (blog_creation name blog) a = Spec.add_blog name blog a
specified (blog_update name blog) a = Spec.update_blog name blog a
specified (blog_deletion name slug) a = Spec.delete_blog name slug a
