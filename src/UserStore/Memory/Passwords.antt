-- ===== src/UserStore/Memory/Passwords.antt =====
-- server/pkg/userstore/memoryuserstore.go: which passwords a user can log in with.
use moblog_cloud.Prelude.{
  GoString, ◌==◌, true, ok, ◌≡◌, arith, Option-cases, inl, inr, if◌then◌else◌,
}
use moblog_cloud.Prelude.GoMap
use moblog_cloud.Prelude.GoMap.{get-put}
use moblog_cloud.UserStore.{User, validate_user}
use moblog_cloud.UserStore.Memory.{MemoryRecord, MemoryUserStore, update_user, authenticate_user}

-- After an update that succeeds, the user logs in with exactly the password that the update
-- carried, be it the empty one; logins of other users are as before.
pub authenticate-update_user :
    (user : User) (s : MemoryUserStore) (name password : GoString)
    → (update_user user s).0 ≡ ok tt
    → authenticate_user name password (update_user user s).1 ≡ (
        if user.username == name
        then ok (user.password == password)
        else authenticate_user name password s)
unfolding update_user authenticate_user
authenticate-update_user user s name password h = elim (Option-cases (validate_user user true)) [
  | inr (x, i) ↦ ground arith
  | inl i ↦ elim (Option-cases (GoMap.get s.users user.username)) [
    | inl e ↦ ground arith
    | inr (r, e) ↦
        let new : MemoryRecord = record r { user = user } in
        ground (arith, get-put s.users user.username new name)
  ]
]
