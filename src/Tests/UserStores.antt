-- ===== src/Tests/UserStores.antt =====
-- Tests of server/pkg/userstore and server/pkg/sessionstore.
use mathlib.Core.List.Perm
use moblog_cloud.Prelude.{codes, [], ok, err, ◌≡◌, refl, true, false, already_exists, some, none}
use moblog_cloud.UserStore.Memory.Passwords.{authenticate-update_user}
use moblog_cloud.UserStore.Memory.{
  update_user, create_user, authenticate_user, memory_user_store, new_memory_user_store,
}
use moblog_cloud.UserStore.{User, validate_user, valid_alphanumeric}
use moblog_cloud.UserStore.Spec.{Contract}
use moblog_cloud.UserStore.Memory.Contract.{memory_user_store-Contract}
use moblog_cloud.UserStore.Memory.Invariant.{IsWellFormed}
use moblog_cloud.UserStore.Memory.Refinement.{view}
use moblog_cloud.Prelude.GoMap
use moblog_cloud.Tests.Fixtures.{in_order, users}

authenticates_anna : authenticate_user (codes "anna") (codes "secret") users ≡ ok true
unfolding authenticate_user create_user new_memory_user_store validate_user valid_alphanumeric
    GoMap.get GoMap.put GoMap.empty moblog_cloud.Prelude.◌==◌
authenticates_anna = refl

abbrev annas_update : User
annas_update = record { username = codes "anna"; password = []; display_name = codes "Anna B." }

authenticate-update_user_example :
    authenticate_user (codes "anna") [] (update_user annas_update users).1 ≡ ok true
unfolding update_user create_user new_memory_user_store validate_user valid_alphanumeric GoMap.get
    GoMap.put GoMap.empty moblog_cloud.Prelude.◌==◌
authenticate-update_user_example =
    authenticate-update_user annas_update users (codes "anna") [] refl

memory_user_store-Contract_example : Contract (memory_user_store in_order) IsWellFormed view
memory_user_store-Contract_example = memory_user_store-Contract in_order (λ blogs. Perm.refl blogs)
