-- ===== src/GitServer.antt =====
-- server/pkg/gitserver/server.go: the names in a request's path. The children model the paths on
-- disk, the packets of the git protocol and the handlers.
pub mod Packets
pub mod Suffix
pub mod Paths
pub mod Handlers
pub mod Router
use moblog_cloud.Prelude.{
  ℕ, ◌-◌, ◌+◌, ◌≤◌, GoString, codes, ◌==◌, Bool, true, false, ◌&&◌, ◌||◌, List, [], ◌∷◌, ◌++◌, leb,
  length, if◌then◌else◌, zero, suc,
}

abbrev pub git_suffix : GoString
git_suffix = codes ".git"

-- `s[0:n]` and `s[n:]`
abbrev pub take : ℕ → GoString → GoString
take zero s = []
take (suc n) [] = []
take (suc n) (c ∷ s) = c ∷ take n s

abbrev pub drop : ℕ → GoString → GoString
drop zero s = s
drop (suc n) [] = []
drop (suc n) (c ∷ s) = drop n s

-- `strings.HasSuffix`
unfoldable pub has_suffix : GoString → GoString → Bool
has_suffix s suffix = leb (length suffix) (length s) && drop (length s - length suffix) s == suffix

unfoldable pub remove_git_repository_suffix : GoString → GoString
unfolding has_suffix
remove_git_repository_suffix repository =
    if has_suffix repository git_suffix
    then take (length repository - length git_suffix) repository
    else repository

unfoldable pub blog_exists : List GoString → GoString → Bool
blog_exists [] blog = false
blog_exists (b ∷ blogs) blog = let rest = blog_exists blogs blog in if b == blog then true else rest
