-- ===== src/GitServer/Suffix.antt =====
-- server/pkg/gitserver/server.go: `removeGitRepositorySuffix`.
use moblog_cloud.Prelude.{
  ℕ, zero, suc, ◌-◌, GoString, eq_iff, eq_refl, true, [], ◌∷◌, ◌++◌, length, length-append, ◌≡◌,
  ◌≢◌, ◌⊎◌, refl, ap, sym, ◌∙◌, arith, Bool-cases, inl, inr, false≢true,
}
use moblog_cloud.GitServer.{git_suffix, take, drop, has_suffix, remove_git_repository_suffix}

take-drop : (n : ℕ) (s : GoString) → s ≡ take n s ++ drop n s
take-drop zero s = refl
take-drop (suc n) [] = refl
take-drop (suc n) (c ∷ s) = ap (λ t. c ∷ t) (take-drop n s)

take-append : (r t : GoString) → take (length r) (r ++ t) ≡ r
take-append [] t = refl
take-append (c ∷ r) t = ap (λ s. c ∷ s) (take-append r t)

drop-append : (r t : GoString) → drop (length r) (r ++ t) ≡ t
drop-append [] t = refl
drop-append (c ∷ r) t = drop-append r t

stem_length : (r : GoString) → length (r ++ git_suffix) - length git_suffix ≡ length r
stem_length r = omega (arith, length-append r git_suffix)

ends_in_git : (r : GoString) → has_suffix (r ++ git_suffix) git_suffix ≡ true
unfolding has_suffix
ends_in_git r =
    rw (stem_length r, drop-append r git_suffix, eq_refl git_suffix)
      (ground (arith, length-append r git_suffix))

-- A name with the suffix `.git` loses it, once.
pub remove_git_repository_suffix-append :
    (r : GoString) → remove_git_repository_suffix (r ++ git_suffix) ≡ r
unfolding remove_git_repository_suffix
remove_git_repository_suffix-append r = rw (ends_in_git r, stem_length r) (take-append r git_suffix)

-- Every name either is what is left of it with `.git` after it, or is left as it is and does not
-- end in `.git`.
pub remove_git_repository_suffix_lem :
    (repository : GoString)
    → (repository ≡ remove_git_repository_suffix repository ++ git_suffix)
      ⊎ ((remove_git_repository_suffix repository ≡ repository)
          × ((r : GoString) → repository ≢ r ++ git_suffix))
unfolding remove_git_repository_suffix
remove_git_repository_suffix_lem repository = elim (Bool-cases (has_suffix repository git_suffix)) [
  | inl ends ↦ rw ends (
      inl (
        take-drop (length repository - length git_suffix) repository
        ∙ ap (λ t. take (length repository - length git_suffix) repository ++ t) (ending ends)))
  | inr other ↦ inr (
    rw other refl,
    λ r e. false≢true (sym other ∙ ap (λ s. has_suffix s git_suffix) e ∙ ends_in_git r),
  )
]
  where
    ending :
        has_suffix repository git_suffix ≡ true
        → drop (length repository - length git_suffix) repository ≡ git_suffix
    ending h =
        unfold has_suffix in
        (eq_iff (drop (length repository - length git_suffix) repository) git_suffix).0
          (ground arith)
