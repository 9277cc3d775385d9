-- ===== src/GitServer/Paths/Inside.antt =====
-- server/pkg/gitserver/server.go: where the repositories of valid names stand on disk.
use mathlib.Core.List.{reverse, append_assoc, reverse-cons, append_cancel_left}
use mathlib.Core.Path.{ap₂}
use moblog_cloud.Prelude.{
  GoString, ◌==◌, Bool, true, false, List, [], ◌∷◌, ◌++◌, nat_eq, if◌then◌else◌, ℕ, All, all, ◌≡◌,
  refl, ap, sym, Bool-cases, inl, inr, ◌∙◌, arith,
}
use moblog_cloud.UserStore.{is_letter, is_id_char, valid_alphanumeric}
use moblog_cloud.GitServer.Paths.{
  prepend, split_slash, clean_element, clean_elements, is_rooted, join_slash, render, non_empty,
  clean_joined, repository_path,
}

abbrev pub NoSlash : GoString → Type 0
NoSlash s = All (λ c. nat_eq c b'/' ≡ false) s

not-slash : (c : ℕ) → is_id_char c ≡ true → nat_eq c b'/' ≡ false
unfolding is_id_char
not-slash c h = ground arith

all-NoSlash : (s : GoString) → all is_id_char s ≡ true → NoSlash s
all-NoSlash [] h = tt
all-NoSlash (c ∷ s) h = (not-slash c (ground arith), all-NoSlash s (ground arith))

pub valid-NoSlash : (s : GoString) → valid_alphanumeric s ≡ true → NoSlash s
unfolding valid_alphanumeric
valid-NoSlash [] h = cc
valid-NoSlash (c ∷ []) h = cc
valid-NoSlash (c ∷ d ∷ s) h =
    (letter_not-slash c (ground arith), all-NoSlash (d ∷ s) (ground arith))
  where
    letter_not-slash : (c : ℕ) → is_letter c ≡ true → nat_eq c b'/' ≡ false
    letter_not-slash c h = unfold is_letter in ground arith

pub split-NoSlash : (s : GoString) → NoSlash s → split_slash s ≡ s ∷ []
unfolding split_slash
split-NoSlash [] h = refl
split-NoSlash (c ∷ s) (hc, hs) = rw (hc, split-NoSlash s hs) refl

prepend-cons :
    (c : ℕ) (xs : List GoString)
    → (a : GoString) × (rest : List GoString) × (prepend c xs ≡ a ∷ rest)
prepend-cons c [] = (c ∷ [], [], refl)
prepend-cons c (x ∷ xs) = (c ∷ x, xs, refl)

pub split-cons :
    (s : GoString) → (a : GoString) × (rest : List GoString) × (split_slash s ≡ a ∷ rest)
unfolding split_slash
split-cons [] = ([], [], refl)
split-cons (c ∷ s) = elim (Bool-cases (nat_eq c b'/')) [
  | inl slash ↦ rw slash ([], split_slash s, refl)
  | inr other ↦ rw other (prepend-cons c (split_slash s))
]

prepend-append :
    (c : ℕ) (s : GoString) (ys : List GoString)
    → prepend c (split_slash s ++ ys) ≡ prepend c (split_slash s) ++ ys
prepend-append c s ys = let (a, rest, e) = split-cons s in rw e refl

pub split-append : (s t : GoString) → split_slash (s ++ b'/' ∷ t) ≡ split_slash s ++ split_slash t
unfolding split_slash
split-append [] t = refl
split-append (c ∷ s) t = elim (Bool-cases (nat_eq c b'/')) [
  | inl slash ↦ rw (slash, split-append s t) refl
  | inr other ↦ rw (other, split-append s t) (prepend-append c s (split_slash t))
]

clean_elements-append :
    (rooted : Bool) (kept xs ys : List GoString)
    → clean_elements rooted kept (xs ++ ys)
      ≡ clean_elements rooted (clean_elements rooted kept xs) ys
unfolding clean_elements
clean_elements-append rooted kept [] ys = refl
clean_elements-append rooted kept (x ∷ xs) ys =
    clean_elements-append rooted (clean_element rooted kept x) xs ys

-- A valid name is an element that stays.
pub clean_element-valid :
    (rooted : Bool) (kept : List GoString) (s : GoString)
    → valid_alphanumeric s ≡ true
    → clean_element rooted kept s ≡ s ∷ kept
unfolding clean_element valid_alphanumeric ◌==◌
clean_element-valid rooted kept [] h = cc
clean_element-valid rooted kept (c ∷ []) h = cc
clean_element-valid rooted kept (c ∷ d ∷ s) h = ground arith

-- The text of a directory and what separates it from a name in it.
abbrev pub within : List GoString → GoString
within [] = []
within (a ∷ rest) = a ++ b'/' ∷ within rest

-- What the base directory contributes to a repository's path.
pub directory_prefix : GoString → GoString
directory_prefix base_dir =
    let kept = reverse (clean_elements (is_rooted base_dir) [] (split_slash base_dir)) in
    if is_rooted base_dir then b'/' ∷ within kept else within kept

join-two :
    (xs : List GoString) (u r : GoString)
    → join_slash (xs ++ u ∷ r ∷ []) ≡ within xs ++ (u ++ b'/' ∷ r)
unfolding join_slash
join-two [] u r = refl
join-two (x ∷ []) u r = sym (append_assoc x (b'/' ∷ []) (u ++ b'/' ∷ r))
join-two (x ∷ y ∷ xs) u r =
    ap (λ t. x ++ b'/' ∷ t) (join-two (y ∷ xs) u r)
    ∙ sym (append_assoc x (b'/' ∷ within (y ∷ xs)) (u ++ b'/' ∷ r))

render-two :
    (rooted : Bool) (xs : List GoString) (u r : GoString)
    → render rooted (xs ++ u ∷ r ∷ [])
      ≡ (if rooted then b'/' ∷ within xs else within xs) ++ (u ++ b'/' ∷ r)
render-two true xs u r = ap (λ t. b'/' ∷ t) (join-two xs u r)
render-two false [] u r = join-two [] u r
render-two false (x ∷ xs) u r = join-two (x ∷ xs) u r

pub non_empty-valid :
    (s : GoString) (rest : List GoString)
    → valid_alphanumeric s ≡ true
    → non_empty (s ∷ rest) ≡ s ∷ non_empty rest
unfolding valid_alphanumeric
non_empty-valid [] rest h = cc
non_empty-valid (c ∷ s) rest h = refl

pub not_rooted : (u r : GoString) → valid_alphanumeric u ≡ true → is_rooted (u ++ b'/' ∷ r) ≡ false
unfolding valid_alphanumeric
not_rooted [] r h = cc
not_rooted (c ∷ []) r h = cc
not_rooted (c ∷ d ∷ u) r h = unfold is_letter in ground arith

module _ (u r : GoString) (valid_u : valid_alphanumeric u ≡ true)
    (valid_r : valid_alphanumeric r ≡ true) where
  clean_two :
      (rooted : Bool) (kept : List GoString)
      → reverse (clean_elements rooted kept (u ∷ r ∷ [])) ≡ reverse kept ++ u ∷ r ∷ []
  unfolding clean_elements
  clean_two rooted kept =
      rw
        (clean_element-valid rooted kept u valid_u, clean_element-valid rooted (u ∷ kept) r valid_r)
        (reverse-cons r (u ∷ kept)
          ∙ ap (λ t. t ++ r ∷ []) (reverse-cons u kept)
          ∙ append_assoc (reverse kept) (u ∷ []) (r ∷ []))

  split_two : split_slash (u ++ b'/' ∷ r) ≡ u ∷ r ∷ []
  split_two =
      split-append u r
      ∙ ap₂ ◌++◌ (split-NoSlash u (valid-NoSlash u valid_u))
          (split-NoSlash r (valid-NoSlash r valid_r))

  clean_under :
      (base_dir : GoString)
      → render
          (is_rooted base_dir)
          (reverse (clean_elements (is_rooted base_dir) [] (split_slash base_dir ++ u ∷ r ∷ [])))
        ≡ directory_prefix base_dir ++ (u ++ b'/' ∷ r)
  unfolding directory_prefix
  clean_under base_dir =
      ap (λ t. render (is_rooted base_dir) (reverse t))
        (clean_elements-append (is_rooted base_dir) [] (split_slash base_dir) (u ∷ r ∷ []))
      ∙ ap (render (is_rooted base_dir)) (clean_two (is_rooted base_dir) _)
      ∙ render-two (is_rooted base_dir) _ u r

  non_empty_two : non_empty (u ∷ r ∷ []) ≡ u ∷ r ∷ []
  non_empty_two =
      non_empty-valid u (r ∷ []) valid_u ∙ ap (λ t. u ∷ t) (non_empty-valid r [] valid_r)

  -- A repository with a valid name, of a user with a valid name, stands in the base directory, in
  -- the directory of the user, under its own name.
  pub repository_path-inside :
      (base_dir : GoString)
      → repository_path base_dir u r ≡ directory_prefix base_dir ++ (u ++ b'/' ∷ r)
  unfolding repository_path
  repository_path-inside [] =
      ap clean_joined (non_empty_two)
      ∙ rw (not_rooted u r valid_u, split_two)
          (ap (render false) (clean_two false [])
            ∙ unfold directory_prefix clean_elements clean_element split_slash ◌==◌ in refl)
  repository_path-inside (c ∷ base) =
      ap (λ t. clean_joined ((c ∷ base) ∷ t)) non_empty_two
      ∙ rw (split-append (c ∷ base) (u ++ b'/' ∷ r), split_two) (clean_under (c ∷ base))

  pub repository_path-relative : repository_path [] u r ≡ u ++ b'/' ∷ r
  repository_path-relative =
      repository_path-inside []
      ∙ unfold directory_prefix clean_elements clean_element split_slash ◌==◌ in refl

abbrev first_of : List GoString → GoString
first_of [] = []
first_of (a ∷ rest) = a

abbrev rest_of : List GoString → List GoString
rest_of [] = []
rest_of (a ∷ rest) = rest

-- Two repositories with valid names stand in different places unless their users and their names are
-- the same.
pub repository_path-injective :
    (base_dir u r u' r' : GoString)
    → valid_alphanumeric u ≡ true
    → valid_alphanumeric r ≡ true
    → valid_alphanumeric u' ≡ true
    → valid_alphanumeric r' ≡ true
    → repository_path base_dir u r ≡ repository_path base_dir u' r'
    → (u ≡ u') × (r ≡ r')
repository_path-injective base_dir u r u' r' vu vr vu' vr' e =
    let same : u ++ b'/' ∷ r ≡ u' ++ b'/' ∷ r' =
      append_cancel_left (directory_prefix base_dir) _ _ (
        sym (repository_path-inside u r vu vr base_dir)
        ∙ e
        ∙ repository_path-inside u' r' vu' vr' base_dir) in
    let split : u ∷ r ∷ [] ≡ u' ∷ r' ∷ [] =
      sym (split_two u r vu vr) ∙ ap split_slash same ∙ split_two u' r' vu' vr' in
    (ap first_of split, ap (λ l. first_of (rest_of l)) split)
