-- ===== src/GitServer/Router/Routes.antt =====
-- server/pkg/gitserver/server.go: which requests a route takes.
use mathlib.Core.Path.{ap₂}
use mathlib.Core.List.{append_assoc}
use mathlib.Core.Option.{none-ne-some, some_inj}
use moblog_cloud.Prelude.{
  GoString, ◌==◌, eq_iff, eq_refl, nat_eq, ℕ, true, ◌&&◌, Option, none, some, List, [], ◌∷◌, ◌++◌,
  has_prefix, length, ◌≡◌, ◌≢◌, ◌↔◌, refl, ap, sym, ◌∙◌, subst, arith, Bool-cases, inl, inr,
}
use moblog_cloud.UserStore.{valid_alphanumeric}
use moblog_cloud.GitServer.{drop}
use moblog_cloud.GitServer.Paths.{split_slash, join_slash, prepend}
use moblog_cloud.GitServer.Paths.Inside.{split-NoSlash, split-append, split-cons, valid-NoSlash}
use moblog_cloud.GitServer.Router.{
  Endpoint, info_refs, upload_pack, receive_pack, Match, method_of, elements_of, same_elements,
  takes, endpoint_for, at_repository, matched, trim_slashes, is_template, route,
}

has_prefix-append : (base rest : GoString) → has_prefix (base ++ rest) base ≡ true
has_prefix-append [] [] = refl
has_prefix-append [] (c ∷ rest) = refl
has_prefix-append (c ∷ base) rest = ground (arith, has_prefix-append base rest)

pub drop-append : (base rest : GoString) → drop (length base) (base ++ rest) ≡ rest
drop-append [] rest = refl
drop-append (c ∷ base) rest = drop-append base rest

append-drop :
    (base path : GoString) → has_prefix path base ≡ true → path ≡ base ++ drop (length base) path
append-drop [] path h = refl
append-drop (c ∷ base) [] h = cc
append-drop (c ∷ base) (d ∷ path) h = ground (arith, append-drop base path)

join-prepend :
    (c : ℕ) (xs : List GoString) → xs ≢ [] → join_slash (prepend c xs) ≡ c ∷ join_slash xs
unfolding join_slash
join-prepend c [] h = absurd (h refl)
join-prepend c (x ∷ []) h = refl
join-prepend c (x ∷ y ∷ xs) h = refl

join-split : (s : GoString) → join_slash (split_slash s) ≡ s
unfolding split_slash join_slash
join-split [] = refl
join-split (c ∷ s) = elim (Bool-cases (nat_eq c b'/')) [
  | inl slash ↦
      let (a, rest, e) = split-cons s in
      rw (slash, e) (ap₂ ◌∷◌ (ground (arith, slash)) (rw e at (join-split s)))
  | inr other ↦
      let (a, rest, e) = split-cons s in
      rw other
        (join-prepend c (split_slash s) (λ h. cc (sym e ∙ h)) ∙ ap (λ t. c ∷ t) (join-split s))
]

same_elements_eq : (xs ys : List GoString) → same_elements xs ys ≡ true → xs ≡ ys
same_elements_eq [] [] h = refl
same_elements_eq [] (y ∷ ys) h = cc
same_elements_eq (x ∷ xs) [] h = cc
same_elements_eq (x ∷ xs) (y ∷ ys) h = elim (Bool-cases (x == y)) [
  | inl same ↦ ap₂ ◌∷◌ ((eq_iff x y).0 same) (same_elements_eq xs ys (rw same at h))
  | inr other ↦ absurd (cc (rw other at h))
]

same_elements_refl : (xs : List GoString) → same_elements xs xs ≡ true
same_elements_refl [] = refl
same_elements_refl (x ∷ xs) = rw (eq_refl x, same_elements_refl xs) refl

takes-eq :
    (endpoint : Endpoint) (method : GoString) (rest : List GoString)
    → takes endpoint method rest ≡ true
    → (method ≡ method_of endpoint) × (rest ≡ elements_of endpoint)
takes-eq endpoint method rest h = elim (Bool-cases (method == method_of endpoint)) [
  | inl same ↦ (
    (eq_iff method (method_of endpoint)).0 same,
    same_elements_eq rest (elements_of endpoint) (rw same at h),
  )
  | inr other ↦ absurd (cc (rw other at h))
]

endpoint_for-eq :
    (method : GoString) (rest : List GoString) (endpoint : Endpoint)
    → endpoint_for method rest ≡ some endpoint
    → (method ≡ method_of endpoint) × (rest ≡ elements_of endpoint)
endpoint_for-eq method rest endpoint h = elim (Bool-cases (takes info_refs method rest)) [
  | inl is ↦ taken info_refs is (rw (is, endpoint_for) at h)
  | inr not_info ↦ elim (Bool-cases (takes upload_pack method rest)) [
    | inl is ↦ taken upload_pack is (rw (not_info, is, endpoint_for) at h)
    | inr not_upload ↦ elim (Bool-cases (takes receive_pack method rest)) [
      | inl is ↦ taken receive_pack is (rw (not_info, not_upload, is, endpoint_for) at h)
      | inr none_at_all ↦
          absurd (none-ne-some endpoint (rw (not_info, not_upload, none_at_all, endpoint_for) at h))
    ]
  ]
]
  where
    taken :
        (e : Endpoint)
        → takes e method rest ≡ true
        → some e ≡ some endpoint
        → (method ≡ method_of endpoint) × (rest ≡ elements_of endpoint)
    taken e is same =
        subst (λ x. (method ≡ method_of x) × (rest ≡ elements_of x)) (some_inj.0 same)
          (takes-eq e method rest is)

endpoint_for-at :
    (endpoint : Endpoint) → endpoint_for (method_of endpoint) (elements_of endpoint) ≡ some endpoint
unfolding ◌==◌
endpoint_for-at info_refs = refl
endpoint_for-at upload_pack = refl
endpoint_for-at receive_pack = refl

-- A match of the method and the elements of a path.
abbrev IsMatched : GoString → List GoString → Match → Type 0
IsMatched method elements m =
    (elements ≡ [] ∷ m.username ∷ m.repository ∷ elements_of m.endpoint)
    × (method ≡ method_of m.endpoint)
    × (valid_alphanumeric m.username ≡ true)
    × (valid_alphanumeric m.repository ≡ true)

at_repository-eq :
    (method username repository : GoString) (rest : List GoString) (o : Option Endpoint) (m : Match)
    → endpoint_for method rest ≡ o
    → at_repository username repository o ≡ some m
    → IsMatched method ([] ∷ username ∷ repository ∷ rest) m
at_repository-eq method username repository rest none m e h = absurd (none-ne-some m h)
at_repository-eq method username repository rest (some endpoint) m e h =
    elim (Bool-cases (valid_alphanumeric username)) [
      | inr bad ↦ absurd (none-ne-some m (rw (bad, at_repository) at h))
      | inl valid_u ↦ elim (Bool-cases (valid_alphanumeric repository)) [
        | inr bad ↦ absurd (none-ne-some m (rw (valid_u, bad, at_repository) at h))
        | inl valid_r ↦
            let (by, ends) = endpoint_for-eq method rest endpoint e in
            subst (IsMatched method ([] ∷ username ∷ repository ∷ rest))
              (some_inj.0 (rw (valid_u, valid_r, at_repository) at h))
              (ap (λ t. [] ∷ username ∷ repository ∷ t) ends, by, valid_u, valid_r)
      ]
    ]

matched-eq :
    (method : GoString) (elements : List GoString) (m : Match)
    → matched method elements ≡ some m
    → IsMatched method elements m
matched-eq method [] m h = absurd (none-ne-some m h)
matched-eq method ([] ∷ []) m h = absurd (none-ne-some m h)
matched-eq method ([] ∷ username ∷ []) m h = absurd (none-ne-some m h)
matched-eq method ([] ∷ username ∷ repository ∷ rest) m h =
    at_repository-eq method username repository rest _ m refl h
matched-eq method ((c ∷ s) ∷ rest) m h = absurd (none-ne-some m h)

matched-at :
    (m : Match)
    → valid_alphanumeric m.username ≡ true
    → valid_alphanumeric m.repository ≡ true
    → matched (method_of m.endpoint) ([] ∷ m.username ∷ m.repository ∷ elements_of m.endpoint)
      ≡ some m
matched-at m valid_u valid_r =
    ap (at_repository m.username m.repository) (endpoint_for-at m.endpoint)
    ∙ rw (valid_u, valid_r, at_repository) refl

-- The path of a match, below the base path.
abbrev pub path_of : Match → GoString
path_of m =
    b'/' ∷ (m.username ++ b'/' ∷ (m.repository ++ b'/' ∷ join_slash (elements_of m.endpoint)))

join-path :
    (u r : GoString) (e : Endpoint)
    → join_slash ([] ∷ u ∷ r ∷ elements_of e)
      ≡ b'/' ∷ (u ++ b'/' ∷ (r ++ b'/' ∷ join_slash (elements_of e)))
unfolding join_slash
join-path u r info_refs = refl
join-path u r upload_pack = refl
join-path u r receive_pack = refl

split-elements : (e : Endpoint) → split_slash (join_slash (elements_of e)) ≡ elements_of e
unfolding split_slash join_slash
split-elements info_refs = refl
split-elements upload_pack = refl
split-elements receive_pack = refl

split-path :
    (m : Match)
    → valid_alphanumeric m.username ≡ true
    → valid_alphanumeric m.repository ≡ true
    → split_slash (path_of m) ≡ [] ∷ m.username ∷ m.repository ∷ elements_of m.endpoint
split-path m valid_u valid_r =
    split-append [] (m.username ++ b'/' ∷ ends)
    ∙ ap (λ t. split_slash [] ++ t)
        (split-append m.username ends
          ∙ ap₂ ◌++◌ (split-NoSlash m.username (valid-NoSlash m.username valid_u)) (
              split-append m.repository (join_slash (elements_of m.endpoint))
              ∙ ap₂ ◌++◌ (split-NoSlash m.repository (valid-NoSlash m.repository valid_r))
                  (split-elements m.endpoint)))
    ∙ ap (λ t. t ++ m.username ∷ m.repository ∷ elements_of m.endpoint) (split-NoSlash [] tt)
  where
    ends : GoString
    ends = m.repository ++ b'/' ∷ join_slash (elements_of m.endpoint)

trim_slashes-append : (s : GoString) → (slashes : GoString) × (s ≡ trim_slashes s ++ slashes)
unfolding trim_slashes
trim_slashes-append [] = ([], refl)
trim_slashes-append (c ∷ s) =
    let (slashes, e) = trim_slashes-append s in
    elim (Bool-cases (trim_slashes s == [] && nat_eq c b'/')) [
      | inl slash ↦ (c ∷ s, rw slash refl)
      | inr other ↦ (slashes, rw other (ap (λ t. c ∷ t) e))
    ]

-- What is under a base path has it without its last slashes before it.
append-drop_trimmed :
    (base path : GoString)
    → has_prefix path base ≡ true
    → path ≡ trim_slashes base ++ drop (length (trim_slashes base)) path
append-drop_trimmed base path under =
    whole ∙ ap (λ t. trim_slashes base ++ t) (sym (drop-append (trim_slashes base) rest) ∙ dropped)
  where
    slashes : GoString
    slashes = (trim_slashes-append base).0

    rest : GoString
    rest = slashes ++ drop (length base) path

    whole : path ≡ trim_slashes base ++ rest
    whole =
        append-drop base path under
        ∙ ap (λ t. t ++ drop (length base) path) (trim_slashes-append base).1
        ∙ append_assoc (trim_slashes base) slashes (drop (length base) path)

    dropped :
        drop (length (trim_slashes base)) (trim_slashes base ++ rest)
        ≡ drop (length (trim_slashes base)) path
    dropped = ap (drop (length (trim_slashes base))) (sym whole)

-- The requests that the route of a match is for.
abbrev pub Takes : GoString → GoString → GoString → Match → Type 0
Takes base_path method path m =
    (is_template base_path ≡ true)
    × (has_prefix path base_path ≡ true)
    × (path ≡ trim_slashes base_path ++ path_of m)
    × (method ≡ method_of m.endpoint)
    × (valid_alphanumeric m.username ≡ true)
    × (valid_alphanumeric m.repository ≡ true)

route-eq :
    (base_path method path : GoString) (m : Match)
    → route base_path method path ≡ some m
    → Takes base_path method path m
unfolding route
route-eq base_path method path m h =
    elim (Bool-cases (is_template base_path && has_prefix path base_path)) [
      | inr other ↦ absurd (none-ne-some m (rw other at h))
      | inl both ↦
          let under : has_prefix path base_path ≡ true = ground (arith, both) in
          let (elements, by, valid_u, valid_r) =
            matched-eq method (split_slash rest) m (rw both at h) in
          (
            ground (arith, both),
            under,
            append-drop_trimmed base_path path under
                ∙ ap (λ t. trim_slashes base_path ++ t)
                    (sym (join-split rest)
                      ∙ ap join_slash elements
                      ∙ join-path m.username m.repository m.endpoint),
            by,
            valid_u,
            valid_r,
          )
    ]
  where
    rest : GoString
    rest = drop (length (trim_slashes base_path)) path

route-at :
    (base_path method path : GoString) (m : Match)
    → Takes base_path method path m
    → route base_path method path ≡ some m
unfolding route
route-at base_path method path m (begins, under, at, by, valid_u, valid_r) =
    rw (begins, under)
      (ap (λ p. matched method (split_slash (drop (length (trim_slashes base_path)) p))) at
        ∙ ap (λ t. matched method (split_slash t))
            (drop-append (trim_slashes base_path) (path_of m))
        ∙ ap₂ matched by (split-path m valid_u valid_r)
        ∙ matched-at m valid_u valid_r)

-- A route takes exactly the requests with its method whose path is under the base path and is the base
-- path, without the slashes at its end, and then the route's own path, for valid names of a user and of a
-- repository; it takes the names from it.
pub route_iff :
    (base_path method path : GoString) (m : Match)
    → (route base_path method path ≡ some m) ↔ Takes base_path method path m
route_iff base_path method path m =
    (route-eq base_path method path m, route-at base_path method path m)
