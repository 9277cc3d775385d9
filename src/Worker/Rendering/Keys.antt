-- ===== src/Worker/Rendering/Keys.antt =====
-- server/pkg/worker/renderworker.go: the keys under which uploadHTMLFiles puts the files of its walk.
use mathlib.Core.List.{append-nil, append_assoc, reverse, reverse-cons, map, map-append}
use mathlib.Core.Path.{ap₂}
use moblog_cloud.Prelude.{
  GoString, codes, ◌==◌, true, false, ◌||◌, List, [], ◌∷◌, ◌++◌, Result, ok, err, panic, All, Bool,
  ◌≡◌, refl, ap, sym, ◌∙◌, subst, ◌⊎◌, inl, inr, Option, length,
}
use moblog_cloud.UserStore.{valid_alphanumeric}
use moblog_cloud.AdminClient.{NetLibrary}
use moblog_cloud.GitServer.{drop}
use moblog_cloud.GitServer.Paths.{
  split_slash, join_slash, clean_element, clean_elements, render, clean_joined, path_join,
  repository_path,
}
use moblog_cloud.GitServer.Paths.Inside.{
  NoSlash, valid-NoSlash, split-NoSlash, split-append, clean_element-valid, non_empty-valid,
  not_rooted, repository_path-relative,
}
use moblog_cloud.GitServer.Router.Routes.{drop-append}
use moblog_cloud.Worker.Rendering.{
  Settings, FileKind, directory, regular, other_file, Tools, ConfigFile, key_of, upload_html_files,
}
use moblog_cloud.Worker.Rendering.Uploads.{
  IsBlobStore, blobs_of, source_dir, upload_html_files-Published,
}

-- An element of a path that is a name.
abbrev pub IsName : GoString → Type 0
IsName s = NoSlash s × ((s == [] || s == codes ".") ≡ false) × ((s == codes "..") ≡ false)

clean_element-name :
    (rooted : Bool) (kept : List GoString) (s : GoString)
    → IsName s
    → clean_element rooted kept s ≡ s ∷ kept
unfolding clean_element
clean_element-name rooted kept s (_, here, up) = rw (here, up) refl

split-join :
    (s : GoString) (names : List GoString)
    → IsName s
    → All IsName names
    → split_slash (join_slash (s ∷ names)) ≡ s ∷ names
unfolding join_slash
split-join s [] is all = split-NoSlash s is.0
split-join s (t ∷ names) is (is_t, all) =
    split-append s (join_slash (t ∷ names))
    ∙ ap₂ ◌++◌ (split-NoSlash s is.0) (split-join t names is_t all)

clean_names :
    (rooted : Bool) (kept names : List GoString)
    → All IsName names
    → reverse (clean_elements rooted kept names) ≡ reverse kept ++ names
unfolding clean_elements
clean_names rooted kept [] all = sym (append-nil (reverse kept))
clean_names rooted kept (s ∷ names) (is, all) =
    ap (λ k. reverse (clean_elements rooted k names)) (clean_element-name rooted kept s is)
    ∙ clean_names rooted (s ∷ kept) names all
    ∙ ap (λ t. t ++ names) (reverse-cons s kept)
    ∙ append_assoc (reverse kept) (s ∷ []) names

module _ (username slug : GoString) (valid_u : valid_alphanumeric username ≡ true)
    (valid_s : valid_alphanumeric slug ≡ true) where
  -- The names that are joined behind an empty element, which does not stay.
  clean_behind :
      (names : List GoString)
      → All IsName names
      → reverse (clean_elements false [] (username ∷ slug ∷ [] ∷ names)) ≡ username ∷ slug ∷ names
  unfolding clean_elements clean_element ◌==◌
  clean_behind names all =
      rw
        (
          clean_element-valid false [] username valid_u,
          clean_element-valid false (username ∷ []) slug valid_s,
        )
        (clean_names false (slug ∷ username ∷ []) names all)

  split_behind :
      (s : GoString) (names : List GoString)
      → IsName s
      → All IsName names
      → split_slash (username ++ b'/' ∷ (slug ++ b'/' ∷ (b'/' ∷ join_slash (s ∷ names))))
        ≡ username ∷ slug ∷ [] ∷ s ∷ names
  split_behind s names is all =
      split-append username (slug ++ b'/' ∷ (b'/' ∷ join_slash (s ∷ names)))
      ∙ ap₂ ◌++◌ (split-NoSlash username (valid-NoSlash username valid_u)) (
          split-append slug (b'/' ∷ join_slash (s ∷ names))
          ∙ ap₂ ◌++◌ (split-NoSlash slug (valid-NoSlash slug valid_s)) (
              split-append [] (join_slash (s ∷ names))
              ∙ ap₂ ◌++◌ (split-NoSlash [] tt) (split-join s names is all)))

  pub key-names :
      (s : GoString) (names : List GoString)
      → IsName s
      → All IsName names
      → path_join (username ∷ slug ∷ (b'/' ∷ join_slash (s ∷ names)) ∷ [])
        ≡ username ++ b'/' ∷ (slug ++ b'/' ∷ join_slash (s ∷ names))
  unfolding path_join
  key-names s names is all =
      ap clean_joined (
        non_empty-valid username (slug ∷ (b'/' ∷ join_slash (s ∷ names)) ∷ []) valid_u
        ∙ ap (λ t. username ∷ t)
            (non_empty-valid slug ((b'/' ∷ join_slash (s ∷ names)) ∷ []) valid_s))
      ∙ rw
          (
            not_rooted username (slug ++ b'/' ∷ (b'/' ∷ join_slash (s ∷ names))) valid_u,
            split_behind s names is all,
          )
          (ap (render false) (clean_behind (s ∷ names) (is, all)))

  pub key_at_root : path_join (username ∷ slug ∷ [] ∷ []) ≡ username ++ b'/' ∷ slug
  unfolding path_join repository_path
  key_at_root =
      ap clean_joined (
        non_empty-valid username (slug ∷ [] ∷ []) valid_u
        ∙ ap (λ t. username ∷ t) (non_empty-valid slug ([] ∷ []) valid_s)
        ∙ ap (λ t. username ∷ t) (sym (non_empty-valid slug [] valid_s))
        ∙ sym (non_empty-valid username (slug ∷ []) valid_u))
      ∙ repository_path-relative username slug valid_u valid_s

-- A path of a walk: the directory of the walk itself, or names below it.
abbrev pub IsUnder : GoString → GoString → Type 0
IsUnder source path =
    (path ≡ source)
    ⊎ ((s : GoString) × (names : List GoString) × IsName s
        × All IsName names
        × (path ≡ source ++ b'/' ∷ join_slash (s ∷ names)))

-- What `filepath.Walk` documents of the paths that it visits.
abbrev pub Walks : {W : Type 0} → Tools W → GoString → Type 0
Walks {W} tools source =
    (w : W)
    → All (λ (visit : GoString × Result FileKind). IsUnder source visit.0) (tools.walk source w)

-- The regular files among the visits.
abbrev pub file_of : GoString × Result FileKind → List GoString
file_of (path, ok regular) = path ∷ []
file_of (path, _) = []

abbrev pub files_of : List (GoString × Result FileKind) → List GoString
files_of [] = []
files_of (visit ∷ visits) = file_of visit ++ files_of visits

-- A blob, by its key and its file: the key is the name of the user, of the blog, and what the file's path
-- has below the directory.
abbrev pub IsBlob : GoString → GoString → GoString → GoString × GoString → Type 0
IsBlob username slug source (key, path) =
    ((path ≡ source) × (key ≡ username ++ b'/' ∷ slug))
    ⊎ ((below : GoString) × (path ≡ source ++ b'/' ∷ below)
        × (key ≡ username ++ b'/' ∷ (slug ++ b'/' ∷ below)))

-- The new blobs are of the first of the files, in their order.
abbrev pub Stored :
    GoString
    → GoString
    → GoString
    → List GoString
    → List (GoString × GoString)
    → List (GoString × GoString)
    → List GoString
    → Type 0
Stored username slug source files before after left =
    (new : List (GoString × GoString)) × (files ≡ map (λ blob. blob.1) new ++ left)
    × All (IsBlob username slug source) new
    × (after ≡ before ++ new)

module _ {W : Type 0} (tools : Tools W) (net : NetLibrary) (marshal : ConfigFile → Result GoString)
    (settings : Settings) (username slug : GoString) (valid_u : valid_alphanumeric username ≡ true)
    (valid_s : valid_alphanumeric slug ≡ true) where
  key_of-IsBlob :
      (source path : GoString)
      → IsUnder source path
      → IsBlob username slug source
          (key_of tools net marshal settings source username slug path, path)
  key_of-IsBlob source path (inl is) = inl (
    is,
    ap (λ t. path_join (username ∷ slug ∷ t ∷ []))
          (ap (drop (length source)) (is ∙ sym (append-nil source)) ∙ drop-append source [])
        ∙ key_at_root username slug valid_u valid_s,
  )
  key_of-IsBlob source path (inr (s, names, is, all, at)) = inr (
    join_slash (s ∷ names),
    at,
    ap (λ t. path_join (username ∷ slug ∷ t ∷ []))
          (ap (drop (length source)) at ∙ drop-append source (b'/' ∷ join_slash (s ∷ names)))
        ∙ key-names username slug valid_u valid_s s names is all,
  )

  blobs_of-files :
      (source : GoString) (visits : List (GoString × Result FileKind))
      → map
          (λ (blob : GoString × GoString). blob.1)
          (blobs_of tools net marshal settings source username slug visits)
        ≡ files_of visits
  blobs_of-files source [] = refl
  blobs_of-files source ((path, ok regular) ∷ visits) =
      ap (λ t. path ∷ t) (blobs_of-files source visits)
  blobs_of-files source ((path, ok directory) ∷ visits) = blobs_of-files source visits
  blobs_of-files source ((path, ok other_file) ∷ visits) = blobs_of-files source visits
  blobs_of-files source ((path, err e) ∷ visits) = blobs_of-files source visits
  blobs_of-files source ((path, panic) ∷ visits) = blobs_of-files source visits

  blobs_of-IsBlob :
      (source : GoString) (visits : List (GoString × Result FileKind))
      → All (λ (visit : GoString × Result FileKind). IsUnder source visit.0) visits
      → All
          (IsBlob username slug source)
          (blobs_of tools net marshal settings source username slug visits)
  blobs_of-IsBlob source [] under = tt
  blobs_of-IsBlob source ((path, ok regular) ∷ visits) (is, under) =
      (key_of-IsBlob source path is, blobs_of-IsBlob source visits under)
  blobs_of-IsBlob source ((path, ok directory) ∷ visits) (is, under) =
      blobs_of-IsBlob source visits under
  blobs_of-IsBlob source ((path, ok other_file) ∷ visits) (is, under) =
      blobs_of-IsBlob source visits under
  blobs_of-IsBlob source ((path, err e) ∷ visits) (is, under) = blobs_of-IsBlob source visits under
  blobs_of-IsBlob source ((path, panic) ∷ visits) (is, under) = blobs_of-IsBlob source visits under

  first-All :
      (xs ys : List (GoString × GoString))
      → All (IsBlob username slug (source_dir tools net marshal settings)) (xs ++ ys)
      → All (IsBlob username slug (source_dir tools net marshal settings)) xs
  first-All [] ys all = tt
  first-All (x ∷ xs) ys (h, all) = (h, first-All xs ys all)

  -- For valid names of the user and of the blog, and a walk that stays under its directory: an upload puts
  -- the first of the regular files of its walk into the blob store, in their order, and
  -- without an error every one: each under the name of the user, of the blog, and what its path has below
  -- the directory of the generated files. Nothing else of the store changes.
  pub upload_html_files-Stored :
      (published : W → List (GoString × GoString)) (pending : W → Option (GoString × GoString))
      → IsBlobStore tools published pending
      → Walks tools (source_dir tools net marshal settings)
      → (w : W)
      → let source = source_dir tools net marshal settings in
        let (result, after) = upload_html_files tools net marshal settings username slug w in
        (left : List GoString) × Stored username slug source
          (files_of (tools.walk source w))
          (published w)
          (published after)
          left
        × (result ≡ ok tt → left ≡ [])
  upload_html_files-Stored published pending is walks w =
      let source = source_dir tools net marshal settings in
      let (done, rest, all, is_after, whole) =
        upload_html_files-Published tools net marshal settings published pending is username slug
          w in
      (
        map (λ blob. blob.1) rest,
        (
          done,
          sym (blobs_of-files source (tools.walk source w))
              ∙ ap (map (λ blob. blob.1)) all
              ∙ map-append (λ blob. blob.1) done rest,
          first-All done rest (
              subst (All (IsBlob username slug source)) all
                (blobs_of-IsBlob source (tools.walk source w) (walks w))),
          is_after,
        ),
        λ ended. ap (map (λ blob. blob.1)) (whole ended),
      )
