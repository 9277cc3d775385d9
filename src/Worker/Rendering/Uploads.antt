-- ===== src/Worker/Rendering/Uploads.antt =====
-- server/pkg/worker/renderworker.go: what uploadHTMLFiles puts into the blob store.
use mathlib.Core.List.{append-nil, append_assoc}
use moblog_cloud.Prelude.{
  GoString, codes, Option, some, List, [], ◌∷◌, ◌++◌, Result, ok, err, panic, wrap_err,
  wrap_err-eq-ok, ◌≡◌, refl, ap, sym, ◌∙◌, subst, ◌⊎◌, inl, inr,
}
use moblog_cloud.AdminClient.{NetLibrary}
use moblog_cloud.GitServer.Paths.{path_join}
use moblog_cloud.Worker.Rendering.{
  Settings, FileKind, directory, regular, other_file, Tools, ConfigFile, result_directory, ext,
  after_step, wrapped, finalized, copied, written, upload_file, key_of, copy_visit, go_on,
  copy_visits, upload_html_files,
}

-- The end of an upload: without an error the blob has come into being, with an error it may have.
abbrev pub Closes : {B : Type 0} → Result (Unit {0}) → List B → List B → B → Type 0
Closes (ok _) before after blob = after ≡ before ++ blob ∷ []
Closes _ before after blob = (after ≡ before) ⊎ (after ≡ before ++ blob ∷ [])

-- A blob store: `published` are its blobs, by key and by the file they were copied from, and `pending`
-- is what has been copied to the writer that is open. A blob comes into being when its writer is closed.
pub record IsBlobStore {W : Type 0} (tools : Tools W) (published : W → List (GoString × GoString))
    (pending : W → Option (GoString × GoString)) : Type 0 where
  pub opens :
      (key type : GoString) (w : W) → published (tools.new_writer key type w).1 ≡ published w
  pub copies :
      (path key : GoString) (w : W)
      → (published (tools.copy path key w).1 ≡ published w)
        × ((tools.copy path key w).0 ≡ ok tt → pending (tools.copy path key w).1 ≡ some (key, path))
  pub closes :
      (key path : GoString) (w : W)
      → pending w ≡ some (key, path)
      → Closes (tools.close key w).0 (published w) (published (tools.close key w).1) (key, path)

-- The first of all the blobs have come into being, and without an error every one.
abbrev pub Published :
    List (GoString × GoString)
    → Result (Unit {0})
    → List (GoString × GoString)
    → List (GoString × GoString)
    → Type 0
Published all r before after =
    (done : List (GoString × GoString)) × (rest : List (GoString × GoString)) × (all ≡ done ++ rest)
    × (after ≡ before ++ done)
    × (r ≡ ok tt → rest ≡ [])

module _ {W : Type 0} (tools : Tools W) (net : NetLibrary) (marshal : ConfigFile → Result GoString)
    (settings : Settings) where
  -- The blobs of the regular files among the visits.
  abbrev pub blob_of :
      GoString → GoString → GoString → GoString × Result FileKind → List (GoString × GoString)
  blob_of source username slug (path, ok regular) =
      (key_of tools net marshal settings source username slug path, path) ∷ []
  blob_of source username slug (path, _) = []

  abbrev pub blobs_of :
      GoString
      → GoString
      → GoString
      → List (GoString × Result FileKind)
      → List (GoString × GoString)
  blobs_of source username slug [] = []
  blobs_of source username slug (visit ∷ visits) =
      blob_of source username slug visit ++ blobs_of source username slug visits

  abbrev pub source_dir : GoString
  source_dir = path_join (settings.work_dir ∷ result_directory ∷ [])

module _ {W : Type 0} (tools : Tools W) (net : NetLibrary) (marshal : ConfigFile → Result GoString)
    (settings : Settings) (published : W → List (GoString × GoString))
    (pending : W → Option (GoString × GoString)) (is : IsBlobStore tools published pending) where
  closed_wrapped :
      (r : Result (Unit {0})) (before after : List (GoString × GoString))
      (blob : GoString × GoString) (text : GoString)
      → Closes r before after blob
      → Closes (wrap_err (wrap_err r text) text) before after blob
  closed_wrapped (ok _) before after blob text h = h
  closed_wrapped (err e) before after blob text h = h
  closed_wrapped panic before after blob text h = h

  -- A step before the end publishes nothing.
  after_step-Closes :
      {A : Type 0} (text : GoString) (r : Result A × W) (rest : W → Result (Unit {0}) × W)
      (before : List (GoString × GoString)) (blob : GoString × GoString)
      → published r.1 ≡ before
      → ((a : A) → r.0 ≡ ok a → Closes (rest r.1).0 before (published (rest r.1).1) blob)
      → Closes
          (after_step text r (λ _. rest)).0
          before
          (published (after_step text r (λ _. rest)).1)
          blob
  after_step-Closes text (ok a, w) rest before blob same h = h a refl
  after_step-Closes text (err e, w) rest before blob same h = inl same
  after_step-Closes text (panic, w) rest before blob same h = inl same

  upload_file-Closes :
      (key path : GoString) (w : W)
      → Closes
          (upload_file tools net marshal settings key path w).0
          (published w)
          (published (upload_file tools net marshal settings key path w).1)
          (key, path)
  unfolding upload_file
  upload_file-Closes key path w =
      after_step-Closes _ (tools.open_file path w, w) (written tools net marshal settings key path)
        (published w) (key, path) refl
        λ _ _.
          after_step-Closes _ new (copied tools net marshal settings key path) (published w)
            (key, path) (is.opens key kind w)
            λ _ _.
              let (kept, held) = is.copies path key new.1 in
              after_step-Closes _ (tools.copy path key new.1)
                (finalized tools net marshal settings key) (published w) (key, path)
                (kept ∙ is.opens key kind w)
                λ _ done.
                  let w' = (tools.copy path key new.1).1 in
                  closed_wrapped (tools.close key w').0 (published w) _ (key, path) _
                    (subst
                      (λ b.
                        Closes (tools.close key w').0 b (published (tools.close key w').1)
                          (key, path))
                      (kept ∙ is.opens key kind w) (is.closes key path w' (held done)))
    where
      kind : GoString
      kind = tools.content_type (ext path)

      new : Result (Unit {0}) × W
      new = tools.new_writer key kind w

  copy_visit-Published :
      (source username slug : GoString) (visit : GoString × Result FileKind) (w : W)
      → Published
          (blob_of tools net marshal settings source username slug visit)
          (copy_visit tools net marshal settings source username slug visit w).0
          (published w)
          (published (copy_visit tools net marshal settings source username slug visit w).1)
  copy_visit-Published source username slug (path, err e) w =
      ([], [], refl, sym (append-nil _), λ h. refl)
  copy_visit-Published source username slug (path, panic) w =
      ([], [], refl, sym (append-nil _), λ h. refl)
  copy_visit-Published source username slug (path, ok directory) w =
      ([], [], refl, sym (append-nil _), λ h. refl)
  copy_visit-Published source username slug (path, ok other_file) w =
      ([], [], refl, sym (append-nil _), λ h. refl)
  copy_visit-Published source username slug (path, ok regular) w =
      of_closes _ _
        (upload_file-Closes (key_of tools net marshal settings source username slug path) path w)
    where
      of_closes :
          (r : Result (Unit {0})) (after : List (GoString × GoString))
          → Closes r
              (published w)
              after
              (key_of tools net marshal settings source username slug path, path)
          → Published
              ((key_of tools net marshal settings source username slug path, path) ∷ [])
              r
              (published w)
              after
      of_closes (ok _) after h = (_ ∷ [], [], refl, h, λ _. refl)
      of_closes (err e) after (inl h) = ([], _ ∷ [], refl, h ∙ sym (append-nil _), λ i. cc)
      of_closes (err e) after (inr h) = (_ ∷ [], [], refl, h, λ _. refl)
      of_closes panic after (inl h) = ([], _ ∷ [], refl, h ∙ sym (append-nil _), λ i. cc)
      of_closes panic after (inr h) = (_ ∷ [], [], refl, h, λ _. refl)

  go_on-Published :
      (b bs : List (GoString × GoString)) (r : Result (Unit {0}) × W)
      (rest : W → Result (Unit {0}) × W) (before : List (GoString × GoString))
      → Published b r.0 before (published r.1)
      → ((w : W) → Published bs (rest w).0 (published w) (published (rest w).1))
      → Published
          (b ++ bs)
          (go_on tools net marshal settings r rest).0
          before
          (published (go_on tools net marshal settings r rest).1)
  go_on-Published b bs (err e, w) rest before (done, left, all, after, _) h =
      (done, left ++ bs, ap (λ x. x ++ bs) all ∙ append_assoc done left bs, after, λ i. cc)
  go_on-Published b bs (panic, w) rest before (done, left, all, after, _) h =
      (done, left ++ bs, ap (λ x. x ++ bs) all ∙ append_assoc done left bs, after, λ i. cc)
  go_on-Published b bs (ok _, w) rest before (done, left, all, after, whole) h =
      let (done2, left2, all2, after2, whole2) = h w in
      (
        done ++ done2,
        left2,
        ap (λ x. x ++ bs) (all ∙ ap (λ x. done ++ x) (whole refl) ∙ append-nil done)
            ∙ ap (λ x. done ++ x) all2
            ∙ sym (append_assoc done done2 left2),
        after2 ∙ ap (λ x. x ++ done2) after ∙ append_assoc before done done2,
        whole2,
      )

  copy_visits-Published :
      (source username slug : GoString) (visits : List (GoString × Result FileKind)) (w : W)
      → Published
          (blobs_of tools net marshal settings source username slug visits)
          (copy_visits tools net marshal settings source username slug visits w).0
          (published w)
          (published (copy_visits tools net marshal settings source username slug visits w).1)
  unfolding copy_visits
  copy_visits-Published source username slug [] w = ([], [], refl, sym (append-nil _), λ h. refl)
  copy_visits-Published source username slug (visit ∷ visits) w =
      go_on-Published (blob_of tools net marshal settings source username slug visit)
        (blobs_of tools net marshal settings source username slug visits)
        (copy_visit tools net marshal settings source username slug visit w)
        (copy_visits tools net marshal settings source username slug visits) (published w)
        (copy_visit-Published source username slug visit w)
        (copy_visits-Published source username slug visits)

  -- Uploading the generated files adds blobs to the store, one for each regular file that the walk
  -- visits, in its order, under the user's and the blog's name with the rest of the path, and copied
  -- from that file: all of them if there is no error, and the first so many of them if there is one.
  pub upload_html_files-Published :
      (username slug : GoString) (w : W)
      → let source = source_dir tools net marshal settings in
        Published
          (blobs_of tools net marshal settings source username slug (tools.walk source w))
          (upload_html_files tools net marshal settings username slug w).0
          (published w)
          (published (upload_html_files tools net marshal settings username slug w).1)
  unfolding upload_html_files
  upload_html_files-Published username slug w =
      opened (tools.open_bucket settings.blog_output_url w)
    where
      source : GoString
      source = source_dir tools net marshal settings

      all : List (GoString × GoString)
      all = blobs_of tools net marshal settings source username slug (tools.walk source w)

      copying : W → Result (Unit {0}) × W
      copying w =
          copy_visits tools net marshal settings source username slug (tools.walk source w) w

      relabelled :
          (r : Result (Unit {0})) (text : GoString) (after : List (GoString × GoString))
          → Published all r (published w) after
          → Published all (wrap_err r text) (published w) after
      relabelled r text after (done, left, is_all, is_after, whole) =
          (done, left, is_all, is_after, λ h. whole (wrap_err-eq-ok r text h))

      opened :
          (r : Result (Unit {0}))
          → Published all
              (after_step
                (codes "Error while opening bucket")
                (r, w)
                (λ _ w. wrapped (codes "Error while copying files") (copying w))).0
              (published w)
              (published
                (after_step
                  (codes "Error while opening bucket")
                  (r, w)
                  (λ _ w. wrapped (codes "Error while copying files") (copying w))).1)
      opened (ok _) =
          relabelled (copying w).0 _ _
            (copy_visits-Published source username slug (tools.walk source w) w)
      opened (err e) = ([], all, refl, sym (append-nil _), λ h. cc)
      opened panic = ([], all, refl, sym (append-nil _), λ h. cc)
