-- ===== src/UserStore/Memory/Contract.antt =====
-- server/pkg/userstore/memoryuserstore.go: the memory store keeps the promises of the interface.
use mathlib.Core.List.{Mem, Perm, map, not-mem-nil, exists_of_mem-map}
use mathlib.Core.Option.{none-ne-some}
use mathlib.Core.List.Memᴰ
use mathlib.Core.List.Perm
use mathlib.Core.Logic.{∥∥₁_elim}
use moblog_cloud.Prelude.{
  GoString, eq_refl, true, false, Option, none, some, List, ok, ◌≡◌, refl, ap, sym, ◌∙◌,
  Option-cases, inl, inr, arith, ◌↔◌, [],
}
use moblog_cloud.Prelude.GoMap
use moblog_cloud.Prelude.GoMap.{GoMap, get-put, mem-entries}
use moblog_cloud.UserStore.{User, Blog, validate_user}
use moblog_cloud.UserStore.Spec.{Contract, profile, shown, listed, blog_of}
use moblog_cloud.UserStore.Memory.{
  MemoryRecord, MemoryUserStore, memory_user_store, create_user, get_user, get_blog, list_blogs,
  authenticate_user,
}
use moblog_cloud.UserStore.Memory.Invariant.{IsWellFormed}
use moblog_cloud.UserStore.Memory.Refinement.{
  view, view-none, view-some, create_user-Does, update_user-Does, delete_user-Does, add_blog-Does,
  update_blog-Does, delete_blog-Does,
}

Blog-set : IsSet (Option Blog)
Blog-set = hlevel

-- Where every blog stands under its own slug, a range over the map meets the blogs that it holds.
mem-blogs :
    (m : GoMap Blog)
    → ((slug : GoString) (b : Blog) → GoMap.get m slug ≡ some b → b.slug ≡ slug)
    → (blog : Blog)
    → Mem blog (map (λ e. e.1) (GoMap.entries m)) ↔ (GoMap.get m blog.slug ≡ some blog)
mem-blogs m slugs blog = (
  λ h.
      ∥∥₁_elim (exists_of_mem-map h) (Blog-set _ _)
        (λ ((slug, b), inside, e). at_slug slug b inside e),
  λ h. ∣ Memᴰ.map (λ e. e.1) ((mem-entries m).1 h) ∣₁,
)
  where
    at_slug :
        (slug : GoString) (b : Blog)
        → Mem (slug, b) (GoMap.entries m)
        → b ≡ blog
        → GoMap.get m blog.slug ≡ some blog
    at_slug slug b inside e =
        let found : GoMap.get m slug ≡ some b =
          ∥∥₁_elim inside (Blog-set _ _) (λ d. (mem-entries m).0 d) in
        ap (GoMap.get m) (sym (ap (λ (x : Blog). x.slug) e) ∙ slugs slug b found)
        ∙ found
        ∙ ap some e

module _ (s : MemoryUserStore) (w : IsWellFormed s) (name : GoString) where
  get_user-profile : get_user name s ≡ ok (profile name (view s name))
  unfolding get_user
  get_user-profile = elim (Option-cases (GoMap.get s.users name)) [
    | inl e ↦ rw (e, get_user, view-none s name e) refl
    | inr (r, e) ↦
        rw (e, get_user, view-some s name e)
          (ap (λ n. ok (some (record r.user { username = n; password = [] })))
            (w.at_name name r e).0)
  ]

  shown-get_blog : (slug : GoString) → shown (get_blog name slug s) ≡ blog_of (view s) name slug
  unfolding get_blog
  shown-get_blog slug = elim (Option-cases (GoMap.get s.users name)) [
    | inl e ↦ rw (e, get_blog, view-none s name e, blog_of) refl
    | inr (r, e) ↦ rw (e, get_blog, view-some s name e, blog_of) refl
  ]

  mem-list_blogs :
      (range_order : List Blog → List Blog)
      → ((blogs : List Blog) → Perm (range_order blogs) blogs)
      → (blog : Blog)
      → Mem blog (listed (list_blogs range_order name s))
        ↔ (blog_of (view s) name blog.slug ≡ some blog)
  unfolding list_blogs
  mem-list_blogs range_order orders blog = elim (Option-cases (GoMap.get s.users name)) [
    | inl e ↦
        rw (e, list_blogs, view-none s name e, blog_of)
          (λ m. absurd (not-mem-nil m), λ h. absurd (none-ne-some blog h))
    | inr (r, e) ↦
        rw (e, list_blogs, view-some s name e, blog_of)
          (
            λ m.
                (mem-blogs r.blogs (λ slug b h. ((w.at_name name r e).2 slug b h).0) blog).0
                  ((Perm.mem_iff (orders _)).0 m),
            λ h.
                (Perm.mem_iff (orders _)).1 (
                  (mem-blogs r.blogs (λ slug b h'. ((w.at_name name r e).2 slug b h').0) blog).1 h),
          )
  ]

-- `ErrAlreadyExists` and the other refusals of `CreateUser` aside, the new user can log in.
authenticate-create_user :
    (user : User) (s : MemoryUserStore)
    → (create_user user s).0 ≡ ok tt
    → authenticate_user user.username user.password (create_user user s).1 ≡ ok true
unfolding create_user authenticate_user
authenticate-create_user user s h = elim (Option-cases (validate_user user false)) [
  | inr (x, i) ↦ ground arith
  | inl i ↦ elim (Option-cases (GoMap.get s.users user.username)) [
    | inr (r, e) ↦ ground arith
    | inl e ↦
        let r : MemoryRecord = record { user = user; blogs = GoMap.empty } in
        ground (
          arith,
          get-put s.users user.username r user.username,
          eq_refl user.username,
          eq_refl user.password,
        )
  ]
]

authenticate_unknown :
    (name password : GoString) (s : MemoryUserStore)
    → view s name ≡ none
    → authenticate_user name password s ≡ ok false
unfolding authenticate_user
authenticate_unknown name password s h = elim (Option-cases (GoMap.get s.users name)) [
  | inl e ↦ rw (e, authenticate_user)
  | inr (r, e) ↦ absurd (none-ne-some _ (sym h ∙ view-some s name e))
]

module _ (range_order : List Blog → List Blog)
    (orders : (blogs : List Blog) → Perm (range_order blogs) blogs) where
  -- In whatever order the runtime ranges over a map: every method of the memory store, from a
  -- well-formed store, leaves a well-formed store, and either returns an error and changes nothing
  -- or has the effect that the interface promises; the lookups and the listing show exactly the
  -- accounts; a user who was created can log in, and an unknown one cannot.
  pub memory_user_store-Contract : Contract (memory_user_store range_order) IsWellFormed view
  unfolding memory_user_store
  memory_user_store-Contract = record {
    creates = λ user s w. create_user-Does s w user;
    updates = λ user s w. update_user-Does s w user;
    deletes = λ name s w. delete_user-Does s w name;
    adds_blog = λ name blog s w. add_blog-Does s w name blog;
    updates_blog = λ name blog s w. update_blog-Does s w name blog;
    deletes_blog = λ name slug s w. delete_blog-Does s w name slug;
    gets_user = λ name s w. get_user-profile s w name;
    gets_blog = λ name slug s w. shown-get_blog s w name slug;
    lists_blogs = λ name blog s w. mem-list_blogs s w name range_order orders blog;
    authenticates = λ user s w. authenticate-create_user user s;
    rejects_unknown = λ name password s w. authenticate_unknown name password s;
  }
