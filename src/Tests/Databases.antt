-- ===== src/Tests/Databases.antt =====
-- A database of two tables in memory, for the tests of server/pkg/userstore/sqluserstore.go.
use mathlib.Core.List.{Mem, map, exists_of_mem-map}
use mathlib.Core.List.Memᴰ
use mathlib.Core.Logic.{∥∥₁_elim}
use moblog_cloud.Prelude.{
  ℕ, GoString, codes, ◌==◌, true, false, Option, none, some, message, Result, ok, err, ◌≡◌, refl,
  ap, sym, ◌∙◌, fun_ext, arith, Bool-cases, Option-cases, inl, inr, ◌↔◌,
}
use moblog_cloud.Prelude.GoMap
use moblog_cloud.Prelude.GoMap.{GoMap, get-put, get-delete, get-empty, mem-entries}
use moblog_cloud.UserStore.{Blog}
use moblog_cloud.UserStore.Spec.{set_at}
use moblog_cloud.UserStore.Tables.{
  UserRow, Tables, Statement, insert_user, update_user_data, update_user_password, delete_user_row,
  insert_blog, update_blog_row, delete_blog_row, with_blog, without_user, effect, blog_at,
}
use moblog_cloud.UserStore.Sql.{Database, is_duplicate}
use moblog_cloud.UserStore.Sql.Databases.{
  IsAnswering, Told-Ran, IsDatabase, Told, Ran, Answers, one_found,
}

pub record Rows : Type 0 where
  pub user_rows : GoString → Option UserRow
  pub blog_rows : GoString → GoMap GoString

abbrev pub no_rows_yet : Rows
no_rows_yet = record { user_rows = λ name. none; blog_rows = λ name. GoMap.empty }

abbrev pub tables : Rows → Tables
tables d = record { users = d.user_rows; blogs = λ name slug. GoMap.get (d.blog_rows name) slug }

abbrev set_user : Rows → GoString → Option UserRow → Rows
set_user d name row = record d { user_rows = set_at d.user_rows name row }

abbrev set_blogs : Rows → GoString → GoMap GoString → Rows
set_blogs d name blogs = record d { blog_rows = set_at d.blog_rows name blogs }

abbrev drop_user : Rows → GoString → Rows
drop_user d name = set_blogs (set_user d name none) name GoMap.empty

abbrev duplicate_text : GoString
duplicate_text = codes "pq: duplicate key value violates unique constraint"

abbrev foreign_key_text : GoString
foreign_key_text = codes "pq: violates foreign key constraint"

abbrev affecting : ℕ → Result (Result ℕ)
affecting n = ok (ok n)

duplicates : is_duplicate (message duplicate_text) ≡ true
unfolding moblog_cloud.Prelude.contains
duplicates = refl

duplicates_not : is_duplicate (message foreign_key_text) ≡ false
unfolding moblog_cloud.Prelude.contains
duplicates_not = refl

unfoldable pub execute : Statement → Rows → Result (Result ℕ) × Rows
execute (insert_user row) d = elim (d.user_rows row.username) [
  | some _ ↦ (err (message duplicate_text), d)
  | none ↦ (affecting 1, set_user d row.username (some row))
]
execute (update_user_data display_name name) d = elim (d.user_rows name) [
  | none ↦ (affecting 0, d)
  | some row ↦ (affecting 1, set_user d name (some (record row { display_name = display_name })))
]
execute (update_user_password salt password name) d = elim (d.user_rows name) [
  | none ↦ (affecting 0, d)
  | some row ↦
      (affecting 1, set_user d name (some (record row { salt = salt; password = password })))
]
execute (delete_user_row name) d = elim (d.user_rows name) [
  | none ↦ (affecting 0, d)
  | some _ ↦ (affecting 1, drop_user d name)
]
execute (insert_blog name slug display_name) d = elim (GoMap.get (d.blog_rows name) slug) [
  | some _ ↦ (err (message duplicate_text), d)
  | none ↦ elim (d.user_rows name) [
    | none ↦ (err (message foreign_key_text), d)
    | some _ ↦ (affecting 1, set_blogs d name (GoMap.put (d.blog_rows name) slug display_name))
  ]
]
execute (update_blog_row display_name name slug) d = elim (GoMap.get (d.blog_rows name) slug) [
  | none ↦ (affecting 0, d)
  | some _ ↦ (affecting 1, set_blogs d name (GoMap.put (d.blog_rows name) slug display_name))
]
execute (delete_blog_row name slug) d = elim (GoMap.get (d.blog_rows name) slug) [
  | none ↦ (affecting 0, d)
  | some _ ↦ (affecting 1, set_blogs d name (GoMap.delete (d.blog_rows name) slug))
]

abbrev blog_of_entry : GoString × GoString → Blog
blog_of_entry (slug, display_name) = record { slug = slug; display_name = display_name }

-- A transaction works on a copy.
abbrev pub keeping_database : Database Rows Rows
keeping_database = record {
  exec = execute;
  user_row = λ name d. one_found (d.user_rows name);
  blog_row = λ name slug d. one_found (blog_at slug (GoMap.get (d.blog_rows name) slug));
  blog_rows = λ name d. ok (map blog_of_entry (GoMap.entries (d.blog_rows name)));
  begin = λ d. ok d;
  exec_tx = execute;
  commit = λ t d. (ok tt, t);
  rollback = λ t d. ok tt;
}

-- One user's blogs replaced.
blogs_at :
    (d : Rows) (name : GoString) (new : GoMap GoString) (held : GoString → Option GoString)
    → ((slug : GoString) → GoMap.get new slug ≡ held slug)
    → (λ n s. GoMap.get (set_at d.blog_rows name new n) s) ≡ set_at (tables d).blogs name held
blogs_at d name new held same = fun_ext λ n. fun_ext λ s. elim (Bool-cases (name == n)) [
  | inl here ↦ rw here (same s)
  | inr elsewhere ↦ rw elsewhere refl
]

module _ (d : Rows) (name slug : GoString) where
  put_blog :
      (display_name : GoString)
      → tables (set_blogs d name (GoMap.put (d.blog_rows name) slug display_name))
        ≡ with_blog (tables d) name slug (some display_name)
  put_blog display_name =
      ap (λ blogs. record { users = d.user_rows; blogs = blogs })
        (blogs_at d name _ _ λ s. get-put (d.blog_rows name) slug display_name s)

  delete_blog :
      tables (set_blogs d name (GoMap.delete (d.blog_rows name) slug))
      ≡ with_blog (tables d) name slug none
  delete_blog =
      ap (λ blogs. record { users = d.user_rows; blogs = blogs })
        (blogs_at d name _ _ λ s. get-delete (d.blog_rows name) slug s)

drop : (d : Rows) (name : GoString) → tables (drop_user d name) ≡ without_user (tables d) name
drop d name =
    ap (λ blogs. record { users = set_at d.user_rows name none; blogs = blogs })
      (blogs_at d name _ _ get-empty)

execute-Told : (s : Statement) (d : Rows) → Told tables (effect s (tables d)) d (execute s d)
unfolding execute effect
execute-Told (insert_user row) d = elim (Option-cases (d.user_rows row.username)) [
  | inl e ↦ rw (e, effect, execute) (refl, refl, λ never. absurd (omega (arith, never)))
  | inr (old, e) ↦ rw (e, effect, execute) ((duplicate_text, refl, duplicates), refl)
]
execute-Told (update_user_data display_name name) d = elim (Option-cases (d.user_rows name)) [
  | inl e ↦ rw (e, effect, execute) (refl, refl, λ _. refl)
  | inr (row, e) ↦ rw (e, effect, execute) (refl, refl, λ never. absurd (omega (arith, never)))
]
execute-Told (update_user_password salt password name) d = elim (Option-cases (d.user_rows name)) [
  | inl e ↦ rw (e, effect, execute) (refl, refl, λ _. refl)
  | inr (row, e) ↦ rw (e, effect, execute) (refl, refl, λ never. absurd (omega (arith, never)))
]
execute-Told (delete_user_row name) d = elim (Option-cases (d.user_rows name)) [
  | inl e ↦ rw (e, effect, execute) (refl, refl, λ _. refl)
  | inr (row, e) ↦
      rw (e, effect, execute) (refl, drop d name, λ never. absurd (omega (arith, never)))
]
execute-Told (insert_blog name slug display_name) d =
    elim (Option-cases (GoMap.get (d.blog_rows name) slug)) [
      | inr (old, e) ↦ rw (e, effect, execute) ((duplicate_text, refl, duplicates), refl)
      | inl e ↦ elim (Option-cases (d.user_rows name)) [
        | inl missing ↦
            rw (e, missing, effect, execute) ((foreign_key_text, refl, duplicates_not), refl)
        | inr (row, there) ↦
            rw (e, there, effect, execute)
              (refl, put_blog d name slug display_name, λ never. absurd (omega (arith, never)))
      ]
    ]
execute-Told (update_blog_row display_name name slug) d =
    elim (Option-cases (GoMap.get (d.blog_rows name) slug)) [
      | inl e ↦ rw (e, effect, execute) (refl, refl, λ _. refl)
      | inr (old, e) ↦
          rw (e, effect, execute)
            (refl, put_blog d name slug display_name, λ never. absurd (omega (arith, never)))
    ]
execute-Told (delete_blog_row name slug) d =
    elim (Option-cases (GoMap.get (d.blog_rows name) slug)) [
      | inl e ↦ rw (e, effect, execute) (refl, refl, λ _. refl)
      | inr (old, e) ↦
          rw (e, effect, execute)
            (refl, delete_blog d name slug, λ never. absurd (omega (arith, never)))
    ]

Text-set : IsSet (Option GoString)
Text-set = hlevel

listed_blogs :
    (m : GoMap GoString) (blog : Blog)
    → Mem blog (map blog_of_entry (GoMap.entries m))
      ↔ (GoMap.get m blog.slug ≡ some blog.display_name)
listed_blogs m blog = (
  λ h. ∥∥₁_elim (exists_of_mem-map h) (Text-set _ _) (λ ((slug, b), inside, e).
      ap (GoMap.get m) (sym (ap (λ (x : Blog). x.slug) e))
      ∙ ∥∥₁_elim inside (Text-set _ _) (λ i. (mem-entries m).0 i)
      ∙ ap (λ (x : Blog). some x.display_name) e),
  λ h. ∣ Memᴰ.map blog_of_entry ((mem-entries m).1 h) ∣₁,
)

pub keeping_database-IsAnswering : IsAnswering keeping_database tables tables
keeping_database-IsAnswering = record {
  tells = execute-Told;
  tells_tx = execute-Told;
  begins = λ d. (d, refl, refl);
  commits = λ t d. (refl, refl);
  rolls_back = λ t d. refl;
  finds_user = λ name d. refl;
  finds_blog = λ name slug d. refl;
  lists_blogs = λ name d. (_, refl, listed_blogs (d.blog_rows name));
}

-- The same database, with a connection that is lost while a transaction is committed.
abbrev pub losing_database : Database Rows Rows
losing_database = record keeping_database {
  commit = λ t d. (err (message (codes "connection lost")), t);
}

execute-Ran : (s : Statement) (d : Rows) → Ran s (tables d) (execute s d).0 (tables (execute s d).1)
execute-Ran s d = Told-Ran tables s d (execute s d) (effect s (tables d)) refl (execute-Told s d)

one_found-Answers : {A : Type 0} (row : Option A) → Answers (one_found row) row
one_found-Answers none = refl
one_found-Answers (some row) = refl

pub losing_database-IsDatabase : IsDatabase losing_database tables tables
losing_database-IsDatabase = record {
  execs = execute-Ran;
  execs_tx = execute-Ran;
  begins = λ d t begun. ap (λ r. elim r [ ok u ↦ tables u | _ ↦ tables d ]) (sym begun);
  commits = λ t d. inr refl;
  finds_user = λ name d. one_found-Answers (d.user_rows name);
  finds_blog = λ name slug d. one_found-Answers (blog_at slug (GoMap.get (d.blog_rows name) slug));
  lists_blogs = λ name d. listed_blogs (d.blog_rows name);
}

-- The same database, whose connection is lost while a user is looked up.
abbrev pub forgetting_database : Database Rows Rows
forgetting_database = record keeping_database {
  user_row = λ name d. err (message (codes "connection lost"));
}

pub forgetting_database-IsDatabase : IsDatabase forgetting_database tables tables
forgetting_database-IsDatabase = record {
  execs = execute-Ran;
  execs_tx = execute-Ran;
  begins = λ d t begun. ap (λ r. elim r [ ok u ↦ tables u | _ ↦ tables d ]) (sym begun);
  commits = λ t d. refl;
  finds_user = λ name d. tt;
  finds_blog = λ name slug d. one_found-Answers (blog_at slug (GoMap.get (d.blog_rows name) slug));
  lists_blogs = λ name d. listed_blogs (d.blog_rows name);
}
