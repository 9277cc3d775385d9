-- ===== src/UserStore/Sql/Databases.antt =====
-- What server/pkg/userstore/sqluserstore.go relies on of its database, of which PostgreSQL documents
-- it. One process uses the database: between the calls of a method nobody else writes.
use moblog_cloud.Prelude.{
  ℕ, GoString, true, false, Option, none, some, List, no_rows, message, Result, ok, err, ◌≡◌, ◌∙◌,
  ap, sym, subst, refl, inl, ◌⊎◌, ◌↔◌,
}
use mathlib.Core.List.{Mem}
use moblog_cloud.UserStore.{Blog}
use moblog_cloud.UserStore.Tables.{
  Tables, Statement, Effect, rows, duplicate_key, no_reference, effect, blog_at,
}
use moblog_cloud.UserStore.Sql.{Database, is_duplicate}

-- The count of affected rows, where there is no error in it.
abbrev pub Counts : Result ℕ → ℕ → Type 0
Counts (ok m) n = m ≡ n
Counts _ n = Unit

-- What an execution does to the tables: an answer means that the statement has run; an error may mean
-- that too, where the connection was lost, and otherwise the tables are as they were.
abbrev pub Ran : Statement → Tables → Result (Result ℕ) → Tables → Type 0
Ran s t (ok counted) t' = (n : ℕ) × (effect s t ≡ rows n t') × Counts counted n
Ran s t _ t' = (t' ≡ t) ⊎ ((n : ℕ) × (effect s t ≡ rows n t'))

abbrev pub Committed : Tables → Tables → Result (Unit {0}) → Tables → Type 0
Committed t t' (ok _) after = after ≡ t'
Committed t t' _ after = (after ≡ t) ⊎ (after ≡ t')

-- A query of one row that is answered finds the row of the key, or that there is none.
abbrev pub Answers : {A : Type 0} → Result A → Option A → Type 0
Answers (ok row) held = held ≡ some row
Answers (err no_rows) held = held ≡ none
Answers _ held = Unit

abbrev pub Lists : Result (List Blog) → (GoString → Option GoString) → Type 0
Lists (ok blogs) held = (blog : Blog) → Mem blog blogs ↔ (held blog.slug ≡ some blog.display_name)
Lists _ held = Unit

-- A database that runs a statement at once and whole, or not at all, and tells the truth; its
-- connection may fail at any time.
pub record IsDatabase {D T : Type 0} (db : Database D T) (tables : D → Tables)
    (tx_tables : T → Tables) : Type 0 where
  pub execs : (s : Statement) (d : D) → Ran s (tables d) (db.exec s d).0 (tables (db.exec s d).1)
  pub execs_tx :
      (s : Statement) (t : T)
      → Ran s (tx_tables t) (db.exec_tx s t).0 (tx_tables (db.exec_tx s t).1)
  pub begins : (d : D) (t : T) → db.begin d ≡ ok t → tx_tables t ≡ tables d
  pub commits :
      (t : T) (d : D)
      → Committed (tables d) (tx_tables t) (db.commit t d).0 (tables (db.commit t d).1)
  pub finds_user : (name : GoString) (d : D) → Answers (db.user_row name d) ((tables d).users name)
  pub finds_blog :
      (name slug : GoString) (d : D)
      → Answers (db.blog_row name slug d) (blog_at slug ((tables d).blogs name slug))
  pub lists_blogs : (name : GoString) (d : D) → Lists (db.blog_rows name d) ((tables d).blogs name)

-- The answer to a statement with the effect.
abbrev pub Told : {D : Type 0} → (D → Tables) → Effect → D → Result (Result ℕ) × D → Type 0
Told tables (rows n t) d r = (r.0 ≡ ok (ok n)) × (tables r.1 ≡ t) × (n ≡ 0 → r.1 ≡ d)
Told tables duplicate_key d r =
    ((text : GoString) × (r.0 ≡ err (message text)) × (is_duplicate (message text) ≡ true))
    × (r.1 ≡ d)
Told tables no_reference d r =
    ((text : GoString) × (r.0 ≡ err (message text)) × (is_duplicate (message text) ≡ false))
    × (r.1 ≡ d)

abbrev pub one_found : {A : Type 0} → Option A → Result A
one_found none = err no_rows
one_found (some row) = ok row

-- A database all of whose connections hold: every call is answered, and only a violated constraint is
-- an error. (PostgreSQL also refuses a text with a NUL or that is not valid UTF-8; the texts here are not
-- of that kind.) A statement that violates one, or affects no row, leaves the database as it was.
pub record IsAnswering {D T : Type 0} (db : Database D T) (tables : D → Tables)
    (tx_tables : T → Tables) : Type 0 where
  pub tells : (s : Statement) (d : D) → Told tables (effect s (tables d)) d (db.exec s d)
  pub tells_tx :
      (s : Statement) (t : T) → Told tx_tables (effect s (tx_tables t)) t (db.exec_tx s t)
  pub begins : (d : D) → (t : T) × (db.begin d ≡ ok t) × (tx_tables t ≡ tables d)
  pub commits :
      (t : T) (d : D) → ((db.commit t d).0 ≡ ok tt) × (tables (db.commit t d).1 ≡ tx_tables t)
  pub rolls_back : (t : T) (d : D) → db.rollback t d ≡ ok tt
  pub finds_user :
      (name : GoString) (d : D) → db.user_row name d ≡ one_found ((tables d).users name)
  pub finds_blog :
      (name slug : GoString) (d : D)
      → db.blog_row name slug d ≡ one_found (blog_at slug ((tables d).blogs name slug))
  pub lists_blogs :
      (name : GoString) (d : D)
      → (blogs : List Blog) × (db.blog_rows name d ≡ ok blogs)
        × ((blog : Blog)
            → Mem blog blogs ↔ ((tables d).blogs name blog.slug ≡ some blog.display_name))

-- An answer that is told is true.
pub Told-Ran :
    {D : Type 0} (tables : D → Tables) (s : Statement) (d : D) (r : Result (Result ℕ) × D)
    (e : Effect)
    → effect s (tables d) ≡ e
    → Told tables e d r
    → Ran s (tables d) r.0 (tables r.1)
Told-Ran tables s d r (rows n t) h (answered, after, _) =
    subst (λ x. Ran s (tables d) x (tables r.1)) (sym answered)
      (n, h ∙ ap (rows n) (sym after), refl)
Told-Ran tables s d r duplicate_key h ((text, answered, _), same) =
    subst (λ x. Ran s (tables d) x (tables r.1)) (sym answered) (inl (ap tables same))
Told-Ran tables s d r no_reference h ((text, answered, _), same) =
    subst (λ x. Ran s (tables d) x (tables r.1)) (sym answered) (inl (ap tables same))
