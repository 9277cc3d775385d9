-- ===== src/UserStore/Tables/Effects.antt =====
-- What a statement of server/pkg/userstore/sqluserstore.go has done, once it has run.
use moblog_cloud.Prelude.{ℕ, Option, ◌≡◌, ap, sym, ◌∙◌, subst, ◌⊎◌, inl, inr}
use moblog_cloud.UserStore.Spec.{Accounts}
use moblog_cloud.UserStore.Tables.{Tables, Effect, rows, duplicate_key, no_reference}
use moblog_cloud.UserStore.Tables.Meaning.{Changed, Means}
use moblog_cloud.UserStore.Tables.Hashes.{tables_after}

-- What a statement that has run has done.
pub Means-Changed :
    {Zero : Type 0} {spec : Option Accounts} (t t' : Tables) (n : ℕ) (e : Effect)
    → Means Zero spec t e
    → e ≡ rows n t'
    → ((n ≡ 1) × Changed spec t') ⊎ (Zero × (n ≡ 0) × (t' ≡ t))
Means-Changed t t' n (rows m u) (inl (one, changed)) h =
    inl (sym (ap rows_of h) ∙ one, subst (Changed _) (ap (tables_after t) h) changed)
  where
    rows_of : Effect → ℕ
    rows_of (rows k v) = k
    rows_of _ = 0
Means-Changed t t' n (rows m u) (inr (zero, none_affected, same, _)) h =
    inr (zero, sym (ap rows_of h) ∙ none_affected, sym (ap (tables_after t) h) ∙ same)
  where
    rows_of : Effect → ℕ
    rows_of (rows k v) = k
    rows_of _ = 0
Means-Changed t t' n duplicate_key m h = cc
Means-Changed t t' n no_reference m h = cc
