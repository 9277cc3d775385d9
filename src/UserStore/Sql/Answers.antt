-- ===== src/UserStore/Sql/Answers.antt =====
-- server/pkg/userstore/sqluserstore.go on a database that answers: one statement.
use moblog_cloud.Prelude.{
  ℕ, GoString, Option, none, some, Error, message, wrap, Result, ok, err, ◌≡◌, refl, ap, sym, ◌∙◌,
  subst, inl, inr,
}
use moblog_cloud.UserStore.Spec.{Accounts, Conforms, Outcome}
use moblog_cloud.UserStore.Tables.{
  Tables, Effect, rows, duplicate_key, no_reference, accounts, IsConsistent,
}
use moblog_cloud.UserStore.Tables.Meaning.{Changed, Means}
use moblog_cloud.UserStore.Sql.{inserted, affected, after_check}
use moblog_cloud.UserStore.Sql.Databases.{Told}

module _ {D : Type 0} (tables : D → Tables) (d : D) (v : IsConsistent (tables d))
    (spec : Option Accounts) where
  abbrev pub Conformed : Result (Unit {0}) × D → Type 0
  Conformed = Conforms (λ s. IsConsistent (tables s)) (λ s. accounts (tables s)) d spec

  pub succeeds :
      (r : Result (Unit {0})) (d' : D) (t' : Tables)
      → Changed spec t'
      → r ≡ ok tt
      → tables d' ≡ t'
      → Conformed (r, d')
  succeeds r d' t' (v', (a, is, same)) e after = (
    subst IsConsistent (sym after) v',
    subst (λ o. Outcome (λ s. accounts (tables s)) d o (r, d')) (sym is)
        (e, λ name. ap (λ t. accounts t name) after ∙ same name),
  )

  pub refuses :
      (r : Result (Unit {0})) (d' : D) (e : Error)
      → spec ≡ none
      → r ≡ err e
      → d' ≡ d
      → Conformed (r, d')
  refuses r d' e is failed same = (
    subst (λ s. IsConsistent (tables s)) (sym same) v,
    subst (λ o. Outcome (λ s. accounts (tables s)) d o (r, d')) (sym is) ((e, failed), same),
  )

  pub affected-Conformed :
      (missing : Error) (exec_text rows_text : GoString) (e : Effect) (r : Result (Result ℕ) × D)
      → Means Unit spec (tables d) e
      → Told tables e d r
      → Conformed (affected missing exec_text rows_text r.0, r.1)
  affected-Conformed missing exec_text rows_text (rows n t') r (inl (one, changed))
        (answered, after, _) =
      succeeds _ r.1 t' changed
        (ap (affected missing exec_text rows_text) (answered ∙ ap (λ k. ok (ok k)) one)) after
  affected-Conformed missing exec_text rows_text (rows n t') r (inr (_, zero, _, is))
        (answered, _, same) =
      refuses _ r.1 missing is
        (ap (affected missing exec_text rows_text) (answered ∙ ap (λ k. ok (ok k)) zero))
        (same zero)
  affected-Conformed missing exec_text rows_text duplicate_key r is ((text, answered, _), same) =
      refuses _ r.1 _ is (ap (affected missing exec_text rows_text) answered) same
  affected-Conformed missing exec_text rows_text no_reference r is ((text, answered, _), same) =
      refuses _ r.1 _ is (ap (affected missing exec_text rows_text) answered) same

  pub inserted-Conformed :
      (duplicate : Error) (text : GoString) (e : Effect) (r : Result (Result ℕ) × D)
      → Means ⊥ spec (tables d) e
      → Told tables e d r
      → Conformed (inserted duplicate text r.0, r.1)
  inserted-Conformed duplicate text (rows n t') r (inl (one, changed)) (answered, after, _) =
      succeeds _ r.1 t' changed (ap (inserted duplicate text) answered) after
  inserted-Conformed duplicate text (rows n t') r (inr (never, _, _, _)) told = absurd never
  inserted-Conformed duplicate text duplicate_key r is ((said, answered, dup), same) =
      refuses _ r.1 duplicate is (ap (inserted duplicate text) answered ∙ rw (inserted, dup) refl)
        same
  inserted-Conformed duplicate text no_reference r is ((said, answered, dup), same) =
      refuses _ r.1 (wrap (message said) text) is
        (ap (inserted duplicate text) answered ∙ rw (inserted, dup) refl) same

  -- A refused argument.
  pub after_check-Conformed :
      (checks : Option Error) (rest : Result (Unit {0}) × D)
      → ((e : Error) → checks ≡ some e → spec ≡ none)
      → (checks ≡ none → Conformed rest)
      → Conformed (after_check checks rest d)
  after_check-Conformed none rest refused passed = passed refl
  after_check-Conformed (some e) rest refused passed = refuses _ d e (refused e refl) refl refl
