-- ===== src/UserStore/Sql/Transactions.antt =====
-- server/pkg/userstore/sqluserstore.go: `inTx`, whatever becomes of the connection to the database.
use moblog_cloud.Prelude.{
  GoString, Option, none, some, Error, Result, ok, err, panic, wrap_err, ◌≡◌, refl, sym, subst, ◌⊎◌,
  inl, inr,
}
use moblog_cloud.UserStore.Tables.{Tables}
use moblog_cloud.UserStore.Sql.{Database, after_check, rolled_back, end_tx, in_tx_from}
use moblog_cloud.UserStore.Sql.Databases.{IsDatabase, Committed}

-- What has become of the tables, by the answer: without an error, `P` holds of them; with an error, it
-- does, or they are as they were.
abbrev pub Ended : (Tables → Type 0) → Tables → Result (Unit {0}) → Tables → Type 0
Ended P t (ok _) t' = P t'
Ended P t _ t' = (t' ≡ t) ⊎ P t'

pub after_check-Ended :
    {D : Type 0} (tables : D → Tables) (P : Tables → Type 0) (checks : Option Error)
    (rest : Result (Unit {0}) × D) (d : D)
    → (checks ≡ none → Ended P (tables d) rest.0 (tables rest.1))
    → Ended P (tables d) (after_check checks rest d).0 (tables (after_check checks rest d).1)
after_check-Ended tables P none rest d h = h refl
after_check-Ended tables P (some e) rest d h = inl refl

pub wrapped-Ended :
    (P : Tables → Type 0) (t t' : Tables) (r : Result (Unit {0})) (text : GoString)
    → Ended P t r t'
    → Ended P t (wrap_err r text) t'
wrapped-Ended P t t' (ok _) text done = done
wrapped-Ended P t t' (err e) text done = done
wrapped-Ended P t t' panic text done = done

-- The tables of a transaction, while it has no error.
abbrev pub Held : (Tables → Type 0) → Result (Unit {0}) → Tables → Type 0
Held P (ok _) t = P t
Held P _ t = Unit

module _ {D T : Type 0} (db : Database D T) (argon2 : GoString → GoString → GoString)
    (read_random : D → Result GoString) (tables : D → Tables) (tx_tables : T → Tables)
    (is : IsDatabase db tables tx_tables) where
  Committed-Ended :
      (P : Tables → Type 0) (t t' after : Tables) (r : Result (Unit {0})) (text : GoString)
      → P t'
      → Committed t t' r after
      → Ended P t (wrap_err r text) after
  Committed-Ended P t t' after (ok _) text changed same = subst P (sym same) changed
  Committed-Ended P t t' after (err e) text changed (inl same) = inl same
  Committed-Ended P t t' after (err e) text changed (inr same) = inr (subst P (sym same) changed)
  Committed-Ended P t t' after panic text changed (inl same) = inl same
  Committed-Ended P t t' after panic text changed (inr same) = inr (subst P (sym same) changed)

  rolled_back-Ended :
      (P : Tables → Type 0) (t : Tables) (e : Error) (r : Result (Unit {0}))
      → Ended P t (rolled_back db argon2 read_random e r) t
  rolled_back-Ended P t e (ok _) = inl refl
  rolled_back-Ended P t e (err _) = inl refl
  rolled_back-Ended P t e panic = inl refl

  end_tx-Ended :
      (P : Tables → Type 0) (r : Result (Unit {0})) (t : T) (d : D)
      → Held P r (tx_tables t)
      → Ended P
          (tables d)
          (end_tx db argon2 read_random (r, t) d).0
          (tables (end_tx db argon2 read_random (r, t) d).1)
  end_tx-Ended P (ok _) t d held =
      Committed-Ended P (tables d) (tx_tables t) _ (db.commit t d).0 _ held (is.commits t d)
  end_tx-Ended P (err e) t d held = rolled_back-Ended P (tables d) e (db.rollback t d)
  end_tx-Ended P panic t d held = inl refl

  pub in_tx_from-Ended :
      (P : Tables → Type 0) (body : T → Result (Unit {0}) × T) (begun : Result T) (d : D)
      → ((t : T) → begun ≡ ok t → Held P (body t).0 (tx_tables (body t).1))
      → Ended P
          (tables d)
          (in_tx_from db argon2 read_random body begun d).0
          (tables (in_tx_from db argon2 read_random body begun d).1)
  in_tx_from-Ended P body (err e) d held = inl refl
  in_tx_from-Ended P body panic d held = inl refl
  in_tx_from-Ended P body (ok t) d held = end_tx-Ended P (body t).0 (body t).1 d (held t refl)
