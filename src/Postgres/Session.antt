-- ===== src/Postgres/Session.antt =====
-- A connection of internal/http/postgres.go, in the order of its statements: a statement is one step on
-- the tables, outside a transaction or inside one. Every statement has an outcome that the server and
-- the network choose; behind the end of the list it is done. No other session writes in between.
use gitrdone.Common.{Bool, true, false, Option, none, some, List, [], ◌∷◌, if◌then◌else◌}
use gitrdone.Postgres.Tables.{Tables}
use gitrdone.Result.{Error, other, Result, ok, err}
use gitrdone.Secrets.{Reads}
use gitrdone.Text.{codes, is_some}

pub data Outcome : Type 0 where
  done : Outcome
  -- the statement is not run
  failed : Error → Outcome
  -- the statement is run, and its answer is lost
  lost : Error → Outcome

-- The database with what the operations read and change around it: the disk and the random source.
pub record World (Files : Type 0) : Type 0 where
  pub tables : Tables
  -- inside a transaction, the tables at its start
  pub saved : Option Tables
  -- an error has ended the transaction, which waits for its rollback
  pub aborted : Bool
  pub outcomes : List Outcome
  pub files : Files
  pub reads : Reads

abbrev pub next : List Outcome → Outcome
next [] = done
next (outcome ∷ outcomes) = outcome

abbrev pub later : List Outcome → List Outcome
later [] = []
later (outcome ∷ outcomes) = outcomes

-- "current transaction is aborted, commands ignored until end of transaction block"
abbrev pub transaction_aborted : Error
transaction_aborted = other (codes "SQLSTATE 25P02")

-- `pgx.ErrTxCommitRollback`
abbrev pub commit_rollback : Error
commit_rollback = other (codes "commit unexpectedly resulted in rollback")

-- a step that may fail
abbrev pub Query : Type 0 → Type 0 → Type 0
Query Files A = World Files → Result A × World Files

module _ {Files : Type 0} where
  abbrev pub pure : {A : Type 0} → A → Query Files A
  pure a w = (ok a, w)

  abbrev pub fail : {A : Type 0} → Error → Query Files A
  fail e w = (err e, w)

  -- a result that needs no statement
  abbrev pub lift : {A : Type 0} → Result A → Query Files A
  lift result w = (result, w)

  abbrev pub bound :
      {A B : Type 0} → (A → Query Files B) → Result A × World Files → Result B × World Files
  bound next (err e, w) = (err e, w)
  bound next (ok a, w) = next a w

  infixl 5 ◌>>=◌ ◌>>◌
  abbrev pub ◌>>=◌ : {A B : Type 0} → Query Files A → (A → Query Files B) → Query Files B
  (m >>= next) w = bound next (m w)

  abbrev pub ◌>>◌ : {B : Type 0} → Query Files (Unit {0}) → Query Files B → Query Files B
  m >> next = m >>= λ _. next

  -- the error where there is no value
  abbrev pub or_error : {A : Type 0} → Option A → Error → Query Files A
  or_error none e w = (err e, w)
  or_error (some a) e w = (ok a, w)

  abbrev pub check : Bool → Error → Query Files (Unit {0})
  check false e w = (err e, w)
  check true e w = (ok tt, w)

  -- an error ends the transaction that is open
  abbrev pub abort : World Files → World Files
  abort w = record w { aborted = is_some w.saved }

  abbrev pub keep : {A : Type 0} → Outcome → A → Tables → World Files → Result A × World Files
  keep done a t w = (ok a, record w { tables = t })
  keep (failed e) a t w = (err e, abort w)
  keep (lost e) a t w = (err e, abort (record w { tables = t }))

  abbrev pub settle :
      {A : Type 0} → Outcome → Result (A × Tables) → World Files → Result A × World Files
  settle outcome (err e) w = (err e, abort w)
  settle outcome (ok (a, t)) w = keep outcome a t w

  -- `Exec`, `Query` and `QueryRow` with the reading of what they give
  unfoldable pub statement : {A : Type 0} → (Tables → Result (A × Tables)) → Query Files A
  statement run w =
      if w.aborted
      then (err transaction_aborted, w)
      else settle (next w.outcomes) (run w.tables) (record w { outcomes = later w.outcomes })

  -- `Begin`
  unfoldable pub begin : Query Files (Unit {0})
  begin w = elim (next w.outcomes) [
    | done ↦
        (ok tt, record w { saved = some w.tables; aborted = false; outcomes = later w.outcomes })
    | failed e ↦ (err e, record w { outcomes = later w.outcomes })
    | lost e ↦ (err e, record w { outcomes = later w.outcomes })
  ]

  abbrev pub restore : Option Tables → World Files → World Files
  restore none w = w
  restore (some t) w = record w { tables = t; saved = none; aborted = false }

  -- `rollbackTx`: nothing is left to do behind a commit, and a connection that fails here is closed,
  -- which rolls back as well
  unfoldable pub rollback : World Files → World Files
  rollback w = restore w.saved w

  -- `Commit`
  unfoldable pub commit : Query Files (Unit {0})
  unfolding rollback
  commit w = if w.aborted then (err commit_rollback, rollback w) else elim (next w.outcomes) [
    | done ↦ (ok tt, record w { saved = none; outcomes = later w.outcomes })
    | failed e ↦ (err e, rollback (record w { outcomes = later w.outcomes }))
    | lost e ↦ (err e, record w { saved = none; outcomes = later w.outcomes })
  ]

  abbrev pub rolled_back : {A : Type 0} → Result A × World Files → Result A × World Files
  rolled_back (result, w) = (result, rollback w)

  -- `tx, err := db.Begin(ctx)` with `defer rollbackTx(ctx, tx)`
  unfoldable pub in_transaction : {A : Type 0} → Query Files A → Query Files A
  unfolding begin rollback
  in_transaction body = begin >>= λ _ w. rolled_back (body w)
