-- ===== src/Postgres/Rollback.antt =====
-- The failures of `CreateRepo` and `Do` in internal/http/postgres.go.
use gitrdone.Common.{
  ◌≡◌, refl, sym, subst, ◌∙◌, Bool, true, false, Option, none, some, [], All, ◌==◌, nat_eq, list_eq,
  if◌then◌else◌,
}
use gitrdone.Idempotency.{IdempotencyInput}
use gitrdone.Postgres.Atomic.{
  Answered, Safe, Keeps, Atomic, Keeps-Atomic, >>=-Atomic, statement-Keeps, commit-Atomic,
  in_transaction-Atomic,
}
use gitrdone.Postgres.Idempotency.{do_once, create_recorded, keyed, replay}
use gitrdone.Postgres.Session.{
  bound, restore, World, Query, lift, check, commit, pure, ◌>>◌, rollback, statement,
}
use gitrdone.Postgres.Store
use gitrdone.Postgres.Tables.{Tables, IdempotencyRow, RepoRow, insert_repo}
use gitrdone.Repository.{CreateRepoInput, GitStorage, RepoRecord}
use gitrdone.Result.{Error, Result, ok, err}
use gitrdone.Secrets.{new_uuid}
use gitrdone.Text.{Bytes}
use gitrdone.Time.{Time, before}

lift-Keeps : {Files A : Type 0} (t : Tables) (r : Result A) → Keeps {Files = Files} t (lift r)
lift-Keeps t r = record { keep = λ w inside. inside }

-- a commit, and a result behind it
committed-Safe :
    {Files A : Type 0} (t : Tables) (a : A) (r : Result (Unit {0}) × World Files)
    → Safe t r
    → Safe t (bound (λ _. pure a) r)
committed-Safe t a (err e, w) safe = safe
committed-Safe t a (ok u, w) safe = tt

commit-pure-Atomic :
    {Files A : Type 0} (t : Tables) (a : A) → Atomic {Files = Files} t (commit >> pure a)
commit-pure-Atomic t a = record {
  safe = λ w inside. committed-Safe t a (commit w) ((commit-Atomic t).safe w inside);
}

-- a step that has to do with the disk or the random source only
around-Keeps :
    {Files A : Type 0} (t : Tables) (m : Query Files A)
    → ((w : World Files) → (m w).1.saved ≡ w.saved)
    → ((w : World Files) → (m w).1.outcomes ≡ w.outcomes)
    → Keeps t m
around-Keeps t m saved outcomes = record {
  keep = λ w inside. record {
    saved = saved w ∙ inside.saved;
    answered = subst (All Answered) (sym (outcomes w)) inside.answered;
  };
}

module _ {Files : Type 0} (cast : Bytes → Result Bytes) (stamp : Time → Time)
    (storage : GitStorage Files) where
  restore-files :
      (saved : Option Tables) (w : World Files) (files : Files)
      → (restore saved (record w { files = files })).tables ≡ (restore saved w).tables
  restore-files none w files = refl
  restore-files (some t) w files = refl

  rollback-files :
      (w : World Files) (files : Files)
      → (rollback (record w { files = files })).tables ≡ (rollback w).tables
  unfolding rollback
  rollback-files w files = restore-files w.saved w files

  committed_or_deleted-Safe :
      (t : Tables) (repo : RepoRecord) (r : Result (Unit {0}) × World Files)
      → Safe t r
      → Safe t (Store.committed_or_deleted cast stamp storage repo r)
  committed_or_deleted-Safe t repo (ok u, w) safe = tt
  committed_or_deleted-Safe t repo (err e, w) safe = rollback-files w _ ∙ safe

  commit_initialised-Atomic :
      (t : Tables) (repo : RepoRecord) (failed : Option Error)
      → Atomic t (Store.commit_initialised cast stamp storage repo failed)
  unfolding Store.commit_initialised
  commit_initialised-Atomic t repo (some e) =
      Keeps-Atomic t (Store.deleted cast stamp storage repo.id e)
        (around-Keeps t _ (λ w. refl) (λ w. refl))
  commit_initialised-Atomic t repo none = record {
    safe =
        λ w inside. committed_or_deleted-Safe t repo (commit w) ((commit-Atomic t).safe w inside);
  }

  create_or_found-Atomic :
      (t : Tables) (input : CreateRepoInput) (now : Time) (found : Option RepoRow)
      → Atomic t (Store.create_or_found cast stamp storage input now found)
  unfolding Store.create_or_found
  create_or_found-Atomic t input now (some row) = commit-pure-Atomic t _
  create_or_found-Atomic t input now none =
      >>=-Atomic t (Store.read_random cast stamp) _ (around-Keeps t _ (λ w. refl) (λ w. refl))
        λ random. >>=-Atomic t (lift (new_uuid random)) _ (lift-Keeps t _) λ id.
          let repo = Store.new_repo input id in
          >>=-Atomic t (statement (insert_repo cast stamp repo now)) _ (statement-Keeps t _) λ _.
            >>=-Atomic t (Store.init_bare_repo cast stamp storage id input.default_branch) _
              (around-Keeps t _ (λ w. refl) (λ w. refl)) (commit_initialised-Atomic t repo)

  -- A creation that fails leaves every table as it was, whatever fails: a statement, the random source,
  -- the disk or the commit. No answer of the server is lost.
  pub create_repo-Atomic :
      (input : CreateRepoInput) (now : Time) (w : World Files) {e : Error} {w' : World Files}
      → All Answered w.outcomes
      → Store.create_repo cast stamp storage input now w ≡ (err e, w')
      → w'.tables ≡ w.tables
  unfolding Store.create_repo
  create_repo-Atomic input now w answered h =
      in_transaction-Atomic _ w
        (>>=-Atomic w.tables (statement _) _ (statement-Keeps w.tables _)
          (create_or_found-Atomic w.tables input now))
        answered h

module _ {Files Response : Type 0} (stamp : Time → Time) (encode : Response → Result Bytes)
    (jsonb : Bytes → Result Bytes) (decode : Bytes → Result Response) where
  create_recorded-Atomic :
      (t : Tables) (input : IdempotencyInput) (now : Time) (create : Query Files Response)
      → Keeps t create
      → Atomic t (create_recorded stamp encode jsonb decode input now create)
  unfolding create_recorded
  create_recorded-Atomic t input now create keeps = >>=-Atomic t create _ keeps λ response.
      >>=-Atomic t _ _ (lift-Keeps t _)
        λ raw. >>=-Atomic t (statement _) _ (statement-Keeps t _) λ _. commit-pure-Atomic t _

  check-Keeps : (t : Tables) (b : Bool) (e : Error) → Keeps {Files = Files} t (check b e)
  check-Keeps t false e = record { keep = λ w inside. inside }
  check-Keeps t true e = record { keep = λ w inside. inside }

  if-Atomic :
      {A : Type 0} (t : Tables) (b : Bool) (m n : Query Files A)
      → Atomic t m
      → Atomic t n
      → Atomic t (if b then m else n)
  if-Atomic t true m n first second = first
  if-Atomic t false m n first second = second

  keyed-Atomic :
      (t : Tables) (input : IdempotencyInput) (now : Time) (create : Query Files Response)
      (found : Option IdempotencyRow)
      → Keeps t create
      → Atomic t (keyed stamp encode jsonb decode input now create found)
  unfolding keyed replay
  keyed-Atomic t input now create none keeps = create_recorded-Atomic t input now create keeps
  keyed-Atomic t input now create (some row) keeps =
      >>=-Atomic t _ _ (lift-Keeps t (decode row.response)) λ response.
        if-Atomic t (before now row.expires_at) _ _
          (>>=-Atomic t _ _ (check-Keeps t (row.request_hash == input.request_hash) _)
            λ _. commit-pure-Atomic t _)
          (>>=-Atomic t (statement _) _ (statement-Keeps t _)
            λ _. create_recorded-Atomic t input now create keeps)

  -- A request under a key that fails leaves every table as it was: no token stays in the database
  -- without the record of its response, also where the response cannot be stored or the commit fails.
  -- `create` leaves the transaction open, as statements do, and no answer of the server is lost.
  pub do_once-Atomic :
      (input : IdempotencyInput) (now : Time) (create : Query Files Response) (w : World Files)
      {e : Error} {w' : World Files}
      → input.key == [] ≡ false
      → Keeps w.tables create
      → All Answered w.outcomes
      → do_once stamp encode jsonb decode none input now create w ≡ (err e, w')
      → w'.tables ≡ w.tables
  unfolding do_once
  do_once-Atomic input now create w given keeps answered h =
      in_transaction-Atomic _ w
        (>>=-Atomic w.tables (statement _) _ (statement-Keeps w.tables _) λ _.
          >>=-Atomic w.tables (statement _) _ (statement-Keeps w.tables _)
            λ found. keyed-Atomic w.tables input now create found keeps)
        answered (rw given at h)
