-- ===== src/Postgres/Minting.antt =====
-- What a call of `CreateRepoToken` of internal/http/postgres.go may end in.
use gitrdone.Common.{
  ℕ, zero, suc, ◌≡◌, inl, inr, refl, sym, ap, ◌∙◌, false, Option, none, some, List, [], ◌∷◌, All,
  Bool-cases, length, ==_iff, subst, equal, nat_eq, list_eq,
}
use gitrdone.Common.Lists.{Among}
use gitrdone.Memory.{token_record}
use gitrdone.Postgres.Session.{
  Outcome, done, failed, lost, World, Query, bound, statement, settle, abort, next, later, keep,
  or_error, pure, ◌>>=◌,
}
use gitrdone.Postgres.Rows.{find_row-true}
use gitrdone.Postgres.Store.{get_repo, inserted, insert_round, insert_rounds, create_repo_token}
use gitrdone.Postgres.Tables.{
  Tables, RepoRow, find_row, repo_has_id, scan_repo, select_repo, insert_token_row,
  is_postgres_unique_violation,
}
use gitrdone.Repository.{CreateRepoTokenInput, RepoRecord, RepoTokenRecord}
use gitrdone.Result.{Error, repo_not_found, Result, Result-cases, ok, err}
use gitrdone.Secrets.{Reads, draw, new_uuid, generate_repo_token}
use gitrdone.Text.{Bytes}
use gitrdone.Time.{Time}
use gitrdone.Postgres.Minted.{Truthful, Minted, Ends, insert_token_row-Minted}

next-Truthful : (outcomes : List Outcome) → All Truthful outcomes → Truthful (next outcomes)
next-Truthful [] h = tt
next-Truthful (outcome ∷ outcomes) h = h.0

later-Truthful : (outcomes : List Outcome) → All Truthful outcomes → All Truthful (later outcomes)
later-Truthful [] h = tt
later-Truthful (outcome ∷ outcomes) h = h.1

next-Among :
    (outcomes : List Outcome) (e : Error) → next outcomes ≡ lost e → Among (lost e) outcomes
next-Among [] e h = absurd cc
next-Among (outcome ∷ outcomes) e h = inl h

later-Among : (outcomes : List Outcome) (o : Outcome) → Among o (later outcomes) → Among o outcomes
later-Among [] o m = m
later-Among (outcome ∷ outcomes) o m = inr m

module _ (cast : Bytes → Result Bytes) (stamp : Time → Time) (sha256 : Bytes → Bytes)
    (input : CreateRepoTokenInput) where
  module _ {Files : Type 0} (t : Tables) (outcomes : List Outcome) where
    -- the tables are those at the start, and the outcomes that are left are true
    record Ready (w : World Files) : Type 0 where
      same : w.tables ≡ t
      truthful : All Truthful w.outcomes
      left : (o : Outcome) → Among o w.outcomes → Among o outcomes

    Ready-later :
        (w w' : World Files)
        → Ready w
        → w'.tables ≡ w.tables
        → w'.outcomes ≡ later w.outcomes
        → Ready w'
    Ready-later w w' r same rest = record {
      same = same ∙ r.same;
      truthful = subst (All Truthful) (sym rest) (later-Truthful w.outcomes r.truthful);
      left = λ o m. r.left o (later-Among w.outcomes o (subst (λ os. Among o os) rest m));
    }

    settled-Ends :
        (outcome : Outcome) (result : Result (Unit {0} × Tables)) (token : RepoTokenRecord)
        (again : Query Files RepoTokenRecord) (w : World Files)
        → w.tables ≡ t
        → Truthful outcome
        → ((e : Error) → outcome ≡ lost e → Among (lost e) outcomes)
        → ((t' : Tables) → result ≡ ok (tt, t') → Minted cast stamp sha256 input t token t')
        → ((w' : World Files)
            → w'.tables ≡ w.tables
            → w'.outcomes ≡ w.outcomes
            → Ends cast stamp sha256 input t outcomes (again w'))
        → Ends cast stamp sha256 input t outcomes
            (inserted cast stamp sha256 token again (settle outcome result w))
    settled-Ends outcome (err e) token again w same truth among minted further =
        elim (Bool-cases (is_postgres_unique_violation e)) [
          | inl unique ↦ rw unique (further (abort w) refl refl)
          | inr other_error ↦ rw other_error (inl same)
        ]
    settled-Ends done (ok (u, t')) token again w same truth among minted further = minted t' refl
    settled-Ends (failed e) (ok (u, t')) token again w same truth among minted further =
        rw truth (inl same)
    settled-Ends (lost e) (ok (u, t')) token again w same truth among minted further =
        rw truth (inr (among e refl, (token, minted t' refl)))

    inserted-Ends :
        (repo : RepoRecord) (now : Time) (generated token_id : Bytes)
        (again : Query Files RepoTokenRecord) (w : World Files)
        → cast input.repo_id ≡ ok repo.id
        → Ready w
        → ((w' : World Files) → Ready w' → Ends cast stamp sha256 input t outcomes (again w'))
        → Ends cast stamp sha256 input t outcomes (
            inserted cast stamp sha256
              (token_record sha256 input repo now generated token_id)
              again
              (statement
                (insert_token_row cast stamp
                  (token_record sha256 input repo now generated token_id))
                w))
    unfolding statement is_postgres_unique_violation
    inserted-Ends repo now generated token_id again w of_repo r further =
        let token = token_record sha256 input repo now generated token_id in
        elim (Bool-cases w.aborted) [
          | inl aborted ↦ rw aborted (unfold equal in inl r.same)
          | inr open_ ↦ rw open_ (
              settled-Ends (next w.outcomes) (insert_token_row cast stamp token w.tables) token
                again (record w { aborted = false; outcomes = later w.outcomes }) r.same
                (next-Truthful w.outcomes r.truthful)
                (λ e is_lost. r.left (lost e) (next-Among w.outcomes e is_lost))
                (λ t' made.
                  insert_token_row-Minted cast stamp sha256 input repo now generated token_id t t'
                    of_repo (ap (insert_token_row cast stamp token) (sym r.same) ∙ made))
                λ w' same rest. further w' (Ready-later w w' r same rest))
        ]

    bound-Ends :
        {A : Type 0} (result : Result A) (rest : A → Query Files RepoTokenRecord) (w : World Files)
        → w.tables ≡ t
        → ((a : A) → Ends cast stamp sha256 input t outcomes (rest a w))
        → Ends cast stamp sha256 input t outcomes (bound rest (result, w))
    bound-Ends (err e) rest w same ends = inl same
    bound-Ends (ok a) rest w same ends = ends a

    Ready-reads : (w : World Files) (reads : Reads) → Ready w → Ready (record w { reads = reads })
    Ready-reads w reads r = record { same = r.same; truthful = r.truthful; left = r.left }

    insert_round-Ends :
        (repo : RepoRecord) (now : Time) (again : Query Files RepoTokenRecord) (w : World Files)
        → cast input.repo_id ≡ ok repo.id
        → Ready w
        → ((w' : World Files) → Ready w' → Ends cast stamp sha256 input t outcomes (again w'))
        → Ends cast stamp sha256 input t outcomes
            (insert_round cast stamp sha256 input repo now again w)
    unfolding insert_round
    insert_round-Ends repo now again w of_repo r further =
        bound-Ends (generate_repo_token (draw w.reads).0) _ _ r.same λ generated.
          bound-Ends (new_uuid (draw (draw w.reads).1).0) _ _ r.same λ token_id.
            inserted-Ends repo now generated token_id again _ of_repo (Ready-reads w _ r) further

    insert_rounds-Ends :
        (repo : RepoRecord) (now : ℕ → Time) (rounds : ℕ) (w : World Files)
        → cast input.repo_id ≡ ok repo.id
        → Ready w
        → Ends cast stamp sha256 input t outcomes
            (insert_rounds cast stamp sha256 input repo now rounds w)
    unfolding insert_rounds
    insert_rounds-Ends repo now zero w of_repo r = inl r.same
    insert_rounds-Ends repo now (suc rounds) w of_repo r =
        insert_round-Ends repo (now rounds) (insert_rounds cast stamp sha256 input repo now rounds)
          w of_repo r λ w' r'. insert_rounds-Ends repo now rounds w' of_repo r'

    -- behind the `SELECT` of the repo, which leaves the tables
    picked-Ends :
        (outcome : Outcome) (found : Option RepoRow)
        (rest : RepoRecord → Query Files RepoTokenRecord) (w : World Files)
        → w.tables ≡ t
        → ((row : RepoRow)
            → found ≡ some row
            → Ends cast stamp sha256 input t outcomes (rest (scan_repo row) w))
        → Ends cast stamp sha256 input t outcomes (
            bound rest (
              bound
                (λ picked. or_error picked repo_not_found >>= λ row. pure (scan_repo row))
                (keep outcome found w.tables w)))
    picked-Ends done none rest w same further = inl same
    picked-Ends done (some row) rest w same further = further row refl
    picked-Ends (failed e) found rest w same further = inl same
    picked-Ends (lost e) found rest w same further = inl same

    get_repo-Ends :
        (rest : RepoRecord → Query Files RepoTokenRecord) (w : World Files)
        → Ready w
        → ((repo : RepoRecord) (w' : World Files)
            → cast input.repo_id ≡ ok repo.id
            → Ready w'
            → Ends cast stamp sha256 input t outcomes (rest repo w'))
        → Ends cast stamp sha256 input t outcomes (bound rest (get_repo cast stamp input.repo_id w))
    unfolding get_repo statement select_repo
    get_repo-Ends rest w r further = elim (Bool-cases w.aborted) [
      | inl aborted ↦ rw aborted (inl r.same)
      | inr open_ ↦ elim (Result-cases (cast input.repo_id)) [
        | inl (e, refused) ↦ rw (open_, refused) (inl r.same)
        | inr (id, is_id) ↦
            let after = record w { aborted = false; outcomes = later w.outcomes } in
            rw (open_, is_id)
              (picked-Ends (next w.outcomes) (find_row (repo_has_id id) w.tables.repos) rest after
                r.same
                λ row picked.
                  let same_id : row.id ≡ id =
                    (==_iff row.id id).0 (find_row-true (repo_has_id id) w.tables.repos picked) in
                  further (scan_repo row) after (is_id ∙ ap ok (sym same_id))
                    (Ready-later w after r refl refl))
      ]
    ]

  -- A call of CreateRepoToken of the PostgreSQL store, whatever becomes of its statements, ends in one
  -- of three ways. It gives a token, and then it has added to the tables the row of that token and
  -- nothing else: a token of the repo asked for, with the scope and the subject asked for, that expires
  -- the Go duration of the seconds asked for after its creation, and whose id and hash no stored token
  -- had. Or it gives an error and leaves the tables as they were. Or it gives the error of an answer
  -- that was lost, and has added the row of one such token. The errors of the network are taken not to
  -- be the violation of a unique index.
  pub create_repo_token-Ends :
      {Files : Type 0} (now : ℕ → Time) (w : World Files)
      → All Truthful w.outcomes
      → Ends cast stamp sha256 input w.tables w.outcomes
          (create_repo_token cast stamp sha256 input now w)
  unfolding create_repo_token
  create_repo_token-Ends now w truthful =
      get_repo-Ends w.tables w.outcomes
        (λ repo w'. insert_rounds cast stamp sha256 input repo now (suc (length w'.reads)) w') w
        (record { same = refl; truthful = truthful; left = λ o m. m })
        λ repo w' of_repo r.
          insert_rounds-Ends w.tables w.outcomes repo now (suc (length w'.reads)) w' of_repo r
