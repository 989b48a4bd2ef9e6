-- ===== src/Postgres/Store.antt =====
-- `postgresRepoStore` of internal/http/postgres.go. A statement that finds no row gives
-- `pgx.ErrNoRows`, which the code turns into the error that stands here in its place.
use gitrdone.Common.{
  ℕ, zero, suc, not, Option, none, some, List, [], ◌==◌, nat_eq, list_eq, if◌then◌else◌,
}
use gitrdone.Common.Lists.{length}
use gitrdone.Postgres.Session.{
  World, Query, pure, fail, lift, ◌>>=◌, ◌>>◌, or_error, check, statement, commit, in_transaction,
}
use gitrdone.Postgres.Tables.{
  RepoRow, is_postgres_unique_violation, scan_repo, select_repo, update_archived,
  select_repo_tokens, update_revoked, select_token_by_hash, update_last_used, select_repo_by_name,
  insert_repo, insert_token_row,
}
use gitrdone.Memory.{token_record}
use gitrdone.Repository.{
  CreateRepoInput, CreateRepoTokenInput, RevokeRepoTokenInput, AuthorizeGitAccessInput,
  GitAccessGrant, RepoRecord, RepoTokenRecord, scope_allows_git_operation, GitStorage,
}
use gitrdone.Result.{
  Error, repo_not_found, repo_archived, repo_token_invalid, repo_token_forbidden,
  repo_token_not_found, Result, ok, err,
}
use gitrdone.Secrets.{rand_error, draw, new_uuid, generate_repo_token, hash_repo_token}
use gitrdone.Text.{Bytes}
use gitrdone.Time.{Time, zero_time, is_zero, before}

abbrev pub new_repo : CreateRepoInput → Bytes → RepoRecord
new_repo input id = record {
  id = id;
  namespace = input.namespace;
  name = input.name;
  default_branch = input.default_branch;
  archived_at = zero_time;
}

module _ {Files : Type 0} (cast : Bytes → Result Bytes) (stamp : Time → Time) where
  -- `getRepoWithQueryer`, which is all of `GetRepo`
  unfoldable pub get_repo : Bytes → Query Files RepoRecord
  get_repo repo_id = do
    found ← statement (select_repo cast stamp repo_id)
    row ← or_error found repo_not_found
    pure (scan_repo row)

  unfoldable pub archive_repo : Bytes → Time → Query Files RepoRecord
  archive_repo repo_id now = do
    found ← statement (update_archived cast stamp repo_id now)
    row ← or_error found repo_not_found
    pure (scan_repo row)

  unfoldable pub list_repo_tokens : Bytes → Query Files (List RepoTokenRecord)
  unfolding get_repo
  list_repo_tokens repo_id = do
    repo ← get_repo repo_id
    statement (select_repo_tokens cast stamp repo_id)

  unfoldable pub revoke_repo_token : RevokeRepoTokenInput → Time → Query Files RepoTokenRecord
  unfolding get_repo
  revoke_repo_token input now = do
    repo ← get_repo input.repo_id
    found ← statement (update_revoked cast stamp input.token_id input.repo_id now)
    or_error found repo_token_not_found

  -- the bytes of the next `rand.Read`
  abbrev pub read_random : Query Files (Option Bytes)
  read_random w = (ok (draw w.reads).0, record w { reads = (draw w.reads).1 })

  module _ (storage : GitStorage Files) where
    -- `_ = store.gitStorage.DeleteBareRepo(ctx, repoID)` with an error
    abbrev pub deleted : {A : Type 0} → Bytes → Error → Query Files A
    deleted id e w = (err e, record w { files = (storage.delete_bare_repo w.files id).0 })

    abbrev pub init_bare_repo : Bytes → Bytes → Query Files (Option Error)
    init_bare_repo id branch w =
        let out = storage.init_bare_repo w.files id branch in (ok out.1, record w { files = out.0 })

    abbrev pub committed_or_deleted :
        RepoRecord → Result (Unit {0}) × World Files → Result RepoRecord × World Files
    committed_or_deleted repo (ok _, w) = (ok repo, w)
    committed_or_deleted repo (err e, w) = deleted repo.id e w

    -- behind `InitBareRepo`, by its error
    unfoldable pub commit_initialised : RepoRecord → Option Error → Query Files RepoRecord
    unfolding commit
    commit_initialised repo (some e) w = deleted repo.id e w
    commit_initialised repo none w = committed_or_deleted repo (commit w)

    -- behind `selectRepoByName`
    unfoldable pub create_or_found :
        CreateRepoInput → Time → Option RepoRow → Query Files RepoRecord
    unfolding commit commit_initialised
    create_or_found input now (some row) = commit >> pure (scan_repo row)
    create_or_found input now none = do
      random ← read_random
      id ← lift (new_uuid random)
      let repo = new_repo input id
      statement (insert_repo cast stamp repo now)
      failed ← init_bare_repo id input.default_branch
      commit_initialised repo failed

    unfoldable pub create_repo : CreateRepoInput → Time → Query Files RepoRecord
    unfolding in_transaction create_or_found
    create_repo input now = in_transaction (do
      found ← statement (select_repo_by_name cast stamp input.namespace input.name)
      create_or_found input now found)

    module _ (sha256 : Bytes → Bytes) where
      unfoldable pub authorize_git_access :
          AuthorizeGitAccessInput → Time → Query Files GitAccessGrant
      unfolding get_repo
      authorize_git_access input now = do
        repo ← get_repo input.repo_id
        check (is_zero repo.archived_at) repo_archived
        check (not (input.token == [])) repo_token_invalid
        found ← statement (select_token_by_hash cast stamp (hash_repo_token sha256 input.token))
        token ← or_error found repo_token_invalid
        check (token.repo_id == repo.id) repo_token_invalid
        check (is_zero token.revoked_at) repo_token_invalid
        check (before now token.expires_at) repo_token_invalid
        check (scope_allows_git_operation token.scope input.operation) repo_token_forbidden
        path ← λ w. (storage.bare_repo_path w.files repo.id, w)
        statement (update_last_used cast stamp token.id now)
        pure (record { repo_id = repo.id; repo_path = path; subject = token.subject })

  module _ (sha256 : Bytes → Bytes) where
    -- behind the insert of a round
    abbrev pub inserted :
        RepoTokenRecord
        → Query Files RepoTokenRecord
        → Result (Unit {0}) × World Files
        → Result RepoTokenRecord × World Files
    inserted token again (ok _, w) = (ok token, w)
    inserted token again (err e, w) = if is_postgres_unique_violation e then again w else (err e, w)

    -- one round of the loop, at its clock; `again` is the next round
    unfoldable pub insert_round :
        CreateRepoTokenInput
        → RepoRecord
        → Time
        → Query Files RepoTokenRecord
        → Query Files RepoTokenRecord
    insert_round input repo now again = do
      random ← read_random
      generated ← lift (generate_repo_token random)
      random_id ← read_random
      token_id ← lift (new_uuid random_id)
      let token = token_record sha256 input repo now generated token_id
      λ w. inserted token again (statement (insert_token_row cast stamp token) w)

    -- the loop, by a bound on its rounds; `now` is the clock of a round, by the rounds behind it. The
    -- loop of the source has no bound: it goes on for as long as the server finds the hash or the id in
    -- use. The bound is that of `create_repo_token`.
    unfoldable pub insert_rounds :
        CreateRepoTokenInput → RepoRecord → (ℕ → Time) → ℕ → Query Files RepoTokenRecord
    unfolding insert_round
    insert_rounds input repo now zero = fail rand_error
    insert_rounds input repo now (suc rounds) =
        insert_round input repo (now rounds) (insert_rounds input repo now rounds)

    -- `createRepoTokenWithQueryer`, on the one connection, so the choice between the pool and the
    -- transaction of the context, in `CreateRepoToken`, is left out. The random bytes are a list of
    -- reads whose end is the model's: `rand.Read` of Go does not fail. A round that another follows has
    -- used up a read, so the bound lies behind that end.
    unfoldable pub create_repo_token :
        CreateRepoTokenInput → (ℕ → Time) → Query Files RepoTokenRecord
    unfolding get_repo insert_rounds
    create_repo_token input now = do
      repo ← get_repo input.repo_id
      λ w. insert_rounds input repo now (suc (length w.reads)) w
