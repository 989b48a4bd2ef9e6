-- ===== src/Memory.antt =====
-- `memoryRepoStore` of internal/http/repository.go. Every operation holds the mutex from its start
-- to its end, so it is one step on the state; the clock's reading is an argument.
pub mod Invariant
pub mod Access
pub mod Creation
pub mod Minting
pub mod Listing
pub mod History
pub mod Revocation
use gitrdone.Common.{
  ℕ, ◌+◌, ◌*◌, Bool, true, false, not, Option, none, some, List, [], ◌∷◌, ◌++◌, ◌==◌, nat_eq,
  list_eq, if◌then◌else◌,
}
use gitrdone.Common.Dict.{Dict, lookup, insert}
use gitrdone.Common.Int.{ℤ, ◌+ℤ◌}
use gitrdone.Repository.{
  CreateRepoInput, CreateRepoTokenInput, RevokeRepoTokenInput, AuthorizeGitAccessInput,
  GitAccessGrant, RepoRecord, RepoTokenRecord, zero_repo, zero_token, scope_allows_git_operation,
  GitStorage,
}
use gitrdone.Result.{
  Error, repo_not_found, repo_archived, repo_token_invalid, repo_token_forbidden,
  repo_token_not_found, Result, ok, err, ◌>>=◌, ◌>>◌, guard, or_fail,
}
use gitrdone.Secrets.{Reads, rand_error, draw, new_uuid, generate_repo_token, hash_repo_token}
use gitrdone.Text.{Bytes, codes, is_some}
use gitrdone.Time.{Time, zero_time, is_zero, before, seconds}

pub record MemoryRepoStore : Type 0 where
  pub repos : Dict Bytes RepoRecord
  pub by_name : Dict Bytes Bytes
  pub tokens : Dict Bytes RepoTokenRecord
  pub token_ids_by_hash : Dict Bytes Bytes

-- `newMemoryRepoStore`
abbrev pub new_memory_repo_store : MemoryRepoStore
new_memory_repo_store = record { repos = []; by_name = []; tokens = []; token_ids_by_hash = [] }

-- The store with what its operations read and change around it: the disk and the random source.
pub record World (Files : Type 0) : Type 0 where
  pub store : MemoryRepoStore
  pub files : Files
  pub reads : Reads

abbrev pub repo_or_zero : Option RepoRecord → RepoRecord
repo_or_zero none = zero_repo
repo_or_zero (some repo) = repo

abbrev pub token_or_zero : Option RepoTokenRecord → RepoTokenRecord
token_or_zero none = zero_token
token_or_zero (some token) = token

abbrev pub name_key : Bytes → Bytes → Bytes
name_key namespace name = namespace ++ (codes "/" ++ name)

-- `store.repos[repo.ID] = repo`, and the entry of its name
abbrev pub add_repo : RepoRecord → MemoryRepoStore → MemoryRepoStore
add_repo repo store = record store {
  repos = insert repo.id repo store.repos;
  by_name = insert (name_key repo.namespace repo.name) repo.id store.by_name;
}

-- `store.repos[repo.ID] = repo`
abbrev pub put_repo : RepoRecord → MemoryRepoStore → MemoryRepoStore
put_repo repo store = record store { repos = insert repo.id repo store.repos }

-- `store.tokens[token.ID] = token`
abbrev pub put_token : RepoTokenRecord → MemoryRepoStore → MemoryRepoStore
put_token token store = record store { tokens = insert token.id token store.tokens }

-- `stored := record; stored.Token = ""`
abbrev pub stored_token : RepoTokenRecord → RepoTokenRecord
stored_token token = record token { token = [] }

-- `store.tokens[record.ID] = stored`, and the entry of its hash
abbrev pub add_token : RepoTokenRecord → MemoryRepoStore → MemoryRepoStore
add_token token store = record store {
  tokens = insert token.id (stored_token token) store.tokens;
  token_ids_by_hash = insert token.token_hash token.id store.token_ids_by_hash;
}

unfoldable pub get_repo : Bytes → MemoryRepoStore → Result RepoRecord
get_repo id store = or_fail (lookup id store.repos) repo_not_found

archive_found : RepoRecord → Time → MemoryRepoStore → RepoRecord × MemoryRepoStore
archive_found repo now store =
    if is_zero repo.archived_at
    then (let archived = record repo { archived_at = now } in (archived, put_repo archived store))
    else (repo, store)

unfoldable pub archive_repo : Bytes → Time → MemoryRepoStore → Result (RepoRecord × MemoryRepoStore)
unfolding archive_found
archive_repo id now store = do
  repo ← or_fail (lookup id store.repos) repo_not_found
  ok (archive_found repo now store)

unfoldable pub revoke_found :
    RepoTokenRecord → Time → MemoryRepoStore → RepoTokenRecord × MemoryRepoStore
revoke_found token now store =
    if is_zero token.revoked_at
    then (let revoked = record token { revoked_at = now } in (revoked, put_token revoked store))
    else (token, store)

unfoldable pub revoke_repo_token :
    RevokeRepoTokenInput → Time → MemoryRepoStore → Result (RepoTokenRecord × MemoryRepoStore)
unfolding revoke_found
revoke_repo_token input now store = do
  repo ← or_fail (lookup input.repo_id store.repos) repo_not_found
  token ← or_fail (lookup input.token_id store.tokens) repo_token_not_found
  guard (token.repo_id == input.repo_id) repo_token_not_found
  ok (revoke_found token now store)

module _ {Files : Type 0} (storage : GitStorage Files) where
  -- behind `InitBareRepo`, by its error
  create_initialised :
      CreateRepoInput → Bytes → World Files → Files × Option Error → Result RepoRecord × World Files
  create_initialised input id w (files, some e) =
      (err e, record w { files = (storage.delete_bare_repo files id).0 })
  create_initialised input id w (files, none) =
      let repo : RepoRecord = record {
        id = id;
        namespace = input.namespace;
        name = input.name;
        default_branch = input.default_branch;
        archived_at = zero_time;
      } in
      (ok repo, record w { files = files; store = add_repo repo w.store })

  -- behind `newUUID`
  create_under : CreateRepoInput → World Files → Result Bytes → Result RepoRecord × World Files
  unfolding create_initialised
  create_under input w (err e) = (err e, w)
  create_under input w (ok id) =
      create_initialised input id w (storage.init_bare_repo w.files id input.default_branch)

  create_new : CreateRepoInput → World Files → Result RepoRecord × World Files
  unfolding create_under
  create_new input w =
      create_under input (record w { reads = (draw w.reads).1 }) (new_uuid (draw w.reads).0)

  unfoldable pub create_repo : CreateRepoInput → World Files → Result RepoRecord × World Files
  unfolding create_new
  create_repo input w = elim (lookup (name_key input.namespace input.name) w.store.by_name) [
    | some id ↦ (ok (repo_or_zero (lookup id w.store.repos)), w)
    | none ↦ create_new input w
  ]

  module _ (sha256 : Bytes → Bytes) where
    unfoldable pub authorize_git_access :
        AuthorizeGitAccessInput
        → Time
        → Files
        → MemoryRepoStore
        → Result (GitAccessGrant × MemoryRepoStore)
    authorize_git_access input now files store = do
      repo ← or_fail (lookup input.repo_id store.repos) repo_not_found
      guard (is_zero repo.archived_at) repo_archived
      guard (not (input.token == [])) repo_token_invalid
      token_id ←
          or_fail (lookup (hash_repo_token sha256 input.token) store.token_ids_by_hash)
            repo_token_invalid
      let token = token_or_zero (lookup token_id store.tokens)
      guard (token.repo_id == repo.id) repo_token_invalid
      guard (is_zero token.revoked_at) repo_token_invalid
      guard (before now token.expires_at) repo_token_invalid
      guard (scope_allows_git_operation token.scope input.operation) repo_token_forbidden
      path ← storage.bare_repo_path files repo.id
      ok (
        record { repo_id = repo.id; repo_path = path; subject = token.subject },
        put_token (record token { last_used_at = now }) store,
      )

module _ (sha256 : Bytes → Bytes) where
  -- one round of the loop that draws a token whose hash is new; `again` is the next round
  draw_round : Dict Bytes Bytes → Result Bytes → Reads → Result Bytes × Reads → Result Bytes × Reads
  draw_round known (err e) rest again = (err e, rest)
  draw_round known (ok token) rest again =
      if is_some (lookup (hash_repo_token sha256 token) known) then again else (ok token, rest)

  -- the loop, on the reads that are left; it has no other bound, and their end is the model's
  unfoldable pub draw_token : Dict Bytes Bytes → Reads → Result Bytes × Reads
  unfolding draw_round
  draw_token known [] = (err rand_error, [])
  draw_token known (read ∷ rest) =
      let again = draw_token known rest in draw_round known (generate_repo_token read) rest again

  abbrev pub token_record :
      CreateRepoTokenInput → RepoRecord → Time → Bytes → Bytes → RepoTokenRecord
  token_record input repo now token token_id = record {
    id = token_id;
    repo_id = repo.id;
    repo_namespace = repo.namespace;
    repo_name = repo.name;
    token = token;
    token_hash = hash_repo_token sha256 token;
    scope = input.scope;
    subject = input.subject;
    expires_at = now +ℤ seconds input.ttl_seconds;
    created_at = now;
    revoked_at = zero_time;
    last_used_at = zero_time;
  }

  module _ {Files : Type 0} where
    -- behind `newUUID`
    create_token_under :
        CreateRepoTokenInput
        → RepoRecord
        → Time
        → Bytes
        → World Files
        → Result Bytes
        → Result RepoTokenRecord × World Files
    create_token_under input repo now token w (err e) = (err e, w)
    create_token_under input repo now token w (ok token_id) =
        let token_new = token_record input repo now token token_id in
        (ok token_new, record w { store = add_token token_new w.store })

    -- behind the loop
    create_token_for :
        CreateRepoTokenInput
        → RepoRecord
        → Time
        → World Files
        → Result Bytes × Reads
        → Result RepoTokenRecord × World Files
    unfolding create_token_under
    create_token_for input repo now w (err e, rest) = (err e, record w { reads = rest })
    create_token_for input repo now w (ok token, rest) =
        create_token_under input repo now token (record w { reads = (draw rest).1 })
          (new_uuid (draw rest).0)

    unfoldable pub create_repo_token :
        CreateRepoTokenInput → Time → World Files → Result RepoTokenRecord × World Files
    unfolding create_token_for
    create_repo_token input now w = elim (lookup input.repo_id w.store.repos) [
      | none ↦ (err repo_not_found, w)
      | some repo ↦ create_token_for input repo now w (draw_token w.store.token_ids_by_hash w.reads)
    ]
