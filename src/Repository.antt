-- ===== src/Repository.antt =====
-- The records, inputs and interfaces of internal/http/repository.go, and what a scope allows.
use gitrdone.Common.{Bool, false, ◌||◌, Option, none, [], ◌==◌, nat_eq, list_eq, if◌then◌else◌}
use gitrdone.Common.Int.{ℤ}
use gitrdone.Result.{Error, repo_storage_not_found, Result, err}
use gitrdone.Text.{Bytes, codes}
use gitrdone.Time.{Time, zero_time}

pub record CreateRepoInput : Type 0 where
  pub namespace : Bytes
  pub name : Bytes
  pub default_branch : Bytes

pub record CreateRepoTokenInput : Type 0 where
  pub repo_id : Bytes
  pub scope : Bytes
  pub subject : Bytes
  pub ttl_seconds : ℤ

pub record RevokeRepoTokenInput : Type 0 where
  pub repo_id : Bytes
  pub token_id : Bytes

abbrev pub GitOperation : Type 0
GitOperation = Bytes

abbrev pub git_operation_read : GitOperation
git_operation_read = codes "read"

abbrev pub git_operation_write : GitOperation
git_operation_write = codes "write"

pub record AuthorizeGitAccessInput : Type 0 where
  pub repo_id : Bytes
  pub token : Bytes
  pub operation : GitOperation

pub record GitAccessGrant : Type 0 where
  pub repo_id : Bytes
  pub repo_path : Bytes
  pub subject : Bytes

pub record RepoRecord : Type 0 where
  pub id : Bytes
  pub namespace : Bytes
  pub name : Bytes
  pub default_branch : Bytes
  pub archived_at : Time

pub record RepoTokenRecord : Type 0 where
  pub id : Bytes
  pub repo_id : Bytes
  pub repo_namespace : Bytes
  pub repo_name : Bytes
  pub token : Bytes
  pub token_hash : Bytes
  pub scope : Bytes
  pub subject : Bytes
  pub expires_at : Time
  pub created_at : Time
  pub revoked_at : Time
  pub last_used_at : Time

-- `repoRecord{}`
abbrev pub zero_repo : RepoRecord
zero_repo = record {
  id = [];
  namespace = [];
  name = [];
  default_branch = [];
  archived_at = zero_time;
}

-- `repoTokenRecord{}`
abbrev pub zero_token : RepoTokenRecord
zero_token = record {
  id = [];
  repo_id = [];
  repo_namespace = [];
  repo_name = [];
  token = [];
  token_hash = [];
  scope = [];
  subject = [];
  expires_at = zero_time;
  created_at = zero_time;
  revoked_at = zero_time;
  last_used_at = zero_time;
}

unfoldable pub scope_allows_git_operation : Bytes → GitOperation → Bool
scope_allows_git_operation scope operation =
    if operation == git_operation_read
    then scope == codes "read" || scope == codes "readwrite"
    else if operation == git_operation_write
    then scope == codes "write" || scope == codes "readwrite"
    else false

-- `repoGitStorage`, over the state of the disk (internal/http/git_storage.go).
pub record GitStorage (Files : Type 0) : Type 0 where
  pub init_bare_repo : Files → Bytes → Bytes → Files × Option Error
  pub delete_bare_repo : Files → Bytes → Files × Option Error
  pub bare_repo_path : Files → Bytes → Result Bytes

-- `noopRepoGitStorage`
abbrev pub noop_repo_git_storage : {Files : Type 0} → GitStorage Files
noop_repo_git_storage = record {
  init_bare_repo = λ files id branch. (files, none);
  delete_bare_repo = λ files id. (files, none);
  bare_repo_path = λ files id. err repo_storage_not_found;
}
