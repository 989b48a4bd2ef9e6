-- ===== src/Control/Repos.antt =====
-- internal/http/repos.go: the handlers that create, show and archive a repo.
pub mod Creation
pub mod Showing
use gitrdone.Common.{
  Bool, true, false, not, Option, none, some, [], ◌∷◌, ◌++◌, ◌==◌, nat_eq, list_eq, if◌then◌else◌,
}
use gitrdone.Control.{
  Check, accept, reject, ◌>>=◌, ◌>>◌, ensure, ensure_no_error, or_reject, repo_id_from_path,
  repo_git_url,
}
use gitrdone.Http.{JsonBody, decode_json, Response, json, write_json, write_error}
use gitrdone.Ids.{format_repo_control_id}
use gitrdone.Repository.{CreateRepoInput, RepoRecord}
use gitrdone.Result.{Result, ok, err}
use gitrdone.Text.{Bytes, codes, trim_space}
use gitrdone.Time.{Time}
use gitrdone.Validation.{validate_repo_slug, validate_default_branch}

pub record CreateRepoRequest : Type 0 where
  pub namespace : Bytes
  pub name : Bytes
  pub default_branch : Bytes

pub record CreateRepoResponse : Type 0 where
  pub id : Bytes
  pub repo : Bytes
  pub git_url : Bytes
  pub default_branch : Bytes

pub record GetRepoResponse : Type 0 where
  pub id : Bytes
  pub repo : Bytes
  pub git_url : Bytes
  pub archived : Bool

pub record ArchiveRepoResponse : Type 0 where
  pub id : Bytes
  pub repo : Bytes
  pub archived : Bool
  pub archived_at : Bytes

-- `request.DefaultBranch == ""` after trimming
default_to_main : Bytes → Bytes
default_to_main branch = if branch == [] then codes "main" else branch

check_named : Bytes → Bytes → Bytes → Check CreateRepoInput
check_named namespace name default_branch = do
  ensure (not (namespace == [])) 400 (codes "namespace is required")
  ensure_no_error (validate_repo_slug (codes "namespace") namespace) 400
  ensure (not (name == [])) 400 (codes "name is required")
  ensure_no_error (validate_repo_slug (codes "name") name) 400
  ensure_no_error (validate_default_branch default_branch) 400
  accept (record { namespace = namespace; name = name; default_branch = default_branch })

-- everything in front of `CreateRepo`
unfoldable pub check_create_repo : JsonBody CreateRepoRequest → Check CreateRepoInput
unfolding default_to_main check_named
check_create_repo body = do
  request ←
      or_reject (decode_json body) 400 (codes "request body must be valid JSON for create repo")
  check_named (trim_space request.namespace) (trim_space request.name)
      (default_to_main (trim_space request.default_branch))

unfoldable pub repo_full_name : RepoRecord → Bytes
repo_full_name repo = repo.namespace ++ (codes "/" ++ repo.name)

module _ (base_url : Bytes) where
  write_created : {S : Type 0} → Result RepoRecord × S → Response CreateRepoResponse × S
  write_created (err e, state) = (write_error 500 (codes "repo could not be created"), state)
  write_created (ok repo, state) = (
    write_json 201 (
        json (record {
          id = format_repo_control_id repo.id;
          repo = repo_full_name repo;
          git_url = repo_git_url base_url repo.id;
          default_branch = repo.default_branch;
        })),
    state,
  )

  create_checked :
      {S : Type 0}
      → (CreateRepoInput → S → Result RepoRecord × S)
      → S
      → Check CreateRepoInput
      → Response CreateRepoResponse × S
  unfolding write_created
  create_checked create state (reject status message) = (write_error status message, state)
  create_checked create state (accept input) = write_created (create input state)

  -- `createRepoHandler`
  unfoldable pub create_repo_handler :
      {S : Type 0}
      → (CreateRepoInput → S → Result RepoRecord × S)
      → JsonBody CreateRepoRequest
      → S
      → Response CreateRepoResponse × S
  unfolding create_checked
  create_repo_handler create body state = create_checked create state (check_create_repo body)

  write_got : Result RepoRecord → Response GetRepoResponse
  write_got (err e) = write_error 500 (codes "repo could not be loaded")
  write_got (ok repo) = write_json 200 (
      json (record {
        id = format_repo_control_id repo.id;
        repo = repo_full_name repo;
        git_url = repo_git_url base_url repo.id;
        archived = false;
      }))

  get_checked :
      {S : Type 0} → (Bytes → S → Result RepoRecord) → S → Check Bytes → Response GetRepoResponse
  unfolding write_got
  get_checked get state (reject status message) = write_error status message
  get_checked get state (accept repo_id) = write_got (get repo_id state)

  -- `getRepoHandler`
  unfoldable pub get_repo_handler :
      {S : Type 0} → (Bytes → S → Result RepoRecord) → Bytes → S → Response GetRepoResponse
  unfolding get_checked
  get_repo_handler get path_value state = get_checked get state (repo_id_from_path path_value)

module _ (format_time : Time → Bytes) where
  write_archived : {S : Type 0} → S → Result (RepoRecord × S) → Response ArchiveRepoResponse × S
  write_archived state (err e) = (write_error 500 (codes "repo could not be archived"), state)
  write_archived state (ok (repo, after)) = (
    write_json 200 (
        json (record {
          id = format_repo_control_id repo.id;
          repo = repo_full_name repo;
          archived = true;
          archived_at = format_time repo.archived_at;
        })),
    after,
  )

  archive_checked :
      {S : Type 0}
      → (Bytes → S → Result (RepoRecord × S))
      → S
      → Check Bytes
      → Response ArchiveRepoResponse × S
  unfolding write_archived
  archive_checked archive state (reject status message) = (write_error status message, state)
  archive_checked archive state (accept repo_id) = write_archived state (archive repo_id state)

  -- `archiveRepoHandler`
  unfoldable pub archive_repo_handler :
      {S : Type 0}
      → (Bytes → S → Result (RepoRecord × S))
      → Bytes
      → S
      → Response ArchiveRepoResponse × S
  unfolding archive_checked
  archive_repo_handler archive path_value state =
      archive_checked archive state (repo_id_from_path path_value)
