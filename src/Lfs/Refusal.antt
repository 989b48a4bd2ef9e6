-- ===== src/Lfs/Refusal.antt =====
-- Requests to `gitLFSHandler` of internal/http/git_lfs.go that the authorizer refuses.
use gitrdone.Common.{
  ◌≤◌, ◌≡◌, refl, Bool, true, false, not, ◌&&◌, Option, none, some, [], ◌==◌, nat_eq, list_eq,
  arith, if◌then◌else◌,
}
use gitrdone.Common.Int.{ℤ}
use gitrdone.Http.{decode_json}
use gitrdone.Lfs.Handler.{
  lfs_access_input, serve_batch_of, serve_batch_decoded, serve_lfs_batch, serve_lfs_upload,
  serve_lfs_download, serve_lfs_locks_verify, lfs_route, git_lfs_handler, bad_request, granted,
}
use gitrdone.Lfs.Protocol.{
  LfsRequest, LfsResponse, LfsBatchRequest, LfsOperation, write_lfs_json, write_lfs_access_error,
  write_lfs_unauthorized, lfs_operation, git_operation_of,
}
use gitrdone.Lfs.Store.{LfsObjectStore, normalize_max_lfs_object_bytes}
use gitrdone.Ids.{parse_repo_control_id}
use gitrdone.Repository.{
  AuthorizeGitAccessInput, GitAccessGrant, GitOperation, git_operation_read, git_operation_write,
}
use gitrdone.Result.{
  Error, repository_not_implemented, repo_not_found, repo_archived, repo_token_invalid,
  repo_token_forbidden, repo_token_not_found, repo_storage_not_found, idempotency_conflict, other,
  Result, err,
}
use gitrdone.Text.{Bytes, codes, has_suffix}

pub access_error-status : (e : Error) → 400 ≤ (write_lfs_access_error e).status
unfolding write_lfs_access_error write_lfs_json write_lfs_unauthorized
access_error-status repo_not_found = omega arith
access_error-status repo_archived = omega arith
access_error-status repo_token_invalid = omega arith
access_error-status repo_token_forbidden = omega arith
access_error-status repo_storage_not_found = omega arith
access_error-status repository_not_implemented = omega arith
access_error-status repo_token_not_found = omega arith
access_error-status idempotency_conflict = omega arith
access_error-status (other m) = omega arith

-- an error, and neither the repos nor the disk changed
abbrev pub LfsRefused : {S Files : Type 0} → S → Files → LfsResponse × S × Files → Type 0
LfsRefused s files out = (400 ≤ out.0.status) × (out.1 ≡ s) × (out.2 ≡ files)

bad_request-LfsRefused :
    {S Files : Type 0} (s : S) (files : Files) (message : Bytes)
    → LfsRefused s files (bad_request message, s, files)
unfolding write_lfs_json
bad_request-LfsRefused s files message = (omega arith, refl, refl)

if-LfsRefused :
    {S Files : Type 0} (s : S) (files : Files) (b : Bool) (x y : LfsResponse × S × Files)
    → LfsRefused s files x
    → LfsRefused s files y
    → LfsRefused s files (if b then x else y)
if-LfsRefused s files true x y first second = first
if-LfsRefused s files false x y first second = second

module _ {S Files : Type 0} (authorize : AuthorizeGitAccessInput → S → Result (GitAccessGrant × S))
    (store : LfsObjectStore Files) (r : LfsRequest) (s : S) (files : Files)
    (refuses : (repo_id : Bytes) (operation : GitOperation)
      → (e : Error) × (authorize (lfs_access_input authorize store r repo_id operation) s
          ≡ err e)) where
  granted-LfsRefused :
      (serve : GitAccessGrant → LfsResponse × Files) (repo_id : Bytes) (operation : GitOperation)
      → LfsRefused s files (
          granted authorize store s files serve
            (authorize (lfs_access_input authorize store r repo_id operation) s))
  granted-LfsRefused serve repo_id operation =
      let refused = refuses repo_id operation in
      rw refused.1 (access_error-status refused.0, refl, refl)

  batch_of-LfsRefused :
      (repo_id : Bytes) (limit : ℤ) (request : LfsBatchRequest) (operation : Option LfsOperation)
      → LfsRefused s files
          (serve_batch_of authorize store r repo_id limit s files request operation)
  unfolding serve_batch_of
  batch_of-LfsRefused repo_id limit request none = bad_request-LfsRefused s files _
  batch_of-LfsRefused repo_id limit request (some operation) =
      granted-LfsRefused _ repo_id (git_operation_of operation)

  batch_decoded-LfsRefused :
      (repo_id : Bytes) (limit : ℤ) (request : Option LfsBatchRequest)
      → LfsRefused s files (serve_batch_decoded authorize store r repo_id limit s files request)
  unfolding serve_batch_decoded
  batch_decoded-LfsRefused repo_id limit none = bad_request-LfsRefused s files _
  batch_decoded-LfsRefused repo_id limit (some request) =
      batch_of-LfsRefused repo_id limit request (lfs_operation request.operation)

  route-LfsRefused :
      (limit : ℤ) (repo_id : Option Bytes)
      → LfsRefused s files (lfs_route authorize store r limit s files repo_id)
  unfolding lfs_route serve_lfs_batch serve_lfs_upload serve_lfs_download serve_lfs_locks_verify
  route-LfsRefused limit none = bad_request-LfsRefused s files _
  route-LfsRefused limit (some repo_id) =
      if-LfsRefused s files
        (r.git.method == codes "POST" && has_suffix r.path (codes "/info/lfs/objects/batch")) _ _
        (batch_decoded-LfsRefused repo_id limit (decode_json r.batch))
        (if-LfsRefused s files (r.git.method == codes "PUT" && not (r.oid == [])) _ _
          (granted-LfsRefused _ repo_id git_operation_write)
          (if-LfsRefused s files (r.git.method == codes "GET" && not (r.oid == [])) _ _
            (granted-LfsRefused _ repo_id git_operation_read)
            (if-LfsRefused s files
              (r.git.method == codes "POST" && has_suffix r.path (codes "/info/lfs/locks/verify")) _
              _ (granted-LfsRefused _ repo_id git_operation_write)
              (bad_request-LfsRefused s files _))))

  -- A request whose token the authorizer refuses, whatever it asks for, is answered with an error
  -- status on every route of the LFS handler, and leaves the repos and the stored objects as they were.
  pub git_lfs_handler-LfsRefused :
      (max_object_bytes : ℤ)
      → LfsRefused s files (git_lfs_handler authorize (some store) r max_object_bytes s files)
  unfolding git_lfs_handler
  git_lfs_handler-LfsRefused max_object_bytes =
      route-LfsRefused (normalize_max_lfs_object_bytes max_object_bytes)
        (parse_repo_control_id r.git.repo_id)
