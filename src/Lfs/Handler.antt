-- ===== src/Lfs/Handler.antt =====
-- `gitLFSHandler` of internal/http/git_lfs.go. The authorizer and the object store are parameters.
use mathlib.Core.List.{reverse}
use gitrdone.Common.{
  Bool, true, false, not, ◌&&◌, Option, none, some, List, [], ◌∷◌, ltb, ◌==◌, nat_eq, list_eq,
  if◌then◌else◌, length, take,
}
use gitrdone.Common.Int.{ℤ, pos, pos_part, ltb_ℤ}
use gitrdone.Git.{git_token_from_request}
use gitrdone.Http.{decode_json}
use gitrdone.Ids.{parse_repo_control_id}
use gitrdone.Lfs.Protocol.{
  LfsRequest, LfsResponse, LfsObjectRequest, LfsObjectResponse, LfsBatchRequest, LfsOperation,
  download, upload, no_body, error_json, batch, no_locks, object, write_lfs_json,
  write_lfs_access_error, internal_server_error, parse_lfs_oid, lfs_object_url, lfs_operation,
  git_operation_of,
}
use gitrdone.Lfs.Store.{
  LfsError, lfs_object_not_found, lfs_object_invalid, lfs_object_too_large, max_bytes, other_error,
  LfsResult, done, failed, LfsStoredObject, LfsObjectStore, Reader, normalize_max_lfs_object_bytes,
}
use gitrdone.Repository.{
  AuthorizeGitAccessInput, GitAccessGrant, GitOperation, git_operation_read, git_operation_write,
}
use gitrdone.Result.{Result, ok, err}
use gitrdone.Text.{Bytes, codes, has_suffix}

abbrev pub bad_request : Bytes → LfsResponse
bad_request message = write_lfs_json 400 (error_json message)

abbrev pub too_large : LfsResponse
too_large = write_lfs_json 413 (error_json (codes "git lfs object is too large"))

-- `http.MaxBytesReader`: an error where there are more than `n` bytes
unfoldable pub max_bytes_reader : ℤ → Reader → Reader
max_bytes_reader n r =
    if ltb (pos_part n) (length r.bytes)
    then record { bytes = take (pos_part n) r.bytes; failure = some max_bytes }
    else r

-- the answer to an error of `Put`
unfoldable pub write_put_error : LfsError → LfsResponse
write_put_error max_bytes = too_large
write_put_error lfs_object_too_large = too_large
write_put_error lfs_object_invalid =
    write_lfs_json 422 (error_json (codes "git lfs object does not match oid or size"))
write_put_error lfs_object_not_found = internal_server_error
write_put_error (other_error e) = internal_server_error

-- the answer to `Open`
unfoldable pub write_opened : LfsResult LfsStoredObject → LfsResponse
write_opened (failed lfs_object_not_found) =
    write_lfs_json 404 (error_json (codes "git lfs object was not found"))
write_opened (failed _) = internal_server_error
write_opened (done stored) = record {
  status = 200;
  headers = (codes "Content-Type", codes "application/octet-stream") ∷ [];
  body = object stored.size stored.body;
}

abbrev plain : Bytes → ℤ → LfsObjectResponse
plain oid size = record { oid = oid; size = size; actions = none; error = none }

-- One object of a batch: its response, or the answer to the whole request.
pub data ObjectAnswer : Type 0 where
  respond : LfsObjectResponse → ObjectAnswer
  stop : LfsResponse → ObjectAnswer

abbrev upload_answer : Bytes → ℤ → Bytes → LfsResult Bool → ObjectAnswer
upload_answer oid size href (failed e) = stop internal_server_error
upload_answer oid size href (done true) = respond (plain oid size)
upload_answer oid size href (done false) =
    respond
      (record (plain oid size) { actions = some (record { name = codes "upload"; href = href }) })

abbrev download_answer : Bytes → ℤ → Bytes → LfsResult Bool → ObjectAnswer
download_answer oid size href (failed e) = stop internal_server_error
download_answer oid size href (done true) =
    respond
      (record (plain oid size) { actions = some (record { name = codes "download"; href = href }) })
download_answer oid size href (done false) = respond (record (plain oid size) {
  error = some (record { code = 404; message = codes "object not found" });
})

abbrev no_object : ObjectAnswer
no_object = stop (bad_request (codes "git lfs object is invalid"))

module _ {S Files : Type 0} (authorize : AuthorizeGitAccessInput → S → Result (GitAccessGrant × S))
    (store : LfsObjectStore Files) where
  -- behind `parseLFSOID`
  object_answer_at :
      LfsRequest → GitAccessGrant → ℤ → LfsOperation → ℤ → Files → Option Bytes → ObjectAnswer
  object_answer_at r grant limit operation size files none = no_object
  object_answer_at r grant limit upload size files (some oid) =
      if ltb_ℤ size (pos 0)
      then no_object
      else if ltb_ℤ limit size
      then respond (record (plain oid size) {
        error = some (record { code = 413; message = codes "object is too large" });
      })
      else upload_answer oid size (lfs_object_url r oid) (store.exists grant.repo_id oid size files)
  object_answer_at r grant limit download size files (some oid) =
      if ltb_ℤ size (pos 0)
      then no_object
      else download_answer oid size (lfs_object_url r oid)
          (store.exists grant.repo_id oid size files)

  unfoldable pub object_answer :
      LfsRequest → GitAccessGrant → ℤ → LfsOperation → Files → LfsObjectRequest → ObjectAnswer
  unfolding object_answer_at
  object_answer r grant limit operation files requested =
      object_answer_at r grant limit operation requested.size files (parse_lfs_oid requested.oid)

  -- the loop over the objects, with those that were answered, the last one first
  append_answer :
      (List LfsObjectResponse → LfsResponse) → List LfsObjectResponse → ObjectAnswer → LfsResponse
  append_answer rest objects (respond answer) = rest (answer ∷ objects)
  append_answer rest objects (stop response) = response

  unfoldable pub batch_objects :
      (LfsObjectRequest → ObjectAnswer)
      → List LfsObjectRequest
      → List LfsObjectResponse
      → LfsResponse
  unfolding append_answer
  batch_objects answer [] objects = write_lfs_json 200 (batch (reverse objects))
  batch_objects answer (requested ∷ later) objects =
      append_answer (batch_objects answer later) objects (answer requested)

  -- `authorizeLFSAccess`
  abbrev pub lfs_access_input : LfsRequest → Bytes → GitOperation → AuthorizeGitAccessInput
  lfs_access_input r repo_id operation = record {
    repo_id = repo_id;
    token = git_token_from_request r.git;
    operation = operation;
  }

  abbrev pub authorize_lfs_access :
      LfsRequest → Bytes → GitOperation → S → Result (GitAccessGrant × S)
  authorize_lfs_access r repo_id operation s = authorize (lfs_access_input r repo_id operation) s

  -- the answer where access is refused, and what follows the grant
  abbrev pub granted :
      S
      → Files
      → (GitAccessGrant → LfsResponse × Files)
      → Result (GitAccessGrant × S)
      → LfsResponse × S × Files
  granted s files serve (err e) = (write_lfs_access_error e, s, files)
  granted s files serve (ok (grant, after)) = ((serve grant).0, after, (serve grant).1)

  unfoldable pub serve_batch_of :
      LfsRequest
      → Bytes
      → ℤ
      → S
      → Files
      → LfsBatchRequest
      → Option LfsOperation
      → LfsResponse × S × Files
  serve_batch_of r repo_id limit s files request none =
      (bad_request (codes "git lfs operation is invalid"), s, files)
  serve_batch_of r repo_id limit s files request (some operation) =
      granted s files
        (λ grant.
          (batch_objects (object_answer r grant limit operation files) request.objects [], files))
        (authorize_lfs_access r repo_id (git_operation_of operation) s)

  unfoldable pub serve_batch_decoded :
      LfsRequest → Bytes → ℤ → S → Files → Option LfsBatchRequest → LfsResponse × S × Files
  unfolding serve_batch_of
  serve_batch_decoded r repo_id limit s files none =
      (bad_request (codes "request body must be valid JSON for git lfs batch"), s, files)
  serve_batch_decoded r repo_id limit s files (some request) =
      serve_batch_of r repo_id limit s files request (lfs_operation request.operation)

  -- `serveLFSBatch`
  unfoldable pub serve_lfs_batch : LfsRequest → Bytes → ℤ → S → Files → LfsResponse × S × Files
  unfolding serve_batch_decoded
  serve_lfs_batch r repo_id limit s files =
      serve_batch_decoded r repo_id limit s files (decode_json r.batch)

  abbrev pub put_answer : LfsResult (Unit {0}) × Files → LfsResponse × Files
  put_answer (failed e, files) = (write_put_error e, files)
  put_answer (done u, files) = (record { status = 200; headers = []; body = no_body }, files)

  -- behind `parseLFSOID`
  unfoldable pub upload_at :
      LfsRequest → ℤ → Files → GitAccessGrant → Option Bytes → LfsResponse × Files
  upload_at r limit files grant none = (bad_request (codes "git lfs object id is invalid"), files)
  upload_at r limit files grant (some oid) =
      if ltb_ℤ r.content_length (pos 0)
      then (write_lfs_json 411 (error_json (codes "git lfs object size is required")), files)
      else if ltb_ℤ limit r.content_length
      then (too_large, files)
      else put_answer
          (store.put grant.repo_id oid r.content_length limit (max_bytes_reader limit r.body) files)

  -- `serveLFSUpload`
  unfoldable pub serve_lfs_upload : LfsRequest → Bytes → ℤ → S → Files → LfsResponse × S × Files
  unfolding upload_at
  serve_lfs_upload r repo_id limit s files =
      granted s files (λ grant. upload_at r limit files grant (parse_lfs_oid r.oid))
        (authorize_lfs_access r repo_id git_operation_write s)

  -- behind `parseLFSOID`
  abbrev download_at : Files → GitAccessGrant → Option Bytes → LfsResponse × Files
  download_at files grant none = (bad_request (codes "git lfs object id is invalid"), files)
  download_at files grant (some oid) =
      (write_opened (store.open_object grant.repo_id oid files), files)

  -- `serveLFSDownload`
  unfoldable pub serve_lfs_download : LfsRequest → Bytes → S → Files → LfsResponse × S × Files
  serve_lfs_download r repo_id s files =
      granted s files (λ grant. download_at files grant (parse_lfs_oid r.oid))
        (authorize_lfs_access r repo_id git_operation_read s)

  -- `serveLFSLocksVerify`
  unfoldable pub serve_lfs_locks_verify : LfsRequest → Bytes → S → Files → LfsResponse × S × Files
  serve_lfs_locks_verify r repo_id s files =
      granted s files (λ grant. (write_lfs_json 200 no_locks, files))
        (authorize_lfs_access r repo_id git_operation_write s)

  -- behind `parseRepoControlID`
  unfoldable pub lfs_route : LfsRequest → ℤ → S → Files → Option Bytes → LfsResponse × S × Files
  lfs_route r limit s files none = (bad_request (codes "repo id is invalid"), s, files)
  lfs_route r limit s files (some repo_id) =
      if r.git.method == codes "POST" && has_suffix r.path (codes "/info/lfs/objects/batch")
      then serve_lfs_batch r repo_id limit s files
      else if r.git.method == codes "PUT" && not (r.oid == [])
      then serve_lfs_upload r repo_id limit s files
      else if r.git.method == codes "GET" && not (r.oid == [])
      then serve_lfs_download r repo_id s files
      else if r.git.method == codes "POST" && has_suffix r.path (codes "/info/lfs/locks/verify")
      then serve_lfs_locks_verify r repo_id s files
      else (bad_request (codes "git lfs route is invalid"), s, files)

-- without a store, behind `parseRepoControlID`
unimplemented : Option Bytes → LfsResponse
unimplemented none = bad_request (codes "repo id is invalid")
unimplemented (some repo_id) =
    write_lfs_json 501 (error_json (codes "git lfs backend is not implemented"))

-- `gitLFSHandler`
unfoldable pub git_lfs_handler :
    {S Files : Type 0}
    → (AuthorizeGitAccessInput → S → Result (GitAccessGrant × S))
    → Option (LfsObjectStore Files)
    → LfsRequest
    → ℤ
    → S
    → Files
    → LfsResponse × S × Files
unfolding lfs_route unimplemented
git_lfs_handler authorize none r max_object_bytes s files =
    (unimplemented (parse_repo_control_id r.git.repo_id), s, files)
git_lfs_handler authorize (some store) r max_object_bytes s files =
    lfs_route authorize store r (normalize_max_lfs_object_bytes max_object_bytes) s files
      (parse_repo_control_id r.git.repo_id)
