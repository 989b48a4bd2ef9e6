-- ===== src/Lfs/Protocol.antt =====
-- The requests, responses and texts of internal/http/git_lfs.go.
use gitrdone.Common.{
  ℕ, ◌+◌, Bool, not, ◌&&◌, Option, none, some, List, [], ◌∷◌, ◌++◌, ◌||◌, map, all, leb, ◌==◌,
  nat_eq, list_eq, if◌then◌else◌, length,
}
use gitrdone.Common.Int.{ℤ}
use gitrdone.Git.{GitRequest}
use gitrdone.Http.{Headers, JsonBody}
use gitrdone.Ids.{is_lower_hex_digit}
use gitrdone.Lfs.Store.{Reader}
use gitrdone.Repository.{GitOperation, git_operation_read, git_operation_write}
use gitrdone.Result.{
  Error, repo_not_found, repo_archived, repo_token_invalid, repo_token_forbidden,
  repo_storage_not_found,
}
use gitrdone.Text.{Bytes, codes, cut, trim_space}

pub record LfsObjectRequest : Type 0 where
  pub oid : Bytes
  pub size : ℤ

pub record LfsBatchRequest : Type 0 where
  pub operation : Bytes
  pub transfers : List Bytes
  pub objects : List LfsObjectRequest

-- the entry of `Actions`: its name and its href
pub record LfsAction : Type 0 where
  pub name : Bytes
  pub href : Bytes

pub record LfsObjectError : Type 0 where
  pub code : ℕ
  pub message : Bytes

pub record LfsObjectResponse : Type 0 where
  pub oid : Bytes
  pub size : ℤ
  pub actions : Option LfsAction
  pub error : Option LfsObjectError

pub data LfsBody : Type 0 where
  no_body : LfsBody
  error_json : Bytes → LfsBody
  -- `lfsBatchResponse`, with the transfer "basic"
  batch : List LfsObjectResponse → LfsBody
  -- `lfsLocksVerifyResponse`, with two empty lists
  no_locks : LfsBody
  -- the Content-Length and the bytes of an object
  object : ℤ → Bytes → LfsBody

pub record LfsResponse : Type 0 where
  pub status : ℕ
  pub headers : Headers
  pub body : LfsBody

-- What the handler reads of a request beside what the other Git handlers do; `batch` is its body where
-- JSON is read from it.
pub record LfsRequest : Type 0 where
  pub git : GitRequest
  pub path : Bytes
  pub oid : Bytes
  pub tls : Bool
  pub forwarded_proto : Bytes
  pub host : Bytes
  pub content_length : ℤ
  pub body : Reader
  pub batch : JsonBody LfsBatchRequest

-- `writeLFSJSON`
unfoldable pub write_lfs_json : ℕ → LfsBody → LfsResponse
write_lfs_json status body = record {
  status = status;
  headers = (codes "Content-Type", codes "application/vnd.git-lfs+json") ∷ [];
  body = body;
}

-- `writeLFSUnauthorized`
unfoldable pub write_lfs_unauthorized : LfsResponse
unfolding write_lfs_json
write_lfs_unauthorized = record (write_lfs_json 401 (error_json (codes "repo token is required"))) {
  headers =
      (codes "Content-Type", codes "application/vnd.git-lfs+json")
      ∷ (codes "WWW-Authenticate", codes "Basic realm=\"gitrdone\"")
      ∷ [];
}

abbrev pub internal_server_error : LfsResponse
internal_server_error = write_lfs_json 500 (error_json (codes "Internal Server Error"))

-- `writeLFSAccessError`
unfoldable pub write_lfs_access_error : Error → LfsResponse
unfolding write_lfs_unauthorized
write_lfs_access_error repo_not_found = write_lfs_unauthorized
write_lfs_access_error repo_archived = write_lfs_unauthorized
write_lfs_access_error repo_token_invalid = write_lfs_unauthorized
write_lfs_access_error repo_token_forbidden =
    write_lfs_json 403 (error_json (codes "repo token cannot perform this git lfs operation"))
write_lfs_access_error repo_storage_not_found =
    write_lfs_json 500 (error_json (codes "repo storage is unavailable"))
write_lfs_access_error _ = internal_server_error

-- `strings.ToLower` on ASCII; no other character becomes a hex digit
abbrev lower : ℕ → ℕ
lower c = if leb b'A' c && leb c b'Z' then c + 32 else c

abbrev pub sha256_hex_length : ℕ
sha256_hex_length = 64

-- `parseLFSOID`
unfoldable pub parse_lfs_oid : Bytes → Option Bytes
parse_lfs_oid text =
    let value = map lower (trim_space text) in
    if not (length value == sha256_hex_length)
    then none
    else if all is_lower_hex_digit value
    then some value
    else none

-- what `strings.Cut` gives before the separator
abbrev before_cut : Bytes → Option (Bytes × Bytes) → Bytes
before_cut s none = s
before_cut s (some (before, after)) = before

-- `lfsObjectURL`
unfoldable pub lfs_object_url : LfsRequest → Bytes → Bytes
lfs_object_url r oid =
    let forwarded = trim_space r.forwarded_proto in
    let scheme =
      if forwarded == codes "http" || forwarded == codes "https"
      then forwarded
      else if r.tls
      then codes "https"
      else codes "http" in
    scheme
    ++ (codes "://"
        ++ (r.host
            ++ (before_cut r.path (cut r.path (codes "/info/lfs/"))
                ++ (codes "/info/lfs/objects/" ++ oid))))

-- the operation of a batch
pub data LfsOperation : Type 0 where
  download upload : LfsOperation

unfoldable pub lfs_operation : Bytes → Option LfsOperation
lfs_operation operation =
    if operation == codes "download"
    then some download
    else if operation == codes "upload"
    then some upload
    else none

abbrev pub git_operation_of : LfsOperation → GitOperation
git_operation_of download = git_operation_read
git_operation_of upload = git_operation_write
