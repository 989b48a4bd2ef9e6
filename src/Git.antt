-- ===== src/Git.antt =====
-- The Git routes that a repo token opens (internal/http/git.go): the operation that a request asks
-- for, the token it presents, and the handler in front of the backend. The authorizer and the
-- backend are parameters; a backend writes to the response, and may return an error after it wrote.
pub mod Output
pub mod Routes
pub mod Access
pub mod Revisions
pub mod Buffer
pub mod Storage
use gitrdone.Common.{
  ℕ, Bool, true, false, not, Option, none, some, [], ◌∷◌, ◌==◌, nat_eq, list_eq, if◌then◌else◌,
}
use gitrdone.Git.Output.{Writer, set_header, http_error}
use gitrdone.Ids.{parse_repo_control_id}
use gitrdone.Repository.{
  AuthorizeGitAccessInput, GitAccessGrant, GitOperation, git_operation_read, git_operation_write,
}
use gitrdone.Result.{
  Error, repo_not_found, repo_archived, repo_token_invalid, repo_token_forbidden,
  repo_storage_not_found, Result, ok, err,
}
use gitrdone.Text.{Bytes, codes, cut_prefix, trim_space}

-- What the handlers read of a request; `basic_auth` is what `r.BasicAuth` returns.
pub record GitRequest : Type 0 where
  pub repo_id : Bytes
  pub git_path : Bytes
  pub spec : Bytes
  pub method : Bytes
  pub service : Bytes
  pub basic_auth : Option (Bytes × Bytes)
  pub authorization : Bytes

unfoldable pub git_operation_from_service : Bytes → Option GitOperation
git_operation_from_service service =
    if service == codes "git-upload-pack"
    then some git_operation_read
    else if service == codes "git-receive-pack"
    then some git_operation_write
    else none

unfoldable pub git_operation_from_request : GitRequest → Option GitOperation
unfolding git_operation_from_service
git_operation_from_request r =
    if r.git_path == codes "info/refs"
    then (if not (r.method == codes "GET") then none else git_operation_from_service r.service)
    else if r.git_path == codes "git-upload-pack"
    then (if not (r.method == codes "POST") then none else some git_operation_read)
    else if r.git_path == codes "git-receive-pack"
    then (if not (r.method == codes "POST") then none else some git_operation_write)
    else none

bearer_token : Option Bytes → Bytes
bearer_token none = []
bearer_token (some token) = trim_space token

token_of_credentials : Option (Bytes × Bytes) → Option Bytes → Bytes
unfolding bearer_token
token_of_credentials (some (username, password)) bearer =
    if not (password == []) then password else username
token_of_credentials none bearer = bearer_token bearer

unfoldable pub git_token_from_request : GitRequest → Bytes
unfolding token_of_credentials
git_token_from_request r =
    token_of_credentials r.basic_auth (cut_prefix r.authorization (codes "Bearer "))

unfoldable pub write_git_unauthorized : Writer → Writer
write_git_unauthorized w =
    http_error (codes "repo token is required") 401
      (set_header (codes "WWW-Authenticate") (codes "Basic realm=\"gitrdone\"") w)

unfoldable pub write_git_access_error : Error → Writer → Writer
unfolding write_git_unauthorized
write_git_access_error repo_not_found w = write_git_unauthorized w
write_git_access_error repo_archived w = write_git_unauthorized w
write_git_access_error repo_token_invalid w = write_git_unauthorized w
write_git_access_error repo_token_forbidden w =
    http_error (codes "repo token cannot perform this git operation") 403 w
write_git_access_error repo_storage_not_found w =
    http_error (codes "repo storage is unavailable") 500 w
write_git_access_error _ w = http_error (codes "Internal Server Error") 500 w

-- `http.StatusText(http.StatusInternalServerError)`
abbrev pub internal_error : Error → Writer → Writer
internal_error e w = http_error (codes "Internal Server Error") 500 w

abbrev pub access_input : GitRequest → Bytes → GitOperation → AuthorizeGitAccessInput
access_input r repo_id operation = record {
  repo_id = repo_id;
  token = git_token_from_request r;
  operation = operation;
}

-- A backend returns the response so far and its error, if it has one.
abbrev pub Backend : Type 0 → Type 0
Backend S = GitAccessGrant → Writer → S → Option Error × Writer × S

abbrev pub after_serve :
    {S : Type 0} → (Error → Writer → Writer) → Option Error × Writer × S → Writer × S
after_serve on_error (none, w, s) = (w, s)
after_serve on_error (some e, w, s) = (on_error e w, s)

module _ {S : Type 0} (authorize : AuthorizeGitAccessInput → S → Result (GitAccessGrant × S)) where
  -- the answer to the authorizer, and then to the backend
  serve_granted :
      (Error → Writer → Writer) → Backend S → Writer → S → Result (GitAccessGrant × S) → Writer × S
  serve_granted on_error backend w s (err e) = (write_git_access_error e w, s)
  serve_granted on_error backend w s (ok (grant, after)) =
      after_serve on_error (backend grant w after)

  -- The lines that the three handlers share: the repo id, then the target (an operation, or what to
  -- read) or `refusal`, then the authorizer, then the backend.
  git_handler :
      {T : Type 0}
      → Bytes
      → (T → GitOperation)
      → (Error → Writer → Writer)
      → (T → Backend S)
      → GitRequest
      → Writer
      → S
      → Option Bytes
      → Option T
      → Writer × S
  unfolding serve_granted
  git_handler refusal operation on_error backend r w s none target =
      (http_error (codes "repo id is invalid") 400 w, s)
  git_handler refusal operation on_error backend r w s (some repo_id) none =
      (http_error refusal 400 w, s)
  git_handler refusal operation on_error backend r w s (some repo_id) (some target) =
      serve_granted on_error (backend target) w s
        (authorize (access_input r repo_id (operation target)) s)

  -- `gitSmartHTTPHandler`
  unfoldable pub git_smart_http_handler : Backend S → GitRequest → Writer → S → Writer × S
  unfolding git_handler
  git_smart_http_handler backend r w s =
      git_handler (codes "git route is invalid") (λ operation. operation) internal_error
        (λ operation. backend) r w s (parse_repo_control_id r.repo_id)
        (git_operation_from_request r)
