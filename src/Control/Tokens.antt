-- ===== src/Control/Tokens.antt =====
-- internal/http/tokens.go: the three handlers of repo tokens. The token store, the JSON encoding of
-- the hashed request and the format of times are parameters.
pub mod Creation
pub mod Responses
use gitrdone.Common.{
  ℕ, ◌*◌, Bool, true, false, not, ◌||◌, Option, none, some, List, [], ◌∷◌, ◌++◌, map, ◌==◌, nat_eq,
  list_eq, if◌then◌else◌,
}
use gitrdone.Common.Int.{ℤ, pos, ltb_ℤ}
use gitrdone.Control.{
  Check, accept, reject, ◌>>=◌, ◌>>◌, ensure, ensure_no_error, or_reject, repo_id_from_path,
  repo_git_url,
}
use gitrdone.Http.{JsonBody, decode_json, Response, json, write_json, write_error}
use gitrdone.Idempotency.{IdempotencyInput, IdempotencyResult, Records, do_once}
use gitrdone.Ids.{format_repo_control_id, format_repo_token_control_id, parse_repo_token_control_id}
use gitrdone.Repository.{CreateRepoTokenInput, RevokeRepoTokenInput, RepoTokenRecord}
use gitrdone.Result.{
  Error, repo_not_found, repo_token_not_found, idempotency_conflict, Result, ok, err,
}
use gitrdone.Secrets.{hex_encode}
use gitrdone.Text.{Bytes, codes, trim_space}
use gitrdone.Time.{Time, is_zero}
use gitrdone.Validation.{validate_token_subject}

abbrev pub max_repo_token_ttl_seconds : ℕ
max_repo_token_ttl_seconds = 7 * 24 * 60 * 60

pub record CreateRepoTokenRequest : Type 0 where
  pub scope : Bytes
  pub ttl_seconds : ℤ
  pub subject : Bytes

pub record CreateRepoTokenResponse : Type 0 where
  pub id : Bytes
  pub token : Bytes
  pub expires_at : Bytes
  pub git_url : Bytes
  pub scope : Bytes
  pub subject : Bytes

pub record RepoTokenMetadataResponse : Type 0 where
  pub id : Bytes
  pub scope : Bytes
  pub subject : Bytes
  pub created_at : Bytes
  pub expires_at : Bytes
  pub revoked_at : Option Bytes
  pub last_used_at : Option Bytes

-- `listRepoTokensResponse`
abbrev pub ListRepoTokensResponse : Type 0
ListRepoTokensResponse = List RepoTokenMetadataResponse

unfoldable pub is_repo_token_scope : Bytes → Bool
is_repo_token_scope scope =
    scope == codes "read" || scope == codes "write" || scope == codes "readwrite"

-- The request as `createRepoTokenHandler` reads it.
pub record TokenRequest : Type 0 where
  pub repo_id : Bytes
  pub body : JsonBody CreateRepoTokenRequest
  pub idempotency_key : Bytes
  pub context : Option Error

trimmed_request : CreateRepoTokenRequest → CreateRepoTokenRequest
trimmed_request request = record request {
  scope = trim_space request.scope;
  subject = trim_space request.subject;
}

check_request : Bytes → CreateRepoTokenRequest → Check (Bytes × CreateRepoTokenRequest)
check_request repo_id request = do
  ensure (is_repo_token_scope request.scope) 400 (codes "scope must be read, write, or readwrite")
  ensure (not (request.subject == [])) 400 (codes "subject is required")
  ensure_no_error (validate_token_subject request.subject) 400
  ensure
      (not (
        ltb_ℤ request.ttl_seconds (pos 1)
        || ltb_ℤ (pos max_repo_token_ttl_seconds) request.ttl_seconds))
      400 (codes "ttlSeconds must be between 1 and 604800")
  accept (repo_id, request)

-- everything in front of `create`
unfoldable pub check_create_repo_token : TokenRequest → Check (Bytes × CreateRepoTokenRequest)
unfolding trimmed_request check_request
check_create_repo_token req = do
  repo_id ← repo_id_from_path req.repo_id
  request ←
      or_reject (decode_json req.body) 400
        (codes "request body must be valid JSON for create repo token")
  check_request repo_id (trimmed_request request)

unfoldable pub create_repo_token_idempotency_scope : Bytes → Bytes
create_repo_token_idempotency_scope repo_id =
    codes "POST /v1/repos/" ++ (format_repo_control_id repo_id ++ codes "/tokens")

-- `writeCreateRepoTokenError`
unfoldable pub write_create_repo_token_error : {A : Type 0} → Error → Response A
write_create_repo_token_error idempotency_conflict =
    write_error 409 (codes "idempotency key already used for a different token request")
write_create_repo_token_error repo_not_found = write_error 404 (codes "repo not found")
write_create_repo_token_error _ = write_error 500 (codes "repo token could not be created")

-- the struct that is hashed
pub record HashedPayload : Type 0 where
  pub repo_id : Bytes
  pub scope : Bytes
  pub ttl_seconds : ℤ
  pub subject : Bytes

unfoldable pub create_repo_token_request_hash :
    (Bytes → Bytes) → (HashedPayload → Bytes) → Bytes → CreateRepoTokenRequest → Bytes
create_repo_token_request_hash sha256 marshal repo_id request = hex_encode (
    sha256 (
      marshal (record {
        repo_id = repo_id;
        scope = request.scope;
        ttl_seconds = request.ttl_seconds;
        subject = request.subject;
      })))

check_revoke : Bytes → Bytes → Check RevokeRepoTokenInput
check_revoke repo_path token_path = do
  repo_id ← repo_id_from_path repo_path
  token_id ←
      or_reject (parse_repo_token_control_id token_path) 400 (codes "repo token id is invalid")
  accept (record { repo_id = repo_id; token_id = token_id })

module _ (format_time : Time → Bytes) where
  -- `optionalTime`
  unfoldable pub optional_time : Time → Option Bytes
  optional_time t = if is_zero t then none else some (format_time t)

  unfoldable pub repo_token_metadata_from_record : RepoTokenRecord → RepoTokenMetadataResponse
  unfolding optional_time
  repo_token_metadata_from_record token = record {
    id = format_repo_token_control_id token.id;
    scope = token.scope;
    subject = token.subject;
    created_at = format_time token.created_at;
    expires_at = format_time token.expires_at;
    revoked_at = optional_time token.revoked_at;
    last_used_at = optional_time token.last_used_at;
  }

  module _ (base_url : Bytes) where
    created_response : RepoTokenRecord → CreateRepoTokenResponse
    created_response token = record {
      id = format_repo_token_control_id token.id;
      token = token.token;
      expires_at = format_time token.expires_at;
      git_url = repo_git_url base_url token.repo_id;
      scope = token.scope;
      subject = token.subject;
    }

    created : {S : Type 0} → Result RepoTokenRecord × S → Result CreateRepoTokenResponse × S
    unfolding created_response
    created (err e, state) = (err e, state)
    created (ok token, state) = (ok (created_response token), state)

    module _ {S : Type 0}
        (create_token : CreateRepoTokenInput → S → Result RepoTokenRecord × S) where
      -- the closure `create`
      unfoldable pub create_response :
          Bytes → CreateRepoTokenRequest → S → Result CreateRepoTokenResponse × S
      unfolding created
      create_response repo_id request state = created (
          create_token
            (record {
              repo_id = repo_id;
              scope = request.scope;
              subject = request.subject;
              ttl_seconds = request.ttl_seconds;
            })
            state)

      respond_once :
          Result (IdempotencyResult CreateRepoTokenResponse) × Records CreateRepoTokenResponse × S
          → Response CreateRepoTokenResponse × Records CreateRepoTokenResponse × S
      respond_once (err e, records, state) = (write_create_repo_token_error e, records, state)
      respond_once (ok result, records, state) =
          (write_json 201 (json result.response), records, state)

      respond :
          Records CreateRepoTokenResponse
          → Result CreateRepoTokenResponse × S
          → Response CreateRepoTokenResponse × Records CreateRepoTokenResponse × S
      respond records (err e, state) = (write_create_repo_token_error e, records, state)
      respond records (ok response, state) = (write_json 201 (json response), records, state)

      module _ (sha256 : Bytes → Bytes) (marshal : HashedPayload → Bytes) where
        abbrev pub idempotency_input : Bytes → CreateRepoTokenRequest → Bytes → IdempotencyInput
        idempotency_input repo_id request key = record {
          scope = create_repo_token_idempotency_scope repo_id;
          key = key;
          request_hash = create_repo_token_request_hash sha256 marshal repo_id request;
        }

        -- the branch on a key that is not empty
        create_accepted :
            TokenRequest
            → Time
            → Records CreateRepoTokenResponse
            → S
            → Bytes
            → CreateRepoTokenRequest
            → Bytes
            → Response CreateRepoTokenResponse × Records CreateRepoTokenResponse × S
        unfolding respond_once respond create_response
        create_accepted req now records state repo_id request [] =
            respond records (create_response repo_id request state)
        create_accepted req now records state repo_id request (c ∷ key) = respond_once (
            do_once req.context (idempotency_input repo_id request (c ∷ key)) now
              (create_response repo_id request) records state)

        create_checked :
            TokenRequest
            → Time
            → Records CreateRepoTokenResponse
            → S
            → Check (Bytes × CreateRepoTokenRequest)
            → Response CreateRepoTokenResponse × Records CreateRepoTokenResponse × S
        unfolding create_accepted
        create_checked req now records state (reject status message) =
            (write_error status message, records, state)
        create_checked req now records state (accept (repo_id, request)) =
            create_accepted req now records state repo_id request (trim_space req.idempotency_key)

        -- `createRepoTokenHandler`, over the in-memory idempotency store
        unfoldable pub create_repo_token_handler :
            TokenRequest
            → Time
            → Records CreateRepoTokenResponse
            → S
            → Response CreateRepoTokenResponse × Records CreateRepoTokenResponse × S
        unfolding create_checked check_create_repo_token
        create_repo_token_handler req now records state =
            create_checked req now records state (check_create_repo_token req)

  write_list : Result (List RepoTokenRecord) → Response ListRepoTokensResponse
  write_list (ok records) = write_json 200 (json (map repo_token_metadata_from_record records))
  write_list (err repo_not_found) = write_error 404 (codes "repo not found")
  write_list (err _) = write_error 500 (codes "repo tokens could not be listed")

  list_checked :
      {S : Type 0}
      → (Bytes → S → Result (List RepoTokenRecord))
      → S
      → Check Bytes
      → Response ListRepoTokensResponse
  unfolding write_list
  list_checked list state (reject status message) = write_error status message
  list_checked list state (accept repo_id) = write_list (list repo_id state)

  -- `listRepoTokensHandler`
  unfoldable pub list_repo_tokens_handler :
      {S : Type 0}
      → (Bytes → S → Result (List RepoTokenRecord))
      → Bytes
      → S
      → Response ListRepoTokensResponse
  unfolding list_checked
  list_repo_tokens_handler list path_value state =
      list_checked list state (repo_id_from_path path_value)

  write_revoked :
      {S : Type 0} → S → Result (RepoTokenRecord × S) → Response RepoTokenMetadataResponse × S
  write_revoked state (ok (token, after)) =
      (write_json 200 (json (repo_token_metadata_from_record token)), after)
  write_revoked state (err repo_not_found) = (write_error 404 (codes "repo not found"), state)
  write_revoked state (err repo_token_not_found) =
      (write_error 404 (codes "repo token not found"), state)
  write_revoked state (err _) = (write_error 500 (codes "repo token could not be revoked"), state)

  revoke_checked :
      {S : Type 0}
      → (RevokeRepoTokenInput → S → Result (RepoTokenRecord × S))
      → S
      → Check RevokeRepoTokenInput
      → Response RepoTokenMetadataResponse × S
  unfolding write_revoked
  revoke_checked revoke state (reject status message) = (write_error status message, state)
  revoke_checked revoke state (accept input) = write_revoked state (revoke input state)

  -- `revokeRepoTokenHandler`
  unfoldable pub revoke_repo_token_handler :
      {S : Type 0}
      → (RevokeRepoTokenInput → S → Result (RepoTokenRecord × S))
      → Bytes
      → Bytes
      → S
      → Response RepoTokenMetadataResponse × S
  unfolding revoke_checked check_revoke
  revoke_repo_token_handler revoke repo_path token_path state =
      revoke_checked revoke state (check_revoke repo_path token_path)
