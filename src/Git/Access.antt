-- ===== src/Git/Access.antt =====
-- When the Git handlers reach their backends, over the in-memory store.
use gitrdone.Common.{
  ℕ, ◌≤◌, ◌≡◌, refl, ◌⊎◌, inl, inr, Option, none, some, ◌++◌, arith, nat_eq, list_eq,
}
use gitrdone.Common.Dict.{Dict}
use gitrdone.Git.{
  GitRequest, Backend, after_serve, internal_error, access_input, serve_granted, git_handler,
  git_smart_http_handler, git_operation_from_request, git_token_from_request,
  write_git_access_error, write_git_unauthorized,
}
use gitrdone.Git.Output.{Writer, set_header, delete_header, write_header, write, http_error}
use gitrdone.Git.Revisions.{
  GitDiffKind, GitDiffTarget, parse_git_diff_spec, parse_git_raw_spec, write_diff_error,
  git_diff_handler, git_raw_handler,
}
use gitrdone.Git.Revisions.Specs.{
  IsDiffTarget, parse_git_diff_spec_iff, IsRawTarget, parse_git_raw_spec_iff,
}
use gitrdone.Git.Routes.{Route, git_operation_from_request_iff}
use gitrdone.Ids.{format_repo_control_id, parse_repo_control_id}
use gitrdone.Ids.RoundTrip.{parse_repo_control_id_iff}
use gitrdone.Memory.{MemoryRepoStore, authorize_git_access}
use gitrdone.Memory.Access.{Grants, authorize_git_access_iff}
use gitrdone.Memory.Invariant.{Inv}
use gitrdone.Repository.{
  AuthorizeGitAccessInput, GitAccessGrant, GitOperation, GitStorage, git_operation_read,
}
use gitrdone.Result.{
  Error, repository_not_implemented, repo_not_found, repo_archived, repo_token_invalid,
  repo_token_forbidden, repo_token_not_found, repo_storage_not_found, idempotency_conflict, other,
  Result, ok, err,
}
use gitrdone.Text.{Bytes, codes, trim_space}
use gitrdone.Time.{Time}

-- An error response was sent, of a status from 400 up.
abbrev pub Refused : Writer → Type 0
Refused f =
    (status : ℕ) × (headers : Dict Bytes Bytes) × (f.sent ≡ some (status, headers)) × (400 ≤ status)

http_error-Refused :
    (message : Bytes) (status : ℕ) (w : Writer)
    → w.sent ≡ none
    → 400 ≤ status
    → Refused (http_error message status w)
unfolding http_error write write_header set_header delete_header
http_error-Refused message status w fresh h =
    let typed : Writer = set_header (codes "X-Content-Type-Options") (codes "nosniff") (
      set_header (codes "Content-Type") (codes "text/plain; charset=utf-8")
        (delete_header (codes "Content-Length") w)) in
    (status, typed.headers, rw fresh refl, h)

unauthorized-Refused : (w : Writer) → w.sent ≡ none → Refused (write_git_unauthorized w)
unfolding write_git_unauthorized set_header
unauthorized-Refused w fresh =
    http_error-Refused (codes "repo token is required") 401
      (set_header (codes "WWW-Authenticate") (codes "Basic realm=\"gitrdone\"") w) fresh
      (omega arith)

access_error-Refused :
    (e : Error) (w : Writer) → w.sent ≡ none → Refused (write_git_access_error e w)
unfolding write_git_access_error
access_error-Refused repo_not_found w fresh = unauthorized-Refused w fresh
access_error-Refused repo_archived w fresh = unauthorized-Refused w fresh
access_error-Refused repo_token_invalid w fresh = unauthorized-Refused w fresh
access_error-Refused repo_token_forbidden w fresh = http_error-Refused _ 403 w fresh (omega arith)
access_error-Refused repo_storage_not_found w fresh = http_error-Refused _ 500 w fresh (omega arith)
access_error-Refused repository_not_implemented w fresh =
    http_error-Refused _ 500 w fresh (omega arith)
access_error-Refused repo_token_not_found w fresh = http_error-Refused _ 500 w fresh (omega arith)
access_error-Refused idempotency_conflict w fresh = http_error-Refused _ 500 w fresh (omega arith)
access_error-Refused (other m) w fresh = http_error-Refused _ 500 w fresh (omega arith)

-- An answer that the backend, whichever it is, has no part in, and that leaves the state.
abbrev pub Refuses : {S B : Type 0} → S → (B → Writer × S) → Type 0
Refuses {S} {B} s handler = (f : Writer) × Refused f × ((b : B) → handler b ≡ (f, s))

-- `run` is what the handler runs of its backend for a target
module _ {S T B : Type 0} (authorize : AuthorizeGitAccessInput → S → Result (GitAccessGrant × S))
    (operation : T → GitOperation) (on_error : Error → Writer → Writer) (run : B → T → Backend S)
    (r : GitRequest) (w : Writer) (s : S) (fresh : w.sent ≡ none) where
  record Passes (repo : Option Bytes) (target : Option T) (handler : B → Writer × S) : Type 0 where
    repo_id : Bytes
    has_repo : repo ≡ some repo_id
    wanted : T
    has_target : target ≡ some wanted
    grant : GitAccessGrant
    after : S
    granted : authorize (access_input r repo_id (operation wanted)) s ≡ ok (grant, after)
    served : (b : B) → handler b ≡ after_serve on_error (run b wanted grant w after)

  abbrev Handled : Option Bytes → Option T → (B → Writer × S) → Type 0
  Handled repo target handler = Refuses s handler ⊎ Passes repo target handler

  serve_granted-cases :
      (repo_id : Bytes) (wanted : T) (out : Result (GitAccessGrant × S))
      → authorize (access_input r repo_id (operation wanted)) s ≡ out
      → Handled
          (some repo_id)
          (some wanted)
          (λ b. serve_granted authorize on_error (run b wanted) w s out)
  unfolding serve_granted
  serve_granted-cases repo_id wanted (err e) h =
      inl (write_git_access_error e w, access_error-Refused e w fresh, λ b. refl)
  serve_granted-cases repo_id wanted (ok (grant, after)) h = inr (record {
    repo_id = repo_id;
    has_repo = refl;
    wanted = wanted;
    has_target = refl;
    grant = grant;
    after = after;
    granted = h;
    served = λ b. refl;
  })

  git_handler-cases :
      (refusal : Bytes) (repo : Option Bytes) (target : Option T)
      → Handled repo target
          (λ b. git_handler authorize refusal operation on_error (run b) r w s repo target)
  unfolding git_handler
  git_handler-cases refusal none target =
      inl (_, http_error-Refused (codes "repo id is invalid") 400 w fresh (omega arith), λ b. refl)
  git_handler-cases refusal (some repo_id) none =
      inl (_, http_error-Refused refusal 400 w fresh (omega arith), λ b. refl)
  git_handler-cases refusal (some repo_id) (some wanted) =
      serve_granted-cases repo_id wanted (authorize (access_input r repo_id (operation wanted)) s)
        refl

module _ {Files : Type 0} (storage : GitStorage Files) (sha256 : Bytes → Bytes) (now : Time)
    (files : Files) where
  -- the in-memory store's `AuthorizeGitAccess`
  abbrev pub authorizer :
      AuthorizeGitAccessInput → MemoryRepoStore → Result (GitAccessGrant × MemoryRepoStore)
  authorizer input s = authorize_git_access storage sha256 input now files s

  module _ {T B : Type 0} (operation : T → GitOperation) (on_error : Error → Writer → Writer)
      (run : B → T → Backend MemoryRepoStore) (Wants : T → Type 0) (r : GitRequest) (w : Writer)
      (s : MemoryRepoStore) where
    -- The backend runs, for a repo and a target that the request names, with a grant that the store
    -- gives to the token presented.
    pub record Opens (handler : B → Writer × MemoryRepoStore) : Type 0 where
      pub repo_id : Bytes
      pub path_is : trim_space r.repo_id ≡ format_repo_control_id repo_id
      pub target : T
      pub wants : Wants target
      pub grant : GitAccessGrant
      pub after : MemoryRepoStore
      pub grants :
          Grants storage sha256 s
            (record {
              repo_id = repo_id;
              token = git_token_from_request r;
              operation = operation target;
            })
            now
            files
            grant
            after
      pub served : (b : B) → handler b ≡ after_serve on_error (run b target grant w after)

    Handled-Opens :
        {handler : B → Writer × MemoryRepoStore} (fresh : w.sent ≡ none) (target : Option T)
        → Inv s
        → ((t : T) → target ≡ some t → Wants t)
        → Handled authorizer operation on_error run r w s fresh
            (parse_repo_control_id r.repo_id)
            target
            handler
        → Refuses s handler ⊎ Opens handler
    Handled-Opens fresh target v wants (inl f) = inl f
    Handled-Opens fresh target v wants (inr p) = inr (record {
      repo_id = p.repo_id;
      path_is = ((parse_repo_control_id_iff r.repo_id p.repo_id).0 p.has_repo).0;
      target = p.wanted;
      wants = wants p.wanted p.has_target;
      grant = p.grant;
      after = p.after;
      grants =
          (authorize_git_access_iff storage sha256 s (access_input r p.repo_id (operation p.wanted))
              now files p.grant p.after v).0
            p.granted;
      served = p.served;
    })

  -- On a well-formed store, before anything is sent, a request of the smart protocol is either
  -- refused, by an error response that the backend has no part in and with the store unchanged, or
  -- handed to the backend: then the path names the repo, the request is one of the protocol's four, and the token presented may be
  -- used on that repo for its operation; the backend gets the grant of that token.
  pub git_smart_http_handler-Opens :
      (r : GitRequest) (w : Writer) (s : MemoryRepoStore)
      → w.sent ≡ none
      → Inv s
      → Refuses s (λ b. git_smart_http_handler authorizer b r w s)
        ⊎ Opens
            (λ o. o)
            internal_error
            (λ b o. b)
            (Route r)
            r
            w
            s
            (λ b. git_smart_http_handler authorizer b r w s)
  unfolding git_smart_http_handler
  git_smart_http_handler-Opens r w s fresh v =
      Handled-Opens (λ o. o) internal_error (λ b o. b) (Route r) r w s fresh
        (git_operation_from_request r) v (λ o. (git_operation_from_request_iff r o).0)
        (git_handler-cases authorizer (λ o. o) internal_error (λ b o. b) r w s fresh _
          (parse_repo_control_id r.repo_id) (git_operation_from_request r))

  -- what a diff request wants
  abbrev pub WantsDiff : GitDiffKind → GitRequest → GitDiffTarget → Type 0
  WantsDiff kind r target =
      (spec : Bytes) × (trim_space r.spec ≡ spec ++ codes ".diff") × IsDiffTarget spec kind target

  -- On a well-formed store, before anything is sent, a diff request is either refused, by an error
  -- response that the backend has no part in and with the store unchanged, or handed to the backend:
  -- then the path names the repo and one or two object ids, and the token presented may be used to read that repo.
  pub git_diff_handler-Opens :
      (kind : GitDiffKind) (r : GitRequest) (w : Writer) (s : MemoryRepoStore)
      → w.sent ≡ none
      → Inv s
      → Refuses s (λ b. git_diff_handler authorizer kind b r w s)
        ⊎ Opens
            (λ t. git_operation_read)
            write_diff_error
            (λ b t. b t)
            (WantsDiff kind r)
            r
            w
            s
            (λ b. git_diff_handler authorizer kind b r w s)
  unfolding git_diff_handler
  git_diff_handler-Opens kind r w s fresh v =
      Handled-Opens (λ t. git_operation_read) write_diff_error (λ b t. b t) (WantsDiff kind r) r w s
        fresh (parse_git_diff_spec kind r.spec) v (λ t. (parse_git_diff_spec_iff kind r.spec t).0)
        (git_handler-cases authorizer (λ t. git_operation_read) write_diff_error (λ b t. b t) r w s
          fresh _ (parse_repo_control_id r.repo_id) (parse_git_diff_spec kind r.spec))

  -- On a well-formed store, before anything is sent, a request for a file is either refused, by an
  -- error response that the backend has no part in and with the store unchanged, or handed to the
  -- backend: then the path names the repo, an object id and a clean path, and the token presented
  -- may be used to read that repo.
  pub git_raw_handler-Opens :
      (r : GitRequest) (w : Writer) (s : MemoryRepoStore)
      → w.sent ≡ none
      → Inv s
      → Refuses s (λ b. git_raw_handler authorizer b r w s)
        ⊎ Opens
            (λ t. git_operation_read)
            internal_error
            (λ b t. b t)
            (IsRawTarget (trim_space r.spec))
            r
            w
            s
            (λ b. git_raw_handler authorizer b r w s)
  unfolding git_raw_handler
  git_raw_handler-Opens r w s fresh v =
      Handled-Opens (λ t. git_operation_read) internal_error (λ b t. b t)
        (IsRawTarget (trim_space r.spec)) r w s fresh (parse_git_raw_spec r.spec) v
        (λ t. (parse_git_raw_spec_iff r.spec t).0)
        (git_handler-cases authorizer (λ t. git_operation_read) internal_error (λ b t. b t) r w s
          fresh _ (parse_repo_control_id r.repo_id) (parse_git_raw_spec r.spec))
