-- ===== src/Tests/Requests.antt =====
-- Requests to the handlers, over the stores of Tests/Stores.antt.
use gitrdone.Common.{
  ℕ, ◌≡◌, ◌≢◌, refl, ◌↔◌, ◌⊎◌, ◌∷◌, ◌++◌, [], Bool, true, false, not, ◌&&◌, Option, none, some,
  equal, list_eq, nat_eq, ◌==◌, if◌then◌else◌,
}
use gitrdone.Common.Int.{pos}
use gitrdone.Control.{accept, control_auth}
use gitrdone.Control.Auth.{bearer, control_auth_lem}
use gitrdone.Control.Repos.{
  CreateRepoRequest, ArchiveRepoResponse, check_create_repo, get_repo_handler, archive_repo_handler,
}
use gitrdone.Control.Repos.Creation.{check_create_repo-IsAccepted}
use gitrdone.Control.Repos.Showing.{ShownActive, get_repo_handler-ShownActive}
use gitrdone.Control.Tokens.{
  TokenRequest, CreateRepoTokenRequest, CreateRepoTokenResponse, HashedPayload,
  check_create_repo_token, create_repo_token_handler,
}
use gitrdone.Control.Tokens.Creation.{check_create_repo_token-IsAccepted}
use gitrdone.Control.Tokens.Responses.{Shows, create_repo_token_handler-Shows}
use gitrdone.Git.{GitRequest, git_operation_from_request, git_smart_http_handler, internal_error}
use gitrdone.Git.Access.{
  Refuses, Opens, WantsDiff, authorizer, git_smart_http_handler-Opens, git_diff_handler-Opens,
  git_raw_handler-Opens,
}
use gitrdone.Git.Output.{new_writer}
use gitrdone.Git.Revisions.{git_diff_show, git_diff_handler, git_raw_handler, write_diff_error}
use gitrdone.Git.Revisions.Specs.{IsRawTarget}
use gitrdone.Git.Routes.{Route, git_operation_from_request_iff}
use gitrdone.Http.{JsonBody, value, eof, Response, json, write_json, write_status}
use gitrdone.Memory.{World, MemoryRepoStore, create_repo_token, get_repo, archive_repo}
use gitrdone.Repository.{CreateRepoInput, git_operation_read}
use gitrdone.Tests.Stores.{
  disk, hash, repo_uuid, repo_store, repo_store-Inv, token_store, token_store-Inv, world_of, minted,
  seven-nonzero,
}
use gitrdone.Text.{Bytes, codes, trim_space}
use gitrdone.Time.{Time}

-- what a handler behind the guard gives
abbrev served : ℕ → Response Bytes × ℕ
served n = (write_json 200 (json (codes "ok")), n)

control_auth_lem_example : control_auth (codes "secret") (codes "Bearer secret") served 3 ≡ (
    if codes "Bearer secret" == bearer (codes "secret") && not (codes "secret" == [])
    then served 3
    else (write_status 401, 3))
control_auth_lem_example = control_auth_lem (codes "secret") (codes "Bearer secret") served 3

abbrev repo_path : Bytes
repo_path = codes "repo_" ++ repo_uuid

abbrev git_request : GitRequest
git_request = record {
  repo_id = repo_path;
  git_path = codes "info/refs";
  spec = codes "deadbee.diff";
  method = codes "GET";
  service = codes "git-upload-pack";
  basic_auth = some (codes "x", codes "t");
  authorization = [];
}

git_operation_from_request_iff_example :
    (git_operation_from_request git_request ≡ some (codes "read"))
    ↔ Route git_request (codes "read")
git_operation_from_request_iff_example = git_operation_from_request_iff git_request (codes "read")

git_smart_http_handler-Opens_example :
    Refuses token_store (λ b.
      git_smart_http_handler (authorizer disk hash (pos 5) tt) b git_request new_writer token_store)
    ⊎ Opens disk hash
        (pos 5)
        tt
        (λ o. o)
        internal_error
        (λ b o. b)
        (Route git_request)
        git_request
        new_writer
        token_store
        (λ b.
          git_smart_http_handler
            (authorizer disk hash (pos 5) tt)
            b
            git_request
            new_writer
            token_store)
git_smart_http_handler-Opens_example =
    git_smart_http_handler-Opens disk hash (pos 5) tt git_request new_writer token_store refl
      token_store-Inv

git_diff_handler-Opens_example :
    Refuses token_store (λ b.
      git_diff_handler
        (authorizer disk hash (pos 5) tt)
        git_diff_show
        b
        git_request
        new_writer
        token_store)
    ⊎ Opens disk hash
        (pos 5)
        tt
        (λ t. git_operation_read)
        write_diff_error
        (λ b t. b t)
        (WantsDiff disk hash (pos 5) tt git_diff_show git_request)
        git_request
        new_writer
        token_store
        (λ b.
          git_diff_handler
            (authorizer disk hash (pos 5) tt)
            git_diff_show
            b
            git_request
            new_writer
            token_store)
git_diff_handler-Opens_example =
    git_diff_handler-Opens disk hash (pos 5) tt git_diff_show git_request new_writer token_store
      refl token_store-Inv

abbrev raw_request : GitRequest
raw_request = record git_request { spec = codes "deadbee/README" }

git_raw_handler-Opens_example :
    Refuses token_store
      (λ b. git_raw_handler (authorizer disk hash (pos 5) tt) b raw_request new_writer token_store)
    ⊎ Opens disk hash
        (pos 5)
        tt
        (λ t. git_operation_read)
        internal_error
        (λ b t. b t)
        (IsRawTarget (trim_space raw_request.spec))
        raw_request
        new_writer
        token_store
        (λ b.
          git_raw_handler (authorizer disk hash (pos 5) tt) b raw_request new_writer token_store)
git_raw_handler-Opens_example =
    git_raw_handler-Opens disk hash (pos 5) tt raw_request new_writer token_store refl
      token_store-Inv

abbrev repo_body : JsonBody CreateRepoRequest
repo_body = record {
  first = value (record { namespace = codes " team"; name = codes "demo"; default_branch = [] });
  trailing = eof;
}

abbrev repo_input : CreateRepoInput
repo_input = record { namespace = codes "team"; name = codes "demo"; default_branch = codes "main" }

repo_body-accepted : check_create_repo repo_body ≡ accept repo_input
unfolding check_create_repo gitrdone.Http.decode_json equal trim_space
    gitrdone.Validation.validate_repo_slug gitrdone.Validation.scan_chars
    gitrdone.Validation.slug_char gitrdone.Validation.validate_default_branch
    gitrdone.Text.has_prefix gitrdone.Text.cut_prefix gitrdone.Text.has_suffix
    gitrdone.Text.cut_suffix gitrdone.Text.contains gitrdone.Validation.scan_parts
    gitrdone.Text.split gitrdone.Validation.bad_branch_part gitrdone.Validation.branch_char
repo_body-accepted = refl

check_create_repo-IsAccepted_example :
    gitrdone.Control.Repos.Creation.IsAccepted repo_body repo_input
check_create_repo-IsAccepted_example =
    check_create_repo-IsAccepted repo_body repo_input repo_body-accepted

abbrev plain_time : Time → Bytes
plain_time t = codes "time"

abbrev archived_shown : ArchiveRepoResponse
archived_shown = record {
  id = repo_path;
  repo = codes "team/demo";
  archived = true;
  archived_at = codes "time";
}

archived-answered :
    (archive_repo_handler plain_time
      (λ id s. archive_repo id (pos 7) s)
      repo_path
      repo_store).0.body
    ≡ json archived_shown
unfolding archive_repo_handler gitrdone.Control.repo_id_from_path equal trim_space
    gitrdone.Ids.parse_repo_control_id gitrdone.Text.cut_prefix archive_repo
    gitrdone.Common.Dict.lookup gitrdone.Common.Dict.insert write_json
    gitrdone.Ids.format_repo_control_id gitrdone.Control.Repos.repo_full_name gitrdone.Time.is_zero
archived-answered = refl

get_repo_handler-ShownActive_example :
    ShownActive (codes "http://h") plain_time (pos 7) archived_shown (
      get_repo_handler
        (codes "http://h")
        get_repo
        repo_path
        (archive_repo_handler plain_time
          (λ id s. archive_repo id (pos 7) s)
          repo_path
          repo_store).1)
get_repo_handler-ShownActive_example =
    get_repo_handler-ShownActive (codes "http://h") plain_time (pos 7) repo_store repo_path
      archived_shown repo_store-Inv seven-nonzero archived-answered

abbrev token_body : CreateRepoTokenRequest
token_body = record { scope = codes "readwrite"; ttl_seconds = pos 60; subject = codes "ci" }

abbrev http_token_request : TokenRequest
http_token_request = record {
  repo_id = repo_path;
  body = record { first = value token_body; trailing = eof };
  idempotency_key = [];
  context = none;
}

token_body-accepted : check_create_repo_token http_token_request ≡ accept (repo_uuid, token_body)
unfolding check_create_repo_token gitrdone.Control.repo_id_from_path equal trim_space
    gitrdone.Ids.parse_repo_control_id gitrdone.Text.cut_prefix gitrdone.Http.decode_json
    gitrdone.Control.Tokens.is_repo_token_scope gitrdone.Validation.validate_token_subject
    gitrdone.Validation.scan_chars gitrdone.Validation.subject_char
token_body-accepted = refl

check_create_repo_token-IsAccepted_example :
    gitrdone.Control.Tokens.Creation.IsAccepted http_token_request repo_uuid token_body
check_create_repo_token-IsAccepted_example =
    check_create_repo_token-IsAccepted http_token_request repo_uuid token_body token_body-accepted

abbrev plain_marshal : HashedPayload → Bytes
plain_marshal payload = payload.subject

abbrev answered : Response CreateRepoTokenResponse
answered =
    (create_repo_token_handler plain_time (codes "http://h") (λ i. create_repo_token hash i (pos 3))
      hash plain_marshal http_token_request (pos 3) [] (world_of repo_store)).0

abbrev answer : CreateRepoTokenResponse
answer = record {
  id = codes "token_" ++ minted.id;
  token = minted.token;
  expires_at = codes "time";
  git_url = codes "http://h/git/repos/" ++ (repo_path ++ codes ".git");
  scope = codes "readwrite";
  subject = codes "ci";
}

token-answered : answered.body ≡ json answer
unfolding create_repo_token_handler gitrdone.Control.repo_id_from_path equal trim_space
    gitrdone.Ids.parse_repo_control_id gitrdone.Text.cut_prefix gitrdone.Http.decode_json
    gitrdone.Control.Tokens.is_repo_token_scope gitrdone.Validation.validate_token_subject
    gitrdone.Validation.scan_chars gitrdone.Validation.subject_char create_repo_token
    gitrdone.Common.Dict.lookup gitrdone.Common.Dict.insert gitrdone.Memory.draw_token
    gitrdone.Secrets.generate_repo_token gitrdone.Secrets.new_uuid gitrdone.Secrets.draw
    gitrdone.Control.repo_git_url gitrdone.Text.trim_left gitrdone.Text.trim_right
    gitrdone.Ids.format_repo_token_control_id gitrdone.Ids.format_repo_control_id
    gitrdone.Control.Tokens.create_response write_json
token-answered = refl

no_key : trim_space (http_token_request.idempotency_key) ≡ []
unfolding trim_space
no_key = refl

create_repo_token_handler-Shows_example :
    Shows hash plain_marshal plain_time
      (codes "http://h")
      http_token_request
      (pos 3)
      (world_of repo_store)
      (create_repo_token_handler plain_time
        (codes "http://h")
        (λ i. create_repo_token hash i (pos 3))
        hash
        plain_marshal
        http_token_request
        (pos 3)
        []
        (world_of repo_store)).2
      answer
create_repo_token_handler-Shows_example =
    create_repo_token_handler-Shows hash plain_marshal plain_time (codes "http://h")
      http_token_request (pos 3) (pos 3) [] (world_of repo_store) answer no_key token-answered
