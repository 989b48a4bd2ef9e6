-- ===== src/Control/Tokens/Responses.antt =====
-- The responses of POST /v1/repos/{repoID}/tokens, over the in-memory stores.
use gitrdone.Common.{
  ℕ, ◌*◌, ◌^◌, ◌≤◌, ◌≡◌, refl, sym, ap, ◌∙◌, subst, inl, inr, [], ◌∷◌, nat_eq, list_eq, pair_eq,
  arith,
}
use gitrdone.Common.Int.{pos, ◌+ℤ◌, ◌<ℤ◌, wrap64, +ℤ_parts}
use gitrdone.Control.{Check, accept, reject}
use gitrdone.Control.Tokens.{
  TokenRequest, CreateRepoTokenRequest, CreateRepoTokenResponse, HashedPayload,
  check_create_repo_token, write_create_repo_token_error, created_response, created,
  create_response, respond, create_checked, create_accepted, create_repo_token_handler,
}
use gitrdone.Control.Tokens.Creation.{IsAccepted, check_create_repo_token-IsAccepted}
use gitrdone.Http.{Response, json, write_json, write_error}
use gitrdone.Idempotency.{Records}
use gitrdone.Ids.{format_repo_token_control_id}
use gitrdone.Memory.{World, create_repo_token}
use gitrdone.Memory.Creation.{AddsToken, Mints, create_repo_token-cases}
use gitrdone.Repository.{CreateRepoTokenInput, RepoRecord, RepoTokenRecord}
use gitrdone.Result.{
  Error, repository_not_implemented, repo_not_found, repo_archived, repo_token_invalid,
  repo_token_forbidden, repo_token_not_found, repo_storage_not_found, idempotency_conflict, other,
  Result, ok, err, ok-injective,
}
use gitrdone.Text.{Bytes, trim_space}
use gitrdone.Time.{Time, seconds}

seconds-in_range : (n : ℕ) → n ≤ 604800 → seconds (pos n) ≡ pos (n * 10 ^ 9)
unfolding seconds wrap64
seconds-in_range n h = ground arith

later-lt : (now : Time) (n : ℕ) → 1 ≤ n → now <ℤ now +ℤ pos (n * 10 ^ 9)
later-lt now n h = omega (arith, +ℤ_parts now (pos (n * 10 ^ 9)))

abbrev pub JsonIs : {A : Type 0} → Response A → A → Type 0
JsonIs response a = response.body ≡ json a

write_error-not_json :
    {A : Type 0} (status : ℕ) (message : Bytes) (a : A) → ¬ JsonIs (write_error status message) a
unfolding write_error write_json
write_error-not_json status message a h = cc

write_create_repo_token_error-not_json :
    (e : Error) (a : CreateRepoTokenResponse) → ¬ JsonIs (write_create_repo_token_error e) a
unfolding write_create_repo_token_error
write_create_repo_token_error-not_json idempotency_conflict a h = write_error-not_json 409 _ a h
write_create_repo_token_error-not_json repo_not_found a h = write_error-not_json 404 _ a h
write_create_repo_token_error-not_json repository_not_implemented a h =
    write_error-not_json 500 _ a h
write_create_repo_token_error-not_json repo_archived a h = write_error-not_json 500 _ a h
write_create_repo_token_error-not_json repo_token_invalid a h = write_error-not_json 500 _ a h
write_create_repo_token_error-not_json repo_token_forbidden a h = write_error-not_json 500 _ a h
write_create_repo_token_error-not_json repo_token_not_found a h = write_error-not_json 500 _ a h
write_create_repo_token_error-not_json repo_storage_not_found a h = write_error-not_json 500 _ a h
write_create_repo_token_error-not_json (other m) a h = write_error-not_json 500 _ a h

json-injective : {A : Type 0} {a b : A} → json a ≡ json b → a ≡ b
json-injective h = cc

abbrev token_input : Bytes → CreateRepoTokenRequest → CreateRepoTokenInput
token_input repo_id request = record {
  repo_id = repo_id;
  scope = request.scope;
  subject = request.subject;
  ttl_seconds = request.ttl_seconds;
}

module _ {Files : Type 0} (sha256 : Bytes → Bytes) (marshal : HashedPayload → Bytes)
    (format_time : Time → Bytes) (base_url : Bytes) where
  -- The token that a response shows: it was just added for the accepted request, and expires that
  -- many seconds after now.
  pub record Shows (req : TokenRequest) (now : Time) (w w' : World Files)
      (body : CreateRepoTokenResponse) : Type 0 where
    pub repo_id : Bytes
    pub request : CreateRepoTokenRequest
    pub accepted : IsAccepted req repo_id request
    pub repo : RepoRecord
    pub token : RepoTokenRecord
    pub adds : AddsToken sha256 (token_input repo_id request) now w repo token w'
    pub expires : token.expires_at ≡ now +ℤ pos (accepted.ttl * 10 ^ 9)
    pub later : token.created_at <ℤ token.expires_at
    pub id_shown : body.id ≡ format_repo_token_control_id token.id
    pub token_shown : body.token ≡ token.token
    pub expiry_shown : body.expires_at ≡ format_time token.expires_at

  respond-state :
      (create : CreateRepoTokenInput → World Files → Result RepoTokenRecord × World Files)
      (records : Records CreateRepoTokenResponse) (o : Result RepoTokenRecord × World Files)
      → (respond format_time base_url create records (created format_time base_url o)).2 ≡ o.1
  unfolding respond created
  respond-state create records (err e, w) = refl
  respond-state create records (ok t, w) = refl

  outcome-Shows :
      (req : TokenRequest) (now : Time) (records : Records CreateRepoTokenResponse)
      (w : World Files) (repo_id : Bytes) (request : CreateRepoTokenRequest)
      (body : CreateRepoTokenResponse) (o : Result RepoTokenRecord × World Files)
      → IsAccepted req repo_id request
      → Mints sha256 (token_input repo_id request) now w o
      → JsonIs
          (respond format_time base_url
            (λ i. create_repo_token sha256 i now)
            records
            (created format_time base_url o)).0
          body
      → Shows req now w o.1 body
  unfolding respond created created_response write_json
  outcome-Shows req now records w repo_id request body (err e, w') a m h =
      absurd (write_create_repo_token_error-not_json e body h)
  outcome-Shows req now records w repo_id request body (ok t, w') a (inl ((e, failed), _)) h =
      absurd cc
  outcome-Shows req now records w repo_id request body (ok t, w') a (inr (r, q, same, adds)) h =
      let shown = json-injective h in
      let is_t : q ≡ t = ok-injective (sym same) in
      let added =
        subst (λ x. AddsToken sha256 (token_input repo_id request) now w r x w') is_t adds in
      let expires : t.expires_at ≡ now +ℤ pos (a.ttl * 10 ^ 9) =
        added.expires
        ∙ ap (λ z. now +ℤ z) (ap seconds a.ttl_is ∙ seconds-in_range a.ttl a.ttl_max) in
      record {
        repo_id = repo_id;
        request = request;
        accepted = a;
        repo = r;
        token = t;
        adds = added;
        expires = expires;
        later = rw (added.created, expires) (later-lt now a.ttl a.ttl_pos);
        id_shown = ap (λ (b : CreateRepoTokenResponse). b.id) (sym shown);
        token_shown = ap (λ (b : CreateRepoTokenResponse). b.token) (sym shown);
        expiry_shown = ap (λ (b : CreateRepoTokenResponse). b.expires_at) (sym shown);
      }

  abbrev handle :
      TokenRequest
      → Time
      → Time
      → Records CreateRepoTokenResponse
      → World Files
      → Response CreateRepoTokenResponse × Records CreateRepoTokenResponse × World Files
  handle req at now =
      create_repo_token_handler format_time base_url (λ i. create_repo_token sha256 i now) sha256
        marshal req at

  accepted-Shows :
      (req : TokenRequest) (at now : Time) (records : Records CreateRepoTokenResponse)
      (w : World Files) (body : CreateRepoTokenResponse) (repo_id : Bytes)
      (request : CreateRepoTokenRequest) (key : Bytes)
      → IsAccepted req repo_id request
      → key ≡ []
      → let out =
          create_accepted format_time base_url
            (λ i. create_repo_token sha256 i now)
            sha256
            marshal
            req
            at
            records
            w
            repo_id
            request
            key in
        JsonIs out.0 body → Shows req now w out.2 body
  unfolding create_accepted create_response
  accepted-Shows req at now records w body repo_id request [] a k h =
      let o = create_repo_token sha256 (token_input repo_id request) now w in
      subst (λ x. Shows req now w x body)
        (sym (respond-state (λ i. create_repo_token sha256 i now) records o))
        (outcome-Shows req now records w repo_id request body o a
          (create_repo_token-cases sha256 (token_input repo_id request) now w) h)
  accepted-Shows req at now records w body repo_id request (c ∷ key) a k h = absurd cc

  checked-Shows :
      (req : TokenRequest) (at now : Time) (records : Records CreateRepoTokenResponse)
      (w : World Files) (body : CreateRepoTokenResponse)
      (c : Check (Bytes × CreateRepoTokenRequest))
      → check_create_repo_token req ≡ c
      → trim_space req.idempotency_key ≡ []
      → let out =
          create_checked format_time base_url
            (λ i. create_repo_token sha256 i now)
            sha256
            marshal
            req
            at
            records
            w
            c in
        JsonIs out.0 body → Shows req now w out.2 body
  unfolding create_checked
  checked-Shows req at now records w body (reject status message) e k h =
      absurd (write_error-not_json status message body h)
  checked-Shows req at now records w body (accept (repo_id, request)) e k h =
      accepted-Shows req at now records w body repo_id request (trim_space req.idempotency_key)
        (check_create_repo_token-IsAccepted req repo_id request e) k h

  -- A request with no idempotency key that is answered with a token was accepted by the checks, and
  -- the token shown was just added for its repo, with its scope and subject: it expires after the
  -- seconds asked for, at least 1 and at most 604800, and so after its creation.
  pub create_repo_token_handler-Shows :
      (req : TokenRequest) (at now : Time) (records : Records CreateRepoTokenResponse)
      (w : World Files) (body : CreateRepoTokenResponse)
      → trim_space req.idempotency_key ≡ []
      → JsonIs (handle req at now records w).0 body
      → Shows req now w (handle req at now records w).2 body
  unfolding create_repo_token_handler
  create_repo_token_handler-Shows req at now records w body k h =
      checked-Shows req at now records w body (check_create_repo_token req) refl k h
