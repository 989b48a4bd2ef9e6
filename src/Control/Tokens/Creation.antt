-- ===== src/Control/Tokens/Creation.antt =====
-- What POST /v1/repos/{repoID}/tokens accepts (internal/http/tokens.go).
use gitrdone.Common.{
  ℕ, ◌≤◌, ◌≡◌, refl, sym, ap, ◌∙◌, subst, inl, inr, true, not, ◌||◌, some, [], ◌==◌, ==_iff, nat_eq,
  list_eq, pair_eq, arith, Bool-cases,
}
use gitrdone.Common.Int.{ℤ, pos, negsuc, ltb_ℤ}
use gitrdone.Control.{accept, or_reject, repo_id_from_path}
use gitrdone.Control.Checks.{
  >>=-accept, ensure-accept, ensure_no_error-accept, or_reject-accept, repo_id_from_path-accept,
  accept-injective,
}
use gitrdone.Control.Tokens.{
  TokenRequest, CreateRepoTokenRequest, max_repo_token_ttl_seconds, is_repo_token_scope,
  check_create_repo_token, trimmed_request,
}
use gitrdone.Ids.{is_canonical_uuid, format_repo_control_id}
use gitrdone.Http.{decode_json}
use gitrdone.Text.{Bytes, codes, trim_space}
use gitrdone.Validation.{validate_token_subject}
use gitrdone.Validation.Subject.{IsSubject, validate_token_subject_iff}

pub data IsScope : Bytes → Type 0 where
  read : {s : Bytes} → s ≡ codes "read" → IsScope s
  write : {s : Bytes} → s ≡ codes "write" → IsScope s
  readwrite : {s : Bytes} → s ≡ codes "readwrite" → IsScope s

is_repo_token_scope-IsScope : (s : Bytes) → is_repo_token_scope s ≡ true → IsScope s
unfolding is_repo_token_scope
is_repo_token_scope-IsScope s h = elim (Bool-cases (s == codes "read")) [
  | inl e ↦ read ((==_iff s _).0 e)
  | inr n ↦ elim (Bool-cases (s == codes "write")) [
    | inl e ↦ write ((==_iff s _).0 e)
    | inr m ↦ readwrite ((==_iff s _).0 (ground arith))
  ]
]

-- What is known of a request that passed the checks.
pub record IsAccepted (req : TokenRequest) (repo_id : Bytes) (request : CreateRepoTokenRequest)
    : Type 0 where
  pub body : CreateRepoTokenRequest
  pub decoded : decode_json req.body ≡ some body
  pub path_is : trim_space (trim_space req.repo_id) ≡ format_repo_control_id repo_id
  pub canonical : is_canonical_uuid repo_id ≡ true
  pub scope_is : request.scope ≡ trim_space body.scope
  pub subject_is : request.subject ≡ trim_space body.subject
  pub scope : IsScope request.scope
  pub subject : IsSubject request.subject
  pub ttl : ℕ
  pub ttl_is : request.ttl_seconds ≡ pos ttl
  pub ttl_pos : 1 ≤ ttl
  pub ttl_max : ttl ≤ 604800

ttl_range :
    (t : ℤ)
    → not (ltb_ℤ t (pos 1) || ltb_ℤ (pos max_repo_token_ttl_seconds) t) ≡ true
    → (n : ℕ) × (t ≡ pos n) × (1 ≤ n) × (n ≤ 604800)
ttl_range (pos n) h = (n, refl, ground arith, ground arith)
ttl_range (negsuc n) h = absurd (ground arith)

-- A request that passes the checks names a canonical repo id, and asks for one of the three scopes,
-- for a well-formed subject, and for 1 to 604800 seconds; scope and subject are trimmed.
pub check_create_repo_token-IsAccepted :
    (req : TokenRequest) (repo_id : Bytes) (request : CreateRepoTokenRequest)
    → check_create_repo_token req ≡ accept (repo_id, request)
    → IsAccepted req repo_id request
unfolding check_create_repo_token
check_create_repo_token-IsAccepted req repo_id request h =
    let (id, path, h1) = >>=-accept (repo_id_from_path req.repo_id) _ h in
    let (body, decoded, h2) = >>=-accept (or_reject (decode_json req.body) 400 _) _ h1 in
    let trimmed : CreateRepoTokenRequest = trimmed_request body in
    let (scope, h3) = ensure-accept (is_repo_token_scope trimmed.scope) _ _ _ h2 in
    let (_, h4) = ensure-accept (not (trimmed.subject == [])) _ _ _ h3 in
    let (subject, h5) = ensure_no_error-accept (validate_token_subject trimmed.subject) _ _ h4 in
    let (range, h6) = ensure-accept _ _ _ _ h5 in
    let (n, is_n, low, high) = ttl_range trimmed.ttl_seconds range in
    let same = accept-injective h6 in
    let same_id = ap (λ (p : Bytes × CreateRepoTokenRequest). p.0) same in
    let same_request = ap (λ (p : Bytes × CreateRepoTokenRequest). p.1) same in
    let (path_is, canonical) = repo_id_from_path-accept req.repo_id id path in
    record {
      body = body;
      decoded = or_reject-accept (decode_json req.body) _ _ decoded;
      path_is = path_is ∙ ap format_repo_control_id same_id;
      canonical = ap is_canonical_uuid (sym same_id) ∙ canonical;
      scope_is = ap (λ (r : CreateRepoTokenRequest). r.scope) (sym same_request);
      subject_is = ap (λ (r : CreateRepoTokenRequest). r.subject) (sym same_request);
      scope =
          subst (λ (r : CreateRepoTokenRequest). IsScope r.scope) same_request
            (is_repo_token_scope-IsScope trimmed.scope scope);
      subject =
          subst (λ (r : CreateRepoTokenRequest). IsSubject r.subject) same_request
            ((validate_token_subject_iff trimmed.subject).0 subject);
      ttl = n;
      ttl_is = ap (λ (r : CreateRepoTokenRequest). r.ttl_seconds) (sym same_request) ∙ is_n;
      ttl_pos = low;
      ttl_max = high;
    }
