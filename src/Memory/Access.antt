-- ===== src/Memory/Access.antt =====
-- Who may use a repo: what `authorize_git_access` grants, in terms of the tokens that were stored.
use gitrdone.Common.{
  ◌≡◌, refl, sym, ap, ap₂, ◌∙◌, ◌≢◌, inl, inr, true, not, some, [], arith, nat_eq, list_eq,
  Bool-cases, ==_iff, ==_ne, ◌==◌, ◌↔◌, equal,
}
use gitrdone.Common.Dict.{lookup}
use gitrdone.Common.Int.{◌<ℤ◌, eqb_ℤ_iff}
use gitrdone.Memory.Invariant.{Inv}
use gitrdone.Memory.{MemoryRepoStore, token_or_zero, put_token, authorize_git_access}
use gitrdone.Repository.{
  AuthorizeGitAccessInput, GitAccessGrant, RepoRecord, RepoTokenRecord, GitStorage, GitOperation,
  scope_allows_git_operation, git_operation_read,
}
use gitrdone.Result.{
  repo_not_found, repo_archived, repo_token_invalid, repo_token_forbidden, ok, or_fail, >>=-eq-ok,
  or_fail-eq-ok, guard-eq-ok, ok-injective,
}
use gitrdone.Secrets.{hash_repo_token}
use gitrdone.Text.{Bytes, codes}
use gitrdone.Time.{Time, zero_time, is_zero, before}

-- The table of scopes in the documentation.
pub data Allows : Bytes → GitOperation → Type 0 where
  read_read : {s o : Bytes} → s ≡ codes "read" → o ≡ codes "read" → Allows s o
  readwrite_read : {s o : Bytes} → s ≡ codes "readwrite" → o ≡ codes "read" → Allows s o
  write_write : {s o : Bytes} → s ≡ codes "write" → o ≡ codes "write" → Allows s o
  readwrite_write : {s o : Bytes} → s ≡ codes "readwrite" → o ≡ codes "write" → Allows s o

scope_sound : (s o : Bytes) → scope_allows_git_operation s o ≡ true → Allows s o
unfolding scope_allows_git_operation
scope_sound s o h = elim (Bool-cases (o == git_operation_read)) [
  | inl r ↦ elim (Bool-cases (s == codes "read")) [
    | inl e ↦ read_read ((==_iff s _).0 e) ((==_iff o _).0 r)
    | inr n ↦ readwrite_read ((==_iff s _).0 (ground arith)) ((==_iff o _).0 r)
  ]
  | inr nr ↦ elim (Bool-cases (s == codes "write")) [
    | inl e ↦ write_write ((==_iff s _).0 e) ((==_iff o _).0 (ground arith))
    | inr n ↦ readwrite_write ((==_iff s _).0 (ground arith)) ((==_iff o _).0 (ground arith))
  ]
]

scope_complete : {s o : Bytes} → Allows s o → scope_allows_git_operation s o ≡ true
unfolding scope_allows_git_operation
scope_complete (read_read a b) = rw (a, b) (unfold equal in refl)
scope_complete (readwrite_read a b) = rw (a, b) (unfold equal in refl)
scope_complete (write_write a b) = rw (a, b) (unfold equal in refl)
scope_complete (readwrite_write a b) = rw (a, b) (unfold equal in refl)

-- A scope allows an operation exactly as documented: `read` and `readwrite` allow reading, `write`
-- and `readwrite` allow writing, and nothing else is allowed.
pub scope_allows_git_operation_iff :
    (s o : Bytes) → (scope_allows_git_operation s o ≡ true) ↔ Allows s o
scope_allows_git_operation_iff s o = (scope_sound s o, scope_complete)

-- The token `t`, stored for the repo `r`, may be used as `input` asks at `now`.
pub record MayAccess (sha256 : Bytes → Bytes) (s : MemoryRepoStore)
    (input : AuthorizeGitAccessInput) (now : Time) (r : RepoRecord) (t : RepoTokenRecord)
    : Type 0 where
  pub repo : lookup input.repo_id s.repos ≡ some r
  pub active : r.archived_at ≡ zero_time
  pub presented : input.token ≢ []
  pub stored : lookup t.id s.tokens ≡ some t
  pub hashed : t.token_hash ≡ hash_repo_token sha256 input.token
  pub of_repo : t.repo_id ≡ input.repo_id
  pub unrevoked : t.revoked_at ≡ zero_time
  pub unexpired : now <ℤ t.expires_at
  pub allowed : Allows t.scope input.operation

abbrev pub used : Time → RepoTokenRecord → RepoTokenRecord
used now t = record t { last_used_at = now }

is_zero-eq_true : (t : Time) → is_zero t ≡ true → t ≡ zero_time
unfolding is_zero
is_zero-eq_true t h = (eqb_ℤ_iff t zero_time).0 h

is_zero_lem : (t : Time) → t ≡ zero_time → is_zero t ≡ true
unfolding is_zero
is_zero_lem t h = (eqb_ℤ_iff t zero_time).1 h

before-eq_true : (a b : Time) → before a b ≡ true → a <ℤ b
unfolding before
before-eq_true a b h = ground arith

before_lem : (a b : Time) → a <ℤ b → before a b ≡ true
unfolding before
before_lem a b h = ground arith

not-eq_false : (a b : Bytes) → a ≢ b → not (a == b) ≡ true
not-eq_false a b h = rw (==_ne a b h) refl

module _ {Files : Type 0} (storage : GitStorage Files) (sha256 : Bytes → Bytes) where
  -- A token that may be used is granted the repo whenever its storage is there, and its last use is
  -- recorded.
  pub authorize-of_MayAccess :
      (s : MemoryRepoStore) (input : AuthorizeGitAccessInput) (now : Time) (files : Files)
      (r : RepoRecord) (t : RepoTokenRecord) (path : Bytes)
      → Inv s
      → MayAccess sha256 s input now r t
      → storage.bare_repo_path files input.repo_id ≡ ok path
      → authorize_git_access storage sha256 input now files s
        ≡ ok (
          record { repo_id = input.repo_id; repo_path = path; subject = t.subject },
          put_token (used now t) s,
        )
  unfolding authorize_git_access
  authorize-of_MayAccess s input now files r t path v m e =
      let id = v.repo_id input.repo_id r m.repo in
      let hashed =
        ap (λ h. lookup h s.token_ids_by_hash) (sym m.hashed) ∙ v.token_hashed t.id t m.stored in
      rw
        (
          m.repo,
          is_zero_lem r.archived_at m.active,
          not-eq_false input.token [] m.presented,
          hashed,
          m.stored,
          id,
          (==_iff t.repo_id input.repo_id).1 m.of_repo,
          is_zero_lem t.revoked_at m.unrevoked,
          before_lem now t.expires_at m.unexpired,
          scope_complete m.allowed,
          e,
        )
        refl

  record Checked (s : MemoryRepoStore) (input : AuthorizeGitAccessInput) (now : Time)
      (files : Files) (out : GitAccessGrant × MemoryRepoStore) : Type 0 where
    repo : RepoRecord
    found : lookup input.repo_id s.repos ≡ some repo
    active : is_zero repo.archived_at ≡ true
    presented : not (input.token == []) ≡ true
    token_id : Bytes
    hashed : lookup (hash_repo_token sha256 input.token) s.token_ids_by_hash ≡ some token_id
    token : RepoTokenRecord
    is_token : token_or_zero (lookup token_id s.tokens) ≡ token
    of_repo : (token.repo_id == repo.id) ≡ true
    unrevoked : is_zero token.revoked_at ≡ true
    unexpired : before now token.expires_at ≡ true
    allowed : scope_allows_git_operation token.scope input.operation ≡ true
    path : Bytes
    has_path : storage.bare_repo_path files repo.id ≡ ok path
    result :
        (
          record { repo_id = repo.id; repo_path = path; subject = token.subject },
          put_token (used now token) s,
        )
        ≡ out

  authorize-Checked :
      (s : MemoryRepoStore) (input : AuthorizeGitAccessInput) (now : Time) (files : Files)
      (out : GitAccessGrant × MemoryRepoStore)
      → authorize_git_access storage sha256 input now files s ≡ ok out
      → Checked s input now files out
  unfolding authorize_git_access
  authorize-Checked s input now files out h =
      let (repo, found, h1) =
        >>=-eq-ok (or_fail (lookup input.repo_id s.repos) repo_not_found) _ h in
      let (active, h2) = guard-eq-ok (is_zero repo.archived_at) repo_archived _ h1 in
      let (presented, h3) = guard-eq-ok (not (input.token == [])) repo_token_invalid _ h2 in
      let (token_id, hashed, h4) =
        >>=-eq-ok
          (or_fail (lookup (hash_repo_token sha256 input.token) s.token_ids_by_hash)
            repo_token_invalid)
          _ h3 in
      let token : RepoTokenRecord = token_or_zero (lookup token_id s.tokens) in
      let (of_repo, h5) = guard-eq-ok (token.repo_id == repo.id) repo_token_invalid _ h4 in
      let (unrevoked, h6) = guard-eq-ok (is_zero token.revoked_at) repo_token_invalid _ h5 in
      let (unexpired, h7) = guard-eq-ok (before now token.expires_at) repo_token_invalid _ h6 in
      let (allowed, h8) =
        guard-eq-ok (scope_allows_git_operation token.scope input.operation) repo_token_forbidden _
          h7 in
      let (path, has_path, h9) = >>=-eq-ok (storage.bare_repo_path files repo.id) _ h8 in
      record {
        repo = repo;
        found = or_fail-eq-ok (lookup input.repo_id s.repos) _ found;
        active = active;
        presented = presented;
        token_id = token_id;
        hashed =
            or_fail-eq-ok (lookup (hash_repo_token sha256 input.token) s.token_ids_by_hash) _
              hashed;
        token = token;
        is_token = refl;
        of_repo = of_repo;
        unrevoked = unrevoked;
        unexpired = unexpired;
        allowed = allowed;
        path = path;
        has_path = has_path;
        result = ok-injective h9;
      }

  -- What a grant rests on: a stored token that may be used, whose repo and subject it names; only
  -- the token's last use changes.
  pub record Grants (s : MemoryRepoStore) (input : AuthorizeGitAccessInput) (now : Time)
      (files : Files) (grant : GitAccessGrant) (s' : MemoryRepoStore) : Type 0 where
    pub repo : RepoRecord
    pub token : RepoTokenRecord
    pub may : MayAccess sha256 s input now repo token
    pub path : storage.bare_repo_path files input.repo_id ≡ ok grant.repo_path
    pub repo_is : grant.repo_id ≡ input.repo_id
    pub subject_is : grant.subject ≡ token.subject
    pub store_is : s' ≡ put_token (used now token) s

  Checked-Grants :
      (s : MemoryRepoStore) (input : AuthorizeGitAccessInput) (now : Time) (files : Files)
      (grant : GitAccessGrant) (s' : MemoryRepoStore)
      → Inv s
      → Checked s input now files (grant, s')
      → Grants s input now files grant s'
  Checked-Grants s input now files grant s' v c =
      let (t, stored, hash) = v.hash_token _ c.token_id c.hashed in
      let is_t : t ≡ c.token = sym (ap token_or_zero stored) ∙ c.is_token in
      let id = v.repo_id input.repo_id c.repo c.found in
      let own = v.token_id c.token_id t stored in
      record {
        repo = c.repo;
        token = t;
        may = record {
          repo = c.found;
          active = is_zero-eq_true c.repo.archived_at c.active;
          presented = λ e. ground (arith, c.presented, ==_iff input.token []);
          stored = ap (λ i. lookup i s.tokens) own ∙ stored;
          hashed = hash;
          of_repo =
              ap (λ (x : RepoTokenRecord). x.repo_id) is_t
              ∙ (==_iff c.token.repo_id c.repo.id).0 c.of_repo
              ∙ id;
          unrevoked =
              ap (λ (x : RepoTokenRecord). x.revoked_at) is_t
              ∙ is_zero-eq_true c.token.revoked_at c.unrevoked;
          unexpired = rw is_t (before-eq_true now c.token.expires_at c.unexpired);
          allowed = rw is_t (scope_sound c.token.scope input.operation c.allowed);
        };
        path =
            ap (storage.bare_repo_path files) (sym id)
            ∙ c.has_path
            ∙ ap (λ (o : GitAccessGrant × MemoryRepoStore). ok (o.0).repo_path) c.result;
        repo_is = ap (λ (o : GitAccessGrant × MemoryRepoStore). (o.0).repo_id) (sym c.result) ∙ id;
        subject_is =
            ap (λ (o : GitAccessGrant × MemoryRepoStore). (o.0).subject) (sym c.result)
            ∙ ap (λ (x : RepoTokenRecord). x.subject) (sym is_t);
        store_is =
            ap (λ (o : GitAccessGrant × MemoryRepoStore). o.1) (sym c.result)
            ∙ ap (λ (x : RepoTokenRecord). put_token (used now x) s) (sym is_t);
      }

  -- On a well-formed store access is granted exactly if the repo exists and is not archived, a
  -- stored token of that repo has the hash of the one presented, is not revoked, has not expired
  -- and has a scope that allows the operation, and the repo's storage is there. The grant names
  -- that repo, its path and the token's subject, and the store changes in the token's last use alone.
  pub authorize_git_access_iff :
      (s : MemoryRepoStore) (input : AuthorizeGitAccessInput) (now : Time) (files : Files)
      (grant : GitAccessGrant) (s' : MemoryRepoStore)
      → Inv s
      → (authorize_git_access storage sha256 input now files s ≡ ok (grant, s'))
        ↔ Grants s input now files grant s'
  authorize_git_access_iff s input now files grant s' v = (
    λ h. Checked-Grants s input now files grant s' v (authorize-Checked s input now files _ h),
    λ g.
        authorize-of_MayAccess s input now files g.repo g.token grant.repo_path v g.may g.path
        ∙ ap₂ (λ (a : GitAccessGrant) (b : MemoryRepoStore). ok (a, b))
            (grant_path g.repo_is g.subject_is) (sym g.store_is),
  )
    where
      grant_path :
          {id subject : Bytes}
          → grant.repo_id ≡ id
          → grant.subject ≡ subject
          → let made : GitAccessGrant = record {
            repo_id = id;
            repo_path = grant.repo_path;
            subject = subject;
          } in
            made ≡ grant
      grant_path a b = ground arith
