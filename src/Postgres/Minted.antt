-- ===== src/Postgres/Minted.antt =====
-- The states of the tables around a call of `CreateRepoToken` of internal/http/postgres.go.
use gitrdone.Common.{
  ◌≡◌, ◌⊎◌, refl, sym, ap, true, false, not, List, [], ◌∷◌, ◌++◌, arith, nat_eq, list_eq,
}
use gitrdone.Common.Int.{◌+ℤ◌}
use gitrdone.Common.Lists.{Among}
use gitrdone.Memory.{token_record}
use gitrdone.Postgres.Session.{Outcome, done, failed, lost, World}
use gitrdone.Postgres.Tables.{
  Tables, find_row, repo_has_id, token_has_id, token_has_hash, token_row, insert_token_row,
  is_postgres_unique_violation,
}
use gitrdone.Repository.{CreateRepoTokenInput, RepoRecord, RepoTokenRecord}
use gitrdone.Result.{Result, ok, err, >>=-eq-ok, guard-eq-ok, ok-injective}
use gitrdone.Secrets.{hash_repo_token}
use gitrdone.Text.{Bytes, is_some}
use gitrdone.Time.{Time, seconds}

-- An error that the network gives is not the violation of a unique index.
abbrev pub Truthful : Outcome → Type 0
Truthful done = Unit
Truthful (failed e) = is_postgres_unique_violation e ≡ false
Truthful (lost e) = is_postgres_unique_violation e ≡ false

module _ (cast : Bytes → Result Bytes) (stamp : Time → Time) (sha256 : Bytes → Bytes)
    (input : CreateRepoTokenInput) where
  -- `token` is new in `t`, and `t'` is `t` with its row.
  pub record Minted (t : Tables) (token : RepoTokenRecord) (t' : Tables) : Type 0 where
    pub of_repo : cast input.repo_id ≡ ok token.repo_id
    pub scope : token.scope ≡ input.scope
    pub subject : token.subject ≡ input.subject
    pub hashed : token.token_hash ≡ hash_repo_token sha256 token.token
    pub expires : token.expires_at ≡ token.created_at +ℤ seconds input.ttl_seconds
    pub id : Bytes
    pub owner : Bytes
    pub cast_id : cast token.id ≡ ok id
    pub cast_owner : cast token.repo_id ≡ ok owner
    pub fresh_id : is_some (find_row (token_has_id id) t.repo_tokens) ≡ false
    pub fresh_hash : is_some (find_row (token_has_hash token.token_hash) t.repo_tokens) ≡ false
    pub owned : is_some (find_row (repo_has_id owner) t.repos) ≡ true
    pub stored :
        t' ≡ record t { repo_tokens = t.repo_tokens ++ token_row cast stamp id owner token ∷ [] }

  -- A call gives a token that it has stored, or an error: then it has stored nothing, or a token
  -- whose `INSERT` was done and lost its answer.
  abbrev pub Ends :
      {Files : Type 0} → Tables → List Outcome → Result RepoTokenRecord × World Files → Type 0
  Ends t outcomes (ok token, w) = Minted t token w.tables
  Ends t outcomes (err e, w) =
      (w.tables ≡ t)
      ⊎ (Among (lost e) outcomes × ((token : RepoTokenRecord) × Minted t token w.tables))

  pub insert_token_row-Minted :
      (repo : RepoRecord) (now : Time) (generated token_id : Bytes) (t t' : Tables)
      → cast input.repo_id ≡ ok repo.id
      → insert_token_row cast stamp (token_record sha256 input repo now generated token_id) t
        ≡ ok (tt, t')
      → Minted t (token_record sha256 input repo now generated token_id) t'
  unfolding insert_token_row
  insert_token_row-Minted repo now generated token_id t t' of_repo h =
      let (id, cast_id, h1) = >>=-eq-ok (cast token_id) _ h in
      let (owner, cast_owner, h2) = >>=-eq-ok (cast repo.id) _ h1 in
      let (new_id, h3) =
        guard-eq-ok (not (is_some (find_row (token_has_id id) t.repo_tokens))) _ _ h2 in
      let (new_hash, h4) =
        guard-eq-ok
          (not
            (is_some (find_row (token_has_hash (hash_repo_token sha256 generated)) t.repo_tokens)))
          _ _ h3 in
      let (owned, h5) = guard-eq-ok (is_some (find_row (repo_has_id owner) t.repos)) _ _ h4 in
      record {
        of_repo = of_repo;
        scope = refl;
        subject = refl;
        hashed = refl;
        expires = refl;
        id = id;
        owner = owner;
        cast_id = cast_id;
        cast_owner = cast_owner;
        fresh_id = ground arith;
        fresh_hash = ground arith;
        owned = owned;
        stored = sym (ap (λ p. p.1) (ok-injective h5));
      }
