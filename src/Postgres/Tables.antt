-- ===== src/Postgres/Tables.antt =====
-- The tables that the migrations of internal/http/postgres.go create, and its statements as functions
-- on them. `cast` is the conversion of a parameter to uuid, and `stamp` the instant that a timestamptz
-- column keeps of one that it is given.
use gitrdone.Common.{
  Bool, false, not, ◌&&◌, Option, none, some, List, [], ◌∷◌, ◌++◌, ◌==◌, nat_eq, list_eq, pair_eq,
  if◌then◌else◌,
}
use gitrdone.Common.Dict.{Dict, lookup, insert, erase}
use gitrdone.Idempotency.{LookupKey}
use gitrdone.Memory.Listing.{sort_repo_token_records}
use gitrdone.Repository.{RepoRecord, RepoTokenRecord}
use gitrdone.Result.{Error, other, Result, ok, ◌>>=◌, ◌>>◌, guard}
use gitrdone.Text.{Bytes, codes, is_some}
use gitrdone.Time.{Time, zero_time}

pub record RepoRow : Type 0 where
  pub id : Bytes
  pub namespace : Bytes
  pub name : Bytes
  pub default_branch : Bytes
  pub archived_at : Option Time
  pub created_at : Time

pub record TokenRow : Type 0 where
  pub id : Bytes
  pub repo_id : Bytes
  pub token_hash : Bytes
  pub scope : Bytes
  pub subject : Bytes
  pub expires_at : Time
  pub created_at : Time
  pub revoked_at : Option Time
  pub last_used_at : Option Time

pub record IdempotencyRow : Type 0 where
  pub request_hash : Bytes
  pub response : Bytes
  pub expires_at : Time

pub record Tables : Type 0 where
  pub repos : List RepoRow
  pub repo_tokens : List TokenRow
  -- by the primary key (scope, key)
  pub idempotency_records : Dict LookupKey IdempotencyRow

-- an error of the server, by its code
abbrev pub sql_state : Bytes → Error
sql_state code = other (codes "SQLSTATE " ++ code)

abbrev pub unique_violation : Error
unique_violation = sql_state (codes "23505")

abbrev pub foreign_key_violation : Error
foreign_key_violation = sql_state (codes "23503")

-- `isPostgresUniqueViolation`
unfoldable pub is_postgres_unique_violation : Error → Bool
is_postgres_unique_violation (other message) = message == codes "SQLSTATE 23505"
is_postgres_unique_violation _ = false

-- `timeFromPostgres`
abbrev pub time_from_postgres : Option Time → Time
time_from_postgres none = zero_time
time_from_postgres (some t) = t

-- `COALESCE(value, otherwise)`
abbrev pub coalesce : Option Time → Time → Option Time
coalesce none otherwise = some otherwise
coalesce (some value) otherwise = some value

-- the first row of a `SELECT … WHERE`, as `QueryRow` reads it
unfoldable pub find_row {ℓ} : {A : Type ℓ} → (A → Bool) → List A → Option A
find_row where_ [] = none
find_row where_ (row ∷ rows) = if where_ row then some row else find_row where_ rows

-- `UPDATE … SET … WHERE`
unfoldable pub update_rows {ℓ} : {A : Type ℓ} → (A → Bool) → (A → A) → List A → List A
update_rows where_ set [] = []
update_rows where_ set (row ∷ rows) =
    (if where_ row then set row else row) ∷ update_rows where_ set rows

abbrev pub repo_has_id : Bytes → RepoRow → Bool
repo_has_id id row = row.id == id

abbrev pub repo_has_name : Bytes → Bytes → RepoRow → Bool
repo_has_name namespace name row = row.namespace == namespace && row.name == name

abbrev pub token_has_id : Bytes → TokenRow → Bool
token_has_id id row = row.id == id

abbrev pub token_has_hash : Bytes → TokenRow → Bool
token_has_hash hash row = row.token_hash == hash

abbrev pub token_of_repo : Bytes → Bytes → TokenRow → Bool
token_of_repo id repo_id row = row.id == id && row.repo_id == repo_id

-- `scanRepo`
abbrev pub scan_repo : RepoRow → RepoRecord
scan_repo row = record {
  id = row.id;
  namespace = row.namespace;
  name = row.name;
  default_branch = row.default_branch;
  archived_at = time_from_postgres row.archived_at;
}

-- `scanRepoToken`, on a row with the namespace and the name of its repo
abbrev pub scan_repo_token : RepoRow → TokenRow → RepoTokenRecord
scan_repo_token repo row = record {
  id = row.id;
  repo_id = row.repo_id;
  repo_namespace = repo.namespace;
  repo_name = repo.name;
  token = [];
  token_hash = row.token_hash;
  scope = row.scope;
  subject = row.subject;
  expires_at = row.expires_at;
  created_at = row.created_at;
  revoked_at = time_from_postgres row.revoked_at;
  last_used_at = time_from_postgres row.last_used_at;
}

abbrev pub join_found : TokenRow → Option RepoRow → Option RepoTokenRecord
join_found row none = none
join_found row (some repo) = some (scan_repo_token repo row)

-- `FROM repo_tokens t JOIN repos r ON r.id = t.repo_id`, at one row of `t`
abbrev pub join_repo : List RepoRow → Option TokenRow → Option RepoTokenRecord
join_repo repos none = none
join_repo repos (some row) = join_found row (find_row (repo_has_id row.repo_id) repos)

-- the rows of a repo, joined
unfoldable pub join_rows : List RepoRow → Bytes → List TokenRow → List RepoTokenRecord
join_rows repos repo_id [] = []
join_rows repos repo_id (row ∷ rows) =
    let rest = join_rows repos repo_id rows in
    if row.repo_id == repo_id
    then elim (join_repo repos (some row)) [ none ↦ rest | some token ↦ token ∷ rest ]
    else rest

-- the statements on `idempotency_records`; `jsonb` is the conversion of a parameter to jsonb
unfoldable pub select_idempotency : LookupKey → Tables → Result (Option IdempotencyRow × Tables)
select_idempotency key t = ok (lookup key t.idempotency_records, t)

unfoldable pub delete_idempotency : LookupKey → Tables → Result (Unit {0} × Tables)
delete_idempotency key t =
    ok (tt, record t { idempotency_records = erase key t.idempotency_records })

unfoldable pub insert_idempotency :
    (Bytes → Result Bytes)
    → (Time → Time)
    → LookupKey
    → IdempotencyRow
    → Tables
    → Result (Unit {0} × Tables)
insert_idempotency jsonb stamp key row t = do
  column ← jsonb row.response
  guard (not (is_some (lookup key t.idempotency_records))) unique_violation
  ok (
    tt,
    record t {
      idempotency_records =
          insert key (record row { response = column; expires_at = stamp row.expires_at })
            t.idempotency_records;
    },
  )

module _ (cast : Bytes → Result Bytes) (stamp : Time → Time) where
  -- the statement of `getRepoWithQueryer`
  unfoldable pub select_repo : Bytes → Tables → Result (Option RepoRow × Tables)
  select_repo repo_id t = do id ← cast repo_id; ok (find_row (repo_has_id id) t.repos, t)

  -- the statement of `ArchiveRepo`
  unfoldable pub update_archived : Bytes → Time → Tables → Result (Option RepoRow × Tables)
  update_archived repo_id now t = do
    id ← cast repo_id
    let rows =
        update_rows (repo_has_id id)
          (λ row. record row { archived_at = coalesce row.archived_at (stamp now) }) t.repos
    ok (find_row (repo_has_id id) rows, record t { repos = rows })

  -- the statement of `ListRepoTokens`
  unfoldable pub select_repo_tokens : Bytes → Tables → Result (List RepoTokenRecord × Tables)
  select_repo_tokens repo_id t = do
    id ← cast repo_id
    ok (sort_repo_token_records (join_rows t.repos id t.repo_tokens), t)

  -- the statement of `RevokeRepoToken`; the sub-selects of `RETURNING` find the repo
  unfoldable pub update_revoked :
      Bytes → Bytes → Time → Tables → Result (Option RepoTokenRecord × Tables)
  update_revoked token_id repo_id now t = do
    id ← cast token_id
    owner ← cast repo_id
    let rows =
        update_rows (token_of_repo id owner)
          (λ row. record row { revoked_at = coalesce row.revoked_at (stamp now) }) t.repo_tokens
    ok (join_repo t.repos (find_row (token_of_repo id owner) rows), record t { repo_tokens = rows })

  -- the second statement of `AuthorizeGitAccess`
  unfoldable pub select_token_by_hash : Bytes → Tables → Result (Option RepoTokenRecord × Tables)
  select_token_by_hash hash t =
      ok (join_repo t.repos (find_row (token_has_hash hash) t.repo_tokens), t)

  -- its last statement
  unfoldable pub update_last_used : Bytes → Time → Tables → Result (Unit {0} × Tables)
  update_last_used token_id now t = do
    id ← cast token_id
    ok (
      tt,
      record t {
        repo_tokens =
            update_rows (token_has_id id) (λ row. record row { last_used_at = some (stamp now) })
              t.repo_tokens;
      },
    )

  -- the statement of `selectRepoByName`
  unfoldable pub select_repo_by_name : Bytes → Bytes → Tables → Result (Option RepoRow × Tables)
  select_repo_by_name namespace name t = ok (find_row (repo_has_name namespace name) t.repos, t)

  -- the statement of `insertRepo`, under the primary key and `repos_namespace_name_key`
  unfoldable pub insert_repo : RepoRecord → Time → Tables → Result (Unit {0} × Tables)
  insert_repo repo created_at t = do
    id ← cast repo.id
    guard (not (is_some (find_row (repo_has_id id) t.repos))) unique_violation
    guard (not (is_some (find_row (repo_has_name repo.namespace repo.name) t.repos)))
        unique_violation
    ok (
      tt,
      record t {
        repos =
            t.repos
            ++ (record {
              id = id;
              namespace = repo.namespace;
              name = repo.name;
              default_branch = repo.default_branch;
              archived_at = none;
              created_at = stamp created_at;
            })
              ∷ [];
      },
    )

  abbrev pub token_row : Bytes → Bytes → RepoTokenRecord → TokenRow
  token_row id repo_id token = record {
    id = id;
    repo_id = repo_id;
    token_hash = token.token_hash;
    scope = token.scope;
    subject = token.subject;
    expires_at = stamp token.expires_at;
    created_at = stamp token.created_at;
    revoked_at = none;
    last_used_at = none;
  }

  -- the statement of `createRepoTokenWithQueryer`, under the primary key,
  -- `repo_tokens_token_hash_key` and the reference to `repos`
  unfoldable pub insert_token_row : RepoTokenRecord → Tables → Result (Unit {0} × Tables)
  insert_token_row token t = do
    id ← cast token.id
    owner ← cast token.repo_id
    guard (not (is_some (find_row (token_has_id id) t.repo_tokens))) unique_violation
    guard (not (is_some (find_row (token_has_hash token.token_hash) t.repo_tokens)))
        unique_violation
    guard (is_some (find_row (repo_has_id owner) t.repos)) foreign_key_violation
    ok (tt, record t { repo_tokens = t.repo_tokens ++ token_row id owner token ∷ [] })
