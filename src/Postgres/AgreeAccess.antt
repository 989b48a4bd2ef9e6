-- ===== src/Postgres/AgreeAccess.antt =====
-- `AuthorizeGitAccess` on the two stores of internal/http/repository.go and internal/http/postgres.go.

use gitrdone.Common.{
  ◌≡◌, refl, ap, inl, inr, Bool, true, false, some, [], ◌==◌, nat_eq, list_eq, Bool-cases,
}
use gitrdone.Common.Dict.{lookup}
use gitrdone.Memory
use gitrdone.Memory.{MemoryRepoStore, put_token, token_or_zero}
use gitrdone.Postgres.Agree.{ready, kept, Agree, get_repo_lem}
use gitrdone.Postgres.AgreeTokens.{Entry, row-Entry, with_tokens}
use gitrdone.Postgres.Represents.{lookup-written, Represents, Represents-token}
use gitrdone.Postgres.Rows.{find_row-id, Option-cases}
use gitrdone.Postgres.Session.{Query, statement, check, pure, ◌>>=◌, ◌>>◌}
use gitrdone.Postgres.Store
use gitrdone.Postgres.Tables.{
  TokenRow, Tables, update_rows, select_token_by_hash, update_last_used, find_row, token_has_id,
  token_has_hash, scan_repo_token, join_found, time_from_postgres,
}
use gitrdone.Repository.{
  AuthorizeGitAccessInput, GitAccessGrant, GitStorage, RepoRecord, RepoTokenRecord,
  scope_allows_git_operation,
}
use gitrdone.Result
use gitrdone.Result.{
  Result-cases, Error, repo_token_forbidden, repo_token_invalid, Result, ok, err, guard,
}
use gitrdone.Secrets.{Reads, hash_repo_token}
use gitrdone.Text.{Bytes}
use gitrdone.Time.{Time, is_zero, before}

abbrev used_row : Time → TokenRow → TokenRow
used_row now row = record row { last_used_at = some now }

module _ {Files : Type 0} (cast : Bytes → Result Bytes) (files : Files) (reads : Reads)
    (stamp : Time → Time) (storage : GitStorage Files) (sha256 : Bytes → Bytes) (t : Tables)
    (s : MemoryRepoStore) (rep : Represents cast t s) where
  update_last_used_lem :
      (id : Bytes) (now : Time)
      → cast id ≡ ok id
      → stamp now ≡ now
      → update_last_used cast stamp id now t
        ≡ ok (tt, with_tokens t (update_rows (token_has_id id) (used_row now) t.repo_tokens))
  unfolding update_last_used
  update_last_used_lem id now c st = rw (c, st) refl

  used_rep :
      (now : Time) (row : TokenRow) (e : Entry cast t s row.id row)
      → find_row (token_has_id row.id) t.repo_tokens ≡ some row
      → Represents cast
          (with_tokens t (update_rows (token_has_id row.id) (used_row now) t.repo_tokens))
          (put_token (record (scan_repo_token e.repo row) { last_used_at = now }) s)
  used_rep now row e found =
      Represents-token cast t s rep row.id (used_row now) row _ _ found (λ r. refl) (λ r. refl)
        (λ r k. record { canonical = k.canonical; owned = k.owned; revoked_set = k.revoked_set })
        (ap (join_found (used_row now row)) e.found_repo)
        (lookup-written row.id row.id _ _ s.tokens refl refl)

  checks-Agree :
      {A : Type 0} (own live early allowed : Bool) (next : Query Files A)
      (m : Result (A × MemoryRepoStore))
      → Agree cast files reads (next (ready t files reads)) (kept s m)
      → Agree cast files reads
          ((check own repo_token_invalid
              >> (check live repo_token_invalid
                  >> (check early repo_token_invalid
                      >> (check allowed repo_token_forbidden >> next))))
            (ready t files reads))
          (kept s (
            Result.◌>>◌ (guard own repo_token_invalid) (
              Result.◌>>◌ (guard live repo_token_invalid) (
                Result.◌>>◌
                  (guard early repo_token_invalid)
                  (Result.◌>>◌ (guard allowed repo_token_forbidden) m)))))
  checks-Agree false live early allowed next m agree = (t, refl, rep)
  checks-Agree true false early allowed next m agree = (t, refl, rep)
  checks-Agree true true false allowed next m agree = (t, refl, rep)
  checks-Agree true true true false next m agree = (t, refl, rep)
  checks-Agree true true true true next m agree = agree

  -- behind the checks, on either store
  abbrev use_token : RepoRecord → RepoTokenRecord → Time → Query Files GitAccessGrant
  use_token repo token now = do
    path ← λ w. (storage.bare_repo_path w.files repo.id, w)
    statement (update_last_used cast stamp token.id now)
    pure (record { repo_id = repo.id; repo_path = path; subject = token.subject })

  abbrev used_token :
      RepoRecord → RepoTokenRecord → Time → Result (GitAccessGrant × MemoryRepoStore)
  used_token repo token now = Result.◌>>=◌ (storage.bare_repo_path files repo.id) λ path. ok (
    record { repo_id = repo.id; repo_path = path; subject = token.subject },
    put_token (record token { last_used_at = now }) s,
  )

  granted-Agree :
      (repo : RepoRecord) (now : Time) (row : TokenRow) (e : Entry cast t s row.id row)
      → find_row (token_has_id row.id) t.repo_tokens ≡ some row
      → stamp now ≡ now
      → Agree cast files reads
          (use_token repo (scan_repo_token e.repo row) now (ready t files reads))
          (kept s (used_token repo (scan_repo_token e.repo row) now))
  unfolding statement
  granted-Agree repo now row e by_id st =
      elim (Result-cases (storage.bare_repo_path files repo.id)) [
        | inl (why, failed) ↦ rw failed (t, refl, rep)
        | inr (path, has_path) ↦
            rw (has_path, update_last_used_lem row.id now e.sound.canonical st)
              (
                with_tokens t (update_rows (token_has_id row.id) (used_row now) t.repo_tokens),
                refl,
                used_rep now row e by_id,
              )
      ]

  pub authorize_git_access-Agree :
      (input : AuthorizeGitAccessInput) (now : Time)
      → cast input.repo_id ≡ ok input.repo_id
      → stamp now ≡ now
      → Agree cast files reads
          (Store.authorize_git_access cast stamp storage sha256 input now (ready t files reads))
          (kept s (Memory.authorize_git_access storage sha256 input now files s))
  unfolding Store.authorize_git_access Memory.authorize_git_access Memory.get_repo statement
      select_token_by_hash
  authorize_git_access-Agree input now c st =
      rw (get_repo_lem cast files reads stamp t s rep input.repo_id c)
        (elim (Option-cases (lookup input.repo_id s.repos)) [
          | inl no_repo ↦ rw no_repo (t, refl, rep)
          | inr (repo, has_repo) ↦ rw has_repo (elim (Bool-cases (is_zero repo.archived_at)) [
            | inr archived ↦ rw archived (t, refl, rep)
            | inl active ↦ rw active (elim (Bool-cases (input.token == [])) [
              | inl empty ↦ rw empty (t, refl, rep)
              | inr given ↦
                  rw (given, rep.hashes (hash_repo_token sha256 input.token))
                    (elim (Option-cases (
                      find_row (token_has_hash (hash_repo_token sha256 input.token))
                        t.repo_tokens)) [
                          | inl unknown ↦ rw unknown (t, refl, rep)
                          | inr (row, found) ↦
                              let by_id = find_row-id _ t.repo_tokens rep.keys found in
                              let e = row-Entry cast files reads stamp t s rep row.id row by_id in
                              rw (found, e.found_repo, e.entry)
                                (checks-Agree (row.repo_id == repo.id)
                                  (is_zero (time_from_postgres row.revoked_at))
                                  (before now row.expires_at)
                                  (scope_allows_git_operation row.scope input.operation)
                                  (use_token repo (scan_repo_token e.repo row) now)
                                  (used_token repo (scan_repo_token e.repo row) now)
                                  (granted-Agree repo now row e by_id st))
                        ])
            ])
          ])
        ])
