-- ===== src/Postgres/AgreeTokens.antt =====
-- `RevokeRepoToken` and `AuthorizeGitAccess` on the two stores of internal/http/repository.go and
-- internal/http/postgres.go.
use mathlib.Core.Option
use gitrdone.Common.{
  ◌≡◌, refl, sym, ap, ◌∙◌, inl, inr, true, false, none, some, List, ◌==◌, nat_eq, list_eq, ==_iff,
  Bool-cases, if◌then◌else◌,
}
use gitrdone.Common.Dict.{Dict, lookup}
use gitrdone.Memory
use gitrdone.Memory.{MemoryRepoStore, put_token, token_or_zero}
use gitrdone.Postgres.Agree.{ready, kept, Agree, get_repo_lem}
use gitrdone.Postgres.Represents.{
  TokenSound, lookup-written, lookup-there, Represents, Represents-token, time-coalesce,
  coalesce-is_set,
}
use gitrdone.Postgres.Rows.{
  find_row-true, find_row-All, find_row-update_self, update_rows-none, Option-cases, DistinctIds,
  find_row-token_of_repo, find_row-token_of_repo-none, update_rows-token_of_repo,
  update_rows-DistinctIds,
}
use gitrdone.Postgres.Session.{statement, or_error, ◌>>=◌}
use gitrdone.Postgres.Store
use gitrdone.Postgres.Tables.{
  RepoRow, TokenRow, Tables, update_rows, coalesce, time_from_postgres, update_revoked, find_row,
  repo_has_id, token_has_id, token_of_repo, scan_repo_token, join_repo, join_found,
}
use gitrdone.Repository.{RevokeRepoTokenInput, RepoTokenRecord}
use gitrdone.Result.{repo_token_not_found, Result, ok, err}
use gitrdone.Secrets.{Reads}
use gitrdone.Text.{Bytes}
use gitrdone.Text.Cut.{is_some-true}
use gitrdone.Time.{Time, is_zero}

abbrev revoked_row : Time → TokenRow → TokenRow
revoked_row now row = record row { revoked_at = coalesce row.revoked_at now }

abbrev pub with_tokens : Tables → List TokenRow → Tables
with_tokens t rows = record t { repo_tokens = rows }

module _ (cast : Bytes → Result Bytes) (stamp : Time → Time) (t : Tables) where
  update_revoked-none :
      (id owner : Bytes) (now : Time)
      → cast id ≡ ok id
      → cast owner ≡ ok owner
      → stamp now ≡ now
      → find_row (token_of_repo id owner) t.repo_tokens ≡ none
      → update_revoked cast stamp id owner now t ≡ ok (none, t)
  unfolding update_revoked
  update_revoked-none id owner now ci co st absent =
      let same = update_rows-none (token_of_repo id owner) (revoked_row now) t.repo_tokens absent in
      rw (ci, co, st, same, absent) refl

  update_revoked-some :
      (id owner : Bytes) (now : Time) (row : TokenRow) (repo : RepoRow)
      → cast id ≡ ok id
      → cast owner ≡ ok owner
      → stamp now ≡ now
      → DistinctIds t.repo_tokens
      → find_row (token_has_id id) t.repo_tokens ≡ some row
      → row.repo_id == owner ≡ true
      → find_row (repo_has_id row.repo_id) t.repos ≡ some repo
      → update_revoked cast stamp id owner now t
        ≡ ok (
          some (scan_repo_token repo (revoked_row now row)),
          with_tokens t (update_rows (token_has_id id) (revoked_row now) t.repo_tokens),
        )
  unfolding update_revoked
  update_revoked-some id owner now row repo ci co st d found own found_repo =
      let rows = update_rows (token_has_id id) (revoked_row now) t.repo_tokens in
      let same = update_rows-token_of_repo id owner (revoked_row now) t.repo_tokens d found own in
      let new : find_row (token_has_id id) rows ≡ some (revoked_row now row) =
        find_row-update_self (λ r. r.id) (revoked_row now) id t.repo_tokens (λ r. refl)
        ∙ ap (Option.map (revoked_row now)) found in
      let kept_ids =
        update_rows-DistinctIds (token_has_id id) (revoked_row now) t.repo_tokens (λ r. refl) d in
      let both =
        find_row-token_of_repo id owner rows kept_ids new
        ∙ ap (λ b. if b then some (revoked_row now row) else none) own in
      rw (ci, co, st, same, both, found_repo) refl

-- a token's row with its repo's, and the entry that stands for them
pub record Entry (cast : Bytes → Result Bytes) (t : Tables) (s : MemoryRepoStore) (id : Bytes)
    (row : TokenRow) : Type 0 where
  pub repo : RepoRow
  pub found_repo : find_row (repo_has_id row.repo_id) t.repos ≡ some repo
  pub entry : lookup id s.tokens ≡ some (scan_repo_token repo row)
  pub row_id : row.id ≡ id
  pub sound : TokenSound cast t.repos row

module _ {Files : Type 0} (cast : Bytes → Result Bytes) (files : Files) (reads : Reads)
    (stamp : Time → Time) (t : Tables) (s : MemoryRepoStore) (rep : Represents cast t s) where
  pub row-Entry :
      (id : Bytes) (row : TokenRow)
      → find_row (token_has_id id) t.repo_tokens ≡ some row
      → Entry cast t s id row
  row-Entry id row found =
      let sound =
        find_row-All (TokenSound cast t.repos) (token_has_id id) t.repo_tokens rep.sound_tokens
          found in
      let owner = is_some-true _ sound.owned in
      record {
        repo = owner.0;
        found_repo = owner.1;
        entry = rep.tokens id ∙ ap (join_repo t.repos) found ∙ ap (join_found row) owner.1;
        row_id = (==_iff row.id id).0 (find_row-true (token_has_id id) t.repo_tokens found);
        sound = sound;
      }

  revoked_rep :
      (id : Bytes) (now : Time) (row : TokenRow) (e : Entry cast t s id row)
      → is_zero now ≡ false
      → find_row (token_has_id id) t.repo_tokens ≡ some row
      → (entries : Dict Bytes RepoTokenRecord)
      → ((j : Bytes)
          → lookup j entries ≡ (
              if id == j
              then some (scan_repo_token e.repo (revoked_row now row))
              else lookup j s.tokens))
      → Represents cast
          (with_tokens t (update_rows (token_has_id id) (revoked_row now) t.repo_tokens))
          (record s { tokens = entries })
  revoked_rep id now row e n found entries entry =
      Represents-token cast t s rep id (revoked_row now) row _ entries found (λ r. refl) (λ r. refl)
        (λ r k. record {
          canonical = k.canonical;
          owned = k.owned;
          revoked_set = coalesce-is_set r.revoked_at now k.revoked_set n;
        })
        (ap (join_found (revoked_row now row)) e.found_repo) entry

  -- behind the lookups, where the token is one of the repo
  revoked-Agree :
      (input : RevokeRepoTokenInput) (now : Time) (row : TokenRow)
      → cast input.token_id ≡ ok input.token_id
      → cast input.repo_id ≡ ok input.repo_id
      → stamp now ≡ now
      → is_zero now ≡ false
      → find_row (token_has_id input.token_id) t.repo_tokens ≡ some row
      → row.repo_id == input.repo_id ≡ true
      → (e : Entry cast t s input.token_id row)
      → Agree cast files reads
          ((statement (update_revoked cast stamp input.token_id input.repo_id now) >>= λ found.
              or_error found repo_token_not_found)
            (ready t files reads))
          (kept s (ok (Memory.revoke_found (scan_repo_token e.repo row) now s)))
  unfolding statement Memory.revoke_found
  revoked-Agree input now row ct cr st n found own e =
      let out =
        update_revoked-some cast stamp t input.token_id input.repo_id now row e.repo ct cr st
          rep.keys found own e.found_repo in
      let read = time-coalesce row.revoked_at now e.sound.revoked_set in
      let t' =
        with_tokens t (update_rows (token_has_id input.token_id) (revoked_row now) t.repo_tokens) in
      let as_time : Time → RepoTokenRecord =
        λ at. record (scan_repo_token e.repo row) { revoked_at = at } in
      rw out (elim (Bool-cases (is_zero (time_from_postgres row.revoked_at))) [
        | inl hit ↦
            let same =
              ap as_time
                (read ∙ ap (λ b. if b then now else time_from_postgres row.revoked_at) hit) in
            rw hit (
              t',
              ap (λ answer. (ok answer, ready t' files reads)) same,
              revoked_rep input.token_id now row e n found _
                  (lookup-written input.token_id row.id _ _ s.tokens e.row_id (sym same)),
            )
        | inr miss ↦
            let same =
              ap as_time
                (read ∙ ap (λ b. if b then now else time_from_postgres row.revoked_at) miss) in
            rw miss (
              t',
              ap (λ answer. (ok answer, ready t' files reads)) same,
              revoked_rep input.token_id now row e n found _
                  (lookup-there input.token_id _ _ s.tokens e.entry (sym same)),
            )
      ])

  missing-Agree :
      (input : RevokeRepoTokenInput) (now : Time)
      → cast input.token_id ≡ ok input.token_id
      → cast input.repo_id ≡ ok input.repo_id
      → stamp now ≡ now
      → find_row (token_of_repo input.token_id input.repo_id) t.repo_tokens ≡ none
      → Agree cast files reads {A = RepoTokenRecord}
          ((statement (update_revoked cast stamp input.token_id input.repo_id now) >>= λ found.
              or_error found repo_token_not_found)
            (ready t files reads))
          (err repo_token_not_found, s)
  unfolding statement
  missing-Agree input now ct cr st absent =
      rw (update_revoked-none cast stamp t input.token_id input.repo_id now ct cr st absent)
        (t, refl, rep)

  pub revoke_repo_token-Agree :
      (input : RevokeRepoTokenInput) (now : Time)
      → cast input.token_id ≡ ok input.token_id
      → cast input.repo_id ≡ ok input.repo_id
      → stamp now ≡ now
      → is_zero now ≡ false
      → Agree cast files reads
          (Store.revoke_repo_token cast stamp input now (ready t files reads))
          (kept s (Memory.revoke_repo_token input now s))
  unfolding Store.revoke_repo_token Memory.revoke_repo_token Memory.get_repo
  revoke_repo_token-Agree input now ct cr st n =
      rw (get_repo_lem cast files reads stamp t s rep input.repo_id cr)
        (elim (Option-cases (lookup input.repo_id s.repos)) [
          | inl no_repo ↦ rw no_repo (t, refl, rep)
          | inr (repo, has_repo) ↦
              rw has_repo
                (elim (Option-cases (find_row (token_has_id input.token_id) t.repo_tokens)) [
                  | inl no_row ↦
                      rw (rep.tokens input.token_id, no_row)
                        (missing-Agree input now ct cr st (
                          find_row-token_of_repo-none input.token_id input.repo_id t.repo_tokens
                            no_row))
                  | inr (row, found) ↦
                      let e = row-Entry input.token_id row found in
                      elim (Bool-cases (row.repo_id == input.repo_id)) [
                        | inl own ↦
                            rw (e.entry, own) (revoked-Agree input now row ct cr st n found own e)
                        | inr foreign ↦
                            rw (e.entry, foreign)
                              (missing-Agree input now ct cr st (
                                find_row-token_of_repo input.token_id input.repo_id t.repo_tokens
                                  rep.keys found
                                ∙ ap (λ b. if b then some row else none) foreign))
                      ]
                ])
        ])
