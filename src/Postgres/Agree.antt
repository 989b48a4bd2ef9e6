-- ===== src/Postgres/Agree.antt =====
-- The calls of `repoStore` on the two stores of internal/http: repository.go keeps maps in memory,
-- postgres.go rows in a database, here with a connection on which every statement is done.
use mathlib.Core.Option
use gitrdone.Common.{
  ◌≡◌, refl, sym, ap, ◌∙◌, inl, inr, Bool, true, false, Option, none, some, [], ◌==◌, nat_eq,
  list_eq, ==_iff, Bool-cases, if◌then◌else◌,
}
use gitrdone.Common.Dict.{Dict, lookup}
use gitrdone.Memory
use gitrdone.Memory.{MemoryRepoStore, put_repo, token_or_zero, repo_or_zero}
use gitrdone.Postgres.Represents.{
  lookup-written, lookup-there, is_set, RepoSound, Represents, Represents-repo, time-coalesce,
  coalesce-is_set,
}
use gitrdone.Postgres.Rows.{
  find_row-true, find_row-All, find_row-update_self, update_rows-none, Option-cases,
}
use gitrdone.Postgres.Session.{World, Query, statement, check, or_error, pure, ◌>>=◌, ◌>>◌}
use gitrdone.Postgres.Store
use gitrdone.Postgres.Tables.{
  RepoRow, update_rows, Tables, coalesce, time_from_postgres, select_repo, update_archived,
  scan_repo, find_row, repo_has_id,
}
use gitrdone.Repository.{RepoRecord}
use gitrdone.Result
use gitrdone.Result.{Error, repo_not_found, Result, ok, err, guard}
use gitrdone.Secrets.{Reads}
use gitrdone.Text.{Bytes}
use gitrdone.Time.{Time, is_zero}

-- a connection outside a transaction, on which every statement is done
abbrev pub ready : {Files : Type 0} → Tables → Files → Reads → World Files
ready t files reads = record {
  tables = t;
  saved = none;
  aborted = false;
  outcomes = [];
  files = files;
  reads = reads;
}

-- the store is left as it was by an error
abbrev pub kept :
    {A : Type 0} → MemoryRepoStore → Result (A × MemoryRepoStore) → Result A × MemoryRepoStore
kept s (err e) = (err e, s)
kept s (ok (a, s')) = (ok a, s')

scanned :
    {Files : Type 0} (found : Option RepoRow) (w : World Files)
    → (or_error found repo_not_found >>= λ row. pure (scan_repo row)) w
      ≡ (Result.or_fail (Option.map scan_repo found) repo_not_found, w)
scanned none w = refl
scanned (some row) w = refl

archived_as :
    (row : RepoRow) (now at : Time)
    → time_from_postgres (coalesce row.archived_at now) ≡ at
    → scan_repo (record row { archived_at = coalesce row.archived_at now })
      ≡ record (scan_repo row) { archived_at = at }
archived_as row now at same = ap (λ value. record (scan_repo row) { archived_at = value }) same

module _ {Files : Type 0} (cast : Bytes → Result Bytes) (files : Files) (reads : Reads) where
  -- the same result, and states that stand for each other
  abbrev pub Agree : {A : Type 0} → Result A × World Files → Result A × MemoryRepoStore → Type 0
  Agree {A = A} postgres memory =
      (t : Tables) × (postgres ≡ (memory.0, ready t files reads)) × Represents cast t memory.1

  pub guard-Agree :
      {A : Type 0} (b : Bool) (e : Error) (next : Query Files A) (m : Result (A × MemoryRepoStore))
      (t : Tables) (s : MemoryRepoStore)
      → Represents cast t s
      → (b ≡ true → Agree (next (ready t files reads)) (kept s m))
      → Agree ((check b e >> next) (ready t files reads)) (kept s (Result.◌>>◌ (guard b e) m))
  guard-Agree false e next m t s rep h = (t, refl, rep)
  guard-Agree true e next m t s rep h = h refl

  module _ (stamp : Time → Time) (t : Tables) (s : MemoryRepoStore)
      (rep : Represents cast t s) where
    pub get_repo_lem :
        (id : Bytes)
        → cast id ≡ ok id
        → Store.get_repo cast stamp id (ready t files reads)
          ≡ (Memory.get_repo id s, ready t files reads)
    unfolding Store.get_repo Memory.get_repo statement select_repo
    get_repo_lem id c =
        rw (c, rep.repos id) (scanned (find_row (repo_has_id id) t.repos) (ready t files reads))

    pub get_repo-Agree :
        (id : Bytes)
        → cast id ≡ ok id
        → Agree (Store.get_repo cast stamp id (ready t files reads)) (Memory.get_repo id s, s)
    get_repo-Agree id c = (t, get_repo_lem id c, rep)

    archived_set :
        (id : Bytes) (row : RepoRow)
        → find_row (repo_has_id id) t.repos ≡ some row
        → is_set row.archived_at ≡ true
    archived_set id row found =
        find_row-All RepoSound (repo_has_id id) t.repos rep.sound_repos found

    archived_rep :
        (id : Bytes) (now : Time) (row : RepoRow)
        → is_zero now ≡ false
        → find_row (repo_has_id id) t.repos ≡ some row
        → (entries : Dict Bytes RepoRecord)
        → ((j : Bytes)
            → lookup j entries ≡ (
                if id == j
                then some (scan_repo (record row { archived_at = coalesce row.archived_at now }))
                else lookup j s.repos))
        → Represents cast
            (record t {
              repos =
                  update_rows
                    (repo_has_id id)
                    (λ r. record r { archived_at = coalesce r.archived_at now })
                    t.repos;
            })
            (record s { repos = entries })
    archived_rep id now row n found entries entry =
        Represents-repo cast t s rep id _ row entries found
          (record { id = λ r. refl; namespace = λ r. refl; name = λ r. refl })
          (λ r h. coalesce-is_set r.archived_at now h n) entry

    pub archive_repo-Agree :
        (id : Bytes) (now : Time)
        → cast id ≡ ok id
        → stamp now ≡ now
        → is_zero now ≡ false
        → Agree
            (Store.archive_repo cast stamp id now (ready t files reads))
            (kept s (Memory.archive_repo id now s))
    unfolding Store.archive_repo Memory.archive_repo statement update_archived
    archive_repo-Agree id now c st n =
        let set : RepoRow → RepoRow =
          λ row. record row { archived_at = coalesce row.archived_at now } in
        let updated = find_row-update_self (λ r. r.id) set id t.repos (λ r. refl) in
        rw (c, st, rep.repos id, updated)
          (elim (Option-cases (find_row (repo_has_id id) t.repos)) [
            | inl absent ↦ rw absent (
              t,
              ap (λ rows. (err repo_not_found, ready (record t { repos = rows }) files reads))
                  (update_rows-none (repo_has_id id) set t.repos absent),
              rep,
            )
            | inr (row, found) ↦
                let step = archived_rep id now row n found in
                let read = time-coalesce row.archived_at now (archived_set id row found) in
                let there : lookup id s.repos ≡ some (scan_repo row) =
                  rep.repos id ∙ ap (Option.map scan_repo) found in
                let row_id = (==_iff row.id id).0 (find_row-true (repo_has_id id) t.repos found) in
                rw found (elim (Bool-cases (is_zero (time_from_postgres row.archived_at))) [
                  | inl hit ↦
                      let same = archived_as row now now (
                        read
                        ∙ ap (λ b. if b then now else time_from_postgres row.archived_at) hit) in
                      rw hit (
                        record t { repos = update_rows (repo_has_id id) set t.repos },
                        ap
                            (λ answer. (
                              ok answer,
                              ready (record t { repos = update_rows (repo_has_id id) set t.repos })
                                  files reads,
                            ))
                            same,
                        step _ (lookup-written id row.id _ _ s.repos row_id (sym same)),
                      )
                  | inr miss ↦
                      let same = archived_as row now (time_from_postgres row.archived_at) (
                        read
                        ∙ ap (λ b. if b then now else time_from_postgres row.archived_at) miss) in
                      rw miss (
                        record t { repos = update_rows (repo_has_id id) set t.repos },
                        ap
                            (λ answer. (
                              ok answer,
                              ready (record t { repos = update_rows (repo_has_id id) set t.repos })
                                  files reads,
                            ))
                            same,
                        step _ (lookup-there id (scan_repo row) _ s.repos there (sym same)),
                      )
                ])
          ])
